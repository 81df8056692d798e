-- ===== src/Arena/Withdrawals/Effects.antt =====
-- What a withdrawal does to a position and to the totals.
use arena_contract_sol.Prelude.{
  ℕ, ◌+◌, ◌-◌, ◌*◌, ◌≤◌, ◌<◌, ◌≡◌, some, arith, ap, ◌∙◌, get_elem?, mul-add_eq, ◌==◌, if◌then◌else◌,
}
use arena_contract_sol.State.{ArenaConfig, ArenaPosition, reward_index_scale, bps_denominator}
use arena_contract_sol.Rewards.Index.{config_index, position_index}
use arena_contract_sol.Rewards.Accrual.{owed}
use arena_contract_sol.Penalty.{PenaltySplit}
use arena_contract_sol.Stake.Buckets.{
  from_pending, from_warming, from_eligible, reduced_config, reduced_position,
}
use arena_contract_sol.Operations.Exit.{Settlement, with_remainders}
use arena_contract_sol.Arena.{Arena}
use arena_contract_sol.Arena.Frame.{
  IsSound, IsConsistent, Effect, IsSound-at, warming_at, eligible_at, IsSound-later, locked_at,
  pending_at,
}
use arena_contract_sol.Arena.Sync.{Sync, Sync-IsSound}
use arena_contract_sol.Arena.Payment.{Paid}
use arena_contract_sol.Arena.Exits.{Finished}

-- The fields of a position that has been paid and then reduced, from those that it had before.
pub record Exited (q : ArenaPosition) (amount : ℕ) (split : PenaltySplit) (rewards : ℕ)
    (r : ArenaPosition) : Type 0 where
  pub locked : r.locked_amount ≡ q.locked_amount - amount
  pub pending : r.pending_activation_amount ≡ q.pending_activation_amount - from_pending q amount
  pub warming : r.warming_amount ≡ q.warming_amount - from_warming q amount
  pub eligible : r.eligible_amount ≡ q.eligible_amount - from_eligible q amount
  pub rewards_left : r.pending_rewards ≡ rewards
  pub carry :
      r.reward_accrual_remainder
      ≡ (if q.locked_amount - amount == 0 then 0 else q.reward_accrual_remainder)
  pub checkpoint : r.reward_index_checkpoint ≡ q.reward_index_checkpoint
  pub generation : r.reward_index_generation_checkpoint ≡ q.reward_index_generation_checkpoint
  pub penalty_carry : r.penalty_remainder ≡ split.penalty_remainder
  pub burn_carry : r.burn_remainder ≡ split.burn_remainder

pub Paid-exit :
    (amount left d pool pool' : ℕ) (split : PenaltySplit) {s : Settlement} {c₁ c₂ c₃ : ArenaConfig}
    {q₁ q₂ q₃ : ArenaPosition}
    → Paid pool c₁ q₁ pool' c₂ q₂
    → Finished amount left s c₂ (with_remainders split q₂) d c₃ q₃
    → Exited q₁ amount split q₂.pending_rewards q₃
Paid-exit amount left d pool pool' split {s} {c₁} {c₂} {c₃} {q₁} {q₂} {q₃} k f =
    let shape : ArenaPosition → ArenaPosition = λ q.
      record (reduced_position (with_remainders split q) amount) {
        pending_rewards = q₂.pending_rewards;
        total_rewards_claimed = q₂.total_rewards_claimed;
        total_withdrawn = q₃.total_withdrawn;
        total_penalty_paid = q₃.total_penalty_paid;
        total_burned = q₃.total_burned;
        last_activity_ts = q₃.last_activity_ts;
      } in
    let e : q₃ ≡ shape q₁ = f.position ∙ ap shape k.position in
    record {
      locked = ap (λ r. r.locked_amount) e;
      pending = ap (λ r. r.pending_activation_amount) e;
      warming = ap (λ r. r.warming_amount) e;
      eligible = ap (λ r. r.eligible_amount) e;
      rewards_left = ap (λ r. r.pending_rewards) e;
      carry = ap (λ r. r.reward_accrual_remainder) e;
      checkpoint = ap (λ r. r.reward_index_checkpoint) e;
      generation = ap (λ r. r.reward_index_generation_checkpoint) e;
      penalty_carry = ap (λ r. r.penalty_remainder) e;
      burn_carry = ap (λ r. r.burn_remainder) e;
    }

-- The totals of the config, in the same way.
pub record ExitedConfig (c : ArenaConfig) (q : ArenaPosition) (amount : ℕ) (c' : ArenaConfig)
    : Type 0 where
  pub total : c'.total_locked ≡ c.total_locked - amount
  pub pending : c'.pending_activation_locked ≡ c.pending_activation_locked - from_pending q amount
  pub warming : c'.warming_locked ≡ c.warming_locked - from_warming q amount
  pub eligible : c'.eligible_locked ≡ c.eligible_locked - from_eligible q amount
  pub rate : c'.early_exit_penalty_bps ≡ c.early_exit_penalty_bps
  pub burn_rate : c'.burn_penalty_bps ≡ c.burn_penalty_bps
  pub no_debt : c'.pending_rewards ≡ c.pending_rewards

pub Paid-exit_config :
    (amount left d pool pool' : ℕ) (split : PenaltySplit) {s : Settlement} {c₁ c₂ c₃ : ArenaConfig}
    {q₁ q₂ q₃ : ArenaPosition}
    → Paid pool c₁ q₁ pool' c₂ q₂
    → Finished amount left s c₂ (with_remainders split q₂) d c₃ q₃
    → ExitedConfig c₁ q₁ amount c₃
Paid-exit_config amount left d pool pool' split {s} {c₁} {c₂} {c₃} {q₁} {q₂} {q₃} k f =
    let shape : ArenaConfig → ArenaPosition → ArenaConfig = λ c q.
      record (reduced_config c q amount) {
        total_rewards_claimed = c₂.total_rewards_claimed;
        reward_index = c₃.reward_index;
        reward_index_generation = c₃.reward_index_generation;
        total_rewards_distributed = c₃.total_rewards_distributed;
        total_penalties_collected = c₃.total_penalties_collected;
        total_burned = c₃.total_burned;
      } in
    let e : c₃ ≡ shape c₁ q₁ =
      f.config ∙ ap (λ c. shape c q₂) k.config ∙ ap (λ q. shape c₁ q) k.position in
    record {
      total = ap (λ c. c.total_locked) e;
      pending = ap (λ c. c.pending_activation_locked) e;
      warming = ap (λ c. c.warming_locked) e;
      eligible = ap (λ c. c.eligible_locked) e;
      rate = ap (λ c. c.early_exit_penalty_bps) e;
      burn_rate = ap (λ c. c.burn_penalty_bps) e;
      no_debt = ap (λ c. c.pending_rewards) e;
    }

Exited-carry-le :
    {q : ArenaPosition} {amount : ℕ} {split : PenaltySplit} {rewards : ℕ} {r : ArenaPosition}
    → Exited q amount split rewards r
    → (r.reward_accrual_remainder ≤ q.reward_accrual_remainder)
      × (r.locked_amount ≡ 0 → r.reward_accrual_remainder ≡ 0)
Exited-carry-le {q} {amount} {split} {rewards} {r} x = ground (arith, x.carry, x.locked)

-- A position that has left with part of its stake is sound.
Exited-IsSound :
    (v amount : ℕ) {q : ArenaPosition} {split : PenaltySplit} {rewards : ℕ} {r : ArenaPosition}
    → IsSound v q
    → Exited q amount split rewards r
    → amount ≤ q.locked_amount
    → from_eligible q amount ≤ q.eligible_amount
    → (amount ≡ q.locked_amount → rewards ≡ 0)
    → split.penalty_remainder < bps_denominator
    → split.burn_remainder < bps_denominator
    → IsSound v r
Exited-IsSound v amount {q} {split} {rewards} {r} g x enough covered emptied hp hb =
    let (less, none_left) = Exited-carry-le x in
    record {
      buckets = omega (arith, g.buckets, x.locked, x.pending, x.warming, x.eligible);
      carry = omega (arith, g.carry, less);
      checkpoint = omega (arith, g.checkpoint, x.checkpoint);
      behind = omega (arith, g.behind, x.checkpoint, x.generation);
      penalty_carry = omega (arith, x.penalty_carry);
      burn_carry = omega (arith, x.burn_carry);
      settled = λ z.
          (omega (arith, x.locked, x.rewards_left, emptied (omega (arith, x.locked))), none_left z);
    }

module _ (a : Arena) (i : ℕ) (p : ArenaPosition) (h : IsConsistent a)
    (at : get_elem? a.positions i ≡ some p) {amount left d pool : ℕ} (split : PenaltySplit)
    {s : Settlement} {c₁ c₂ c₃ : ArenaConfig} {q₁ q₂ q₃ : ArenaPosition}
    (sync : Sync a.config p c₁ q₁) (current : position_index q₁ ≡ config_index c₁)
    (paid : Paid a.pool c₁ q₁ pool c₂ q₂)
    (f : Finished amount left s c₂ (with_remainders split q₂) d c₃ q₃) where
  -- What the arena loses and the position keeps add up to what was eligible before.
  pub exited_backed :
      left ≡ c₁.eligible_locked - from_eligible q₁ amount
      → from_eligible q₁ amount ≤ q₁.eligible_amount
      → owed (config_index c₃) q₃
          + d * (a.config.eligible_locked - p.eligible_amount)
          + a.pool * reward_index_scale
        ≤ owed (config_index a.config) p + (pool + s.reward_penalty) * reward_index_scale
  exited_backed stays covered =
      let x = Paid-exit amount left d a.pool pool split paid f in
      let (less, _) = Exited-carry-le x in
      let ahead : config_index c₃ - position_index q₃ ≡ d =
        omega (arith, x.checkpoint, x.generation, f.grows, current, ap config_index paid.config) in
      let share : q₃.eligible_amount * (config_index c₃ - position_index q₃)
          ≡ q₃.eligible_amount * d =
        ap (λ (t : ℕ). q₃.eligible_amount * t) ahead in
      let others : a.config.eligible_locked - p.eligible_amount + q₃.eligible_amount ≡ left =
        omega (arith, x.eligible, sync.eligible, eligible_at a i p h at) in
      let spread : d * (a.config.eligible_locked - p.eligible_amount) + d * q₃.eligible_amount
          ≡ d * left =
        mul-add_eq d (a.config.eligible_locked - p.eligible_amount) q₃.eligible_amount left
          others in
      omega (arith, less, share, spread, f.backed, x.rewards_left, paid.amount, sync.same_owed)

  pub withdrawn-Effect :
      (vault : ℕ)
      → vault + amount ≡ a.vault
      → left ≡ c₁.eligible_locked - from_eligible q₁ amount
      → (amount ≡ p.locked_amount → q₂.pending_rewards ≡ 0)
      → split.penalty_remainder < bps_denominator
      → split.burn_remainder < bps_denominator
      → s.reward_penalty ≤ amount
      → Effect a p d vault (pool + s.reward_penalty) c₃ q₃
  withdrawn-Effect vault kept stays emptied hp hb part =
      let x = Paid-exit amount left d a.pool pool split paid f in
      let g = Sync-IsSound sync (IsSound-at a i p h at) in
      let y = Paid-exit_config amount left d a.pool pool split paid f in
      let fewer : amount ≤ q₁.locked_amount =
        omega (arith, ap (λ q. q.locked_amount) paid.position, f.of_locked) in
      let covered : from_eligible q₁ amount ≤ q₁.eligible_amount =
        omega (arith, g.buckets, fewer) in
      let index : config_index c₃ ≡ config_index c₁ + d =
        omega (arith, f.grows, ap config_index paid.config) in
      record {
        config = record {
          index = f.bound;
          rate = omega (arith, y.rate, sync.rate, h.config.rate);
          burn_rate =
              omega (arith, y.rate, sync.rate, y.burn_rate, sync.burn_rate, h.config.burn_rate);
          no_debt = omega (arith, y.no_debt, sync.no_debt, h.config.no_debt);
        };
        index = omega (arith, index, sync.index, sync.generation);
        sound = rw index (
            IsSound-later d (
              Exited-IsSound (config_index c₁) amount g x fewer covered
                (λ z. emptied (omega (arith, sync.same_locked))) hp hb));
        total =
            omega
              (arith, y.total, sync.total, x.locked, sync.same_locked, fewer, locked_at a i p h at);
        pending =
            omega
              (arith, y.pending, sync.pending, x.pending, sync.same_pending, pending_at a i p h at);
        warming = omega (arith, y.warming, sync.warming, x.warming, warming_at a i p h at);
        eligible =
            omega (arith, y.eligible, sync.eligible, x.eligible, covered, eligible_at a i p h at);
        custody = omega (arith, y.total, sync.total, h.custody, fewer, locked_at a i p h at);
        supply = omega (arith, h.supply, paid.amount, paid.no_more);
        backed = exited_backed stays covered;
      }
