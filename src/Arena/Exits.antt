-- ===== src/Arena/Exits.antt =====
-- processor.rs, `process_withdraw`: the parts of a withdrawal on the arena.
use arena_contract_sol.Prelude.{
  ℕ, ◌+◌, ◌-◌, ◌*◌, ◌≤◌, ◌<◌, ◌≡◌, arith, ap, subst, ◌==◌, ltb, ltb→le,
}
use arena_contract_sol.Prelude.Int.{ℤ}
use arena_contract_sol.Result.{
  ok, >>=-eq-ok, ok-injective, fail_if, fail_if-eq-ok, insufficient_position_balance,
}
use arena_contract_sol.Checked.{u64_limit, u128_limit}
use arena_contract_sol.State.{ArenaConfig, ArenaPosition, reward_index_scale, bps_denominator}
use arena_contract_sol.Rewards.{
  accrue_rewards, mature_warming_if_ready, try_commit_rewards_to_index,
}
use arena_contract_sol.Rewards.Index.{config_index, position_index, try_commit_rewards_to_index-ok}
use arena_contract_sol.Rewards.Accrual.{accrue_rewards-ok}
use arena_contract_sol.Penalty.{PenaltySplit}
use arena_contract_sol.Penalty.Split.{penalty_split_carries}
use arena_contract_sol.Stake.{reduce_position_stake}
use arena_contract_sol.Stake.Buckets.{
  from_pending, from_warming, from_eligible, reduced_config, reduced_position,
  reduce_position_stake-ok,
}
use arena_contract_sol.Operations.Exit.{
  Preview, eligible_after, withdraw_preview, exit_split, Settlement, settle, withdraw_finish,
}
use arena_contract_sol.Arena.Frame.{IsSound}
use arena_contract_sol.Arena.Sync.{Sync, Sync-IsSound, mature-Sync, mature_accrue-Sync}

-- What is left of the arena's eligible stake is the total less the position's last bucket.
pub eligible_after-ok :
    (c : ArenaConfig) (p : ArenaPosition) (amount : ℕ) {left : ℕ}
    → eligible_after c p amount ≡ ok left
    → (left ≡ c.eligible_locked - from_eligible p amount)
      × (from_eligible p amount ≤ c.eligible_locked)
unfolding eligible_after
eligible_after-ok c p amount e = ground arith

-- A preview synchronises the position and computes what the exit will leave.
pub record Previewed (c : ArenaConfig) (p : ArenaPosition) (amount : ℕ) (v : Preview) : Type 0 where
  pub enough : amount ≤ p.locked_amount
  pub sync : Sync c p v.config v.position
  pub current : position_index v.position ≡ config_index v.config
  pub full : v.full_exit ≡ (amount == p.locked_amount)
  pub left : v.eligible_locked_after ≡ v.config.eligible_locked - from_eligible v.position amount

module _ (c : ArenaConfig) (p : ArenaPosition) (amount : ℕ) (hc : c.reward_index < u128_limit)
    (h : IsSound (config_index c) p) (hw : p.warming_amount ≤ c.warming_locked) where
  pub withdraw_preview-ok :
      (v : Preview) → withdraw_preview c p amount ≡ ok v → Previewed c p amount v
  unfolding withdraw_preview
  withdraw_preview-ok v e =
      let (_, short, e₁) =
        >>=-eq-ok (fail_if (ltb p.locked_amount amount) insufficient_position_balance) _ e in
      let ((c₁, q), m, e₂) = >>=-eq-ok (mature_warming_if_ready c p) _ e₁ in
      let (left, after, e₃) = >>=-eq-ok (eligible_after c₁ q amount) _ e₂ in
      let (r, acc, e₄) = >>=-eq-ok (accrue_rewards c₁ q) _ e₃ in
      let matured = mature-Sync c p hc h hw m in
      let sound = Sync-IsSound matured h in
      let (same, _) = accrue_rewards-ok c₁ q (omega arith) sound.checkpoint sound.carry acc in
      let (both, current) = mature_accrue-Sync c p hc h hw {r = r} m acc in
      let (l, _) = eligible_after-ok c₁ q amount after in
      subst (Previewed c p amount) (ok-injective _ _ e₄) (record {
        enough = omega (arith, ltb→le p.locked_amount amount (fail_if-eq-ok _ _ short));
        sync = both;
        current = current;
        full = ap (λ n. amount == n) matured.same_locked;
        left = ground (arith, l, same);
      })

pub settle-ok :
    (amount left : ℕ) (split : PenaltySplit) (s : Settlement)
    → settle amount left split ≡ ok s
    → (s.returned + s.penalty ≡ amount)
      × (s.reward_penalty + s.burned ≡ s.penalty)
      × (s.penalty ≡ split.reward + split.burn)
      × (left ≡ 0 → s.reward_penalty ≡ 0)
unfolding settle
settle-ok amount left split s e = ground arith

pub exit_split_carries :
    (now : ℤ) (amount : ℕ) (c : ArenaConfig) (p : ArenaPosition) (s : PenaltySplit)
    → p.penalty_remainder < bps_denominator
    → p.burn_remainder < bps_denominator
    → exit_split now amount c p ≡ ok s
    → (s.penalty_remainder < bps_denominator) × (s.burn_remainder < bps_denominator)
unfolding exit_split
exit_split_carries now amount c p s hp hb e = ground (
  arith,
  penalty_split_carries amount c.early_exit_penalty_bps c.burn_penalty_bps p.penalty_remainder
      p.burn_remainder {s = s} hp hb,
)

-- What the last part of a withdrawal does to the records.
pub record Finished (amount left : ℕ) (s : Settlement) (c : ArenaConfig) (p : ArenaPosition) (d : ℕ)
    (c' : ArenaConfig) (q : ArenaPosition) : Type 0 where
  pub config : c' ≡ record (reduced_config c p amount) {
    reward_index = c'.reward_index;
    reward_index_generation = c'.reward_index_generation;
    total_rewards_distributed = c'.total_rewards_distributed;
    total_penalties_collected = c'.total_penalties_collected;
    total_burned = c'.total_burned;
  }
  pub grows : config_index c' ≡ config_index c + d
  pub bound : c'.reward_index < u128_limit
  pub backed : d * left ≤ s.reward_penalty * reward_index_scale
  pub position : q ≡ record (reduced_position p amount) {
    total_withdrawn = q.total_withdrawn;
    total_penalty_paid = q.total_penalty_paid;
    total_burned = q.total_burned;
    last_activity_ts = q.last_activity_ts;
  }
  pub of_pending : from_pending p amount ≤ c.pending_activation_locked
  pub of_warming : from_warming p amount ≤ c.warming_locked
  pub of_eligible : from_eligible p amount ≤ p.eligible_amount
  pub of_all_eligible : from_eligible p amount ≤ c.eligible_locked
  pub of_locked : amount ≤ p.locked_amount
  pub of_total : amount ≤ c.total_locked

pub withdraw_finish-ok :
    (now : ℤ) (amount left : ℕ) (s : Settlement) (c : ArenaConfig) (p : ArenaPosition)
    (t : ArenaConfig × ArenaPosition)
    → c.reward_index < u128_limit
    → s.reward_penalty < u64_limit
    → withdraw_finish now amount left s c p ≡ ok t
    → (d : ℕ) × Finished amount left s c p d t.0 t.1
unfolding withdraw_finish
withdraw_finish-ok now amount left s c p t hc hs e =
    let (c₁, tried, e₁) = >>=-eq-ok (try_commit_rewards_to_index c s.reward_penalty left) _ e in
    let (u, reduced, e₂) = >>=-eq-ok (reduce_position_stake c₁ p amount) _ e₁ in
    let (d, k) = try_commit_rewards_to_index-ok c s.reward_penalty left hc hs tried in
    let r = reduce_position_stake-ok c₁ p amount reduced in
    (
      d,
      record {
        config = ground (arith, k.config, r);
        position = ground (arith, r);
        grows = ground (arith, k.grows, r);
        bound = ground (arith, k.bound, r);
        backed = k.backed;
        of_pending = ground (arith, k.config, r);
        of_warming = ground (arith, k.config, r);
        of_eligible = ground (arith, k.config, r);
        of_all_eligible = ground (arith, k.config, r);
        of_locked = ground (arith, k.config, r);
        of_total = ground (arith, k.config, r);
      },
    )
