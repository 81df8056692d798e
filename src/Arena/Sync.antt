-- ===== src/Arena/Sync.antt =====
-- processor.rs, `mature_warming_if_ready` and `accrue_rewards`: what synchronising a position
-- changes in the accounting of the arena.
use arena_contract_sol.Prelude.{ℕ, ◌+◌, ◌-◌, ◌*◌, ◌≤◌, ◌<◌, ◌≡◌, arith, refl, ap, subst, ◌∙◌}
use arena_contract_sol.Result.{ok, >>=-eq-ok, ok-injective}
use arena_contract_sol.Checked.{u128_limit}
use arena_contract_sol.State.{ArenaConfig, ArenaPosition, reward_index_scale}
use arena_contract_sol.Rewards.{accrue_rewards, mature_warming_if_ready}
use arena_contract_sol.Rewards.Index.{config_index, position_index}
use arena_contract_sol.Rewards.Accrual.{owed, accrued, accrue_rewards-ok}
use arena_contract_sol.Rewards.Maturity.{matured, matured_config, mature_warming_if_ready-ok}
use arena_contract_sol.Operations.Lock.{sync_position}
use arena_contract_sol.Arena.Frame.{IsSound, IsConfigSound}

pub record Sync (c : ArenaConfig) (p : ArenaPosition) (c' : ArenaConfig) (q : ArenaPosition)
    : Type 0 where
  pub index : c'.reward_index ≡ c.reward_index
  pub generation : c'.reward_index_generation ≡ c.reward_index_generation
  pub rate : c'.early_exit_penalty_bps ≡ c.early_exit_penalty_bps
  pub burn_rate : c'.burn_penalty_bps ≡ c.burn_penalty_bps
  pub no_debt : c'.pending_rewards ≡ c.pending_rewards
  pub epoch : c'.current_epoch ≡ c.current_epoch
  pub total : c'.total_locked ≡ c.total_locked
  pub pending : c'.pending_activation_locked ≡ c.pending_activation_locked
  pub warming : c'.warming_locked + p.warming_amount ≡ c.warming_locked + q.warming_amount
  pub eligible : c'.eligible_locked + p.eligible_amount ≡ c.eligible_locked + q.eligible_amount
  pub same_locked : q.locked_amount ≡ p.locked_amount
  pub same_pending : q.pending_activation_amount ≡ p.pending_activation_amount
  pub moved : q.warming_amount + q.eligible_amount ≡ p.warming_amount + p.eligible_amount
  pub same_penalty : q.penalty_remainder ≡ p.penalty_remainder
  pub same_burn : q.burn_remainder ≡ p.burn_remainder
  pub carry : q.reward_accrual_remainder < reward_index_scale
  pub checkpoint : q.reward_index_checkpoint < u128_limit
  pub behind : position_index q ≤ config_index c
  pub same_owed : owed (config_index c) q ≡ owed (config_index c) p

module _ (c : ArenaConfig) (p : ArenaPosition) (hc : c.reward_index < u128_limit)
    (h : IsSound (config_index c) p) where
  pub Sync-refl : Sync c p c p
  Sync-refl = omega (arith, h.carry, h.checkpoint, h.behind)

  pub Sync-accrued : Sync c p c (accrued c p)
  Sync-accrued = ground arith

  pub Sync-matured :
      p.warming_amount ≤ c.warming_locked → Sync c p (matured_config c p) (matured c p)
  Sync-matured hw = ground arith

module _ {c : ArenaConfig} {p : ArenaPosition} {c' : ArenaConfig} {q : ArenaPosition}
    (s : Sync c p c' q) where
  -- A synchronised position is sound.
  pub Sync-IsSound : IsSound (config_index c) p → IsSound (config_index c') q
  Sync-IsSound h = record {
    buckets = omega arith;
    carry = s.carry;
    checkpoint = s.checkpoint;
    behind = omega arith;
    penalty_carry = omega arith;
    burn_carry = omega arith;
    settled = λ z. no_stake_no_debt (omega arith);
  }
    where
      no_stake_no_debt :
          p.locked_amount ≡ 0 → (q.pending_rewards ≡ 0) × (q.reward_accrual_remainder ≡ 0)
      no_stake_no_debt z =
          let e : p.eligible_amount ≡ 0 = omega arith in
          let f : p.eligible_amount * (config_index c - position_index p) ≡ 0 =
            ap (λ (t : ℕ). t * (config_index c - position_index p)) e ∙ omega arith in
          omega (arith, f, h.settled z, s.same_owed)

  pub Sync-IsConfigSound : IsConfigSound c → IsConfigSound c'
  Sync-IsConfigSound h = omega arith

  pub Sync-trans : {c'' : ArenaConfig} {r : ArenaPosition} → Sync c' q c'' r → Sync c p c'' r
  Sync-trans {c''} {r} t =
      let e : config_index c' ≡ config_index c = omega arith in
      let o : owed (config_index c) r ≡ owed (config_index c) q = rw (← e) t.same_owed in
      omega (arith, o)

module _ (c : ArenaConfig) (p : ArenaPosition) (hc : c.reward_index < u128_limit)
    (h : IsSound (config_index c) p) (hw : p.warming_amount ≤ c.warming_locked) where
  pub mature-Sync :
      {c' : ArenaConfig} {q : ArenaPosition}
      → mature_warming_if_ready c p ≡ ok (c', q)
      → Sync c p c' q
  mature-Sync e =
      let (ec, eq, _) = mature_warming_if_ready-ok c p hc h.checkpoint h.carry e in
      rw (ec, eq) (Sync-matured c p hc h hw)

module _ (c : ArenaConfig) (p : ArenaPosition) (hc : c.reward_index < u128_limit)
    (h : IsSound (config_index c) p) where
  -- An accrual also brings the position up to the index.
  pub accrue-Sync :
      {q : ArenaPosition}
      → accrue_rewards c p ≡ ok q
      → Sync c p c q × (position_index q ≡ config_index c)
  accrue-Sync {q} e =
      let (eq, _) = accrue_rewards-ok c p hc h.checkpoint h.carry e in
      rw eq (Sync-accrued c p hc h, refl)

module _ (c : ArenaConfig) (p : ArenaPosition) (hc : c.reward_index < u128_limit)
    (h : IsSound (config_index c) p) (hw : p.warming_amount ≤ c.warming_locked) where
  -- Maturing and then accruing.
  pub mature_accrue-Sync :
      {c' : ArenaConfig} {q r : ArenaPosition}
      → mature_warming_if_ready c p ≡ ok (c', q)
      → accrue_rewards c' q ≡ ok r
      → Sync c p c' r × (position_index r ≡ config_index c')
  mature_accrue-Sync {c'} {q} m e =
      let s = mature-Sync c p hc h hw m in
      let (t, up) = accrue-Sync c' q (omega arith) (Sync-IsSound s h) e in (Sync-trans s t, up)

  pub sync_position-Sync :
      (t : ArenaConfig × ArenaPosition)
      → sync_position c p ≡ ok t
      → Sync c p t.0 t.1 × (position_index t.1 ≡ config_index t.0)
  unfolding sync_position
  sync_position-Sync t e =
      let ((c₁, q), m, e₁) = >>=-eq-ok (mature_warming_if_ready c p) _ e in
      let (r, a, e₂) = >>=-eq-ok (accrue_rewards c₁ q) _ e₁ in
      subst (λ t. Sync c p t.0 t.1 × (position_index t.1 ≡ config_index t.0))
        (ok-injective (c₁, r) t e₂) (mature_accrue-Sync m a)

-- What is owed depends on five fields only.
pub owed-same :
    (v : ℕ) (p q : ArenaPosition)
    → q.pending_rewards ≡ p.pending_rewards
    → q.reward_accrual_remainder ≡ p.reward_accrual_remainder
    → q.eligible_amount ≡ p.eligible_amount
    → q.reward_index_checkpoint ≡ p.reward_index_checkpoint
    → q.reward_index_generation_checkpoint ≡ p.reward_index_generation_checkpoint
    → owed v q ≡ owed v p
owed-same v p q a b c d e = ground arith
