-- ===== src/Arena/Deposits.antt =====
-- processor.rs, `process_deposit`: a deposit and the invariant of the arena.
use arena_contract_sol.Prelude.{ℕ, ◌+◌, ◌<◌, ◌≡◌, some, arith, sym, ap, subst, get_elem?, ltb}
use arena_contract_sol.Prelude.Int.{ℤ}
use arena_contract_sol.Result.{
  ok, >>=-eq-ok, ok-injective, ok_or-eq-ok, fail_if, invalid_amount, not_initialized,
}
use arena_contract_sol.Checked.{u64_limit}
use arena_contract_sol.State.{ArenaConfig, ArenaPosition}
use arena_contract_sol.Rewards.Index.{config_index}
use arena_contract_sol.Operations.Lock.{sync_position, deposit_clocks, deposit_credit}
use arena_contract_sol.Arena.{Arena, deposit_at, position_at, supply_check}
use arena_contract_sol.Arena.Frame.{
  IsSound, IsConsistent, Effect, IsSound-at, warming_at, put-IsConsistent, supply_check-ok,
}
use arena_contract_sol.Arena.Sync.{Sync, Sync-IsSound, sync_position-Sync, owed-same}

-- A deposit adds its amount to the locked and the pending stake, and changes no other amount.
pub record Credit (amount : ℕ) (c : ArenaConfig) (p : ArenaPosition) (c' : ArenaConfig)
    (q : ArenaPosition) : Type 0 where
  pub config : c' ≡ record c {
    total_locked = c.total_locked + amount;
    pending_activation_locked = c.pending_activation_locked + amount;
  }
  pub locked : q.locked_amount ≡ p.locked_amount + amount
  pub pending : q.pending_activation_amount ≡ p.pending_activation_amount + amount
  pub warming : q.warming_amount ≡ p.warming_amount
  pub eligible : q.eligible_amount ≡ p.eligible_amount
  pub rewards : q.pending_rewards ≡ p.pending_rewards
  pub carry : q.reward_accrual_remainder ≡ p.reward_accrual_remainder
  pub checkpoint : q.reward_index_checkpoint ≡ p.reward_index_checkpoint
  pub generation : q.reward_index_generation_checkpoint ≡ p.reward_index_generation_checkpoint
  pub penalty_carry : q.penalty_remainder ≡ p.penalty_remainder
  pub burn_carry : q.burn_remainder ≡ p.burn_remainder

pub deposit_credit-Credit :
    (now : ℤ) (amount : ℕ) (c : ArenaConfig) (p : ArenaPosition) (t : ArenaConfig × ArenaPosition)
    → deposit_credit now amount c p ≡ ok t
    → Credit amount c p t.0 t.1
unfolding deposit_credit deposit_clocks
deposit_credit-Credit now amount c p t e = ground arith

Credit-IsSound :
    (v amount : ℕ) {c : ArenaConfig} {p : ArenaPosition} {c' : ArenaConfig} {q : ArenaPosition}
    → Credit amount c p c' q
    → IsSound v p
    → IsSound v q
Credit-IsSound v amount k h = ground arith

module _ (a : Arena) (i : ℕ) (p : ArenaPosition) (h : IsConsistent a)
    (at : get_elem? a.positions i ≡ some p) where
  Credit-Effect :
      (amount : ℕ) {c₁ : ArenaConfig} {q : ArenaPosition} {c₂ : ArenaConfig} {r : ArenaPosition}
      → a.vault + a.pool + amount < u64_limit
      → Sync a.config p c₁ q
      → Credit amount c₁ q c₂ r
      → Effect a p 0 (a.vault + amount) a.pool c₂ r
  Credit-Effect amount {c₁} {q} {c₂} {r} fits s k = record {
    config = ground arith;
    index = ground arith;
    sound =
        subst (λ (v : ℕ). IsSound v r) (ap config_index (sym k.config))
          (Credit-IsSound (config_index c₁) amount k (Sync-IsSound s (IsSound-at a i p h at)));
    total = ground arith;
    pending = ground arith;
    warming = ground arith;
    eligible = ground arith;
    custody = ground arith;
    supply = omega arith;
    backed = ground (
      arith,
      owed-same (config_index a.config) q r k.rewards k.carry k.eligible k.checkpoint k.generation,
    );
  }

-- A successful deposit keeps the invariant.
pub deposit_at-IsConsistent :
    (now : ℤ) (i amount : ℕ) (a b : Arena)
    → IsConsistent a
    → deposit_at now i amount a ≡ ok b
    → IsConsistent b
unfolding deposit_at
deposit_at-IsConsistent now i amount a b h e =
    let (_, _, e₁) =
      >>=-eq-ok (fail_if (ltb amount a.config.min_deposit_amount) invalid_amount) _ e in
    let (p, found, e₂) = >>=-eq-ok (position_at a i) _ e₁ in
    let (_, fits, e₃) = >>=-eq-ok (supply_check a amount) _ e₂ in
    let ((c₁, q), synced, e₄) = >>=-eq-ok (sync_position a.config p) _ e₃ in
    let (r, credited, e₅) = >>=-eq-ok (deposit_credit now amount c₁ q) _ e₄ in
    let at = ok_or-eq-ok (get_elem? a.positions i) not_initialized found in
    let (s, _) =
      sync_position-Sync a.config p h.config.index (IsSound-at a i p h at) (warming_at a i p h at)
        (c₁, q) synced in
    let k = deposit_credit-Credit now amount c₁ q r credited in
    subst IsConsistent (ok-injective _ _ e₅) (
      put-IsConsistent a i p h at
        (Credit-Effect a i p h at amount (supply_check-ok a amount fits) s k))
