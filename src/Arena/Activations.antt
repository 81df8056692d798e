-- ===== src/Arena/Activations.antt =====
-- processor.rs, `process_activate_position`: an activation and the invariant of the arena.
use arena_contract_sol.Prelude.{
  ℕ, ◌+◌, ◌-◌, ◌≤◌, ◌≡◌, some, arith, sym, ap, subst, get_elem?, ◌&&◌, ◌==◌, Bool-cases, inl, inr,
}
use arena_contract_sol.Prelude.Int.{ℤ, ltb_ℤ}
use arena_contract_sol.Result.{
  ok, >>=-eq-ok, ok-injective, ok_or-eq-ok, fail_if, invalid_amount, not_initialized,
  activation_not_ready,
}
use arena_contract_sol.State.{ArenaConfig, ArenaPosition}
use arena_contract_sol.Rewards.{accrue_rewards, mature_warming_if_ready}
use arena_contract_sol.Rewards.Index.{config_index}
use arena_contract_sol.Operations.Lock.{activate_sync_only, activate_pending, activate_update}
use arena_contract_sol.Arena.{Arena, activate_at, position_at}
use arena_contract_sol.Arena.Frame.{
  IsSound, IsConsistent, Effect, IsSound-at, warming_at, put-IsConsistent,
}
use arena_contract_sol.Arena.Sync.{Sync, Sync-IsSound, mature_accrue-Sync}
use arena_contract_sol.Arena.Payment.{Paid, Paid-Effect}

-- An activation with pending stake moves it into the warming stake.
record Activated (c : ArenaConfig) (q : ArenaPosition) (c' : ArenaConfig) (r : ArenaPosition)
    : Type 0 where
  config : c' ≡ record c {
    pending_activation_locked = c.pending_activation_locked - q.pending_activation_amount;
    warming_locked = c.warming_locked + q.pending_activation_amount;
  }
  covered : q.pending_activation_amount ≤ c.pending_activation_locked
  position : r ≡ record q {
    pending_activation_amount = 0;
    warming_amount = q.warming_amount + q.pending_activation_amount;
    warming_epoch = r.warming_epoch;
    last_activity_ts = r.last_activity_ts;
  }

activate_pending-ok :
    (now : ℤ) (c : ArenaConfig) (p : ArenaPosition) (t : ArenaConfig × ArenaPosition)
    → activate_pending now c p ≡ ok t
    → (q : ArenaPosition) × (accrue_rewards c p ≡ ok q) × Activated c q t.0 t.1
unfolding activate_pending
activate_pending-ok now c p t e =
    let (_, _, e₁) = >>=-eq-ok (fail_if (ltb_ℤ now p.activation_ts) activation_not_ready) _ e in
    let (q, acc, e₂) = >>=-eq-ok (accrue_rewards c p) _ e₁ in
    (q, acc, record { config = ground arith; covered = ground arith; position = ground arith })

activate_sync_only-ok :
    (now : ℤ) (c : ArenaConfig) (p : ArenaPosition) (t : ArenaConfig × ArenaPosition)
    → activate_sync_only now c p ≡ ok t
    → (q : ArenaPosition) × (accrue_rewards c p ≡ ok q) × ((pool : ℕ) → Paid pool c q pool t.0 t.1)
unfolding activate_sync_only
activate_sync_only-ok now c p t e =
    let (_, _, e₁) =
      >>=-eq-ok
        (fail_if (p.warming_amount == 0 && p.eligible_amount == 0 && p.locked_amount == 0)
          invalid_amount)
        _ e in
    let (q, acc, e₂) = >>=-eq-ok (accrue_rewards c p) _ e₁ in
    (
      q,
      acc,
      λ pool. record {
        config = ground arith;
        position = ground arith;
        amount = ground arith;
        no_more = ground arith;
      },
    )

module _ (a : Arena) (i : ℕ) (p : ArenaPosition) (h : IsConsistent a)
    (at : get_elem? a.positions i ≡ some p) where
  Activated-Effect :
      {c₁ : ArenaConfig} {q : ArenaPosition} {c₂ : ArenaConfig} {r : ArenaPosition}
      → Sync a.config p c₁ q
      → Activated c₁ q c₂ r
      → Effect a p 0 a.vault a.pool c₂ r
  Activated-Effect {c₁} {q} {c₂} {r} s k = record {
    config = ground arith;
    index = ground arith;
    sound = subst (λ (v : ℕ). IsSound v r) (ap config_index (sym k.config)) (still_sound synced);
    total = ground arith;
    pending = ground arith;
    warming = ground arith;
    eligible = ground arith;
    custody = ground arith;
    supply = omega arith;
    backed = ground arith;
  }
    where
      synced : IsSound (config_index c₁) q
      synced = Sync-IsSound s (IsSound-at a i p h at)

      still_sound : IsSound (config_index c₁) q → IsSound (config_index c₁) r
      still_sound g = ground arith

  activate_update-Effect :
      (now : ℤ) (t : ArenaConfig × ArenaPosition)
      → activate_update now a.config p ≡ ok t
      → Effect a p 0 a.vault a.pool t.0 t.1
  unfolding activate_update
  activate_update-Effect now t e =
      let ((c₁, q), m, e₁) = >>=-eq-ok (mature_warming_if_ready a.config p) _ e in
      let sound = IsSound-at a i p h at in
      let warm = warming_at a i p h at in
      elim (Bool-cases (q.pending_activation_amount == 0)) [
        | inl none_pending ↦
            let (r, acc, paid) = activate_sync_only-ok now c₁ q t (rw none_pending at e₁) in
            Paid-Effect a i p h at
              (mature_accrue-Sync a.config p h.config.index sound warm {r = r} m acc).0
              (paid a.pool)
        | inr some_pending ↦
            let (r, acc, k) = activate_pending-ok now c₁ q t (rw some_pending at e₁) in
            Activated-Effect
              (mature_accrue-Sync a.config p h.config.index sound warm {r = r} m acc).0 k
      ]

-- A successful activation keeps the invariant.
pub activate_at-IsConsistent :
    (now : ℤ) (i : ℕ) (a b : Arena) → IsConsistent a → activate_at now i a ≡ ok b → IsConsistent b
unfolding activate_at
activate_at-IsConsistent now i a b h e =
    let (p, found, e₁) = >>=-eq-ok (position_at a i) _ e in
    let (t, updated, e₂) = >>=-eq-ok (activate_update now a.config p) _ e₁ in
    let at = ok_or-eq-ok (get_elem? a.positions i) not_initialized found in
    subst IsConsistent (ok-injective _ _ e₂)
      (put-IsConsistent a i p h at (activate_update-Effect a i p h at now t updated))
