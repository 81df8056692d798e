-- ===== src/Arena/Finalization.antt =====
-- processor.rs, `process_finalize_rewards`: the final burn and the invariant of the arena.
use arena_contract_sol.Prelude.{
  ℕ, ◌-◌, ◌*◌, ◌≡◌, arith, refl, ap, subst, ◌==◌, sum_of, All, List, [], ◌∷◌, Bool-cases, inl, inr,
}
use arena_contract_sol.Result.{ok, >>=-eq-ok, ok-injective}
use arena_contract_sol.State.{ArenaConfig, ArenaPosition}
use arena_contract_sol.Rewards.Index.{config_index, position_index}
use arena_contract_sol.Rewards.Accrual.{owed}
use arena_contract_sol.Operations.Earn.{finalize_check, record_expired}
use arena_contract_sol.Arena.{Arena, finalize}
use arena_contract_sol.Arena.Frame.{IsSound, IsConsistent}

finalize_check-ok :
    (c : ArenaConfig) {u : Unit {0}}
    → finalize_check c ≡ ok u
    → (c.total_locked ≡ 0)
      × (c.eligible_locked ≡ 0)
      × (c.warming_locked ≡ 0)
      × (c.pending_activation_locked ≡ 0)
      × (c.pending_rewards ≡ 0)
unfolding finalize_check
finalize_check-ok c e = ground arith

-- Without stake nothing is owed.
pub no_stake-no_debt :
    (v : ℕ) (ps : List ArenaPosition)
    → All (IsSound v) ps
    → sum_of (λ p. p.locked_amount) ps ≡ 0
    → sum_of (owed v) ps ≡ 0
no_stake-no_debt v [] h e = refl
no_stake-no_debt v (p ∷ ps) h e =
    let s = h.0 in
    let empty : p.locked_amount ≡ 0 = omega arith in
    let bare : p.eligible_amount ≡ 0 = omega (arith, s.buckets) in
    omega (
      arith,
      s.settled empty,
      ap (λ (t : ℕ). t * (v - position_index p)) bare,
      no_stake-no_debt v ps h.1 (omega arith),
    )

-- A successful final burn keeps the invariant: it burns nothing that a position is owed.
pub finalize-IsConsistent : (a b : Arena) → IsConsistent a → finalize a ≡ ok b → IsConsistent b
unfolding finalize record_expired
finalize-IsConsistent a b h e =
    let (_, checked, e₁) = >>=-eq-ok (finalize_check a.config) _ e in
    let (no_stake, _, _, _, _) = finalize_check-ok a.config checked in
    let debt =
      no_stake-no_debt (config_index a.config) a.positions h.sound
        (omega (arith, h.totals.total, no_stake)) in
    elim (Bool-cases (a.pool == 0)) [
      | inl bare ↦ subst IsConsistent (ok-injective _ _ (rw bare at e₁)) h
      | inr some_pool ↦ subst IsConsistent (ok-injective _ _ (rw some_pool at e₁)) (record {
        config = omega (arith, h.config.index, h.config.rate, h.config.burn_rate);
        sound = h.sound;
        totals =
            omega (arith, h.totals.total, h.totals.pending, h.totals.warming, h.totals.eligible);
        custody = h.custody;
        supply = omega (arith, h.supply);
        solvent = omega (arith, debt);
      })
    ]

-- In a consistent arena, a final burn that succeeds happens without stake and without debt: it empties the pool, which no
-- position has a claim on, and touches neither the vault nor a position.
pub finalize-no_debt :
    (a b : Arena)
    → IsConsistent a
    → finalize a ≡ ok b
    → (sum_of (λ p. p.locked_amount) a.positions ≡ 0)
      × (sum_of (owed (config_index a.config)) a.positions ≡ 0)
      × (b.pool ≡ 0)
      × (b.vault ≡ a.vault)
      × (b.positions ≡ a.positions)
unfolding finalize record_expired
finalize-no_debt a b h e =
    let (_, checked, e₁) = >>=-eq-ok (finalize_check a.config) _ e in
    let (no_stake, _, _, _, _) = finalize_check-ok a.config checked in
    let bare : sum_of (λ p. p.locked_amount) a.positions ≡ 0 =
      omega (arith, h.totals.total, no_stake) in
    (
      bare,
      no_stake-no_debt (config_index a.config) a.positions h.sound bare,
      ground arith,
      ground arith,
      ground arith,
    )
