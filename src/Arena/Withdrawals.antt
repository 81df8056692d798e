-- ===== src/Arena/Withdrawals.antt =====
-- processor.rs, `process_withdraw`: a withdrawal and the invariant of the arena.
mod Effects
use arena_contract_sol.Prelude.{
  ℕ, ◌+◌, ◌-◌, ◌*◌, ◌≤◌, ◌<◌, ◌≡◌, true, some, arith, ap, ◌∙◌, subst, get_elem?, mul-add_eq, ◌==◌,
  if◌then◌else◌, ==_iff,
}
use arena_contract_sol.Prelude.Int.{ℤ}
use arena_contract_sol.Result.{
  ok, >>=-elim, ok-injective, ok_or-eq-ok, fail_if, invalid_amount, not_initialized,
}
use arena_contract_sol.Checked.{u64_limit, u128_limit}
use arena_contract_sol.State.{ArenaConfig, ArenaPosition, reward_index_scale, bps_denominator}
use arena_contract_sol.Rewards.Index.{config_index, position_index}
use arena_contract_sol.Rewards.Accrual.{owed}
use arena_contract_sol.Penalty.{PenaltySplit}
use arena_contract_sol.Stake.Buckets.{
  from_pending, from_warming, from_eligible, reduced_config, reduced_position,
}
use arena_contract_sol.Operations.Exit.{
  Preview, withdraw_preview, exit_split, Settlement, settle, with_remainders, withdraw_finish,
}
use arena_contract_sol.Arena.{Arena, withdraw_at, put, position_at, pay_pending, debit}
use arena_contract_sol.Arena.Frame.{
  IsSound, IsConsistent, Effect, IsSound-at, warming_at, eligible_at, put-IsConsistent,
  IsSound-later, debit-ok, locked_at, pending_at,
}
use arena_contract_sol.Arena.Sync.{Sync, Sync-IsSound}
use arena_contract_sol.Arena.Payment.{Paid, pay_if_full-Paid}
use arena_contract_sol.Arena.Exits.{
  Previewed, withdraw_preview-ok, settle-ok, exit_split_carries, Finished, withdraw_finish-ok,
}
use arena_contract_sol.Arena.Withdrawals.Effects.{
  Exited, Paid-exit, ExitedConfig, Paid-exit_config, exited_backed, withdrawn-Effect,
}

-- The effect of a withdrawal, from what its parts have done.
module _ (now : ℤ) (a : Arena) (i : ℕ) (p : ArenaPosition) (h : IsConsistent a)
    (at : get_elem? a.positions i ≡ some p) (amount : ℕ) {v : Preview} {pool : ℕ} {c : ArenaConfig}
    {q : ArenaPosition} {split : PenaltySplit} {s : Settlement} (k : Previewed a.config p amount v)
    (paid : Paid a.pool v.config v.position pool c q)
    (empty : v.full_exit ≡ true → q.pending_rewards ≡ 0)
    (splitting : exit_split now amount c q ≡ ok split)
    (settled : settle amount v.eligible_locked_after split ≡ ok s) where
  parts-le : (s.reward_penalty ≤ amount) × (s.returned + s.reward_penalty + s.burned ≡ amount)
  parts-le = omega (arith, settle-ok amount v.eligible_locked_after split s settled)

  carried : (split.penalty_remainder < bps_denominator) × (split.burn_remainder < bps_denominator)
  carried =
      let g = Sync-IsSound k.sync (IsSound-at a i p h at) in
      exit_split_carries now amount c q split
        (omega (arith, g.penalty_carry, ap (λ r. r.penalty_remainder) paid.position))
        (omega (arith, g.burn_carry, ap (λ r. r.burn_remainder) paid.position)) splitting

  small : s.reward_penalty < u64_limit
  small = omega (arith, h.supply, h.custody, k.enough, locked_at a i p h at, parts-le)

  index_bound : c.reward_index < u128_limit
  index_bound = omega (arith, ap (λ r. r.reward_index) paid.config, k.sync.index, h.config.index)

  full_exit_pays : amount ≡ p.locked_amount → q.pending_rewards ≡ 0
  full_exit_pays z =
      let same : (amount == p.locked_amount) ≡ true = (==_iff amount p.locked_amount).1 z in
      empty (k.full ∙ same)

  withdrawal-IsConsistent :
      (vault : ℕ) (t : ArenaConfig × ArenaPosition)
      → vault + amount ≡ a.vault
      → withdraw_finish now amount v.eligible_locked_after s c (with_remainders split q) ≡ ok t
      → IsConsistent (put a i vault (pool + s.reward_penalty) t)
  withdrawal-IsConsistent vault t kept finished =
      let (d, f) =
        withdraw_finish-ok now amount v.eligible_locked_after s c (with_remainders split q) t
          index_bound small finished in
      put-IsConsistent a i p h at (
        withdrawn-Effect a i p h at split k.sync k.current paid f vault kept k.left full_exit_pays
          carried.0 carried.1 parts-le.0)

three_debits :
    (vault x y z total : ℕ) {v₁ v₂ v₃ : ℕ}
    → debit vault x ≡ ok v₁
    → debit v₁ y ≡ ok v₂
    → debit v₂ z ≡ ok v₃
    → x + y + z ≡ total
    → v₃ + total ≡ vault
three_debits vault x y z total {v₁} {v₂} a b c e =
    omega (arith, debit-ok vault x a, debit-ok v₁ y b, debit-ok v₂ z c)

-- A successful withdrawal keeps the invariant.
pub withdraw_at-IsConsistent :
    (now : ℤ) (i amount : ℕ) (a b : Arena)
    → IsConsistent a
    → withdraw_at now i amount a ≡ ok b
    → IsConsistent b
unfolding withdraw_at
withdraw_at-IsConsistent now i amount a b h e =
    >>=-elim (fail_if (amount == 0) invalid_amount) _ e λ _ _ e.
      >>=-elim (position_at a i) _ e λ p found e.
        >>=-elim (withdraw_preview a.config p amount) _ e λ v previewed e.
          >>=-elim
            (if v.full_exit
              then pay_pending a.pool v.config v.position
              else ok (a.pool, v.config, v.position))
            _ e
            λ t paying e. >>=-elim (exit_split now amount t.1 t.2) _ e λ split splitting e.
              >>=-elim (settle amount v.eligible_locked_after split) _ e λ s settled e.
                >>=-elim (debit a.vault s.returned) _ e λ vault₁ out₁ e.
                  >>=-elim (debit vault₁ s.reward_penalty) _ e λ vault₂ out₂ e.
                    >>=-elim (debit vault₂ s.burned) _ e λ vault₃ out₃ e.
                      >>=-elim
                        (withdraw_finish now amount v.eligible_locked_after s t.1
                          (with_remainders split t.2))
                        _ e
                        λ r finished e.
                          let at = ok_or-eq-ok (get_elem? a.positions i) not_initialized found in
                          let k =
                            withdraw_preview-ok a.config p amount h.config.index
                              (IsSound-at a i p h at) (warming_at a i p h at) v previewed in
                          let (paid, empty) =
                            pay_if_full-Paid v.full_exit a.pool v.config v.position t paying in
                          let (_, all_out) =
                            parts-le now a i p h at amount k paid empty splitting settled in
                          let kept =
                            three_debits a.vault s.returned s.reward_penalty s.burned amount out₁
                              out₂ out₃ all_out in
                          subst IsConsistent (ok-injective _ _ e) (
                            withdrawal-IsConsistent now a i p h at amount k paid empty splitting
                              settled vault₃ r kept finished)
