-- ===== src/Arena/Liveness.antt =====
-- processor.rs, `process_withdraw`: the conditions under which a withdrawal from an arena succeeds.
mod Steps
use arena_contract_sol.Prelude.{
  ℕ, ◌+◌, ◌-◌, ◌*◌, ◌≤◌, ◌<◌, ◌≡◌, Bool, true, false, some, List, [], ◌∷◌, arith, refl, ap,
  get_elem?, ◌&&◌, ◌==◌, ltb, if◌then◌else◌, Bool-cases, inl, inr, sum_of, All,
}
use arena_contract_sol.Prelude.Int.{ℤ, ltb_ℤ}
use arena_contract_sol.Result.{
  ok, ◌>>=◌, Succeeds, Succeeds-bind, Succeeds-at, Succeeds-fail_if, fail_if, invalid_amount,
  insufficient_position_balance,
}
use arena_contract_sol.Checked.{u64_limit, u128_limit}
use arena_contract_sol.State.{ArenaConfig, ArenaPosition, reward_index_scale, bps_denominator}
use arena_contract_sol.Rewards.{
  accrue_rewards, mature_warming_if_ready, try_commit_rewards_to_index,
}
use arena_contract_sol.Rewards.Index.{
  config_index, position_index, try_commit_rewards_to_index_total, try_commit_rewards_to_index-ok,
}
use arena_contract_sol.Rewards.Accrual.{owed, accrued, accrue_rewards_total}
use arena_contract_sol.Rewards.Maturity.{matured, matured_config, mature_warming_if_ready_total}
use arena_contract_sol.Penalty.{PenaltySplit, penalty_split}
use arena_contract_sol.Penalty.Split.{penalty_split_exact, taken-le, burned-le}
use arena_contract_sol.Stake.{reduce_position_stake}
use arena_contract_sol.Stake.Buckets.{
  from_pending, from_warming, from_eligible, reduce_position_stake_total,
}
use arena_contract_sol.Operations.Exit.{
  Preview, eligible_after, withdraw_preview, exit_split, Settlement, settle, with_remainders,
  withdraw_finish,
}
use arena_contract_sol.Arena.{Arena, withdraw_at, position_at, pay_pending, debit, put}
use arena_contract_sol.Arena.Frame.{
  debit_total, IsSound, IsConfigSound, IsConsistent, IsSound-at, warming_at, eligible_at,
  pending_at, locked_at, owed_at,
}
use arena_contract_sol.Arena.Sync.{Sync, Sync-IsSound, Sync-matured}
use arena_contract_sol.Arena.Payment.{Paid, pay_if_full-Paid}
use arena_contract_sol.Arena.Exits.{Previewed, withdraw_preview-ok, settle-ok}
use arena_contract_sol.Arena.Liveness.Steps.{
  sums_add_up, totals_add_up, eligible_after_total, matured-behind, owed-fits, Sync-matured_at,
  mature_succeeds, accrue_succeeds, preview-Succeeds, early_split_total, exit_split_total,
  settle_total, finish_total, payment_total,
}

module _ (now : ℤ) (a : Arena) (i amount : ℕ) (p : ArenaPosition) (h : IsConsistent a)
    (at : get_elem? a.positions i ≡ some p) (pos : 0 < amount)
    (room : a.config.reward_index_generation + 1 < u64_limit) {v : Preview}
    (k : Previewed a.config p amount v) where
  sync-IsSound : IsSound (config_index v.config) v.position
  sync-IsSound = Sync-IsSound k.sync (IsSound-at a i p h at)

  fits : amount < u64_limit
  fits = omega (arith, k.enough, locked_at a i p h at, h.custody, h.supply)

  -- The pool covers the pending rewards of the position that is paid.
  covered : v.position.pending_rewards ≤ a.pool
  covered = omega (arith, owed_at a i p h at, k.sync.same_owed)

  module _ {pool : ℕ} {c : ArenaConfig} {q : ArenaPosition}
      (paid : Paid a.pool v.config v.position pool c q) where
    paid-IsConfigSound : IsConfigSound c
    paid-IsConfigSound = record {
      index = omega (arith, ap (λ r. r.reward_index) paid.config, k.sync.index, h.config.index);
      rate =
          omega (arith, ap (λ r. r.early_exit_penalty_bps) paid.config, k.sync.rate, h.config.rate);
      burn_rate = omega (
        arith,
        ap (λ r. r.early_exit_penalty_bps) paid.config,
        ap (λ r. r.burn_penalty_bps) paid.config,
        k.sync.rate,
        k.sync.burn_rate,
        h.config.burn_rate,
      );
      no_debt =
          omega (arith, ap (λ r. r.pending_rewards) paid.config, k.sync.no_debt, h.config.no_debt);
    }

    paid_finish_total :
        (left : ℕ) (split : PenaltySplit) (s : Settlement)
        → s.reward_penalty ≤ amount
        → Succeeds (withdraw_finish now amount left s c (with_remainders split q))
    paid_finish_total left split s part =
        let g = sync-IsSound in
        let e₁ = ap (λ r. r.pending_activation_amount) paid.position in
        let e₂ = ap (λ r. r.warming_amount) paid.position in
        let e₃ = ap (λ r. r.eligible_amount) paid.position in
        let e₄ = ap (λ r. r.locked_amount) paid.position in
        finish_total now amount left s c (with_remainders split q) paid-IsConfigSound.index
          (omega (arith, part, fits))
          (omega (arith, room, k.sync.generation, ap (λ r. r.reward_index_generation) paid.config))
          (omega (
            arith,
            e₁,
            ap (λ r. r.pending_activation_locked) paid.config,
            k.sync.pending,
            k.sync.same_pending,
            pending_at a i p h at,
          ))
          (omega (
            arith,
            e₁,
            e₂,
            ap (λ r. r.warming_locked) paid.config,
            k.sync.warming,
            warming_at a i p h at,
          ))
          (omega (arith, e₁, e₂, e₃, g.buckets, k.enough, k.sync.same_locked))
          (omega (
            arith,
            e₁,
            e₂,
            ap (λ r. r.eligible_locked) paid.config,
            g.buckets,
            k.enough,
            k.sync.same_locked,
            k.sync.eligible,
            eligible_at a i p h at,
          ))
          (omega (arith, e₄, k.enough, k.sync.same_locked))
          (omega (
            arith,
            ap (λ r. r.total_locked) paid.config,
            k.sync.total,
            k.enough,
            locked_at a i p h at,
          ))

    -- What follows the payment in a withdrawal cannot fail.
    paid_exit-Succeeds : Succeeds (do
      split ← exit_split now amount c q
      s ← settle amount v.eligible_locked_after split
      vault ← debit a.vault s.returned
      vault' ← debit vault s.reward_penalty
      vault'' ← debit vault' s.burned
      r ← withdraw_finish now amount v.eligible_locked_after s c (with_remainders split q)
      ok (put a i vault'' (pool + s.reward_penalty) r))
    paid_exit-Succeeds =
        let g = sync-IsSound in
        let (split, splitting, part) =
          exit_split_total now amount c q paid-IsConfigSound pos fits
            (omega (arith, g.penalty_carry, ap (λ r. r.penalty_remainder) paid.position))
            (omega (arith, g.burn_carry, ap (λ r. r.burn_remainder) paid.position)) in
        Succeeds-at (exit_split now amount c q) _ splitting (
          Succeeds-bind (settle amount v.eligible_locked_after split) _
            (settle_total amount v.eligible_locked_after split pos fits part)
            λ s settled.
              let (back, shares, _, _) = settle-ok amount v.eligible_locked_after split s settled in
              let all : amount ≤ a.vault =
                omega (arith, k.enough, locked_at a i p h at, h.custody) in
              Succeeds-at (debit a.vault s.returned) _ (debit_total _ _ (omega (arith, all, back)))
                (Succeeds-at (debit (a.vault - s.returned) s.reward_penalty) _
                  (debit_total _ _ (omega (arith, all, back, shares)))
                  (Succeeds-at (debit (a.vault - s.returned - s.reward_penalty) s.burned) _
                    (debit_total _ _ (omega (arith, all, back, shares)))
                    (Succeeds-bind
                      (withdraw_finish now amount v.eligible_locked_after s c
                        (with_remainders split q))
                      _
                      (paid_finish_total v.eligible_locked_after split s
                        (omega (arith, back, shares)))
                      λ r _. (_, refl)))))

-- Under the invariant a withdrawal of any part of the locked stake succeeds, whatever the clock
-- shows, if the index has moved by less than 2 ^ 128 since the position's checkpoint and the
-- generation counter is not at its end.
pub withdraw_at-Succeeds :
    (now : ℤ) (a : Arena) (i amount : ℕ) (p : ArenaPosition)
    → IsConsistent a
    → get_elem? a.positions i ≡ some p
    → 0 < amount
    → amount ≤ p.locked_amount
    → config_index a.config < position_index p + u128_limit
    → a.config.reward_index_generation + 1 < u64_limit
    → Succeeds (withdraw_at now i amount a)
unfolding withdraw_at
withdraw_at-Succeeds now a i amount p h at pos enough near room =
    Succeeds-bind (fail_if (amount == 0) invalid_amount) _ (Succeeds-fail_if _ _ (ground arith))
      λ _ _. Succeeds-at (position_at a i) _ {a = p} (rw at) (
        Succeeds-bind (withdraw_preview a.config p amount) _
          (preview-Succeeds a i p h at near amount enough)
          λ v previewed.
            let k =
              withdraw_preview-ok a.config p amount h.config.index (IsSound-at a i p h at)
                (warming_at a i p h at) v previewed in
            Succeeds-bind
              (if v.full_exit
                then pay_pending a.pool v.config v.position
                else ok (a.pool, v.config, v.position))
              _
              (payment_total v.full_exit a.pool v.config v.position
                (covered now a i amount p h at pos room k))
              λ t paying.
                paid_exit-Succeeds now a i amount p h at pos room k
                  (pay_if_full-Paid v.full_exit a.pool v.config v.position t paying).0)
