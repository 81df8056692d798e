-- ===== src/Arena/Earnings.antt =====
-- processor.rs, `process_claim_rewards`, `process_fund_rewards` and `process_roll_epoch`: claims,
-- fundings and epoch rolls, and the invariant of the arena.
use arena_contract_sol.Prelude.{
  ℕ, ◌+◌, ◌*◌, ◌≤◌, ◌<◌, ◌≡◌, Option, some, not, arith, sym, ap, subst, get_elem?, ◌&&◌, ◌==◌,
}
use arena_contract_sol.Prelude.Int.{ℤ}
use arena_contract_sol.Result.{
  ok, >>=-eq-ok, ok-injective, ok_or-eq-ok, fail_if, invalid_amount, not_initialized, no_rewards,
  insufficient_position_balance, no_eligible_stake, funding_snapshot_mismatch,
}
use arena_contract_sol.Checked.{u64_limit, u128_limit}
use arena_contract_sol.State.{ArenaConfig, ArenaPosition, reward_index_scale}
use arena_contract_sol.Rewards.{reward_index_delta, commit_rewards_to_index}
use arena_contract_sol.Rewards.Index.{config_index, commit_rewards_to_index-ok}
use arena_contract_sol.Operations.Lock.{roll_epoch}
use arena_contract_sol.Operations.Earn.{
  fund_check, fund_commit, claim_sync, maturity_sync, snapshot_mismatch,
}
use arena_contract_sol.Arena.{Arena, claim_at, fund, roll, position_at, pay_pending, supply_check}
use arena_contract_sol.Arena.Frame.{
  IsConsistent, IsSound-at, warming_at, put-IsConsistent, All-IsSound-later, sum_of-owed-later,
  supply_check-ok,
}
use arena_contract_sol.Arena.Sync.{Sync, sync_position-Sync}
use arena_contract_sol.Arena.Payment.{Paid, Paid-Effect, pay_pending-Paid}

claim_sync-Sync :
    (a : Arena) (i : ℕ) (p : ArenaPosition)
    → IsConsistent a
    → get_elem? a.positions i ≡ some p
    → (t : ArenaConfig × ArenaPosition) → claim_sync a.config p ≡ ok t
    → Sync a.config p t.0 t.1
unfolding claim_sync
claim_sync-Sync a i p h at t e =
    let (_, _, e₁) = >>=-eq-ok (fail_if (p.locked_amount == 0) insufficient_position_balance) _ e in
    (sync_position-Sync a.config p h.config.index (IsSound-at a i p h at) (warming_at a i p h at) t
      e₁).0

stamped-Paid :
    (now : ℤ) {pool pool' : ℕ} {c c' : ArenaConfig} {p q : ArenaPosition}
    → Paid pool c p pool' c' q
    → Paid pool c p pool' c' (record q { last_activity_ts = now })
stamped-Paid now k = record {
  config = k.config;
  position = ground arith;
  amount = k.amount;
  no_more = k.no_more;
}

-- A successful claim keeps the invariant.
pub claim_at-IsConsistent :
    (now : ℤ) (i : ℕ) (a b : Arena) → IsConsistent a → claim_at now i a ≡ ok b → IsConsistent b
unfolding claim_at
claim_at-IsConsistent now i a b h e =
    let (p, found, e₁) = >>=-eq-ok (position_at a i) _ e in
    let ((c₁, q), synced, e₂) = >>=-eq-ok (claim_sync a.config p) _ e₁ in
    let (_, _, e₃) =
      >>=-eq-ok (fail_if (q.pending_rewards == 0 && not (maturity_sync a.config p)) no_rewards) _
        e₂ in
    let ((pool, c₂, r), paid, e₄) = >>=-eq-ok (pay_pending a.pool c₁ q) _ e₃ in
    let at = ok_or-eq-ok (get_elem? a.positions i) not_initialized found in
    let s = claim_sync-Sync a i p h at (c₁, q) synced in
    let (k, _) = pay_pending-Paid a.pool c₁ q (pool, c₂, r) paid in
    subst IsConsistent (ok-injective _ _ e₄)
      (put-IsConsistent a i p h at (Paid-Effect a i p h at s (stamped-Paid now k)))

-- Rolling an epoch touches only the epoch and its time.
roll_epoch-ok :
    (now : ℤ) (c c' : ArenaConfig)
    → roll_epoch now c ≡ ok c'
    → c' ≡ record c { current_epoch = c.current_epoch + 1; last_epoch_ts = c'.last_epoch_ts }
unfolding roll_epoch
roll_epoch-ok now c c' e = ground arith

-- A successful roll keeps the invariant.
pub roll-IsConsistent :
    (now : ℤ) (a b : Arena) → IsConsistent a → roll now a ≡ ok b → IsConsistent b
unfolding roll
roll-IsConsistent now a b h e =
    let (c, rolled, e₁) = >>=-eq-ok (roll_epoch now a.config) _ e in
    let same = roll_epoch-ok now a.config c rolled in
    subst IsConsistent (ok-injective _ _ e₁)
      (subst (λ k. IsConsistent (record a { config = k })) (sym same) (unaffected c))
  where
    unaffected :
        (c : ArenaConfig)
        → IsConsistent (record a {
          config = record a.config {
            current_epoch = a.config.current_epoch + 1;
            last_epoch_ts = c.last_epoch_ts;
          };
        })
    unaffected c = record {
      config = omega (arith, h.config.index, h.config.rate, h.config.burn_rate, h.config.no_debt);
      sound = h.sound;
      totals = omega (arith, h.totals.total, h.totals.pending, h.totals.warming, h.totals.eligible);
      custody = h.custody;
      supply = h.supply;
      solvent = h.solvent;
    }

-- What a funding does to the config.
fund_commit-ok :
    (c c' : ArenaConfig) (amount eligible : ℕ)
    → c.reward_index < u128_limit
    → amount < u64_limit
    → fund_commit c amount eligible ≡ ok c'
    → (d : ℕ) × (c' ≡ record c {
      reward_index = c'.reward_index;
      reward_index_generation = c'.reward_index_generation;
      total_rewards_distributed = c'.total_rewards_distributed;
      total_rewards_funded = c'.total_rewards_funded;
    })
      × (config_index c' ≡ config_index c + d)
      × (c'.reward_index < u128_limit)
      × (d * eligible ≤ amount * reward_index_scale)
unfolding fund_commit
fund_commit-ok c c' amount eligible hc ha e =
    let (c₁, committed, e₁) = >>=-eq-ok (commit_rewards_to_index c amount eligible) _ e in
    let (d, k) = commit_rewards_to_index-ok c amount eligible hc ha committed in
    (d, ground (arith, k.config), ground (arith, k.grows), ground (arith, k.bound), k.backed)

fund_check-ok :
    (c : ArenaConfig) (amount : ℕ) (expected : Option (ℕ × ℕ)) (snapshot : ℕ)
    → fund_check c amount expected ≡ ok snapshot
    → snapshot ≡ c.eligible_locked
unfolding fund_check
fund_check-ok c amount expected snapshot e =
    let (_, _, e₁) = >>=-eq-ok (fail_if (c.eligible_locked == 0) no_eligible_stake) _ e in
    let (_, _, e₂) =
      >>=-eq-ok (fail_if (snapshot_mismatch c expected) funding_snapshot_mismatch) _ e₁ in
    let (_, _, e₃) = >>=-eq-ok (reward_index_delta amount c.eligible_locked) _ e₂ in
    sym (ok-injective _ _ e₃)

-- A funding adds to the pool what it adds to the scaled units that the positions are owed, or more.
funded-IsConsistent :
    (amount d : ℕ) (a : Arena) (c : ArenaConfig)
    → IsConsistent a
    → a.vault + a.pool + amount < u64_limit
    → c ≡ record a.config {
      reward_index = c.reward_index;
      reward_index_generation = c.reward_index_generation;
      total_rewards_distributed = c.total_rewards_distributed;
      total_rewards_funded = c.total_rewards_funded;
    }
    → config_index c ≡ config_index a.config + d
    → c.reward_index < u128_limit
    → d * a.config.eligible_locked ≤ amount * reward_index_scale
    → IsConsistent (record a { config = c; pool = a.pool + amount })
funded-IsConsistent amount d a c h fits same grows bound backed = record {
  config = ground arith;
  sound = rw grows (All-IsSound-later (config_index a.config) d a.positions h.sound);
  totals = ground (arith, h.totals.total, h.totals.pending, h.totals.warming, h.totals.eligible);
  custody = ground arith;
  supply = omega arith;
  solvent = rw grows (
      omega (
        arith,
        sum_of-owed-later (config_index a.config) d a.positions h.sound,
        ap (λ (t : ℕ). t * d) h.totals.eligible,
        h.solvent,
        backed,
      ));
}

-- A successful funding keeps the invariant.
pub fund-IsConsistent :
    (amount : ℕ) (expected : Option (ℕ × ℕ)) (a b : Arena)
    → IsConsistent a
    → fund amount expected a ≡ ok b
    → IsConsistent b
unfolding fund
fund-IsConsistent amount expected a b h e =
    let (_, _, e₁) = >>=-eq-ok (fail_if (amount == 0) invalid_amount) _ e in
    let (n, checked, e₂) = >>=-eq-ok (fund_check a.config amount expected) _ e₁ in
    let (_, supply, e₃) = >>=-eq-ok (supply_check a amount) _ e₂ in
    let (c, committed, e₄) = >>=-eq-ok (fund_commit a.config amount n) _ e₃ in
    let fits = supply_check-ok a amount supply in
    let (d, same, grows, bound, backed) =
      fund_commit-ok a.config c amount n h.config.index (omega arith) committed in
    let snapshot = fund_check-ok a.config amount expected n checked in
    subst IsConsistent (ok-injective _ _ e₄) (
      funded-IsConsistent amount d a c h fits same grows bound
        (omega (arith, backed, ap (λ (t : ℕ). d * t) snapshot)))
