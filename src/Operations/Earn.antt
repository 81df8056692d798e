-- ===== src/Operations/Earn.antt =====
-- processor.rs: `process_fund_rewards`, `process_claim_rewards` and `process_finalize_rewards` on
-- the loaded records.
use arena_contract_sol.Prelude.{ℕ, Bool, false, Option, none, some, not, ◌&&◌, ◌||◌, ltb, ◌==◌}
use arena_contract_sol.Result.{
  Result, ok, fail_if, ◌>>=◌, ◌>>◌, invalid_amount, no_eligible_stake, funding_snapshot_mismatch,
  insufficient_position_balance,
}
use arena_contract_sol.State.{ArenaConfig, ArenaPosition}
use arena_contract_sol.Rewards.{sat_add_u64, reward_index_delta, commit_rewards_to_index}
use arena_contract_sol.Operations.Lock.{sync_position}

-- The expected eligible stake and the latest epoch of a checked funding, against the config.
abbrev pub snapshot_mismatch : ArenaConfig → Option (ℕ × ℕ) → Bool
snapshot_mismatch c none = false
snapshot_mismatch c (some (expected_eligible_locked, max_current_epoch)) =
    not (c.eligible_locked == expected_eligible_locked) || ltb max_current_epoch c.current_epoch

-- The checks of `process_fund_rewards` on the config.
unfoldable pub fund_check : ArenaConfig → ℕ → Option (ℕ × ℕ) → Result ℕ
fund_check c amount expected_snapshot = do
  fail_if (c.eligible_locked == 0) no_eligible_stake
  fail_if (snapshot_mismatch c expected_snapshot) funding_snapshot_mismatch
  _ ← reward_index_delta amount c.eligible_locked
  ok c.eligible_locked

-- What `process_fund_rewards` records after the transfer.
unfoldable pub fund_commit : ArenaConfig → ℕ → ℕ → Result ArenaConfig
fund_commit c amount eligible_snapshot = do
  c' ← commit_rewards_to_index c amount eligible_snapshot
  ok (record c' { total_rewards_funded = sat_add_u64 c'.total_rewards_funded amount })

-- Whether a claim will move warming stake.
abbrev pub maturity_sync : ArenaConfig → ArenaPosition → Bool
maturity_sync c p = ltb 0 p.warming_amount && ltb p.warming_epoch c.current_epoch

unfoldable pub claim_sync : ArenaConfig → ArenaPosition → Result (ArenaConfig × ArenaPosition)
claim_sync c p = do fail_if (p.locked_amount == 0) insufficient_position_balance; sync_position c p

-- What `pay_pending_rewards` records after its transfer of the pending amount.
unfoldable pub record_claim : ArenaConfig → ArenaPosition → ArenaConfig × ArenaPosition
record_claim c p =
    let amount = p.pending_rewards in
    (
      record c { total_rewards_claimed = sat_add_u64 c.total_rewards_claimed amount },
      record p {
        pending_rewards = 0;
        total_rewards_claimed = sat_add_u64 p.total_rewards_claimed amount;
      },
    )

-- The test that nothing is staked or owed.
unfoldable pub finalize_check : ArenaConfig → Result (Unit {0})
finalize_check c =
    fail_if
      (not (c.total_locked == 0)
        || not (c.eligible_locked == 0)
        || not (c.warming_locked == 0)
        || not (c.pending_activation_locked == 0)
        || not (c.pending_rewards == 0))
      invalid_amount

-- What `burn_reward_pool_balance` records after it has burned a positive amount.
unfoldable pub record_expired : ArenaConfig → ℕ → ArenaConfig
record_expired c amount = record c {
  pending_rewards = 0;
  reward_dust = 0;
  total_rewards_expired = sat_add_u64 c.total_rewards_expired amount;
  total_burned = sat_add_u64 c.total_burned amount;
}
