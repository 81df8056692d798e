-- ===== src/Operations/Exit.antt =====
-- processor.rs: `process_withdraw` on the loaded records, in the parts between which tokens move.
use arena_contract_sol.Prelude.{ℕ, Bool, ◌&&◌, ltb, ◌==◌, if◌then◌else◌, min}
use arena_contract_sol.Prelude.Int.{ℤ, ltb_ℤ}
use arena_contract_sol.Result.{
  Result, ok, fail_if, ok_or, ◌>>=◌, ◌>>◌, invalid_amount, insufficient_position_balance,
  math_overflow,
}
use arena_contract_sol.Checked.{checked_add_u64, checked_sub}
use arena_contract_sol.State.{ArenaConfig, ArenaPosition}
use arena_contract_sol.Rewards.{
  sat_add_u64, accrue_rewards, mature_warming_if_ready, try_commit_rewards_to_index,
}
use arena_contract_sol.Penalty.{PenaltySplit, penalty_split}
use arena_contract_sol.Stake.{reduce_position_stake}

-- The state after the preview: the synchronised records, whether the exit is full, and the eligible
-- stake that will be left in the arena.
pub record Preview : Type 0 where
  pub config : ArenaConfig
  pub position : ArenaPosition
  pub full_exit : Bool
  pub eligible_locked_after : ℕ

-- The eligible stake of the arena after `amount` has left the position's buckets in order.
unfoldable pub eligible_after : ArenaConfig → ArenaPosition → ℕ → Result ℕ
eligible_after c p amount = do
  let pending_reduction = min p.pending_activation_amount amount
  after_pending ← ok_or (checked_sub amount pending_reduction) math_overflow
  let warming_reduction = min p.warming_amount after_pending
  eligible_reduction ← ok_or (checked_sub after_pending warming_reduction) math_overflow
  ok_or (checked_sub c.eligible_locked eligible_reduction) math_overflow

unfoldable pub withdraw_preview : ArenaConfig → ArenaPosition → ℕ → Result Preview
withdraw_preview c p amount = do
  fail_if (ltb p.locked_amount amount) insufficient_position_balance
  (c', p') ← mature_warming_if_ready c p
  left ← eligible_after c' p' amount
  p'' ← accrue_rewards c' p'
  ok (record {
    config = c';
    position = p'';
    full_exit = amount == p'.locked_amount;
    eligible_locked_after = left;
  })

-- The split of the exit's penalty: nothing, and no remainders, once the lock is over.
unfoldable pub exit_split : ℤ → ℕ → ArenaConfig → ArenaPosition → Result PenaltySplit
exit_split now amount c p =
    if ltb_ℤ now p.unlock_ts && ltb 0 c.early_exit_penalty_bps
    then penalty_split amount c.early_exit_penalty_bps c.burn_penalty_bps p.penalty_remainder
        p.burn_remainder
    else ok (record { reward = 0; burn = 0; penalty_remainder = 0; burn_remainder = 0 })

-- The amounts that leave the vault: to the owner, to the reward pool, and out of supply.
pub record Settlement : Type 0 where
  pub reward_penalty : ℕ
  pub burned : ℕ
  pub penalty : ℕ
  pub returned : ℕ

-- Without eligible stake the whole penalty is burned.
unfoldable pub settle : ℕ → ℕ → PenaltySplit → Result Settlement
settle amount eligible_locked_after split = do
  (reward_penalty, burned) ←
      (if eligible_locked_after == 0
        then (do
          all_burned ← ok_or (checked_add_u64 split.burn split.reward) math_overflow
          ok (0, all_burned))
        else ok (split.reward, split.burn))
  penalty ← ok_or (checked_add_u64 reward_penalty burned) math_overflow
  returned ← ok_or (checked_sub amount penalty) math_overflow
  fail_if (returned == 0 && penalty == 0) invalid_amount
  ok (record {
    reward_penalty = reward_penalty;
    burned = burned;
    penalty = penalty;
    returned = returned;
  })

abbrev pub with_remainders : PenaltySplit → ArenaPosition → ArenaPosition
with_remainders s p = record p {
  penalty_remainder = s.penalty_remainder;
  burn_remainder = s.burn_remainder;
}

-- `process_withdraw` after the three token movements.
unfoldable pub withdraw_finish :
    ℤ → ℕ → ℕ → Settlement → ArenaConfig → ArenaPosition → Result (ArenaConfig × ArenaPosition)
withdraw_finish now amount eligible_locked_after s c p = do
  c' ← try_commit_rewards_to_index c s.reward_penalty eligible_locked_after
  (c'', p') ← reduce_position_stake c' p amount
  ok (
    record c'' {
      total_penalties_collected = sat_add_u64 c''.total_penalties_collected s.penalty;
      total_burned = sat_add_u64 c''.total_burned s.burned;
    },
    record p' {
      total_withdrawn = sat_add_u64 p'.total_withdrawn s.returned;
      total_penalty_paid = sat_add_u64 p'.total_penalty_paid s.penalty;
      total_burned = sat_add_u64 p'.total_burned s.burned;
      last_activity_ts = now;
    },
  )
