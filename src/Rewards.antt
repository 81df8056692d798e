-- ===== src/Rewards.antt =====
-- programs/arena-lock-v2/src/processor.rs: the reward index and its accrual by positions.
pub mod Index
pub mod Accrual
pub mod Maturity
pub mod Frequency
use arena_contract_sol.Prelude.{ℕ, ◌-◌, ◌&&◌, ◌||◌, not, ltb, leb, ◌==◌, if◌then◌else◌}
use arena_contract_sol.Result.{
  Result, ok, fail_if, ok_or, ◌>>=◌, ◌>>◌, invalid_amount, math_overflow,
}
use arena_contract_sol.Checked.{
  u128_limit, saturating_add_u64, checked_add_u64, try_from_u64, checked_add_u128, checked_mul_u128,
  overflowing_add_u128, checked_sub, checked_div, checked_rem,
}
use arena_contract_sol.State.{ArenaConfig, ArenaPosition, reward_index_scale}

unfoldable pub sat_add_u64 : ℕ → ℕ → ℕ
sat_add_u64 a b = saturating_add_u64 a b

unfoldable pub reward_index_delta : ℕ → ℕ → Result ℕ
reward_index_delta amount eligible = do
  fail_if (amount == 0 || eligible == 0) invalid_amount
  scaled ← ok_or (checked_mul_u128 amount reward_index_scale) math_overflow
  delta ← ok_or (checked_div scaled eligible) math_overflow
  fail_if (delta == 0) invalid_amount
  ok delta

unfoldable pub add_reward_index : ArenaConfig → ℕ → Result ArenaConfig
add_reward_index config delta =
    let (next, wrapped) = overflowing_add_u128 config.reward_index delta in
    if wrapped
    then (do
      generation ← ok_or (checked_add_u64 config.reward_index_generation 1) math_overflow
      ok (record config { reward_index = next; reward_index_generation = generation }))
    else ok (record config { reward_index = next })

-- The telemetry that both commit functions update after the index.
abbrev pub count_distributed : ℕ → ArenaConfig → ArenaConfig
count_distributed amount config = record config {
  total_rewards_distributed = sat_add_u64 config.total_rewards_distributed amount;
}

unfoldable pub commit_rewards_to_index : ArenaConfig → ℕ → ℕ → Result ArenaConfig
commit_rewards_to_index config amount eligible_snapshot = do
  delta ← reward_index_delta amount eligible_snapshot
  config' ← add_reward_index config delta
  ok (count_distributed amount config')

-- `if let Ok(delta) = ..`: the error of the division is dropped, that of the index is not.
abbrev pub commit_if_ok : ArenaConfig → ℕ → Result ℕ → Result ArenaConfig
commit_if_ok config amount (ok delta) = do
  config' ← add_reward_index config delta
  ok (count_distributed amount config')
commit_if_ok config amount (Result.err e) = ok config

unfoldable pub try_commit_rewards_to_index : ArenaConfig → ℕ → ℕ → Result ArenaConfig
try_commit_rewards_to_index config amount eligible_snapshot =
    if amount == 0 || eligible_snapshot == 0
    then ok config
    else commit_if_ok config amount (reward_index_delta amount eligible_snapshot)

unfoldable pub reward_index_delta_since : ArenaConfig → ArenaPosition → Result ℕ
reward_index_delta_since config position =
    if config.reward_index_generation == position.reward_index_generation_checkpoint
    then (do
      fail_if (ltb config.reward_index position.reward_index_checkpoint) math_overflow
      ok_or (checked_sub config.reward_index position.reward_index_checkpoint) math_overflow)
    else do
      generation_delta ←
          ok_or
            (checked_sub config.reward_index_generation position.reward_index_generation_checkpoint)
            math_overflow
      fail_if (not (generation_delta == 1)) math_overflow
      tail ← ok_or (checked_sub (u128_limit - 1) position.reward_index_checkpoint) math_overflow
      tail' ← ok_or (checked_add_u128 tail 1) math_overflow
      ok_or (checked_add_u128 tail' config.reward_index) math_overflow

-- The last two assignments of `accrue_rewards` and of `mature_warming_if_ready`.
abbrev pub checkpoint_at : ArenaConfig → ArenaPosition → ArenaPosition
checkpoint_at config position = record position {
  reward_index_checkpoint = config.reward_index;
  reward_index_generation_checkpoint = config.reward_index_generation;
}

-- The body of the `if` in `accrue_rewards`.
unfoldable pub accrue_delta : ArenaPosition → ℕ → Result ArenaPosition
accrue_delta position delta = do
  product ← ok_or (checked_mul_u128 position.eligible_amount delta) math_overflow
  scaled ← ok_or (checked_add_u128 product position.reward_accrual_remainder) math_overflow
  earned ← ok_or (checked_div scaled reward_index_scale) math_overflow
  remainder ← ok_or (checked_rem scaled reward_index_scale) math_overflow
  earned' ← ok_or (try_from_u64 earned) math_overflow
  pending ← ok_or (checked_add_u64 position.pending_rewards earned') math_overflow
  ok (record position { reward_accrual_remainder = remainder; pending_rewards = pending })

unfoldable pub accrue_rewards : ArenaConfig → ArenaPosition → Result ArenaPosition
accrue_rewards config position = do
  delta ← reward_index_delta_since config position
  position' ←
      (if ltb 0 delta && ltb 0 position.eligible_amount
        then accrue_delta position delta
        else ok position)
  ok (checkpoint_at config position')

-- The promotion of `mature_warming_if_ready`, after its two early returns.
unfoldable pub promote_warming : ArenaConfig → ArenaPosition → Result (ArenaConfig × ArenaPosition)
promote_warming config position = do
  position' ← accrue_rewards config position
  let amount = position'.warming_amount
  eligible ← ok_or (checked_add_u64 position'.eligible_amount amount) math_overflow
  warming_locked ← ok_or (checked_sub config.warming_locked amount) math_overflow
  eligible_locked ← ok_or (checked_add_u64 config.eligible_locked amount) math_overflow
  let config' = record config { warming_locked = warming_locked; eligible_locked = eligible_locked }
  ok (
    config',
    checkpoint_at config' (record position' { warming_amount = 0; eligible_amount = eligible }),
  )

unfoldable pub mature_warming_if_ready :
    ArenaConfig → ArenaPosition → Result (ArenaConfig × ArenaPosition)
mature_warming_if_ready config position =
    if position.warming_amount == 0
    then ok (config, position)
    else if leb config.current_epoch position.warming_epoch
    then ok (config, position)
    else promote_warming config position
