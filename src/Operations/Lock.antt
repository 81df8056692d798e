-- ===== src/Operations/Lock.antt =====
-- processor.rs: `process_deposit`, `process_activate_position` and `process_roll_epoch` on the
-- loaded records.
use arena_contract_sol.Prelude.{ℕ, true, ◌&&◌, ltb, ◌==◌, if◌then◌else◌}
use arena_contract_sol.Prelude.Int.{ℤ, pos, ltb_ℤ}
use arena_contract_sol.Result.{
  Result, ok, fail_if, ok_or, ◌>>=◌, ◌>>◌, invalid_amount, activation_not_ready, epoch_not_ready,
  math_overflow,
}
use arena_contract_sol.Checked.{checked_add_u64, checked_add_i64, checked_sub}
use arena_contract_sol.State.{ArenaConfig, ArenaPosition, Pubkey, arena_position_version}
use arena_contract_sol.Rewards.{sat_add_u64, accrue_rewards, mature_warming_if_ready}

-- The literal for a position that does not exist yet.
abbrev pub fresh_position : Pubkey → Pubkey → ℤ → ℕ → ArenaConfig → ArenaPosition
fresh_position config_key owner_key now position_bump c = record {
  is_initialized = true;
  version = arena_position_version;
  config = config_key;
  owner = owner_key;
  locked_amount = 0;
  eligible_amount = 0;
  pending_activation_amount = 0;
  total_deposited = 0;
  total_withdrawn = 0;
  total_penalty_paid = 0;
  total_burned = 0;
  total_rewards_claimed = 0;
  pending_rewards = 0;
  lock_start_ts = now;
  unlock_ts = pos 0;
  activation_ts = pos 0;
  last_activity_ts = pos 0;
  reward_index_checkpoint = c.reward_index;
  reward_index_generation_checkpoint = c.reward_index_generation;
  position_bump = position_bump;
  warming_amount = 0;
  warming_epoch = 0;
  penalty_remainder = 0;
  burn_remainder = 0;
  reward_accrual_remainder = 0;
}

-- `mature_warming_if_ready` and then `accrue_rewards`.
unfoldable pub sync_position : ArenaConfig → ArenaPosition → Result (ArenaConfig × ArenaPosition)
sync_position c p = do
  (c', p') ← mature_warming_if_ready c p
  p'' ← accrue_rewards c' p'
  ok (c', p'')

-- The clocks of a position after a deposit that makes `min_unlock` and `min_activation` its own.
unfoldable pub deposit_clocks : ℤ → ℤ → ℤ → ArenaPosition → ArenaPosition → ArenaPosition
deposit_clocks now min_unlock min_activation before after =
    if ltb 0 before.locked_amount
    then record after {
      unlock_ts = if ltb_ℤ after.unlock_ts min_unlock then min_unlock else after.unlock_ts;
      activation_ts =
          if before.pending_activation_amount == 0
          then min_activation
          else if ltb_ℤ after.activation_ts min_activation
          then min_activation
          else after.activation_ts;
      last_activity_ts = now;
    }
    else record after {
      lock_start_ts = now;
      unlock_ts = min_unlock;
      activation_ts = min_activation;
      last_activity_ts = now;
    }

-- `process_deposit` from the position's synchronisation to the stores.
unfoldable pub deposit_credit :
    ℤ → ℕ → ArenaConfig → ArenaPosition → Result (ArenaConfig × ArenaPosition)
deposit_credit now amount c p = do
  min_unlock ← ok_or (checked_add_i64 now c.min_lock_seconds) math_overflow
  min_activation ← ok_or (checked_add_i64 now c.activation_delay_seconds) math_overflow
  locked ← ok_or (checked_add_u64 p.locked_amount amount) math_overflow
  pending ← ok_or (checked_add_u64 p.pending_activation_amount amount) math_overflow
  let p' = record p {
    locked_amount = locked;
    pending_activation_amount = pending;
    total_deposited = sat_add_u64 p.total_deposited amount;
  }
  total ← ok_or (checked_add_u64 c.total_locked amount) math_overflow
  pending_locked ← ok_or (checked_add_u64 c.pending_activation_locked amount) math_overflow
  ok (
    record c { total_locked = total; pending_activation_locked = pending_locked },
    deposit_clocks now min_unlock min_activation p p',
  )

-- The path of `process_activate_position` with nothing pending: only a maturity sync.
unfoldable pub activate_sync_only :
    ℤ → ArenaConfig → ArenaPosition → Result (ArenaConfig × ArenaPosition)
activate_sync_only now c p = do
  fail_if (p.warming_amount == 0 && p.eligible_amount == 0 && p.locked_amount == 0) invalid_amount
  p' ← accrue_rewards c p
  ok (c, record p' { last_activity_ts = now })

-- The path with a pending amount, which becomes warming stake.
unfoldable pub activate_pending :
    ℤ → ArenaConfig → ArenaPosition → Result (ArenaConfig × ArenaPosition)
activate_pending now c p = do
  fail_if (ltb_ℤ now p.activation_ts) activation_not_ready
  p' ← accrue_rewards c p
  let amount = p'.pending_activation_amount
  warming ← ok_or (checked_add_u64 p'.warming_amount amount) math_overflow
  pending_locked ← ok_or (checked_sub c.pending_activation_locked amount) math_overflow
  warming_locked ← ok_or (checked_add_u64 c.warming_locked amount) math_overflow
  ok (
    record c { pending_activation_locked = pending_locked; warming_locked = warming_locked },
    record p' {
      pending_activation_amount = 0;
      warming_epoch = if p'.warming_amount == 0 then c.current_epoch else p'.warming_epoch;
      warming_amount = warming;
      last_activity_ts = now;
    },
  )

unfoldable pub activate_update :
    ℤ → ArenaConfig → ArenaPosition → Result (ArenaConfig × ArenaPosition)
activate_update now c p = do
  (c', p') ← mature_warming_if_ready c p
  if p'.pending_activation_amount == 0
      then activate_sync_only now c' p'
      else activate_pending now c' p'

unfoldable pub roll_epoch : ℤ → ArenaConfig → Result ArenaConfig
roll_epoch now c = do
  next_epoch_ts ← ok_or (checked_add_i64 c.last_epoch_ts c.epoch_seconds) math_overflow
  fail_if (ltb_ℤ now next_epoch_ts) epoch_not_ready
  epoch ← ok_or (checked_add_u64 c.current_epoch 1) math_overflow
  ok (record c { current_epoch = epoch; last_epoch_ts = next_epoch_ts })
