-- ===== src/State.antt =====
-- programs/arena-lock-v2/src/state.rs: the constants and the two records that the program keeps.
-- A `Pubkey` is a number, since keys are only compared; `i64` fields are integers.
use arena_contract_sol.Prelude.{ℕ, Bool}
use arena_contract_sol.Prelude.Int.{ℤ}

abbrev pub Pubkey : Type 0
Pubkey = ℕ

abbrev pub config_size : ℕ
config_size = 640

abbrev pub position_size : ℕ
position_size = 384

abbrev pub max_arena_early_exit_penalty_bps : ℕ
max_arena_early_exit_penalty_bps = 5_000

abbrev pub reward_index_scale : ℕ
reward_index_scale = 1_000_000_000_000_000_000

abbrev pub bps_denominator : ℕ
bps_denominator = 10_000

abbrev pub arena_config_version : ℕ
arena_config_version = 2

abbrev pub arena_position_version : ℕ
arena_position_version = 2

pub record ArenaConfig : Type 0 where
  pub is_initialized : Bool
  pub version : ℕ
  pub config_id : ℕ
  pub authority : Pubkey
  pub mint : Pubkey
  pub token_program : Pubkey
  pub vault_token_account : Pubkey
  pub reward_pool_token_account : Pubkey
  pub min_lock_seconds : ℤ
  pub activation_delay_seconds : ℤ
  pub epoch_seconds : ℤ
  pub min_deposit_amount : ℕ
  pub early_exit_penalty_bps : ℕ
  pub burn_penalty_bps : ℕ
  pub decimals : ℕ
  pub config_bump : ℕ
  pub vault_authority_bump : ℕ
  pub created_ts : ℤ
  pub last_epoch_ts : ℤ
  pub current_epoch : ℕ
  pub total_locked : ℕ
  pub eligible_locked : ℕ
  pub pending_activation_locked : ℕ
  pub pending_rewards : ℕ
  pub total_rewards_funded : ℕ
  pub total_rewards_distributed : ℕ
  pub total_rewards_claimed : ℕ
  pub total_penalties_collected : ℕ
  pub total_burned : ℕ
  pub reward_index : ℕ
  pub reward_index_generation : ℕ
  pub total_rewards_expired : ℕ
  pub reward_dust : ℕ
  pub warming_locked : ℕ

pub record ArenaPosition : Type 0 where
  pub is_initialized : Bool
  pub version : ℕ
  pub config : Pubkey
  pub owner : Pubkey
  pub locked_amount : ℕ
  pub eligible_amount : ℕ
  pub pending_activation_amount : ℕ
  pub total_deposited : ℕ
  pub total_withdrawn : ℕ
  pub total_penalty_paid : ℕ
  pub total_burned : ℕ
  pub total_rewards_claimed : ℕ
  pub pending_rewards : ℕ
  pub lock_start_ts : ℤ
  pub unlock_ts : ℤ
  pub activation_ts : ℤ
  pub last_activity_ts : ℤ
  pub reward_index_checkpoint : ℕ
  pub reward_index_generation_checkpoint : ℕ
  pub position_bump : ℕ
  pub warming_amount : ℕ
  pub warming_epoch : ℕ
  pub penalty_remainder : ℕ
  pub burn_remainder : ℕ
  pub reward_accrual_remainder : ℕ
