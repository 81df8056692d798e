-- ===== src/Tests.antt =====
-- Runs of the model on concrete data, and the theorems applied to them.
mod Units
mod Histories
mod Encoding
mod InstructionCodec
mod Chain
mod Accounts
mod Runs
mod Refinements
mod Submissions
mod Checks
mod Crank
mod Handlers
use arena_contract_sol.Prelude.{◌*◌, true, List, [], ◌∷◌}
use arena_contract_sol.Prelude.Int.{pos}
use arena_contract_sol.State.{
  ArenaConfig, ArenaPosition, reward_index_scale, arena_config_version, arena_position_version,
}
use arena_contract_sol.Arena.{Arena}

-- A penalty of 25 %, of which a fifth is burned; each unit of eligible stake has earned 5.
abbrev pub sample_config : ArenaConfig
sample_config = record {
  is_initialized = true;
  version = arena_config_version;
  config_id = 7;
  authority = 11;
  mint = 12;
  token_program = 13;
  vault_token_account = 14;
  reward_pool_token_account = 15;
  min_lock_seconds = pos 1000;
  activation_delay_seconds = pos 100;
  epoch_seconds = pos 200;
  min_deposit_amount = 100;
  early_exit_penalty_bps = 2500;
  burn_penalty_bps = 500;
  decimals = 6;
  config_bump = 255;
  vault_authority_bump = 254;
  created_ts = pos 0;
  last_epoch_ts = pos 400;
  current_epoch = 2;
  total_locked = 1050;
  eligible_locked = 1000;
  pending_activation_locked = 20;
  pending_rewards = 0;
  total_rewards_funded = 5000;
  total_rewards_distributed = 5000;
  total_rewards_claimed = 3800;
  total_penalties_collected = 0;
  total_burned = 0;
  reward_index = 5 * reward_index_scale;
  reward_index_generation = 0;
  total_rewards_expired = 0;
  reward_dust = 0;
  warming_locked = 30;
}

-- A position with stake in every bucket, two units of the index behind.
abbrev pub alice : ArenaPosition
alice = record {
  is_initialized = true;
  version = arena_position_version;
  config = 21;
  owner = 22;
  locked_amount = 650;
  eligible_amount = 600;
  pending_activation_amount = 20;
  total_deposited = 650;
  total_withdrawn = 0;
  total_penalty_paid = 0;
  total_burned = 0;
  total_rewards_claimed = 1800;
  pending_rewards = 0;
  lock_start_ts = pos 0;
  unlock_ts = pos 1400;
  activation_ts = pos 500;
  last_activity_ts = pos 400;
  reward_index_checkpoint = 3 * reward_index_scale;
  reward_index_generation_checkpoint = 0;
  position_bump = 253;
  warming_amount = 30;
  warming_epoch = 1;
  penalty_remainder = 0;
  burn_remainder = 0;
  reward_accrual_remainder = 0;
}

-- A position whose stake is all eligible, and which is up to date.
abbrev pub bob : ArenaPosition
bob = record alice {
  owner = 23;
  locked_amount = 400;
  eligible_amount = 400;
  pending_activation_amount = 0;
  warming_amount = 0;
  warming_epoch = 0;
  reward_index_checkpoint = 5 * reward_index_scale;
}

abbrev pub sample_arena : Arena
sample_arena = record {
  config = sample_config;
  vault = 1050;
  pool = 1200;
  positions = alice ∷ bob ∷ [];
}
