-- ===== src/Tests/Runs.antt =====
-- The transactions of the sample arena, run on its accounts.
use arena_contract_sol.Prelude.{◌*◌, ◌≡◌, true, none, some, [], ◌∷◌, refl}
use arena_contract_sol.Prelude.Int.{ℤ, pos, ◌+ℤ◌, ◌*ℤ◌}
use arena_contract_sol.Result.{Result}
use arena_contract_sol.State.{ArenaConfig, ArenaPosition, reward_index_scale}
use arena_contract_sol.Platform.{World}
use arena_contract_sol.Policy.{
  ConfigParams, assert_config_params, assert_lock_policy, assert_rate_charges,
}
use arena_contract_sol.Accounts.{
  next_account_info, assert_signer, assert_writable, assert_owned_by, store_bytes,
  assert_supported_token_program, load_config, load_position, store_config, store_position,
  config_pda, position_pda, vault_authority_pda, assert_key, assert_config_pda, assert_position_pda,
  assert_uninitialized, assert_system_program, create_program_account,
}
use arena_contract_sol.Tokens.{
  unpack_token_account, assert_token_account, assert_custody_token_account, transfer_checked_ix,
  burn_checked_ix, transfer_from_program_token_account, burn_from_vault, pay_pending_rewards,
  burn_reward_pool_balance, mint_decimals, fixed_supply_decimals,
}
use arena_contract_sol.Rewards.{
  sat_add_u64, reward_index_delta, add_reward_index, try_commit_rewards_to_index,
  commit_rewards_to_index, reward_index_delta_since, accrue_delta, accrue_rewards, promote_warming,
  mature_warming_if_ready,
}
use arena_contract_sol.Penalty.{bps_share, burn_split, penalty_split}
use arena_contract_sol.Stake.{
  reduce_pending, reduce_warming, reduce_eligible, reduce_locked, reduce_position_stake,
}
use arena_contract_sol.Operations.Lock.{
  sync_position, fresh_position, deposit_credit, deposit_clocks, activate_update, activate_pending,
  roll_epoch,
}
use arena_contract_sol.Operations.Earn.{
  claim_sync, record_claim, fund_check, fund_commit, finalize_check, record_expired,
}
use arena_contract_sol.Operations.Exit.{
  eligible_after, withdraw_preview, exit_split, settle, withdraw_finish,
}
use arena_contract_sol.Processor.Entry.{
  process_deposit, deposit_position, process_activate_position,
}
use arena_contract_sol.Processor.Funding.{process_fund_rewards}
use arena_contract_sol.Processor.Exit.{process_withdraw, process_claim_rewards}
use arena_contract_sol.Processor.Setup.{
  process_initialize_config, initial_config, process_roll_epoch, process_finalize_rewards,
}
use arena_contract_sol.Tests.{sample_config, alice, bob}
use arena_contract_sol.Tests.Chain.{chain, with_cell}
use arena_contract_sol.Tests.Accounts.{chain_world, account, after, is_ok}
use arena_contract_sol.Tests.Encoding.{
  encode_config, decode_config, encode_position, decode_position, bool_byte, read_bool, sign_byte,
  size_byte, read_ℤ,
}

abbrev pub at_time : ℤ → World
at_time now = chain_world sample_config alice bob 1050 1200 now

abbrev pub withdraw_run : Result World
withdraw_run =
    process_withdraw chain 100 (at_time (pos 520))
      (account 22
        ∷ account 40
        ∷ account 21
        ∷ account 30
        ∷ account 14
        ∷ account 16
        ∷ account 15
        ∷ account 12
        ∷ account 13
        ∷ [])
      200

pub withdraw_run-is_ok : is_ok withdraw_run ≡ true
unfolding process_withdraw burn_checked_ix burn_from_vault bps_share burn_split penalty_split
    reduce_pending reduce_warming reduce_eligible reduce_locked reduce_position_stake eligible_after
    withdraw_preview exit_split settle withdraw_finish transfer_from_program_token_account
    pay_pending_rewards claim_sync record_claim sat_add_u64 reward_index_delta add_reward_index
    try_commit_rewards_to_index reward_index_delta_since accrue_delta accrue_rewards promote_warming
    mature_warming_if_ready sync_position next_account_info assert_signer assert_writable
    assert_owned_by store_bytes assert_supported_token_program load_config load_position
    store_config store_position config_pda position_pda vault_authority_pda assert_key
    assert_config_pda assert_position_pda unpack_token_account assert_token_account
    assert_custody_token_account transfer_checked_ix encode_config decode_config encode_position
    decode_position bool_byte read_bool sign_byte size_byte read_ℤ
withdraw_run-is_ok = refl

abbrev pub claim_run : Result World
claim_run = process_claim_rewards chain 100 (at_time (pos 520)) (
    account 22
    ∷ account 40
    ∷ account 21
    ∷ account 30
    ∷ account 15
    ∷ account 16
    ∷ account 12
    ∷ account 13
    ∷ [])

pub claim_run-is_ok : is_ok claim_run ≡ true
unfolding process_claim_rewards transfer_from_program_token_account pay_pending_rewards claim_sync
    record_claim sat_add_u64 reward_index_delta add_reward_index try_commit_rewards_to_index
    reward_index_delta_since accrue_delta accrue_rewards promote_warming mature_warming_if_ready
    sync_position next_account_info assert_signer assert_writable assert_owned_by store_bytes
    assert_supported_token_program load_config load_position store_config store_position config_pda
    position_pda vault_authority_pda assert_key assert_config_pda assert_position_pda
    unpack_token_account assert_token_account assert_custody_token_account transfer_checked_ix
    encode_config decode_config encode_position decode_position bool_byte read_bool sign_byte
    size_byte read_ℤ
claim_run-is_ok = refl

abbrev pub fund_run : Result World
fund_run =
    process_fund_rewards chain 100 (at_time (pos 520))
      (account 22 ∷ account 40 ∷ account 21 ∷ account 15 ∷ account 12 ∷ account 13 ∷ []) 300 none

pub fund_run-is_ok : is_ok fund_run ≡ true
unfolding commit_rewards_to_index process_fund_rewards fund_check fund_commit sat_add_u64
    reward_index_delta add_reward_index try_commit_rewards_to_index reward_index_delta_since
    accrue_delta accrue_rewards promote_warming mature_warming_if_ready sync_position
    next_account_info assert_signer assert_writable assert_owned_by store_bytes
    assert_supported_token_program load_config load_position store_config store_position config_pda
    position_pda vault_authority_pda assert_key assert_config_pda assert_position_pda
    unpack_token_account assert_token_account assert_custody_token_account transfer_checked_ix
    encode_config decode_config encode_position decode_position bool_byte read_bool sign_byte
    size_byte read_ℤ
fund_run-is_ok = refl

abbrev pub roll_run : Result World
roll_run =
    process_roll_epoch chain 100 (at_time (pos 600))
      (account 21 ∷ account 15 ∷ account 16 ∷ account 12 ∷ account 13 ∷ [])

pub roll_run-is_ok : is_ok roll_run ≡ true
unfolding ◌+ℤ◌ process_roll_epoch roll_epoch sat_add_u64 reward_index_delta add_reward_index
    try_commit_rewards_to_index reward_index_delta_since accrue_delta accrue_rewards promote_warming
    mature_warming_if_ready sync_position next_account_info assert_signer assert_writable
    assert_owned_by store_bytes assert_supported_token_program load_config load_position
    store_config store_position config_pda position_pda vault_authority_pda assert_key
    assert_config_pda assert_position_pda unpack_token_account assert_token_account
    assert_custody_token_account transfer_checked_ix encode_config decode_config encode_position
    decode_position bool_byte read_bool sign_byte size_byte read_ℤ
roll_run-is_ok = refl

abbrev pub activate_run : Result World
activate_run =
    process_activate_position chain 100 (at_time (pos 520)) (
      account 22 ∷ account 21 ∷ account 30 ∷ account 15 ∷ account 16 ∷ account 12 ∷ account 13 ∷ [])

pub activate_run-is_ok : is_ok activate_run ≡ true
unfolding activate_pending process_activate_position activate_update sat_add_u64 reward_index_delta
    add_reward_index try_commit_rewards_to_index reward_index_delta_since accrue_delta
    accrue_rewards promote_warming mature_warming_if_ready sync_position next_account_info
    assert_signer assert_writable assert_owned_by store_bytes assert_supported_token_program
    load_config load_position store_config store_position config_pda position_pda
    vault_authority_pda assert_key assert_config_pda assert_position_pda unpack_token_account
    assert_token_account assert_custody_token_account transfer_checked_ix encode_config
    decode_config encode_position decode_position bool_byte read_bool sign_byte size_byte read_ℤ
activate_run-is_ok = refl

abbrev pub deposit_run : Result World
deposit_run =
    process_deposit chain 100 (at_time (pos 520))
      (account 22
        ∷ account 40
        ∷ account 21
        ∷ account 30
        ∷ account 14
        ∷ account 16
        ∷ account 12
        ∷ account 13
        ∷ account 1
        ∷ [])
      300

pub deposit_run-is_ok : is_ok deposit_run ≡ true
unfolding ◌+ℤ◌ process_deposit deposit_position assert_system_program deposit_credit sat_add_u64
    reward_index_delta add_reward_index try_commit_rewards_to_index reward_index_delta_since
    accrue_delta accrue_rewards promote_warming mature_warming_if_ready sync_position
    next_account_info assert_signer assert_writable assert_owned_by store_bytes
    assert_supported_token_program load_config load_position store_config store_position config_pda
    position_pda vault_authority_pda assert_key assert_config_pda assert_position_pda
    unpack_token_account assert_token_account assert_custody_token_account transfer_checked_ix
    encode_config decode_config encode_position decode_position bool_byte read_bool sign_byte
    size_byte read_ℤ
deposit_run-is_ok = refl

abbrev pub open_run : Result World
open_run =
    process_deposit chain 100 (at_time (pos 520))
      (account 24
        ∷ account 41
        ∷ account 21
        ∷ account 32
        ∷ account 14
        ∷ account 16
        ∷ account 12
        ∷ account 13
        ∷ account 1
        ∷ [])
      300

pub open_run-is_ok : is_ok open_run ≡ true
unfolding ◌+ℤ◌ process_deposit deposit_position assert_system_program create_program_account
    deposit_credit sat_add_u64 reward_index_delta add_reward_index try_commit_rewards_to_index
    reward_index_delta_since accrue_delta accrue_rewards promote_warming mature_warming_if_ready
    sync_position next_account_info assert_signer assert_writable assert_owned_by store_bytes
    assert_supported_token_program load_config load_position store_config store_position config_pda
    position_pda vault_authority_pda assert_key assert_config_pda assert_position_pda
    unpack_token_account assert_token_account assert_custody_token_account transfer_checked_ix
    encode_config decode_config encode_position decode_position bool_byte read_bool sign_byte
    size_byte read_ℤ
open_run-is_ok = refl

-- The exit of the first owner after the deposit of the third.
abbrev pub next_run : Result World
next_run =
    process_withdraw chain 100 (after (at_time (pos 520)) open_run)
      (account 22
        ∷ account 40
        ∷ account 21
        ∷ account 30
        ∷ account 14
        ∷ account 16
        ∷ account 15
        ∷ account 12
        ∷ account 13
        ∷ [])
      200

pub next_run-is_ok : is_ok next_run ≡ true
unfolding process_deposit deposit_position assert_system_program create_program_account
    deposit_credit ◌+ℤ◌ process_withdraw burn_checked_ix burn_from_vault bps_share burn_split
    penalty_split reduce_pending reduce_warming reduce_eligible reduce_locked reduce_position_stake
    eligible_after withdraw_preview exit_split settle withdraw_finish
    transfer_from_program_token_account pay_pending_rewards claim_sync record_claim sat_add_u64
    reward_index_delta add_reward_index try_commit_rewards_to_index reward_index_delta_since
    accrue_delta accrue_rewards promote_warming mature_warming_if_ready sync_position
    next_account_info assert_signer assert_writable assert_owned_by store_bytes
    assert_supported_token_program load_config load_position store_config store_position config_pda
    position_pda vault_authority_pda assert_key assert_config_pda assert_position_pda
    unpack_token_account assert_token_account assert_custody_token_account transfer_checked_ix
    encode_config decode_config encode_position decode_position bool_byte read_bool sign_byte
    size_byte read_ℤ
next_run-is_ok = refl

-- All stake has left, and seven units of dust are in the pool.
abbrev pub empty_config : ArenaConfig
empty_config = record sample_config {
  total_locked = 0;
  eligible_locked = 0;
  pending_activation_locked = 0;
  warming_locked = 0;
}

abbrev pub left : ArenaPosition → ArenaPosition
left p = record p {
  locked_amount = 0;
  eligible_amount = 0;
  pending_activation_amount = 0;
  warming_amount = 0;
  reward_index_checkpoint = 5 * reward_index_scale;
}

abbrev pub finalize_run : Result World
finalize_run =
    process_finalize_rewards chain 100
      (chain_world empty_config (left alice) (left bob) 0 7 (pos 520))
      (account 21 ∷ account 15 ∷ account 16 ∷ account 12 ∷ account 13 ∷ [])

pub finalize_run-is_ok : is_ok finalize_run ≡ true
unfolding process_finalize_rewards finalize_check burn_reward_pool_balance record_expired
    burn_checked_ix burn_from_vault sat_add_u64 reward_index_delta add_reward_index
    try_commit_rewards_to_index reward_index_delta_since accrue_delta accrue_rewards promote_warming
    mature_warming_if_ready sync_position next_account_info assert_signer assert_writable
    assert_owned_by store_bytes assert_supported_token_program load_config load_position
    store_config store_position config_pda position_pda vault_authority_pda assert_key
    assert_config_pda assert_position_pda unpack_token_account assert_token_account
    assert_custody_token_account transfer_checked_ix encode_config decode_config encode_position
    decode_position bool_byte read_bool sign_byte size_byte read_ℤ
finalize_run-is_ok = refl

-- The accounts before the arena is made.
abbrev pub blank_accounts : World
blank_accounts =
    with_cell 21 (record { lamports = 0; owner = 1; bytes = [] })
      (chain_world sample_config alice bob 0 0 (pos 0))

abbrev pub first_params : ConfigParams
first_params = record {
  config_id = 7;
  min_lock_seconds = pos 1000;
  activation_delay_seconds = pos 100;
  epoch_seconds = pos 200;
  min_deposit_amount = 100;
  early_exit_penalty_bps = 2500;
  burn_penalty_bps = 500;
  decimals = 6;
}

abbrev pub initialize_run : Result World
initialize_run =
    process_initialize_config chain 100 blank_accounts
      (account 11
        ∷ account 21
        ∷ account 12
        ∷ account 14
        ∷ account 16
        ∷ account 15
        ∷ account 13
        ∷ account 1
        ∷ [])
      first_params

pub initialize_run-is_ok : is_ok initialize_run ≡ true
unfolding assert_lock_policy ◌*ℤ◌ ◌+ℤ◌ assert_rate_charges fixed_supply_decimals
    process_initialize_config initial_config assert_config_params assert_uninitialized
    assert_system_program mint_decimals create_program_account sat_add_u64 reward_index_delta
    add_reward_index try_commit_rewards_to_index reward_index_delta_since accrue_delta
    accrue_rewards promote_warming mature_warming_if_ready sync_position next_account_info
    assert_signer assert_writable assert_owned_by store_bytes assert_supported_token_program
    load_config load_position store_config store_position config_pda position_pda
    vault_authority_pda assert_key assert_config_pda assert_position_pda unpack_token_account
    assert_token_account assert_custody_token_account transfer_checked_ix encode_config
    decode_config encode_position decode_position bool_byte read_bool sign_byte size_byte read_ℤ
initialize_run-is_ok = refl

-- The first deposit into the arena.
abbrev pub first_world : World
first_world = after blank_accounts initialize_run

abbrev pub first_run : Result World
first_run =
    process_deposit chain 100 first_world
      (account 24
        ∷ account 41
        ∷ account 21
        ∷ account 32
        ∷ account 14
        ∷ account 16
        ∷ account 12
        ∷ account 13
        ∷ account 1
        ∷ [])
      300

pub first_run-is_ok : is_ok first_run ≡ true
unfolding ◌+ℤ◌ process_deposit deposit_position assert_system_program create_program_account
    deposit_credit sat_add_u64 reward_index_delta add_reward_index try_commit_rewards_to_index
    reward_index_delta_since accrue_delta accrue_rewards promote_warming mature_warming_if_ready
    sync_position next_account_info assert_signer assert_writable assert_owned_by store_bytes
    assert_supported_token_program load_config load_position store_config store_position config_pda
    position_pda vault_authority_pda assert_key assert_config_pda assert_position_pda
    unpack_token_account assert_token_account assert_custody_token_account transfer_checked_ix
    encode_config decode_config encode_position decode_position bool_byte read_bool sign_byte
    size_byte read_ℤ assert_lock_policy ◌*ℤ◌ assert_rate_charges fixed_supply_decimals
    process_initialize_config initial_config assert_config_params assert_uninitialized mint_decimals
first_run-is_ok = refl

abbrev pub last_world : World
last_world = after first_world first_run

abbrev pub last_config : ArenaConfig
last_config = record (initial_config first_params 11 12 13 14 15 (pos 0) 255 254) {
  total_locked = 300;
  pending_activation_locked = 300;
}

pub last_config_read : chain.deserialize_config (last_world.cell 21).bytes ≡ some last_config
unfolding ◌+ℤ◌ process_deposit deposit_position assert_system_program create_program_account
    deposit_credit sat_add_u64 reward_index_delta add_reward_index try_commit_rewards_to_index
    reward_index_delta_since accrue_delta accrue_rewards promote_warming mature_warming_if_ready
    sync_position next_account_info assert_signer assert_writable assert_owned_by store_bytes
    assert_supported_token_program load_config load_position store_config store_position config_pda
    position_pda vault_authority_pda assert_key assert_config_pda assert_position_pda
    unpack_token_account assert_token_account assert_custody_token_account transfer_checked_ix
    encode_config decode_config encode_position decode_position bool_byte read_bool sign_byte
    size_byte read_ℤ assert_lock_policy ◌*ℤ◌ assert_rate_charges fixed_supply_decimals
    process_initialize_config initial_config assert_config_params assert_uninitialized mint_decimals
last_config_read = refl

abbrev pub last_position : ArenaPosition
last_position = record (fresh_position 21 24 (pos 0) 253 last_config) {
  locked_amount = 300;
  pending_activation_amount = 300;
  total_deposited = 300;
  unlock_ts = pos 1000;
  activation_ts = pos 100;
}

pub last_position_read :
    (chain.deserialize_position (last_world.cell 32).bytes ≡ some last_position)
    × ((last_world.cell 32).owner ≡ 100)
unfolding deposit_clocks ◌+ℤ◌ process_deposit deposit_position assert_system_program
    create_program_account deposit_credit sat_add_u64 reward_index_delta add_reward_index
    try_commit_rewards_to_index reward_index_delta_since accrue_delta accrue_rewards promote_warming
    mature_warming_if_ready sync_position next_account_info assert_signer assert_writable
    assert_owned_by store_bytes assert_supported_token_program load_config load_position
    store_config store_position config_pda position_pda vault_authority_pda assert_key
    assert_config_pda assert_position_pda unpack_token_account assert_token_account
    assert_custody_token_account transfer_checked_ix encode_config decode_config encode_position
    decode_position bool_byte read_bool sign_byte size_byte read_ℤ assert_lock_policy ◌*ℤ◌
    assert_rate_charges fixed_supply_decimals process_initialize_config initial_config
    assert_config_params assert_uninitialized mint_decimals
last_position_read = (refl, refl)
