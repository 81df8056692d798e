-- ===== src/Tests/Refinements.antt =====
-- The refinement of the handlers, and what it gives, at runs of the sample arena.
use arena_contract_sol.Prelude.{ℕ, ◌+◌, ◌<◌, ◌≡◌, none, [], ◌∷◌, true, refl, arith}
use arena_contract_sol.Prelude.Int.{pos, ◌+ℤ◌, ◌*ℤ◌}
use arena_contract_sol.Checked.{u64_limit}
use arena_contract_sol.Processor.{dispatch}
use arena_contract_sol.Processor.Entry.{any_nonzero}
use arena_contract_sol.Arena.{
  deposit_at, open_position, activate_at, roll, fund, claim_at, withdraw_at, finalize,
}
use arena_contract_sol.Ledger.{Holds, SupplyFits}
use arena_contract_sol.Arena.Cadence.{IsRoll}
use arena_contract_sol.Arena.Clock.{IsActivationAt}
use arena_contract_sol.Ledger.Loads.{Refined}
use arena_contract_sol.Ledger.Epochs.{process_roll_epoch-refines, process_activate_position-refines}
use arena_contract_sol.Ledger.Claims.{process_claim_rewards-refines}
use arena_contract_sol.Ledger.Fundings.{process_fund_rewards-refines}
use arena_contract_sol.Ledger.Finals.{process_finalize_rewards-refines}
use arena_contract_sol.Ledger.Exits.{process_withdraw-refines}
use arena_contract_sol.Ledger.Deposits.{process_deposit-refines}
use arena_contract_sol.Ledger.Openings.{with_position, process_deposit-opens}
use arena_contract_sol.Ledger.Initial.{initial_layout}
use arena_contract_sol.Ledger.Lifetime.{IsSolvent, lifetime-IsSolvent}
use arena_contract_sol.Ledger.Reach.{opens, withdraws, Reach, here, next}
use arena_contract_sol.Ledger.Safety.{Secure, Reach-Secure}
use arena_contract_sol.Policy.{assert_config_params, assert_lock_policy, assert_rate_charges}
use arena_contract_sol.Accounts.{
  next_account_info, assert_signer, assert_writable, assert_owned_by, store_bytes,
  assert_supported_token_program, load_config, load_position, store_config, store_position,
  config_pda, position_pda, vault_authority_pda, assert_key, assert_config_pda, assert_position_pda,
  assert_uninitialized, assert_system_program, create_program_account,
}
use arena_contract_sol.Tokens.{
  unpack_token_account, assert_token_account, assert_custody_token_account, transfer_checked_ix,
  mint_decimals, fixed_supply_decimals,
}
use arena_contract_sol.Rewards.{
  sat_add_u64, reward_index_delta, add_reward_index, try_commit_rewards_to_index,
  reward_index_delta_since, accrue_delta, accrue_rewards, promote_warming, mature_warming_if_ready,
}
use arena_contract_sol.Operations.Lock.{sync_position, deposit_credit}
use arena_contract_sol.Processor.Entry.{process_deposit, deposit_position}
use arena_contract_sol.Processor.Setup.{process_initialize_config, initial_config}
use arena_contract_sol.Tests.{sample_config, alice, bob, sample_arena}
use arena_contract_sol.Accounts.{data_is_empty}
use arena_contract_sol.Tests.Histories.{sample_arena-IsConsistent}
use arena_contract_sol.Tests.Chain.{
  chain, Balance-Holds, chain-IsTokenProgram, chain-IsSystemProgram,
}
use arena_contract_sol.Tests.Encoding.{
  encode_config, decode_config, decode_position, bool_byte, read_bool, sign_byte, size_byte, read_ℤ,
  encoded, encode_position, encode_config-ReadsBack, encode_position-ReadsBack,
}
use arena_contract_sol.Tests.Accounts.{
  chain_world, chain_layout, chain_layout-IsDistinct, held_arena, chain_world-Represents,
  balances_fit, balance_is, account, after, after-ok,
}
use arena_contract_sol.Tests.Runs.{
  at_time, withdraw_run, withdraw_run-is_ok, claim_run, claim_run-is_ok, fund_run, fund_run-is_ok,
  roll_run, roll_run-is_ok, activate_run, activate_run-is_ok, deposit_run, deposit_run-is_ok,
  open_run, open_run-is_ok, next_run, next_run-is_ok, empty_config, left, finalize_run,
  finalize_run-is_ok, blank_accounts, first_params, initialize_run, initialize_run-is_ok,
  first_world, first_run, first_run-is_ok, last_world, last_config, last_config_read, last_position,
  last_position_read,
}

process_withdraw-refines_example :
    Refined chain 100 chain_layout
      (after (at_time (pos 520)) withdraw_run)
      (withdraw_at (pos 520) 0 200 sample_arena)
process_withdraw-refines_example =
    process_withdraw-refines chain 100 chain-IsTokenProgram encode_config-ReadsBack
      encode_position-ReadsBack chain_layout chain_layout-IsDistinct (at_time (pos 520))
      (after (at_time (pos 520)) withdraw_run) sample_arena
      (chain_world-Represents sample_config alice bob 1050 1200 (pos 520) refl refl refl refl)
      (account 22) (account 40) (account 21) (account 30) (account 14) (account 16) (account 15)
      (account 12) (account 13) [] 0 200 refl refl refl
      (after-ok (at_time (pos 520)) withdraw_run withdraw_run-is_ok)

process_claim_rewards-refines_example :
    Refined chain 100 chain_layout
      (after (at_time (pos 520)) claim_run)
      (claim_at (pos 520) 0 sample_arena)
process_claim_rewards-refines_example =
    process_claim_rewards-refines chain 100 chain-IsTokenProgram encode_config-ReadsBack
      encode_position-ReadsBack chain_layout chain_layout-IsDistinct (at_time (pos 520))
      (after (at_time (pos 520)) claim_run) sample_arena
      (chain_world-Represents sample_config alice bob 1050 1200 (pos 520) refl refl refl refl)
      (account 22) (account 40) (account 21) (account 30) (account 15) (account 16) (account 12)
      (account 13) [] 0 refl refl refl (after-ok (at_time (pos 520)) claim_run claim_run-is_ok)

process_fund_rewards-refines_example :
    Refined chain 100 chain_layout (after (at_time (pos 520)) fund_run) (fund 300 none sample_arena)
process_fund_rewards-refines_example =
    process_fund_rewards-refines chain 100 chain-IsTokenProgram encode_config-ReadsBack
      encode_position-ReadsBack chain_layout chain_layout-IsDistinct (at_time (pos 520))
      (after (at_time (pos 520)) fund_run) sample_arena
      (chain_world-Represents sample_config alice bob 1050 1200 (pos 520) refl refl refl refl)
      (account 22) (account 40) (account 21) (account 15) (account 12) (account 13) [] 300 none refl
      refl
      (balances_fit chain_layout (at_time (pos 520)) 40 22 22 500 1050 1200 [] refl refl refl
        (omega arith))
      (after-ok (at_time (pos 520)) fund_run fund_run-is_ok)

process_finalize_rewards-refines_example :
    Refined chain 100 chain_layout
      (after (chain_world empty_config (left alice) (left bob) 0 7 (pos 520)) finalize_run)
      (finalize (held_arena empty_config (left alice) (left bob) 0 7))
process_finalize_rewards-refines_example =
    process_finalize_rewards-refines chain 100 chain-IsTokenProgram encode_config-ReadsBack
      encode_position-ReadsBack chain_layout chain_layout-IsDistinct
      (chain_world empty_config (left alice) (left bob) 0 7 (pos 520))
      (after (chain_world empty_config (left alice) (left bob) 0 7 (pos 520)) finalize_run)
      (held_arena empty_config (left alice) (left bob) 0 7)
      (chain_world-Represents empty_config (left alice) (left bob) 0 7 (pos 520) refl refl refl
        refl)
      (account 21) (account 15) (account 16) (account 12) (account 13) [] refl
      (after-ok (chain_world empty_config (left alice) (left bob) 0 7 (pos 520)) finalize_run
        finalize_run-is_ok)

process_roll_epoch-refines_example :
    (r : Refined chain 100 chain_layout
      (after (at_time (pos 600)) roll_run)
      (roll (pos 600) sample_arena))
    × IsRoll (pos 600) sample_arena r.arena
process_roll_epoch-refines_example =
    process_roll_epoch-refines chain 100 encode_config-ReadsBack encode_position-ReadsBack
      chain_layout chain_layout-IsDistinct (at_time (pos 600)) (after (at_time (pos 600)) roll_run)
      sample_arena
      (chain_world-Represents sample_config alice bob 1050 1200 (pos 600) refl refl refl refl)
      (account 21) (account 15) (account 16) (account 12) (account 13) [] refl
      (after-ok (at_time (pos 600)) roll_run roll_run-is_ok)

process_activate_position-refines_example :
    (r : Refined chain 100 chain_layout
      (after (at_time (pos 520)) activate_run)
      (activate_at (pos 520) 0 sample_arena))
    × IsActivationAt (pos 520) 0 sample_arena r.arena
process_activate_position-refines_example =
    process_activate_position-refines chain 100 encode_config-ReadsBack encode_position-ReadsBack
      chain_layout chain_layout-IsDistinct (at_time (pos 520))
      (after (at_time (pos 520)) activate_run) sample_arena
      (chain_world-Represents sample_config alice bob 1050 1200 (pos 520) refl refl refl refl)
      (account 22) (account 21) (account 30) (account 15) (account 16) (account 12) (account 13) []
      0 refl refl (after-ok (at_time (pos 520)) activate_run activate_run-is_ok)

alice_written : any_nonzero (encoded (encode_position alice)) ≡ true
unfolding encode_position bool_byte
alice_written = refl

process_deposit-refines_example :
    Refined chain 100 chain_layout
      (after (at_time (pos 520)) deposit_run)
      (deposit_at (pos 520) 0 300 sample_arena)
process_deposit-refines_example =
    process_deposit-refines chain 100 chain-IsTokenProgram encode_config-ReadsBack
      encode_position-ReadsBack chain_layout chain_layout-IsDistinct (at_time (pos 520))
      (after (at_time (pos 520)) deposit_run) sample_arena
      (chain_world-Represents sample_config alice bob 1050 1200 (pos 520) refl refl refl refl)
      (account 22) (account 40) (account 21) (account 30) (account 14) (account 16) (account 12)
      (account 13) (account 1) [] 0 300 refl refl alice_written refl
      (balances_fit chain_layout (at_time (pos 520)) 40 22 22 500 1050 1200 [] refl refl refl
        (omega arith))
      (after-ok (at_time (pos 520)) deposit_run deposit_run-is_ok)

process_deposit-opens_example :
    Refined chain 100
      (with_position chain_layout 32)
      (after (at_time (pos 520)) open_run)
      (deposit_at (pos 520) 2 300 (open_position 21 24 (pos 520) 253 sample_arena))
unfolding position_pda
process_deposit-opens_example =
    process_deposit-opens chain 100 chain-IsTokenProgram chain-IsSystemProgram
      encode_config-ReadsBack encode_position-ReadsBack chain_layout chain_layout-IsDistinct
      (at_time (pos 520)) (after (at_time (pos 520)) open_run) sample_arena
      (chain_world-Represents sample_config alice bob 1050 1200 (pos 520) refl refl refl refl)
      (account 24) (account 41) (account 21) (account 32) (account 14) (account 16) (account 12)
      (account 13) (account 1) [] 300 refl refl refl refl refl
      (balances_fit chain_layout (at_time (pos 520)) 41 24 24 500 1050 1200 [] refl refl refl
        (omega arith))
      (after-ok (at_time (pos 520)) open_run open_run-is_ok)

no_tokens_yet :
    (b b' : ℕ)
    → Holds chain blank_accounts 13 14 16 b
    → Holds chain blank_accounts 13 15 16 b'
    → b + b' < u64_limit
no_tokens_yet b b' vaults pools =
    let b_is = balance_is blank_accounts 13 14 16 16 b 0 [] vaults refl in
    let b'_is = balance_is blank_accounts 13 15 16 16 b' 0 [] pools refl in
    omega (arith, b_is, b'_is)

first_empty : data_is_empty (first_world.cell 32).bytes ≡ true
unfolding assert_lock_policy ◌*ℤ◌ ◌+ℤ◌ assert_rate_charges fixed_supply_decimals
    process_initialize_config initial_config assert_config_params assert_uninitialized
    assert_system_program mint_decimals create_program_account sat_add_u64 reward_index_delta
    add_reward_index try_commit_rewards_to_index reward_index_delta_since accrue_delta
    accrue_rewards promote_warming mature_warming_if_ready sync_position next_account_info
    assert_signer assert_writable assert_owned_by store_bytes assert_supported_token_program
    load_config load_position store_config store_position config_pda position_pda
    vault_authority_pda assert_key assert_config_pda assert_position_pda unpack_token_account
    assert_token_account assert_custody_token_account transfer_checked_ix encode_config
    decode_config encode_position decode_position bool_byte read_bool sign_byte size_byte read_ℤ
first_empty = refl

first_fits :
    SupplyFits chain
      (initial_layout (account 21) (account 12) (account 14) (account 16) (account 15) (account 13))
      first_world
      41
      24
unfolding assert_lock_policy ◌*ℤ◌ ◌+ℤ◌ assert_rate_charges fixed_supply_decimals
    process_initialize_config initial_config assert_config_params assert_uninitialized
    assert_system_program mint_decimals create_program_account sat_add_u64 reward_index_delta
    add_reward_index try_commit_rewards_to_index reward_index_delta_since accrue_delta
    accrue_rewards promote_warming mature_warming_if_ready sync_position next_account_info
    assert_signer assert_writable assert_owned_by store_bytes assert_supported_token_program
    load_config load_position store_config store_position config_pda position_pda
    vault_authority_pda assert_key assert_config_pda assert_position_pda unpack_token_account
    assert_token_account assert_custody_token_account transfer_checked_ix encode_config
    decode_config encode_position decode_position bool_byte read_bool sign_byte size_byte read_ℤ
first_fits =
    balances_fit (record chain_layout { positions = [] }) first_world 41 24 24 500 0 0 [] refl refl
      refl (omega arith)

last_vault : Holds chain last_world 13 14 16 300
unfolding ◌+ℤ◌ process_deposit deposit_position assert_system_program create_program_account
    deposit_credit sat_add_u64 reward_index_delta add_reward_index try_commit_rewards_to_index
    reward_index_delta_since accrue_delta accrue_rewards promote_warming mature_warming_if_ready
    sync_position next_account_info assert_signer assert_writable assert_owned_by store_bytes
    assert_supported_token_program load_config load_position store_config store_position config_pda
    position_pda vault_authority_pda assert_key assert_config_pda assert_position_pda
    unpack_token_account assert_token_account assert_custody_token_account transfer_checked_ix
    encode_config decode_config encode_position decode_position bool_byte read_bool sign_byte
    size_byte read_ℤ assert_lock_policy ◌*ℤ◌ assert_rate_charges fixed_supply_decimals
    process_initialize_config initial_config assert_config_params assert_uninitialized mint_decimals
last_vault =
    Balance-Holds last_world 13 14 16 300
      (record { its_program = refl; is_token = refl; rest = []; bytes = refl })

last_pool : Holds chain last_world 13 15 16 0
unfolding ◌+ℤ◌ process_deposit deposit_position assert_system_program create_program_account
    deposit_credit sat_add_u64 reward_index_delta add_reward_index try_commit_rewards_to_index
    reward_index_delta_since accrue_delta accrue_rewards promote_warming mature_warming_if_ready
    sync_position next_account_info assert_signer assert_writable assert_owned_by store_bytes
    assert_supported_token_program load_config load_position store_config store_position config_pda
    position_pda vault_authority_pda assert_key assert_config_pda assert_position_pda
    unpack_token_account assert_token_account assert_custody_token_account transfer_checked_ix
    encode_config decode_config encode_position decode_position bool_byte read_bool sign_byte
    size_byte read_ℤ assert_lock_policy ◌*ℤ◌ assert_rate_charges fixed_supply_decimals
    process_initialize_config initial_config assert_config_params assert_uninitialized mint_decimals
last_pool =
    Balance-Holds last_world 13 15 16 0
      (record { its_program = refl; is_token = refl; rest = []; bytes = refl })

-- An arena is made, and a first owner deposits.
first_deposit :
    Reach chain 100
      (initial_layout (account 21) (account 12) (account 14) (account 16) (account 15) (account 13))
      first_world
      (with_position (record chain_layout { positions = [] }) 32)
      last_world
unfolding dispatch
first_deposit = next here (
    opens (account 24) (account 41) (account 21) (account 32) (account 14) (account 16) (account 12)
      (account 13) (account 1) [] 300 refl first_empty refl refl first_fits
      (after-ok first_world first_run first_run-is_ok))

lifetime-IsSolvent_example :
    IsSolvent chain 100
      (with_position (record chain_layout { positions = [] }) 32)
      last_world
      last_config
      (last_position ∷ [])
      300
      0
unfolding dispatch
lifetime-IsSolvent_example =
    lifetime-IsSolvent chain 100 chain-IsTokenProgram chain-IsSystemProgram encode_config-ReadsBack
      encode_position-ReadsBack refl blank_accounts first_world first_params (account 11)
      (account 21) (account 12) (account 14) (account 16) (account 15) (account 13) (account 1) []
      (omega arith) refl refl refl refl no_tokens_yet
      (after-ok blank_accounts initialize_run initialize_run-is_ok)
      (with_position (record chain_layout { positions = [] }) 32) last_world last_config
      (last_position ∷ []) 300 0 first_deposit last_config_read (last_position_read, tt) last_vault
      last_pool

sample-Secure : Secure chain 100 chain_layout (at_time (pos 520))
sample-Secure = record {
  distinct = chain_layout-IsDistinct;
  own_tokens = refl;
  state = record {
    arena = sample_arena;
    holds = chain_world-Represents sample_config alice bob 1050 1200 (pos 520) refl refl refl refl;
    consistent = sample_arena-IsConsistent;
  };
}

-- A third owner opens a position, then the first owner leaves early with a part.
opened_and_left :
    Reach chain 100 chain_layout
      (at_time (pos 520))
      (with_position chain_layout 32)
      (after (after (at_time (pos 520)) open_run) next_run)
unfolding dispatch
opened_and_left =
    next
      (next here (
        opens (account 24) (account 41) (account 21) (account 32) (account 14) (account 16)
          (account 12) (account 13) (account 1) [] 300 refl refl refl refl
          (balances_fit chain_layout (at_time (pos 520)) 41 24 24 500 1050 1200 [] refl refl refl
            (omega arith))
          (after-ok (at_time (pos 520)) open_run open_run-is_ok)))
      (withdraws (account 22) (account 40) (account 21) (account 30) (account 14) (account 16)
        (account 15) (account 12) (account 13) [] 0 200 refl refl refl
        (after-ok (after (at_time (pos 520)) open_run) next_run next_run-is_ok))

Reach-Secure_example :
    Secure chain 100
      (with_position chain_layout 32)
      (after (after (at_time (pos 520)) open_run) next_run)
Reach-Secure_example =
    Reach-Secure chain 100 chain-IsTokenProgram chain-IsSystemProgram encode_config-ReadsBack
      encode_position-ReadsBack refl opened_and_left sample-Secure
