-- ===== src/Tests/Handlers.antt =====
-- Handlers run on a world of accounts.
use arena_contract_sol.Prelude.{
  ℕ, ◌≡◌, Bool, true, false, Option, none, some, List, [], ◌∷◌, ◌==◌, if◌then◌else◌, refl,
}
use arena_contract_sol.Prelude.Int.{pos}
use arena_contract_sol.Result.{Result, ok, err}
use arena_contract_sol.State.{Pubkey}
use arena_contract_sol.Platform.{
  Platform, World, Cell, AccountInfo, Seed, config_seed, position_seed, TokenAccount, initialized,
}
use arena_contract_sol.Accounts.{
  next_account_info, assert_signer, assert_writable, assert_owned_by, store_bytes,
  assert_supported_token_program, load_config, load_position, store_config, store_position,
  config_pda, position_pda, vault_authority_pda, assert_key, assert_config_pda, assert_position_pda,
}
use arena_contract_sol.Tokens.{
  unpack_token_account, assert_token_account, assert_custody_token_account, transfer_checked_ix,
  burn_checked_ix, transfer_from_program_token_account, burn_from_vault, pay_pending_rewards,
}
use arena_contract_sol.Rewards.{
  sat_add_u64, reward_index_delta, add_reward_index, try_commit_rewards_to_index,
  reward_index_delta_since, accrue_delta, accrue_rewards, promote_warming, mature_warming_if_ready,
}
use arena_contract_sol.Penalty.{bps_share, burn_split, penalty_split}
use arena_contract_sol.Stake.{
  reduce_pending, reduce_warming, reduce_eligible, reduce_locked, reduce_position_stake,
}
use arena_contract_sol.Operations.Lock.{sync_position}
use arena_contract_sol.Operations.Earn.{claim_sync, record_claim}
use arena_contract_sol.Operations.Exit.{
  eligible_after, withdraw_preview, exit_split, settle, withdraw_finish,
}
use arena_contract_sol.Processor.Exit.{process_withdraw, process_claim_rewards}
use arena_contract_sol.Processor.Authority.{
  Authorised, process_withdraw-Authorised, process_claim_rewards-Authorised,
}
use arena_contract_sol.Tests.{sample_config, alice}
use arena_contract_sol.Tests.Encoding.{
  sample_platform, encoded, encode_config, decode_config, encode_position, decode_position,
  bool_byte, read_bool, sign_byte, size_byte, read_ℤ,
}

abbrev address_of : List Seed → Pubkey × ℕ
address_of (config_seed ∷ rest) = (21, 255)
address_of (position_seed ∷ rest) = (30, 253)
address_of _ = (16, 254)

-- A token account whose first number is its owner.
abbrev token_account_of : List ℕ → Option TokenAccount
token_account_of [] = none
token_account_of (owner ∷ rest) = some (record {
  mint = 12;
  owner = owner;
  amount = 5_000;
  state = initialized;
  is_native = none;
  delegate = none;
  delegated_amount = 0;
  close_authority = none;
})

abbrev handler_platform : Platform
handler_platform = record sample_platform {
  spl_token_id = 13;
  find_program_address = λ seeds _. address_of seeds;
  unpack_account = token_account_of;
}

abbrev cell_at : Pubkey → Cell
cell_at k =
    if k == 21
    then record { lamports = 9; owner = 100; bytes = encoded (encode_config sample_config) }
    else if k == 30
    then record { lamports = 9; owner = 100; bytes = encoded (encode_position alice) }
    else if k == 40
    then record { lamports = 9; owner = 13; bytes = 22 ∷ [] }
    else record { lamports = 9; owner = 13; bytes = 16 ∷ [] }

abbrev handler_world : World
handler_world = record { cell = cell_at; now = pos 520 }

abbrev account : Pubkey → AccountInfo
account k = record { key = k; is_signer = k == 22; is_writable = true }

abbrev after : Result World → World
after (ok w) = w
after (err e) = handler_world

abbrev withdrawn : Result World
withdrawn =
    process_withdraw handler_platform 100 handler_world
      (account 22
        ∷ account 40
        ∷ account 21
        ∷ account 30
        ∷ account 14
        ∷ account 16
        ∷ account 15
        ∷ account 12
        ∷ account 13
        ∷ [])
      200

abbrev is_ok : Result World → Bool
is_ok (ok w) = true
is_ok (err e) = false

after-ok : (r : Result World) → is_ok r ≡ true → r ≡ ok (after r)
after-ok (ok w) h = refl
after-ok (err e) h = cc

withdrawn-is_ok : is_ok withdrawn ≡ true
unfolding process_withdraw next_account_info assert_signer assert_writable assert_owned_by
    store_bytes assert_supported_token_program load_config load_position store_config store_position
    config_pda position_pda vault_authority_pda assert_key assert_config_pda assert_position_pda
    unpack_token_account assert_token_account assert_custody_token_account transfer_checked_ix
    burn_checked_ix transfer_from_program_token_account burn_from_vault pay_pending_rewards
    sat_add_u64 reward_index_delta add_reward_index try_commit_rewards_to_index
    reward_index_delta_since accrue_delta accrue_rewards promote_warming mature_warming_if_ready
    bps_share burn_split penalty_split reduce_pending reduce_warming reduce_eligible reduce_locked
    reduce_position_stake sync_position claim_sync record_claim eligible_after withdraw_preview
    exit_split settle withdraw_finish encode_config decode_config encode_position decode_position
    bool_byte read_bool sign_byte size_byte read_ℤ
withdrawn-is_ok = refl

process_withdraw-Authorised_example :
    Authorised handler_platform 100 handler_world
      (account 22)
      (account 21)
      (account 30)
      (account 16)
process_withdraw-Authorised_example =
    process_withdraw-Authorised handler_platform 100 handler_world (after withdrawn) 200
      (account 22) (account 40) (account 21) (account 30) (account 14) (account 16) (account 15)
      (account 12) (account 13) [] (after-ok withdrawn withdrawn-is_ok)

abbrev claimed : Result World
claimed = process_claim_rewards handler_platform 100 handler_world (
    account 22
    ∷ account 40
    ∷ account 21
    ∷ account 30
    ∷ account 15
    ∷ account 16
    ∷ account 12
    ∷ account 13
    ∷ [])

claimed-is_ok : is_ok claimed ≡ true
unfolding process_claim_rewards next_account_info assert_signer assert_writable assert_owned_by
    store_bytes assert_supported_token_program load_config load_position store_config store_position
    config_pda position_pda vault_authority_pda assert_key assert_config_pda assert_position_pda
    unpack_token_account assert_token_account assert_custody_token_account transfer_checked_ix
    burn_checked_ix transfer_from_program_token_account burn_from_vault pay_pending_rewards
    sat_add_u64 reward_index_delta add_reward_index try_commit_rewards_to_index
    reward_index_delta_since accrue_delta accrue_rewards promote_warming mature_warming_if_ready
    bps_share burn_split penalty_split reduce_pending reduce_warming reduce_eligible reduce_locked
    reduce_position_stake sync_position claim_sync record_claim eligible_after withdraw_preview
    exit_split settle withdraw_finish encode_config decode_config encode_position decode_position
    bool_byte read_bool sign_byte size_byte read_ℤ
claimed-is_ok = refl

process_claim_rewards-Authorised_example :
    Authorised handler_platform 100 handler_world
      (account 22)
      (account 21)
      (account 30)
      (account 16)
process_claim_rewards-Authorised_example =
    process_claim_rewards-Authorised handler_platform 100 handler_world (after claimed) (account 22)
      (account 40) (account 21) (account 30) (account 15) (account 16) (account 12) (account 13) []
      (after-ok claimed claimed-is_ok)
