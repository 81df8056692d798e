-- ===== src/Accounts.antt =====
-- programs/arena-lock-v2/src: the checks of accounts (processor.rs) and the loading and storing of
-- the two records (state.rs).
pub mod RoundTrip
use arena_contract_sol.Prelude.{
  ℕ, ◌-◌, Bool, true, false, not, ◌&&◌, ◌||◌, Option, none, some, List, [], ◌∷◌, ◌++◌, ltb, ◌==◌,
  if◌then◌else◌, length, replicate,
}
use arena_contract_sol.Result.{
  Result, ok, err, fail, fail_if, ok_or, ◌>>=◌, ◌>>◌, incorrect_program_id, account_data_too_small,
  not_enough_account_keys, invalid_signer, account_not_writable, invalid_owner, not_initialized,
  invalid_token_program, already_initialized, invalid_pda, unsupported_state_version,
  invalid_instruction, math_overflow,
}
use arena_contract_sol.Checked.{checked_sub}
use arena_contract_sol.State.{
  Pubkey, ArenaConfig, ArenaPosition, arena_config_version, arena_position_version,
}
use arena_contract_sol.Platform.{
  Platform, World, Cell, AccountInfo, Seed, config_seed, position_seed, vault_authority_seed,
  key_seed, u64_seed, system_transfer, allocate, assign,
}

unfoldable pub next_account_info : List AccountInfo → Result (AccountInfo × List AccountInfo)
next_account_info [] = err not_enough_account_keys
next_account_info (a ∷ rest) = ok (a, rest)

abbrev pub cell_of : World → AccountInfo → Cell
cell_of w a = w.cell a.key

abbrev pub owner_of : World → AccountInfo → Pubkey
owner_of w a = (cell_of w a).owner

abbrev pub data_of : World → AccountInfo → List ℕ
data_of w a = (cell_of w a).bytes

abbrev pub data_is_empty : List ℕ → Bool
data_is_empty [] = true
data_is_empty (b ∷ rest) = false

unfoldable pub assert_signer : AccountInfo → Result (Unit {0})
assert_signer a = fail_if (not a.is_signer) invalid_signer

unfoldable pub assert_writable : AccountInfo → Result (Unit {0})
assert_writable a = fail_if (not a.is_writable) account_not_writable

unfoldable pub assert_owned_by : World → AccountInfo → Pubkey → Result (Unit {0})
assert_owned_by w a owner = fail_if (not (owner_of w a == owner)) invalid_owner

-- A write of the bytes of one account.
abbrev pub write : World → AccountInfo → List ℕ → World
write w a bytes = record w {
  cell = λ k. if k == a.key then record (w.cell k) { bytes = bytes } else w.cell k;
}

-- `store`: the encoding, and zeros up to the end of the data.
unfoldable pub store_bytes : World → AccountInfo → Option (List ℕ) → Result World
store_bytes w a encoded = do
  bytes ← ok_or encoded invalid_instruction
  if ltb (length (data_of w a)) (length bytes)
      then err account_data_too_small
      else ok (write w a (bytes ++ replicate (length (data_of w a) - length bytes) 0))

module _ (pf : Platform) where
  unfoldable pub assert_system_program : AccountInfo → Result (Unit {0})
  assert_system_program a =
      if not (a.key == pf.system_program_id) then err incorrect_program_id else ok tt

  unfoldable pub assert_supported_token_program : AccountInfo → Result (Unit {0})
  assert_supported_token_program a =
      fail_if (not (a.key == pf.spl_token_id) && not (a.key == pf.spl_token_2022_id))
        invalid_token_program

  unfoldable pub assert_uninitialized : World → AccountInfo → Result (Unit {0})
  assert_uninitialized w a =
      fail_if (not (data_is_empty (data_of w a)) || not (owner_of w a == pf.system_program_id))
        already_initialized

  unfoldable pub load_config : List ℕ → Result ArenaConfig
  load_config bytes = do
    config ← ok_or (pf.deserialize_config bytes) not_initialized
    fail_if (not config.is_initialized) not_initialized
    fail_if (not (config.version == arena_config_version)) unsupported_state_version
    ok config

  unfoldable pub load_position : List ℕ → Result ArenaPosition
  load_position bytes = do
    position ← ok_or (pf.deserialize_position bytes) not_initialized
    fail_if (not position.is_initialized) not_initialized
    fail_if (not (position.version == arena_position_version)) unsupported_state_version
    ok position

  unfoldable pub store_config : World → AccountInfo → ArenaConfig → Result World
  store_config w a config = store_bytes w a (pf.serialize_config config)

  unfoldable pub store_position : World → AccountInfo → ArenaPosition → Result World
  store_position w a position = store_bytes w a (pf.serialize_position position)

  unfoldable pub config_pda : Pubkey → Pubkey → ℕ → Pubkey × ℕ
  config_pda program_id authority config_id =
      pf.find_program_address (config_seed ∷ key_seed authority ∷ u64_seed config_id ∷ [])
        program_id

  unfoldable pub position_pda : Pubkey → Pubkey → Pubkey → Pubkey × ℕ
  position_pda program_id config owner =
      pf.find_program_address (position_seed ∷ key_seed config ∷ key_seed owner ∷ []) program_id

  unfoldable pub vault_authority_pda : Pubkey → Pubkey → Pubkey × ℕ
  vault_authority_pda program_id config =
      pf.find_program_address (vault_authority_seed ∷ key_seed config ∷ []) program_id

  -- A derived key against the one that was passed; the bump is what the caller signs with.
  unfoldable pub assert_key : Pubkey × ℕ → AccountInfo → Result ℕ
  assert_key (expected, bump) a = do fail_if (not (expected == a.key)) invalid_pda; ok bump

  unfoldable pub assert_config_pda : Pubkey → AccountInfo → ArenaConfig → Result (Unit {0})
  assert_config_pda program_id a config = do
    _ ← assert_key (config_pda program_id config.authority config.config_id) a
    ok tt

  unfoldable pub assert_position_pda : Pubkey → AccountInfo → Pubkey → Pubkey → Result (Unit {0})
  assert_position_pda program_id a config owner = do
    _ ← assert_key (position_pda program_id config owner) a
    ok tt

  -- The new account gets the lamports that it lacks, its space, and the program for its owner.
  unfoldable pub create_program_account :
      World → AccountInfo → AccountInfo → Pubkey → ℕ → List Seed → Result World
  create_program_account w payer new_account program_id space signer_seeds = do
    let required = pf.minimum_balance space
    let existing = (cell_of w new_account).lamports
    w₁ ←
        (if ltb existing required
          then (do
            top_up ← ok_or (checked_sub required existing) math_overflow
            pf.invoke (system_transfer payer.key new_account.key top_up) w)
          else ok w)
    w₂ ← pf.invoke (allocate new_account.key space signer_seeds) w₁
    pf.invoke (assign new_account.key program_id signer_seeds) w₂
