-- ===== src/Tokens.antt =====
-- programs/arena-lock-v2/src/processor.rs: token accounts and mints, and the movements of tokens.
pub mod Extensions
pub mod Custody
pub mod Mints
use arena_contract_sol.Prelude.{
  ℕ, Bool, true, false, not, ◌||◌, Option, none, some, List, [], ◌∷◌, ◌==◌, if◌then◌else◌,
}
use arena_contract_sol.Result.{
  Result, ok, fail, fail_if, ok_or, ◌>>=◌, ◌>>◌, invalid_token_mint, invalid_token_account,
  invalid_token_program,
}
use arena_contract_sol.State.{Pubkey, ArenaConfig, ArenaPosition}
use arena_contract_sol.Platform.{
  Platform, World, AccountInfo, Seed, AccountState, initialized, frozen, TokenAccount, Mint,
  ExtensionType, metadata_pointer, token_metadata, immutable_owner, Cpi, transfer_checked,
  burn_checked, vault_authority_seed, key_seed, bump_seed,
}
use arena_contract_sol.Accounts.{owner_of, data_of}
use arena_contract_sol.Operations.Earn.{record_claim, record_expired}

unfoldable pub is_allowed_mint_extension : ExtensionType → Bool
is_allowed_mint_extension metadata_pointer = true
is_allowed_mint_extension token_metadata = true
is_allowed_mint_extension _ = false

unfoldable pub is_allowed_account_extension : ExtensionType → Bool
is_allowed_account_extension immutable_owner = true
is_allowed_account_extension _ = false

unfoldable pub assert_allowed_mint_extensions : List ExtensionType → Result (Unit {0})
assert_allowed_mint_extensions [] = ok tt
assert_allowed_mint_extensions (ext ∷ exts) =
    if not (is_allowed_mint_extension ext)
    then fail invalid_token_mint
    else assert_allowed_mint_extensions exts

unfoldable pub assert_allowed_account_extensions : List ExtensionType → Result (Unit {0})
assert_allowed_account_extensions [] = ok tt
assert_allowed_account_extensions (ext ∷ exts) =
    if not (is_allowed_account_extension ext)
    then fail invalid_token_account
    else assert_allowed_account_extensions exts

abbrev pub coption_is_some : Option ℕ → Bool
coption_is_some none = false
coption_is_some (some x) = true

pub record TokenAccountView : Type 0 where
  pub mint : Pubkey
  pub owner : Pubkey
  pub amount : ℕ
  pub is_initialized : Bool
  pub is_native : Bool
  pub is_frozen : Bool
  pub has_delegate : Bool
  pub delegated_amount : ℕ
  pub has_close_authority : Bool

abbrev is_initialized_state : AccountState → Bool
is_initialized_state initialized = true
is_initialized_state _ = false

abbrev is_frozen_state : AccountState → Bool
is_frozen_state frozen = true
is_frozen_state _ = false

-- The view that both branches of `unpack_token_account` make.
abbrev pub view_of : TokenAccount → TokenAccountView
view_of t = record {
  mint = t.mint;
  owner = t.owner;
  amount = t.amount;
  is_initialized = is_initialized_state t.state;
  is_native = coption_is_some t.is_native;
  is_frozen = is_frozen_state t.state;
  has_delegate = coption_is_some t.delegate;
  delegated_amount = t.delegated_amount;
  has_close_authority = coption_is_some t.close_authority;
}

-- The last tests of `mint_decimals`, on either kind of mint.
unfoldable pub fixed_supply_decimals : Mint → Result ℕ
fixed_supply_decimals m = do
  fail_if (coption_is_some m.mint_authority) invalid_token_mint
  fail_if (coption_is_some m.freeze_authority) invalid_token_mint
  ok m.decimals

-- The accounts that a movement out of custody names, and what signs for it.
pub record CustodyKeys : Type 0 where
  pub token_program : AccountInfo
  pub mint : AccountInfo
  pub vault_authority : AccountInfo
  pub decimals : ℕ
  pub config_key : Pubkey
  pub vault_authority_bump : ℕ

abbrev pub custody_keys : AccountInfo → AccountInfo → AccountInfo → ℕ → Pubkey → ℕ → CustodyKeys
custody_keys token_program mint vault_authority decimals config_key bump = record {
  token_program = token_program;
  mint = mint;
  vault_authority = vault_authority;
  decimals = decimals;
  config_key = config_key;
  vault_authority_bump = bump;
}

abbrev pub signer_seeds : CustodyKeys → List Seed
signer_seeds k =
    vault_authority_seed ∷ key_seed k.config_key ∷ bump_seed k.vault_authority_bump ∷ []

module _ (pf : Platform) where
  unfoldable pub unpack_token_account : World → Pubkey → AccountInfo → Result TokenAccountView
  unpack_token_account w token_program a = do
    fail_if (not (owner_of w a == token_program)) invalid_token_account
    if token_program == pf.spl_token_id
        then (do t ← ok_or (pf.unpack_account (data_of w a)) invalid_token_account; ok (view_of t))
        else if token_program == pf.spl_token_2022_id
        then (do
          t ← ok_or (pf.unpack_account_2022 (data_of w a)) invalid_token_account
          exts ← ok_or (pf.account_extensions (data_of w a)) invalid_token_account
          assert_allowed_account_extensions exts
          ok (view_of t))
        else fail invalid_token_program

  unfoldable pub mint_decimals : World → AccountInfo → Pubkey → Result ℕ
  mint_decimals w mint token_program = do
    fail_if (not (owner_of w mint == token_program)) invalid_token_mint
    if token_program == pf.spl_token_id
        then (do
          m ← ok_or (pf.unpack_mint (data_of w mint)) invalid_token_mint
          fixed_supply_decimals m)
        else if token_program == pf.spl_token_2022_id
        then (do
          m ← ok_or (pf.unpack_mint_2022 (data_of w mint)) invalid_token_mint
          exts ← ok_or (pf.mint_extensions (data_of w mint)) invalid_token_mint
          assert_allowed_mint_extensions exts
          fixed_supply_decimals m)
        else fail invalid_token_program

  -- All callers pass an owner.
  unfoldable pub assert_token_account :
      World → AccountInfo → AccountInfo → Pubkey → Option Pubkey → Result (Unit {0})
  assert_token_account w token_program a mint owner = do
    view ← unpack_token_account w token_program.key a
    fail_if (not (view.mint == mint)) invalid_token_mint
    fail_if (elim owner [ none ↦ false | some expected ↦ not (view.owner == expected) ])
        invalid_token_account

  unfoldable pub assert_custody_token_account :
      World → AccountInfo → AccountInfo → Pubkey → Pubkey → Result (Unit {0})
  assert_custody_token_account w token_program a mint owner = do
    view ← unpack_token_account w token_program.key a
    fail_if (not (view.mint == mint)) invalid_token_mint
    fail_if
        (not (view.owner == owner)
          || not view.is_initialized
          || view.is_native
          || view.is_frozen
          || view.has_delegate
          || not (view.delegated_amount == 0)
          || view.has_close_authority)
        invalid_token_account

  unfoldable pub transfer_checked_ix :
      Pubkey → Pubkey → Pubkey → Pubkey → Pubkey → ℕ → ℕ → List Seed → Result Cpi
  transfer_checked_ix token_program source mint destination authority amount decimals seeds =
      if token_program == pf.spl_token_id || token_program == pf.spl_token_2022_id
      then ok
          (transfer_checked token_program source mint destination authority amount decimals seeds)
      else fail invalid_token_program

  unfoldable pub burn_checked_ix :
      Pubkey → Pubkey → Pubkey → Pubkey → ℕ → ℕ → List Seed → Result Cpi
  burn_checked_ix token_program source mint authority amount decimals seeds =
      if token_program == pf.spl_token_id || token_program == pf.spl_token_2022_id
      then ok (burn_checked token_program source mint authority amount decimals seeds)
      else fail invalid_token_program

  -- Nothing is sent for an amount of zero.
  unfoldable pub transfer_from_program_token_account :
      World → CustodyKeys → AccountInfo → AccountInfo → ℕ → Result World
  transfer_from_program_token_account w k source destination amount =
      if amount == 0 then ok w else do
        ix ←
            transfer_checked_ix k.token_program.key source.key k.mint.key destination.key
              k.vault_authority.key amount k.decimals (signer_seeds k)
        pf.invoke ix w

  unfoldable pub burn_from_vault : World → CustodyKeys → AccountInfo → ℕ → Result World
  burn_from_vault w k vault_token_account amount = if amount == 0 then ok w else do
    ix ←
        burn_checked_ix k.token_program.key vault_token_account.key k.mint.key k.vault_authority.key
          amount k.decimals (signer_seeds k)
    pf.invoke ix w

  unfoldable pub burn_reward_pool_balance :
      World → CustodyKeys → AccountInfo → ArenaConfig → Result (World × ArenaConfig)
  burn_reward_pool_balance w k reward_pool_token_account arena_config = do
    view ← unpack_token_account w k.token_program.key reward_pool_token_account
    if view.amount == 0 then ok (w, arena_config) else do
      w' ← burn_from_vault w k reward_pool_token_account view.amount
      ok (w', record_expired arena_config view.amount)

  unfoldable pub pay_pending_rewards :
      World
      → CustodyKeys
      → AccountInfo
      → AccountInfo
      → ArenaConfig
      → ArenaPosition
      → Result (World × ArenaConfig × ArenaPosition)
  pay_pending_rewards w k reward_pool_token_account owner_token_account arena_config
        arena_position =
      if arena_position.pending_rewards == 0 then ok (w, arena_config, arena_position) else do
        w' ←
            transfer_from_program_token_account w k reward_pool_token_account owner_token_account
              arena_position.pending_rewards
        let (c, p) = record_claim arena_config arena_position
        ok (w', c, p)
