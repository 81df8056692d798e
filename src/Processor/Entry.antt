-- ===== src/Processor/Entry.antt =====
-- processor.rs: `process_deposit` and `process_activate_position`.
use arena_contract_sol.Prelude.{
  ℕ, Bool, false, not, ◌||◌, some, List, [], ◌∷◌, ltb, ◌==◌, if◌then◌else◌,
}
use arena_contract_sol.Result.{
  Result, ok, fail_if, ◌>>=◌, ◌>>◌, invalid_token_mint, invalid_pda, invalid_amount,
}
use arena_contract_sol.State.{ArenaConfig, ArenaPosition, Pubkey, position_size}
use arena_contract_sol.Platform.{Platform, World, AccountInfo, position_seed, key_seed, bump_seed}
use arena_contract_sol.Accounts.{
  next_account_info, data_of, data_is_empty, assert_signer, assert_writable, assert_owned_by,
  assert_system_program, assert_supported_token_program, load_config, load_position, store_config,
  store_position, position_pda, vault_authority_pda, assert_key, assert_config_pda,
  assert_position_pda, create_program_account,
}
use arena_contract_sol.Tokens.{
  assert_token_account, assert_custody_token_account, transfer_checked_ix,
}
use arena_contract_sol.Operations.Lock.{
  fresh_position, sync_position, deposit_credit, activate_update,
}

abbrev pub any_nonzero : List ℕ → Bool
any_nonzero [] = false
any_nonzero (b ∷ rest) = not (b == 0) || any_nonzero rest

module _ (pf : Platform) (program_id : Pubkey) where
  -- The position of a deposit: the stored one, synchronised, or a fresh one where all bytes are 0.
  unfoldable pub deposit_position :
      World
      → AccountInfo
      → AccountInfo
      → AccountInfo
      → ℕ
      → ArenaConfig
      → Result (ArenaConfig × ArenaPosition)
  deposit_position w config position owner position_bump c =
      if any_nonzero (data_of w position)
      then (do
        existing ← load_position pf (data_of w position)
        fail_if (not (existing.config == config.key) || not (existing.owner == owner.key))
            invalid_pda
        sync_position c existing)
      else ok (c, fresh_position config.key owner.key w.now position_bump c)

  unfoldable pub process_deposit : World → List AccountInfo → ℕ → Result World
  process_deposit w accounts amount = do
    (owner, accounts) ← next_account_info accounts
    (owner_token_account, accounts) ← next_account_info accounts
    (config, accounts) ← next_account_info accounts
    (position, accounts) ← next_account_info accounts
    (vault_token_account, accounts) ← next_account_info accounts
    (vault_authority, accounts) ← next_account_info accounts
    (mint, accounts) ← next_account_info accounts
    (token_program, accounts) ← next_account_info accounts
    (system_program, accounts) ← next_account_info accounts
    assert_signer owner
    assert_writable owner
    assert_writable owner_token_account
    assert_writable config
    assert_writable position
    assert_writable vault_token_account
    assert_owned_by w config program_id
    assert_supported_token_program pf token_program
    assert_system_program pf system_program
    c ← load_config pf (data_of w config)
    assert_config_pda pf program_id config c
    fail_if (ltb amount c.min_deposit_amount) invalid_amount
    fail_if
        (not (c.mint == mint.key)
          || not (c.token_program == token_program.key)
          || not (c.vault_token_account == vault_token_account.key))
        invalid_token_mint
    _ ← assert_key pf (vault_authority_pda pf program_id config.key) vault_authority
    position_bump ← assert_key pf (position_pda pf program_id config.key owner.key) position
    assert_token_account pf w token_program owner_token_account mint.key (some owner.key)
    assert_custody_token_account pf w token_program vault_token_account mint.key vault_authority.key
    w₁ ←
        (if data_is_empty (data_of w position)
          then create_program_account pf w owner position program_id position_size (
              position_seed
              ∷ key_seed config.key
              ∷ key_seed owner.key
              ∷ bump_seed position_bump
              ∷ [])
          else do assert_owned_by w position program_id; ok w)
    ix ←
        transfer_checked_ix pf token_program.key owner_token_account.key mint.key
          vault_token_account.key owner.key amount c.decimals []
    w₂ ← pf.invoke ix w₁
    (c₁, p) ← deposit_position w₂ config position owner position_bump c
    (c₂, p') ← deposit_credit w₂.now amount c₁ p
    w₃ ← store_config pf w₂ config c₂
    store_position pf w₃ position p'

  unfoldable pub process_activate_position : World → List AccountInfo → Result World
  process_activate_position w accounts = do
    (owner, accounts) ← next_account_info accounts
    (config, accounts) ← next_account_info accounts
    (position, accounts) ← next_account_info accounts
    (reward_pool_token_account, accounts) ← next_account_info accounts
    (vault_authority, accounts) ← next_account_info accounts
    (mint, accounts) ← next_account_info accounts
    (token_program, accounts) ← next_account_info accounts
    assert_signer owner
    assert_writable config
    assert_writable position
    assert_owned_by w config program_id
    assert_owned_by w position program_id
    assert_supported_token_program pf token_program
    c ← load_config pf (data_of w config)
    assert_config_pda pf program_id config c
    fail_if
        (not (c.mint == mint.key)
          || not (c.token_program == token_program.key)
          || not (c.reward_pool_token_account == reward_pool_token_account.key))
        invalid_token_mint
    _ ← assert_key pf (vault_authority_pda pf program_id config.key) vault_authority
    assert_custody_token_account pf w token_program reward_pool_token_account mint.key
        vault_authority.key
    p ← load_position pf (data_of w position)
    fail_if (not (p.config == config.key) || not (p.owner == owner.key)) invalid_pda
    assert_position_pda pf program_id position config.key owner.key
    (c', p') ← activate_update w.now c p
    w' ← store_config pf w config c'
    store_position pf w' position p'
