-- ===== src/Processor/Exit.antt =====
-- processor.rs: `process_claim_rewards` and `process_withdraw`.
use arena_contract_sol.Prelude.{ℕ, not, ◌&&◌, ◌||◌, some, List, ◌==◌, if◌then◌else◌}
use arena_contract_sol.Result.{
  Result, ok, fail_if, ◌>>=◌, ◌>>◌, invalid_token_mint, invalid_pda, invalid_treasury,
  invalid_amount, no_rewards,
}
use arena_contract_sol.State.{Pubkey}
use arena_contract_sol.Platform.{Platform, World, AccountInfo}
use arena_contract_sol.Accounts.{
  next_account_info, data_of, assert_signer, assert_writable, assert_owned_by,
  assert_supported_token_program, load_config, load_position, store_config, store_position,
  vault_authority_pda, assert_key, assert_config_pda, assert_position_pda,
}
use arena_contract_sol.Tokens.{
  assert_token_account, assert_custody_token_account, custody_keys,
  transfer_from_program_token_account, burn_from_vault, pay_pending_rewards,
}
use arena_contract_sol.Operations.Earn.{claim_sync, maturity_sync}
use arena_contract_sol.Operations.Exit.{
  withdraw_preview, exit_split, settle, with_remainders, withdraw_finish,
}

module _ (pf : Platform) (program_id : Pubkey) where
  unfoldable pub process_claim_rewards : World → List AccountInfo → Result World
  process_claim_rewards w accounts = do
    (owner, accounts) ← next_account_info accounts
    (owner_token_account, accounts) ← next_account_info accounts
    (config, accounts) ← next_account_info accounts
    (position, accounts) ← next_account_info accounts
    (reward_pool_token_account, accounts) ← next_account_info accounts
    (vault_authority, accounts) ← next_account_info accounts
    (mint, accounts) ← next_account_info accounts
    (token_program, accounts) ← next_account_info accounts
    assert_signer owner
    assert_writable owner_token_account
    assert_writable config
    assert_writable position
    assert_writable reward_pool_token_account
    assert_owned_by w config program_id
    assert_owned_by w position program_id
    assert_supported_token_program pf token_program
    c ← load_config pf (data_of w config)
    assert_config_pda pf program_id config c
    fail_if
        (not (c.mint == mint.key)
          || not (c.token_program == token_program.key)
          || not (c.reward_pool_token_account == reward_pool_token_account.key))
        invalid_token_mint
    bump ← assert_key pf (vault_authority_pda pf program_id config.key) vault_authority
    assert_token_account pf w token_program owner_token_account mint.key (some owner.key)
    assert_custody_token_account pf w token_program reward_pool_token_account mint.key
        vault_authority.key
    p ← load_position pf (data_of w position)
    fail_if (not (p.config == config.key) || not (p.owner == owner.key)) invalid_pda
    assert_position_pda pf program_id position config.key owner.key
    (c₁, p₁) ← claim_sync c p
    fail_if (p₁.pending_rewards == 0 && not (maturity_sync c p)) no_rewards
    (w₁, c₂, p₂) ←
        pay_pending_rewards pf w
          (custody_keys token_program mint vault_authority c₁.decimals config.key bump)
          reward_pool_token_account owner_token_account c₁ p₁
    w₂ ← store_config pf w₁ config c₂
    store_position pf w₂ position (record p₂ { last_activity_ts = w₁.now })

  unfoldable pub process_withdraw : World → List AccountInfo → ℕ → Result World
  process_withdraw w accounts amount = do
    fail_if (amount == 0) invalid_amount
    (owner, accounts) ← next_account_info accounts
    (owner_token_account, accounts) ← next_account_info accounts
    (config, accounts) ← next_account_info accounts
    (position, accounts) ← next_account_info accounts
    (vault_token_account, accounts) ← next_account_info accounts
    (vault_authority, accounts) ← next_account_info accounts
    (reward_pool_token_account, accounts) ← next_account_info accounts
    (mint, accounts) ← next_account_info accounts
    (token_program, accounts) ← next_account_info accounts
    assert_signer owner
    assert_writable owner_token_account
    assert_writable config
    assert_writable position
    assert_writable vault_token_account
    assert_writable reward_pool_token_account
    assert_writable mint
    assert_owned_by w config program_id
    assert_owned_by w position program_id
    assert_supported_token_program pf token_program
    c ← load_config pf (data_of w config)
    assert_config_pda pf program_id config c
    fail_if
        (not (c.mint == mint.key)
          || not (c.token_program == token_program.key)
          || not (c.vault_token_account == vault_token_account.key)
          || not (c.reward_pool_token_account == reward_pool_token_account.key))
        invalid_token_mint
    fail_if (vault_token_account.key == reward_pool_token_account.key) invalid_treasury
    bump ← assert_key pf (vault_authority_pda pf program_id config.key) vault_authority
    assert_token_account pf w token_program owner_token_account mint.key (some owner.key)
    assert_custody_token_account pf w token_program vault_token_account mint.key vault_authority.key
    assert_custody_token_account pf w token_program reward_pool_token_account mint.key
        vault_authority.key
    p ← load_position pf (data_of w position)
    fail_if (not (p.config == config.key) || not (p.owner == owner.key)) invalid_pda
    assert_position_pda pf program_id position config.key owner.key
    v ← withdraw_preview c p amount
    let keys = custody_keys token_program mint vault_authority v.config.decimals config.key bump
    (w₁, c₁, p₁) ←
        (if v.full_exit
          then pay_pending_rewards pf w keys reward_pool_token_account owner_token_account v.config
              v.position
          else ok (w, v.config, v.position))
    split ← exit_split w₁.now amount c₁ p₁
    s ← settle amount v.eligible_locked_after split
    w₂ ←
        transfer_from_program_token_account pf w₁ keys vault_token_account owner_token_account
          s.returned
    w₃ ←
        transfer_from_program_token_account pf w₂ keys vault_token_account reward_pool_token_account
          s.reward_penalty
    w₄ ← burn_from_vault pf w₃ keys vault_token_account s.burned
    (c₂, p₂) ← withdraw_finish w₁.now amount v.eligible_locked_after s c₁ (with_remainders split p₁)
    w₅ ← store_config pf w₄ config c₂
    store_position pf w₅ position p₂
