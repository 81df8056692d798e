-- ===== src/Processor/Funding.antt =====
-- processor.rs: `process_fund_rewards`.
use arena_contract_sol.Prelude.{ℕ, not, ◌||◌, Option, some, List, [], ◌==◌}
use arena_contract_sol.Result.{Result, fail_if, ◌>>=◌, ◌>>◌, invalid_token_mint, invalid_amount}
use arena_contract_sol.State.{Pubkey}
use arena_contract_sol.Platform.{Platform, World, AccountInfo}
use arena_contract_sol.Accounts.{
  next_account_info, data_of, assert_signer, assert_writable, assert_owned_by,
  assert_supported_token_program, load_config, store_config, vault_authority_pda, assert_config_pda,
}
use arena_contract_sol.Tokens.{
  assert_token_account, assert_custody_token_account, transfer_checked_ix,
}
use arena_contract_sol.Operations.Earn.{fund_check, fund_commit}

module _ (pf : Platform) (program_id : Pubkey) where
  unfoldable pub process_fund_rewards : World → List AccountInfo → ℕ → Option (ℕ × ℕ) → Result World
  process_fund_rewards w accounts amount expected_snapshot = do
    fail_if (amount == 0) invalid_amount
    (funder, accounts) ← next_account_info accounts
    (funder_token_account, accounts) ← next_account_info accounts
    (config, accounts) ← next_account_info accounts
    (reward_pool_token_account, accounts) ← next_account_info accounts
    (mint, accounts) ← next_account_info accounts
    (token_program, accounts) ← next_account_info accounts
    assert_signer funder
    assert_writable funder_token_account
    assert_writable config
    assert_writable reward_pool_token_account
    assert_owned_by w config program_id
    assert_supported_token_program pf token_program
    c ← load_config pf (data_of w config)
    assert_config_pda pf program_id config c
    fail_if
        (not (c.mint == mint.key)
          || not (c.token_program == token_program.key)
          || not (c.reward_pool_token_account == reward_pool_token_account.key))
        invalid_token_mint
    eligible_snapshot ← fund_check c amount expected_snapshot
    let (vault_authority, _) = vault_authority_pda pf program_id config.key
    assert_token_account pf w token_program funder_token_account mint.key (some funder.key)
    assert_custody_token_account pf w token_program reward_pool_token_account mint.key
        vault_authority
    ix ←
        transfer_checked_ix pf token_program.key funder_token_account.key mint.key
          reward_pool_token_account.key funder.key amount c.decimals []
    w' ← pf.invoke ix w
    c' ← fund_commit c amount eligible_snapshot
    store_config pf w' config c'
