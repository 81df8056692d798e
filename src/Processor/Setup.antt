-- ===== src/Processor/Setup.antt =====
-- processor.rs: `process_initialize_config`, `process_roll_epoch` and `process_finalize_rewards`.
use arena_contract_sol.Prelude.{ℕ, true, not, ◌||◌, List, [], ◌∷◌, ◌==◌}
use arena_contract_sol.Prelude.Int.{ℤ}
use arena_contract_sol.Result.{Result, fail_if, ◌>>=◌, ◌>>◌, invalid_token_mint, invalid_treasury}
use arena_contract_sol.State.{ArenaConfig, Pubkey, config_size, arena_config_version}
use arena_contract_sol.Policy.{ConfigParams, assert_config_params}
use arena_contract_sol.Platform.{
  Platform, World, AccountInfo, config_seed, key_seed, u64_seed, bump_seed,
}
use arena_contract_sol.Accounts.{
  next_account_info, data_of, assert_signer, assert_writable, assert_owned_by,
  assert_system_program, assert_supported_token_program, assert_uninitialized, load_config,
  store_config, config_pda, vault_authority_pda, assert_key, assert_config_pda,
  create_program_account,
}
use arena_contract_sol.Tokens.{
  mint_decimals, assert_custody_token_account, custody_keys, burn_reward_pool_balance,
}
use arena_contract_sol.Operations.Lock.{roll_epoch}
use arena_contract_sol.Operations.Earn.{finalize_check}

-- The config that `process_initialize_config` writes.
unfoldable pub initial_config :
    ConfigParams
    → (authority mint token_program vault pool : Pubkey) (now : ℤ)
      (config_bump vault_authority_bump : ℕ)
    → ArenaConfig
initial_config a authority mint token_program vault pool now config_bump vault_authority_bump =
    record {
      is_initialized = true;
      version = arena_config_version;
      config_id = a.config_id;
      authority = authority;
      mint = mint;
      token_program = token_program;
      vault_token_account = vault;
      reward_pool_token_account = pool;
      min_lock_seconds = a.min_lock_seconds;
      activation_delay_seconds = a.activation_delay_seconds;
      epoch_seconds = a.epoch_seconds;
      min_deposit_amount = a.min_deposit_amount;
      early_exit_penalty_bps = a.early_exit_penalty_bps;
      burn_penalty_bps = a.burn_penalty_bps;
      decimals = a.decimals;
      config_bump = config_bump;
      vault_authority_bump = vault_authority_bump;
      created_ts = now;
      last_epoch_ts = now;
      current_epoch = 0;
      total_locked = 0;
      eligible_locked = 0;
      pending_activation_locked = 0;
      pending_rewards = 0;
      total_rewards_funded = 0;
      total_rewards_distributed = 0;
      total_rewards_claimed = 0;
      total_penalties_collected = 0;
      total_burned = 0;
      reward_index = 0;
      reward_index_generation = 0;
      total_rewards_expired = 0;
      reward_dust = 0;
      warming_locked = 0;
    }

module _ (pf : Platform) (program_id : Pubkey) where
  unfoldable pub process_initialize_config : World → List AccountInfo → ConfigParams → Result World
  process_initialize_config w accounts a = do
    assert_config_params a
    (authority, accounts) ← next_account_info accounts
    (config, accounts) ← next_account_info accounts
    (mint, accounts) ← next_account_info accounts
    (vault_token_account, accounts) ← next_account_info accounts
    (vault_authority, accounts) ← next_account_info accounts
    (reward_pool_token_account, accounts) ← next_account_info accounts
    (token_program, accounts) ← next_account_info accounts
    (system_program, accounts) ← next_account_info accounts
    assert_signer authority
    assert_writable authority
    assert_writable config
    assert_uninitialized pf w config
    assert_supported_token_program pf token_program
    assert_system_program pf system_program
    decimals ← mint_decimals pf w mint token_program.key
    fail_if (not (decimals == a.decimals)) invalid_token_mint
    config_bump ← assert_key pf (config_pda pf program_id authority.key a.config_id) config
    vault_authority_bump ←
        assert_key pf (vault_authority_pda pf program_id config.key) vault_authority
    fail_if (vault_token_account.key == reward_pool_token_account.key) invalid_treasury
    assert_custody_token_account pf w token_program vault_token_account mint.key vault_authority.key
    assert_custody_token_account pf w token_program reward_pool_token_account mint.key
        vault_authority.key
    w' ←
        create_program_account pf w authority config program_id config_size
          (config_seed ∷ key_seed authority.key ∷ u64_seed a.config_id ∷ bump_seed config_bump ∷ [])
    store_config pf w' config (
        initial_config a authority.key mint.key token_program.key vault_token_account.key
          reward_pool_token_account.key w'.now config_bump vault_authority_bump)

  unfoldable pub process_roll_epoch : World → List AccountInfo → Result World
  process_roll_epoch w accounts = do
    (config, accounts) ← next_account_info accounts
    (reward_pool_token_account, accounts) ← next_account_info accounts
    (vault_authority, accounts) ← next_account_info accounts
    (mint, accounts) ← next_account_info accounts
    (token_program, accounts) ← next_account_info accounts
    assert_writable config
    assert_owned_by w config program_id
    assert_supported_token_program pf token_program
    c ← load_config pf (data_of w config)
    assert_config_pda pf program_id config c
    fail_if
        (not (c.mint == mint.key)
          || not (c.token_program == token_program.key)
          || not (c.reward_pool_token_account == reward_pool_token_account.key))
        invalid_token_mint
    _ ← assert_key pf (vault_authority_pda pf program_id config.key) vault_authority
    assert_custody_token_account pf w token_program reward_pool_token_account mint.key
        vault_authority.key
    c' ← roll_epoch w.now c
    store_config pf w config c'

  unfoldable pub process_finalize_rewards : World → List AccountInfo → Result World
  process_finalize_rewards w accounts = do
    (config, accounts) ← next_account_info accounts
    (reward_pool_token_account, accounts) ← next_account_info accounts
    (vault_authority, accounts) ← next_account_info accounts
    (mint, accounts) ← next_account_info accounts
    (token_program, accounts) ← next_account_info accounts
    assert_writable config
    assert_writable reward_pool_token_account
    assert_writable mint
    assert_owned_by w config program_id
    assert_supported_token_program pf token_program
    c ← load_config pf (data_of w config)
    assert_config_pda pf program_id config c
    fail_if
        (not (c.mint == mint.key)
          || not (c.token_program == token_program.key)
          || not (c.reward_pool_token_account == reward_pool_token_account.key))
        invalid_token_mint
    finalize_check c
    bump ← assert_key pf (vault_authority_pda pf program_id config.key) vault_authority
    assert_custody_token_account pf w token_program reward_pool_token_account mint.key
        vault_authority.key
    (w', c') ←
        burn_reward_pool_balance pf w
          (custody_keys token_program mint vault_authority c.decimals config.key bump)
          reward_pool_token_account c
    store_config pf w' config c'
