-- ===== src/Ledger/Initial.antt =====
-- processor.rs: `process_initialize_config`, and the arena without positions that it makes.
use arena_contract_sol.Prelude.{ℕ, ◌+◌, ◌<◌, ◌≡◌, not, false, List, [], ◌∷◌, ◌==◌, refl, ◌∙◌, arith}
use arena_contract_sol.Result.{ok, >>=-elim, fail_if, invalid_token_mint, invalid_treasury}
use arena_contract_sol.Checked.{u64_limit}
use arena_contract_sol.State.{Pubkey, config_size}
use arena_contract_sol.Policy.{ConfigParams, assert_config_params}
use arena_contract_sol.Policy.Exposure.{config_params_exact}
use arena_contract_sol.Platform.{
  Platform, World, AccountInfo, config_seed, key_seed, u64_seed, bump_seed,
}
use arena_contract_sol.Accounts.{
  next_account_info, owner_of, assert_signer, assert_writable, assert_uninitialized,
  assert_system_program, assert_supported_token_program, store_config, vault_authority_pda,
  config_pda, assert_key, create_program_account,
}
use arena_contract_sol.Accounts.RoundTrip.{ReadsBack, store_bytes-decodes}
use arena_contract_sol.Tokens.{assert_custody_token_account, mint_decimals, unpack_token_account}
use arena_contract_sol.Processor.Setup.{process_initialize_config, initial_config}
use arena_contract_sol.Arena.{Arena}
use arena_contract_sol.Arena.Frame.{IsConsistent}
use arena_contract_sol.Ledger.{Layout, Distinct, state_keys, IsSystemProgram, Holds, Represents}
use arena_contract_sol.Ledger.Moves.{==_flip, Holds-frame}
use arena_contract_sol.Ledger.Outside.{cell_owner}
use arena_contract_sol.Ledger.Creation.{Created, differs, create_program_account-Created}

-- An arena that the accounts hold and in which the invariant holds.
pub record Established (pf : Platform) (program_id : Pubkey) (l : Layout) (w : World) : Type 0 where
  pub arena : Arena
  pub holds : Represents pf program_id l w arena
  pub consistent : IsConsistent arena

-- What an initialization leaves: no positions, an invariant that holds, and accounts of which none
-- is another.
pub record Initialized (pf : Platform) (program_id : Pubkey) (l : Layout) (w : World) : Type 0 where
  pub state : Established pf program_id l w
  pub keys : Distinct (state_keys l)
  pub config_is_no_mint : (l.config == l.mint) ≡ false

mint_owner :
    (pf : Platform) (w : World) (mint : AccountInfo) (token_program : Pubkey) (decimals : ℕ)
    → mint_decimals pf w mint token_program ≡ ok decimals
    → (w.cell mint.key).owner ≡ token_program
unfolding mint_decimals
mint_owner pf w mint token_program decimals e =
    >>=-elim (fail_if (not (owner_of w mint == token_program)) invalid_token_mint) _ e
      λ _ same _. ground (arith, same)

abbrev pub initial_layout :
    (config mint vault vault_authority pool token_program : AccountInfo) → Layout
initial_layout config mint vault vault_authority pool token_program = record {
  config = config.key;
  vault = vault.key;
  pool = pool.key;
  mint = mint.key;
  token_program = token_program.key;
  authority = vault_authority.key;
  positions = [];
}

custody-Holds :
    (pf : Platform) (w : World) (token_program a : AccountInfo) (mint owner : Pubkey) {u : Unit {0}}
    → assert_custody_token_account pf w token_program a mint owner ≡ ok u
    → (b : ℕ) × Holds pf w token_program.key a.key owner b
unfolding assert_custody_token_account unpack_token_account
custody-Holds pf w token_program a mint owner e =
    >>=-elim (unpack_token_account pf w token_program.key a) _ e λ v is e.
      >>=-elim (fail_if (not (v.mint == mint)) invalid_token_mint) _ e
        λ _ _ e. (v.amount, (v, is, ground arith, refl))

module _ (pf : Platform) (program_id : Pubkey) (system : IsSystemProgram pf)
    (config_codec : ReadsBack pf.serialize_config pf.deserialize_config) where
  pub process_initialize_config-Initialized :
      (w w' : World) (p : ConfigParams)
      (authority config mint vault vault_authority pool token_program system_program : AccountInfo)
      (rest : List AccountInfo)
      → p.min_deposit_amount < u64_limit
      → (token_program.key == pf.system_program_id) ≡ false
      → ((b b' : ℕ)
          → Holds pf w token_program.key vault.key vault_authority.key b
          → Holds pf w token_program.key pool.key vault_authority.key b'
          → b + b' < u64_limit)
      → process_initialize_config pf program_id w
          (authority ∷ config ∷ mint ∷ vault ∷ vault_authority ∷ pool ∷ token_program
            ∷ system_program ∷ rest)
          p
        ≡ ok w'
      → Initialized pf program_id
          (initial_layout config mint vault vault_authority pool token_program)
          w'
  unfolding process_initialize_config next_account_info initial_config store_config
  process_initialize_config-Initialized w w' p authority config mint vault vault_authority pool
        token_program system_program rest small own_tokens supply e =
      >>=-elim (assert_config_params p) _ e λ _ params e.
        >>=-elim (assert_signer authority) _ e λ _ _ e.
          >>=-elim (assert_writable authority) _ e λ _ _ e.
            >>=-elim (assert_writable config) _ e λ _ _ e.
              >>=-elim (assert_uninitialized pf w config) _ e λ _ _ e.
                >>=-elim (assert_supported_token_program pf token_program) _ e λ _ _ e.
                  >>=-elim (assert_system_program pf system_program) _ e λ _ _ e.
                    >>=-elim (mint_decimals pf w mint token_program.key) _ e λ decimals minted e.
                      >>=-elim (fail_if (not (decimals == p.decimals)) invalid_token_mint) _ e
                        λ _ _ e.
                          >>=-elim
                            (assert_key pf (config_pda pf program_id authority.key p.config_id)
                              config)
                            _ e
                            λ bump _ e.
                              >>=-elim
                                (assert_key pf (vault_authority_pda pf program_id config.key)
                                  vault_authority)
                                _ e
                                λ bump' _ e.
                                  >>=-elim (fail_if (vault.key == pool.key) invalid_treasury) _ e
                                    λ _ two e.
                                      >>=-elim
                                        (assert_custody_token_account pf w token_program vault
                                          mint.key vault_authority.key)
                                        _ e
                                        λ _ vaults e.
                                          >>=-elim
                                            (assert_custody_token_account pf w token_program pool
                                              mint.key vault_authority.key)
                                            _ e
                                            λ _ pools e.
                                              >>=-elim
                                                (create_program_account pf w authority config
                                                  program_id config_size
                                                  (config_seed
                                                    ∷ key_seed authority.key
                                                    ∷ u64_seed p.config_id
                                                    ∷ bump_seed bump
                                                    ∷ []))
                                                _ e
                                                λ w₁ creates stored.
                                                  let made : Created pf program_id config.key
                                                      config_size w w₁ =
                                                    create_program_account-Created pf system w w₁
                                                      authority config program_id config_size
                                                      (config_seed
                                                        ∷ key_seed authority.key
                                                        ∷ u64_seed p.config_id
                                                        ∷ bump_seed bump
                                                        ∷ [])
                                                      creates in
                                                  let c =
                                                    initial_config p authority.key mint.key
                                                      token_program.key vault.key pool.key w₁.now
                                                      bump bump' in
                                                  let (decoded, s) =
                                                    store_bytes-decodes pf.serialize_config
                                                      pf.deserialize_config w₁ w' config c
                                                      config_codec stored in
                                                  let (b, vault_holds) =
                                                    custody-Holds pf w token_program vault mint.key
                                                      vault_authority.key vaults in
                                                  let (b', pool_holds) =
                                                    custody-Holds pf w token_program pool mint.key
                                                      vault_authority.key pools in
                                                  let acceptable =
                                                    (config_params_exact p small).0 params in
                                                  let far : (k : Pubkey)
                                                      → (w.cell k).owner ≡ token_program.key
                                                      → (k == config.key) ≡ false =
                                                    λ k its.
                                                      differs pf w k config.key made.fresh
                                                        (rw its own_tokens) in
                                                  let same : (k : Pubkey) (o : Pubkey) (n : ℕ)
                                                      → Holds pf w token_program.key k o n
                                                      → Holds pf w' token_program.key k o n =
                                                    λ k o n held.
                                                      let its =
                                                        cell_owner pf w token_program.key k
                                                          held.1 in
                                                      Holds-frame pf program_id w w'
                                                        token_program.key k o n
                                                        (s.others k (far k its)
                                                          ∙ made.others k (rw its own_tokens))
                                                        held in
                                                  let vault_away = far vault.key (
                                                    cell_owner pf w token_program.key vault.key
                                                      vault_holds.1) in
                                                  let pool_away = far pool.key (
                                                    cell_owner pf w token_program.key pool.key
                                                      pool_holds.1) in
                                                  let mint_away = far mint.key (
                                                    mint_owner pf w mint token_program.key decimals
                                                      minted) in
                                                  let apart : (vault.key == pool.key) ≡ false =
                                                    ground (arith, two) in
                                                  record {
                                                    state = record {
                                                      arena = record {
                                                        config = c;
                                                        vault = b;
                                                        pool = b';
                                                        positions = [];
                                                      };
                                                      holds = record {
                                                        config = decoded;
                                                        config_owner = s.owner ∙ made.owned;
                                                        vault =
                                                            same vault.key vault_authority.key b
                                                            vault_holds;
                                                        pool =
                                                            same pool.key vault_authority.key b'
                                                            pool_holds;
                                                        positions = tt;
                                                        vault_key = refl;
                                                        pool_key = refl;
                                                        mint_key = refl;
                                                        program_key = refl;
                                                      };
                                                      consistent = record {
                                                        config = omega (
                                                          arith, acceptable.rate,
                                                          acceptable.burn_rate,
                                                        );
                                                        sound = tt;
                                                        totals = omega arith;
                                                        custody = omega arith;
                                                        supply = supply b b' vault_holds pool_holds;
                                                        solvent = omega arith;
                                                      };
                                                    };
                                                    keys = (
                                                      (vault_away, (pool_away, tt)),
                                                      (
                                                        (==_flip vault.key pool.key apart, tt),
                                                        (tt, tt),
                                                      ),
                                                    );
                                                    config_is_no_mint =
                                                        ==_flip mint.key config.key mint_away;
                                                  }
