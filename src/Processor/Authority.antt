-- ===== src/Processor/Authority.antt =====
-- processor.rs: what the checks of a handler guarantee when it succeeds.
use arena_contract_sol.Prelude.{ℕ, ◌≡◌, true, not, ◌||◌, some, List, ◌∷◌, ◌==◌, arith}
use arena_contract_sol.Result.{
  ok, fail_if, >>=-elim, >>=-eq-ok, invalid_amount, invalid_token_mint, invalid_treasury,
  invalid_pda,
}
use arena_contract_sol.State.{Pubkey, ArenaConfig, ArenaPosition}
use arena_contract_sol.Platform.{Platform, World, AccountInfo}
use arena_contract_sol.Accounts.{
  next_account_info, owner_of, data_of, assert_signer, assert_writable, assert_owned_by,
  assert_supported_token_program, load_config, load_position, config_pda, position_pda,
  vault_authority_pda, assert_key, assert_config_pda, assert_position_pda,
}
use arena_contract_sol.Tokens.{assert_token_account, assert_custody_token_account}
use arena_contract_sol.Processor.Exit.{process_withdraw, process_claim_rewards}

pub signed : (a : AccountInfo) {u : Unit {0}} → assert_signer a ≡ ok u → a.is_signer ≡ true
unfolding assert_signer
signed a e = ground arith

pub owned_by :
    (w : World) (a : AccountInfo) (owner : Pubkey) {u : Unit {0}}
    → assert_owned_by w a owner ≡ ok u
    → owner_of w a ≡ owner
unfolding assert_owned_by
owned_by w a owner e = ground arith

pub both_keys :
    (p : ArenaPosition) (config owner : Pubkey) {u : Unit {0}}
    → fail_if (not (p.config == config) || not (p.owner == owner)) invalid_pda ≡ ok u
    → (p.config ≡ config) × (p.owner ≡ owner)
both_keys p config owner e = ground arith

module _ (pf : Platform) (program_id : Pubkey) where
  pub assert_key-ok :
      (found : Pubkey × ℕ) (a : AccountInfo) {bump : ℕ}
      → assert_key pf found a ≡ ok bump
      → found.0 ≡ a.key
  unfolding assert_key
  assert_key-ok found a e = ground arith

  pub assert_config_pda-ok :
      (a : AccountInfo) (c : ArenaConfig) {u : Unit {0}}
      → assert_config_pda pf program_id a c ≡ ok u
      → (config_pda pf program_id c.authority c.config_id).0 ≡ a.key
  unfolding assert_config_pda
  assert_config_pda-ok a c e =
      let (bump, k, _) =
        >>=-eq-ok (assert_key pf (config_pda pf program_id c.authority c.config_id) a) _ e in
      assert_key-ok _ a k

  pub assert_position_pda-ok :
      (a : AccountInfo) (config owner : Pubkey) {u : Unit {0}}
      → assert_position_pda pf program_id a config owner ≡ ok u
      → (position_pda pf program_id config owner).0 ≡ a.key
  unfolding assert_position_pda
  assert_position_pda-ok a config owner e =
      let (bump, k, _) =
        >>=-eq-ok (assert_key pf (position_pda pf program_id config owner) a) _ e in
      assert_key-ok _ a k

  -- The owner has signed, and the two accounts hold the arena and the owner's own position in it, at
  -- the addresses derived for them and under the program.
  pub record Authorised (w : World) (owner config position vault_authority : AccountInfo)
      : Type 0 where
    pub arena : ArenaConfig
    pub stake : ArenaPosition
    pub is_signed : owner.is_signer ≡ true
    pub config_owner : owner_of w config ≡ program_id
    pub position_owner : owner_of w position ≡ program_id
    pub config_loads : load_config pf (data_of w config) ≡ ok arena
    pub position_loads : load_position pf (data_of w position) ≡ ok stake
    pub config_key : (config_pda pf program_id arena.authority arena.config_id).0 ≡ config.key
    pub position_key : (position_pda pf program_id config.key owner.key).0 ≡ position.key
    pub authority_key : (vault_authority_pda pf program_id config.key).0 ≡ vault_authority.key
    pub of_config : stake.config ≡ config.key
    pub of_owner : stake.owner ≡ owner.key

  -- A withdrawal that succeeds on at least nine accounts was signed by the owner; the config and the
  -- position belong to the program, load, and stand at the addresses derived for them; the position
  -- is the owner's in this arena, and the authority is the arena's.
  pub process_withdraw-Authorised :
      (w w' : World) (amount : ℕ)
      (owner owner_tokens config position vault authority pool mint token_program : AccountInfo)
      (rest : List AccountInfo)
      → process_withdraw pf program_id w
          (owner ∷ owner_tokens ∷ config ∷ position ∷ vault ∷ authority ∷ pool ∷ mint
            ∷ token_program ∷ rest)
          amount
        ≡ ok w'
      → Authorised w owner config position authority
  unfolding process_withdraw next_account_info
  process_withdraw-Authorised w w' amount owner owner_tokens config position vault authority pool
        mint token_program rest e =
      >>=-elim (fail_if (amount == 0) invalid_amount) _ e λ _ _ e.
        >>=-elim (assert_signer owner) _ e λ _ sign e.
          >>=-elim (assert_writable owner_tokens) _ e λ _ _ e.
            >>=-elim (assert_writable config) _ e λ _ _ e.
              >>=-elim (assert_writable position) _ e λ _ _ e.
                >>=-elim (assert_writable vault) _ e λ _ _ e.
                  >>=-elim (assert_writable pool) _ e λ _ _ e.
                    >>=-elim (assert_writable mint) _ e λ _ _ e.
                      >>=-elim (assert_owned_by w config program_id) _ e λ _ own e.
                        >>=-elim (assert_owned_by w position program_id) _ e λ _ own' e.
                          >>=-elim (assert_supported_token_program pf token_program) _ e λ _ _ e.
                            >>=-elim (load_config pf (data_of w config)) _ e λ c loads e.
                              >>=-elim (assert_config_pda pf program_id config c) _ e λ _ at e.
                                >>=-elim
                                  (fail_if
                                    (not (c.mint == mint.key)
                                      || not (c.token_program == token_program.key)
                                      || not (c.vault_token_account == vault.key)
                                      || not (c.reward_pool_token_account == pool.key))
                                    invalid_token_mint)
                                  _ e
                                  λ _ _ e.
                                    >>=-elim (fail_if (vault.key == pool.key) invalid_treasury) _ e
                                      λ _ _ e.
                                        >>=-elim
                                          (assert_key pf
                                            (vault_authority_pda pf program_id config.key)
                                            authority)
                                          _ e
                                          λ bump auth e.
                                            >>=-elim
                                              (assert_token_account pf w token_program owner_tokens
                                                mint.key (some owner.key))
                                              _ e
                                              λ _ _ e.
                                                >>=-elim
                                                  (assert_custody_token_account pf w token_program
                                                    vault mint.key authority.key)
                                                  _ e
                                                  λ _ _ e.
                                                    >>=-elim
                                                      (assert_custody_token_account pf w
                                                        token_program pool mint.key authority.key)
                                                      _ e
                                                      λ _ _ e.
                                                        >>=-elim
                                                          (load_position pf (data_of w position)) _
                                                          e
                                                          λ p loads' e.
                                                            >>=-elim
                                                            (fail_if
                                                            (not (p.config == config.key)
                                                            || not (p.owner == owner.key))
                                                            invalid_pda)
                                                            _ e
                                                            λ _ match e.
                                                            >>=-elim
                                                            (assert_position_pda pf program_id
                                                            position config.key owner.key)
                                                            _ e
                                                            λ _ at' _. record {
                                                            arena = c;
                                                            stake = p;
                                                            is_signed = signed owner sign;
                                                            config_owner =
                                                            owned_by w config program_id own;
                                                            position_owner =
                                                            owned_by w position program_id own';
                                                            config_loads = loads;
                                                            position_loads = loads';
                                                            config_key =
                                                            assert_config_pda-ok config c at;
                                                            position_key =
                                                            assert_position_pda-ok position
                                                            config.key owner.key at';
                                                            authority_key =
                                                            assert_key-ok
                                                            (vault_authority_pda pf program_id
                                                            config.key)
                                                            authority auth;
                                                            of_config =
                                                            (both_keys p config.key owner.key
                                                            match).0;
                                                            of_owner =
                                                            (both_keys p config.key owner.key
                                                            match).1;
                                                            }

  -- A claim that succeeds on at least eight accounts was signed by the owner; the config and the
  -- position belong to the program, load, and stand at the addresses derived for them; the position
  -- is the owner's in this arena, and the authority is the arena's.
  pub process_claim_rewards-Authorised :
      (w w' : World)
      (owner owner_tokens config position pool authority mint token_program : AccountInfo)
      (rest : List AccountInfo)
      → process_claim_rewards pf program_id w (
          owner ∷ owner_tokens ∷ config ∷ position ∷ pool ∷ authority ∷ mint ∷ token_program ∷ rest)
        ≡ ok w'
      → Authorised w owner config position authority
  unfolding process_claim_rewards next_account_info
  process_claim_rewards-Authorised w w' owner owner_tokens config position pool authority mint
        token_program rest e =
      >>=-elim (assert_signer owner) _ e λ _ sign e.
        >>=-elim (assert_writable owner_tokens) _ e λ _ _ e.
          >>=-elim (assert_writable config) _ e λ _ _ e.
            >>=-elim (assert_writable position) _ e λ _ _ e.
              >>=-elim (assert_writable pool) _ e λ _ _ e.
                >>=-elim (assert_owned_by w config program_id) _ e λ _ own e.
                  >>=-elim (assert_owned_by w position program_id) _ e λ _ own' e.
                    >>=-elim (assert_supported_token_program pf token_program) _ e λ _ _ e.
                      >>=-elim (load_config pf (data_of w config)) _ e λ c loads e.
                        >>=-elim (assert_config_pda pf program_id config c) _ e λ _ at e.
                          >>=-elim
                            (fail_if
                              (not (c.mint == mint.key)
                                || not (c.token_program == token_program.key)
                                || not (c.reward_pool_token_account == pool.key))
                              invalid_token_mint)
                            _ e
                            λ _ _ e.
                              >>=-elim
                                (assert_key pf (vault_authority_pda pf program_id config.key)
                                  authority)
                                _ e
                                λ bump auth e.
                                  >>=-elim
                                    (assert_token_account pf w token_program owner_tokens mint.key
                                      (some owner.key))
                                    _ e
                                    λ _ _ e.
                                      >>=-elim
                                        (assert_custody_token_account pf w token_program pool
                                          mint.key authority.key)
                                        _ e
                                        λ _ _ e.
                                          >>=-elim (load_position pf (data_of w position)) _ e
                                            λ p loads' e.
                                              >>=-elim
                                                (fail_if
                                                  (not (p.config == config.key)
                                                    || not (p.owner == owner.key))
                                                  invalid_pda)
                                                _ e
                                                λ _ match e.
                                                  >>=-elim
                                                    (assert_position_pda pf program_id position
                                                      config.key owner.key)
                                                    _ e
                                                    λ _ at' _. record {
                                                      arena = c;
                                                      stake = p;
                                                      is_signed = signed owner sign;
                                                      config_owner =
                                                          owned_by w config program_id own;
                                                      position_owner =
                                                          owned_by w position program_id own';
                                                      config_loads = loads;
                                                      position_loads = loads';
                                                      config_key = assert_config_pda-ok config c at;
                                                      position_key =
                                                          assert_position_pda-ok position config.key
                                                            owner.key at';
                                                      authority_key =
                                                          assert_key-ok
                                                            (vault_authority_pda pf program_id
                                                            config.key)
                                                            authority auth;
                                                      of_config =
                                                          (both_keys p config.key owner.key
                                                            match).0;
                                                      of_owner =
                                                          (both_keys p config.key owner.key
                                                            match).1;
                                                    }
