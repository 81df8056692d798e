-- ===== src/Processor/Activation.antt =====
-- processor.rs: what the checks of `process_activate_position` guarantee when it succeeds.
use arena_contract_sol.Prelude.{◌≡◌, not, ◌||◌, List, ◌∷◌, ◌==◌}
use arena_contract_sol.Result.{ok, fail_if, >>=-elim, invalid_token_mint, invalid_pda}
use arena_contract_sol.State.{Pubkey}
use arena_contract_sol.Platform.{Platform, World, AccountInfo}
use arena_contract_sol.Accounts.{
  next_account_info, data_of, assert_signer, assert_writable, assert_owned_by,
  assert_supported_token_program, load_config, load_position, vault_authority_pda, assert_key,
  assert_config_pda, assert_position_pda,
}
use arena_contract_sol.Tokens.{assert_custody_token_account}
use arena_contract_sol.Processor.Entry.{process_activate_position}
use arena_contract_sol.Processor.Authority.{
  Authorised, signed, owned_by, both_keys, assert_key-ok, assert_config_pda-ok,
  assert_position_pda-ok,
}

-- An activation that succeeds on at least seven accounts was signed by the owner; the config and the
-- position belong to the program, load, and stand at the addresses derived for them; the position
-- is the owner's in this arena, and the authority is the arena's.
pub process_activate_position-Authorised :
    (pf : Platform) (program_id : Pubkey) (w w' : World)
    (owner config position pool authority mint token_program : AccountInfo)
    (rest : List AccountInfo)
    → process_activate_position pf program_id w
        (owner ∷ config ∷ position ∷ pool ∷ authority ∷ mint ∷ token_program ∷ rest)
      ≡ ok w'
    → Authorised pf program_id w owner config position authority
unfolding process_activate_position next_account_info
process_activate_position-Authorised pf program_id w w' owner config position pool authority mint
      token_program rest e =
    >>=-elim (assert_signer owner) _ e λ _ sign e. >>=-elim (assert_writable config) _ e λ _ _ e.
      >>=-elim (assert_writable position) _ e λ _ _ e.
        >>=-elim (assert_owned_by w config program_id) _ e λ _ own e.
          >>=-elim (assert_owned_by w position program_id) _ e λ _ own' e.
            >>=-elim (assert_supported_token_program pf token_program) _ e λ _ _ e.
              >>=-elim (load_config pf (data_of w config)) _ e λ c loads e.
                >>=-elim (assert_config_pda pf program_id config c) _ e λ _ at e.
                  >>=-elim
                    (fail_if
                      (not (c.mint == mint.key)
                        || not (c.token_program == token_program.key)
                        || not (c.reward_pool_token_account == pool.key))
                      invalid_token_mint)
                    _ e
                    λ _ _ e.
                      >>=-elim
                        (assert_key pf (vault_authority_pda pf program_id config.key) authority) _ e
                        λ _ auth e.
                          >>=-elim
                            (assert_custody_token_account pf w token_program pool mint.key
                              authority.key)
                            _ e
                            λ _ _ e.
                              >>=-elim (load_position pf (data_of w position)) _ e λ p loads' e.
                                >>=-elim
                                  (fail_if
                                    (not (p.config == config.key) || not (p.owner == owner.key))
                                    invalid_pda)
                                  _ e
                                  λ _ match e.
                                    >>=-elim
                                      (assert_position_pda pf program_id position config.key
                                        owner.key)
                                      _ e
                                      λ _ at' _.
                                        let (of_config, of_owner) =
                                          both_keys p config.key owner.key match in
                                        record {
                                          arena = c;
                                          stake = p;
                                          is_signed = signed owner sign;
                                          config_owner = owned_by w config program_id own;
                                          position_owner = owned_by w position program_id own';
                                          config_loads = loads;
                                          position_loads = loads';
                                          config_key =
                                              assert_config_pda-ok pf program_id config c at;
                                          position_key =
                                              assert_position_pda-ok pf program_id position
                                                config.key owner.key at';
                                          authority_key =
                                              assert_key-ok pf program_id
                                                (vault_authority_pda pf program_id config.key)
                                                authority auth;
                                          of_config = of_config;
                                          of_owner = of_owner;
                                        }
