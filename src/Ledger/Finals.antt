-- ===== src/Ledger/Finals.antt =====
-- processor.rs: `process_finalize_rewards`, and the finalization of an arena.
use arena_contract_sol.Prelude.{◌≡◌, ◌||◌, not, List, ◌∷◌, ◌==◌, sym, ap, ◌∙◌}
use arena_contract_sol.Result.{ok, >>=-elim, fail_if, invalid_token_mint}
use arena_contract_sol.State.{Pubkey}
use arena_contract_sol.Platform.{Platform, World, AccountInfo}
use arena_contract_sol.Accounts.{
  next_account_info, data_of, assert_writable, assert_owned_by, assert_supported_token_program,
  load_config, vault_authority_pda, assert_key, assert_config_pda,
}
use arena_contract_sol.Accounts.RoundTrip.{ReadsBack}
use arena_contract_sol.Tokens.{assert_custody_token_account, custody_keys, burn_reward_pool_balance}
use arena_contract_sol.Operations.Earn.{finalize_check}
use arena_contract_sol.Processor.Setup.{process_finalize_rewards}
use arena_contract_sol.Arena.{Arena, finalize}
use arena_contract_sol.Ledger.{Layout, IsDistinct, IsTokenProgram, Represents}
use arena_contract_sol.Ledger.Steps.{store_config-Represents, Represents-Names}
use arena_contract_sol.Ledger.Names.{SameKeys-Names}
use arena_contract_sol.Ledger.Burning.{burn_reward_pool_balance-Emptied}
use arena_contract_sol.Ledger.Loads.{loaded_config, named_pool, Refined}

module _ (pf : Platform) (program_id : Pubkey) (laws : IsTokenProgram pf)
    (config_codec : ReadsBack pf.serialize_config pf.deserialize_config)
    (position_codec : ReadsBack pf.serialize_position pf.deserialize_position) (l : Layout)
    (distinct : IsDistinct program_id l) (w w' : World) (a : Arena)
    (h : Represents pf program_id l w a) where
  -- Given a token program that moves exactly the amounts asked for, codecs that read back what
  -- they write, and a layout of distinct keys whose accounts hold an arena, with the config
  -- account of the layout passed to the handler: when the handler succeeds, `finalize` succeeds
  -- on the arena, and the accounts of the layout hold the resulting arena afterwards.
  pub process_finalize_rewards-refines :
      (config pool authority mint token_program : AccountInfo) (rest : List AccountInfo)
      → config.key ≡ l.config
      → process_finalize_rewards pf program_id w
          (config ∷ pool ∷ authority ∷ mint ∷ token_program ∷ rest)
        ≡ ok w'
      → Refined pf program_id l w' (finalize a)
  unfolding process_finalize_rewards next_account_info finalize
  process_finalize_rewards-refines config pool authority mint token_program rest here e =
      >>=-elim (assert_writable config) _ e λ _ _ e. >>=-elim (assert_writable pool) _ e λ _ _ e.
        >>=-elim (assert_writable mint) _ e λ _ _ e.
          >>=-elim (assert_owned_by w config program_id) _ e λ _ _ e.
            >>=-elim (assert_supported_token_program pf token_program) _ e λ _ _ e.
              >>=-elim (load_config pf (data_of w config)) _ e λ c loads e.
                >>=-elim (assert_config_pda pf program_id config c) _ e λ _ _ e.
                  >>=-elim
                    (fail_if
                      (not (c.mint == mint.key)
                        || not (c.token_program == token_program.key)
                        || not (c.reward_pool_token_account == pool.key))
                      invalid_token_mint)
                    _ e
                    λ _ named e. >>=-elim (finalize_check c) _ e λ _ checked e.
                      >>=-elim
                        (assert_key pf (vault_authority_pda pf program_id config.key) authority) _ e
                        λ bump _ e.
                          >>=-elim
                            (assert_custody_token_account pf w token_program pool mint.key
                              authority.key)
                            _ e
                            λ _ _ e.
                              >>=-elim
                                (burn_reward_pool_balance pf w
                                  (custody_keys token_program mint authority c.decimals config.key
                                    bump)
                                  pool c)
                                _ e
                                λ t burns stored.
                                  let is : c ≡ a.config =
                                    loaded_config pf program_id l w a h config here loads in
                                  let (at_mint, program, at_pool) =
                                    named_pool pf program_id l w a h c mint token_program pool is
                                      named in
                                  let checks : finalize_check a.config ≡ ok tt =
                                    ap finalize_check (sym is) ∙ checked in
                                  let k =
                                    custody_keys token_program mint authority c.decimals config.key
                                      bump in
                                  let burns' : burn_reward_pool_balance pf w k pool a.config
                                      ≡ ok t =
                                    ap (burn_reward_pool_balance pf w k pool) (sym is) ∙ burns in
                                  let out =
                                    burn_reward_pool_balance-Emptied pf program_id laws l distinct w
                                      a h k program pool t at_pool at_mint burns' in
                                  let names =
                                    SameKeys-Names l a.config t.1 out.keys
                                      (Represents-Names pf program_id l distinct w t.0 a h) in
                                  record {
                                    arena = record a { config = t.1; pool = 0 };
                                    acted = rw checks out.acted;
                                    holds =
                                        (store_config-Represents pf program_id l distinct t.0 w'
                                          (record a { pool = 0 }) out.holds config t.1 config_codec
                                          here names stored).0;
                                  }
