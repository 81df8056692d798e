-- ===== src/Ledger/Fundings.antt =====
-- processor.rs: `process_fund_rewards`, and the funding of an arena.
use arena_contract_sol.Prelude.{
  ℕ, ◌+◌, ◌≡◌, ◌||◌, not, false, Option, some, List, [], ◌∷◌, ◌==◌, refl, sym, ap, subst, ◌∙◌,
  arith,
}
use arena_contract_sol.Result.{
  ok, >>=-elim, fail_if, fail_if-eq-ok, invalid_token_mint, invalid_amount,
}
use arena_contract_sol.State.{Pubkey}
use arena_contract_sol.Platform.{Platform, World, AccountInfo}
use arena_contract_sol.Accounts.{
  next_account_info, data_of, assert_signer, assert_writable, assert_owned_by,
  assert_supported_token_program, load_config, vault_authority_pda, assert_config_pda,
}
use arena_contract_sol.Accounts.RoundTrip.{ReadsBack}
use arena_contract_sol.Tokens.{
  assert_token_account, assert_custody_token_account, transfer_checked_ix,
}
use arena_contract_sol.Operations.Earn.{fund_check, fund_commit}
use arena_contract_sol.Processor.Funding.{process_fund_rewards}
use arena_contract_sol.Arena.{Arena, fund}
use arena_contract_sol.Arena.Frame.{supply_check_total}
use arena_contract_sol.Ledger.{Layout, IsDistinct, IsTokenProgram, SupplyFits, Represents}
use arena_contract_sol.Ledger.Steps.{
  into_pool-Represents, store_config-Represents, Represents-Names,
}
use arena_contract_sol.Ledger.Names.{SameKeys-Names, fund_commit-SameKeys}
use arena_contract_sol.Ledger.Outside.{
  assert_token_account-ok, token_account-IsOutside, IsTokenAccountOf,
}
use arena_contract_sol.Ledger.Custody.{sent_in-Moved}
use arena_contract_sol.Ledger.Loads.{loaded_config, named_pool, Refined}

module _ (pf : Platform) (program_id : Pubkey) (laws : IsTokenProgram pf)
    (config_codec : ReadsBack pf.serialize_config pf.deserialize_config)
    (position_codec : ReadsBack pf.serialize_position pf.deserialize_position) (l : Layout)
    (distinct : IsDistinct program_id l) (w w' : World) (a : Arena)
    (h : Represents pf program_id l w a) where
  -- Given a token program that moves exactly the amounts asked for, codecs that read back what
  -- they write, and a layout of distinct keys whose accounts hold an arena, with the config
  -- account of the layout passed to the handler: when the handler succeeds for a funder that is
  -- not the derived authority, and the funder's balance and the two custody balances add up to
  -- less than 2 ^ 64, `fund` succeeds on the arena with the same amount and expectations, and the
  -- accounts of the layout hold the resulting arena afterwards.
  pub process_fund_rewards-refines :
      (funder funder_tokens config pool mint token_program : AccountInfo) (rest : List AccountInfo)
      (amount : ℕ) (expected : Option (ℕ × ℕ))
      → config.key ≡ l.config
      → (funder.key == l.authority) ≡ false
      → SupplyFits pf l w funder_tokens.key funder.key
      → process_fund_rewards pf program_id w
          (funder ∷ funder_tokens ∷ config ∷ pool ∷ mint ∷ token_program ∷ rest)
          amount
          expected
        ≡ ok w'
      → Refined pf program_id l w' (fund amount expected a)
  unfolding process_fund_rewards next_account_info fund
  process_fund_rewards-refines funder funder_tokens config pool mint token_program rest amount
        expected here other supply e =
      >>=-elim (fail_if (amount == 0) invalid_amount) _ e λ _ some_amount e.
        >>=-elim (assert_signer funder) _ e λ _ _ e.
          >>=-elim (assert_writable funder_tokens) _ e λ _ _ e.
            >>=-elim (assert_writable config) _ e λ _ _ e.
              >>=-elim (assert_writable pool) _ e λ _ _ e.
                >>=-elim (assert_owned_by w config program_id) _ e λ _ _ e.
                  >>=-elim (assert_supported_token_program pf token_program) _ e λ _ _ e.
                    >>=-elim (load_config pf (data_of w config)) _ e λ c loads e.
                      >>=-elim (assert_config_pda pf program_id config c) _ e λ _ _ e.
                        >>=-elim
                          (fail_if
                            (not (c.mint == mint.key)
                              || not (c.token_program == token_program.key)
                              || not (c.reward_pool_token_account == pool.key))
                            invalid_token_mint)
                          _ e
                          λ _ named e.
                            >>=-elim (fund_check c amount expected) _ e λ snapshot checked e.
                              >>=-elim
                                (assert_token_account pf w token_program funder_tokens mint.key
                                  (some funder.key))
                                _ e
                                λ _ theirs e.
                                  >>=-elim
                                    (assert_custody_token_account pf w token_program pool mint.key
                                      (vault_authority_pda pf program_id config.key).0)
                                    _ e
                                    λ _ _ e.
                                      >>=-elim
                                        (transfer_checked_ix pf token_program.key funder_tokens.key
                                          mint.key pool.key funder.key amount c.decimals [])
                                        _ e
                                        λ ix built e. >>=-elim (pf.invoke ix w) _ e λ w₁ sent e.
                                          >>=-elim (fund_commit c amount snapshot) _ e
                                            λ c' commits stored.
                                              let is : c ≡ a.config =
                                                loaded_config pf program_id l w a h config here
                                                  loads in
                                              let (_, program, at_pool) =
                                                named_pool pf program_id l w a h c mint
                                                  token_program pool is named in
                                              let checks : fund_check a.config amount expected
                                                  ≡ ok snapshot =
                                                ap (λ d. fund_check d amount expected) (sym is)
                                                ∙ checked in
                                              let done : fund_commit a.config amount snapshot
                                                  ≡ ok c' =
                                                ap (λ d. fund_commit d amount snapshot) (sym is)
                                                ∙ commits in
                                              let tokens : IsTokenAccountOf pf w l.token_program
                                                  funder_tokens.key funder.key =
                                                subst
                                                  (λ k.
                                                    IsTokenAccountOf pf w k funder_tokens.key
                                                      funder.key)
                                                  program
                                                  (assert_token_account-ok pf w token_program
                                                    funder_tokens mint.key funder.key theirs) in
                                              let out =
                                                token_account-IsOutside pf w program_id l a
                                                  funder_tokens.key funder.key h distinct.programs
                                                  other tokens in
                                              let moved =
                                                sent_in-Moved pf laws l w w₁ token_program
                                                  funder_tokens mint pool funder l.pool amount
                                                  c.decimals program at_pool out.1.1.0 built sent in
                                              let (enough, _) =
                                                moved.debited funder.key tokens.view.amount (
                                                  tokens.view, tokens.unpacks, tokens.its_owner,
                                                  refl,
                                                ) in
                                              let fits =
                                                supply tokens.view.amount a.vault a.pool
                                                  (
                                                    tokens.view, tokens.unpacks, tokens.its_owner,
                                                    refl,
                                                  )
                                                  h.vault h.pool in
                                              let held =
                                                into_pool-Represents pf program_id l distinct w w₁ a
                                                  h funder_tokens.key amount out moved in
                                              let names =
                                                SameKeys-Names l a.config c'
                                                  (fund_commit-SameKeys a.config c' amount snapshot
                                                    done)
                                                  (Represents-Names pf program_id l distinct w w₁ a
                                                    h) in
                                              record {
                                                arena = record a {
                                                  config = c';
                                                  pool = a.pool + amount;
                                                };
                                                acted =
                                                    rw
                                                      (
                                                        fail_if-eq-ok _ _ some_amount,
                                                        checks,
                                                        supply_check_total a amount (omega arith),
                                                        done,
                                                      )
                                                      refl;
                                                holds =
                                                    (store_config-Represents pf program_id l
                                                      distinct w₁ w'
                                                      (record a { pool = a.pool + amount }) held
                                                      config c' config_codec here names stored).0;
                                              }
