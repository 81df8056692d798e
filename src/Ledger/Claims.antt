-- ===== src/Ledger/Claims.antt =====
-- processor.rs: `process_claim_rewards`, and the claim of an arena.
use arena_contract_sol.Prelude.{
  ℕ, ◌≡◌, ◌||◌, ◌&&◌, not, false, some, List, ◌∷◌, ◌==◌, get_elem?, refl, sym, ap, subst, ◌∙◌,
  arith,
}
use arena_contract_sol.Result.{ok, >>=-elim, fail_if, invalid_token_mint, invalid_pda, no_rewards}
use arena_contract_sol.State.{Pubkey, ArenaPosition}
use arena_contract_sol.Platform.{Platform, World, AccountInfo}
use arena_contract_sol.Accounts.{
  next_account_info, data_of, assert_signer, assert_writable, assert_owned_by,
  assert_supported_token_program, load_config, load_position, store_config, vault_authority_pda,
  assert_key, assert_config_pda, assert_position_pda,
}
use arena_contract_sol.Accounts.RoundTrip.{ReadsBack}
use arena_contract_sol.Tokens.{
  assert_token_account, assert_custody_token_account, custody_keys, pay_pending_rewards,
}
use arena_contract_sol.Operations.Earn.{claim_sync, maturity_sync}
use arena_contract_sol.Processor.Exit.{process_claim_rewards}
use arena_contract_sol.Arena.{Arena, claim_at, put}
use arena_contract_sol.Ledger.{Layout, IsDistinct, IsTokenProgram, Represents}
use arena_contract_sol.Ledger.Names.{SameKeys, claim_sync-SameKeys}
use arena_contract_sol.Ledger.Outside.{
  assert_token_account-ok, token_account-IsOutside, IsTokenAccountOf,
}
use arena_contract_sol.Ledger.Custody.{pay_pending_rewards-Payment}
use arena_contract_sol.Ledger.Stores.{stored-Represents}
use arena_contract_sol.Ledger.Loads.{loaded_config, loaded_position, named_pool, Refined}

module _ (pf : Platform) (program_id : Pubkey) (laws : IsTokenProgram pf)
    (config_codec : ReadsBack pf.serialize_config pf.deserialize_config)
    (position_codec : ReadsBack pf.serialize_position pf.deserialize_position) (l : Layout)
    (distinct : IsDistinct program_id l) (w w' : World) (a : Arena)
    (h : Represents pf program_id l w a) where
  -- Given a token program that moves exactly the amounts asked for, codecs that read back what
  -- they write, and a layout of distinct keys whose accounts hold an arena, with the config
  -- account of the layout passed to the handler: when the handler succeeds on the account of the
  -- `i`-th position for an owner that is not the derived authority, `claim_at` succeeds on that
  -- position at the time of the clock, and the accounts of the layout hold the resulting arena
  -- afterwards.
  pub process_claim_rewards-refines :
      (owner owner_tokens config position pool authority mint token_program : AccountInfo)
      (rest : List AccountInfo) (i : ℕ)
      → config.key ≡ l.config
      → get_elem? l.positions i ≡ some position.key
      → (owner.key == l.authority) ≡ false
      → process_claim_rewards pf program_id w (
          owner ∷ owner_tokens ∷ config ∷ position ∷ pool ∷ authority ∷ mint ∷ token_program ∷ rest)
        ≡ ok w'
      → Refined pf program_id l w' (claim_at w.now i a)
  unfolding process_claim_rewards next_account_info claim_at
  process_claim_rewards-refines owner owner_tokens config position pool authority mint token_program
        rest i here at other e =
      >>=-elim (assert_signer owner) _ e λ _ _ e.
        >>=-elim (assert_writable owner_tokens) _ e λ _ _ e.
          >>=-elim (assert_writable config) _ e λ _ _ e.
            >>=-elim (assert_writable position) _ e λ _ _ e.
              >>=-elim (assert_writable pool) _ e λ _ _ e.
                >>=-elim (assert_owned_by w config program_id) _ e λ _ _ e.
                  >>=-elim (assert_owned_by w position program_id) _ e λ _ _ e.
                    >>=-elim (assert_supported_token_program pf token_program) _ e λ _ _ e.
                      >>=-elim (load_config pf (data_of w config)) _ e λ c loads e.
                        >>=-elim (assert_config_pda pf program_id config c) _ e λ _ _ e.
                          >>=-elim
                            (fail_if
                              (not (c.mint == mint.key)
                                || not (c.token_program == token_program.key)
                                || not (c.reward_pool_token_account == pool.key))
                              invalid_token_mint)
                            _ e
                            λ _ named e.
                              >>=-elim
                                (assert_key pf (vault_authority_pda pf program_id config.key)
                                  authority)
                                _ e
                                λ bump _ e.
                                  >>=-elim
                                    (assert_token_account pf w token_program owner_tokens mint.key
                                      (some owner.key))
                                    _ e
                                    λ _ theirs e.
                                      >>=-elim
                                        (assert_custody_token_account pf w token_program pool
                                          mint.key authority.key)
                                        _ e
                                        λ _ _ e.
                                          >>=-elim (load_position pf (data_of w position)) _ e
                                            λ p loads' e.
                                              >>=-elim
                                                (fail_if
                                                  (not (p.config == config.key)
                                                    || not (p.owner == owner.key))
                                                  invalid_pda)
                                                _ e
                                                λ _ _ e.
                                                  >>=-elim
                                                    (assert_position_pda pf program_id position
                                                      config.key owner.key)
                                                    _ e
                                                    λ _ _ e.
                                                      >>=-elim (claim_sync c p) _ e λ r synced e.
                                                        >>=-elim
                                                          (fail_if
                                                            (r.1.pending_rewards == 0
                                                            && not (maturity_sync c p))
                                                            no_rewards)
                                                          _ e
                                                          λ _ some_due e.
                                                            >>=-elim
                                                            (pay_pending_rewards pf w
                                                            (custody_keys token_program mint
                                                            authority r.0.decimals config.key bump)
                                                            pool owner_tokens r.0 r.1)
                                                            _ e
                                                            λ t paid e.
                                                            >>=-elim
                                                            (store_config pf t.0 config t.1) _ e
                                                            λ w₂ stored stored'.
                                                            let is : c ≡ a.config =
                                                            loaded_config pf program_id l w a h
                                                            config here loads in
                                                            let found =
                                                            loaded_position pf program_id l w a h
                                                            position i at loads' in
                                                            let (_, program, at_pool) =
                                                            named_pool pf program_id l w a h c mint
                                                            token_program pool is named in
                                                            let syncs : claim_sync a.config p
                                                            ≡ ok r =
                                                            ap (λ d. claim_sync d p) (sym is)
                                                            ∙ synced in
                                                            let due : fail_if
                                                            (r.1.pending_rewards == 0
                                                            && not (maturity_sync a.config p))
                                                            no_rewards
                                                            ≡ ok tt =
                                                            ap
                                                            (λ d.
                                                            fail_if
                                                            (r.1.pending_rewards == 0
                                                            && not (maturity_sync d p))
                                                            no_rewards)
                                                            (sym is)
                                                            ∙ some_due in
                                                            let tokens : IsTokenAccountOf pf w
                                                            l.token_program owner_tokens.key
                                                            owner.key =
                                                            subst
                                                            (λ k.
                                                            IsTokenAccountOf pf w k owner_tokens.key
                                                            owner.key)
                                                            program
                                                            (assert_token_account-ok pf w
                                                            token_program owner_tokens mint.key
                                                            owner.key theirs) in
                                                            let out =
                                                            token_account-IsOutside pf w program_id
                                                            l a owner_tokens.key owner.key h
                                                            distinct.programs other tokens in
                                                            let pay =
                                                            pay_pending_rewards-Payment pf
                                                            program_id laws l distinct w a h
                                                            (custody_keys token_program mint
                                                            authority r.0.decimals config.key bump)
                                                            program pool owner_tokens r.0 r.1 t
                                                            at_pool out paid in
                                                            let keys : SameKeys a.config t.1 =
                                                            ground (
                                                            arith,
                                                            pay.keys,
                                                            claim_sync-SameKeys a.config p r syncs,
                                                            ) in
                                                            let q : ArenaPosition = record t.2 {
                                                            last_activity_ts = w.now;
                                                            } in
                                                            record {
                                                            arena =
                                                            put a i a.vault pay.left (t.1, q);
                                                            acted =
                                                            rw (found, syncs, due, pay.paid) refl;
                                                            holds =
                                                            stored-Represents pf program_id
                                                            config_codec position_codec l distinct w
                                                            w' a h t.0 w₂
                                                            (record a { pool = pay.left }) config
                                                            position i t.1 q pay.holds here at keys
                                                            stored (rw pay.clock at stored') refl;
                                                            }
