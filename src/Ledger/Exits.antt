-- ===== src/Ledger/Exits.antt =====
-- processor.rs: `process_withdraw`, and the withdrawal of an arena.
use arena_contract_sol.Prelude.{
  ℕ, ◌+◌, ◌-◌, ◌≡◌, ◌||◌, Bool, not, true, false, some, List, ◌∷◌, ◌==◌, get_elem?, refl, sym, ap,
  subst, ◌∙◌, arith, if◌then◌else◌,
}
use arena_contract_sol.Result.{
  ok, >>=-elim, fail_if, fail_if-eq-ok, ok-injective, invalid_token_mint, invalid_pda,
  invalid_amount, invalid_treasury,
}
use arena_contract_sol.State.{Pubkey, ArenaConfig, ArenaPosition}
use arena_contract_sol.Platform.{Platform, World, AccountInfo}
use arena_contract_sol.Accounts.{
  next_account_info, data_of, assert_signer, assert_writable, assert_owned_by,
  assert_supported_token_program, load_config, load_position, store_config, vault_authority_pda,
  assert_key, assert_config_pda, assert_position_pda,
}
use arena_contract_sol.Accounts.RoundTrip.{ReadsBack}
use arena_contract_sol.Tokens.{
  CustodyKeys, assert_token_account, assert_custody_token_account, custody_keys,
  pay_pending_rewards, transfer_from_program_token_account, burn_from_vault,
}
use arena_contract_sol.Operations.Exit.{
  withdraw_preview, exit_split, settle, with_remainders, withdraw_finish,
}
use arena_contract_sol.Processor.Exit.{process_withdraw}
use arena_contract_sol.Arena.{Arena, withdraw_at, put, pay_pending}
use arena_contract_sol.Ledger.{Layout, IsDistinct, IsTokenProgram, Represents}
use arena_contract_sol.Ledger.Steps.{IsOutside}
use arena_contract_sol.Ledger.Names.{SameKeys, preview-SameKeys, finish-SameKeys}
use arena_contract_sol.Ledger.Outside.{
  assert_token_account-ok, token_account-IsOutside, IsTokenAccountOf,
}
use arena_contract_sol.Ledger.Custody.{
  pay_pending_rewards-Payment, send_from_vault, send_to_pool, burn_of_vault,
}
use arena_contract_sol.Ledger.Stores.{stored-Represents}
use arena_contract_sol.Ledger.Loads.{loaded_config, loaded_position, named_both, Refined}

-- The payment that only a full exit makes.
record FullExit (pf : Platform) (program_id : Pubkey) (l : Layout) (w w' : World) (a : Arena)
    (full : Bool) (c : ArenaConfig) (p : ArenaPosition) (t : ArenaConfig × ArenaPosition)
    : Type 0 where
  left : ℕ
  paid : (if full then pay_pending a.pool c p else ok (a.pool, c, p)) ≡ ok (left, t.0, t.1)
  holds : Represents pf program_id l w' (record a { pool = left })
  clock : w'.now ≡ w.now
  keys : SameKeys c t.0

module _ (pf : Platform) (program_id : Pubkey) (laws : IsTokenProgram pf) (l : Layout)
    (distinct : IsDistinct program_id l) (w : World) (a : Arena)
    (h : Represents pf program_id l w a) where
  pay_if_full :
      (k : CustodyKeys) (full : Bool) (pool destination : AccountInfo) (c : ArenaConfig)
      (p : ArenaPosition) (t : World × ArenaConfig × ArenaPosition)
      → k.token_program.key ≡ l.token_program
      → pool.key ≡ l.pool
      → IsOutside l destination.key
      → (if full then pay_pending_rewards pf w k pool destination c p else ok (w, c, p)) ≡ ok t
      → FullExit pf program_id l w t.0 a full c p (t.1, t.2)
  pay_if_full k true pool destination c p t program at out e =
      let pay =
        pay_pending_rewards-Payment pf program_id laws l distinct w a h k program pool destination c
          p t at out e in
      record {
        left = pay.left;
        paid = pay.paid;
        holds = pay.holds;
        clock = pay.clock;
        keys = pay.keys;
      }
  pay_if_full k false pool destination c p t program at out e =
      subst (λ u. FullExit pf program_id l w u.0 a false c p (u.1, u.2)) (ok-injective _ _ e)
        (record { left = a.pool; paid = refl; holds = h; clock = refl; keys = ground arith })

module _ (pf : Platform) (program_id : Pubkey) (laws : IsTokenProgram pf)
    (config_codec : ReadsBack pf.serialize_config pf.deserialize_config)
    (position_codec : ReadsBack pf.serialize_position pf.deserialize_position) (l : Layout)
    (distinct : IsDistinct program_id l) (w w' : World) (a : Arena)
    (h : Represents pf program_id l w a) where
  -- Given a token program that moves exactly the amounts asked for, codecs that read back what
  -- they write, and a layout of distinct keys whose accounts hold an arena, with the config
  -- account of the layout passed to the handler: when the handler succeeds on the account of the
  -- `i`-th position for an owner that is not the derived authority, `withdraw_at` succeeds on
  -- that position with the same amount at the time of the clock, and the accounts of the layout
  -- hold the resulting arena afterwards.
  pub process_withdraw-refines :
      (owner owner_tokens config position vault authority pool mint token_program : AccountInfo)
      (rest : List AccountInfo) (i amount : ℕ)
      → config.key ≡ l.config
      → get_elem? l.positions i ≡ some position.key
      → (owner.key == l.authority) ≡ false
      → process_withdraw pf program_id w
          (owner ∷ owner_tokens ∷ config ∷ position ∷ vault ∷ authority ∷ pool ∷ mint
            ∷ token_program ∷ rest)
          amount
        ≡ ok w'
      → Refined pf program_id l w' (withdraw_at w.now i amount a)
  unfolding process_withdraw next_account_info withdraw_at
  process_withdraw-refines owner owner_tokens config position vault authority pool mint
        token_program rest i amount here at other e =
      >>=-elim (fail_if (amount == 0) invalid_amount) _ e λ _ some_amount e.
        >>=-elim (assert_signer owner) _ e λ _ _ e.
          >>=-elim (assert_writable owner_tokens) _ e λ _ _ e.
            >>=-elim (assert_writable config) _ e λ _ _ e.
              >>=-elim (assert_writable position) _ e λ _ _ e.
                >>=-elim (assert_writable vault) _ e λ _ _ e.
                  >>=-elim (assert_writable pool) _ e λ _ _ e.
                    >>=-elim (assert_writable mint) _ e λ _ _ e.
                      >>=-elim (assert_owned_by w config program_id) _ e λ _ _ e.
                        >>=-elim (assert_owned_by w position program_id) _ e λ _ _ e.
                          >>=-elim (assert_supported_token_program pf token_program) _ e λ _ _ e.
                            >>=-elim (load_config pf (data_of w config)) _ e λ c loads e.
                              >>=-elim (assert_config_pda pf program_id config c) _ e λ _ _ e.
                                >>=-elim
                                  (fail_if
                                    (not (c.mint == mint.key)
                                      || not (c.token_program == token_program.key)
                                      || not (c.vault_token_account == vault.key)
                                      || not (c.reward_pool_token_account == pool.key))
                                    invalid_token_mint)
                                  _ e
                                  λ _ named e.
                                    >>=-elim (fail_if (vault.key == pool.key) invalid_treasury) _ e
                                      λ _ _ e.
                                        >>=-elim
                                          (assert_key pf
                                            (vault_authority_pda pf program_id config.key)
                                            authority)
                                          _ e
                                          λ bump _ e.
                                            >>=-elim
                                              (assert_token_account pf w token_program owner_tokens
                                                mint.key (some owner.key))
                                              _ e
                                              λ _ theirs e.
                                                >>=-elim
                                                  (assert_custody_token_account pf w token_program
                                                    vault mint.key authority.key)
                                                  _ e
                                                  λ _ _ e.
                                                    >>=-elim
                                                      (assert_custody_token_account pf w
                                                        token_program pool mint.key authority.key)
                                                      _ e
                                                      λ _ _ e.
                                                        >>=-elim
                                                          (load_position pf (data_of w position)) _
                                                          e
                                                          λ p loads' e.
                                                            >>=-elim
                                                            (fail_if
                                                            (not (p.config == config.key)
                                                            || not (p.owner == owner.key))
                                                            invalid_pda)
                                                            _ e
                                                            λ _ _ e.
                                                            >>=-elim
                                                            (assert_position_pda pf program_id
                                                            position config.key owner.key)
                                                            _ e
                                                            λ _ _ e.
                                                            >>=-elim (withdraw_preview c p amount) _
                                                            e
                                                            λ v previewed e.
                                                            let k =
                                                            custody_keys token_program mint
                                                            authority v.config.decimals config.key
                                                            bump in
                                                            >>=-elim
                                                            (if v.full_exit
                                                            then pay_pending_rewards pf w k pool
                                                            owner_tokens v.config v.position
                                                            else ok (w, v.config, v.position))
                                                            _ e
                                                            λ t paying e.
                                                            >>=-elim
                                                            (exit_split t.0.now amount t.1 t.2) _ e
                                                            λ split splitting e.
                                                            >>=-elim
                                                            (settle amount v.eligible_locked_after
                                                            split)
                                                            _ e
                                                            λ s settled e.
                                                            >>=-elim
                                                            (transfer_from_program_token_account pf
                                                            t.0 k vault owner_tokens s.returned)
                                                            _ e
                                                            λ w₂ sent e.
                                                            >>=-elim
                                                            (transfer_from_program_token_account pf
                                                            w₂ k vault pool s.reward_penalty)
                                                            _ e
                                                            λ w₃ shared e.
                                                            >>=-elim
                                                            (burn_from_vault pf w₃ k vault s.burned)
                                                            _ e
                                                            λ w₄ burned e.
                                                            >>=-elim
                                                            (withdraw_finish t.0.now amount
                                                            v.eligible_locked_after s t.1
                                                            (with_remainders split t.2))
                                                            _ e
                                                            λ r finished e.
                                                            >>=-elim (store_config pf w₄ config r.0)
                                                            _ e
                                                            λ w₅ stored stored'.
                                                            let is : c ≡ a.config =
                                                            loaded_config pf program_id l w a h
                                                            config here loads in
                                                            let found =
                                                            loaded_position pf program_id l w a h
                                                            position i at loads' in
                                                            let (
                                                            at_mint, program, at_vault, at_pool,
                                                            ) =
                                                            named_both pf program_id l w a h c mint
                                                            token_program vault pool is named in
                                                            let tokens : IsTokenAccountOf pf w
                                                            l.token_program owner_tokens.key
                                                            owner.key =
                                                            subst
                                                            (λ x.
                                                            IsTokenAccountOf pf w x owner_tokens.key
                                                            owner.key)
                                                            program
                                                            (assert_token_account-ok pf w
                                                            token_program owner_tokens mint.key
                                                            owner.key theirs) in
                                                            let out =
                                                            token_account-IsOutside pf w program_id
                                                            l a owner_tokens.key owner.key h
                                                            distinct.programs other tokens in
                                                            let previews : withdraw_preview a.config
                                                            p amount
                                                            ≡ ok v =
                                                            ap (λ d. withdraw_preview d p amount)
                                                            (sym is)
                                                            ∙ previewed in
                                                            let full =
                                                            pay_if_full pf program_id laws l
                                                            distinct w a h k v.full_exit pool
                                                            owner_tokens v.config v.position t
                                                            program at_pool out paying in
                                                            let splits : exit_split w.now amount t.1
                                                            t.2
                                                            ≡ ok split =
                                                            ap (λ n. exit_split n amount t.1 t.2)
                                                            (sym full.clock)
                                                            ∙ splitting in
                                                            let finishes : withdraw_finish w.now
                                                            amount v.eligible_locked_after s t.1
                                                            (with_remainders split t.2)
                                                            ≡ ok r =
                                                            ap
                                                            (λ n.
                                                            withdraw_finish n amount
                                                            v.eligible_locked_after s t.1
                                                            (with_remainders split t.2))
                                                            (sym full.clock)
                                                            ∙ finished in
                                                            let a₁ : Arena = record a {
                                                            pool = full.left;
                                                            } in
                                                            let sent' =
                                                            send_from_vault pf program_id laws l
                                                            distinct t.0 w₂ a₁ full.holds k program
                                                            s.returned vault owner_tokens at_vault
                                                            out sent in
                                                            let a₂ : Arena = record a₁ {
                                                            vault = a.vault - s.returned;
                                                            } in
                                                            let shared' =
                                                            send_to_pool pf program_id laws l
                                                            distinct w₂ w₃ a₂ sent'.holds k program
                                                            s.reward_penalty vault pool at_vault
                                                            at_pool shared in
                                                            let a₃ : Arena = record a₂ {
                                                            vault = a₂.vault - s.reward_penalty;
                                                            pool = full.left + s.reward_penalty;
                                                            } in
                                                            let burned' =
                                                            burn_of_vault pf program_id laws l
                                                            distinct w₃ w₄ a₃ shared'.holds k
                                                            program s.burned vault at_vault at_mint
                                                            burned in
                                                            let a₄ : Arena = record a₃ {
                                                            vault = a₃.vault - s.burned;
                                                            } in
                                                            let keys : SameKeys a.config r.0 =
                                                            ground (
                                                            arith,
                                                            preview-SameKeys a.config p amount v
                                                            previews,
                                                            full.keys,
                                                            finish-SameKeys w.now amount
                                                            v.eligible_locked_after s t.1
                                                            (with_remainders split t.2) r finishes,
                                                            ) in
                                                            record {
                                                            arena = put a i a₄.vault a₄.pool r;
                                                            acted =
                                                            rw
                                                            (
                                                            fail_if-eq-ok _ _ some_amount,
                                                            found,
                                                            previews,
                                                            full.paid,
                                                            splits,
                                                            settled,
                                                            sent'.paid,
                                                            shared'.paid,
                                                            burned'.paid,
                                                            finishes,
                                                            )
                                                            refl;
                                                            holds =
                                                            stored-Represents pf program_id
                                                            config_codec position_codec l distinct w
                                                            w' a h w₄ w₅ a₄ config position i r.0
                                                            r.1 burned'.holds here at keys stored
                                                            stored' refl;
                                                            }
