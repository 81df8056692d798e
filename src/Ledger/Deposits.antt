-- ===== src/Ledger/Deposits.antt =====
-- processor.rs: `process_deposit` into a position that is there, and the deposit of an arena.
use arena_contract_sol.Prelude.{
  ℕ, ◌+◌, ◌≡◌, ◌||◌, not, true, false, some, List, [], ◌∷◌, ◌==◌, All-get, get_elem?, refl, sym, ap,
  subst, ◌∙◌, arith, if◌then◌else◌, ltb,
}
use arena_contract_sol.Result.{
  ok, ◌>>=◌, >>=-elim, fail_if, ok-injective, invalid_token_mint, invalid_pda, invalid_amount,
}
use arena_contract_sol.State.{Pubkey, ArenaConfig, ArenaPosition, position_size}
use arena_contract_sol.Platform.{
  Platform, World, AccountInfo, Cpi, position_seed, key_seed, bump_seed,
}
use arena_contract_sol.Accounts.{
  next_account_info, data_of, data_is_empty, assert_signer, assert_writable, assert_owned_by,
  assert_system_program, assert_supported_token_program, load_config, load_position, store_config,
  store_position, vault_authority_pda, position_pda, assert_key, assert_config_pda,
  create_program_account,
}
use arena_contract_sol.Accounts.RoundTrip.{ReadsBack}
use arena_contract_sol.Tokens.{
  assert_token_account, assert_custody_token_account, transfer_checked_ix,
}
use arena_contract_sol.Operations.Lock.{sync_position, deposit_credit}
use arena_contract_sol.Processor.Entry.{process_deposit, deposit_position, any_nonzero}
use arena_contract_sol.Arena.{Arena, deposit_at, put}
use arena_contract_sol.Arena.Frame.{supply_check_total}
use arena_contract_sol.Ledger.{Layout, IsDistinct, IsTokenProgram, SupplyFits, Represents}
use arena_contract_sol.Ledger.Steps.{into_vault-Represents}
use arena_contract_sol.Ledger.Names.{SameKeys, sync-SameKeys, credit-SameKeys}
use arena_contract_sol.Ledger.Outside.{
  assert_token_account-ok, token_account-IsOutside, IsTokenAccountOf,
}
use arena_contract_sol.Ledger.Custody.{sent_in-Moved}
use arena_contract_sol.Ledger.Stores.{stored-Represents}
use arena_contract_sol.Ledger.Loads.{loaded_config, loaded_position, named_vault, Refined}

nonzero_not_empty : (bytes : List ℕ) → any_nonzero bytes ≡ true → data_is_empty bytes ≡ false
nonzero_not_empty [] h = cc
nonzero_not_empty (b ∷ rest) h = refl

-- What the deposit of an existing position reads.
record Existing (pf : Platform) (w : World) (position : AccountInfo) (c : ArenaConfig)
    (r : ArenaConfig × ArenaPosition) : Type 0 where
  stake : ArenaPosition
  loads : load_position pf (data_of w position) ≡ ok stake
  synced : sync_position c stake ≡ ok r

deposit_position-Existing :
    (pf : Platform) (program_id : Pubkey) (w : World) (config position owner : AccountInfo)
    (bump : ℕ) (c : ArenaConfig) (r : ArenaConfig × ArenaPosition)
    → any_nonzero (data_of w position) ≡ true
    → deposit_position pf program_id w config position owner bump c ≡ ok r
    → Existing pf w position c r
unfolding deposit_position
deposit_position-Existing pf program_id w config position owner bump c r some_data e =
    >>=-elim (load_position pf (data_of w position)) _ (rw some_data at e) λ p loads e.
      >>=-elim (fail_if (not (p.config == config.key) || not (p.owner == owner.key)) invalid_pda) _
        e λ _ _ e. record { stake = p; loads = loads; synced = e }

-- What a deposit that succeeds has computed: the config, the bump of the position, the worlds after
-- the position's account is there and after the transfer, and the records that it stores.
pub record Parts (pf : Platform) (program_id : Pubkey) (w w' : World)
    (owner owner_tokens config position vault mint token_program : AccountInfo) (amount : ℕ)
    : Type 0 where
  pub c : ArenaConfig
  pub bump : ℕ
  pub opened : World
  pub ix : Cpi
  pub paid : World
  pub read : ArenaConfig × ArenaPosition
  pub credited : ArenaConfig × ArenaPosition
  pub kept : World
  pub loads : load_config pf (data_of w config) ≡ ok c
  pub least : fail_if (ltb amount c.min_deposit_amount) invalid_amount ≡ ok tt
  pub named :
      fail_if
        (not (c.mint == mint.key)
          || not (c.token_program == token_program.key)
          || not (c.vault_token_account == vault.key))
        invalid_token_mint
      ≡ ok tt
  pub bumps : assert_key pf (position_pda pf program_id config.key owner.key) position ≡ ok bump
  pub theirs :
      assert_token_account pf w token_program owner_tokens mint.key (some owner.key) ≡ ok tt
  pub opens :
      (if data_is_empty (data_of w position)
        then create_program_account pf w owner position program_id position_size
            (position_seed ∷ key_seed config.key ∷ key_seed owner.key ∷ bump_seed bump ∷ [])
        else (assert_owned_by w position program_id >>= λ _. ok w))
      ≡ ok opened
  pub built :
      transfer_checked_ix pf token_program.key owner_tokens.key mint.key vault.key owner.key amount
        c.decimals []
      ≡ ok ix
  pub pays : pf.invoke ix opened ≡ ok paid
  pub reads : deposit_position pf program_id paid config position owner bump c ≡ ok read
  pub credits : deposit_credit paid.now amount read.0 read.1 ≡ ok credited
  pub stores_config : store_config pf paid config credited.0 ≡ ok kept
  pub stores_position : store_position pf kept position credited.1 ≡ ok w'

pub process_deposit-Parts :
    (pf : Platform) (program_id : Pubkey) (w w' : World)
    (owner owner_tokens config position vault authority mint token_program
      system_program : AccountInfo)
    (rest : List AccountInfo) (amount : ℕ)
    → process_deposit pf program_id w
        (owner ∷ owner_tokens ∷ config ∷ position ∷ vault ∷ authority ∷ mint ∷ token_program
          ∷ system_program ∷ rest)
        amount
      ≡ ok w'
    → Parts pf program_id w w' owner owner_tokens config position vault mint token_program amount
unfolding process_deposit next_account_info
process_deposit-Parts pf program_id w w' owner owner_tokens config position vault authority mint
      token_program system_program rest amount e =
    >>=-elim (assert_signer owner) _ e λ _ _ e. >>=-elim (assert_writable owner) _ e λ _ _ e.
      >>=-elim (assert_writable owner_tokens) _ e λ _ _ e.
        >>=-elim (assert_writable config) _ e λ _ _ e.
          >>=-elim (assert_writable position) _ e λ _ _ e.
            >>=-elim (assert_writable vault) _ e λ _ _ e.
              >>=-elim (assert_owned_by w config program_id) _ e λ _ _ e.
                >>=-elim (assert_supported_token_program pf token_program) _ e λ _ _ e.
                  >>=-elim (assert_system_program pf system_program) _ e λ _ _ e.
                    >>=-elim (load_config pf (data_of w config)) _ e λ c loads e.
                      >>=-elim (assert_config_pda pf program_id config c) _ e λ _ _ e.
                        >>=-elim (fail_if (ltb amount c.min_deposit_amount) invalid_amount) _ e
                          λ _ least e.
                            >>=-elim
                              (fail_if
                                (not (c.mint == mint.key)
                                  || not (c.token_program == token_program.key)
                                  || not (c.vault_token_account == vault.key))
                                invalid_token_mint)
                              _ e
                              λ _ named e.
                                >>=-elim
                                  (assert_key pf (vault_authority_pda pf program_id config.key)
                                    authority)
                                  _ e
                                  λ _ _ e.
                                    >>=-elim
                                      (assert_key pf
                                        (position_pda pf program_id config.key owner.key) position)
                                      _ e
                                      λ bump bumps e.
                                        >>=-elim
                                          (assert_token_account pf w token_program owner_tokens
                                            mint.key (some owner.key))
                                          _ e
                                          λ _ theirs e.
                                            >>=-elim
                                              (assert_custody_token_account pf w token_program vault
                                                mint.key authority.key)
                                              _ e
                                              λ _ _ e.
                                                >>=-elim
                                                  (if data_is_empty (data_of w position)
                                                    then create_program_account pf w owner position
                                                        program_id position_size
                                                        (position_seed
                                                          ∷ key_seed config.key
                                                          ∷ key_seed owner.key
                                                          ∷ bump_seed bump
                                                          ∷ [])
                                                    else (assert_owned_by w position program_id
                                                        >>= λ _. ok w))
                                                  _ e
                                                  λ w₁ opened e.
                                                    >>=-elim
                                                      (transfer_checked_ix pf token_program.key
                                                        owner_tokens.key mint.key vault.key
                                                        owner.key amount c.decimals [])
                                                      _ e
                                                      λ ix built e.
                                                        >>=-elim (pf.invoke ix w₁) _ e λ w₂ sent e.
                                                          >>=-elim
                                                            (deposit_position pf program_id w₂
                                                            config position owner bump c)
                                                            _ e
                                                            λ r read e.
                                                            >>=-elim
                                                            (deposit_credit w₂.now amount r.0 r.1) _
                                                            e
                                                            λ r' credited e.
                                                            >>=-elim
                                                            (store_config pf w₂ config r'.0) _ e
                                                            λ w₃ stored stored'. record {
                                                            c = c;
                                                            bump = bump;
                                                            opened = w₁;
                                                            ix = ix;
                                                            paid = w₂;
                                                            read = r;
                                                            credited = r';
                                                            kept = w₃;
                                                            loads = loads;
                                                            least = least;
                                                            named = named;
                                                            bumps = bumps;
                                                            theirs = theirs;
                                                            opens = opened;
                                                            built = built;
                                                            pays = sent;
                                                            reads = read;
                                                            credits = credited;
                                                            stores_config = stored;
                                                            stores_position = stored';
                                                            }

module _ (pf : Platform) (program_id : Pubkey) (laws : IsTokenProgram pf)
    (config_codec : ReadsBack pf.serialize_config pf.deserialize_config)
    (position_codec : ReadsBack pf.serialize_position pf.deserialize_position) (l : Layout)
    (distinct : IsDistinct program_id l) (w w' : World) (a : Arena)
    (h : Represents pf program_id l w a) where
  -- Given a token program that moves exactly the amounts asked for, codecs that read back what
  -- they write, and a layout of distinct keys whose accounts hold an arena, with the config
  -- account of the layout passed to the handler: when the handler succeeds on the account of the
  -- `i`-th position, whose data is not all zero, for an owner that is not the derived authority,
  -- and the owner's balance and the two custody balances add up to less than 2 ^ 64, `deposit_at`
  -- succeeds on that position with the same amount at the time of the clock, and the accounts of
  -- the layout hold the resulting arena afterwards.
  pub process_deposit-refines :
      (owner owner_tokens config position vault authority mint token_program
        system_program : AccountInfo)
      (rest : List AccountInfo) (i amount : ℕ)
      → config.key ≡ l.config
      → get_elem? l.positions i ≡ some position.key
      → any_nonzero (w.cell position.key).bytes ≡ true
      → (owner.key == l.authority) ≡ false
      → SupplyFits pf l w owner_tokens.key owner.key
      → process_deposit pf program_id w
          (owner ∷ owner_tokens ∷ config ∷ position ∷ vault ∷ authority ∷ mint ∷ token_program
            ∷ system_program ∷ rest)
          amount
        ≡ ok w'
      → Refined pf program_id l w' (deposit_at w.now i amount a)
  unfolding deposit_at
  process_deposit-refines owner owner_tokens config position vault authority mint token_program
        system_program rest i amount here at written other supply e =
      let d =
        process_deposit-Parts pf program_id w w' owner owner_tokens config position vault authority
          mint token_program system_program rest amount e in
      let is : d.c ≡ a.config = loaded_config pf program_id l w a h config here d.loads in
      let (_, program, at_vault) =
        named_vault pf program_id l w a h d.c mint token_program vault is d.named in
      let still : w ≡ d.opened =
        >>=-elim (assert_owned_by w position program_id) _
          (rw (nonzero_not_empty (w.cell position.key).bytes written) at d.opens)
          λ _ _ done. ok-injective _ _ done in
      let tokens : IsTokenAccountOf pf w l.token_program owner_tokens.key owner.key =
        subst (λ k. IsTokenAccountOf pf w k owner_tokens.key owner.key) program
          (assert_token_account-ok pf w token_program owner_tokens mint.key owner.key d.theirs) in
      let out =
        token_account-IsOutside pf w program_id l a owner_tokens.key owner.key h distinct.programs
          other tokens in
      let moved =
        sent_in-Moved pf laws l w d.paid token_program owner_tokens mint vault owner l.vault amount
          d.c.decimals program at_vault out.1.0 d.built (ap (pf.invoke d.ix) still ∙ d.pays) in
      let (enough, _) =
        moved.debited owner.key tokens.view.amount
          (tokens.view, tokens.unpacks, tokens.its_owner, refl) in
      let fits =
        supply tokens.view.amount a.vault a.pool
          (tokens.view, tokens.unpacks, tokens.its_owner, refl) h.vault h.pool in
      let held =
        into_vault-Represents pf program_id l distinct w d.paid a h owner_tokens.key amount out
          moved in
      let a₂ : Arena = record a { vault = a.vault + amount } in
      let same : d.paid.cell position.key ≡ w.cell position.key =
        moved.others position.key
          (All-get (λ k. (k == owner_tokens.key) ≡ false) l.positions i position.key out.1.1.1 at)
          (All-get (λ k. (k == l.vault) ≡ false) l.positions i position.key distinct.keys.1.0.1
            at) in
      let existing =
        deposit_position-Existing pf program_id d.paid config position owner d.bump d.c d.read
          (ap (λ x. any_nonzero x.bytes) same ∙ written) d.reads in
      let found = loaded_position pf program_id l d.paid a₂ held position i at existing.loads in
      let least' : fail_if (ltb amount a.config.min_deposit_amount) invalid_amount ≡ ok tt =
        ap (λ x. fail_if (ltb amount x.min_deposit_amount) invalid_amount) (sym is) ∙ d.least in
      let syncs : sync_position a.config existing.stake ≡ ok d.read =
        ap (λ x. sync_position x existing.stake) (sym is) ∙ existing.synced in
      let credits : deposit_credit w.now amount d.read.0 d.read.1 ≡ ok d.credited =
        ap (λ n. deposit_credit n amount d.read.0 d.read.1) (sym moved.clock) ∙ d.credits in
      let keys : SameKeys a.config d.credited.0 = ground (
        arith,
        sync-SameKeys a.config existing.stake d.read syncs,
        credit-SameKeys w.now amount d.read.0 d.read.1 d.credited credits,
      ) in
      record {
        arena = put a i (a.vault + amount) a.pool d.credited;
        acted = rw (least', found, supply_check_total a amount (omega arith), syncs, credits) refl;
        holds =
            stored-Represents pf program_id config_codec position_codec l distinct w w' a h d.paid
              d.kept a₂ config position i d.credited.0 d.credited.1 held here at keys
              d.stores_config d.stores_position refl;
      }
