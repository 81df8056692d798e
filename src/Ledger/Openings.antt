-- ===== src/Ledger/Openings.antt =====
-- processor.rs: `process_deposit` into an account that is made for it, and the opening of a position
-- in an arena.
use arena_contract_sol.Prelude.{
  ℕ, zero, suc, ◌+◌, ◌≡◌, true, false, some, List, [], ◌∷◌, ◌++◌, ◌==◌, replicate, length,
  get_elem?, set, refl, sym, ap, subst, ◌∙◌, arith, ltb,
}
use arena_contract_sol.Prelude.Int.{ℤ}
use arena_contract_sol.Result.{ok, fail_if, ok-injective, invalid_amount}
use arena_contract_sol.State.{Pubkey, ArenaConfig, ArenaPosition, position_size}
use arena_contract_sol.Platform.{Platform, World, AccountInfo, position_seed, key_seed, bump_seed}
use arena_contract_sol.Accounts.{
  data_is_empty, position_pda, assert_key, store_config, store_position,
}
use arena_contract_sol.Accounts.RoundTrip.{ReadsBack, store_bytes-decodes}
use arena_contract_sol.Rewards.{accrue_rewards, mature_warming_if_ready, reward_index_delta_since}
use arena_contract_sol.Operations.Lock.{fresh_position, sync_position, deposit_credit}
use arena_contract_sol.Processor.Entry.{process_deposit, deposit_position, any_nonzero}
use arena_contract_sol.Arena.{Arena, deposit_at, open_position, put}
use arena_contract_sol.Arena.Frame.{supply_check_total}
use arena_contract_sol.Ledger.{
  Layout, Avoids, state_keys, IsDistinct, IsTokenProgram, IsSystemProgram, SupplyFits, Holds,
  HoldsPosition, HoldsPositions, Represents,
}
use arena_contract_sol.Ledger.Moves.{==_flip, All-map, Holds-frame, HoldsPositions-frame}
use arena_contract_sol.Ledger.Steps.{
  into_vault-Represents, store_config-Represents, Represents-Names,
}
use arena_contract_sol.Ledger.Names.{SameKeys-Names, credit-SameKeys}
use arena_contract_sol.Ledger.Outside.{
  cell_owner, assert_token_account-ok, token_account-IsOutside, IsTokenAccountOf,
}
use arena_contract_sol.Ledger.Custody.{sent_in-Moved}
use arena_contract_sol.Ledger.Creation.{
  Created, differs, create_program_account-Created, created-Represents, created-Avoids,
}
use arena_contract_sol.Ledger.Loads.{loaded_config, named_vault, Refined}
use arena_contract_sol.Ledger.Deposits.{process_deposit-Parts}

-- The layout with one more position.
abbrev pub with_position : Layout → Pubkey → Layout
with_position l k = record l { positions = l.positions ++ k ∷ [] }

any_nonzero-replicate : (n : ℕ) → any_nonzero (replicate n 0) ≡ false
any_nonzero-replicate zero = refl
any_nonzero-replicate (suc n) = any_nonzero-replicate n

get_elem?-append :
    (ps : List ArenaPosition) (p : ArenaPosition) → get_elem? (ps ++ p ∷ []) (length ps) ≡ some p
get_elem?-append [] p = refl
get_elem?-append (q ∷ ps) p = get_elem?-append ps p

set-append :
    (ps : List ArenaPosition) (p q : ArenaPosition)
    → set (ps ++ p ∷ []) (length ps) q ≡ ps ++ q ∷ []
set-append [] p q = refl
set-append (r ∷ ps) p q = ap (λ xs. r ∷ xs) (set-append ps p q)

-- A fresh position is in step with the index.
sync_fresh :
    (config_key owner_key : Pubkey) (now : ℤ) (bump : ℕ) (c : ArenaConfig)
    → sync_position c (fresh_position config_key owner_key now bump c)
      ≡ ok (c, fresh_position config_key owner_key now bump c)
unfolding sync_position mature_warming_if_ready accrue_rewards reward_index_delta_since
sync_fresh config_key owner_key now bump c = ground arith

fresh_read :
    (pf : Platform) (program_id : Pubkey) (w : World) (config position owner : AccountInfo)
    (bump : ℕ) (c : ArenaConfig) (r : ArenaConfig × ArenaPosition)
    → any_nonzero (w.cell position.key).bytes ≡ false
    → deposit_position pf program_id w config position owner bump c ≡ ok r
    → (c, fresh_position config.key owner.key w.now bump c) ≡ r
unfolding deposit_position
fresh_read pf program_id w config position owner bump c r blank e = ok-injective _ _ (rw blank at e)

key_bump :
    (pf : Platform) (found : Pubkey × ℕ) (a : AccountInfo) {bump : ℕ}
    → assert_key pf found a ≡ ok bump
    → found.1 ≡ bump
unfolding assert_key
key_bump pf found a e = ground arith

module _ (pf : Platform) (program_id : Pubkey) where
  HoldsPositions-append :
      (w : World) (keys : List Pubkey) (ps : List ArenaPosition) (k : Pubkey) (p : ArenaPosition)
      → HoldsPositions pf program_id w keys ps
      → HoldsPosition pf program_id w k p
      → HoldsPositions pf program_id w (keys ++ k ∷ []) (ps ++ p ∷ [])
  HoldsPositions-append w [] [] k p h new = (new, tt)
  HoldsPositions-append w [] (q ∷ ps) k p h new = elim h [ ]
  HoldsPositions-append w (x ∷ keys) [] k p h new = elim h [ ]
  HoldsPositions-append w (x ∷ keys) (q ∷ ps) k p h new =
      (h.0, HoldsPositions-append w keys ps k p h.1 new)

  append_position-Represents :
      (l : Layout) (w w' : World) (a : Arena) (acc : AccountInfo) (q : ArenaPosition)
      → Represents pf program_id l w a
      → ReadsBack pf.serialize_position pf.deserialize_position
      → Avoids acc.key (state_keys l)
      → (w.cell acc.key).owner ≡ program_id
      → store_position pf w acc q ≡ ok w'
      → Represents pf program_id
          (with_position l acc.key)
          w'
          (record a { positions = a.positions ++ q ∷ [] })
  unfolding store_position
  append_position-Represents l w w' a acc q h reads apart own e =
      let (decoded, s) =
        store_bytes-decodes pf.serialize_position pf.deserialize_position w w' acc q reads e in
      record {
        config = rw (s.others l.config apart.0) h.config;
        config_owner = rw (s.others l.config apart.0) h.config_owner;
        vault =
            Holds-frame pf program_id w w' l.token_program l.vault l.authority a.vault
              (s.others l.vault apart.1.0) h.vault;
        pool =
            Holds-frame pf program_id w w' l.token_program l.pool l.authority a.pool
              (s.others l.pool apart.1.1.0) h.pool;
        positions =
            HoldsPositions-append w' l.positions a.positions acc.key q
              (HoldsPositions-frame pf program_id w w' l.positions a.positions
                (All-map (λ k. (k == acc.key) ≡ false) _ s.others l.positions apart.1.1.1)
                h.positions)
              (decoded, s.owner ∙ own);
        vault_key = h.vault_key;
        pool_key = h.pool_key;
        mint_key = h.mint_key;
        program_key = h.program_key;
      }

module _ (pf : Platform) (program_id : Pubkey) (laws : IsTokenProgram pf)
    (system : IsSystemProgram pf)
    (config_codec : ReadsBack pf.serialize_config pf.deserialize_config)
    (position_codec : ReadsBack pf.serialize_position pf.deserialize_position) (l : Layout)
    (distinct : IsDistinct program_id l) (w w' : World) (a : Arena)
    (h : Represents pf program_id l w a) where
  -- Given a token program that moves exactly the amounts asked for, a system program that creates
  -- accounts as documented and is neither the own program nor the token program, codecs that read
  -- back what they write, and a layout of distinct keys whose accounts hold an arena, with the
  -- config account of the layout passed to the handler: when the handler succeeds on a position
  -- account without data, for an owner that is not the derived authority, and the owner's balance
  -- and the two custody balances add up to less than 2 ^ 64, `deposit_at` succeeds on the last
  -- position of the arena in which `open_position` has added a fresh one, and the accounts of the
  -- layout with the new position account hold the resulting arena afterwards.
  pub process_deposit-opens :
      (owner owner_tokens config position vault authority mint token_program
        system_program : AccountInfo)
      (rest : List AccountInfo) (amount : ℕ)
      → config.key ≡ l.config
      → data_is_empty (w.cell position.key).bytes ≡ true
      → (program_id == pf.system_program_id) ≡ false
      → (l.token_program == pf.system_program_id) ≡ false
      → (owner.key == l.authority) ≡ false
      → SupplyFits pf l w owner_tokens.key owner.key
      → process_deposit pf program_id w
          (owner ∷ owner_tokens ∷ config ∷ position ∷ vault ∷ authority ∷ mint ∷ token_program
            ∷ system_program ∷ rest)
          amount
        ≡ ok w'
      → Refined pf program_id (with_position l position.key) w' (
          deposit_at w.now (length a.positions) amount (
            open_position l.config owner.key w.now
              (position_pda pf program_id l.config owner.key).1
              a))
  unfolding deposit_at open_position store_config
  process_deposit-opens owner owner_tokens config position vault authority mint token_program
        system_program rest amount here empty own_program own_tokens other supply e =
      let d =
        process_deposit-Parts pf program_id w w' owner owner_tokens config position vault authority
          mint token_program system_program rest amount e in
      let is : d.c ≡ a.config = loaded_config pf program_id l w a h config here d.loads in
      let (_, program, at_vault) =
        named_vault pf program_id l w a h d.c mint token_program vault is d.named in
      let made : Created pf program_id position.key position_size w d.opened =
        create_program_account-Created pf system w d.opened owner position program_id position_size
          (position_seed ∷ key_seed config.key ∷ key_seed owner.key ∷ bump_seed d.bump ∷ [])
          (rw empty at d.opens) in
      let h₁ =
        created-Represents pf program_id l w d.opened a h position.key position_size made
          own_program own_tokens in
      let new =
        created-Avoids pf program_id l w d.opened a h position.key position_size made own_program
          own_tokens in
      let tokens : IsTokenAccountOf pf w l.token_program owner_tokens.key owner.key =
        subst (λ k. IsTokenAccountOf pf w k owner_tokens.key owner.key) program
          (assert_token_account-ok pf w token_program owner_tokens mint.key owner.key d.theirs) in
      let out =
        token_account-IsOutside pf w program_id l a owner_tokens.key owner.key h distinct.programs
          other tokens in
      let token_cell : ((w.cell owner_tokens.key).owner == pf.system_program_id) ≡ false =
        rw (cell_owner pf w l.token_program owner_tokens.key tokens.unpacks) own_tokens in
      let balance : Holds pf w l.token_program owner_tokens.key owner.key tokens.view.amount =
        (tokens.view, tokens.unpacks, tokens.its_owner, refl) in
      let moved =
        sent_in-Moved pf laws l d.opened d.paid token_program owner_tokens mint vault owner l.vault
          amount d.c.decimals program at_vault out.1.0 d.built d.pays in
      let (enough, _) = moved.debited owner.key tokens.view.amount (
        Holds-frame pf program_id w d.opened l.token_program owner_tokens.key owner.key
          tokens.view.amount (made.others owner_tokens.key token_cell) balance) in
      let fits = supply tokens.view.amount a.vault a.pool balance h.vault h.pool in
      let a₂ : Arena = record a { vault = a.vault + amount } in
      let h₂ =
        into_vault-Represents pf program_id l distinct d.opened d.paid a h₁ owner_tokens.key amount
          out moved in
      let same : d.paid.cell position.key ≡ d.opened.cell position.key =
        moved.others position.key
          (==_flip owner_tokens.key position.key
            (differs pf w owner_tokens.key position.key made.fresh token_cell))
          (==_flip l.vault position.key new.1.0) in
      let blank : any_nonzero (d.paid.cell position.key).bytes ≡ false =
        ap (λ x. any_nonzero x.bytes) same
        ∙ ap any_nonzero made.blank
        ∙ any_nonzero-replicate position_size in
      let now : d.paid.now ≡ w.now = moved.clock ∙ made.clock in
      let bump : (position_pda pf program_id l.config owner.key).1 ≡ d.bump =
        ap (λ k. (position_pda pf program_id k owner.key).1) (sym here)
        ∙ key_bump pf (position_pda pf program_id config.key owner.key) position d.bumps in
      let q =
        fresh_position l.config owner.key w.now (position_pda pf program_id l.config owner.key).1
          a.config in
      let fresh : (a.config, q) ≡ d.read =
        rw (bump, sym here, sym now, sym is)
          (fresh_read pf program_id d.paid config position owner d.bump d.c d.read blank d.reads) in
      let credits : deposit_credit w.now amount a.config q ≡ ok d.credited =
        ap (λ r. deposit_credit w.now amount r.0 r.1) fresh
        ∙ ap (λ n. deposit_credit n amount d.read.0 d.read.1) (sym now)
        ∙ d.credits in
      let keys = credit-SameKeys w.now amount a.config q d.credited credits in
      let names =
        SameKeys-Names l a.config d.credited.0 keys
          (Represents-Names pf program_id l distinct w d.paid a h) in
      let (h₃, _) =
        store_config-Represents pf program_id l distinct d.paid d.kept a₂ h₂ config d.credited.0
          config_codec here names d.stores_config in
      let (_, kept) =
        store_bytes-decodes pf.serialize_config pf.deserialize_config d.paid d.kept config
          d.credited.0 config_codec d.stores_config in
      let own : (d.kept.cell position.key).owner ≡ program_id =
        ap (λ x. x.owner) (kept.others position.key (rw here (==_flip l.config position.key new.0)))
        ∙ ap (λ x. x.owner) same
        ∙ made.owned in
      let b =
        put
          (open_position l.config owner.key w.now (position_pda pf program_id l.config owner.key).1
            a)
          (length a.positions) (a.vault + amount) a.pool d.credited in
      let least' : fail_if (ltb amount a.config.min_deposit_amount) invalid_amount ≡ ok tt =
        ap (λ x. fail_if (ltb amount x.min_deposit_amount) invalid_amount) (sym is) ∙ d.least in
      let a' =
        open_position l.config owner.key w.now (position_pda pf program_id l.config owner.key).1
          a in
      record {
        arena = b;
        acted =
            rw
              (
                least',
                get_elem?-append a.positions q,
                supply_check_total a' amount (omega arith),
                sync_fresh l.config owner.key w.now
                    (position_pda pf program_id l.config owner.key).1 a.config,
                credits,
              )
              refl;
        holds =
            subst
              (λ ps. Represents pf program_id (with_position l position.key) w' (record {
                config = d.credited.0;
                vault = a.vault + amount;
                pool = a.pool;
                positions = ps;
              }))
              (sym (set-append a.positions q d.credited.1))
              (append_position-Represents pf program_id l d.kept w'
                (record a₂ { config = d.credited.0 }) position d.credited.1 h₃ position_codec new
                own d.stores_position);
      }

  -- The account of a position that is opened is none of the arena's.
  pub opened-Avoids :
      (owner owner_tokens config position vault authority mint token_program
        system_program : AccountInfo)
      (rest : List AccountInfo) (amount : ℕ)
      → data_is_empty (w.cell position.key).bytes ≡ true
      → (program_id == pf.system_program_id) ≡ false
      → (l.token_program == pf.system_program_id) ≡ false
      → process_deposit pf program_id w
          (owner ∷ owner_tokens ∷ config ∷ position ∷ vault ∷ authority ∷ mint ∷ token_program
            ∷ system_program ∷ rest)
          amount
        ≡ ok w'
      → Avoids position.key (state_keys l)
  opened-Avoids owner owner_tokens config position vault authority mint token_program system_program
        rest amount empty own_program own_tokens e =
      let d =
        process_deposit-Parts pf program_id w w' owner owner_tokens config position vault authority
          mint token_program system_program rest amount e in
      created-Avoids pf program_id l w d.opened a h position.key position_size
        (create_program_account-Created pf system w d.opened owner position program_id position_size
          (position_seed ∷ key_seed config.key ∷ key_seed owner.key ∷ bump_seed d.bump ∷ [])
          (rw empty at d.opens))
        own_program own_tokens
