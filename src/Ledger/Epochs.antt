-- ===== src/Ledger/Epochs.antt =====
-- processor.rs: `process_roll_epoch` and `process_activate_position`, and the actions of an arena.
use arena_contract_sol.Prelude.{
  ℕ, ◌≡◌, ◌||◌, not, some, List, ◌∷◌, ◌==◌, get_elem?, refl, sym, ap, ◌∙◌,
}
use arena_contract_sol.Result.{ok, >>=-elim, fail_if, invalid_token_mint, invalid_pda}
use arena_contract_sol.State.{Pubkey}
use arena_contract_sol.Platform.{Platform, World, AccountInfo}
use arena_contract_sol.Accounts.{
  next_account_info, data_of, assert_signer, assert_writable, assert_owned_by,
  assert_supported_token_program, load_config, load_position, store_config, vault_authority_pda,
  assert_key, assert_config_pda, assert_position_pda,
}
use arena_contract_sol.Accounts.RoundTrip.{ReadsBack}
use arena_contract_sol.Tokens.{assert_custody_token_account}
use arena_contract_sol.Operations.Lock.{roll_epoch, activate_update}
use arena_contract_sol.Processor.Setup.{process_roll_epoch}
use arena_contract_sol.Processor.Entry.{process_activate_position}
use arena_contract_sol.Arena.{Arena, roll, activate_at, put}
use arena_contract_sol.Ledger.{Layout, IsDistinct, Represents}
use arena_contract_sol.Ledger.Steps.{
  store_config-Represents, store_position-Represents, Represents-Names,
}
use arena_contract_sol.Ledger.Names.{SameKeys-Names, roll-SameKeys, activate-SameKeys}
use arena_contract_sol.Arena.Cadence.{IsRoll, roll-IsRoll}
use arena_contract_sol.Arena.Clock.{IsActivationAt, activate_at-IsActivationAt}
use arena_contract_sol.Ledger.Loads.{loaded_config, loaded_position, position_owner, Refined}

module _ (pf : Platform) (program_id : Pubkey)
    (config_codec : ReadsBack pf.serialize_config pf.deserialize_config)
    (position_codec : ReadsBack pf.serialize_position pf.deserialize_position) (l : Layout)
    (distinct : IsDistinct program_id l) (w w' : World) (a : Arena)
    (h : Represents pf program_id l w a) where
  pub process_roll_epoch-Refined :
      (config pool authority mint token_program : AccountInfo) (rest : List AccountInfo)
      → config.key ≡ l.config
      → process_roll_epoch pf program_id w (config ∷ pool ∷ authority ∷ mint ∷ token_program ∷ rest)
        ≡ ok w'
      → Refined pf program_id l w' (roll w.now a)
  unfolding process_roll_epoch next_account_info roll
  process_roll_epoch-Refined config pool authority mint token_program rest here e =
      >>=-elim (assert_writable config) _ e λ _ _ e.
        >>=-elim (assert_owned_by w config program_id) _ e λ _ _ e.
          >>=-elim (assert_supported_token_program pf token_program) _ e λ _ _ e.
            >>=-elim (load_config pf (data_of w config)) _ e λ c loads e.
              >>=-elim (assert_config_pda pf program_id config c) _ e λ _ _ e.
                >>=-elim
                  (fail_if
                    (not (c.mint == mint.key)
                      || not (c.token_program == token_program.key)
                      || not (c.reward_pool_token_account == pool.key))
                    invalid_token_mint)
                  _ e
                  λ _ _ e.
                    >>=-elim
                      (assert_key pf (vault_authority_pda pf program_id config.key) authority) _ e
                      λ _ _ e.
                        >>=-elim
                          (assert_custody_token_account pf w token_program pool mint.key
                            authority.key)
                          _ e
                          λ _ _ e. >>=-elim (roll_epoch w.now c) _ e λ c' rolled stored.
                            let is : c ≡ a.config =
                              loaded_config pf program_id l w a h config here loads in
                            let rolls : roll_epoch w.now a.config ≡ ok c' =
                              ap (roll_epoch w.now) (sym is) ∙ rolled in
                            let names =
                              SameKeys-Names l a.config c' (roll-SameKeys w.now a.config c' rolls)
                                (Represents-Names pf program_id l distinct w w' a h) in
                            record {
                              arena = record a { config = c' };
                              acted = rw rolls refl;
                              holds =
                                  (store_config-Represents pf program_id l distinct w w' a h config
                                    c' config_codec here names stored).0;
                            }

  pub process_activate_position-Refined :
      (owner config position pool authority mint token_program : AccountInfo)
      (rest : List AccountInfo) (i : ℕ)
      → config.key ≡ l.config
      → get_elem? l.positions i ≡ some position.key
      → process_activate_position pf program_id w
          (owner ∷ config ∷ position ∷ pool ∷ authority ∷ mint ∷ token_program ∷ rest)
        ≡ ok w'
      → Refined pf program_id l w' (activate_at w.now i a)
  unfolding process_activate_position next_account_info activate_at
  process_activate_position-Refined owner config position pool authority mint token_program rest i
        here at e =
      >>=-elim (assert_signer owner) _ e λ _ _ e. >>=-elim (assert_writable config) _ e λ _ _ e.
        >>=-elim (assert_writable position) _ e λ _ _ e.
          >>=-elim (assert_owned_by w config program_id) _ e λ _ _ e.
            >>=-elim (assert_owned_by w position program_id) _ e λ _ _ e.
              >>=-elim (assert_supported_token_program pf token_program) _ e λ _ _ e.
                >>=-elim (load_config pf (data_of w config)) _ e λ c loads e.
                  >>=-elim (assert_config_pda pf program_id config c) _ e λ _ _ e.
                    >>=-elim
                      (fail_if
                        (not (c.mint == mint.key)
                          || not (c.token_program == token_program.key)
                          || not (c.reward_pool_token_account == pool.key))
                        invalid_token_mint)
                      _ e
                      λ _ _ e.
                        >>=-elim
                          (assert_key pf (vault_authority_pda pf program_id config.key) authority) _
                          e
                          λ _ _ e.
                            >>=-elim
                              (assert_custody_token_account pf w token_program pool mint.key
                                authority.key)
                              _ e
                              λ _ _ e.
                                >>=-elim (load_position pf (data_of w position)) _ e λ p loads' e.
                                  >>=-elim
                                    (fail_if
                                      (not (p.config == config.key) || not (p.owner == owner.key))
                                      invalid_pda)
                                    _ e
                                    λ _ _ e.
                                      >>=-elim
                                        (assert_position_pda pf program_id position config.key
                                          owner.key)
                                        _ e
                                        λ _ _ e.
                                          >>=-elim (activate_update w.now c p) _ e λ r activated e.
                                            >>=-elim (store_config pf w config r.0) _ e
                                              λ w₁ stored stored'.
                                                let is : c ≡ a.config =
                                                  loaded_config pf program_id l w a h config here
                                                    loads in
                                                let found =
                                                  loaded_position pf program_id l w a h position i
                                                    at loads' in
                                                let acts : activate_update w.now a.config p ≡ ok r =
                                                  ap (λ d. activate_update w.now d p) (sym is)
                                                  ∙ activated in
                                                let names =
                                                  SameKeys-Names l a.config r.0
                                                    (activate-SameKeys w.now a.config p r acts)
                                                    (Represents-Names pf program_id l distinct w w'
                                                      a h) in
                                                let (holds, _) =
                                                  store_config-Represents pf program_id l distinct w
                                                    w₁ a h config r.0 config_codec here names
                                                    stored in
                                                record {
                                                  arena = put a i a.vault a.pool r;
                                                  acted = rw (found, acts) refl;
                                                  holds =
                                                      store_position-Represents pf program_id l
                                                        distinct w₁ w' (record a { config = r.0 })
                                                        holds position i r.1 position_codec at
                                                        (position_owner pf program_id l w₁
                                                          (record a { config = r.0 }) holds position
                                                          i at)
                                                        stored';
                                                }

  -- Given codecs that read back what they write and a layout of distinct keys whose accounts hold
  -- an arena, with the config account of the layout passed to the handler: when the handler
  -- succeeds, `roll` succeeds on the arena at the time of the clock, and the accounts of the
  -- layout hold the resulting arena afterwards. The epoch had ended by the clock; the count of
  -- epochs, a u64, is one more, the last epoch ends where it was due, whatever the clock shows,
  -- and nothing else of the arena has changed.
  pub process_roll_epoch-refines :
      (config pool authority mint token_program : AccountInfo) (rest : List AccountInfo)
      → config.key ≡ l.config
      → process_roll_epoch pf program_id w (config ∷ pool ∷ authority ∷ mint ∷ token_program ∷ rest)
        ≡ ok w'
      → (r : Refined pf program_id l w' (roll w.now a)) × IsRoll w.now a r.arena
  process_roll_epoch-refines config pool authority mint token_program rest here e =
      let r = process_roll_epoch-Refined config pool authority mint token_program rest here e in
      (r, roll-IsRoll w.now a r.arena r.acted)

  -- Given codecs that read back what they write and a layout of distinct keys whose accounts hold
  -- an arena, with the config account of the layout passed to the handler: when the handler
  -- succeeds on the account of the `i`-th position, `activate_at` succeeds on that position at
  -- the time of the clock, and the accounts of the layout hold the resulting arena afterwards.
  -- The warming stake of the position that an epoch boundary has passed is eligible, and the
  -- pending stake, if any, for which the activation delay has passed, is warming; it matures with
  -- the epoch of the stake that still waits or else with the current epoch, so that nothing that
  -- waits is ready in this epoch; the totals of the config move by the same amounts, the
  -- checkpoint is the index, the last activity is the time of the clock, and nothing else but the
  -- earnings of the position has changed.
  pub process_activate_position-refines :
      (owner config position pool authority mint token_program : AccountInfo)
      (rest : List AccountInfo) (i : ℕ)
      → config.key ≡ l.config
      → get_elem? l.positions i ≡ some position.key
      → process_activate_position pf program_id w
          (owner ∷ config ∷ position ∷ pool ∷ authority ∷ mint ∷ token_program ∷ rest)
        ≡ ok w'
      → (r : Refined pf program_id l w' (activate_at w.now i a)) × IsActivationAt w.now i a r.arena
  process_activate_position-refines owner config position pool authority mint token_program rest i
        here at e =
      let r =
        process_activate_position-Refined owner config position pool authority mint token_program
          rest i here at e in
      (r, activate_at-IsActivationAt w.now i a r.arena r.acted)
