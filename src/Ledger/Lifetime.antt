-- ===== src/Ledger/Lifetime.antt =====
-- The life of an arena, from its initialization through the transactions on it.
use arena_contract_sol.Prelude.{
  ℕ, ◌+◌, ◌*◌, ◌<◌, ◌≤◌, ◌≡◌, false, some, List, [], ◌∷◌, ◌==◌, refl, sym, ap, ◌∙◌, arith, sum_of,
}
use mathlib.Core.Option.{some-injective}
use arena_contract_sol.Result.{ok, ok-injective}
use arena_contract_sol.Checked.{u64_limit}
use arena_contract_sol.State.{Pubkey, ArenaConfig, ArenaPosition, reward_index_scale}
use arena_contract_sol.Policy.{ConfigParams}
use arena_contract_sol.Platform.{Platform, World, AccountInfo, initialize_config}
use arena_contract_sol.Accounts.RoundTrip.{ReadsBack}
use arena_contract_sol.Rewards.Index.{config_index}
use arena_contract_sol.Rewards.Accrual.{owed}
use arena_contract_sol.Processor.{dispatch}
use arena_contract_sol.Ledger.{Layout, IsTokenProgram, IsSystemProgram, Holds, HoldsPositions}
use arena_contract_sol.Ledger.Initial.{initial_layout, process_initialize_config-Initialized}
use arena_contract_sol.Ledger.Reach.{Reach}
use arena_contract_sol.Ledger.Safety.{Secure, Reach-Secure}

module _ (pf : Platform) (program_id : Pubkey) where
  -- An account has one balance, and its data decode to one list of positions.
  one_balance :
      (w : World) (token_program k owner : Pubkey) (b b' : ℕ)
      → Holds pf w token_program k owner b
      → Holds pf w token_program k owner b'
      → b ≡ b'
  one_balance w token_program k owner b b' (v, is, _, amount) (v', is', _, amount') =
      sym amount ∙ ap (λ x. x.amount) (ok-injective _ _ (sym is ∙ is')) ∙ amount'

  one_list :
      (w : World) (keys : List Pubkey) (ps qs : List ArenaPosition)
      → HoldsPositions pf program_id w keys ps
      → HoldsPositions pf program_id w keys qs
      → ps ≡ qs
  one_list w [] [] [] h h' = refl
  one_list w (k ∷ keys) (p ∷ ps) (q ∷ qs) h h' =
      let same : p ≡ q = some-injective _ _ (sym h.0.0 ∙ h'.0.0) in
      rw (same, one_list w keys ps qs h.1 h'.1) refl
  one_list w [] [] (q ∷ qs) h h' = elim h' [ ]
  one_list w [] (p ∷ ps) qs h h' = elim h [ ]
  one_list w (k ∷ keys) [] qs h h' = elim h [ ]
  one_list w (k ∷ keys) (p ∷ ps) [] h h' = elim h' [ ]

  -- What a reader of the accounts sees: the positions add up to the total, the vault holds all of
  -- their stake, and the pool the whole of the rewards they are owed.
  pub record IsSolvent (l : Layout) (w : World) (c : ArenaConfig) (ps : List ArenaPosition)
      (vault pool : ℕ) : Type 0 where
    pub counted : sum_of (λ p. p.locked_amount) ps ≡ c.total_locked
    pub stake : sum_of (λ p. p.locked_amount) ps ≤ vault
    pub rewards : sum_of (owed (config_index c)) ps ≤ pool * reward_index_scale

  Secure-IsSolvent :
      (l : Layout) (w : World) (c : ArenaConfig) (ps : List ArenaPosition) (vault pool : ℕ)
      → Secure pf program_id l w
      → pf.deserialize_config (w.cell l.config).bytes ≡ some c
      → HoldsPositions pf program_id w l.positions ps
      → Holds pf w l.token_program l.vault l.authority vault
      → Holds pf w l.token_program l.pool l.authority pool
      → IsSolvent l w c ps vault pool
  Secure-IsSolvent l w c ps vault pool s reads lists vaults pools =
      let a = s.state.arena in
      let h = s.state.holds in
      let good = s.state.consistent in
      let c_is : a.config ≡ c = some-injective _ _ (sym h.config ∙ reads) in
      let ps_are = one_list w l.positions a.positions ps h.positions lists in
      let v_is = one_balance w l.token_program l.vault l.authority a.vault vault h.vault vaults in
      let p_is = one_balance w l.token_program l.pool l.authority a.pool pool h.pool pools in
      record {
        counted = rw (sym ps_are, sym c_is) (omega (arith, good.totals.total));
        stake = rw (sym ps_are, sym v_is) (omega (arith, good.totals.total, good.custody));
        rewards = rw (sym ps_are, sym c_is, sym p_is) good.solvent;
      }

module _ (pf : Platform) (program_id : Pubkey) (laws : IsTokenProgram pf)
    (system : IsSystemProgram pf)
    (config_codec : ReadsBack pf.serialize_config pf.deserialize_config)
    (position_codec : ReadsBack pf.serialize_position pf.deserialize_position)
    (own_program : (program_id == pf.system_program_id) ≡ false) (w w₁ : World) (p : ConfigParams)
    (authority config mint vault vault_authority pool token_program system_program : AccountInfo)
    (rest : List AccountInfo) (small : p.min_deposit_amount < u64_limit)
    (own_tokens : (token_program.key == pf.system_program_id) ≡ false)
    (programs : (program_id == token_program.key) ≡ false)
    (vault_is_no_mint : (vault.key == mint.key) ≡ false)
    (pool_is_no_mint : (pool.key == mint.key) ≡ false)
    (supply : (b b' : ℕ)
      → Holds pf w token_program.key vault.key vault_authority.key b
      → Holds pf w token_program.key pool.key vault_authority.key b'
      → b + b' < u64_limit)
    (started : dispatch pf program_id w
        (authority ∷ config ∷ mint ∷ vault ∷ vault_authority ∷ pool ∷ token_program ∷ system_program
          ∷ rest)
        (initialize_config p)
      ≡ ok w₁) where
  pub initialized-Secure :
      Secure pf program_id (initial_layout config mint vault vault_authority pool token_program) w₁
  unfolding dispatch
  initialized-Secure =
      let made =
        process_initialize_config-Initialized pf program_id system config_codec w w₁ p authority
          config mint vault vault_authority pool token_program system_program rest small own_tokens
          supply started in
      record {
        distinct = record {
          keys = made.keys;
          mint = (made.config_is_no_mint, (vault_is_no_mint, (pool_is_no_mint, tt)));
          programs = programs;
        };
        own_tokens = own_tokens;
        state = made.state;
      }

  -- Given token and system programs that do what they document, codecs that read back what they
  -- write, an own program and a token program that are not the system program and not each other,
  -- a smallest deposit that is a u64, custody accounts that are not the mint, and custody
  -- balances at the start of less than 2 ^ 64 together: after an initialization that succeeds, in
  -- every world that transactions and outside changes reach, the config and the positions that
  -- decode from the accounts add up, the balance of the vault covers the stake of all positions,
  -- and that of the pool covers all rewards that they are owed.
  pub lifetime-IsSolvent :
      (l : Layout) (w₂ : World) (c : ArenaConfig) (ps : List ArenaPosition) (v r : ℕ)
      → Reach pf program_id
          (initial_layout config mint vault vault_authority pool token_program)
          w₁
          l
          w₂
      → pf.deserialize_config (w₂.cell l.config).bytes ≡ some c
      → HoldsPositions pf program_id w₂ l.positions ps
      → Holds pf w₂ l.token_program l.vault l.authority v
      → Holds pf w₂ l.token_program l.pool l.authority r
      → IsSolvent pf program_id l w₂ c ps v r
  lifetime-IsSolvent l w₂ c ps v r reached reads lists vaults pools =
      Secure-IsSolvent pf program_id l w₂ c ps v r
        (Reach-Secure pf program_id laws system config_codec position_codec own_program reached
          initialized-Secure)
        reads lists vaults pools
