-- ===== src/Ledger/Loads.antt =====
-- What a handler loads from the accounts of a layout.
use arena_contract_sol.Prelude.{ℕ, ◌≡◌, ◌||◌, not, some, List, ◌==◌, get_elem?, arith, sym, ap, ◌∙◌}
use mathlib.Core.Option.{some-injective}
use arena_contract_sol.Result.{
  Result, ok, ok_or, ok_or-eq-ok, fail_if, >>=-elim, ok-injective, not_initialized,
  unsupported_state_version, invalid_token_mint,
}
use arena_contract_sol.State.{
  Pubkey, ArenaConfig, ArenaPosition, arena_config_version, arena_position_version,
}
use arena_contract_sol.Platform.{Platform, World, AccountInfo}
use arena_contract_sol.Accounts.{data_of, load_config, load_position}
use arena_contract_sol.Arena.{Arena}
use arena_contract_sol.Ledger.{Layout, Represents}
use arena_contract_sol.Ledger.Moves.{HoldsPositions-get}

load_config-ok :
    (pf : Platform) (bytes : List ℕ) {c : ArenaConfig}
    → load_config pf bytes ≡ ok c
    → pf.deserialize_config bytes ≡ some c
unfolding load_config
load_config-ok pf bytes e =
    >>=-elim (ok_or (pf.deserialize_config bytes) not_initialized) _ e λ c is e.
      >>=-elim (fail_if (not c.is_initialized) not_initialized) _ e λ _ _ e.
        >>=-elim (fail_if (not (c.version == arena_config_version)) unsupported_state_version) _ e
          λ _ _ e. ok_or-eq-ok _ _ is ∙ ap some (ok-injective _ _ e)

load_position-ok :
    (pf : Platform) (bytes : List ℕ) {p : ArenaPosition}
    → load_position pf bytes ≡ ok p
    → pf.deserialize_position bytes ≡ some p
unfolding load_position
load_position-ok pf bytes e =
    >>=-elim (ok_or (pf.deserialize_position bytes) not_initialized) _ e λ p is e.
      >>=-elim (fail_if (not p.is_initialized) not_initialized) _ e λ _ _ e.
        >>=-elim (fail_if (not (p.version == arena_position_version)) unsupported_state_version) _ e
          λ _ _ e. ok_or-eq-ok _ _ is ∙ ap some (ok-injective _ _ e)

module _ (pf : Platform) (program_id : Pubkey) (l : Layout) (w : World) (a : Arena)
    (h : Represents pf program_id l w a) where
  pub loaded_config :
      (acc : AccountInfo) {c : ArenaConfig}
      → acc.key ≡ l.config
      → load_config pf (data_of w acc) ≡ ok c
      → c ≡ a.config
  loaded_config acc here e = some-injective _ _ (
      sym (load_config-ok pf (data_of w acc) e)
      ∙ ap (λ k. pf.deserialize_config (w.cell k).bytes) here
      ∙ h.config)

  pub loaded_position :
      (acc : AccountInfo) (i : ℕ) {p : ArenaPosition}
      → get_elem? l.positions i ≡ some acc.key
      → load_position pf (data_of w acc) ≡ ok p
      → get_elem? a.positions i ≡ some p
  loaded_position acc i e at =
      let (q, is, holds) =
        HoldsPositions-get pf program_id w l.positions a.positions i acc.key h.positions e in
      is ∙ sym holds.0 ∙ load_position-ok pf (data_of w acc) at

  pub position_owner :
      (acc : AccountInfo) (i : ℕ)
      → get_elem? l.positions i ≡ some acc.key
      → (w.cell acc.key).owner ≡ program_id
  position_owner acc i at =
      let (q, is, holds) =
        HoldsPositions-get pf program_id w l.positions a.positions i acc.key h.positions at in
      holds.1

  -- The checks of the config's keys leave only the accounts of the layout.
  pub named_pool :
      (c : ArenaConfig) (mint program pool : AccountInfo) {u : Unit {0}}
      → c ≡ a.config
      → fail_if
          (not (c.mint == mint.key)
            || not (c.token_program == program.key)
            || not (c.reward_pool_token_account == pool.key))
          invalid_token_mint
        ≡ ok u
      → (mint.key ≡ l.mint) × (program.key ≡ l.token_program) × (pool.key ≡ l.pool)
  named_pool c mint program pool is e = ground (
    arith,
    h.mint_key,
    h.program_key,
    h.pool_key,
    ap (λ d. d.mint) is,
    ap (λ d. d.token_program) is,
    ap (λ d. d.reward_pool_token_account) is,
  )

  pub named_vault :
      (c : ArenaConfig) (mint program vault : AccountInfo) {u : Unit {0}}
      → c ≡ a.config
      → fail_if
          (not (c.mint == mint.key)
            || not (c.token_program == program.key)
            || not (c.vault_token_account == vault.key))
          invalid_token_mint
        ≡ ok u
      → (mint.key ≡ l.mint) × (program.key ≡ l.token_program) × (vault.key ≡ l.vault)
  named_vault c mint program vault is e = ground (
    arith,
    h.mint_key,
    h.program_key,
    h.vault_key,
    ap (λ d. d.mint) is,
    ap (λ d. d.token_program) is,
    ap (λ d. d.vault_token_account) is,
  )

  pub named_both :
      (c : ArenaConfig) (mint program vault pool : AccountInfo) {u : Unit {0}}
      → c ≡ a.config
      → fail_if
          (not (c.mint == mint.key)
            || not (c.token_program == program.key)
            || not (c.vault_token_account == vault.key)
            || not (c.reward_pool_token_account == pool.key))
          invalid_token_mint
        ≡ ok u
      → (mint.key ≡ l.mint)
        × (program.key ≡ l.token_program)
        × (vault.key ≡ l.vault)
        × (pool.key ≡ l.pool)
  named_both c mint program vault pool is e = ground (
    arith,
    h.mint_key,
    h.program_key,
    h.vault_key,
    h.pool_key,
    ap (λ d. d.mint) is,
    ap (λ d. d.token_program) is,
    ap (λ d. d.vault_token_account) is,
    ap (λ d. d.reward_pool_token_account) is,
  )

-- The handler's action succeeded with `b`, and the accounts hold `b` afterwards.
pub record Refined (pf : Platform) (program_id : Pubkey) (l : Layout) (w' : World)
    (action : Result Arena) : Type 0 where
  pub arena : Arena
  pub acted : action ≡ ok arena
  pub holds : Represents pf program_id l w' arena
