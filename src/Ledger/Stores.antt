-- ===== src/Ledger/Stores.antt =====
-- The stores at the end of a handler.
use arena_contract_sol.Prelude.{ℕ, ◌≡◌, some, get_elem?, set, subst}
use arena_contract_sol.Result.{ok}
use arena_contract_sol.State.{Pubkey, ArenaConfig, ArenaPosition}
use arena_contract_sol.Platform.{Platform, World, AccountInfo}
use arena_contract_sol.Accounts.{store_config, store_position}
use arena_contract_sol.Accounts.RoundTrip.{ReadsBack}
use arena_contract_sol.Arena.{Arena, put}
use arena_contract_sol.Ledger.{Layout, IsDistinct, Represents}
use arena_contract_sol.Ledger.Steps.{
  store_config-Represents, store_position-Represents, Represents-Names,
}
use arena_contract_sol.Ledger.Names.{SameKeys, SameKeys-Names}
use arena_contract_sol.Ledger.Loads.{position_owner}

module _ (pf : Platform) (program_id : Pubkey)
    (config_codec : ReadsBack pf.serialize_config pf.deserialize_config)
    (position_codec : ReadsBack pf.serialize_position pf.deserialize_position) (l : Layout)
    (distinct : IsDistinct program_id l) (w w' : World) (a : Arena)
    (h : Represents pf program_id l w a) where
  -- The store of both records at the end of a handler, after the balances have moved.
  pub stored-Represents :
      (w₁ w₂ : World) (b : Arena) (config position : AccountInfo) (i : ℕ) (c : ArenaConfig)
      (q : ArenaPosition)
      → Represents pf program_id l w₁ b
      → config.key ≡ l.config
      → get_elem? l.positions i ≡ some position.key
      → SameKeys a.config c
      → store_config pf w₁ config c ≡ ok w₂
      → store_position pf w₂ position q ≡ ok w'
      → b.positions ≡ a.positions
      → Represents pf program_id l w' (put a i b.vault b.pool (c, q))
  stored-Represents w₁ w₂ b config position i c q k here at keys stored stored' same =
      let names =
        SameKeys-Names l a.config c keys (Represents-Names pf program_id l distinct w w' a h) in
      let (holds, _) =
        store_config-Represents pf program_id l distinct w₁ w₂ b k config c config_codec here names
          stored in
      let b' : Arena = record b { config = c } in
      subst
        (λ ps.
          Represents pf program_id l w'
            (record { config = c; vault = b.vault; pool = b.pool; positions = set ps i q }))
        same
        (store_position-Represents pf program_id l distinct w₂ w' b' holds position i q
          position_codec at (position_owner pf program_id l w₂ b' holds position i at) stored')
