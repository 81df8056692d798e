-- ===== src/Ledger/Steps.antt =====
-- Each step of a handler that writes to the world, as a change of the arena that it holds.
use arena_contract_sol.Prelude.{
  ℕ, ◌+◌, ◌-◌, ◌≤◌, ◌≡◌, false, some, List, ◌==◌, All, All-get, get_elem?, set, subst, ◌∙◌,
}
use arena_contract_sol.Result.{ok}
use arena_contract_sol.State.{Pubkey, ArenaConfig, ArenaPosition}
use arena_contract_sol.Platform.{Platform, World, AccountInfo}
use arena_contract_sol.Accounts.{store_config, store_position}
use arena_contract_sol.Accounts.RoundTrip.{ReadsBack, store_bytes-decodes}
use arena_contract_sol.Arena.{Arena}
use arena_contract_sol.Ledger.{
  Layout, Avoids, state_keys, IsDistinct, Holds, Moved, Burned, Represents,
}
use arena_contract_sol.Ledger.Moves.{
  ==_flip, All-map, All-zip, Holds-frame, HoldsPositions-frame, HoldsPositions-set,
}

-- The keys that a config names are those of the layout.
pub record Names (l : Layout) (c : ArenaConfig) : Type 0 where
  pub vault : c.vault_token_account ≡ l.vault
  pub pool : c.reward_pool_token_account ≡ l.pool
  pub mint : c.mint ≡ l.mint
  pub program : c.token_program ≡ l.token_program

-- An account that is none of those that hold the arena.
abbrev pub IsOutside : Layout → Pubkey → Type 0
IsOutside l x = Avoids x (state_keys l)

module _ (pf : Platform) (program_id : Pubkey) (l : Layout) (distinct : IsDistinct program_id l)
    (w w' : World) (a : Arena) (h : Represents pf program_id l w a) where
  pub Represents-Names : Names l a.config
  Represents-Names = record {
    vault = h.vault_key;
    pool = h.pool_key;
    mint = h.mint_key;
    program = h.program_key;
  }

  -- Where only balances change, the records are those from before.
  balances-Represents :
      (vault pool : ℕ)
      → w'.cell l.config ≡ w.cell l.config
      → All (λ k. w'.cell k ≡ w.cell k) l.positions
      → Holds pf w' l.token_program l.vault l.authority vault
      → Holds pf w' l.token_program l.pool l.authority pool
      → Represents pf program_id l w' (record a { vault = vault; pool = pool })
  balances-Represents vault pool config positions v p = record {
    config = rw config h.config;
    config_owner = rw config h.config_owner;
    vault = v;
    pool = p;
    positions =
        HoldsPositions-frame pf program_id w w' l.positions a.positions positions h.positions;
    vault_key = h.vault_key;
    pool_key = h.pool_key;
    mint_key = h.mint_key;
    program_key = h.program_key;
  }

  -- The state accounts that two keys avoid keep their cells.
  untouched :
      (x y : Pubkey)
      → ((k : Pubkey) → (k == x) ≡ false → (k == y) ≡ false → w'.cell k ≡ w.cell k)
      → (keys : List Pubkey) → Avoids x keys
      → Avoids y keys
      → All (λ k. w'.cell k ≡ w.cell k) keys
  untouched x y same keys ax ay =
      All-zip (λ k. (k == x) ≡ false) (λ k. (k == y) ≡ false) _ same keys ax ay

  config_avoids_vault : (l.config == l.vault) ≡ false
  config_avoids_vault = ==_flip l.vault l.config distinct.keys.0.0

  config_avoids_pool : (l.config == l.pool) ≡ false
  config_avoids_pool = ==_flip l.pool l.config distinct.keys.0.1.0

  vault_avoids_pool : (l.vault == l.pool) ≡ false
  vault_avoids_pool = ==_flip l.pool l.vault distinct.keys.1.0.0

  -- Tokens leave the vault for an account outside the arena.
  pub from_vault-Represents :
      (x : Pubkey) (n : ℕ)
      → IsOutside l x
      → Moved pf l.token_program l.vault x n w w'
      → (n ≤ a.vault) × Represents pf program_id l w' (record a { vault = a.vault - n })
  from_vault-Represents x n out m =
      let (enough, left) = m.debited l.authority a.vault h.vault in
      (
        enough,
        balances-Represents (a.vault - n) a.pool (m.others l.config config_avoids_vault out.0)
            (untouched l.vault x m.others l.positions distinct.keys.1.0.1 out.1.1.1) left
            (Holds-frame pf program_id w w' l.token_program l.pool l.authority a.pool
              (m.others l.pool distinct.keys.1.0.0 out.1.1.0) h.pool),
      )

  pub from_pool-Represents :
      (x : Pubkey) (n : ℕ)
      → IsOutside l x
      → Moved pf l.token_program l.pool x n w w'
      → (n ≤ a.pool) × Represents pf program_id l w' (record a { pool = a.pool - n })
  from_pool-Represents x n out m =
      let (enough, left) = m.debited l.authority a.pool h.pool in
      (
        enough,
        balances-Represents a.vault (a.pool - n) (m.others l.config config_avoids_pool out.0)
            (untouched l.pool x m.others l.positions distinct.keys.1.1.0 out.1.1.1)
            (Holds-frame pf program_id w w' l.token_program l.vault l.authority a.vault
              (m.others l.vault vault_avoids_pool out.1.0) h.vault)
            left,
      )

  pub into_vault-Represents :
      (x : Pubkey) (n : ℕ)
      → IsOutside l x
      → Moved pf l.token_program x l.vault n w w'
      → Represents pf program_id l w' (record a { vault = a.vault + n })
  into_vault-Represents x n out m =
      balances-Represents (a.vault + n) a.pool (m.others l.config out.0 config_avoids_vault)
        (untouched x l.vault m.others l.positions out.1.1.1 distinct.keys.1.0.1)
        (m.credited l.authority a.vault h.vault)
        (Holds-frame pf program_id w w' l.token_program l.pool l.authority a.pool
          (m.others l.pool out.1.1.0 distinct.keys.1.0.0) h.pool)

  pub into_pool-Represents :
      (x : Pubkey) (n : ℕ)
      → IsOutside l x
      → Moved pf l.token_program x l.pool n w w'
      → Represents pf program_id l w' (record a { pool = a.pool + n })
  into_pool-Represents x n out m =
      balances-Represents a.vault (a.pool + n) (m.others l.config out.0 config_avoids_pool)
        (untouched x l.pool m.others l.positions out.1.1.1 distinct.keys.1.1.0)
        (Holds-frame pf program_id w w' l.token_program l.vault l.authority a.vault
          (m.others l.vault out.1.0 vault_avoids_pool) h.vault)
        (m.credited l.authority a.pool h.pool)

  -- A penalty's share moves from the vault to the pool.
  pub vault_to_pool-Represents :
      (n : ℕ)
      → Moved pf l.token_program l.vault l.pool n w w'
      → (n ≤ a.vault)
        × Represents pf program_id l w' (record a { vault = a.vault - n; pool = a.pool + n })
  vault_to_pool-Represents n m =
      let (enough, left) = m.debited l.authority a.vault h.vault in
      (
        enough,
        balances-Represents (a.vault - n) (a.pool + n)
            (m.others l.config config_avoids_vault config_avoids_pool)
            (untouched l.vault l.pool m.others l.positions distinct.keys.1.0.1 distinct.keys.1.1.0)
            left (m.credited l.authority a.pool h.pool),
      )

  pub burn_vault-Represents :
      (n : ℕ)
      → Burned pf l.token_program l.vault l.mint n w w'
      → (n ≤ a.vault) × Represents pf program_id l w' (record a { vault = a.vault - n })
  burn_vault-Represents n m =
      let (enough, left) = m.debited l.authority a.vault h.vault in
      (
        enough,
        balances-Represents (a.vault - n) a.pool
            (m.others l.config config_avoids_vault distinct.mint.0)
            (untouched l.vault l.mint m.others l.positions distinct.keys.1.0.1 distinct.mint.1.1.1)
            left
            (Holds-frame pf program_id w w' l.token_program l.pool l.authority a.pool
              (m.others l.pool distinct.keys.1.0.0 distinct.mint.1.1.0) h.pool),
      )

  pub burn_pool-Represents :
      (n : ℕ)
      → Burned pf l.token_program l.pool l.mint n w w'
      → (n ≤ a.pool) × Represents pf program_id l w' (record a { pool = a.pool - n })
  burn_pool-Represents n m =
      let (enough, left) = m.debited l.authority a.pool h.pool in
      (
        enough,
        balances-Represents a.vault (a.pool - n)
            (m.others l.config config_avoids_pool distinct.mint.0)
            (untouched l.pool l.mint m.others l.positions distinct.keys.1.1.0 distinct.mint.1.1.1)
            (Holds-frame pf program_id w w' l.token_program l.vault l.authority a.vault
              (m.others l.vault vault_avoids_pool distinct.mint.1.0) h.vault)
            left,
      )

  pub store_config-Represents :
      (acc : AccountInfo) (c : ArenaConfig)
      → ReadsBack pf.serialize_config pf.deserialize_config
      → acc.key ≡ l.config
      → Names l c
      → store_config pf w acc c ≡ ok w'
      → Represents pf program_id l w' (record a { config = c }) × (w'.now ≡ w.now)
  unfolding store_config
  store_config-Represents acc c reads here names e =
      let (decoded, s) =
        store_bytes-decodes pf.serialize_config pf.deserialize_config w w' acc c reads e in
      let same : (k : Pubkey) → (k == l.config) ≡ false → w'.cell k ≡ w.cell k =
        λ k far. s.others k (rw here far) in
      (
        record {
          config = subst (λ k. pf.deserialize_config (w'.cell k).bytes ≡ some c) here decoded;
          config_owner =
              subst (λ k. (w'.cell k).owner ≡ (w.cell k).owner) here s.owner ∙ h.config_owner;
          vault =
              Holds-frame pf program_id w w' l.token_program l.vault l.authority a.vault
                (same l.vault distinct.keys.0.0) h.vault;
          pool =
              Holds-frame pf program_id w w' l.token_program l.pool l.authority a.pool
                (same l.pool distinct.keys.0.1.0) h.pool;
          positions =
              HoldsPositions-frame pf program_id w w' l.positions a.positions
                (All-map (λ k. (k == l.config) ≡ false) _ same l.positions distinct.keys.0.1.1)
                h.positions;
          vault_key = names.vault;
          pool_key = names.pool;
          mint_key = names.mint;
          program_key = names.program;
        },
        s.clock,
      )

  pub store_position-Represents :
      (acc : AccountInfo) (i : ℕ) (q : ArenaPosition)
      → ReadsBack pf.serialize_position pf.deserialize_position
      → get_elem? l.positions i ≡ some acc.key
      → (w.cell acc.key).owner ≡ program_id
      → store_position pf w acc q ≡ ok w'
      → Represents pf program_id l w' (record a { positions = set a.positions i q })
  unfolding store_position
  store_position-Represents acc i q reads at own e =
      let (decoded, s) =
        store_bytes-decodes pf.serialize_position pf.deserialize_position w w' acc q reads e in
      let far : (x : Pubkey) → Avoids x l.positions → (acc.key == x) ≡ false =
        λ x apart. All-get (λ k. (k == x) ≡ false) l.positions i acc.key apart at in
      let config_same =
        s.others l.config (==_flip acc.key l.config (far l.config distinct.keys.0.1.1)) in
      record {
        config = rw config_same h.config;
        config_owner = rw config_same h.config_owner;
        vault =
            Holds-frame pf program_id w w' l.token_program l.vault l.authority a.vault
              (s.others l.vault (==_flip acc.key l.vault (far l.vault distinct.keys.1.0.1)))
              h.vault;
        pool =
            Holds-frame pf program_id w w' l.token_program l.pool l.authority a.pool
              (s.others l.pool (==_flip acc.key l.pool (far l.pool distinct.keys.1.1.0))) h.pool;
        positions =
            HoldsPositions-set pf program_id w w' l.positions a.positions i acc.key q h.positions
              distinct.keys.1.1.1 at s.others (decoded, s.owner ∙ own);
        vault_key = h.vault_key;
        pool_key = h.pool_key;
        mint_key = h.mint_key;
        program_key = h.program_key;
      }
