-- ===== src/Ledger.antt =====
-- The accounts of one arena in the world, and what they hold as an arena: the relation between the
-- handlers of processor.rs, which work on accounts, and the actions of Arena.
pub mod Moves
pub mod Steps
pub mod Outside
pub mod Custody
pub mod Loads
pub mod Stores
pub mod Burning
pub mod Epochs
pub mod Claims
pub mod Fundings
pub mod Finals
pub mod Exits
pub mod Deposits
pub mod Creation
pub mod Openings
pub mod Initial
pub mod Reach
pub mod Safety
pub mod Lifetime
pub mod Names
use arena_contract_sol.Prelude.{
  ℕ, ◌+◌, ◌-◌, ◌≤◌, ◌<◌, ◌≡◌, false, some, List, [], ◌∷◌, ◌==◌, All, replicate,
}
use arena_contract_sol.Result.{Result, ok}
use arena_contract_sol.Checked.{u64_limit}
use arena_contract_sol.State.{Pubkey, ArenaConfig, ArenaPosition}
use arena_contract_sol.Platform.{
  Platform, World, Cell, AccountInfo, Seed, transfer_checked, burn_checked, system_transfer,
  allocate, assign,
}
use arena_contract_sol.Tokens.{TokenAccountView, unpack_token_account}
use arena_contract_sol.Arena.{Arena}

-- The keys of an arena's accounts.
pub record Layout : Type 0 where
  pub config : Pubkey
  pub vault : Pubkey
  pub pool : Pubkey
  pub mint : Pubkey
  pub token_program : Pubkey
  pub authority : Pubkey
  pub positions : List Pubkey

-- No key of the list is `x`.
abbrev pub Avoids : Pubkey → List Pubkey → Type 0
Avoids x keys = All (λ k. (k == x) ≡ false) keys

abbrev pub Distinct : List Pubkey → Type 0
Distinct [] = Unit
Distinct (x ∷ keys) = Avoids x keys × Distinct keys

abbrev pub state_keys : Layout → List Pubkey
state_keys l = l.config ∷ l.vault ∷ l.pool ∷ l.positions

pub record IsDistinct (program_id : Pubkey) (l : Layout) : Type 0 where
  pub keys : Distinct (state_keys l)
  pub mint : Avoids l.mint (state_keys l)
  pub programs : (program_id == l.token_program) ≡ false

abbrev pub plain : Pubkey → AccountInfo
plain k = record { key = k; is_signer = false; is_writable = false }

module _ (pf : Platform) where
  -- The account is a token account of the program and of the owner, with the balance `b`.
  abbrev pub Holds : World → Pubkey → Pubkey → Pubkey → ℕ → Type 0
  Holds w token_program k owner b =
      (v : TokenAccountView) × (unpack_token_account pf w token_program (plain k) ≡ ok v)
      × (v.owner ≡ owner)
      × (v.amount ≡ b)

  -- What a transfer between two accounts does to the world.
  pub record Moved (token_program source destination : Pubkey) (amount : ℕ) (w w' : World)
      : Type 0 where
    pub debited :
        (owner : Pubkey) (b : ℕ)
        → Holds w token_program source owner b
        → (amount ≤ b) × Holds w' token_program source owner (b - amount)
    pub credited :
        (owner : Pubkey) (b : ℕ)
        → Holds w token_program destination owner b
        → Holds w' token_program destination owner (b + amount)
    pub others :
        (k : Pubkey) → (k == source) ≡ false → (k == destination) ≡ false → w'.cell k ≡ w.cell k
    pub clock : w'.now ≡ w.now

  pub record Burned (token_program account mint : Pubkey) (amount : ℕ) (w w' : World) : Type 0 where
    pub debited :
        (owner : Pubkey) (b : ℕ)
        → Holds w token_program account owner b
        → (amount ≤ b) × Holds w' token_program account owner (b - amount)
    pub others : (k : Pubkey) → (k == account) ≡ false → (k == mint) ≡ false → w'.cell k ≡ w.cell k
    pub clock : w'.now ≡ w.now

  -- The documented behaviour of a token program's `TransferChecked` and `BurnChecked`: where they
  -- succeed, the balances move by the amount, and no other account and not the clock changes.
  pub record IsTokenProgram : Type 0 where
    pub transfer :
        (token_program source mint destination authority : Pubkey) (amount decimals : ℕ)
        (seeds : List Seed) (w w' : World)
        → (source == destination) ≡ false
        → pf.invoke
            (transfer_checked token_program source mint destination authority amount decimals seeds)
            w
          ≡ ok w'
        → Moved token_program source destination amount w w'
    pub burn :
        (token_program account mint authority : Pubkey) (amount decimals : ℕ) (seeds : List Seed)
        (w w' : World)
        → (account == mint) ≡ false
        → pf.invoke (burn_checked token_program account mint authority amount decimals seeds) w
          ≡ ok w'
        → Burned token_program account mint amount w w'

  -- The documented behaviour of the system program's `Transfer`, `Allocate` and `Assign`: the payer
  -- and the account to allocate belong to it, and nothing else changes.
  pub record IsSystemProgram : Type 0 where
    pub transfer :
        (source target : Pubkey) (lamports : ℕ) (w w' : World)
        → pf.invoke (system_transfer source target lamports) w ≡ ok w'
        → ((w.cell source).owner ≡ pf.system_program_id)
          × ((w'.cell target).owner ≡ (w.cell target).owner)
          × ((k : Pubkey) → (k == source) ≡ false → (k == target) ≡ false → w'.cell k ≡ w.cell k)
          × (w'.now ≡ w.now)
    pub allocate_space :
        (account : Pubkey) (space : ℕ) (seeds : List Seed) (w w' : World)
        → pf.invoke (allocate account space seeds) w ≡ ok w'
        → ((w.cell account).owner ≡ pf.system_program_id)
          × ((w'.cell account).bytes ≡ replicate space 0)
          × ((k : Pubkey) → (k == account) ≡ false → w'.cell k ≡ w.cell k)
          × (w'.now ≡ w.now)
    pub assign_owner :
        (account owner : Pubkey) (seeds : List Seed) (w w' : World)
        → pf.invoke (assign account owner seeds) w ≡ ok w'
        → ((w'.cell account).owner ≡ owner)
          × ((w'.cell account).bytes ≡ (w.cell account).bytes)
          × ((k : Pubkey) → (k == account) ≡ false → w'.cell k ≡ w.cell k)
          × (w'.now ≡ w.now)

  -- The supply of a token is a `u64`: the balance of an owner's account and the two of custody
  -- add up to less than 2 ^ 64.
  abbrev pub SupplyFits : Layout → World → Pubkey → Pubkey → Type 0
  SupplyFits l w x owner =
      (b v p : ℕ)
      → Holds w l.token_program x owner b
      → Holds w l.token_program l.vault l.authority v
      → Holds w l.token_program l.pool l.authority p
      → b + v + p < u64_limit

  module _ (program_id : Pubkey) where
    -- The account belongs to the program and its data decodes to the position.
    abbrev pub HoldsPosition : World → Pubkey → ArenaPosition → Type 0
    HoldsPosition w k p =
        (pf.deserialize_position (w.cell k).bytes ≡ some p) × ((w.cell k).owner ≡ program_id)

    abbrev pub HoldsPositions : World → List Pubkey → List ArenaPosition → Type 0
    HoldsPositions w [] [] = Unit
    HoldsPositions w [] (p ∷ ps) = ⊥
    HoldsPositions w (k ∷ ks) [] = ⊥
    HoldsPositions w (k ∷ ks) (p ∷ ps) = HoldsPosition w k p × HoldsPositions w ks ps

    -- The accounts of the layout hold the arena.
    pub record Represents (l : Layout) (w : World) (a : Arena) : Type 0 where
      pub config : pf.deserialize_config (w.cell l.config).bytes ≡ some a.config
      pub config_owner : (w.cell l.config).owner ≡ program_id
      pub vault : Holds w l.token_program l.vault l.authority a.vault
      pub pool : Holds w l.token_program l.pool l.authority a.pool
      pub positions : HoldsPositions w l.positions a.positions
      pub vault_key : a.config.vault_token_account ≡ l.vault
      pub pool_key : a.config.reward_pool_token_account ≡ l.pool
      pub mint_key : a.config.mint ≡ l.mint
      pub program_key : a.config.token_program ≡ l.token_program
