-- ===== src/Ledger/Reach.antt =====
-- The transactions on an arena as steps between worlds.
use arena_contract_sol.Prelude.{
  ℕ, ◌+◌, ◌≤◌, ◌<◌, ◌≡◌, true, false, some, List, ◌∷◌, ◌==◌, All, get_elem?,
}
use arena_contract_sol.Result.{ok}
use arena_contract_sol.Checked.{u64_limit}
use arena_contract_sol.State.{Pubkey}
use arena_contract_sol.Platform.{
  Platform, World, AccountInfo, deposit, activate_position, fund_rewards, fund_rewards_checked,
  roll_epoch, finalize_rewards, claim_rewards, withdraw,
}
use arena_contract_sol.Accounts.{data_is_empty}
use arena_contract_sol.Processor.{dispatch}
use arena_contract_sol.Processor.Entry.{any_nonzero}
use arena_contract_sol.Ledger.{Layout, Holds, SupplyFits}
use arena_contract_sol.Ledger.Openings.{with_position}

module _ (pf : Platform) (program_id : Pubkey) where
  -- What happens outside the program: time passes, other accounts change, and tokens are sent to
  -- the two custody accounts, whose authority signs for the program only.
  pub record Elsewhere (l : Layout) (w w' : World) : Type 0 where
    pub config : w'.cell l.config ≡ w.cell l.config
    pub positions : All (λ k. w'.cell k ≡ w.cell k) l.positions
    pub balances :
        (v p : ℕ)
        → Holds pf w l.token_program l.vault l.authority v
        → Holds pf w l.token_program l.pool l.authority p
        → (v' : ℕ) × (p' : ℕ) × Holds pf w' l.token_program l.vault l.authority v'
          × Holds pf w' l.token_program l.pool l.authority p'
          × (v ≤ v')
          × (p ≤ p')
          × (v' + p' < u64_limit)

  -- A transaction on the arena of a layout that succeeds. Its signer is not the derived authority,
  -- which has no private key, and the balances of one token add up to a `u64`.
  pub data Step (l : Layout) (w : World) : Layout → World → Type 0 where
    elsewhere : {w' : World} → Elsewhere l w w' → Step l w l w'
    deposits :
        {w' : World}
        (owner owner_tokens config position vault authority mint token_program
          system_program : AccountInfo)
        (rest : List AccountInfo) (i amount : ℕ)
        → config.key ≡ l.config
        → get_elem? l.positions i ≡ some position.key
        → any_nonzero (w.cell position.key).bytes ≡ true
        → (owner.key == l.authority) ≡ false
        → SupplyFits pf l w owner_tokens.key owner.key
        → dispatch pf program_id w
            (owner ∷ owner_tokens ∷ config ∷ position ∷ vault ∷ authority ∷ mint ∷ token_program
              ∷ system_program ∷ rest)
            (deposit amount)
          ≡ ok w'
        → Step l w l w'
    opens :
        {w' : World}
        (owner owner_tokens config position vault authority mint token_program
          system_program : AccountInfo)
        (rest : List AccountInfo) (amount : ℕ)
        → config.key ≡ l.config
        → data_is_empty (w.cell position.key).bytes ≡ true
        → (position.key == l.mint) ≡ false
        → (owner.key == l.authority) ≡ false
        → SupplyFits pf l w owner_tokens.key owner.key
        → dispatch pf program_id w
            (owner ∷ owner_tokens ∷ config ∷ position ∷ vault ∷ authority ∷ mint ∷ token_program
              ∷ system_program ∷ rest)
            (deposit amount)
          ≡ ok w'
        → Step l w (with_position l position.key) w'
    activates :
        {w' : World} (owner config position pool authority mint token_program : AccountInfo)
        (rest : List AccountInfo) (i : ℕ)
        → config.key ≡ l.config
        → get_elem? l.positions i ≡ some position.key
        → dispatch pf program_id w
            (owner ∷ config ∷ position ∷ pool ∷ authority ∷ mint ∷ token_program ∷ rest)
            activate_position
          ≡ ok w'
        → Step l w l w'
    funds :
        {w' : World} (funder funder_tokens config pool mint token_program : AccountInfo)
        (rest : List AccountInfo) (amount : ℕ)
        → config.key ≡ l.config
        → (funder.key == l.authority) ≡ false
        → SupplyFits pf l w funder_tokens.key funder.key
        → dispatch pf program_id w
            (funder ∷ funder_tokens ∷ config ∷ pool ∷ mint ∷ token_program ∷ rest)
            (fund_rewards amount)
          ≡ ok w'
        → Step l w l w'
    funds_checked :
        {w' : World} (funder funder_tokens config pool mint token_program : AccountInfo)
        (rest : List AccountInfo) (amount expected_eligible_locked max_current_epoch : ℕ)
        → config.key ≡ l.config
        → (funder.key == l.authority) ≡ false
        → SupplyFits pf l w funder_tokens.key funder.key
        → dispatch pf program_id w
            (funder ∷ funder_tokens ∷ config ∷ pool ∷ mint ∷ token_program ∷ rest)
            (fund_rewards_checked amount expected_eligible_locked max_current_epoch)
          ≡ ok w'
        → Step l w l w'
    rolls :
        {w' : World} (config pool authority mint token_program : AccountInfo)
        (rest : List AccountInfo)
        → config.key ≡ l.config
        → dispatch pf program_id w
            (config ∷ pool ∷ authority ∷ mint ∷ token_program ∷ rest)
            roll_epoch
          ≡ ok w'
        → Step l w l w'
    finalizes :
        {w' : World} (config pool authority mint token_program : AccountInfo)
        (rest : List AccountInfo)
        → config.key ≡ l.config
        → dispatch pf program_id w
            (config ∷ pool ∷ authority ∷ mint ∷ token_program ∷ rest)
            finalize_rewards
          ≡ ok w'
        → Step l w l w'
    claims :
        {w' : World}
        (owner owner_tokens config position pool authority mint token_program : AccountInfo)
        (rest : List AccountInfo) (i : ℕ)
        → config.key ≡ l.config
        → get_elem? l.positions i ≡ some position.key
        → (owner.key == l.authority) ≡ false
        → dispatch pf program_id w
            (owner ∷ owner_tokens ∷ config ∷ position ∷ pool ∷ authority ∷ mint ∷ token_program
              ∷ rest)
            claim_rewards
          ≡ ok w'
        → Step l w l w'
    withdraws :
        {w' : World}
        (owner owner_tokens config position vault authority pool mint token_program : AccountInfo)
        (rest : List AccountInfo) (i amount : ℕ)
        → config.key ≡ l.config
        → get_elem? l.positions i ≡ some position.key
        → (owner.key == l.authority) ≡ false
        → dispatch pf program_id w
            (owner ∷ owner_tokens ∷ config ∷ position ∷ vault ∷ authority ∷ pool ∷ mint
              ∷ token_program ∷ rest)
            (withdraw amount)
          ≡ ok w'
        → Step l w l w'

  pub data Reach (l : Layout) (w : World) : Layout → World → Type 0 where
    here : Reach l w l w
    next : {l₁ l₂ : Layout} {w₁ w₂ : World} → Reach l w l₁ w₁ → Step l₁ w₁ l₂ w₂ → Reach l w l₂ w₂
