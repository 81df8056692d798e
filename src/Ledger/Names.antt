-- ===== src/Ledger/Names.antt =====
-- processor.rs: the keys that a config names, before and after each operation.
use arena_contract_sol.Prelude.{ℕ, ◌≡◌, ◌||◌, ◌==◌, ltb, Bool-cases, inl, inr, arith}
use arena_contract_sol.Prelude.Int.{ℤ}
use arena_contract_sol.Result.{
  Result, ok, err, >>=-elim, ok-injective, fail_if, insufficient_position_balance,
}
use arena_contract_sol.State.{ArenaConfig, ArenaPosition}
use arena_contract_sol.Rewards.{
  accrue_rewards, mature_warming_if_ready, promote_warming, add_reward_index,
  commit_rewards_to_index, try_commit_rewards_to_index, commit_if_ok, reward_index_delta,
}
use arena_contract_sol.Stake.{reduce_position_stake}
use arena_contract_sol.Stake.Buckets.{reduce_position_stake-ok}
use arena_contract_sol.Operations.Lock.{
  sync_position, deposit_credit, activate_sync_only, activate_pending, activate_update, roll_epoch,
}
use arena_contract_sol.Operations.Earn.{fund_commit, claim_sync, record_claim, record_expired}
use arena_contract_sol.Operations.Exit.{
  Preview, withdraw_preview, eligible_after, Settlement, withdraw_finish,
}
use arena_contract_sol.Ledger.{Layout}
use arena_contract_sol.Ledger.Steps.{Names}

-- Two configs with the same keys and decimals.
pub record SameKeys (c c' : ArenaConfig) : Type 0 where
  pub vault : c'.vault_token_account ≡ c.vault_token_account
  pub pool : c'.reward_pool_token_account ≡ c.reward_pool_token_account
  pub mint : c'.mint ≡ c.mint
  pub program : c'.token_program ≡ c.token_program

pub SameKeys-Names : (l : Layout) (c c' : ArenaConfig) → SameKeys c c' → Names l c → Names l c'
SameKeys-Names l c c' s n = ground arith

pub mature-SameKeys :
    (c : ArenaConfig) (p : ArenaPosition) (t : ArenaConfig × ArenaPosition)
    → mature_warming_if_ready c p ≡ ok t
    → SameKeys c t.0
unfolding mature_warming_if_ready promote_warming
mature-SameKeys c p t e = ground arith

pub sync-SameKeys :
    (c : ArenaConfig) (p : ArenaPosition) (t : ArenaConfig × ArenaPosition)
    → sync_position c p ≡ ok t
    → SameKeys c t.0
unfolding sync_position
sync-SameKeys c p t e =
    >>=-elim (mature_warming_if_ready c p) _ e λ r m e.
      >>=-elim (accrue_rewards r.0 r.1) _ e λ q _ e. ground (arith, mature-SameKeys c p r m)

pub credit-SameKeys :
    (now : ℤ) (amount : ℕ) (c : ArenaConfig) (p : ArenaPosition) (t : ArenaConfig × ArenaPosition)
    → deposit_credit now amount c p ≡ ok t
    → SameKeys c t.0
unfolding deposit_credit
credit-SameKeys now amount c p t e = ground arith

pub activate-SameKeys :
    (now : ℤ) (c : ArenaConfig) (p : ArenaPosition) (t : ArenaConfig × ArenaPosition)
    → activate_update now c p ≡ ok t
    → SameKeys c t.0
unfolding activate_update activate_sync_only activate_pending
activate-SameKeys now c p t e =
    >>=-elim (mature_warming_if_ready c p) _ e λ r m e. ground (arith, mature-SameKeys c p r m)

pub roll-SameKeys : (now : ℤ) (c c' : ArenaConfig) → roll_epoch now c ≡ ok c' → SameKeys c c'
unfolding roll_epoch
roll-SameKeys now c c' e = ground arith

add_index-SameKeys : (c c' : ArenaConfig) (d : ℕ) → add_reward_index c d ≡ ok c' → SameKeys c c'
unfolding add_reward_index
add_index-SameKeys c c' d e = ground arith

pub fund_commit-SameKeys :
    (c c' : ArenaConfig) (amount snapshot : ℕ)
    → fund_commit c amount snapshot ≡ ok c'
    → SameKeys c c'
unfolding fund_commit commit_rewards_to_index
fund_commit-SameKeys c c' amount snapshot e =
    >>=-elim (commit_rewards_to_index c amount snapshot) _ e λ c₁ committed e.
      >>=-elim (reward_index_delta amount snapshot) _ committed λ d _ committed.
        >>=-elim (add_reward_index c d) _ committed
          λ c₂ added done. ground (arith, add_index-SameKeys c c₂ d added)

pub try_commit-SameKeys :
    (c c' : ArenaConfig) (amount eligible : ℕ)
    → try_commit_rewards_to_index c amount eligible ≡ ok c'
    → SameKeys c c'
unfolding try_commit_rewards_to_index
try_commit-SameKeys c c' amount eligible e = elim (Bool-cases (amount == 0 || eligible == 0)) [
  | inl skip ↦ ground (arith, ok-injective _ _ (rw skip at e))
  | inr go ↦ if_ok (reward_index_delta amount eligible) (rw go at e)
]
  where
    if_ok : (r : Result ℕ) → commit_if_ok c amount r ≡ ok c' → SameKeys c c'
    if_ok (ok d) k =
        >>=-elim (add_reward_index c d) _ k
          λ c₁ added done. ground (arith, add_index-SameKeys c c₁ d added)
    if_ok (err x) k = ground (arith, ok-injective _ _ k)

pub claim_sync-SameKeys :
    (c : ArenaConfig) (p : ArenaPosition) (t : ArenaConfig × ArenaPosition)
    → claim_sync c p ≡ ok t
    → SameKeys c t.0
unfolding claim_sync
claim_sync-SameKeys c p t e =
    >>=-elim (fail_if (p.locked_amount == 0) insufficient_position_balance) _ e
      λ _ _ e. sync-SameKeys c p t e

pub record_claim-SameKeys : (c : ArenaConfig) (p : ArenaPosition) → SameKeys c (record_claim c p).0
unfolding record_claim
record_claim-SameKeys c p = ground arith

pub record_expired-SameKeys : (c : ArenaConfig) (amount : ℕ) → SameKeys c (record_expired c amount)
unfolding record_expired
record_expired-SameKeys c amount = ground arith

pub preview-SameKeys :
    (c : ArenaConfig) (p : ArenaPosition) (amount : ℕ) (v : Preview)
    → withdraw_preview c p amount ≡ ok v
    → SameKeys c v.config
unfolding withdraw_preview
preview-SameKeys c p amount v e =
    >>=-elim (fail_if (ltb p.locked_amount amount) insufficient_position_balance) _ e λ _ _ e.
      >>=-elim (mature_warming_if_ready c p) _ e λ r m e.
        >>=-elim (eligible_after r.0 r.1 amount) _ e λ left _ e.
          >>=-elim (accrue_rewards r.0 r.1) _ e λ q _ e. ground (arith, mature-SameKeys c p r m)

pub finish-SameKeys :
    (now : ℤ) (amount left : ℕ) (s : Settlement) (c : ArenaConfig) (p : ArenaPosition)
    (t : ArenaConfig × ArenaPosition)
    → withdraw_finish now amount left s c p ≡ ok t
    → SameKeys c t.0
unfolding withdraw_finish
finish-SameKeys now amount left s c p t e =
    >>=-elim (try_commit_rewards_to_index c s.reward_penalty left) _ e λ c₁ tried e.
      >>=-elim (reduce_position_stake c₁ p amount) _ e λ r reduced e. ground (
        arith,
        try_commit-SameKeys c c₁ s.reward_penalty left tried,
        reduce_position_stake-ok c₁ p amount reduced,
      )
