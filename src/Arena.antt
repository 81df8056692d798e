-- ===== src/Arena.antt =====
-- An arena with all of its positions and the two custody balances: the abstract view of the
-- accounts that the instructions of processor.rs work on. Each action is composed of the parts of
-- its handler in the handler's order, with the token movements as changes of the balances.
pub mod Cadence
pub mod Maturing
pub mod Clock
pub mod Frame
pub mod Sync
pub mod Payment
pub mod Activations
pub mod Earnings
pub mod Finalization
pub mod Exits
pub mod Withdrawals
pub mod History
pub mod Liveness
pub mod Stranded
pub mod Deposits
use arena_contract_sol.Prelude.{
  ℕ, ◌+◌, Bool, true, false, Option, none, some, List, [], ◌∷◌, ◌++◌, ltb, ◌==◌, if◌then◌else◌,
  get_elem?, set, length, ◌-◌, ◌&&◌, not,
}
use arena_contract_sol.Prelude.Int.{ℤ}
use arena_contract_sol.Result.{
  Result, ok, err, ProgramError, external, fail_if, ok_or, ◌>>=◌, ◌>>◌, invalid_amount, no_rewards,
  not_initialized,
}
use arena_contract_sol.Checked.{u64_limit, checked_sub}
use arena_contract_sol.State.{ArenaConfig, ArenaPosition, Pubkey}
use arena_contract_sol.Operations.Lock.{
  fresh_position, sync_position, deposit_credit, activate_update, roll_epoch,
}
use arena_contract_sol.Operations.Earn.{
  fund_check, fund_commit, maturity_sync, claim_sync, record_claim, finalize_check, record_expired,
}
use arena_contract_sol.Operations.Exit.{
  withdraw_preview, exit_split, settle, with_remainders, withdraw_finish, Preview, Settlement,
}

pub record Arena : Type 0 where
  pub config : ArenaConfig
  pub vault : ℕ
  pub pool : ℕ
  pub positions : List ArenaPosition

-- A token program's refusal: the balance is too small, or the supply would not be a `u64`.
abbrev pub debit : ℕ → ℕ → Result ℕ
debit balance amount = if ltb balance amount then err (external 1) else ok (balance - amount)

abbrev pub supply_check : Arena → ℕ → Result (Unit {0})
supply_check a amount =
    if ltb (a.vault + a.pool + amount) u64_limit then ok tt else err (external 14)

abbrev pub position_at : Arena → ℕ → Result ArenaPosition
position_at a i = ok_or (get_elem? a.positions i) not_initialized

-- The config and the position at `i` are stored, with the new balances.
abbrev pub put : Arena → ℕ → ℕ → ℕ → ArenaConfig × ArenaPosition → Arena
put a i vault pool (c, p) = record {
  config = c;
  vault = vault;
  pool = pool;
  positions = set a.positions i p;
}

-- The position that the first deposit of an owner makes, before its amount is added.
unfoldable pub open_position : Pubkey → Pubkey → ℤ → ℕ → Arena → Arena
open_position config_key owner_key now bump a = record a {
  positions = a.positions ++ fresh_position config_key owner_key now bump a.config ∷ [];
}

-- `process_deposit` into the position at `i`; the tokens arrive before the records change.
unfoldable pub deposit_at : ℤ → ℕ → ℕ → Arena → Result Arena
deposit_at now i amount a = do
  fail_if (ltb amount a.config.min_deposit_amount) invalid_amount
  p ← position_at a i
  supply_check a amount
  (c, p') ← sync_position a.config p
  r ← deposit_credit now amount c p'
  ok (put a i (a.vault + amount) a.pool r)

unfoldable pub activate_at : ℤ → ℕ → Arena → Result Arena
activate_at now i a = do
  p ← position_at a i
  r ← activate_update now a.config p
  ok (put a i a.vault a.pool r)

unfoldable pub roll : ℤ → Arena → Result Arena
roll now a = do c ← roll_epoch now a.config; ok (record a { config = c })

unfoldable pub fund : ℕ → Option (ℕ × ℕ) → Arena → Result Arena
fund amount expected_snapshot a = do
  fail_if (amount == 0) invalid_amount
  snapshot ← fund_check a.config amount expected_snapshot
  supply_check a amount
  c ← fund_commit a.config amount snapshot
  ok (record a { config = c; pool = a.pool + amount })

-- `pay_pending_rewards`: the balance of the pool and the records after it.
unfoldable pub pay_pending :
    ℕ → ArenaConfig → ArenaPosition → Result (ℕ × ArenaConfig × ArenaPosition)
pay_pending pool c p = if p.pending_rewards == 0 then ok (pool, c, p) else do
  pool' ← debit pool p.pending_rewards
  let (c', p') = record_claim c p
  ok (pool', c', p')

unfoldable pub claim_at : ℤ → ℕ → Arena → Result Arena
claim_at now i a = do
  p ← position_at a i
  (c, p') ← claim_sync a.config p
  fail_if (p'.pending_rewards == 0 && not (maturity_sync a.config p)) no_rewards
  (pool, c', p'') ← pay_pending a.pool c p'
  ok (put a i a.vault pool (c', record p'' { last_activity_ts = now }))

unfoldable pub withdraw_at : ℤ → ℕ → ℕ → Arena → Result Arena
withdraw_at now i amount a = do
  fail_if (amount == 0) invalid_amount
  p ← position_at a i
  pv ← withdraw_preview a.config p amount
  (pool, c, p') ←
      (if pv.full_exit
        then pay_pending a.pool pv.config pv.position
        else ok (a.pool, pv.config, pv.position))
  split ← exit_split now amount c p'
  s ← settle amount pv.eligible_locked_after split
  vault ← debit a.vault s.returned
  vault' ← debit vault s.reward_penalty
  vault'' ← debit vault' s.burned
  r ← withdraw_finish now amount pv.eligible_locked_after s c (with_remainders split p')
  ok (put a i vault'' (pool + s.reward_penalty) r)

unfoldable pub finalize : Arena → Result Arena
finalize a = do
  finalize_check a.config
  if a.pool == 0 then ok a else ok (record a { config = record_expired a.config a.pool; pool = 0 })

-- The instructions of the program, with the position that each is for.
pub data Action : Type 0 where
  open_and_deposit : Pubkey → Pubkey → ℕ → ℕ → Action
  deposit withdraw : ℕ → ℕ → Action
  activate claim : ℕ → Action
  fund_rewards : ℕ → Option (ℕ × ℕ) → Action
  roll_epoch_once finalize_rewards : Action

pub perform : ℤ → Action → Arena → Result Arena
perform now (open_and_deposit config_key owner_key bump amount) a =
    deposit_at now (length a.positions) amount (open_position config_key owner_key now bump a)
perform now (deposit i amount) a = deposit_at now i amount a
perform now (withdraw i amount) a = withdraw_at now i amount a
perform now (activate i) a = activate_at now i a
perform now (claim i) a = claim_at now i a
perform now (fund_rewards amount expected) a = fund amount expected a
perform now roll_epoch_once a = roll now a
perform now finalize_rewards a = finalize a

-- A failed instruction changes nothing: the runtime discards its writes.
abbrev pub committed : Arena → Result Arena → Arena
committed a (ok b) = b
committed a (err e) = a

pub run : List (ℤ × Action) → Arena → Arena
run [] a = a
run ((now, action) ∷ rest) a = run rest (committed a (perform now action a))
