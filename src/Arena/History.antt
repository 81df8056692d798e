-- ===== src/Arena/History.antt =====
-- The invariant along every history of an arena.
use arena_contract_sol.Prelude.{
  ℕ, ◌≡◌, List, [], ◌∷◌, arith, refl, sum_of-append, All-append, length,
}
use arena_contract_sol.Prelude.Int.{ℤ}
use arena_contract_sol.Result.{Result, ok, err}
use arena_contract_sol.State.{ArenaPosition, Pubkey}
use arena_contract_sol.Rewards.Index.{config_index}
use arena_contract_sol.Rewards.Accrual.{owed}
use arena_contract_sol.Operations.Lock.{fresh_position}
use arena_contract_sol.Arena.{
  Arena, Action, open_and_deposit, deposit, withdraw, activate, claim, fund_rewards,
  roll_epoch_once, finalize_rewards, open_position, perform, committed, run,
}
use arena_contract_sol.Arena.Frame.{IsSound, IsConsistent}
use arena_contract_sol.Arena.Deposits.{deposit_at-IsConsistent}
use arena_contract_sol.Arena.Activations.{activate_at-IsConsistent}
use arena_contract_sol.Arena.Earnings.{claim_at-IsConsistent, fund-IsConsistent, roll-IsConsistent}
use arena_contract_sol.Arena.Finalization.{finalize-IsConsistent}
use arena_contract_sol.Arena.Withdrawals.{withdraw_at-IsConsistent}

-- Opening an empty position keeps the invariant.
pub open_position-IsConsistent :
    (config_key owner_key : Pubkey) (now : ℤ) (bump : ℕ) (a : Arena)
    → IsConsistent a
    → IsConsistent (open_position config_key owner_key now bump a)
unfolding open_position
open_position-IsConsistent config_key owner_key now bump a h = record {
  config = h.config;
  sound =
      All-append (IsSound (config_index a.config)) a.positions (new ∷ []) h.sound
        (omega (arith, h.config.index), tt);
  totals = record {
    total =
        omega (arith, h.totals.total, sum_of-append (λ p. p.locked_amount) a.positions (new ∷ []));
    pending = omega (
      arith,
      h.totals.pending,
      sum_of-append (λ p. p.pending_activation_amount) a.positions (new ∷ []),
    );
    warming =
        omega
          (arith, h.totals.warming, sum_of-append (λ p. p.warming_amount) a.positions (new ∷ []));
    eligible =
        omega
          (arith, h.totals.eligible, sum_of-append (λ p. p.eligible_amount) a.positions (new ∷ []));
  };
  custody = h.custody;
  supply = h.supply;
  solvent =
      omega (arith, h.solvent, sum_of-append (owed (config_index a.config)) a.positions (new ∷ []));
}
  where
    new : ArenaPosition
    new = fresh_position config_key owner_key now bump a.config

-- Every instruction that succeeds keeps the invariant: the config's totals are the sums over the
-- positions, the vault covers all locked stake, and the pool covers all that is owed.
pub perform-IsConsistent :
    (now : ℤ) (action : Action) (a b : Arena)
    → IsConsistent a
    → perform now action a ≡ ok b
    → IsConsistent b
unfolding perform
perform-IsConsistent now (open_and_deposit c o n amount) a b h e =
    deposit_at-IsConsistent now (length a.positions) amount (open_position c o now n a) b
      (open_position-IsConsistent c o now n a h) e
perform-IsConsistent now (deposit i amount) a b h e = deposit_at-IsConsistent now i amount a b h e
perform-IsConsistent now (withdraw i amount) a b h e = withdraw_at-IsConsistent now i amount a b h e
perform-IsConsistent now (activate i) a b h e = activate_at-IsConsistent now i a b h e
perform-IsConsistent now (claim i) a b h e = claim_at-IsConsistent now i a b h e
perform-IsConsistent now (fund_rewards amount x) a b h e = fund-IsConsistent amount x a b h e
perform-IsConsistent now roll_epoch_once a b h e = roll-IsConsistent now a b h e
perform-IsConsistent now finalize_rewards a b h e = finalize-IsConsistent a b h e

committed-IsConsistent :
    (a : Arena) (r : Result Arena)
    → IsConsistent a
    → ((b : Arena) → r ≡ ok b → IsConsistent b)
    → IsConsistent (committed a r)
committed-IsConsistent a (ok b) h k = k b refl
committed-IsConsistent a (err e) h k = h

-- From a consistent arena, any sequence of instructions, at any times, failed ones included, leads
-- to a consistent arena: the config's totals are the sums over the positions, the vault covers all
-- locked stake, and the pool covers all that is owed.
pub run-IsConsistent :
    (history : List (ℤ × Action)) (a : Arena) → IsConsistent a → IsConsistent (run history a)
unfolding run
run-IsConsistent [] a h = h
run-IsConsistent ((now, action) ∷ rest) a h =
    run-IsConsistent rest (committed a (perform now action a)) (
      committed-IsConsistent a (perform now action a) h
        (λ b e. perform-IsConsistent now action a b h e))
