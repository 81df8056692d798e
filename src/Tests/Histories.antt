-- ===== src/Tests/Histories.antt =====
-- Histories of the sample arena.
use arena_contract_sol.Prelude.{◌≡◌, List, [], ◌∷◌, none, refl, arith, sum_of}
use arena_contract_sol.Prelude.Int.{ℤ, pos}
use arena_contract_sol.Result.{ok, Succeeds}
use arena_contract_sol.State.{ArenaConfig}
use arena_contract_sol.Rewards.{sat_add_u64}
use arena_contract_sol.Rewards.Index.{config_index}
use arena_contract_sol.Rewards.Accrual.{owed}
use arena_contract_sol.Operations.Earn.{finalize_check, record_expired}
use arena_contract_sol.Arena.Finalization.{finalize-no_debt}
use arena_contract_sol.Arena.{
  Arena, Action, withdraw, activate, claim, fund_rewards, roll_epoch_once, open_and_deposit,
  finalize_rewards, run, withdraw_at, finalize,
}
use arena_contract_sol.Arena.Frame.{IsConsistent}
use arena_contract_sol.Arena.History.{run-IsConsistent}
use arena_contract_sol.Arena.Liveness.{withdraw_at-Succeeds}
use arena_contract_sol.Tests.{sample_config, alice, bob, sample_arena}

pub sample_arena-IsConsistent : IsConsistent sample_arena
sample_arena-IsConsistent = record {
  config = omega arith;
  sound = (omega arith, (omega arith, tt));
  totals = omega arith;
  custody = omega arith;
  supply = omega arith;
  solvent = omega arith;
}

-- A deposit of a third owner, rewards, an early exit, a claim, a roll of the epoch and activations;
-- the second claim and the final burn fail.
abbrev busy_history : List (ℤ × Action)
busy_history =
    (pos 500, open_and_deposit 21 24 252 300)
    ∷ (pos 510, fund_rewards 2_000 none)
    ∷ (pos 520, withdraw 0 200)
    ∷ (pos 530, claim 1)
    ∷ (pos 530, claim 1)
    ∷ (pos 600, roll_epoch_once)
    ∷ (pos 610, activate 2)
    ∷ (pos 620, activate 0)
    ∷ (pos 630, finalize_rewards)
    ∷ (pos 1500, withdraw 0 450)
    ∷ []

run-IsConsistent_example : IsConsistent (run busy_history sample_arena)
run-IsConsistent_example = run-IsConsistent busy_history sample_arena sample_arena-IsConsistent

withdraw_at-Succeeds_example : Succeeds (withdraw_at (pos 520) 0 650 sample_arena)
withdraw_at-Succeeds_example =
    withdraw_at-Succeeds (pos 520) sample_arena 0 650 alice sample_arena-IsConsistent refl
      (omega arith) (omega arith) (omega arith) (omega arith)

-- All stake has left, and seven units of dust are in the pool.
abbrev left_config : ArenaConfig
left_config = record sample_config {
  total_locked = 0;
  eligible_locked = 0;
  pending_activation_locked = 0;
  warming_locked = 0;
}

abbrev left_arena : Arena
left_arena = record {
  config = left_config;
  vault = 0;
  pool = 7;
  positions = record bob { locked_amount = 0; eligible_amount = 0 } ∷ [];
}

abbrev final_arena : Arena
final_arena = record left_arena {
  config = record left_config { total_rewards_expired = 7; total_burned = 7 };
  pool = 0;
}

left_arena-IsConsistent : IsConsistent left_arena
left_arena-IsConsistent = record {
  config = omega arith;
  sound = (omega arith, tt);
  totals = omega arith;
  custody = omega arith;
  supply = omega arith;
  solvent = omega arith;
}

left_arena-finalize : finalize left_arena ≡ ok final_arena
unfolding finalize finalize_check record_expired sat_add_u64
left_arena-finalize = refl

finalize-no_debt_example :
    (sum_of (λ p. p.locked_amount) left_arena.positions ≡ 0)
    × (sum_of (owed (config_index left_config)) left_arena.positions ≡ 0)
    × (final_arena.pool ≡ 0)
    × (final_arena.vault ≡ left_arena.vault)
    × (final_arena.positions ≡ left_arena.positions)
finalize-no_debt_example =
    finalize-no_debt left_arena final_arena left_arena-IsConsistent left_arena-finalize
