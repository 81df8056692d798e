-- ===== src/Tests/Units.antt =====
-- The components on single inputs.
use arena_contract_sol.Prelude.{ℕ, ◌*◌, ◌<◌, ◌≤◌, ◌+◌, ◌≡◌, ◌↔◌, [], ◌∷◌, arith}
use arena_contract_sol.Prelude.Int.{pos}
use arena_contract_sol.Result.{ok, fail, math_overflow}
use arena_contract_sol.State.{ArenaConfig, ArenaPosition, reward_index_scale}
use arena_contract_sol.Rewards.{reward_index_delta, reward_index_delta_since, accrue_rewards}
use arena_contract_sol.Rewards.Index.{delta_since_exact, reward_index_delta_exact}
use arena_contract_sol.Rewards.Accrual.{accrued, accrue_rewards_total}
use arena_contract_sol.Rewards.Frequency.{accrue_rewards_twice}
use arena_contract_sol.Penalty.{PenaltySplit, penalty_split}
use arena_contract_sol.Penalty.Split.{penalty_split_exact, taken}
use arena_contract_sol.Penalty.Cumulative.{exits, exits_telescope, penalty_split-burn_exact}
use arena_contract_sol.Stake.{reduce_position_stake}
use arena_contract_sol.Stake.Buckets.{reduced_config, reduced_position, reduce_position_stake_exact}
use arena_contract_sol.Policy.{ConfigParams, assert_config_params, assert_lock_policy}
use arena_contract_sol.Policy.Exposure.{IsAcceptable, config_params_exact, lock_policy_exact}
use arena_contract_sol.Operations.Lock.{sync_position}
use arena_contract_sol.Arena.Stranded.{sync_position_stranded}
use arena_contract_sol.Tests.{sample_config, alice}

delta_since_exact_example :
    reward_index_delta_since sample_config alice ≡ ok (2 * reward_index_scale)
delta_since_exact_example = delta_since_exact sample_config alice (omega arith) (omega arith)

accrue_rewards_total_example : accrue_rewards sample_config alice ≡ ok (accrued sample_config alice)
accrue_rewards_total_example =
    accrue_rewards_total sample_config alice (omega arith) (omega arith) (omega arith) (omega arith)
      (omega arith) (omega arith)

-- The index half a unit earlier, and the position that was accrued then.
abbrev earlier_config : ArenaConfig
earlier_config = record sample_config { reward_index = 4_500_000_000_000_000_000 }

abbrev half_way : ArenaPosition
half_way = accrued earlier_config alice

accrued_half_way : accrue_rewards earlier_config alice ≡ ok half_way
accrued_half_way =
    accrue_rewards_total earlier_config alice (omega arith) (omega arith) (omega arith)
      (omega arith) (omega arith) (omega arith)

accrued_later : accrue_rewards sample_config half_way ≡ ok (accrued sample_config half_way)
accrued_later =
    accrue_rewards_total sample_config half_way (omega arith) (omega arith) (omega arith)
      (omega arith) (omega arith) (omega arith)

accrue_rewards_twice_example :
    accrue_rewards sample_config alice ≡ ok (accrued sample_config half_way)
accrue_rewards_twice_example =
    accrue_rewards_twice earlier_config sample_config alice half_way
      (accrued sample_config half_way) (omega arith) (omega arith) (omega arith) (omega arith)
      (omega arith) (omega arith) accrued_half_way accrued_later

penalty_split_exact_example :
    penalty_split 101 2500 500 7_500 9_000
    ≡ ok (record { reward = 21; burn = 5; penalty_remainder = 0; burn_remainder = 9_500 })
penalty_split_exact_example =
    penalty_split_exact 101 2500 500 7_500 9_000 (omega arith) (omega arith) (omega arith)
      (omega arith) (omega arith) (omega arith) (omega arith)

-- Three early exits of 101 units at 25 %: 25, 25 and 25 units, and three quarters carried on.
exits_telescope_example :
    (t : ℕ × ℕ × ℕ) × (exits 2500 500 (101 ∷ 101 ∷ 101 ∷ []) 0 0 0 ≡ ok t)
    × (t.0 * 10_000 + t.1 ≡ 757_500)
    × (t.1 < 10_000)
exits_telescope_example =
    exits_telescope 2500 500 (101 ∷ 101 ∷ 101 ∷ []) 0 0 0 (omega arith) (omega arith) (omega arith)
      (omega arith) (omega arith)
      ((omega arith, omega arith), ((omega arith, omega arith), ((omega arith, omega arith), tt)))

-- After an exit of 33 units at 10 %, of which 3 % burn, an exit of one unit owes a unit of burn and
-- no penalty: the burn is cut to nothing, and its account loses the unit.
abbrev last_exit : PenaltySplit
last_exit = record { reward = 0; burn = 0; penalty_remainder = 4_000; burn_remainder = 200 }

last_exit_split : penalty_split 1 1000 300 3_000 9_900 ≡ ok last_exit
last_exit_split =
    penalty_split_exact 1 1000 300 3_000 9_900 (omega arith) (omega arith) (omega arith)
      (omega arith) (omega arith) (omega arith) (omega arith)

penalty_split-burn_exact_example :
    (last_exit.burn * 10_000 + last_exit.burn_remainder ≡ 10_200)
    ↔ (taken 1 300 9_900 ≤ taken 1 1000 3_000)
penalty_split-burn_exact_example =
    penalty_split-burn_exact 1 1000 300 3_000 9_900 last_exit (omega arith) (omega arith)
      (omega arith) (omega arith) (omega arith) (omega arith) (omega arith) last_exit_split

reduce_position_stake_exact_example :
    reduce_position_stake sample_config alice 60
    ≡ ok (reduced_config sample_config alice 60, reduced_position alice 60)
reduce_position_stake_exact_example = reduce_position_stake_exact sample_config alice 60

reward_index_delta_exact_example : reward_index_delta 3 7 ≡ ok 428_571_428_571_428_571
reward_index_delta_exact_example = reward_index_delta_exact 3 7 (omega arith) (omega arith)

lock_policy_exact_example :
    (assert_lock_policy (pos 1000) (pos 100) (pos 200) ≡ ok tt)
    ↔ ((0 < 1000) × (0 < 100) × (0 < 200) × (100 + 2 * 200 ≤ 1000))
lock_policy_exact_example = lock_policy_exact 1000 100 200 (omega arith) (omega arith) (omega arith)

abbrev sample_params : ConfigParams
sample_params = record {
  config_id = 7;
  min_lock_seconds = pos 1000;
  activation_delay_seconds = pos 100;
  epoch_seconds = pos 200;
  min_deposit_amount = 100;
  early_exit_penalty_bps = 2500;
  burn_penalty_bps = 500;
  decimals = 6;
}

config_params_exact_example :
    (assert_config_params sample_params ≡ ok tt) ↔ IsAcceptable sample_params
config_params_exact_example = config_params_exact sample_params (omega arith)

-- The index has wrapped once and passed the checkpoint again.
abbrev far_config : ArenaConfig
far_config = record sample_config { reward_index_generation = 1 }

sync_position_stranded_example : sync_position far_config alice ≡ fail math_overflow
sync_position_stranded_example =
    sync_position_stranded far_config alice (omega arith) (omega arith) (omega arith)
