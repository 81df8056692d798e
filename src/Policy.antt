-- ===== src/Policy.antt =====
-- programs/arena-lock-v2/src/processor.rs: the economic parameters that a config may be given.
pub mod Exposure
use arena_contract_sol.Prelude.{ℕ, true, false, ltb, ◌==◌, ◌||◌}
use arena_contract_sol.Prelude.Int.{ℤ, pos, leb_ℤ, ltb_ℤ}
use arena_contract_sol.Result.{
  Result, ok, fail_if, ok_or, ◌>>=◌, ◌>>◌, ArenaError, invalid_amount, invalid_penalty,
  invalid_burn, invalid_lock_policy, math_overflow,
}
use arena_contract_sol.Checked.{checked_add_i64, checked_mul_i64, checked_mul_u128}
use arena_contract_sol.State.{bps_denominator, max_arena_early_exit_penalty_bps}

-- The arguments of `InitializeConfig`.
pub record ConfigParams : Type 0 where
  pub config_id : ℕ
  pub min_lock_seconds : ℤ
  pub activation_delay_seconds : ℤ
  pub epoch_seconds : ℤ
  pub min_deposit_amount : ℕ
  pub early_exit_penalty_bps : ℕ
  pub burn_penalty_bps : ℕ
  pub decimals : ℕ

unfoldable pub assert_lock_policy : ℤ → ℤ → ℤ → Result (Unit {0})
assert_lock_policy min_lock_seconds activation_delay_seconds epoch_seconds = do
  fail_if
      (leb_ℤ min_lock_seconds (pos 0)
        || leb_ℤ activation_delay_seconds (pos 0)
        || leb_ℤ epoch_seconds (pos 0))
      invalid_amount
  epochs ← ok_or (checked_mul_i64 epoch_seconds (pos 2)) math_overflow
  minimum_lock ← ok_or (checked_add_i64 activation_delay_seconds epochs) math_overflow
  fail_if (ltb_ℤ min_lock_seconds minimum_lock) invalid_lock_policy

-- A rate that is not zero must charge at least one unit of the smallest deposit.
unfoldable pub assert_rate_charges : ℕ → ℕ → ArenaError → Result (Unit {0})
assert_rate_charges min_deposit_amount bps e = elim (ltb 0 bps) [
  | true ↦ (do
    product ← ok_or (checked_mul_u128 min_deposit_amount bps) math_overflow
    fail_if (ltb product bps_denominator) e)
  | false ↦ ok tt
]

-- The checks of `process_initialize_config` that come before its accounts are read.
unfoldable pub assert_config_params : ConfigParams → Result (Unit {0})
assert_config_params a = do
  assert_lock_policy a.min_lock_seconds a.activation_delay_seconds a.epoch_seconds
  fail_if (a.min_deposit_amount == 0) invalid_amount
  fail_if (ltb max_arena_early_exit_penalty_bps a.early_exit_penalty_bps) invalid_penalty
  fail_if (ltb a.early_exit_penalty_bps a.burn_penalty_bps) invalid_burn
  assert_rate_charges a.min_deposit_amount a.early_exit_penalty_bps invalid_penalty
  assert_rate_charges a.min_deposit_amount a.burn_penalty_bps invalid_burn
