-- ===== src/Penalty.antt =====
-- programs/arena-lock-v2/src/processor.rs: the early-exit penalty and its split.
pub mod Split
pub mod Cumulative
use arena_contract_sol.Prelude.{ℕ, ltb, ◌==◌, if◌then◌else◌, min}
use arena_contract_sol.Result.{Result, ok, ok_or, ◌>>=◌, math_overflow}
use arena_contract_sol.Checked.{
  try_from_u64, checked_add_u128, checked_mul_u128, checked_sub, checked_div, checked_rem,
}
use arena_contract_sol.State.{bps_denominator}

-- A cumulative share of an amount: the whole units of `amount * bps + remainder` over the basis
-- points, and the new remainder.
unfoldable pub bps_share : ℕ → ℕ → ℕ → Result (ℕ × ℕ)
bps_share amount bps remainder = do
  product ← ok_or (checked_mul_u128 amount bps) math_overflow
  scaled ← ok_or (checked_add_u128 product remainder) math_overflow
  quotient ← ok_or (checked_div scaled bps_denominator) math_overflow
  share ← ok_or (try_from_u64 quotient) math_overflow
  rest ← ok_or (checked_rem scaled bps_denominator) math_overflow
  rest' ← ok_or (try_from_u64 rest) math_overflow
  ok (share, rest')

-- What `penalty_split` returns, with the two remainders that it writes through its references.
pub record PenaltySplit : Type 0 where
  pub reward : ℕ
  pub burn : ℕ
  pub penalty_remainder : ℕ
  pub burn_remainder : ℕ

-- The part of `penalty_split` for the burn, after `penalty` has been limited to the amount.
unfoldable pub burn_split : ℕ → ℕ → ℕ → ℕ → Result (ℕ × ℕ)
burn_split amount burn_penalty_bps burn_remainder penalty =
    if ltb 0 burn_penalty_bps
    then (do
      (burn, rest) ← bps_share amount burn_penalty_bps burn_remainder
      ok (min burn penalty, rest))
    else ok (0, 0)

unfoldable pub penalty_split : ℕ → ℕ → ℕ → ℕ → ℕ → Result PenaltySplit
penalty_split amount early_exit_penalty_bps burn_penalty_bps penalty_remainder burn_remainder =
    if early_exit_penalty_bps == 0
    then ok (record {
      reward = 0;
      burn = 0;
      penalty_remainder = penalty_remainder;
      burn_remainder = burn_remainder;
    })
    else do
      (share, rest) ← bps_share amount early_exit_penalty_bps penalty_remainder
      let penalty = min share amount
      (burn, burn_rest) ← burn_split amount burn_penalty_bps burn_remainder penalty
      reward ← ok_or (checked_sub penalty burn) math_overflow
      ok (record {
        reward = reward;
        burn = burn;
        penalty_remainder = rest;
        burn_remainder = burn_rest;
      })
