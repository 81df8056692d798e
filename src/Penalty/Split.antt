-- ===== src/Penalty/Split.antt =====
-- The laws of the early-exit penalty.
use arena_contract_sol.Prelude.{
  ℕ, ◌+◌, ◌*◌, ◌/◌, ◌%◌, ◌≤◌, ◌<◌, ◌-◌, ◌≡◌, min, arith, ltb, if◌then◌else◌, mul-le_right,
}
use arena_contract_sol.Result.{ok}
use arena_contract_sol.Checked.{u64_limit}
use arena_contract_sol.State.{bps_denominator, max_arena_early_exit_penalty_bps}
use arena_contract_sol.Penalty.{bps_share, burn_split, penalty_split, PenaltySplit}

-- On machine values nothing overflows, and the share is the exact division.
pub bps_share_exact :
    (amount bps remainder : ℕ)
    → amount < u64_limit
    → bps ≤ bps_denominator
    → remainder < bps_denominator
    → bps_share amount bps remainder
      ≡ ok (
        (amount * bps + remainder) / bps_denominator,
        (amount * bps + remainder) % bps_denominator,
      )
unfolding bps_share
bps_share_exact amount bps remainder ha hb hr = ground (arith, mul-le_right amount bps 10000 hb)

-- What is taken from an exit: the whole units of the cumulative share.
abbrev pub taken : ℕ → ℕ → ℕ → ℕ
taken amount bps remainder = (amount * bps + remainder) / bps_denominator

abbrev pub kept : ℕ → ℕ → ℕ → ℕ
kept amount bps remainder = (amount * bps + remainder) % bps_denominator

-- What is burned: the whole units of the cumulative burn share, cut to the penalty.
abbrev pub burned : ℕ → ℕ → ℕ → ℕ → ℕ → ℕ
burned amount bps burn_bps rest burn_rest =
    if ltb 0 burn_bps then min (taken amount burn_bps burn_rest) (taken amount bps rest) else 0

pub burned-le :
    (amount bps burn_bps rest burn_rest : ℕ)
    → burned amount bps burn_bps rest burn_rest ≤ taken amount bps rest
burned-le amount bps burn_bps rest burn_rest = ground arith

-- At most half of an amount that is at least one unit is taken, rounded up, so never more than it.
pub taken-le :
    (amount bps remainder : ℕ)
    → 0 < amount
    → bps ≤ max_arena_early_exit_penalty_bps
    → remainder < bps_denominator
    → taken amount bps remainder ≤ amount
taken-le amount bps remainder ha hb hr = ground (arith, mul-le_right amount bps 5000 hb)

module _ (amount bps burn_bps rest burn_rest : ℕ) (ha : 0 < amount) (fits : amount < u64_limit)
    (hp : 0 < bps) (hb : bps ≤ max_arena_early_exit_penalty_bps) (hbb : burn_bps ≤ bps)
    (hr : rest < bps_denominator) (hbr : burn_rest < bps_denominator) where
  -- For a positive amount that is a u64, a positive penalty rate of at most half, a burn rate of at
  -- most the penalty rate, and remainders below the denominator, the split succeeds: reward and burn
  -- add up to the whole units of the cumulative penalty, which is never cut to the amount; the burn
  -- is the smaller of the whole units of the cumulative burn and that penalty, or zero when the burn
  -- rate is zero; and the remainders are those of the two divisions, or zero for the burn then.
  pub penalty_split_exact :
      penalty_split amount bps burn_bps rest burn_rest
      ≡ ok (record {
        reward = taken amount bps rest - burned amount bps burn_bps rest burn_rest;
        burn = burned amount bps burn_bps rest burn_rest;
        penalty_remainder = kept amount bps rest;
        burn_remainder = if ltb 0 burn_bps then kept amount burn_bps burn_rest else 0;
      })
  unfolding penalty_split burn_split
  penalty_split_exact = ground (
    arith,
    bps_share_exact amount bps rest fits (omega arith) hr,
    bps_share_exact amount burn_bps burn_rest fits (omega arith) hbr,
    taken-le amount bps rest ha hb hr,
  )

-- The remainders stay below one unit, on every path that succeeds.
pub penalty_split_carries :
    (amount bps burn_bps rest burn_rest : ℕ) {s : PenaltySplit}
    → rest < bps_denominator
    → burn_rest < bps_denominator
    → penalty_split amount bps burn_bps rest burn_rest ≡ ok s
    → (s.penalty_remainder < bps_denominator) × (s.burn_remainder < bps_denominator)
unfolding penalty_split burn_split bps_share
penalty_split_carries amount bps burn_bps rest burn_rest hr hb e = ground arith
