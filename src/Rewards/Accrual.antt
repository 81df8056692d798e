-- ===== src/Rewards/Accrual.antt =====
-- What accrual gives a position, as an equation between scaled amounts.
use arena_contract_sol.Prelude.{
  ℕ, ◌+◌, ◌-◌, ◌*◌, ◌/◌, ◌%◌, ◌≤◌, ◌<◌, ◌≡◌, ◌⊎◌, arith, mul-sub, inl, inr,
}
use arena_contract_sol.Result.{ok, Result-cases, fail, math_overflow}
use arena_contract_sol.Checked.{u64_limit, u128_limit}
use arena_contract_sol.State.{ArenaConfig, ArenaPosition, reward_index_scale}
use arena_contract_sol.Rewards.{
  reward_index_delta_since, accrue_delta, accrue_rewards, checkpoint_at,
}
use arena_contract_sol.Rewards.Index.{
  config_index, position_index, delta_since-ok, delta_since_exact,
}

-- The scaled reward units that a position has earned but not been paid when the index is `v`.
abbrev pub owed : ℕ → ArenaPosition → ℕ
owed v p =
    p.pending_rewards * reward_index_scale
    + p.reward_accrual_remainder
    + p.eligible_amount * (v - position_index p)

-- The scaled units that the position has to divide by the scale.
abbrev pub scaled_units : ArenaPosition → ℕ → ℕ
scaled_units p d = p.eligible_amount * d + p.reward_accrual_remainder

abbrev pub credited : ArenaPosition → ℕ → ArenaPosition
credited p d = record p {
  reward_accrual_remainder = scaled_units p d % reward_index_scale;
  pending_rewards = p.pending_rewards + scaled_units p d / reward_index_scale;
}

pub accrue_delta_total :
    (p : ArenaPosition) (d : ℕ)
    → p.pending_rewards * reward_index_scale + scaled_units p d < u64_limit * reward_index_scale
    → accrue_delta p d ≡ ok (credited p d)
unfolding accrue_delta
accrue_delta_total p d h = ground arith

accrue_delta_cases :
    (p : ArenaPosition) (d : ℕ)
    → (accrue_delta p d ≡ ok (credited p d)) ⊎ (accrue_delta p d ≡ fail math_overflow)
unfolding accrue_delta
accrue_delta_cases p d = ground arith

-- The position after an accrual.
abbrev pub accrued : ArenaConfig → ArenaPosition → ArenaPosition
accrued c p = checkpoint_at c (credited p (config_index c - position_index p))

module _ (c : ArenaConfig) (p : ArenaPosition) (hc : c.reward_index < u128_limit)
    (hp : p.reward_index_checkpoint < u128_limit) where
  -- A skipped credit is a credit of nothing, when the carried remainder is below one unit.
  pub accrue_rewards-ok :
      {q : ArenaPosition}
      → p.reward_accrual_remainder < reward_index_scale
      → accrue_rewards c p ≡ ok q
      → (q ≡ accrued c p) × (position_index p ≤ config_index c)
  unfolding accrue_rewards
  accrue_rewards-ok hr h = elim (Result-cases (reward_index_delta_since c p)) [
    | inl (d, e) ↦
        let grows = delta_since-ok c p hc hp e in
        ground (
          arith,
          accrue_delta_cases p d,
          mul-sub p.eligible_amount (position_index p) (config_index c) d grows,
          grows,
        )
    | inr (x, e) ↦ cc
  ]

  -- Where the index and the checkpoint are `u128` values, the carried remainder is below one unit,
  -- the index is ahead of the checkpoint by less than 2 ^ 128, and less than 2 ^ 64 whole units are
  -- owed, no step of an accrual overflows: it credits the whole units of the scaled stake and the
  -- carried remainder, and keeps the rest.
  pub accrue_rewards_total :
      p.reward_accrual_remainder < reward_index_scale
      → position_index p ≤ config_index c
      → config_index c < position_index p + u128_limit
      → owed (config_index c) p < u64_limit * reward_index_scale
      → accrue_rewards c p ≡ ok (accrued c p)
  unfolding accrue_rewards
  accrue_rewards_total hr lo hi fits =
      ground (
        arith,
        accrue_delta_total p (config_index c - position_index p),
        delta_since_exact c p hc hp,
      )

-- An accrual moves the whole units of what is owed into the pending rewards and keeps the rest.
pub owed-accrued :
    (c : ArenaConfig) (p : ArenaPosition)
    → owed (config_index c) (accrued c p) ≡ owed (config_index c) p
owed-accrued c p = ground arith
