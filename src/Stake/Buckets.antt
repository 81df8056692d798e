-- ===== src/Stake/Buckets.antt =====
-- processor.rs, `reduce_position_stake`: the buckets from which an amount is taken.
use arena_contract_sol.Prelude.{
  ℕ, ◌-◌, ◌≤◌, ◌≡◌, ◌&&◌, arith, ◌∙◌, le→leb, leb, Bool-cases, inl, inr, ◌==◌, if◌then◌else◌, min,
}
use arena_contract_sol.Result.{ok, fail, math_overflow}
use arena_contract_sol.State.{ArenaConfig, ArenaPosition}
use arena_contract_sol.Stake.{
  reduce_pending, reduce_warming, reduce_eligible, reduce_locked, reduce_position_stake,
}

-- What an exit of `amount` takes from each bucket: pending first, then warming, then eligible.
abbrev pub from_pending : ArenaPosition → ℕ → ℕ
from_pending p amount = min p.pending_activation_amount amount

abbrev pub from_warming : ArenaPosition → ℕ → ℕ
from_warming p amount = min p.warming_amount (amount - from_pending p amount)

abbrev pub from_eligible : ArenaPosition → ℕ → ℕ
from_eligible p amount = amount - from_pending p amount - from_warming p amount

abbrev pub reduced_config : ArenaConfig → ArenaPosition → ℕ → ArenaConfig
reduced_config c p amount = record c {
  total_locked = c.total_locked - amount;
  pending_activation_locked = c.pending_activation_locked - from_pending p amount;
  warming_locked = c.warming_locked - from_warming p amount;
  eligible_locked = c.eligible_locked - from_eligible p amount;
}

abbrev pub reduced_position : ArenaPosition → ℕ → ArenaPosition
reduced_position p amount = record p {
  locked_amount = p.locked_amount - amount;
  pending_activation_amount = p.pending_activation_amount - from_pending p amount;
  warming_amount = p.warming_amount - from_warming p amount;
  eligible_amount = p.eligible_amount - from_eligible p amount;
  reward_accrual_remainder =
      if p.locked_amount - amount == 0 then 0 else p.reward_accrual_remainder;
}

-- The records after the first, the second and the third bucket.
abbrev pending_config : ArenaConfig → ArenaPosition → ℕ → ArenaConfig
pending_config c p r = record c {
  pending_activation_locked = c.pending_activation_locked - from_pending p r;
}

abbrev pending_position : ArenaPosition → ℕ → ArenaPosition
pending_position p r = record p {
  pending_activation_amount = p.pending_activation_amount - from_pending p r;
}

abbrev warming_config : ArenaConfig → ArenaPosition → ℕ → ArenaConfig
warming_config c p r = record c { warming_locked = c.warming_locked - min p.warming_amount r }

abbrev warming_position : ArenaPosition → ℕ → ArenaPosition
warming_position p r = record p { warming_amount = p.warming_amount - min p.warming_amount r }

abbrev eligible_config : ArenaConfig → ℕ → ArenaConfig
eligible_config c r = record c { eligible_locked = c.eligible_locked - r }

abbrev eligible_position : ArenaPosition → ℕ → ArenaPosition
eligible_position p r = record p { eligible_amount = p.eligible_amount - r }

module _ (c : ArenaConfig) (p : ArenaPosition) (r : ℕ) where
  reduce_pending_exact : reduce_pending (c, p, r) ≡ (
      if leb (from_pending p r) c.pending_activation_locked
      then ok (pending_config c p r, pending_position p r, r - from_pending p r)
      else fail math_overflow)
  unfolding reduce_pending
  reduce_pending_exact = ground arith

  reduce_warming_exact : reduce_warming (c, p, r) ≡ (
      if leb (min p.warming_amount r) c.warming_locked
      then ok (warming_config c p r, warming_position p r, r - min p.warming_amount r)
      else fail math_overflow)
  unfolding reduce_warming
  reduce_warming_exact = ground arith

  reduce_eligible_exact : reduce_eligible (c, p, r) ≡ (
      if leb r p.eligible_amount && leb r c.eligible_locked
      then ok (eligible_config c r, eligible_position p r)
      else fail math_overflow)
  unfolding reduce_eligible
  reduce_eligible_exact = ground arith

-- The reduction succeeds exactly when each share is there to be taken, in the position and in the
-- totals of the config, and then it takes the three shares and nothing else.
pub reduce_position_stake_exact :
    (c : ArenaConfig) (p : ArenaPosition) (amount : ℕ)
    → reduce_position_stake c p amount ≡ (
        if leb (from_pending p amount) c.pending_activation_locked
          && leb (from_warming p amount) c.warming_locked
          && leb (from_eligible p amount) p.eligible_amount
          && leb (from_eligible p amount) c.eligible_locked
          && leb amount p.locked_amount
          && leb amount c.total_locked
        then ok (reduced_config c p amount, reduced_position p amount)
        else fail math_overflow)
unfolding reduce_position_stake reduce_locked
reduce_position_stake_exact c p amount =
    let c₁ = pending_config c p amount in
    let p₁ = pending_position p amount in
    let r₁ = amount - from_pending p amount in
    let c₂ = warming_config c₁ p₁ r₁ in
    let p₂ = warming_position p₁ r₁ in
    let r₂ = r₁ - from_warming p amount in
    rw (reduce_pending_exact c p amount)
      (elim (Bool-cases (leb (from_pending p amount) c.pending_activation_locked)) [
        | inr short ↦ rw short
        | inl e ↦
            rw (e, reduce_warming_exact c₁ p₁ r₁)
              (elim (Bool-cases (leb (from_warming p amount) c.warming_locked)) [
                | inr short ↦ rw short
                | inl e' ↦ rw (e', reduce_eligible_exact c₂ p₂ r₂) (ground arith)
              ])
      ])

pub reduce_position_stake-ok :
    (c : ArenaConfig) (p : ArenaPosition) (amount : ℕ) {t : ArenaConfig × ArenaPosition}
    → reduce_position_stake c p amount ≡ ok t
    → (t ≡ (reduced_config c p amount, reduced_position p amount))
      × (from_pending p amount ≤ c.pending_activation_locked)
      × (from_warming p amount ≤ c.warming_locked)
      × (from_eligible p amount ≤ p.eligible_amount)
      × (from_eligible p amount ≤ c.eligible_locked)
      × (amount ≤ p.locked_amount)
      × (amount ≤ c.total_locked)
reduce_position_stake-ok c p amount e = ground (arith, reduce_position_stake_exact c p amount)

pub reduce_position_stake_total :
    (c : ArenaConfig) (p : ArenaPosition) (amount : ℕ)
    → from_pending p amount ≤ c.pending_activation_locked
    → from_warming p amount ≤ c.warming_locked
    → from_eligible p amount ≤ p.eligible_amount
    → from_eligible p amount ≤ c.eligible_locked
    → amount ≤ p.locked_amount
    → amount ≤ c.total_locked
    → reduce_position_stake c p amount ≡ ok (reduced_config c p amount, reduced_position p amount)
reduce_position_stake_total c p amount a₁ a₂ a₃ a₄ a₅ a₆ =
    reduce_position_stake_exact c p amount
    ∙ rw (le→leb _ _ a₁, le→leb _ _ a₂, le→leb _ _ a₃, le→leb _ _ a₄, le→leb _ _ a₅, le→leb _ _ a₆)
