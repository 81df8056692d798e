-- ===== src/Stake.antt =====
-- programs/arena-lock-v2/src/processor.rs: the reduction of a position's stake.
pub mod Buckets
use arena_contract_sol.Prelude.{ℕ, ltb, ◌==◌, if◌then◌else◌, min}
use arena_contract_sol.Result.{Result, ok, ok_or, ◌>>=◌, math_overflow}
use arena_contract_sol.Checked.{checked_sub}
use arena_contract_sol.State.{ArenaConfig, ArenaPosition}

-- The config, the position, and what remains to be taken.
abbrev pub Reduction : Type 0
Reduction = ArenaConfig × ArenaPosition × ℕ

unfoldable pub reduce_pending : Reduction → Result Reduction
reduce_pending (c, p, remaining) =
    let reduction = min p.pending_activation_amount remaining in
    if ltb 0 reduction
    then (do
      amount ← ok_or (checked_sub p.pending_activation_amount reduction) math_overflow
      locked ← ok_or (checked_sub c.pending_activation_locked reduction) math_overflow
      rest ← ok_or (checked_sub remaining reduction) math_overflow
      ok (
        record c { pending_activation_locked = locked },
        record p { pending_activation_amount = amount },
        rest,
      ))
    else ok (c, p, remaining)

unfoldable pub reduce_warming : Reduction → Result Reduction
reduce_warming (c, p, remaining) =
    let reduction = min p.warming_amount remaining in
    if ltb 0 reduction
    then (do
      amount ← ok_or (checked_sub p.warming_amount reduction) math_overflow
      locked ← ok_or (checked_sub c.warming_locked reduction) math_overflow
      rest ← ok_or (checked_sub remaining reduction) math_overflow
      ok (record c { warming_locked = locked }, record p { warming_amount = amount }, rest))
    else ok (c, p, remaining)

unfoldable pub reduce_eligible : Reduction → Result (ArenaConfig × ArenaPosition)
reduce_eligible (c, p, remaining) =
    if ltb 0 remaining
    then (do
      amount ← ok_or (checked_sub p.eligible_amount remaining) math_overflow
      locked ← ok_or (checked_sub c.eligible_locked remaining) math_overflow
      ok (record c { eligible_locked = locked }, record p { eligible_amount = amount }))
    else ok (c, p)

-- `locked_amount`, `total_locked`, and the reset of the carried remainder of an emptied position.
unfoldable pub reduce_locked :
    ℕ → ArenaConfig × ArenaPosition → Result (ArenaConfig × ArenaPosition)
reduce_locked amount (c, p) = do
  locked ← ok_or (checked_sub p.locked_amount amount) math_overflow
  total ← ok_or (checked_sub c.total_locked amount) math_overflow
  ok (
    record c { total_locked = total },
    record p {
      locked_amount = locked;
      reward_accrual_remainder = if locked == 0 then 0 else p.reward_accrual_remainder;
    },
  )

unfoldable pub reduce_position_stake :
    ArenaConfig → ArenaPosition → ℕ → Result (ArenaConfig × ArenaPosition)
reduce_position_stake c p amount = do
  after_pending ← reduce_pending (c, p, amount)
  after_warming ← reduce_warming after_pending
  after_eligible ← reduce_eligible after_warming
  reduce_locked amount after_eligible
