-- ===== src/Rewards/Frequency.antt =====
-- processor.rs: `accrue_rewards`, called at one index and then at a later one.
use arena_contract_sol.Prelude.{
  ◌-◌, ◌+◌, ◌*◌, ◌≤◌, ◌<◌, ◌≡◌, arith, sym, subst, ◌∙◌, ap, mul-add_eq,
}
use arena_contract_sol.Result.{ok}
use arena_contract_sol.Checked.{u64_limit, u128_limit}
use arena_contract_sol.State.{ArenaConfig, ArenaPosition, reward_index_scale}
use arena_contract_sol.Rewards.{accrue_rewards, accrue_delta}
use arena_contract_sol.Rewards.Index.{config_index, position_index}
use arena_contract_sol.Rewards.Accrual.{owed, accrued, accrue_rewards-ok, accrue_rewards_total}

accrued-accrued :
    (early late : ArenaConfig) (p : ArenaPosition)
    → position_index p ≤ config_index early
    → config_index early ≤ config_index late
    → accrued late (accrued early p) ≡ accrued late p
accrued-accrued early late p before later = ground (
  arith,
  mul-add_eq p.eligible_amount (config_index early - position_index p)
      (config_index late - config_index early) (config_index late - position_index p) (omega arith),
)

pending-fits :
    (c : ArenaConfig) (p q : ArenaPosition)
    → p.pending_rewards < u64_limit
    → accrue_rewards c p ≡ ok q
    → q.pending_rewards < u64_limit
unfolding accrue_rewards accrue_delta
pending-fits c p q fits e = ground arith

-- Pending rewards that fit after an accrual bound what was owed before it.
whole_units :
    (c : ArenaConfig) (p : ArenaPosition)
    → (accrued c p).pending_rewards < u64_limit
    → owed (config_index c) p < u64_limit * reward_index_scale
whole_units c p h = omega (arith, h)

-- Where the indices and the checkpoint are `u128` values, the carried remainder is below one unit,
-- the pending rewards are a `u64` and the later index is less than 2 ^ 128 ahead of the checkpoint:
-- if an accrual at one index and then at a later one succeed, a single accrual at the later one
-- succeeds as well and leaves the same position.
pub accrue_rewards_twice :
    (early late : ArenaConfig) (p q twice : ArenaPosition)
    → early.reward_index < u128_limit
    → late.reward_index < u128_limit
    → p.reward_index_checkpoint < u128_limit
    → p.reward_accrual_remainder < reward_index_scale
    → p.pending_rewards < u64_limit
    → config_index late < position_index p + u128_limit
    → accrue_rewards early p ≡ ok q
    → accrue_rewards late q ≡ ok twice
    → accrue_rewards late p ≡ ok twice
accrue_rewards_twice early late p q twice he hl hp hr fits near first second =
    let (eq, before) = accrue_rewards-ok early p he hp hr first in
    let carry : q.reward_accrual_remainder < reward_index_scale = ground arith in
    let checkpoint : q.reward_index_checkpoint < u128_limit = ground arith in
    let (et, after) = accrue_rewards-ok late q hl checkpoint carry second in
    let later : config_index early ≤ config_index late =
      omega (arith, ap position_index eq, after) in
    let same : twice ≡ accrued late p =
      et ∙ ap (accrued late) eq ∙ accrued-accrued early late p before later in
    let pending : twice.pending_rewards < u64_limit =
      pending-fits late q twice (pending-fits early p q fits first) second in
    let little : owed (config_index late) p < u64_limit * reward_index_scale =
      whole_units late p
        (subst (λ (x : ArenaPosition). x.pending_rewards < u64_limit) same pending) in
    accrue_rewards_total late p hl hp hr (omega arith) near little ∙ ap ok (sym same)
