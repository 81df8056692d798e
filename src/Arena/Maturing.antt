-- ===== src/Arena/Maturing.antt =====
-- processor.rs: what `mature_warming_if_ready` and `accrue_rewards` leave of the stake.
use arena_contract_sol.Prelude.{
  ℕ, ◌+◌, ◌≡◌, true, false, arith, if◌then◌else◌, Bool-cases, inl, inr,
}
use arena_contract_sol.Result.{ok, ok_or, ok-injective, >>=-elim, >>=-eq-ok, math_overflow}
use arena_contract_sol.Checked.{checked_add_u64, checked_sub}
use arena_contract_sol.State.{ArenaConfig, ArenaPosition}
use arena_contract_sol.Rewards.{
  accrue_rewards, accrue_delta, promote_warming, mature_warming_if_ready,
}
use arena_contract_sol.Rewards.Maturity.{is_ready}

-- The warming stake that an epoch boundary has passed since it was activated, and the rest.
abbrev pub ripe : ArenaConfig → ArenaPosition → ℕ
ripe c p = if is_ready c p then p.warming_amount else 0

abbrev pub unripe : ArenaConfig → ArenaPosition → ℕ
unripe c p = if is_ready c p then 0 else p.warming_amount

-- What maturing and accrual leave of the stake.
pub record Matured (c : ArenaConfig) (p : ArenaPosition) (c' : ArenaConfig) (q : ArenaPosition)
    : Type 0 where
  pub eligible : q.eligible_amount ≡ p.eligible_amount + ripe c p
  pub warming : q.warming_amount ≡ unripe c p
  pub position : q ≡ record p {
    eligible_amount = q.eligible_amount;
    warming_amount = q.warming_amount;
    pending_rewards = q.pending_rewards;
    reward_accrual_remainder = q.reward_accrual_remainder;
    reward_index_checkpoint = q.reward_index_checkpoint;
    reward_index_generation_checkpoint = q.reward_index_generation_checkpoint;
  }
  pub eligible_locked : c'.eligible_locked ≡ c.eligible_locked + ripe c p
  pub warming_locked : c'.warming_locked + ripe c p ≡ c.warming_locked
  pub config :
      c' ≡ record c { eligible_locked = c'.eligible_locked; warming_locked = c'.warming_locked }

pub record Accrued (c : ArenaConfig) (p q : ArenaPosition) : Type 0 where
  pub position : q ≡ record p {
    pending_rewards = q.pending_rewards;
    reward_accrual_remainder = q.reward_accrual_remainder;
    reward_index_checkpoint = c.reward_index;
    reward_index_generation_checkpoint = c.reward_index_generation;
  }

pub accrue_rewards-Accrued :
    (c : ArenaConfig) (p q : ArenaPosition) → accrue_rewards c p ≡ ok q → Accrued c p q
unfolding accrue_rewards accrue_delta
accrue_rewards-Accrued c p q e = record { position = ground arith }

promoted :
    (c : ArenaConfig) (p : ArenaPosition) (c' : ArenaConfig) (q : ArenaPosition)
    → is_ready c p ≡ true
    → mature_warming_if_ready c p ≡ ok (c', q)
    → promote_warming c p ≡ ok (c', q)
unfolding mature_warming_if_ready
promoted c p c' q ready e = ground arith

resting :
    (c : ArenaConfig) (p : ArenaPosition) (c' : ArenaConfig) (q : ArenaPosition)
    → is_ready c p ≡ false
    → mature_warming_if_ready c p ≡ ok (c', q)
    → (c' ≡ c) × (q ≡ p)
unfolding mature_warming_if_ready
resting c p c' q unready e = ground arith

pub mature_warming_if_ready-Matured :
    (c c' : ArenaConfig) (p q : ArenaPosition)
    → mature_warming_if_ready c p ≡ ok (c', q)
    → Matured c p c' q
unfolding mature_warming_if_ready promote_warming
mature_warming_if_ready-Matured c c' p q e = elim (Bool-cases (is_ready c p)) [
  | inl ready ↦
      let (r, acc, e₁) = >>=-eq-ok (accrue_rewards c p) _ (promoted c p c' q ready e) in
      let same = (accrue_rewards-Accrued c p r acc).position in
      >>=-elim (ok_or (checked_add_u64 r.eligible_amount r.warming_amount) math_overflow) _ e₁
        λ n a e.
          >>=-elim (ok_or (checked_sub c.warming_locked r.warming_amount) math_overflow) _ e
            λ m b e.
              >>=-elim (ok_or (checked_add_u64 c.eligible_locked r.warming_amount) math_overflow) _
                e
                λ k d done.
                  let pair = ok-injective _ _ done in
                  record {
                    eligible = ground (arith, same, a, pair, ready);
                    warming = ground (arith, pair, ready);
                    position = ground (arith, same, pair);
                    eligible_locked = ground (arith, same, d, pair, ready);
                    warming_locked = ground (arith, same, b, pair, ready);
                    config = ground (arith, pair);
                  }
  | inr unready ↦
      let (same, same') = resting c p c' q unready e in
      record {
        eligible = ground (arith, same', unready);
        warming = ground (arith, same', unready);
        position = ground (arith, same');
        eligible_locked = ground (arith, same, unready);
        warming_locked = ground (arith, same, unready);
        config = ground (arith, same);
      }
]
