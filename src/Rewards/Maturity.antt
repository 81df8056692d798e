-- ===== src/Rewards/Maturity.antt =====
-- What maturing does to the config and the position, as two functions of both.
use arena_contract_sol.Prelude.{
  ◌+◌, ◌-◌, ◌*◌, ◌≤◌, ◌<◌, ◌≡◌, Bool, true, ◌&&◌, arith, ltb, if◌then◌else◌, inl, inr,
}
use arena_contract_sol.Result.{ok, Result-cases}
use arena_contract_sol.Checked.{u64_limit, u128_limit}
use arena_contract_sol.State.{ArenaConfig, ArenaPosition, reward_index_scale}
use arena_contract_sol.Rewards.{accrue_rewards, promote_warming, mature_warming_if_ready}
use arena_contract_sol.Rewards.Index.{config_index, position_index}
use arena_contract_sol.Rewards.Accrual.{owed, accrued, accrue_rewards-ok, accrue_rewards_total}

-- Warming stake matures once an epoch boundary has passed since it was activated.
abbrev pub is_ready : ArenaConfig → ArenaPosition → Bool
is_ready c p = ltb 0 p.warming_amount && ltb p.warming_epoch c.current_epoch

abbrev pub matured_config : ArenaConfig → ArenaPosition → ArenaConfig
matured_config c p =
    if is_ready c p
    then record c {
      warming_locked = c.warming_locked - p.warming_amount;
      eligible_locked = c.eligible_locked + p.warming_amount;
    }
    else c

abbrev pub matured : ArenaConfig → ArenaPosition → ArenaPosition
matured c p =
    if is_ready c p
    then record (accrued c p) {
      warming_amount = 0;
      eligible_amount = p.eligible_amount + p.warming_amount;
    }
    else p

module _ (c : ArenaConfig) (p : ArenaPosition) (hc : c.reward_index < u128_limit)
    (hp : p.reward_index_checkpoint < u128_limit)
    (hr : p.reward_accrual_remainder < reward_index_scale) where
  promote_warming-ok :
      {c' : ArenaConfig} {p' : ArenaPosition}
      → promote_warming c p ≡ ok (c', p')
      → (c' ≡ record c {
        warming_locked = c.warming_locked - p.warming_amount;
        eligible_locked = c.eligible_locked + p.warming_amount;
      })
        × (p' ≡ record (accrued c p) {
          warming_amount = 0;
          eligible_amount = p.eligible_amount + p.warming_amount;
        })
        × (position_index p ≤ config_index c)
        × (p.warming_amount ≤ c.warming_locked)
  unfolding promote_warming
  promote_warming-ok h = elim (Result-cases (accrue_rewards c p)) [
    | inl (q, e) ↦ ground (arith, accrue_rewards-ok c p hc hp hr e)
    | inr (x, e) ↦ cc
  ]

  pub mature_warming_if_ready-ok :
      {c' : ArenaConfig} {p' : ArenaPosition}
      → mature_warming_if_ready c p ≡ ok (c', p')
      → (c' ≡ matured_config c p)
        × (p' ≡ matured c p)
        × (is_ready c p ≡ true
            → (position_index p ≤ config_index c) × (p.warming_amount ≤ c.warming_locked))
  unfolding mature_warming_if_ready
  mature_warming_if_ready-ok {c'} {p'} h = ground (arith, promote_warming-ok {c' = c'} {p' = p'})

  pub mature_warming_if_ready_total :
      position_index p ≤ config_index c
      → config_index c < position_index p + u128_limit
      → owed (config_index c) p < u64_limit * reward_index_scale
      → p.warming_amount ≤ c.warming_locked
      → p.eligible_amount ≤ c.eligible_locked
      → c.eligible_locked + c.warming_locked < u64_limit
      → mature_warming_if_ready c p ≡ ok (matured_config c p, matured c p)
  unfolding mature_warming_if_ready promote_warming
  mature_warming_if_ready_total lo hi fits hw he hs =
      ground (arith, accrue_rewards_total c p hc hp hr lo hi fits)
