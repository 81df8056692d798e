-- ===== src/Arena/Stranded.antt =====
-- processor.rs, `accrue_rewards`: a position that is 2 ^ 128 or more behind the index.
use arena_contract_sol.Prelude.{◌+◌, ◌≤◌, ◌<◌, ◌≡◌, arith}
use arena_contract_sol.Result.{fail, math_overflow}
use arena_contract_sol.Checked.{u128_limit}
use arena_contract_sol.State.{ArenaConfig, ArenaPosition}
use arena_contract_sol.Rewards.{accrue_rewards, mature_warming_if_ready, promote_warming}
use arena_contract_sol.Rewards.Index.{config_index, position_index, delta_since_exact}
use arena_contract_sol.Operations.Lock.{sync_position}

module _ (c : ArenaConfig) (p : ArenaPosition) (hc : c.reward_index < u128_limit)
    (hp : p.reward_index_checkpoint < u128_limit)
    (far : position_index p + u128_limit ≤ config_index c) where
  stranded_accrual : accrue_rewards c p ≡ fail math_overflow
  unfolding accrue_rewards
  stranded_accrual = ground (arith, delta_since_exact c p hc hp)

  -- Where the index and the checkpoint are `u128` values and the full index is 2 ^ 128 or more ahead
  -- of the position's, also within one generation step, the position's synchronisation fails with
  -- `MathOverflow`, with stake that earns or without.
  pub sync_position_stranded : sync_position c p ≡ fail math_overflow
  unfolding sync_position mature_warming_if_ready promote_warming
  sync_position_stranded = ground (arith, stranded_accrual)
