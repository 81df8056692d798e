-- ===== src/Arena/Payment.antt =====
-- A synchronised position whose pending rewards have been paid out of the pool, or left.
use arena_contract_sol.Prelude.{
  ℕ, ◌+◌, ◌*◌, ◌≤◌, ◌≡◌, some, Bool, true, false, if◌then◌else◌, arith, sym, ap, subst, get_elem?,
}
use arena_contract_sol.Result.{ok}
use arena_contract_sol.State.{ArenaConfig, ArenaPosition, reward_index_scale}
use arena_contract_sol.Rewards.Index.{config_index}
use arena_contract_sol.Rewards.Accrual.{owed}
use arena_contract_sol.Operations.Earn.{record_claim}
use arena_contract_sol.Arena.{Arena, pay_pending}
use arena_contract_sol.Arena.Frame.{IsSound, IsConsistent, Effect, IsSound-at}
use arena_contract_sol.Arena.Sync.{Sync, Sync-IsSound}

-- Only the pending rewards and telemetry change, and the pool pays what they fall by.
pub record Paid (pool : ℕ) (c : ArenaConfig) (p : ArenaPosition) (pool' : ℕ) (c' : ArenaConfig)
    (q : ArenaPosition) : Type 0 where
  pub config : c' ≡ record c { total_rewards_claimed = c'.total_rewards_claimed }
  pub position : q ≡ record p {
    pending_rewards = q.pending_rewards;
    total_rewards_claimed = q.total_rewards_claimed;
    last_activity_ts = q.last_activity_ts;
  }
  pub amount : pool' + p.pending_rewards ≡ pool + q.pending_rewards
  pub no_more : q.pending_rewards ≤ p.pending_rewards

pub pay_pending-Paid :
    (pool : ℕ) (c : ArenaConfig) (p : ArenaPosition) (t : ℕ × ArenaConfig × ArenaPosition)
    → pay_pending pool c p ≡ ok t
    → Paid pool c p t.0 t.1 t.2 × (t.2.pending_rewards ≡ 0)
unfolding pay_pending record_claim
pay_pending-Paid pool c p t e = ground arith

-- Only a full exit is paid.
pub pay_if_full-Paid :
    (full : Bool) (pool : ℕ) (c : ArenaConfig) (p : ArenaPosition)
    (t : ℕ × ArenaConfig × ArenaPosition)
    → (if full then pay_pending pool c p else ok (pool, c, p)) ≡ ok t
    → Paid pool c p t.0 t.1 t.2 × (full ≡ true → t.2.pending_rewards ≡ 0)
pay_if_full-Paid true pool c p t e =
    let (k, empty) = pay_pending-Paid pool c p t e in (k, λ _. empty)
pay_if_full-Paid false pool c p t e = ground arith

module _ (a : Arena) (i : ℕ) (p : ArenaPosition) (h : IsConsistent a)
    (at : get_elem? a.positions i ≡ some p) where
  pub Paid-Effect :
      {c₁ : ArenaConfig} {q : ArenaPosition} {pool : ℕ} {c₂ : ArenaConfig} {r : ArenaPosition}
      → Sync a.config p c₁ q
      → Paid a.pool c₁ q pool c₂ r
      → Effect a p 0 a.vault pool c₂ r
  Paid-Effect {c₁} {q} {pool} {c₂} {r} s k =
      let o = owed_after in
      record {
        config = ground arith;
        index = ground arith;
        sound =
            subst (λ (v : ℕ). IsSound v r) (ap config_index (sym k.config)) (still_sound synced);
        total = ground arith;
        pending = ground arith;
        warming = ground arith;
        eligible = ground arith;
        custody = ground arith;
        supply = omega arith;
        backed = ground (arith, o);
      }
    where
      synced : IsSound (config_index c₁) q
      synced = Sync-IsSound s (IsSound-at a i p h at)

      still_sound : IsSound (config_index c₁) q → IsSound (config_index c₁) r
      still_sound g = ground arith

      owed_after :
          owed (config_index a.config) r + q.pending_rewards * reward_index_scale
          ≡ owed (config_index a.config) q + r.pending_rewards * reward_index_scale
      owed_after = ground arith
