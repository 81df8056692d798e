-- ===== src/Arena/Clock.antt =====
-- processor.rs, `process_activate_position`: the time that an activation waits for, and the epoch
-- from which activated stake matures.
use arena_contract_sol.Prelude.{
  ℕ, ◌+◌, ◌<◌, ◌≡◌, ◌⊎◌, some, true, false, ◌&&◌, ◌==◌, arith, Bool-cases, ==_iff, inl, inr, sym,
  ap, subst, ◌∙◌, get_elem?, set,
}
use arena_contract_sol.Prelude.Int.{ℤ, leb_ℤ, ltb_ℤ}
use arena_contract_sol.Result.{
  ok, ok_or, ok-injective, ok_or-eq-ok, >>=-elim, >>=-eq-ok, fail_if, fail_if-eq-ok,
  activation_not_ready, invalid_amount, math_overflow,
}
use arena_contract_sol.Checked.{checked_add_u64, checked_sub}
use arena_contract_sol.State.{ArenaConfig, ArenaPosition}
use arena_contract_sol.Rewards.{accrue_rewards, mature_warming_if_ready}
use arena_contract_sol.Rewards.Maturity.{is_ready}
use arena_contract_sol.Arena.{Arena, put, position_at, activate_at}
use arena_contract_sol.Operations.Lock.{activate_sync_only, activate_pending, activate_update}
use arena_contract_sol.Arena.Cadence.{not_before}
use arena_contract_sol.Arena.Maturing.{
  ripe, unripe, Matured, accrue_rewards-Accrued, mature_warming_if_ready-Matured,
}

-- What an activation does: the stake that is ripe becomes eligible, and that which is pending
-- becomes warming, if its delay has passed; it matures with the oldest stake that still waits, and
-- in no case before the next epoch.
pub record IsActivation (now : ℤ) (c : ArenaConfig) (p : ArenaPosition) (c' : ArenaConfig)
    (q : ArenaPosition) : Type 0 where
  pub delay : (p.pending_activation_amount ≡ 0) ⊎ (leb_ℤ p.activation_ts now ≡ true)
  pub pending : q.pending_activation_amount ≡ 0
  pub warming : q.warming_amount ≡ unripe c p + p.pending_activation_amount
  pub eligible : q.eligible_amount ≡ p.eligible_amount + ripe c p
  pub epoch :
      (q.warming_amount ≡ 0)
      ⊎ (((unripe c p ≡ 0) × (q.warming_epoch ≡ c.current_epoch))
          ⊎ ((0 < unripe c p) × (q.warming_epoch ≡ p.warming_epoch)))
  pub waits : is_ready c' q ≡ false
  pub checkpoint : q.reward_index_checkpoint ≡ c.reward_index
  pub generation : q.reward_index_generation_checkpoint ≡ c.reward_index_generation
  pub active : q.last_activity_ts ≡ now
  pub position : q ≡ record p {
    pending_activation_amount = q.pending_activation_amount;
    warming_amount = q.warming_amount;
    warming_epoch = q.warming_epoch;
    eligible_amount = q.eligible_amount;
    pending_rewards = q.pending_rewards;
    reward_accrual_remainder = q.reward_accrual_remainder;
    reward_index_checkpoint = q.reward_index_checkpoint;
    reward_index_generation_checkpoint = q.reward_index_generation_checkpoint;
    last_activity_ts = q.last_activity_ts;
  }
  pub pending_locked :
      c'.pending_activation_locked + p.pending_activation_amount ≡ c.pending_activation_locked
  pub warming_locked : c'.warming_locked + ripe c p ≡ c.warming_locked + p.pending_activation_amount
  pub eligible_locked : c'.eligible_locked ≡ c.eligible_locked + ripe c p
  pub config : c' ≡ record c {
    pending_activation_locked = c'.pending_activation_locked;
    warming_locked = c'.warming_locked;
    eligible_locked = c'.eligible_locked;
  }

sync_only-IsActivation :
    (now : ℤ) (c c₁ : ArenaConfig) (p p₁ : ArenaPosition) (t : ArenaConfig × ArenaPosition)
    → Matured c p c₁ p₁
    → p₁.pending_activation_amount ≡ 0
    → activate_sync_only now c₁ p₁ ≡ ok t
    → IsActivation now c p t.0 t.1
unfolding activate_sync_only
sync_only-IsActivation now c c₁ p p₁ t m none_pending e =
    >>=-elim
      (fail_if (p₁.warming_amount == 0 && p₁.eligible_amount == 0 && p₁.locked_amount == 0)
        invalid_amount)
      _ e
      λ _ _ e. >>=-elim (accrue_rewards c₁ p₁) _ e λ q acc done.
        let same = (accrue_rewards-Accrued c₁ p₁ q acc).position in
        let pair = ok-injective _ _ done in
        record {
          delay = ground (arith, m.position, none_pending);
          pending = ground (arith, same, pair, none_pending);
          warming = ground (arith, same, pair, m.warming, m.position, none_pending);
          eligible = ground (arith, same, pair, m.eligible);
          epoch = ground (arith, same, pair, m.warming, m.position);
          waits = ground (arith, same, pair, m.warming, m.position, m.config);
          checkpoint = ground (arith, same, pair, m.config);
          generation = ground (arith, same, pair, m.config);
          active = ground (arith, pair);
          position = ground (arith, same, pair, m.position);
          pending_locked = ground (arith, pair, m.config, m.position, none_pending);
          warming_locked = ground (arith, pair, m.warming_locked, m.position, none_pending);
          eligible_locked = ground (arith, pair, m.eligible_locked);
          config = ground (arith, pair, m.config);
        }

pending-IsActivation :
    (now : ℤ) (c c₁ : ArenaConfig) (p p₁ : ArenaPosition) (t : ArenaConfig × ArenaPosition)
    → Matured c p c₁ p₁
    → activate_pending now c₁ p₁ ≡ ok t
    → IsActivation now c p t.0 t.1
unfolding activate_pending
pending-IsActivation now c c₁ p p₁ t m e =
    >>=-elim (fail_if (ltb_ℤ now p₁.activation_ts) activation_not_ready) _ e λ _ after e.
      >>=-elim (accrue_rewards c₁ p₁) _ e λ q acc e.
        >>=-elim
          (ok_or (checked_add_u64 q.warming_amount q.pending_activation_amount) math_overflow) _ e
          λ n a e.
            >>=-elim
              (ok_or (checked_sub c₁.pending_activation_locked q.pending_activation_amount)
                math_overflow)
              _ e
              λ k b e.
                >>=-elim
                  (ok_or (checked_add_u64 c₁.warming_locked q.pending_activation_amount)
                    math_overflow)
                  _ e
                  λ l d done.
                    let same = (accrue_rewards-Accrued c₁ p₁ q acc).position in
                    let pair = ok-injective _ _ done in
                    record {
                      delay = inr (
                          rw (sym (ap (λ (x : ArenaPosition). x.activation_ts) m.position))
                            (not_before p₁.activation_ts now (fail_if-eq-ok _ _ after)));
                      pending = ground (arith, pair);
                      warming = ground (arith, same, pair, a, m.warming, m.position);
                      eligible = ground (arith, same, pair, m.eligible);
                      epoch = ground (arith, same, pair, m.warming, m.position, m.config);
                      waits = ground (arith, same, pair, m.warming, m.position, m.config);
                      checkpoint = ground (arith, same, pair, m.config);
                      generation = ground (arith, same, pair, m.config);
                      active = ground (arith, pair);
                      position = ground (arith, same, pair, m.position);
                      pending_locked = ground (arith, same, pair, b, m.config, m.position);
                      warming_locked = ground (arith, same, pair, d, m.warming_locked, m.position);
                      eligible_locked = ground (arith, pair, m.eligible_locked);
                      config = ground (arith, pair, m.config);
                    }

pub activate_update-IsActivation :
    (now : ℤ) (c : ArenaConfig) (p : ArenaPosition) (t : ArenaConfig × ArenaPosition)
    → activate_update now c p ≡ ok t
    → IsActivation now c p t.0 t.1
unfolding activate_update
activate_update-IsActivation now c p t e =
    let ((c₁, p₁), m, e₁) = >>=-eq-ok (mature_warming_if_ready c p) _ e in
    let k = mature_warming_if_ready-Matured c c₁ p p₁ m in
    elim (Bool-cases (p₁.pending_activation_amount == 0)) [
      | inl none_pending ↦
          sync_only-IsActivation now c c₁ p p₁ t k
            ((==_iff p₁.pending_activation_amount 0).0 none_pending) (rw none_pending at e₁)
      | inr some_pending ↦ pending-IsActivation now c c₁ p p₁ t k (rw some_pending at e₁)
    ]

-- An activation of the `i`-th position of an arena.
pub record IsActivationAt (now : ℤ) (i : ℕ) (a b : Arena) : Type 0 where
  pub before : ArenaPosition
  pub after : ArenaPosition
  pub at : get_elem? a.positions i ≡ some before
  pub activation : IsActivation now a.config before b.config after
  pub rest : b ≡ record a { config = b.config; positions = set a.positions i after }

pub activate_at-IsActivationAt :
    (now : ℤ) (i : ℕ) (a b : Arena) → activate_at now i a ≡ ok b → IsActivationAt now i a b
unfolding activate_at
activate_at-IsActivationAt now i a b e = >>=-elim (position_at a i) _ e λ p found e.
    >>=-elim (activate_update now a.config p) _ e λ t updated done.
      let same : put a i a.vault a.pool t ≡ b = ok-injective _ _ done in
      let c_is : t.0 ≡ b.config = ap (λ (x : Arena). x.config) same in
      record {
        before = p;
        after = t.1;
        at = ok_or-eq-ok _ _ found;
        activation =
            subst (λ d. IsActivation now a.config p d t.1) c_is
              (activate_update-IsActivation now a.config p t updated);
        rest =
            sym same
            ∙ ap (λ (d : ArenaConfig). record a { config = d; positions = set a.positions i t.1 })
                c_is;
      }
