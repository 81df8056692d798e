-- ===== src/Policy/Exposure.antt =====
-- The parameters that a config can be given: the exposure of a lock and the smallest penalty.
use arena_contract_sol.Prelude.{
  ◌⊎◌, false, ltb, ◌==◌, ltb→le, mul-le_right, ℕ, ◌+◌, ◌*◌, ◌≤◌, ◌<◌, ◌^◌, ◌≡◌, ◌↔◌, arith,
}
use arena_contract_sol.Prelude.Int.{pos, ◌+ℤ◌, ◌*ℤ◌}
use arena_contract_sol.Checked.{u64_limit}
use arena_contract_sol.State.{bps_denominator, max_arena_early_exit_penalty_bps}
use arena_contract_sol.Result.{
  ArenaError, invalid_amount, invalid_penalty, invalid_burn, fail_if, fail_if-eq-ok, >>=-elim, ok,
}
use arena_contract_sol.Policy.{
  ConfigParams, assert_rate_charges, assert_config_params, assert_lock_policy,
}

-- Of durations that are non-negative `i64` values, the lock policy accepts exactly the positive ones
-- whose lock covers the activation delay and two epochs.
pub lock_policy_exact :
    (lock delay epoch : ℕ)
    → lock < 2 ^ 63
    → delay < 2 ^ 63
    → epoch < 2 ^ 63
    → (assert_lock_policy (pos lock) (pos delay) (pos epoch) ≡ ok tt)
      ↔ ((0 < lock) × (0 < delay) × (0 < epoch) × (delay + 2 * epoch ≤ lock))
unfolding assert_lock_policy ◌+ℤ◌ ◌*ℤ◌
lock_policy_exact lock delay epoch hl hd he = (λ e. ground arith, λ k. ground arith)

-- A rate is accepted exactly when it is zero or charges a whole unit on the smallest deposit.
charges_exact :
    (least bps : ℕ) (e : ArenaError)
    → least < u64_limit
    → bps ≤ max_arena_early_exit_penalty_bps
    → (assert_rate_charges least bps e ≡ ok tt) ↔ ((bps ≡ 0) ⊎ (bps_denominator ≤ least * bps))
unfolding assert_rate_charges
charges_exact least bps e hl hb = (
  λ k. ground (arith, mul-le_right least bps 5000 hb),
  λ k. ground (arith, mul-le_right least bps 5000 hb),
)

-- What the parameters of a config have to meet.
pub record IsAcceptable (a : ConfigParams) : Type 0 where
  pub policy :
      assert_lock_policy a.min_lock_seconds a.activation_delay_seconds a.epoch_seconds ≡ ok tt
  pub least : 0 < a.min_deposit_amount
  pub rate : a.early_exit_penalty_bps ≤ max_arena_early_exit_penalty_bps
  pub burn_rate : a.burn_penalty_bps ≤ a.early_exit_penalty_bps
  pub charges :
      (a.early_exit_penalty_bps ≡ 0)
      ⊎ (bps_denominator ≤ a.min_deposit_amount * a.early_exit_penalty_bps)
  pub burns :
      (a.burn_penalty_bps ≡ 0) ⊎ (bps_denominator ≤ a.min_deposit_amount * a.burn_penalty_bps)

-- With a smallest deposit that is a `u64`, parameters are accepted exactly when the lock policy
-- accepts the durations, the smallest deposit is positive, the rates are ordered and at most one half, and a rate that is not zero
-- charges at least one unit on the smallest deposit.
pub config_params_exact :
    (a : ConfigParams)
    → a.min_deposit_amount < u64_limit
    → (assert_config_params a ≡ ok tt) ↔ IsAcceptable a
unfolding assert_config_params
config_params_exact a h = (λ e. accepted e, λ k. meets k)
  where
    accepted : assert_config_params a ≡ ok tt → IsAcceptable a
    accepted e =
        >>=-elim (assert_lock_policy a.min_lock_seconds a.activation_delay_seconds a.epoch_seconds)
          _ e
          λ _ policy e.
            >>=-elim (fail_if (a.min_deposit_amount == 0) invalid_amount) _ e λ _ least e.
              >>=-elim
                (fail_if (ltb max_arena_early_exit_penalty_bps a.early_exit_penalty_bps)
                  invalid_penalty)
                _ e
                λ _ rate e.
                  >>=-elim (fail_if (ltb a.early_exit_penalty_bps a.burn_penalty_bps) invalid_burn)
                    _ e
                    λ _ burn_rate e.
                      >>=-elim
                        (assert_rate_charges a.min_deposit_amount a.early_exit_penalty_bps
                          invalid_penalty)
                        _ e
                        λ _ charges burns.
                          let rate_le = ltb→le _ _ (fail_if-eq-ok _ _ rate) in
                          let burn_le = ltb→le _ _ (fail_if-eq-ok _ _ burn_rate) in
                          record {
                            policy = policy;
                            least = ground (arith, fail_if-eq-ok _ _ least);
                            rate = rate_le;
                            burn_rate = burn_le;
                            charges = (charges_exact _ _ invalid_penalty h rate_le).0 charges;
                            burns = (charges_exact _ _ invalid_burn h (omega arith)).0 burns;
                          }

    meets : IsAcceptable a → assert_config_params a ≡ ok tt
    meets k =
        let least : (a.min_deposit_amount == 0) ≡ false = ground (arith, k.least) in
        let rate : ltb max_arena_early_exit_penalty_bps a.early_exit_penalty_bps ≡ false =
          ground (arith, k.rate) in
        let burn_rate : ltb a.early_exit_penalty_bps a.burn_penalty_bps ≡ false =
          ground (arith, k.burn_rate) in
        rw
          (
            k.policy,
            least,
            rate,
            burn_rate,
            (charges_exact a.min_deposit_amount a.early_exit_penalty_bps invalid_penalty h k.rate).1
                k.charges,
          )
          ((charges_exact a.min_deposit_amount a.burn_penalty_bps invalid_burn h
              (omega (arith, k.rate, k.burn_rate))).1
            k.burns)
