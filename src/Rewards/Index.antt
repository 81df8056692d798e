-- ===== src/Rewards/Index.antt =====
-- The reward index of processor.rs with its generation counter, read as one unbounded number.
use arena_contract_sol.Prelude.{
  ℕ, ◌+◌, ◌-◌, ◌*◌, ◌/◌, ◌%◌, ◌≤◌, ◌<◌, ◌≡◌, ◌&&◌, arith, ltb, leb, if◌then◌else◌, div-eq-zero,
  div-pos, div_bounds, le-mul_pos, Bool-cases, inl, inr, ◌||◌, ◌==◌, subst, refl,
}
use arena_contract_sol.Result.{
  Result, ok, err, fail, math_overflow, invalid_amount, >>=-eq-ok, ok-injective, Succeeds,
  Succeeds-bind,
}
use arena_contract_sol.Checked.{u64_limit, u128_limit}
use arena_contract_sol.State.{ArenaConfig, ArenaPosition, reward_index_scale}
use arena_contract_sol.Rewards.{
  reward_index_delta, add_reward_index, try_commit_rewards_to_index, commit_rewards_to_index,
  reward_index_delta_since, count_distributed, commit_if_ok,
}

-- The index that the generation counter and the wrapped `u128` stand for.
abbrev pub full_index : ℕ → ℕ → ℕ
full_index generation index = generation * u128_limit + index

abbrev pub config_index : ArenaConfig → ℕ
config_index c = full_index c.reward_index_generation c.reward_index

abbrev pub position_index : ArenaPosition → ℕ
position_index p = full_index p.reward_index_generation_checkpoint p.reward_index_checkpoint

-- Where the index and the checkpoint are `u128` values, the growth of the index since the checkpoint
-- is the exact difference of the two full indices, and it is refused exactly when that difference is negative or does not fit in a `u128`.
pub delta_since_exact :
    (c : ArenaConfig) (p : ArenaPosition)
    → c.reward_index < u128_limit
    → p.reward_index_checkpoint < u128_limit
    → reward_index_delta_since c p ≡ (
        if leb (position_index p) (config_index c)
          && ltb (config_index c - position_index p) u128_limit
        then ok (config_index c - position_index p)
        else fail math_overflow)
unfolding reward_index_delta_since
delta_since_exact c p hc hp = ground arith

pub delta_since-ok :
    (c : ArenaConfig) (p : ArenaPosition) {d : ℕ}
    → c.reward_index < u128_limit
    → p.reward_index_checkpoint < u128_limit
    → reward_index_delta_since c p ≡ ok d
    → position_index p + d ≡ config_index c
delta_since-ok c p hc hp h = ground (arith, delta_since_exact c p hc hp)

-- For a `u64` amount and a positive stake no step overflows: the result is the floor of the exact
-- quotient, and it is refused exactly when that floor is 0.
pub reward_index_delta_exact :
    (amount eligible : ℕ)
    → amount < u64_limit
    → 0 < eligible
    → reward_index_delta amount eligible ≡ (
        if ltb (amount * reward_index_scale) eligible
        then fail invalid_amount
        else ok (amount * reward_index_scale / eligible))
unfolding reward_index_delta
reward_index_delta_exact amount eligible ha he = ground (
  arith,
  div-eq-zero (amount * reward_index_scale) eligible,
  div-pos (amount * reward_index_scale) eligible he,
)

pub reward_index_delta-ok :
    (amount eligible : ℕ) {d : ℕ}
    → reward_index_delta amount eligible ≡ ok d
    → (d * eligible ≤ amount * reward_index_scale) × (0 < d) × (0 < amount) × (0 < eligible)
unfolding reward_index_delta
reward_index_delta-ok amount eligible h =
    ground (arith, div_bounds (amount * reward_index_scale) eligible)

pub add_reward_index-ok :
    (c : ArenaConfig) {c' : ArenaConfig} (d : ℕ)
    → c.reward_index < u128_limit
    → d < u128_limit
    → add_reward_index c d ≡ ok c'
    → c' ≡ record c {
      reward_index = c'.reward_index;
      reward_index_generation = c'.reward_index_generation;
    }
      × (config_index c' ≡ config_index c + d)
      × (c'.reward_index < u128_limit)
unfolding add_reward_index
add_reward_index-ok c d hc hd h = ground arith

pub add_reward_index_total :
    (c : ArenaConfig) (d : ℕ)
    → c.reward_index_generation + 1 < u64_limit
    → add_reward_index c d
      ≡ ok (record c {
        reward_index = (c.reward_index + d) % u128_limit;
        reward_index_generation =
            c.reward_index_generation + (if leb u128_limit (c.reward_index + d) then 1 else 0);
      })
unfolding add_reward_index
add_reward_index_total c d hg = ground arith

-- What adding rewards to the index does to a config: the index grows by no more than the rewards
-- can back for the given stake.
pub record Indexed (c : ArenaConfig) (amount eligible d : ℕ) (c' : ArenaConfig) : Type 0 where
  pub config : c' ≡ record c {
    reward_index = c'.reward_index;
    reward_index_generation = c'.reward_index_generation;
    total_rewards_distributed = c'.total_rewards_distributed;
  }
  pub grows : config_index c' ≡ config_index c + d
  pub bound : c'.reward_index < u128_limit
  pub backed : d * eligible ≤ amount * reward_index_scale

module _ (c : ArenaConfig) (amount eligible : ℕ) (hc : c.reward_index < u128_limit)
    (ha : amount < u64_limit) where
  committed-Indexed :
      {d : ℕ} {c₁ : ArenaConfig}
      → reward_index_delta amount eligible ≡ ok d
      → add_reward_index c d ≡ ok c₁
      → Indexed c amount eligible d (count_distributed amount c₁)
  committed-Indexed {d} {c₁} delta added =
      let (bound, _, _, some_stake) = reward_index_delta-ok amount eligible delta in
      let k =
        add_reward_index-ok c d hc (omega (arith, le-mul_pos eligible d some_stake, bound)) added in
      record {
        config = ground (arith, k);
        grows = ground (arith, k);
        bound = ground (arith, k);
        backed = bound;
      }

  pub commit_rewards_to_index-ok :
      {c' : ArenaConfig}
      → commit_rewards_to_index c amount eligible ≡ ok c'
      → (d : ℕ) × Indexed c amount eligible d c'
  unfolding commit_rewards_to_index
  commit_rewards_to_index-ok e =
      let (d, delta, e₁) = >>=-eq-ok (reward_index_delta amount eligible) _ e in
      let (c₁, added, e₂) = >>=-eq-ok (add_reward_index c d) _ e₁ in
      (d, subst (Indexed c amount eligible d) (ok-injective _ _ e₂) (committed-Indexed delta added))

  unindexed : Indexed c amount eligible 0 c
  unindexed = record { config = refl; grows = omega arith; bound = hc; backed = omega arith }

  pub try_commit_rewards_to_index-ok :
      {c' : ArenaConfig}
      → try_commit_rewards_to_index c amount eligible ≡ ok c'
      → (d : ℕ) × Indexed c amount eligible d c'
  unfolding try_commit_rewards_to_index
  try_commit_rewards_to_index-ok {c'} e = elim (Bool-cases (amount == 0 || eligible == 0)) [
    | inl skip ↦
        (0, subst (Indexed c amount eligible 0) (ok-injective _ _ (rw skip at e)) unindexed)
    | inr go ↦ commit_if_ok-ok (reward_index_delta amount eligible) refl (rw go at e)
  ]
    where
      commit_if_ok-ok :
          (r : Result ℕ)
          → reward_index_delta amount eligible ≡ r
          → commit_if_ok c amount r ≡ ok c'
          → (d : ℕ) × Indexed c amount eligible d c'
      commit_if_ok-ok (ok d) delta e =
          let (c₁, added, e₂) = >>=-eq-ok (add_reward_index c d) _ e in
          (
            d,
            subst (Indexed c amount eligible d) (ok-injective _ _ e₂)
                (committed-Indexed delta added),
          )
      commit_if_ok-ok (err x) delta e =
          (0, subst (Indexed c amount eligible 0) (ok-injective _ _ e) unindexed)

-- Trying to commit rewards fails only when the generation counter is full.
pub try_commit_rewards_to_index_total :
    (c : ArenaConfig) (amount eligible : ℕ)
    → c.reward_index_generation + 1 < u64_limit
    → Succeeds (try_commit_rewards_to_index c amount eligible)
unfolding try_commit_rewards_to_index
try_commit_rewards_to_index_total c amount eligible hg =
    elim (Bool-cases (amount == 0 || eligible == 0)) [
      | inl skip ↦ rw skip (c, refl)
      | inr go ↦ rw go (commit_if_ok_total (reward_index_delta amount eligible))
    ]
  where
    commit_if_ok_total : (r : Result ℕ) → Succeeds (commit_if_ok c amount r)
    commit_if_ok_total (ok d) =
        Succeeds-bind (add_reward_index c d) _ (_, add_reward_index_total c d hg)
          (λ c' e. (_, refl))
    commit_if_ok_total (err x) = (c, refl)
