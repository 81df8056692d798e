-- ===== src/Arena/Liveness/Steps.antt =====
-- processor.rs, `process_withdraw`: the conditions under which each step of a withdrawal succeeds.
use arena_contract_sol.Prelude.{
  ℕ, ◌+◌, ◌-◌, ◌*◌, ◌≤◌, ◌<◌, ◌≡◌, Bool, true, false, some, List, [], ◌∷◌, arith, refl, ap,
  get_elem?, ◌&&◌, ◌==◌, ltb, if◌then◌else◌, Bool-cases, inl, inr, sum_of, All,
}
use arena_contract_sol.Prelude.Int.{ℤ, ltb_ℤ}
use arena_contract_sol.Result.{
  ok, Succeeds, Succeeds-bind, Succeeds-at, Succeeds-fail_if, fail_if,
  insufficient_position_balance,
}
use arena_contract_sol.Checked.{u64_limit, u128_limit}
use arena_contract_sol.State.{ArenaConfig, ArenaPosition, reward_index_scale, bps_denominator}
use arena_contract_sol.Rewards.{
  accrue_rewards, mature_warming_if_ready, try_commit_rewards_to_index,
}
use arena_contract_sol.Rewards.Index.{
  config_index, position_index, try_commit_rewards_to_index_total, try_commit_rewards_to_index-ok,
}
use arena_contract_sol.Rewards.Accrual.{owed, accrued, accrue_rewards_total}
use arena_contract_sol.Rewards.Maturity.{matured, matured_config, mature_warming_if_ready_total}
use arena_contract_sol.Penalty.{PenaltySplit, penalty_split}
use arena_contract_sol.Penalty.Split.{penalty_split_exact, taken-le, burned-le}
use arena_contract_sol.Stake.{reduce_position_stake}
use arena_contract_sol.Stake.Buckets.{
  from_pending, from_warming, from_eligible, reduce_position_stake_total,
}
use arena_contract_sol.Operations.Exit.{
  eligible_after, withdraw_preview, exit_split, Settlement, settle, withdraw_finish,
}
use arena_contract_sol.Arena.{Arena, pay_pending}
use arena_contract_sol.Arena.Frame.{
  debit_total, IsSound, IsConfigSound, IsConsistent, IsSound-at, warming_at, eligible_at, owed_at,
}
use arena_contract_sol.Arena.Sync.{Sync, Sync-IsSound, Sync-matured}

-- The three totals of stake add up to the total that is locked.
pub sums_add_up :
    (v : ℕ) (ps : List ArenaPosition)
    → All (IsSound v) ps
    → sum_of (λ p. p.locked_amount) ps
      ≡ sum_of (λ p. p.pending_activation_amount) ps
        + sum_of (λ p. p.warming_amount) ps
        + sum_of (λ p. p.eligible_amount) ps
sums_add_up v [] h = refl
sums_add_up v (p ∷ ps) h = omega (arith, h.0.buckets, sums_add_up v ps h.1)

pub totals_add_up :
    (a : Arena)
    → IsConsistent a
    → a.config.total_locked
      ≡ a.config.pending_activation_locked + a.config.warming_locked + a.config.eligible_locked
totals_add_up a h = omega (
  arith,
  sums_add_up (config_index a.config) a.positions h.sound,
  h.totals.total,
  h.totals.pending,
  h.totals.warming,
  h.totals.eligible,
)

pub eligible_after_total :
    (c : ArenaConfig) (p : ArenaPosition) (amount : ℕ)
    → from_eligible p amount ≤ c.eligible_locked
    → Succeeds (eligible_after c p amount)
unfolding eligible_after
eligible_after_total c p amount h = (c.eligible_locked - from_eligible p amount, ground arith)

-- Maturing leaves a position no further behind the index.
pub matured-behind :
    (c : ArenaConfig) (p : ArenaPosition)
    → config_index c < position_index p + u128_limit
    → config_index (matured_config c p) < position_index (matured c p) + u128_limit
matured-behind c p h = ground arith

module _ (a : Arena) (i : ℕ) (p : ArenaPosition) (h : IsConsistent a)
    (at : get_elem? a.positions i ≡ some p)
    (near : config_index a.config < position_index p + u128_limit) where
  pub owed-fits : owed (config_index a.config) p < u64_limit * reward_index_scale
  owed-fits = omega (arith, owed_at a i p h at, h.supply)

  pub Sync-matured_at : Sync a.config p (matured_config a.config p) (matured a.config p)
  Sync-matured_at =
      Sync-matured a.config p h.config.index (IsSound-at a i p h at) (warming_at a i p h at)

  pub mature_succeeds :
      mature_warming_if_ready a.config p ≡ ok (matured_config a.config p, matured a.config p)
  mature_succeeds =
      let g = IsSound-at a i p h at in
      mature_warming_if_ready_total a.config p h.config.index g.checkpoint g.carry g.behind near
        owed-fits (warming_at a i p h at) (eligible_at a i p h at)
        (omega (arith, totals_add_up a h, h.custody, h.supply))

  pub accrue_succeeds :
      accrue_rewards (matured_config a.config p) (matured a.config p)
      ≡ ok (accrued (matured_config a.config p) (matured a.config p))
  accrue_succeeds =
      let s = Sync-matured_at in
      let g = Sync-IsSound s (IsSound-at a i p h at) in
      let same : config_index (matured_config a.config p) ≡ config_index a.config = omega arith in
      accrue_rewards_total (matured_config a.config p) (matured a.config p)
        (omega (arith, s.index, h.config.index)) g.checkpoint g.carry g.behind
        (matured-behind a.config p near)
        (omega (arith, ap (λ (v : ℕ). owed v (matured a.config p)) same, s.same_owed, owed-fits))

  pub preview-Succeeds :
      (amount : ℕ) → amount ≤ p.locked_amount → Succeeds (withdraw_preview a.config p amount)
  unfolding withdraw_preview
  preview-Succeeds amount enough =
      let c₁ = matured_config a.config p in
      let q = matured a.config p in
      let s = Sync-matured_at in
      let g = Sync-IsSound s (IsSound-at a i p h at) in
      let covered : q.eligible_amount ≤ c₁.eligible_locked =
        omega (arith, s.eligible, eligible_at a i p h at) in
      Succeeds-bind (fail_if (ltb p.locked_amount amount) insufficient_position_balance) _
        (Succeeds-fail_if _ _ (ground arith))
        λ _ _. Succeeds-at (mature_warming_if_ready a.config p) _ mature_succeeds (
          Succeeds-bind (eligible_after c₁ q amount) _
            (eligible_after_total c₁ q amount
              (omega (arith, enough, g.buckets, s.same_locked, covered)))
            λ left _. Succeeds-at (accrue_rewards c₁ q) _ accrue_succeeds (_, refl))

pub early_split_total :
    (now : ℤ) (amount : ℕ) (c : ArenaConfig) (p : ArenaPosition)
    → IsConfigSound c
    → 0 < c.early_exit_penalty_bps
    → 0 < amount
    → amount < u64_limit
    → p.penalty_remainder < bps_denominator
    → p.burn_remainder < bps_denominator
    → (s : PenaltySplit) × (penalty_split amount c.early_exit_penalty_bps c.burn_penalty_bps
          p.penalty_remainder p.burn_remainder
        ≡ ok s)
      × (s.reward + s.burn ≤ amount)
early_split_total now amount c p h rate pos fits hp hb = (
  _,
  penalty_split_exact amount c.early_exit_penalty_bps c.burn_penalty_bps p.penalty_remainder
      p.burn_remainder pos fits rate h.rate h.burn_rate hp hb,
  omega (
    arith,
    taken-le amount c.early_exit_penalty_bps p.penalty_remainder pos h.rate hp,
    burned-le amount c.early_exit_penalty_bps c.burn_penalty_bps p.penalty_remainder
        p.burn_remainder,
  ),
)

-- The split of an exit's penalty always succeeds, and takes no more than the amount.
pub exit_split_total :
    (now : ℤ) (amount : ℕ) (c : ArenaConfig) (p : ArenaPosition)
    → IsConfigSound c
    → 0 < amount
    → amount < u64_limit
    → p.penalty_remainder < bps_denominator
    → p.burn_remainder < bps_denominator
    → (s : PenaltySplit) × (exit_split now amount c p ≡ ok s) × (s.reward + s.burn ≤ amount)
unfolding exit_split
exit_split_total now amount c p h pos fits hp hb =
    elim (Bool-cases (ltb_ℤ now p.unlock_ts && ltb 0 c.early_exit_penalty_bps)) [
      | inl early ↦
          let (s, e, part) = early_split_total now amount c p h (ground arith) pos fits hp hb in
          (s, rw early e, part)
      | inr late ↦ (
        record { reward = 0; burn = 0; penalty_remainder = 0; burn_remainder = 0 },
        rw late refl,
        omega arith,
      )
    ]

pub settle_total :
    (amount left : ℕ) (split : PenaltySplit)
    → 0 < amount
    → amount < u64_limit
    → split.reward + split.burn ≤ amount
    → Succeeds (settle amount left split)
unfolding settle
settle_total amount left split pos fits part = elim (Bool-cases (left == 0)) [
  | inl bare ↦ (
    record {
      reward_penalty = 0;
      burned = split.burn + split.reward;
      penalty = 0 + (split.burn + split.reward);
      returned = amount - (0 + (split.burn + split.reward));
    },
    ground arith,
  )
  | inr staked ↦ (
    record {
      reward_penalty = split.reward;
      burned = split.burn;
      penalty = split.reward + split.burn;
      returned = amount - (split.reward + split.burn);
    },
    ground arith,
  )
]

pub finish_total :
    (now : ℤ) (amount left : ℕ) (s : Settlement) (c : ArenaConfig) (p : ArenaPosition)
    → c.reward_index < u128_limit
    → s.reward_penalty < u64_limit
    → c.reward_index_generation + 1 < u64_limit
    → from_pending p amount ≤ c.pending_activation_locked
    → from_warming p amount ≤ c.warming_locked
    → from_eligible p amount ≤ p.eligible_amount
    → from_eligible p amount ≤ c.eligible_locked
    → amount ≤ p.locked_amount
    → amount ≤ c.total_locked
    → Succeeds (withdraw_finish now amount left s c p)
unfolding withdraw_finish
finish_total now amount left s c p hc hs hg a₁ a₂ a₃ a₄ a₅ a₆ =
    Succeeds-bind (try_commit_rewards_to_index c s.reward_penalty left) _
      (try_commit_rewards_to_index_total c s.reward_penalty left hg)
      λ c₁ tried.
        let (d, k) = try_commit_rewards_to_index-ok c s.reward_penalty left hc hs tried in
        Succeeds-at (reduce_position_stake c₁ p amount) _
          (reduce_position_stake_total c₁ p amount
            (omega (arith, a₁, ap (λ r. r.pending_activation_locked) k.config))
            (omega (arith, a₂, ap (λ r. r.warming_locked) k.config)) a₃
            (omega (arith, a₄, ap (λ r. r.eligible_locked) k.config)) a₅
            (omega (arith, a₆, ap (λ r. r.total_locked) k.config)))
          (_, refl)

-- The payment of a full exit is covered by the pool.
pub payment_total :
    (full : Bool) (pool : ℕ) (c : ArenaConfig) (p : ArenaPosition)
    → p.pending_rewards ≤ pool
    → Succeeds (if full then pay_pending pool c p else ok (pool, c, p))
unfolding pay_pending
payment_total false pool c p h = (_, refl)
payment_total true pool c p h = elim (Bool-cases (p.pending_rewards == 0)) [
  | inl none_due ↦ rw none_due (_, refl)
  | inr due ↦ rw (due, debit_total pool p.pending_rewards h) (_, refl)
]
