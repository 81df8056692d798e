-- ===== src/Arena/Frame.antt =====
-- The invariant of an arena, and the rule by which an action on one position keeps it.
use arena_contract_sol.Prelude.{
  ℕ, ◌+◌, ◌-◌, ◌*◌, ◌≤◌, ◌<◌, ◌≡◌, List, [], ◌∷◌, some, arith, sum_of, All, get_elem?, set,
  sum_of-set, term-le-sum_of, All-get, All-set, mul-add-sub, mul-sub_add, ap,
}
use arena_contract_sol.Result.{ok}
use arena_contract_sol.Checked.{u64_limit, u128_limit}
use arena_contract_sol.State.{
  ArenaConfig, ArenaPosition, reward_index_scale, bps_denominator, max_arena_early_exit_penalty_bps,
}
use arena_contract_sol.Rewards.Index.{config_index, position_index}
use arena_contract_sol.Rewards.Accrual.{owed}
use arena_contract_sol.Arena.{Arena, put, supply_check, debit}

-- A position that is sound when the full reward index is `v`.
pub record IsSound (v : ℕ) (p : ArenaPosition) : Type 0 where
  pub buckets : p.locked_amount ≡ p.pending_activation_amount + p.warming_amount + p.eligible_amount
  pub carry : p.reward_accrual_remainder < reward_index_scale
  pub checkpoint : p.reward_index_checkpoint < u128_limit
  pub behind : position_index p ≤ v
  pub penalty_carry : p.penalty_remainder < bps_denominator
  pub burn_carry : p.burn_remainder < bps_denominator
  pub settled : p.locked_amount ≡ 0 → (p.pending_rewards ≡ 0) × (p.reward_accrual_remainder ≡ 0)

-- The totals of the config are the sums over the positions.
pub record Totals (c : ArenaConfig) (ps : List ArenaPosition) : Type 0 where
  pub total : c.total_locked ≡ sum_of (λ p. p.locked_amount) ps
  pub pending : c.pending_activation_locked ≡ sum_of (λ p. p.pending_activation_amount) ps
  pub warming : c.warming_locked ≡ sum_of (λ p. p.warming_amount) ps
  pub eligible : c.eligible_locked ≡ sum_of (λ p. p.eligible_amount) ps

pub record IsConfigSound (c : ArenaConfig) : Type 0 where
  pub index : c.reward_index < u128_limit
  pub rate : c.early_exit_penalty_bps ≤ max_arena_early_exit_penalty_bps
  pub burn_rate : c.burn_penalty_bps ≤ c.early_exit_penalty_bps
  pub no_debt : c.pending_rewards ≡ 0

pub record IsConsistent (a : Arena) : Type 0 where
  pub config : IsConfigSound a.config
  pub sound : All (IsSound (config_index a.config)) a.positions
  pub totals : Totals a.config a.positions
  pub custody : a.config.total_locked ≤ a.vault
  pub supply : a.vault + a.pool < u64_limit
  pub solvent : sum_of (owed (config_index a.config)) a.positions ≤ a.pool * reward_index_scale

pub IsSound-later : {v : ℕ} (d : ℕ) {p : ArenaPosition} → IsSound v p → IsSound (v + d) p
IsSound-later d h = record {
  buckets = h.buckets;
  carry = h.carry;
  checkpoint = h.checkpoint;
  behind = omega arith;
  penalty_carry = h.penalty_carry;
  burn_carry = h.burn_carry;
  settled = h.settled;
}

pub All-IsSound-later :
    (v d : ℕ) (ps : List ArenaPosition) → All (IsSound v) ps → All (IsSound (v + d)) ps
All-IsSound-later v d [] h = tt
All-IsSound-later v d (p ∷ ps) h = (IsSound-later d h.0, All-IsSound-later v d ps h.1)

-- When the index grows by `d`, every position is owed `d` more for each eligible unit.
pub owed-later :
    (v d : ℕ) (p : ArenaPosition)
    → position_index p ≤ v
    → owed (v + d) p ≡ owed v p + p.eligible_amount * d
owed-later v d p h = omega (arith, mul-add-sub p.eligible_amount v (position_index p) d h)

pub sum_of-owed-later :
    (v d : ℕ) (ps : List ArenaPosition)
    → All (IsSound v) ps
    → sum_of (owed (v + d)) ps ≡ sum_of (owed v) ps + sum_of (λ p. p.eligible_amount) ps * d
sum_of-owed-later v d [] h = omega arith
sum_of-owed-later v d (p ∷ ps) h =
    omega (arith, owed-later v d p h.0.behind, sum_of-owed-later v d ps h.1)

-- What an action does to a config and one position, when the index grows by `d` and the balances
-- become `vault` and `pool`.
pub record Effect (a : Arena) (p : ArenaPosition) (d vault pool : ℕ) (c : ArenaConfig)
    (q : ArenaPosition) : Type 0 where
  pub config : IsConfigSound c
  pub index : config_index c ≡ config_index a.config + d
  pub sound : IsSound (config_index c) q
  pub total : c.total_locked + p.locked_amount ≡ a.config.total_locked + q.locked_amount
  pub pending :
      c.pending_activation_locked + p.pending_activation_amount
      ≡ a.config.pending_activation_locked + q.pending_activation_amount
  pub warming : c.warming_locked + p.warming_amount ≡ a.config.warming_locked + q.warming_amount
  pub eligible :
      c.eligible_locked + p.eligible_amount ≡ a.config.eligible_locked + q.eligible_amount
  pub custody : c.total_locked ≤ vault
  pub supply : vault + pool < u64_limit
  pub backed :
      owed (config_index c) q
        + d * (a.config.eligible_locked - p.eligible_amount)
        + a.pool * reward_index_scale
      ≤ owed (config_index a.config) p + pool * reward_index_scale

module _ (a : Arena) (i : ℕ) (p : ArenaPosition) (h : IsConsistent a)
    (at : get_elem? a.positions i ≡ some p) where
  -- The position that an action reads is sound, and its stake is part of the totals.
  pub IsSound-at : IsSound (config_index a.config) p
  IsSound-at = All-get (IsSound (config_index a.config)) a.positions i p h.sound at

  pub eligible_at : p.eligible_amount ≤ a.config.eligible_locked
  eligible_at =
      omega (arith, term-le-sum_of (λ q. q.eligible_amount) a.positions i p at, h.totals.eligible)

  pub warming_at : p.warming_amount ≤ a.config.warming_locked
  warming_at =
      omega (arith, term-le-sum_of (λ q. q.warming_amount) a.positions i p at, h.totals.warming)

  pub pending_at : p.pending_activation_amount ≤ a.config.pending_activation_locked
  pending_at = omega (
    arith,
    term-le-sum_of (λ q. q.pending_activation_amount) a.positions i p at,
    h.totals.pending,
  )

  pub locked_at : p.locked_amount ≤ a.config.total_locked
  locked_at =
      omega (arith, term-le-sum_of (λ q. q.locked_amount) a.positions i p at, h.totals.total)

  pub owed_at : owed (config_index a.config) p ≤ a.pool * reward_index_scale
  owed_at =
      omega (arith, term-le-sum_of (owed (config_index a.config)) a.positions i p at, h.solvent)

  module _ {d vault pool : ℕ} {c : ArenaConfig} {q : ArenaPosition}
      (e : Effect a p d vault pool c q) where
    put-Totals : Totals c (set a.positions i q)
    put-Totals = record {
      total =
          omega (
            arith,
            sum_of-set (λ r. r.locked_amount) a.positions i p q at,
            e.total,
            h.totals.total,
          );
      pending = omega (
        arith,
        sum_of-set (λ r. r.pending_activation_amount) a.positions i p q at,
        e.pending,
        h.totals.pending,
      );
      warming = omega (
        arith,
        sum_of-set (λ r. r.warming_amount) a.positions i p q at,
        e.warming,
        h.totals.warming,
      );
      eligible = omega (
        arith,
        sum_of-set (λ r. r.eligible_amount) a.positions i p q at,
        e.eligible,
        h.totals.eligible,
      );
    }

    put-IsSound : All (IsSound (config_index c)) (set a.positions i q)
    put-IsSound =
        All-set (IsSound (config_index c)) a.positions i q
          (rw e.index (All-IsSound-later (config_index a.config) d a.positions h.sound)) e.sound

    put-solvent : sum_of (owed (config_index c)) (set a.positions i q) ≤ pool * reward_index_scale
    put-solvent =
        let v = config_index a.config in
        let b = rw e.index at e.backed in
        rw e.index (
          omega (
            arith,
            b,
            sum_of-set (owed (v + d)) a.positions i p q at,
            owed-later v d p IsSound-at.behind,
            sum_of-owed-later v d a.positions h.sound,
            mul-sub_add d p.eligible_amount a.config.eligible_locked eligible_at,
            ap (λ (t : ℕ). t * d) h.totals.eligible,
            h.solvent,
          ))

    -- An action with such an effect keeps the invariant.
    pub put-IsConsistent : IsConsistent (put a i vault pool (c, q))
    put-IsConsistent = record {
      config = e.config;
      sound = put-IsSound;
      totals = put-Totals;
      custody = e.custody;
      supply = e.supply;
      solvent = put-solvent;
    }

pub supply_check-ok :
    (a : Arena) (amount : ℕ) {u : Unit {0}}
    → supply_check a amount ≡ ok u
    → a.vault + a.pool + amount < u64_limit
supply_check-ok a amount e = ground arith

pub supply_check_total :
    (a : Arena) (amount : ℕ) → a.vault + a.pool + amount < u64_limit → supply_check a amount ≡ ok tt
supply_check_total a amount h = ground arith

pub debit_total :
    (balance amount : ℕ) → amount ≤ balance → debit balance amount ≡ ok (balance - amount)
debit_total balance amount h = ground arith

pub debit-ok :
    (balance amount : ℕ) {rest : ℕ} → debit balance amount ≡ ok rest → rest + amount ≡ balance
debit-ok balance amount e = ground arith
