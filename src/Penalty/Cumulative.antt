-- ===== src/Penalty/Cumulative.antt =====
-- Penalties over a sequence of exits.
use arena_contract_sol.Prelude.{
  ◌↔◌, ℕ, ◌+◌, ◌*◌, ◌≤◌, ◌<◌, ◌≡◌, List, [], ◌∷◌, arith, refl, sum_of, All,
}
use arena_contract_sol.Result.{Result, ok, ◌>>=◌}
use arena_contract_sol.Checked.{u64_limit}
use arena_contract_sol.State.{bps_denominator, max_arena_early_exit_penalty_bps}
use arena_contract_sol.Penalty.{PenaltySplit, penalty_split}
use arena_contract_sol.Penalty.Split.{penalty_split_exact, burned-le, taken}

-- The exits of one position in turn, each with the remainders that the one before it left: the
-- total penalty, and the last remainders.
pub exits : (bps burn_bps : ℕ) → List ℕ → ℕ → ℕ → ℕ → Result (ℕ × ℕ × ℕ)
exits bps burn_bps [] total rest burn_rest = ok (total, rest, burn_rest)
exits bps burn_bps (amount ∷ amounts) total rest burn_rest = do
  s ← penalty_split amount bps burn_bps rest burn_rest
  exits bps burn_bps amounts (total + s.reward + s.burn) s.penalty_remainder s.burn_remainder

one_exit :
    (n bps burn_bps rest burn_rest : ℕ)
    → 0 < n
    → n < u64_limit
    → 0 < bps
    → bps ≤ max_arena_early_exit_penalty_bps
    → burn_bps ≤ bps
    → rest < bps_denominator
    → burn_rest < bps_denominator
    → (s : PenaltySplit) × (penalty_split n bps burn_bps rest burn_rest ≡ ok s)
      × ((s.reward + s.burn) * bps_denominator + s.penalty_remainder ≡ n * bps + rest)
      × (s.penalty_remainder < bps_denominator)
      × (s.burn_remainder < bps_denominator)
one_exit n bps burn_bps rest burn_rest n_pos n_fits hp hb hbb hr hbr = (
  _,
  penalty_split_exact n bps burn_bps rest burn_rest n_pos n_fits hp hb hbb hr hbr,
  omega (arith, burned-le n bps burn_bps rest burn_rest),
  omega arith,
  ground arith,
)

-- Splitting an exit does not change its penalty: for a positive rate of at most one half, a burn
-- rate of at most that, and remainders below one unit, any sequence of exits of positive `u64`
-- amounts succeeds, its penalties add up to the whole units of the rate on the sum of the amounts,
-- and the last remainder is what is left of it.
pub exits_telescope :
    (bps burn_bps : ℕ) (amounts : List ℕ) (total rest burn_rest : ℕ)
    → 0 < bps
    → bps ≤ max_arena_early_exit_penalty_bps
    → burn_bps ≤ bps
    → rest < bps_denominator
    → burn_rest < bps_denominator
    → All (λ n. (0 < n) × (n < u64_limit)) amounts
    → (t : ℕ × ℕ × ℕ) × (exits bps burn_bps amounts total rest burn_rest ≡ ok t)
      × (t.0 * bps_denominator + t.1
          ≡ total * bps_denominator + rest + sum_of (λ n. n) amounts * bps)
      × (t.1 < bps_denominator)
unfolding exits
exits_telescope bps burn_bps [] total rest burn_rest hp hb hbb hr hbr h =
    ((total, rest, burn_rest), refl, omega arith, hr)
exits_telescope bps burn_bps (n ∷ ns) total rest burn_rest hp hb hbb hr hbr h =
    let (n_pos, n_fits) = h.0 in
    let (s, e, all, keeps, burn_keeps) =
      one_exit n bps burn_bps rest burn_rest n_pos n_fits hp hb hbb hr hbr in
    let (t, e', sum, last) =
      exits_telescope bps burn_bps ns (total + s.reward + s.burn) s.penalty_remainder
        s.burn_remainder hp hb hbb keeps burn_keeps h.1 in
    (t, rw e e', omega (arith, all, sum), last)

-- For positive rates within their bounds, a positive `u64` amount and remainders below one unit: the
-- burn's own account of a split is exact, so that no unit of it is lost between exits, exactly when
-- the burn share is at most the penalty.
pub penalty_split-burn_exact :
    (amount bps burn_bps rest burn_rest : ℕ) (s : PenaltySplit)
    → 0 < amount
    → amount < u64_limit
    → 0 < burn_bps
    → burn_bps ≤ bps
    → bps ≤ max_arena_early_exit_penalty_bps
    → rest < bps_denominator
    → burn_rest < bps_denominator
    → penalty_split amount bps burn_bps rest burn_rest ≡ ok s
    → (s.burn * bps_denominator + s.burn_remainder ≡ amount * burn_bps + burn_rest)
      ↔ (taken amount burn_bps burn_rest ≤ taken amount bps rest)
penalty_split-burn_exact amount bps burn_bps rest burn_rest s some_amount fits hbb hb hp hr hbr e =
    let exact =
      penalty_split_exact amount bps burn_bps rest burn_rest some_amount fits (omega arith) hp hb hr
        hbr in
    (λ k. ground (arith, exact), λ k. ground (arith, exact))
