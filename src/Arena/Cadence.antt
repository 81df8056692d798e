-- ===== src/Arena/Cadence.antt =====
-- processor.rs: `roll_epoch`, and the time that the roll of an epoch waits for.
use arena_contract_sol.Prelude.{◌+◌, ◌<◌, ◌≡◌, some, true, false, arith, sym, ap, subst, ◌∙◌}
use arena_contract_sol.Prelude.Int.{ℤ, ◌+ℤ◌, leb_ℤ, ltb_ℤ}
use arena_contract_sol.Result.{
  ok, ok_or, ok-injective, ok_or-eq-ok, >>=-elim, fail_if, fail_if-eq-ok, math_overflow,
  epoch_not_ready,
}
use arena_contract_sol.Checked.{u64_limit, fit_i64, checked_add_i64, checked_add_u64}
use arena_contract_sol.State.{ArenaConfig}
use arena_contract_sol.Arena.{Arena, roll}
use arena_contract_sol.Operations.Lock.{roll_epoch}

-- An epoch has ended by the clock, and the next one starts at its end, whatever the clock shows.
pub record IsNextEpoch (now : ℤ) (c c' : ArenaConfig) : Type 0 where
  pub ended : leb_ℤ (c.last_epoch_ts +ℤ c.epoch_seconds) now ≡ true
  pub next : c' ≡ record c {
    last_epoch_ts = c.last_epoch_ts +ℤ c.epoch_seconds;
    current_epoch = c.current_epoch + 1;
  }
  pub counted : c'.current_epoch < u64_limit

pub not_before : (x now : ℤ) → ltb_ℤ now x ≡ false → leb_ℤ x now ≡ true
not_before x now h = ground (arith, h)

fitted : (x y : ℤ) → fit_i64 x ≡ some y → x ≡ y
fitted x y h = ground (arith, h)

pub roll_epoch-IsNextEpoch :
    (now : ℤ) (c c' : ArenaConfig) → roll_epoch now c ≡ ok c' → IsNextEpoch now c c'
unfolding roll_epoch
roll_epoch-IsNextEpoch now c c' e =
    >>=-elim (ok_or (checked_add_i64 c.last_epoch_ts c.epoch_seconds) math_overflow) _ e
      λ end_ts ends e. >>=-elim (fail_if (ltb_ℤ now end_ts) epoch_not_ready) _ e λ _ after e.
        >>=-elim (ok_or (checked_add_u64 c.current_epoch 1) math_overflow) _ e λ count counts done.
          let is : c.last_epoch_ts +ℤ c.epoch_seconds ≡ end_ts =
            fitted (c.last_epoch_ts +ℤ c.epoch_seconds) end_ts (ok_or-eq-ok _ _ ends) in
          let next = sym (ok-injective _ _ done) in
          record {
            ended = rw is (not_before end_ts now (fail_if-eq-ok _ _ after));
            next = ground (arith, next, is, counts);
            counted = ground (arith, next, counts);
          }

-- A roll of the epoch on an arena.
pub record IsRoll (now : ℤ) (a b : Arena) : Type 0 where
  pub epoch : IsNextEpoch now a.config b.config
  pub rest : b ≡ record a { config = b.config }

pub roll-IsRoll : (now : ℤ) (a b : Arena) → roll now a ≡ ok b → IsRoll now a b
unfolding roll
roll-IsRoll now a b e = >>=-elim (roll_epoch now a.config) _ e λ c rolled done.
    let same : record a { config = c } ≡ b = ok-injective _ _ done in
    let c_is : c ≡ b.config = ap (λ (x : Arena). x.config) same in
    record {
      epoch =
          subst (λ d. IsNextEpoch now a.config d) c_is
            (roll_epoch-IsNextEpoch now a.config c rolled);
      rest = sym same ∙ ap (λ (d : ArenaConfig). record a { config = d }) c_is;
    }
