-- ===== src/Checked.antt =====
-- Machine arithmetic of the Rust code: values are plain numbers, and each operation compares its
-- exact result with the range of its type.
use arena_contract_sol.Prelude.{
  ℕ, ◌+◌, ◌-◌, ◌*◌, ◌/◌, ◌%◌, ◌^◌, Bool, Option, none, some, ◌&&◌, ltb, leb, ◌==◌, if◌then◌else◌,
  min,
}
use arena_contract_sol.Prelude.Int.{ℤ, pos, negsuc, ◌+ℤ◌, ◌*ℤ◌, leb_ℤ, ltb_ℤ}

-- One more than the largest `u64` and the largest `u128`.
abbrev pub u64_limit : ℕ
u64_limit = 2 ^ 64

abbrev pub u128_limit : ℕ
u128_limit = 2 ^ 128

-- A result that is below the limit of its type.
abbrev pub fit : ℕ → ℕ → Option ℕ
fit limit n = if ltb n limit then some n else none

abbrev pub checked_add_u64 : ℕ → ℕ → Option ℕ
checked_add_u64 a b = fit u64_limit (a + b)

-- `u64::saturating_add`
abbrev pub saturating_add_u64 : ℕ → ℕ → ℕ
saturating_add_u64 a b = min (a + b) (u64_limit - 1)

-- `u64::try_from` of a `u128`
abbrev pub try_from_u64 : ℕ → Option ℕ
try_from_u64 n = fit u64_limit n

abbrev pub checked_add_u128 : ℕ → ℕ → Option ℕ
checked_add_u128 a b = fit u128_limit (a + b)

abbrev pub checked_mul_u128 : ℕ → ℕ → Option ℕ
checked_mul_u128 a b = fit u128_limit (a * b)

-- `u128::overflowing_add`: the wrapped sum, and whether it wrapped.
abbrev pub overflowing_add_u128 : ℕ → ℕ → ℕ × Bool
overflowing_add_u128 a b = ((a + b) % u128_limit, leb u128_limit (a + b))

-- These are the same at every unsigned width.
abbrev pub checked_sub : ℕ → ℕ → Option ℕ
checked_sub a b = if ltb a b then none else some (a - b)

abbrev pub checked_div : ℕ → ℕ → Option ℕ
checked_div a b = if b == 0 then none else some (a / b)

abbrev pub checked_rem : ℕ → ℕ → Option ℕ
checked_rem a b = if b == 0 then none else some (a % b)

abbrev pub in_range_i64 : ℤ → Bool
in_range_i64 a = leb_ℤ (negsuc (2 ^ 63 - 1)) a && ltb_ℤ a (pos (2 ^ 63))

abbrev pub fit_i64 : ℤ → Option ℤ
fit_i64 a = if in_range_i64 a then some a else none

abbrev pub checked_add_i64 : ℤ → ℤ → Option ℤ
checked_add_i64 a b = fit_i64 (a +ℤ b)

abbrev pub checked_mul_i64 : ℤ → ℤ → Option ℤ
checked_mul_i64 a b = fit_i64 (a *ℤ b)
