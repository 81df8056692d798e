-- ===== src/Prelude/Nat.antt =====
-- Products of native numbers that are monotone, and products of differences.
use Prim.Native.Nat.{ℕ, ◌+◌, ◌-◌, ◌*◌, ◌/◌, ◌≤◌, ◌<◌}
use mathlib.Core.Path.{◌≡◌}
use native.Mathlib.Omega.{arith}

pub mul-le_right : (a b c : ℕ) → b ≤ c → a * b ≤ a * c
mul-le_right a b c h = grind arith

pub mul-le_left : (a b c : ℕ) → a ≤ b → a * c ≤ b * c
mul-le_left a b c h = grind arith

pub mul-sub : (a b c d : ℕ) → b + d ≡ c → a * (c - b) ≡ a * d
mul-sub a b c d h = let e : c - b ≡ d = omega arith in grind arith

-- A factor that is at least one does not lower a product.
pub le-mul_pos : (a b : ℕ) → 0 < a → b ≤ a * b
le-mul_pos a b h = grind arith

-- A later end point adds its product.
pub mul-add-sub : (a v w d : ℕ) → w ≤ v → a * (v + d - w) ≡ a * (v - w) + a * d
mul-add-sub a v w d h = let e : v + d - w ≡ (v - w) + d = omega arith in grind arith

-- The floor of a quotient, by the products on both sides of it.
pub div_bounds : (n e : ℕ) → 0 < e → (n / e * e ≤ n) × (n < n / e * e + e)
div_bounds n e h = grind arith

pub div-eq-zero : (n e : ℕ) → n < e → n / e ≡ 0
div-eq-zero n e h = grind arith

pub div-pos : (n e : ℕ) → 0 < e → e ≤ n → 0 < n / e
div-pos n e h k = grind arith

pub mul-sub_add : (a b c : ℕ) → b ≤ c → a * (c - b) + a * b ≡ a * c
mul-sub_add a b c h = let e : c ≡ (c - b) + b = omega arith in grind arith

pub mul-add_eq : (a b c d : ℕ) → b + c ≡ d → a * b + a * c ≡ a * d
mul-add_eq a b c d h = grind arith
