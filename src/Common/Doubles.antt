-- ===== src/Common/Doubles.antt =====
-- Go's float64, as far as the scorer and the detectors use it: the operations, and laws that hold
-- of IEEE doubles on the values that occur (no NaN, no infinity, integers exact up to 2^53).

use arxsentinel.Common.{
  ℕ, ◌+◌, ◌-◌, ◌*◌, ◌/◌, ◌^◌, ◌≤◌, ◌<◌, ◌≡◌, Bool, true, arith, ltb, leb, Text,
}
use arxsentinel.Common.Int.{ℤ, pos, ◌≤ℤ◌, pos_part}
use arxsentinel.Common.{show_nat}
use native.Mathlib.Nat.{div-le_of_le-mul}

pub record Doubles : Type 1 where
  pub Double : Type 0
  pub of_int : ℤ → Double
  pub add : Double → Double → Double
  pub sub : Double → Double → Double
  pub mul : Double → Double → Double
  pub div : Double → Double → Double
  -- <, <=
  pub lt : Double → Double → Bool
  pub le : Double → Double → Bool
  -- int(x), towards zero
  pub trunc : Double → ℤ
  -- fmt's %.0f
  pub show_rounded : Double → Text

-- 0 <= x <= 1
abbrev pub IsFraction : (f : Doubles) → f.Double → Type 0
IsFraction f x = (f.le (f.of_int (pos 0)) x ≡ true) × (f.le x (f.of_int (pos 1)) ≡ true)

-- What rounding to the nearest double, a monotone function, gives.
pub record IsRounded (f : Doubles) : Type 0 where
  pub ratio : (a b : ℕ) → a < b → IsFraction f (f.div (f.of_int (pos a)) (f.of_int (pos b)))
  pub complement : (x : f.Double) → IsFraction f x → IsFraction f (f.sub (f.of_int (pos 1)) x)
  pub scaled :
      (n : ℕ) (x : f.Double)
      → IsFraction f x
      → (f.le (f.of_int (pos 0)) (f.mul (f.of_int (pos n)) x) ≡ true)
        × (f.le (f.mul (f.of_int (pos n)) x) (f.of_int (pos n)) ≡ true)
  pub truncated :
      (n : ℕ) (x : f.Double)
      → n ≤ 2 ^ 53
      → f.le (f.of_int (pos 0)) x ≡ true
      → f.le x (f.of_int (pos n)) ≡ true
      → (pos 0 ≤ℤ f.trunc x) × (f.trunc x ≤ℤ pos n)

-- Thousandths: a value that meets the laws.
abbrev pub thousandths : Doubles
thousandths = record {
  Double = ℕ;
  of_int = λ n. pos_part n * 1000;
  add = λ x y. x + y;
  sub = λ x y. x - y;
  mul = λ x y. x * y / 1000;
  div = λ x y. x * 1000 / y;
  lt = ltb;
  le = leb;
  trunc = λ x. pos (x / 1000);
  show_rounded = λ x. show_nat (x / 1000);
}

ratio_le : (a b : ℕ) → a < b → a * 1000 * 1000 / (b * 1000) ≤ 1000
ratio_le a b h = div-le_of_le-mul (b * 1000) (omega arith)

scaled_le : (n x : ℕ) → x ≤ 1000 → n * 1000 * x / 1000 ≤ n * 1000
scaled_le n x h = div-le_of_le-mul 1000 (grind arith)

pub thousandths-IsRounded : IsRounded thousandths
thousandths-IsRounded = record {
  ratio = λ a b h. ground (arith, ratio_le a b h);
  complement = λ x h. ground arith;
  scaled = λ n x h. ground (arith, scaled_le n x);
  truncated = λ n x h l g. ground arith;
}
