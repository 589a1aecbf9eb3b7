-- ===== src/Value/Numeric.antt =====
-- Exact numbers: the integers, and fractions compared by cross multiplication.
pub mod Order
unfoldable pub use Signed.*
mod Signed
use ski_framework.Prelude.{
  ℕ, zero, suc, ◌+◌, ◌-◌, ◌*◌, ◌^◌, Bool, true, false, ◌&&◌, leb, ltb, if◌then◌else◌,
}

-- num / (den_pred + 1)
pub record Frac : Type 0 where
  pub num : ℤ
  pub den_pred : ℕ

abbrev pub den : Frac → ℕ
den a = suc a.den_pred

-- Both sides of a comparison, on one denominator and with the negative parts moved over.
abbrev pub left : Frac → Frac → ℕ
left a b = pos_part a.num * den b + neg_part b.num * den a

unfoldable pub le_frac : Frac → Frac → Bool
le_frac a b = leb (left a b) (left b a)

unfoldable pub lt_frac : Frac → Frac → Bool
lt_frac a b = ltb (left a b) (left b a)

unfoldable pub eq_frac : Frac → Frac → Bool
unfolding le_frac
eq_frac a b = le_frac a b && le_frac b a

unfoldable pub of_int : ℤ → Frac
of_int n = record { num = n; den_pred = 0 }

-- m / 2 ^ e
unfoldable pub of_dyadic : ℤ → ℕ → Frac
of_dyadic m e = record { num = m; den_pred = 2 ^ e - 1 }

unfoldable pub add_frac : Frac → Frac → Frac
add_frac a b = record {
  num = a.num *ℤ pos (den b) +ℤ b.num *ℤ pos (den a);
  den_pred = den a * den b - 1;
}

-- a / n, for n above zero
unfoldable pub divide_frac : Frac → ℕ → Frac
divide_frac a n = record { num = a.num; den_pred = den a * n - 1 }

-- A Python number in a comparison.
pub data Number : Type 0 where
  exact : Frac → Number
  infinite : Bool → Number
  nan : Number

unfoldable pub eq_number : Number → Number → Bool
unfolding eq_frac
eq_number (exact a) (exact b) = eq_frac a b
eq_number (infinite true) (infinite true) = true
eq_number (infinite false) (infinite false) = true
eq_number _ _ = false
