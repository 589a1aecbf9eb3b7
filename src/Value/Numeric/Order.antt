-- ===== src/Value/Numeric/Order.antt =====
-- The exact comparison is a total order.
use native.Mathlib.Nat.{le_of_mul-le-mul_left, mul-le-mul_left}
use ski_framework.Prelude.{ℕ, suc, ◌+◌, ◌*◌, ◌≤◌, ◌≡◌, true, false, arith, not}
use ski_framework.Value.Numeric.{Frac, pos_part, neg_part, left, le_frac, lt_frac}

pub le_frac_refl : (a : Frac) → le_frac a a ≡ true
unfolding le_frac
le_frac_refl a = ground arith

pub lt_frac-eq-not : (a b : Frac) → lt_frac a b ≡ not (le_frac b a)
unfolding lt_frac le_frac
lt_frac-eq-not a b = ground arith

-- Cross multiplication over three denominators, the middle one positive.
cross_trans :
    (p₁ n₁ d₁ p₂ n₂ d₂ p₃ n₃ d₃ : ℕ)
    → p₁ * suc d₂ + n₂ * suc d₁ ≤ p₂ * suc d₁ + n₁ * suc d₂
    → p₂ * suc d₃ + n₃ * suc d₂ ≤ p₃ * suc d₂ + n₂ * suc d₃
    → p₁ * suc d₃ + n₃ * suc d₁ ≤ p₃ * suc d₁ + n₁ * suc d₃
cross_trans p₁ n₁ d₁ p₂ n₂ d₂ p₃ n₃ d₃ h k =
    le_of_mul-le-mul_left {k = suc d₂}
      (omega (arith, mul-le-mul_left (suc d₃) h, mul-le-mul_left (suc d₁) k)) (omega arith)

pub le_frac_trans : (a b c : Frac) → le_frac a b ≡ true → le_frac b c ≡ true → le_frac a c ≡ true
unfolding le_frac
le_frac_trans a b c h k =
    let h' : left a b ≤ left b a = ground arith in
    let k' : left b c ≤ left c b = ground arith in
    let r : left a c ≤ left c a =
      cross_trans (pos_part a.num) (neg_part a.num) a.den_pred (pos_part b.num) (neg_part b.num)
        b.den_pred (pos_part c.num) (neg_part c.num) c.den_pred h' k' in
    ground arith

pub le_frac_total : (a b : Frac) → le_frac a b ≡ false → le_frac b a ≡ true
unfolding le_frac
le_frac_total a b h = ground arith
