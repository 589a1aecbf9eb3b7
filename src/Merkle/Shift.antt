-- ===== src/Merkle/Shift.antt =====
-- Shifts to the left, the loop `_split`, and the inner loop of `verify_inclusion`.
use ski_framework.Prelude.{
  ℕ, zero, suc, ◌+◌, ◌-◌, ◌*◌, ◌≤◌, ◌<◌, ◌≡◌, refl, ◌∙◌, ap, ◌⊎◌, inl, inr, arith,
}

-- `x << h`
abbrev pub shift : ℕ → ℕ → ℕ
shift zero x = x
shift (suc h) x = shift h (2 * x)

pub shift-add : (h a b : ℕ) → shift h (a + b) ≡ shift h a + shift h b
shift-add zero a b = refl
shift-add (suc h) a b =
    let e : 2 * (a + b) ≡ 2 * a + 2 * b = omega arith in rw e (shift-add h (2 * a) (2 * b))

pub shift-double : (h x : ℕ) → shift h (2 * x) ≡ 2 * shift h x
shift-double h x = let e : 2 * x ≡ x + x = omega arith in rw e (omega (arith, shift-add h x x))

pub shift-zero : (h : ℕ) → shift h 0 ≡ 0
shift-zero zero = refl
shift-zero (suc h) = shift-zero h

pub shift-shift : (a b x : ℕ) → shift (a + b) x ≡ shift a (shift b x)
shift-shift zero b x = let e : 0 + b ≡ b = omega arith in rw e refl
shift-shift (suc a) b x =
    (let e : suc a + b ≡ suc (a + b) = omega arith in rw e refl)
    ∙ shift-shift a b (2 * x)
    ∙ ap (shift a) (shift-double b x)

pub shift-ge : (h x : ℕ) → x ≤ shift h x
shift-ge zero x = omega arith
shift-ge (suc h) x = omega (arith, shift-ge h (2 * x))

pub shift_mono : (a b : ℕ) → a ≤ b → shift a 1 ≤ shift b 1
shift_mono a b h =
    let e : b ≡ (b - a) + a = omega arith in
    rw e (rw (shift-shift (b - a) a 1) (shift-ge (b - a) (shift a 1)))

-- a number is below its power of two
pub below-shift : (n : ℕ) → n < shift n 1
below-shift zero = omega arith
below-shift (suc n) = omega (arith, below-shift n, shift-double n 1)

order : (a b : ℕ) → (a < b) ⊎ (b ≤ a)
order a b = omega arith

-- the order of two powers is that of their exponents
pub shift-lt : (a b : ℕ) → shift a 1 < shift b 1 → a < b
shift-lt a b h = elim (order a b) [
  | inl lt ↦ lt
  | inr ge ↦ absurd (omega (arith, h, shift_mono b a ge))
]

pub shift-le : (a b : ℕ) → shift a 1 ≤ shift b 1 → a ≤ b
shift-le a b h = elim (order b a) [
  | inl lt ↦ absurd (omega (arith, h, shift_mono (suc b) a lt, shift-double b 1, shift-ge b 1))
  | inr ge ↦ ge
]
