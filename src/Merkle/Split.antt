-- ===== src/Merkle/Split.antt =====
-- The two loops on numbers: `_split` ends at the largest power of two below `n`, and the halving of
-- `verify_inclusion` at an odd number.
use ski_framework.Prelude.{
  ℕ, zero, suc, ◌+◌, ◌*◌, ◌≤◌, ◌<◌, ◌≡◌, refl, ◌∙◌, inl, inr, arith, ltb-cases,
}
use ski_framework.Merkle.{split, split_from, halve}
use ski_framework.Merkle.Shift.{shift, shift-double, shift-ge, below-shift}

-- the power of two that the loop gives, and where it lies
abbrev pub IsCut : ℕ → ℕ → ℕ → Type 0
IsCut n k j = (k ≡ shift j 1) × ((k < n) × (n ≤ shift (suc j) 1))

split_from-IsCut :
    (f g n : ℕ)
    → shift g 1 < n
    → n ≤ shift (f + g) 1
    → (j : ℕ) × IsCut n (split_from f n (shift g 1)) j
unfolding split_from
split_from-IsCut zero g n low high =
    let e : 0 + g ≡ g = omega arith in absurd (omega (arith, low, (rw e at high)))
split_from-IsCut (suc f) g n low high = elim (ltb-cases (shift g 1 * 2) n) [
  | inl (test, more) ↦
      let next : shift g 1 * 2 ≡ shift (suc g) 1 = omega (arith, shift-double g 1) in
      let e : suc f + g ≡ f + suc g = omega arith in
      rw (split_from, test, next)
        (split_from-IsCut f (suc g) n (omega (arith, more, next)) (rw e at high))
  | inr (test, done) ↦
      rw (split_from, test) (g, (refl, (low, omega (arith, done, shift-double g 1))))
]

-- The loop of `_split` ends, for a size of at least 2, at a power of two that is below the size,
-- and whose double is not.
pub split-IsCut : (n : ℕ) → 2 ≤ n → (j : ℕ) × IsCut n (split n) j
unfolding split
split-IsCut n h =
    let e : n + 0 ≡ n = omega arith in
    split_from-IsCut n 0 n (omega arith) (rw e (omega (arith, below-shift n)))

halve-even : (f s : ℕ) → 1 ≤ s → halve (suc f) (2 * s) (2 * s) ≡ halve f s s
unfolding halve
halve-even f s h = ground arith

halve-odd : (f q : ℕ) → halve f (2 * q + 1) (2 * q + 1) ≡ (2 * q + 1, 2 * q + 1)
unfolding halve
halve-odd zero q = refl
halve-odd (suc f) q = ground arith

pub halve_lem :
    (i f q : ℕ)
    → i ≤ f
    → halve f (shift i (2 * q + 1)) (shift i (2 * q + 1)) ≡ (2 * q + 1, 2 * q + 1)
halve_lem zero f q h = halve-odd f q
halve_lem (suc i) zero q h = absurd (omega arith)
halve_lem (suc i) (suc f) q h = rw (shift-double i (2 * q + 1)) (
    halve-even f (shift i (2 * q + 1)) (omega (arith, shift-ge i (2 * q + 1)))
    ∙ halve_lem i f q (omega arith))
