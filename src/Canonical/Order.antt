-- ===== src/Canonical/Order.antt =====
-- The order of names by UTF-16 code units is a strict total order.
use Prim.Native.Nat.{◌/◌, ◌%◌}
use Prim.Native.Char.{Char, IsScalar}
use text.Mathlib.TextEquality.{Char-path}
use ski_framework.Prelude.{
  ℕ, ◌+◌, ◌-◌, ◌<◌, ◌≡◌, ◌≢◌, ◌⊎◌, refl, sym, inl, inr, true, false, List, [], ◌∷◌, String, ltb,
  arith, Bool-cases, ltb-cases, ltb-ge, if◌then◌else◌,
}
use ski_framework.Canonical.Text.{utf16, less}

pub less-asym : (xs ys : List ℕ) → less xs ys ≡ true → less ys xs ≡ false
unfolding less
less-asym [] [] h = refl
less-asym [] (y ∷ ys) h = refl
less-asym (x ∷ xs) [] h = cc h
less-asym (x ∷ xs) (y ∷ ys) h = ground (arith, less-asym xs ys)

pub less_trans : (xs ys zs : List ℕ) → less xs ys ≡ true → less ys zs ≡ true → less xs zs ≡ true
unfolding less
less_trans [] [] zs h k = cc h
less_trans [] (y ∷ ys) [] h k = k
less_trans [] (y ∷ ys) (z ∷ zs) h k = refl
less_trans (x ∷ xs) [] zs h k = cc h
less_trans (x ∷ xs) (y ∷ ys) [] h k = cc k
less_trans (x ∷ xs) (y ∷ ys) (z ∷ zs) h k = ground (arith, less_trans xs ys zs)

pub less-total : (xs ys : List ℕ) → (xs ≡ ys) ⊎ ((less xs ys ≡ true) ⊎ (less ys xs ≡ true))
unfolding less
less-total [] [] = inl refl
less-total [] (y ∷ ys) = inr (inl refl)
less-total (x ∷ xs) [] = inr (inr refl)
less-total (x ∷ xs) (y ∷ ys) = elim (ltb-cases x y) [
  | inl (lt, _) ↦ inr (inl (rw (less, lt) refl))
  | inr (nlt, ge) ↦ elim (ltb-cases y x) [
    | inl (gt, _) ↦ inr (inr (rw (less, gt) refl))
    | inr (ngt, le) ↦
        let same : x ≡ y = omega arith in
        elim (less-total xs ys) [
          | inl e ↦ inl (cc (same, e))
          | inr (inl l) ↦ inr (inl (rw (less, nlt, ngt) l))
          | inr (inr g) ↦ inr (inr (rw (less, nlt, ngt) g))
        ]
  ]
]

scalar-cases : (n : ℕ) → IsScalar n → (n < 0xD800) ⊎ ((0xDFFF < n) × (n < 0x110000))
scalar-cases n h = ground arith

cons-parts : (a b : ℕ) (xs ys : List ℕ) → a ∷ xs ≡ b ∷ ys → (a ≡ b) × (xs ≡ ys)
cons-parts a b xs ys e = (cc e, cc e)

-- the code units of a character, in front of others
abbrev units : ℕ → List ℕ → List ℕ
units n rest =
    if ltb n 0x10000
    then n ∷ rest
    else (0xD800 + (n - 0x10000) / 1024) ∷ (0xDC00 + (n - 0x10000) % 1024) ∷ rest

nil_cons : (x : ℕ) (xs : List ℕ) → [] ≢ x ∷ xs
nil_cons x xs e = cc e

nonempty : (n : ℕ) (xs : List ℕ) → [] ≢ units n xs
nonempty n xs e = elim (Bool-cases (ltb n 0x10000)) [
  | inl low ↦ absurd (nil_cons _ _ (rw low at e))
  | inr high ↦ absurd (nil_cons _ _ (rw high at e))
]

-- A surrogate is no character, so a pair is not mistaken for one.
not_high :
    (m n : ℕ) (xs ys : List ℕ)
    → IsScalar m
    → IsScalar n
    → ltb m 0x10000 ≡ true
    → ltb n 0x10000 ≡ false
    → units m xs ≢ units n ys
not_high m n xs ys p q low high e =
    let first = cons-parts _ _ _ _ (rw (low, high) at e) in
    let range : n < 0x110000 = ground (arith, scalar-cases n q) in
    absurd (ground (arith, scalar-cases m p, first.0, range, ltb-ge n 0x10000 high))

units-injective :
    (m n : ℕ) (xs ys : List ℕ)
    → IsScalar m
    → IsScalar n
    → units m xs ≡ units n ys
    → (m ≡ n) × (xs ≡ ys)
units-injective m n xs ys p q e = elim (ltb-cases m 0x10000) [
  | inl (low, _) ↦ elim (ltb-cases n 0x10000) [
    | inl (low', _) ↦ cons-parts m n xs ys (rw (low, low') at e)
    | inr (high', _) ↦ absurd (not_high m n xs ys p q low high' e)
  ]
  | inr (high, big) ↦ elim (ltb-cases n 0x10000) [
    | inl (low', _) ↦ absurd (not_high n m ys xs q p low' high (sym e))
    | inr (high', big') ↦
        let first = cons-parts _ _ _ _ (rw (high, high') at e) in
        let second = cons-parts _ _ _ _ first.1 in
        (omega (arith, first.0, second.0, big, big'), second.1)
  ]
]

-- Two names with the same UTF-16 code units are the same name.
pub utf16-injective : (s t : String) → utf16 s ≡ utf16 t → s ≡ t
unfolding utf16
utf16-injective String.[] String.[] e = refl
utf16-injective String.[] (String.◌∷◌ (Char.char n q) t) e = absurd (nonempty n (utf16 t) e)
utf16-injective (String.◌∷◌ (Char.char m p) s) String.[] e = absurd (nonempty m (utf16 s) (sym e))
utf16-injective (String.◌∷◌ (Char.char m p) s) (String.◌∷◌ (Char.char n q) t) e =
    let parts = units-injective m n (utf16 s) (utf16 t) p q e in
    cong2 (Char-path (Char.char m p) (Char.char n q) parts.0) (utf16-injective s t parts.1)
  where
    cong2 : {c d : Char} {s t : String} → c ≡ d → s ≡ t → String.◌∷◌ c s ≡ String.◌∷◌ d t
    cong2 p q = cc (p, q)
