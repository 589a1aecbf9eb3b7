-- ===== src/Hex/Roundtrip.antt =====
-- The spelling of bytes in hexadecimal reads back as the bytes.
use Prim.Native.Nat.{◌/◌, ◌%◌}
use Prim.Native.Char.{Char, code}
use ski_framework.Prelude.{
  ◌⊎◌, List, In, all, inl, inr, ℕ, zero, suc, ◌+◌, ◌*◌, ◌<◌, ◌≡◌, refl, ap, sym, ◌∙◌, Bool, true,
  false, not, ◌&&◌, Option, none, some, [], ◌∷◌, String, ◌==◌, All, arith, some-injective,
}
use ski_framework.Hex.{Bytes, hex, fromhex, digits_of, digit, nibble, is_space}

-- a byte
abbrev pub IsByte : ℕ → Type 0
IsByte b = b < 256

both_true : (a b : Bool) → a && b ≡ true → (a ≡ true) × (b ≡ true)
both_true a b h = ground arith

-- the numbers below a bound
abbrev numbers : ℕ → List ℕ
numbers zero = []
numbers (suc m) = m ∷ numbers m

numbers-In : (m n : ℕ) → n < m → In n (numbers m)
numbers-In zero n h = absurd (omega arith)
numbers-In (suc m) n h = elim (last_or_below m n h) [
  | inl e ↦ inl e
  | inr lt ↦ inr (numbers-In m n lt)
]
  where
    last_or_below : (m n : ℕ) → n < suc m → (n ≡ m) ⊎ (n < m)
    last_or_below m n h = omega arith

all-In :
    (test : ℕ → Bool) (values : List ℕ) (n : ℕ)
    → all test values ≡ true
    → In n values
    → test n ≡ true
all-In test [] n passed m = absurd m
all-In test (v ∷ values) n passed (inl e) = rw e (both_true (test v) (all test values) passed).0
all-In test (v ∷ values) n passed (inr m) =
    all-In test values n (both_true (test v) (all test values) passed).1 m

abbrev reads : Option ℕ → ℕ → Bool
reads none n = false
reads (some m) n = m == n

abbrev digit_reads : ℕ → Bool
digit_reads n = reads (nibble (code (digit n))) n && not (is_space (code (digit n)))

digit_table : all digit_reads (numbers 16) ≡ true
unfolding nibble is_space
digit_table = refl

reads_lem :
    (o : Option ℕ) (n : ℕ) (b : Bool) → reads o n && not b ≡ true → (o ≡ some n) × (b ≡ false)
reads_lem none n b h = cc h
reads_lem (some m) n b h = ground arith

nibble-digit :
    (n : ℕ) → n < 16 → (nibble (code (digit n)) ≡ some n) × (is_space (code (digit n)) ≡ false)
nibble-digit n h =
    reads_lem (nibble (code (digit n))) n (is_space (code (digit n)))
      (all-In digit_reads (numbers 16) n digit_table (numbers-In 16 n h))

digits_of-pair :
    (c d : Char) (h l : ℕ) (s : String) (bs : Bytes)
    → (nibble (code c) ≡ some h) × (is_space (code c) ≡ false)
    → nibble (code d) ≡ some l
    → digits_of none s ≡ some bs
    → digits_of none (String.◌∷◌ c (String.◌∷◌ d s)) ≡ some ((16 * h + l) ∷ bs)
unfolding digits_of
digits_of-pair c d h l s bs high low rest = rw (high.1, digits_of, high.0, low, rest) refl

-- the spelling of bytes reads back
pub fromhex-hex : (bs : Bytes) → All IsByte bs → fromhex (hex bs) ≡ some bs
unfolding fromhex hex digits_of
fromhex-hex [] h = refl
fromhex-hex (b ∷ bs) h =
    let whole : 16 * (b / 16) + b % 16 ≡ b = omega arith in
    digits_of-pair (digit (b / 16)) (digit (b % 16)) (b / 16) (b % 16) (hex bs) bs
      (nibble-digit (b / 16) (omega (arith, h.0))) (nibble-digit (b % 16) (omega (arith, h.0))).0
      (fromhex-hex bs h.1)
    ∙ ap (λ x. some (x ∷ bs)) whole

pub hex-injective : (bs cs : Bytes) → All IsByte bs → All IsByte cs → hex bs ≡ hex cs → bs ≡ cs
hex-injective bs cs hb hc e = some-injective (sym (fromhex-hex bs hb) ∙ (rw e (fromhex-hex cs hc)))
