-- ===== src/Hex.antt =====
-- Bytes and their hexadecimal spelling: Python's `bytes.hex` and `bytes.fromhex`.
pub mod Roundtrip
use Prim.Native.Nat.{◌/◌, ◌%◌}
use Prim.Native.Char.{Char, code}
use Prim.Native.String.{char_at}
use ski_framework.Prelude.{
  ℕ, zero, suc, ◌+◌, ◌-◌, ◌*◌, ◌<◌, ◌≡◌, refl, ap, ◌⊎◌, inl, inr, Bool, true, false, ◌&&◌, ◌||◌,
  Option, none, some, List, [], ◌∷◌, ◌++◌, String, ◌==◌, leb, ltb, if◌then◌else◌, ◌>>=◌, All,
  length, arith,
}

abbrev pub Bytes : Type 0
Bytes = List ℕ

-- a digit of `bytes.hex`, which is lowercase
abbrev pub digit : ℕ → Char
digit n = char_at "0123456789abcdef" n

-- the value of a digit, of either case
unfoldable pub nibble : ℕ → Option ℕ
nibble c =
    if leb b'0' c && leb c b'9'
    then some (c - b'0')
    else if leb b'a' c && leb c b'f'
    then some (c - b'a' + 10)
    else if leb b'A' c && leb c b'F'
    then some (c - b'A' + 10)
    else none

-- ASCII whitespace, which `fromhex` skips between bytes
unfoldable pub is_space : ℕ → Bool
is_space c = c == 32 || (leb 9 c && leb c 13)

unfoldable pub hex : Bytes → String
hex [] = String.[]
hex (b ∷ bs) = String.◌∷◌ (digit (b / 16)) (String.◌∷◌ (digit (b % 16)) (hex bs))

-- the bytes of the digits left, after the first digit of a pair where one is pending
unfoldable pub digits_of : Option ℕ → String → Option Bytes
unfolding nibble is_space
digits_of none String.[] = some []
digits_of (some h) String.[] = none
digits_of none (String.◌∷◌ c s) = elim (is_space (code c)) [
  | true ↦ digits_of none s
  | false ↦ nibble (code c) >>= λ h. digits_of (some h) s
]
digits_of (some h) (String.◌∷◌ c s) =
    nibble (code c) >>= λ l. digits_of none s >>= λ bs. some ((16 * h + l) ∷ bs)

unfoldable pub fromhex : String → Option Bytes
unfolding digits_of nibble is_space
fromhex s = digits_of none s
