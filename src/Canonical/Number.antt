-- ===== src/Canonical/Number.antt =====
-- Numbers of ski_schemas/canonical.py, printed as ECMAScript does.
-- `repr` of a double and `float` of a large integer are Python's, and parameters.
use Prim.Native.Nat.{◌/◌, ◌%◌}
use Prim.Native.Char.{code}
use Prim.Native.String.{count, ◌++◌ as append}
use ski_framework.Prelude.{
  ℕ, zero, suc, ◌+◌, ◌-◌, ◌*◌, Bool, true, false, ◌&&◌, Option, none, some, String, ◌==◌, leb, ltb,
  if◌then◌else◌, ◌>>=◌, ◌>>◌, require,
}
use ski_framework.Hex.{digit}
use ski_framework.Value.{Double, finite, infinity, not_a_number}
use ski_framework.Value.Numeric.{
  ℤ, pos, negsuc, ◌+ℤ◌, neg_part, pos_part, sub_ℕ, of_int, of_dyadic, eq_frac,
}

infixl 65 ◌-ℤ◌
abbrev ◌-ℤ◌ : ℤ → ℤ → ℤ
a -ℤ b = sub_ℕ (pos_part a + neg_part b) (pos_part b + neg_part a)

-- 2 ** 53
abbrev exact_int_limit : ℕ
exact_int_limit = 9007199254740992

abbrev magnitude : ℤ → ℕ
magnitude n = pos_part n + neg_part n

abbrev is_negative : ℤ → Bool
is_negative (pos n) = false
is_negative (negsuc n) = true

-- `a <= b`
abbrev le : ℤ → ℤ → Bool
le a b = leb (pos_part a + neg_part b) (pos_part b + neg_part a)

-- `_int_to_double`
unfoldable pub int_to_double : (ℤ → Option Double) → ℤ → Option Double
int_to_double float_of value =
    if leb (magnitude value) exact_int_limit
    then some (finite value 0)
    else float_of value >>= λ d. elim d [
      | finite m e ↦ require (eq_frac (of_dyadic m e) (of_int value)) >> some (finite m e)
      | infinity up ↦ none
      | not_a_number ↦ none
    ]

-- `text.partition(sep)`, without the separator
unfoldable pub partition : ℕ → String → String × String
partition sep String.[] = ("", "")
partition sep (String.◌∷◌ c s) =
    let rest = partition sep s in if code c == sep then ("", s) else (String.◌∷◌ c rest.0, rest.1)

-- `lstrip("0")` and `rstrip("0")`
unfoldable pub lstrip_zeros : String → String
lstrip_zeros String.[] = ""
lstrip_zeros (String.◌∷◌ c s) =
    let rest = lstrip_zeros s in if code c == b'0' then rest else String.◌∷◌ c s

abbrev is_empty_text : String → Bool
is_empty_text String.[] = true
is_empty_text (String.◌∷◌ c s) = false

unfoldable pub rstrip_zeros : String → String
rstrip_zeros String.[] = ""
rstrip_zeros (String.◌∷◌ c s) =
    let rest = rstrip_zeros s in
    if code c == b'0' && is_empty_text rest then "" else String.◌∷◌ c rest

-- `digits[:n]` and `digits[n:]`
unfoldable pub text_take : ℕ → String → String
text_take zero s = ""
text_take (suc n) String.[] = ""
text_take (suc n) (String.◌∷◌ c s) = String.◌∷◌ c (text_take n s)

unfoldable pub text_drop : ℕ → String → String
text_drop zero s = s
text_drop (suc n) String.[] = ""
text_drop (suc n) (String.◌∷◌ c s) = text_drop n s

-- `"0" * n`
unfoldable pub zeros : ℕ → String
zeros zero = ""
zeros (suc n) = append "0" (zeros n)

-- `int(text)` of decimal digits
unfoldable pub read_digits : ℕ → String → ℕ
read_digits n String.[] = n
read_digits n (String.◌∷◌ c s) = read_digits (10 * n + (code c - b'0')) s

-- `int(exponent_text)` of an exponent that `repr` writes, and 0 where there is none
unfoldable pub read_exponent : String → ℤ
unfolding read_digits
read_exponent String.[] = pos 0
read_exponent (String.◌∷◌ c s) =
    if code c == b'-'
    then pos 0 -ℤ pos (read_digits 0 s)
    else if code c == b'+'
    then pos (read_digits 0 s)
    else pos (read_digits 0 (String.◌∷◌ c s))

-- `str(n)`, of a number below 10 ^ fuel
unfoldable pub decimal : ℕ → ℕ → String
decimal zero n = ""
decimal (suc fuel) n =
    let rest = decimal fuel (n / 10) in
    let last = String.◌∷◌ (digit (n % 10)) "" in if ltb n 10 then last else append rest last

-- `_shortest_digits`, of the `repr` of a positive double
unfoldable pub shortest_digits : String → String × ℤ
unfolding partition lstrip_zeros rstrip_zeros read_exponent
shortest_digits text =
    let parts = partition b'e' text in
    let whole = partition b'.' parts.0 in
    let raw = append whole.0 whole.1 in
    let stripped = lstrip_zeros raw in
    let leading_zeros = count raw - count stripped in
    (rstrip_zeros stripped, (pos (count whole.0) +ℤ read_exponent parts.1) -ℤ pos leading_zeros)

-- the body of `serialize_number`, of digits and a decimal exponent
unfoldable pub number_body : String → ℤ → String
unfolding text_take text_drop zeros decimal
number_body digits n =
    let k = count digits in
    if le (pos k) n && le n (pos 21)
    then append digits (zeros (magnitude n - k))
    else if le (pos 1) n && le n (pos 21)
    then append (text_take (magnitude n) digits) (append "." (text_drop (magnitude n) digits))
    else if le (pos 0 -ℤ pos 5) n && le n (pos 0)
    then append "0." (append (zeros (magnitude n)) digits)
    else (let exp = n -ℤ pos 1 in
        let exp_text =
          append (if is_negative exp then "-" else "+") (decimal 400 (magnitude exp)) in
        if k == 1
        then append digits (append "e" exp_text)
        else append (text_take 1 digits)
            (append "." (append (text_drop 1 digits) (append "e" exp_text))))

-- `serialize_number` of a double
unfoldable pub serialize_double : (Double → String) → Double → Option String
unfolding shortest_digits number_body
serialize_double repr (finite m e) =
    if magnitude m == 0
    then some "0"
    else (let shown = shortest_digits (repr (finite (pos (magnitude m)) e)) in
        let body = number_body shown.0 shown.1 in
        some (if is_negative m then append "-" body else body))
serialize_double repr (infinity up) = none
serialize_double repr not_a_number = none

-- `serialize_number` of an integer
unfoldable pub serialize_int : (ℤ → Option Double) → (Double → String) → ℤ → Option String
unfolding int_to_double serialize_double
serialize_int float_of repr n = int_to_double float_of n >>= serialize_double repr
