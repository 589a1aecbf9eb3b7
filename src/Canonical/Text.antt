-- ===== src/Canonical/Text.antt =====
-- Texts of ski_schemas/canonical.py: escapes, the order of names by UTF-16, and the bytes of UTF-8.
-- A text has no lone surrogate here, so `_check_unicode` passes.
use Prim.Native.Nat.{◌/◌, ◌%◌}
use Prim.Native.Char.{Char, code}
use Prim.Native.String.{◌++◌ as append}
use ski_framework.Prelude.{
  ℕ, ◌+◌, ◌-◌, Bool, true, false, List, [], ◌∷◌, ◌++◌, String, ◌==◌, ltb, if◌then◌else◌,
}
use ski_framework.Hex.{Bytes, digit}

-- `"".join(out)`
unfoldable pub concat : List String → String
concat [] = ""
concat (s ∷ out) = append s (concat out)

-- a character of `_serialize_string`, in front of a text
unfoldable pub escape : Char → String → String
escape c s =
    if code c == 8
    then append "\\b" s
    else if code c == 9
    then append "\\t" s
    else if code c == 10
    then append "\\n" s
    else if code c == 12
    then append "\\f" s
    else if code c == 13
    then append "\\r" s
    else if code c == 34
    then append "\\\"" s
    else if code c == 92
    then append "\\\\" s
    else if ltb (code c) 32
    then append "\\u00" (String.◌∷◌ (digit (code c / 16)) (String.◌∷◌ (digit (code c % 16)) s))
    else String.◌∷◌ c s

-- the characters of a text, escaped, in front of another text
unfoldable pub escape_all : String → String → String
unfolding escape
escape_all String.[] t = t
escape_all (String.◌∷◌ c s) t = escape c (escape_all s t)

-- `_serialize_string`
unfoldable pub serialize_string : String → String
unfolding escape_all
serialize_string text = append "\"" (escape_all text "\"")

-- `_utf16_sort_key`, as code units
unfoldable pub utf16 : String → List ℕ
utf16 String.[] = []
utf16 (String.◌∷◌ c s) =
    let rest = utf16 s in
    if ltb (code c) 0x10000
    then code c ∷ rest
    else (0xD800 + (code c - 0x10000) / 1024) ∷ (0xDC00 + (code c - 0x10000) % 1024) ∷ rest

-- the order of sequences
unfoldable pub less : List ℕ → List ℕ → Bool
less [] [] = false
less [] (y ∷ ys) = true
less (x ∷ xs) [] = false
less (x ∷ xs) (y ∷ ys) =
    let rest = less xs ys in if ltb x y then true else if ltb y x then false else rest

-- `str.encode("utf-8")`
unfoldable pub utf8_char : ℕ → Bytes
utf8_char c =
    if ltb c 0x80
    then c ∷ []
    else if ltb c 0x800
    then (0xC0 + c / 64) ∷ (0x80 + c % 64) ∷ []
    else if ltb c 0x10000
    then (0xE0 + c / 4096) ∷ (0x80 + c / 64 % 64) ∷ (0x80 + c % 64) ∷ []
    else (0xF0 + c / 262144) ∷ (0x80 + c / 4096 % 64) ∷ (0x80 + c / 64 % 64) ∷ (0x80 + c % 64) ∷ []

unfoldable pub utf8 : String → Bytes
unfolding utf8_char
utf8 String.[] = []
utf8 (String.◌∷◌ c s) = utf8_char (code c) ++ utf8 s
