-- ===== src/Value/Case.antt =====
-- Python's `str.strip()` and `str.lower()`. The case table of Unicode is data outside the
-- repository: `lower` of a text that is not ASCII is the parameter `lower_other`.
use Prim.Native.Char.{Char, code}
use ski_framework.Prelude.{
  String, Bool, true, false, ◌&&◌, ◌||◌, [], ◌∷◌, any, leb, ltb, ◌==◌, if◌then◌else◌,
}

-- the white space that `strip` takes off
abbrev is_space : Char → Bool
is_space c =
    (leb 9 (code c) && leb (code c) 13)
    || (leb 28 (code c) && leb (code c) 32)
    || (leb 8192 (code c) && leb (code c) 8202)
    || any (λ n. code c == n) (133 ∷ 160 ∷ 5760 ∷ 8232 ∷ 8233 ∷ 8239 ∷ 8287 ∷ 12288 ∷ [])

unfoldable strip_left : String → String
strip_left String.[] = String.[]
strip_left (String.◌∷◌ c s) = let rest = strip_left s in if is_space c then rest else String.◌∷◌ c s

abbrev starts_space : String → Bool
starts_space String.[] = false
starts_space (String.◌∷◌ c s) = is_space c

abbrev is_empty_text : String → Bool
is_empty_text String.[] = true
is_empty_text (String.◌∷◌ c s) = false

unfoldable strip_right : String → String
strip_right String.[] = String.[]
strip_right (String.◌∷◌ c s) =
    let rest = strip_right s in
    if is_space c && is_empty_text rest then String.[] else String.◌∷◌ c rest

unfoldable pub strip : String → String
unfolding strip_left strip_right
strip s = strip_right (strip_left s)

-- `not s`
unfoldable pub is_blank : String → Bool
is_blank s = is_empty_text s

unfoldable is_ascii : String → Bool
is_ascii String.[] = true
is_ascii (String.◌∷◌ c s) = ltb (code c) 128 && is_ascii s

-- the letter that stands in the second text where `c` stands in the first
unfoldable swap_letter : String → String → Char → Char
swap_letter String.[] lows c = c
swap_letter (String.◌∷◌ u ups) String.[] c = c
swap_letter (String.◌∷◌ u ups) (String.◌∷◌ l lows) c =
    if code u == code c then l else swap_letter ups lows c

unfoldable lower_ascii : String → String
unfolding swap_letter
lower_ascii String.[] = String.[]
lower_ascii (String.◌∷◌ c s) =
    String.◌∷◌ (swap_letter "ABCDEFGHIJKLMNOPQRSTUVWXYZ" "abcdefghijklmnopqrstuvwxyz" c)
      (lower_ascii s)

unfoldable pub lower : (String → String) → String → String
unfolding is_ascii lower_ascii
lower lower_other s = if is_ascii s then lower_ascii s else lower_other s

-- `re.sub(r"\s+", " ", s)`: each run of white space becomes one space
unfoldable pub collapse : String → String
collapse String.[] = String.[]
collapse (String.◌∷◌ c s) =
    let rest = collapse s in
    if is_space c then (if starts_space s then rest else String.◌∷◌ " " rest) else String.◌∷◌ c rest
