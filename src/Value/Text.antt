-- ===== src/Value/Text.antt =====
-- Dotted paths: `str.split(".")` and `"." in s`.
use Prim.Native.Char.{Char, code}
use ski_framework.Prelude.{String, List, [], ◌∷◌, Bool, false, ◌||◌, ◌==◌, if◌then◌else◌}

abbrev is_dot : Char → Bool
is_dot c = code c == b'.'

-- the character in front of the first part
abbrev push : Char → List String → List String
push c [] = String.◌∷◌ c String.[] ∷ []
push c (part ∷ parts) = String.◌∷◌ c part ∷ parts

unfoldable pub split_dots : String → List String
split_dots String.[] = String.[] ∷ []
split_dots (String.◌∷◌ c s) =
    let parts = split_dots s in if is_dot c then String.[] ∷ parts else push c parts

unfoldable pub has_dot : String → Bool
has_dot String.[] = false
has_dot (String.◌∷◌ c s) = is_dot c || has_dot s
