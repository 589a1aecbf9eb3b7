-- ===== src/Canonical.antt =====
-- Canonical JSON, of ski_schemas/canonical.py: the serialization of a value, and its bytes.
-- Unicode's NFC, `repr` of a double and `float` of a large integer are not the repository's, and are
-- parameters, as a record.
pub mod Text
pub mod Number
pub mod Order
pub mod Parse
pub mod Reorder
use ski_framework.Prelude.{
  ℕ, Bool, true, false, Option, none, some, List, [], ◌∷◌, ◌++◌, String, if◌then◌else◌, ◌>>=◌,
}
use ski_framework.Hex.{Bytes}
use ski_framework.Value.Numeric.{ℤ}
use ski_framework.Value.{
  Double, Value, Fields, Items, null, bool, int, float, str, obj, arr, field, end, cons, nil,
}
use ski_framework.Canonical.Text.{concat, serialize_string, utf16, less, utf8}
use ski_framework.Canonical.Number.{serialize_double, serialize_int}

-- what Python and its library give
pub record Platform : Type 0 where
  pub nfc : String → String
  pub repr : Double → String
  pub float_of : ℤ → Option Double

-- a member of an object: its name, and the chunks of its value
abbrev pub Member : Type 0
Member = String × List String

-- `names.sort(key=_utf16_sort_key)`, of the members
unfoldable pub insert : Member → List Member → List Member
unfolding utf16 less
insert m [] = m ∷ []
insert m (x ∷ ms) =
    let rest = insert m ms in if less (utf16 x.0) (utf16 m.0) then x ∷ rest else m ∷ x ∷ ms

unfoldable pub sort : List Member → List Member
unfolding insert
sort [] = []
sort (m ∷ ms) = insert m (sort ms)

-- the members of an object, with a comma in front of each but the first
unfoldable pub later_members : List Member → List String
unfolding serialize_string
later_members [] = "}" ∷ []
later_members (m ∷ ms) = "," ∷ serialize_string m.0 ∷ ":" ∷ (m.1 ++ later_members ms)

unfoldable pub object_chunks : List Member → List String
unfolding later_members serialize_string
object_chunks [] = "{" ∷ "}" ∷ []
object_chunks (m ∷ ms) = "{" ∷ serialize_string m.0 ∷ ":" ∷ (m.1 ++ later_members ms)

module _ (py : Platform) where
  -- `_serialize`: the chunks that it writes
  unfoldable mutual
    unfolding serialize_double serialize_int serialize_string sort object_chunks

    pub serialize : Value → Option (List String)
    serialize null = some ("null" ∷ [])
    serialize (bool b) = some ((if b then "true" else "false") ∷ [])
    serialize (int n) = serialize_int py.float_of py.repr n >>= λ s. some (s ∷ [])
    serialize (float d) = serialize_double py.repr d >>= λ s. some (s ∷ [])
    serialize (str s) = some (serialize_string s ∷ [])
    serialize (obj d) = serialize_members d >>= λ ms. some (object_chunks (sort ms))
    serialize (arr xs) = items xs >>= λ out. some ("[" ∷ out)

    pub serialize_members : Fields → Option (List Member)
    serialize_members end = some []
    serialize_members (field k v d) =
        serialize v >>= λ s. serialize_members d >>= λ ms. some ((k, s) ∷ ms)

    pub items : Items → Option (List String)
    items nil = some ("]" ∷ [])
    items (cons v vs) = serialize v >>= λ s. later_items vs >>= λ out. some (s ++ out)

    pub later_items : Items → Option (List String)
    later_items nil = some ("]" ∷ [])
    later_items (cons v vs) = serialize v >>= λ s. later_items vs >>= λ out. some ("," ∷ (s ++ out))

  -- `nfc_normalize_values`
  unfoldable mutual
    pub nfc_normalize_values : Value → Value
    nfc_normalize_values null = null
    nfc_normalize_values (bool b) = bool b
    nfc_normalize_values (int n) = int n
    nfc_normalize_values (float d) = float d
    nfc_normalize_values (str s) = str (py.nfc s)
    nfc_normalize_values (obj d) = obj (nfc_normalize_members d)
    nfc_normalize_values (arr xs) = arr (nfc_normalize_items xs)

    pub nfc_normalize_members : Fields → Fields
    nfc_normalize_members end = end
    nfc_normalize_members (field k v d) = field k (nfc_normalize_values v) (nfc_normalize_members d)

    pub nfc_normalize_items : Items → Items
    nfc_normalize_items nil = nil
    nfc_normalize_items (cons v vs) = cons (nfc_normalize_values v) (nfc_normalize_items vs)

  unfoldable pub jcs_canonicalize : Value → Option Bytes
  unfolding serialize concat utf8
  jcs_canonicalize v = serialize v >>= λ out. some (utf8 (concat out))

  unfoldable pub canonicalize : Value → Option Bytes
  unfolding jcs_canonicalize nfc_normalize_values
  canonicalize v = jcs_canonicalize (nfc_normalize_values v)
