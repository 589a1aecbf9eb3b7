-- ===== src/Value.antt =====
-- The JSON values that Python code handles as `Any`: what `json.loads` returns.
--
-- A Python `int` is an unbounded integer. A finite double is a dyadic rational: `finite m e` is
-- m / 2 ^ e, which is exact, as Python's comparisons of an `int` with a `float` are. The sign of
-- a zero is not kept: no comparison reads it. Tuples do not come out of JSON, and are lists here.
pub mod Numeric
pub mod Text
pub mod Case
use ski_framework.Prelude.{
  Bool, true, false, String, Option, none, some, List, [], ◌∷◌, ◌&&◌, str_eq, ℕ, suc, ◌==◌,
  if◌then◌else◌,
}
use Numeric.{pos, ℤ, Number, Frac, exact, infinite, nan, of_int, of_dyadic, eq_number}

pub data Double : Type 0 where
  finite : ℤ → ℕ → Double
  infinity : Bool → Double
  not_a_number : Double

mutual
  pub data Value : Type 0 where
    null : Value
    bool : Bool → Value
    int : ℤ → Value
    float : Double → Value
    str : String → Value
    obj : Fields → Value
    arr : Items → Value

  -- the entries of a dict
  pub data Fields : Type 0 where
    field : String → Value → Fields → Fields
    end : Fields

  -- the items of a list
  pub data Items : Type 0 where
    cons : Value → Items → Items
    nil : Items

unfoldable pub elements : Items → List Value
elements nil = []
elements (cons v vs) = v ∷ elements vs

-- `key in d`, with the value
unfoldable pub find : String → Fields → Option Value
find k end = none
find k (field j v d) = if str_eq j k then some v else find k d

abbrev pub or_null : Option Value → Value
or_null none = null
or_null (some v) = v

-- `d.get(key)`: `None` where the key is missing
unfoldable pub get : String → Fields → Value
unfolding find
get k d = or_null (find k d)

unfoldable pub size : Fields → ℕ
size end = 0
size (field k v d) = suc (size d)

-- The number that a value is in a comparison; Python's `bool` is an `int`.
unfoldable pub number? : Value → Option Number
number? (bool b) = some (exact (if b then of_int (pos 1) else of_int (pos 0)))
number? (int n) = some (exact (of_int n))
number? (float (finite m e)) = some (exact (of_dyadic m e))
number? (float (infinity up)) = some (infinite up)
number? (float not_a_number) = some nan
number? _ = none

abbrev eq_numbers : Option Number → Option Number → Bool
eq_numbers (some a) (some b) = eq_number a b
eq_numbers _ _ = false

-- Python's `==`: numbers across their types, lists element by element, dicts by key.
unfoldable mutual
  pub eq_value : Value → Value → Bool
  eq_value null w = elim w [ null ↦ true | _ ↦ false ]
  eq_value (str s) w = elim w [ str t ↦ str_eq s t | _ ↦ false ]
  eq_value (arr xs) w = elim w [ arr ys ↦ eq_items xs ys | _ ↦ false ]
  eq_value (obj d) w = elim w [ obj e ↦ size d == size e && sub_fields d e | _ ↦ false ]
  eq_value (bool b) w = eq_numbers (number? (bool b)) (number? w)
  eq_value (int n) w = eq_numbers (number? (int n)) (number? w)
  eq_value (float x) w = eq_numbers (number? (float x)) (number? w)

  pub eq_items : Items → Items → Bool
  eq_items nil ys = elim ys [ nil ↦ true | _ ↦ false ]
  eq_items (cons x xs) ys = elim ys [ nil ↦ false | cons y r ↦ eq_value x y && eq_items xs r ]

  pub sub_fields : Fields → Fields → Bool
  sub_fields end e = true
  sub_fields (field k v d) e = elim (find k e) [
    | none ↦ false
    | some w ↦ eq_value v w && sub_fields d e
  ]

-- `x in values`
unfoldable pub contains : Value → List Value → Bool
contains x [] = false
contains x (v ∷ vs) = if eq_value x v then true else contains x vs

abbrev pub is_bool : Value → Bool
is_bool (bool b) = true
is_bool _ = false

abbrev pub is_null : Value → Bool
is_null null = true
is_null _ = false

abbrev pub text? : Value → Option String
text? (str s) = some s
text? _ = none

abbrev pub fields? : Value → Option Fields
fields? (obj d) = some d
fields? _ = none
