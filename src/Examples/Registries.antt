-- ===== src/Examples/Registries.antt =====
-- A registry in which a subject is bound twice, in two spellings.
use ski_framework.Prelude.{String, ◌≡◌, refl, some, List, [], ◌∷◌, ◌>>=◌}
use ski_framework.Value.{Fields, field, end, str, get}
use ski_framework.Registry.{from_dict, normalise_subject, resolve_subject}
use ski_framework.Registry.Latest.{last_tag, last_rule, resolve_latest}

abbrev same_letters : String → String
same_letters s = s

abbrev first_rule : Fields
first_rule = field "id" (str "r1") (field "text" (str "old") end)

abbrev second_rule : Fields
second_rule = field "id" (str "r2") end

abbrev third_rule : Fields
third_rule = field "id" (str "r1") (field "text" (str "new") end)

abbrev tags : List (String × String)
tags = ("Water Level", "r2") ∷ (" water   level ", "r1") ∷ ("pressure", "r2") ∷ []

abbrev registry : List (String × Fields)
registry = ("water level", third_rule) ∷ ("pressure", second_rule) ∷ []

compiled : from_dict same_letters tags (first_rule ∷ second_rule ∷ third_rule ∷ []) ≡ some registry
unfolding from_dict get
compiled = refl

resolve_latest_example : resolve_subject same_letters "WATER LEVEL" registry ≡ (do
  id ← last_tag same_letters (normalise_subject same_letters "WATER LEVEL") tags
  last_rule id (first_rule ∷ second_rule ∷ third_rule ∷ []))
resolve_latest_example =
    resolve_latest same_letters "WATER LEVEL" tags (first_rule ∷ second_rule ∷ third_rule ∷ [])
      registry compiled
