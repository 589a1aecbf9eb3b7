-- ===== src/Loader/Flat.antt =====
-- `flat_to_graph` of tools/ski-schemas/src/ski_schemas/kg_graph.py: the graph for a document of the earlier shape.
-- Nothing where the code raises. A jurisdiction that is no text is refused here; the code refuses it a step later,
-- where the graph is compiled.
use Prim.Native.String.{◌++◌ as append}
use ski_framework.Prelude.{
  String, Bool, true, false, not, ◌&&◌, Option, none, some, List, [], ◌∷◌, ◌++◌, ◌>>=◌, ◌>>◌,
  require, lookup, is_some, one_of, str_eq, ◌==◌, if◌then◌else◌,
}
use ski_framework.Value.{
  Value, null, bool, int, float, Double, finite, str, obj, arr, Fields, field, end, Items, cons,
  nil, find, get,
}
use ski_framework.Value.Numeric.{ℤ, pos, negsuc}
use ski_framework.Value.Case.{is_blank, strip, lower}
use ski_framework.Hex.{Bytes, hex}
use ski_framework.Canonical.{Platform, canonicalize}
use ski_framework.Graph.Texts.{add, sort_texts}

-- what Python and its libraries give: `str(v)` and `json.dumps(v, sort_keys=True, …).encode()`
pub record Python : Type 0 where
  pub platform : Platform
  pub sha256 : Bytes → Bytes
  pub show : Value → String
  pub dumps : Value → Option Bytes
  pub lower_other : String → String

abbrev is_zero : ℤ → Bool
is_zero (pos n) = n == 0
is_zero (negsuc n) = false

abbrev is_zero_double : Double → Bool
is_zero_double d = elim d [ finite m e ↦ is_zero m | _ ↦ false ]

-- Python's truth of a value
unfoldable pub truthy : Value → Bool
unfolding is_blank
truthy null = false
truthy (bool b) = b
truthy (int n) = not (is_zero n)
truthy (float x) = not (is_zero_double x)
truthy (str s) = not (is_blank s)
truthy (obj d) = elim d [ end ↦ false | field k v e ↦ true ]
truthy (arr vs) = elim vs [ nil ↦ false | cons v ws ↦ true ]

-- `v or w`
unfoldable pub or_value : Value → Value → Value
unfolding truthy
or_value v w = if truthy v then v else w

-- `str(v or s)`
unfoldable pub text_or : Python → Value → String → String
unfolding truthy
text_or py v s = if truthy v then py.show v else s

-- `sha256_canonical`
unfoldable pub sha256_canonical : Python → Value → Option String
unfolding canonicalize
sha256_canonical py v = do
  bytes ← canonicalize py.platform v
  some (append "sha256:" (hex (py.sha256 bytes)))

-- `{**node, key: value}`, where the node has no such key
abbrev pub put_last : String → Value → Fields → Fields
put_last k v end = field k v end
put_last k v (field j w d) = field j w (put_last k v d)

-- `_versioned`
unfoldable pub versioned : Python → Fields → Option Value
unfolding sha256_canonical
versioned py node = do
  version ← sha256_canonical py (obj node)
  some (obj (put_last "version" (str version) node))

unfoldable pub versioned_all : Python → List Fields → Option Items
unfolding versioned
versioned_all py [] = some nil
versioned_all py (node ∷ nodes) = do
  first ← versioned py node
  rest ← versioned_all py nodes
  some (cons first rest)

unfoldable item_list : List Value → Items
item_list [] = nil
item_list (v ∷ vs) = cons v (item_list vs)

-- `_TIERS`
abbrev pub flat_tiers : List (String × String)
flat_tiers =
    ("tier-1", "high")
    ∷ ("tier1", "high")
    ∷ ("high", "high")
    ∷ ("high-risk", "high")
    ∷ ("tier-2", "medium")
    ∷ ("tier2", "medium")
    ∷ ("standard", "medium")
    ∷ ("default", "medium")
    ∷ ("medium", "medium")
    ∷ ("tier-3", "low")
    ∷ ("tier3", "low")
    ∷ ("low", "low")
    ∷ ("low-risk", "low")
    ∷ []

-- `_KEPT`
abbrev pub kept_keys : List String
kept_keys = "metric" ∷ "value" ∷ "unit" ∷ "window_seconds" ∷ "requires_recent_within_seconds" ∷ []

abbrev where_some : String → Option Value → Fields → Fields
where_some k o rest = elim o [ none ↦ rest | some v ↦ elim v [ null ↦ rest | w ↦ field k w rest ] ]

abbrev where_true : String → Value → Fields → Fields
where_true k v rest = if truthy v then field k v rest else rest

unfoldable pub keep_fields : List String → Fields → Fields → Fields
unfolding find
keep_fields [] rule rest = rest
keep_fields (k ∷ ks) rule rest = where_some k (find k rule) (keep_fields ks rule rest)

abbrev default_value : Option Value → Value → Value
default_value none d = d
default_value (some v) d = v

unfoldable pub flat_obligation : String → Fields → Fields
unfolding find get keep_fields truthy
flat_obligation id rule = field "id" (str id) (
    field "type" (str "Obligation") (
      field "obligation_type" (default_value (find "predicate" rule) (str "must_not_exceed")) (
        keep_fields kept_keys rule (
          where_true "effective_date_start" (get "effective_date" rule) (
            where_true "effective_date_end" (get "sunset_date" rule)
              (where_true "summary" (get "name" rule) end))))))

abbrev tier_of_text : Python → Value → Option String
tier_of_text py v = elim v [ str s ↦ lookup (lower py.lower_other (strip s)) flat_tiers | _ ↦ none ]

unfoldable pub flat_rule_node : Python → String → Fields → Fields
unfolding get text_or lookup strip lower
flat_rule_node py id rule = field "id" (str (append "rule." id)) (
    field "type" (str "Rule") (
      field "name" (str (text_or py (get "name" rule) id))
        (elim (tier_of_text py (get "risk_tier" rule)) [
          | some tier ↦ field "risk_tier" (str tier) end
          | none ↦ end
        ])))

unfoldable text_items : Items → Option (List String)
text_items nil = some []
text_items (cons v vs) = elim v [ str s ↦ (do ss ← text_items vs; some (s ∷ ss)) | _ ↦ none ]

unfoldable names_of : Fields → List String
names_of end = []
names_of (field k v d) = k ∷ names_of d

-- `[scope] if isinstance(scope, str) else (scope or [])`
unfoldable pub scope_texts : Value → Option (List String)
unfolding truthy text_items names_of
scope_texts (str s) = some (s ∷ [])
scope_texts (arr vs) = text_items vs
scope_texts (obj d) = some (names_of d)
scope_texts v = if truthy v then none else some []

-- what the loop over the rules gathers
pub record Parts : Type 0 where
  pub obligations : List Fields
  pub rules : List Fields
  pub edges : List Value
  pub jurisdictions : List String

abbrev pub edge_value : String → String → String → Value
edge_value type source target =
    obj (field "type" (str type) (field "from" (str source) (field "to" (str target) end)))

-- the loop over the jurisdictions of a rule
unfoldable pub scope_parts : String → List String → Parts → Parts
unfolding add one_of
scope_parts id [] parts = parts
scope_parts id (j ∷ js) parts = scope_parts id js (
    if one_of j ("global" ∷ "*" ∷ "" ∷ []) then parts else record parts {
      jurisdictions = add j parts.jurisdictions;
      edges = parts.edges ++ (edge_value "scoped_to" id j ∷ []);
    })

abbrev usable_text : Value → Option String
usable_text v = elim v [ str s ↦ if is_blank s then none else some s | _ ↦ none ]

-- the loop over the rules
unfoldable pub rule_parts : Python → List Fields → Parts → Option Parts
unfolding get flat_obligation flat_rule_node scope_texts scope_parts is_blank
rule_parts py [] parts = some parts
rule_parts py (rule ∷ rules) parts = do
  id ← usable_text (get "id" rule)
  scope ← scope_texts (get "jurisdiction" rule)
  rule_parts py rules (
      scope_parts id scope (record parts {
        obligations = parts.obligations ++ (flat_obligation id rule ∷ []);
        rules = parts.rules ++ (flat_rule_node py id rule ∷ []);
        edges = parts.edges ++ (edge_value "consists_of" (append "rule." id) id ∷ []);
      }))

unfoldable objects : Items → Option (List Fields)
objects nil = some []
objects (cons v vs) = elim v [ obj d ↦ (do ds ← objects vs; some (d ∷ ds)) | _ ↦ none ]

-- the ids of the rules, each a text that is not empty
unfoldable pub rule_ids : List Fields → Option (List String)
unfolding get is_blank
rule_ids [] = some []
rule_ids (rule ∷ rules) = do id ← usable_text (get "id" rule); ids ← rule_ids rules; some (id ∷ ids)

-- no `bad_routes`
unfoldable pub routes_known : List String → Fields → Bool
unfolding one_of
routes_known ids end = true
routes_known ids (field subject v d) =
    (elim v [ str r ↦ one_of r ids | _ ↦ false ]) && routes_known ids d

abbrev named_node : String → String → Fields
named_node type s = field "id" (str s) (field "type" (str type) (field "name" (str s) end))

unfoldable named_all : String → List String → List Fields
named_all type [] = []
named_all type (s ∷ ss) = named_node type s ∷ named_all type ss

abbrev route_of : Value → String
route_of v = elim v [ str r ↦ append "rule." r | _ ↦ "rule." ]

unfoldable pub route_edges : Fields → List String → List Value
unfolding get
route_edges registry [] = []
route_edges registry (subject ∷ subjects) =
    edge_value "applies_to" (route_of (get subject registry)) subject
    ∷ route_edges registry subjects

-- `metadata.setdefault("name", …)`, then `metadata["schema_version"] = "3.0"`
unfoldable pub set_field : String → Value → Fields → Fields
set_field k v end = field k v end
set_field k v (field j w d) =
    let rest = set_field k v d in if str_eq j k then field j v d else field j w rest

unfoldable pub flat_metadata : Python → Fields → Fields
unfolding find get text_or set_field
flat_metadata py metadata = set_field "schema_version" (str "3.0") (
    if is_some (find "name" metadata)
    then metadata
    else put_last "name" (str (text_or py (get "version" metadata) "converted-kg")) metadata)

abbrev object? : Value → Option Fields
object? v = elim v [ obj d ↦ some d | _ ↦ none ]

abbrev array? : Value → Option Items
array? v = elim v [ arr vs ↦ some vs | _ ↦ none ]

abbrev no_parts : Parts
no_parts = record { obligations = []; rules = []; edges = []; jurisdictions = [] }

-- `flat_to_graph`, with no default date
unfoldable pub flat_to_graph : Python → Fields → Option Fields
unfolding get or_value objects rule_ids routes_known rule_parts versioned_all named_all names_of
    sort_texts route_edges item_list flat_metadata
flat_to_graph py flat = do
  metadata ← object? (or_value (get "metadata" flat) (obj end))
  raw_rules ← array? (or_value (get "rules" flat) (arr nil))
  registry ← object? (or_value (get "tag_registry" flat) (obj end))
  rules ← objects raw_rules
  ids ← rule_ids rules
  require (routes_known ids registry)
  parts ← rule_parts py rules no_parts
  obligations ← versioned_all py parts.obligations
  rule_nodes ← versioned_all py parts.rules
  let routed = sort_texts (names_of registry)
  subjects ← versioned_all py (named_all "Subject" routed)
  jurisdictions ← versioned_all py (named_all "Jurisdiction" (sort_texts parts.jurisdictions))
  some (
      field "metadata" (obj (flat_metadata py metadata)) (
        field "nodes"
          (obj (
            field "subjects" (arr subjects) (
              field "rules" (arr rule_nodes) (
                field "obligations" (arr obligations)
                  (field "jurisdictions" (arr jurisdictions) end)))))
          (field "edges" (arr (item_list (parts.edges ++ route_edges registry routed))) end)))
