-- ===== src/Prelude/Dicts.antt =====
-- Dictionaries with text keys: what holds of every item holds of what `lookup` finds.
use Prim.Native.String.{String}
use mathlib.Core.Path.{◌≡◌, subst}
use mathlib.Core.Logic.{inl, inr}
use mathlib.Core.Option.{some}
use mathlib.Core.List.{List, [], ◌∷◌}
use text.Mathlib.Text.{◌==◌ as str_eq}
use text.Mathlib.TextEquality.{eq_iff}
use ski_framework.Prelude.Tests.{Bool-cases}
use ski_framework.Prelude.Lists.{All}
use ski_framework.Prelude.Options.{lookup}

pub lookup-All {ℓ} :
    {V : Type ℓ} (P : String → V → Type 0) (d : List (String × V))
    → All (λ e. P e.0 e.1) d
    → (k : String) (v : V) → lookup k d ≡ some v
    → P k v
unfolding lookup
lookup-All P [] h k v e = cc
lookup-All P ((j, w) ∷ d) h k v e = elim (Bool-cases (str_eq j k)) [
  | inl same ↦
      subst (λ x. P x v) ((eq_iff j k).0 same)
        (let found : w ≡ v = cc (rw same at e) in subst (λ x. P j x) found h.0)
  | inr other ↦ lookup-All P d h.1 k v (rw other at e)
]
