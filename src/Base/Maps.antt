-- ===== src/Base/Maps.antt =====
-- Go's `map[string]V` as an association list. Where the source ranges over a map, the list's order
-- is one of the orders that the range may take.
use ai_model_scheduler.Base.Tests.{if◌then◌else◌}
use Prim.Native.String.{String}
use text.Mathlib.TextPositions.{eq_refl}
use text.Mathlib.TextEquality.{eq_iff}
use mathlib.Core.List.{List, [], ◌∷◌}
use text.Mathlib.Text.{◌==◌}
use mathlib.Core.Option.{Option, none, some}
use native.Mathlib.Omega.{arith}
use mathlib.Core.Path.{◌≡◌, refl}

abbrev pub Dict {ℓ} : Type ℓ → Type ℓ
Dict V = List (String × V)

module _ {ℓ} {V : Type ℓ} where
  -- v, ok := m[key]
  unfoldable pub lookup : String → Dict V → Option V
  lookup key [] = none
  lookup key ((name, value) ∷ more) =
      let later = lookup key more in if name == key then some value else later

  -- m[key] = value
  unfoldable pub insert : String → V → Dict V → Dict V
  insert key value [] = (key, value) ∷ []
  insert key value ((name, old) ∷ more) =
      let later = insert key value more in
      if name == key then (key, value) ∷ more else (name, old) ∷ later

  pub lookup-insert :
      (key asked : String) (value : V) (dict : Dict V)
      → lookup asked (insert key value dict)
        ≡ (if key == asked then some value else lookup asked dict)
  unfolding insert lookup
  lookup-insert key asked value [] = refl
  lookup-insert key asked value ((name, old) ∷ more) =
      let later = lookup-insert key asked value more in
      ground (arith, later, eq_iff name asked, eq_iff name key, eq_iff key asked)

  pub lookup-insert_self : (k : String) (v : V) (m : Dict V) → lookup k (insert k v m) ≡ some v
  lookup-insert_self k v m = simp (lookup-insert, eq_refl)

-- m[k], with the zero value "" of a missing key.
unfoldable pub get_text : String → Dict String → String
unfolding lookup
get_text k m = elim (lookup k m) [ none ↦ "" | some v ↦ v ]
