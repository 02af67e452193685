-- ===== src/Common/Assoc.antt =====
-- Maps from texts as association lists whose first entry for a key counts.
use mathlib.Core.Path.{◌≡◌, refl}
use mathlib.Core.Bool.{not}
use mathlib.Core.List.{List, [], ◌∷◌, map}
use mathlib.Core.Option.{Option, none, some}
use native.Mathlib.Omega.{arith}
use samad_package_manager.Common.Tests.{if◌then◌else◌}
use samad_package_manager.Common.Lists.{keep}
use samad_package_manager.Common.Text.{Str, str_eq, str_eq_refl, eq_of_str_eq}

module _ {ℓ} {V : Type ℓ} where
  unfoldable pub lookup : Str → List (Str × V) → Option V
  lookup k [] = none
  lookup k ((j, v) ∷ m) = if str_eq j k then some v else lookup k m

  unfoldable pub insert : Str → V → List (Str × V) → List (Str × V)
  insert k v [] = (k, v) ∷ []
  insert k v ((j, w) ∷ m) = if str_eq j k then (j, v) ∷ m else (j, w) ∷ insert k v m

  unfoldable pub delete : Str → List (Str × V) → List (Str × V)
  delete k = keep (λ e. not (str_eq (e.0) k))

  abbrev pub keys : List (Str × V) → List Str
  keys = map (λ e. e.0)

  pub lookup-insert :
      (k j : Str) (v : V) (m : List (Str × V))
      → lookup j (insert k v m) ≡ (if str_eq k j then some v else lookup j m)
  unfolding lookup insert
  lookup-insert k j v [] = refl
  lookup-insert k j v ((i, w) ∷ m) = ground (
    arith,
    lookup-insert k j v m,
    eq_of_str_eq i k,
    eq_of_str_eq i j,
    eq_of_str_eq k j,
    str_eq_refl k,
  )

  pub lookup-delete :
      (k j : Str) (m : List (Str × V))
      → lookup j (delete k m) ≡ (if str_eq k j then none else lookup j m)
  unfolding lookup delete
  lookup-delete k j [] = ground arith
  lookup-delete k j ((i, w) ∷ m) = ground (
    arith,
    lookup-delete k j m,
    eq_of_str_eq i k,
    eq_of_str_eq i j,
    eq_of_str_eq k j,
    str_eq_refl k,
    str_eq_refl j,
  )
