-- ===== src/Common/Sort.antt =====
-- A stable sort, as `sort_by_key`, `sort` and ORDER BY use one, and the order of texts.
use Prim.Native.Nat.{ℕ, ◌+◌, compare, Ordering}
use mathlib.Core.Path.{◌≡◌, refl}
use mathlib.Core.Logic.{inl, inr}
use mathlib.Core.Bool.{Bool, true, false, ◌&&◌}
use mathlib.Core.List.{List, [], ◌∷◌}
use native.Mathlib.Omega.{arith}
use samad_package_manager.Common.Tests.{if◌then◌else◌, Bool-cases}
use samad_package_manager.Common.Text.{Str}

-- The order of the bytes.
unfoldable pub str_leb : Str → Str → Bool
str_leb [] t = true
str_leb (x ∷ s) [] = false
str_leb (x ∷ s) (y ∷ t) =
    let rest = str_leb s t in
    elim (compare x y) [ Ordering.lt ↦ true | Ordering.eq ↦ rest | Ordering.gt ↦ false ]

module _ {ℓ} {A : Type ℓ} (le : A → A → Bool) where
  unfoldable pub insert_by : A → List A → List A
  insert_by x [] = x ∷ []
  insert_by x (y ∷ ys) = let rest = insert_by x ys in if le x y then x ∷ y ∷ ys else y ∷ rest

  unfoldable pub sort_by : List A → List A
  unfolding insert_by
  sort_by [] = []
  sort_by (x ∷ xs) = insert_by x (sort_by xs)

  -- Every entry is in order with the next one.
  abbrev pub sorted : List A → Bool
  sorted [] = true
  sorted (x ∷ []) = true
  sorted (x ∷ y ∷ ys) = le x y && sorted (y ∷ ys)

  abbrev pub count_by : (A → Bool) → List A → ℕ
  count_by p [] = 0
  count_by p (x ∷ xs) = (if p x then 1 else 0) + count_by p xs

  pub count_by-insert :
      (p : A → Bool) (x : A) (ys : List A)
      → count_by p (insert_by x ys) ≡ (if p x then 1 else 0) + count_by p ys
  unfolding insert_by
  count_by-insert p x [] = refl
  count_by-insert p x (y ∷ ys) = ground (arith, count_by-insert p x ys)

  -- Sorting keeps every entry as often as it was there.
  pub count_by-sort : (p : A → Bool) (xs : List A) → count_by p (sort_by xs) ≡ count_by p xs
  unfolding sort_by
  count_by-sort p [] = refl
  count_by-sort p (x ∷ xs) = ground (arith, count_by-insert p x (sort_by xs), count_by-sort p xs)

  module _ (total : (x y : A) → le x y ≡ false → le y x ≡ true) where
    insert_under :
        (x y : A) (ys : List A)
        → le y x ≡ true
        → sorted (y ∷ ys) ≡ true
        → sorted (y ∷ insert_by x ys) ≡ true
    unfolding insert_by
    insert_under x y [] h s = ground arith
    insert_under x y (z ∷ ys) h s = elim (Bool-cases (le x z)) [
      | inl e ↦ rw e (ground arith)
      | inr e ↦ rw e (ground (arith, insert_under x z ys (total x z e)))
    ]

    pub insert-sorted : (x : A) (ys : List A) → sorted ys ≡ true → sorted (insert_by x ys) ≡ true
    unfolding insert_by
    insert-sorted x [] s = refl
    insert-sorted x (y ∷ ys) s = elim (Bool-cases (le x y)) [
      | inl e ↦ rw e (ground arith)
      | inr e ↦ rw e (insert_under x y ys (total x y e) s)
    ]

    pub sort-sorted : (xs : List A) → sorted (sort_by xs) ≡ true
    unfolding sort_by
    sort-sorted [] = refl
    sort-sorted (x ∷ xs) = insert-sorted x (sort_by xs) (sort-sorted xs)
