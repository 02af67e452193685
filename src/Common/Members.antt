-- ===== src/Common/Members.antt =====
-- Membership of texts in lists.
use mathlib.Core.Path.{◌≡◌, refl}
use mathlib.Core.Bool.{Bool, true, false, not, ◌&&◌, ◌||◌}
use mathlib.Core.List.{List, [], ◌∷◌, ◌++◌}
use native.Mathlib.Omega.{arith}
use samad_package_manager.Common.Lists.{keep}
use samad_package_manager.Common.Text.{Str, str_eq, eq_of_str_eq, str_eq_refl, mem}

pub mem-append : (s : Str) (xs ys : List Str) → mem s (xs ++ ys) ≡ (mem s xs || mem s ys)
unfolding mem
mem-append s [] ys = refl
mem-append s (x ∷ xs) ys = ground (arith, mem-append s xs ys)

pub mem-cons_self : (s : Str) (xs : List Str) → mem s (s ∷ xs) ≡ true
unfolding mem
mem-cons_self s xs = ground (arith, str_eq_refl s)

-- No text stands twice.
unfoldable pub unique : List Str → Bool
unique [] = true
unique (x ∷ xs) = not (mem x xs) && unique xs

pub unique-append_last :
    (xs : List Str) (y : Str) → unique xs ≡ true → mem y xs ≡ false → unique (xs ++ y ∷ []) ≡ true
unfolding unique mem
unique-append_last [] y h k = refl
unique-append_last (x ∷ xs) y h k =
    ground
      (arith, unique-append_last xs y, mem-append x xs (y ∷ []), eq_of_str_eq y x, str_eq_refl x)

-- Of two lists only the first is left to look at.
pub or_right : (a b : Bool) → a ≡ false → (a || b) ≡ true → b ≡ true
or_right a b h k = ground arith

-- What is filtered out by its text is no member, and the others stay.
pub mem-keep_others :
    (p q : Str) (xs : List Str)
    → mem p (keep (λ x. not (str_eq x q)) xs) ≡ (mem p xs && not (str_eq q p))
unfolding mem
mem-keep_others p q [] = refl
mem-keep_others p q (x ∷ xs) = ground (
  arith,
  mem-keep_others p q xs,
  eq_of_str_eq x p,
  eq_of_str_eq x q,
  eq_of_str_eq q p,
  str_eq_refl p,
)
