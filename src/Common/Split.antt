-- ===== src/Common/Split.antt =====
-- Where a text is split around a character, and where it is not.
use Prim.Native.Nat.{ℕ}
use mathlib.Core.Path.{◌≡◌, refl}
use mathlib.Core.Logic.{inl, inr}
use mathlib.Core.Bool.{Bool, false, ◌||◌}
use mathlib.Core.List.{[], ◌∷◌, ◌++◌}
use mathlib.Core.Option.{none, some}
use native.Mathlib.Omega.{arith}
use samad_package_manager.Common.Tests.{◌==◌, ==_refl, Option-cases}
use samad_package_manager.Common.Text.{Str, split_char, rsplit_char}

abbrev pub has_char : ℕ → Str → Bool
has_char p [] = false
has_char p (c ∷ s) = c == p || has_char p s

module _ (p : ℕ) where
  pub split_char-none : (s : Str) → has_char p s ≡ false → split_char p s ≡ none
  unfolding split_char
  split_char-none [] h = refl
  split_char-none (c ∷ s) h = ground (arith, split_char-none s)

  pub rsplit_char-none : (s : Str) → has_char p s ≡ false → rsplit_char p s ≡ none
  unfolding rsplit_char
  rsplit_char-none [] h = refl
  rsplit_char-none (c ∷ s) h = ground (arith, rsplit_char-none s)

  -- The first occurrence splits.
  pub split_char-append :
      (a b : Str) → has_char p a ≡ false → split_char p (a ++ p ∷ b) ≡ some (a, b)
  unfolding split_char
  split_char-append [] b h = ground (arith, ==_refl p)
  split_char-append (c ∷ a) b h = ground (arith, split_char-append a b)

  -- The last occurrence splits.
  pub rsplit_char-append :
      (a b : Str) → has_char p b ≡ false → rsplit_char p (a ++ p ∷ b) ≡ some (a, b)
  unfolding rsplit_char
  rsplit_char-append [] b h = ground (arith, ==_refl p, rsplit_char-none b)
  rsplit_char-append (c ∷ a) b h = ground (arith, rsplit_char-append a b)

  pub has_char-append :
      (a b : Str) → has_char p a ≡ false → has_char p b ≡ false → has_char p (a ++ b) ≡ false
  has_char-append [] b h k = k
  has_char-append (c ∷ a) b h k = ground (arith, has_char-append a b)

  no_char_of_rsplit : (s : Str) → rsplit_char p s ≡ none → has_char p s ≡ false
  unfolding rsplit_char
  no_char_of_rsplit [] h = refl
  no_char_of_rsplit (c ∷ s) h = elim (Option-cases (rsplit_char p s)) [
    | inl e ↦ ground (arith, no_char_of_rsplit s e)
    | inr (_, e) ↦ ground arith
  ]

  -- What stands behind the last occurrence does not hold another.
  pub rsplit_char-clean : (s a b : Str) → rsplit_char p s ≡ some (a, b) → has_char p b ≡ false
  unfolding rsplit_char
  rsplit_char-clean [] a b h = cc
  rsplit_char-clean (c ∷ s) a b h = elim (Option-cases (rsplit_char p s)) [
    | inl e ↦ ground (arith, no_char_of_rsplit s e)
    | inr ((a', b'), e) ↦ ground (arith, rsplit_char-clean s a' b' e)
  ]
