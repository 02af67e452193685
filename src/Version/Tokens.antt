-- ===== src/Version/Tokens.antt =====
-- What a version text means: the list of its segments, compared segment by segment. This is the
-- description that `Version.Refinement` holds the loop of src/types/version.rs against.
use samad_package_manager.Common.Order.{IsLinear}
use samad_package_manager.Common.{
  ℕ, zero, suc, compare, Ordering, lt, eq, gt, ◌≡◌, refl, Option, none, some, List, [], ◌∷◌, length,
  Str, if◌then◌else◌, is_digit, is_alpha, take_while, drop_while, arith, then_with, flip,
}
use samad_package_manager.Version.Compare.{
  head_is, tail, is_tilde, is_separator, strip_zeros, first_difference, compare_bytes,
}

-- A tilde, a run of digits without its leading zeros, or a run of letters.
pub data Token : Type 0 where
  tilde : Token
  number word : Str → Token

abbrev pub segment_of : Str → Option (Token × Str)
segment_of [] = none
segment_of (c ∷ s) =
    if is_digit c
    then some (
      number (take_while is_digit (strip_zeros (c ∷ s))),
      drop_while is_digit (strip_zeros (c ∷ s)),
    )
    else some (word (take_while is_alpha (c ∷ s)), drop_while is_alpha (c ∷ s))

-- The first segment of a text, and what follows it.
unfoldable pub next_token : Str → Option (Token × Str)
next_token s =
    if head_is is_tilde s then some (tilde, tail s) else segment_of (drop_while is_separator s)

abbrev pub cons_token : (Str → List Token) → Option (Token × Str) → List Token
cons_token rest none = []
cons_token rest (some (t, s)) = t ∷ rest s

unfoldable pub tokens_fuel : ℕ → Str → List Token
tokens_fuel zero s = []
tokens_fuel (suc fuel) s = cons_token (tokens_fuel fuel) (next_token s)

unfoldable pub tokens : Str → List Token
tokens s = tokens_fuel (suc (length s)) s

-- Numbers compare by their length without leading zeros and then by digits.
unfoldable pub compare_numbers : Str → Str → Ordering
compare_numbers a b = then_with (compare (length a) (length b)) (first_difference a b)

-- A tilde is below everything, and numbers are below words.
unfoldable pub compare_token : Token → Token → Ordering
compare_token tilde tilde = eq
compare_token tilde (number b) = lt
compare_token tilde (word b) = lt
compare_token (number a) tilde = gt
compare_token (number a) (number b) = compare_numbers a b
compare_token (number a) (word b) = lt
compare_token (word a) tilde = gt
compare_token (word a) (number b) = gt
compare_token (word a) (word b) = compare_bytes a b

-- The end of a text is above a tilde and below every other segment.
unfoldable pub compare_end : List Token → Ordering
compare_end [] = eq
compare_end (tilde ∷ ts) = gt
compare_end (number a ∷ ts) = lt
compare_end (word a ∷ ts) = lt

unfoldable pub compare_tokens : List Token → List Token → Ordering
unfolding compare_end
compare_tokens [] us = compare_end us
compare_tokens (t ∷ ts) [] = flip (compare_end (t ∷ ts))
compare_tokens (t ∷ ts) (u ∷ us) = then_with (compare_token t u) (compare_tokens ts us)

compare_bytes_refl : (a : Str) → compare_bytes a a ≡ eq
unfolding compare_bytes
compare_bytes_refl [] = refl
compare_bytes_refl (x ∷ a) = ground (arith, compare_bytes_refl a)

eq_of_compare_bytes : (a b : Str) → compare_bytes a b ≡ eq → a ≡ b
unfolding compare_bytes
eq_of_compare_bytes [] [] h = refl
eq_of_compare_bytes [] (y ∷ b) h = cc
eq_of_compare_bytes (x ∷ a) [] h = cc
eq_of_compare_bytes (x ∷ a) (y ∷ b) h = ground (arith, eq_of_compare_bytes a b)

compare_bytes-flip : (a b : Str) → compare_bytes b a ≡ flip (compare_bytes a b)
unfolding compare_bytes
compare_bytes-flip [] [] = refl
compare_bytes-flip [] (y ∷ b) = refl
compare_bytes-flip (x ∷ a) [] = refl
compare_bytes-flip (x ∷ a) (y ∷ b) = ground (arith, compare_bytes-flip a b)

compare_bytes_trans :
    (a b c : Str) → compare_bytes a b ≡ lt → compare_bytes b c ≡ lt → compare_bytes a c ≡ lt
unfolding compare_bytes
compare_bytes_trans [] [] c h k = cc
compare_bytes_trans [] (y ∷ b) [] h k = cc
compare_bytes_trans [] (y ∷ b) (z ∷ c) h k = refl
compare_bytes_trans (x ∷ a) [] c h k = cc
compare_bytes_trans (x ∷ a) (y ∷ b) [] h k = cc
compare_bytes_trans (x ∷ a) (y ∷ b) (z ∷ c) h k = ground (arith, compare_bytes_trans a b c)

pub compare_bytes-IsLinear : IsLinear compare_bytes
compare_bytes-IsLinear = record {
  cmp_refl = compare_bytes_refl;
  eq_of_cmp = eq_of_compare_bytes;
  cmp_flip = compare_bytes-flip;
  lt_trans = compare_bytes_trans;
}
