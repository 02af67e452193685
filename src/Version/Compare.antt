-- ===== src/Version/Compare.antt =====
-- `rpmvercmp` of src/types/version.rs: the two indices are the suffixes that they leave.
use samad_package_manager.Common.{
  ℕ, zero, suc, ◌+◌, compare, Ordering, lt, eq, gt, Bool, false, not, ◌&&◌, Option, none, some, [],
  ◌∷◌, length, Str, ◌==◌, if◌then◌else◌, is_digit, is_alpha, is_alnum, take_while, drop_while,
  str_eq, trim,
}

-- The test of a character at an index, where there is one.
abbrev pub head_is : (ℕ → Bool) → Str → Bool
head_is p [] = false
head_is p (c ∷ s) = p c

abbrev pub tail : Str → Str
tail [] = []
tail (c ∷ s) = s

abbrev pub is_tilde : ℕ → Bool
is_tilde c = c == b'~'

abbrev pub is_separator : ℕ → Bool
is_separator c = not (is_alnum c)

-- while i + 1 < len && bytes[i] == b'0' && bytes[i + 1].is_ascii_digit() { i += 1; }
unfoldable pub strip_zeros : Str → Str
strip_zeros [] = []
strip_zeros (c ∷ []) = c ∷ []
strip_zeros (c ∷ d ∷ s) = if c == b'0' && is_digit d then strip_zeros (d ∷ s) else c ∷ d ∷ s

-- The loop over the zipped digits: the first that differ decide.
unfoldable pub first_difference : Str → Str → Ordering
first_difference [] b = eq
first_difference (x ∷ a) [] = eq
first_difference (x ∷ a) (y ∷ b) = if x == y then first_difference a b else compare x y

-- Ord::cmp of byte slices.
unfoldable pub compare_bytes : Str → Str → Ordering
compare_bytes [] [] = eq
compare_bytes [] (y ∷ b) = lt
compare_bytes (x ∷ a) [] = gt
compare_bytes (x ∷ a) (y ∷ b) = elim (compare x y) [
  | Ordering.eq ↦ compare_bytes a b
  | Ordering.lt ↦ lt
  | Ordering.gt ↦ gt
]

-- match ordering { Equal => {}, other => return other }, and what follows it.
abbrev pub unless_decided : Ordering → Option Ordering → Option Ordering
unless_decided Ordering.eq rest = rest
unless_decided Ordering.lt rest = some lt
unless_decided Ordering.gt rest = some gt

-- A round of the loop; `next` is the loop from the new indices.
module _ (next : Str → Str → Option Ordering) where
  -- Both sides stand at a digit.
  unfoldable pub numbers : Str → Str → Option Ordering
  numbers a b =
      let a' = strip_zeros a in
      let b' = strip_zeros b in
      let anum = take_while is_digit a' in
      let bnum = take_while is_digit b' in
      unless_decided (compare (length anum) (length bnum)) (
        unless_decided (first_difference anum bnum)
          (next (drop_while is_digit a') (drop_while is_digit b')))

  -- Both sides stand at a letter.
  unfoldable pub words : Str → Str → Option Ordering
  words a b =
      unless_decided (compare_bytes (take_while is_alpha a) (take_while is_alpha b))
        (next (drop_while is_alpha a) (drop_while is_alpha b))

  -- Behind the separators: the end of a side breaks the loop.
  unfoldable pub segments : Str → Str → Option Ordering
  segments [] b = some (compare 0 (length b))
  segments (x ∷ a) [] = some (compare (length (x ∷ a)) 0)
  segments (x ∷ a) (y ∷ b) =
      if is_digit x && is_digit y
      then numbers (x ∷ a) (y ∷ b)
      else if is_alpha x && is_alpha y
      then words (x ∷ a) (y ∷ b)
      else if is_alpha x
      then some gt
      else if is_alpha y
      then some lt
      else next a b

  unfoldable pub round : Str → Str → Option Ordering
  round a b =
      if head_is is_tilde a
      then (if head_is is_tilde b then next (tail a) (tail b) else some lt)
      else if head_is is_tilde b
      then some gt
      else segments (drop_while is_separator a) (drop_while is_separator b)

-- The loop on fuel; `none` means that the fuel ran out. At the end of both sides its condition fails.
unfoldable pub rpmvercmp_loop : ℕ → Str → Str → Option Ordering
unfolding round segments numbers words
rpmvercmp_loop zero a b = none
rpmvercmp_loop (suc fuel) [] [] = some eq
rpmvercmp_loop (suc fuel) [] (y ∷ b) = round (rpmvercmp_loop fuel) [] (y ∷ b)
rpmvercmp_loop (suc fuel) (x ∷ a) b = round (rpmvercmp_loop fuel) (x ∷ a) b

abbrev pub rpmvercmp_fuel : Str → Str → ℕ
rpmvercmp_fuel a b = suc (length a + length b)

abbrev pub or_equal : Option Ordering → Ordering
or_equal none = eq
or_equal (some o) = o

-- The value for fuel that runs out is never seen: see `rpmvercmp_loop-tokens`.
unfoldable pub rpmvercmp : Str → Str → Ordering
unfolding rpmvercmp_loop first_difference compare_bytes strip_zeros
rpmvercmp a b =
    let a' = trim a in
    let b' = trim b in
    if str_eq a' b' then eq else or_equal (rpmvercmp_loop (rpmvercmp_fuel a' b') a' b')
