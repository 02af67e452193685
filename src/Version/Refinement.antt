-- ===== src/Version/Refinement.antt =====
-- The loop of `rpmvercmp` compares lists of segments.
use mathlib.Core.Path.{ap₂}
use samad_package_manager.Common.{
  ℕ, zero, suc, ◌+◌, ◌≤◌, ◌<◌, Ordering, eq, gt, ◌≡◌, refl, sym, ap, ◌∙◌, inl, inr, Bool, true,
  false, Option, none, some, [], ◌∷◌, length, Str, is_digit, is_alpha, drop_while, str_eq,
  eq_of_str_eq, trim, arith, then_with, flip, Bool-cases, Option-cases, List-cases,
}
use samad_package_manager.Version.Compare.{
  head_is, tail, is_tilde, is_separator, strip_zeros, unless_decided, numbers, words, segments,
  round, rpmvercmp_loop, rpmvercmp_fuel, rpmvercmp, or_equal,
}
use samad_package_manager.Version.Tokens.{
  Token, segment_of, next_token, tokens_fuel, tokens, cons_token, compare_numbers, compare_token,
  compare_end, compare_tokens,
}
use samad_package_manager.Version.TokenOrder.{compare_tokens-IsLinear}

length-drop_while-le : (p : ℕ → Bool) (s : Str) → length (drop_while p s) ≤ length s
unfolding drop_while
length-drop_while-le p [] = omega arith
length-drop_while-le p (c ∷ s) = ground (arith, length-drop_while-le p s)

-- What stays begins with a character that fails the test.
drop_while-head : (p : ℕ → Bool) (s : Str) (c : ℕ) (r : Str) → drop_while p s ≡ c ∷ r → p c ≡ false
unfolding drop_while
drop_while-head p [] c r h = cc
drop_while-head p (x ∷ s) c r h = elim (Bool-cases (p x)) [
  | inl e ↦ drop_while-head p s c r (rw e at h)
  | inr e ↦ ground arith
]

-- Leading zeros are digits, so what follows the number is the same.
drop_while-strip_zeros : (s : Str) → drop_while is_digit (strip_zeros s) ≡ drop_while is_digit s
unfolding drop_while strip_zeros
drop_while-strip_zeros [] = refl
drop_while-strip_zeros (c ∷ []) = refl
drop_while-strip_zeros (c ∷ d ∷ s) = ground (arith, drop_while-strip_zeros (d ∷ s))

drop_while-cons :
    (p : ℕ → Bool) (c : ℕ) (s : Str) → p c ≡ true → drop_while p (c ∷ s) ≡ drop_while p s
unfolding drop_while
drop_while-cons p c s h = rw h

segment_of-shorter :
    (c : ℕ) (s : Str) (t : Token) (r : Str)
    → is_separator c ≡ false
    → segment_of (c ∷ s) ≡ some (t, r)
    → length r ≤ length s
segment_of-shorter c s t r h e = elim (Bool-cases (is_digit c)) [
  | inl d ↦ ground (
    arith,
    drop_while-strip_zeros (c ∷ s),
    drop_while-cons is_digit c s d,
    length-drop_while-le is_digit s,
  )
  | inr d ↦
      ground (arith, drop_while-cons is_alpha c s (ground arith), length-drop_while-le is_alpha s)
]

tail-shorter : (s : Str) → head_is is_tilde s ≡ true → length (tail s) < length s
tail-shorter [] h = cc
tail-shorter (c ∷ s) h = omega arith

-- Each segment takes at least one character.
next_token-shorter :
    (s : Str) (t : Token) (r : Str) → next_token s ≡ some (t, r) → length r < length s
unfolding next_token
next_token-shorter s t r h = elim (Bool-cases (head_is is_tilde s)) [
  | inl e ↦ ground (arith, tail-shorter s)
  | inr e ↦ elim (List-cases (drop_while is_separator s)) [
    | inl n ↦ ground arith
    | inr (c, rest, q) ↦
        let first : is_separator c ≡ false = drop_while-head is_separator s c rest q in
        ground (
          arith,
          segment_of-shorter c rest t r first,
          ap length q,
          length-drop_while-le is_separator s,
        )
  ]
]

-- A round, by the first segments of the two sides.
abbrev round_of :
    (Str → Str → Option Ordering) → Option (Token × Str) → Option (Token × Str) → Option Ordering
round_of next none none = some eq
round_of next none (some (u, b)) = some (compare_end (u ∷ []))
round_of next (some (t, a)) none = some (flip (compare_end (t ∷ [])))
round_of next (some (t, a)) (some (u, b)) = unless_decided (compare_token t u) (next a b)

module _ (next : Str → Str → Option Ordering) where
  segments_lem :
      (a b : Str)
      → ((c : ℕ) (r : Str) → a ≡ c ∷ r → is_separator c ≡ false)
      → ((c : ℕ) (r : Str) → b ≡ c ∷ r → is_separator c ≡ false)
      → segments next a b ≡ round_of next (segment_of a) (segment_of b)
  unfolding segments numbers words compare_token compare_numbers compare_end
  segments_lem [] [] h k = refl
  segments_lem [] (y ∷ b) h k = ground arith
  segments_lem (x ∷ a) [] h k = ground arith
  segments_lem (x ∷ a) (y ∷ b) h k = ground (arith, h x a refl, k y b refl)

  round_lem : (a b : Str) → round next a b ≡ round_of next (next_token a) (next_token b)
  unfolding round next_token compare_token compare_end
  round_lem a b = ground (
    arith,
    segments_lem (drop_while is_separator a) (drop_while is_separator b)
        (drop_while-head is_separator a) (drop_while-head is_separator b),
  )

unless_decided-then : (o p : Ordering) → unless_decided o (some p) ≡ some (then_with o p)
unless_decided-then o p = ground arith

loop-round :
    (fuel : ℕ) (a b : Str) → rpmvercmp_loop (suc fuel) a b ≡ round (rpmvercmp_loop fuel) a b
unfolding rpmvercmp_loop drop_while
loop-round fuel [] [] = refl
loop-round fuel [] (y ∷ b) = refl
loop-round fuel (x ∷ a) b = refl

abbrev pub Agrees : ℕ → Str → Str → Type 0
Agrees fuel a b =
    rpmvercmp_loop fuel a b ≡ some (compare_tokens (tokens_fuel fuel a) (tokens_fuel fuel b))

-- A round agrees where the loop agrees on what the round leaves.
round_of-tokens :
    (fuel : ℕ) (x y : Option (Token × Str))
    → ((t u : Token) (r s : Str) → x ≡ some (t, r) → y ≡ some (u, s) → Agrees fuel r s)
    → round_of (rpmvercmp_loop fuel) x y
      ≡ some (compare_tokens (cons_token (tokens_fuel fuel) x) (cons_token (tokens_fuel fuel) y))
unfolding compare_tokens compare_end
round_of-tokens fuel none none k = refl
round_of-tokens fuel none (some (u, s)) k = ground arith
round_of-tokens fuel (some (t, r)) none k = ground arith
round_of-tokens fuel (some (t, r)) (some (u, s)) k =
    rw (k t u r s refl refl) (unless_decided-then (compare_token t u) _)

-- On fuel above the lengths the loop ends, with the order of the lists of segments.
pub rpmvercmp_loop-tokens : (fuel : ℕ) (a b : Str) → length a + length b < fuel → Agrees fuel a b
unfolding tokens_fuel
rpmvercmp_loop-tokens zero a b h = elim h [ ]
rpmvercmp_loop-tokens (suc fuel) a b h =
    loop-round fuel a b
    ∙ round_lem (rpmvercmp_loop fuel) a b
    ∙ round_of-tokens fuel (next_token a) (next_token b) λ t u r s p q.
      rpmvercmp_loop-tokens fuel r s
        (omega (arith, next_token-shorter a t r p, next_token-shorter b u s q))

-- More fuel gives the same segments.
tokens_fuel-enough :
    (m n : ℕ) (s : Str) → length s < m → length s < n → tokens_fuel m s ≡ tokens_fuel n s
unfolding tokens_fuel
tokens_fuel-enough zero n s h k = elim h [ ]
tokens_fuel-enough (suc m) zero s h k = elim k [ ]
tokens_fuel-enough (suc m) (suc n) s h k = elim (Option-cases (next_token s)) [
  | inl e ↦ rw e
  | inr ((t, r), e) ↦ rw e (
      ap (λ ts. t ∷ ts)
        (tokens_fuel-enough m n r (omega (arith, next_token-shorter s t r e))
          (omega (arith, next_token-shorter s t r e))))
]

loop-tokens :
    (a b : Str)
    → rpmvercmp_loop (rpmvercmp_fuel a b) a b ≡ some (compare_tokens (tokens a) (tokens b))
unfolding tokens
loop-tokens a b =
    let fuel : ℕ = rpmvercmp_fuel a b in
    rpmvercmp_loop-tokens fuel a b (omega arith)
    ∙ ap some (
        ap₂ compare_tokens (tokens_fuel-enough fuel (suc (length a)) a (omega arith) (omega arith))
          (tokens_fuel-enough fuel (suc (length b)) b (omega arith) (omega arith)))

-- `rpmvercmp` is the order of the lists of segments of the trimmed texts.
pub rpmvercmp-tokens :
    (a b : Str) → rpmvercmp a b ≡ compare_tokens (tokens (trim a)) (tokens (trim b))
unfolding rpmvercmp
rpmvercmp-tokens a b = elim (Bool-cases (str_eq (trim a) (trim b))) [
  | inl same ↦ rw same (
      sym (compare_tokens-IsLinear.cmp_refl _)
      ∙ ap (λ s. compare_tokens (tokens (trim a)) (tokens s)) (eq_of_str_eq _ _ same))
  | inr different ↦ rw different (ap or_equal (loop-tokens (trim a) (trim b)))
]

-- A segment that begins with a letter is above one that begins with a digit, whatever follows.
pub letter_above_digit :
    (fuel x y : ℕ) (a b : Str)
    → is_alpha x ≡ true
    → is_digit y ≡ true
    → rpmvercmp_loop (suc fuel) (x ∷ a) (y ∷ b) ≡ some gt
unfolding rpmvercmp_loop drop_while
letter_above_digit fuel x y a b h k = ground arith
