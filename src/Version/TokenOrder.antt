-- ===== src/Version/TokenOrder.antt =====
-- The order on segments and on lists of segments is linear.
use samad_package_manager.Common.Order.{IsLinear}
use samad_package_manager.Common.{lt, eq, gt, ◌≡◌, refl, List, [], ◌∷◌, length, Str, arith, flip}
use samad_package_manager.Version.Compare.{first_difference, compare_bytes}
use samad_package_manager.Version.Tokens.{
  Token, tilde, number, word, compare_numbers, compare_token, compare_end, compare_tokens,
  compare_bytes-IsLinear,
}

first_difference_refl : (a : Str) → first_difference a a ≡ eq
unfolding first_difference
first_difference_refl [] = refl
first_difference_refl (x ∷ a) = ground (arith, first_difference_refl a)

eq_of_first_difference : (a b : Str) → length a ≡ length b → first_difference a b ≡ eq → a ≡ b
unfolding first_difference
eq_of_first_difference [] [] n h = refl
eq_of_first_difference [] (y ∷ b) n h = absurd (omega arith)
eq_of_first_difference (x ∷ a) [] n h = absurd (omega arith)
eq_of_first_difference (x ∷ a) (y ∷ b) n h = ground (arith, eq_of_first_difference a b)

first_difference-flip : (a b : Str) → first_difference b a ≡ flip (first_difference a b)
unfolding first_difference
first_difference-flip [] [] = refl
first_difference-flip [] (y ∷ b) = refl
first_difference-flip (x ∷ a) [] = refl
first_difference-flip (x ∷ a) (y ∷ b) = ground (arith, first_difference-flip a b)

first_difference_trans :
    (a b c : Str)
    → length a ≡ length b
    → length b ≡ length c
    → first_difference a b ≡ lt
    → first_difference b c ≡ lt
    → first_difference a c ≡ lt
unfolding first_difference
first_difference_trans [] b c m n h k = cc
first_difference_trans (x ∷ a) [] c m n h k = absurd (omega arith)
first_difference_trans (x ∷ a) (y ∷ b) [] m n h k = absurd (omega arith)
first_difference_trans (x ∷ a) (y ∷ b) (z ∷ c) m n h k =
    ground (arith, first_difference_trans a b c)

compare_numbers-IsLinear : IsLinear compare_numbers
unfolding compare_numbers
compare_numbers-IsLinear = record {
  cmp_refl = λ a. ground (arith, first_difference_refl a);
  eq_of_cmp = λ a b. ground (arith, eq_of_first_difference a b);
  cmp_flip = λ a b. ground (arith, first_difference-flip a b);
  lt_trans = λ a b c. ground (arith, first_difference_trans a b c);
}

module _ (n : IsLinear compare_numbers) (w : IsLinear compare_bytes) where
  compare_token_refl : (t : Token) → compare_token t t ≡ eq
  unfolding compare_token
  compare_token_refl tilde = refl
  compare_token_refl (number a) = n.cmp_refl a
  compare_token_refl (word a) = w.cmp_refl a

  eq_of_compare_token : (t u : Token) → compare_token t u ≡ eq → t ≡ u
  unfolding compare_token
  eq_of_compare_token tilde tilde h = refl
  eq_of_compare_token (number a) (number b) h = cc (n.eq_of_cmp a b h)
  eq_of_compare_token (word a) (word b) h = cc (w.eq_of_cmp a b h)
  eq_of_compare_token _ _ h = cc

  compare_token-flip : (t u : Token) → compare_token u t ≡ flip (compare_token t u)
  unfolding compare_token
  compare_token-flip (number a) (number b) = n.cmp_flip a b
  compare_token-flip (word a) (word b) = w.cmp_flip a b
  compare_token-flip tilde tilde = refl
  compare_token-flip _ _ = refl

  compare_token_trans :
      (t u v : Token) → compare_token t u ≡ lt → compare_token u v ≡ lt → compare_token t v ≡ lt
  unfolding compare_token
  compare_token_trans (number a) (number b) (number c) h k = n.lt_trans a b c h k
  compare_token_trans (word a) (word b) (word c) h k = w.lt_trans a b c h k
  compare_token_trans tilde (number b) (number c) h k = refl
  compare_token_trans _ _ _ h k = ground arith

pub compare_token-IsLinear : IsLinear compare_token
compare_token-IsLinear = record {
  cmp_refl = compare_token_refl compare_numbers-IsLinear compare_bytes-IsLinear;
  eq_of_cmp = eq_of_compare_token compare_numbers-IsLinear compare_bytes-IsLinear;
  cmp_flip = compare_token-flip compare_numbers-IsLinear compare_bytes-IsLinear;
  lt_trans = compare_token_trans compare_numbers-IsLinear compare_bytes-IsLinear;
}

module _ (l : IsLinear compare_token) where
  compare_tokens_refl : (ts : List Token) → compare_tokens ts ts ≡ eq
  unfolding compare_tokens
  compare_tokens_refl [] = refl
  compare_tokens_refl (t ∷ ts) = ground (arith, l.cmp_refl t, compare_tokens_refl ts)

  eq_of_compare_tokens : (ts us : List Token) → compare_tokens ts us ≡ eq → ts ≡ us
  unfolding compare_tokens
  eq_of_compare_tokens [] [] h = refl
  eq_of_compare_tokens [] (u ∷ us) h = ground arith
  eq_of_compare_tokens (t ∷ ts) [] h = ground arith
  eq_of_compare_tokens (t ∷ ts) (u ∷ us) h =
      ground (arith, l.eq_of_cmp t u, eq_of_compare_tokens ts us)

  compare_tokens-flip : (ts us : List Token) → compare_tokens us ts ≡ flip (compare_tokens ts us)
  unfolding compare_tokens
  compare_tokens-flip [] [] = refl
  compare_tokens-flip [] (u ∷ us) = refl
  compare_tokens-flip (t ∷ ts) [] = ground arith
  compare_tokens-flip (t ∷ ts) (u ∷ us) = ground (arith, l.cmp_flip t u, compare_tokens-flip ts us)

  compare_end-lt :
      (t u : Token) (ts us : List Token)
      → compare_end (t ∷ ts) ≡ lt
      → compare_token t u ≡ lt
      → compare_end (u ∷ us) ≡ lt
  unfolding compare_end compare_token
  compare_end-lt tilde tilde ts us h k = cc
  compare_end-lt (number a) (number b) ts us h k = refl
  compare_end-lt _ _ ts us h k = ground arith

  compare_end-gt :
      (t u : Token) (ts us : List Token)
      → compare_end (u ∷ us) ≡ gt
      → compare_token t u ≡ lt
      → compare_end (t ∷ ts) ≡ gt
  unfolding compare_end compare_token
  compare_end-gt tilde tilde ts us h k = cc
  compare_end-gt (number a) (number b) ts us h k = cc
  compare_end-gt _ _ ts us h k = ground arith

  -- Below the end stands a tilde only, and above it anything else.
  compare_end-apart :
      (t u : Token) (ts us : List Token)
      → compare_end (t ∷ ts) ≡ gt
      → compare_end (u ∷ us) ≡ lt
      → compare_token t u ≡ lt
  unfolding compare_end compare_token
  compare_end-apart tilde tilde ts us h k = cc
  compare_end-apart _ _ ts us h k = ground arith

  compare_tokens_trans :
      (ts us vs : List Token)
      → compare_tokens ts us ≡ lt
      → compare_tokens us vs ≡ lt
      → compare_tokens ts vs ≡ lt
  unfolding compare_tokens
  compare_tokens_trans [] [] vs h k = k
  compare_tokens_trans [] (u ∷ us) [] h k = ground arith
  compare_tokens_trans [] (u ∷ us) (v ∷ vs) h k =
      ground (arith, compare_end-lt u v us vs, l.eq_of_cmp u v)
  compare_tokens_trans (t ∷ ts) [] [] h k = ground arith
  compare_tokens_trans (t ∷ ts) [] (v ∷ vs) h k = ground (arith, compare_end-apart t v ts vs)
  compare_tokens_trans (t ∷ ts) (u ∷ us) [] h k =
      ground (arith, compare_end-gt t u ts us, l.eq_of_cmp t u)
  compare_tokens_trans (t ∷ ts) (u ∷ us) (v ∷ vs) h k =
      ground
        (arith, l.eq_of_cmp t u, l.eq_of_cmp u v, l.lt_trans t u v, compare_tokens_trans ts us vs)

pub compare_tokens-IsLinear : IsLinear compare_tokens
compare_tokens-IsLinear = record {
  cmp_refl = compare_tokens_refl compare_token-IsLinear;
  eq_of_cmp = eq_of_compare_tokens compare_token-IsLinear;
  cmp_flip = compare_tokens-flip compare_token-IsLinear;
  lt_trans = compare_tokens_trans compare_token-IsLinear;
}
