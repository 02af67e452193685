-- ===== src/Version/Display.antt =====
-- What is printed reads back.
use samad_package_manager.Common.Decimal.{to_decimal, to_decimal-no_char, parse_unsigned-to_decimal}
use samad_package_manager.Common.Split.{
  has_char, split_char-none, split_char-append, rsplit_char-none, rsplit_char-append,
  has_char-append, rsplit_char-clean,
}
use samad_package_manager.Common.{
  ℕ, ◌<◌, ◌≡◌, refl, inl, inr, false, Option, none, some, [], ◌∷◌, ◌++◌, Str, split_char,
  rsplit_char, parse_unsigned, parse_unsigned-lt, u32_limit, arith, Bool-cases, List-cases,
  Option-cases, ltb,
}
use samad_package_manager.Version.{Version, parse, to_string, epoch_rest}

-- The epoch fits its type, and a separator stands nowhere that the parser would take for another
-- one: the release has no dash, and without an epoch nothing has a colon, nor has a version that
-- stands alone a dash.
pub record IsPrintable (v : Version) : Type 0 where
  pub epoch_fits : v.epoch < u32_limit
  pub release_clean : has_char b'-' v.release ≡ false
  pub version_clean : (v.epoch ≡ 0) → has_char b':' v.version ≡ false
  pub release_colon : (v.epoch ≡ 0) → has_char b':' v.release ≡ false
  pub alone : (v.epoch ≡ 0) → v.release ≡ [] → has_char b'-' v.version ≡ false

parse-with_epoch :
    (n : ℕ) (v r : Str)
    → n < u32_limit
    → has_char b'-' r ≡ false
    → parse (to_decimal n ++ b':' ∷ (v ++ b'-' ∷ r))
      ≡ record { epoch = n; version = v; release = r }
unfolding parse
parse-with_epoch n v r fits clean = rw (
  split_char-append b':' (to_decimal n) (v ++ b'-' ∷ r) (to_decimal-no_char b':' n refl),
  parse_unsigned-to_decimal u32_limit n fits,
  rsplit_char-append b'-' v r clean,
)

parse-with_release :
    (v r : Str)
    → has_char b':' v ≡ false
    → has_char b':' r ≡ false
    → has_char b'-' r ≡ false
    → parse (v ++ b'-' ∷ r) ≡ record { epoch = 0; version = v; release = r }
unfolding parse
parse-with_release v r hv hr clean = rw (
  split_char-none b':' (v ++ b'-' ∷ r) (has_char-append b':' v (b'-' ∷ r) hv hr),
  rsplit_char-append b'-' v r clean,
)

parse-alone :
    (v : Str)
    → has_char b':' v ≡ false
    → has_char b'-' v ≡ false
    → parse v ≡ record { epoch = 0; version = v; release = [] }
unfolding parse
parse-alone v colon dash = rw (split_char-none b':' v colon, rsplit_char-none b'-' v dash)

printed-alone :
    (v : Version) → v.epoch ≡ 0 → v.release ≡ [] → IsPrintable v → parse (to_string v) ≡ v
unfolding to_string
printed-alone v e r h = ground (arith, parse-alone v.version (h.version_clean e) (h.alone e r))

printed-release :
    (v : Version) (c : ℕ) (s : Str)
    → v.epoch ≡ 0
    → v.release ≡ c ∷ s
    → IsPrintable v
    → parse (to_string v) ≡ v
unfolding to_string
printed-release v c s e r h = ground (
  arith,
  parse-with_release v.version v.release (h.version_clean e) (h.release_colon e) h.release_clean,
)

-- Parsing the text of a printable version gives the version.
pub parse-to_string : (v : Version) → IsPrintable v → parse (to_string v) ≡ v
unfolding to_string
parse-to_string v h = elim (Bool-cases (ltb 0 v.epoch)) [
  | inl e ↦ rw e (parse-with_epoch v.epoch v.version v.release h.epoch_fits h.release_clean)
  | inr e ↦ elim (List-cases v.release) [
    | inl r ↦ printed-alone v (ground arith) r h
    | inr (c, s, r) ↦ printed-release v c s (ground arith) r h
  ]
]

parse-clean : (s : Str) → has_char b'-' (parse s).release ≡ false
unfolding parse
parse-clean s = elim (Option-cases (rsplit_char b'-' rest)) [
  | inl e ↦ rw e
  | inr ((a, b), e) ↦ rw e (rsplit_char-clean b'-' rest a b e)
]
  where
    rest : Str
    rest = (epoch_rest s (split_char b':' s)).1

epoch_rest-fits : (s : Str) (o : Option (Str × Str)) → (epoch_rest s o).0 < u32_limit
epoch_rest-fits s none = omega arith
epoch_rest-fits s (some (e, r)) = elim (Option-cases (parse_unsigned u32_limit e)) [
  | inl p ↦ rw p (omega arith)
  | inr (n, p) ↦ rw p (parse_unsigned-lt u32_limit n e p)
]

parse-epoch : (s : Str) → (parse s).epoch ≡ (epoch_rest s (split_char b':' s)).0
unfolding parse
parse-epoch s = ground arith

parse-fits : (s : Str) → (parse s).epoch < u32_limit
parse-fits s = rw (parse-epoch s) (epoch_rest-fits s (split_char b':' s))

-- Printing a parsed version and parsing it again changes nothing, where it has an epoch.
pub parse-to_string-parse : (s : Str) → 0 < (parse s).epoch → parse (to_string (parse s)) ≡ parse s
parse-to_string-parse s h = parse-to_string (parse s) (record {
  epoch_fits = parse-fits s;
  release_clean = parse-clean s;
  version_clean = λ e. absurd (omega arith);
  release_colon = λ e. absurd (omega arith);
  alone = λ e. absurd (omega arith);
})
