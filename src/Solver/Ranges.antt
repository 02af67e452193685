-- ===== src/Solver/Ranges.antt =====
-- Dependency strings as version ranges: dep_string_to_range, split_op_ver and op_str_to_range of
-- src/package/solver.rs. The ranges are those of pubgrub.
use samad_package_manager.Version.{Version, parse, cmp}
use samad_package_manager.Version.Order.{cmp-IsPreorder}
use samad_package_manager.Solver.Names.{extract_dep_name}
use samad_package_manager.Common.{
  Ordering, ◌≡◌, Bool, true, false, not, Option, none, some, List, [], ◌∷◌, Str, codes, str_eq,
  trim, trim_end_matches, split_char, split_once, ◌==◌, if◌then◌else◌, arith,
}

-- pubgrub::Ranges<Version>, as its documentation describes it.
pub record Ranges (R : Type 0) : Type 0 where
  pub full : R
  pub higher_than : Version → R
  pub strictly_higher_than : Version → R
  pub lower_than : Version → R
  pub strictly_lower_than : Version → R
  pub singleton : Version → R
  pub contains : R → Version → Bool

abbrev pub is_lt : Ordering → Bool
is_lt Ordering.lt = true
is_lt o = false

abbrev pub is_gt : Ordering → Bool
is_gt Ordering.gt = true
is_gt o = false

abbrev pub is_eq : Ordering → Bool
is_eq Ordering.eq = true
is_eq o = false

-- What the constructors mean, by the order of the versions.
pub record IsRanges {R : Type 0} (rs : Ranges R) : Type 0 where
  pub full_law : (w : Version) → rs.contains rs.full w ≡ true
  pub higher_law : (v w : Version) → rs.contains (rs.higher_than v) w ≡ not (is_lt (cmp w v))
  pub strictly_higher_law :
      (v w : Version) → rs.contains (rs.strictly_higher_than v) w ≡ is_gt (cmp w v)
  pub lower_law : (v w : Version) → rs.contains (rs.lower_than v) w ≡ not (is_gt (cmp w v))
  pub strictly_lower_law :
      (v w : Version) → rs.contains (rs.strictly_lower_than v) w ≡ is_lt (cmp w v)
  pub singleton_law : (v w : Version) → rs.contains (rs.singleton v) w ≡ is_eq (cmp w v)

-- The operators in the order in which they are tried.
abbrev pub op_tokens : List Str
op_tokens =
    codes ">=" ∷ codes "<=" ∷ codes ">>" ∷ codes "<<" ∷ codes ">" ∷ codes "<" ∷ codes "=" ∷ []

-- The first operator that the text holds, with what stands around it.
unfoldable pub find_op : List Str → Str → Option (Str × Str × Str)
unfolding split_once
find_op [] s = none
find_op (op ∷ ops) s = elim (split_once op s) [
  | none ↦ find_op ops s
  | some (name, ver) ↦ some (op, name, ver)
]

unfoldable pub split_op_ver : Str → Str × Str
unfolding find_op trim
split_op_ver s = elim (find_op op_tokens (trim s)) [
  | none ↦ ([], trim s)
  | some (op, name, ver) ↦ (op, trim ver)
]

module _ {R : Type 0} (rs : Ranges R) where
  unfoldable pub op_str_to_range : Str → Str → R
  unfolding parse
  op_str_to_range op ver =
      if str_eq op (codes ">=")
      then rs.higher_than (parse ver)
      else if str_eq op (codes ">>")
      then rs.higher_than (parse ver)
      else if str_eq op (codes ">")
      then rs.strictly_higher_than (parse ver)
      else if str_eq op (codes "<=")
      then rs.lower_than (parse ver)
      else if str_eq op (codes "<<")
      then rs.lower_than (parse ver)
      else if str_eq op (codes "<")
      then rs.strictly_lower_than (parse ver)
      else if str_eq op (codes "=")
      then rs.singleton (parse ver)
      else rs.full

  abbrev op_pair_to_range : Str × Str → R
  op_pair_to_range (op, ver) = op_str_to_range op ver

  -- The form without a parenthesis.
  unfoldable pub plain_to_range : Str → Str × R
  unfolding find_op op_str_to_range trim extract_dep_name
  plain_to_range raw = elim (find_op op_tokens raw) [
    | none ↦ (extract_dep_name raw, rs.full)
    | some (op, name, ver) ↦ (trim name, op_str_to_range op (trim ver))
  ]

  unfoldable pub dep_string_to_range : Str → Str × R
  unfolding plain_to_range split_op_ver op_str_to_range split_char trim trim_end_matches
  dep_string_to_range raw = elim (split_char b'(' (trim raw)) [
    | none ↦ plain_to_range (trim raw)
    | some (name, rest) ↦
        (trim name, op_pair_to_range (split_op_ver (trim (trim_end_matches (λ c. c == b')') rest))))
  ]

  -- What an operator asks of a version that compares as `o` with the one in the dependency. The
  -- operators ">>" and "<<" are read as ">=" and "<=".
  unfoldable pub op_holds : Str → Ordering → Bool
  op_holds op o =
      if str_eq op (codes ">=")
      then not (is_lt o)
      else if str_eq op (codes ">>")
      then not (is_lt o)
      else if str_eq op (codes ">")
      then is_gt o
      else if str_eq op (codes "<=")
      then not (is_gt o)
      else if str_eq op (codes "<<")
      then not (is_gt o)
      else if str_eq op (codes "<")
      then is_lt o
      else if str_eq op (codes "=")
      then is_eq o
      else true

  module _ (l : IsRanges rs) where
    -- A range holds exactly the versions that the operator allows by their order; an operator that
    -- is none of the seven allows every version.
    pub op_range-holds :
        (op ver : Str) (w : Version)
        → rs.contains (op_str_to_range op ver) w ≡ op_holds op (cmp w (parse ver))
    unfolding op_str_to_range op_holds
    op_range-holds op ver w = ground (
      arith,
      l.full_law w,
      l.higher_law (parse ver) w,
      l.strictly_higher_law (parse ver) w,
      l.lower_law (parse ver) w,
      l.strictly_lower_law (parse ver) w,
      l.singleton_law (parse ver) w,
    )

    -- The strict operators of Debian, ">>" and "<<", allow the version that they name.
    pub strict_op_allows :
        (ver : Str)
        → (rs.contains (op_str_to_range (codes ">>") ver) (parse ver) ≡ true)
          × (rs.contains (op_str_to_range (codes "<<") ver) (parse ver) ≡ true)
    unfolding op_holds str_eq
    strict_op_allows ver =
        let r = cmp-IsPreorder.cmp_refl (parse ver) in
        (
          rw (op_range-holds (codes ">>") ver (parse ver)) (ground (arith, r)),
          rw (op_range-holds (codes "<<") ver (parse ver)) (ground (arith, r)),
        )
