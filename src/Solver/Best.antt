-- ===== src/Solver/Best.antt =====
-- best_version, choose_version, prioritize and get_dependencies of src/package/solver.rs.
use samad_package_manager.Package.{RepoSource, source_eq}
use samad_package_manager.Version.{
  Version, parse, cmp, VersionStrategy, prefer_stable, prefer_newest,
}
use samad_package_manager.Index.{SonameIndex, SonameProvider, get_providers, get_requires}
use samad_package_manager.Solver.Ranges.{Ranges, is_lt, is_gt, dep_string_to_range}
use samad_package_manager.Common.{
  ℕ, Bool, true, false, not, Option, none, some, List, [], ◌∷◌, map, Str, keep, leb, if◌then◌else◌,
  u64_limit, ◌-◌,
}

pub record SpmDepProvider : Type 0 where
  pub index : SonameIndex
  pub strategy : VersionStrategy
  pub preferred_source : Option RepoSource

abbrev pub unwrap_or_default {ℓ} : {A : Type ℓ} → Option (List A) → List A
unwrap_or_default none = []
unwrap_or_default (some xs) = xs

unfoldable pub provided : SpmDepProvider → Str → List SonameProvider
unfolding get_providers
provided s package_name = unwrap_or_default (get_providers s.index package_name)

unfoldable pub required : SpmDepProvider → Str → List Str
unfolding get_requires
required s package_name = unwrap_or_default (get_requires s.index package_name)

unfoldable pub is_preferred : Option RepoSource → SonameProvider → Bool
unfolding source_eq
is_preferred none p = false
is_preferred (some src) p = source_eq p.source src

-- The first of a stable sort by the priority: the first of the least ones.
unfoldable pub first_by_priority : List SonameProvider → Option SonameProvider
first_by_priority [] = none
first_by_priority (p ∷ ps) = elim (first_by_priority ps) [
  | none ↦ some p
  | some q ↦ if leb p.priority q.priority then some p else some q
]

-- max_by_key(|p| Version::parse(&p.version)): the last of the greatest ones.
unfoldable pub max_by_version : List SonameProvider → Option SonameProvider
unfolding parse cmp
max_by_version [] = none
max_by_version (p ∷ ps) = elim (max_by_version ps) [
  | none ↦ some p
  | some q ↦ if is_gt (cmp (parse p.version) (parse q.version)) then some p else some q
]

abbrev pub version_of : Option SonameProvider → Option Version
version_of none = none
version_of (some p) = some (parse p.version)

-- The preferred version, unless the other one is newer.
abbrev pub newer : Option Version → Option Version → Option Version
newer none b = b
newer (some a) none = some a
newer (some a) (some b) = if not (is_lt (cmp a b)) then some a else some b

abbrev pub or_else {ℓ} : {A : Type ℓ} → Option A → Option A → Option A
or_else none o = o
or_else (some x) o = some x

unfoldable pub best_of : VersionStrategy → Option RepoSource → List SonameProvider → Option Version
unfolding max_by_version first_by_priority is_preferred
best_of prefer_newest src ps =
    newer (version_of (max_by_version (keep (is_preferred src) ps)))
      (version_of (max_by_version (keep (λ p. not (is_preferred src p)) ps)))
best_of prefer_stable src ps = version_of (
    or_else (first_by_priority (keep (is_preferred src) ps))
      (first_by_priority (keep (λ p. not (is_preferred src p)) ps)))

unfoldable pub best_version : SpmDepProvider → Str → Option Version
unfolding best_of provided
best_version s package_name = best_of s.strategy s.preferred_source (provided s package_name)

module _ {R : Type 0} (rs : Ranges R) (s : SpmDepProvider) where
  abbrev pub if_contained : R → Option Version → Option Version
  if_contained range none = none
  if_contained range (some v) = if rs.contains range v then some v else none

  unfoldable pub choose_version : Str → R → Option Version
  unfolding best_version
  choose_version package_name range = if_contained range (best_version s package_name)

  -- usize::MAX for a package without a version to choose.
  unfoldable pub prioritize : Str → R → ℕ
  unfolding best_version
  prioritize package_name range = elim (if_contained range (best_version s package_name)) [
    | none ↦ u64_limit - 1
    | some v ↦ 1
  ]

  abbrev is_named : Str × R → Bool
  is_named ([], r) = false
  is_named (c ∷ n, r) = true

  unfoldable pub get_dependencies : Str → List (Str × R)
  unfolding required dep_string_to_range
  get_dependencies package_name =
      keep is_named (map (dep_string_to_range rs) (required s package_name))
