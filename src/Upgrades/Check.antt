-- ===== src/Upgrades/Check.antt =====
-- The result of check_upgrade of src/package/install/upgrade.rs.
use samad_package_manager.Common.{
  ◌≡◌, ◌≢◌, refl, ◌∙◌, inl, inr, Bool, true, false, not, ◌&&◌, ◌||◌, List, [], ◌∷◌, Str, any, arith,
  sym, ◌++◌, Bool-cases, List-cases, if◌then◌else◌,
}
use samad_package_manager.Package.{RepoSource, PackageFormat, source_eq, matching_source}
use samad_package_manager.Package.Repo.{RepoConfig, Repos}
use samad_package_manager.Db.{InstalledPackage}
use samad_package_manager.Upgrades.{
  UpgradeResult, up_to_date, obsoleted, Answer, passed_over, unknown, available, Sources, answer,
  verdict, check_repos, check_upgrade,
}

module _ (s : Sources) (pkg : InstalledPackage) where
  abbrev pub serves : Str × RepoConfig → Bool
  serves r = source_eq r.1.source (matching_source pkg.format)

  abbrev pub version_in : Answer → List Str
  version_in passed_over = []
  version_in unknown = []
  version_in (available v) = v ∷ []

  abbrev pub speaks : Answer → Bool
  speaks passed_over = false
  speaks unknown = true
  speaks (available v) = true

  abbrev pub answer_from : Str × RepoConfig → Answer
  answer_from r = answer s pkg.name (r.0) (r.1)

  -- The versions that the repositories of the package's source have, in their order.
  abbrev pub versions : Repos → List Str
  versions [] = []
  versions (r ∷ rs) = (if serves r then version_in (answer_from r) else []) ++ versions rs

  -- One of the repositories of the package's source answers.
  abbrev pub some_speaks : Repos → Bool
  some_speaks = any (λ r. serves r && speaks (answer_from r))

  -- The first version counts; without one it counts whether a repository answered.
  abbrev pub decided : Bool → List Str → UpgradeResult
  decided found [] = if found then up_to_date else obsoleted
  decided found (v ∷ vs) = verdict pkg.version v

  decided_next :
      (found : Bool) (a : Answer) (rest : UpgradeResult) (after : UpgradeResult) (vs : List Str)
      (later : Bool)
      → rest ≡ decided (found || later) vs
      → after ≡ decided (true || later) vs
      → elim a [ passed_over ↦ rest | unknown ↦ after | available v ↦ verdict pkg.version v ]
        ≡ decided (found || (speaks a || later)) (version_in a ++ vs)
  decided_next found passed_over rest after vs later h k = h
  decided_next true unknown rest after vs later h k = k
  decided_next false unknown rest after vs later h k = k
  decided_next found (available v) rest after vs later h k = refl

  check_repos-decided :
      (found : Bool) (rs : Repos)
      → check_repos s pkg found rs ≡ decided (found || some_speaks rs) (versions rs)
  unfolding check_repos
  check_repos-decided true [] = refl
  check_repos-decided false [] = refl
  check_repos-decided found ((name, rc) ∷ rs) = elim (Bool-cases (serves (name, rc))) [
    | inl e ↦ rw e (
        decided_next found (answer s pkg.name name rc) (check_repos s pkg found rs)
          (check_repos s pkg true rs) (versions rs) (some_speaks rs) (check_repos-decided found rs)
          (check_repos-decided true rs))
    | inr e ↦ rw e (check_repos-decided found rs)
  ]

  -- A package of a known version is upgraded to the first version that a repository of its source
  -- has, if that is newer, and is up to date if it is not; it is obsolete exactly where no such
  -- repository answers at all.
  pub check_upgrade-decided :
      (rs : Repos)
      → pkg.version ≢ []
      → check_upgrade s pkg rs ≡ decided (some_speaks rs) (versions rs)
  unfolding check_upgrade
  check_upgrade-decided rs n = elim (List-cases pkg.version) [
    | inl e ↦ absurd (n e)
    | inr (c, cs, e) ↦ rw e (rw (sym e) (check_repos-decided false rs))
  ]

  abbrev pub none_serves : Repos → Bool
  none_serves [] = true
  none_serves (r ∷ rs) = not (serves r) && none_serves rs

  unserved : (rs : Repos) → none_serves rs ≡ true → (some_speaks rs ≡ false) × (versions rs ≡ [])
  unserved [] h = (refl, refl)
  unserved (r ∷ rs) h = elim (Bool-cases (serves r)) [
    | inl e ↦ absurd (ground (arith, rw e at h))
    | inr e ↦ rw e (unserved rs (rw e at h))
  ]

abbrev pub has_native : Repos → Bool
has_native = any (λ r. source_eq r.1.source RepoSource.native)

without_native :
    (s : Sources) (pkg : InstalledPackage) (rs : Repos)
    → pkg.format ≡ PackageFormat.sam
    → has_native rs ≡ false
    → none_serves s pkg rs ≡ true
unfolding matching_source
without_native s pkg [] h n = refl
without_native s pkg (r ∷ rs) h n = rw h (ground (arith, n, without_native s pkg rs h))

-- Without a native repository every package in the format sam is obsolete, as all packages are that
-- the program fetches, from wherever they come.
pub check_upgrade-sam_obsolete :
    (s : Sources) (pkg : InstalledPackage) (rs : Repos)
    → pkg.version ≢ []
    → pkg.format ≡ PackageFormat.sam
    → has_native rs ≡ false
    → check_upgrade s pkg rs ≡ obsoleted
check_upgrade-sam_obsolete s pkg rs v f n =
    let u = unserved s pkg rs (without_native s pkg rs f n) in
    check_upgrade-decided s pkg rs v ∙ rw (u.0, u.1) refl
