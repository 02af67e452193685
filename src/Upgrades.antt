-- ===== src/Upgrades.antt =====
-- src/package/install/upgrade.rs: which packages have a newer version, and which are obsolete.
pub mod Packages
pub mod Check
pub mod Orphans
pub mod Dist
pub mod Stuck
mod Examples
use samad_package_manager.Common.{
  ℕ, Bool, true, false, not, ◌&&◌, Option, none, some, List, [], ◌∷◌, Str, codes, str_eq, trim,
  trim_end_matches, ◌==◌, ◌++◌, if◌then◌else◌, keep,
}
use samad_package_manager.Package.{RepoSource, native, source_eq, matching_source}
use samad_package_manager.Package.Repo.{RepoConfig, Repos}
use samad_package_manager.Version.{compare}
use samad_package_manager.Index.{SonameIndex, SonameProvider, get_providers}
use samad_package_manager.Db.{InstalledPackage}
use samad_package_manager.Solver.Ranges.{is_gt}
use samad_package_manager.Upgrades.Packages.{deb_version}

pub data UpgradeResult : Type 0 where
  upgrade_to : Str → UpgradeResult
  up_to_date obsoleted : UpgradeResult

unfoldable pub should_upgrade : Str → Str → Bool
unfolding compare
should_upgrade [] available_ver = true
should_upgrade (c ∷ cs) available_ver = is_gt (compare available_ver (c ∷ cs))

-- What a repository says of a package: it is passed over, it does not know a version, or it has one.
pub data Answer : Type 0 where
  passed_over unknown : Answer
  available : Str → Answer

-- The sources: the cached files of a repository by their names, the index, and the names and
-- versions of the packages in the index of a native repository, where it can be fetched and read.
pub record Sources : Type 0 where
  pub deb_cache : Str → Option (List (Str × Option (List Str)))
  pub soname_index : Option SonameIndex
  pub repo_index : Str → Option (List (Option Str × Option Str))

abbrev pub answer_of : Option Str → Answer
answer_of none = unknown
answer_of (some v) = available v

abbrev pub deb_answer : Str → Option (List (Str × Option (List Str))) → Answer
deb_answer name none = unknown
deb_answer name (some files) = answer_of (deb_version name files)

abbrev pub first_version : List SonameProvider → Option Str
first_version [] = none
first_version (p ∷ ps) = some p.version

abbrev pub providers_answer : Option (List SonameProvider) → Answer
providers_answer none = unknown
providers_answer (some ps) =
    answer_of (first_version (keep (λ p. source_eq p.source RepoSource.rpm) ps))

abbrev pub rpm_answer : Str → Option SonameIndex → Answer
rpm_answer name none = unknown
rpm_answer name (some index) = providers_answer (get_providers index name)

-- find_map over the entries of the index.
unfoldable pub find_version : Str → List (Option Str × Option Str) → Option Str
unfolding str_eq
find_version name [] = none
find_version name ((none, v) ∷ ps) = find_version name ps
find_version name ((some n, none) ∷ ps) = find_version name ps
find_version name ((some n, some v) ∷ ps) = if str_eq n name then some v else find_version name ps

abbrev pub native_answer : Str → Option (List (Option Str × Option Str)) → Answer
native_answer name none = passed_over
native_answer name (some ps) = answer_of (find_version name ps)

unfoldable pub index_url : Str → Str
unfolding trim_end_matches
index_url url = trim_end_matches (λ c. c == b'/') url ++ codes "/repo-index.json"

unfoldable pub answer : Sources → Str → Str → RepoConfig → Answer
unfolding deb_version get_providers source_eq find_version index_url
answer s name repo_name rc = elim rc.source [
  | RepoSource.deb ↦ deb_answer name (s.deb_cache repo_name)
  | RepoSource.rpm ↦ rpm_answer name s.soname_index
  | RepoSource.native ↦ elim rc.url [
    | none ↦ passed_over
    | some u ↦ native_answer name (s.repo_index (index_url u))
  ]
]

-- What is said after a version is known.
abbrev pub verdict : Str → Str → UpgradeResult
verdict installed avail = if should_upgrade installed avail then upgrade_to avail else up_to_date

-- The loop over the repositories; `found` is found_in_any_repo.
unfoldable pub check_repos : Sources → InstalledPackage → Bool → Repos → UpgradeResult
unfolding source_eq matching_source answer should_upgrade
check_repos s pkg found [] = if found then up_to_date else obsoleted
check_repos s pkg found ((repo_name, rc) ∷ rs) =
    let next = check_repos s pkg found rs in
    let after = check_repos s pkg true rs in
    if source_eq rc.source (matching_source pkg.format)
    then elim (answer s pkg.name repo_name rc) [
      | passed_over ↦ next
      | unknown ↦ after
      | available v ↦ verdict pkg.version v
    ]
    else next

unfoldable pub check_upgrade : Sources → InstalledPackage → Repos → UpgradeResult
unfolding check_repos
check_upgrade s pkg repos = elim pkg.version [
  | [] ↦ upgrade_to (codes "latest")
  | c ∷ cs ↦ check_repos s pkg false repos
]
