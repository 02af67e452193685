-- ===== src/Engine/Collect.antt =====
-- Phase A of execute_smart of src/package/transaction.rs: the packages are fetched, and what they
-- make obsolete or overlap is to be removed. `fetch` stands for fetch_and_extract on one repository.
use samad_package_manager.Package.{PackageId, RepoSource, native, source_eq, matching_source}
use samad_package_manager.Package.Repo.{RepoConfig, Repos}
use samad_package_manager.Common.{
  Bool, not, ◌&&◌, Option, none, some, List, [], ◌∷◌, ◌++◌, map, Str, str_eq, mem, if◌then◌else◌,
}
use samad_package_manager.Db.{Db}
use samad_package_manager.Db.Packages.{is_installed}
use samad_package_manager.Db.Conflict.{Conflicts}
use samad_package_manager.Daemon.Deploy.{FetchedPackage}
use samad_package_manager.Daemon.Replace.{add_obsoletes, new_files}
use samad_package_manager.Engine.{conflicts_of}
use samad_package_manager.Engine.Scripts.{Scripts}

-- FetchedPackage: the rows that it brings, its scripts, its configuration files, and the hash of
-- its extracted directory, if that exists, with the paths of the files in it.
pub record Fetched : Type 0 where
  pub rows : FetchedPackage
  pub scripts : Scripts
  pub conffiles : List Str
  pub content : Option Str
  pub paths : List Str

abbrev pub rows_of : List Fetched → List FetchedPackage
rows_of = map (λ f. f.rows)

module _ (fetch : Str → Str × RepoConfig → Option Fetched) where
  abbrev pub or_next : Option Fetched → Option Fetched → Option Fetched
  or_next none later = later
  or_next (some f) later = some f

  -- The first repository with this source that has the package.
  unfoldable pub fetch_from : RepoSource → Str → Repos → Option Fetched
  unfolding source_eq
  fetch_from source name [] = none
  fetch_from source name (r ∷ rs) =
      let later = fetch_from source name rs in
      if source_eq r.1.source source then or_next (fetch name r) later else later

  unfoldable pub fetch_single : Str → RepoSource → Repos → Option Fetched
  unfolding fetch_from source_eq
  fetch_single name source repos =
      or_next (fetch_from source name repos)
        (if source_eq source native then none else fetch_from native name repos)

-- all_file_conflicts.entry(pkg).or_default().extend(files)
unfoldable pub extend_entry : Str → List Str → Conflicts → Conflicts
extend_entry pkg files [] = (pkg, files) ∷ []
extend_entry pkg files ((p, fs) ∷ rest) =
    if str_eq p pkg then (p, fs ++ files) ∷ rest else (p, fs) ∷ extend_entry pkg files rest

-- The packages to be removed, with the files in conflict.
abbrev pub Removal : Type 0
Removal = List Str × Conflicts

-- The loop over the conflicts of one package.
unfoldable pub add_conflicts : List Str → Conflicts → Conflicts → Removal
unfolding mem extend_entry
add_conflicts removed all [] = (removed, all)
add_conflicts removed all ((pkg, files) ∷ rest) =
    if mem pkg removed
    then add_conflicts removed all rest
    else add_conflicts (removed ++ pkg ∷ []) (extend_entry pkg files all) rest

-- A conflict is an error without `replace`.
unfoldable pub settle_package : Bool → List Str → Conflicts → Conflicts → Option Removal
unfolding add_conflicts
settle_package replace removed all [] = some (removed, all)
settle_package replace removed all (m ∷ ms) =
    if replace then some (add_conflicts removed all (m ∷ ms)) else none

abbrev pub Collected : Type 0
Collected = Removal × List Fetched

module _ (db : Db) (fetch : Str → Str × RepoConfig → Option Fetched) (repos : Repos) (main : Str)
    (replace : Bool) where
  -- What becomes of one fetched package.
  unfoldable pub settle_fetched : Removal → Fetched → Option Removal
  unfolding add_obsoletes new_files settle_package
  settle_fetched (removed, all) f =
      let removed2 : List Str = add_obsoletes db removed f.rows.obsoletes in
      settle_package replace removed2 all (conflicts_of db (new_files (f.rows ∷ [])) removed2)

  abbrev pub go_on : (Removal → Option Collected) → Option Removal → Option Collected
  go_on k none = none
  go_on k (some r) = k r

  abbrev pub with_fetched :
      (Fetched → Option Removal)
      → (Fetched → Removal → Option Collected)
      → Option Fetched
      → Option Collected
  with_fetched settle k none = none
  with_fetched settle k (some f) = go_on (k f) (settle f)

  -- The loop over the planned packages. A dependency that is installed is left out.
  unfoldable pub fetch_all : List PackageId → Removal → List Fetched → Option Collected
  unfolding is_installed fetch_single matching_source settle_fetched
  fetch_all [] r fetched = some (r, fetched)
  fetch_all (pid ∷ pids) r fetched =
      if is_installed db pid.name && not (str_eq pid.name main)
      then fetch_all pids r fetched
      else with_fetched (settle_fetched r) (λ f r2. fetch_all pids r2 (fetched ++ f ∷ []))
          (fetch_single fetch pid.name (matching_source pid.format) repos)
