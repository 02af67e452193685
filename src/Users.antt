-- ===== src/Users.antt =====
-- src/db/users.rs and src/package/install/user.rs: installations for one user, whose files stand in
-- a shared cache (src/cache/mod.rs) by their hash.
pub mod Backed
pub mod Remaining
mod Examples
use samad_package_manager.Package.{PackageFormat, format_eq}
use samad_package_manager.Common.{
  ℕ, Bool, true, false, not, ◌&&◌, ◌||◌, Option, none, some, List, [], ◌∷◌, ◌++◌, Str, str_eq, mem,
  keep, any, length, ltb, leb, ◌==◌, if◌then◌else◌,
}
use samad_package_manager.Common.Sort.{sort_by, str_leb, count_by}
use samad_package_manager.Db.Packages.{first}
use samad_package_manager.Daemon.Deploy.{Outcome, ok, err}

pub record UserInstall : Type 0 where
  pub user_id : ℕ
  pub package_name : Str
  pub package_format : PackageFormat
  pub package_hash : Str
  pub installed_at : Str

abbrev pub Installs : Type 0
Installs = List UserInstall

abbrev pub has_key : ℕ → Str → PackageFormat → UserInstall → Bool
has_key user_id name format r =
    r.user_id == user_id && str_eq r.package_name name && format_eq r.package_format format

-- INSERT OR REPLACE.
unfoldable pub record_user_install : ℕ → Str → PackageFormat → Str → Str → Installs → Installs
record_user_install user_id name format hash now rows =
    keep (λ r. not (has_key user_id name format r)) rows
    ++ record {
      user_id = user_id;
      package_name = name;
      package_format = format;
      package_hash = hash;
      installed_at = now;
    }
      ∷ []

unfoldable pub remove_user_install : ℕ → Str → PackageFormat → Installs → Installs
remove_user_install user_id name format = keep (λ r. not (has_key user_id name format r))

unfoldable pub is_installed_for_user : ℕ → Str → Installs → Bool
is_installed_for_user user_id name rows =
    ltb 0 (length (keep (λ r. r.user_id == user_id && str_eq r.package_name name) rows))

abbrev pub name_leb : UserInstall → UserInstall → Bool
name_leb a b = str_leb a.package_name b.package_name

unfoldable pub list_user_installs : ℕ → Installs → Installs
list_user_installs user_id rows = sort_by name_leb (keep (λ r. r.user_id == user_id) rows)

abbrev pub has_hash : Str → UserInstall → Bool
has_hash hash r = str_eq r.package_hash hash

unfoldable pub count_users_for_package_hash : Str → Installs → ℕ
count_users_for_package_hash hash = count_by name_leb (has_hash hash)

abbrev user_leb : UserInstall → UserInstall → Bool
user_leb a b = ltb a.user_id b.user_id || (a.user_id == b.user_id && name_leb a b)

unfoldable pub list_all_user_installs : Installs → Installs
list_all_user_installs = sort_by user_leb

-- The table, the hashes of the packages in the shared cache, and the links in the directories of the
-- users.
pub record Shared : Type 0 where
  pub rows : Installs
  pub packages : List Str
  pub links : List (ℕ × Str)

-- A package that was fetched: its hash, the format of its repository, and the names of the files in
-- its directories for programs.
pub record UserPackage : Type 0 where
  pub hash : Str
  pub format : PackageFormat
  pub targets : List Str

-- Which calls on files succeed.
pub record Calls : Type 0 where
  pub copy_ok : Str → Bool
  pub link_ok : Str → Bool
  pub unlink_ok : Str → Bool
  pub drop_ok : Str → Bool

abbrev pub same_link : ℕ → Str → ℕ × Str → Bool
same_link user_id name l = l.0 == user_id && str_eq (l.1) name

unfoldable pub remove_shared_package : Str → List Str → List Str
remove_shared_package hash = keep (λ h. not (str_eq h hash))

-- The result, and the state behind it.
abbrev pub Ended : Type 0
Ended = Outcome (Unit {0}) × Shared

module _ (calls : Calls) (user_id : ℕ) (name now : Str) where
  -- copy_to_shared_cache: whether the package is there afterwards, and whether it is new. A copy is
  -- renamed into its place when it is complete.
  unfoldable pub copy_to_shared_cache : Str → List Str → Option Bool × List Str
  unfolding mem
  copy_to_shared_cache hash packages =
      if mem hash packages
      then (some false, packages)
      else if calls.copy_ok hash
      then (some true, hash ∷ packages)
      else (none, packages)

  -- create_user_symlinks: the first link that fails ends it.
  unfoldable pub create_user_symlinks : List Str → List (ℕ × Str) → Bool × List (ℕ × Str)
  create_user_symlinks [] links = (true, links)
  create_user_symlinks (t ∷ ts) links =
      let rest =
        create_user_symlinks ts ((user_id, t) ∷ keep (λ l. not (same_link user_id t l)) links) in
      if calls.link_ok t then rest else (false, links)

  -- What follows the links. A package without programs is an error, after which a new copy goes.
  abbrev pub after_links : UserPackage → Bool → Shared → List Str → Bool × List (ℕ × Str) → Ended
  after_links pkg is_new s targets (false, links) = (err, record s { links = links })
  after_links pkg is_new s [] (true, links) = (
    err,
    record s {
      links = links;
      packages = if is_new then remove_shared_package pkg.hash s.packages else s.packages;
    },
  )
  after_links pkg is_new s (t ∷ ts) (true, links) = (
    ok tt,
    record s {
      links = links;
      rows = record_user_install user_id name pkg.format pkg.hash now s.rows;
    },
  )

  abbrev pub after_copy : UserPackage → Shared → Option Bool × List Str → Ended
  after_copy pkg s (none, packages) = (err, record s { packages = packages })
  after_copy pkg s (some is_new, packages) =
      after_links pkg is_new (record s { packages = packages }) pkg.targets
        (create_user_symlinks pkg.targets s.links)

  -- install_for_user, from the fetched package on.
  unfoldable pub install_for_user : UserPackage → Shared → Ended
  unfolding is_installed_for_user copy_to_shared_cache create_user_symlinks remove_shared_package
      record_user_install
  install_for_user pkg s =
      if is_installed_for_user user_id name s.rows
      then (err, s)
      else after_copy pkg s (copy_to_shared_cache pkg.hash s.packages)

  -- Phase 2: the links that stand are removed, and those that cannot be are errors.
  unfoldable pub remove_links : List Str → List (ℕ × Str) × List Str → List (ℕ × Str) × List Str
  remove_links [] r = r
  remove_links (t ∷ ts) (links, errors) = remove_links ts (
      if any (same_link user_id t) links
      then if calls.unlink_ok t
        then (keep (λ l. not (same_link user_id t l)) links, errors)
        else (links, errors ++ t ∷ [])
      else (links, errors))

  -- Phase 3: the package goes where at most one installation had its hash when they were counted.
  -- The count has a lock of its own, which is released before the package goes.
  unfoldable pub drop_counted : ℕ → Str → Shared → List Str → Shared × List Str
  unfolding remove_shared_package mem
  drop_counted remaining hash s errors =
      if leb remaining 1
      then if not (mem hash s.packages)
        then (s, errors)
        else if calls.drop_ok hash
        then (record s { packages = remove_shared_package hash s.packages }, errors)
        else (s, errors ++ hash ∷ [])
      else (s, errors)

  -- The phase where no other call comes between its count and its removal.
  unfoldable pub drop_package : Str → Shared → List Str → Shared × List Str
  unfolding count_users_for_package_hash drop_counted
  drop_package hash s errors = drop_counted (count_users_for_package_hash hash s.rows) hash s errors

  -- Phases 4 and 5: the row goes where there was no error.
  abbrev pub forget_row : UserInstall → Shared × List Str → Ended
  forget_row ui (s, []) =
      (ok tt, record s { rows = remove_user_install user_id name ui.package_format s.rows })
  forget_row ui (s, e ∷ errors) = (err, s)

  -- The names of the programs of a package in the cache.
  abbrev pub targets_in : (Str → List Str) → Str → List Str → List Str
  targets_in contents hash packages = if mem hash packages then contents hash else []

  -- The phases of a removal that no other call comes between: each has its own lock, or none.
  abbrev pub remove_install : (Str → List Str) → Shared → Option UserInstall → Ended
  remove_install contents s none = (err, s)
  remove_install contents s (some ui) =
      let hash : Str = ui.package_hash in
      let r = remove_links (targets_in contents hash s.packages) (s.links, []) in
      forget_row ui (drop_package hash (record s { links = r.0 }) (r.1))

  unfoldable pub remove_for_user : (Str → List Str) → Shared → Ended
  unfolding list_user_installs remove_links drop_package remove_user_install mem
  remove_for_user contents s =
      remove_install contents s
        (first (keep (λ r. str_eq r.package_name name) (list_user_installs user_id s.rows)))
