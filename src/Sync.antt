-- ===== src/Sync.antt =====
-- src/sync.rs: the packages of the system's own package manager are taken into the tables. The
-- reading of the files of dpkg gives their lines; the database of rpm, which SQLite reads, is a
-- parameter. The set of names is gone through in the order of the query.
pub mod Pruned
pub mod Installed
pub mod Files
mod Examples
use samad_package_manager.Common.{
  ℕ, Bool, true, false, not, ◌||◌, Option, none, some, List, [], ◌∷◌, ◌++◌, map, Str, codes, trim,
  keep, mem, if◌then◌else◌,
}
use samad_package_manager.Package.{PackageFormat, deb, rpm}
use samad_package_manager.Db.{Db, InstalledPackage, FileRecord, created, native, foreign, origin_eq}
use samad_package_manager.Db.Packages.{
  get_installed_package, get_all_installed_package_names, add_installed_package,
  remove_installed_package, count_packages_by_origin,
}
use samad_package_manager.Daemon.Deploy.{
  Sql, Outcome, err, exec, and_then, pure, update, record_files,
}
use samad_package_manager.Upgrades.Packages.{strip_prefix, is_empty}

-- What a line `key: value` makes of the variable for the key.
abbrev set_field : Str → Str → Option Str → Option Str
set_field key line old = elim (strip_prefix line key) [ none ↦ old | some val ↦ some (trim val) ]

abbrev push_stanza : Option Str → Option Str → List (Str × Str) → List (Str × Str)
push_stanza (some name) (some version) packages = packages ++ (name, version) ∷ []
push_stanza (some name) none packages = packages
push_stanza none version packages = packages

-- The loop over the lines with its variables, and the push behind it. Both variables are taken at
-- the end of a stanza.
unfoldable pub scan_status :
    List Str → Option Str → Option Str → List (Str × Str) → List (Str × Str)
unfolding strip_prefix trim
scan_status [] name version packages = push_stanza name version packages
scan_status (line ∷ lines) name version packages =
    let closed = scan_status lines none none (push_stanza name version packages) in
    let rest =
      scan_status lines (set_field (codes "Package: ") line name)
        (set_field (codes "Version: ") line version) packages in
    if is_empty (trim line) then closed else rest

-- `none` is a file that cannot be read.
unfoldable pub parse_deb822_status : Option (List Str) → List (Str × Str)
unfolding scan_status
parse_deb822_status none = []
parse_deb822_status (some lines) = scan_status lines none none []

unfoldable pub query_dpkg_files : Option (List Str) → List Str
query_dpkg_files none = []
query_dpkg_files (some lines) = keep (λ l. not (is_empty l)) lines

pub record System : Type 0 where
  pub has_dpkg : Bool
  pub has_rpm : Bool
  pub dpkg_status : Option (List Str)
  pub dpkg_list : Str → Option (List Str)
  pub rpm_packages : List (Str × Str)
  pub rpm_files : Str → List Str

unfoldable pub foreign_package : PackageFormat → Str → Str × Str → InstalledPackage
foreign_package format now (name, version) = record {
  name = name;
  version = version;
  format = format;
  install_type = native;
  manifest = none;
  install_date = now;
  source_repo = some (codes "foreign:system");
  store_hash = none;
  origin = foreign;
}

unfoldable pub foreign_file : PackageFormat → Str → Str → FileRecord
foreign_file format name path = record {
  id = none;
  transaction_id = 0;
  package_name = name;
  format = format;
  filepath = path;
  hash = [];
  action = created;
}

unfoldable pub import_files : PackageFormat → Str → List Str → Sql Unit
unfolding record_files foreign_file pure
import_files format name [] = pure tt
import_files format name (p ∷ ps) = record_files 0 (map (foreign_file format name) (p ∷ ps))

module _ (system : System) where
  abbrev pub format_of : PackageFormat
  format_of = if system.has_dpkg then deb else rpm

  unfoldable pub system_pkgs : List (Str × Str)
  unfolding parse_deb822_status
  system_pkgs =
      if system.has_dpkg then parse_deb822_status system.dpkg_status else system.rpm_packages

module _ (system : System) (now : Str) (files : Bool) where
  unfoldable pub file_list : Str → List Str
  unfolding query_dpkg_files
  file_list name =
      if files
      then (if system.has_dpkg
          then query_dpkg_files (system.dpkg_list name)
          else system.rpm_files name)
      else []

  -- The loop over the packages of the system.
  unfoldable pub import_all : List Str → List (Str × Str) → Sql Unit
  unfolding file_list import_files add_installed_package foreign_package exec and_then pure mem
  import_all spm_names [] = pure tt
  import_all spm_names (pkg ∷ pkgs) =
      let rest = import_all spm_names pkgs in
      if mem (pkg.0) spm_names
      then rest
      else and_then
          (exec
            (update (λ d. add_installed_package d (foreign_package (format_of system) now pkg))))
          (λ _. and_then (import_files (format_of system) (pkg.0) (file_list (pkg.0))) (λ _. rest))

  unfoldable pub prune_found : Str → Option InstalledPackage → Sql Unit
  unfolding exec pure remove_installed_package origin_eq
  prune_found name none = pure tt
  prune_found name (some pkg) =
      if origin_eq pkg.origin foreign
      then exec (update (λ d. remove_installed_package d name))
      else pure tt

  -- The loop over the names of the tables.
  unfoldable pub prune_all : List Str → List Str → Sql Unit
  unfolding prune_found exec and_then pure mem get_installed_package
  prune_all system_names [] = pure tt
  prune_all system_names (name ∷ names) =
      let rest = prune_all system_names names in
      if mem name system_names
      then rest
      else and_then (exec (λ d. some (get_installed_package d name, d)))
          (λ found. and_then (prune_found name found) (λ _. rest))

  -- The result is what is printed at the end: the numbers of packages by their origin.
  unfoldable pub sync_body : Bool → Sql (ℕ × ℕ)
  unfolding import_all prune_all exec and_then pure get_all_installed_package_names system_pkgs
      count_packages_by_origin
  sync_body prune = and_then (exec (λ d. some (get_all_installed_package_names d, d))) (λ spm_names.
      and_then (import_all spm_names (system_pkgs system)) (λ _.
        and_then
          (if prune then prune_all (map (λ q. q.0) (system_pkgs system)) spm_names else pure tt)
          (λ _. exec (λ d. some (count_packages_by_origin d, d)))))

  unfoldable pub sync_system : Bool → Sql (ℕ × ℕ)
  unfolding sync_body
  sync_system prune c = if system.has_dpkg || system.has_rpm then sync_body prune c else (err, c)
