-- ===== src/Fsck.antt =====
-- src/fsck.rs: the check of the database. What SQLite answers about its own integrity and whether
-- a path exists are parameters; the messages are left out.
pub mod Fixed
mod Examples
use samad_package_manager.Common.{
  ℕ, suc, ◌+◌, Bool, true, false, not, ◌&&◌, Option, none, some, List, [], ◌∷◌, ◌++◌, map, Str,
  keep, length, mem, if◌then◌else◌,
}
use samad_package_manager.Db.{Db, InstalledPackage, FileRecord, foreign, origin_eq}
use samad_package_manager.Db.Packages.{list_installed_packages, remove_installed_package, distinct}
use samad_package_manager.Db.Files.{get_all_files}
use samad_package_manager.Daemon.Deploy.{Sql, err, exec, and_then, pure, update}

pub record FsckReport : Type 0 where
  pub integrity_ok : Bool
  pub orphan_files : List Str
  pub missing_files : List (Str × Str)
  pub dangling_refs : List Str
  pub total_issues : ℕ
  pub fixed : ℕ

-- FsckReport::default
abbrev pub no_report : FsckReport
no_report = record {
  integrity_ok = false;
  orphan_files = [];
  missing_files = [];
  dangling_refs = [];
  total_issues = 0;
  fixed = 0;
}

pub record Answers : Type 0 where
  pub integrity : Bool
  pub after_vacuum : Bool
  pub exists : Str → Bool

abbrev read : {A : Type 0} → (Db → A) → Sql A
unfolding exec
read f = exec (λ d. some (f d, d))

-- A package with no row in the table of files, and not from another package manager.
unfoldable pub missing_pkg_files : List InstalledPackage → List FileRecord → List Str
unfolding mem origin_eq
missing_pkg_files pkgs files =
    map (λ p. p.name)
      (keep
        (λ p.
          not (mem p.name (map (λ f. f.package_name) files)) && not (origin_eq p.origin foreign))
        pkgs)

-- The packages of the files that are not installed.
unfoldable pub orphans : List InstalledPackage → List FileRecord → List Str
unfolding mem distinct
orphans pkgs files =
    keep (λ n. not (mem n (map (λ p. p.name) pkgs))) (distinct (map (λ f. f.package_name) files))

-- SELECT DISTINCT over the files without a row of the package.
unfoldable pub dangling : Db → List Str
unfolding mem distinct
dangling d = distinct (
    map (λ f. f.package_name)
      (keep (λ f. not (mem f.package_name (map (λ p. p.name) d.installed_packages))) d.files))

module _ (answers : Answers) (fix check_files : Bool) where
  unfoldable pub check_database : Sql FsckReport
  unfolding exec and_then pure
  check_database =
      let broken : FsckReport = record no_report { total_issues = 1 } in
      if answers.integrity
      then pure (record no_report { integrity_ok = true })
      else if fix
      then and_then (exec (update (λ d. d)))
          (λ _. if answers.after_vacuum then pure (record broken { fixed = 1 }) else λ c. (err, c))
      else pure broken

  -- The loop over the orphan groups.
  unfoldable pub remove_orphans : List Str → Sql Unit
  unfolding exec and_then pure remove_installed_package
  remove_orphans [] = pure tt
  remove_orphans (name ∷ names) =
      and_then (exec (update (λ d. remove_installed_package d name))) (λ _. remove_orphans names)

  unfoldable pub check_orphans : List Str → FsckReport → Sql FsckReport
  unfolding remove_orphans and_then pure
  check_orphans names report =
      let found : FsckReport = record report {
        orphan_files = names;
        total_issues = report.total_issues + length names;
      } in
      if fix
      then and_then (remove_orphans names)
          (λ _. pure (record found { fixed = found.fixed + length names }))
      else pure found

  abbrev missing_on_disk : List FileRecord → List (Str × Str)
  missing_on_disk files =
      map (λ f. (f.package_name, f.filepath)) (keep (λ f. not (answers.exists f.filepath)) files)

  unfoldable pub check_disk : List FileRecord → FsckReport → FsckReport
  check_disk files report =
      if check_files
      then record report {
        missing_files = missing_on_disk files;
        total_issues = report.total_issues + length (missing_on_disk files);
      }
      else report

  -- The last query, whose answer is counted on top.
  unfoldable pub with_dangling : List FileRecord → FsckReport → Sql FsckReport
  unfolding check_disk dangling exec and_then pure
  with_dangling files report = and_then (read dangling) (λ names.
      pure (record (check_disk files report) {
        dangling_refs = names;
        total_issues = (check_disk files report).total_issues + length names;
      }))

  abbrev pub with_missing : List InstalledPackage → List FileRecord → FsckReport → FsckReport
  unfolding missing_pkg_files
  with_missing pkgs files report = record report {
    total_issues = report.total_issues + length (missing_pkg_files pkgs files);
  }

  unfoldable pub check_tables :
      FsckReport → List InstalledPackage → List FileRecord → Sql FsckReport
  unfolding check_orphans orphans with_dangling with_missing and_then
  check_tables report pkgs files =
      and_then (check_orphans (orphans pkgs files) (with_missing pkgs files report))
        (with_dangling files)

  unfoldable pub read_tables : FsckReport → Sql FsckReport
  unfolding check_tables exec and_then list_installed_packages get_all_files
  read_tables report =
      and_then (read list_installed_packages)
        (λ pkgs. and_then (read get_all_files) (check_tables report pkgs))

  unfoldable pub check_integrity : Sql FsckReport
  unfolding check_database read_tables and_then
  check_integrity = and_then check_database read_tables
