-- ===== src/Removal.antt =====
-- src/package/install/remove.rs: remove_package and purge_package. The links of the host stand for
-- the files under their paths; that an empty directory goes with its last file is not followed, nor
-- are hooks, triggers and menu entries.
pub mod Kept
pub mod Ends
mod Examples
use samad_package_manager.Package.{PackageId, new, to_string}
use samad_package_manager.Common.{
  ◌≡◌, Bool, true, false, not, ◌&&◌, ◌||◌, Option, none, some, List, [], ◌∷◌, ◌++◌, Str, codes,
  str_eq, mem, starts_with, any, keep, if◌then◌else◌,
}
use samad_package_manager.Db.{
  Db, Transaction, remove, completed, FileRecord, InstallType, native, sandbox, InstalledPackage,
}
use samad_package_manager.Db.Packages.{get_installed_package}
use samad_package_manager.Db.Files.{get_files_by_package}
use samad_package_manager.Db.Transactions.{record_transaction}
use samad_package_manager.Daemon.Rollback.{Fs, remove_link}
use samad_package_manager.Daemon.Deploy.{
  Conn, Outcome, ok, err, Sql, exec, and_then, pure, remove_by_id,
}
use samad_package_manager.Engine.Scripts.{load_scripts, remove_scripts, Scripts}
use samad_package_manager.Engine.Stage.{Host}
use samad_package_manager.Engine.Cleanup.{run_script, gc_hash, remove_sandbox}

unfoldable pub create_remove_transaction : Str → Str → PackageId → Transaction
unfolding to_string
create_remove_transaction user now pid = record {
  id = none;
  action = remove;
  timestamp = now;
  user = user;
  status = completed;
  packages = to_string pid ∷ [];
  snapshot_id = none;
}

-- Listed in the manifest, or anywhere under /etc.
unfoldable pub is_conffile : Str → List Str → Bool
unfolding mem starts_with
is_conffile path conffiles = if mem path conffiles then true else starts_with path (codes "/etc/")

abbrev pub any_starts : Str → List FileRecord → Bool
any_starts d = any (λ r. starts_with r.filepath d)

unfoldable pub dirs_to_cleanup : Str → List FileRecord → List Str
unfolding starts_with
dirs_to_cleanup name file_records =
    let etc : Str = codes "/etc/" ++ name in
    let var : Str = codes "/var/lib/" ++ name in
    (if any_starts etc file_records then etc ∷ [] else [])
    ++ (if any_starts var file_records then var ∷ [] else [])

-- Which removals of files, directories, sandboxes and script directories succeed.
pub record Removals : Type 0 where
  pub file_ok : Str → Bool
  pub dir_ok : Str → Bool
  pub sandbox_ok : Str → Bool
  pub scripts_ok : Str → Bool

-- What still stands, and what could not be removed.
abbrev pub Removed : Type 0
Removed = List Str × List Str

module _ (calls : Removals) where
  unfoldable pub remove_file : Str → Removed → Removed
  unfolding mem remove_link
  remove_file path (links, errors) =
      if mem path links
      then if calls.file_ok path
        then (remove_link path links, errors)
        else (links, errors ++ path ∷ [])
      else (links, errors)

  -- The loop of remove_package, which passes over configuration files.
  unfoldable pub remove_files : List Str → List FileRecord → Removed → Removed
  unfolding remove_file
  remove_files conffiles [] r = r
  remove_files conffiles (f ∷ fs) r =
      remove_files conffiles fs
        (if is_conffile f.filepath conffiles then r else remove_file f.filepath r)

  -- The loop of purge_package.
  unfoldable pub purge_files : List FileRecord → Removed → Removed
  unfolding remove_file
  purge_files [] r = r
  purge_files (f ∷ fs) r = purge_files fs (remove_file f.filepath r)

  abbrev pub under : Str → Str → Bool
  under d path = starts_with path (d ++ codes "/")

  unfoldable pub purge_dirs : List Str → Removed → Removed
  unfolding starts_with
  purge_dirs [] r = r
  purge_dirs (d ∷ ds) (links, errors) = purge_dirs ds (
      if any (under d) links
      then if calls.dir_ok d
        then (keep (λ p. not (under d p)) links, errors)
        else (links, errors ++ d ∷ [])
      else (links, errors))

  -- The sandbox of a package, if there is one.
  abbrev pub drop_sandbox : Str → Host → List Str → Host × List Str
  drop_sandbox name h errors =
      if mem name h.sandboxes
      then if calls.sandbox_ok name
        then (record h { sandboxes = keep (λ s. not (str_eq s name)) h.sandboxes }, errors)
        else (h, errors ++ name ∷ [])
      else (h, errors)

  abbrev pub sandbox_of : InstallType → Str → Host → List Str → Host × List Str
  sandbox_of native name h errors = (h, errors)
  sandbox_of sandbox name h errors = drop_sandbox name h errors

abbrev pub with_files : Host → List Str → Host
with_files h links = record h { fs = record h.fs { links = links } }

-- The two statements under the write lock, each for itself: there is no transaction.
unfoldable pub forget : Str → Str → PackageId → Sql Unit
unfolding create_remove_transaction exec and_then remove_by_id
forget user now pid =
    and_then (exec (λ d. some (record_transaction d (create_remove_transaction user now pid))))
      (λ tx_id. remove_by_id pid)

abbrev pub Ended : Type 0
Ended = Outcome (Unit {0}) × Conn × Host

-- After the database: the store, and the script that runs last.
abbrev pub after_forget : InstalledPackage → Scripts → Host → Outcome (Unit {0}) × Conn → Ended
after_forget pkg scripts h (err, c) = (err, c, h)
after_forget pkg scripts h (ok u, c) =
    (ok u, c, run_script scripts.postrm (codes "remove") (gc_hash c.db pkg.format pkg.store_hash h))

-- The database is touched only where everything was removed.
abbrev pub settle :
    Str → Str → PackageId → InstalledPackage → Scripts → Conn → Host × List Str → Ended
settle user now pid pkg scripts c (h, e ∷ errors) = (err, c, h)
settle user now pid pkg scripts c (h, []) = after_forget pkg scripts h (forget user now pid c)

-- `conffiles_of` reads the list of a manifest; a manifest that cannot be read has none.
module _ (calls : Removals) (conffiles_of : Str → List Str) (user now name : Str) where
  abbrev pub conffiles : InstalledPackage → List Str
  conffiles pkg = elim pkg.manifest [ none ↦ [] | some m ↦ conffiles_of m ]

  abbrev pub cleared : InstalledPackage → List FileRecord → Scripts → Host → Host × List Str
  cleared pkg file_records scripts h =
      let r = remove_files calls (conffiles pkg) file_records (h.fs.links, []) in
      sandbox_of calls pkg.install_type name
        (with_files (run_script scripts.prerm (codes "remove") h) (r.0)) (r.1)

  abbrev pub remove_found : Conn → Host → Option InstalledPackage → Ended
  remove_found c h none = (err, c, h)
  remove_found c h (some pkg) =
      let scripts : Scripts = load_scripts name h.scripts in
      settle user now (new name pkg.format) pkg scripts c
        (cleared pkg (get_files_by_package c.db name) scripts h)

  unfoldable pub remove_package : Conn → Host → Ended
  unfolding get_installed_package get_files_by_package load_scripts remove_files mem forget
  remove_package c h = remove_found c h (get_installed_package c.db name)

  -- The scripts that are stored go as well.
  abbrev pub drop_scripts : Host × List Str → Host × List Str
  unfolding remove_scripts
  drop_scripts (h, errors) =
      let r = remove_scripts (calls.scripts_ok name) name h.scripts in
      (record h { scripts = r.1 }, if r.0 then errors else errors ++ name ∷ [])

  abbrev pub purged : List FileRecord → Scripts → Host → Host × List Str
  purged file_records scripts h =
      let r = purge_files calls file_records (h.fs.links, []) in
      let s = purge_dirs calls (dirs_to_cleanup name file_records) r in
      drop_scripts (
        drop_sandbox calls name (with_files (run_script scripts.prerm (codes "remove") h) (s.0))
          (s.1))

  abbrev pub purge_found : Conn → Host → Option InstalledPackage → Ended
  purge_found c h none = (err, c, h)
  purge_found c h (some pkg) =
      let scripts : Scripts = load_scripts name h.scripts in
      settle user now (new name pkg.format) pkg scripts c
        (purged (get_files_by_package c.db name) scripts h)

  unfoldable pub purge_package : Conn → Host → Ended
  unfolding get_installed_package get_files_by_package load_scripts purge_files purge_dirs
      dirs_to_cleanup remove_scripts mem forget
  purge_package c h = purge_found c h (get_installed_package c.db name)
