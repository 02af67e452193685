-- ===== src/Engine/Upgrade.antt =====
-- upgrade_package of src/package/transaction.rs: the whole of it, and what becomes of the stored
-- scripts. The database part is Daemon.Deploy.Upgrade.
use samad_package_manager.Common.{◌≡◌, true, false, Option, none, some, List, [], ◌∷◌, Str, codes}
use samad_package_manager.Package.Repo.{RepoConfig, Repos}
use samad_package_manager.Db.{Db, FileRecord, InstalledPackage}
use samad_package_manager.Db.Packages.{get_installed_package}
use samad_package_manager.Db.Files.{get_files_by_package}
use samad_package_manager.Daemon.Rollback.{RollbackGuard, disarm}
use samad_package_manager.Daemon.Deploy.{Conn, Outcome, ok, err}
use samad_package_manager.Daemon.Deploy.Upgrade.{upgrade_commit}
use samad_package_manager.Engine.Collect.{Fetched}
use samad_package_manager.Engine.Scripts.{no_scripts, load_scripts, load-remove}
use samad_package_manager.Engine.Stage.{Host, Calls, Deployed, drop_on, fs_deploy_one}
use samad_package_manager.Engine.Cleanup.{
  run_script, run_package_scripts, RemoveInfo, gc_hash, cleaned, remove_sandbox, cleanup_removed,
}
use samad_package_manager.Engine.Smart.{Ended}

module _ (calls : Calls) (db_base user now : Str) (name : Str)
    (fetch : Str → Str × RepoConfig → Option Fetched) where
  abbrev pub old_info : List FileRecord → InstalledPackage → RemoveInfo
  old_info old_files old = record {
    name = name;
    files = old_files;
    store_hash = old.store_hash;
    install_type = old.install_type;
    format = old.format;
  }

  -- After the database part: the scripts of the new version, then the cleanup of the old one.
  abbrev pub finish_upgrade :
      List FileRecord
      → InstalledPackage
      → RollbackGuard
      → Fetched
      → Host
      → Outcome (Unit {0}) × Conn
      → Ended
  finish_upgrade old_files old g f h (err, c) = (err, c, drop_on calls.drops g h)
  finish_upgrade old_files old g f h (ok u, c) = (
    ok u,
    c,
    cleanup_removed calls c.db (old_info old_files old)
        (run_package_scripts f (drop_on calls.drops (disarm g) h)),
  )

  abbrev pub commit_upgrade : List FileRecord → InstalledPackage → Conn → Deployed → Ended
  commit_upgrade old_files old c (none, h) = (err, c, h)
  commit_upgrade old_files old c (some (g, f), h) =
      finish_upgrade old_files old g f h
        (upgrade_commit name user now old.format f.rows.files f.rows.pkg c)

  -- The first repository from which the package is fetched; the copies of configuration files are
  -- Engine.Conffiles.
  abbrev pub first_fetched : Repos → Option Fetched
  first_fetched [] = none
  first_fetched (r ∷ rs) = elim (fetch name r) [ none ↦ first_fetched rs | some f ↦ some f ]

  abbrev pub deploy_upgrade :
      List FileRecord → InstalledPackage → Conn → Host → Option Fetched → Ended
  deploy_upgrade old_files old c h none = (err, c, h)
  deploy_upgrade old_files old c h (some f) =
      commit_upgrade old_files old c (fs_deploy_one calls db_base false f h)

  abbrev pub upgrade_installed : Repos → Conn → Host → Option InstalledPackage → Ended
  upgrade_installed repos c h none = (err, c, h)
  upgrade_installed repos c h (some old) =
      deploy_upgrade (get_files_by_package c.db name) old c h (first_fetched repos)

  unfoldable pub upgrade_package : Repos → Conn → Host → Ended
  unfolding get_installed_package get_files_by_package fs_deploy_one upgrade_commit drop_on disarm
      run_package_scripts cleanup_removed
  upgrade_package repos c h = upgrade_installed repos c h (get_installed_package c.db name)

-- A script that runs stores nothing.
run_script-no_scripts :
    (name : Str) (s : Option Str) (phase : Str) (h : Host)
    → load_scripts name h.scripts ≡ no_scripts
    → load_scripts name ((run_script s phase h).scripts) ≡ no_scripts
run_script-no_scripts name none phase h k = k
run_script-no_scripts name (some s) phase h k = k

cleaned-no_scripts :
    (calls : Calls) (db : Db) (info : RemoveInfo) (h : Host)
    → calls.scripts_ok info.name ≡ true
    → load_scripts info.name ((cleaned calls db info h).scripts) ≡ no_scripts
unfolding cleaned
cleaned-no_scripts calls db info h can = rw can (
    load-remove info.name (
      (remove_sandbox calls info.name info.install_type (
        gc_hash db info.format info.store_hash
          (run_script (load_scripts info.name h.scripts).prerm (codes "remove") h))).scripts))

-- The cleanup of a package leaves none of its scripts where they can be removed.
pub cleanup_removed-no_scripts :
    (calls : Calls) (db : Db) (info : RemoveInfo) (h : Host)
    → calls.scripts_ok info.name ≡ true
    → load_scripts info.name ((cleanup_removed calls db info h).scripts) ≡ no_scripts
unfolding cleanup_removed
cleanup_removed-no_scripts calls db info h can =
    run_script-no_scripts info.name ((load_scripts info.name h.scripts).postrm) (codes "remove")
      (cleaned calls db info h) (cleaned-no_scripts calls db info h can)

module _ (calls : Calls) (db_base user now name : Str)
    (fetch : Str → Str × RepoConfig → Option Fetched) (can : calls.scripts_ok name ≡ true) where
  finish-no_scripts :
      (old_files : List FileRecord) (old : InstalledPackage) (g : RollbackGuard) (f : Fetched)
      (h : Host) (r : Outcome Unit × Conn)
      → let e = finish_upgrade calls db_base user now name fetch old_files old g f h r in
        e.0 ≡ ok tt → load_scripts name (e.2.scripts) ≡ no_scripts
  finish-no_scripts old_files old g f h (err, c) k = cc
  finish-no_scripts old_files old g f h (ok u, c) k =
      cleanup_removed-no_scripts calls c.db
        (old_info calls db_base user now name fetch old_files old) _ can

  commit-no_scripts :
      (old_files : List FileRecord) (old : InstalledPackage) (c : Conn) (d : Deployed)
      → let e = commit_upgrade calls db_base user now name fetch old_files old c d in
        e.0 ≡ ok tt → load_scripts name (e.2.scripts) ≡ no_scripts
  commit-no_scripts old_files old c (none, h) k = cc
  commit-no_scripts old_files old c (some (g, f), h) k = finish-no_scripts old_files old g f h _ k

  deploy-no_scripts :
      (old_files : List FileRecord) (old : InstalledPackage) (c : Conn) (h : Host)
      (o : Option Fetched)
      → let e = deploy_upgrade calls db_base user now name fetch old_files old c h o in
        e.0 ≡ ok tt → load_scripts name (e.2.scripts) ≡ no_scripts
  deploy-no_scripts old_files old c h none k = cc
  deploy-no_scripts old_files old c h (some f) k = commit-no_scripts old_files old c _ k

  installed-no_scripts :
      (repos : Repos) (c : Conn) (h : Host) (o : Option InstalledPackage)
      → let e = upgrade_installed calls db_base user now name fetch repos c h o in
        e.0 ≡ ok tt → load_scripts name (e.2.scripts) ≡ no_scripts
  installed-no_scripts repos c h none k = cc
  installed-no_scripts repos c h (some old) k =
      deploy-no_scripts (get_files_by_package c.db name) old c h _ k

  -- After an upgrade that succeeds, no scripts are stored for the package, whatever scripts its new
  -- version has, provided that the directory of its scripts can be removed.
  pub upgrade_package-no_scripts :
      (repos : Repos) (c : Conn) (h : Host)
      → let e = upgrade_package calls db_base user now name fetch repos c h in
        e.0 ≡ ok tt → load_scripts name (e.2.scripts) ≡ no_scripts
  unfolding upgrade_package
  upgrade_package-no_scripts repos c h k =
      installed-no_scripts repos c h (get_installed_package c.db name) k
