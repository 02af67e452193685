-- ===== src/Engine/Cleanup.antt =====
-- Phase D of src/package/transaction.rs: run_package_scripts, capture_remove_infos and
-- cleanup_removed, with gc_store_with_origin of src/package/store.rs. The hooks and triggers, which
-- configure the services of the system, are left out.
use samad_package_manager.Package.{PackageFormat}
use samad_package_manager.Common.{
  Bool, false, not, Option, none, some, List, [], ◌∷◌, ◌++◌, Str, codes, str_eq, keep, any,
  if◌then◌else◌,
}
use samad_package_manager.Db.{Db, FileRecord, InstallType, native, sandbox, InstalledPackage}
use samad_package_manager.Db.Packages.{get_installed_packages_batch}
use samad_package_manager.Db.Files.{get_files_by_packages_batch}
use samad_package_manager.Daemon.Rollback.{Dir, has_dir, remove_dir, origin_from_format}
use samad_package_manager.Engine.Collect.{Fetched}
use samad_package_manager.Engine.Scripts.{load_scripts, remove_scripts}
use samad_package_manager.Engine.Stage.{Host, Calls}

-- A script that fails is passed over, so that only the run counts.
abbrev pub run_script : Option Str → Str → Host → Host
run_script none phase h = h
run_script (some script) phase h = record h { runs = h.runs ++ (script, phase) ∷ [] }

unfoldable pub run_package_scripts : Fetched → Host → Host
run_package_scripts f h =
    run_script f.scripts.postinst (codes "configure")
      (run_script f.scripts.preinst (codes "install") h)

unfoldable pub run_all_scripts : List Fetched → Host → Host
unfolding run_package_scripts
run_all_scripts [] h = h
run_all_scripts (f ∷ fs) h = run_all_scripts fs (run_package_scripts f h)

pub record RemoveInfo : Type 0 where
  pub name : Str
  pub files : List FileRecord
  pub store_hash : Option Str
  pub install_type : InstallType
  pub format : PackageFormat

abbrev pub info_of : Str → List FileRecord → InstalledPackage → RemoveInfo
info_of name files pkg = record {
  name = name;
  files = files;
  store_hash = pkg.store_hash;
  install_type = pkg.install_type;
  format = pkg.format;
}

-- The map keeps the last row of a name.
abbrev pub last_row : Str → List (Str × InstalledPackage) → Option InstalledPackage
last_row name [] = none
last_row name ((n, p) ∷ rows) = elim (last_row name rows) [
  | some q ↦ some q
  | none ↦ if str_eq n name then some p else none
]

abbrev pub cons_info :
    Str → List FileRecord → Option InstalledPackage → List RemoveInfo → List RemoveInfo
cons_info name files none infos = infos
cons_info name files (some p) infos =
    info_of name (keep (λ f. str_eq f.package_name name) files) p ∷ infos

unfoldable pub infos_for :
    List (Str × InstalledPackage) → List FileRecord → List Str → List RemoveInfo
infos_for rows files [] = []
infos_for rows files (name ∷ names) =
    cons_info name files (last_row name rows) (infos_for rows files names)

-- The read of the database that fails gives no rows; here it succeeds.
unfoldable pub capture_remove_infos : Db → List Str → List RemoveInfo
unfolding infos_for get_installed_packages_batch get_files_by_packages_batch
capture_remove_infos db removed =
    infos_for (get_installed_packages_batch db removed) (get_files_by_packages_batch db removed)
      removed

abbrev pub has_hash : Str → InstalledPackage → Bool
has_hash hash p = elim p.store_hash [ none ↦ false | some h ↦ str_eq h hash ]

-- count_store_references(conn, hash) > 0
unfoldable pub is_referenced : Db → Str → Bool
is_referenced db hash = any (has_hash hash) db.installed_packages

-- A directory of the store goes where no row refers to its hash.
unfoldable pub gc_store_with_origin : Db → Dir → Host → Host
unfolding has_dir remove_dir is_referenced
gc_store_with_origin db d h =
    if not (has_dir d h.fs.store) then h else if is_referenced db (d.1) then h else record h {
      fs = record h.fs { store = remove_dir d h.fs.store };
      partial = remove_dir d h.partial;
    }

abbrev pub gc_hash : Db → PackageFormat → Option Str → Host → Host
gc_hash db format none h = h
gc_hash db format (some hash) h = gc_store_with_origin db (origin_from_format format, hash) h

unfoldable pub remove_sandbox : Calls → Str → InstallType → Host → Host
remove_sandbox calls name native h = h
remove_sandbox calls name sandbox h =
    if calls.sandbox_ok name
    then record h { sandboxes = keep (λ s. not (str_eq s name)) h.sandboxes }
    else h

-- All of the cleanup but the script that runs last.
unfoldable pub cleaned : Calls → Db → RemoveInfo → Host → Host
unfolding load_scripts remove_scripts gc_store_with_origin origin_from_format remove_sandbox
cleaned calls db info h =
    let h1 : Host = run_script (load_scripts info.name h.scripts).prerm (codes "remove") h in
    let h2 : Host = gc_hash db info.format info.store_hash h1 in
    let h3 : Host = remove_sandbox calls info.name info.install_type h2 in
    record h3 { scripts = (remove_scripts (calls.scripts_ok info.name) info.name h3.scripts).1 }

unfoldable pub cleanup_removed : Calls → Db → RemoveInfo → Host → Host
unfolding cleaned load_scripts
cleanup_removed calls db info h =
    run_script (load_scripts info.name h.scripts).postrm (codes "remove") (cleaned calls db info h)

unfoldable pub cleanup_all : Calls → Db → List RemoveInfo → Host → Host
unfolding cleanup_removed
cleanup_all calls db [] h = h
cleanup_all calls db (i ∷ infos) h = cleanup_all calls db infos (cleanup_removed calls db i h)
