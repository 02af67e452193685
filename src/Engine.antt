-- ===== src/Engine.antt =====
-- src/package/transaction.rs, the transaction engine of the command line: the data of a
-- transaction, and its plan. Reads of the database are taken to succeed here.
pub mod Scripts
pub mod Collect
pub mod Covers
pub mod Stage
pub mod Commit
pub mod Cleanup
pub mod Smart
pub mod Whole
pub mod Upgrade
pub mod Conffiles
mod Examples
use samad_package_manager.Package.{PackageId, PackageFormat, new}
use samad_package_manager.Common.{
  ℕ, Bool, true, false, not, ◌&&◌, ◌||◌, Option, none, some, List, [], ◌∷◌, ◌-◌, ◌+◌, map, Str,
  codes, str_eq, trim, ltb, leb, if◌then◌else◌,
}
use samad_package_manager.Db.{Db}
use samad_package_manager.Db.Packages.{is_installed, get_all_installed_package_names}
use samad_package_manager.Db.Files.{get_files_by_packages_batch}
use samad_package_manager.Db.Conflict.{Conflicts, detect_file_conflicts}
use samad_package_manager.Db.Classify.{Classes, classify_conflicts}

pub record TransactionPlan : Type 0 where
  pub name : Str
  pub all_packages : List PackageId
  pub to_remove : List Str
  pub file_conflicts : Conflicts
  pub classified : Classes

-- A set of files that is empty asks for no conflicts.
abbrev pub conflicts_of : Db → List Str → List Str → Conflicts
conflicts_of db [] exclude = []
conflicts_of db (f ∷ fs) exclude = detect_file_conflicts db (f ∷ fs) exclude

unfoldable pub plan_install_local : Db → Str → Bool → List Str → TransactionPlan
unfolding is_installed classify_conflicts
plan_install_local db name replace new_files =
    let to_remove : List Str = if replace && is_installed db name then name ∷ [] else [] in
    let file_conflicts : Conflicts = conflicts_of db new_files to_remove in
    record {
      name = name;
      all_packages = new name PackageFormat.sam ∷ [];
      to_remove = to_remove;
      file_conflicts = file_conflicts;
      classified = classify_conflicts file_conflicts;
    }

-- The loop over the installed names.
unfoldable pub installed_as : Str → List Str → List Str
installed_as name [] = []
installed_as name (n ∷ names) =
    let rest = installed_as name names in if str_eq n name then n ∷ rest else rest

-- The conflicts of the files of the packages that are replaced.
abbrev pub replaced_conflicts : Db → List Str → Conflicts
replaced_conflicts db [] = []
replaced_conflicts db (n ∷ names) =
    conflicts_of db (map (λ f. f.filepath) (get_files_by_packages_batch db (n ∷ names))) (n ∷ names)

unfoldable pub plan_install : Db → Str → List PackageId → TransactionPlan
unfolding installed_as get_all_installed_package_names classify_conflicts
plan_install db name topological_order =
    let to_remove : List Str = installed_as name (get_all_installed_package_names db) in
    let file_conflicts : Conflicts = replaced_conflicts db to_remove in
    record {
      name = name;
      all_packages = topological_order;
      to_remove = to_remove;
      file_conflicts = file_conflicts;
      classified = classify_conflicts file_conflicts;
    }

-- str::to_lowercase on ASCII.
abbrev pub to_lowercase : Str → Str
to_lowercase = map (λ c. if leb b'A' c && leb c b'Z' then c + 32 else c)

-- The answer of the terminal is asked for where there is one and it is not approved already.
unfoldable pub approve_plan : Bool → Bool → Str → Bool
unfolding trim str_eq
approve_plan approved is_terminal answer =
    let input = to_lowercase (trim answer) in
    if approved || not is_terminal
    then true
    else str_eq input [] || str_eq input (codes "y") || str_eq input (codes "yes")
