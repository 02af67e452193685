-- ===== src/Db/Files.antt =====
-- src/db/files.rs: the table `files`. A row belongs to a transaction, which the foreign key
-- demands; `none` is the error of a row without one.
use samad_package_manager.Common.{
  ℕ, suc, Bool, false, ◌&&◌, Option, none, some, List, [], ◌∷◌, ◌++◌, map, Str, str_eq, mem, keep,
  any, ◌==◌, if◌then◌else◌,
}
use samad_package_manager.Package.{format_eq, PackageId}
use samad_package_manager.Db.{Db, FileRecord, Transaction}
use samad_package_manager.Db.Packages.{distinct}

abbrev pub has_id : ℕ → Transaction → Bool
has_id i tx = elim tx.id [ none ↦ false | some j ↦ j == i ]

abbrev pub insert_row : Db → FileRecord → Db
insert_row db f = record db {
  files = db.files ++ record f { id = some (suc db.last_file) } ∷ [];
  last_file = suc db.last_file;
}

-- One execution of the prepared INSERT.
unfoldable pub insert_file : Db → FileRecord → Option Db
insert_file db f =
    if any (has_id f.transaction_id) db.transactions then some (insert_row db f) else none

unfoldable pub get_files_by_package : Db → Str → List FileRecord
get_files_by_package db pkg = keep (λ f. str_eq f.package_name pkg) db.files

unfoldable pub get_files_by_package_id : Db → PackageId → List FileRecord
get_files_by_package_id db pid =
    keep (λ f. str_eq f.package_name pid.name && format_eq f.format pid.format) db.files

unfoldable pub get_packages_for_file : Db → Str → List Str
unfolding distinct
get_packages_for_file db filepath =
    distinct (map (λ f. f.package_name) (keep (λ f. str_eq f.filepath filepath) db.files))

unfoldable pub get_files_by_packages_batch : Db → List Str → List FileRecord
unfolding mem
get_files_by_packages_batch db [] = []
get_files_by_packages_batch db (n ∷ names) = keep (λ f. mem f.package_name (n ∷ names)) db.files

unfoldable pub get_all_files : Db → List FileRecord
get_all_files db = db.files

unfoldable pub get_files_for_transaction : Db → ℕ → List FileRecord
get_files_for_transaction db tx_id = keep (λ f. f.transaction_id == tx_id) db.files
