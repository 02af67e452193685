-- ===== src/Db/Conflict.antt =====
-- src/db/conflict.rs: the files that a new package shares with installed ones, and the table
-- `conflict_log`. A map from packages to files is an association list with distinct keys, in the
-- order in which the packages are met.
use samad_package_manager.Common.{
  ℕ, ◌≡◌, refl, inl, inr, Bool, false, not, ◌&&◌, ◌||◌, List, [], ◌∷◌, ◌++◌, Str, codes, str_eq,
  eq_of_str_eq, mem, keep, ◌==◌, if◌then◌else◌, arith, Bool-cases,
}
use samad_package_manager.Common.Members.{mem-append}
use samad_package_manager.Db.{Db, FileRecord, ConflictLogEntry}

abbrev pub Conflicts : Type 0
Conflicts = List (Str × List Str)

unfoldable pub record_conflict : Db → ConflictLogEntry → Db
record_conflict db e = record db { conflict_log = db.conflict_log ++ e ∷ [] }

unfoldable pub entries_for : ℕ → Str → Str → Str → List Str → List ConflictLogEntry
entries_for tx_id now replacement pkg_a [] = []
entries_for tx_id now replacement pkg_a (f ∷ files) =
    record {
      transaction_id = tx_id;
      package_a = pkg_a;
      package_b = replacement;
      file_path = f;
      action = codes "replaced";
      timestamp = now;
    }
    ∷ entries_for tx_id now replacement pkg_a files

unfoldable pub batch_entries : ℕ → Str → Str → Conflicts → List ConflictLogEntry
unfolding entries_for
batch_entries tx_id now replacement [] = []
batch_entries tx_id now replacement ((pkg_a, files) ∷ rest) =
    entries_for tx_id now replacement pkg_a files ++ batch_entries tx_id now replacement rest

unfoldable pub record_conflicts_batch : Db → ℕ → Str → Conflicts → Str → Db
unfolding batch_entries
record_conflicts_batch db tx_id now conflicts replacement_pkg = record db {
  conflict_log = db.conflict_log ++ batch_entries tx_id now replacement_pkg conflicts;
}

unfoldable pub get_conflicts_by_transaction : Db → ℕ → List ConflictLogEntry
get_conflicts_by_transaction db tx_id = keep (λ e. e.transaction_id == tx_id) db.conflict_log

unfoldable pub get_conflicts_for_package : Db → Str → List ConflictLogEntry
get_conflicts_for_package db pkg =
    keep (λ e. str_eq e.package_a pkg || str_eq e.package_b pkg) db.conflict_log

-- conflicts.entry(pkg).or_default().push(filepath)
unfoldable pub push_conflict : Str → Str → Conflicts → Conflicts
push_conflict pkg file [] = (pkg, file ∷ []) ∷ []
push_conflict pkg file ((p, files) ∷ rest) =
    if str_eq p pkg
    then (p, files ++ file ∷ []) ∷ rest
    else (p, files) ∷ push_conflict pkg file rest

-- The loop over the rows of the query, which leaves out the excluded packages.
unfoldable pub collect_conflicts : List Str → List Str → Conflicts → List FileRecord → Conflicts
unfolding mem push_conflict
collect_conflicts new_files exclude acc [] = acc
collect_conflicts new_files exclude acc (row ∷ rows) =
    collect_conflicts new_files exclude
      (if not (mem row.package_name exclude) && mem row.filepath new_files
        then push_conflict row.package_name row.filepath acc
        else acc)
      rows

unfoldable pub detect_file_conflicts : Db → List Str → List Str → Conflicts
unfolding collect_conflicts
detect_file_conflicts db new_files exclude = collect_conflicts new_files exclude [] db.files

-- A file is listed for a package.
unfoldable pub lists : Conflicts → Str → Str → Bool
unfolding mem
lists [] pkg file = false
lists ((p, files) ∷ rest) pkg file = (str_eq p pkg && mem file files) || lists rest pkg file

-- The row is of this package and of this file.
abbrev pub is_row : Str → Str → FileRecord → Bool
is_row pkg file row = str_eq row.package_name pkg && str_eq row.filepath file

unfoldable pub has_row : List FileRecord → Str → Str → Bool
has_row [] pkg file = false
has_row (row ∷ rows) pkg file = is_row pkg file row || has_row rows pkg file

lists-push :
    (pkg file q f : Str) (m : Conflicts)
    → lists (push_conflict pkg file m) q f ≡ ((str_eq pkg q && str_eq file f) || lists m q f)
unfolding lists push_conflict mem
lists-push pkg file q f [] = ground arith
lists-push pkg file q f ((p, files) ∷ rest) = elim (Bool-cases (str_eq p pkg)) [
  | inl e ↦ ground (arith, mem-append f files (file ∷ []), eq_of_str_eq p pkg)
  | inr e ↦ ground (arith, lists-push pkg file q f rest)
]

lists-collect :
    (new_files exclude : List Str) (acc : Conflicts) (rows : List FileRecord) (q f : Str)
    → lists (collect_conflicts new_files exclude acc rows) q f
      ≡ (lists acc q f || (not (mem q exclude) && mem f new_files && has_row rows q f))
unfolding collect_conflicts has_row
lists-collect new_files exclude acc [] q f = ground arith
lists-collect new_files exclude acc (row ∷ rows) q f = ground (
  arith,
  lists-collect new_files exclude acc rows q f,
  lists-collect new_files exclude (push_conflict row.package_name row.filepath acc) rows q f,
  lists-push row.package_name row.filepath q f acc,
  eq_of_str_eq row.package_name q,
  eq_of_str_eq row.filepath f,
)

-- The detection lists a file for a package exactly where the package has a row for the file, the
-- file is one of the new ones and the package is not excluded.
pub detect-overlaps :
    (db : Db) (new_files exclude : List Str) (pkg file : Str)
    → lists (detect_file_conflicts db new_files exclude) pkg file
      ≡ (not (mem pkg exclude) && mem file new_files && has_row db.files pkg file)
unfolding detect_file_conflicts
detect-overlaps db new_files exclude pkg file =
    rw (lists-collect new_files exclude [] db.files pkg file) (unfold lists in refl)
