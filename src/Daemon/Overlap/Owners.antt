-- ===== src/Daemon/Overlap/Owners.antt =====
-- What src/daemon/conflict.rs decides about the files of a package, by the rows of the database.
use samad_package_manager.Common.{
  ◌≡◌, refl, ◌∙◌, inl, inr, Bool, true, false, not, ◌&&◌, ◌||◌, List, [], ◌∷◌, ◌++◌, Str, codes,
  str_eq, eq_of_str_eq, mem, any, starts_with, arith, Bool-cases,
}
use samad_package_manager.Common.Sort.{sort_by, str_leb}
use samad_package_manager.Db.{Db, FileRecord}
use samad_package_manager.Db.Conflict.{
  Conflicts, push_conflict, collect_conflicts, detect_file_conflicts,
}
use samad_package_manager.Daemon.Overlap.{
  ConflictEntry, ConflictResolution, allow, block, replace, overlap_severity, file_entries,
  conflict_entries, check_conflicts, is_critical, packages_of, resolve, mem-sort_by, mem-dedup,
}

-- A row of the package for one of the files.
unfoldable pub owns : List FileRecord → List Str → Str → Bool
unfolding mem str_eq
owns rows files pkg = any (λ r. mem r.filepath files && str_eq r.package_name pkg) rows

-- One of the files belongs to a package whose name does not begin with "lib".
unfoldable pub owned_outside : List FileRecord → List Str → Bool
unfolding mem starts_with
owned_outside rows files =
    any (λ r. mem r.filepath files && not (starts_with r.package_name (codes "lib"))) rows

abbrev nonempty : List Str → Bool
nonempty [] = false
nonempty (f ∷ fs) = true

abbrev held : Str → Conflicts → Bool
unfolding str_eq
held q [] = false
held q ((p, files) ∷ rest) = (str_eq p q && nonempty files) || held q rest

abbrev outside : Conflicts → Bool
unfolding starts_with
outside [] = false
outside ((p, files) ∷ rest) = (not (starts_with p (codes "lib")) && nonempty files) || outside rest

nonempty-append : (fs : List Str) (f : Str) → nonempty (fs ++ f ∷ []) ≡ true
nonempty-append [] f = refl
nonempty-append (x ∷ fs) f = refl

held-push :
    (pkg file q : Str) (m : Conflicts)
    → held q (push_conflict pkg file m) ≡ (str_eq pkg q || held q m)
unfolding held push_conflict
held-push pkg file q [] = ground arith
held-push pkg file q ((p, files) ∷ rest) = elim (Bool-cases (str_eq p pkg)) [
  | inl e ↦ ground (arith, nonempty-append files file, eq_of_str_eq p pkg)
  | inr e ↦ ground (arith, held-push pkg file q rest)
]

outside-push :
    (pkg file : Str) (m : Conflicts)
    → outside (push_conflict pkg file m) ≡ (not (starts_with pkg (codes "lib")) || outside m)
unfolding outside push_conflict
outside-push pkg file [] = ground arith
outside-push pkg file ((p, files) ∷ rest) = elim (Bool-cases (str_eq p pkg)) [
  | inl e ↦ ground (arith, nonempty-append files file, eq_of_str_eq p pkg)
  | inr e ↦ ground (arith, outside-push pkg file rest)
]

held-collect :
    (files : List Str) (acc : Conflicts) (rows : List FileRecord) (q : Str)
    → held q (collect_conflicts files [] acc rows) ≡ (held q acc || owns rows files q)
unfolding collect_conflicts owns mem
held-collect files acc [] q = ground arith
held-collect files acc (r ∷ rows) q = ground (
  arith,
  held-collect files acc rows q,
  held-collect files (push_conflict r.package_name r.filepath acc) rows q,
  held-push r.package_name r.filepath q acc,
)

outside-collect :
    (files : List Str) (acc : Conflicts) (rows : List FileRecord)
    → outside (collect_conflicts files [] acc rows) ≡ (outside acc || owned_outside rows files)
unfolding collect_conflicts owned_outside mem
outside-collect files acc [] = ground arith
outside-collect files acc (r ∷ rows) = ground (
  arith,
  outside-collect files acc rows,
  outside-collect files (push_conflict r.package_name r.filepath acc) rows,
  outside-push r.package_name r.filepath acc,
)

-- The entries of one package.
file_entries-packages :
    (p q : Str) (files : List Str) (es : List ConflictEntry)
    → mem q (packages_of (file_entries p files ++ es))
      ≡ ((str_eq p q && nonempty files) || mem q (packages_of es))
unfolding file_entries mem
file_entries-packages p q [] es = ground arith
file_entries-packages p q (f ∷ files) es = ground (arith, file_entries-packages p q files es)

entries-packages : (q : Str) (m : Conflicts) → mem q (packages_of (conflict_entries m)) ≡ held q m
unfolding conflict_entries held mem
entries-packages q [] = refl
entries-packages q ((p, files) ∷ rest) =
    file_entries-packages p q files (conflict_entries rest) ∙ rw (entries-packages q rest) refl

file_entries-critical :
    (p : Str) (files : List Str) (es : List ConflictEntry)
    → any is_critical (file_entries p files ++ es)
      ≡ ((not (starts_with p (codes "lib")) && nonempty files) || any is_critical es)
unfolding file_entries is_critical overlap_severity
file_entries-critical p [] es = ground arith
file_entries-critical p (f ∷ files) es = elim (Bool-cases (starts_with p (codes "lib"))) [
  | inl e ↦ rw e (ground (arith, file_entries-critical p files es, e))
  | inr e ↦ rw e (ground (arith, file_entries-critical p files es, e))
]

entries-critical : (m : Conflicts) → any is_critical (conflict_entries m) ≡ outside m
unfolding conflict_entries outside
entries-critical [] = refl
entries-critical ((p, files) ∷ rest) =
    file_entries-critical p files (conflict_entries rest) ∙ rw (entries-critical rest) refl

-- Nothing is in the way, or the owners of the files are to be replaced.
abbrev pub Decides : Db → List Str → ConflictResolution → Type 0
Decides db files allow = owned_outside db.files files ≡ false
Decides db files block = ⊥
Decides db files (replace packages) =
    (owned_outside db.files files ≡ true)
    × ((pkg : Str) → mem pkg packages ≡ owns db.files files pkg)

-- The resolution of the conflicts that are found for some files never blocks. It allows them where
-- every recorded owner of one of the files has a name that begins with "lib". Otherwise the
-- packages to be replaced are exactly the recorded owners of the files, those with such a name
-- among them.
pub resolve-Decides :
    (db : Db) (files : List Str) → Decides db files (resolve (check_conflicts db files))
unfolding resolve check_conflicts detect_file_conflicts owns held
resolve-Decides db files =
    let m : Conflicts = collect_conflicts files [] [] db.files in
    let es : List ConflictEntry = conflict_entries m in
    let crit = entries-critical m ∙ outside-collect files [] db.files in
    elim (Bool-cases (any is_critical es)) [
      | inl e ↦ rw e (
        ground (arith, crit, e),
        λ pkg.
            mem-dedup pkg (sort_by str_leb (packages_of es))
            ∙ mem-sort_by pkg (packages_of es)
            ∙ entries-packages pkg m
            ∙ held-collect files [] db.files pkg,
      )
      | inr e ↦ rw e (ground (arith, crit, e))
    ]
