-- ===== src/Daemon/Replace.antt =====
-- phase_conflict_detection of src/daemon/transaction.rs: which packages an installation removes.
use samad_package_manager.Common.Members.{mem-append}
use samad_package_manager.Common.{
  ◌≡◌, inl, inr, Bool, true, false, not, ◌&&◌, Option, none, some, List, [], ◌∷◌, ◌++◌, map, Str,
  mem, eq_of_str_eq, keep, if◌then◌else◌, arith, Bool-cases, Option-cases,
}
use samad_package_manager.Db.{Db, FileAction, created, modified, deleted}
use samad_package_manager.Db.Packages.{is_installed}
use samad_package_manager.Db.Conflict.{
  Conflicts, detect_file_conflicts, lists, has_row, detect-overlaps,
}
use samad_package_manager.Daemon.Deploy.{FetchedPackage, InstallPlan}

abbrev pub push_new : Str → List Str → List Str
push_new x xs = if mem x xs then xs else xs ++ x ∷ []

-- plan.flag("replace")
unfoldable pub replaced_by_flag : InstallPlan → List Str
replaced_by_flag plan = elim plan.replace [ none ↦ [] | some r ↦ r ∷ [] ]

-- The obsoletes of one manifest.
unfoldable pub add_obsoletes : Db → List Str → List Str → List Str
unfolding is_installed mem
add_obsoletes db removed [] = removed
add_obsoletes db removed (o ∷ os) =
    add_obsoletes db
      (if is_installed db o && not (mem o removed) then removed ++ o ∷ [] else removed) os

unfoldable pub all_obsoletes : Db → List Str → List FetchedPackage → List Str
unfolding add_obsoletes
all_obsoletes db removed [] = removed
all_obsoletes db removed (f ∷ fs) = all_obsoletes db (add_obsoletes db removed f.obsoletes) fs

unfoldable pub is_created : FileAction → Bool
is_created created = true
is_created modified = false
is_created deleted = false

unfoldable pub new_files : List FetchedPackage → List Str
unfolding is_created
new_files [] = []
new_files (f ∷ fs) = map (λ r. r.filepath) (keep (λ r. is_created r.action) f.files) ++ new_files fs

-- The two results, or the error of a conflict without the flag.
abbrev pub Detected : Type 0
Detected = Option (List Str × Conflicts)

-- The loop over the conflicts. Their keys are distinct, so that an entry is new in the map.
unfoldable pub settle_conflicts : Option Str → List Str → Conflicts → Conflicts → Detected
unfolding mem
settle_conflicts flag removed found [] = some (removed, found)
settle_conflicts flag removed found ((pkg, files) ∷ rest) =
    let skip = settle_conflicts flag removed found rest in
    let replace = settle_conflicts flag (removed ++ pkg ∷ []) (found ++ (pkg, files) ∷ []) rest in
    if mem pkg removed then skip else elim flag [ none ↦ none | some r ↦ replace ]

abbrev pub detect_in : Db → Option Str → List Str → List Str → Detected
detect_in db flag removed [] = some (removed, [])
detect_in db flag removed (f ∷ fs) =
    settle_conflicts flag removed [] (detect_file_conflicts db (f ∷ fs) removed)

unfoldable pub phase_conflict_detection : Db → InstallPlan → List FetchedPackage → Detected
unfolding replaced_by_flag all_obsoletes new_files settle_conflicts
phase_conflict_detection db plan fetched =
    detect_in db plan.replace (all_obsoletes db (replaced_by_flag plan) fetched) (new_files fetched)

module _ (flag : Option Str) (pkg file : Str) where
  -- A package that is to be removed stays so.
  settle-kept :
      (removed : List Str) (found m : Conflicts) (r : List Str) (c : Conflicts)
      → settle_conflicts flag removed found m ≡ some (r, c)
      → mem pkg removed ≡ true
      → mem pkg r ≡ true
  unfolding settle_conflicts
  settle-kept removed found [] r c e h = ground arith
  settle-kept removed found ((p, files) ∷ rest) r c e h = elim (Bool-cases (mem p removed)) [
    | inl q ↦ settle-kept removed found rest r c (rw q at e) h
    | inr q ↦ elim (Option-cases flag) [
      | inl n ↦ ground (arith, q, n)
      | inr (x, n) ↦
          settle-kept (removed ++ p ∷ []) (found ++ (p, files) ∷ []) rest r c (ground (arith, q, n))
            (ground (arith, mem-append pkg removed (p ∷ [])))
    ]
  ]

  -- A package in conflict is to be removed.
  settle-removes :
      (removed : List Str) (found m : Conflicts) (r : List Str) (c : Conflicts)
      → settle_conflicts flag removed found m ≡ some (r, c)
      → lists m pkg file ≡ true
      → mem pkg r ≡ true
  unfolding settle_conflicts lists mem
  settle-removes removed found [] r c e h = cc
  settle-removes removed found ((p, files) ∷ rest) r c e h = elim (Bool-cases (mem p removed)) [
    | inl q ↦ elim (Bool-cases (lists rest pkg file)) [
      | inl l ↦ settle-removes removed found rest r c (rw q at e) l
      | inr l ↦ settle-kept removed found rest r c (rw q at e) (ground (arith, eq_of_str_eq p pkg))
    ]
    | inr q ↦ elim (Option-cases flag) [
      | inl n ↦ ground (arith, q, n)
      | inr (x, n) ↦ elim (Bool-cases (lists rest pkg file)) [
        | inl l ↦
            settle-removes (removed ++ p ∷ []) (found ++ (p, files) ∷ []) rest r c
              (ground (arith, q, n)) l
        | inr l ↦
            settle-kept (removed ++ p ∷ []) (found ++ (p, files) ∷ []) rest r c
              (ground (arith, q, n))
              (ground (arith, mem-append pkg removed (p ∷ []), eq_of_str_eq p pkg))
      ]
    ]
  ]

detect_in-covers :
    (db : Db) (flag : Option Str) (removed files : List Str) (r : List Str) (c : Conflicts)
    (pkg file : Str)
    → detect_in db flag removed files ≡ some (r, c)
    → mem file files ≡ true
    → has_row db.files pkg file ≡ true
    → mem pkg r ≡ true
unfolding mem
detect_in-covers db flag removed [] r c pkg file e h k = cc
detect_in-covers db flag removed (f ∷ fs) r c pkg file e h k = elim (Bool-cases (mem pkg removed)) [
  | inl q ↦ settle-kept flag pkg file removed [] (detect_file_conflicts db (f ∷ fs) removed) r c e q
  | inr q ↦
      settle-removes flag pkg file removed [] (detect_file_conflicts db (f ∷ fs) removed) r c e
        (ground (arith, detect-overlaps db (f ∷ fs) removed pkg file))
]

-- Where the conflict phase passes, every package that has a record of a file that the installation
-- creates is among the packages to be removed, with the flag or without it.
pub phase_conflict_detection-covers :
    (db : Db) (plan : InstallPlan) (fetched : List FetchedPackage) (removed : List Str)
    (conflicts : Conflicts) (pkg file : Str)
    → phase_conflict_detection db plan fetched ≡ some (removed, conflicts)
    → mem file (new_files fetched) ≡ true
    → has_row db.files pkg file ≡ true
    → mem pkg removed ≡ true
unfolding phase_conflict_detection
phase_conflict_detection-covers db plan fetched removed conflicts pkg file e h k =
    detect_in-covers db plan.replace (all_obsoletes db (replaced_by_flag plan) fetched)
      (new_files fetched) removed conflicts pkg file e h k
