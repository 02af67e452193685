-- ===== src/Daemon/Overlap.antt =====
-- src/daemon/conflict.rs: the conflicts of the files of a package as entries, and what is to be done
-- about them.
pub mod Owners
use samad_package_manager.Common.Sort.{sort_by, insert_by, str_leb}
use samad_package_manager.Common.{
  ◌≡◌, refl, ◌∙◌, inl, inr, Bool, true, false, ◌||◌, List, [], ◌∷◌, ◌++◌, map, Str, codes, str_eq,
  eq_of_str_eq, mem, any, starts_with, if◌then◌else◌, arith, Bool-cases,
}
use samad_package_manager.Db.{Db}
use samad_package_manager.Db.Conflict.{Conflicts, detect_file_conflicts}

pub data ConflictSeverity : Type 0 where
  critical shared minor : ConflictSeverity

pub record ConflictEntry : Type 0 where
  pub file : Str
  pub existing_package : Str
  pub severity : ConflictSeverity

pub data ConflictResolution : Type 0 where
  allow block : ConflictResolution
  replace : List Str → ConflictResolution

unfoldable pub overlap_severity : Str → ConflictSeverity
unfolding starts_with
overlap_severity pkg = if starts_with pkg (codes "lib") then shared else critical

unfoldable pub file_entries : Str → List Str → List ConflictEntry
unfolding overlap_severity
file_entries pkg [] = []
file_entries pkg (f ∷ fs) =
    record { file = f; existing_package = pkg; severity = overlap_severity pkg }
    ∷ file_entries pkg fs

unfoldable pub conflict_entries : Conflicts → List ConflictEntry
unfolding file_entries
conflict_entries [] = []
conflict_entries ((pkg, files) ∷ rest) = file_entries pkg files ++ conflict_entries rest

unfoldable pub check_conflicts : Db → List Str → List ConflictEntry
unfolding conflict_entries detect_file_conflicts
check_conflicts db files = conflict_entries (detect_file_conflicts db files [])

unfoldable pub is_critical : ConflictEntry → Bool
is_critical c = elim c.severity [ critical ↦ true | shared ↦ false | minor ↦ false ]

-- Vec::dedup: of equal neighbours the first stays.
unfoldable pub dedup_from : Str → List Str → List Str
dedup_from x [] = x ∷ []
dedup_from x (y ∷ ys) =
    let same = dedup_from x ys in
    let other = dedup_from y ys in if str_eq x y then same else x ∷ other

unfoldable pub dedup : List Str → List Str
unfolding dedup_from
dedup [] = []
dedup (x ∷ xs) = dedup_from x xs

abbrev pub packages_of : List ConflictEntry → List Str
packages_of = map (λ c. c.existing_package)

unfoldable pub resolve : List ConflictEntry → ConflictResolution
unfolding is_critical dedup
resolve conflicts =
    if any is_critical conflicts
    then replace (dedup (sort_by str_leb (packages_of conflicts)))
    else allow

mem-insert_by :
    (s x : Str) (xs : List Str) → mem s (insert_by str_leb x xs) ≡ (str_eq x s || mem s xs)
unfolding insert_by mem
mem-insert_by s x [] = refl
mem-insert_by s x (y ∷ ys) = ground (arith, mem-insert_by s x ys)

pub mem-sort_by : (s : Str) (xs : List Str) → mem s (sort_by str_leb xs) ≡ mem s xs
unfolding sort_by mem
mem-sort_by s [] = refl
mem-sort_by s (x ∷ xs) = ground (arith, mem-insert_by s x (sort_by str_leb xs), mem-sort_by s xs)

mem-dedup_from : (s x : Str) (xs : List Str) → mem s (dedup_from x xs) ≡ (str_eq x s || mem s xs)
unfolding dedup_from mem
mem-dedup_from s x [] = refl
mem-dedup_from s x (y ∷ ys) =
    ground (arith, mem-dedup_from s x ys, mem-dedup_from s y ys, eq_of_str_eq x y)

pub mem-dedup : (s : Str) (xs : List Str) → mem s (dedup xs) ≡ mem s xs
unfolding dedup mem
mem-dedup s [] = refl
mem-dedup s (x ∷ xs) = mem-dedup_from s x xs
