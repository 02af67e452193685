-- ===== src/Db/Classify.antt =====
-- classify_conflicts of src/db/conflict.rs. The texts of the reasons are left out.
use samad_package_manager.Common.Sort.{sort_by, sorted, count_by, sort-sorted, count_by-sort}
use samad_package_manager.Common.{
  ℕ, ◌+◌, ◌≡◌, refl, Bool, true, false, ◌&&◌, ◌||◌, List, [], ◌∷◌, Str, codes, str_eq, any, length,
  starts_with, contains, ltb, leb, ◌==◌, if◌then◌else◌, arith,
}
use samad_package_manager.Db.Conflict.{Conflicts}

pub data ConflictSeverity : Type 0 where
  critical shared minor : ConflictSeverity

pub record ConflictSummary : Type 0 where
  pub package_name : Str
  pub file_count : ℕ
  pub severity : ConflictSeverity

unfoldable pub has_bin : List Str → Bool
unfolding starts_with
has_bin = any (λ f. starts_with f (codes "/usr/bin/") || starts_with f (codes "/bin/"))

unfoldable pub has_lib : List Str → Bool
unfolding contains
has_lib = any (λ f. contains f (codes "/lib"))

-- The severity that the loop's body chooses.
unfoldable pub severity_of : List Str → ConflictSeverity
unfolding has_bin has_lib
severity_of files =
    if (has_bin files || has_lib files) && ltb 5 (length files)
    then critical
    else if ltb 3 (length files)
    then shared
    else minor

unfoldable pub summary : Str → List Str → ConflictSummary
unfolding severity_of
summary pkg files = record {
  package_name = pkg;
  file_count = length files;
  severity = severity_of files;
}

unfoldable pub severity_eq : ConflictSeverity → ConflictSeverity → Bool
severity_eq critical critical = true
severity_eq shared shared = true
severity_eq minor minor = true
severity_eq _ _ = false

-- The entries that the loop pushes on the list of one severity.
unfoldable pub of_severity : ConflictSeverity → Conflicts → List ConflictSummary
unfolding severity_eq summary
of_severity v [] = []
of_severity v ((pkg, files) ∷ rest) =
    let others = of_severity v rest in
    if severity_eq (severity_of files) v then summary pkg files ∷ others else others

-- sort_by_key(|b| Reverse(b.file_count))
abbrev pub count_geb : ConflictSummary → ConflictSummary → Bool
count_geb a b = leb b.file_count a.file_count

abbrev pub Classes : Type 0
Classes = List ConflictSummary × List ConflictSummary × List ConflictSummary

unfoldable pub classify_conflicts : Conflicts → Classes
unfolding of_severity
classify_conflicts conflicts = (
  sort_by count_geb (of_severity critical conflicts),
  sort_by count_geb (of_severity shared conflicts),
  sort_by count_geb (of_severity minor conflicts),
)

abbrev pub is_summary : Str → ℕ → ConflictSummary → Bool
is_summary pkg n s = str_eq s.package_name pkg && s.file_count == n

abbrev pub count_conflicts : Str → ℕ → Conflicts → ℕ
count_conflicts pkg n [] = 0
count_conflicts pkg n ((p, files) ∷ rest) =
    (if str_eq p pkg && length files == n then 1 else 0) + count_conflicts pkg n rest

of_severity-count :
    (pkg : Str) (n : ℕ) (m : Conflicts)
    → count_by count_geb (is_summary pkg n) (of_severity critical m)
        + (count_by count_geb (is_summary pkg n) (of_severity shared m)
            + count_by count_geb (is_summary pkg n) (of_severity minor m))
      ≡ count_conflicts pkg n m
unfolding of_severity summary severity_eq
of_severity-count pkg n [] = refl
of_severity-count pkg n ((p, files) ∷ rest) = elim (severity_of files) [
  | critical ↦ ground (arith, of_severity-count pkg n rest)
  | shared ↦ ground (arith, of_severity-count pkg n rest)
  | minor ↦ ground (arith, of_severity-count pkg n rest)
]

-- The three lists together hold a summary for each package in conflict and no other, with the
-- number of its files, as often as the package was there.
pub classify-counts :
    (m : Conflicts) (pkg : Str) (n : ℕ)
    → count_by count_geb (is_summary pkg n) ((classify_conflicts m).0)
        + (count_by count_geb (is_summary pkg n) ((classify_conflicts m).1)
            + count_by count_geb (is_summary pkg n) ((classify_conflicts m).2))
      ≡ count_conflicts pkg n m
unfolding classify_conflicts
classify-counts m pkg n = rw (
  count_by-sort count_geb (is_summary pkg n) (of_severity critical m),
  count_by-sort count_geb (is_summary pkg n) (of_severity shared m),
  count_by-sort count_geb (is_summary pkg n) (of_severity minor m),
  of_severity-count pkg n m,
)

count_geb_total : (a b : ConflictSummary) → count_geb a b ≡ false → count_geb b a ≡ true
count_geb_total a b h = ground arith

-- Each of the three lists descends by the number of files.
pub classify-descending :
    (m : Conflicts)
    → (sorted count_geb ((classify_conflicts m).0) ≡ true)
      × (sorted count_geb ((classify_conflicts m).1) ≡ true)
      × (sorted count_geb ((classify_conflicts m).2) ≡ true)
unfolding classify_conflicts
classify-descending m = (
  sort-sorted count_geb count_geb_total (of_severity critical m),
  sort-sorted count_geb count_geb_total (of_severity shared m),
  sort-sorted count_geb count_geb_total (of_severity minor m),
)
