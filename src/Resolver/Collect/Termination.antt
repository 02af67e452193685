-- ===== src/Resolver/Collect/Termination.antt =====
-- The search ends: every name enters the queue for a requirement that is still pending.
use samad_package_manager.Common.{
  ℕ, zero, suc, ◌+◌, ◌≤◌, ◌≡◌, refl, ap, false, some, List, [], ◌∷◌, ◌++◌, length, length-append,
  Str, str_eq, eq_of_str_eq, str_eq_refl, str_eq_sym, mem, if◌then◌else◌, arith, Bool-cases,
  List-cases, inl, inr,
}
use samad_package_manager.Package.{PackageFormat, PackageId}
use samad_package_manager.Index.{SonameIndex, Entries, find, get_requires, requires_of}
use samad_package_manager.Solver.Names.{extract_dep_name}
use samad_package_manager.Resolver.Collect.{
  Search, enqueue, or_none, visit, search, start, total_requires, phase1_collect_packages,
}

length-enqueue :
    (seen queue deps : List Str) → length (enqueue seen queue deps) ≤ length queue + length deps
unfolding enqueue
length-enqueue seen queue [] = omega arith
length-enqueue seen queue (dep ∷ deps) = elim (Bool-cases (mem (extract_dep_name dep) seen)) [
  | inl e ↦ rw e (omega (arith, length-enqueue seen queue deps))
  | inr e ↦ rw e (
      omega (
        arith,
        length-enqueue seen (queue ++ extract_dep_name dep ∷ []) deps,
        length-append queue (extract_dep_name dep ∷ []),
      ))
]

-- The requirements of the names that are not seen.
pending : List Str → Entries → ℕ
pending seen [] = 0
pending seen ((k, e) ∷ es) = (if mem k seen then 0 else length e.requires) + pending seen es

pending-cons-le :
    (n : Str) (seen : List Str) (es : Entries) → pending (n ∷ seen) es ≤ pending seen es
unfolding pending mem
pending-cons-le n seen [] = omega arith
pending-cons-le n seen ((k, e) ∷ es) = ground (arith, pending-cons-le n seen es)

-- A name that is seen for the first time takes its requirements from what is pending.
pending-cons :
    (n : Str) (seen : List Str) (es : Entries)
    → mem n seen ≡ false
    → pending (n ∷ seen) es + length (or_none (requires_of (find n es))) ≤ pending seen es
unfolding pending mem find
pending-cons n seen [] h = omega arith
pending-cons n seen ((k, e) ∷ es) h = elim (Bool-cases (str_eq k n)) [
  | inl q ↦ ground (arith, eq_of_str_eq k n q, pending-cons-le n seen es, str_eq_refl n)
  | inr q ↦ ground (arith, pending-cons n seen es, str_eq_sym k n)
]

pending-nil : (es : Entries) → pending [] es ≡ total_requires es
unfolding pending mem
pending-nil [] = refl
pending-nil ((k, e) ∷ es) = ground (arith, pending-nil es)

module _ (index : SonameIndex) (format : PackageFormat) where
  abbrev work : Search → ℕ
  work s = length s.queue + pending s.seen index.entries

  work-visit :
      (seen : List Str) (name : Str) (queue : List Str) (collected : List PackageId)
      → work (visit index format seen name queue collected)
        ≤ length queue + pending seen index.entries
  unfolding visit get_requires
  work-visit seen name queue collected = elim (Bool-cases (mem name seen)) [
    | inl e ↦ rw e (omega arith)
    | inr e ↦ rw e (
        omega (
          arith,
          length-enqueue (name ∷ seen) queue (or_none (requires_of (find name index.entries))),
          pending-cons name seen index.entries e,
        ))
  ]

  -- With fuel for the work that is left the search ends.
  search-total :
      (fuel : ℕ) (s : Search)
      → work s ≤ fuel
      → (c : List PackageId) × (search index format fuel s ≡ some c)
  unfolding search
  search-total zero s h = elim (List-cases s.queue) [
    | inl e ↦ (s.collected, rw e)
    | inr (n, q, e) ↦ absurd (omega (arith, ap length e))
  ]
  search-total (suc fuel) s h = elim (List-cases s.queue) [
    | inl e ↦ (s.collected, rw e)
    | inr (n, q, e) ↦
        let rest =
          search-total fuel (visit index format s.seen n q s.collected)
            (omega (arith, work-visit s.seen n q s.collected, ap length e)) in
        (rest.0, rw e (rest.1))
  ]

-- The search for the packages of a root always ends with a result.
pub phase1_total :
    (index : SonameIndex) (root : PackageId)
    → (c : List PackageId) × (phase1_collect_packages index root ≡ some c)
unfolding phase1_collect_packages
phase1_total index root =
    search-total index root.format (suc (total_requires index.entries)) (start root.name)
      (omega (arith, pending-nil index.entries))
