-- ===== src/Engine/Covers.antt =====
-- What phase A of execute_smart of src/package/transaction.rs leaves to be removed.
use samad_package_manager.Common.Members.{mem-append}
use samad_package_manager.Common.{
  ◌≡◌, refl, ap, inl, inr, Bool, true, false, not, ◌&&◌, ◌||◌, Option, some, List, [], ◌∷◌, ◌++◌,
  map, Str, str_eq, mem, eq_of_str_eq, arith, Bool-cases, Option-cases, keep,
}
use samad_package_manager.Package.{PackageId, matching_source}
use samad_package_manager.Package.Repo.{RepoConfig, Repos}
use samad_package_manager.Db.{Db}
use samad_package_manager.Db.Packages.{is_installed}
use samad_package_manager.Db.Conflict.{Conflicts, lists, has_row, detect-overlaps}
use samad_package_manager.Daemon.Deploy.{FetchedPackage}
use samad_package_manager.Daemon.Replace.{add_obsoletes, new_files, is_created}
use samad_package_manager.Engine.{conflicts_of, TransactionPlan}
use samad_package_manager.Engine.Collect.{
  Fetched, rows_of, fetch_single, extend_entry, Removal, add_conflicts, settle_package,
  settle_fetched, fetch_all,
}

add_obsoletes-kept :
    (db : Db) (pkg : Str) (os removed : List Str)
    → mem pkg removed ≡ true
    → mem pkg (add_obsoletes db removed os) ≡ true
unfolding add_obsoletes
add_obsoletes-kept db pkg [] removed h = h
add_obsoletes-kept db pkg (o ∷ os) removed h = ground (
  arith,
  h,
  add_obsoletes-kept db pkg os removed,
  add_obsoletes-kept db pkg os (removed ++ o ∷ []),
  mem-append pkg removed (o ∷ []),
)

module _ (pkg file : Str) where
  add_conflicts-kept :
      (removed : List Str) (all m : Conflicts)
      → mem pkg removed ≡ true
      → mem pkg ((add_conflicts removed all m).0) ≡ true
  unfolding add_conflicts
  add_conflicts-kept removed all [] h = h
  add_conflicts-kept removed all ((p, files) ∷ rest) h = elim (Bool-cases (mem p removed)) [
    | inl q ↦ rw q (add_conflicts-kept removed all rest h)
    | inr q ↦ rw q (
        add_conflicts-kept (removed ++ p ∷ []) (extend_entry p files all) rest
          (ground (arith, h, mem-append pkg removed (p ∷ []))))
  ]

  -- Every package in conflict is to be removed.
  add_conflicts-removes :
      (removed : List Str) (all m : Conflicts)
      → lists m pkg file ≡ true
      → mem pkg ((add_conflicts removed all m).0) ≡ true
  unfolding add_conflicts lists mem
  add_conflicts-removes removed all [] h = cc
  add_conflicts-removes removed all ((p, files) ∷ rest) h = elim (Bool-cases (mem p removed)) [
    | inl q ↦ rw q (elim (Bool-cases (lists rest pkg file)) [
      | inl l ↦ add_conflicts-removes removed all rest l
      | inr l ↦ add_conflicts-kept removed all rest (ground (arith, q, eq_of_str_eq p pkg))
    ])
    | inr q ↦ rw q (elim (Bool-cases (lists rest pkg file)) [
      | inl l ↦ add_conflicts-removes (removed ++ p ∷ []) (extend_entry p files all) rest l
      | inr l ↦
          add_conflicts-kept (removed ++ p ∷ []) (extend_entry p files all) rest
            (ground (arith, mem-append pkg removed (p ∷ []), eq_of_str_eq p pkg))
    ])
  ]

  settle_package-kept :
      (replace : Bool) (removed : List Str) (all m : Conflicts) (r : Removal)
      → settle_package replace removed all m ≡ some r
      → mem pkg removed ≡ true
      → mem pkg (r.0) ≡ true
  unfolding settle_package
  settle_package-kept replace removed all [] r e h = ground (arith, e, h)
  settle_package-kept true removed all (m ∷ ms) r e h =
      ground (arith, e, add_conflicts-kept removed all (m ∷ ms) h)
  settle_package-kept false removed all (m ∷ ms) r e h = cc

  settle_package-removes :
      (replace : Bool) (removed : List Str) (all m : Conflicts) (r : Removal)
      → settle_package replace removed all m ≡ some r
      → lists m pkg file ≡ true
      → mem pkg (r.0) ≡ true
  unfolding settle_package lists
  settle_package-removes replace removed all [] r e h = cc
  settle_package-removes true removed all (m ∷ ms) r e h =
      ground (arith, e, add_conflicts-removes removed all (m ∷ ms) h)
  settle_package-removes false removed all (m ∷ ms) r e h = cc

  conflicts_of-lists :
      (db : Db) (files exclude : List Str)
      → mem file files ≡ true
      → has_row db.files pkg file ≡ true
      → mem pkg exclude ≡ false
      → lists (conflicts_of db files exclude) pkg file ≡ true
  unfolding mem
  conflicts_of-lists db [] exclude h k n = cc
  conflicts_of-lists db (f ∷ fs) exclude h k n =
      ground (arith, detect-overlaps db (f ∷ fs) exclude pkg file)

new_files-append :
    (xs ys : List FetchedPackage) (file : Str)
    → mem file (new_files (xs ++ ys)) ≡ (mem file (new_files xs) || mem file (new_files ys))
unfolding new_files mem
new_files-append [] ys file = refl
new_files-append (x ∷ xs) ys file = ground (
  arith,
  new_files-append xs ys file,
  mem-append file (map (λ r. r.filepath) (keep (λ r. is_created r.action) x.files)) (new_files xs),
  mem-append file (map (λ r. r.filepath) (keep (λ r. is_created r.action) x.files))
      (new_files (xs ++ ys)),
)

-- Every package that has a record of a file that one of the fetched packages creates is to be
-- removed.
pub record Covers (db : Db) (fetched : List Fetched) (removed : List Str) : Type 0 where
  pub owner_removed :
      (pkg file : Str)
      → mem file (new_files (rows_of fetched)) ≡ true
      → has_row db.files pkg file ≡ true
      → mem pkg removed ≡ true

rows_of-append :
    (xs : List Fetched) (f : Fetched) → rows_of (xs ++ f ∷ []) ≡ rows_of xs ++ f.rows ∷ []
rows_of-append [] f = refl
rows_of-append (x ∷ xs) f = ap (λ l. x.rows ∷ l) (rows_of-append xs f)

module _ (db : Db) (fetch : Str → Str × RepoConfig → Option Fetched) (repos : Repos) (main : Str)
    (replace : Bool) where
  settle_fetched-Covers :
      (r r2 : Removal) (fetched : List Fetched) (f : Fetched)
      → settle_fetched db fetch repos main replace r f ≡ some r2
      → Covers db fetched (r.0)
      → Covers db (fetched ++ f ∷ []) (r2.0)
  unfolding settle_fetched
  settle_fetched-Covers (removed, all) r2 fetched f e c = record {
    owner_removed = λ pkg file h k.
        let removed2 : List Str = add_obsoletes db removed f.rows.obsoletes in
        let new : List Str = new_files (f.rows ∷ []) in
        let kept =
          settle_package-kept pkg file replace removed2 all (conflicts_of db new removed2) r2 e in
        let split =
          rw (rows_of-append fetched f, new_files-append (rows_of fetched) (f.rows ∷ []) file) at
            h in
        elim (Bool-cases (mem pkg removed2)) [
          | inl q ↦ kept q
          | inr q ↦ elim (Bool-cases (mem file new)) [
            | inl m ↦
                settle_package-removes pkg file replace removed2 all (conflicts_of db new removed2)
                  r2 e (conflicts_of-lists pkg file db new removed2 m k q)
            | inr m ↦ kept (
                add_obsoletes-kept db pkg f.rows.obsoletes removed
                  (c.owner_removed pkg file (ground (arith, split, m)) k))
          ]
        ];
  }

  -- The packages that phase A leaves to be removed are all the owners of files that the fetched
  -- packages create, whatever was to be removed before.
  fetch_all-Covers :
      (pids : List PackageId) (r r2 : Removal) (fetched fetched2 : List Fetched)
      → fetch_all db fetch repos main replace pids r fetched ≡ some (r2, fetched2)
      → Covers db fetched (r.0)
      → Covers db fetched2 (r2.0)
  unfolding fetch_all
  fetch_all-Covers [] r r2 fetched fetched2 e c = ground (arith, e, c)
  fetch_all-Covers (pid ∷ pids) r r2 fetched fetched2 e c =
      elim (Bool-cases (is_installed db pid.name && not (str_eq pid.name main))) [
        | inl skip ↦ fetch_all-Covers pids r r2 fetched fetched2 (rw skip at e) c
        | inr take ↦
            elim (Option-cases (fetch_single fetch pid.name (matching_source pid.format) repos)) [
              | inl n ↦ absurd (ground (arith, rw (take, n) at e))
              | inr (f, n) ↦ elim (Option-cases (settle_fetched db fetch repos main replace r f)) [
                | inl s ↦ absurd (ground (arith, rw (take, n, s) at e))
                | inr (r3, s) ↦
                    fetch_all-Covers pids r3 r2 (fetched ++ f ∷ []) fetched2 (rw (take, n, s) at e)
                      (settle_fetched-Covers r r3 fetched f s c)
              ]
            ]
      ]

  none-Covers : (removed : List Str) → Covers db [] removed
  unfolding new_files mem
  none-Covers removed = record { owner_removed = λ pkg file h k. cc }

-- Where phase A passes, every package that has a record of a file that one of the fetched packages
-- creates is among the packages to be removed.
pub fetch_all-covers :
    (db : Db) (fetch : Str → Str × RepoConfig → Option Fetched) (repos : Repos)
    (plan : TransactionPlan) (replace : Bool) (removed : List Str) (conflicts : Conflicts)
    (fetched : List Fetched) (pkg file : Str)
    → fetch_all db fetch repos plan.name replace plan.all_packages (plan.to_remove, []) []
      ≡ some ((removed, conflicts), fetched)
    → mem file (new_files (rows_of fetched)) ≡ true
    → has_row db.files pkg file ≡ true
    → mem pkg removed ≡ true
fetch_all-covers db fetch repos plan replace removed conflicts fetched pkg file e =
    (fetch_all-Covers db fetch repos plan.name replace plan.all_packages (plan.to_remove, [])
        (removed, conflicts) [] fetched e
        (none-Covers db fetch repos plan.name replace plan.to_remove)).owner_removed
      pkg file
