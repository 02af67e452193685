-- ===== src/Fsck/Fixed.antt =====
-- What the repair of src/fsck.rs changes.
use samad_package_manager.Common.{
  ◌≡◌, refl, sym, ap, subst, ◌∙◌, inl, inr, Bool, true, false, not, ◌||◌, List, [], ◌∷◌, map, Str,
  keep, mem, str_eq, All, arith, Bool-cases, Option-cases,
}
use samad_package_manager.Common.Sort.{insert_by, sort_by}
use samad_package_manager.Db.{Db, InstalledPackage, FileRecord}
use samad_package_manager.Db.Packages.{
  list_installed_packages, remove_installed_package, distinct, name_leb,
}
use samad_package_manager.Db.Files.{get_all_files}
use samad_package_manager.Daemon.Deploy.{
  Conn, close, restored, failed, next_undoes, Sql, Outcome, ok, err, exec, resume, and_then, pure,
  next_fault, later_faults, update,
}
use samad_package_manager.Fsck.{
  FsckReport, Answers, orphans, dangling, check_database, remove_orphans, check_orphans,
  check_tables, check_integrity, read, with_dangling, with_missing, read_tables,
}

module _ (n : Str) where
  mem-insert :
      (le : InstalledPackage → InstalledPackage → Bool) (p : InstalledPackage)
      (ps : List InstalledPackage)
      → mem n (map (λ q. q.name) (insert_by le p ps))
        ≡ (str_eq p.name n || mem n (map (λ q. q.name) ps))
  unfolding mem insert_by
  mem-insert le p [] = refl
  mem-insert le p (q ∷ ps) = ground (arith, mem-insert le p ps)

  mem-sort :
      (le : InstalledPackage → InstalledPackage → Bool) (ps : List InstalledPackage)
      → mem n (map (λ q. q.name) (sort_by le ps)) ≡ mem n (map (λ q. q.name) ps)
  unfolding mem sort_by
  mem-sort le [] = refl
  mem-sort le (p ∷ ps) = ground (arith, mem-insert le p (sort_by le ps), mem-sort le ps)

  -- The removal of what is not there.
  keep-absent :
      (ps : List InstalledPackage)
      → mem n (map (λ q. q.name) ps) ≡ false
      → keep (λ p. not (str_eq p.name n)) ps ≡ ps
  unfolding mem
  keep-absent [] h = refl
  keep-absent (p ∷ ps) h = ground (arith, h, keep-absent ps)

  remove-absent :
      (d : Db)
      → mem n (map (λ q. q.name) d.installed_packages) ≡ false
      → remove_installed_package d n ≡ d
  unfolding remove_installed_package
  remove-absent d h = rw (keep-absent d.installed_packages h) refl

-- The names that are kept pass the test.
All-keep : (t : Str → Bool) (ns : List Str) → All (λ n. t n ≡ true) (keep t ns)
All-keep t [] = tt
All-keep t (n ∷ ns) = elim (Bool-cases (t n)) [
  | inl e ↦ rw e (e, All-keep t ns)
  | inr e ↦ rw e (All-keep t ns)
]

All-imp : {P Q : Str → Type 0} (h : (n : Str) → P n → Q n) (ns : List Str) → All P ns → All Q ns
All-imp h [] a = tt
All-imp h (n ∷ ns) a = (h n (a.0), All-imp h ns (a.1))

-- The tables are `d`, and a rollback would not change them.
abbrev Holds : Db → Conn → Type 0
Holds d c = (c.db ≡ d) × (restored c ≡ d)

Holds-db : (d e : Db) (c : Conn) → e ≡ d → Holds d c → Holds d (record c { db = e })
Holds-db d e c q h = elim (Option-cases c.saved) [
  | inl n ↦ (q, rw n q)
  | inr (x, n) ↦ (q, rw n (ground (arith, h.1, n)))
]

Holds-failed : (d : Db) (c : Conn) → Holds d c → Holds d (failed c)
unfolding failed
Holds-failed d c h = elim (Bool-cases (next_undoes c.faults)) [
  | inl e ↦ rw e (h.1, h.1)
  | inr e ↦ rw e h
]

-- The tables are `d` before and after.
module _ (d : Db) where
  abbrev Keeps : {A : Type 0} → Sql A → Type 0
  Keeps m = (c : Conn) → Holds d c → Holds d ((m c).1)

  module _ {A B : Type 0} where
    resume-Keeps :
        (k : A → Sql B) (r : Outcome A × Conn)
        → Holds d (r.1)
        → ((a : A) → Keeps (k a))
        → Holds d ((resume k r).1)
    resume-Keeps k (err, c) h w = h
    resume-Keeps k (ok a, c) h w = w a c h

    and_then-Keeps :
        (m : Sql A) (k : A → Sql B) → Keeps m → ((a : A) → Keeps (k a)) → Keeps (and_then m k)
    unfolding and_then
    and_then-Keeps m k v w c h = resume-Keeps k (m c) (v c h) w

    read-Keeps : (f : Db → A) (k : A → Sql B) → Keeps (k (f d)) → Keeps (and_then (read f) k)
    unfolding and_then exec read
    read-Keeps f k w c h = elim (Bool-cases (next_fault c.faults)) [
      | inl e ↦ rw e (Holds-failed d c h)
      | inr e ↦ rw e (
          subst (λ x. Holds d ((k (f x) (record c { faults = later_faults c.faults })).1))
            (sym (h.0)) (w (record c { faults = later_faults c.faults }) h))
    ]

  update-Keeps : (f : Db → Db) → f d ≡ d → Keeps (exec (update f))
  unfolding exec
  update-Keeps f e c h = elim (Bool-cases (next_fault c.faults)) [
    | inl g ↦ rw g (Holds-failed d c h)
    | inr g ↦
        rw g (Holds-db d (f c.db) (record c { faults = later_faults c.faults }) (ap f (h.0) ∙ e) h)
  ]

module _ (answers : Answers) (fix check_files : Bool) (d : Db) where
  check_database-Keeps : Keeps d (check_database answers fix check_files)
  unfolding check_database and_then pure
  check_database-Keeps c h = elim (Bool-cases answers.integrity) [
    | inl e ↦ rw e h
    | inr e ↦ elim (Bool-cases fix) [
      | inl g ↦
          rw (e, g)
            (resume-Keeps d _ (exec (update (λ x. x)) c) (update-Keeps d (λ x. x) refl c h)
              (λ a c2 h2. elim (Bool-cases answers.after_vacuum) [
                | inl k ↦ rw k h2
                | inr k ↦ rw k h2
              ]))
      | inr g ↦ rw (e, g) h
    ]
  ]

  remove_orphans-Keeps :
      (names : List Str)
      → All (λ n. mem n (map (λ q. q.name) d.installed_packages) ≡ false) names
      → Keeps d (remove_orphans answers fix check_files names)
  unfolding remove_orphans and_then pure
  remove_orphans-Keeps [] a = λ c h. h
  remove_orphans-Keeps (n ∷ names) a =
      and_then-Keeps d (exec (update (λ x. remove_installed_package x n)))
        (λ _. remove_orphans answers fix check_files names)
        (update-Keeps d (λ x. remove_installed_package x n) (remove-absent n d (a.0)))
        (λ _. remove_orphans-Keeps names (a.1))

  orphans-absent :
      (files : List FileRecord)
      → All
          (λ n. mem n (map (λ q. q.name) d.installed_packages) ≡ false)
          (orphans (list_installed_packages d) files)
  unfolding orphans list_installed_packages
  orphans-absent files =
      All-imp (λ n h. ground (arith, h, mem-sort n name_leb d.installed_packages))
        (orphans (list_installed_packages d) files)
        (All-keep (λ n. not (mem n (map (λ p. p.name) (list_installed_packages d))))
          (distinct (map (λ f. f.package_name) files)))

  check_orphans-Keeps :
      (files : List FileRecord) (report : FsckReport)
      → Keeps d
          (check_orphans answers fix check_files (orphans (list_installed_packages d) files) report)
  unfolding check_orphans pure
  check_orphans-Keeps files report = elim (Bool-cases fix) [
    | inl e ↦ rw e (
        and_then-Keeps d
          (remove_orphans answers fix check_files (orphans (list_installed_packages d) files)) _
          (remove_orphans-Keeps (orphans (list_installed_packages d) files) (orphans-absent files))
          (λ _ c h. h))
    | inr e ↦ rw e (λ c h. h)
  ]

  with_dangling-Keeps :
      (files : List FileRecord) (report : FsckReport)
      → Keeps d (with_dangling answers fix check_files files report)
  unfolding with_dangling pure
  with_dangling-Keeps files report = read-Keeps d dangling _ (λ c h. h)

  check_tables-Keeps :
      (files : List FileRecord) (report : FsckReport)
      → Keeps d (check_tables answers fix check_files report (list_installed_packages d) files)
  unfolding check_tables
  check_tables-Keeps files report =
      let counted : FsckReport =
        with_missing answers fix check_files (list_installed_packages d) files report in
      and_then-Keeps d
        (check_orphans answers fix check_files (orphans (list_installed_packages d) files) counted)
        (with_dangling answers fix check_files files) (check_orphans-Keeps files counted)
        (with_dangling-Keeps files)

  read_tables-Keeps : (report : FsckReport) → Keeps d (read_tables answers fix check_files report)
  unfolding read_tables
  read_tables-Keeps report =
      read-Keeps d list_installed_packages
        (λ pkgs. and_then (read get_all_files) (check_tables answers fix check_files report pkgs))
        (read-Keeps d get_all_files
          (check_tables answers fix check_files report (list_installed_packages d))
          (check_tables-Keeps (get_all_files d) report))

  integrity-Keeps : Keeps d (check_integrity answers fix check_files)
  unfolding check_integrity
  integrity-Keeps =
      and_then-Keeps d (check_database answers fix check_files)
        (read_tables answers fix check_files) check_database-Keeps read_tables-Keeps

-- On a connection without changes that are not committed, the check changes no table, whatever it
-- finds, whatever the connection answers, and also where it is asked to repair: the orphan groups
-- that it reports as removed are all still there.
pub check_integrity-unchanged :
    (answers : Answers) (fix check_files : Bool) (c : Conn)
    → close c ≡ c.db
    → (check_integrity answers fix check_files c).1.db ≡ c.db
check_integrity-unchanged answers fix check_files c h =
    (integrity-Keeps answers fix check_files c.db c (refl, h)).0
