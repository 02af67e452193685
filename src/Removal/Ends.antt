-- ===== src/Removal/Ends.antt =====
-- How remove_package of src/package/install/remove.rs ends.
use samad_package_manager.Package.{PackageId, new}
use samad_package_manager.Common.{
  ◌≡◌, ◌⊎◌, refl, ap, subst, ◌∙◌, inl, inr, Bool, true, false, not, ◌&&◌, ◌||◌, some, List, [], ◌∷◌,
  ◌++◌, Str, codes, str_eq, str_eq_refl, eq_of_str_eq, mem, arith, Bool-cases, Option-cases,
  if◌then◌else◌,
}
use samad_package_manager.Db.{Db, FileRecord, InstallType, native, sandbox, InstalledPackage}
use samad_package_manager.Db.Packages.{
  delete_files, delete_package, get_installed_package, get_installed_package_by_id,
  is_installed_by_id, remove_installed_package_by_id, is_some,
}
use samad_package_manager.Db.Installed.{format_eq_refl, get_by_id-remove}
use samad_package_manager.Db.Files.{get_files_by_package}
use samad_package_manager.Db.Transactions.{record_transaction}
use samad_package_manager.Daemon.Deploy.{
  Conn, Fault, close, failed, next_undoes, Outcome, ok, err, exec, and_then, remove_by_id,
  next_fault, later_faults,
}
use samad_package_manager.Engine.Scripts.{Scripts, load_scripts}
use samad_package_manager.Engine.Stage.{Host}
use samad_package_manager.Engine.Cleanup.{run_script}
use samad_package_manager.Removal.{
  create_remove_transaction, is_conffile, Removals, Removed, remove_file, remove_files, sandbox_of,
  with_files, forget, Ended, after_forget, settle, conffiles, cleared, remove_package,
}
use samad_package_manager.Removal.Kept.{
  recorded, remove_file-mem, remove_files-mem, remove_found-links,
}

-- A list of errors that is not empty stays so.
abbrev no_errors : List Str → Bool
no_errors [] = true
no_errors (e ∷ es) = false

no_errors-append : (es : List Str) (e : Str) → no_errors (es ++ e ∷ []) ≡ false
no_errors-append [] e = refl
no_errors-append (x ∷ es) e = refl

module _ (calls : Removals) (p : Str) where
  -- A file that stands and cannot be removed is an error.
  remove_file-error :
      (q : Str) (r : Removed)
      → no_errors ((remove_file calls q r).1) ≡ true
      → (no_errors (r.1) ≡ true) × ((str_eq q p && not (calls.file_ok p) && mem p (r.0)) ≡ false)
  unfolding remove_file
  remove_file-error q (links, errors) h =
      ground (arith, h, no_errors-append errors q, eq_of_str_eq q p)

  remove_file-stays :
      (q : Str) (r : Removed)
      → calls.file_ok p ≡ false
      → mem p (r.0) ≡ true
      → mem p ((remove_file calls q r).0) ≡ true
  unfolding remove_file
  remove_file-stays q (links, errors) h k =
      ground (arith, h, k, remove_file-mem calls p q (links, errors))

  -- The loop without an error has no such file.
  remove_files-error :
      (confs : List Str) (fs : List FileRecord) (r : Removed)
      → no_errors ((remove_files calls confs fs r).1) ≡ true
      → calls.file_ok p ≡ false
      → mem p (r.0) ≡ true
      → is_conffile p confs ≡ false
      → (no_errors (r.1) ≡ true) × (recorded p fs ≡ false)
  unfolding remove_files
  remove_files-error confs [] r h k m n = (h, refl)
  remove_files-error confs (f ∷ fs) r h k m n = elim (Bool-cases (is_conffile f.filepath confs)) [
    | inl e ↦
        let later =
          remove_files-error confs fs r
            (subst
              (λ b.
                no_errors (
                  (remove_files calls confs fs (if b then r else remove_file calls f.filepath r)).1)
                ≡ true)
              e h)
            k m n in
        (later.0, rw (later.1) (differs confs f.filepath e n))
    | inr e ↦
        let later =
          remove_files-error confs fs (remove_file calls f.filepath r)
            (subst
              (λ b.
                no_errors (
                  (remove_files calls confs fs (if b then r else remove_file calls f.filepath r)).1)
                ≡ true)
              e h)
            k (remove_file-stays f.filepath r k m) n in
        let here = remove_file-error f.filepath r (later.0) in
        (here.0, rw (later.1) (ground (arith, here.1, k, m)))
  ]
    where
      differs :
          (confs : List Str) (q : Str)
          → is_conffile q confs ≡ true
          → is_conffile p confs ≡ false
          → (str_eq q p || false) ≡ false
      differs confs q e n = elim (Bool-cases (str_eq q p)) [
        | inl s ↦ absurd (ground (arith, ap (λ x. is_conffile x confs) (eq_of_str_eq q p s), e, n))
        | inr s ↦ rw s refl
      ]

-- Nothing that was to go is left.
abbrev pub Cleared : Removals → List Str → List FileRecord → Host → Type 0
Cleared calls confs fs h =
    (p : Str) → (recorded p fs && not (is_conffile p confs) && mem p h.fs.links) ≡ false

remove_files-cleared :
    (calls : Removals) (confs : List Str) (fs : List FileRecord) (links : List Str) (p : Str)
    → no_errors ((remove_files calls confs fs (links, [])).1) ≡ true
    → (recorded p fs
        && not (is_conffile p confs)
        && mem p ((remove_files calls confs fs (links, [])).0))
      ≡ false
remove_files-cleared calls confs fs links p h =
    rw (remove_files-mem calls p confs fs (links, []))
      (elim (Bool-cases (mem p links && not (calls.file_ok p) && not (is_conffile p confs))) [
        | inl b ↦ ground (
          arith,
          (remove_files-error calls p confs fs (links, []) h (ground (arith, b)) (ground (arith, b))
              (ground (arith, b))).1,
        )
        | inr b ↦
            cleared_cases (recorded p fs) (is_conffile p confs) (calls.file_ok p) (mem p links) b
      ])
  where
    cleared_cases :
        (a conf can there : Bool)
        → (there && not can && not conf) ≡ false
        → (a && not conf && (there && not (a && not conf && can))) ≡ false
    cleared_cases a conf can there h = ground (arith, h)

-- How the statements under the write lock end: the first fails, a later one fails, or none does.
abbrev Forgets : PackageId → Db → Outcome (Unit {0}) × Conn → Type 0
Forgets pid db r =
    ((r.0 ≡ err) × (r.1.db ≡ db))
    ⊎ ((r.0 ≡ err) × (is_installed_by_id r.1.db pid ≡ is_installed_by_id db pid))
    ⊎ ((r.0 ≡ ok tt) × (is_installed_by_id r.1.db pid ≡ false))

removed-not_installed :
    (pid : PackageId) (db : Db)
    → is_installed_by_id (delete_package (delete_files db pid.name) pid) pid ≡ false
unfolding is_installed_by_id remove_installed_package_by_id
removed-not_installed pid db =
    ap is_some (get_by_id-remove db pid pid)
    ∙ rw (str_eq_refl pid.name, format_eq_refl pid.format) refl

failed-db : (c : Conn) → close c ≡ c.db → (failed c).db ≡ c.db
unfolding failed
failed-db c h = elim (Bool-cases (next_undoes c.faults)) [ inl e ↦ rw e h | inr e ↦ rw e refl ]

-- What a fault finds at `d` and at the last commit alike it leaves so.
failed-same :
    (t : Db → Bool) (c : Conn) (d : Db) (fs : List Fault)
    → close c ≡ c.db
    → t d ≡ t c.db
    → t ((failed (record c { db = d; faults = fs })).db) ≡ t c.db
unfolding failed
failed-same t c d fs h k = elim (Bool-cases (next_undoes fs)) [
  | inl e ↦ elim (Option-cases c.saved) [
    | inl n ↦ rw (e, n) k
    | inr (x, n) ↦ rw (e, n) (ap t (rw n refl ∙ h))
  ]
  | inr e ↦ rw e k
]

forget-Forgets :
    (user now : Str) (pid : PackageId) (c : Conn)
    → close c ≡ c.db
    → Forgets pid c.db (forget user now pid c)
unfolding forget exec and_then remove_by_id delete_files is_installed_by_id
    get_installed_package_by_id record_transaction
forget-Forgets user now pid c h =
    let f1 = later_faults c.faults in
    let f2 = later_faults f1 in
    let d1 : Db = (record_transaction c.db (create_remove_transaction user now pid)).1 in
    let there : Db → Bool = λ d. is_installed_by_id d pid in
    elim (Bool-cases (next_fault c.faults)) [
      | inl e ↦ rw e (inl (refl, failed-db c h))
      | inr e ↦ elim (Bool-cases (next_fault f1)) [
        | inl g ↦ rw (e, g) (inr (inl (refl, failed-same there c d1 f1 h refl)))
        | inr g ↦ elim (Bool-cases (next_fault f2)) [
          | inl k ↦
              rw (e, g, k)
                (inr (inl (refl, failed-same there c (delete_files d1 pid.name) f2 h refl)))
          | inr k ↦ rw (e, g, k) (inr (inr (refl, removed-not_installed pid d1)))
        ]
      ]
    ]

-- An error that leaves the database; or nothing to go is left, and then the package is gone from the
-- database, or it is an error after which the package is installed as before.
abbrev pub Ends : Removals → List Str → PackageId → Db → Ended → Type 0
Ends calls confs pid db e =
    ((e.0 ≡ err) × (e.1.db ≡ db))
    ⊎ (Cleared calls confs (get_files_by_package db pid.name) (e.2)
        × (((e.0 ≡ ok tt) × (is_installed_by_id e.1.db pid ≡ false))
            ⊎ ((e.0 ≡ err) × (is_installed_by_id e.1.db pid ≡ is_installed_by_id db pid))))

-- The removal went through the files without an error.
abbrev Settles : PackageId → Db → List Str → Ended → Type 0
Settles pid db errors e =
    ((e.0 ≡ err) × (e.1.db ≡ db))
    ⊎ ((no_errors errors ≡ true)
        × (((e.0 ≡ ok tt) × (is_installed_by_id e.1.db pid ≡ false))
            ⊎ ((e.0 ≡ err) × (is_installed_by_id e.1.db pid ≡ is_installed_by_id db pid))))

after_forget-Settles :
    (pid : PackageId) (pkg : InstalledPackage) (scripts : Scripts) (h : Host) (db : Db)
    (r : Outcome Unit × Conn)
    → Forgets pid db r
    → Settles pid db [] (after_forget pkg scripts h r)
after_forget-Settles pid pkg scripts h db (err, c) (inl w) = inl w
after_forget-Settles pid pkg scripts h db (err, c) (inr (inl w)) = inr (refl, inr w)
after_forget-Settles pid pkg scripts h db (err, c) (inr (inr w)) = cc
after_forget-Settles pid pkg scripts h db (ok u, c) (inl w) = cc
after_forget-Settles pid pkg scripts h db (ok u, c) (inr (inl w)) = cc
after_forget-Settles pid pkg scripts h db (ok u, c) (inr (inr w)) = inr (refl, inl w)

settle-Settles :
    (user now : Str) (pid : PackageId) (pkg : InstalledPackage) (scripts : Scripts) (c : Conn)
    (r : Host × List Str)
    → close c ≡ c.db
    → Settles pid c.db (r.1) (settle user now pid pkg scripts c r)
settle-Settles user now pid pkg scripts c (h, x ∷ errors) k = inl (refl, refl)
settle-Settles user now pid pkg scripts c (h, []) k =
    after_forget-Settles pid pkg scripts h c.db (forget user now pid c)
      (forget-Forgets user now pid c k)

sandbox_of-errors :
    (calls : Removals) (t : InstallType) (name : Str) (h : Host) (errors : List Str)
    → no_errors ((sandbox_of calls t name h errors).1) ≡ true
    → no_errors errors ≡ true
sandbox_of-errors calls native name h errors k = k
sandbox_of-errors calls sandbox name h errors k = ground (arith, k, no_errors-append errors name)

module _ (calls : Removals) (conffiles_of : Str → List Str) (user now name : Str) where
  -- However the statements go on a connection without changes that are not committed, the removal
  -- of an installed package is an error that leaves the
  -- database as it is; or none of its recorded files stands any more but the configuration files,
  -- and then it succeeds and the package is no longer installed, or it is an error after which the
  -- package is installed as before.
  pub remove_package-Ends :
      (c : Conn) (h : Host) (pkg : InstalledPackage)
      → close c ≡ c.db
      → get_installed_package c.db name ≡ some pkg
      → Ends calls
          (conffiles calls conffiles_of user now name pkg)
          (new name pkg.format)
          c.db
          (remove_package calls conffiles_of user now name c h)
  unfolding remove_package
  remove_package-Ends c h pkg k e =
      let scripts : Scripts = load_scripts name h.scripts in
      let confs : List Str = conffiles calls conffiles_of user now name pkg in
      let fs : List FileRecord = get_files_by_package c.db name in
      let r : Removed = remove_files calls confs fs (h.fs.links, []) in
      rw e
        (elim (settle-Settles user now (new name pkg.format) pkg scripts c
          (cleared calls conffiles_of user now name pkg fs scripts h) k) [
            | inl failed ↦ inl failed
            | inr (n, ended) ↦ inr (
              λ p.
                  ap (λ links. recorded p fs && not (is_conffile p confs) && mem p links)
                    (remove_found-links calls conffiles_of user now name c h pkg)
                  ∙ remove_files-cleared calls confs fs h.fs.links p (
                      sandbox_of-errors calls pkg.install_type name
                        (with_files (run_script scripts.prerm (codes "remove") h) (r.0)) (r.1) n),
              ended,
            )
          ])
