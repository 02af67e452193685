-- ===== src/Daemon/Deploy/Atomic.antt =====
-- phase_atomic_deploy of src/daemon/transaction.rs takes effect as a whole or not at all.
use samad_package_manager.Package.{PackageId, new}
use samad_package_manager.Common.{
  ℕ, ◌≡◌, refl, subst, ◌⊎◌, ◌∙◌, inl, inr, Bool, true, false, Option, none, some, List, [], ◌∷◌,
  Str, Bool-cases, Option-cases, if◌then◌else◌,
}
use samad_package_manager.Db.{Db, FileRecord, InstalledPackage, ConflictLogEntry}
use samad_package_manager.Db.Packages.{
  get_installed_package, add_installed_package, delete_files, delete_package,
}
use samad_package_manager.Db.Files.{insert_file}
use samad_package_manager.Db.Transactions.{record_transaction}
use samad_package_manager.Db.Conflict.{Conflicts, record_conflict, batch_entries}
use samad_package_manager.Daemon.Deploy.Runs.{
  bind, failed-restored, RunsOn, Runs, Runs-exec, Runs-pure, Runs-and_then,
}
use samad_package_manager.Daemon.Deploy.{
  Conn, Fault, restored, failed, Outcome, ok, err, Sql, Statement, next_fault, later_faults, resume,
  and_then, pure, update, try_update, FetchedPackage, InstallPlan, install_transaction,
  remove_by_id, remove_if, remove_all, record_files, install_all, log_all, log_conflicts,
  deploy_body, begin, commit, rollback, finish, phase_atomic_deploy, connect, close,
}

-- The meanings of the parts of the deployment, as functions of the database alone.
abbrev pub removes : PackageId → Statement Unit
removes pid = bind (update (λ d. delete_files d pid.name)) (λ _. update (λ d. delete_package d pid))

abbrev pub removes_if : Str → Option InstalledPackage → Statement Unit
removes_if name none d = some (tt, d)
removes_if name (some pkg) d = removes (new name pkg.format) d

abbrev pub removes_all : List Str → Statement Unit
removes_all [] d = some (tt, d)
removes_all (name ∷ names) d =
    bind (λ e. some (get_installed_package e name, e))
      (λ found. bind (removes_if name found) (λ _. removes_all names)) d

abbrev pub records : ℕ → List FileRecord → Statement Unit
records tx_id [] d = some (tt, d)
records tx_id (f ∷ fs) d =
    bind (try_update (λ e. insert_file e (record f { transaction_id = tx_id })))
      (λ _. records tx_id fs) d

abbrev pub installs : ℕ → List FetchedPackage → Statement Unit
installs tx_id [] d = some (tt, d)
installs tx_id (f ∷ fs) d =
    bind (records tx_id f.files)
      (λ _. bind (update (λ e. add_installed_package e f.pkg)) (λ _. installs tx_id fs)) d

abbrev pub logs : List ConflictLogEntry → Statement Unit
logs [] d = some (tt, d)
logs (x ∷ xs) d = bind (update (λ e. record_conflict e x)) (λ _. logs xs) d

abbrev pub logs_conflicts : Str → ℕ → Conflicts → List PackageId → Statement Unit
logs_conflicts now tx_id [] packages d = some (tt, d)
logs_conflicts now tx_id (m ∷ ms) [] d = none
logs_conflicts now tx_id (m ∷ ms) (p ∷ ps) d = logs (batch_entries tx_id now p.name (m ∷ ms)) d

abbrev pub deploys : InstallPlan → Str → List FetchedPackage → List Str → Conflicts → Statement ℕ
deploys plan now fetched removed conflicts =
    bind (λ d. some (record_transaction d (install_transaction plan now)))
      (λ tx_id. bind (removes_all removed) (λ _.
        bind (installs tx_id fetched)
          (λ _. bind (logs_conflicts now tx_id conflicts plan.packages) (λ _ d. some (tx_id, d)))))

remove_if-Runs :
    (name : Str) (found : Option InstalledPackage)
    → Runs (remove_if name found) (removes_if name found)
unfolding remove_if remove_by_id
remove_if-Runs name none = Runs-pure tt
remove_if-Runs name (some pkg) =
    Runs-and_then (Runs-exec (update (λ d. delete_files d name)))
      (λ _. Runs-exec (update (λ d. delete_package d (new name pkg.format))))

pub remove_all-Runs : (names : List Str) → Runs (remove_all names) (removes_all names)
unfolding remove_all
remove_all-Runs [] = Runs-pure tt
remove_all-Runs (name ∷ names) =
    Runs-and_then (Runs-exec (λ d. some (get_installed_package d name, d)))
      (λ found. Runs-and_then (remove_if-Runs name found) (λ _. remove_all-Runs names))

pub record_files-Runs :
    (tx_id : ℕ) (fs : List FileRecord) → Runs (record_files tx_id fs) (records tx_id fs)
unfolding record_files
record_files-Runs tx_id [] = Runs-pure tt
record_files-Runs tx_id (f ∷ fs) =
    Runs-and_then
      (Runs-exec (try_update (λ d. insert_file d (record f { transaction_id = tx_id }))))
      (λ _. record_files-Runs tx_id fs)

pub install_all-Runs :
    (tx_id : ℕ) (fs : List FetchedPackage) → Runs (install_all tx_id fs) (installs tx_id fs)
unfolding install_all
install_all-Runs tx_id [] = Runs-pure tt
install_all-Runs tx_id (f ∷ fs) = Runs-and_then (record_files-Runs tx_id f.files) (λ _.
    Runs-and_then (Runs-exec (update (λ d. add_installed_package d f.pkg)))
      (λ _. install_all-Runs tx_id fs))

pub log_all-Runs : (es : List ConflictLogEntry) → Runs (log_all es) (logs es)
unfolding log_all
log_all-Runs [] = Runs-pure tt
log_all-Runs (e ∷ es) =
    Runs-and_then (Runs-exec (update (λ d. record_conflict d e))) (λ _. log_all-Runs es)

fail-Runs : (c : Conn) → RunsOn {A = Unit} (λ d. none) c (err, c)
fail-Runs c = record {
  saved_kept = λ a h. cc;
  restores = λ d h. rw h refl;
  sound = λ a h. cc;
  healthy = λ a d f h. cc;
}

log_conflicts-Runs :
    (now : Str) (tx_id : ℕ) (m : Conflicts) (packages : List PackageId)
    → Runs (log_conflicts now tx_id m packages) (logs_conflicts now tx_id m packages)
unfolding log_conflicts
log_conflicts-Runs now tx_id [] packages = Runs-pure tt
log_conflicts-Runs now tx_id (m ∷ ms) [] = fail-Runs
log_conflicts-Runs now tx_id (m ∷ ms) (p ∷ ps) =
    log_all-Runs (batch_entries tx_id now p.name (m ∷ ms))

pub deploy_body-Runs :
    (plan : InstallPlan) (now : Str) (fetched : List FetchedPackage) (removed : List Str)
    (conflicts : Conflicts)
    → Runs
        (deploy_body plan now fetched removed conflicts)
        (deploys plan now fetched removed conflicts)
unfolding deploy_body
deploy_body-Runs plan now fetched removed conflicts =
    Runs-and_then (Runs-exec (λ d. some (record_transaction d (install_transaction plan now))))
      (λ tx_id. Runs-and_then (remove_all-Runs removed) (λ _.
        Runs-and_then (install_all-Runs tx_id fetched) (λ _.
          Runs-and_then (log_conflicts-Runs now tx_id conflicts plan.packages)
            (λ _. Runs-pure tx_id))))

-- An error that leaves the database, or the result of the whole.
abbrev pub Whole : {A : Type 0} → Db → Statement A → Outcome A × Conn → Type 0
Whole {A} start s r =
    ((r.0 ≡ err) × (close (r.1) ≡ start))
    ⊎ ((a : A) × (r.0 ≡ ok a) × (s start ≡ some (a, close (r.1))))

restored-outside : (c : Conn) → c.saved ≡ none → c.db ≡ restored c
restored-outside c n = rw n refl

restored-inside : (c : Conn) (d : Db) → c.saved ≡ some d → d ≡ restored c
restored-inside c d n = rw n refl

module _ {A : Type 0} where
  -- The end of a transaction on a connection `c` that began it at `start`.
  finish-close :
      (start : Db) (s : Statement A) (c : Conn) (r : Outcome A × Conn)
      → c.saved ≡ some start
      → c.db ≡ start
      → RunsOn s c r
      → Whole start s (finish r)
  unfolding finish commit rollback and_then pure
  finish-close start s c (err, d) e q v = inl (elim (Bool-cases (next_fault d.faults)) [
    | inl f ↦ (rw f refl, rw f (failed-restored d ∙ v.restores start e))
    | inr f ↦ elim (Option-cases d.saved) [
      | inl n ↦ (rw (f, n) refl, rw (f, n) (restored-outside d n ∙ v.restores start e))
      | inr (x, n) ↦ (rw (f, n) refl, rw (f, n) (restored-inside d x n ∙ v.restores start e))
    ]
  ])
  finish-close start s c (ok a, d) e q v = elim (Bool-cases (next_fault d.faults)) [
    | inl f ↦ inl (rw f refl, rw f (failed-restored d ∙ v.restores start e))
    | inr f ↦
        let opened = v.saved_kept a refl ∙ e in
        inr (
          a,
          rw (f, opened) refl,
          rw (f, opened) (subst (λ x. s x ≡ some (a, d.db)) q (v.sound a refl)),
        )
  ]

  begun :
      (b : Bool) (start : Db) (s : Statement A) (e c : Conn) (k : Unit → Sql A)
      → close e ≡ start
      → Whole start s (k tt c)
      → Whole start s (resume k (if b then (err, e) else (ok tt, c)))
  begun true start s e c k h w = inl (refl, h)
  begun false start s e c k h w = w

  -- A program between BEGIN and `finish` takes effect as a whole or not at all.
  pub transact-Whole :
      {m : Sql A} {s : Statement A}
      → Runs m s
      → (db : Db) (faults : List Fault)
      → Whole db s (and_then begin (λ _ c. finish (m c)) (connect db faults))
  unfolding begin and_then
  transact-Whole {m} {s} v db faults =
      let c : Conn = record { db = db; saved = some db; faults = later_faults faults } in
      begun (next_fault faults) db s (failed (connect db faults)) c _
        (failed-restored (connect db faults)) (finish-close db s c (m c) refl refl (v c))

-- However the statements fail, the deployment returns an error and leaves the database as it was,
-- or it returns the id of its transaction and the database is what all of its steps together make
-- of it: the transaction is recorded, the packages to be replaced are removed, the fetched ones are
-- added with their files and the conflicts are logged.
pub deploy-atomic :
    (db : Db) (faults : List Fault) (plan : InstallPlan) (now : Str) (fetched : List FetchedPackage)
    (removed : List Str) (conflicts : Conflicts)
    → Whole db
        (deploys plan now fetched removed conflicts)
        (phase_atomic_deploy plan now fetched removed conflicts (connect db faults))
unfolding phase_atomic_deploy
deploy-atomic db faults plan now fetched removed conflicts =
    transact-Whole (deploy_body-Runs plan now fetched removed conflicts) db faults
