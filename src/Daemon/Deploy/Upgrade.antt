-- ===== src/Daemon/Deploy/Upgrade.antt =====
-- The database part of upgrade_package of src/package/transaction.rs, between its BEGIN and its
-- COMMIT, on the connection that the caller keeps open.
use samad_package_manager.Package.{PackageFormat, new}
use samad_package_manager.Common.{
  ℕ, ◌≡◌, refl, ap, sym, ◌∙◌, ◌⊎◌, inl, inr, false, none, some, List, [], ◌∷◌, Str, any, Bool-cases,
}
use samad_package_manager.Db.{Db, Transaction, install, completed, FileRecord, InstalledPackage}
use samad_package_manager.Db.Packages.{add_installed_package, delete_files, delete_package}
use samad_package_manager.Db.Files.{insert_file}
use samad_package_manager.Db.Transactions.{record_transaction}
use samad_package_manager.Daemon.Deploy.{
  Conn, Fault, passes, Outcome, ok, err, Sql, Statement, next_fault, exec, resume, and_then, update,
  try_update, remove_by_id, record_files, begin, commit, connect, close,
}
use samad_package_manager.Daemon.Deploy.Runs.{bind, RunsOn, Runs, Runs-exec, Runs-and_then}
use samad_package_manager.Daemon.Deploy.Atomic.{removes, records, record_files-Runs}
use samad_package_manager.Daemon.Deploy.Stays.{
  undoing, Stays, failed-saved, Keeps, exec-Keeps, pure-Keeps, and_then-Keeps,
}

record_files-Keeps : (tx_id : ℕ) (fs : List FileRecord) → Keeps (record_files tx_id fs)
unfolding record_files
record_files-Keeps tx_id [] = pure-Keeps tt
record_files-Keeps tx_id (f ∷ fs) =
    and_then-Keeps
      (exec-Keeps (try_update (λ d. insert_file d (record f { transaction_id = tx_id }))))
      (λ _. record_files-Keeps tx_id fs)

unfoldable pub upgrade_transaction : Str → Str → Str → Transaction
upgrade_transaction name user now = record {
  id = none;
  action = install;
  timestamp = now;
  user = user;
  status = completed;
  packages = name ∷ [];
  snapshot_id = none;
}

module _ (name user now : Str) (old_format : PackageFormat) (files : List FileRecord)
    (pkg : InstalledPackage) where
  unfoldable pub upgrade_body : Sql Unit
  unfolding remove_by_id record_files upgrade_transaction exec and_then
  upgrade_body = and_then (remove_by_id (new name old_format)) (λ _.
      and_then (exec (λ d. some (record_transaction d (upgrade_transaction name user now))))
        (λ tx_id.
          and_then (record_files tx_id files)
            (λ _. exec (update (λ d. add_installed_package d pkg)))))

  -- Every statement is followed by `?`: an error returns without a ROLLBACK.
  unfoldable pub upgrade_commit : Sql Unit
  unfolding upgrade_body begin commit and_then
  upgrade_commit = and_then begin (λ _. and_then upgrade_body (λ _. commit))

  abbrev pub upgrades : Statement Unit
  upgrades = bind (removes (new name old_format)) (λ _.
      bind (λ d. some (record_transaction d (upgrade_transaction name user now)))
        (λ tx_id. bind (records tx_id files) (λ _. update (λ d. add_installed_package d pkg))))

  upgrade_body-Runs : Runs upgrade_body upgrades
  unfolding upgrade_body remove_by_id
  upgrade_body-Runs =
      Runs-and_then
        (Runs-and_then (Runs-exec (update (λ d. delete_files d name)))
          (λ _. Runs-exec (update (λ d. delete_package d (new name old_format)))))
        (λ _.
          Runs-and_then
            (Runs-exec (λ d. some (record_transaction d (upgrade_transaction name user now))))
            (λ tx_id.
              Runs-and_then (record_files-Runs tx_id files)
                (λ _. Runs-exec (update (λ d. add_installed_package d pkg)))))

  upgrade_body-Keeps : Keeps upgrade_body
  unfolding upgrade_body remove_by_id
  upgrade_body-Keeps =
      and_then-Keeps
        (and_then-Keeps (exec-Keeps (update (λ d. delete_files d name)))
          (λ _. exec-Keeps (update (λ d. delete_package d (new name old_format)))))
        (λ _.
          and_then-Keeps
            (exec-Keeps (λ d. some (record_transaction d (upgrade_transaction name user now))))
            (λ tx_id.
              and_then-Keeps (record_files-Keeps tx_id files)
                (λ _. exec-Keeps (update (λ d. add_installed_package d pkg)))))

  -- The whole of an upgrade from `start`, or an error inside the transaction that began there.
  abbrev Ends : Db → Outcome (Unit {0}) × Conn → Type 0
  Ends start r =
      ((r.0 ≡ ok tt) × (r.1.saved ≡ none) × (upgrades start ≡ some (tt, r.1.db)))
      ⊎ ((r.0 ≡ err) × (r.1.saved ≡ some start))

  commit-Ends :
      (start : Db) (c : Conn) (r : Outcome Unit × Conn)
      → c.saved ≡ some start
      → c.db ≡ start
      → RunsOn upgrades c r
      → Stays c r
      → Ends start (resume (λ _. commit) r)
  unfolding commit
  commit-Ends start c (err, d) e q v w = inr (refl, w.same ∙ e)
  commit-Ends start c (ok a, d) e q v w =
      let opened = w.same ∙ e in
      elim (Bool-cases (next_fault d.faults)) [
        | inl f ↦ inr (rw f refl, rw f (failed-saved d w.calm ∙ opened))
        | inr f ↦ inl (
          rw (f, opened) refl,
          rw (f, opened) refl,
          rw (f, opened) (ap upgrades (sym q) ∙ v.sound a refl),
        )
      ]

  -- Once its BEGIN has passed, and where no fault makes SQLite roll back by itself, an upgrade is
  -- written as a whole; or it fails, what is committed is as it was, and the connection is left
  -- inside the transaction, where the next BEGIN fails.
  pub upgrade_commit-ends :
      (db : Db) (faults : List Fault)
      → any undoing faults ≡ false
      → let r = upgrade_commit (connect db (passes ∷ faults)) in
        ((r.0 ≡ ok tt) × (r.1.saved ≡ none) × (upgrades db ≡ some (tt, r.1.db)))
        ⊎ ((r.0 ≡ err) × (close (r.1) ≡ db) × ((begin (record (r.1) { faults = [] })).0 ≡ err))
  unfolding upgrade_commit begin and_then
  upgrade_commit-ends db faults h =
      let c : Conn = record { db = db; saved = some db; faults = faults } in
      let ends =
        commit-Ends db c (upgrade_body c) refl refl (upgrade_body-Runs c)
          (upgrade_body-Keeps c h) in
      elim ends [
        | inl done ↦ inl done
        | inr (failed, opened) ↦ inr (failed, rw opened refl, rw opened refl)
      ]
