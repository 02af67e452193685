-- ===== src/Engine/Commit.antt =====
-- Phase C of src/package/transaction.rs: atomic_commit and the database part of install_local, on
-- the connection that the caller keeps open.
use samad_package_manager.Common.{List, [], ◌∷◌, none, some, map, Str}
use samad_package_manager.Db.{Db, Transaction, install, completed}
use samad_package_manager.Db.Packages.{add_installed_package}
use samad_package_manager.Db.Transactions.{record_transaction}
use samad_package_manager.Db.Conflict.{Conflicts, batch_entries}
use samad_package_manager.Daemon.Deploy.{
  Sql, Statement, Fault, exec, and_then, update, FetchedPackage, remove_all, record_files,
  install_all, log_all, begin, finish, connect,
}
use samad_package_manager.Daemon.Deploy.Runs.{bind, Runs, Runs-exec, Runs-and_then}
use samad_package_manager.Daemon.Deploy.Atomic.{
  Whole, transact-Whole, removes_all, records, installs, logs, remove_all-Runs, record_files-Runs,
  install_all-Runs, log_all-Runs,
}
use samad_package_manager.Engine.{TransactionPlan}

-- The row of a transaction of these packages.
unfoldable pub batch_transaction : List Str → Str → Str → Transaction
batch_transaction names user now = record {
  id = none;
  action = install;
  timestamp = now;
  user = user;
  status = completed;
  packages = names;
  snapshot_id = none;
}

module _ (plan : TransactionPlan) (user now : Str) (fetched : List FetchedPackage)
    (removed : List Str) (conflicts : Conflicts) where
  unfoldable pub commit_inner : Sql Unit
  unfolding remove_all install_all log_all batch_entries batch_transaction exec and_then
  commit_inner =
      let names : List Str = map (λ p. p.name) plan.all_packages in
      and_then (exec (λ d. some (record_transaction d (batch_transaction names user now))))
        (λ tx_id. and_then (remove_all removed) (λ _.
          and_then (install_all tx_id fetched)
            (λ _. log_all (batch_entries tx_id now plan.name conflicts))))

  unfoldable pub atomic_commit : Sql Unit
  unfolding commit_inner begin finish and_then
  atomic_commit = and_then begin (λ _ c. finish (commit_inner c))

  -- What the statements make of the database together.
  abbrev pub commits : Statement Unit
  commits =
      let names : List Str = map (λ p. p.name) plan.all_packages in
      bind (λ d. some (record_transaction d (batch_transaction names user now)))
        (λ tx_id. bind (removes_all removed) (λ _.
          bind (installs tx_id fetched) (λ _. logs (batch_entries tx_id now plan.name conflicts))))

  commit_inner-Runs : Runs commit_inner commits
  unfolding commit_inner
  commit_inner-Runs =
      let names : List Str = map (λ p. p.name) plan.all_packages in
      Runs-and_then
        (Runs-exec (λ d. some (record_transaction d (batch_transaction names user now))))
        (λ tx_id. Runs-and_then (remove_all-Runs removed) (λ _.
          Runs-and_then (install_all-Runs tx_id fetched)
            (λ _. log_all-Runs (batch_entries tx_id now plan.name conflicts))))

  -- Whichever statements fail, the commit of a batch is an error after which the database is as it
  -- was, or it does all of its parts.
  pub atomic_commit-Whole :
      (db : Db) (faults : List Fault) → Whole db commits (atomic_commit (connect db faults))
  unfolding atomic_commit
  atomic_commit-Whole db faults = transact-Whole commit_inner-Runs db faults

module _ (user now : Str) (fetched : FetchedPackage) (removed : List Str) where
  -- The closure of install_local: the removals come before the transaction.
  unfoldable pub local_inner : Sql Unit
  unfolding remove_all record_files batch_transaction exec and_then
  local_inner = and_then (remove_all removed) (λ _.
      and_then
        (exec
          (λ d. some (record_transaction d (batch_transaction (fetched.pkg.name ∷ []) user now))))
        (λ tx_id.
          and_then (record_files tx_id fetched.files)
            (λ _. exec (update (λ d. add_installed_package d fetched.pkg)))))

  unfoldable pub local_commit : Sql Unit
  unfolding local_inner begin finish and_then
  local_commit = and_then begin (λ _ c. finish (local_inner c))

  abbrev pub commits_local : Statement Unit
  commits_local = bind (removes_all removed) (λ _.
      bind (λ d. some (record_transaction d (batch_transaction (fetched.pkg.name ∷ []) user now)))
        (λ tx_id.
          bind (records tx_id fetched.files)
            (λ _. update (λ d. add_installed_package d fetched.pkg))))

  local_inner-Runs : Runs local_inner commits_local
  unfolding local_inner
  local_inner-Runs = Runs-and_then (remove_all-Runs removed) (λ _.
      Runs-and_then
        (Runs-exec
          (λ d. some (record_transaction d (batch_transaction (fetched.pkg.name ∷ []) user now))))
        (λ tx_id.
          Runs-and_then (record_files-Runs tx_id fetched.files)
            (λ _. Runs-exec (update (λ d. add_installed_package d fetched.pkg)))))

  -- The same of a local installation.
  pub local_commit-Whole :
      (db : Db) (faults : List Fault) → Whole db commits_local (local_commit (connect db faults))
  unfolding local_commit
  local_commit-Whole db faults = transact-Whole local_inner-Runs db faults
