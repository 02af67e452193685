-- ===== src/Daemon/Deploy.antt =====
-- The database phase of src/daemon/transaction.rs (phase_atomic_deploy) over a connection that may
-- fail. SQLite is modelled by the documented meaning of BEGIN, COMMIT and ROLLBACK, a transaction
-- that does not commit included; which statements fail is a list of answers.
pub mod Runs
pub mod Atomic
pub mod Stays
pub mod Upgrade
use samad_package_manager.Package.{PackageId, new}
use samad_package_manager.Db.{
  Db, Transaction, install, completed, FileRecord, InstalledPackage, ConflictLogEntry,
}
use samad_package_manager.Db.Packages.{
  get_installed_package, add_installed_package, delete_files, delete_package,
}
use samad_package_manager.Db.Files.{insert_file}
use samad_package_manager.Db.Transactions.{record_transaction}
use samad_package_manager.Db.Conflict.{Conflicts, record_conflict, batch_entries}
use samad_package_manager.Common.{
  ℕ, Bool, true, false, Option, none, some, List, [], ◌∷◌, map, Str, codes, if◌then◌else◌,
}

-- A statement passes, or it fails and leaves the transaction open, or it fails and SQLite rolls the
-- transaction back by itself, as it may where the disk is full, on an I/O error, without memory, on
-- a busy file and when it is interrupted.
pub data Fault : Type 0 where
  passes fails undoes : Fault

-- `saved` is the state at BEGIN while a transaction is open; `faults` says how the statements to
-- come end, and all of them pass once it is empty.
pub record Conn : Type 0 where
  pub db : Db
  pub saved : Option Db
  pub faults : List Fault

pub data Outcome {ℓ} (A : Type ℓ) : Type ℓ where
  ok : A → Outcome A
  err : Outcome A

abbrev pub Sql : Type 0 → Type 0
Sql A = Conn → Outcome A × Conn

abbrev pub Statement : Type 0 → Type 0
Statement A = Db → Option (A × Db)

abbrev pub next_fault : List Fault → Bool
next_fault [] = false
next_fault (passes ∷ fs) = false
next_fault (fails ∷ fs) = true
next_fault (undoes ∷ fs) = true

abbrev pub next_undoes : List Fault → Bool
next_undoes [] = false
next_undoes (passes ∷ fs) = false
next_undoes (fails ∷ fs) = false
next_undoes (undoes ∷ fs) = true

abbrev pub later_faults : List Fault → List Fault
later_faults [] = []
later_faults (f ∷ fs) = fs

-- What a rollback leaves; outside of a transaction it changes nothing.
abbrev pub restored : Conn → Db
restored c = elim c.saved [ none ↦ c.db | some d ↦ d ]

-- The connection after a fault.
unfoldable pub failed : Conn → Conn
failed c =
    let rest = record c { faults = later_faults c.faults } in
    if next_undoes c.faults then record rest { db = restored c; saved = none } else rest

abbrev pub done : {A : Type 0} → Conn → Option (A × Db) → Outcome A × Conn
done c none = (err, c)
done c (some (a, d)) = (ok a, record c { db = d })

-- A statement fails by itself, where it has no result, or by a fault; then it changes nothing.
unfoldable pub exec : {A : Type 0} → Statement A → Sql A
unfolding failed
exec s c =
    if next_fault c.faults
    then (err, failed c)
    else done (record c { faults = later_faults c.faults }) (s c.db)

-- The operator `?` on what went before.
abbrev pub resume : {A B : Type 0} → (A → Sql B) → Outcome A × Conn → Outcome B × Conn
resume k (ok a, c) = k a c
resume k (err, c) = (err, c)

unfoldable pub and_then : {A B : Type 0} → Sql A → (A → Sql B) → Sql B
and_then m k c = resume k (m c)

unfoldable pub pure : {A : Type 0} → A → Sql A
pure a c = (ok a, c)

-- Statements without a result.
abbrev pub update : (Db → Db) → Statement Unit
update f d = some (tt, f d)

abbrev pub try_update : (Db → Option Db) → Statement Unit
try_update f d = elim (f d) [ none ↦ none | some d2 ↦ some (tt, d2) ]

pub record FetchedPackage : Type 0 where
  pub pkg : InstalledPackage
  pub files : List FileRecord
  pub obsoletes : List Str

pub record InstallPlan : Type 0 where
  pub packages : List PackageId
  pub replace : Option Str

unfoldable pub package_names : InstallPlan → List Str
package_names plan = map (λ p. p.name) plan.packages

unfoldable pub install_transaction : InstallPlan → Str → Transaction
unfolding package_names
install_transaction plan now = record {
  id = none;
  action = install;
  timestamp = now;
  user = codes "spmd";
  status = completed;
  packages = package_names plan;
  snapshot_id = none;
}

-- remove_installed_package_by_id, as its two statements.
unfoldable pub remove_by_id : PackageId → Sql Unit
unfolding exec and_then
remove_by_id pid =
    and_then (exec (update (λ d. delete_files d pid.name)))
      (λ _. exec (update (λ d. delete_package d pid)))

unfoldable pub remove_if : Str → Option InstalledPackage → Sql Unit
unfolding remove_by_id pure
remove_if name none = pure tt
remove_if name (some pkg) = remove_by_id (new name pkg.format)

-- The loop over the packages to be removed.
unfoldable pub remove_all : List Str → Sql Unit
unfolding remove_if exec and_then pure
remove_all [] = pure tt
remove_all (name ∷ names) =
    and_then (exec (λ d. some (get_installed_package d name, d)))
      (λ found. and_then (remove_if name found) (λ _. remove_all names))

-- record_files on the rows with the id of the transaction.
unfoldable pub record_files : ℕ → List FileRecord → Sql Unit
unfolding exec and_then pure
record_files tx_id [] = pure tt
record_files tx_id (f ∷ fs) =
    and_then (exec (try_update (λ d. insert_file d (record f { transaction_id = tx_id }))))
      (λ _. record_files tx_id fs)

-- The loop over the fetched packages.
unfoldable pub install_all : ℕ → List FetchedPackage → Sql Unit
unfolding record_files exec and_then pure
install_all tx_id [] = pure tt
install_all tx_id (f ∷ fs) =
    and_then (record_files tx_id f.files) (λ _.
      and_then (exec (update (λ d. add_installed_package d f.pkg))) (λ _. install_all tx_id fs))

unfoldable pub log_all : List ConflictLogEntry → Sql Unit
unfolding exec and_then pure
log_all [] = pure tt
log_all (e ∷ es) = and_then (exec (update (λ d. record_conflict d e))) (λ _. log_all es)

-- plan.packages[0].name is read only where there are conflicts; the indexing panics on an empty
-- plan, which leaves the transaction like an error.
unfoldable pub log_conflicts : Str → ℕ → Conflicts → List PackageId → Sql Unit
unfolding log_all batch_entries pure
log_conflicts now tx_id [] packages = pure tt
log_conflicts now tx_id (m ∷ ms) [] = λ c. (err, c)
log_conflicts now tx_id (m ∷ ms) (p ∷ ps) = log_all (batch_entries tx_id now p.name (m ∷ ms))

-- The closure between BEGIN and COMMIT.
unfoldable pub deploy_body : InstallPlan → Str → List FetchedPackage → List Str → Conflicts → Sql ℕ
unfolding remove_all install_all log_conflicts install_transaction exec and_then pure
deploy_body plan now fetched removed conflicts =
    and_then (exec (λ d. some (record_transaction d (install_transaction plan now)))) (λ tx_id.
      and_then (remove_all removed) (λ _.
        and_then (install_all tx_id fetched)
          (λ _. and_then (log_conflicts now tx_id conflicts plan.packages) (λ _. pure tx_id))))

abbrev begin_on : Conn → Option Db → Outcome (Unit {0}) × Conn
begin_on c none = (ok tt, record c { saved = some c.db })
begin_on c (some d) = (err, c)

-- Within a transaction BEGIN is an error.
unfoldable pub begin : Sql Unit
unfolding failed
begin c =
    if next_fault c.faults
    then (err, failed c)
    else begin_on (record c { faults = later_faults c.faults }) c.saved

-- Outside of a transaction COMMIT and ROLLBACK are errors.
abbrev commit_on : Conn → Option Db → Outcome (Unit {0}) × Conn
commit_on c none = (err, c)
commit_on c (some d) = (ok tt, record c { saved = none })

abbrev rollback_on : Conn → Option Db → Outcome (Unit {0}) × Conn
rollback_on c none = (err, c)
rollback_on c (some d) = (ok tt, record c { db = d; saved = none })

unfoldable pub commit : Sql Unit
unfolding failed
commit c =
    if next_fault c.faults
    then (err, failed c)
    else commit_on (record c { faults = later_faults c.faults }) c.saved

unfoldable pub rollback : Sql Unit
unfolding failed
rollback c =
    if next_fault c.faults
    then (err, failed c)
    else rollback_on (record c { faults = later_faults c.faults }) c.saved

-- The `match result`.
unfoldable pub finish : {A : Type 0} → Outcome A × Conn → Outcome A × Conn
unfolding commit rollback and_then pure
finish (ok a, c) = and_then commit (λ _. pure a) c
finish (err, c) = and_then rollback (λ _ d. (err, d)) c

abbrev pub fail : Sql ℕ
fail c = (err, c)

-- The connection is the one of the process, which get_connection hands out; how the daemon comes to
-- it under its write lock is the matter of Locks. It is outside of a transaction at the start.
unfoldable pub phase_atomic_deploy :
    InstallPlan → Str → List FetchedPackage → List Str → Conflicts → Sql ℕ
unfolding begin finish deploy_body and_then
phase_atomic_deploy plan now fetched removed conflicts =
    and_then begin (λ _ c. finish (deploy_body plan now fetched removed conflicts c))

abbrev pub connect : Db → List Fault → Conn
connect db faults = record { db = db; saved = none; faults = faults }

-- What is on the disk: other connections see it, and it is what remains if the process ends here.
abbrev pub close : Conn → Db
close c = restored c
