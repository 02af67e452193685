-- ===== src/Engine/Whole.antt =====
-- execute_smart of src/package/transaction.rs takes effect on the database as a whole or not at all,
-- and what is left on the host where it fails.
use samad_package_manager.Common.{◌≡◌, ◌⊎◌, Bool, Option, some, List, [], Str}
use samad_package_manager.Package.Repo.{RepoConfig, Repos}
use samad_package_manager.Db.{Db}
use samad_package_manager.Db.Conflict.{Conflicts}
use samad_package_manager.Daemon.Rollback.{RollbackGuard, disarm_all}
use samad_package_manager.Daemon.Deploy.{ok, err, close}
use samad_package_manager.Engine.{TransactionPlan}
use samad_package_manager.Engine.Collect.{Fetched, rows_of, fetch_all}
use samad_package_manager.Engine.Stage.{Host, Calls, drop_all, stage_all}
use samad_package_manager.Engine.Commit.{commits}
use samad_package_manager.Engine.Cleanup.{capture_remove_infos, run_all_scripts, cleanup_all}
use samad_package_manager.Engine.Smart.{Ended}

module _ (calls : Calls) (db_base user now : Str) (plan : TransactionPlan)
    (fetch : Str → Str × RepoConfig → Option Fetched) (repos : Repos) (replace smart : Bool)
    (db : Db) where
  -- The packages that phase A fetched, those that phase B staged, with their guards and the host.
  pub record Done (h : Host) (e : Ended) : Type 0 where
    pub removed : List Str
    pub conflicts : Conflicts
    pub fetched : List Fetched
    pub guards : List RollbackGuard
    pub staged : List Fetched
    pub host : Host
    pub collects :
        fetch_all db fetch repos plan.name replace plan.all_packages (plan.to_remove, []) []
        ≡ some ((removed, conflicts), fetched)
    pub stages : stage_all calls db_base smart fetched [] [] h ≡ (some (guards, staged), host)
    pub committed :
        commits plan user now (rows_of staged) removed conflicts db ≡ some (tt, close (e.1))
    pub finished :
        e.2
        ≡ cleanup_all calls e.1.db
            (capture_remove_infos db removed)
            (run_all_scripts staged (drop_all calls.drops (disarm_all guards) host))

  -- An error that leaves the database, or everything.
  abbrev pub Ends : Host → Ended → Type 0
  Ends h e = ((e.0 ≡ err) × (close (e.1) ≡ db)) ⊎ ((e.0 ≡ ok tt) × Done h e)
