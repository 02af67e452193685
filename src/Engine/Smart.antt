-- ===== src/Engine/Smart.antt =====
-- execute_smart and install_local of src/package/transaction.rs: the phases one after the other.
use samad_package_manager.Common.{
  Bool, false, not, ◌&&◌, Option, none, some, List, [], ◌∷◌, Str, if◌then◌else◌,
}
use samad_package_manager.Package.Repo.{RepoConfig, Repos}
use samad_package_manager.Db.Packages.{is_installed}
use samad_package_manager.Db.Conflict.{Conflicts}
use samad_package_manager.Daemon.Rollback.{RollbackGuard, disarm_all}
use samad_package_manager.Daemon.Replace.{add_obsoletes}
use samad_package_manager.Daemon.Deploy.{Conn, Outcome, ok, err}
use samad_package_manager.Engine.{TransactionPlan}
use samad_package_manager.Engine.Collect.{Fetched, Collected, rows_of, fetch_all}
use samad_package_manager.Engine.Stage.{
  Host, Calls, Deployed, Staged, drop_all, stage_all, fs_deploy_one,
}
use samad_package_manager.Engine.Commit.{atomic_commit, local_commit}
use samad_package_manager.Engine.Cleanup.{
  RemoveInfo, run_all_scripts, capture_remove_infos, cleanup_all,
}

-- The result, the connection and the host at the end.
abbrev pub Ended : Type 0
Ended = Outcome (Unit {0}) × Conn × Host

module _ (calls : Calls) (db_base : Str) (user now : Str) where
  -- A commit disarms the guards, runs the scripts and cleans up; an error drops the guards.
  abbrev pub finalize :
      List RollbackGuard → List Fetched → List RemoveInfo → Host → Outcome (Unit {0}) × Conn → Ended
  finalize guards staged infos h (ok u, c) =
      let disarmed : Host = drop_all calls.drops (disarm_all guards) h in
      (ok u, c, cleanup_all calls c.db infos (run_all_scripts staged disarmed))
  finalize guards staged infos h (err, c) = (err, c, drop_all calls.drops guards h)

  module _ (plan : TransactionPlan) (fetch : Str → Str × RepoConfig → Option Fetched)
      (repos : Repos) (replace smart : Bool) where
    abbrev pub commit_staged : List Str → Conflicts → Conn → Staged → Ended
    commit_staged removed conflicts c (none, h) = (err, c, h)
    commit_staged removed conflicts c (some (guards, staged), h) =
        finalize guards staged (capture_remove_infos c.db removed) h
          (atomic_commit plan user now (rows_of staged) removed conflicts c)

    abbrev pub deploy_collected : Conn → Host → Option Collected → Ended
    deploy_collected c h none = (err, c, h)
    deploy_collected c h (some ((removed, conflicts), fetched)) =
        commit_staged removed conflicts c (stage_all calls db_base smart fetched [] [] h)

    unfoldable pub execute_smart : Conn → Host → Ended
    unfolding fetch_all stage_all atomic_commit drop_all disarm_all capture_remove_infos
        run_all_scripts cleanup_all
    execute_smart c h =
        deploy_collected c h
          (fetch_all c.db fetch repos plan.name replace plan.all_packages (plan.to_remove, []) [])

  abbrev pub commit_local : List Str → Conn → Deployed → Ended
  commit_local removed c (none, h) = (err, c, h)
  commit_local removed c (some (g, f), h) =
      finalize (g ∷ []) (f ∷ []) (capture_remove_infos c.db removed) h
        (local_commit user now f.rows removed c)

  -- An installed package is an error without `replace`.
  unfoldable pub install_local : Fetched → Bool → Conn → Host → Ended
  unfolding is_installed add_obsoletes fs_deploy_one local_commit drop_all disarm_all
      capture_remove_infos run_all_scripts cleanup_all
  install_local f replace c h =
      let installed : Bool = is_installed c.db f.rows.pkg.name in
      let own : List Str = if replace && installed then f.rows.pkg.name ∷ [] else [] in
      if installed && not replace
      then (err, c, h)
      else commit_local (add_obsoletes c.db own f.rows.obsoletes) c
          (fs_deploy_one calls db_base false f h)
