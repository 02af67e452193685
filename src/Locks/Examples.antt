-- ===== src/Locks/Examples.antt =====
-- The theorems about the locks at concrete calls.
use samad_package_manager.Package.{new, deb}
use samad_package_manager.Common.{◌≡◌, none, [], ◌∷◌, codes}
use samad_package_manager.Db.{init_schema}
use samad_package_manager.Daemon.Deploy.{InstallPlan, connect}
use samad_package_manager.Locks.{unlocked, Run}
use samad_package_manager.Locks.Nested.{deploy_locked, deploy_locked-stuck}

abbrev plan : InstallPlan
plan = record { packages = new (codes "nginx") deb ∷ []; replace = none }

deploy_locked-stuck_example :
    deploy_locked plan (codes "now") [] [] [] unlocked (connect init_schema []) ≡ Run.stuck
deploy_locked-stuck_example =
    deploy_locked-stuck plan (codes "now") [] [] [] unlocked (connect init_schema [])
