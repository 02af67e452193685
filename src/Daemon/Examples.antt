-- ===== src/Daemon/Examples.antt =====
-- The theorems about the daemon at concrete runs.
use samad_package_manager.Package.{new, deb}
use samad_package_manager.Db.{Db, InstalledPackage, FileRecord, created, native, spm, init_schema}
use samad_package_manager.Db.Conflict.{Conflicts, detect_file_conflicts, has_row}
use samad_package_manager.Daemon.Deploy.{
  Fault, passes, fails, undoes, FetchedPackage, InstallPlan, phase_atomic_deploy, connect, close,
  begin, Outcome,
}
use samad_package_manager.Daemon.Deploy
use samad_package_manager.Daemon.Deploy.Upgrade.{upgrade_commit, upgrades, upgrade_commit-ends}
use samad_package_manager.Daemon.Deploy.Atomic.{Whole, deploys, deploy-atomic}
use samad_package_manager.Daemon.Overlap.{check_conflicts, resolve}
use samad_package_manager.Daemon.Overlap.Owners.{Decides, resolve-Decides}
use samad_package_manager.Daemon.Replace.{
  phase_conflict_detection, new_files, phase_conflict_detection-covers,
}
use samad_package_manager.Common.{
  ◌≡◌, ◌⊎◌, refl, true, none, some, List, [], ◌∷◌, codes, str_eq, mem,
}
use samad_package_manager.Daemon.Limiter.{
  RateLimiter, new as new_limiter, try_acquire, release, accept, finish, Reach, start, next, Counts,
  Reach-Counts,
}

-- Two connections of user 7, the first of which ends.
abbrev first : RateLimiter
first = (try_acquire new_limiter 7 100).0

abbrev second : RateLimiter
second = (try_acquire first 7 200).0

run : Reach (record { limiter = release second 7; serving = 7 ∷ [] })
unfolding try_acquire
run =
    next (next (next start (accept 7 100 first refl)) (accept 7 200 second refl))
      (finish 7 (7 ∷ []) [] refl)

Reach-Counts_example : Counts (record { limiter = release second 7; serving = 7 ∷ [] })
Reach-Counts_example = Reach-Counts run

abbrev nginx : InstalledPackage
nginx = record {
  name = codes "nginx";
  version = codes "1.27";
  format = deb;
  install_type = native;
  manifest = none;
  install_date = codes "2026-05-30";
  source_repo = none;
  store_hash = none;
  origin = spm;
}

abbrev nginx_file : FileRecord
nginx_file = record {
  id = none;
  transaction_id = 0;
  package_name = codes "nginx";
  format = deb;
  filepath = codes "/usr/bin/nginx";
  hash = [];
  action = created;
}

abbrev fetched : List FetchedPackage
fetched = record { pkg = nginx; files = nginx_file ∷ []; obsoletes = [] } ∷ []

abbrev plan : InstallPlan
plan = record { packages = new (codes "nginx") deb ∷ []; replace = some (codes "apache") }

-- The third statement fails, and SQLite rolls the transaction back.
abbrev third_fails : List Fault
third_fails = passes ∷ passes ∷ undoes ∷ []

deploy-atomic_example :
    Whole init_schema (deploys plan (codes "now") fetched (codes "apache" ∷ []) []) (
      phase_atomic_deploy plan
        (codes "now")
        fetched
        (codes "apache" ∷ [])
        []
        (connect init_schema third_fails))
deploy-atomic_example =
    deploy-atomic init_schema third_fails plan (codes "now") fetched (codes "apache" ∷ []) []

-- apache has the file that nginx brings.
abbrev with_apache : Db
with_apache = record init_schema {
  files = record nginx_file { package_name = codes "apache" } ∷ [];
}

abbrev plain : InstallPlan
plain = record { packages = new (codes "nginx") deb ∷ []; replace = some (codes "lighttpd") }

abbrev found : Conflicts
found = (codes "apache", codes "/usr/bin/nginx" ∷ []) ∷ []

detected :
    phase_conflict_detection with_apache plain fetched
    ≡ some (codes "lighttpd" ∷ codes "apache" ∷ [], found)
unfolding phase_conflict_detection str_eq mem detect_file_conflicts
detected = refl

file_is_new : mem (codes "/usr/bin/nginx") (new_files fetched) ≡ true
unfolding new_files mem str_eq
file_is_new = refl

file_has_row : has_row with_apache.files (codes "apache") (codes "/usr/bin/nginx") ≡ true
unfolding has_row str_eq
file_has_row = refl

phase_conflict_detection-covers_example :
    mem (codes "apache") (codes "lighttpd" ∷ codes "apache" ∷ []) ≡ true
phase_conflict_detection-covers_example =
    phase_conflict_detection-covers with_apache plain fetched
      (codes "lighttpd" ∷ codes "apache" ∷ []) found (codes "apache") (codes "/usr/bin/nginx")
      detected file_is_new file_has_row

-- The fourth statement after BEGIN fails.
abbrev later_fault : List Fault
later_fault = passes ∷ passes ∷ passes ∷ fails ∷ []

abbrev upgraded : Outcome (Unit {0}) × Deploy.Conn
upgraded =
    upgrade_commit (codes "nginx") (codes "root") (codes "now") deb (nginx_file ∷ []) nginx
      (connect init_schema (passes ∷ later_fault))

upgrade_commit-ends_example :
    ((upgraded.0 ≡ Outcome.ok tt)
      × (upgraded.1.saved ≡ none)
      × (upgrades
            (codes "nginx")
            (codes "root")
            (codes "now")
            deb
            (nginx_file ∷ [])
            nginx
            init_schema
          ≡ some (tt, upgraded.1.db)))
    ⊎ ((upgraded.0 ≡ Outcome.err)
        × (close (upgraded.1) ≡ init_schema)
        × ((begin (record (upgraded.1) { faults = [] })).0 ≡ Outcome.err))
upgrade_commit-ends_example =
    upgrade_commit-ends (codes "nginx") (codes "root") (codes "now") deb (nginx_file ∷ []) nginx
      init_schema later_fault refl

-- The file of nginx is there already.
abbrev owned : Db
owned = record init_schema { files = nginx_file ∷ [] }

resolve-Decides_example :
    Decides owned
      (nginx_file.filepath ∷ [])
      (resolve (check_conflicts owned (nginx_file.filepath ∷ [])))
resolve-Decides_example = resolve-Decides owned (nginx_file.filepath ∷ [])
