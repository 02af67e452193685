-- ===== src/Engine/Examples.antt =====
-- The theorems about the transaction engine at a concrete package.
use samad_package_manager.Package.{
  new, RepoSource, PackageFormat, source_eq, matching_source, format_eq,
}
use samad_package_manager.Package.Repo.{RepoConfig, Repos}
use samad_package_manager.Common.{
  ◌≡◌, refl, true, Option, none, some, List, [], ◌∷◌, Str, codes, str_eq, mem,
}
use samad_package_manager.Common.Assoc.{lookup}
use samad_package_manager.Db.{Db, InstalledPackage, FileRecord, created, native, spm, init_schema}
use samad_package_manager.Db.Packages.{
  is_installed, get_installed_package, delete_files, delete_package,
}
use samad_package_manager.Db.Files.{insert_file}
use samad_package_manager.Db.Transactions.{record_transaction}
use samad_package_manager.Db.Conflict.{detect_file_conflicts, has_row}
use samad_package_manager.Daemon.Deploy.{
  connect, Outcome, exec, and_then, begin, commit, remove_by_id, record_files,
}
use samad_package_manager.Daemon.Deploy.Upgrade.{upgrade_commit, upgrade_body}
use samad_package_manager.Daemon.Replace.{add_obsoletes, new_files}
use samad_package_manager.Engine.{TransactionPlan}
use samad_package_manager.Engine.Scripts.{load_scripts, no_scripts}
use samad_package_manager.Engine.Collect.{
  Fetched, fetch_from, fetch_single, settle_fetched, settle_package, add_conflicts, extend_entry,
  fetch_all,
}
use samad_package_manager.Engine.Covers.{fetch_all-covers}
use samad_package_manager.Engine.Stage.{Host, Calls, Copy}
use samad_package_manager.Engine.Upgrade.{upgrade_package, upgrade_package-no_scripts}
use samad_package_manager.Engine.Conffiles.{
  Files, backup_path, backup_conffiles, backup_conffiles-saves,
}

abbrev nginx : InstalledPackage
nginx = record {
  name = codes "nginx";
  version = codes "1.27";
  format = PackageFormat.sam;
  install_type = native;
  manifest = none;
  install_date = codes "2026-05-30";
  source_repo = none;
  store_hash = none;
  origin = spm;
}

abbrev nginx_file : FileRecord
nginx_file = record {
  id = none;
  transaction_id = 0;
  package_name = codes "nginx";
  format = PackageFormat.sam;
  filepath = codes "/usr/bin/nginx";
  hash = [];
  action = created;
}

abbrev fetched : Fetched
fetched = record {
  rows = record { pkg = nginx; files = nginx_file ∷ []; obsoletes = [] };
  scripts = record { preinst = none; postinst = none; prerm = some (codes "stop"); postrm = none };
  conffiles = [];
  content = some (codes "ab12");
  paths = codes "/usr/bin/nginx" ∷ [];
}

abbrev repo : RepoConfig
repo = record {
  source = RepoSource.native;
  priority = none;
  distro = none;
  codename = none;
  components = none;
  mirrors = none;
  release = none;
  repos = none;
  url = none;
  signing_key = none;
}

abbrev repos : Repos
repos = (codes "main", repo) ∷ []

abbrev fetch : Str → Str × RepoConfig → Option Fetched
fetch name r = some fetched

abbrev plan : TransactionPlan
plan = record {
  name = codes "nginx";
  all_packages = new (codes "nginx") PackageFormat.sam ∷ [];
  to_remove = [];
  file_conflicts = [];
  classified = ([], [], []);
}

abbrev all_pass : Calls
all_pass = record {
  copy = λ d. Copy.copied;
  rpath_ok = λ d. true;
  link_fails = λ d. none;
  writes = λ n s. true;
  drops = record { unlink_ok = λ p. true; rmdir_ok = λ d. true };
  scripts_ok = λ n. true;
  sandbox_ok = λ n. true;
}

abbrev host : Host
host = record {
  fs = record { store = []; links = [] };
  partial = [];
  scripts = [];
  sandboxes = [];
  runs = [];
}

-- apache has the file that nginx brings.
abbrev with_apache : Db
with_apache = record init_schema {
  files = record nginx_file { package_name = codes "apache" } ∷ [];
}

collected :
    fetch_all with_apache fetch repos (codes "nginx") true plan.all_packages ([], []) []
    ≡ some ((codes "apache" ∷ [], (codes "apache", codes "/usr/bin/nginx" ∷ []) ∷ []), fetched ∷ [])
unfolding fetch_all fetch_single fetch_from source_eq matching_source settle_fetched add_obsoletes
    new_files settle_package add_conflicts extend_entry detect_file_conflicts is_installed str_eq
    mem
collected = refl

fetch_all-covers_example : mem (codes "apache") (codes "apache" ∷ []) ≡ true
unfolding new_files mem str_eq has_row
fetch_all-covers_example =
    fetch_all-covers with_apache fetch repos plan true (codes "apache" ∷ [])
      ((codes "apache", codes "/usr/bin/nginx" ∷ []) ∷ []) (fetched ∷ []) (codes "apache")
      (codes "/usr/bin/nginx") collected refl refl

abbrev with_nginx : Db
with_nginx = record init_schema { installed_packages = nginx ∷ [] }

upgraded :
    (upgrade_package all_pass
      (codes "/var/lib/spm")
      (codes "root")
      (codes "now")
      (codes "nginx")
      fetch
      repos
      (connect with_nginx [])
      host).0
    ≡ Outcome.ok tt
unfolding upgrade_package upgrade_commit upgrade_body begin commit exec and_then remove_by_id
    record_files insert_file record_transaction get_installed_package str_eq format_eq
    delete_package delete_files
upgraded = refl

-- The new version brings a script, and none is stored.
upgrade_package-no_scripts_example :
    load_scripts (codes "nginx") (
      (upgrade_package all_pass
        (codes "/var/lib/spm")
        (codes "root")
        (codes "now")
        (codes "nginx")
        fetch
        repos
        (connect with_nginx [])
        host).2.scripts)
    ≡ no_scripts
upgrade_package-no_scripts_example =
    upgrade_package-no_scripts all_pass (codes "/var/lib/spm") (codes "root") (codes "now")
      (codes "nginx") fetch refl repos (connect with_nginx []) host upgraded

abbrev disk : Files
disk p = some (codes "mine")

abbrev known : List (Str × Str)
known = (codes "/etc/a", codes "old") ∷ []

backup_conffiles-saves_example :
    backup_conffiles known
      (λ p. some (codes "new"))
      (λ p. true)
      (codes "/etc/a" ∷ [])
      disk
      (backup_path (codes "/etc/a"))
    ≡ some (codes "mine")
unfolding mem str_eq lookup
backup_conffiles-saves_example =
    backup_conffiles-saves known (λ p. some (codes "new")) (λ p. true) (codes "/etc/a" ∷ [])
      (codes "/etc/a") disk (codes "mine") (codes "old") (codes "new") refl refl refl refl refl refl
      refl refl
