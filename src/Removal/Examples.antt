-- ===== src/Removal/Examples.antt =====
-- The theorems about removals at a concrete package.
use samad_package_manager.Package.{new, deb, format_eq}
use samad_package_manager.Common.{
  ◌≡◌, refl, true, not, ◌&&◌, none, some, List, [], ◌∷◌, Str, codes, str_eq, mem, starts_with,
}
use samad_package_manager.Db.{Db, InstalledPackage, FileRecord, created, native, spm, init_schema}
use samad_package_manager.Db.Packages.{get_installed_package}
use samad_package_manager.Db.Files.{get_files_by_package}
use samad_package_manager.Daemon.Deploy.{Conn, passes, fails, connect}
use samad_package_manager.Engine.Stage.{Host}
use samad_package_manager.Removal.{
  Removals, is_conffile, conffiles, dirs_to_cleanup, remove_package,
}
use samad_package_manager.Removal.Kept.{recorded, remove_package-files}
use samad_package_manager.Removal.Ends.{Ends, remove_package-Ends}

abbrev nginx : InstalledPackage
nginx = record {
  name = codes "nginx";
  version = codes "1.27";
  format = deb;
  install_type = native;
  manifest = none;
  install_date = codes "2026-05-30";
  source_repo = none;
  store_hash = none;
  origin = spm;
}

abbrev file_at : Str → FileRecord
file_at path = record {
  id = none;
  transaction_id = 1;
  package_name = codes "nginx";
  format = deb;
  filepath = path;
  hash = [];
  action = created;
}

abbrev db : Db
db = record init_schema {
  installed_packages = nginx ∷ [];
  files = file_at (codes "/usr/bin/nginx") ∷ file_at (codes "/etc/nginx.conf") ∷ [];
}

abbrev host : Host
host = record {
  fs = record { store = []; links = codes "/usr/bin/nginx" ∷ codes "/etc/nginx.conf" ∷ [] };
  partial = [];
  scripts = [];
  sandboxes = [];
  runs = [];
}

abbrev all_pass : Removals
all_pass = record {
  file_ok = λ p. true;
  dir_ok = λ p. true;
  sandbox_ok = λ p. true;
  scripts_ok = λ p. true;
}

installed : get_installed_package db (codes "nginx") ≡ some nginx
unfolding get_installed_package str_eq format_eq
installed = refl

abbrev confs : List Str
confs = conffiles all_pass (λ m. []) (codes "root") (codes "now") (codes "nginx") nginx

remove_package-files_example :
    mem (codes "/etc/nginx.conf") (
      (remove_package all_pass
        (λ m. [])
        (codes "root")
        (codes "now")
        (codes "nginx")
        (connect db [])
        host).2.fs.links)
    ≡ (mem (codes "/etc/nginx.conf") host.fs.links
        && not (
            recorded (codes "/etc/nginx.conf") (get_files_by_package db (codes "nginx"))
            && not (is_conffile (codes "/etc/nginx.conf") confs)
            && true))
remove_package-files_example =
    remove_package-files all_pass (λ m. []) (codes "root") (codes "now") (codes "nginx")
      (connect db []) host nginx (codes "/etc/nginx.conf") installed

-- The last statement fails, when the files are gone already.
abbrev later_fault : Conn
later_fault = connect db (passes ∷ passes ∷ fails ∷ [])

remove_package-Ends_example : Ends all_pass confs (new (codes "nginx") deb) db (
    remove_package all_pass (λ m. []) (codes "root") (codes "now") (codes "nginx") later_fault host)
remove_package-Ends_example =
    remove_package-Ends all_pass (λ m. []) (codes "root") (codes "now") (codes "nginx") later_fault
      host nginx refl installed

-- A directory of another package is cleaned up by a file beside it.
sibling_dir :
    dirs_to_cleanup (codes "nginx") (file_at (codes "/etc/nginx-extra/a.conf") ∷ [])
    ≡ codes "/etc/nginx" ∷ []
unfolding dirs_to_cleanup starts_with
sibling_dir = refl
