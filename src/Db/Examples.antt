-- ===== src/Db/Examples.antt =====
-- The theorems about the tables at small databases.
use samad_package_manager.Common.{◌≡◌, not, ◌&&◌, none, List, [], ◌∷◌, Str, codes, mem}
use samad_package_manager.Package.{PackageFormat, deb, rpm}
use samad_package_manager.Db.{Db, InstalledPackage, FileRecord, created, native, spm, init_schema}
use samad_package_manager.Db.Conflict.{detect_file_conflicts, lists, has_row, detect-overlaps}

abbrev nginx : PackageFormat → InstalledPackage
nginx format = record {
  name = codes "nginx";
  version = codes "1.27";
  format = format;
  install_type = native;
  manifest = none;
  install_date = codes "2026-05-30";
  source_repo = none;
  store_hash = none;
  origin = spm;
}

abbrev file : PackageFormat → Str → FileRecord
file format path = record {
  id = none;
  transaction_id = 1;
  package_name = codes "nginx";
  format = format;
  filepath = path;
  hash = [];
  action = created;
}

-- The same name is installed in two formats.
abbrev both : Db
both = record init_schema {
  installed_packages = nginx deb ∷ nginx rpm ∷ [];
  files = file deb (codes "/usr/bin/nginx") ∷ file rpm (codes "/opt/nginx") ∷ [];
}

abbrev bin_nginx : List Str
bin_nginx = codes "/usr/bin/nginx" ∷ []

detect-overlaps_example :
    lists (detect_file_conflicts both bin_nginx []) (codes "nginx") (codes "/usr/bin/nginx") ≡ (
      not (mem (codes "nginx") [])
      && mem (codes "/usr/bin/nginx") bin_nginx
      && has_row both.files (codes "nginx") (codes "/usr/bin/nginx"))
detect-overlaps_example = detect-overlaps both bin_nginx [] (codes "nginx") (codes "/usr/bin/nginx")
