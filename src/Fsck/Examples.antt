-- ===== src/Fsck/Examples.antt =====
-- The check at a database with the file of a package that is gone.
use samad_package_manager.Common.{◌≡◌, refl, true, none, [], ◌∷◌, codes, str_eq, mem}
use samad_package_manager.Common.Sort.{sort_by, insert_by}
use samad_package_manager.Package.{deb}
use samad_package_manager.Db.{Db, created, init_schema}
use samad_package_manager.Db.Packages.{list_installed_packages, remove_installed_package, distinct}
use samad_package_manager.Db.Files.{get_all_files}
use samad_package_manager.Daemon.Deploy.{Outcome, exec, and_then, pure, connect}
use samad_package_manager.Fsck.{
  Answers, check_integrity, check_database, read_tables, check_tables, check_orphans,
  remove_orphans, with_dangling, check_disk, missing_pkg_files, orphans, dangling,
}
use samad_package_manager.Fsck.Fixed.{check_integrity-unchanged}

abbrev answers : Answers
answers = record { integrity = true; after_vacuum = true; exists = λ p. true }

abbrev db : Db
db = record init_schema {
  files =
      record {
        id = none;
        transaction_id = 1;
        package_name = codes "gone";
        format = deb;
        filepath = codes "/usr/bin/gone";
        hash = [];
        action = created;
      }
      ∷ [];
}

-- One group is orphaned: it is counted twice, reported as fixed, and found again behind the repair.
check_integrity_test :
    (check_integrity answers true true (connect db [])).0
    ≡ Outcome.ok (record {
      integrity_ok = true;
      orphan_files = codes "gone" ∷ [];
      missing_files = [];
      dangling_refs = codes "gone" ∷ [];
      total_issues = 2;
      fixed = 1;
    })
unfolding check_integrity check_database read_tables check_tables check_orphans remove_orphans
    with_dangling check_disk missing_pkg_files orphans dangling exec and_then pure mem distinct
    list_installed_packages sort_by insert_by get_all_files remove_installed_package str_eq
check_integrity_test = refl

check_integrity-unchanged_example :
    (check_integrity answers true true (connect db [])).1.db ≡ (connect db []).db
check_integrity-unchanged_example = check_integrity-unchanged answers true true (connect db []) refl
