-- ===== src/Sync/Examples.antt =====
-- The reader of the status of dpkg, and the theorems at a host with two packages.
use samad_package_manager.Common.{
  ℕ, ◌≡◌, refl, ◌||◌, not, ◌&&◌, true, false, none, some, List, [], ◌∷◌, Str, codes, str_eq, mem,
  trim, trim_end_matches, drop_while, trim_start, starts_with,
}
use samad_package_manager.Db.{init_schema}
use samad_package_manager.Db.Packages.{get_all_installed_package_names}
use samad_package_manager.Daemon.Deploy.{ok, err, connect}
use samad_package_manager.Upgrades.Packages.{strip_prefix}
use samad_package_manager.Sync.{
  System, parse_deb822_status, scan_status, file_list, system_pkgs, sync_system,
}
use samad_package_manager.Sync.Pruned.{names, stale}
use samad_package_manager.Sync.Installed.{there, sync_system-names}
use samad_package_manager.Sync.Files.{sync_system-fails}

-- A package that was removed keeps its stanza in the file, with another status.
abbrev status : List Str
status =
    codes "Package: nginx"
    ∷ codes "Status: install ok installed"
    ∷ codes "Version: 1.28"
    ∷ []
    ∷ codes "Package: zlib"
    ∷ codes "Status: deinstall ok config-files"
    ∷ codes "Version: 1.3"
    ∷ []

parse_deb822_status_test :
    parse_deb822_status (some status)
    ≡ (codes "nginx", codes "1.28") ∷ (codes "zlib", codes "1.3") ∷ []
unfolding parse_deb822_status scan_status strip_prefix trim trim_end_matches drop_while trim_start
    starts_with str_eq
parse_deb822_status_test = refl

abbrev system : System
system = record {
  has_dpkg = false;
  has_rpm = true;
  dpkg_status = none;
  dpkg_list = λ n. none;
  rpm_packages = (codes "nginx", codes "1.28") ∷ [];
  rpm_files = λ n. codes "/usr/bin/nginx" ∷ [];
}

sync_system-names_example :
    (counts : ℕ × ℕ) × ((sync_system system (codes "now") false true (connect init_schema [])).0
      ≡ ok counts)
    × (mem
          (codes "nginx")
          (names ((sync_system system (codes "now") false true (connect init_schema [])).1.db))
        ≡ (there system (codes "now") (codes "nginx")
            || (mem (codes "nginx") (names init_schema)
                && not (
                    true
                    && not (there system (codes "now") (codes "nginx"))
                    && stale init_schema (codes "nginx")))))
sync_system-names_example =
    sync_system-names system (codes "now") true init_schema (codes "nginx") refl

sync_system-fails_example :
    (sync_system system (codes "now") true true (connect init_schema [])).0 ≡ err
unfolding file_list system_pkgs mem get_all_installed_package_names
sync_system-fails_example =
    sync_system-fails system (codes "now") true (connect init_schema []) refl refl
