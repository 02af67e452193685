-- ===== src/Upgrades/Examples.antt =====
-- The theorems about upgrades at concrete packages.
use samad_package_manager.Package.{PackageFormat, RepoSource, source_eq}
use samad_package_manager.Package.Repo.{RepoConfig, Repos}
use samad_package_manager.Common.{
  ◌≡◌, ◌≢◌, refl, true, false, not, ◌&&◌, none, some, List, [], ◌∷◌, ◌++◌, map, Str, codes, str_eq,
  mem, trim, trim_end_matches, drop_while, trim_start, starts_with,
}
use samad_package_manager.Common.Sort.{insert_by, sort_by}
use samad_package_manager.Db.{Db, InstalledPackage, native, spm, init_schema}
use samad_package_manager.Db.Packages.{list_installed_packages}
use samad_package_manager.Daemon.Deploy.{connect, Outcome}
use samad_package_manager.Locks.{unlocked, Run}
use samad_package_manager.Upgrades.{Sources, check_upgrade, check_repos, obsoleted}
use samad_package_manager.Upgrades.Packages.{
  strip_prefix, eq_ignore_ascii_case, scan_file, no_name, package_at, version_at, scan_file-stanza,
}
use samad_package_manager.Upgrades.Check.{
  some_speaks, versions, decided, check_upgrade-decided, check_upgrade-sam_obsolete,
}
use samad_package_manager.Upgrades.Orphans.{find_orphans, needed, find_orphans_iff}
use samad_package_manager.Upgrades.Dist.{is_nil, to_be_removed, dist_upgrade_packages}
use samad_package_manager.Upgrades.Stuck.{dist_upgrade-stuck}

abbrev stanza : List Str
stanza = codes "Package: nginx" ∷ codes "Version: 1.28" ∷ []

names_nginx : package_at (codes "nginx") stanza false ≡ true
unfolding strip_prefix eq_ignore_ascii_case trim trim_end_matches drop_while trim_start str_eq
    starts_with
names_nginx = refl

abbrev other : List Str
other = codes "Package: apt" ∷ codes "Version: 2.9" ∷ [] ∷ []

names_other : no_name (codes "nginx") other ≡ true
unfolding strip_prefix eq_ignore_ascii_case trim trim_end_matches drop_while trim_start str_eq
    starts_with
names_other = refl

scan_file-stanza_example :
    (scan_file (codes "nginx") (other ++ stanza) ≡ version_at (codes "nginx") stanza false none)
    × (scan_file (codes "nginx") (other ++ (stanza ++ [] ∷ codes "Package: zlib" ∷ [])) ≡ none)
scan_file-stanza_example =
    scan_file-stanza (codes "nginx") other stanza (codes "Package: zlib" ∷ []) names_other refl
      names_nginx

abbrev nginx : InstalledPackage
nginx = record {
  name = codes "nginx";
  version = codes "1.27";
  format = PackageFormat.sam;
  install_type = native;
  manifest = none;
  install_date = codes "2026-05-30";
  source_repo = none;
  store_hash = none;
  origin = spm;
}

abbrev debian : RepoConfig
debian = record {
  source = RepoSource.deb;
  priority = none;
  distro = none;
  codename = none;
  components = none;
  mirrors = none;
  release = none;
  repos = none;
  url = none;
  signing_key = none;
}

abbrev repos : Repos
repos = (codes "debian", debian) ∷ []

abbrev sources : Sources
sources = record {
  deb_cache = λ r. some ((codes "Packages-main", some stanza) ∷ []);
  soname_index = none;
  repo_index = λ u. none;
}

has_version : nginx.version ≢ []
has_version e = cc

check_upgrade-decided_example :
    check_upgrade sources nginx repos
    ≡ decided sources nginx (some_speaks sources nginx repos) (versions sources nginx repos)
check_upgrade-decided_example = check_upgrade-decided sources nginx repos has_version

-- The Debian repository has the version 1.28.
sam_obsolete : check_upgrade sources nginx repos ≡ obsoleted
unfolding source_eq
sam_obsolete = check_upgrade-sam_obsolete sources nginx repos has_version refl refl

find_orphans_iff_example : mem (codes "nginx") (find_orphans (λ m. []) (nginx ∷ [])) ≡ (
    mem (codes "nginx") (map (λ p. p.name) (nginx ∷ []))
    && not (needed (λ m. []) (codes "nginx") (nginx ∷ []))
    && not (str_eq (codes "nginx") (codes "spm")))
find_orphans_iff_example = find_orphans_iff (λ m. []) (nginx ∷ []) (codes "nginx")

abbrev db : Db
db = record init_schema { installed_packages = nginx ∷ [] }

obsolete_to_go :
    is_nil (
      to_be_removed
        (λ n. true)
        (codes "root")
        (codes "now")
        (λ m. [])
        sources
        repos
        (list_installed_packages db))
    ≡ false
unfolding to_be_removed list_installed_packages sort_by insert_by check_upgrade check_repos
obsolete_to_go = refl

dist_upgrade-stuck_example :
    dist_upgrade_packages
      (λ n. true)
      (codes "root")
      (codes "now")
      (λ m. [])
      sources
      repos
      true
      (λ n c. (Outcome.ok tt, c))
      unlocked
      (connect db [])
    ≡ Run.stuck
dist_upgrade-stuck_example =
    dist_upgrade-stuck (λ n. true) (codes "root") (codes "now") (λ m. []) sources repos
      (λ n c. (Outcome.ok tt, c)) unlocked (connect db []) obsolete_to_go
