-- ===== src/Index/Examples.antt =====
-- Tests of the readers of src/index and src/backend/mod.rs, and the theorems at small repositories.
use samad_package_manager.Common.{
  ◌≡◌, refl, true, none, some, [], ◌∷◌, ◌||◌, ◌&&◌, any, codes, str_eq, trim, trim_end_matches,
  drop_while, trim_start, starts_with, contains, split_char, split_once,
}
use samad_package_manager.Common.Assoc.{lookup}
use samad_package_manager.Package.{RepoSource}
use samad_package_manager.Package.Repo.{RepoConfig}
use samad_package_manager.Solver.Ranges.{find_op}
use samad_package_manager.Upgrades.Packages.{strip_prefix}
use samad_package_manager.Group.Lines.{split_all}
use samad_package_manager.Index.{
  SonameProvider, new, get_providers, insert_provider, set_requires, find, modify, get_requires,
}
use samad_package_manager.Common.{Bool, Str, take_while, false, mem}
use samad_package_manager.Common.Assoc.{insert}
use samad_package_manager.Index.Rpm
use samad_package_manager.Index.Rpm.{
  rpm_provider, version_of, collect, no_tables, register_caps, register_packages, register_cap,
  set_missing, requires_of, soname_requires, is_soname, clean_deps, clean_cap, push_at,
}
use samad_package_manager.Index.Rpm.Declared.{at, last_version, offers, update_index-declared}
use samad_package_manager.Index.Provided.{provided}
use samad_package_manager.Index.Deb.{
  DebPkgInfo, Listing, parse_dep_entry, parse_op_ver, process_dep, parse_packages, parse_files,
  scan_stanzas, stanza_line, close_stanza, or_insert, update_index,
}
use samad_package_manager.Index.Deb.Registered.{is_ours, update_index-provided}
use samad_package_manager.Index.Sam
use samad_package_manager.Index.Sam.{
  RepoIndexRecord, provides_sonames, soname_deps, goes_by, sam_provider, update_index-providers,
}

parse_dep_entry_test :
    (parse_dep_entry (codes "libssl (>= 1.1)") ≡ (codes "libssl", codes ">= 1.1"))
    × (parse_dep_entry (codes "libssl >= 1.1") ≡ (codes "libssl", codes ">= 1.1"))
    × (parse_dep_entry (codes "nginx") ≡ (codes "nginx", []))
    × (parse_dep_entry (codes "foo (= 1.0)") ≡ (codes "foo", codes "= 1.0"))
    × (process_dep (codes " a (>= 2) | b") ≡ codes "a (>= 2)" ∷ [])
unfolding parse_dep_entry parse_op_ver process_dep find_op split_char split_once split_all trim
    trim_end_matches trim_start drop_while starts_with str_eq
parse_dep_entry_test = (refl, refl, refl, refl, refl)

abbrev listing : Listing
listing =
    (
      codes "Packages-main",
      some (
          codes "Package: nginx"
          ∷ codes "Version: 1.28"
          ∷ codes "Depends: zlib1g"
          ∷ []
          ∷ codes "Package: nginx"
          ∷ codes "Version: 1.27"
          ∷ []),
    )
    ∷ []

abbrev nginx : DebPkgInfo
nginx = record { version = codes "1.28"; deps = codes "zlib1g" ∷ [] }

-- The first stanza of a name counts.
listing_read : parse_packages (some listing) ≡ some ((codes "nginx", nginx) ∷ [])
unfolding parse_packages parse_files scan_stanzas stanza_line close_stanza or_insert strip_prefix
    process_dep parse_dep_entry find_op split_char split_once split_all trim trim_end_matches
    trim_start drop_while starts_with str_eq lookup
listing_read = refl

abbrev debian : RepoConfig
debian = record {
  source = RepoSource.deb;
  priority = none;
  distro = none;
  codename = none;
  components = none;
  mirrors = none;
  release = none;
  repos = none;
  url = none;
  signing_key = none;
}

nginx_found : lookup (codes "nginx") ((codes "nginx", nginx) ∷ []) ≡ some nginx
unfolding lookup str_eq
nginx_found = refl

update_index-provided_example :
    let r = update_index (codes "main") debian true (some listing) (some []) new in
    (r.0 ≡ true)
    × (provided (r.1) (codes "nginx") (is_ours (codes "main") debian (codes "nginx") nginx.version)
        ≡ true)
    × (update_index (codes "main") debian true (some listing) none new ≡ (true, new))
update_index-provided_example =
    update_index-provided (codes "main") debian (some listing) [] ((codes "nginx", nginx) ∷ []) new
      (codes "nginx") nginx listing_read refl nginx_found

-- A package that declares no soname and needs one.
abbrev tool : RepoIndexRecord
tool = record {
  name = codes "tool";
  version = codes "1";
  architecture = codes "amd64";
  description = [];
  dependencies = codes "libz.so.1" ∷ [];
  provides_soname = [];
  conflicts = [];
  filename = [];
  hash = [];
  size = 1;
}

-- It counts as a provider of what it needs.
tool_provides : provides_sonames tool ≡ codes "libz.so.1" ∷ []
unfolding provides_sonames soname_deps contains starts_with trim trim_end_matches trim_start
    drop_while
tool_provides = refl

update_index-providers_example :
    provided
      ((Sam.update_index (codes "own") debian (some (tool ∷ [])) new).1)
      (codes "libz.so.1")
      (λ p. true)
    ≡ (provided new (codes "libz.so.1") (λ p. true)
        || any (λ r. goes_by (codes "own") debian r (codes "libz.so.1") && true) (tool ∷ []))
update_index-providers_example =
    update_index-providers (codes "own") debian (λ p. true) (tool ∷ []) new (codes "libz.so.1")

-- Two records with one name: the version of the last one counts for both.
abbrev old_tool : RepoIndexRecord
old_tool = record tool { version = codes "0"; provides_soname = codes "libt.so.0" ∷ [] }

abbrev is_version : Str → SonameProvider → Bool
unfolding str_eq
is_version v p = str_eq p.version v

versions_test :
    (provided
        ((Rpm.update_index (codes "fedora") debian (some (old_tool ∷ tool ∷ [])) new).1)
        (codes "libt.so.0")
        (is_version (codes "1"))
      ≡ true)
    × (provided
          ((Rpm.update_index (codes "fedora") debian (some (old_tool ∷ tool ∷ [])) new).1)
          (codes "libt.so.0")
          (is_version (codes "0"))
        ≡ false)
unfolding provided get_providers insert_provider set_requires find modify str_eq lookup insert
    Rpm.update_index rpm_provider version_of collect register_caps register_packages register_cap
    set_missing requires_of soname_requires is_soname clean_deps clean_cap get_requires push_at trim
    trim_end_matches trim_start drop_while take_while starts_with contains is_version
versions_test = (refl, refl)

update_index-declared_example :
    provided
      ((Rpm.update_index (codes "fedora") debian (some (old_tool ∷ tool ∷ [])) new).1)
      (codes "tool")
      (is_version (codes "1"))
    ≡ (provided new (codes "tool") (is_version (codes "1"))
        || any
            (λ r.
              mem (codes "tool") r.provides_soname
              && offers
                  (codes "fedora")
                  debian
                  (is_version (codes "1"))
                  (old_tool ∷ tool ∷ [])
                  r.name)
            (old_tool ∷ tool ∷ [])
        || at
            (λ v. is_version (codes "1") (rpm_provider (codes "fedora") debian (codes "tool") v))
            (last_version (codes "tool") (old_tool ∷ tool ∷ [])))
update_index-declared_example =
    update_index-declared (codes "fedora") debian (is_version (codes "1")) (old_tool ∷ tool ∷ [])
      new (codes "tool")
