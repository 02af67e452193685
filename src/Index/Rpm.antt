-- ===== src/Index/Rpm.antt =====
-- src/index/rpm.rs: the packages of an RPM repository in the index. The JSON file of the repository
-- is read by a library: `none` is a file that is missing or is no such index.
pub mod Providers
pub mod Declared
use samad_package_manager.Common.{
  ℕ, ◌≡◌, refl, ◌∙◌, inl, inr, Bool, true, false, not, ◌&&◌, ◌||◌, Option, none, some, List, [],
  ◌∷◌, ◌++◌, Str, codes, any, keep, trim, contains, starts_with, str_eq, ◌==◌, take_while, arith,
  Bool-cases, if◌then◌else◌,
}
use samad_package_manager.Common.Assoc.{lookup, insert}
use samad_package_manager.Package.{RepoSource}
use samad_package_manager.Package.Repo.{RepoConfig, effective_priority}
use samad_package_manager.Upgrades.Packages.{is_empty}
use samad_package_manager.Index.{
  SonameProvider, SonameIndex, insert_provider, set_requires, get_requires,
}
use samad_package_manager.Index.Provided.{provided, provided-insert_provider, provided-set_requires}
use samad_package_manager.Index.Sam.{RepoIndexRecord}

-- split('(').next() is the text before the first parenthesis.
unfoldable pub clean_cap : Str → Option Str
unfolding trim starts_with str_eq take_while
clean_cap val =
    let v : Str = trim val in
    let cleaned : Str = trim (take_while (λ c. not (c == b'(')) v) in
    if is_empty v || starts_with v (codes "rpmlib(") || str_eq v (codes "rtld(GNU_HASH)")
    then none
    else if is_empty cleaned
    then none
    else some cleaned

unfoldable pub is_soname : Str → Bool
unfolding contains starts_with
is_soname val =
    contains val (codes ".so.") || (starts_with val (codes "lib") && contains val (codes ".so"))

abbrev cons_some : Option Str → List Str → List Str
cons_some none ds = ds
cons_some (some d) ds = d ∷ ds

unfoldable pub clean_deps : List Str → List Str
unfolding clean_cap
clean_deps [] = []
clean_deps (d ∷ ds) = cons_some (clean_cap d) (clean_deps ds)

-- The three maps that the loop over the records fills.
pub record Tables : Type 0 where
  pub cap_providers : List (Str × List Str)
  pub pkg_requires : List (Str × List Str)
  pub pkg_version : List (Str × Str)

abbrev pub no_tables : Tables
no_tables = record { cap_providers = []; pkg_requires = []; pkg_version = [] }

abbrev list_at : Option (List Str) → List Str
list_at none = []
list_at (some ds) = ds

-- entry().or_default().push
unfoldable pub push_at : Str → Str → List (Str × List Str) → List (Str × List Str)
push_at k v [] = (k, v ∷ []) ∷ []
push_at k v ((j, vs) ∷ m) =
    let rest = push_at k v m in if str_eq j k then (j, vs ++ v ∷ []) ∷ m else (j, vs) ∷ rest

abbrev push_caps : Str → List Str → List (Str × List Str) → List (Str × List Str)
unfolding push_at
push_caps name [] m = m
push_caps name (s ∷ ss) m = push_caps name ss (push_at s name m)

abbrev insert_nonempty : Str → List Str → List (Str × List Str) → List (Str × List Str)
unfolding insert
insert_nonempty name [] m = m
insert_nonempty name (d ∷ ds) m = insert name (d ∷ ds) m

unfoldable pub collect : List RepoIndexRecord → Tables → Tables
unfolding insert insert_nonempty push_caps clean_deps
collect [] t = t
collect (r ∷ rs) t = collect rs (record {
  pkg_version = insert r.name r.version t.pkg_version;
  pkg_requires = insert_nonempty r.name (clean_deps r.dependencies) t.pkg_requires;
  cap_providers = push_caps r.name r.provides_soname t.cap_providers;
})

-- unwrap_or_default
abbrev pub version_or : Option Str → Str
version_or none = []
version_or (some v) = v

module _ (repo_name : Str) (config : RepoConfig) where
  unfoldable pub rpm_provider : Str → Str → SonameProvider
  unfolding effective_priority
  rpm_provider name version = record {
    source = RepoSource.rpm;
    repo = repo_name;
    pkg = name;
    version = version;
    priority = effective_priority config;
  }

  module _ (tables : Tables) where
    unfoldable pub version_of : Str → Str
    unfolding lookup
    version_of name = version_or (lookup name tables.pkg_version)

    unfoldable pub requires_of : Str → List Str
    unfolding lookup
    requires_of name = list_at (lookup name tables.pkg_requires)

    unfoldable pub soname_requires : Str → Str → List Str
    unfolding is_soname requires_of
    soname_requires cap name = if is_soname cap then keep is_soname (requires_of name) else []

    -- Requirements are set where there are some and the name has none.
    unfoldable pub set_missing : Str → List Str → Option (List Str) → SonameIndex → SonameIndex
    unfolding set_requires
    set_missing cap [] old index = index
    set_missing cap (d ∷ ds) none index = set_requires index cap (d ∷ ds)
    set_missing cap (d ∷ ds) (some []) index = set_requires index cap (d ∷ ds)
    set_missing cap (d ∷ ds) (some (e ∷ es)) index = index

    -- The loop over the packages that provide one capability.
    unfoldable pub register_cap : Str → List Str → SonameIndex → SonameIndex
    unfolding set_missing soname_requires insert_provider get_requires version_of
    register_cap cap [] index = index
    register_cap cap (name ∷ names) index =
        let more : SonameIndex = insert_provider index cap (rpm_provider name (version_of name)) in
        register_cap cap names
          (set_missing cap (soname_requires cap name) (get_requires more cap) more)

    unfoldable pub register_caps : List (Str × List Str) → SonameIndex → SonameIndex
    unfolding register_cap
    register_caps [] index = index
    register_caps ((cap, names) ∷ m) index = register_caps m (register_cap cap names index)

    abbrev set_some : Str → List Str → SonameIndex → SonameIndex
    unfolding set_requires
    set_some name [] index = index
    set_some name (d ∷ ds) index = set_requires index name (d ∷ ds)

    -- The loop over the names of the packages. Each name comes once, so that taking its
    -- requirements out of the map is reading them.
    unfoldable pub register_packages : List (Str × Str) → SonameIndex → SonameIndex
    unfolding set_some requires_of insert_provider
    register_packages [] index = index
    register_packages ((name, version) ∷ m) index =
        register_packages m (
          set_some name (requires_of name) (insert_provider index name (rpm_provider name version)))

  unfoldable pub update_index : Option (List RepoIndexRecord) → SonameIndex → Bool × SonameIndex
  unfolding collect register_caps register_packages
  update_index none index = (false, index)
  update_index (some packages) index =
      let tables : Tables = collect packages no_tables in
      (
        true,
        register_packages tables tables.pkg_version
            (register_caps tables tables.cap_providers index),
      )
