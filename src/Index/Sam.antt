-- ===== src/Index/Sam.antt =====
-- src/index/sam.rs: the packages of a native repository in the index. The JSON file of the
-- repository is read by a library: `none` is a file that is missing or is no such index.
use samad_package_manager.Common.{
  ℕ, ◌≡◌, refl, ◌∙◌, Bool, true, false, ◌&&◌, ◌||◌, Option, none, some, List, [], ◌∷◌, map, Str,
  codes, any, keep, trim, contains, starts_with, str_eq, mem, arith,
}
use samad_package_manager.Package.{RepoSource}
use samad_package_manager.Package.Repo.{RepoConfig, effective_priority}
use samad_package_manager.Index.{SonameProvider, SonameIndex, insert_provider, set_requires}
use samad_package_manager.Index.Provided.{provided, provided-insert_provider, provided-set_requires}

pub record RepoIndexRecord : Type 0 where
  pub name : Str
  pub version : Str
  pub architecture : Str
  pub description : Str
  pub dependencies : List Str
  pub provides_soname : List Str
  pub conflicts : List Str
  pub filename : Str
  pub hash : Str
  pub size : ℕ

abbrev is_soname_dep : Str → Bool
unfolding contains starts_with trim
is_soname_dep d =
    contains (trim d) (codes ".so.")
    || (starts_with (trim d) (codes "lib") && contains (trim d) (codes ".so"))

unfoldable pub soname_deps : List Str → List Str
unfolding is_soname_dep trim
soname_deps deps = map trim (keep is_soname_dep deps)

-- What a record provides: the dependencies that look like libraries, where it declares none.
unfoldable pub provides_sonames : RepoIndexRecord → List Str
unfolding soname_deps
provides_sonames r = elim r.provides_soname [ [] ↦ soname_deps r.dependencies | ◌∷◌ s ss ↦ s ∷ ss ]

module _ (repo_name : Str) (config : RepoConfig) where
  abbrev pub sam_provider : RepoIndexRecord → SonameProvider
  unfolding effective_priority
  sam_provider r = record {
    source = RepoSource.native;
    repo = repo_name;
    pkg = r.name;
    version = r.version;
    priority = effective_priority config;
  }

  abbrev set_nonempty : Str → List Str → SonameIndex → SonameIndex
  unfolding set_requires
  set_nonempty soname [] index = index
  set_nonempty soname (d ∷ ds) index = set_requires index soname (d ∷ ds)

  -- The loop over the sonames of one record.
  unfoldable pub register_sonames : RepoIndexRecord → List Str → SonameIndex → SonameIndex
  unfolding insert_provider set_nonempty soname_deps
  register_sonames r [] index = index
  register_sonames r (s ∷ ss) index =
      register_sonames r ss
        (set_nonempty s (soname_deps r.dependencies) (insert_provider index s (sam_provider r)))

  unfoldable pub register_records : List RepoIndexRecord → SonameIndex → SonameIndex
  unfolding register_sonames provides_sonames
  register_records [] index = index
  register_records (r ∷ rs) index =
      register_records rs (register_sonames r (provides_sonames r) index)

  -- The loop that registers the names of the packages.
  unfoldable pub register_names : List RepoIndexRecord → SonameIndex → SonameIndex
  unfolding insert_provider set_requires trim
  register_names [] index = index
  register_names (r ∷ rs) index = register_names rs (
      set_requires (insert_provider index r.name (sam_provider r)) r.name (map trim r.dependencies))

  unfoldable pub update_index : Option (List RepoIndexRecord) → SonameIndex → Bool × SonameIndex
  unfolding register_records register_names
  update_index none index = (false, index)
  update_index (some packages) index =
      (true, register_names packages (register_records packages index))

  -- The name is one of the package, or a soname that it provides.
  abbrev pub goes_by : RepoIndexRecord → Str → Bool
  unfolding str_eq mem provides_sonames
  goes_by r s = str_eq r.name s || mem s (provides_sonames r)

  module _ (t : SonameProvider → Bool) where
    set_nonempty-provided :
        (k s : Str) (ds : List Str) (index : SonameIndex)
        → provided (set_nonempty k ds index) s t ≡ provided index s t
    unfolding set_nonempty
    set_nonempty-provided k s [] index = refl
    set_nonempty-provided k s (d ∷ ds) index = provided-set_requires t index k s (d ∷ ds)

    register_sonames-provided :
        (r : RepoIndexRecord) (ss : List Str) (index : SonameIndex) (s : Str)
        → provided (register_sonames r ss index) s t
          ≡ (provided index s t || (mem s ss && t (sam_provider r)))
    unfolding register_sonames mem
    register_sonames-provided r [] index s = ground arith
    register_sonames-provided r (k ∷ ss) index s =
        register_sonames-provided r ss
          (set_nonempty k (soname_deps r.dependencies) (insert_provider index k (sam_provider r))) s
        ∙ rw
            (
              set_nonempty-provided k s (soname_deps r.dependencies)
                  (insert_provider index k (sam_provider r)),
              provided-insert_provider t index k s (sam_provider r),
            )
            (ground arith)

    register_records-provided :
        (rs : List RepoIndexRecord) (index : SonameIndex) (s : Str)
        → provided (register_records rs index) s t
          ≡ (provided index s t || any (λ r. mem s (provides_sonames r) && t (sam_provider r)) rs)
    unfolding register_records
    register_records-provided [] index s = ground arith
    register_records-provided (r ∷ rs) index s =
        register_records-provided rs (register_sonames r (provides_sonames r) index) s
        ∙ rw (register_sonames-provided r (provides_sonames r) index s) (ground arith)

    register_names-provided :
        (rs : List RepoIndexRecord) (index : SonameIndex) (s : Str)
        → provided (register_names rs index) s t
          ≡ (provided index s t || any (λ r. str_eq r.name s && t (sam_provider r)) rs)
    unfolding register_names
    register_names-provided [] index s = ground arith
    register_names-provided (r ∷ rs) index s =
        register_names-provided rs
          (set_requires (insert_provider index r.name (sam_provider r)) r.name
            (map trim r.dependencies))
          s
        ∙ rw
            (
              provided-set_requires t (insert_provider index r.name (sam_provider r)) r.name s
                  (map trim r.dependencies),
              provided-insert_provider t index r.name s (sam_provider r),
            )
            (ground arith)

    any-or :
        (rs : List RepoIndexRecord) (s : Str)
        → (any (λ r. mem s (provides_sonames r) && t (sam_provider r)) rs
            || any (λ r. str_eq r.name s && t (sam_provider r)) rs)
          ≡ any (λ r. goes_by r s && t (sam_provider r)) rs
    unfolding goes_by
    any-or [] s = refl
    any-or (r ∷ rs) s = ground (arith, any-or rs s)

    -- After an update with the records of a native repository a name has a provider of some kind
    -- exactly if it had one before, or if a record goes by the name and is of that kind: a record
    -- goes by its own name and by the sonames that it declares, and, where it declares none, by the
    -- sonames that it depends on.
    pub update_index-providers :
        (packages : List RepoIndexRecord) (index : SonameIndex) (s : Str)
        → provided ((update_index (some packages) index).1) s t
          ≡ (provided index s t || any (λ r. goes_by r s && t (sam_provider r)) packages)
    unfolding update_index
    update_index-providers packages index s =
        register_names-provided packages (register_records packages index) s
        ∙ rw (register_records-provided packages index s) (ground (arith, any-or packages s))
