-- ===== src/Index/Rpm/Providers.antt =====
-- What the loops over the maps of an RPM repository add to the providers in the index.
use samad_package_manager.Common.{
  ◌≡◌, refl, ◌∙◌, Bool, ◌&&◌, ◌||◌, Option, none, some, List, [], ◌∷◌, ◌++◌, Str, any, mem, str_eq,
  eq_of_str_eq, arith,
}
use samad_package_manager.Package.Repo.{RepoConfig}
use samad_package_manager.Index.{SonameProvider, SonameIndex, insert_provider, get_requires}
use samad_package_manager.Index.Provided.{provided, provided-insert_provider, provided-set_requires}
use samad_package_manager.Index.Sam.{RepoIndexRecord}
use samad_package_manager.Index.Rpm.{
  Tables, push_at, push_caps, collect, rpm_provider, version_of, requires_of, soname_requires,
  set_missing, register_cap, register_caps, set_some, register_packages,
}

module _ (u : Str → Bool) where
  any-append : (ps qs : List Str) → any u (ps ++ qs) ≡ (any u ps || any u qs)
  any-append [] qs = refl
  any-append (p ∷ ps) qs = ground (arith, any-append ps qs)

  -- A list of the map under the name has an entry that passes the test.
  abbrev pub under : Str → List (Str × List Str) → Bool
  unfolding str_eq
  under s m = any (λ e. str_eq (e.0) s && any u (e.1)) m

  push_at-under :
      (k v s : Str) (m : List (Str × List Str))
      → under s (push_at k v m) ≡ (under s m || (str_eq k s && u v))
  unfolding push_at under
  push_at-under k v s [] = ground arith
  push_at-under k v s ((j, vs) ∷ m) =
      ground (arith, push_at-under k v s m, any-append vs (v ∷ []), eq_of_str_eq j k)

  push_caps-under :
      (v s : Str) (ss : List Str) (m : List (Str × List Str))
      → under s (push_caps v ss m) ≡ (under s m || (mem s ss && u v))
  unfolding push_caps mem
  push_caps-under v s [] m = ground arith
  push_caps-under v s (k ∷ ss) m =
      push_caps-under v s ss (push_at k v m) ∙ rw (push_at-under k v s m) (ground arith)

  pub collect-under :
      (s : Str) (rs : List RepoIndexRecord) (t : Tables)
      → under s (collect rs t).cap_providers
        ≡ (under s t.cap_providers || any (λ r. mem s r.provides_soname && u r.name) rs)
  unfolding collect
  collect-under s [] t = ground arith
  collect-under s (r ∷ rs) t =
      collect-under s rs _
      ∙ rw (push_caps-under r.name s r.provides_soname t.cap_providers) (ground arith)

module _ (repo_name : Str) (config : RepoConfig) (t : SonameProvider → Bool) where
  -- The package passes the test with the version that counts.
  abbrev pub passes : Tables → Str → Bool
  passes tables name =
      t (rpm_provider repo_name config name (version_of repo_name config tables name))

  module _ (tables : Tables) where
    set_missing-provided :
        (k s : Str) (ds : List Str) (old : Option (List Str)) (i : SonameIndex)
        → provided (set_missing repo_name config tables k ds old i) s t ≡ provided i s t
    unfolding set_missing
    set_missing-provided k s [] old i = refl
    set_missing-provided k s (d ∷ ds) none i = provided-set_requires t i k s (d ∷ ds)
    set_missing-provided k s (d ∷ ds) (some []) i = provided-set_requires t i k s (d ∷ ds)
    set_missing-provided k s (d ∷ ds) (some (e ∷ es)) i = refl

    register_cap-provided :
        (cap s : Str) (names : List Str) (i : SonameIndex)
        → provided (register_cap repo_name config tables cap names i) s t
          ≡ (provided i s t || (str_eq cap s && any (passes tables) names))
    unfolding register_cap
    register_cap-provided cap s [] i = ground arith
    register_cap-provided cap s (name ∷ names) i =
        let p : SonameProvider =
          rpm_provider repo_name config name (version_of repo_name config tables name) in
        let more : SonameIndex = insert_provider i cap p in
        register_cap-provided cap s names (
          set_missing repo_name config tables cap (soname_requires repo_name config tables cap name)
            (get_requires more cap) more)
        ∙ rw
            (
              set_missing-provided cap s (soname_requires repo_name config tables cap name)
                  (get_requires more cap) more,
              provided-insert_provider t i cap s p,
            )
            (ground arith)

    pub register_caps-provided :
        (s : Str) (m : List (Str × List Str)) (i : SonameIndex)
        → provided (register_caps repo_name config tables m i) s t
          ≡ (provided i s t || under (passes tables) s m)
    unfolding register_caps under
    register_caps-provided s [] i = ground arith
    register_caps-provided s ((cap, names) ∷ m) i =
        register_caps-provided s m (register_cap repo_name config tables cap names i)
        ∙ rw (register_cap-provided cap s names i) (ground arith)

    set_some-provided :
        (k s : Str) (ds : List Str) (i : SonameIndex)
        → provided (set_some repo_name config tables k ds i) s t ≡ provided i s t
    unfolding set_some
    set_some-provided k s [] i = refl
    set_some-provided k s (d ∷ ds) i = provided-set_requires t i k s (d ∷ ds)

    pub register_packages-provided :
        (s : Str) (m : List (Str × Str)) (i : SonameIndex)
        → provided (register_packages repo_name config tables m i) s t ≡ (
            provided i s t
            || any (λ e. str_eq (e.0) s && t (rpm_provider repo_name config (e.0) (e.1))) m)
    unfolding register_packages
    register_packages-provided s [] i = ground arith
    register_packages-provided s ((name, version) ∷ m) i =
        let more : SonameIndex =
          insert_provider i name (rpm_provider repo_name config name version) in
        register_packages-provided s m
          (set_some repo_name config tables name (requires_of repo_name config tables name) more)
        ∙ rw
            (
              set_some-provided name s (requires_of repo_name config tables name) more,
              provided-insert_provider t i name s (rpm_provider repo_name config name version),
            )
            (ground arith)
