-- ===== src/Index/Deb/Registered.antt =====
-- Which packages of a Debian repository the index knows after an update.
use samad_package_manager.Common.{
  ◌≡◌, refl, ap, ◌∙◌, inl, inr, Bool, true, false, ◌&&◌, ◌||◌, Option, none, some, List, [], ◌∷◌,
  Str, any, str_eq, str_eq_refl, arith, Bool-cases,
}
use samad_package_manager.Common.Assoc.{lookup}
use samad_package_manager.Package.{RepoSource, source_eq}
use samad_package_manager.Package.Repo.{RepoConfig}
use samad_package_manager.Index.{SonameProvider, SonameIndex, insert_provider, get_requires}
use samad_package_manager.Index.Provided.{provided, provided-insert_provider, provided-set_requires}
use samad_package_manager.Index.Deb.{
  DebPkgInfo, PkgMap, Listing, parse_packages, deb_provider, lacks, register, register_all,
  contents_lines, contents_line, with_packages, update_index, then_names,
}

abbrev pub readable : List (Option Str) → Bool
readable [] = true
readable (none ∷ lines) = false
readable (some l ∷ lines) = readable lines

module _ (repo_name : Str) (config : RepoConfig) where
  -- The package in this version, from this repository.
  abbrev pub is_ours : Str → Str → SonameProvider → Bool
  unfolding source_eq str_eq
  is_ours pkg version p =
      source_eq p.source RepoSource.deb
      && str_eq p.repo repo_name
      && str_eq p.pkg pkg
      && str_eq p.version version

  module _ (t : SonameProvider → Bool) where
    register-provided :
        (name pkg : Str) (info : DebPkgInfo) (index : SonameIndex) (s : Str)
        → provided (register repo_name config name pkg info index) s t ≡ (
            provided index s t
            || (str_eq name s && t (deb_provider repo_name config pkg info.version)))
    unfolding register
    register-provided name pkg info index s =
        let p : SonameProvider = deb_provider repo_name config pkg info.version in
        elim (Bool-cases
          (lacks repo_name config (get_requires (insert_provider index name p) name))) [
            | inl e ↦ rw e (
                provided-set_requires t (insert_provider index name p) name s info.deps
                ∙ provided-insert_provider t index name s p)
            | inr e ↦ rw e (provided-insert_provider t index name s p)
          ]

    abbrev registers : Str → PkgMap → Bool
    unfolding str_eq
    registers s m =
        any (λ e. str_eq (e.0) s && t (deb_provider repo_name config (e.0) e.1.version)) m

    register_all-provided :
        (m : PkgMap) (index : SonameIndex) (s : Str)
        → provided (register_all repo_name config m index) s t
          ≡ (provided index s t || registers s m)
    unfolding register_all registers
    register_all-provided [] index s = ground arith
    register_all-provided ((pkg, info) ∷ m) index s =
        register_all-provided m (register repo_name config pkg pkg info index) s
        ∙ rw (register-provided pkg pkg info index s) (ground arith)

  is_ours-provider :
      (k pkg : Str) (v info : DebPkgInfo)
      → str_eq k pkg ≡ true
      → v ≡ info
      → is_ours pkg info.version (deb_provider repo_name config k v.version) ≡ true
  unfolding is_ours source_eq deb_provider
  is_ours-provider k pkg v info e q =
      let w : str_eq v.version info.version ≡ true =
        ap (λ x. str_eq x.version info.version) q ∙ str_eq_refl info.version in
      rw (str_eq_refl repo_name, e, w) refl

  registers-found :
      (m : PkgMap) (pkg : Str) (info : DebPkgInfo)
      → lookup pkg m ≡ some info
      → registers (is_ours pkg info.version) pkg m ≡ true
  unfolding lookup registers
  registers-found [] pkg info h = cc
  registers-found ((k, v) ∷ m) pkg info h = elim (Bool-cases (str_eq k pkg)) [
    | inl e ↦
        let q : v ≡ info = ground (arith, h, e) in rw (is_ours-provider k pkg v info e q, e) refl
    | inr e ↦ rw e (registers-found m pkg info (ground (arith, h, e)))
  ]

  contents_lines-readable :
      (m : PkgMap) (lines : List (Option Str)) (index : SonameIndex)
      → readable lines ≡ true
      → (contents_lines repo_name config m lines index).0 ≡ true
  unfolding contents_lines
  contents_lines-readable m [] index h = refl
  contents_lines-readable m (none ∷ lines) index h = cc
  contents_lines-readable m (some l ∷ lines) index h =
      contents_lines-readable m lines (contents_line repo_name config m l index) h

  names-provided :
      (m : PkgMap) (r : Bool × SonameIndex) (pkg : Str) (info : DebPkgInfo)
      → r.0 ≡ true
      → lookup pkg m ≡ some info
      → ((then_names repo_name config m r).0 ≡ true)
        × (provided ((then_names repo_name config m r).1) pkg (is_ours pkg info.version) ≡ true)
  unfolding then_names
  names-provided m (false, index) pkg info e h = cc
  names-provided m (true, index) pkg info e h = (
    refl,
    register_all-provided (is_ours pkg info.version) m index pkg
        ∙ rw (registers-found m pkg info h) (ground arith),
  )

  with_packages-provided :
      (lines : List (Option Str)) (m : PkgMap) (index : SonameIndex) (pkg : Str) (info : DebPkgInfo)
      → readable lines ≡ true
      → lookup pkg m ≡ some info
      → let r = with_packages repo_name config (some lines) (some m) index in
        (r.0 ≡ true) × (provided (r.1) pkg (is_ours pkg info.version) ≡ true)
  unfolding with_packages lookup
  with_packages-provided lines [] index pkg info h k = cc
  with_packages-provided lines (e ∷ m) index pkg info h k =
      names-provided (e ∷ m) (contents_lines repo_name config (e ∷ m) lines index) pkg info
        (contents_lines-readable (e ∷ m) lines index h) k

  with_packages-none :
      (m : PkgMap) (index : SonameIndex)
      → with_packages repo_name config none (some m) index ≡ (true, index)
  unfolding with_packages
  with_packages-none [] index = refl
  with_packages-none (e ∷ m) index = refl

  -- An update of the index with a directory that holds the packages `m` succeeds where the file
  -- Contents can be read, and then every package of `m` is provided under its name in its version
  -- by the repository; without the file Contents the update succeeds too and the index is as it was,
  -- so that none of the packages comes into it.
  pub update_index-provided :
      (files : Option Listing) (lines : List (Option Str)) (m : PkgMap) (index : SonameIndex)
      (pkg : Str) (info : DebPkgInfo)
      → parse_packages files ≡ some m
      → readable lines ≡ true
      → lookup pkg m ≡ some info
      → let r = update_index repo_name config true files (some lines) index in
        (r.0 ≡ true)
        × (provided (r.1) pkg (is_ours pkg info.version) ≡ true)
        × (update_index repo_name config true files none index ≡ (true, index))
  unfolding update_index
  update_index-provided files lines m index pkg info h k l =
      let w = with_packages-provided lines m index pkg info k l in
      (rw h (w.0), rw h (w.1), rw h (with_packages-none m index))
