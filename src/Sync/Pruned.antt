-- ===== src/Sync/Pruned.antt =====
-- The names that the loops of a synchronization without files leave in the tables.
use samad_package_manager.Common.{
  ◌≡◌, refl, sym, ap, ◌∙◌, inl, inr, subst, Bool, false, not, ◌&&◌, ◌||◌, Option, none, some, List,
  [], ◌∷◌, ◌++◌, map, Str, mem, str_eq, keep, arith, Bool-cases, eq_of_str_eq, str_eq_refl,
  if◌then◌else◌,
}
use samad_package_manager.Common.Members.{mem-keep_others}
use samad_package_manager.Package.{PackageFormat, deb, rpm, sam}
use samad_package_manager.Db.{Db, InstalledPackage, foreign, origin_eq}
use samad_package_manager.Db.Packages.{
  has_key, get_installed_package, add_installed_package, remove_installed_package, distinct,
}
use samad_package_manager.Sync.{foreign_package}

abbrev pub names : Db → List Str
names d = map (λ p. p.name) d.installed_packages

abbrev pub is_foreign : Option InstalledPackage → Bool
is_foreign none = false
is_foreign (some p) = origin_eq p.origin foreign

-- The row that the name is looked up as comes from another package manager.
abbrev pub stale : Db → Str → Bool
unfolding get_installed_package
stale d n = is_foreign (get_installed_package d n)

pub mem-distinct : (n : Str) (xs : List Str) → mem n (distinct xs) ≡ mem n xs
unfolding mem distinct
mem-distinct n [] = refl
mem-distinct n (x ∷ xs) = ground (arith, mem-keep_others n x (distinct xs), mem-distinct n xs)

-- The rows of other names.
module _ (m n : Str) where
  keep-removed :
      (f : PackageFormat) (ps : List InstalledPackage)
      → str_eq m n ≡ false
      → keep (has_key n f) (keep (λ p. not (str_eq p.name m)) ps) ≡ keep (has_key n f) ps
  keep-removed f [] h = refl
  keep-removed f (p ∷ ps) h =
      ground (arith, keep-removed f ps h, eq_of_str_eq p.name m, eq_of_str_eq p.name n)

  stale-removed : (d : Db) → str_eq m n ≡ false → stale (remove_installed_package d m) n ≡ stale d n
  unfolding get_installed_package remove_installed_package
  stale-removed d h =
      rw
        (
          keep-removed deb d.installed_packages h,
          keep-removed rpm d.installed_packages h,
          keep-removed sam d.installed_packages h,
        )
        refl

  names-removed :
      (ps : List InstalledPackage)
      → mem n (map (λ p. p.name) (keep (λ p. not (str_eq p.name m)) ps))
        ≡ (mem n (map (λ p. p.name) ps) && not (str_eq m n))
  unfolding mem
  names-removed [] = refl
  names-removed (p ∷ ps) = ground (
    arith,
    names-removed ps,
    eq_of_str_eq p.name m,
    eq_of_str_eq p.name n,
    eq_of_str_eq m n,
    str_eq_refl n,
  )

module _ (format : PackageFormat) (now : Str) where
  names-added :
      (q : Str × Str) (n : Str) (ps : List InstalledPackage)
      → mem n (
          map
            (λ p. p.name)
            (keep (λ p. not (has_key (q.0) format p)) ps ++ foreign_package format now q ∷ []))
        ≡ (mem n (map (λ p. p.name) ps) || str_eq (q.0) n)
  unfolding mem foreign_package
  names-added q n [] = ground arith
  names-added q n (p ∷ ps) =
      ground (arith, names-added q n ps, eq_of_str_eq p.name (q.0), str_eq_refl n)

  keep-added :
      (q : Str × Str) (n : Str) (f : PackageFormat) (ps : List InstalledPackage)
      → str_eq (q.0) n ≡ false
      → keep
          (has_key n f)
          (keep (λ p. not (has_key (q.0) format p)) ps ++ foreign_package format now q ∷ [])
        ≡ keep (has_key n f) ps
  unfolding foreign_package
  keep-added q n f [] h = ground (arith, h)
  keep-added q n f (p ∷ ps) h =
      ground (arith, keep-added q n f ps h, eq_of_str_eq p.name (q.0), eq_of_str_eq p.name n)

  -- The packages that are not there yet, as one change of the tables.
  unfoldable pub imports : List Str → List (Str × Str) → Db → Db
  unfolding add_installed_package mem
  imports spm_names [] d = d
  imports spm_names (q ∷ qs) d =
      imports spm_names qs
        (if mem (q.0) spm_names then d else add_installed_package d (foreign_package format now q))

  stale-added :
      (q : Str × Str) (n : Str) (d : Db)
      → str_eq (q.0) n ≡ false
      → stale (add_installed_package d (foreign_package format now q)) n ≡ stale d n
  unfolding get_installed_package add_installed_package foreign_package
  stale-added q n d h =
      rw
        (
          keep-added q n deb d.installed_packages h,
          keep-added q n rpm d.installed_packages h,
          keep-added q n sam d.installed_packages h,
        )
        refl

  pub imports-names :
      (spm_names : List Str) (qs : List (Str × Str)) (n : Str) (d : Db)
      → mem n (names (imports spm_names qs d))
        ≡ (mem n (names d) || (mem n (map (λ q. q.0) qs) && not (mem n spm_names)))
  unfolding mem imports add_installed_package foreign_package str_eq
  imports-names spm_names [] n d = ground arith
  imports-names spm_names (q ∷ qs) n d =
      imports-names spm_names qs n
        (if mem (q.0) spm_names then d else add_installed_package d (foreign_package format now q))
      ∙ elim (Bool-cases (mem (q.0) spm_names)) [
        | inl e ↦ rw e (ground (arith, eq_of_str_eq (q.0) n, e))
        | inr e ↦
            rw (e, names-added q n d.installed_packages) (ground (arith, eq_of_str_eq (q.0) n, e))
      ]

  pub imports-stale :
      (spm_names : List Str) (qs : List (Str × Str)) (n : Str) (d : Db)
      → mem n (map (λ q. q.0) qs) ≡ false
      → stale (imports spm_names qs d) n ≡ stale d n
  unfolding mem imports
  imports-stale spm_names [] n d h = refl
  imports-stale spm_names (q ∷ qs) n d h =
      imports-stale spm_names qs n
        (if mem (q.0) spm_names then d else add_installed_package d (foreign_package format now q))
        (ground (arith, h))
      ∙ elim (Bool-cases (mem (q.0) spm_names)) [
        | inl e ↦ rw e refl
        | inr e ↦ rw e (stale-added q n d (ground (arith, h)))
      ]

unfoldable pub pruned : Str → Db → Db
unfolding remove_installed_package get_installed_package origin_eq
pruned n d = if stale d n then remove_installed_package d n else d

-- The stale rows of other packages, as one change of the tables.
unfoldable pub prunes : List Str → List Str → Db → Db
unfolding pruned mem
prunes system_names [] d = d
prunes system_names (m ∷ ms) d =
    prunes system_names ms (if mem m system_names then d else pruned m d)

pruned-names :
    (m n : Str) (d : Db)
    → mem n (names (pruned m d)) ≡ (mem n (names d) && not (str_eq m n && stale d n))
unfolding pruned remove_installed_package
pruned-names m n d = elim (Bool-cases (stale d m)) [
  | inl e ↦ rw e (names-removed m n d.installed_packages ∙ ground (arith, eq_of_str_eq m n, e))
  | inr e ↦ rw e (ground (arith, eq_of_str_eq m n, e))
]

pruned-stale : (m n : Str) (d : Db) → str_eq m n ≡ false → stale (pruned m d) n ≡ stale d n
unfolding pruned
pruned-stale m n d h = elim (Bool-cases (stale d m)) [
  | inl e ↦ rw e (stale-removed m n d h)
  | inr e ↦ rw e refl
]

-- A name that is not there stays away.
prunes-absent :
    (sys ms : List Str) (n : Str) (d : Db)
    → mem n (names d) ≡ false
    → mem n (names (prunes sys ms d)) ≡ false
unfolding prunes
prunes-absent sys [] n d h = h
prunes-absent sys (m ∷ ms) n d h =
    prunes-absent sys ms n (if mem m sys then d else pruned m d) (elim (Bool-cases (mem m sys)) [
      | inl e ↦ rw e h
      | inr e ↦ rw (e, pruned-names m n d, h) refl
    ])

-- One step of the loop.
unfoldable step : List Str → Str → Db → Db
unfolding mem pruned
step sys m d = if mem m sys then d else pruned m d

step-names :
    (sys : List Str) (m n : Str) (d : Db)
    → mem n (names (step sys m d))
      ≡ (mem n (names d) && not (str_eq m n && not (mem m sys) && stale d n))
unfolding step
step-names sys m n d = elim (Bool-cases (mem m sys)) [
  | inl g ↦ rw g (ground arith)
  | inr g ↦ rw (g, pruned-names m n d) (ground arith)
]

step-stale :
    (sys : List Str) (m n : Str) (d : Db) → str_eq m n ≡ false → stale (step sys m d) n ≡ stale d n
unfolding stale step
step-stale sys m n d e = elim (Bool-cases (mem m sys)) [
  | inl g ↦ rw g refl
  | inr g ↦ rw (g, pruned-stale m n d e) refl
]

step-same :
    (sys : List Str) (m : Str) (d : Db) → (not (mem m sys) && stale d m) ≡ false → step sys m d ≡ d
unfolding pruned step
step-same sys m d e = elim (Bool-cases (mem m sys)) [
  | inl g ↦ rw g refl
  | inr g ↦ let h : stale d m ≡ false = ground (arith, e, g) in rw (g, h) refl
]

prune_self :
    (sys ms : List Str) (n : Str) (d : Db)
    → mem n (names (prunes sys ms d))
      ≡ (mem n (names d) && not (mem n ms && not (mem n sys) && stale d n))
    → mem n (names (prunes sys ms (step sys n d)))
      ≡ (mem n (names d) && not ((str_eq n n || mem n ms) && not (mem n sys) && stale d n))
prune_self sys ms n d h = elim (Bool-cases (not (mem n sys) && stale d n)) [
  | inl g ↦
      prunes-absent sys ms n (step sys n d)
        (step-names sys n n d ∙ ground (arith, str_eq_refl n, g))
      ∙ ground (arith, str_eq_refl n, g)
  | inr g ↦ ap (λ x. mem n (names (prunes sys ms x))) (step-same sys n d g) ∙ h ∙ ground (arith, g)
]

pub prunes-names :
    (sys ms : List Str) (n : Str) (d : Db)
    → mem n (names (prunes sys ms d))
      ≡ (mem n (names d) && not (mem n ms && not (mem n sys) && stale d n))
unfolding mem prunes step
prunes-names sys [] n d = ground arith
prunes-names sys (m ∷ ms) n d = elim (Bool-cases (str_eq m n)) [
  | inl e ↦
      subst
        (λ k.
          mem n (names (prunes sys ms (step sys k d)))
          ≡ (mem n (names d) && not ((str_eq k n || mem n ms) && not (mem n sys) && stale d n)))
        (sym (eq_of_str_eq m n e)) (prune_self sys ms n d (prunes-names sys ms n d))
  | inr e ↦
      prunes-names sys ms n (step sys m d)
      ∙ rw (step-names sys m n d, step-stale sys m n d e, e) (ground arith)
]
