-- ===== src/Upgrades/Orphans.antt =====
-- The packages that no installed package depends on, as dist_upgrade_packages of
-- src/package/install/upgrade.rs and autoremove_packages of src/package/install/mod.rs find them.
-- `dependencies_of` reads the names of the dependencies in a manifest, none where it is unreadable.
use samad_package_manager.Common.{
  ◌≡◌, refl, ◌∙◌, inl, inr, Bool, true, false, not, ◌&&◌, ◌||◌, Option, none, some, List, [], ◌∷◌,
  ◌++◌, Str, codes, str_eq, str_eq_refl, eq_of_str_eq, mem, any, keep, map, arith, Bool-cases,
  if◌then◌else◌,
}
use samad_package_manager.Common.Assoc.{lookup}
use samad_package_manager.Db.{InstalledPackage}

abbrev pub Dependents : Type 0
Dependents = List (Str × List Str)

-- dependents.entry(dep).or_default().push(name)
unfoldable pub push_dependent : Str → Str → Dependents → Dependents
push_dependent dep name [] = (dep, name ∷ []) ∷ []
push_dependent dep name ((d, names) ∷ m) =
    if str_eq d dep then (d, names ++ name ∷ []) ∷ m else (d, names) ∷ push_dependent dep name m

-- The loop over the dependencies of one package.
unfoldable pub push_all : List Str → Str → List Str → Dependents → Dependents
unfolding mem push_dependent
push_all all_names name [] m = m
push_all all_names name (dep ∷ deps) m =
    push_all all_names name deps (if mem dep all_names then push_dependent dep name m else m)

abbrev pub is_empty_list : Option (List Str) → Bool
is_empty_list none = true
is_empty_list (some []) = true
is_empty_list (some (x ∷ xs)) = false

module _ (dependencies_of : Str → List Str) where
  abbrev pub depends_on : InstalledPackage → List Str
  depends_on p = elim p.manifest [ none ↦ [] | some m ↦ dependencies_of m ]

  unfoldable pub collect_dependents : List Str → List InstalledPackage → Dependents → Dependents
  unfolding push_all
  collect_dependents all_names [] m = m
  collect_dependents all_names (p ∷ ps) m =
      collect_dependents all_names ps (push_all all_names p.name (depends_on p) m)

  abbrev pub is_orphan : Dependents → Str → Bool
  is_orphan m name = is_empty_list (lookup name m) && not (str_eq name (codes "spm"))

  unfoldable pub find_orphans : List InstalledPackage → List Str
  unfolding collect_dependents lookup str_eq
  find_orphans installed =
      let m : Dependents = collect_dependents (map (λ p. p.name) installed) installed [] in
      map (λ p. p.name) (keep (λ p. is_orphan m p.name) installed)

  -- One of the packages depends on the name.
  abbrev pub needed : Str → List InstalledPackage → Bool
  needed name = any (λ p. mem name (depends_on p))

module _ (name : Str) where
  push_dependent-empty :
      (dep p : Str) (m : Dependents)
      → is_empty_list (lookup name (push_dependent dep p m))
        ≡ (is_empty_list (lookup name m) && not (str_eq dep name))
  unfolding lookup push_dependent
  push_dependent-empty dep p [] = ground arith
  push_dependent-empty dep p ((d, names) ∷ m) = elim (Bool-cases (str_eq d dep)) [
    | inl e ↦
        rw (e, eq_of_str_eq d dep e)
          (elim (Bool-cases (str_eq dep name)) [
            | inl q ↦ rw q (append-empty names p)
            | inr q ↦ rw q (ground arith)
          ])
    | inr e ↦ rw e (elim (Bool-cases (str_eq d name)) [
      | inl q ↦
          rw q (ground (arith, e, eq_of_str_eq d name q, eq_of_str_eq dep name, str_eq_refl d))
      | inr q ↦ rw q (push_dependent-empty dep p m)
    ])
  ]
    where
      append-empty :
          (xs : List Str) (x : Str)
          → is_empty_list (some (xs ++ x ∷ [])) ≡ (is_empty_list (some xs) && not true)
      append-empty [] x = refl
      append-empty (y ∷ xs) x = refl

module _ (dependencies_of : Str → List Str) (name : Str) where
  push_all-empty :
      (all_names : List Str) (p : Str) (deps : List Str) (m : Dependents)
      → is_empty_list (lookup name (push_all all_names p deps m))
        ≡ (is_empty_list (lookup name m) && not (mem name deps && mem name all_names))
  unfolding push_all mem
  push_all-empty all_names p [] m = ground arith
  push_all-empty all_names p (dep ∷ deps) m = elim (Bool-cases (mem dep all_names)) [
    | inl e ↦ rw e (
        push_all-empty all_names p deps (push_dependent dep p m)
        ∙ rw (push_dependent-empty name dep p m) (ground (arith, e, eq_of_str_eq dep name)))
    | inr e ↦ rw e (push_all-empty all_names p deps m ∙ ground (arith, e, eq_of_str_eq dep name))
  ]

  collect-empty :
      (all_names : List Str) (ps : List InstalledPackage) (m : Dependents)
      → is_empty_list (lookup name (collect_dependents dependencies_of all_names ps m)) ≡ (
          is_empty_list (lookup name m)
          && not (needed dependencies_of name ps && mem name all_names))
  unfolding collect_dependents
  collect-empty all_names [] m = ground arith
  collect-empty all_names (p ∷ ps) m =
      let deps : List Str = depends_on dependencies_of p in
      collect-empty all_names ps (push_all all_names p.name deps m)
      ∙ rw (push_all-empty all_names p.name deps m) (
          both (is_empty_list (lookup name m)) (mem name deps) (needed dependencies_of name ps)
            (mem name all_names))
    where
      both : (a b c d : Bool) → ((a && not (b && d)) && not (c && d)) ≡ (a && not ((b || c) && d))
      both a b c d = ground arith

mem-map-keep :
    (f : Str → Bool) (n : Str) (ps : List InstalledPackage)
    → mem n (map (λ p. p.name) (keep (λ p. f p.name) ps)) ≡ (mem n (map (λ p. p.name) ps) && f n)
unfolding mem
mem-map-keep f n [] = refl
mem-map-keep f n (p ∷ ps) = elim (Bool-cases (str_eq p.name n)) [
  | inl e ↦ rw (eq_of_str_eq p.name n e) (ground (arith, mem-map-keep f n ps, str_eq_refl n))
  | inr e ↦ ground (arith, e, mem-map-keep f n ps)
]

-- The orphans are exactly the installed packages but spm that no installed package depends on:
-- whether the user asked for them does not count.
pub find_orphans_iff :
    (dependencies_of : Str → List Str) (installed : List InstalledPackage) (name : Str)
    → mem name (find_orphans dependencies_of installed) ≡ (
        mem name (map (λ p. p.name) installed)
        && not (needed dependencies_of name installed)
        && not (str_eq name (codes "spm")))
unfolding find_orphans
find_orphans_iff dependencies_of installed name =
    let names : List Str = map (λ p. p.name) installed in
    let m : Dependents = collect_dependents dependencies_of names installed [] in
    mem-map-keep (is_orphan dependencies_of m) name installed
    ∙ rw (collect-empty dependencies_of name names installed []) (
        orphan (mem name names) (needed dependencies_of name installed)
          (not (str_eq name (codes "spm"))))
  where
    orphan : (a b c : Bool) → (a && ((true && not (b && a)) && c)) ≡ (a && not b && c)
    orphan a b c = ground arith
