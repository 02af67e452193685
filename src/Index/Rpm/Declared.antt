-- ===== src/Index/Rpm/Declared.antt =====
-- The providers of an RPM repository after an update, by its records.
use samad_package_manager.Common.{
  ◌≡◌, refl, subst, ap, ◌∙◌, inl, inr, Bool, true, false, ◌&&◌, ◌||◌, Option, none, some, List, [],
  ◌∷◌, Str, any, mem, str_eq, eq_of_str_eq, str_eq_refl, arith, Bool-cases, Option-cases,
  if◌then◌else◌,
}
use samad_package_manager.Common.Assoc.{lookup, insert, keys, lookup-insert}
use samad_package_manager.Common.Members.{unique}
use samad_package_manager.Package.Repo.{RepoConfig}
use samad_package_manager.Index.{SonameProvider, SonameIndex}
use samad_package_manager.Index.Provided.{provided}
use samad_package_manager.Index.Sam.{RepoIndexRecord}
use samad_package_manager.Index.Rpm.{
  Tables, no_tables, collect, rpm_provider, version_or, version_of, register_caps, update_index,
}
use samad_package_manager.Index.Rpm.Providers.{
  passes, collect-under, register_caps-provided, register_packages-provided,
}

-- The version of the last record of a name.
unfoldable pub last_version : Str → List RepoIndexRecord → Option Str
unfolding str_eq
last_version n [] = none
last_version n (r ∷ rs) = elim (last_version n rs) [
  | some v ↦ some v
  | none ↦ if str_eq r.name n then some r.version else none
]

abbrev or_before : Option Str → Option Str → Option Str
or_before none old = old
or_before (some v) old = some v

or_none : (o : Option Str) → or_before o none ≡ o
or_none none = refl
or_none (some v) = refl

collect-version :
    (n : Str) (rs : List RepoIndexRecord) (t : Tables)
    → lookup n (collect rs t).pkg_version ≡ or_before (last_version n rs) (lookup n t.pkg_version)
unfolding collect last_version
collect-version n [] t = refl
collect-version n (r ∷ rs) t = collect-version n rs _ ∙ elim (Option-cases (last_version n rs)) [
  | inr (v, e) ↦ rw e refl
  | inl e ↦
      rw (e, lookup-insert r.name n r.version t.pkg_version)
        (elim (Bool-cases (str_eq r.name n)) [ inl q ↦ rw q refl | inr q ↦ rw q refl ])
]

-- A map has no key twice.
mem-insert :
    (k n v : Str) (m : List (Str × Str))
    → mem n (keys (insert k v m)) ≡ (mem n (keys m) || str_eq k n)
unfolding insert mem
mem-insert k n v [] = ground arith
mem-insert k n v ((j, w) ∷ m) = ground (arith, mem-insert k n v m, eq_of_str_eq j k, str_eq_refl k)

unique-insert :
    (k v : Str) (m : List (Str × Str))
    → unique (keys m) ≡ true
    → unique (keys (insert k v m)) ≡ true
unfolding insert unique mem
unique-insert k v [] h = refl
unique-insert k v ((j, w) ∷ m) h =
    ground (arith, h, unique-insert k v m, mem-insert k j v m, eq_of_str_eq k j, str_eq_refl k)

collect-unique :
    (rs : List RepoIndexRecord) (t : Tables)
    → unique (keys t.pkg_version) ≡ true
    → unique (keys (collect rs t).pkg_version) ≡ true
unfolding collect
collect-unique [] t h = h
collect-unique (r ∷ rs) t h = collect-unique rs _ (unique-insert r.name r.version t.pkg_version h)

abbrev pub at : (Str → Bool) → Option Str → Bool
at u none = false
at u (some v) = u v

any-absent :
    (s : Str) (u : Str → Str → Bool) (m : List (Str × Str))
    → mem s (keys m) ≡ false
    → any (λ e. str_eq (e.0) s && u (e.0) (e.1)) m ≡ false
unfolding mem
any-absent s u [] h = refl
any-absent s u ((k, v) ∷ m) h = ground (arith, h, any-absent s u m)

-- Of distinct keys one at most is the name.
any-lookup :
    (s : Str) (u : Str → Str → Bool) (m : List (Str × Str))
    → unique (keys m) ≡ true
    → any (λ e. str_eq (e.0) s && u (e.0) (e.1)) m ≡ at (u s) (lookup s m)
unfolding lookup unique
any-lookup s u [] h = refl
any-lookup s u ((k, v) ∷ m) h = elim (Bool-cases (str_eq k s)) [
  | inl e ↦
      let q : k ≡ s = eq_of_str_eq k s e in
      let absent = any-absent s u m (subst (λ x. mem x (keys m) ≡ false) q (ground (arith, h))) in
      rw (e, absent, ap (λ x. u x v) q) (ground arith)
  | inr e ↦ rw e (any-lookup s u m (ground (arith, h)))
]

module _ (repo_name : Str) (config : RepoConfig) (t : SonameProvider → Bool) where
  -- The package, in the version of its last record, is of the kind.
  unfoldable pub offers : List RepoIndexRecord → Str → Bool
  unfolding last_version
  offers packages name =
      t (rpm_provider repo_name config name (version_or (last_version name packages)))

  passes-offers :
      (packages : List RepoIndexRecord) (name : Str)
      → passes repo_name config t (collect packages no_tables) name ≡ offers packages name
  unfolding version_of offers lookup
  passes-offers packages name =
      ap (λ o. t (rpm_provider repo_name config name (version_or o)))
        (collect-version name packages no_tables ∙ or_none (last_version name packages))

  -- A record goes by each soname that it declares.
  any-offers :
      (s : Str) (all rs : List RepoIndexRecord)
      → any
          (λ r. mem s r.provides_soname && passes repo_name config t (collect all no_tables) r.name)
          rs
        ≡ any (λ r. mem s r.provides_soname && offers all r.name) rs
  any-offers s all [] = refl
  any-offers s all (r ∷ rs) = rw (any-offers s all rs, passes-offers all r.name) refl

  -- After an update with the records of an RPM repository a name has a provider of some kind
  -- exactly if it had one before, if a record declares it as a soname and the package of the record
  -- is of that kind in the version of the last record with its name, or if it is the name of a
  -- record and the version of the last one with this name is of that kind.
  pub update_index-declared :
      (packages : List RepoIndexRecord) (i : SonameIndex) (s : Str)
      → provided ((update_index repo_name config (some packages) i).1) s t ≡ (
          provided i s t
          || any (λ r. mem s r.provides_soname && offers packages r.name) packages
          || at (λ v. t (rpm_provider repo_name config s v)) (last_version s packages))
  unfolding update_index unique
  update_index-declared packages i s =
      let tables : Tables = collect packages no_tables in
      register_packages-provided repo_name config t tables s tables.pkg_version
        (register_caps repo_name config tables tables.cap_providers i)
      ∙ rw
          (
            register_caps-provided repo_name config t tables s tables.cap_providers i,
            collect-under (passes repo_name config t tables) s packages no_tables,
            any-offers s packages packages,
            any-lookup s (λ k v. t (rpm_provider repo_name config k v)) tables.pkg_version
                (collect-unique packages no_tables refl),
            collect-version s packages no_tables,
            or_none (last_version s packages),
          )
          (ground arith)
