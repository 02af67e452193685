-- ===== src/Sync/Installed.antt =====
-- What sync_system leaves installed where no statement fails and no files are asked for.
use samad_package_manager.Common.{
  ℕ, ◌≡◌, refl, ◌∙◌, inl, inr, Bool, true, false, not, ◌&&◌, ◌||◌, Option, none, some, List, [],
  ◌∷◌, map, Str, mem, arith, Bool-cases, if◌then◌else◌,
}
use samad_package_manager.Db.{Db, InstalledPackage, foreign, origin_eq}
use samad_package_manager.Db.Packages.{
  get_installed_package, add_installed_package, get_all_installed_package_names, distinct,
  count_packages_by_origin,
}
use samad_package_manager.Daemon.Deploy.{ok, connect, exec, and_then, pure}
use samad_package_manager.Sync.{
  System, file_list, foreign_package, format_of, system_pkgs, import_all, import_files, prune_all,
  prune_found, sync_body, sync_system,
}
use samad_package_manager.Sync.Pruned.{
  names, stale, imports, prunes, pruned, mem-distinct, imports-names, imports-stale, prunes-names,
}

module _ (system : System) (now : Str) where
  import_all-imports :
      (spm_names : List Str) (qs : List (Str × Str)) (d : Db)
      → import_all system now false spm_names qs (connect d [])
        ≡ (ok tt, connect (imports (format_of system) now spm_names qs d) [])
  unfolding import_all imports exec and_then pure import_files file_list
  import_all-imports spm_names [] d = refl
  import_all-imports spm_names (q ∷ qs) d = elim (Bool-cases (mem (q.0) spm_names)) [
    | inl e ↦ rw e (import_all-imports spm_names qs d)
    | inr e ↦ rw e (
        import_all-imports spm_names qs
          (add_installed_package d (foreign_package (format_of system) now q)))
  ]

  found-pruned :
      (m : Str) (d : Db) (o : Option InstalledPackage)
      → get_installed_package d m ≡ o
      → prune_found system now false m o (connect d []) ≡ (ok tt, connect (pruned m d) [])
  unfolding prune_found pruned exec pure
  found-pruned m d none h = rw h refl
  found-pruned m d (some p) h = elim (Bool-cases (origin_eq p.origin foreign)) [
    | inl e ↦ rw (h, e) refl
    | inr e ↦ rw (h, e) refl
  ]

  prune_all-prunes :
      (sys ms : List Str) (d : Db)
      → prune_all system now false sys ms (connect d []) ≡ (ok tt, connect (prunes sys ms d) [])
  unfolding prune_all prunes exec and_then pure
  prune_all-prunes sys [] d = refl
  prune_all-prunes sys (m ∷ ms) d = elim (Bool-cases (mem m sys)) [
    | inl e ↦ rw e (prune_all-prunes sys ms d)
    | inr e ↦
        rw (e, found-pruned m d (get_installed_package d m) refl)
          (prune_all-prunes sys ms (pruned m d))
  ]

  -- The system has the name.
  abbrev pub there : Str → Bool
  unfolding system_pkgs mem
  there n = mem n (map (λ q. q.0) (system_pkgs system))

  imported : Db → Db
  unfolding imports system_pkgs get_all_installed_package_names
  imported d =
      imports (format_of system) now (get_all_installed_package_names d) (system_pkgs system) d

  synced : Bool → Db → Db
  unfolding prunes imported system_pkgs get_all_installed_package_names
  synced prune d =
      if prune
      then prunes (map (λ q. q.0) (system_pkgs system)) (get_all_installed_package_names d)
          (imported d)
      else imported d

  sync_system-synced :
      (prune : Bool) (d : Db)
      → (system.has_dpkg || system.has_rpm) ≡ true
      → sync_system system now false prune (connect d [])
        ≡ (ok (count_packages_by_origin (synced prune d)), connect (synced prune d) [])
  unfolding sync_system sync_body exec and_then pure synced imported
  sync_system-synced true d h =
      rw
        (
          h,
          import_all-imports (get_all_installed_package_names d) (system_pkgs system) d,
          prune_all-prunes (map (λ q. q.0) (system_pkgs system)) (get_all_installed_package_names d)
              (imported d),
        )
        refl
  sync_system-synced false d h =
      rw (h, import_all-imports (get_all_installed_package_names d) (system_pkgs system) d) refl

  imported-names : (d : Db) (n : Str) → mem n (names (imported d)) ≡ (there n || mem n (names d))
  unfolding imported get_all_installed_package_names
  imported-names d n =
      imports-names (format_of system) now (distinct (names d)) (system_pkgs system) n d
      ∙ rw (mem-distinct n (names d)) (ground arith)

  imported-stale : (d : Db) (n : Str) → there n ≡ false → stale (imported d) n ≡ stale d n
  unfolding imported
  imported-stale d n h =
      imports-stale (format_of system) now (get_all_installed_package_names d) (system_pkgs system)
        n d h

  synced-names :
      (prune : Bool) (d : Db) (n : Str)
      → mem n (names (synced prune d))
        ≡ (there n || (mem n (names d) && not (prune && not (there n) && stale d n)))
  unfolding synced get_all_installed_package_names
  synced-names false d n = imported-names d n ∙ ground arith
  synced-names true d n =
      prunes-names (map (λ q. q.0) (system_pkgs system)) (distinct (names d)) n (imported d)
      ∙ rw (imported-names d n, mem-distinct n (names d))
          (elim (Bool-cases (there n)) [
            | inl e ↦ rw e (ground arith)
            | inr e ↦ rw (e, imported-stale d n e) (ground arith)
          ])

  -- Where no statement fails, a synchronization without files of a host with dpkg or rpm succeeds,
  -- and a name is installed afterwards exactly if the system has it, or if it was installed before
  -- and it is not pruned: pruning takes the names whose row came from another package manager.
  pub sync_system-names :
      (prune : Bool) (d : Db) (n : Str)
      → (system.has_dpkg || system.has_rpm) ≡ true
      → let r = sync_system system now false prune (connect d []) in
        (counts : ℕ × ℕ) × (r.0 ≡ ok counts)
        × (mem n (names r.1.db)
            ≡ (there n || (mem n (names d) && not (prune && not (there n) && stale d n))))
  sync_system-names prune d n h = (
    count_packages_by_origin (synced prune d),
    rw (sync_system-synced prune d h) refl,
    rw (sync_system-synced prune d h) (synced-names prune d n),
  )
