-- ===== src/Upgrades/Stuck.antt =====
-- Where dist_upgrade_packages of src/package/install/upgrade.rs and autoremove_packages of
-- src/package/install/mod.rs wait for a lock that they hold.
use samad_package_manager.Common.{
  ◌≡◌, refl, inl, inr, Bool, true, false, List, [], ◌∷◌, Str, Bool-cases,
}
use samad_package_manager.Package.Repo.{Repos}
use samad_package_manager.Db.{InstalledPackage}
use samad_package_manager.Db.Packages.{list_installed_packages}
use samad_package_manager.Daemon.Deploy.{Conn, ok, Sql}
use samad_package_manager.Upgrades.{Sources}
use samad_package_manager.Upgrades.Orphans.{find_orphans}
use samad_package_manager.Upgrades.Dist.{
  ignore, find_installed, remove_call, remove_calls, upgradable_of, to_be_removed, is_nil,
  upgrade_calls, dist_upgrade_body, dist_upgrade_packages, autoremove_body, autoremove_packages,
}
use samad_package_manager.Locks.{exclusive, Locks, returned, stuck, plain, sequence}
use samad_package_manager.Locks.Nested.{
  get_connection-stuck, with_write_lock-stuck, with_read_lock-held,
}

module _ (files_ok : Str → Bool) (user now : Str) where
  -- A removal within a call that holds the connection.
  remove_call-held :
      (name : Str) (l : Locks) (c : Conn)
      → l.connection ≡ true
      → remove_call files_ok user now name l c ≡ stuck
  unfolding remove_call sequence
  remove_call-held name l c h = rw (with_read_lock-held (plain (find_installed name)) l c h) refl

  remove_calls-held :
      (names : List Str) (l : Locks) (c : Conn)
      → l.connection ≡ true
      → is_nil names ≡ false
      → remove_calls files_ok user now names l c ≡ stuck
  unfolding remove_calls sequence ignore
  remove_calls-held [] l c h n = cc
  remove_calls-held (name ∷ names) l c h n = rw (remove_call-held name l c h) refl

upgrade_calls-plain :
    (upgrade : Str → Sql Unit) (names : List Str) (l : Locks) (c : Conn)
    → (d : Conn) × (upgrade_calls upgrade names l c ≡ returned (ok tt, d, l))
unfolding upgrade_calls sequence ignore
upgrade_calls-plain upgrade [] l c = (c, refl)
upgrade_calls-plain upgrade (name ∷ names) l c =
    upgrade_calls-plain upgrade names l ((upgrade name c).1)

module _ (files_ok : Str → Bool) (user now : Str) (dependencies_of : Str → List Str) where
  dist_body-held :
      (s : Sources) (repos : Repos) (upgrade : Str → Sql Unit) (l : Locks) (c : Conn)
      → l.connection ≡ true
      → is_nil
          (to_be_removed files_ok user now dependencies_of s repos (list_installed_packages c.db))
        ≡ false
      → dist_upgrade_body files_ok user now dependencies_of s repos true upgrade l c ≡ stuck
  unfolding dist_upgrade_body sequence
  dist_body-held s repos upgrade l c h n =
      let installed : List InstalledPackage = list_installed_packages c.db in
      let gone : List Str = to_be_removed files_ok user now dependencies_of s repos installed in
      let first = upgrade_calls-plain upgrade (upgradable_of s repos installed) l c in
      elim (Bool-cases (is_nil (upgradable_of s repos installed))) [
        | inl e ↦ rw (e, n, first.1) (remove_calls-held files_ok user now gone l (first.0) h n)
        | inr e ↦ rw (e, first.1) (remove_calls-held files_ok user now gone l (first.0) h n)
      ]

  -- A confirmed distribution upgrade that has a package to remove never returns, whatever locks are
  -- held before.
  pub dist_upgrade-stuck :
      (s : Sources) (repos : Repos) (upgrade : Str → Sql Unit) (l : Locks) (c : Conn)
      → is_nil
          (to_be_removed files_ok user now dependencies_of s repos (list_installed_packages c.db))
        ≡ false
      → dist_upgrade_packages files_ok user now dependencies_of s repos true upgrade l c ≡ stuck
  unfolding dist_upgrade_packages
  dist_upgrade-stuck s repos upgrade l c n =
      with_write_lock-stuck
        (dist_upgrade_body files_ok user now dependencies_of s repos true upgrade) l c
        (dist_body-held s repos upgrade (record { file = exclusive; connection = true }) c refl n)

  -- A confirmed removal of orphans that finds one never returns.
  pub autoremove-stuck :
      (l : Locks) (c : Conn)
      → is_nil (find_orphans dependencies_of (list_installed_packages c.db)) ≡ false
      → autoremove_packages files_ok user now dependencies_of true l c ≡ stuck
  unfolding autoremove_packages autoremove_body
  autoremove-stuck l c n =
      get_connection-stuck (autoremove_body files_ok user now dependencies_of true) l c (
        rw n (
          remove_calls-held files_ok user now
            (find_orphans dependencies_of (list_installed_packages c.db))
            (record l { connection = true }) c refl n))
