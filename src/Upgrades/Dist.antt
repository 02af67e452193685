-- ===== src/Upgrades/Dist.antt =====
-- dist_upgrade_packages of src/package/install/upgrade.rs and autoremove_packages of
-- src/package/install/mod.rs over the locks of the process. `files_ok` says for which packages
-- remove_package gets to the database, `upgrade` is the upgrade of one package.
use samad_package_manager.Package.{new}
use samad_package_manager.Common.{
  Bool, true, false, not, ◌&&◌, Option, none, some, List, [], ◌∷◌, ◌++◌, Str, mem, keep,
  if◌then◌else◌,
}
use samad_package_manager.Package.Repo.{Repos}
use samad_package_manager.Db.{InstalledPackage}
use samad_package_manager.Db.Packages.{get_installed_package, list_installed_packages}
use samad_package_manager.Daemon.Deploy.{Conn, Outcome, ok, err, Sql}
use samad_package_manager.Removal.{forget}
use samad_package_manager.Upgrades.{upgrade_to, up_to_date, obsoleted, Sources, check_upgrade}
use samad_package_manager.Upgrades.Orphans.{find_orphans}
use samad_package_manager.Locks.{
  Locks, Run, returned, stuck, Call, plain, get_connection, with_write_lock, with_read_lock,
  sequence,
}

-- A result that is not looked at.
abbrev pub any_result :
    Run (Outcome (Unit {0}) × Conn × Locks) → Run (Outcome (Unit {0}) × Conn × Locks)
any_result stuck = stuck
any_result (returned (o, c, l)) = returned (ok tt, c, l)

unfoldable pub ignore : Call Unit → Call Unit
ignore m l c = any_result (m l c)

abbrev found : Conn → Option InstalledPackage → Outcome InstalledPackage × Conn
found c none = (err, c)
found c (some pkg) = (ok pkg, c)

-- The first read of remove_package.
unfoldable pub find_installed : Str → Sql InstalledPackage
unfolding get_installed_package
find_installed name c = found c (get_installed_package c.db name)

abbrev fail_call : Call Unit
fail_call l c = returned (err, c, l)

abbrev pub upgradable_of : Sources → Repos → List InstalledPackage → List Str
upgradable_of s repos [] = []
upgradable_of s repos (p ∷ ps) = elim (check_upgrade s p repos) [
  | upgrade_to v ↦ p.name ∷ upgradable_of s repos ps
  | up_to_date ↦ upgradable_of s repos ps
  | obsoleted ↦ upgradable_of s repos ps
]

abbrev pub obsoleted_of : Sources → Repos → List InstalledPackage → List Str
obsoleted_of s repos [] = []
obsoleted_of s repos (p ∷ ps) = elim (check_upgrade s p repos) [
  | upgrade_to v ↦ obsoleted_of s repos ps
  | up_to_date ↦ obsoleted_of s repos ps
  | obsoleted ↦ p.name ∷ obsoleted_of s repos ps
]

abbrev pub is_nil : List Str → Bool
is_nil [] = true
is_nil (x ∷ xs) = false

-- The upgrades come first; an upgrade that fails is passed over.
unfoldable pub upgrade_calls : (Str → Sql Unit) → List Str → Call Unit
unfolding ignore sequence
upgrade_calls upgrade [] = plain (λ c. (ok tt, c))
upgrade_calls upgrade (name ∷ names) =
    sequence (ignore (plain (upgrade name))) (λ u. upgrade_calls upgrade names)

module _ (files_ok : Str → Bool) (user now : Str) where
  -- remove_package with its two locks, one after the other.
  unfoldable pub remove_call : Str → Call Unit
  unfolding find_installed forget sequence with_read_lock with_write_lock
  remove_call name = sequence (with_read_lock (plain (find_installed name))) (λ pkg.
      if files_ok name
      then with_write_lock (plain (forget user now (new name pkg.format)))
      else fail_call)

  unfoldable pub remove_calls : List Str → Call Unit
  unfolding remove_call ignore sequence
  remove_calls [] = plain (λ c. (ok tt, c))
  remove_calls (name ∷ names) = sequence (ignore (remove_call name)) (λ u. remove_calls names)

  module _ (dependencies_of : Str → List Str) where
    -- The packages that a distribution upgrade removes: the obsolete ones, then the orphans that are
    -- neither obsolete nor to be upgraded.
    unfoldable pub to_be_removed : Sources → Repos → List InstalledPackage → List Str
    unfolding check_upgrade find_orphans mem
    to_be_removed s repos installed =
        let old : List Str = obsoleted_of s repos installed in
        let newer : List Str = upgradable_of s repos installed in
        old
        ++ keep (λ n. not (mem n old) && not (mem n newer)) (find_orphans dependencies_of installed)

    -- The body of dist_upgrade_packages. `confirmed` is the option `yes` or the answer.
    unfoldable pub dist_upgrade_body : Sources → Repos → Bool → (Str → Sql Unit) → Call Unit
    unfolding to_be_removed check_upgrade list_installed_packages upgrade_calls remove_calls
        sequence
    dist_upgrade_body s repos confirmed upgrade l c =
        let installed : List InstalledPackage = list_installed_packages c.db in
        let newer : List Str = upgradable_of s repos installed in
        let gone : List Str = to_be_removed s repos installed in
        if is_nil newer && is_nil gone
        then returned (ok tt, c, l)
        else if not confirmed
        then returned (ok tt, c, l)
        else sequence (upgrade_calls upgrade newer) (λ u. remove_calls gone) l c

    unfoldable pub dist_upgrade_packages : Sources → Repos → Bool → (Str → Sql Unit) → Call Unit
    unfolding with_write_lock dist_upgrade_body
    dist_upgrade_packages s repos confirmed upgrade =
        with_write_lock (dist_upgrade_body s repos confirmed upgrade)

    unfoldable pub autoremove_body : Bool → Call Unit
    unfolding list_installed_packages find_orphans remove_calls
    autoremove_body confirmed l c =
        let orphans : List Str = find_orphans dependencies_of (list_installed_packages c.db) in
        if is_nil orphans
        then returned (ok tt, c, l)
        else if not confirmed
        then returned (ok tt, c, l)
        else remove_calls orphans l c

    -- The connection is held to the end of the function.
    unfoldable pub autoremove_packages : Bool → Call Unit
    unfolding get_connection autoremove_body
    autoremove_packages confirmed = get_connection (autoremove_body confirmed)
