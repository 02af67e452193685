-- ===== src/Users/Examples.antt =====
-- The theorems about installations for users at concrete tables.
use samad_package_manager.Package.{deb, format_eq}
use samad_package_manager.Common.{ℕ, ◌≡◌, refl, true, false, [], ◌∷◌, codes, str_eq, mem}
use samad_package_manager.Common.Sort.{insert_by, sort_by}
use samad_package_manager.Daemon.Deploy.{Outcome}
use samad_package_manager.Users.{
  Shared, UserPackage, Calls, count_users_for_package_hash, drop_counted, remove_user_install,
  copy_to_shared_cache, create_user_symlinks, record_user_install, is_installed_for_user,
  remove_shared_package, list_user_installs, install_for_user, remove_for_user,
}
use samad_package_manager.Users.Backed.{backed, Backed}
use samad_package_manager.Users.Remaining.{start, install, remove, Reach-Backed}

abbrev all_pass : Calls
all_pass = record {
  copy_ok = λ h. true;
  link_ok = λ t. true;
  unlink_ok = λ t. true;
  drop_ok = λ h. true;
}

abbrev tool : UserPackage
tool = record { hash = codes "aa1"; format = deb; targets = codes "tool" ∷ [] }

abbrev empty : Shared
empty = record { rows = []; packages = []; links = [] }

abbrev both : Shared
both =
    (install_for_user all_pass 8 (codes "tool") (codes "now") tool
      ((install_for_user all_pass 7 (codes "tool") (codes "now") tool empty).1)).1

removes :
    (remove_for_user all_pass 7 (codes "tool") (codes "now") (λ h. codes "tool" ∷ []) both).0
    ≡ Outcome.ok tt
unfolding install_for_user remove_for_user list_user_installs insert_by str_eq mem sort_by
removes = refl

Reach-Backed_example :
    Backed
      ((remove_for_user all_pass 7 (codes "tool") (codes "now") (λ h. codes "tool" ∷ []) both).1)
Reach-Backed_example = Reach-Backed (
    remove all_pass 7 (codes "tool") (codes "now") (λ h. codes "tool" ∷ [])
      (install all_pass 8 (codes "tool") (codes "now") tool
        (install all_pass 7 (codes "tool") (codes "now") tool start))
      removes)

abbrev one : Shared
one = (install_for_user all_pass 7 (codes "tool") (codes "now") tool empty).1

-- A link that cannot be removed: the row is kept, but its package is gone.
dangling :
    (remove_for_user
      (record all_pass { unlink_ok = λ t. false })
      7
      (codes "tool")
      (codes "now")
      (λ h. codes "tool" ∷ [])
      one)
    ≡ (Outcome.err, record one { packages = [] })
unfolding install_for_user remove_for_user list_user_installs insert_by str_eq mem sort_by
dangling = refl

-- A removal counts one installation, another user installs the same package, and the removal takes
-- the package and its own row: the other row is left without its package.
abbrev counted : ℕ
counted = count_users_for_package_hash (codes "aa1") one.rows

abbrev between : Shared
between = (install_for_user all_pass 8 (codes "tool") (codes "now") tool one).1

overlapping :
    let after =
      drop_counted all_pass 7 (codes "tool") (codes "now") counted (codes "aa1") between [] in
    (after.1 ≡ [])
    × (backed ((after.0).packages) (remove_user_install 7 (codes "tool") deb (after.0).rows)
        ≡ false)
unfolding install_for_user count_users_for_package_hash drop_counted remove_user_install str_eq mem
    format_eq copy_to_shared_cache create_user_symlinks record_user_install is_installed_for_user
    remove_shared_package
overlapping = (refl, refl)
