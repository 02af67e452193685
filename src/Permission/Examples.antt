-- ===== src/Permission/Examples.antt =====
-- Tests of src/daemon/permission.rs, and the theorems at concrete requests.
use samad_package_manager.Common.{
  ◌+◌, ◌≤◌, ◌≡◌, refl, none, some, [], ◌∷◌, codes, ◌==◌, if◌then◌else◌, arith, str_eq, mem,
}
use samad_package_manager.Permission.{
  PeerCreds, Host, PermissionPolicy, default_policy, system_full, denied, read_only, user_only, ok,
  err, blocked_by_policy, resolve_user_home, check,
}
use samad_package_manager.Permission.Check.{Justified, check-Justified}
use samad_package_manager.Permission.Rate.{Rates, rate_limit_max, accepted}
use samad_package_manager.Permission.Rate.Second.{at_once, accepted-second}

-- The group `spm` has the id 500; the home of user 1000 is /home/al.
abbrev host : Host
host = record {
  group_from_name = λ name. some 500;
  home_from_uid = λ uid. if uid == 1000 then some (codes "/home/al") else none;
}

abbrev user : PeerCreds
user = record { uid = 1000; gid = 1000; groups = [] }

abbrev member : PeerCreds
member = record user { groups = 4 ∷ 500 ∷ [] }

abbrev strict : PermissionPolicy
strict = record default_policy { blocked_packages = codes "evil" ∷ [] }

check_test :
    (check strict host (codes "install") (some (codes "nginx")) member ≡ ok system_full)
    × (check strict host (codes "list") none member ≡ ok read_only)
    × (check strict host (codes "install") (some (codes "evil")) member
        ≡ err (blocked_by_policy (codes "evil")))
    × (check strict host (codes "install") (some (codes "nginx")) user
        ≡ ok (user_only 1000 (codes "/home/al")))
    × (check strict host (codes "repo") none user ≡ ok denied)
unfolding check mem str_eq resolve_user_home
check_test = (refl, refl, refl, refl, refl)

check-Justified_example :
    Justified strict host
      (codes "install")
      (some (codes "nginx"))
      user
      (check strict host (codes "install") (some (codes "nginx")) user)
check-Justified_example = check-Justified strict host (codes "install") (some (codes "nginx")) user

abbrev no_rates : Rates
no_rates uid = none

abbrev half_used : Rates
half_used uid = some (1500, 5)

accepted-second_example :
    accepted 7 half_used (at_once 7 6 2400 (at_once 7 9 2600 [])) + 5
    ≤ rate_limit_max + rate_limit_max
accepted-second_example =
    accepted-second 7 2000 1500 5 (at_once 7 6 2400 (at_once 7 9 2600 [])) half_used refl
      (omega arith) (omega arith)
