-- ===== src/Group/Examples.antt =====
-- The theorems about the group file at concrete texts.
use samad_package_manager.Common.{
  ◌≡◌, refl, none, some, [], ◌∷◌, codes, trim, trim_end_matches, drop_while, trim_start,
}
use samad_package_manager.Group.Entry.{AreMembers, parse-replace}
use samad_package_manager.Group.{
  spm_group, parse_group_members, replace_group_entry, handle_group_create, group_exists,
}
use samad_package_manager.Daemon.Deploy.{Outcome}

two_members : AreMembers (codes "alice" ∷ codes "bob" ∷ [])
unfolding trim trim_end_matches drop_while trim_start
two_members = (cc, refl, refl, (cc, refl, refl, tt))

parse-replace_example :
    parse_group_members
      (replace_group_entry
        (codes "root:x:0:\nspm:x:999:\n")
        spm_group
        1001
        (codes "alice" ∷ codes "bob" ∷ []))
      spm_group
    ≡ codes "alice" ∷ codes "bob" ∷ []
parse-replace_example =
    parse-replace spm_group 1001 (codes "alice" ∷ codes "bob" ∷ []) refl two_members
      (codes "root:x:0:\nspm:x:999:\n") refl

-- Where the last line has no end, the new line continues it.
create_without_end :
    handle_group_create (record { group = some (codes "root:x:0:"); gshadow = none; passwd = none })
    ≡ (
      Outcome.ok tt,
      record { group = some (codes "root:x:0:spm:x:999:\n"); gshadow = none; passwd = none },
    )
unfolding handle_group_create group_exists
create_without_end = refl
