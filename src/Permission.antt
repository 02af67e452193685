-- ===== src/Permission.antt =====
-- src/daemon/permission.rs: who may do what. The user and group databases of the host are read
-- through the record `Host`; the clock is an argument in milliseconds, and the mutex of the table of
-- rates is free of poison, since nothing panics while it is held.
pub mod Check
pub mod Rate
mod Examples
use samad_package_manager.Common.Decimal.{to_decimal}
use samad_package_manager.Common.{
  ℕ, zero, ◌+◌, ◌-◌, Bool, true, false, not, ◌&&◌, ◌||◌, Option, none, some, List, [], ◌∷◌, ◌++◌,
  Str, codes, ltb, leb, ◌==◌, if◌then◌else◌, any, str_eq, mem, starts_with,
}

pub record PeerCreds : Type 0 where
  pub uid : ℕ
  pub gid : ℕ
  pub groups : List ℕ

pub data Permission : Type 0 where
  system_full read_only : Permission
  user_only : ℕ → Str → Permission
  denied : Permission

unfoldable pub is_authorized : Permission → Bool
is_authorized denied = false
is_authorized _ = true

unfoldable pub is_system : Permission → Bool
is_system system_full = true
is_system read_only = true
is_system _ = false

unfoldable pub permission_uid : Permission → Option ℕ
permission_uid (user_only uid home) = some uid
permission_uid _ = none

pub data FileAccess : Type 0 where
  allowed : FileAccess
  foreign_touch : Str → PeerCreds → FileAccess
  not_owned_by_spm : FileAccess

pub record PermissionPolicy : Type 0 where
  pub root_can_everything : Bool
  pub group_spm_can_system : Bool
  pub users_can_user_install : Bool
  pub sandbox_required_for : List Str
  pub blocked_packages : List Str
  pub max_concurrent_per_user : ℕ
  pub rate_limit_per_user : ℕ

abbrev pub default_policy : PermissionPolicy
default_policy = record {
  root_can_everything = true;
  group_spm_can_system = true;
  users_can_user_install = true;
  sandbox_required_for = [];
  blocked_packages = [];
  max_concurrent_per_user = 3;
  rate_limit_per_user = 10;
}

unfoldable pub sandbox_required : PermissionPolicy → Str → Bool
sandbox_required policy pkg = mem pkg policy.sandbox_required_for

unfoldable pub is_blocked : PermissionPolicy → Str → Bool
is_blocked policy pkg = mem pkg policy.blocked_packages

-- nix::unistd: the gid of the group `spm`, and the home directory of a user.
pub record Host : Type 0 where
  pub group_from_name : Str → Option ℕ
  pub home_from_uid : ℕ → Option Str

-- The two refusals of `check`, without their message texts.
pub data CheckError : Type 0 where
  blocked_by_policy requires_sandbox : Str → CheckError

pub data Checked : Type 0 where
  ok : Permission → Checked
  err : CheckError → Checked

unfoldable pub resolve_spm_gid : Host → ℕ
resolve_spm_gid host = elim (host.group_from_name (codes "spm")) [ none ↦ 0 | some g ↦ g ]

unfoldable pub resolve_user_home : Host → ℕ → Option Str
resolve_user_home host uid = if uid == 0 then some (codes "/root") else host.home_from_uid uid

-- resolve_user_home(uid).unwrap_or_else(|| format!("/home/{}", uid))
abbrev pub home_of : Host → ℕ → Str
home_of host uid = elim (resolve_user_home host uid) [
  | none ↦ codes "/home/" ++ to_decimal uid
  | some home ↦ home
]

unfoldable pub is_spm_managed_path : Str → Bool
is_spm_managed_path path =
    any (starts_with path) (codes "/usr/lib/spm" ∷ codes "/var/lib/spm" ∷ codes "/etc/spm" ∷ [])

-- The tests of the `match action` arms.
abbrev pub is_query : Str → Bool
is_query action = mem action (codes "list" ∷ codes "info" ∷ codes "search" ∷ codes "status" ∷ [])

abbrev pub is_user_action : Str → Bool
is_user_action action = mem action (
    codes "install"
    ∷ codes "remove"
    ∷ codes "list"
    ∷ codes "info"
    ∷ codes "search"
    ∷ codes "status"
    ∷ [])

abbrev pub names_any : (Str → Bool) → Option Str → Option Str
names_any p none = none
names_any p (some pkg) = if p pkg then some pkg else none

abbrev pub has_gid : ℕ → List ℕ → Bool
has_gid g = any (λ x. x == g)

unfoldable pub is_spm_group : PermissionPolicy → Host → PeerCreds → Bool
unfolding resolve_spm_gid
is_spm_group policy host creds =
    let spm_gid = resolve_spm_gid host in
    policy.group_spm_can_system
    && not (spm_gid == 0)
    && (creds.gid == spm_gid || has_gid spm_gid creds.groups)

-- if let Some(pkg) = package { if test(pkg) { return Err(..) } }, and what follows it.
abbrev pub refuse_or : (Str → CheckError) → Option Str → Checked → Checked
refuse_or e none rest = rest
refuse_or e (some pkg) rest = err (e pkg)

-- The arm for users outside the group.
unfoldable pub check_user : PermissionPolicy → Host → Str → Option Str → PeerCreds → Checked
unfolding sandbox_required
check_user policy host action named creds =
    refuse_or requires_sandbox (names_any (sandbox_required policy) named) (
      if policy.users_can_user_install && is_user_action action
      then ok (user_only creds.uid (home_of host creds.uid))
      else ok denied)

unfoldable pub check : PermissionPolicy → Host → Str → Option Str → PeerCreds → Checked
unfolding is_blocked is_spm_group check_user
check policy host action named creds =
    if policy.root_can_everything && creds.uid == 0
    then ok system_full
    else refuse_or blocked_by_policy (names_any (is_blocked policy) named) (
        if is_spm_group policy host creds
        then (if is_query action then ok read_only else ok system_full)
        else check_user policy host action named creds)

unfoldable pub check_file_access : PermissionPolicy → Host → Str → PeerCreds → FileAccess
unfolding is_spm_managed_path resolve_user_home
check_file_access policy host path creds =
    if policy.root_can_everything && creds.uid == 0
    then allowed
    else if starts_with path (home_of host creds.uid)
    then allowed
    else if not (is_spm_managed_path path)
    then not_owned_by_spm
    else allowed

unfoldable pub check_file_access_by_uid : PermissionPolicy → Host → Str → ℕ → Bool
unfolding is_spm_managed_path resolve_user_home
check_file_access_by_uid policy host path uid =
    if policy.root_can_everything && uid == 0
    then true
    else if starts_with path (home_of host uid)
    then true
    else is_spm_managed_path path
