-- ===== src/Permission/Check.antt =====
-- What `check` grants, and to whom: src/daemon/permission.rs.
use samad_package_manager.Common.{
  ◌≡◌, refl, ◌↔◌, ◌⊎◌, [], ◌∷◌, inl, inr, Bool, true, false, ◌&&◌, Option, none, some, Str, ◌++◌,
  ◌==◌, arith, starts_with, if◌then◌else◌, Bool-cases,
}
use samad_package_manager.Permission.{
  PeerCreds, system_full, read_only, user_only, denied, allowed, PermissionPolicy, Host, CheckError,
  blocked_by_policy, requires_sandbox, Checked, ok, err, sandbox_required, is_blocked, home_of,
  is_query, is_user_action, names_any, refuse_or, is_spm_group, check_user, check,
  check_file_access, check_file_access_by_uid,
}

-- The package that a request names is refused by a list of the policy.
abbrev pub Listed : (Str → Bool) → Option Str → Type 0
Listed p o = (pkg : Str) × (o ≡ some pkg) × (p pkg ≡ true)

abbrev pub Unlisted : (Str → Bool) → Option Str → Type 0
Unlisted p o = (pkg : Str) → o ≡ some pkg → p pkg ≡ false

abbrev pub is_root : PermissionPolicy → PeerCreds → Bool
is_root policy creds = policy.root_can_everything && creds.uid == 0

module _ {ℓ} (P : Checked → Type ℓ) where
  refuse_or_rule :
      {e : Str → CheckError} (p : Str → Bool) (named : Option Str) {rest : Checked}
      → ((pkg : Str) → named ≡ some pkg → p pkg ≡ true → P (err (e pkg)))
      → (Unlisted p named → P rest)
      → P (refuse_or e (names_any p named) rest)
  refuse_or_rule p none refused passed = passed (λ pkg e. cc)
  refuse_or_rule p (some pkg) refused passed = elim (Bool-cases (p pkg)) [
    | inl e ↦ rw e (refused pkg refl e)
    | inr e ↦ rw e (passed (λ q h. ground arith))
  ]

  if_rule :
      (b : Bool) {x y : Checked} → (b ≡ true → P x) → (b ≡ false → P y) → P (if b then x else y)
  if_rule true h k = h refl
  if_rule false h k = k refl

module _ (policy : PermissionPolicy) (host : Host) (action : Str) (named : Option Str)
    (creds : PeerCreds) where
  -- An ordinary user: neither root nor in the group `spm`, who names no blocked package.
  abbrev pub Ordinary : Type 0
  Ordinary =
      (is_root policy creds ≡ false)
      × (is_spm_group policy host creds ≡ false)
      × Unlisted (is_blocked policy) named

  -- Why each answer of `check` is given.
  abbrev pub Justified : Checked → Type 0
  Justified (ok system_full) =
      (is_root policy creds ≡ true)
      ⊎ ((is_spm_group policy host creds ≡ true)
          × (is_query action ≡ false)
          × Unlisted (is_blocked policy) named)
  Justified (ok read_only) =
      (is_root policy creds ≡ false)
      × (is_spm_group policy host creds ≡ true)
      × (is_query action ≡ true)
      × Unlisted (is_blocked policy) named
  Justified (ok (user_only uid home)) =
      Ordinary
      × Unlisted (sandbox_required policy) named
      × (policy.users_can_user_install ≡ true)
      × (is_user_action action ≡ true)
      × (uid ≡ creds.uid)
      × (home ≡ home_of host creds.uid)
  Justified (ok denied) =
      Ordinary
      × Unlisted (sandbox_required policy) named
      × ((policy.users_can_user_install ≡ false) ⊎ (is_user_action action ≡ false))
  Justified (err (blocked_by_policy pkg)) =
      (is_root policy creds ≡ false) × (named ≡ some pkg) × (is_blocked policy pkg ≡ true)
  Justified (err (requires_sandbox pkg)) =
      Ordinary × (named ≡ some pkg) × (sandbox_required policy pkg ≡ true)

  check_user-Justified : Ordinary → Justified (check_user policy host action named creds)
  unfolding check_user
  check_user-Justified o =
      refuse_or_rule Justified (sandbox_required policy) named (λ pkg e p. (o, e, p))
        λ free.
          if_rule Justified (policy.users_can_user_install && is_user_action action)
            (λ granted. (o, free, ground arith, ground arith, refl, refl))
            (λ refused. (o, free, ground arith))

  -- Each answer of `check` is justified: full access goes to root and to members of the group
  -- `spm` who ask for a change; members who query get read access; an ordinary user gets no more
  -- than access to the own home, and only for the six user actions while the policy allows it; the
  -- lists of blocked and of sandboxed packages refuse the packages that they name, and those only.
  pub check-Justified : Justified (check policy host action named creds)
  unfolding check
  check-Justified =
      if_rule Justified (is_root policy creds) (λ root. inl root)
        λ other.
          refuse_or_rule Justified (is_blocked policy) named (λ pkg e p. (other, e, p))
            λ free.
              if_rule Justified (is_spm_group policy host creds)
                (λ member.
                  if_rule Justified (is_query action) (λ q. (other, member, q, free))
                    (λ q. inr (member, q, free)))
                (λ outside. check_user-Justified (other, outside, free))

-- The two file checks agree: the one by user id says yes exactly where the other one allows.
pub check_file_access-by_uid :
    (policy : PermissionPolicy) (host : Host) (path : Str) (creds : PeerCreds)
    → (check_file_access_by_uid policy host path creds.uid ≡ true)
      ↔ (check_file_access policy host path creds ≡ allowed)
unfolding check_file_access check_file_access_by_uid
check_file_access-by_uid policy host path creds = ground arith

starts_with-append : (a b : Str) → starts_with (a ++ b) a ≡ true
unfolding starts_with
starts_with-append [] [] = refl
starts_with-append [] (c ∷ b) = refl
starts_with-append (c ∷ a) b = ground (arith, starts_with-append a b)

-- The test of the home is a test of the text: whatever continues the name of a user's home, such
-- as the home of a user whose name is longer, is allowed too.
pub sibling_home_allowed :
    (policy : PermissionPolicy) (host : Host) (creds : PeerCreds) (more : Str)
    → check_file_access policy host (home_of host creds.uid ++ more) creds ≡ allowed
unfolding check_file_access
sibling_home_allowed policy host creds more =
    ground (arith, starts_with-append (home_of host creds.uid) more)
