-- ===== src/Users/Backed.antt =====
-- Every installation for a user has its package in the shared cache: what install_for_user of
-- src/package/install/user.rs does to this.
use samad_package_manager.Common.{
  ℕ, ◌≡◌, refl, ap, inl, inr, Bool, true, false, not, ◌&&◌, List, [], ◌∷◌, ◌++◌, Str, str_eq,
  str_eq_refl, eq_of_str_eq, mem, keep, any, arith, Bool-cases,
}
use samad_package_manager.Common.Members.{mem-keep_others}
use samad_package_manager.Users.{
  UserInstall, Installs, has_key, record_user_install, is_installed_for_user, has_hash, Shared,
  UserPackage, Calls, remove_shared_package, copy_to_shared_cache, create_user_symlinks,
  after_links, install_for_user,
}

abbrev pub backed : List Str → Installs → Bool
backed packages [] = true
backed packages (r ∷ rows) = mem r.package_hash packages && backed packages rows

-- Every row has its package.
abbrev pub Backed : Shared → Type 0
Backed s = backed s.packages s.rows ≡ true

pub backed-keep :
    (p : UserInstall → Bool) (packages : List Str) (rows : Installs)
    → backed packages rows ≡ true
    → backed packages (keep p rows) ≡ true
backed-keep p packages [] h = refl
backed-keep p packages (r ∷ rows) h = ground (arith, h, backed-keep p packages rows)

backed-append_last :
    (packages : List Str) (rows : Installs) (r : UserInstall)
    → backed packages rows ≡ true
    → mem r.package_hash packages ≡ true
    → backed packages (rows ++ r ∷ []) ≡ true
backed-append_last packages [] r h k = ground (arith, k)
backed-append_last packages (x ∷ rows) r h k = ground (arith, h, backed-append_last packages rows r)

backed-cons :
    (hash : Str) (packages : List Str) (rows : Installs)
    → backed packages rows ≡ true
    → backed (hash ∷ packages) rows ≡ true
unfolding mem
backed-cons hash packages [] h = refl
backed-cons hash packages (r ∷ rows) h = ground (arith, h, backed-cons hash packages rows)

-- A package that is missing has no rows.
backed-absent :
    (hash : Str) (packages : List Str) (rows : Installs)
    → backed packages rows ≡ true
    → mem hash packages ≡ false
    → any (has_hash hash) rows ≡ false
backed-absent hash packages [] h k = refl
backed-absent hash packages (r ∷ rows) h k = elim (Bool-cases (str_eq r.package_hash hash)) [
  | inl e ↦
      absurd (ground (arith, h, k, ap (λ x. mem x packages) (eq_of_str_eq r.package_hash hash e)))
  | inr e ↦ ground (arith, h, e, backed-absent hash packages rows)
]

-- A package without rows may go.
pub backed-drop :
    (hash : Str) (packages : List Str) (rows : Installs)
    → backed packages rows ≡ true
    → any (has_hash hash) rows ≡ false
    → backed (remove_shared_package hash packages) rows ≡ true
unfolding remove_shared_package
backed-drop hash packages [] h k = refl
backed-drop hash packages (r ∷ rows) h k = ground (
  arith,
  h,
  k,
  backed-drop hash packages rows,
  mem-keep_others r.package_hash hash packages,
  eq_of_str_eq hash r.package_hash,
  str_eq_refl hash,
)

module _ (calls : Calls) (user_id : ℕ) (name now : Str) where
  after_links-Backed :
      (pkg : UserPackage) (is_new : Bool) (s : Shared) (targets : List Str)
      (r : Bool × List (ℕ × Str))
      → Backed s
      → mem pkg.hash s.packages ≡ true
      → (is_new && any (has_hash pkg.hash) s.rows) ≡ false
      → Backed ((after_links calls user_id name now pkg is_new s targets r).1)
  unfolding record_user_install
  after_links-Backed pkg is_new s targets (false, links) b m n = b
  after_links-Backed pkg true s [] (true, links) b m n = backed-drop pkg.hash s.packages s.rows b n
  after_links-Backed pkg false s [] (true, links) b m n = b
  after_links-Backed pkg is_new s (t ∷ ts) (true, links) b m n =
      backed-append_last s.packages _ _
        (backed-keep (λ r. not (has_key user_id name pkg.format r)) s.packages s.rows b) m

  -- An installation for a user keeps a package behind every row, whether it succeeds or not.
  pub install_for_user-Backed :
      (pkg : UserPackage) (s : Shared)
      → Backed s
      → Backed ((install_for_user calls user_id name now pkg s).1)
  unfolding install_for_user copy_to_shared_cache
  install_for_user-Backed pkg s b = elim (Bool-cases (is_installed_for_user user_id name s.rows)) [
    | inl e ↦ rw e b
    | inr e ↦ rw e (elim (Bool-cases (mem pkg.hash s.packages)) [
      | inl m ↦ rw m (
          after_links-Backed pkg false s pkg.targets
            (create_user_symlinks calls user_id name now pkg.targets s.links) b m refl)
      | inr m ↦ rw m (elim (Bool-cases (calls.copy_ok pkg.hash)) [
        | inr c ↦ rw c b
        | inl c ↦ rw c (
            after_links-Backed pkg true (record s { packages = pkg.hash ∷ s.packages }) pkg.targets
              (create_user_symlinks calls user_id name now pkg.targets s.links)
              (backed-cons pkg.hash s.packages s.rows b)
              (unfold mem in rw (str_eq_refl pkg.hash) refl)
              (backed-absent pkg.hash s.packages s.rows b m))
      ])
    ])
  ]
