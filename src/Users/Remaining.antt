-- ===== src/Users/Remaining.antt =====
-- What remove_for_user of src/package/install/user.rs leaves in the table and in the shared cache.
use samad_package_manager.Package.{PackageFormat, format_eq}
use samad_package_manager.Common.{
  ℕ, ◌+◌, ◌≤◌, ◌≡◌, ◌⊎◌, refl, sym, subst, inl, inr, Bool, true, false, not, ◌&&◌, some, List, [],
  ◌∷◌, Str, str_eq, str_eq_refl, mem, keep, any, leb, ◌==◌, arith, Bool-cases, Option-cases,
  if◌then◌else◌,
}
use samad_package_manager.Common.Sort.{sort_by, count_by, count_by-sort}
use samad_package_manager.Db.Installed.{format_eq_refl}
use samad_package_manager.Db.Packages.{first}
use samad_package_manager.Daemon.Deploy.{ok}
use samad_package_manager.Users.{
  UserInstall, Installs, has_key, remove_user_install, name_leb, list_user_installs, has_hash,
  count_users_for_package_hash, Shared, UserPackage, Calls, remove_shared_package, install_for_user,
  remove_links, drop_counted, drop_package, forget_row, targets_in, remove_for_user,
}
use samad_package_manager.Users.Backed.{
  backed, Backed, backed-keep, backed-drop, install_for_user-Backed,
}

-- The rows of a key that have a hash.
abbrev keyed : ℕ → Str → PackageFormat → Str → UserInstall → Bool
keyed user_id name format hash r =
    r.user_id == user_id
    && str_eq r.package_name name
    && format_eq r.package_format format
    && has_hash hash r

count-keep_le :
    (p q : UserInstall → Bool) (rows : Installs)
    → count_by name_leb p (keep q rows) ≤ count_by name_leb p rows
count-keep_le p q [] = omega arith
count-keep_le p q (r ∷ rows) = ground (arith, count-keep_le p q rows)

first-keep :
    (p q : UserInstall → Bool) (rows : Installs) (u : UserInstall)
    → first (keep q rows) ≡ some u
    → p u ≡ true
    → (q u ≡ true) × (1 ≤ count_by name_leb p rows)
first-keep p q [] u h k = cc
first-keep p q (r ∷ rows) u h k = elim (Bool-cases (q r)) [
  | inl e ↦
      let same = first-cons r (keep q rows) u (rw e at h) in
      (
        subst (λ x. q x ≡ true) same e,
        at_head (p r) (count_by name_leb p rows) (subst (λ x. p x ≡ true) (sym same) k),
      )
  | inr e ↦
      let later = first-keep p q rows u (rw e at h) k in
      (later.0, in_tail (p r) (count_by name_leb p rows) (later.1))
]
  where
    first-cons :
        (x : UserInstall) (xs : Installs) (u : UserInstall) → first (x ∷ xs) ≡ some u → x ≡ u
    first-cons x xs u e = ground (arith, e)

    at_head : (b : Bool) (n : ℕ) → b ≡ true → 1 ≤ (if b then 1 else 0) + n
    at_head b n e = ground (arith, e)

    in_tail : (b : Bool) (n : ℕ) → 1 ≤ n → 1 ≤ (if b then 1 else 0) + n
    in_tail b n h = ground (arith, h)

module _ (user_id : ℕ) (name : Str) (format : PackageFormat) (hash : Str) where
  -- The rows of the hash that stay, and those that go.
  count-remove :
      (rows : Installs)
      → count_by name_leb (has_hash hash) (remove_user_install user_id name format rows)
          + count_by name_leb (keyed user_id name format hash) rows
        ≤ count_by name_leb (has_hash hash) rows
  unfolding remove_user_install
  count-remove [] = omega arith
  count-remove (r ∷ rows) =
      one (has_key user_id name format r) (keyed user_id name format hash r)
        (count_by name_leb (has_hash hash) rows)
        (count_by name_leb (keyed user_id name format hash) rows)
        (keep (λ r. not (has_key user_id name format r)) rows) r
        (parts (r.user_id == user_id) (str_eq r.package_name name)
          (format_eq r.package_format format) (has_hash hash r))
        (count-remove rows)
    where
      parts : (a b c d : Bool) → (a && b && c && d) ≡ ((a && b && c) && d)
      parts a b c d = ground arith

      one :
          (key goes : Bool) (all going : ℕ) (left : Installs) (r : UserInstall)
          → goes ≡ (key && has_hash hash r)
          → count_by name_leb (has_hash hash) left + going ≤ all
          → count_by name_leb (has_hash hash) (if not key then r ∷ left else left)
              + ((if goes then 1 else 0) + going)
            ≤ (if has_hash hash r then 1 else 0) + all
      one key goes all going left r e h = ground (arith, e, h)

  none_left :
      (rows : Installs)
      → count_by name_leb (has_hash hash) rows ≤ 0
      → any (has_hash hash) rows ≡ false
  none_left [] h = refl
  none_left (r ∷ rows) h = ground (arith, h, none_left rows)

-- The row that remove_for_user finds is one of the table.
found-counts :
    (user_id : ℕ) (name : Str) (rows : Installs) (ui : UserInstall)
    → first (keep (λ r. str_eq r.package_name name) (list_user_installs user_id rows)) ≡ some ui
    → 1 ≤ count_by name_leb (keyed user_id name ui.package_format ui.package_hash) rows
unfolding list_user_installs
found-counts user_id name rows ui h =
    let own : Installs = keep (λ r. r.user_id == user_id) rows in
    let p : UserInstall → Bool = λ r.
      str_eq r.package_name name
      && format_eq r.package_format ui.package_format
      && has_hash ui.package_hash r in
    let named =
      first-keep (λ r. true) (λ r. str_eq r.package_name name) (sort_by name_leb own) ui h refl in
    let listed =
      first-keep p (λ r. str_eq r.package_name name) (sort_by name_leb own) ui h
        (rw (named.0, format_eq_refl ui.package_format, str_eq_refl ui.package_hash) refl) in
    in_table p (keyed user_id name ui.package_format ui.package_hash)
      (λ r.
        parts (r.user_id == user_id) (str_eq r.package_name name)
          (format_eq r.package_format ui.package_format) (has_hash ui.package_hash r))
      rows (subst (λ n. 1 ≤ n) (count_by-sort name_leb p own) (listed.1))
  where
    parts : (a b c d : Bool) → (a && b && c && d) ≡ (a && (b && c && d))
    parts a b c d = ground arith

    in_table :
        (p q : UserInstall → Bool)
        → ((r : UserInstall) → q r ≡ (r.user_id == user_id && p r))
        → (xs : Installs) → 1 ≤ count_by name_leb p (keep (λ r. r.user_id == user_id) xs)
        → 1 ≤ count_by name_leb q xs
    in_table p q e [] k = k
    in_table p q e (x ∷ xs) k = ground (arith, k, e x, in_table p q e xs)

-- What phase 3 makes of the cache.
abbrev DropCases : Calls → Str → Shared → Shared × List Str → Type 0
DropCases calls hash s r =
    (r.0 ≡ s)
    ⊎ ((leb (count_users_for_package_hash hash s.rows) 1 ≡ true)
        × (r.0 ≡ record s { packages = remove_shared_package hash s.packages }))

module _ (calls : Calls) (user_id : ℕ) (name now : Str) where
  drop_package-cases :
      (hash : Str) (s : Shared) (errors : List Str)
      → DropCases calls hash s (drop_package calls user_id name now hash s errors)
  unfolding drop_package drop_counted
  drop_package-cases hash s errors =
      elim (Bool-cases (leb (count_users_for_package_hash hash s.rows) 1)) [
        | inr e ↦ rw e (inl refl)
        | inl e ↦ rw e (elim (Bool-cases (mem hash s.packages)) [
          | inr m ↦ rw m (inl refl)
          | inl m ↦ rw m (elim (Bool-cases (calls.drop_ok hash)) [
            | inr d ↦ rw d (inl refl)
            | inl d ↦ rw d (inr (refl, refl))
          ])
        ])
      ]

  forgotten-Backed :
      (ui : UserInstall) (s t : Shared)
      → Backed s
      → 1 ≤ count_by name_leb (keyed user_id name ui.package_format ui.package_hash) s.rows
      → (t ≡ s)
        ⊎ ((leb (count_users_for_package_hash ui.package_hash s.rows) 1 ≡ true)
            × (t ≡ record s { packages = remove_shared_package ui.package_hash s.packages }))
      → backed t.packages (remove_user_install user_id name ui.package_format t.rows) ≡ true
  unfolding remove_user_install count_users_for_package_hash
  forgotten-Backed ui s t b n (inl e) =
      rw e (backed-keep (λ r. not (has_key user_id name ui.package_format r)) s.packages s.rows b)
  forgotten-Backed ui s t b n (inr (few, e)) = rw e (
      backed-drop ui.package_hash s.packages
        (remove_user_install user_id name ui.package_format s.rows)
        (backed-keep (λ r. not (has_key user_id name ui.package_format r)) s.packages s.rows b)
        (none_left user_id name ui.package_format ui.package_hash
          (remove_user_install user_id name ui.package_format s.rows)
          (ground
            (arith, few, n, count-remove user_id name ui.package_format ui.package_hash s.rows))))

  forget_row-Backed :
      (ui : UserInstall) (s : Shared) (r : Shared × List Str)
      → Backed s
      → 1 ≤ count_by name_leb (keyed user_id name ui.package_format ui.package_hash) s.rows
      → DropCases calls ui.package_hash s r
      → (forget_row calls user_id name now ui r).0 ≡ ok tt
      → Backed ((forget_row calls user_id name now ui r).1)
  forget_row-Backed ui s (t, []) b n d k = forgotten-Backed ui s t b n d
  forget_row-Backed ui s (t, e ∷ errors) b n d k = cc

  -- A removal for a user that succeeds keeps a package behind every row that is left.
  pub remove_for_user-Backed :
      (contents : Str → List Str) (s : Shared)
      → Backed s
      → (remove_for_user calls user_id name now contents s).0 ≡ ok tt
      → Backed ((remove_for_user calls user_id name now contents s).1)
  unfolding remove_for_user
  remove_for_user-Backed contents s b k =
      let o = first (keep (λ r. str_eq r.package_name name) (list_user_installs user_id s.rows)) in
      elim (Option-cases o) [
        | inl e ↦ absurd (ground (arith, rw e at k))
        | inr (ui, e) ↦
            let targets : List Str =
              targets_in calls user_id name now contents ui.package_hash s.packages in
            let r = remove_links calls user_id name now targets (s.links, []) in
            rw e (
              forget_row-Backed ui (record s { links = r.0 })
                (drop_package calls user_id name now ui.package_hash (record s { links = r.0 })
                  (r.1))
                b (found-counts user_id name s.rows ui e)
                (drop_package-cases ui.package_hash (record s { links = r.0 }) (r.1)) (rw e at k))
      ]

-- What sequences of calls that do not overlap reach from nothing: installations however they end,
-- and removals that succeed. A removal gives up its locks between its phases, so that calls which
-- overlap may reach more.
pub data Reach : Shared → Type 0 where
  start : Reach (record { rows = []; packages = []; links = [] })
  install :
      {s : Shared} (calls : Calls) (user_id : ℕ) (name now : Str) (pkg : UserPackage)
      → Reach s
      → Reach ((install_for_user calls user_id name now pkg s).1)
  remove :
      {s : Shared} (calls : Calls) (user_id : ℕ) (name now : Str) (contents : Str → List Str)
      → Reach s
      → (remove_for_user calls user_id name now contents s).0 ≡ ok tt
      → Reach ((remove_for_user calls user_id name now contents s).1)

-- After any sequence of calls that do not overlap, of installations however they end and of removals
-- that succeed, every installation that is recorded has its package in the shared cache.
pub Reach-Backed : {s : Shared} → Reach s → Backed s
Reach-Backed start = refl
Reach-Backed (install {s} calls user_id name now pkg r) =
    install_for_user-Backed calls user_id name now pkg s (Reach-Backed r)
Reach-Backed (remove {s} calls user_id name now contents r k) =
    remove_for_user-Backed calls user_id name now contents s (Reach-Backed r) k
