-- ===== src/Daemon/Rollback/Guards.antt =====
-- What is in the store after an installation of src/daemon/transaction.rs, committed or not.
use samad_package_manager.Common.{
  ◌≡◌, refl, sym, ◌∙◌, if◌then◌else◌, inl, inr, Bool, true, false, not, ◌&&◌, ◌||◌, Option, none,
  some, List, [], ◌∷◌, ◌++◌, Str, str_eq_refl, str_eq_sym, eq_of_str_eq, any, arith, Bool-cases,
  Option-cases,
}
use samad_package_manager.Daemon.Rollback.{
  origin_from_format, Dir, same_dir, Fs, has_dir, remove_dir, Extracted, RollbackGuard, Drops,
  new_guard, disarm, copy_to_store, drop_dir, drop_guard, drop_guards, disarm_all, guard_for, Calls,
  prepare_one, after_one, prepare_store, settle,
}

same_dir_refl : (d : Dir) → same_dir d d ≡ true
same_dir_refl d = ground (arith, str_eq_refl (d.0), str_eq_refl (d.1))

same_dir_left : (d e f : Dir) → same_dir d e ≡ true → same_dir d f ≡ same_dir e f
same_dir_left d e f h = ground (arith, eq_of_str_eq (d.0) (e.0), eq_of_str_eq (d.1) (e.1))

same_dir_right : (d e f : Dir) → same_dir d e ≡ true → same_dir f d ≡ same_dir f e
same_dir_right d e f h = ground (arith, eq_of_str_eq (d.0) (e.0), eq_of_str_eq (d.1) (e.1))

has_dir-remove :
    (d e : Dir) (dirs : List Dir)
    → has_dir d (remove_dir e dirs) ≡ (has_dir d dirs && not (same_dir d e))
unfolding has_dir remove_dir
has_dir-remove d e [] = refl
has_dir-remove d e (x ∷ dirs) =
    ground (arith, has_dir-remove d e dirs, same_dir_left x d e, same_dir_right x e d)

-- The guard is for this directory.
unfoldable pub guards_dir : Dir → RollbackGuard → Bool
guards_dir d g =
    g.armed && (elim g.store_hash [ none ↦ false | some h ↦ same_dir d (g.store_origin, h) ])

unfoldable pub any_guards : Dir → List RollbackGuard → Bool
any_guards d = any (guards_dir d)

-- Two pairs with the same texts are one directory.
eq_of_same_dir : (d e : Dir) → same_dir d e ≡ true → d ≡ e
eq_of_same_dir d e h = ground (arith, h, eq_of_str_eq (d.0) (e.0), eq_of_str_eq (d.1) (e.1))

module _ (drops : Drops) (d : Dir) where
  drop_one :
      (e : Dir) (dirs : List Dir)
      → has_dir d (if drops.rmdir_ok e then remove_dir e dirs else dirs)
        ≡ (has_dir d dirs && not (same_dir d e && drops.rmdir_ok d))
  drop_one e dirs = elim (Bool-cases (same_dir d e)) [
    | inl q ↦ rw (sym (eq_of_same_dir d e q)) (elim (Bool-cases (drops.rmdir_ok d)) [
      | inl k ↦ rw k (has_dir-remove d d dirs ∙ ground (arith, same_dir_refl d))
      | inr k ↦ rw k (ground arith)
    ])
    | inr q ↦ elim (Bool-cases (drops.rmdir_ok e)) [
      | inl k ↦ rw k (has_dir-remove d e dirs ∙ ground (arith, q))
      | inr k ↦ rw k (ground (arith, q))
    ]
  ]

  drop_dir-has :
      (h : Option Str) (o : Str) (dirs : List Dir)
      → has_dir d (drop_dir drops h o dirs) ≡ (
          has_dir d dirs
          && not ((elim h [ none ↦ false | some x ↦ same_dir d (o, x) ]) && drops.rmdir_ok d))
  drop_dir-has none o dirs = ground arith
  drop_dir-has (some x) o dirs = drop_one (o, x) dirs

  drop_guard-has :
      (g : RollbackGuard) (fs : Fs)
      → has_dir d ((drop_guard drops g fs).store)
        ≡ (has_dir d fs.store && not (guards_dir d g && drops.rmdir_ok d))
  unfolding drop_guard guards_dir
  drop_guard-has g fs = elim (Bool-cases g.armed) [
    | inl e ↦ rw e (drop_dir-has g.store_hash g.store_origin fs.store)
    | inr e ↦ rw e (ground arith)
  ]

  -- Dropping guards takes their directories out of the store where they can be removed, and no
  -- other.
  drop_guards-has :
      (gs : List RollbackGuard) (fs : Fs)
      → has_dir d ((drop_guards drops gs fs).store)
        ≡ (has_dir d fs.store && not (any_guards d gs && drops.rmdir_ok d))
  unfolding drop_guards any_guards
  drop_guards-has [] fs = ground arith
  drop_guards-has (g ∷ gs) fs =
      ground (arith, drop_guards-has gs (drop_guard drops g fs), drop_guard-has g fs)

disarm_all-guards : (d : Dir) (gs : List RollbackGuard) → any_guards d (disarm_all gs) ≡ false
unfolding any_guards guards_dir disarm_all disarm
disarm_all-guards d [] = refl
disarm_all-guards d (g ∷ gs) = disarm_all-guards d gs

-- A fetched package brings this directory.
unfoldable pub brings : Dir → List Extracted → Bool
unfolding origin_from_format
brings d [] = false
brings d (p ∷ ps) =
    (elim p.content [ none ↦ false | some h ↦ same_dir d (origin_from_format p.format, h) ])
    || brings d ps

same_dir_sym : (d e : Dir) → same_dir d e ≡ same_dir e d
same_dir_sym d e = ground (arith, str_eq_sym (d.0) (e.0), str_eq_sym (d.1) (e.1))

has_same :
    (d e : Dir) (dirs : List Dir)
    → same_dir d e ≡ true
    → has_dir e dirs ≡ true
    → has_dir d dirs ≡ true
unfolding has_dir
has_same d e [] q h = h
has_same d e (x ∷ dirs) q h = ground (arith, has_same d e dirs, same_dir_right d e x q)

copy-has :
    (d e : Dir) (fs : Fs)
    → has_dir d ((copy_to_store e fs).store) ≡ (has_dir d fs.store || same_dir d e)
unfolding copy_to_store
copy-has d e fs = elim (Bool-cases (has_dir e fs.store)) [
  | inl h ↦ elim (Bool-cases (same_dir d e)) [
    | inl q ↦ rw (h, q) (ground (arith, has_same d e fs.store q h))
    | inr q ↦ rw (h, q) (ground arith)
  ]
  | inr h ↦ rw h (unfold has_dir in ground (arith, same_dir_sym d e))
]

module _ (calls : Calls) (d : Dir) where
  -- Where a preparation succeeds, its guard holds its directory, which is in the store.
  prepare_one-has :
      (e : Dir) (paths : List Str) (fs : Fs) (g : RollbackGuard) (fs2 : Fs)
      → prepare_one calls e paths fs ≡ (some g, fs2)
      → (guards_dir d g ≡ same_dir d e)
        × (has_dir d fs2.store ≡ (has_dir d fs.store || same_dir d e))
  unfolding prepare_one guard_for new_guard guards_dir
  prepare_one-has e paths fs g fs2 h = ground (arith, copy-has d e fs)

  after_one-has :
      (guards : List RollbackGuard) (ps : List Extracted) (r : Option RollbackGuard × Fs)
      (gs : List RollbackGuard) (fs2 : Fs)
      → after_one calls guards (λ g f. prepare_store calls ps g f) r ≡ (some gs, fs2)
      → (g : RollbackGuard) × (r.0 ≡ some g)
        × (prepare_store calls ps (guards ++ g ∷ []) (r.1) ≡ (some gs, fs2))
  after_one-has guards ps (none, fs) gs fs2 h = cc
  after_one-has guards ps (some g, fs) gs fs2 h = (g, refl, h)

  any_guards-append :
      (gs : List RollbackGuard) (g : RollbackGuard)
      → any_guards d (gs ++ g ∷ []) ≡ (any_guards d gs || guards_dir d g)
  unfolding any_guards
  any_guards-append [] g = ground arith
  any_guards-append (x ∷ gs) g = ground (arith, any_guards-append gs g)

  prepare_store-has :
      (ps : List Extracted) (guards : List RollbackGuard) (fs : Fs) (gs : List RollbackGuard)
      (fs2 : Fs)
      → prepare_store calls ps guards fs ≡ (some gs, fs2)
      → (any_guards d gs ≡ (any_guards d guards || brings d ps))
        × (has_dir d fs2.store ≡ (has_dir d fs.store || brings d ps))
  unfolding prepare_store brings
  prepare_store-has [] guards fs gs fs2 h = ground arith
  prepare_store-has (p ∷ ps) guards fs gs fs2 h = elim (Option-cases p.content) [
    | inl n ↦ rw n (prepare_store-has ps guards fs gs fs2 (rw n at h))
    | inr (x, n) ↦
        let e : Dir = (origin_from_format p.format, x) in
        let r : Option RollbackGuard × Fs = prepare_one calls e p.paths fs in
        let one = after_one-has guards ps r gs fs2 (rw n at h) in
        let has = prepare_one-has e p.paths fs (one.0) (r.1) (ground (arith, one.1)) in
        let rest = prepare_store-has ps (guards ++ one.0 ∷ []) (r.1) gs fs2 (one.2) in
        rw n (
          ground (arith, rest.0, any_guards-append guards (one.0), has.0),
          ground (arith, rest.1, has.1),
        )
  ]

  -- After a commit the store keeps what it had, and has every directory that the packages bring.
  pub commit-keeps :
      (ps : List Extracted) (fs : Fs) (gs : List RollbackGuard) (fs2 : Fs)
      → prepare_store calls ps [] fs ≡ (some gs, fs2)
      → has_dir d ((settle calls.drops true gs fs2).store) ≡ (has_dir d fs.store || brings d ps)
  unfolding settle
  commit-keeps ps fs gs fs2 h = ground (
    arith,
    drop_guards-has calls.drops d (disarm_all gs) fs2,
    disarm_all-guards d gs,
    (prepare_store-has ps [] fs gs fs2 h).1,
  )
