-- ===== src/Solver/Newest.antt =====
-- best_version of src/package/solver.rs chooses a newest version where it is to prefer the newest.
use samad_package_manager.Version.{Version, parse, cmp, prefer_newest}
use samad_package_manager.Version.Order.{cmp-IsPreorder}
use samad_package_manager.Index.{SonameProvider}
use samad_package_manager.Solver.Ranges.{is_lt, is_gt}
use samad_package_manager.Common.{
  ◌≡◌, ap, subst, inl, inr, Bool, true, false, not, none, some, List, [], ◌∷◌, Str, keep,
  if◌then◌else◌, arith, Bool-cases, Option-cases, All,
}
use samad_package_manager.Solver.Best.{
  SpmDepProvider, provided, is_preferred, max_by_version, version_of, newer, best_of, best_version,
}

-- No provider of the list has a newer version.
abbrev pub Newest : Version → List SonameProvider → Type 0
Newest v = All (λ p. is_gt (cmp (parse p.version) v) ≡ false)

le_trans :
    (u v w : Version) → is_gt (cmp u v) ≡ false → is_gt (cmp v w) ≡ false → is_gt (cmp u w) ≡ false
le_trans u v w h k = ground (
  arith,
  cmp-IsPreorder.cmp_congr u v w,
  cmp-IsPreorder.cmp_congr v w u,
  cmp-IsPreorder.lt_trans u v w,
  cmp-IsPreorder.cmp_flip u v,
  cmp-IsPreorder.cmp_flip u w,
)

le_of_gt : (u v : Version) → is_gt (cmp u v) ≡ true → is_gt (cmp v u) ≡ false
le_of_gt u v h = ground (arith, cmp-IsPreorder.cmp_flip u v)

Newest-above :
    (v w : Version) (ps : List SonameProvider) → is_gt (cmp v w) ≡ false → Newest v ps → Newest w ps
Newest-above v w [] h n = tt
Newest-above v w (p ∷ ps) h (a, n) = (le_trans (parse p.version) v w a h, Newest-above v w ps h n)

max_by_version-none :
    (ps : List SonameProvider) → max_by_version ps ≡ none → (v : Version) → Newest v ps
unfolding max_by_version
max_by_version-none [] h v = tt
max_by_version-none (p ∷ ps) h v = elim (Option-cases (max_by_version ps)) [
  | inl e ↦ ground (arith, e)
  | inr (q, e) ↦ ground (arith, e)
]

le_refl : (v w : Version) → v ≡ w → is_gt (cmp v w) ≡ false
le_refl v w h = ground (arith, h, cmp-IsPreorder.cmp_refl v)

some_injective {ℓ} : {A : Type ℓ} {x y : A} → some x ≡ some y → x ≡ y
some_injective h = ground arith

module _ (q : SonameProvider) (ps : List SonameProvider) where
  max_by_version-first :
      (p : SonameProvider) → max_by_version ps ≡ none → max_by_version (q ∷ ps) ≡ some p → q ≡ p
  unfolding max_by_version
  max_by_version-first p n h = ground (arith, n)

  max_by_version-later :
      (r p : SonameProvider)
      → max_by_version ps ≡ some r
      → max_by_version (q ∷ ps) ≡ some p
      → (if is_gt (cmp (parse q.version) (parse r.version)) then q else r) ≡ p
  unfolding max_by_version
  max_by_version-later r p n h = ground (arith, n)

max_by_version-Newest :
    (ps : List SonameProvider) (p : SonameProvider)
    → max_by_version ps ≡ some p
    → Newest (parse p.version) ps
unfolding max_by_version
max_by_version-Newest [] p h = cc
max_by_version-Newest (q ∷ ps) p h = elim (Option-cases (max_by_version ps)) [
  | inl n ↦ (
    le_refl (parse q.version) (parse p.version)
        (ap (λ x. parse x.version) (max_by_version-first q ps p n h)),
    max_by_version-none ps n (parse p.version),
  )
  | inr (r, n) ↦
      let below = max_by_version-Newest ps r n in
      let e = max_by_version-later q ps r p n h in
      elim (Bool-cases (is_gt (cmp (parse q.version) (parse r.version)))) [
        | inl l ↦
            let same = ap (λ (x : SonameProvider). parse x.version) (rw l at e) in
            (
              le_refl (parse q.version) (parse p.version) same,
              subst (λ v. Newest v ps) same
                  (Newest-above (parse r.version) (parse q.version) ps
                    (le_of_gt (parse q.version) (parse r.version) l) below),
            )
        | inr l ↦
            let same = ap (λ (x : SonameProvider). parse x.version) (rw l at e) in
            subst (λ v. Newest v (q ∷ ps)) same (l, below)
      ]
]

Newest-keep :
    (f : SonameProvider → Bool) (v : Version) (ps : List SonameProvider)
    → Newest v (keep f ps)
    → Newest v (keep (λ p. not (f p)) ps)
    → Newest v ps
Newest-keep f v [] a b = tt
Newest-keep f v (p ∷ ps) a b = elim (Bool-cases (f p)) [
  | inl e ↦ let a2 = rw e at a in (a2.0, Newest-keep f v ps (a2.1) (rw e at b))
  | inr e ↦ let b2 = rw e at b in (b2.0, Newest-keep f v ps (rw e at a) (b2.1))
]

newer_pair :
    (v : Version) (xs ys : List SonameProvider) (a b : Version)
    → Newest a xs
    → Newest b ys
    → newer (some a) (some b) ≡ some v
    → Newest v xs × Newest v ys
newer_pair v xs ys a b m n h = elim (Bool-cases (is_lt (cmp a b))) [
  | inl l ↦
      let same = some_injective (rw l at h) in
      (
        subst (λ x. Newest x xs) same (Newest-above a b xs (ground (arith, l)) m),
        subst (λ x. Newest x ys) same n,
      )
  | inr l ↦
      let same = some_injective (rw l at h) in
      (
        subst (λ x. Newest x xs) same m,
        subst (λ x. Newest x ys) same
            (Newest-above b a ys (ground (arith, l, cmp-IsPreorder.cmp_flip a b)) n),
      )
]

newer-Newest :
    (v : Version) (xs ys : List SonameProvider)
    → newer (version_of (max_by_version xs)) (version_of (max_by_version ys)) ≡ some v
    → Newest v xs × Newest v ys
newer-Newest v xs ys h = elim (Option-cases (max_by_version xs)) [
  | inl m ↦ elim (Option-cases (max_by_version ys)) [
    | inl n ↦ (max_by_version-none xs m v, max_by_version-none ys n v)
    | inr (b, n) ↦
        let same = some_injective (rw (m, n) at h) in
        (max_by_version-none xs m v, subst (λ x. Newest x ys) same (max_by_version-Newest ys b n))
  ]
  | inr (a, m) ↦ elim (Option-cases (max_by_version ys)) [
    | inl n ↦
        let same = some_injective (rw (m, n) at h) in
        (subst (λ x. Newest x xs) same (max_by_version-Newest xs a m), max_by_version-none ys n v)
    | inr (b, n) ↦
        newer_pair v xs ys (parse a.version) (parse b.version) (max_by_version-Newest xs a m)
          (max_by_version-Newest ys b n) (rw (m, n) at h)
  ]
]

-- Where the newest version is preferred, no provider of the package, of the preferred source or of
-- another one, has a newer version than the one that is chosen.
pub best_version-Newest :
    (s : SpmDepProvider) (name : Str) (v : Version)
    → s.strategy ≡ prefer_newest
    → best_version s name ≡ some v
    → Newest v (provided s name)
unfolding best_version
best_version-Newest s name v e h =
    let both =
      newer-Newest v (keep (is_preferred s.preferred_source) (provided s name))
        (keep (λ p. not (is_preferred s.preferred_source p)) (provided s name))
        (unfold best_of in (rw e at h)) in
    Newest-keep (is_preferred s.preferred_source) v (provided s name) (both.0) (both.1)
