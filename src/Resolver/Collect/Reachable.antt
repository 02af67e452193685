-- ===== src/Resolver/Collect/Reachable.antt =====
-- What the search collects is what the root reaches.
use mathlib.Core.List.{map-append}
use samad_package_manager.Common.Members.{mem-append, mem-cons_self, unique, unique-append_last}
use samad_package_manager.Common.{
  ℕ, zero, suc, ◌≡◌, refl, ap, sym, subst, ◌∙◌, Bool, true, false, ◌||◌, some, List, [], ◌∷◌, ◌++◌,
  map, Str, str_eq, eq_of_str_eq, str_eq_refl, mem, arith, Bool-cases, List-cases, inl, inr,
}
use samad_package_manager.Package.{PackageId, new}
use samad_package_manager.Index.{SonameIndex, get_requires}
use samad_package_manager.Solver.Names.{extract_dep_name}
use samad_package_manager.Resolver.Collect.Termination.{phase1_total}
use samad_package_manager.Resolver.Collect.{
  Search, enqueue, or_none, visit, search, start, total_requires, phase1_collect_packages,
}
use samad_package_manager.Resolver.Collect.Enqueue.{enqueue-old, enqueue-new, enqueue-only}

-- The names of the requirements of a package.
abbrev pub dep_names : SonameIndex → Str → List Str
dep_names index name = map extract_dep_name (or_none (get_requires index name))

-- The requirements of `root`, their requirements, and so on.
pub data Reach (index : SonameIndex) (root : Str) : Str → Type 0 where
  here : Reach index root root
  step :
      {n : Str}
      → Reach index root n
      → (d : Str) → mem d (dep_names index n) ≡ true
      → Reach index root d

abbrev pub names : List PackageId → List Str
names = map (λ p. p.name)

module _ (index : SonameIndex) (root : PackageId) where
  abbrev known : Search → Str → Bool
  known s n = mem n s.seen || mem n s.queue

  -- The invariant of the loop.
  record Inv (s : Search) : Type 0 where
    recorded : (n : Str) → mem n (names s.collected) ≡ mem n s.seen
    distinct : unique (names s.collected) ≡ true
    reached : (n : Str) → known s n ≡ true → Reach index root.name n
    closed : (n d : Str) → mem n s.seen ≡ true → mem d (dep_names index n) ≡ true → known s d ≡ true
    rooted : known s root.name ≡ true

  start-reached : (n : Str) → known (start root.name) n ≡ true → Reach index root.name n
  unfolding mem
  start-reached n h = subst (Reach index root.name) (eq_of_str_eq root.name n (ground arith)) here

  start-Inv : Inv (start root.name)
  unfolding mem unique
  start-Inv = record {
    recorded = λ n. refl;
    distinct = refl;
    reached = start-reached;
    closed = λ n d h. cc;
    rooted = ground (arith, str_eq_refl root.name);
  }

  -- What is known stays known.
  known_kept :
      (seen : List Str) (name : Str) (queue : List Str) (collected : List PackageId) (d : Str)
      → (mem d seen || mem d (name ∷ queue)) ≡ true
      → known (visit index root.format seen name queue collected) d ≡ true
  unfolding visit mem
  known_kept seen name queue collected d h = elim (Bool-cases (mem name seen)) [
    | inl e ↦ rw e (ground (arith, eq_of_str_eq name d))
    | inr e ↦
        rw e (ground (arith, enqueue-old d (name ∷ seen) queue (or_none (get_requires index name))))
  ]

  module _ (seen : List Str) (name : Str) (queue : List Str) (collected : List PackageId)
      (v : Inv (record { seen = seen; queue = name ∷ queue; collected = collected })) where
    deps : List Str
    deps = or_none (get_requires index name)

    name-reached : Reach index root.name name
    name-reached = v.reached name (ground (arith, mem-cons_self name queue))

    reached_seen : (n : Str) → mem n seen ≡ true → Reach index root.name n
    reached_seen n h = v.reached n (ground arith)

    reached_queue : (n : Str) → mem n queue ≡ true → Reach index root.name n
    unfolding mem
    reached_queue n h = v.reached n (ground arith)

    -- What a visit makes known is reached.
    visit-reached :
        (n : Str)
        → (mem n (name ∷ seen) || mem n (enqueue (name ∷ seen) queue deps)) ≡ true
        → Reach index root.name n
    unfolding mem deps
    visit-reached n h = elim (Bool-cases (str_eq name n)) [
      | inl q ↦ subst (Reach index root.name) (eq_of_str_eq name n q) name-reached
      | inr q ↦ elim (Bool-cases (mem n seen)) [
        | inl k ↦ reached_seen n k
        | inr k ↦ elim (enqueue-only n (name ∷ seen) queue deps (ground arith)) [
          | inl old ↦ reached_queue n old
          | inr new ↦ step name-reached n new
        ]
      ]
    ]

    visit-closed :
        (n d : Str)
        → mem n (name ∷ seen) ≡ true
        → mem d (dep_names index n) ≡ true
        → mem name seen ≡ false
        → known (visit index root.format seen name queue collected) d ≡ true
    unfolding mem
    visit-closed n d h k e = elim (Bool-cases (str_eq name n)) [
      | inl q ↦
          unfold visit in
          rw e (
            enqueue-new d (name ∷ seen) queue (or_none (get_requires index name))
              (subst (λ x. mem d (dep_names index x) ≡ true) (sym (eq_of_str_eq name n q)) k))
      | inr q ↦ known_kept seen name queue collected d (v.closed n d (ground arith) k)
    ]

    visit-recorded :
        (n : Str) → mem n (names (collected ++ new name root.format ∷ [])) ≡ mem n (name ∷ seen)
    unfolding mem
    visit-recorded n =
        rw
          (
            map-append (λ (p : PackageId). p.name) collected (new name root.format ∷ []),
            mem-append n (names collected) (name ∷ []),
            v.recorded n,
          )
          (ground arith)

    visit-distinct :
        mem name seen ≡ false → unique (names (collected ++ new name root.format ∷ [])) ≡ true
    visit-distinct e =
        rw (map-append (λ (p : PackageId). p.name) collected (new name root.format ∷ []))
          (unique-append_last (names collected) name v.distinct (v.recorded name ∙ e))

    visit-seen_old :
        mem name seen ≡ true → (visit index root.format seen name queue collected).seen ≡ seen
    unfolding visit
    visit-seen_old e = rw e

    visit-seen_new :
        mem name seen ≡ false
        → (visit index root.format seen name queue collected).seen ≡ name ∷ seen
    unfolding visit
    visit-seen_new e = rw e

    visit-Inv : Inv (visit index root.format seen name queue collected)
    visit-Inv = elim (Bool-cases (mem name seen)) [
      | inl e ↦ record {
        recorded = unfold visit in rw e v.recorded;
        distinct = unfold visit in rw e v.distinct;
        reached = unfold visit in rw e (λ n h. v.reached n (unfold mem in ground arith));
        closed = λ n d h k.
            known_kept seen name queue collected d
              (v.closed n d (ap (mem n) (sym (visit-seen_old e)) ∙ h) k);
        rooted = known_kept seen name queue collected root.name v.rooted;
      }
      | inr e ↦ record {
        recorded = unfold visit in rw e visit-recorded;
        distinct = unfold visit in rw e (visit-distinct e);
        reached = unfold visit deps in rw e visit-reached;
        closed = λ n d h k. visit-closed n d (ap (mem n) (sym (visit-seen_new e)) ∙ h) k e;
        rooted = known_kept seen name queue collected root.name v.rooted;
      }
    ]

  -- What the loop collects when the queue runs empty.
  pub record Collects (c : List PackageId) : Type 0 where
    pub distinct : unique (names c) ≡ true
    pub sound : (n : Str) → mem n (names c) ≡ true → Reach index root.name n
    pub complete : (n : Str) → Reach index root.name n → mem n (names c) ≡ true

  module _ (s : Search) (v : Inv s) (empty : s.queue ≡ []) where
    known_seen : (n : Str) → known s n ≡ true → mem n s.seen ≡ true
    unfolding mem
    known_seen n h = ground (arith, empty)

    seen_complete : (n : Str) → Reach index root.name n → mem n s.seen ≡ true
    seen_complete _ here = known_seen root.name v.rooted
    seen_complete _ (step {n} r d h) = known_seen d (v.closed n d (seen_complete n r) h)

    end-Collects : Collects s.collected
    end-Collects = record {
      distinct = v.distinct;
      sound = λ n h. v.reached n (ground (arith, v.recorded n));
      complete = λ n r. v.recorded n ∙ seen_complete n r;
    }

  search-step :
      (fuel : ℕ) (s : Search) (n : Str) (q : List Str)
      → s.queue ≡ n ∷ q
      → search index root.format (suc fuel) s
        ≡ search index root.format fuel (visit index root.format s.seen n q s.collected)
  unfolding search
  search-step fuel s n q e = rw (e, search)

  search-Collects :
      (fuel : ℕ) (s : Search) (c : List PackageId)
      → Inv s
      → search index root.format fuel s ≡ some c
      → Collects c
  unfolding search
  search-Collects zero s c v h = elim (List-cases s.queue) [
    | inl e ↦ subst Collects (ground (arith, e)) (end-Collects s v e)
    | inr (n, q, e) ↦ ground (arith, e)
  ]
  search-Collects (suc fuel) s c v h = elim (List-cases s.queue) [
    | inl e ↦ subst Collects (ground (arith, e)) (end-Collects s v e)
    | inr (n, q, e) ↦
        search-Collects fuel (visit index root.format s.seen n q s.collected) c
          (visit-Inv s.seen n q s.collected (subst (λ queue. Inv (record s { queue = queue })) e v))
          (sym (search-step fuel s n q e) ∙ h)
  ]

  -- The search for the packages of a root ends, and collects every package that the root reaches
  -- over requirements, the root among them, each of them once and nothing else.
  pub phase1-Collects :
      (c : List PackageId) × (phase1_collect_packages index root ≡ some c) × Collects c
  unfolding phase1_collect_packages
  phase1-Collects =
      let total = phase1_total index root in
      (
        total.0,
        total.1,
        search-Collects (suc (total_requires index.entries)) (start root.name) (total.0) start-Inv
            (total.1),
      )
