-- ===== src/Resolver/Collect/Enqueue.antt =====
-- What `phase1_collect_packages` of src/package/resolver/mod.rs puts on its queue.
use samad_package_manager.Common.Members.{mem-append}
use samad_package_manager.Common.{
  ◌≡◌, ◌⊎◌, true, ◌||◌, List, [], ◌∷◌, ◌++◌, map, Str, eq_of_str_eq, mem, arith, Bool-cases, inl,
  inr,
}
use samad_package_manager.Solver.Names.{extract_dep_name}
use samad_package_manager.Resolver.Collect.{enqueue}

module _ (d : Str) (seen : List Str) where
  pub enqueue-old :
      (queue deps : List Str) → mem d queue ≡ true → mem d (enqueue seen queue deps) ≡ true
  unfolding enqueue
  enqueue-old queue [] h = h
  enqueue-old queue (dep ∷ deps) h = elim (Bool-cases (mem (extract_dep_name dep) seen)) [
    | inl e ↦ rw e (enqueue-old queue deps h)
    | inr e ↦ rw e (
        enqueue-old (queue ++ extract_dep_name dep ∷ []) deps
          (ground (arith, mem-append d queue (extract_dep_name dep ∷ []))))
  ]

  -- A requirement is seen already, or joins the queue.
  pub enqueue-new :
      (queue deps : List Str)
      → mem d (map extract_dep_name deps) ≡ true
      → (mem d seen || mem d (enqueue seen queue deps)) ≡ true
  unfolding enqueue mem
  enqueue-new queue [] h = cc
  enqueue-new queue (dep ∷ deps) h =
      let x : Str = extract_dep_name dep in
      let longer : List Str = queue ++ x ∷ [] in
      elim (Bool-cases (mem x seen)) [
        | inl e ↦ rw e (ground (arith, eq_of_str_eq x d, enqueue-new queue deps))
        | inr e ↦ rw e (
            ground (
              arith,
              enqueue-old longer deps,
              mem-append d queue (x ∷ []),
              enqueue-new longer deps,
            ))
      ]

  -- Nothing else joins it.
  pub enqueue-only :
      (queue deps : List Str)
      → mem d (enqueue seen queue deps) ≡ true
      → (mem d queue ≡ true) ⊎ (mem d (map extract_dep_name deps) ≡ true)
  unfolding enqueue mem
  enqueue-only queue [] h = inl h
  enqueue-only queue (dep ∷ deps) h =
      let x : Str = extract_dep_name dep in
      let longer : List Str = queue ++ x ∷ [] in
      elim (Bool-cases (mem x seen)) [
        | inl e ↦ ground (arith, e, enqueue-only queue deps)
        | inr e ↦ ground (arith, e, mem-append d queue (x ∷ []), enqueue-only longer deps)
      ]
