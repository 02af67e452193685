-- ===== src/Index/Provided.antt =====
-- What provides a name in the index, and that updates of the index take no provider away.
use samad_package_manager.Common.{
  ◌≡◌, refl, subst, ◌∙◌, inl, inr, Bool, false, ◌&&◌, ◌||◌, Option, none, some, List, [], ◌∷◌, ◌++◌,
  Str, any, str_eq, eq_of_str_eq, arith, Bool-cases,
}
use samad_package_manager.Index.{
  providers_of, SonameProvider, SonameEntry, SonameIndex, find, find-modify, or_empty,
  insert_provider, set_requires, get_providers,
}

abbrev any_of : (SonameProvider → Bool) → Option (List SonameProvider) → Bool
any_of t none = false
any_of t (some ps) = any t ps

-- Some provider of the name passes the test.
unfoldable pub provided : SonameIndex → Str → (SonameProvider → Bool) → Bool
unfolding get_providers
provided i s t = any_of t (get_providers i s)

module _ (t : SonameProvider → Bool) where
  any-append : (ps qs : List SonameProvider) → any t (ps ++ qs) ≡ (any t ps || any t qs)
  any-append [] qs = refl
  any-append (p ∷ ps) qs = ground (arith, any-append ps qs)

  any-or_empty :
      (o : Option SonameEntry) (ps : List SonameProvider)
      → any t ((or_empty o).providers ++ ps) ≡ (any_of t (providers_of o) || any t ps)
  any-or_empty none ps = refl
  any-or_empty (some e) ps = any-append e.providers ps

  any-found : (o : Option SonameEntry) → any t (or_empty o).providers ≡ any_of t (providers_of o)
  any-found none = refl
  any-found (some e) = refl

  -- An insertion adds its provider to its name.
  pub provided-insert_provider :
      (i : SonameIndex) (k s : Str) (p : SonameProvider)
      → provided (insert_provider i k p) s t ≡ (provided i s t || (str_eq k s && t p))
  unfolding provided insert_provider get_providers
  provided-insert_provider i k s p = elim (Bool-cases (str_eq k s)) [
    | inl e ↦
        rw (find-modify k s (λ x. record x { providers = x.providers ++ p ∷ [] }) i.entries, e)
          (any-or_empty (find k i.entries) (p ∷ [])
            ∙ subst
                (λ n.
                  (any_of t (providers_of (find k i.entries)) || any t (p ∷ []))
                  ≡ (any_of t (providers_of (find n i.entries)) || t p))
                (eq_of_str_eq k s e) (ground arith))
    | inr e ↦
        rw (find-modify k s (λ x. record x { providers = x.providers ++ p ∷ [] }) i.entries, e)
          (ground arith)
  ]

  -- The requirements leave the providers.
  pub provided-set_requires :
      (i : SonameIndex) (k s : Str) (rs : List Str)
      → provided (set_requires i k rs) s t ≡ provided i s t
  unfolding provided get_providers set_requires
  provided-set_requires i k s rs = elim (Bool-cases (str_eq k s)) [
    | inl e ↦
        rw (find-modify k s (λ x. record x { requires = rs }) i.entries, e)
          (subst
            (λ n.
              any_of t (some ((or_empty (find k i.entries)).providers))
              ≡ any_of t (providers_of (find n i.entries)))
            (eq_of_str_eq k s e) (any-found (find k i.entries)))
    | inr e ↦ rw (find-modify k s (λ x. record x { requires = rs }) i.entries, e) refl
  ]
