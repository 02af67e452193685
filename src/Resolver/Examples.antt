-- ===== src/Resolver/Examples.antt =====
-- The theorems about the resolver at a small index.
use samad_package_manager.Common.Assoc.{lookup}
use samad_package_manager.Version.{prefer_stable}
use samad_package_manager.Resolver.Cache.{ResolverConfig, with_ttl, new_cache, cached, get}
use samad_package_manager.Common.{
  ◌-◌, ◌≤◌, arith, refl, true, false, none, ◌≡◌, some, List, [], ◌∷◌, codes,
}
use samad_package_manager.Package.{PackageId, deb, new}
use samad_package_manager.Index.{
  SonameIndex, Entries, get_requires, set_requires, get_providers, or_empty, find,
  get_requires-set_requires,
}
use samad_package_manager.Index
use samad_package_manager.Resolver.Collect.{phase1_collect_packages}
use samad_package_manager.Resolver.Collect.Reachable.{Collects, phase1-Collects}

-- app requires lib and tool, lib requires app: a cycle.
abbrev cyclic : SonameIndex
cyclic =
    set_requires (set_requires Index.new (codes "app") (codes "lib (>= 2)" ∷ codes "tool" ∷ []))
      (codes "lib") (codes "app = 1" ∷ [])

phase1-Collects_example :
    (c : List PackageId) × (phase1_collect_packages cyclic (new (codes "app") deb) ≡ some c)
    × Collects cyclic (new (codes "app") deb) c
phase1-Collects_example = phase1-Collects cyclic (new (codes "app") deb)

-- A solver's answer with a cycle, as a search for cycles would report it.
abbrev no_cycles : List PackageId → List (List PackageId)
no_cycles packages = packages ∷ []

abbrev cached_config : ResolverConfig
cached_config = record {
  strategy = prefer_stable;
  preferred_source = none;
  prefer_newest = false;
  enable_cache = true;
}

abbrev app : PackageId
app = new (codes "app") deb

nothing_cached : cached no_cycles cached_config new_cache app 1000 ≡ none
unfolding cached get lookup new_cache with_ttl
nothing_cached = refl

still_fresh : 2000 - 1000 ≤ new_cache.ttl
unfolding new_cache with_ttl
still_fresh = omega arith
