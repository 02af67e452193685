-- ===== src/Resolver/Cache.antt =====
-- src/package/resolver/cache.rs and `resolve` of src/package/resolver/mod.rs. Time is in
-- milliseconds. The components with cycles, which `tarjan_scc` finds, are a parameter, and so is
-- the answer of the solver.
use samad_package_manager.Common.Assoc.{lookup, insert, lookup-insert}
use samad_package_manager.Common.Decimal.{to_decimal}
use samad_package_manager.Common.{
  ℕ, suc, ◌-◌, ◌*◌, ◌≤◌, ◌≡◌, refl, ap, ◌∙◌, Bool, true, Option, none, some, List, [], ◌∷◌, ◌++◌,
  Str, str_eq_refl, length, ltb, if◌then◌else◌, arith,
}
use samad_package_manager.Package.{PackageId, RepoSource, format_to_string}
use samad_package_manager.Version.{VersionStrategy, prefer_stable, prefer_newest}
use samad_package_manager.Resolver.Graph.{
  ResolvedGraph, new_graph, phase4_detect_conflicts, phase5_classify_unresolved,
}

pub record CacheEntry : Type 0 where
  pub packages : List PackageId
  pub inserted_at : ℕ

pub record DependencyCache : Type 0 where
  pub epoch : ℕ
  pub ttl : ℕ
  pub entries : List (Str × CacheEntry)

unfoldable pub with_ttl : ℕ → DependencyCache
with_ttl ttl_secs = record { epoch = 0; ttl = ttl_secs * 1000; entries = [] }

unfoldable pub new_cache : DependencyCache
unfolding with_ttl
new_cache = with_ttl 300

unfoldable pub cache_key : PackageId → ℕ → Str
unfolding format_to_string
cache_key root strategy =
    root.name
    ++ b':' ∷ format_to_string root.format
    ++ b':' ∷ root.version
    ++ b':' ∷ b'e' ∷ to_decimal strategy

abbrev pub fresh : ℕ → ℕ → Option CacheEntry → Option (List PackageId)
fresh ttl now none = none
fresh ttl now (some e) = if ltb ttl (now - e.inserted_at) then none else some e.packages

unfoldable pub get : DependencyCache → PackageId → ℕ → ℕ → Option (List PackageId)
unfolding lookup cache_key
get c root strategy now = fresh c.ttl now (lookup (cache_key root strategy) c.entries)

unfoldable pub set : DependencyCache → PackageId → ℕ → List PackageId → ℕ → DependencyCache
unfolding insert cache_key
set c root strategy packages now = record c {
  entries =
      insert (cache_key root strategy) (record { packages = packages; inserted_at = now })
        c.entries;
}

unfoldable pub invalidate_all : DependencyCache → DependencyCache
invalidate_all c = record c { epoch = suc c.epoch; entries = [] }

unfoldable pub len : DependencyCache → ℕ
len c = length c.entries

pub record ResolverConfig : Type 0 where
  pub strategy : VersionStrategy
  pub preferred_source : Option RepoSource
  pub prefer_newest : Bool
  pub enable_cache : Bool

unfoldable pub strategy_val : VersionStrategy → ℕ
strategy_val prefer_stable = 0
strategy_val prefer_newest = 1

module _ (tarjan_scc : List PackageId → List (List PackageId)) where
  unfoldable pub phase3_detect_cycles : List PackageId → ResolvedGraph
  unfolding new_graph
  phase3_detect_cycles packages = record (new_graph packages) { cycles = tarjan_scc packages }

  unfoldable pub full_graph : List PackageId → ResolvedGraph
  unfolding phase3_detect_cycles phase4_detect_conflicts phase5_classify_unresolved
  full_graph solved =
      phase5_classify_unresolved (phase4_detect_conflicts (phase3_detect_cycles solved))

  abbrev pub Resolution : Type 0
  Resolution = Option ResolvedGraph × DependencyCache

  -- The phases, for the answer of the solver.
  unfoldable pub compute :
      ResolverConfig → DependencyCache → PackageId → ℕ → Option (List PackageId) → Resolution
  unfolding full_graph set strategy_val
  compute cfg cache root now none = (none, cache)
  compute cfg cache root now (some solved) =
      let g = full_graph solved in
      (
        some g,
        if cfg.enable_cache
            then set cache root (strategy_val cfg.strategy) g.topological_order now
            else cache,
      )

  unfoldable pub cached : ResolverConfig → DependencyCache → PackageId → ℕ → Option (List PackageId)
  unfolding get strategy_val
  cached cfg cache root now =
      if cfg.enable_cache then get cache root (strategy_val cfg.strategy) now else none

  abbrev or_cached :
      ResolverConfig
      → DependencyCache
      → PackageId
      → ℕ
      → Option (List PackageId)
      → Option (List PackageId)
      → Resolution
  or_cached cfg cache root now answer none = compute cfg cache root now answer
  or_cached cfg cache root now answer (some order) = (some (new_graph order), cache)

  unfoldable pub resolve :
      ResolverConfig → DependencyCache → PackageId → ℕ → Option (List PackageId) → Resolution
  unfolding cached compute new_graph
  resolve cfg cache root now answer =
      or_cached cfg cache root now answer (cached cfg cache root now)

  -- What the cache gives for a root that was just resolved, as long as the entry lives.
  get-set :
      (c : DependencyCache) (root : PackageId) (strategy : ℕ) (packages : List PackageId)
      (now later : ℕ)
      → later - now ≤ c.ttl
      → get (set c root strategy packages now) root strategy later ≡ some packages
  unfolding get set
  get-set c root strategy packages now later h =
      rw
        (
          lookup-insert (cache_key root strategy) (cache_key root strategy)
              (record { packages = packages; inserted_at = now }) c.entries,
          str_eq_refl (cache_key root strategy),
        )
        (ground arith)

  module _ (cfg : ResolverConfig) (cache : DependencyCache) (root : PackageId) (now : ℕ) where
    resolve-miss :
        (solved : List PackageId)
        → cached cfg cache root now ≡ none
        → resolve cfg cache root now (some solved) ≡ compute cfg cache root now (some solved)
    resolve-miss solved n = unfold resolve in ap (or_cached cfg cache root now (some solved)) n

    resolve-hit :
        (answer : Option (List PackageId)) (order : List PackageId)
        → cached cfg cache root now ≡ some order
        → resolve cfg cache root now answer ≡ (some (new_graph order), cache)
    resolve-hit answer order n = unfold resolve in ap (or_cached cfg cache root now answer) n

    cached-enabled :
        cfg.enable_cache ≡ true
        → cached cfg cache root now ≡ get cache root (strategy_val cfg.strategy) now
    cached-enabled e = unfold cached in rw e

    compute-graph :
        (solved : List PackageId)
        → (compute cfg cache root now (some solved)).0 ≡ some (full_graph solved)
    unfolding compute
    compute-graph solved = refl

    compute-set :
        (solved : List PackageId)
        → cfg.enable_cache ≡ true
        → (compute cfg cache root now (some solved)).1
          ≡ set cache root (strategy_val cfg.strategy) solved now
    unfolding compute full_graph phase3_detect_cycles phase4_detect_conflicts
        phase5_classify_unresolved new_graph
    compute-set solved e = rw e

  -- Where a resolution with the cache is computed and repeated before its entry expires, the second
  -- one returns the same order of packages whatever the solver would say by then, but without the
  -- cycles and the conflicts that the first one reported.
  pub resolve-cached :
      (cfg : ResolverConfig) (cache : DependencyCache) (root : PackageId) (now later : ℕ)
      (solved : List PackageId) (answer : Option (List PackageId))
      → cfg.enable_cache ≡ true
      → cached cfg cache root now ≡ none
      → later - now ≤ cache.ttl
      → let first = resolve cfg cache root now (some solved) in
        (first.0 ≡ some (full_graph solved))
        × ((resolve cfg (first.1) root later answer).0 ≡ some (new_graph solved))
  resolve-cached cfg cache root now later solved answer e n h =
      let miss = resolve-miss cfg cache root now solved n in
      let after = set cache root (strategy_val cfg.strategy) solved now in
      let kept = ap (λ (r : Resolution). r.1) miss ∙ compute-set cfg cache root now solved e in
      let hit =
        cached-enabled cfg after root later e
        ∙ get-set cache root (strategy_val cfg.strategy) solved now later h in
      (
        ap (λ (r : Resolution). r.0) miss ∙ compute-graph cfg cache root now solved,
        ap (λ c. (resolve cfg c root later answer).0) kept
            ∙ ap (λ (r : Resolution). r.0) (resolve-hit cfg after root later answer solved hit),
      )
