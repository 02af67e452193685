-- ===== src/Resolver/Graph.antt =====
-- src/package/resolver/graph.rs, and the conflicts within a batch of src/package/resolver/mod.rs.
use samad_package_manager.Common.Assoc.{lookup, insert}
use samad_package_manager.Common.{
  ℕ, Option, none, some, List, [], ◌∷◌, ◌++◌, map, Str, str_eq, if◌then◌else◌,
}
use samad_package_manager.Package.{PackageFormat, PackageId, RepoSource}

pub data ConflictType : Type 0 where
  system_installed same_batch : ConflictType

pub record MetadataConflict : Type 0 where
  pub package_name : Str
  pub conflicts_with : Str
  pub conflict_type : ConflictType

pub data UnresolvedReason : Type 0 where
  not_in_repos version_conflict circular_dependency missing_provider : UnresolvedReason

pub record UnresolvedDep : Type 0 where
  pub package_id : PackageId
  pub reason : UnresolvedReason
  pub details : Str

pub record Alternative : Type 0 where
  pub name : Str
  pub format : PackageFormat
  pub version : Str
  pub source : RepoSource
  pub priority : ℕ

pub record ResolvedGraph : Type 0 where
  pub topological_order : List PackageId
  pub cycles : List (List PackageId)
  pub unresolved : List PackageId
  pub unresolved_deps : List UnresolvedDep
  pub metadata_conflicts : List MetadataConflict
  pub alternatives : List Alternative

unfoldable pub new_graph : List PackageId → ResolvedGraph
new_graph order = record {
  topological_order = order;
  cycles = [];
  unresolved = [];
  unresolved_deps = [];
  metadata_conflicts = [];
  alternatives = [];
}

unfoldable pub all_package_names : ResolvedGraph → List Str
all_package_names g = map (λ p. p.name) g.topological_order

-- `seen` is version_map: the last package of each name.
abbrev pub batch_conflict : PackageId → Option PackageId → List MetadataConflict
batch_conflict pkg none = []
batch_conflict pkg (some existing) =
    if str_eq existing.version pkg.version
    then []
    else record {
      package_name = pkg.name;
      conflicts_with = existing.name;
      conflict_type = same_batch;
    }
      ∷ []

unfoldable pub batch_conflicts : List (Str × PackageId) → List PackageId → List MetadataConflict
unfolding lookup insert
batch_conflicts seen [] = []
batch_conflicts seen (pkg ∷ rest) =
    batch_conflict pkg (lookup pkg.name seen) ++ batch_conflicts (insert pkg.name pkg seen) rest

unfoldable pub phase4_detect_conflicts : ResolvedGraph → ResolvedGraph
unfolding batch_conflicts
phase4_detect_conflicts g = record g { metadata_conflicts = batch_conflicts [] g.topological_order }

unfoldable pub phase5_classify_unresolved : ResolvedGraph → ResolvedGraph
phase5_classify_unresolved g = g
