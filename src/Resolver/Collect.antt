-- ===== src/Resolver/Collect.antt =====
-- `phase1_collect_packages` of src/package/resolver/mod.rs: the packages that a root requires, by
-- a breadth-first search over the index.
pub mod Termination
pub mod Enqueue
pub mod Reachable
use samad_package_manager.Common.{
  ℕ, zero, suc, ◌+◌, ◌≤◌, ◌<◌, ◌≡◌, refl, Bool, true, false, Option, none, some, List, [], ◌∷◌,
  ◌++◌, length, Str, mem, if◌then◌else◌,
}
use samad_package_manager.Package.{PackageFormat, PackageId, new}
use samad_package_manager.Index.{SonameIndex, SonameEntry, Entries, get_requires}
use samad_package_manager.Solver.Names.{extract_dep_name}

-- `seen` is the hash set, newest first.
pub record Search : Type 0 where
  pub seen : List Str
  pub queue : List Str
  pub collected : List PackageId

-- The requirements whose names are not yet seen join the queue.
unfoldable pub enqueue : List Str → List Str → List Str → List Str
enqueue seen queue [] = queue
enqueue seen queue (dep ∷ deps) =
    let name = extract_dep_name dep in
    enqueue seen (if mem name seen then queue else queue ++ name ∷ []) deps

abbrev pub or_none : Option (List Str) → List Str
or_none none = []
or_none (some deps) = deps

module _ (index : SonameIndex) (format : PackageFormat) where
  -- The loop's body, for the name that left the queue.
  unfoldable pub visit : List Str → Str → List Str → List PackageId → Search
  visit seen name queue collected =
      if mem name seen
      then record { seen = seen; queue = queue; collected = collected }
      else record {
        seen = name ∷ seen;
        queue = enqueue (name ∷ seen) queue (or_none (get_requires index name));
        collected = collected ++ new name format ∷ [];
      }

  -- `while let Some(name) = queue.pop_front()`, on fuel; `none` means that the fuel ran out.
  unfoldable pub search : ℕ → Search → Option (List PackageId)
  search zero s = elim s.queue [ [] ↦ some s.collected | _ ∷ _ ↦ none ]
  search (suc fuel) s = elim s.queue [
    | [] ↦ some s.collected
    | name ∷ queue ↦ search fuel (visit s.seen name queue s.collected)
  ]

abbrev pub total_requires : Entries → ℕ
total_requires [] = 0
total_requires ((k, e) ∷ es) = length e.requires + total_requires es

abbrev pub start : Str → Search
start root = record { seen = []; queue = root ∷ []; collected = [] }

-- A name joins the queue once for each requirement that mentions it at most, so one round for
-- each requirement in the index, and one for the root, are enough.
unfoldable pub phase1_collect_packages : SonameIndex → PackageId → Option (List PackageId)
unfolding search visit enqueue
phase1_collect_packages index root =
    search index root.format (suc (total_requires index.entries)) (start root.name)
