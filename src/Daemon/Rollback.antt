-- ===== src/Daemon/Rollback.antt =====
-- phase_prepare_store and RollbackGuard of src/daemon/transaction.rs, with copy_to_store_with_origin
-- and create_fhs_symlinks of src/package/store.rs. The file system is the set of the store's
-- directories and the set of the links into it; empty parent directories are left aside. Which
-- calls fail is a parameter.
pub mod Guards
mod Examples
use samad_package_manager.Package.{PackageFormat, deb, rpm, sam}
use samad_package_manager.Common.{
  Bool, true, false, not, ◌&&◌, ◌||◌, Option, none, some, List, [], ◌∷◌, ◌++◌, Str, codes, str_eq,
  mem, any, keep, if◌then◌else◌,
}

unfoldable pub origin_from_format : PackageFormat → Str
origin_from_format deb = codes "deb"
origin_from_format rpm = codes "rpm"
origin_from_format sam = codes "sam"

-- A directory of the store is named by its origin and its hash.
abbrev pub Dir : Type 0
Dir = Str × Str

abbrev pub same_dir : Dir → Dir → Bool
same_dir d e = str_eq (d.0) (e.0) && str_eq (d.1) (e.1)

pub record Fs : Type 0 where
  pub store : List Dir
  pub links : List Str

unfoldable pub has_dir : Dir → List Dir → Bool
has_dir d = any (λ e. same_dir e d)

unfoldable pub remove_dir : Dir → List Dir → List Dir
remove_dir d = keep (λ e. not (same_dir e d))

unfoldable pub remove_link : Str → List Str → List Str
remove_link p = keep (λ q. not (str_eq q p))

-- A fetched package: the hash of its extracted directory, if that exists, and the paths of the files
-- in it.
pub record Extracted : Type 0 where
  pub format : PackageFormat
  pub content : Option Str
  pub paths : List Str

pub record RollbackGuard : Type 0 where
  pub store_hash : Option Str
  pub store_origin : Str
  pub symlinks : List Str
  pub armed : Bool

unfoldable pub new_guard : RollbackGuard
new_guard = record { store_hash = none; store_origin = []; symlinks = []; armed = true }

unfoldable pub disarm : RollbackGuard → RollbackGuard
disarm g = record g { armed = false }

-- An existing directory is taken as it is.
unfoldable pub copy_to_store : Dir → Fs → Fs
unfolding has_dir
copy_to_store d fs = if has_dir d fs.store then fs else record fs { store = d ∷ fs.store }

-- Each target replaces what stood there.
unfoldable pub create_links : List Str → List Str → List Str
unfolding remove_link
create_links [] links = links
create_links (p ∷ ps) links = create_links ps (p ∷ remove_link p links)

-- Which removals of a guard succeed, those of links and those of directories. One that fails is
-- passed over and leaves what it was to take.
pub record Drops : Type 0 where
  pub unlink_ok : Str → Bool
  pub rmdir_ok : Dir → Bool

module _ (drops : Drops) where
  unfoldable pub remove_links : List Str → List Str → List Str
  unfolding remove_link
  remove_links [] links = links
  remove_links (p ∷ ps) links =
      remove_links ps (if drops.unlink_ok p then remove_link p links else links)

  abbrev pub drop_dir : Option Str → Str → List Dir → List Dir
  drop_dir none origin dirs = dirs
  drop_dir (some h) origin dirs =
      if drops.rmdir_ok (origin, h) then remove_dir (origin, h) dirs else dirs

  -- Drop for RollbackGuard.
  unfoldable pub drop_guard : RollbackGuard → Fs → Fs
  unfolding remove_links remove_dir
  drop_guard g fs =
      if g.armed
      then record {
        store = drop_dir g.store_hash g.store_origin fs.store;
        links = remove_links g.symlinks fs.links;
      }
      else fs

  unfoldable pub drop_guards : List RollbackGuard → Fs → Fs
  unfolding drop_guard
  drop_guards [] fs = fs
  drop_guards (g ∷ gs) fs = drop_guards gs (drop_guard g fs)

unfoldable pub disarm_all : List RollbackGuard → List RollbackGuard
unfolding disarm
disarm_all [] = []
disarm_all (g ∷ gs) = disarm g ∷ disarm_all gs

unfoldable pub guard_for : Dir → List Str → RollbackGuard
unfolding new_guard
guard_for d links = record new_guard {
  store_hash = some (d.1);
  store_origin = d.0;
  symlinks = links;
}

-- Which calls succeed for a directory: the copy, the setting of the run paths, the links; and which
-- removals of the guards.
pub record Calls : Type 0 where
  pub copy_ok : Dir → Bool
  pub rpath_ok : Dir → Bool
  pub links_ok : Dir → Bool
  pub drops : Drops

-- The guards of the packages, or an error; a failing call leaves without a guard what it has done.
abbrev pub Prepared : Type 0
Prepared = Option (List RollbackGuard) × Fs

module _ (calls : Calls) where
  unfoldable pub prepare_one : Dir → List Str → Fs → Option RollbackGuard × Fs
  unfolding copy_to_store create_links guard_for
  prepare_one d paths fs =
      if not (calls.copy_ok d)
      then (none, fs)
      else let copied = copy_to_store d fs in
        if not (calls.rpath_ok d)
        then (none, copied)
        else let linked = record copied { links = create_links paths copied.links } in
          if not (calls.links_ok d) then (none, linked) else (some (guard_for d paths), linked)

  -- The error drops the guards that are already there.
  abbrev pub after_one :
      List RollbackGuard
      → (List RollbackGuard → Fs → Prepared)
      → Option RollbackGuard × Fs
      → Prepared
  after_one guards k (none, fs) = (none, drop_guards calls.drops guards fs)
  after_one guards k (some g, fs) = k (guards ++ g ∷ []) fs

  unfoldable pub prepare_store : List Extracted → List RollbackGuard → Fs → Prepared
  unfolding prepare_one origin_from_format drop_guards
  prepare_store [] guards fs = (some guards, fs)
  prepare_store (p ∷ ps) guards fs = elim p.content [
    | none ↦ prepare_store ps guards fs
    | some h ↦
        after_one guards (λ gs fs2. prepare_store ps gs fs2)
          (prepare_one (origin_from_format p.format, h) p.paths fs)
  ]

-- The end of execute_install: the guards are disarmed after a commit, and dropped at any rate.
unfoldable pub settle : Drops → Bool → List RollbackGuard → Fs → Fs
unfolding drop_guards disarm_all
settle drops committed guards fs =
    if committed then drop_guards drops (disarm_all guards) fs else drop_guards drops guards fs
