-- ===== src/Engine/Stage.antt =====
-- Phase B of src/package/transaction.rs: fs_deploy_one puts the files of a package into the store
-- and links them, under a guard; with copy_to_store_with_origin, create_fhs_symlinks_smart and
-- is_library_file of src/package/store.rs.
use samad_package_manager.Common.{
  ℕ, Bool, true, false, not, ◌||◌, Option, none, some, List, [], ◌∷◌, ◌++◌, Str, codes, contains,
  rsplit_char, keep, take, length, ltb, if◌then◌else◌,
}
use samad_package_manager.Daemon.Rollback.{
  Dir, Fs, has_dir, remove_dir, create_links, RollbackGuard, new_guard, Drops, drop_guard, drop_dir,
  origin_from_format,
}
use samad_package_manager.Engine.Collect.{Fetched}
use samad_package_manager.Engine.Scripts.{ScriptsDir, Writes, is_empty, save_scripts}

-- The host: the store and the links, the directories of the store that are incomplete, the stored
-- scripts, the sandboxes, and the scripts that were run with their phases.
pub record Host : Type 0 where
  pub fs : Fs
  pub partial : List Dir
  pub scripts : ScriptsDir
  pub sandboxes : List Str
  pub runs : List (Str × Str)

-- What becomes of a copy: a failure leaves nothing, or a part of the directory.
pub data Copy : Type 0 where
  copied refused broken : Copy

-- How the calls on files end: the copy, the run paths, the links, of which some are made before one
-- fails, the writes of the scripts of a package, and the removals whose errors are passed over: those
-- of the guards, of the stored scripts and of the sandbox of a package.
pub record Calls : Type 0 where
  pub copy : Dir → Copy
  pub rpath_ok : Dir → Bool
  pub link_fails : Dir → Option ℕ
  pub writes : Str → Writes
  pub drops : Drops
  pub scripts_ok : Str → Bool
  pub sandbox_ok : Str → Bool

unfoldable pub store_package_dir_for_origin : Str → Dir → Str
store_package_dir_for_origin db_base (origin, hash) =
    let dir : Str = db_base ++ codes "/store/" ++ origin ++ codes "/" in
    if ltb (length hash) 2 then dir ++ hash else dir ++ take 2 hash ++ codes "/" ++ hash

-- Path::file_name
abbrev pub file_name : Str → Str
file_name path = elim (rsplit_char b'/' path) [ none ↦ path | some (dir, name) ↦ name ]

unfoldable pub is_library_file : Str → Bool
unfolding contains
is_library_file path =
    if not (contains (file_name path) (codes ".so"))
    then false
    else contains path (codes "/lib/") || contains path (codes "/lib64/")

-- The files that are linked: all of them, or all but the libraries.
unfoldable pub linked_paths : Str → Bool → Dir → List Str → List Str
unfolding is_library_file store_package_dir_for_origin
linked_paths db_base smart d paths =
    if smart
    then keep (λ p. not (is_library_file (store_package_dir_for_origin db_base d ++ p))) paths
    else paths

-- An existing directory is taken as it is, complete or not.
abbrev pub copy_new : Copy → Dir → Host → Bool × Host
copy_new copied d h = (true, record h { fs = record h.fs { store = d ∷ h.fs.store } })
copy_new refused d h = (false, h)
copy_new broken d h =
    (false, record h { fs = record h.fs { store = d ∷ h.fs.store }; partial = d ∷ h.partial })

unfoldable pub copy_to_store_with_origin : Calls → Dir → Host → Bool × Host
unfolding has_dir
copy_to_store_with_origin calls d h =
    if has_dir d h.fs.store then (true, h) else copy_new (calls.copy d) d h

-- The end of a guard that is dropped.
unfoldable pub drop_on : Drops → RollbackGuard → Host → Host
unfolding drop_guard remove_dir
drop_on drops g h = record h {
  fs = drop_guard drops g h.fs;
  partial = if g.armed then drop_dir drops g.store_hash g.store_origin h.partial else h.partial;
}

abbrev pub with_links : List Str → Host → Host
with_links paths h = record h { fs = record h.fs { links = create_links paths h.fs.links } }

-- A guard, or an error after which the guard is gone.
abbrev pub Guarded : Type 0
Guarded = Option RollbackGuard × Host

-- A deployed package with its guard, or an error.
abbrev pub Deployed : Type 0
Deployed = Option (RollbackGuard × Fetched) × Host

unfoldable pub drop_all : Drops → List RollbackGuard → Host → Host
unfolding drop_on
drop_all drops [] h = h
drop_all drops (g ∷ gs) h = drop_all drops gs (drop_on drops g h)

-- The guards so far, and the packages with the hashes that they have got.
abbrev pub Staged : Type 0
Staged = Option (List RollbackGuard × List Fetched) × Host

module _ (calls : Calls) (db_base : Str) (smart : Bool) where
  -- The guard knows the directory before the run paths are set, and the links once all are made.
  abbrev pub link_all : Dir → List Str → RollbackGuard → Host → Option ℕ → Guarded
  link_all d paths g h none = (some (record g { symlinks = paths }), with_links paths h)
  link_all d paths g h (some n) = (none, drop_on calls.drops g (with_links (take n paths) h))

  abbrev pub after_copy : Dir → List Str → Bool × Host → Guarded
  after_copy d paths (false, h) = (none, h)
  after_copy d paths (true, h) =
      let g : RollbackGuard = record new_guard { store_hash = some (d.1); store_origin = d.0 } in
      if calls.rpath_ok d
      then link_all d (linked_paths db_base smart d paths) g h (calls.link_fails d)
      else (none, drop_on calls.drops g h)

  unfoldable pub deploy_files : Fetched → Host → Guarded
  unfolding copy_to_store_with_origin drop_on create_links new_guard linked_paths origin_from_format
  deploy_files f h = elim f.content [
    | none ↦ (some new_guard, h)
    | some hash ↦
        let d : Dir = (origin_from_format f.rows.pkg.format, hash) in
        after_copy d f.paths (copy_to_store_with_origin calls d h)
  ]

  abbrev pub with_hash : Fetched → Fetched
  with_hash f = elim f.content [
    | none ↦ f
    | some hash ↦ record f {
      rows = record f.rows { pkg = record f.rows.pkg { store_hash = some hash } };
    }
  ]

  abbrev pub saved : Fetched → RollbackGuard → Host → Bool × ScriptsDir → Deployed
  saved f g h (true, scripts) = (some (g, with_hash f), record h { scripts = scripts })
  saved f g h (false, scripts) = (none, drop_on calls.drops g (record h { scripts = scripts }))

  abbrev pub save_for : Fetched → Guarded → Deployed
  save_for f (none, h) = (none, h)
  save_for f (some g, h) =
      if is_empty f.scripts
      then (some (g, with_hash f), h)
      else saved f g h
          (save_scripts (calls.writes f.rows.pkg.name) f.rows.pkg.name f.scripts h.scripts)

  unfoldable pub fs_deploy_one : Fetched → Host → Deployed
  unfolding deploy_files save_scripts is_empty drop_on
  fs_deploy_one f h = save_for f (deploy_files f h)

  abbrev pub stage_next :
      List RollbackGuard
      → List Fetched
      → (List RollbackGuard → List Fetched → Host → Staged)
      → Deployed
      → Staged
  stage_next guards staged k (none, h) = (none, drop_all calls.drops guards h)
  stage_next guards staged k (some (g, f), h) = k (guards ++ g ∷ []) (staged ++ f ∷ []) h

  -- The loop of phase B.
  unfoldable pub stage_all : List Fetched → List RollbackGuard → List Fetched → Host → Staged
  unfolding fs_deploy_one drop_all
  stage_all [] guards staged h = (some (guards, staged), h)
  stage_all (f ∷ fs) guards staged h =
      stage_next guards staged (λ gs ss h2. stage_all fs gs ss h2) (fs_deploy_one f h)
