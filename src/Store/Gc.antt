-- ===== src/Store/Gc.antt =====
-- src/store/gc.rs. The files of the store that exist, and which of them cannot be removed, are
-- arguments.
use samad_package_manager.Common.Assoc.{lookup, keys}
use samad_package_manager.Common.Members.{unique}
use samad_package_manager.Common.{
  ℕ, suc, ◌≡◌, refl, inl, inr, Bool, true, false, not, ◌&&◌, Option, none, some, List, [], ◌∷◌, Str,
  str_eq, eq_of_str_eq, str_eq_sym, mem, length, ◌==◌, if◌then◌else◌, arith, Bool-cases,
}
use samad_package_manager.Store.Dedup.{
  Provider, SharedLibEntry, SharedLibStore, path_for, get, remove, get-remove,
}

pub record GcStats : Type 0 where
  pub scanned : ℕ
  pub removed : ℕ
  pub errors : ℕ

abbrev no_providers : List Provider → Bool
no_providers [] = true
no_providers (p ∷ ps) = false

unfoldable pub is_garbage : SharedLibEntry → Bool
is_garbage e = e.ref_count == 0 && no_providers e.providers

-- Phase 1.
unfoldable pub to_remove : List (Str × SharedLibEntry) → List Str
unfolding is_garbage
to_remove [] = []
to_remove ((soname, e) ∷ rest) =
    let others = to_remove rest in if is_garbage e then soname ∷ others else others

pub record Disk : Type 0 where
  pub exists : Str → Bool
  pub remove_ok : Str → Bool

abbrev pub count_removal : Disk → Str → GcStats → GcStats
count_removal disk path st =
    if disk.exists path
    then (if disk.remove_ok path
        then record st { removed = suc st.removed }
        else record st { errors = suc st.errors })
    else st

-- Phase 2: the files, of which only the numbers are kept.
unfoldable pub remove_files : Disk → SharedLibStore → List Str → GcStats → GcStats
unfolding get path_for
remove_files disk s [] st = st
remove_files disk s (soname ∷ rest) st = elim (get s soname) [
  | none ↦ remove_files disk s rest st
  | some e ↦ remove_files disk s rest (count_removal disk (path_for s e.soname e.hash) st)
]

-- Phase 3.
unfoldable pub remove_entries : SharedLibStore → List Str → SharedLibStore
unfolding remove
remove_entries s [] = s
remove_entries s (soname ∷ rest) = remove_entries (remove s soname) rest

unfoldable pub collect_garbage : Disk → SharedLibStore → GcStats × SharedLibStore
unfolding to_remove remove_files remove_entries
collect_garbage disk s = (
  remove_files disk s (to_remove s.soname_index)
      (record { scanned = length s.soname_index; removed = 0; errors = 0 }),
  remove_entries s (to_remove s.soname_index),
)

abbrev is_some_entry : Option SharedLibEntry → Bool
is_some_entry none = false
is_some_entry (some e) = true

-- A file that exists and cannot be removed is an error, which leaves the store as it was.
unfoldable pub remove_shared_lib : Disk → SharedLibStore → Str → Str → Option Bool × SharedLibStore
unfolding remove get path_for
remove_shared_lib disk s soname hash =
    let path = path_for s soname hash in
    if disk.exists path && not (disk.remove_ok path)
    then (none, s)
    else (some (is_some_entry (get s soname)), remove s soname)

get-remove_entries :
    (s : SharedLibStore) (ks : List Str) (k : Str)
    → get (remove_entries s ks) k ≡ (if mem k ks then none else get s k)
unfolding remove_entries mem
get-remove_entries s [] k = refl
get-remove_entries s (j ∷ ks) k =
    ground (arith, get-remove_entries (remove s j) ks k, get-remove s j k, str_eq_sym j k)

-- An entry that the collection takes.
abbrev pub garbage_at : Option SharedLibEntry → Bool
garbage_at none = false
garbage_at (some e) = is_garbage e

mem-to_remove :
    (k : Str) (m : List (Str × SharedLibEntry))
    → mem k (keys m) ≡ false
    → mem k (to_remove m) ≡ false
unfolding to_remove mem
mem-to_remove k [] h = refl
mem-to_remove k ((j, e) ∷ m) h = ground (arith, mem-to_remove k m)

to_remove-lookup :
    (k : Str) (m : List (Str × SharedLibEntry))
    → unique (keys m) ≡ true
    → mem k (to_remove m) ≡ garbage_at (lookup k m)
unfolding to_remove mem unique lookup
to_remove-lookup k [] h = refl
to_remove-lookup k ((j, e) ∷ m) h = elim (Bool-cases (str_eq j k)) [
  | inl q ↦ ground (arith, eq_of_str_eq j k, mem-to_remove j m)
  | inr q ↦ ground (arith, to_remove-lookup k m)
]

-- A collection takes the entries that have neither a reference nor a provider, and leaves every
-- other one as it is, whether their files could be removed or not; the map of names has its keys
-- once.
pub collect_garbage-get :
    (disk : Disk) (s : SharedLibStore) (k : Str)
    → unique (keys s.soname_index) ≡ true
    → get ((collect_garbage disk s).1) k ≡ (if garbage_at (get s k) then none else get s k)
unfolding collect_garbage get
collect_garbage-get disk s k u =
    ground (
      arith,
      get-remove_entries s (to_remove s.soname_index) k,
      to_remove-lookup k s.soname_index u,
    )
