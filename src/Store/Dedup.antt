-- ===== src/Store/Dedup.antt =====
-- src/store/deduplication.rs.
use samad_package_manager.Common.Assoc.{lookup, insert, delete, lookup-insert, lookup-delete}
use samad_package_manager.Package.{PackageFormat, deb, rpm, sam, format_to_string}
use samad_package_manager.Common.{
  ℕ, ◌≡◌, refl, sym, ◌∙◌, inl, inr, Option, none, some, List, [], ◌∷◌, ◌++◌, Str, codes, str_eq,
  str_eq_refl, eq_of_str_eq, split_char, if◌then◌else◌, arith, Bool-cases,
}

pub record Provider : Type 0 where
  pub origin : PackageFormat
  pub package_name : Str
  pub package_hash : Str
  pub priority : ℕ

-- The reference count is shared between copies, but nothing in the program changes it.
pub record SharedLibEntry : Type 0 where
  pub soname : Str
  pub hash : Str
  pub providers : List Provider
  pub ref_count : ℕ

abbrev pub new_entry : Str → Str → SharedLibEntry
new_entry soname hash = record { soname = soname; hash = hash; providers = []; ref_count = 0 }

unfoldable pub add_provider : SharedLibEntry → Provider → SharedLibEntry
add_provider e p = record e { providers = e.providers ++ p ∷ [] }

pub record SharedLibStore : Type 0 where
  pub path : Str
  pub soname_index : List (Str × SharedLibEntry)
  pub hash_index : List (Str × Str)

unfoldable pub empty_store : Str → SharedLibStore
empty_store path = record { path = path; soname_index = []; hash_index = [] }

-- PathBuf::join on relative names.
unfoldable pub path_for : SharedLibStore → Str → Str → Str
path_for s soname hash = s.path ++ b'/' ∷ soname ++ b'/' ∷ hash

unfoldable pub get : SharedLibStore → Str → Option SharedLibEntry
unfolding lookup
get s soname = lookup soname s.soname_index

unfoldable pub get_by_hash : SharedLibStore → Str → Option SharedLibEntry
unfolding lookup get
get_by_hash s hash = elim (lookup hash s.hash_index) [ none ↦ none | some soname ↦ get s soname ]

unfoldable pub insert_entry : SharedLibStore → SharedLibEntry → SharedLibStore
unfolding insert
insert_entry s e = record s {
  hash_index = insert e.hash e.soname s.hash_index;
  soname_index = insert e.soname e s.soname_index;
}

abbrev pub without : SharedLibStore → Str → SharedLibEntry → SharedLibStore
without s soname e = record s {
  soname_index = delete soname s.soname_index;
  hash_index = delete e.hash s.hash_index;
}

abbrev pub remove_found : SharedLibStore → Str → Option SharedLibEntry → SharedLibStore
remove_found s soname none = s
remove_found s soname (some e) = without s soname e

-- The store afterwards; `remove` also returns what `get` found before.
unfoldable pub remove : SharedLibStore → Str → SharedLibStore
unfolding get
remove s soname = remove_found s soname (get s soname)

-- Per-format directories.
pub record OriginStore : Type 0 where
  pub format : PackageFormat
  pub path : Str

pub record StoreManager : Type 0 where
  pub base : Str
  pub origins : List OriginStore
  pub shared_libs : SharedLibStore

unfoldable pub origin_store : Str → PackageFormat → OriginStore
unfolding format_to_string
origin_store base fmt = record { format = fmt; path = base ++ b'/' ∷ format_to_string fmt }

unfoldable pub new_manager : Str → StoreManager
unfolding origin_store empty_store
new_manager base = record {
  base = base;
  origins = origin_store base deb ∷ origin_store base rpm ∷ origin_store base sam ∷ [];
  shared_libs = empty_store (base ++ codes "/shared/libs");
}

-- split('-').next()
unfoldable pub extract_pkg_name : Str → Str
unfolding split_char
extract_pkg_name origin_hash = elim (split_char b'-' origin_hash) [
  | none ↦ origin_hash
  | some (name, rest) ↦ name
]

unfoldable pub priority_for_format : PackageFormat → ℕ
priority_for_format sam = 100
priority_for_format deb = 50
priority_for_format rpm = 50

-- A hash leads to an entry with that hash.
abbrev pub Coherent : SharedLibStore → Type 0
Coherent s =
    (h soname : Str)
    → lookup h s.hash_index ≡ some soname
    → (e : SharedLibEntry) × (get s soname ≡ some e) × (e.hash ≡ h)

-- The name of the new entry is free, or has an entry with the same hash.
abbrev pub Fits : SharedLibStore → SharedLibEntry → Type 0
Fits s e = (old : SharedLibEntry) → get s e.soname ≡ some old → old.hash ≡ e.hash

-- The hash index stays coherent when an entry is inserted under a free name, or with the hash that
-- its name has already.
pub insert-Coherent :
    (s : SharedLibStore) (e : SharedLibEntry) → Coherent s → Fits s e → Coherent (insert_entry s e)
unfolding insert_entry get
insert-Coherent s e c f h soname k = elim (Bool-cases (str_eq e.hash h)) [
  | inl q ↦ (
    e,
    rw (lookup-insert e.soname soname e s.soname_index)
        (ground (arith, lookup-insert e.hash h e.soname s.hash_index, str_eq_refl soname)),
    eq_of_str_eq e.hash h q,
  )
  | inr q ↦
      let old = c h soname (ground (arith, lookup-insert e.hash h e.soname s.hash_index)) in
      elim (Bool-cases (str_eq e.soname soname)) [
        | inl p ↦ (
          e,
          rw (lookup-insert e.soname soname e s.soname_index, p),
          sym (f (old.0) (ground (arith, old.1, eq_of_str_eq e.soname soname))) ∙ old.2,
        )
        | inr p ↦ (old.0, rw (lookup-insert e.soname soname e s.soname_index, p) (old.1), old.2)
      ]
]

-- A new hash under a name that is taken leaves the old hash in the index, and it then finds the
-- entry with the new hash.
pub insert-stale_hash :
    (s : SharedLibStore) (e : SharedLibEntry) (h : Str)
    → lookup h s.hash_index ≡ some e.soname
    → get_by_hash (insert_entry s e) h ≡ some e
unfolding get_by_hash insert_entry get
insert-stale_hash s e h k = ground (
  arith,
  k,
  lookup-insert e.hash h e.soname s.hash_index,
  lookup-insert e.soname e.soname e s.soname_index,
  str_eq_refl e.soname,
)

remove_found-lookup :
    (s : SharedLibStore) (k j : Str) (found : Option SharedLibEntry)
    → lookup k s.soname_index ≡ found
    → lookup j (remove_found s k found).soname_index
      ≡ (if str_eq k j then none else lookup j s.soname_index)
remove_found-lookup s k j none h = ground (arith, h, eq_of_str_eq k j)
remove_found-lookup s k j (some e) h = lookup-delete k j s.soname_index

-- After a removal the name finds nothing, and every other name what it found before.
pub get-remove :
    (s : SharedLibStore) (k j : Str) → get (remove s k) j ≡ (if str_eq k j then none else get s j)
unfolding get remove
get-remove s k j = remove_found-lookup s k j (get s k) refl
