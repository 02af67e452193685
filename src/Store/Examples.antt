-- ===== src/Store/Examples.antt =====
-- The theorems about the store of shared libraries at small stores.
use samad_package_manager.Common.{◌≡◌, refl, true, none, [], ◌∷◌, codes, mem, if◌then◌else◌}
use samad_package_manager.Common.Members.{unique}
use samad_package_manager.Store.Dedup.{SharedLibStore, SharedLibEntry, new_entry, get}
use samad_package_manager.Store.Gc.{Disk, collect_garbage, garbage_at, collect_garbage-get}

abbrev none_yet : SharedLibStore
none_yet = record { path = codes "/store"; soname_index = []; hash_index = [] }

abbrev libz : SharedLibEntry
libz = new_entry (codes "libz.so.1") (codes "aa")

abbrev one : SharedLibStore
one = record none_yet {
  soname_index = (codes "libz.so.1", libz) ∷ [];
  hash_index = (codes "aa", codes "libz.so.1") ∷ [];
}

abbrev disk : Disk
disk = record { exists = λ p. true; remove_ok = λ p. true }

one-unique : unique (codes "libz.so.1" ∷ []) ≡ true
unfolding unique mem
one-unique = refl

collect_garbage-get_example :
    get ((collect_garbage disk one).1) (codes "libz.so.1")
    ≡ (if garbage_at (get one (codes "libz.so.1")) then none else get one (codes "libz.so.1"))
collect_garbage-get_example = collect_garbage-get disk one (codes "libz.so.1") one-unique
