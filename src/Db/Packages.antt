-- ===== src/Db/Packages.antt =====
-- src/db/packages.rs: the table `installed_packages`, whose key is the name with the format.
use samad_package_manager.Common.Sort.{sort_by, str_leb}
use samad_package_manager.Common.{
  ℕ, Bool, true, false, not, ◌&&◌, Option, none, some, List, [], ◌∷◌, ◌++◌, map, Str, str_eq, mem,
  keep, length, if◌then◌else◌,
}
use samad_package_manager.Package.{PackageFormat, deb, rpm, sam, format_eq, PackageId}
use samad_package_manager.Db.{Db, InstalledPackage, InstallOrigin, spm, foreign, origin_eq}

abbrev pub has_key : Str → PackageFormat → InstalledPackage → Bool
has_key name format p = str_eq p.name name && format_eq p.format format

abbrev pub first {ℓ} : {A : Type ℓ} → List A → Option A
first [] = none
first (x ∷ xs) = some x

abbrev pub or_else {ℓ} : {A : Type ℓ} → Option A → Option A → Option A
or_else none o = o
or_else (some x) o = some x

unfoldable pub get_installed_package_by_id : Db → PackageId → Option InstalledPackage
get_installed_package_by_id db pid =
    first (keep (has_key pid.name pid.format) db.installed_packages)

-- ORDER BY format ASC LIMIT 1: the formats are written "Deb", "Rpm" and "Sam".
unfoldable pub get_installed_package : Db → Str → Option InstalledPackage
get_installed_package db name = or_else (first (keep (has_key name deb) db.installed_packages)) (
    or_else (first (keep (has_key name rpm) db.installed_packages))
      (first (keep (has_key name sam) db.installed_packages)))

abbrev pub name_leb : InstalledPackage → InstalledPackage → Bool
name_leb p q = str_leb p.name q.name

unfoldable pub list_installed_packages : Db → List InstalledPackage
list_installed_packages db = sort_by name_leb db.installed_packages

unfoldable pub list_installed_packages_by_format : Db → PackageFormat → List InstalledPackage
list_installed_packages_by_format db format =
    sort_by name_leb (keep (λ p. format_eq p.format format) db.installed_packages)

-- INSERT OR REPLACE: the row with the same key goes, and the new one is the last.
unfoldable pub add_installed_package : Db → InstalledPackage → Db
add_installed_package db pkg = record db {
  installed_packages =
      keep (λ p. not (has_key pkg.name pkg.format p)) db.installed_packages ++ pkg ∷ [];
}

abbrev flatten {ℓ} : {A : Type ℓ} → Option (Option A) → Option A
flatten none = none
flatten (some o) = o

-- The row that the query meets first: the format is not asked for.
unfoldable pub get_store_hash : Db → Str → PackageFormat → Option Str
get_store_hash db name format =
    flatten (first (map (λ p. p.store_hash) (keep (λ p. str_eq p.name name) db.installed_packages)))

unfoldable pub remove_installed_package : Db → Str → Db
remove_installed_package db name = record db {
  installed_packages = keep (λ p. not (str_eq p.name name)) db.installed_packages;
}

unfoldable pub delete_files : Db → Str → Db
delete_files db name = record db { files = keep (λ f. not (str_eq f.package_name name)) db.files }

unfoldable pub delete_package : Db → PackageId → Db
delete_package db pid = record db {
  installed_packages = keep (λ p. not (has_key pid.name pid.format p)) db.installed_packages;
}

unfoldable pub remove_installed_package_by_id : Db → PackageId → Db
unfolding delete_files delete_package
remove_installed_package_by_id db pid = delete_package (delete_files db pid.name) pid

abbrev pub is_some {ℓ} : {A : Type ℓ} → Option A → Bool
is_some none = false
is_some (some x) = true

unfoldable pub is_installed : Db → Str → Bool
unfolding get_installed_package
is_installed db name = is_some (get_installed_package db name)

unfoldable pub is_installed_by_id : Db → PackageId → Bool
unfolding get_installed_package_by_id
is_installed_by_id db pid = is_some (get_installed_package_by_id db pid)

-- SELECT DISTINCT.
unfoldable pub distinct : List Str → List Str
distinct [] = []
distinct (x ∷ xs) = x ∷ keep (λ y. not (str_eq y x)) (distinct xs)

unfoldable pub get_all_installed_package_names : Db → List Str
unfolding distinct
get_all_installed_package_names db = distinct (map (λ p. p.name) db.installed_packages)

-- The rows that have a hash; a later row of the same name replaces an earlier one in the map.
unfoldable pub insert_hash : Str → Str → List (Str × Str) → List (Str × Str)
insert_hash k v [] = (k, v) ∷ []
insert_hash k v ((j, w) ∷ m) = if str_eq j k then (j, v) ∷ m else (j, w) ∷ insert_hash k v m

unfoldable pub collect_hashes : List (Str × Str) → List InstalledPackage → List (Str × Str)
collect_hashes m [] = m
collect_hashes m (p ∷ ps) =
    collect_hashes (elim p.store_hash [ none ↦ m | some h ↦ insert_hash p.name h m ]) ps

unfoldable pub get_all_installed_store_hashes : Db → List (Str × Str)
unfolding collect_hashes insert_hash
get_all_installed_store_hashes db = collect_hashes [] db.installed_packages

unfoldable pub get_installed_packages_batch : Db → List Str → List (Str × InstalledPackage)
unfolding mem
get_installed_packages_batch db [] = []
get_installed_packages_batch db (n ∷ names) =
    map (λ p. (p.name, p)) (keep (λ p. mem p.name (n ∷ names)) db.installed_packages)

unfoldable pub get_foreign_packages : Db → List InstalledPackage
get_foreign_packages db =
    sort_by name_leb (keep (λ p. origin_eq p.origin foreign) db.installed_packages)

unfoldable pub count_packages_by_origin : Db → ℕ × ℕ
count_packages_by_origin db = (
  length (keep (λ p. origin_eq p.origin spm) db.installed_packages),
  length (keep (λ p. origin_eq p.origin foreign) db.installed_packages),
)

unfoldable pub get_installed_package_names_by_origin : Db → InstallOrigin → List Str
unfolding distinct
get_installed_package_names_by_origin db origin =
    sort_by str_leb
      (distinct (map (λ p. p.name) (keep (λ p. origin_eq p.origin origin) db.installed_packages)))
