-- ===== src/Db/Installed.antt =====
-- What is read after the removals of src/db/packages.rs.
use samad_package_manager.Package.{PackageFormat, deb, rpm, sam, format_eq, PackageId}
use samad_package_manager.Common.{
  ◌≡◌, refl, inl, inr, Bool, true, false, not, ◌&&◌, none, List, [], ◌∷◌, Str, str_eq, str_eq_refl,
  eq_of_str_eq, keep, if◌then◌else◌, arith, Bool-cases,
}
use samad_package_manager.Db.{Db, InstalledPackage}
use samad_package_manager.Db.Packages.{
  has_key, get_installed_package_by_id, delete_files, delete_package,
  remove_installed_package_by_id,
}

module _ {ℓ} {A : Type ℓ} where
  -- A filter that only looks at what an earlier one has dropped finds nothing.
  keep-dropped :
      (p q : A → Bool)
      → ((x : A) → q x ≡ true → p x ≡ true)
      → (xs : List A) → keep q (keep (λ x. not (p x)) xs) ≡ []
  keep-dropped p q h [] = refl
  keep-dropped p q h (x ∷ xs) = ground (arith, keep-dropped p q h xs, h x)

  -- A filter that looks at nothing that an earlier one has dropped finds what was there.
  keep-kept :
      (p q : A → Bool)
      → ((x : A) → q x ≡ true → p x ≡ false)
      → (xs : List A) → keep q (keep (λ x. not (p x)) xs) ≡ keep q xs
  keep-kept p q h [] = refl
  keep-kept p q h (x ∷ xs) = ground (arith, keep-kept p q h xs, h x)

pub format_eq_refl : (f : PackageFormat) → format_eq f f ≡ true
unfolding format_eq
format_eq_refl deb = refl
format_eq_refl rpm = refl
format_eq_refl sam = refl

pub eq_of_format_eq : (f g : PackageFormat) → format_eq f g ≡ true → f ≡ g
unfolding format_eq
eq_of_format_eq deb deb h = refl
eq_of_format_eq deb rpm h = cc
eq_of_format_eq deb sam h = cc
eq_of_format_eq rpm deb h = cc
eq_of_format_eq rpm rpm h = refl
eq_of_format_eq rpm sam h = cc
eq_of_format_eq sam deb h = cc
eq_of_format_eq sam rpm h = cc
eq_of_format_eq sam sam h = refl

abbrev pub same_key : Str → PackageFormat → PackageId → Bool
same_key name format pid = str_eq name pid.name && format_eq format pid.format

key_same :
    (name : Str) (format : PackageFormat) (pid : PackageId) (p : InstalledPackage)
    → same_key name format pid ≡ true
    → has_key pid.name pid.format p ≡ true
    → has_key name format p ≡ true
key_same name format pid p h k =
    ground (arith, eq_of_str_eq name pid.name, eq_of_format_eq format pid.format)

key_other :
    (name : Str) (format : PackageFormat) (pid : PackageId) (p : InstalledPackage)
    → same_key name format pid ≡ false
    → has_key pid.name pid.format p ≡ true
    → has_key name format p ≡ false
key_other name format pid p h k = ground (
  arith,
  eq_of_str_eq p.name pid.name,
  eq_of_format_eq p.format pid.format,
  eq_of_str_eq p.name name,
  eq_of_format_eq p.format format,
  str_eq_refl p.name,
  format_eq_refl p.format,
)

-- A removed package is not found any more, and every other name or format finds what it found
-- before.
pub get_by_id-remove :
    (db : Db) (gone pid : PackageId)
    → get_installed_package_by_id (remove_installed_package_by_id db gone) pid
      ≡ (if same_key gone.name gone.format pid then none else get_installed_package_by_id db pid)
unfolding get_installed_package_by_id remove_installed_package_by_id delete_package delete_files
get_by_id-remove db gone pid =
    let old = db.installed_packages in
    let p : InstalledPackage → Bool = has_key gone.name gone.format in
    let q : InstalledPackage → Bool = has_key pid.name pid.format in
    elim (Bool-cases (same_key gone.name gone.format pid)) [
      | inl e ↦ rw (keep-dropped p q (λ x. key_same gone.name gone.format pid x e) old, e)
      | inr e ↦ rw (keep-kept p q (λ x. key_other gone.name gone.format pid x e) old, e)
    ]
