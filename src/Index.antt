-- ===== src/Index.antt =====
-- src/index/mod.rs: the index from sonames and package names to what provides them and what they
-- require. The hash map is an association list whose first entry for a key is the one that counts.
-- Reading and writing the index file are not modelled.
pub mod Provided
pub mod Deb
pub mod Sam
pub mod Rpm
mod Examples
use samad_package_manager.Common.{
  ℕ, ◌≡◌, refl, Option, none, some, List, [], ◌∷◌, ◌++◌, Str, str_eq, eq_of_str_eq, str_eq_refl,
  if◌then◌else◌, arith,
}
use samad_package_manager.Package.{RepoSource}

pub record SonameProvider : Type 0 where
  pub source : RepoSource
  pub repo : Str
  pub pkg : Str
  pub version : Str
  pub priority : ℕ

pub record SonameEntry : Type 0 where
  pub requires : List Str
  pub providers : List SonameProvider

abbrev pub Entries : Type 0
Entries = List (Str × SonameEntry)

pub record SonameIndex : Type 0 where
  pub version : ℕ
  pub entries : Entries

abbrev pub soname_index_version : ℕ
soname_index_version = 1

abbrev pub new : SonameIndex
new = record { version = soname_index_version; entries = [] }

unfoldable pub find : Str → Entries → Option SonameEntry
find k [] = none
find k ((j, e) ∷ rest) = if str_eq j k then some e else find k rest

abbrev pub empty_entry : SonameEntry
empty_entry = record { requires = []; providers = [] }

-- entries.entry(soname).or_insert_with(..), and a change of that entry.
unfoldable pub modify : Str → (SonameEntry → SonameEntry) → Entries → Entries
modify k f [] = (k, f empty_entry) ∷ []
modify k f ((j, e) ∷ rest) = if str_eq j k then (j, f e) ∷ rest else (j, e) ∷ modify k f rest

unfoldable pub insert_provider : SonameIndex → Str → SonameProvider → SonameIndex
insert_provider i soname provider = record i {
  entries = modify soname (λ e. record e { providers = e.providers ++ provider ∷ [] }) i.entries;
}

unfoldable pub set_requires : SonameIndex → Str → List Str → SonameIndex
set_requires i soname requires = record i {
  entries = modify soname (λ e. record e { requires = requires }) i.entries;
}

abbrev pub providers_of : Option SonameEntry → Option (List SonameProvider)
providers_of none = none
providers_of (some e) = some e.providers

abbrev pub requires_of : Option SonameEntry → Option (List Str)
requires_of none = none
requires_of (some e) = some e.requires

unfoldable pub get_providers : SonameIndex → Str → Option (List SonameProvider)
get_providers i soname = providers_of (find soname i.entries)

unfoldable pub get_requires : SonameIndex → Str → Option (List Str)
get_requires i soname = requires_of (find soname i.entries)

abbrev pub or_empty : Option SonameEntry → SonameEntry
or_empty none = empty_entry
or_empty (some e) = e

pub find-modify :
    (k j : Str) (f : SonameEntry → SonameEntry) (es : Entries)
    → find j (modify k f es) ≡ (if str_eq k j then some (f (or_empty (find k es))) else find j es)
unfolding find modify
find-modify k j f [] = refl
find-modify k j f ((i, e) ∷ es) = ground (
  arith,
  find-modify k j f es,
  eq_of_str_eq i k,
  eq_of_str_eq i j,
  eq_of_str_eq k j,
  str_eq_refl k,
)

-- What an update of the index leaves to be read: setting the requirements of one name changes what
-- that name requires, and nothing that any name provides or that another name requires.
pub get_requires-set_requires :
    (i : SonameIndex) (k j : Str) (rs : List Str)
    → (get_requires (set_requires i k rs) j ≡ (if str_eq k j then some rs else get_requires i j))
      × (get_providers (set_requires i k rs) j ≡ (
          if str_eq k j then some ((or_empty (find k i.entries)).providers) else get_providers i j))
unfolding get_requires set_requires get_providers
get_requires-set_requires i k j rs = (
  rw (find-modify k j (λ e. record e { requires = rs }) i.entries) (ground arith),
  rw (find-modify k j (λ e. record e { requires = rs }) i.entries) (ground arith),
)
