-- ===== src/Package.antt =====
-- src/types/package.rs: package ids, formats and dependencies.
pub mod Id
pub mod Repo
mod Examples
use samad_package_manager.Common.{
  ℕ, Bool, true, false, Option, none, some, List, [], ◌∷◌, ◌++◌, map, Str, codes, str_eq,
  rsplit_char, ltb, leb, ◌&&◌, ◌+◌, if◌then◌else◌,
}

pub data PackageFormat : Type 0 where
  deb rpm sam : PackageFormat

unfoldable pub format_eq : PackageFormat → PackageFormat → Bool
format_eq deb deb = true
format_eq rpm rpm = true
format_eq sam sam = true
format_eq _ _ = false

-- Display for PackageFormat.
unfoldable pub format_to_string : PackageFormat → Str
format_to_string deb = codes "deb"
format_to_string rpm = codes "rpm"
format_to_string sam = codes "sam"

pub record PackageId : Type 0 where
  pub name : Str
  pub format : PackageFormat
  pub version : Str

abbrev pub new : Str → PackageFormat → PackageId
new name format = record { name = name; format = format; version = [] }

abbrev pub new_v : Str → PackageFormat → Str → PackageId
new_v name format version = record { name = name; format = format; version = version }

-- Display for PackageId, which is also its `package_key`.
unfoldable pub to_string : PackageId → Str
unfolding format_to_string
to_string pid = pid.name ++ b':' ∷ format_to_string pid.format

-- char::to_lowercase on ASCII.
unfoldable pub to_lower : ℕ → ℕ
to_lower c = if leb b'A' c && leb c b'Z' then c + 32 else c

-- The `match` on the lower-case format.
unfoldable pub parse_format : Str → Option PackageFormat
parse_format s =
    if str_eq s (codes "deb")
    then some deb
    else if str_eq s (codes "rpm")
    then some rpm
    else if str_eq s (codes "sam")
    then some sam
    else none

abbrev pub id_with_format : Str → Option PackageFormat → Option PackageId
id_with_format name none = none
id_with_format name (some format) = some (new name format)

abbrev pub id_of_parts : Option (Str × Str) → Option PackageId
id_of_parts none = none
id_of_parts (some (name, fmt)) = id_with_format name (parse_format (map to_lower fmt))

unfoldable pub from_str : Str → Option PackageId
unfolding parse_format to_lower
from_str s = id_of_parts (rsplit_char b':' s)

pub data DependencySource : Type 0 where
  system spm sandbox : DependencySource

pub record Dependency : Type 0 where
  pub name : Str
  pub version : Str
  pub source : DependencySource
  pub format : Option PackageFormat

pub data RepoSource : Type 0 where
  deb rpm native : RepoSource

unfoldable pub source_eq : RepoSource → RepoSource → Bool
source_eq RepoSource.deb RepoSource.deb = true
source_eq RepoSource.rpm RepoSource.rpm = true
source_eq native native = true
source_eq _ _ = false

-- The source that serves a format, as the fetching code matches it.
unfoldable pub matching_source : PackageFormat → RepoSource
matching_source PackageFormat.deb = RepoSource.deb
matching_source PackageFormat.rpm = RepoSource.rpm
matching_source sam = native
