-- ===== src/Package/Id.antt =====
-- Package ids as texts: what is printed reads back.
use samad_package_manager.Common.Split.{has_char, rsplit_char-append}
use samad_package_manager.Common.{◌≡◌, refl, false, some, map, str_eq}
use samad_package_manager.Package.{
  PackageFormat, deb, rpm, sam, format_to_string, PackageId, new, to_string, to_lower, parse_format,
  from_str,
}

format-no_colon : (f : PackageFormat) → has_char b':' (format_to_string f) ≡ false
unfolding format_to_string
format-no_colon deb = refl
format-no_colon rpm = refl
format-no_colon sam = refl

parse_format-to_string :
    (f : PackageFormat) → parse_format (map to_lower (format_to_string f)) ≡ some f
unfolding parse_format to_lower format_to_string str_eq
parse_format-to_string deb = refl
parse_format-to_string rpm = refl
parse_format-to_string sam = refl

-- The text of a package id gives back its name, whatever the name holds, and its format; the
-- version is not part of the text.
pub from_str-to_string :
    (pid : PackageId) → from_str (to_string pid) ≡ some (new pid.name pid.format)
unfolding from_str to_string
from_str-to_string pid = rw (
  rsplit_char-append b':' pid.name (format_to_string pid.format) (format-no_colon pid.format),
  parse_format-to_string pid.format,
)
