-- ===== src/Version.antt =====
-- src/types/version.rs: versions, how they are read, printed and ordered. `Compare` is the loop
-- of `rpmvercmp`, `Tokens` and `TokenOrder` describe what it decides, and `Refinement`, `Order` and
-- `Display` hold the proofs.
pub mod Compare
pub mod Tokens
pub mod TokenOrder
pub mod Refinement
pub mod Order
pub mod Display
mod Examples
use mathlib.Core.Option.{get_or}
use samad_package_manager.Common.Decimal.{to_decimal}
use samad_package_manager.Common.{
  ℕ, compare as compare_numbers, Ordering, Bool, true, false, Option, none, some, [], ◌∷◌, ◌++◌,
  Str, split_char, rsplit_char, parse_unsigned, u32_limit, then_with, ltb, if◌then◌else◌,
}
use Compare.{rpmvercmp}

pub record Version : Type 0 where
  pub epoch : ℕ
  pub version : Str
  pub release : Str

-- What stands behind the epoch: ver.split_once(':').
abbrev pub epoch_rest : Str → Option (Str × Str) → ℕ × Str
epoch_rest ver none = (0, ver)
epoch_rest ver (some (e, r)) = (get_or (parse_unsigned u32_limit e) 0, r)

abbrev with_release : ℕ → Str → Option (Str × Str) → Version
with_release epoch rest none = record { epoch = epoch; version = rest; release = [] }
with_release epoch rest (some (v, r)) = record { epoch = epoch; version = v; release = r }

unfoldable pub parse : Str → Version
parse ver =
    let (epoch, rest) = epoch_rest ver (split_char b':' ver) in
    with_release epoch rest (rsplit_char b'-' rest)

abbrev is_empty : Str → Bool
is_empty [] = true
is_empty (c ∷ s) = false

-- Display for Version.
unfoldable pub to_string : Version → Str
to_string v =
    if ltb 0 v.epoch
    then to_decimal v.epoch ++ (b':' ∷ (v.version ++ b'-' ∷ v.release))
    else if is_empty v.release
    then v.version
    else v.version ++ b'-' ∷ v.release

-- Ord for Version.
unfoldable pub cmp : Version → Version → Ordering
cmp v w =
    then_with (compare_numbers v.epoch w.epoch)
      (then_with (rpmvercmp v.version w.version) (rpmvercmp v.release w.release))

unfoldable pub compare : Str → Str → Ordering
unfolding parse cmp
compare a b = cmp (parse a) (parse b)

pub data VersionStrategy : Type 0 where
  prefer_stable prefer_newest : VersionStrategy
