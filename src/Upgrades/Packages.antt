-- ===== src/Upgrades/Packages.antt =====
-- The reader of cached Packages files in check_upgrade of src/package/install/upgrade.rs.
use samad_package_manager.Common.{
  ℕ, ◌+◌, ◌≡◌, refl, ap, ◌∙◌, Bool, true, false, not, ◌&&◌, Option, none, some, List, [], ◌∷◌, ◌++◌,
  map, Str, codes, str_eq, trim, starts_with, leb, if◌then◌else◌, drop, length, arith,
}

-- str::strip_prefix
unfoldable pub strip_prefix : Str → Str → Option Str
unfolding starts_with
strip_prefix s p = if starts_with s p then some (drop (length p) s) else none

abbrev pub lower : ℕ → ℕ
lower c = if leb b'A' c && leb c b'Z' then c + 32 else c

-- str::eq_ignore_ascii_case
unfoldable pub eq_ignore_ascii_case : Str → Str → Bool
unfolding str_eq
eq_ignore_ascii_case s t = str_eq (map lower s) (map lower t)

abbrev pub is_empty : Str → Bool
is_empty [] = true
is_empty (c ∷ s) = false

module _ (name : Str) where
  -- `in_pkg` after a line that is not empty.
  abbrev pub names_package : Str → Bool → Bool
  names_package line in_pkg = elim (strip_prefix line (codes "Package: ")) [
    | none ↦ in_pkg
    | some val ↦ eq_ignore_ascii_case (trim val) name
  ]

  -- `version` after a line that is not empty.
  abbrev pub names_version : Str → Bool → Option Str → Option Str
  names_version line in_pkg version =
      if in_pkg
      then elim (strip_prefix line (codes "Version: ")) [
        | none ↦ version
        | some val ↦ some (trim val)
      ]
      else version

  -- The loop over the lines, with the variables `in_pkg`, `version` and `apt_version` at its end.
  -- `version.take()` leaves `none`.
  unfoldable pub scan_lines : List Str → Bool → Option Str → Bool × Option Str × Option Str
  unfolding strip_prefix eq_ignore_ascii_case trim
  scan_lines [] in_pkg version = (in_pkg, version, none)
  scan_lines (line ∷ lines) in_pkg version =
      let now : Bool = names_package line in_pkg in
      let outside = scan_lines lines false version in
      let rest = scan_lines lines now (names_version line now version) in
      if is_empty line then (if in_pkg then (true, none, version) else outside) else rest

  -- The assignment behind the loop.
  abbrev pub after_lines : Bool × Option Str × Option Str → Option Str
  after_lines (in_pkg, version, apt_version) = if in_pkg then version else apt_version

  unfoldable pub scan_file : List Str → Option Str
  unfolding scan_lines
  scan_file lines = after_lines (scan_lines lines false none)

  abbrev pub or_file : Option Str → Option Str → Option Str
  or_file none later = later
  or_file (some v) later = some v

  abbrev pub scan_text : Option (List Str) → Option Str
  scan_text none = none
  scan_text (some lines) = scan_file lines

  -- The loop over the files of the cache, which ends with the first version.
  unfoldable pub deb_version : List (Str × Option (List Str)) → Option Str
  unfolding scan_file starts_with
  deb_version [] = none
  deb_version ((file, text) ∷ files) =
      let later = deb_version files in
      if starts_with file (codes "Packages-") then or_file (scan_text text) later else later

  -- `in_pkg` and `version` behind lines of which none is empty.
  abbrev pub package_at : List Str → Bool → Bool
  package_at [] in_pkg = in_pkg
  package_at (line ∷ lines) in_pkg = package_at lines (names_package line in_pkg)

  abbrev pub version_at : List Str → Bool → Option Str → Option Str
  version_at [] in_pkg version = version
  version_at (line ∷ lines) in_pkg version =
      version_at lines (names_package line in_pkg)
        (names_version line (names_package line in_pkg) version)

  abbrev pub no_blank : List Str → Bool
  no_blank [] = true
  no_blank (line ∷ lines) = not (is_empty line) && no_blank lines

  scan-stanza :
      (stanza : List Str) (b : Bool) (v : Option Str)
      → no_blank stanza ≡ true
      → scan_lines stanza b v ≡ (package_at stanza b, version_at stanza b v, none)
  unfolding scan_lines
  scan-stanza [] b v h = refl
  scan-stanza ([] ∷ lines) b v h = cc
  scan-stanza ((c ∷ cs) ∷ lines) b v h =
      scan-stanza lines (names_package (c ∷ cs) b)
        (names_version (c ∷ cs) (names_package (c ∷ cs) b) v) h

  scan-blank :
      (stanza rest : List Str) (b : Bool) (v : Option Str)
      → no_blank stanza ≡ true
      → package_at stanza b ≡ true
      → after_lines (scan_lines (stanza ++ [] ∷ rest) b v) ≡ none
  unfolding scan_lines
  scan-blank [] rest b v h k = rw k refl
  scan-blank ([] ∷ lines) rest b v h k = cc
  scan-blank ((c ∷ cs) ∷ lines) rest b v h k =
      scan-blank lines rest (names_package (c ∷ cs) b)
        (names_version (c ∷ cs) (names_package (c ∷ cs) b) v) h k

  -- None of the lines names the package.
  abbrev pub no_name : List Str → Bool
  no_name [] = true
  no_name (line ∷ lines) = not (names_package line false) && no_name lines

  -- Lines before the package's stanza, blank ones among them, leave the variables as they are.
  scan-before :
      (before rest : List Str)
      → no_name before ≡ true
      → scan_lines (before ++ rest) false none ≡ scan_lines rest false none
  unfolding scan_lines
  scan-before [] rest h = refl
  scan-before ([] ∷ lines) rest h = scan-before lines rest (ground (arith, h))
  scan-before ((c ∷ cs) ∷ lines) rest h =
      let other : names_package (c ∷ cs) false ≡ false = ground (arith, h) in
      rw other (scan-before lines rest (ground (arith, h)))

  -- A stanza of the package that ends the file has its version found, whatever stanzas of other
  -- packages stand before it; the same stanza with an empty line behind it has none found, whatever
  -- follows.
  pub scan_file-stanza :
      (before stanza rest : List Str)
      → no_name before ≡ true
      → no_blank stanza ≡ true
      → package_at stanza false ≡ true
      → (scan_file (before ++ stanza) ≡ version_at stanza false none)
        × (scan_file (before ++ (stanza ++ [] ∷ rest)) ≡ none)
  unfolding scan_file
  scan_file-stanza before stanza rest g h k = (
    ap after_lines (scan-before before stanza g ∙ scan-stanza stanza false none h) ∙ rw k refl,
    ap after_lines (scan-before before (stanza ++ [] ∷ rest) g)
        ∙ scan-blank stanza rest false none h k,
  )
