-- ===== src/Index/Deb.antt =====
-- src/index/deb.rs: the packages of a Debian repository in the index, and parse_dep_entry of
-- src/backend/mod.rs. Files are given by their lines, an error of reading by `none`.
pub mod Registered
use samad_package_manager.Common.{
  ℕ, Bool, true, false, not, ◌||◌, Option, none, some, List, [], ◌∷◌, ◌++◌, map, Str, codes, ◌==◌,
  trim, trim_end_matches, drop_while, split_char, rsplit_char, split_once, contains, starts_with,
  is_space, if◌then◌else◌, take_while, drop, length,
}
use samad_package_manager.Common.Assoc.{lookup}
use samad_package_manager.Package.{RepoSource}
use samad_package_manager.Package.Repo.{RepoConfig, effective_priority}
use samad_package_manager.Solver.Ranges.{find_op}
use samad_package_manager.Upgrades.Packages.{strip_prefix, is_empty}
use samad_package_manager.Group.Lines.{split_all}
use samad_package_manager.Index.{
  SonameProvider, SonameIndex, insert_provider, set_requires, get_requires,
}

-- The operators in the order in which they are tried here.
abbrev dep_ops : List Str
dep_ops = codes ">=" ∷ codes "<=" ∷ codes ">>" ∷ codes "<<" ∷ codes "=" ∷ codes ">" ∷ codes "<" ∷ []

unfoldable pub parse_op_ver : Str → Str × Str
unfolding find_op trim
parse_op_ver input = elim (find_op dep_ops (trim input)) [
  | none ↦ ([], trim input)
  | some (op, before, ver) ↦ (op, trim ver)
]

abbrev spaced : Str × Str → Str
spaced (op, ver) = op ++ b' ' ∷ ver

abbrev is_op_char : ℕ → Bool
is_op_char c = c == b'<' || c == b'>' || c == b'=' || c == b' '

abbrev plain_entry : Str → Str × Str
unfolding find_op trim trim_end_matches drop_while
plain_entry raw = elim (find_op dep_ops raw) [
  | none ↦ (trim_end_matches is_op_char (drop_while is_op_char raw), [])
  | some (op, name, ver) ↦ (trim name, spaced (op, trim ver))
]

unfoldable pub parse_dep_entry : Str → Str × Str
unfolding parse_op_ver plain_entry split_char trim trim_end_matches
parse_dep_entry raw = elim (split_char b'(' (trim raw)) [
  | none ↦ plain_entry (trim raw)
  | some (name, constraint) ↦
      (trim name, spaced (parse_op_ver (trim (trim_end_matches (λ c. c == b')') constraint))))
]

-- The first alternative that is not empty.
abbrev first_choice : List Str → Str
unfolding trim
first_choice [] = []
first_choice (a ∷ more) = let rest = first_choice more in if is_empty (trim a) then rest else trim a

abbrev has_bar : Str → Bool
has_bar [] = false
has_bar (c ∷ s) = c == b'|' || has_bar s

abbrev entry_text : Str × Str → List Str
entry_text (name, constraint) =
    if is_empty name
    then []
    else if is_empty constraint
    then name ∷ []
    else (name ++ codes " (" ++ constraint ++ codes ")") ∷ []

-- What process_dep pushes.
unfoldable pub process_dep : Str → List Str
unfolding parse_dep_entry split_all trim first_choice
process_dep dep =
    let chosen : Str =
      if has_bar (trim dep) then first_choice (split_all b'|' (trim dep)) else trim dep in
    if is_empty chosen then [] else entry_text (parse_dep_entry chosen)

pub record DebPkgInfo : Type 0 where
  pub version : Str
  pub deps : List Str

abbrev pub PkgMap : Type 0
PkgMap = List (Str × DebPkgInfo)

-- The variables of the loop over the lines.
pub record Stanza : Type 0 where
  pub pkg : Option Str
  pub ver : Option Str
  pub deps : List Str

abbrev pub no_stanza : Stanza
no_stanza = record { pkg = none; ver = none; deps = [] }

-- entry().or_insert
unfoldable pub or_insert : Str → DebPkgInfo → PkgMap → PkgMap
unfolding lookup
or_insert k v m = elim (lookup k m) [ none ↦ m ++ (k, v) ∷ [] | some w ↦ m ]

abbrev pub close_on : Option Str → Option Str → List Str → PkgMap → PkgMap
unfolding or_insert
close_on none ver deps m = m
close_on (some pkg) none deps m = m
close_on (some pkg) (some ver) deps m = or_insert pkg (record { version = ver; deps = deps }) m

unfoldable pub close_stanza : Stanza → PkgMap → PkgMap
unfolding close_on
close_stanza s m = close_on s.pkg s.ver s.deps m

abbrev all_deps : List Str → List Str
unfolding process_dep
all_deps [] = []
all_deps (d ∷ ds) = process_dep d ++ all_deps ds

unfoldable pub stanza_line : Str → Stanza → Stanza
unfolding strip_prefix trim split_all all_deps
stanza_line line s = elim (strip_prefix line (codes "Package: ")) [
  | some val ↦ record s { pkg = some (trim val) }
  | none ↦ elim (strip_prefix line (codes "Version: ")) [
    | some val ↦ record s { ver = some (trim val) }
    | none ↦ elim (strip_prefix line (codes "Depends: ")) [
      | some val ↦ record s { deps = s.deps ++ all_deps (split_all b',' val) }
      | none ↦ elim (strip_prefix line (codes "Pre-Depends: ")) [
        | some val ↦ record s { deps = s.deps ++ all_deps (split_all b',' val) }
        | none ↦ s
      ]
    ]
  ]
]

-- The loop over the lines of a file, and what is behind it.
unfoldable pub scan_stanzas : List Str → Stanza → PkgMap → PkgMap
unfolding stanza_line close_stanza
scan_stanzas [] s m = close_stanza s m
scan_stanzas (line ∷ lines) s m =
    let closed = scan_stanzas lines no_stanza (close_stanza s m) in
    let rest = scan_stanzas lines (stanza_line line s) m in if is_empty line then closed else rest

abbrev pub Listing : Type 0
Listing = List (Str × Option (List Str))

abbrev scan_or_fail : (PkgMap → Option PkgMap) → Option (List Str) → PkgMap → Option PkgMap
unfolding scan_stanzas
scan_or_fail k none m = none
scan_or_fail k (some lines) m = k (scan_stanzas lines no_stanza m)

-- The loop over the files of the directory.
unfoldable pub parse_files : Listing → PkgMap → Option PkgMap
unfolding scan_or_fail starts_with
parse_files [] m = some m
parse_files ((name, text) ∷ files) m =
    let skipped = parse_files files m in
    let read = scan_or_fail (λ n. parse_files files n) text m in
    if starts_with name (codes "Packages-") then read else skipped

-- A directory that cannot be listed counts as empty.
unfoldable pub parse_packages : Option Listing → Option PkgMap
unfolding parse_files
parse_packages none = some []
parse_packages (some files) = parse_files files []

-- split_once at the first white space.
unfoldable pub split_space : Str → Option (Str × Str)
unfolding take_while
split_space s =
    let name : Str = take_while (λ c. not (is_space c)) s in
    elim (drop (length name) s) [ [] ↦ none | ◌∷◌ c rest ↦ some (name, rest) ]

-- rsplit('/').next()
abbrev last_part : Str → Str
unfolding rsplit_char
last_part s = elim (rsplit_char b'/' s) [ none ↦ s | some (before, name) ↦ name ]

module _ (repo_name : Str) (config : RepoConfig) where
  abbrev pub deb_provider : Str → Str → SonameProvider
  unfolding effective_priority
  deb_provider pkg version = record {
    source = RepoSource.deb;
    repo = repo_name;
    pkg = pkg;
    version = version;
    priority = effective_priority config;
  }

  abbrev lacks : Option (List Str) → Bool
  lacks none = true
  lacks (some []) = true
  lacks (some (r ∷ rs)) = false

  -- The body of both loops: the requirements that a name has already stay.
  unfoldable pub register : Str → Str → DebPkgInfo → SonameIndex → SonameIndex
  unfolding insert_provider set_requires get_requires
  register name pkg info index =
      let more : SonameIndex = insert_provider index name (deb_provider pkg info.version) in
      if lacks (get_requires more name) then set_requires more name info.deps else more

  abbrev register_found : Str → Str → Option DebPkgInfo → SonameIndex → SonameIndex
  unfolding register
  register_found soname pkg none index = index
  register_found soname pkg (some info) index = register soname pkg info index

  -- One line of the file Contents.
  unfoldable pub contents_line : PkgMap → Str → SonameIndex → SonameIndex
  unfolding register_found split_space last_part contains lookup trim
  contents_line m line index = elim (split_space (trim line)) [
    | none ↦ index
    | some (path, pkg) ↦
        let soname : Str = last_part (trim path) in
        if contains soname (codes ".so")
        then register_found soname (trim pkg) (lookup (trim pkg) m) index
        else index
  ]

  -- The result and the index, which changes also before an error.
  unfoldable pub contents_lines : PkgMap → List (Option Str) → SonameIndex → Bool × SonameIndex
  unfolding contents_line
  contents_lines m [] index = (true, index)
  contents_lines m (none ∷ lines) index = (false, index)
  contents_lines m (some line ∷ lines) index = contents_lines m lines (contents_line m line index)

  unfoldable pub register_all : PkgMap → SonameIndex → SonameIndex
  unfolding register
  register_all [] index = index
  register_all ((pkg, info) ∷ m) index = register_all m (register pkg pkg info index)

  abbrev then_names : PkgMap → Bool × SonameIndex → Bool × SonameIndex
  unfolding register_all
  then_names m (false, index) = (false, index)
  then_names m (true, index) = (true, register_all m index)

  -- A file Contents that cannot be opened is one whose first line is an error.
  unfoldable pub with_packages :
      Option (List (Option Str)) → Option PkgMap → SonameIndex → Bool × SonameIndex
  unfolding contents_lines then_names
  with_packages contents none index = (false, index)
  with_packages contents (some []) index = (true, index)
  with_packages none (some (p ∷ m)) index = (true, index)
  with_packages (some lines) (some (p ∷ m)) index =
      then_names (p ∷ m) (contents_lines (p ∷ m) lines index)

  unfoldable pub update_index :
      Bool → Option Listing → Option (List (Option Str)) → SonameIndex → Bool × SonameIndex
  unfolding with_packages parse_packages
  update_index exists files contents index =
      if exists then with_packages contents (parse_packages files) index else (false, index)
