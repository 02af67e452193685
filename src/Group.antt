-- ===== src/Group.antt =====
-- src/cli/group.rs: the group of the users who may use the program, in the text of /etc/group.
pub mod Lines
pub mod Gid
pub mod Entry
mod Examples
use samad_package_manager.Common.{
  ℕ, suc, ◌+◌, ◌-◌, Bool, true, false, not, ◌&&◌, ◌||◌, Option, none, some, List, [], ◌∷◌, ◌++◌,
  map, Str, codes, str_eq, trim, starts_with, parse_unsigned, u32_limit, any, keep, length, ltb,
  ◌==◌, if◌then◌else◌,
}
use samad_package_manager.Common.Decimal.{to_decimal}
use samad_package_manager.Group.Lines.{lines, split_all}
use samad_package_manager.Group.Gid.{numbers_in, find_free}
use samad_package_manager.Daemon.Deploy.{Outcome, ok, err}

abbrev pub spm_group : Str
spm_group = codes "spm"

-- A line that begins with the name and a colon.
abbrev pub is_entry : Str → Str → Bool
is_entry name line = starts_with line (name ++ b':' ∷ [])

unfoldable pub group_exists_in_content : Str → Str → Bool
unfolding lines starts_with
group_exists_in_content content name = any (is_entry name) (lines content)

-- The same function on /etc/passwd.
unfoldable pub user_exists_in_content : Str → Str → Bool
unfolding lines starts_with
user_exists_in_content content username = any (is_entry username) (lines content)

-- The third field of the first line of the group.
abbrev gid_of : List Str → Option ℕ → Option ℕ
gid_of (name ∷ password ∷ gid ∷ rest) later =
    if str_eq name spm_group then parse_unsigned u32_limit gid else later
gid_of _ later = later

unfoldable pub gid_in : List Str → Option ℕ
unfolding str_eq split_all parse_unsigned
gid_in [] = none
gid_in (line ∷ ls) = gid_of (split_all b':' line) (gid_in ls)

unfoldable pub group_gid : Str → Option ℕ
unfolding lines gid_in
group_gid content = gid_in (lines content)

abbrev pub split_members : Str → List Str
split_members [] = []
split_members (c ∷ s) = map trim (split_all b',' (c ∷ s))

-- The fourth field, where there are four.
abbrev pub members_of : List Str → List Str
members_of (name ∷ password ∷ gid ∷ members ∷ rest) = split_members members
members_of _ = []

unfoldable pub members_in : Str → List Str → List Str
unfolding starts_with split_all trim
members_in group_name [] = []
members_in group_name (line ∷ ls) =
    let later = members_in group_name ls in
    if is_entry group_name line then members_of (split_all b':' line) else later

unfoldable pub parse_group_members : Str → Str → List Str
unfolding lines members_in
parse_group_members content group_name = members_in group_name (lines content)

-- [T]::join
unfoldable pub join : ℕ → List Str → Str
join sep [] = []
join sep (x ∷ []) = x
join sep (x ∷ y ∷ xs) = x ++ sep ∷ join sep (y ∷ xs)

-- The new line of the group, without its end.
unfoldable pub entry_line : Str → ℕ → List Str → Str
unfolding to_decimal join
entry_line group_name gid members =
    group_name ++ b':' ∷ b'x' ∷ b':' ∷ (to_decimal gid ++ b':' ∷ join b',' members)

-- The loop over the lines.
unfoldable pub replace_lines : Str → Str → List Str → Str
unfolding starts_with
replace_lines group_name entry [] = []
replace_lines group_name entry (line ∷ ls) =
    let rest = replace_lines group_name entry ls in
    (if is_entry group_name line then entry else line) ++ b'\n' ∷ rest

-- str::ends_with with the newline
unfoldable pub ends_with_newline : Str → Bool
ends_with_newline [] = false
ends_with_newline (c ∷ []) = c == b'\n'
ends_with_newline (c ∷ d ∷ s) = ends_with_newline (d ∷ s)

unfoldable pub replace_group_entry : Str → Str → ℕ → List Str → Str
unfolding lines entry_line replace_lines ends_with_newline starts_with
replace_group_entry content group_name gid members =
    let entry : Str = entry_line group_name gid members in
    let replaced : Str = replace_lines group_name entry (lines content) in
    let new : Str =
      if any (is_entry group_name) (lines content)
      then replaced
      else replaced ++ (entry ++ b'\n' ∷ []) in
    if ends_with_newline content && not (ends_with_newline new) then new ++ b'\n' ∷ [] else new

unfoldable pub find_free_gid_from_content : Str → ℕ → Option ℕ
unfolding lines numbers_in find_free
find_free_gid_from_content content start =
    find_free (suc 65535 - start) start (numbers_in (lines content))

-- The three files; `none` is a file that is missing or cannot be read.
pub record Etc : Type 0 where
  pub group : Option Str
  pub gshadow : Option Str
  pub passwd : Option Str

abbrev pub Ended : Type 0
Ended = Outcome (Unit {0}) × Etc

abbrev pub text_or_empty : Option Str → Str
text_or_empty none = []
text_or_empty (some s) = s

unfoldable pub group_exists : Etc → Bool
unfolding group_exists_in_content
group_exists etc = elim etc.group [ none ↦ false | some s ↦ group_exists_in_content s spm_group ]

unfoldable pub user_exists : Etc → Str → Bool
unfolding user_exists_in_content
user_exists etc username = elim etc.passwd [
  | none ↦ false
  | some s ↦ user_exists_in_content s username
]

-- A line is put behind the last one, whether that has an end or not. The writes succeed here.
abbrev pub with_gid : Etc → Str → Option ℕ → Ended
with_gid etc content none = (err, etc)
with_gid etc content (some gid) = (
  ok tt,
  record etc {
    group =
        some (content ++ spm_group ++ b':' ∷ b'x' ∷ b':' ∷ (to_decimal gid ++ b':' ∷ b'\n' ∷ []));
    gshadow = elim etc.gshadow [ none ↦ none | some gs ↦ some (gs ++ spm_group ++ codes ":!::\n") ];
  },
)

abbrev create_in : Etc → Option Str → Ended
create_in etc none = (err, etc)
create_in etc (some content) = with_gid etc content (find_free_gid_from_content content 999)

unfoldable pub handle_group_create : Etc → Ended
unfolding group_exists find_free_gid_from_content to_decimal
handle_group_create etc = if group_exists etc then (ok tt, etc) else create_in etc etc.group

abbrev pub gid_or_default : Option ℕ → ℕ
gid_or_default none = 999
gid_or_default (some gid) = gid

-- read_group_members, group_gid and write_group_entry on a text that is read.
abbrev pub write_members : Etc → Str → List Str → Ended
write_members etc content members = (
  ok tt,
  record etc {
    group =
        some (replace_group_entry content spm_group (gid_or_default (group_gid content)) members);
  },
)

abbrev pub add_member : Str → Etc → Option Str → Ended
add_member username etc none = (err, etc)
add_member username etc (some content) =
    let members : List Str = parse_group_members content spm_group in
    if any (λ m. str_eq m username) members
    then (ok tt, etc)
    else write_members etc content (members ++ username ∷ [])

abbrev after_create : Str → Ended → Ended
after_create username (err, etc) = (err, etc)
after_create username (ok u, etc) = add_member username etc etc.group

unfoldable pub handle_group_add_user : Str → Etc → Ended
unfolding user_exists group_exists handle_group_create parse_group_members group_gid
    replace_group_entry str_eq
handle_group_add_user username etc =
    if not (user_exists etc username)
    then (err, etc)
    else if not (group_exists etc)
    then after_create username (handle_group_create etc)
    else add_member username etc etc.group

abbrev remove_member : Str → Etc → Option Str → Ended
remove_member username etc none = (err, etc)
remove_member username etc (some content) =
    let members : List Str = parse_group_members content spm_group in
    let left : List Str = keep (λ m. not (str_eq m username)) members in
    if length left == length members then (ok tt, etc) else write_members etc content left

unfoldable pub handle_group_remove_user : Str → Etc → Ended
unfolding group_exists parse_group_members group_gid replace_group_entry str_eq
handle_group_remove_user username etc =
    if not (group_exists etc) then (err, etc) else remove_member username etc etc.group
