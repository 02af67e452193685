-- ===== src/Common/Text.antt =====
-- Texts as lists of character codes: the operations of `str` that the program calls.
use Prim.Native.Nat.{ℕ, ◌+◌, ◌-◌, ◌*◌, ◌<◌, ◌^◌}
use Prim.Native.Char.{code}
use Prim.Native.String.{String}
use mathlib.Core.Path.{◌≡◌, refl, sym, ap, ◌∙◌}
use mathlib.Core.Logic.{◌↔◌}
use mathlib.Core.Bool.{Bool, true, false, ◌&&◌, ◌||◌}
use mathlib.Core.List.{List, [], ◌∷◌, reverse}
use mathlib.Core.Option.{Option, none, some}
use native.Mathlib.Omega.{arith}
use samad_package_manager.Common.Tests.{ltb, leb, ◌==◌, if◌then◌else◌}
use samad_package_manager.Common.Lists.{length, drop}

-- A text is the list of its bytes; names, versions and paths are ASCII, so a byte is a character.
abbrev pub Str : Type 0
Str = List ℕ

-- A literal.
abbrev pub codes : String → Str
codes String.[] = []
codes (String.◌∷◌ c s) = code c ∷ codes s

-- ==
unfoldable pub str_eq : Str → Str → Bool
str_eq [] [] = true
str_eq [] (y ∷ ys) = false
str_eq (x ∷ xs) [] = false
str_eq (x ∷ xs) (y ∷ ys) = x == y && str_eq xs ys

pub str_eq_refl : (s : Str) → str_eq s s ≡ true
unfolding str_eq
str_eq_refl [] = refl
str_eq_refl (x ∷ xs) = ground (arith, str_eq_refl xs)

pub eq_of_str_eq : (s t : Str) → str_eq s t ≡ true → s ≡ t
unfolding str_eq
eq_of_str_eq [] [] h = refl
eq_of_str_eq [] (y ∷ ys) h = cc
eq_of_str_eq (x ∷ xs) [] h = cc
eq_of_str_eq (x ∷ xs) (y ∷ ys) h = ground (arith, eq_of_str_eq xs ys)

pub str_eq_iff : (s t : Str) → (str_eq s t ≡ true) ↔ (s ≡ t)
str_eq_iff s t = (eq_of_str_eq s t, λ e. ap (str_eq s) (sym e) ∙ str_eq_refl s)

-- Vec::contains, HashSet::contains
unfoldable pub mem : Str → List Str → Bool
mem s [] = false
mem s (x ∷ xs) = str_eq x s || mem s xs

-- char::is_whitespace on ASCII: tab to carriage return, and space.
abbrev pub is_space : ℕ → Bool
is_space c = (leb 9 c && leb c 13) || c == 32

abbrev pub is_digit : ℕ → Bool
is_digit c = leb b'0' c && leb c b'9'

-- u8::is_ascii_alphabetic
abbrev pub is_alpha : ℕ → Bool
is_alpha c = (leb b'A' c && leb c b'Z') || (leb b'a' c && leb c b'z')

-- u8::is_ascii_alphanumeric
abbrev pub is_alnum : ℕ → Bool
is_alnum c = is_alpha c || is_digit c

-- The longest prefix whose characters pass a test, and what follows it.
unfoldable pub take_while : (ℕ → Bool) → Str → Str
take_while p [] = []
take_while p (c ∷ s) = if p c then c ∷ take_while p s else []

unfoldable pub drop_while : (ℕ → Bool) → Str → Str
drop_while p [] = []
drop_while p (c ∷ s) = if p c then drop_while p s else c ∷ s

unfoldable pub trim_start : Str → Str
trim_start = drop_while is_space

unfoldable pub trim_end_matches : (ℕ → Bool) → Str → Str
trim_end_matches p s = reverse (drop_while p (reverse s))

unfoldable pub trim : Str → Str
trim s = trim_end_matches is_space (trim_start s)

unfoldable pub starts_with : Str → Str → Bool
starts_with s [] = true
starts_with [] (p ∷ ps) = false
starts_with (c ∷ s) (p ∷ ps) = c == p && starts_with s ps

unfoldable pub contains : Str → Str → Bool
contains [] p = starts_with [] p
contains (c ∷ s) p = starts_with (c ∷ s) p || contains s p

-- str::split_once with a text: around its first occurrence.
abbrev push_first : ℕ → Option (Str × Str) → Option (Str × Str)
push_first c none = none
push_first c (some (a, b)) = some (c ∷ a, b)

unfoldable pub split_once : Str → Str → Option (Str × Str)
split_once p [] = none
split_once p (c ∷ s) =
    if starts_with (c ∷ s) p
    then some ([], drop (length p) (c ∷ s))
    else push_first c (split_once p s)

-- str::split_once and str::rsplit_once with a character.
unfoldable pub split_char : ℕ → Str → Option (Str × Str)
split_char p [] = none
split_char p (c ∷ s) = if c == p then some ([], s) else push_first c (split_char p s)

abbrev or_here : ℕ → ℕ → Str → Option (Str × Str) → Option (Str × Str)
or_here p c s none = if c == p then some ([], s) else none
or_here p c s (some (a, b)) = some (c ∷ a, b)

unfoldable pub rsplit_char : ℕ → Str → Option (Str × Str)
rsplit_char p [] = none
rsplit_char p (c ∷ s) = or_here p c s (rsplit_char p s)

-- The value of a run of digits, with the value so far; `none` on any other character.
unfoldable pub digits_value : ℕ → Str → Option ℕ
digits_value n [] = some n
digits_value n (c ∷ s) = if is_digit c then digits_value (n * 10 + (c - b'0')) s else none

abbrev below_limit : ℕ → Option ℕ → Option ℕ
below_limit limit none = none
below_limit limit (some n) = if ltb n limit then some n else none

-- str::parse of an unsigned integer type that holds the numbers below `limit`: one sign `+` may
-- lead, at least one digit follows, and an overflow is an error.
unfoldable pub parse_unsigned : ℕ → Str → Option ℕ
unfolding digits_value
parse_unsigned limit [] = none
parse_unsigned limit (c ∷ []) = below_limit limit (digits_value 0 (c ∷ []))
parse_unsigned limit (c ∷ d ∷ s) =
    if c == b'+'
    then below_limit limit (digits_value 0 (d ∷ s))
    else below_limit limit (digits_value 0 (c ∷ d ∷ s))

abbrev pub u32_limit : ℕ
u32_limit = 2 ^ 32

abbrev pub u64_limit : ℕ
u64_limit = 2 ^ 64

-- A number that is read fits its type.
pub parse_unsigned-lt : (limit n : ℕ) (s : Str) → parse_unsigned limit s ≡ some n → n < limit
unfolding parse_unsigned
parse_unsigned-lt limit n [] h = cc
parse_unsigned-lt limit n (c ∷ []) h = ground arith
parse_unsigned-lt limit n (c ∷ d ∷ s) h = ground arith

pub str_eq_sym : (s t : Str) → str_eq s t ≡ str_eq t s
unfolding str_eq
str_eq_sym [] [] = refl
str_eq_sym [] (y ∷ ys) = refl
str_eq_sym (x ∷ xs) [] = refl
str_eq_sym (x ∷ xs) (y ∷ ys) = ground (arith, str_eq_sym xs ys)
