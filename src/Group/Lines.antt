-- ===== src/Group/Lines.antt =====
-- str::lines and str::split of the texts of src/cli/group.rs.
use samad_package_manager.Common.{
  ℕ, ◌≡◌, refl, inl, inr, Bool, true, false, not, ◌&&◌, List, [], ◌∷◌, ◌++◌, Str, ◌==◌, arith,
  Bool-cases, ==_refl, if◌then◌else◌,
}
use samad_package_manager.Common.Split.{has_char}

-- A character before the first part.
abbrev pub cons_first : ℕ → List Str → List Str
cons_first c [] = (c ∷ []) ∷ []
cons_first c (l ∷ ls) = (c ∷ l) ∷ ls

abbrev pub starts_line : Str → Bool
starts_line [] = false
starts_line (c ∷ s) = c == b'\n'

-- A line ends with a newline, or with a carriage return and a newline; the last one may have no end.
unfoldable pub lines : Str → List Str
lines [] = []
lines (c ∷ s) =
    let rest = lines s in
    if c == b'\n' then [] ∷ rest else if c == 13 && starts_line s then rest else cons_first c rest

-- All parts between the separators.
unfoldable pub split_all : ℕ → Str → List Str
split_all sep [] = [] ∷ []
split_all sep (c ∷ s) =
    let rest = split_all sep s in if c == sep then [] ∷ rest else cons_first c rest

pub split_all-none : (sep : ℕ) (s : Str) → has_char sep s ≡ false → split_all sep s ≡ s ∷ []
unfolding split_all
split_all-none sep [] h = refl
split_all-none sep (c ∷ s) h = ground (arith, h, split_all-none sep s)

pub split_all-append :
    (sep : ℕ) (a b : Str)
    → has_char sep a ≡ false
    → split_all sep (a ++ sep ∷ b) ≡ a ∷ split_all sep b
unfolding split_all
split_all-append sep [] b h = rw (==_refl sep) refl
split_all-append sep (c ∷ a) b h = ground (arith, h, split_all-append sep a b)

-- Neither a newline nor a carriage return.
abbrev pub is_line : Str → Bool
is_line s = not (has_char b'\n' s) && not (has_char 13 s)

pub lines-append : (l rest : Str) → is_line l ≡ true → lines (l ++ b'\n' ∷ rest) ≡ l ∷ lines rest
unfolding lines
lines-append [] rest h = refl
lines-append (c ∷ l) rest h = ground (arith, h, lines-append l rest)

-- All of the lines are without ends.
abbrev pub are_lines : List Str → Bool
are_lines [] = true
are_lines (l ∷ ls) = is_line l && are_lines ls

cons_first-lines :
    (c : ℕ) (ls : List Str)
    → (c == b'\n') ≡ false
    → (c == 13) ≡ false
    → are_lines ls ≡ true
    → are_lines (cons_first c ls) ≡ true
cons_first-lines c [] h k a = ground (arith, h, k)
cons_first-lines c (l ∷ ls) h k a = ground (arith, h, k, a)

pub lines-clean : (s : Str) → has_char 13 s ≡ false → are_lines (lines s) ≡ true
unfolding lines
lines-clean [] h = refl
lines-clean (c ∷ s) h = elim (Bool-cases (c == b'\n')) [
  | inl e ↦ rw e (lines-clean s (ground (arith, h)))
  | inr e ↦ elim (Bool-cases (c == 13)) [
    | inl r ↦ absurd (ground (arith, h, r))
    | inr r ↦ rw (e, r) (cons_first-lines c (lines s) e r (lines-clean s (ground (arith, h))))
  ]
]
