-- ===== src/Group/Gid.antt =====
-- find_free_gid_from_content of src/cli/group.rs.
use samad_package_manager.Common.{
  ℕ, zero, suc, ◌+◌, ◌≤◌, ◌<◌, ◌≡◌, subst, inl, inr, Bool, true, false, not, ◌&&◌, Option, none,
  some, List, [], ◌∷◌, Str, parse_unsigned, u32_limit, any, leb, ltb, ◌==◌, arith, Bool-cases,
  if◌then◌else◌,
}
use samad_package_manager.Group.Lines.{split_all}

abbrev number_of : List Str → Option ℕ
number_of (name ∷ password ∷ gid ∷ rest) = parse_unsigned u32_limit gid
number_of _ = none

abbrev cons_number : Option ℕ → List ℕ → List ℕ
cons_number none ns = ns
cons_number (some n) ns = n ∷ ns

-- The numbers in the third fields.
unfoldable pub numbers_in : List Str → List ℕ
unfolding split_all parse_unsigned
numbers_in [] = []
numbers_in (line ∷ ls) = cons_number (number_of (split_all b':' line)) (numbers_in ls)

abbrev pub is_used : ℕ → List ℕ → Bool
is_used n = any (λ m. m == n)

-- The search through the range that begins with `gid` and has `count` numbers.
unfoldable pub find_free : ℕ → ℕ → List ℕ → Option ℕ
find_free zero gid used = none
find_free (suc count) gid used =
    let later = find_free count (suc gid) used in if is_used gid used then later else some gid

-- What the search says of the range.
abbrev pub Searched : ℕ → ℕ → List ℕ → Option ℕ → Type 0
Searched count gid used none =
    (n : ℕ) → (leb gid n && ltb n (gid + count) && not (is_used n used)) ≡ false
Searched count gid used (some g) =
    (gid ≤ g)
    × (g < gid + count)
    × (is_used g used ≡ false)
    × ((n : ℕ) → (leb gid n && ltb n g && not (is_used n used)) ≡ false)

outside :
    (gid n : ℕ) (used : List ℕ) → (leb gid n && ltb n (gid + 0) && not (is_used n used)) ≡ false
outside gid n used = ground arith

-- The first number is used, and what holds of the rest holds of all.
further :
    (gid bound n : ℕ) (used : List ℕ)
    → is_used gid used ≡ true
    → (leb (suc gid) n && ltb n bound && not (is_used n used)) ≡ false
    → (leb gid n && ltb n bound && not (is_used n used)) ≡ false
further gid bound n used u h = elim (Bool-cases (gid == n)) [
  | inl e ↦ ground (arith, ==_to gid n e, u)
  | inr e ↦ ground (arith, h, e)
]
  where
    ==_to : (a b : ℕ) → (a == b) ≡ true → is_used a used ≡ is_used b used
    ==_to a b h = ground (arith, h)

longer :
    (count gid : ℕ) (used : List ℕ) (o : Option ℕ)
    → is_used gid used ≡ true
    → Searched count (suc gid) used o
    → Searched (suc count) gid used o
longer count gid used none u h = λ n.
    further gid (gid + suc count) n used u (
      subst (λ b. (leb (suc gid) n && ltb n b && not (is_used n used)) ≡ false) (omega arith) (h n))
longer count gid used (some g) u (low, high, free, least) =
    (omega (arith, low), omega (arith, high), free, λ n. further gid g n used u (least n))

-- The search finds the least number of the range that is not used, or none is unused.
pub find_free-Searched :
    (count gid : ℕ) (used : List ℕ) → Searched count gid used (find_free count gid used)
unfolding find_free
find_free-Searched zero gid used = λ n. outside gid n used
find_free-Searched (suc count) gid used = elim (Bool-cases (is_used gid used)) [
  | inl e ↦ rw e (
      longer count gid used (find_free count (suc gid) used) e
        (find_free-Searched count (suc gid) used))
  | inr e ↦ rw e (omega arith, omega arith, e, λ n. ground arith)
]
