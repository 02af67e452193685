-- ===== src/Group/Entry.antt =====
-- The entry that replace_group_entry of src/cli/group.rs writes is the one that parse_group_members
-- reads.
use mathlib.Core.List.{append_assoc, append-nil}
use samad_package_manager.Common.{
  ℕ, ◌≡◌, ◌≢◌, ◌⊎◌, refl, ap, sym, ◌∙◌, inl, inr, Bool, true, false, not, ◌&&◌, ◌||◌, List, [], ◌∷◌,
  ◌++◌, map, Str, codes, trim, starts_with, any, arith, ◌==◌, Bool-cases, if◌then◌else◌,
}
use samad_package_manager.Common.Decimal.{to_decimal, to_decimal-no_char}
use samad_package_manager.Common.Split.{has_char, has_char-append}
use samad_package_manager.Group.Lines.{
  lines, split_all, split_all-none, split_all-append, is_line, are_lines, lines-append, lines-clean,
}
use samad_package_manager.Group.{
  is_entry, split_members, members_of, members_in, parse_group_members, join, entry_line,
  replace_lines, ends_with_newline, replace_group_entry,
}

starts_with-append : (p s : Str) → starts_with (p ++ s) p ≡ true
unfolding starts_with
starts_with-append [] [] = refl
starts_with-append [] (c ∷ s) = refl
starts_with-append (c ∷ p) s = ground (arith, starts_with-append p s)

ends-append : (a : Str) → ends_with_newline (a ++ b'\n' ∷ []) ≡ true
unfolding ends_with_newline
ends-append [] = refl
ends-append (c ∷ []) = refl
ends-append (c ∷ d ∷ a) = ends-append (d ∷ a)

-- A text without a character, as the parts of an entry are.
abbrev pub is_word : Str → Bool
is_word s =
    not (has_char b':' s) && not (has_char b',' s) && not (has_char b'\n' s) && not (has_char 13 s)

-- Names that can stand in an entry: not empty, without space around them.
abbrev pub AreMembers : List Str → Type 0
AreMembers [] = Unit
AreMembers (m ∷ ms) = (m ≢ []) × (trim m ≡ m) × (is_word m ≡ true) × AreMembers ms

join-no_char :
    (p : ℕ) (ms : List Str)
    → (p == b',') ≡ false
    → any (has_char p) ms ≡ false
    → has_char p (join b',' ms) ≡ false
unfolding join
join-no_char p [] h k = refl
join-no_char p (m ∷ []) h k = ground (arith, k)
join-no_char p (m ∷ n ∷ ms) h k =
    has_char-append p m (b',' ∷ join b',' (n ∷ ms)) (ground (arith, k))
      (ground (arith, h, k, join-no_char p (n ∷ ms) h))

members-no_char :
    (p : ℕ) (ms : List Str)
    → ((m : Str) → is_word m ≡ true → has_char p m ≡ false)
    → AreMembers ms
    → any (has_char p) ms ≡ false
members-no_char p [] f h = refl
members-no_char p (m ∷ ms) f h = rw (f m (h.2), members-no_char p ms f (h.3)) refl

split-join :
    (m : Str) (ms : List Str)
    → any (has_char b',') (m ∷ ms) ≡ false
    → split_all b',' (join b',' (m ∷ ms)) ≡ m ∷ ms
unfolding join
split-join m [] h = split_all-none b',' m (ground (arith, h))
split-join m (n ∷ ms) h =
    split_all-append b',' m (join b',' (n ∷ ms)) (ground (arith, h))
    ∙ ap (λ l. m ∷ l) (split-join n ms (ground (arith, h)))

trimmed : (ms : List Str) → AreMembers ms → map trim ms ≡ ms
trimmed [] h = refl
trimmed (m ∷ ms) h = rw (h.1, trimmed ms (h.3)) refl

-- A list of members is read back from its text.
split_members-join : (ms : List Str) → AreMembers ms → split_members (join b',' ms) ≡ ms
unfolding join
split_members-join [] h = refl
split_members-join ([] ∷ []) h = absurd (h.0 refl)
split_members-join ((c ∷ cs) ∷ []) h =
    ap (map trim)
      (split-join (c ∷ cs) [] (members-no_char b',' ((c ∷ cs) ∷ []) (λ m w. ground (arith, w)) h))
    ∙ trimmed ((c ∷ cs) ∷ []) h
split_members-join ([] ∷ n ∷ ms) h = absurd (h.0 refl)
split_members-join ((c ∷ cs) ∷ n ∷ ms) h =
    ap (map trim) (
      split-join (c ∷ cs) (n ∷ ms)
        (members-no_char b',' ((c ∷ cs) ∷ n ∷ ms) (λ m w. ground (arith, w)) h))
    ∙ trimmed ((c ∷ cs) ∷ n ∷ ms) h

module _ (g : Str) (gid : ℕ) (ms : List Str) (word : is_word g ≡ true)
    (members : AreMembers ms) where
  number-no_char :
      (p : ℕ) → (p == b':' || p == b'\n' || p == 13) ≡ true → has_char p (to_decimal gid) ≡ false
  number-no_char p h = to_decimal-no_char p gid (ground (arith, h))

  -- The fields of the new line.
  split_all-entry :
      split_all b':' (entry_line g gid ms) ≡ g ∷ codes "x" ∷ to_decimal gid ∷ join b',' ms ∷ []
  unfolding entry_line
  split_all-entry =
      split_all-append b':' g _ (ground (arith, word))
      ∙ ap (λ l. g ∷ l)
          (split_all-append b':' (codes "x") _ refl
            ∙ ap (λ l. codes "x" ∷ l)
                (split_all-append b':' (to_decimal gid) _ (number-no_char b':' refl)
                  ∙ ap (λ l. to_decimal gid ∷ l)
                      (split_all-none b':' (join b',' ms) (
                        join-no_char b':' ms refl
                          (members-no_char b':' ms (λ m w. ground (arith, w)) members)))))

  entry-no_char :
      (p : ℕ)
      → (p == b'\n' || p == 13) ≡ true
      → has_char p g ≡ false
      → ((m : Str) → is_word m ≡ true → has_char p m ≡ false)
      → has_char p (entry_line g gid ms) ≡ false
  unfolding entry_line
  entry-no_char p h k f =
      has_char-append p g (b':' ∷ b'x' ∷ b':' ∷ (to_decimal gid ++ b':' ∷ join b',' ms)) k (
        ground (
          arith,
          h,
          has_char-append p (to_decimal gid) (b':' ∷ join b',' ms),
          number-no_char p,
          join-no_char p ms,
          members-no_char p ms f members,
        ))

  entry-is_line : is_line (entry_line g gid ms) ≡ true
  entry-is_line =
      rw
        (
          entry-no_char b'\n' refl (ground (arith, word)) (λ m w. ground (arith, w)),
          entry-no_char 13 refl (ground (arith, word)) (λ m w. ground (arith, w)),
        )
        refl

  entry-is_entry : is_entry g (entry_line g gid ms) ≡ true
  unfolding entry_line
  entry-is_entry =
      rw (sym (append_assoc g (b':' ∷ []) (b'x' ∷ b':' ∷ (to_decimal gid ++ b':' ∷ join b',' ms))))
        (starts_with-append (g ++ b':' ∷ []) _)

  entry-members : members_of (split_all b':' (entry_line g gid ms)) ≡ ms
  entry-members = ap members_of split_all-entry ∙ split_members-join ms members

  -- The line that stands for a line of the old text.
  abbrev renewed : List Str → List Str
  renewed = map (λ l. if is_entry g l then entry_line g gid ms else l)

  lines-replace :
      (ls : List Str) (t : Str)
      → are_lines ls ≡ true
      → lines (replace_lines g (entry_line g gid ms) ls ++ t) ≡ renewed ls ++ lines t
  unfolding replace_lines
  lines-replace [] t h = refl
  lines-replace (l ∷ ls) t h =
      let new : Str = if is_entry g l then entry_line g gid ms else l in
      let rest : Str = replace_lines g (entry_line g gid ms) ls in
      ap lines (append_assoc new (b'\n' ∷ rest) t)
      ∙ lines-append new (rest ++ t) (chosen (is_entry g l) l (ground (arith, h)))
      ∙ ap (λ r. new ∷ r) (lines-replace ls t (ground (arith, h)))
    where
      chosen :
          (b : Bool) (l : Str)
          → is_line l ≡ true
          → is_line (if b then entry_line g gid ms else l) ≡ true
      chosen true l k = entry-is_line
      chosen false l k = k

  members_in-renewed :
      (ls tail : List Str)
      → members_in g (renewed ls ++ tail) ≡ (if any (is_entry g) ls then ms else members_in g tail)
  unfolding members_in
  members_in-renewed [] tail = refl
  members_in-renewed (l ∷ ls) tail = elim (Bool-cases (is_entry g l)) [
    | inl e ↦ rw (e, entry-is_entry) entry-members
    | inr e ↦ rw (e, e) (members_in-renewed ls tail)
  ]

  ends-right : (a s : Str) → ends_with_newline s ≡ true → ends_with_newline (a ++ s) ≡ true
  unfolding ends_with_newline
  ends-right [] s h = h
  ends-right (c ∷ []) [] h = cc
  ends-right (c ∷ []) (d ∷ s) h = h
  ends-right (c ∷ d ∷ a) s h = ends-right (d ∷ a) s h

  ends-newline :
      (s : Str) → (s ≡ []) ⊎ (ends_with_newline s ≡ true) → ends_with_newline (b'\n' ∷ s) ≡ true
  unfolding ends_with_newline
  ends-newline [] h = refl
  ends-newline (c ∷ s) (inl e) = cc
  ends-newline (c ∷ s) (inr e) = e

  replaced-ends :
      (ls : List Str)
      → (replace_lines g (entry_line g gid ms) ls ≡ [])
        ⊎ (ends_with_newline (replace_lines g (entry_line g gid ms) ls) ≡ true)
  unfolding replace_lines
  replaced-ends [] = inl refl
  replaced-ends (l ∷ ls) = inr (
      ends-right (if is_entry g l then entry_line g gid ms else l)
        (b'\n' ∷ replace_lines g (entry_line g gid ms) ls)
        (ends-newline (replace_lines g (entry_line g gid ms) ls) (replaced-ends ls)))

  some-ends :
      (ls : List Str)
      → any (is_entry g) ls ≡ true
      → ends_with_newline (replace_lines g (entry_line g gid ms) ls) ≡ true
  unfolding replace_lines
  some-ends [] h = cc
  some-ends (l ∷ ls) h = elim (replaced-ends (l ∷ ls)) [
    | inl e ↦ absurd (append-ne-nil (if is_entry g l then entry_line g gid ms else l) _ e)
    | inr e ↦ e
  ]
    where
      append-ne-nil : (a s : Str) → a ++ b'\n' ∷ s ≢ []
      append-ne-nil [] s e = cc
      append-ne-nil (c ∷ a) s e = cc

  text_of : Bool → Str → Str → Str
  text_of b content new = if ends_with_newline content && not b then new ++ b'\n' ∷ [] else new

  already-ends : (b : Bool) (content new : Str) → b ≡ true → text_of b content new ≡ new
  unfolding text_of
  already-ends b content new h = elim (Bool-cases (ends_with_newline content)) [
    | inl e ↦ rw (e, h) refl
    | inr e ↦ rw e refl
  ]

  -- The members that are written are read again, whether the group had a line before or not, where
  -- the names are well formed and the old text has no carriage return.
  pub parse-replace :
      (content : Str)
      → has_char 13 content ≡ false
      → parse_group_members (replace_group_entry content g gid ms) g ≡ ms
  unfolding parse_group_members replace_group_entry text_of
  parse-replace content h =
      let ls : List Str = lines content in
      let entry : Str = entry_line g gid ms in
      let clean = lines-clean content h in
      elim (Bool-cases (any (is_entry g) ls)) [
        | inl e ↦
            let new : Str = replace_lines g entry ls in
            rw e (
              ap (λ s. members_in g (lines s))
                (already-ends (ends_with_newline new) content new (some-ends ls e)
                  ∙ sym (append-nil new))
              ∙ ap (members_in g) (lines-replace ls [] clean)
              ∙ members_in-renewed ls []
              ∙ rw e refl)
        | inr e ↦
            let new : Str = replace_lines g entry ls ++ (entry ++ b'\n' ∷ []) in
            rw e (
              ap (λ s. members_in g (lines s))
                (already-ends (ends_with_newline new) content new
                  (ends-right (replace_lines g entry ls) (entry ++ b'\n' ∷ []) (ends-append entry)))
              ∙ ap (members_in g) (lines-replace ls (entry ++ b'\n' ∷ []) clean)
              ∙ members_in-renewed ls (lines (entry ++ b'\n' ∷ []))
              ∙ rw (e, lines-append entry [] entry-is_line, entry-is_entry) entry-members)
      ]
