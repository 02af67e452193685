-- ===== src/Engine/Conffiles.antt =====
-- backup_conffiles_for_upgrade of src/package/transaction.rs: configuration files that the user has
-- changed are saved before an upgrade. A file is its content, known by its hash, and `none` is a
-- file that is missing or cannot be read.
use mathlib.Core.List.{append_cancel_right}
use samad_package_manager.Common.Assoc.{lookup, insert}
use samad_package_manager.Common.{
  ◌≡◌, refl, ap, sym, ◌∙◌, inl, inr, Bool, true, false, not, ◌&&◌, ◌||◌, Option, none, some, List,
  [], ◌∷◌, ◌++◌, Str, codes, str_eq, str_eq_refl, eq_of_str_eq, mem, any, arith, Bool-cases,
  if◌then◌else◌,
}
use samad_package_manager.Db.{FileRecord}

abbrev pub Files : Type 0
Files = Str → Option Str

-- The map of the old hashes; a later record replaces an earlier one.
unfoldable pub old_hashes : List (Str × Str) → List FileRecord → List (Str × Str)
unfolding insert
old_hashes m [] = m
old_hashes m (f ∷ fs) = old_hashes (insert f.filepath f.hash m) fs

abbrev pub backup_path : Str → Str
backup_path c = c ++ codes ".rpmsave"

module _ (old : List (Str × Str)) (new : Files) (copy_ok : Str → Bool) where
  -- The tests of the loop's body on the content that stands on the disk: all three hashes are known,
  -- and the disk has neither the old nor the new one.
  abbrev differs : Str → Option Str → Option Str → Bool
  unfolding str_eq
  differs disk none after = false
  differs disk (some before) none = false
  differs disk (some before) (some after) = not (str_eq before disk || str_eq after disk)

  unfoldable pub is_modified : Option Str → Str → Bool
  unfolding lookup differs
  is_modified none c = false
  is_modified (some disk) c = differs disk (lookup c old) (new c)

  unfoldable pub backup_one : Str → Files → Files
  unfolding is_modified str_eq
  backup_one c files =
      if is_modified (files c) c && copy_ok c
      then (λ p. if str_eq p (backup_path c) then files c else files p)
      else files

  unfoldable pub backup_conffiles : List Str → Files → Files
  unfolding backup_one
  backup_conffiles [] files = files
  backup_conffiles (c ∷ cs) files = backup_conffiles cs (backup_one c files)

  -- The path is the backup of one of the files.
  abbrev pub is_backup : Str → List Str → Bool
  is_backup p = any (λ c. str_eq p (backup_path c))

  backup_one-kept :
      (c p : Str) (files : Files)
      → str_eq p (backup_path c) ≡ false
      → backup_one c files p ≡ files p
  unfolding backup_one
  backup_one-kept c p files h = elim (Bool-cases (is_modified (files c) c && copy_ok c)) [
    | inl e ↦ rw (e, h) refl
    | inr e ↦ rw e refl
  ]

  backup_conffiles-kept :
      (cs : List Str) (p : Str) (files : Files)
      → is_backup p cs ≡ false
      → backup_conffiles cs files p ≡ files p
  unfolding backup_conffiles
  backup_conffiles-kept [] p files h = refl
  backup_conffiles-kept (c ∷ cs) p files h =
      backup_conffiles-kept cs p (backup_one c files) (ground (arith, h))
      ∙ backup_one-kept c p files (ground (arith, h))

  -- Once saved, a content stays saved.
  backup_one-saved :
      (x c : Str) (files : Files) (v : Option Str)
      → files c ≡ v
      → files (backup_path c) ≡ v
      → backup_one x files (backup_path c) ≡ v
  unfolding backup_one
  backup_one-saved x c files v h k = elim (Bool-cases (is_modified (files x) x && copy_ok x)) [
    | inl e ↦ rw e (elim (Bool-cases (str_eq (backup_path c) (backup_path x))) [
      | inl s ↦ rw s (
          ap files (
            sym (
              append_cancel_right c x (codes ".rpmsave")
                (eq_of_str_eq (backup_path c) (backup_path x) s)))
          ∙ h)
      | inr s ↦ rw s k
    ])
    | inr e ↦ rw e k
  ]

  saved-stays :
      (cs : List Str) (c : Str) (files : Files) (v : Option Str)
      → is_backup c cs ≡ false
      → files c ≡ v
      → files (backup_path c) ≡ v
      → backup_conffiles cs files (backup_path c) ≡ v
  unfolding backup_conffiles
  saved-stays [] c files v n h k = k
  saved-stays (x ∷ cs) c files v n h k =
      saved-stays cs c (backup_one x files) v (ground (arith, n))
        (backup_one-kept x c files (ground (arith, n)) ∙ h) (backup_one-saved x c files v h k)

  backup_one-saves :
      (c : Str) (files : Files)
      → is_modified (files c) c ≡ true
      → copy_ok c ≡ true
      → backup_one c files (backup_path c) ≡ files c
  unfolding backup_one
  backup_one-saves c files m o = rw (m, o, str_eq_refl (backup_path c)) refl

  saves_modified :
      (cs : List Str) (c : Str) (files : Files)
      → is_backup c cs ≡ false
      → mem c cs ≡ true
      → is_modified (files c) c ≡ true
      → copy_ok c ≡ true
      → backup_conffiles cs files (backup_path c) ≡ files c
  unfolding backup_conffiles mem
  saves_modified [] c files n h m o = cc
  saves_modified (x ∷ cs) c files n h m o =
      let kept : backup_one x files c ≡ files c = backup_one-kept x c files (ground (arith, n)) in
      elim (Bool-cases (str_eq x c)) [
        | inl e ↦
            saved-stays cs c (backup_one x files) (files c) (ground (arith, n)) kept
              (rw (eq_of_str_eq x c e) (backup_one-saves c files m o))
        | inr e ↦
            saves_modified cs c (backup_one x files) (ground (arith, n)) (ground (arith, h, e))
              (rw kept m) o
            ∙ kept
      ]

  modified :
      (disk before after c : Str)
      → lookup c old ≡ some before
      → new c ≡ some after
      → str_eq before disk ≡ false
      → str_eq after disk ≡ false
      → is_modified (some disk) c ≡ true
  unfolding is_modified differs
  modified disk before after c e g h k = rw (e, g, h, k) refl

  -- A configuration file of the new package that stands on the disk with a content other than the
  -- one that is recorded for the old package and other than the one that the new package brings,
  -- both of which are known, is copied to its backup path, where the copy passes and the file is
  -- itself no backup of another.
  pub backup_conffiles-saves :
      (cs : List Str) (c : Str) (files : Files) (disk before after : Str)
      → is_backup c cs ≡ false
      → mem c cs ≡ true
      → files c ≡ some disk
      → lookup c old ≡ some before
      → new c ≡ some after
      → str_eq before disk ≡ false
      → str_eq after disk ≡ false
      → copy_ok c ≡ true
      → backup_conffiles cs files (backup_path c) ≡ some disk
  backup_conffiles-saves cs c files disk before after n h at_disk e g k l o =
      saves_modified cs c files n h (rw at_disk (modified disk before after c e g k l)) o ∙ at_disk
