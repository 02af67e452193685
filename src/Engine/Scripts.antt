-- ===== src/Engine/Scripts.antt =====
-- The stored scripts of src/package/scripts.rs: a directory for each package with a file for each
-- of its scripts.
use samad_package_manager.Common.Assoc.{lookup, insert, delete, lookup-insert, lookup-delete}
use samad_package_manager.Common.{
  ◌≡◌, refl, ap, ◌∙◌, Bool, true, false, ◌&&◌, Option, none, some, List, Str, codes, str_eq_refl,
  if◌then◌else◌, arith,
}

pub record Scripts : Type 0 where
  pub preinst : Option Str
  pub postinst : Option Str
  pub prerm : Option Str
  pub postrm : Option Str

abbrev pub is_none : Option Str → Bool
is_none none = true
is_none (some s) = false

unfoldable pub is_empty : Scripts → Bool
is_empty s = is_none s.preinst && is_none s.postinst && is_none s.prerm && is_none s.postrm

-- Scripts::default
unfoldable pub no_scripts : Scripts
no_scripts = record { preinst = none; postinst = none; prerm = none; postrm = none }

-- The directories under scripts_dir.
abbrev pub ScriptsDir : Type 0
ScriptsDir = List (Str × Scripts)

abbrev or_default : Option Scripts → Scripts
or_default none = no_scripts
or_default (some s) = s

-- A file that is there is readable.
unfoldable pub load_scripts : Str → ScriptsDir → Scripts
unfolding lookup no_scripts
load_scripts name dir = or_default (lookup name dir)

-- The directory of a package is removed where that succeeds; a directory that is not there is no
-- error.
abbrev pub drop_found : Bool → Str → ScriptsDir → Option Scripts → Bool × ScriptsDir
unfolding delete
drop_found ok name dir none = (true, dir)
drop_found ok name dir (some s) = if ok then (true, delete name dir) else (false, dir)

unfoldable pub remove_scripts : Bool → Str → ScriptsDir → Bool × ScriptsDir
unfolding lookup drop_found
remove_scripts ok name dir = drop_found ok name dir (lookup name dir)

-- Which writes succeed, by the name of the script.
abbrev pub Writes : Type 0
Writes = Str → Bool

-- A file that was written before stays where there is no new script.
abbrev pub written : Option Str → Option Str → Option Str
written none old = old
written (some new) old = some new

-- One of the four writes; the first that fails ends the function.
abbrev write_script : Bool → Option Str → (Scripts → Scripts) → Bool × Scripts → Bool × Scripts
write_script ok content set (false, s) = (false, s)
write_script ok none set (true, s) = (true, s)
write_script ok (some c) set (true, s) = if ok then (true, set s) else (false, s)

unfoldable pub write_all : Writes → Scripts → Scripts → Bool × Scripts
write_all ok new old =
    write_script (ok (codes "postrm")) new.postrm (λ s. record s { postrm = new.postrm })
      (write_script (ok (codes "prerm")) new.prerm (λ s. record s { prerm = new.prerm })
        (write_script (ok (codes "postinst")) new.postinst
          (λ s. record s { postinst = new.postinst })
          (write_script (ok (codes "preinst")) new.preinst (λ s. record s { preinst = new.preinst })
            (true, old))))

unfoldable pub save_scripts : Writes → Str → Scripts → ScriptsDir → Bool × ScriptsDir
unfolding load_scripts write_all insert
save_scripts ok name new dir =
    let r = write_all ok new (load_scripts name dir) in (r.0, insert name (r.1) dir)

-- The scripts of a package over those that it had.
abbrev pub over : Scripts → Scripts → Scripts
over new old = record {
  preinst = written new.preinst old.preinst;
  postinst = written new.postinst old.postinst;
  prerm = written new.prerm old.prerm;
  postrm = written new.postrm old.postrm;
}

load-insert :
    (name : Str) (s : Scripts) (dir : ScriptsDir) → load_scripts name (insert name s dir) ≡ s
unfolding load_scripts
load-insert name s dir = rw (lookup-insert name name s dir, str_eq_refl name) refl

pub write_all-over : (new old : Scripts) → write_all (λ n. true) new old ≡ (true, over new old)
unfolding write_all
write_all-over new old = ground arith

-- Where all writes pass, the saved scripts are loaded again, over the ones that were there.
pub load-save :
    (name : Str) (new : Scripts) (dir : ScriptsDir)
    → load_scripts name ((save_scripts (λ n. true) name new dir).1)
      ≡ over new (load_scripts name dir)
unfolding save_scripts
load-save name new dir =
    load-insert name ((write_all (λ n. true) new (load_scripts name dir)).1) dir
    ∙ ap (λ r. r.1) (write_all-over new (load_scripts name dir))

load-drop :
    (name : Str) (dir : ScriptsDir) (o : Option Scripts)
    → lookup name dir ≡ o
    → load_scripts name ((drop_found true name dir o).1) ≡ no_scripts
unfolding load_scripts drop_found
load-drop name dir none e = rw e refl
load-drop name dir (some s) e = rw (lookup-delete name name dir, str_eq_refl name) refl

-- No script is left after a removal that passes.
pub load-remove :
    (name : Str) (dir : ScriptsDir)
    → load_scripts name ((remove_scripts true name dir).1) ≡ no_scripts
unfolding remove_scripts
load-remove name dir = load-drop name dir (lookup name dir) refl
