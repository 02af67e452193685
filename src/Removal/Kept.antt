-- ===== src/Removal/Kept.antt =====
-- Which files are left by remove_package of src/package/install/remove.rs.
use samad_package_manager.Package.{PackageId, new}
use samad_package_manager.Common.Members.{mem-keep_others}
use samad_package_manager.Common.{
  ◌≡◌, refl, ap, sym, ◌∙◌, inl, inr, Bool, true, false, not, ◌&&◌, ◌||◌, Option, none, some, List,
  [], ◌∷◌, Str, codes, str_eq, eq_of_str_eq, mem, any, arith, Bool-cases, Option-cases,
  if◌then◌else◌,
}
use samad_package_manager.Db.{Db, FileRecord, InstallType, native, sandbox, InstalledPackage}
use samad_package_manager.Db.Packages.{get_installed_package}
use samad_package_manager.Db.Files.{get_files_by_package}
use samad_package_manager.Daemon.Rollback.{remove_link, Dir, has_dir, origin_from_format}
use samad_package_manager.Daemon.Deploy.{Conn, Outcome, ok, err}
use samad_package_manager.Engine.Scripts.{Scripts, load_scripts}
use samad_package_manager.Engine.Stage.{Host}
use samad_package_manager.Engine.Cleanup.{run_script, gc_hash, gc_store_with_origin, is_referenced}
use samad_package_manager.Removal.{
  is_conffile, Removals, Removed, remove_file, remove_files, sandbox_of, with_files, forget,
  after_forget, settle, conffiles, cleared, remove_found, remove_package,
}

-- The package has a record of the path.
abbrev pub recorded : Str → List FileRecord → Bool
recorded p = any (λ f. str_eq f.filepath p)

mem-remove_link :
    (p q : Str) (links : List Str) → mem p (remove_link q links) ≡ (mem p links && not (str_eq q p))
unfolding remove_link
mem-remove_link p q links = mem-keep_others p q links

module _ (calls : Removals) (p : Str) where
  pub remove_file-mem :
      (q : Str) (r : Removed)
      → mem p ((remove_file calls q r).0) ≡ (mem p (r.0) && not (str_eq q p && calls.file_ok p))
  unfolding remove_file
  remove_file-mem q (links, errors) = elim (Bool-cases (mem q links)) [
    | inl m ↦ rw m (elim (Bool-cases (calls.file_ok q)) [
      | inl o ↦ rw o (ground (arith, mem-remove_link p q links, eq_of_str_eq q p))
      | inr o ↦ rw o (ground (arith, eq_of_str_eq q p))
    ])
    | inr m ↦ rw m (ground (arith, eq_of_str_eq q p))
  ]

  passed_over :
      (same later conf can there : Bool)
      → (same ≡ true → conf ≡ true)
      → (there && not (later && not conf && can))
        ≡ (there && not ((same || later) && not conf && can))
  passed_over same later conf can there h = ground (arith, h)

  taken :
      (same later conf can there : Bool)
      → (same ≡ true → conf ≡ false)
      → ((there && not (same && can)) && not (later && not conf && can))
        ≡ (there && not ((same || later) && not conf && can))
  taken same later conf can there h = ground (arith, h)

  one-mem :
      (confs : List Str) (f : FileRecord) (fs : List FileRecord) (r : Removed)
      → (mem p ((if is_conffile f.filepath confs then r else remove_file calls f.filepath r).0)
          && not (recorded p fs && not (is_conffile p confs) && calls.file_ok p))
        ≡ (mem p (r.0) && not (recorded p (f ∷ fs) && not (is_conffile p confs) && calls.file_ok p))
  one-mem confs f fs r =
      let moved = λ (s : str_eq f.filepath p ≡ true).
        ap (λ q. is_conffile q confs) (sym (eq_of_str_eq f.filepath p s)) in
      elim (Bool-cases (is_conffile f.filepath confs)) [
        | inl e ↦ rw e (
            passed_over (str_eq f.filepath p) (recorded p fs) (is_conffile p confs)
              (calls.file_ok p) (mem p (r.0)) (λ s. moved s ∙ e))
        | inr e ↦
            rw (e, remove_file-mem f.filepath r)
              (taken (str_eq f.filepath p) (recorded p fs) (is_conffile p confs) (calls.file_ok p)
                (mem p (r.0)) (λ s. moved s ∙ e))
      ]

  -- Exactly the recorded files go that are no configuration files and can be removed.
  pub remove_files-mem :
      (confs : List Str) (fs : List FileRecord) (r : Removed)
      → mem p ((remove_files calls confs fs r).0)
        ≡ (mem p (r.0) && not (recorded p fs && not (is_conffile p confs) && calls.file_ok p))
  unfolding remove_files
  remove_files-mem confs [] r = ground arith
  remove_files-mem confs (f ∷ fs) r =
      remove_files-mem confs fs
        (if is_conffile f.filepath confs then r else remove_file calls f.filepath r)
      ∙ one-mem confs f fs r

-- What comes after the files leaves them alone.
gc-links : (db : Db) (d : Dir) (h : Host) → (gc_store_with_origin db d h).fs.links ≡ h.fs.links
unfolding gc_store_with_origin
gc-links db d h = elim (Bool-cases (has_dir d h.fs.store)) [
  | inl e ↦
      rw e (elim (Bool-cases (is_referenced db (d.1))) [ inl q ↦ rw q refl | inr q ↦ rw q refl ])
  | inr e ↦ rw e refl
]

gc_hash-links :
    (db : Db) (pkg : InstalledPackage) (h : Host)
    → (gc_hash db pkg.format pkg.store_hash h).fs.links ≡ h.fs.links
gc_hash-links db pkg h = elim (Option-cases pkg.store_hash) [
  | inl e ↦ rw e refl
  | inr (hash, e) ↦ rw e (gc-links db (origin_from_format pkg.format, hash) h)
]

run_script-links :
    (s : Option Str) (phase : Str) (h : Host) → (run_script s phase h).fs.links ≡ h.fs.links
run_script-links none phase h = refl
run_script-links (some s) phase h = refl

after_forget-links :
    (pkg : InstalledPackage) (scripts : Scripts) (h : Host) (r : Outcome Unit × Conn)
    → (after_forget pkg scripts h r).2.fs.links ≡ h.fs.links
after_forget-links pkg scripts h (err, c) = refl
after_forget-links pkg scripts h (ok u, c) =
    run_script-links scripts.postrm (codes "remove") (gc_hash c.db pkg.format pkg.store_hash h)
    ∙ gc_hash-links c.db pkg h

settle-links :
    (user now : Str) (pid : PackageId) (pkg : InstalledPackage) (scripts : Scripts) (c : Conn)
    (r : Host × List Str)
    → (settle user now pid pkg scripts c r).2.fs.links ≡ r.0.fs.links
settle-links user now pid pkg scripts c (h, e ∷ errors) = refl
settle-links user now pid pkg scripts c (h, []) =
    after_forget-links pkg scripts h (forget user now pid c)

sandbox_of-links :
    (calls : Removals) (t : InstallType) (name : Str) (h : Host) (errors : List Str)
    → (sandbox_of calls t name h errors).0.fs.links ≡ h.fs.links
sandbox_of-links calls native name h errors = refl
sandbox_of-links calls sandbox name h errors = ground arith

module _ (calls : Removals) (conffiles_of : Str → List Str) (user now name : Str) where
  pub remove_found-links :
      (c : Conn) (h : Host) (pkg : InstalledPackage)
      → (remove_found calls conffiles_of user now name c h (some pkg)).2.fs.links
        ≡ (remove_files calls
            (conffiles calls conffiles_of user now name pkg)
            (get_files_by_package c.db name)
            (h.fs.links, [])).0
  remove_found-links c h pkg =
      let scripts : Scripts = load_scripts name h.scripts in
      let confs : List Str = conffiles calls conffiles_of user now name pkg in
      let r : Removed =
        remove_files calls confs (get_files_by_package c.db name) (h.fs.links, []) in
      settle-links user now (new name pkg.format) pkg scripts c
        (cleared calls conffiles_of user now name pkg (get_files_by_package c.db name) scripts h)
      ∙ sandbox_of-links calls pkg.install_type name
          (with_files (run_script scripts.prerm (codes "remove") h) (r.0)) (r.1)

  -- The removal of an installed package, whether it fails or not, takes exactly the files that the
  -- package has a record of, that are no configuration files and that can be removed.
  pub remove_package-files :
      (c : Conn) (h : Host) (pkg : InstalledPackage) (p : Str)
      → get_installed_package c.db name ≡ some pkg
      → mem p ((remove_package calls conffiles_of user now name c h).2.fs.links) ≡ (
          mem p h.fs.links
          && not (
              recorded p (get_files_by_package c.db name)
              && not (is_conffile p (conffiles calls conffiles_of user now name pkg))
              && calls.file_ok p))
  unfolding remove_package
  remove_package-files c h pkg p e = rw e (
      ap (mem p) (remove_found-links c h pkg)
      ∙ remove_files-mem calls p (conffiles calls conffiles_of user now name pkg)
          (get_files_by_package c.db name) (h.fs.links, []))
