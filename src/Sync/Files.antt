-- ===== src/Sync/Files.antt =====
-- sync_system with the files of the packages: record_files gets the id 0 for the transaction.
use samad_package_manager.Common.{
  ◌≡◌, refl, inl, inr, Bool, true, false, not, ◌&&◌, ◌||◌, none, List, [], ◌∷◌, map, Str, mem, any,
  arith, Bool-cases,
}
use samad_package_manager.Db.{Db, FileRecord}
use samad_package_manager.Db.Packages.{add_installed_package, get_all_installed_package_names}
use samad_package_manager.Db.Files.{has_id, insert_file}
use samad_package_manager.Daemon.Deploy.{
  Conn, Outcome, ok, err, Sql, exec, resume, and_then, pure, record_files, next_fault, later_faults,
  try_update,
}
use samad_package_manager.Sync.{
  System, file_list, foreign_package, foreign_file, format_of, system_pkgs, import_all,
  import_files, sync_body, sync_system,
}

-- No transaction has the id 0.
abbrev pub NoZero : Conn → Type 0
NoZero c = any (has_id 0) c.db.transactions ≡ false

abbrev pub has_paths : List Str → Bool
has_paths [] = false
has_paths (p ∷ ps) = true

resume-err :
    {A B : Type 0} (k : A → Sql B) (r : Outcome A × Conn) → r.0 ≡ err → (resume k r).0 ≡ err
resume-err k (err, c) h = refl
resume-err k (ok a, c) h = cc

insert_file-zero :
    (f : FileRecord) (d : Db)
    → any (has_id 0) d.transactions ≡ false
    → try_update (λ x. insert_file x (record f { transaction_id = 0 })) d ≡ none
unfolding insert_file
insert_file-zero f d h = rw (h, try_update) refl

-- A record is refused, since the transaction that it names is not there.
record_files-zero :
    (f : FileRecord) (fs : List FileRecord) (c : Conn)
    → NoZero c
    → (record_files 0 (f ∷ fs) c).0 ≡ err
unfolding record_files exec and_then
record_files-zero f fs c h = elim (Bool-cases (next_fault c.faults)) [
  | inl g ↦ rw g refl
  | inr g ↦ rw (g, insert_file-zero f c.db h) refl
]

module _ (system : System) (now : Str) where
  -- Some package of the list is not there yet and has files.
  abbrev pub brings_files : List Str → List (Str × Str) → Bool
  unfolding file_list mem
  brings_files spm_names [] = false
  brings_files spm_names (q ∷ qs) =
      (not (mem (q.0) spm_names) && has_paths (file_list system now true (q.0)))
      || brings_files spm_names qs

  import_files-none :
      (name : Str) (paths : List Str) (c : Conn)
      → has_paths paths ≡ false
      → import_files (format_of system) name paths c ≡ (ok tt, c)
  unfolding import_files pure
  import_files-none name [] c h = refl
  import_files-none name (p ∷ ps) c h = cc

  import_files-some :
      (name : Str) (paths : List Str) (c : Conn)
      → NoZero c
      → has_paths paths ≡ true
      → (import_files (format_of system) name paths c).0 ≡ err
  unfolding import_files
  import_files-some name [] c z h = cc
  import_files-some name (p ∷ ps) c z h =
      record_files-zero (foreign_file (format_of system) name p)
        (map (foreign_file (format_of system) name) ps) c z

  import_all-fails :
      (spm_names : List Str) (qs : List (Str × Str)) (c : Conn)
      → NoZero c
      → brings_files spm_names qs ≡ true
      → (import_all system now true spm_names qs c).0 ≡ err
  unfolding import_all exec and_then brings_files add_installed_package
  import_all-fails spm_names [] c z h = cc
  import_all-fails spm_names (q ∷ qs) c z h = elim (Bool-cases (mem (q.0) spm_names)) [
    | inl e ↦ rw e (import_all-fails spm_names qs c z (ground (arith, h, e)))
    | inr e ↦ elim (Bool-cases (next_fault c.faults)) [
      | inl g ↦ rw (e, g) refl
      | inr g ↦
          let d : Conn = record c {
            faults = later_faults c.faults;
            db = add_installed_package c.db (foreign_package (format_of system) now q);
          } in
          elim (Bool-cases (has_paths (file_list system now true (q.0)))) [
            | inl k ↦
                rw (e, g)
                  (resume-err (λ _. import_all system now true spm_names qs)
                    (import_files (format_of system) (q.0) (file_list system now true (q.0)) d)
                    (import_files-some (q.0) (file_list system now true (q.0)) d z k))
            | inr k ↦
                rw (e, g, import_files-none (q.0) (file_list system now true (q.0)) d k)
                  (import_all-fails spm_names qs d z (ground (arith, h, e, k)))
          ]
    ]
  ]

  body-fails :
      (prune : Bool) (c : Conn)
      → NoZero c
      → brings_files (get_all_installed_package_names c.db) (system_pkgs system) ≡ true
      → (sync_body system now true prune c).0 ≡ err
  unfolding sync_body exec and_then
  body-fails prune c z h = elim (Bool-cases (next_fault c.faults)) [
    | inl g ↦ rw g refl
    | inr g ↦ rw g (
        resume-err _
          (import_all system now true (get_all_installed_package_names c.db) (system_pkgs system)
            (record c { faults = later_faults c.faults }))
          (import_all-fails (get_all_installed_package_names c.db) (system_pkgs system)
            (record c { faults = later_faults c.faults }) z h))
  ]

  -- A synchronization with files fails as soon as the system has a package with files that is not
  -- in the tables yet, whatever the connection answers and whether it prunes: the file records name
  -- the transaction 0, which is none of the table.
  pub sync_system-fails :
      (prune : Bool) (c : Conn)
      → NoZero c
      → brings_files (get_all_installed_package_names c.db) (system_pkgs system) ≡ true
      → (sync_system system now true prune c).0 ≡ err
  unfolding sync_system
  sync_system-fails prune c z h = elim (Bool-cases (system.has_dpkg || system.has_rpm)) [
    | inl g ↦ rw g (body-fails prune c z h)
    | inr g ↦ rw g refl
  ]
