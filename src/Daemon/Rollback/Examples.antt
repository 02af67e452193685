-- ===== src/Daemon/Rollback/Examples.antt =====
-- The theorems about the guards at a store with a shared directory.
use samad_package_manager.Package.{deb}
use samad_package_manager.Daemon.Rollback.{Fs, Extracted, RollbackGuard, Calls}
use samad_package_manager.Common.{true, some, List, [], ◌∷◌, codes}

abbrev calls : Calls
calls = record {
  copy_ok = λ d. true;
  rpath_ok = λ d. true;
  links_ok = λ d. true;
  drops = record { unlink_ok = λ p. true; rmdir_ok = λ d. true };
}

-- The content is in the store already, for a package that is installed.
abbrev shared : Fs
shared = record { store = (codes "deb", codes "ab12") ∷ []; links = [] }

abbrev same_content : List Extracted
same_content = record { format = deb; content = some (codes "ab12"); paths = [] } ∷ []

abbrev guards : List RollbackGuard
guards =
    record {
      store_hash = some (codes "ab12");
      store_origin = codes "deb";
      symlinks = [];
      armed = true;
    }
    ∷ []
