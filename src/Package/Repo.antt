-- ===== src/Package/Repo.antt =====
-- RepoConfig of src/types/config.rs.
use samad_package_manager.Package.{RepoSource}
use samad_package_manager.Common.{ℕ, Option, none, some, List, Str}

pub record RepoConfig : Type 0 where
  pub source : RepoSource
  pub priority : Option ℕ
  pub distro : Option Str
  pub codename : Option Str
  pub components : Option (List Str)
  pub mirrors : Option (List Str)
  pub release : Option Str
  pub repos : Option (List Str)
  pub url : Option Str
  pub signing_key : Option Str

unfoldable pub effective_priority : RepoConfig → ℕ
effective_priority rc = elim rc.priority [ none ↦ 100 | some p ↦ p ]

-- The configured repositories with their names, as load_repos returns them.
abbrev pub Repos : Type 0
Repos = List (Str × RepoConfig)
