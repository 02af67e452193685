-- ===== src/Db.antt =====
-- src/types/db.rs, and the tables of src/db/mod.rs. A table is the list of its rows in the order of
-- their insertion; the columns hold typed values, since what is written as JSON reads back as it
-- was. A statement's failure is not decided here: see Deploy.
pub mod Packages
pub mod Installed
pub mod Files
pub mod Transactions
pub mod Conflict
pub mod Classify
mod Examples
use samad_package_manager.Package.{PackageFormat, PackageId, from_str, to_string, new}
use samad_package_manager.Common.{
  ℕ, Bool, true, false, ◌≡◌, refl, Option, none, some, List, [], ◌∷◌, ◌++◌, map, Str, codes, str_eq,
  mem, if◌then◌else◌,
}

pub data InstallOrigin : Type 0 where
  spm foreign : InstallOrigin

-- Display for InstallOrigin.
unfoldable pub origin_to_string : InstallOrigin → Str
origin_to_string spm = codes "spm"
origin_to_string foreign = codes "foreign"

unfoldable pub origin_from_str : Option Str → InstallOrigin
origin_from_str none = spm
origin_from_str (some s) = if str_eq s (codes "foreign") then foreign else spm

-- The column `origin` reads back what was written.
pub origin_from_str-to_string :
    (o : InstallOrigin) → origin_from_str (some (origin_to_string o)) ≡ o
unfolding origin_from_str origin_to_string str_eq
origin_from_str-to_string spm = refl
origin_from_str-to_string foreign = refl

unfoldable pub origin_eq : InstallOrigin → InstallOrigin → Bool
origin_eq spm spm = true
origin_eq foreign foreign = true
origin_eq _ _ = false

pub data TransactionAction : Type 0 where
  install remove upgrade purge : TransactionAction

pub data TransactionStatus : Type 0 where
  completed undone failed : TransactionStatus

pub record Transaction : Type 0 where
  pub id : Option ℕ
  pub action : TransactionAction
  pub timestamp : Str
  pub user : Str
  pub status : TransactionStatus
  pub packages : List Str
  pub snapshot_id : Option Str

-- filter_map(|s| from_str(s).or_else(..)): an id without a format is a sam package.
unfoldable pub package_ids : Transaction → List PackageId
unfolding from_str
package_ids tx =
    map (λ s. elim (from_str s) [ none ↦ new s PackageFormat.sam | some pid ↦ pid ]) tx.packages

unfoldable pub add_package_id : Transaction → PackageId → Transaction
unfolding to_string mem
add_package_id tx pid =
    if mem (to_string pid) tx.packages
    then tx
    else record tx { packages = tx.packages ++ to_string pid ∷ [] }

pub data FileAction : Type 0 where
  created modified deleted : FileAction

pub record FileRecord : Type 0 where
  pub id : Option ℕ
  pub transaction_id : ℕ
  pub package_name : Str
  pub format : PackageFormat
  pub filepath : Str
  pub hash : Str
  pub action : FileAction

pub data InstallType : Type 0 where
  native sandbox : InstallType

pub record InstalledPackage : Type 0 where
  pub name : Str
  pub version : Str
  pub format : PackageFormat
  pub install_type : InstallType
  pub manifest : Option Str
  pub install_date : Str
  pub source_repo : Option Str
  pub store_hash : Option Str
  pub origin : InstallOrigin

pub record ConflictLogEntry : Type 0 where
  pub transaction_id : ℕ
  pub package_a : Str
  pub package_b : Str
  pub file_path : Str
  pub action : Str
  pub timestamp : Str

-- The tables, and the counters of AUTOINCREMENT: the last id of each table.
pub record Db : Type 0 where
  pub installed_packages : List InstalledPackage
  pub files : List FileRecord
  pub transactions : List Transaction
  pub conflict_log : List ConflictLogEntry
  pub last_file : ℕ
  pub last_transaction : ℕ

-- What init_schema leaves in these tables.
abbrev pub init_schema : Db
init_schema = record {
  installed_packages = [];
  files = [];
  transactions = [];
  conflict_log = [];
  last_file = 0;
  last_transaction = 0;
}
