-- ===== src/Db/Transactions.antt =====
-- src/db/transactions.rs: the table `transactions`.
use samad_package_manager.Common.{
  ℕ, suc, Option, some, List, [], ◌∷◌, ◌++◌, map, reverse, take, keep, if◌then◌else◌,
}
use samad_package_manager.Db.{Db, Transaction, TransactionStatus}
use samad_package_manager.Db.Packages.{first}
use samad_package_manager.Db.Files.{has_id}

-- The new row, and its id, which last_insert_rowid returns.
unfoldable pub record_transaction : Db → Transaction → ℕ × Db
record_transaction db tx = (
  suc db.last_transaction,
  record db {
    transactions = db.transactions ++ record tx { id = some (suc db.last_transaction) } ∷ [];
    last_transaction = suc db.last_transaction;
  },
)

unfoldable pub get_transaction : Db → ℕ → Option Transaction
get_transaction db id = first (keep (has_id id) db.transactions)

-- ORDER BY id DESC LIMIT 50: the ids ascend in the order of insertion.
unfoldable pub list_transactions : Db → List Transaction
list_transactions db = take 50 (reverse db.transactions)

unfoldable pub update_transaction_status : Db → ℕ → TransactionStatus → Db
update_transaction_status db id status = record db {
  transactions =
      map (λ tx. if has_id id tx then record tx { status = status } else tx) db.transactions;
}
