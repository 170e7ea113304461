-- ===== src/Transaction/Lifecycle.antt =====
-- What loading a transaction and changing its status do to the database.
use pkgundo.Prelude.{
  Text, ℕ, List, [], ◌∷◌, map, Option, some, ◌==◌, ok, if◌then◌else◌, ◌≡◌, arith, filter, ap, sym,
  ◌∙◌,
}
use pkgundo.System.{Os}
use pkgundo.Exec.{World}
use pkgundo.Db.{Db, TransactionRow}
use pkgundo.Db.Tables.{select, update}
use pkgundo.Transaction.{
  status_name, TransactionStatus, Transaction, from_row, close_row, first_of, find_transaction,
  set_status, load_transaction, update_transaction_status,
}
use pkgundo.Transaction.Names.{status_of_name-status_name}

module _ (os : Os) where
  -- What is loaded is what is found in the database.
  pub load_transaction-found :
      (txid : ℕ) (w : World os) (tx : Transaction)
      → (load_transaction os txid w).0 ≡ ok tx
      → find_transaction txid w.db ≡ some tx
  unfolding load_transaction
  load_transaction-found txid w tx h = ground arith

  -- Loading a transaction changes nothing.
  pub load_transaction-same : (txid : ℕ) (w : World os) → (load_transaction os txid w).1 ≡ w
  unfolding load_transaction
  load_transaction-same txid w = ground arith

-- What is found under this key, if anything, has this status.
abbrev pub HasStatus : ℕ → TransactionStatus → Db → Type 0
HasStatus txid status db =
    (tx : Transaction) → find_transaction txid db ≡ some tx → tx.status ≡ status

closed_rows :
    (txid : ℕ) (status : TransactionStatus) (end : Text) (pid : Option ℕ)
    (rows : List (ℕ × TransactionRow)) (tx : Transaction)
    → first_of (
        filter
          (λ (k, _). k == txid)
          (map (λ (k, q). (k, if k == txid then close_row status end pid q else q)) rows))
      ≡ some tx
    → tx.status ≡ status
unfolding first_of from_row close_row
closed_rows txid status end pid [] tx h = absurd (cc h)
closed_rows txid status end pid ((k, q) ∷ rows) tx h =
    ground (arith, status_of_name-status_name status, closed_rows txid status end pid rows tx)

-- After the status of a transaction is set, what is found under its key has that status.
pub set_status-HasStatus :
    (txid : ℕ) (status : TransactionStatus) (end : Text) (pid : Option ℕ) (db : Db)
    → HasStatus txid status (set_status txid status end pid db)
unfolding find_transaction set_status select update
set_status-HasStatus txid status end pid db tx h =
    closed_rows txid status end pid db.transactions.rows tx h

module _ (os : Os) where
  -- A successful update leaves the transaction, if there is one, with the status that was given.
  pub update_transaction_status-HasStatus :
      (txid : ℕ) (status : TransactionStatus) (pid : Option ℕ) (w : World os) (u : Unit {0})
      → (update_transaction_status os txid status pid w).0 ≡ ok u
      → HasStatus txid status (update_transaction_status os txid status pid w).1.db
  unfolding update_transaction_status
  update_transaction_status-HasStatus txid status pid w u h tx found =
      ground (arith, set_status-HasStatus txid status (os.now w.state).0 pid w.db tx)

-- The status is a matter of the table of transactions.
pub HasStatus-same :
    (txid : ℕ) (status : TransactionStatus) (db db' : Db)
    → db'.transactions ≡ db.transactions
    → HasStatus txid status db
    → HasStatus txid status db'
unfolding find_transaction
HasStatus-same txid status db db' same has tx h =
    has tx (ap (λ t. first_of (select (λ key _. key == txid) t)) (sym same) ∙ h)

marked_rows :
    (txid : ℕ) (status : TransactionStatus) (rows : List (ℕ × TransactionRow)) (tx : Transaction)
    → first_of (
        filter
          (λ (k, _). k == txid)
          (map
            (λ (k, q). (k, if k == txid then record q { status = status_name status } else q))
            rows))
      ≡ some tx
    → tx.status ≡ status
unfolding first_of from_row
marked_rows txid status [] tx h = absurd (cc h)
marked_rows txid status ((k, q) ∷ rows) tx h =
    ground (arith, status_of_name-status_name status, marked_rows txid status rows tx)

-- Setting the status column alone sets the status.
pub update-HasStatus :
    (txid : ℕ) (status : TransactionStatus) (db : Db)
    → HasStatus txid status (record db {
      transactions =
          update
            (λ key _. key == txid)
            (λ r. record r { status = status_name status })
            db.transactions;
    })
unfolding find_transaction select update
update-HasStatus txid status db tx h = marked_rows txid status db.transactions.rows tx h
