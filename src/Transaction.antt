-- ===== src/Transaction.antt =====
-- `src/transaction/mod.rs`: transactions, their status and their package manager.
pub mod Names
pub mod Lifecycle
pub mod Tests
use pkgundo.Prelude.{
  Text, lit, text_eq, Bool, true, false, ◌||◌, ℕ, List, [], ◌∷◌, map, Option, none, some, head?,
  ◌==◌, Result, ok, err, if◌then◌else◌, starts_with, ends_with, decimal, ◌++◌, split_whitespace,
  drop,
}
use pkgundo.Paths.{components, file_name}
use pkgundo.System.{Os, Statement, insert_transaction, select_transaction, update_transaction}
use pkgundo.Db.{Db, TransactionRow}
use pkgundo.Db.Tables.{append, select, update}
use pkgundo.Exec.{M, query, execute, with_context, ◌>>=◌, now, fail, pure}

pub data TransactionStatus : Type 0 where
  running completed failed rolled_back tracking untracked : TransactionStatus

unfoldable pub status_name : TransactionStatus → Text
status_name running = lit "running"
status_name completed = lit "completed"
status_name failed = lit "failed"
status_name rolled_back = lit "rolled_back"
status_name tracking = lit "tracking"
status_name untracked = lit "untracked"

unfoldable pub status_of_name : Text → TransactionStatus
status_of_name s =
    if text_eq s (lit "running")
    then running
    else if text_eq s (lit "completed")
    then completed
    else if text_eq s (lit "failed")
    then failed
    else if text_eq s (lit "rolled_back")
    then rolled_back
    else if text_eq s (lit "tracking")
    then tracking
    else if text_eq s (lit "untracked")
    then untracked
    else failed

pub data PackageManager : Type 0 where
  pacman apt dnf rpm dpkg pip script unknown : PackageManager

unfoldable pub manager_name : PackageManager → Text
manager_name pacman = lit "pacman"
manager_name apt = lit "apt"
manager_name dnf = lit "dnf"
manager_name rpm = lit "rpm"
manager_name dpkg = lit "dpkg"
manager_name pip = lit "pip"
manager_name script = lit "script"
manager_name unknown = lit "unknown"

unfoldable pub manager_of_name : Text → PackageManager
manager_of_name s =
    if text_eq s (lit "pacman")
    then pacman
    else if text_eq s (lit "apt") || text_eq s (lit "apt-get")
    then apt
    else if text_eq s (lit "dnf") || text_eq s (lit "yum")
    then dnf
    else if text_eq s (lit "rpm")
    then rpm
    else if text_eq s (lit "dpkg")
    then dpkg
    else if text_eq s (lit "pip") || text_eq s (lit "pip3")
    then pip
    else if text_eq s (lit "script")
    then script
    else unknown

-- The name of the program, without its directories.
unfoldable pub program_name : Text → Text
program_name arg = elim (file_name (components arg)) [ some name ↦ name | none ↦ arg ]

-- `PackageManager::detect_from_command`; the first argument is the program.
unfoldable pub detect_from_command : List Text → PackageManager
detect_from_command [] = unknown
detect_from_command (arg ∷ _) =
    let bin = program_name arg in
    if text_eq bin (lit "pacman")
    then pacman
    else if text_eq bin (lit "apt") || text_eq bin (lit "apt-get")
    then apt
    else if text_eq bin (lit "dnf") || text_eq bin (lit "yum")
    then dnf
    else if text_eq bin (lit "rpm")
    then rpm
    else if text_eq bin (lit "dpkg")
    then dpkg
    else if text_eq bin (lit "pip") || text_eq bin (lit "pip3") || text_eq bin (lit "pip2")
    then pip
    else if ends_with arg (lit ".sh") || starts_with arg (lit "./") || text_eq bin (lit "make")
    then script
    else unknown

pub record Transaction : Type 0 where
  pub txid : ℕ
  pub command : Text
  pub package_manager : PackageManager
  pub start_time : Text
  pub end_time : Option Text
  pub status : TransactionStatus
  pub pid_root : Option ℕ
  pub rollback_mode : Text
  pub notes : Option Text

-- `iter().find(|p| !p.starts_with('-'))`
first_plain : List Text → Option Text
first_plain [] = none
first_plain (p ∷ ps) = let rest = first_plain ps in if starts_with p (lit "-") then rest else some p

-- What follows the first `install`.
after_install : List Text → Option Text
after_install [] = none
after_install (p ∷ ps) =
    let rest = after_install ps in if text_eq p (lit "install") then head? ps else rest

package_name_in : PackageManager → List Text → Option Text
package_name_in pacman parts = first_plain (drop 1 parts)
package_name_in apt parts = after_install parts
package_name_in dnf parts = after_install parts
package_name_in _ parts = none

unfoldable pub extract_package_name : Transaction → Option Text
unfolding package_name_in first_plain after_install
extract_package_name tx = package_name_in tx.package_manager (split_whitespace tx.command)

new_row : Text → PackageManager → Text → TransactionRow
new_row command pm start = record {
  command = command;
  package_manager = manager_name pm;
  start_time = start;
  end_time = none;
  status = status_name running;
  pid_root = none;
  rollback_mode = lit "conservative";
  notes = none;
}

insert_transaction_row : TransactionRow → Db → Result ℕ × Db
insert_transaction_row r db =
    let (key, t) = append r db.transactions in (ok key, record db { transactions = t })

-- The transaction that a row stands for.
pub from_row : ℕ × TransactionRow → Transaction
from_row (key, r) = record {
  txid = key;
  command = r.command;
  package_manager = manager_of_name r.package_manager;
  start_time = r.start_time;
  end_time = r.end_time;
  status = status_of_name r.status;
  pid_root = r.pid_root;
  rollback_mode = r.rollback_mode;
  notes = r.notes;
}

first_of : List (ℕ × TransactionRow) → Option Transaction
first_of [] = none
first_of (row ∷ _) = some (from_row row)

pub find_transaction : ℕ → Db → Option Transaction
find_transaction txid db = first_of (select (λ key _. key == txid) db.transactions)

-- `COALESCE(new, old)`
coalesce : Option ℕ → Option ℕ → Option ℕ
coalesce none old = old
coalesce (some new) old = some new

close_row : TransactionStatus → Text → Option ℕ → TransactionRow → TransactionRow
close_row status end pid r = record r {
  status = status_name status;
  end_time = some end;
  pid_root = coalesce pid r.pid_root;
}

pub set_status : ℕ → TransactionStatus → Text → Option ℕ → Db → Db
set_status txid status end pid db = record db {
  transactions = update (λ key _. key == txid) (close_row status end pid) db.transactions;
}

pub not_found : ℕ → Text
not_found txid = lit "Transaction " ++ decimal txid ++ lit " not found"

module _ (os : Os) where
  unfoldable pub create_transaction : Text → List Text → M os ℕ
  unfolding new_row insert_transaction_row detect_from_command manager_name status_name
  create_transaction command args = do
    start ← now
    with_context (lit "Failed to insert transaction") (
        execute insert_transaction
          (insert_transaction_row (new_row command (detect_from_command args) start)))

  found_or : ℕ → Option Transaction → M os Transaction
  found_or txid none = fail (not_found txid)
  found_or txid (some tx) = pure tx

  unfoldable pub load_transaction : ℕ → M os Transaction
  unfolding found_or
  load_transaction txid = do
    found ← with_context (not_found txid) (query select_transaction (find_transaction txid))
    found_or txid found

  unfoldable pub update_transaction_status : ℕ → TransactionStatus → Option ℕ → M os (Unit {0})
  update_transaction_status txid status pid = do
    end ← now
    execute update_transaction (λ db. (ok tt, set_status txid status end pid db))
