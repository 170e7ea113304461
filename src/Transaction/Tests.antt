-- ===== src/Transaction/Tests.antt =====
-- A database with one running transaction, and what the program reads in it.
use pkgundo.Prelude.{lit, text_eq, [], ◌∷◌, none, some, ◌≡◌, refl}
use pkgundo.System.Memory.{memory, Files}
use pkgundo.Exec.{World}
use pkgundo.Db.{Db, TransactionRow}
use pkgundo.Db.Tables.{no_rows, select}
use pkgundo.Transaction.{
  running, script, Transaction, find_transaction, first_of, from_row, manager_of_name,
  status_of_name,
}

abbrev pub one_row : TransactionRow
one_row = record {
  command = lit "./install.sh";
  package_manager = lit "script";
  start_time = lit "2024-01-01T00:00:00+00:00";
  end_time = none;
  status = lit "running";
  pid_root = none;
  rollback_mode = lit "conservative";
  notes = none;
}

abbrev pub one_db : Db
one_db = record {
  transactions = record { last = 1; rows = (1, one_row) ∷ [] };
  mutations = no_rows;
  fingerprints = no_rows;
  archives = no_rows;
  file_blobs = no_rows;
  service_events = no_rows;
  user_events = no_rows;
  tracked_apps = no_rows;
}

abbrev pub one_transaction : Transaction
one_transaction = record {
  txid = 1;
  command = lit "./install.sh";
  package_manager = script;
  start_time = lit "2024-01-01T00:00:00+00:00";
  end_time = none;
  status = running;
  pid_root = none;
  rollback_mode = lit "conservative";
  notes = none;
}

abbrev pub world_with : Files → World memory
world_with files = record { db = one_db; state = files }

pub one_found : find_transaction 1 one_db ≡ some one_transaction
unfolding find_transaction first_of from_row manager_of_name status_of_name select text_eq lit
one_found = refl
