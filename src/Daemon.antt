-- ===== src/Daemon.antt =====
-- `src/daemon/mod.rs`: the task that writes the journal, and the answers to requests.
pub mod Flushed
pub mod Requests
mod Tests
use pkgundo.Prelude.{ℕ, List, [], ◌∷◌, ◌++◌, Result, ok, err}
use pkgundo.System.{Os, open_database}
use pkgundo.Exec.{M, ◌>>=◌, ◌>>◌, pure, attempt, query}
use pkgundo.Journal.{JournalMessage, record_message, flush, append_mutation}

module _ (os : Os) where
  -- A message is handled: the flushes that this acknowledges. A record that is refused is logged.
  write_message : JournalMessage → M os (List ℕ)
  write_message (record_message m) = do attempt (append_mutation os m); pure []
  write_message (flush ack) = pure (ack ∷ [])

  -- The task handles the messages in the order of the channel.
  unfoldable pub journal_task : List JournalMessage → M os (List ℕ)
  unfolding write_message
  journal_task [] = pure []
  journal_task (message ∷ messages) = do
    acks ← write_message message
    more ← journal_task messages
    pure (acks ++ more)

  -- `db::open_db`, whose error is only logged.
  open_journal : M os (Unit {0})
  open_journal = query open_database (λ db. tt)

  serve_journal : Result (Unit {0}) → List JournalMessage → M os (List ℕ)
  serve_journal (err e) messages = pure []
  serve_journal (ok _) messages = journal_task messages

  -- The task that is spawned. It ends if the database cannot be opened: nothing in the channel is
  -- handled then, and no flush is acknowledged.
  spawned_task : List JournalMessage → M os (List ℕ)
  unfolding open_journal serve_journal
  spawned_task messages = attempt open_journal >>= λ opened. serve_journal opened messages
