-- ===== src/Daemon/Flushed.antt =====
-- A flush is a barrier: what was sent before it is in the journal when it is acknowledged.
use pkgundo.Prelude.{
  Text, some, Bool, true, false, not, ◌||◌, any, ◌==◌, arith, Bool-cases, inl, inr, ℕ, List, [],
  ◌∷◌, ◌++◌, none, Result, ok, All, ◌≡◌, refl, sym, ap, ◌∙◌, subst,
}
use pkgundo.System.{Os, insert_mutation, open_database}
use pkgundo.Exec.{World, pure, ◌>>=◌}
use pkgundo.Run.Rules.{bind-ok}
use pkgundo.Db.{Db, MutationRow, has_transaction}
use pkgundo.Journal.{MutationRecord, JournalMessage, record_message, flush, to_row, append_mutation}
use pkgundo.Journal.Dedup.{has_mutation}
use pkgundo.Journal.Persist.{
  append_mutation-keeps, append_mutation-has, tracked_apps-append_mutation,
  transactions-append_mutation,
}
use pkgundo.Daemon.{write_message, journal_task, open_journal, serve_journal, spawned_task}

-- The flushes among the messages.
abbrev pub acks_of : List JournalMessage → List ℕ
acks_of [] = []
acks_of (record_message m ∷ messages) = acks_of messages
acks_of (flush ack ∷ messages) = ack ∷ acks_of messages

-- The journal has what the message records, unless the database has no transaction of its number.
abbrev pub IsWritten : Db → JournalMessage → Type 0
IsWritten db (record_message m) =
    (has_mutation (to_row m) db || not (has_transaction m.txid db)) ≡ true
IsWritten db (flush ack) = Unit

or_true : (b : Bool) → (b || true) ≡ true
or_true true = refl
or_true false = refl

module _ (os : Os) (sound : (s : os.State) → os.sql_fault s insert_mutation ≡ none) where
  write_message-keeps :
      (r : MutationRow) (message : JournalMessage) (w : World os)
      → has_mutation r w.db ≡ true
      → has_mutation r (write_message os message w).1.db ≡ true
  unfolding write_message
  write_message-keeps r (record_message m) w h = append_mutation-keeps os sound r m w h
  write_message-keeps r (flush ack) w h = h

  write_message-acks :
      (message : JournalMessage) (w : World os)
      → (write_message os message w).0 ≡ ok (acks_of (message ∷ []))
  unfolding write_message
  write_message-acks (record_message m) w = refl
  write_message-acks (flush ack) w = refl

  written_known :
      (m : MutationRecord) (w : World os)
      → has_transaction m.txid w.db ≡ true
      → has_mutation (to_row m) (write_message os (record_message m) w).1.db ≡ true
  unfolding write_message
  written_known m w known = append_mutation-has os sound m w known

  -- Transactions stay as they are.
  has_transaction-write_message :
      (txid : ℕ) (message : JournalMessage) (w : World os)
      → has_transaction txid (write_message os message w).1.db ≡ has_transaction txid w.db
  unfolding write_message
  has_transaction-write_message txid (record_message m) w =
      ap (λ t. any (λ (k, _). k == txid) t.rows) (transactions-append_mutation os m w)
  has_transaction-write_message txid (flush ack) w = refl

  write_message-IsWritten :
      (message : JournalMessage) (w : World os)
      → IsWritten (write_message os message w).1.db message
  write_message-IsWritten (record_message m) w = elim (Bool-cases (has_transaction m.txid w.db)) [
    | inl known ↦ rw (written_known m w known) refl
    | inr unknown ↦
        rw (has_transaction-write_message m.txid (record_message m) w, unknown)
          (or_true (has_mutation (to_row m) (write_message os (record_message m) w).1.db))
  ]
  write_message-IsWritten (flush ack) w = tt

  -- The world after the messages.
  after : List JournalMessage → World os → World os
  after [] w = w
  after (message ∷ messages) w = after messages (write_message os message w).1

  rest-eq :
      (acks : List ℕ) (messages : List JournalMessage) (w : World os)
      → journal_task os messages w ≡ (ok (acks_of messages), after messages w)
      → (journal_task os messages >>= λ more. pure (acks ++ more)) w
        ≡ (ok (acks ++ acks_of messages), after messages w)
  rest-eq acks messages w h =
      bind-ok (journal_task os messages) (λ more. pure {os = os} (acks ++ more)) w
        (acks_of messages) (ap (λ r. r.0) h)
      ∙ ap (λ (r : Result (List ℕ) × World os). (ok (acks ++ acks_of messages), r.1)) h

  journal_task-eq :
      (messages : List JournalMessage) (w : World os)
      → journal_task os messages w ≡ (ok (acks_of messages), after messages w)
  unfolding journal_task after write_message
  journal_task-eq [] w = refl
  journal_task-eq (record_message m ∷ messages) w =
      rest-eq [] messages (append_mutation os m w).1
        (journal_task-eq messages (append_mutation os m w).1)
  journal_task-eq (flush ack ∷ messages) w =
      rest-eq (ack ∷ []) messages w (journal_task-eq messages w)

  after-keeps :
      (r : MutationRow) (messages : List JournalMessage) (w : World os)
      → has_mutation r w.db ≡ true
      → has_mutation r (after messages w).db ≡ true
  unfolding after
  after-keeps r [] w h = h
  after-keeps r (message ∷ messages) w h =
      after-keeps r messages (write_message os message w).1 (write_message-keeps r message w h)

  has_transaction-after :
      (txid : ℕ) (messages : List JournalMessage) (w : World os)
      → has_transaction txid (after messages w).db ≡ has_transaction txid w.db
  unfolding after
  has_transaction-after txid [] w = refl
  has_transaction-after txid (message ∷ messages) w =
      has_transaction-after txid messages (write_message os message w).1
      ∙ has_transaction-write_message txid message w

  after-IsWritten-one :
      (message : JournalMessage) (messages : List JournalMessage) (w : World os)
      → IsWritten w.db message
      → IsWritten (after messages w).db message
  after-IsWritten-one (record_message m) messages w h =
      ground (arith, after-keeps (to_row m) messages w, has_transaction-after m.txid messages w, h)
  after-IsWritten-one (flush ack) messages w h = tt

  after-IsWritten :
      (messages : List JournalMessage) (w : World os)
      → All (IsWritten (after messages w).db) messages
  unfolding after
  after-IsWritten [] w = tt
  after-IsWritten (message ∷ messages) w = (
    after-IsWritten-one message messages (write_message os message w).1
        (write_message-IsWritten message w),
    after-IsWritten messages (write_message os message w).1,
  )

  acks_of-append : (xs ys : List JournalMessage) → acks_of (xs ++ ys) ≡ acks_of xs ++ acks_of ys
  acks_of-append [] ys = refl
  acks_of-append (record_message m ∷ xs) ys = acks_of-append xs ys
  acks_of-append (flush ack ∷ xs) ys = ap (λ zs. ack ∷ zs) (acks_of-append xs ys)

  after-append :
      (xs ys : List JournalMessage) (w : World os) → after (xs ++ ys) w ≡ after ys (after xs w)
  unfolding after
  after-append [] ys w = refl
  after-append (x ∷ xs) ys w = after-append xs ys (write_message os x w).1

  write_message-tracked_apps :
      (message : JournalMessage) (w : World os)
      → (write_message os message w).1.db.tracked_apps ≡ w.db.tracked_apps
  unfolding write_message
  write_message-tracked_apps (record_message m) w = tracked_apps-append_mutation os m w
  write_message-tracked_apps (flush ack) w = refl

  after-tracked_apps :
      (messages : List JournalMessage) (w : World os)
      → (after messages w).db.tracked_apps ≡ w.db.tracked_apps
  unfolding after
  after-tracked_apps [] w = refl
  after-tracked_apps (message ∷ messages) w =
      after-tracked_apps messages (write_message os message w).1
      ∙ write_message-tracked_apps message w

  -- The task leaves the tracked apps as they are.
  pub tracked_apps-journal_task :
      (messages : List JournalMessage) (w : World os)
      → (journal_task os messages w).1.db.tracked_apps ≡ w.db.tracked_apps
  tracked_apps-journal_task messages w =
      ap (λ r. r.1.db.tracked_apps) (journal_task-eq messages w) ∙ after-tracked_apps messages w

-- If SQLite refuses no insertion, then the task acknowledges a flush after all flushes that were
-- sent before it, and by then every record that was sent before it is in the journal, unless the
-- database has no transaction of its number.
pub journal_task_flushes :
    (os : Os) (before : List JournalMessage) (ack : ℕ) (w : World os)
    → ((s : os.State) → os.sql_fault s insert_mutation ≡ none)
    → ((journal_task os (before ++ flush ack ∷ []) w).0 ≡ ok (acks_of before ++ ack ∷ []))
      × All (IsWritten (journal_task os (before ++ flush ack ∷ []) w).1.db) before
unfolding after write_message
journal_task_flushes os before ack w sound =
    let same = journal_task-eq os sound (before ++ flush ack ∷ []) w in
    let ended : (journal_task os (before ++ flush ack ∷ []) w).1 ≡ after os sound before w =
      ap (λ r. r.1) same ∙ after-append os sound before (flush ack ∷ []) w in
    (
      ap (λ r. r.0) same ∙ ap ok (acks_of-append os sound before (flush ack ∷ [])),
      subst (λ (w : World os). All (IsWritten w.db) before) (sym ended)
          (after-IsWritten os sound before w),
    )

-- Where the database cannot be opened, no flush is acknowledged and nothing is written.
spawned_task-refused :
    (os : Os) (messages : List JournalMessage) (w : World os) (e : Text)
    → os.sql_fault w.state open_database ≡ some e
    → spawned_task os messages w ≡ (ok [], w)
unfolding spawned_task open_journal serve_journal
spawned_task-refused os messages w e refused = ground (arith, refused)
