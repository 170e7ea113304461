-- ===== src/Monitor/Shared.antt =====
-- `run_shared` of `src/ebpf/mod.rs`: one round of the loop that sends records to the journal.
use pkgundo.Prelude.{
  Text, Bool, List, [], ◌∷◌, none, some, if◌then◌else◌, not, filter, Bool-cases, inl, inr, ◌++◌,
  All, ◌≡◌, refl,
}
use pkgundo.Classifier.{classify_path, category_name}
use pkgundo.Journal.{MutationRecord, JournalMessage, record_message}
use pkgundo.Kernel.{Kernel}
use pkgundo.Monitor.{mask_to_operation, is_excluded_fanotify}
use pkgundo.Monitor.Filter.{Launches, Event, Reader, refresh_tid_cache, read_events_filtered}
use pkgundo.Monitor.Filter.Attributed.{IsAttributed, read_events_filtered-IsAttributed}

module _ (k : Kernel) where
  record_of : Event → Text → k.State → MutationRecord
  unfolding mask_to_operation
  record_of e now s = record {
    id = none;
    txid = e.txid;
    pid = some e.pid;
    operation = mask_to_operation e.mask;
    path = e.path;
    timestamp = now;
    file_category = category_name (classify_path (k.is_symlink s e.path) e.path);
    pre_hash = none;
    post_hash = none;
  }

  -- A change at an excluded path is passed over.
  message_of : Event → k.State → List JournalMessage × k.State
  unfolding record_of
  message_of e s =
      let (now, s') = k.now s in
      if is_excluded_fanotify e.path then ([], s) else (record_message (record_of e now s) ∷ [], s')

  messages_of : List Event → k.State → List JournalMessage × k.State
  unfolding message_of
  messages_of [] s = ([], s)
  messages_of (e ∷ es) s =
      let (sent, s') = message_of e s in let (more, s'') = messages_of es s' in (sent ++ more, s'')

  -- What a round sends, and whether the next one follows without a pause.
  unfoldable pub run_shared_round : Launches → Reader k → (List JournalMessage × Bool) × Reader k
  unfolding messages_of
  run_shared_round launches r =
      let ((events, full), r') = read_events_filtered k launches (refresh_tid_cache k launches r) in
      let (messages, s) = messages_of events r'.kernel in
      ((messages, full), record r' { kernel = s })

-- The message records the event, under the event's transaction and process, one of the names of
-- operations, and the category of its path.
abbrev pub IsRecordOf : Event → JournalMessage → Type 0
IsRecordOf e message =
    (link : Bool) × (m : MutationRecord) × ((message ≡ record_message m)
      × (((m.txid ≡ e.txid) × (m.pid ≡ some e.pid))
          × (((m.path ≡ e.path) × (m.operation ≡ mask_to_operation e.mask))
              × (m.file_category ≡ category_name (classify_path link e.path)))))

-- The messages record these events, one each and in their order.
pub AreRecordsOf : List Event → List JournalMessage → Type 0
AreRecordsOf [] [] = Unit
AreRecordsOf [] (_ ∷ _) = ⊥
AreRecordsOf (_ ∷ _) [] = ⊥
AreRecordsOf (e ∷ es) (m ∷ ms) = IsRecordOf e m × AreRecordsOf es ms

-- The events at paths that are not excluded.
abbrev pub kept_events : List Event → List Event
kept_events es = filter (λ e. not (is_excluded_fanotify e.path)) es

-- What a round reads.
abbrev pub events_read : (k : Kernel) → Launches → Reader k → List Event
events_read k launches r = (read_events_filtered k launches (refresh_tid_cache k launches r)).0.0

messages_of-AreRecordsOf :
    (k : Kernel) (es : List Event) (s : k.State)
    → AreRecordsOf (kept_events es) (messages_of k es s).0
unfolding messages_of message_of record_of AreRecordsOf
messages_of-AreRecordsOf k [] s = tt
messages_of-AreRecordsOf k (e ∷ es) s = elim (Bool-cases (is_excluded_fanotify e.path)) [
  | inl excluded ↦ rw excluded (messages_of-AreRecordsOf k es s)
  | inr watched ↦ rw watched (
    (
      k.is_symlink s e.path,
      record_of k e (k.now s).0 s,
      (refl, ((refl, refl), ((refl, refl), refl))),
    ),
    messages_of-AreRecordsOf k es (k.now s).1,
  )
]

-- A round of the loop sends one record for each event that it reads at a path that is not excluded, in
-- the order of the events and nothing else: the record has the event's transaction, process and path,
-- the operation of its mask and the category of its path; and every event that is read is of a process
-- in the map of launches, under that launch's transaction, at a path in its home.
pub run_shared_round-IsRecordOf :
    (k : Kernel) (launches : Launches) (r : Reader k)
    → AreRecordsOf (kept_events (events_read k launches r)) (run_shared_round k launches r).0.0
      × All (IsAttributed launches) (events_read k launches r)
unfolding run_shared_round
run_shared_round-IsRecordOf k launches r =
    let ((events, full), r') = read_events_filtered k launches (refresh_tid_cache k launches r) in
    (
      messages_of-AreRecordsOf k events r'.kernel,
      read_events_filtered-IsAttributed k launches (refresh_tid_cache k launches r),
    )
