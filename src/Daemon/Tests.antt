-- ===== src/Daemon/Tests.antt =====
-- A record and a flush in the channel.
use pkgundo.Prelude.{lit, List, [], ◌∷◌, ◌++◌, none, some, ok, ◌≡◌, refl, All}
use pkgundo.System.Memory.{memory}
use pkgundo.Transaction.Tests.{world_with}
use pkgundo.Journal.{MutationRecord, JournalMessage, record_message, flush}
use pkgundo.Kernel.Memory.{machine}
use pkgundo.TrackedApps.Tests.{plain_json, tracked_world, given_up}
use pkgundo.Daemon.Requests.{Server, writing, untrack, ok_response, handle_request}
use pkgundo.Daemon.Requests.Untracking.{IsGivenUp, handle_request-IsGivenUp}
use pkgundo.Daemon.{journal_task}
use pkgundo.Daemon.Flushed.{acks_of, IsWritten, journal_task_flushes}

abbrev a_mutation : MutationRecord
a_mutation = record {
  id = none;
  txid = 1;
  pid = some 42;
  operation = lit "create";
  path = lit "/home/ann/x";
  timestamp = lit "2024-01-01T00:00:00+00:00";
  file_category = lit "UserData";
  pre_hash = none;
  post_hash = none;
}

abbrev queue : List JournalMessage
queue = record_message a_mutation ∷ flush 1 ∷ record_message a_mutation ∷ []

journal_task_flushes_example :
    ((journal_task memory (queue ++ flush 2 ∷ []) (world_with [])).0 ≡ ok (acks_of queue ++ 2 ∷ []))
    × All (IsWritten (journal_task memory (queue ++ flush 2 ∷ []) (world_with [])).1.db) queue
journal_task_flushes_example = journal_task_flushes memory queue 2 (world_with []) (λ s. refl)

-- A server on which one app is tracked.
abbrev a_server : Server memory machine
a_server = record { world = tracked_world; exec_watch = none; queue = queue; journal = writing }

answered :
    (handle_request memory machine plain_json (untrack (lit "/opt/app")) a_server).0
    ≡ ok_response (lit "Stopped tracking '" ++ (lit "/opt/app" ++ lit "'"))
unfolding handle_request
answered = rw given_up refl

handle_request-IsGivenUp_example :
    IsGivenUp memory machine plain_json
      (lit "/opt/app")
      queue
      (handle_request memory machine plain_json (untrack (lit "/opt/app")) a_server).1
handle_request-IsGivenUp_example =
    handle_request-IsGivenUp memory machine plain_json (lit "/opt/app")
      (lit "Stopped tracking '" ++ (lit "/opt/app" ++ lit "'")) a_server (λ s. refl) refl answered
