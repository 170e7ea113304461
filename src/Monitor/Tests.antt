-- ===== src/Monitor/Tests.antt =====
-- One event in the buffer, of a process of a launch, and the theorems on it.
use pkgundo.Prelude.{lit, true, suc, ◌+◌, [], ◌∷◌, none, ◌≡◌, refl, arith, All, filter, length}
use pkgundo.System.{Bytes}
use pkgundo.Kernel.Memory.{machine}
use pkgundo.Monitor.{PendingEvent, ActiveLaunch}
use pkgundo.Monitor.Buffer.{info_slice, events_from, parse_events}
use pkgundo.Monitor.Buffer.Bounds.{IsInside, parse_events-IsInside, walks_end}
use pkgundo.Monitor.Filter.{Launches, Reader, read_events_filtered, retry_pending}
use pkgundo.Monitor.Filter.Attributed.{IsAttributed, read_events_filtered-IsAttributed}
use pkgundo.Monitor.Filter.Bounded.{IsBounded, read_events_filtered-IsBounded}
use pkgundo.Monitor.Filter.Waiting.{is_waiting, retry_pending-filter}
use pkgundo.Monitor.Shared.{
  AreRecordsOf, kept_events, events_read, run_shared_round, run_shared_round-IsRecordOf,
}

-- A handle of no bytes and the name `x`.
abbrev a_record : Bytes
a_record =
    2 ∷ 0 ∷ 22 ∷ 0 ∷ 0 ∷ 0 ∷ 0 ∷ 0 ∷ 0 ∷ 0 ∷ 0 ∷ 0 ∷ 0 ∷ 0 ∷ 0 ∷ 0 ∷ 0 ∷ 0 ∷ 0 ∷ 0 ∷ 120 ∷ 0 ∷ []

-- The creation of a file by the process 42.
abbrev a_buffer : Bytes
a_buffer =
    46 ∷ 0 ∷ 0 ∷ 0 ∷ 3 ∷ 0 ∷ 24 ∷ 0 ∷ 0 ∷ 1 ∷ 0 ∷ 0 ∷ 0 ∷ 0 ∷ 0 ∷ 0 ∷ 255 ∷ 255 ∷ 255 ∷ 255 ∷ 42 ∷ 0
    ∷ 0 ∷ 0 ∷ a_record

abbrev a_launch : ActiveLaunch
a_launch = record { txid = 7; home = lit "/home/ann"; mount_fd = 5 }

abbrev launches : Launches
launches = (42, a_launch) ∷ []

abbrev an_event : PendingEvent
an_event = record { mask = 0x100; pid = 43; info = a_record; first_seen = 0 }

abbrev a_reader : Reader machine
a_reader = record {
  monitor = record {
    txid = 0;
    fanotify_fd = 3;
    pid_attribution = true;
    tid_cache = [];
    pending = an_event ∷ [];
  };
  kernel = record { files = []; dirs = []; buffer = a_buffer };
}

one_event : length (parse_events a_buffer) ≡ 1
unfolding parse_events
one_event = refl

parse_events-IsInside_example : All (IsInside a_buffer) (parse_events a_buffer)
parse_events-IsInside_example = parse_events-IsInside a_buffer

walks_end_example :
    (events_from (suc (length a_buffer) + 9) a_buffer 0 ≡ parse_events a_buffer)
    × (info_slice (suc (length a_buffer) + 9) a_buffer 24 46 none
        ≡ info_slice (suc (length a_buffer)) a_buffer 24 46 none)
walks_end_example = walks_end a_buffer 9 24 46 (omega arith)

read_events_filtered-IsAttributed_example :
    All (IsAttributed launches) (read_events_filtered machine launches a_reader).0.0
read_events_filtered-IsAttributed_example =
    read_events_filtered-IsAttributed machine launches a_reader

read_events_filtered-IsBounded_example :
    IsBounded (read_events_filtered machine launches a_reader).1
read_events_filtered-IsBounded_example =
    read_events_filtered-IsBounded machine launches a_reader (omega arith)

retry_pending-filter_example :
    (retry_pending machine launches a_reader).1.monitor.pending
    ≡ filter (is_waiting launches (machine.clock a_reader.kernel).0) a_reader.monitor.pending
retry_pending-filter_example = retry_pending-filter machine launches a_reader

run_shared_round-IsRecordOf_example :
    AreRecordsOf
      (kept_events (events_read machine launches a_reader))
      (run_shared_round machine launches a_reader).0.0
    × All (IsAttributed launches) (events_read machine launches a_reader)
run_shared_round-IsRecordOf_example = run_shared_round-IsRecordOf machine launches a_reader
