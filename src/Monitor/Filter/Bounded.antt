-- ===== src/Monitor/Filter/Bounded.antt =====
-- The buffer of events without a launch is bounded, and an event waits in it for its launch.
use pkgundo.Prelude.{
  ℕ, suc, if◌then◌else◌, ◌≤◌, List, [], ◌∷◌, Option, none, some, Result, ok, err, if-post, leb,
  length, length-append, ◌==◌, ◌≡◌, refl, arith, ap,
}
use pkgundo.System.{Bytes}
use pkgundo.Kernel.{Kernel}
use pkgundo.Monitor.{PendingEvent, pending_max, fan_nofd}
use pkgundo.Monitor.Buffer.{RawEvent, parse_events, slice}
use pkgundo.Monitor.Filter.{
  Launches, Event, Reader, push_pending, buffer_pending, hold, retry_one, retry_all, retry_pending,
  handle_by, close_event, handle_event, handle_all, handle_read, resolve_launch,
  read_events_filtered, buffer_size,
}

module _ {k : Kernel} where
  abbrev pub IsBounded : Reader k → Type 0
  IsBounded r = length r.monitor.pending ≤ pending_max

module _ (k : Kernel) where
  buffer_pending-IsBounded :
      (mask pid : ℕ) (info : Bytes) (r : Reader k)
      → IsBounded r
      → IsBounded (buffer_pending k mask pid info r)
  unfolding buffer_pending push_pending
  buffer_pending-IsBounded mask pid info r bounded =
      if-post (λ (r : Reader k). IsBounded r) (leb pending_max (length r.monitor.pending))
        (λ full. bounded)
        (λ room. ground (
          arith,
          length-append r.monitor.pending (
              record { mask = mask; pid = pid; info = info; first_seen = (k.clock r.kernel).0 }
              ∷ []),
        ))

  length-retry_one :
      (launches : Launches) (now : ℕ) (p : PendingEvent) (s : k.State) (kept : List PendingEvent)
      (n : ℕ)
      → length kept ≤ n
      → length (if (retry_one k now launches p s).0.0 then p ∷ kept else kept) ≤ suc n
  length-retry_one launches now p s kept n h = ground arith

  length-retry_all :
      (launches : Launches) (now : ℕ) (ps : List PendingEvent) (s : k.State)
      → length (retry_all k now launches ps s).0.0 ≤ length ps
  unfolding retry_all
  length-retry_all launches now [] s = omega arith
  length-retry_all launches now (p ∷ ps) s =
      length-retry_one launches now p s
        (retry_all k now launches ps (retry_one k now launches p s).1).0.0 (length ps)
        (length-retry_all launches now ps (retry_one k now launches p s).1)

  retry_pending-IsBounded :
      (launches : Launches) (r : Reader k) (ps : List PendingEvent)
      → r.monitor.pending ≡ ps
      → IsBounded r
      → IsBounded (retry_pending k launches r).1
  unfolding retry_pending
  retry_pending-IsBounded launches r [] h bounded = rw h (omega arith)
  retry_pending-IsBounded launches r (p ∷ ps) h bounded = rw h (
      omega (
        arith,
        length-retry_all launches (k.clock r.kernel).0 (p ∷ ps) (k.clock r.kernel).1,
        ap (length {A = PendingEvent}) h,
        bounded,
      ))

  hold-IsBounded :
      (launches : Launches) (mask pid : ℕ) (info : Bytes) (r : Reader k)
      → IsBounded r
      → IsBounded (hold k launches mask pid info r)
  unfolding hold
  hold-IsBounded [] mask pid info r bounded = bounded
  hold-IsBounded (_ ∷ _) mask pid info r bounded = buffer_pending-IsBounded mask pid info r bounded

  handle_by-IsBounded :
      (launches : Launches) (buf : Bytes) (e : RawEvent) (resolved info : Option (ℕ × ℕ))
      (r : Reader k)
      → IsBounded r
      → IsBounded (handle_by k launches buf e resolved info r).1
  unfolding handle_by
  handle_by-IsBounded launches buf e (some (tgid, mount_fd)) none r bounded = bounded
  handle_by-IsBounded launches buf e (some (tgid, mount_fd)) (some at) r bounded = bounded
  handle_by-IsBounded launches buf e none none r bounded = bounded
  handle_by-IsBounded launches buf e none (some at) r bounded =
      hold-IsBounded launches e.meta.mask e.meta.pid (slice buf at) r bounded

  close_event-IsBounded :
      (e : RawEvent) (r : Reader k) → IsBounded r → IsBounded (close_event k e r)
  unfolding close_event
  close_event-IsBounded e r bounded =
      if-post (λ (r : Reader k). IsBounded r) (e.meta.fd == fan_nofd) (λ none_open. bounded)
        (λ opened. bounded)

  handle_all-IsBounded :
      (launches : Launches) (buf : Bytes) (es : List RawEvent) (r : Reader k)
      → IsBounded r
      → IsBounded (handle_all k launches buf es r).1
  unfolding handle_all handle_event
  handle_all-IsBounded launches buf [] r bounded = bounded
  handle_all-IsBounded launches buf (e ∷ es) r bounded =
      let resolved = resolve_launch k launches e.meta.pid r in
      handle_all-IsBounded launches buf es (handle_event k launches buf e r).1 (
        close_event-IsBounded e (handle_by k launches buf e resolved e.info r).1
          (handle_by-IsBounded launches buf e resolved e.info r bounded))

  handle_read-IsBounded :
      (launches : Launches) (found : List Event) (answer : Result Bytes) (r : Reader k)
      → IsBounded r
      → IsBounded (handle_read k launches found answer r).1
  unfolding handle_read
  handle_read-IsBounded launches found (err e) r bounded = bounded
  handle_read-IsBounded launches found (ok []) r bounded = bounded
  handle_read-IsBounded launches found (ok (b ∷ bs)) r bounded =
      handle_all-IsBounded launches (b ∷ bs) (parse_events (b ∷ bs)) r bounded

  -- A read leaves at most 5000 events held back if there were no more before it, whatever the
  -- kernel puts into the buffer.
  pub read_events_filtered-IsBounded :
      (launches : Launches) (r : Reader k)
      → IsBounded r
      → IsBounded (read_events_filtered k launches r).1
  unfolding read_events_filtered
  read_events_filtered-IsBounded launches r bounded =
      let held = (retry_pending k launches r).1 in
      let (answer, s) = k.read held.monitor.fanotify_fd buffer_size held.kernel in
      handle_read-IsBounded launches (retry_pending k launches r).0 answer
        (record held { kernel = s })
        (retry_pending-IsBounded launches r r.monitor.pending refl bounded)
