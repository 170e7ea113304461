-- ===== src/Monitor/Filter/Attributed.antt =====
-- Every event that a read yields belongs to a launch.
use pkgundo.Prelude.{
  Text, Bool, true, ℕ, List, [], ◌∷◌, Option, Option-cases, none, some, Result, ok, err, if-post,
  ltb, ◌-◌, ◌≡◌, inl, inr, refl, arith, All, All-append,
}
use pkgundo.Maps.{lookup}
use pkgundo.System.{Bytes}
use pkgundo.Kernel.{Kernel}
use pkgundo.Paths.{components, path_starts_with}
use pkgundo.Monitor.{PendingEvent, ActiveLaunch, pending_retry_window}
use pkgundo.Monitor.Buffer.{RawEvent, parse_events, slice}
use pkgundo.Monitor.Resolve.{resolve_info_record}
use pkgundo.Monitor.Filter.{
  Launches, Event, same_pid, attribute_event, event_of, event_to, Reader, retry_by, retry_one,
  retry_all, retry_pending, handle_by, handle_event, handle_all, handle_read, resolve_launch,
  read_events_filtered, buffer_size,
}

-- The event is that of a process of a launch, has the launch's transaction, and its path is in the
-- launch's home.
abbrev pub IsAttributed : Launches → Event → Type 0
IsAttributed launches e =
    (launch : ActiveLaunch) × ((lookup same_pid e.pid launches ≡ some launch)
      × ((e.txid ≡ launch.txid)
          × (path_starts_with (components e.path) (components launch.home) ≡ true)))

pub attribute_event-eq-some :
    (pid txid : ℕ) (path : Text) (launches : Launches)
    → attribute_event pid path launches ≡ some txid
    → (launch : ActiveLaunch) × ((lookup same_pid pid launches ≡ some launch)
        × ((txid ≡ launch.txid)
            × (path_starts_with (components path) (components launch.home) ≡ true)))
unfolding attribute_event
attribute_event-eq-some pid txid path launches h =
    elim (Option-cases (lookup same_pid pid launches)) [
      | inl nothing ↦ absurd (ground arith)
      | inr (launch, found) ↦ (launch, (found, (ground arith, ground arith)))
    ]

event_to-IsAttributed :
    (mask pid : ℕ) (path : Text) (txid : Option ℕ) (launches : Launches)
    → attribute_event pid path launches ≡ txid
    → All (IsAttributed launches) (event_to mask pid path txid)
unfolding event_to
event_to-IsAttributed mask pid path none launches h = tt
event_to-IsAttributed mask pid path (some txid) launches h =
    (attribute_event-eq-some pid txid path launches h, tt)

event_by :
    (mask pid : ℕ) (launches : Launches) (path : Option Text)
    → All (IsAttributed launches) (event_of mask pid launches path)
unfolding event_of
event_by mask pid launches none = tt
event_by mask pid launches (some path) =
    event_to-IsAttributed mask pid path (attribute_event pid path launches) launches refl

module _ (k : Kernel) (launches : Launches) where
  retry_by-IsAttributed :
      (now : ℕ) (p : PendingEvent) (found : Option ActiveLaunch) (s : k.State)
      → All (IsAttributed launches) (retry_by k now launches p found s).0.1
  unfolding retry_by
  retry_by-IsAttributed now p none s = tt
  retry_by-IsAttributed now p (some launch) s =
      event_by p.mask p.pid launches (resolve_info_record k launch.mount_fd p.info s).0

  retry_one-IsAttributed :
      (now : ℕ) (p : PendingEvent) (s : k.State)
      → All (IsAttributed launches) (retry_one k now launches p s).0.1
  unfolding retry_one
  retry_one-IsAttributed now p s =
      if-post (λ (r : (Bool × List Event) × k.State). All (IsAttributed launches) r.0.1)
        (ltb pending_retry_window (now - p.first_seen)) (λ late. tt)
        (λ early. retry_by-IsAttributed now p (lookup same_pid p.pid launches) s)

  retry_all-IsAttributed :
      (now : ℕ) (ps : List PendingEvent) (s : k.State)
      → All (IsAttributed launches) (retry_all k now launches ps s).0.1
  unfolding retry_all
  retry_all-IsAttributed now [] s = tt
  retry_all-IsAttributed now (p ∷ ps) s =
      All-append (IsAttributed launches) (retry_one k now launches p s).0.1
        (retry_all k now launches ps (retry_one k now launches p s).1).0.1
        (retry_one-IsAttributed now p s)
        (retry_all-IsAttributed now ps (retry_one k now launches p s).1)

  retried :
      (r : Reader k) (ps : List PendingEvent)
      → r.monitor.pending ≡ ps
      → All (IsAttributed launches) (retry_pending k launches r).0
  unfolding retry_pending
  retried r [] h = rw h tt
  retried r (p ∷ ps) h =
      rw h (retry_all-IsAttributed (k.clock r.kernel).0 (p ∷ ps) (k.clock r.kernel).1)

  handle_by-IsAttributed :
      (buf : Bytes) (e : RawEvent) (resolved info : Option (ℕ × ℕ)) (r : Reader k)
      → All (IsAttributed launches) (handle_by k launches buf e resolved info r).0
  unfolding handle_by
  handle_by-IsAttributed buf e (some (tgid, mount_fd)) none r = tt
  handle_by-IsAttributed buf e (some (tgid, mount_fd)) (some at) r =
      event_by e.meta.mask tgid launches (resolve_info_record k mount_fd (slice buf at) r.kernel).0
  handle_by-IsAttributed buf e none none r = tt
  handle_by-IsAttributed buf e none (some at) r = tt

  handle_all-IsAttributed :
      (buf : Bytes) (es : List RawEvent) (r : Reader k)
      → All (IsAttributed launches) (handle_all k launches buf es r).0
  unfolding handle_all
  handle_all-IsAttributed buf [] r = tt
  handle_all-IsAttributed buf (e ∷ es) r =
      All-append (IsAttributed launches) (handle_event k launches buf e r).0
        (handle_all k launches buf es (handle_event k launches buf e r).1).0
        (handle_by-IsAttributed buf e (resolve_launch k launches e.meta.pid r) e.info r)
        (handle_all-IsAttributed buf es (handle_event k launches buf e r).1)

  handle_read-IsAttributed :
      (found : List Event) (answer : Result Bytes) (r : Reader k)
      → All (IsAttributed launches) found
      → All (IsAttributed launches) (handle_read k launches found answer r).0.0
  unfolding handle_read
  handle_read-IsAttributed found (err e) r so_far = so_far
  handle_read-IsAttributed found (ok []) r so_far = so_far
  handle_read-IsAttributed found (ok (b ∷ bs)) r so_far =
      All-append (IsAttributed launches) found
        (handle_all k launches (b ∷ bs) (parse_events (b ∷ bs)) r).0 so_far
        (handle_all-IsAttributed (b ∷ bs) (parse_events (b ∷ bs)) r)

-- Whatever the kernel puts into the buffer, and whatever was held back before: each event that a
-- read yields is of a process in the map of launches, has that launch's transaction, and its path
-- is in that launch's home.
pub read_events_filtered-IsAttributed :
    (k : Kernel) (launches : Launches) (r : Reader k)
    → All (IsAttributed launches) (read_events_filtered k launches r).0.0
unfolding read_events_filtered
read_events_filtered-IsAttributed k launches r =
    let (found, held) = retry_pending k launches r in
    let (answer, s) = k.read held.monitor.fanotify_fd buffer_size held.kernel in
    handle_read-IsAttributed k launches found answer (record held { kernel = s })
      (retried k launches r r.monitor.pending refl)
