-- ===== src/Monitor/Filter.antt =====
-- `attribute_event`, `refresh_tid_cache`, `buffer_pending`, `retry_pending` and
-- `read_events_filtered` of `src/ebpf/mod.rs`. The map of launches is locked for each look at it; it
-- is the same map throughout one read here.
pub mod Attributed
pub mod Bounded
pub mod Waiting
use pkgundo.Prelude.{
  Text, Bool, true, false, not, ◌||◌, ℕ, ◌+◌, ◌-◌, List, [], ◌∷◌, ◌++◌, Option, none, some, Result,
  ok, err, if◌then◌else◌, ◌==◌, ltb, leb, length, any, filter, map,
}
use pkgundo.Maps.{Map, lookup, put}
use pkgundo.System.{Bytes}
use pkgundo.Kernel.{Kernel}
use pkgundo.Paths.{components, path_starts_with}
use pkgundo.Monitor.{
  FanotifyMonitor, PendingEvent, ActiveLaunch, fan_nofd, pending_max, pending_retry_window,
}
use pkgundo.Monitor.Buffer.{RawEvent, parse_events, slice}
use pkgundo.Monitor.Resolve.{resolve_info_record, resolve_tgid, scan_thread_ids}

abbrev pub same_pid : ℕ → ℕ → Bool
same_pid a b = a == b

abbrev pub Launches : Type 0
Launches = Map ℕ ActiveLaunch

-- An event with the path and the transaction that it belongs to.
pub record Event : Type 0 where
  pub mask : ℕ
  pub pid : ℕ
  pub path : Text
  pub txid : ℕ

attribute_to : Text → Option ActiveLaunch → Option ℕ
attribute_to path none = none
attribute_to path (some launch) =
    if path_starts_with (components path) (components launch.home) then some launch.txid else none

unfoldable pub attribute_event : ℕ → Text → Launches → Option ℕ
unfolding attribute_to
attribute_event pid path launches = attribute_to path (lookup same_pid pid launches)

-- The event that a resolved path makes, if it belongs to a launch.
event_to : ℕ → ℕ → Text → Option ℕ → List Event
event_to mask pid path none = []
event_to mask pid path (some txid) =
    record { mask = mask; pid = pid; path = path; txid = txid } ∷ []

event_of : ℕ → ℕ → Launches → Option Text → List Event
unfolding event_to
event_of mask pid launches none = []
event_of mask pid launches (some path) = event_to mask pid path (attribute_event pid path launches)

abbrev pub buffer_size : ℕ
buffer_size = 65536

module _ (k : Kernel) where
  -- A monitor and the kernel that it reads from.
  pub record Reader : Type 0 where
    pub monitor : FanotifyMonitor
    pub kernel : k.State

  cache_all : ℕ → List ℕ → Map ℕ ℕ → Map ℕ ℕ
  cache_all tgid [] cache = cache
  cache_all tgid (tid ∷ tids) cache = cache_all tgid tids (put same_pid tid tgid cache)

  cache_launches : List ℕ → k.State → Map ℕ ℕ → Map ℕ ℕ
  unfolding cache_all
  cache_launches [] s cache = cache
  cache_launches (tgid ∷ tgids) s cache =
      cache_launches tgids s (cache_all tgid (scan_thread_ids k tgid s) cache)

  unfoldable pub refresh_tid_cache : Launches → Reader → Reader
  unfolding cache_launches
  refresh_tid_cache launches r =
      let known = map (λ l. l.0) launches in
      let kept = filter (λ (_, tgid). any (same_pid tgid) known) r.monitor.tid_cache in
      record r { monitor = record r.monitor { tid_cache = cache_launches known r.kernel kept } }

  push_pending : PendingEvent → Reader → Reader
  push_pending p r = record r {
    monitor = record r.monitor { pending = r.monitor.pending ++ p ∷ [] };
  }

  unfoldable pub buffer_pending : ℕ → ℕ → Bytes → Reader → Reader
  unfolding push_pending
  buffer_pending mask pid info r =
      let (now, s) = k.clock r.kernel in
      if leb pending_max (length r.monitor.pending)
      then r
      else push_pending (record { mask = mask; pid = pid; info = info; first_seen = now })
          (record r { kernel = s })

  -- What becomes of a held event: whether it waits on, and what it yields.
  retry_by :
      ℕ → Launches → PendingEvent → Option ActiveLaunch → k.State → (Bool × List Event) × k.State
  unfolding event_of
  retry_by now launches p none s = ((true, []), s)
  retry_by now launches p (some launch) s =
      let (path, s') = resolve_info_record k launch.mount_fd p.info s in
      ((false, event_of p.mask p.pid launches path), s')

  retry_one : ℕ → Launches → PendingEvent → k.State → (Bool × List Event) × k.State
  unfolding retry_by
  retry_one now launches p s =
      if ltb pending_retry_window (now - p.first_seen)
      then ((false, []), s)
      else retry_by now launches p (lookup same_pid p.pid launches) s

  unfoldable retry_all :
      ℕ → Launches → List PendingEvent → k.State → (List PendingEvent × List Event) × k.State
  unfolding retry_one
  retry_all now launches [] s = (([], []), s)
  retry_all now launches (p ∷ ps) s =
      let ((waits, found), s') = retry_one now launches p s in
      let ((kept, events), s'') = retry_all now launches ps s' in
      (((if waits then p ∷ kept else kept), found ++ events), s'')

  unfoldable pub retry_pending : Launches → Reader → List Event × Reader
  unfolding retry_all
  retry_pending launches r = elim r.monitor.pending [
    | [] ↦ ([], r)
    | p ∷ ps ↦
        let (now, s) = k.clock r.kernel in
        let ((kept, events), s') = retry_all now launches (p ∷ ps) s in
        (events, record { monitor = record r.monitor { pending = kept }; kernel = s' })
  ]

  or_resolve : Option ℕ → ℕ → k.State → Option ℕ
  or_resolve (some tgid) tid s = some tgid
  or_resolve none tid s = resolve_tgid k tid s

  launch_at : Launches → Option ℕ → Option (ℕ × ℕ)
  launch_at launches none = none
  launch_at launches (some tgid) = elim (lookup same_pid tgid launches) [
    | none ↦ none
    | some launch ↦ some (tgid, launch.mount_fd)
  ]

  -- The process of the event, which reports a thread, and the mount to resolve its handle on.
  unfoldable resolve_launch : Launches → ℕ → Reader → Option (ℕ × ℕ)
  unfolding or_resolve launch_at
  resolve_launch launches pid r = elim (lookup same_pid pid launches) [
    | some launch ↦ some (pid, launch.mount_fd)
    | none ↦ launch_at launches (or_resolve (lookup same_pid pid r.monitor.tid_cache) pid r.kernel)
  ]

  -- An event is held back while there is a launch.
  hold : Launches → ℕ → ℕ → Bytes → Reader → Reader
  unfolding buffer_pending
  hold [] mask pid info r = r
  hold (_ ∷ _) mask pid info r = buffer_pending mask pid info r

  handle_by :
      Launches → Bytes → RawEvent → Option (ℕ × ℕ) → Option (ℕ × ℕ) → Reader → List Event × Reader
  unfolding event_of hold
  handle_by launches buf e (some (tgid, mount_fd)) none r = ([], r)
  handle_by launches buf e (some (tgid, mount_fd)) (some at) r =
      let (path, s) = resolve_info_record k mount_fd (slice buf at) r.kernel in
      (event_of e.meta.mask tgid launches path, record r { kernel = s })
  handle_by launches buf e none none r = ([], r)
  handle_by launches buf e none (some at) r =
      ([], hold launches e.meta.mask e.meta.pid (slice buf at) r)

  close_event : RawEvent → Reader → Reader
  close_event e r =
      if e.meta.fd == fan_nofd then r else record r { kernel = k.close_file e.meta.fd r.kernel }

  handle_event : Launches → Bytes → RawEvent → Reader → List Event × Reader
  unfolding handle_by close_event
  handle_event launches buf e r =
      let (events, r') = handle_by launches buf e (resolve_launch launches e.meta.pid r) e.info r in
      (events, close_event e r')

  unfoldable handle_all : Launches → Bytes → List RawEvent → Reader → List Event × Reader
  unfolding handle_event
  handle_all launches buf [] r = ([], r)
  handle_all launches buf (e ∷ es) r =
      let (events, r') = handle_event launches buf e r in
      let (more, r'') = handle_all launches buf es r' in (events ++ more, r'')

  -- What was read, after what the held events yield.
  handle_read : Launches → List Event → Result Bytes → Reader → (List Event × Bool) × Reader
  unfolding handle_all
  handle_read launches found (err e) r = ((found, false), r)
  handle_read launches found (ok []) r = ((found, false), r)
  handle_read launches found (ok (b ∷ bs)) r =
      let (events, r') = handle_all launches (b ∷ bs) (parse_events (b ∷ bs)) r in
      ((found ++ events, length (b ∷ bs) == buffer_size), r')

  unfoldable pub read_events_filtered : Launches → Reader → (List Event × Bool) × Reader
  unfolding handle_read resolve_launch
  read_events_filtered launches r =
      let (found, held) = retry_pending launches r in
      let (answer, s) = k.read held.monitor.fanotify_fd buffer_size held.kernel in
      handle_read launches found answer (record held { kernel = s })
