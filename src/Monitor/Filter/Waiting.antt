-- ===== src/Monitor/Filter/Waiting.antt =====
-- Which events a retry holds back further.
use pkgundo.Prelude.{
  Bool, true, false, not, ◌&&◌, ℕ, ◌-◌, List, [], ◌∷◌, Option, none, some, ltb, filter, ◌≡◌, refl,
  arith,
}
use pkgundo.Maps.{lookup}
use pkgundo.Kernel.{Kernel}
use pkgundo.Monitor.{PendingEvent, ActiveLaunch, pending_retry_window}
use pkgundo.Monitor.Filter.{
  Launches, same_pid, Reader, retry_by, retry_one, retry_all, retry_pending,
}

abbrev is_missing : Option ActiveLaunch → Bool
is_missing none = true
is_missing (some launch) = false

-- The event is not older than the window and its process has no launch.
abbrev pub is_waiting : Launches → ℕ → PendingEvent → Bool
is_waiting launches now p =
    not (ltb pending_retry_window (now - p.first_seen))
    && is_missing (lookup same_pid p.pid launches)

module _ (k : Kernel) (launches : Launches) where
  retry_by-is_missing :
      (now : ℕ) (p : PendingEvent) (found : Option ActiveLaunch) (s : k.State)
      → (retry_by k now launches p found s).0.0 ≡ is_missing found
  unfolding retry_by
  retry_by-is_missing now p none s = refl
  retry_by-is_missing now p (some launch) s = refl

  retry_one-is_waiting :
      (now : ℕ) (p : PendingEvent) (s : k.State)
      → (retry_one k now launches p s).0.0 ≡ is_waiting launches now p
  unfolding retry_one
  retry_one-is_waiting now p s =
      ground (arith, retry_by-is_missing now p (lookup same_pid p.pid launches) s)

  retry_all-filter :
      (now : ℕ) (ps : List PendingEvent) (s : k.State)
      → (retry_all k now launches ps s).0.0 ≡ filter (is_waiting launches now) ps
  unfolding retry_all
  retry_all-filter now [] s = refl
  retry_all-filter now (p ∷ ps) s =
      rw (retry_one-is_waiting now p s, retry_all-filter now ps (retry_one k now launches p s).1)
        refl

  retried :
      (r : Reader k) (ps : List PendingEvent)
      → r.monitor.pending ≡ ps
      → (retry_pending k launches r).1.monitor.pending
        ≡ filter (is_waiting launches (k.clock r.kernel).0) r.monitor.pending
  unfolding retry_pending
  retried r [] h = rw h refl
  retried r (p ∷ ps) h = rw h (retry_all-filter (k.clock r.kernel).0 (p ∷ ps) (k.clock r.kernel).1)

-- A retry holds back exactly those events, in their order, that are at most 500 ms old and whose
-- process has no launch yet.
pub retry_pending-filter :
    (k : Kernel) (launches : Launches) (r : Reader k)
    → (retry_pending k launches r).1.monitor.pending
      ≡ filter (is_waiting launches (k.clock r.kernel).0) r.monitor.pending
retry_pending-filter k launches r = retried k launches r r.monitor.pending refl
