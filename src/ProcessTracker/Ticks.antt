-- ===== src/ProcessTracker/Ticks.antt =====
-- What a round of the watch records.
use pkgundo.Prelude.{
  Text, lit, true, false, ℕ, List, [], ◌∷◌, Result, ok, err, if-post, ◌==◌, All, ◌≡◌, refl, arith,
}
use pkgundo.Kernel.{Kernel}
use pkgundo.Monitor.Resolve.{numbers}
use pkgundo.ProcessTracker.{
  ProcessEntry, ProcessTracker, is_in, is_descendant, descendants_in, descendants_of,
  scan_descendants, entry_of, add_new, watch_tick,
}

-- The entry is of a process that the tracker did not know, and that descends from its root, under
-- its transaction.
abbrev pub IsNewDescendant : (k : Kernel) → k.State → ProcessTracker → ProcessEntry → Type 0
IsNewDescendant k s tracker e =
    ((is_descendant k s tracker e.pid ≡ true) × (is_in e.pid tracker.known_pids ≡ false))
    × (e.txid ≡ tracker.txid)

module _ (k : Kernel) (s : k.State) (tracker : ProcessTracker) where
  descendants_in-All :
      (pids : List ℕ)
      → All (λ p. is_descendant k s tracker p ≡ true) (descendants_in k s tracker pids)
  unfolding descendants_in
  descendants_in-All [] = tt
  descendants_in-All (pid ∷ pids) =
      if-post (All (λ p. is_descendant k s tracker p ≡ true)) (pid == tracker.root_pid)
        (λ root. descendants_in-All pids)
        (λ other.
          if-post (All (λ p. is_descendant k s tracker p ≡ true)) (is_descendant k s tracker pid)
            (λ below. (below, descendants_in-All pids)) (λ apart. descendants_in-All pids))

  descendants_of-All :
      (names : Result (List Text))
      → All (λ p. is_descendant k s tracker p ≡ true) (descendants_of k s tracker names)
  unfolding descendants_of
  descendants_of-All (err e) = tt
  descendants_of-All (ok names) = descendants_in-All (numbers k names)

  -- A tracker that knows at least what `tracker` knows, for the same launch.
  abbrev Knows : ProcessTracker → Type 0
  Knows t =
      ((t.root_pid ≡ tracker.root_pid) × (t.txid ≡ tracker.txid))
      × ((p : ℕ) → is_in p t.known_pids ≡ false → is_in p tracker.known_pids ≡ false)

  add_new-IsNewDescendant :
      (pids : List ℕ) (t : ProcessTracker)
      → Knows t
      → All (λ p. is_descendant k s tracker p ≡ true) pids
      → All (IsNewDescendant k s tracker) (add_new k s pids t).0
  unfolding add_new entry_of
  add_new-IsNewDescendant [] t known below = tt
  add_new-IsNewDescendant (pid ∷ pids) t known (here, below) =
      if-post (λ (r : List ProcessEntry × ProcessTracker). All (IsNewDescendant k s tracker) r.0)
        (is_in pid t.known_pids) (λ old. add_new-IsNewDescendant pids t known below)
        (λ fresh. (
          ((here, known.1 pid fresh), known.0.1),
          add_new-IsNewDescendant pids (record t { known_pids = pid ∷ t.known_pids })
              (known.0, λ p h. known.1 p (ground arith)) below,
        ))

-- A round of the watch records, under the launch's transaction, only processes that were not known
-- and that descend from the root by the parents that `/proc` has in that round.
pub watch_tick-IsNewDescendant :
    (k : Kernel) (s : k.State) (tracker : ProcessTracker)
    → All (IsNewDescendant k s tracker) (watch_tick k s tracker).0.0
unfolding watch_tick scan_descendants
watch_tick-IsNewDescendant k s tracker =
    add_new-IsNewDescendant k s tracker (scan_descendants k s tracker) tracker
      ((refl, refl), λ p h. h) (descendants_of-All k s tracker (k.read_dir s (lit "/proc")))
