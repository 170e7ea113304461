-- ===== src/ProcessTracker/Tests.antt =====
-- A process whose parent is the root of a launch.
use pkgundo.Prelude.{lit, true, ℕ, [], ◌∷◌, ◌≡◌, ◌↔◌, arith, All}
use pkgundo.Kernel.Memory.{machine, Machine}
use pkgundo.ProcessTracker.{ProcessTracker, new_tracker, is_descendant, get_ppid, watch_tick}
use pkgundo.ProcessTracker.Chains.{Steps}
use pkgundo.ProcessTracker.Fuel.{is_descendant_iff}
use pkgundo.ProcessTracker.Ticks.{IsNewDescendant, watch_tick-IsNewDescendant}

abbrev a_machine : Machine
a_machine = record {
  files = (lit "/proc/43/status", lit "Name: sh\nPPid:\t42\n") ∷ [];
  dirs = (lit "/proc", lit "42" ∷ lit "43" ∷ lit "self" ∷ []) ∷ [];
  buffer = [];
}

abbrev a_tracker : ProcessTracker
a_tracker = new_tracker 42 7

is_descendant_iff_example :
    (is_descendant machine a_machine a_tracker 43 ≡ true)
    ↔ ((n : ℕ) × Steps (get_ppid machine a_machine) a_tracker.root_pid n 43)
is_descendant_iff_example = is_descendant_iff machine a_machine a_tracker 43 (omega arith)

watch_tick-IsNewDescendant_example :
    All (IsNewDescendant machine a_machine a_tracker) (watch_tick machine a_machine a_tracker).0.0
watch_tick-IsNewDescendant_example = watch_tick-IsNewDescendant machine a_machine a_tracker
