-- ===== src/Capture/Tests.antt =====
-- The theorems on a capture that has no launch yet.
use pkgundo.Prelude.{lit, ℕ, [], none, ok, ◌≡◌, refl}
use pkgundo.Kernel.Memory.{machine, idle_machine}
use pkgundo.BtrfsMount.{resolve, is_btrfs}
use pkgundo.Capture.{MutationCapture, start, stop}
use pkgundo.Capture.Counts.{spec_of, spec_start, spec_stop}
use pkgundo.Capture.Launches.{IsCounted, start-stop-IsCounted}
use pkgundo.Capture.Launches.Refines.{start-stop-refines}

abbrev idle : MutationCapture machine
idle = record {
  refcounts = [];
  group = none;
  btrfs_mounts = record { mounts = []; kernel = idle_machine };
}

start-stop-IsCounted_example :
    IsCounted (start machine (lit "/home/ann") idle).1
    × IsCounted (stop machine (lit "/home/ann") idle)
start-stop-IsCounted_example =
    start-stop-IsCounted machine (lit "/home/ann") idle (tt, (λ _. refl, λ _. refl))

start-stop-refines_example :
    ((start machine (lit "/home/ann") idle).0 ≡ ok tt
      → (d : ℕ)
      → spec_of (start machine (lit "/home/ann") idle).1.refcounts d
        ≡ spec_start 1 (spec_of idle.refcounts) d)
    × ((d : ℕ)
        → spec_of (stop machine (lit "/home/ann") idle).refcounts d
          ≡ spec_stop 1 (spec_of idle.refcounts) d)
unfolding resolve is_btrfs
start-stop-refines_example =
    start-stop-refines machine (lit "/home/ann") (lit "/home/ann") 1 idle tt (refl, refl)
