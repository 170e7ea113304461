-- ===== src/Capture.antt =====
-- `src/daemon/mutation_capture.rs`: one capture group for all launches, with a count of the launches
-- on each file system. The lock makes each call a step of its own.
pub mod Counts
pub mod Launches
mod Tests
use pkgundo.Prelude.{
  Text, Bool, true, false, ℕ, suc, ◌+◌, ◌-◌, List, [], ◌∷◌, Option, none, some, Result, ok, err,
  if◌then◌else◌, ◌==◌,
}
use pkgundo.Maps.{Map, lookup, put, without}
use pkgundo.Kernel.{Kernel}
use pkgundo.BtrfsMount.{BtrfsRootMounts, resolve}
use pkgundo.Monitor.{try_new, mark_filesystem}
use pkgundo.Run.{Run, pure, ◌>>=◌, ◌>>◌, inspect, attempt}

abbrev pub same_dev : ℕ → ℕ → Bool
same_dev a b = a == b

abbrev pub Counts : Type 0
Counts = Map ℕ ℕ

abbrev pub count_of : Option ℕ → ℕ
count_of none = 0
count_of (some n) = n

-- The launches on a file system.
abbrev pub references : ℕ → Counts → ℕ
references dev refcounts = count_of (lookup same_dev dev refcounts)

-- Whether this is the first launch on the file system, and the counts with it.
unfoldable pub bump : Counts → ℕ → Bool × Counts
bump refcounts dev =
    (references dev refcounts == 0, put same_dev dev (references dev refcounts + 1) refcounts)

-- Whether this was the last launch on the file system, and the counts without it.
release_by : Counts → ℕ → Option ℕ → Bool × Counts
release_by refcounts dev none = (false, refcounts)
release_by refcounts dev (some count) =
    if count - 1 == 0
    then (true, without same_dev dev refcounts)
    else (false, put same_dev dev (count - 1) refcounts)

unfoldable pub release : Counts → ℕ → Bool × Counts
unfolding release_by
release refcounts dev = release_by refcounts dev (lookup same_dev dev refcounts)

module _ (k : Kernel) where
  -- The group is the descriptor of its monitor; its task is the loop of `run_shared`.
  pub record MutationCapture : Type 0 where
    pub refcounts : Counts
    pub group : Option ℕ
    pub btrfs_mounts : BtrfsRootMounts k

module _ {k : Kernel} where
  abbrev on_mounts : {A : Type 0} → Run (BtrfsRootMounts k) A → Run (MutationCapture k) A
  on_mounts m s = let (r, mounts) = m s.btrfs_mounts in (r, record s { btrfs_mounts = mounts })

  abbrev with_kernel : MutationCapture k → k.State → MutationCapture k
  with_kernel s kernel = record s { btrfs_mounts = record s.btrfs_mounts { kernel = kernel } }

  abbrev on_kernel : {A : Type 0} → Run k.State A → Run (MutationCapture k) A
  on_kernel m s = let (r, kernel) = m s.btrfs_mounts.kernel in (r, with_kernel s kernel)

module _ (k : Kernel) where
  dev_of : Text → Run (MutationCapture k) ℕ
  dev_of path = inspect (λ s. k.dev s.btrfs_mounts.kernel path)

  set_group : Option ℕ → Run (MutationCapture k) (Unit {0})
  set_group group s = (ok tt, record s { group = group })

  -- The group is made on the first launch.
  ensure_by : Option ℕ → Run (MutationCapture k) ℕ
  unfolding set_group
  ensure_by (some fd) = pure fd
  ensure_by none = do
    monitor ← on_kernel (try_new k 0)
    set_group (some monitor.fanotify_fd)
    pure monitor.fanotify_fd

  ensure_group : Run (MutationCapture k) ℕ
  unfolding ensure_by
  ensure_group s = ensure_by s.group s

  bump_dev : ℕ → Run (MutationCapture k) Bool
  bump_dev dev s =
      let (first, refcounts) = bump s.refcounts dev in
      (ok first, record s { refcounts = refcounts })

  arm_if : ℕ → Text → Bool → Run (MutationCapture k) (Unit {0})
  arm_if fd path false = pure tt
  arm_if fd path true = on_kernel (mark_filesystem k fd path true)

  start_on : Text → ℕ → Run (MutationCapture k) (Unit {0})
  unfolding ensure_group bump_dev arm_if
  start_on path dev = do fd ← ensure_group; first ← bump_dev dev; arm_if fd path first

  unfoldable pub start : Text → Run (MutationCapture k) (Unit {0})
  unfolding dev_of start_on
  start home = do path ← on_mounts (resolve k home); dev ← dev_of path; start_on path dev

  -- A mark that cannot be removed is only logged.
  disarm : Text → Option ℕ → MutationCapture k → MutationCapture k
  disarm path none s = s
  disarm path (some fd) s = with_kernel s (mark_filesystem k fd path false s.btrfs_mounts.kernel).1

  -- The group ends with its last reference, which closes its descriptor.
  close_group : Option ℕ → MutationCapture k → MutationCapture k
  close_group none s = s
  close_group (some fd) s =
      with_kernel (record s { group = none }) (k.close_file fd s.btrfs_mounts.kernel)

  end_if_idle : Counts → MutationCapture k → MutationCapture k
  unfolding close_group
  end_if_idle [] s = close_group s.group s
  end_if_idle (_ ∷ _) s = s

  stop_on : Text → ℕ → MutationCapture k → MutationCapture k
  unfolding disarm end_if_idle
  stop_on path dev s =
      let (last, refcounts) = release s.refcounts dev in
      let released = record s { refcounts = refcounts } in
      let disarmed = if last then disarm path s.group released else released in
      end_if_idle refcounts disarmed

  stop_dev : Text → Result ℕ → MutationCapture k → MutationCapture k
  unfolding stop_on
  stop_dev path (err e) s = s
  stop_dev path (ok dev) s = stop_on path dev s

  -- A home whose path or file system is not to be found is only logged.
  stop_by : Result Text → MutationCapture k → MutationCapture k
  unfolding stop_dev
  stop_by (err e) s = s
  stop_by (ok path) s = stop_dev path (k.dev s.btrfs_mounts.kernel path) s

  unfoldable pub stop : Text → MutationCapture k → MutationCapture k
  unfolding stop_by
  stop home s = let (path, s') = on_mounts (resolve k home) s in stop_by path s'
