-- ===== src/Monitor.antt =====
-- `src/ebpf/mod.rs`: the fanotify groups, the launches that events are attributed to, and what the
-- monitor keeps. The children read events from the kernel's buffer, resolve their paths, attribute
-- them and hold back those that belong to no launch yet.
pub mod Buffer
pub mod Resolve
pub mod Filter
pub mod Shared
mod Tests
use pkgundo.Prelude.{
  Text, lit, starts_with, Bool, true, false, ◌||◌, ℕ, ◌+◌, List, [], ◌∷◌, ◌++◌, Option, none, some,
  Result, ok, err, if◌then◌else◌,
}
use pkgundo.Maps.{Map}
use pkgundo.System.{Bytes}
use pkgundo.Kernel.{Kernel, c_string, has_bit}
use pkgundo.Paths.{components, path_starts_with}
use pkgundo.Run.{Run, pure, ◌>>=◌, inspect}

-- The constants of `linux/fanotify.h`. Those that `|` combines have no bit in common, so that it is
-- a sum.
abbrev pub fan_class_notif : ℕ
fan_class_notif = 0x0

abbrev pub fan_cloexec : ℕ
fan_cloexec = 0x1

abbrev pub fan_nonblock : ℕ
fan_nonblock = 0x2

abbrev pub fan_close_write : ℕ
fan_close_write = 0x8

abbrev pub fan_moved_from : ℕ
fan_moved_from = 0x40

abbrev pub fan_moved_to : ℕ
fan_moved_to = 0x80

abbrev pub fan_create : ℕ
fan_create = 0x100

abbrev pub fan_delete : ℕ
fan_delete = 0x200

abbrev pub fan_mark_add : ℕ
fan_mark_add = 0x1

abbrev pub fan_mark_remove : ℕ
fan_mark_remove = 0x2

abbrev pub fan_mark_filesystem : ℕ
fan_mark_filesystem = 0x100

abbrev pub fan_report_fid : ℕ
fan_report_fid = 0x200

abbrev pub fan_report_dir_fid : ℕ
fan_report_dir_fid = 0x400

abbrev pub fan_report_name : ℕ
fan_report_name = 0x800

abbrev pub fan_report_dfid_name : ℕ
fan_report_dfid_name = fan_report_fid + fan_report_dir_fid + fan_report_name

-- A descriptor of -1, as the bits of an `i32`.
abbrev pub fan_nofd : ℕ
fan_nofd = 0xffffffff

abbrev pub watched_mask : ℕ
watched_mask = fan_close_write + fan_create + fan_delete + fan_moved_from + fan_moved_to

abbrev pub pending_retry_window : ℕ
pending_retry_window = 500000000

abbrev pub pending_max : ℕ
pending_max = 5000

-- `first_seen` is in nanoseconds of the monotonic clock.
pub record PendingEvent : Type 0 where
  pub mask : ℕ
  pub pid : ℕ
  pub info : Bytes
  pub first_seen : ℕ

pub record FanotifyMonitor : Type 0 where
  pub txid : ℕ
  pub fanotify_fd : ℕ
  pub pid_attribution : Bool
  pub tid_cache : Map ℕ ℕ
  pub pending : List PendingEvent

pub record ActiveLaunch : Type 0 where
  pub txid : ℕ
  pub home : Text
  pub mount_fd : ℕ

module _ (k : Kernel) where
  -- The system call's error, told by `io::Error::last_os_error()`.
  unfoldable pub or_os_error : {A : Type 0} → Text → Run k.State A → Run k.State A
  or_os_error message call s =
      let (r, s') = call s in
      elim r [ ok a ↦ (ok a, s') | err e ↦ (err (message ++ k.last_os_error s'), s') ]

  unfoldable pub try_new : ℕ → Run k.State FanotifyMonitor
  unfolding or_os_error lit
  try_new txid = do
    fd ←
        or_os_error (lit "fanotify_init failed: ")
          (k.fanotify_init (fan_class_notif + fan_cloexec + fan_nonblock + fan_report_dfid_name))
    pure (record {
      txid = txid;
      fanotify_fd = fd;
      pid_attribution = true;
      tid_cache = [];
      pending = [];
    })

  mark_message : Text → Bool → Text
  unfolding lit
  mark_message path add =
      lit "fanotify_mark ("
      ++ (if add then lit "add" else lit "remove")
      ++ lit ") failed for "
      ++ path
      ++ lit ": "

  unfoldable pub mark_filesystem : ℕ → Text → Bool → Run k.State (Unit {0})
  unfolding mark_message or_os_error c_string
  mark_filesystem fd path add = do
    c_path ← inspect (λ _. c_string path)
    or_os_error (mark_message path add) (
        k.fanotify_mark fd ((if add then fan_mark_add else fan_mark_remove) + fan_mark_filesystem)
          watched_mask c_path)

  unfoldable pub launch_of : ℕ → Text → Option ℕ → Option ActiveLaunch
  launch_of txid home none = none
  launch_of txid home (some fd) = some (record { txid = txid; home = home; mount_fd = fd })

  unfoldable pub open_home : ℕ → Text → k.State → Result Text → Option ActiveLaunch × k.State
  unfolding launch_of
  open_home txid home s (err e) = (none, s)
  open_home txid home s (ok c_home) =
      let (fd, s') = k.open_file c_home s in (launch_of txid home fd, s')

  -- `ActiveLaunch::new`
  unfoldable pub new_launch : ℕ → Text → k.State → Option ActiveLaunch × k.State
  unfolding open_home c_string
  new_launch txid home s = open_home txid home s (c_string home)

unfoldable pub mask_to_operation : ℕ → Text
unfolding has_bit lit
mask_to_operation mask =
    if has_bit mask fan_create
    then lit "create"
    else if has_bit mask fan_close_write
    then lit "modify"
    else if has_bit mask fan_delete
    then lit "delete"
    else if has_bit mask fan_moved_to
    then lit "rename_to"
    else if has_bit mask fan_moved_from
    then lit "rename_from"
    else lit "unknown"

unfoldable pub is_excluded_fanotify : Text → Bool
unfolding starts_with lit
is_excluded_fanotify s =
    starts_with s (lit "/proc")
    || starts_with s (lit "/sys")
    || starts_with s (lit "/dev")
    || starts_with s (lit "/run/user")
    || starts_with s (lit "/var/lib/pkgundo")
