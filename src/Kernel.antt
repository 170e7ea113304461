-- ===== src/Kernel.antt =====
-- What the daemon asks of the kernel and the C library: `fanotify`, `mount`, `/proc` and the clock.
-- None of it is code of this repository, so it is a parameter: an unknown state with one field for
-- each call that the program makes. A file descriptor is the number of an open file.
pub mod Memory
use pkgundo.Prelude.{
  Text, lit, ◌++◌, Result, ok, err, Bool, ℕ, List, Option, any, ◌==◌, ◌/◌, ◌%◌, if◌then◌else◌,
}
use pkgundo.System.{Bytes}

pub record Kernel : Type 1 where
  pub State : Type 0
  -- `statfs(2)`: the type of the file system
  pub statfs : State → Text → Option ℕ
  pub read_to_string : State → Text → Result Text
  pub read_dir : State → Text → Result (List Text)
  pub read_link : State → Text → Result Text
  pub canonicalize : State → Text → Result Text
  -- `fs::metadata`: the number of the device
  pub dev : State → Text → Result ℕ
  pub create_dir_all : Text → State → Result (Unit {0}) × State
  -- a source, a target, the type of the file system, flags and data
  pub mount : Text → Text → Text → ℕ → Text → State → Result (Unit {0}) × State
  pub umount : Text → State → Result (Unit {0}) × State
  -- flags; the descriptors of its events are opened to be read
  pub fanotify_init : ℕ → State → Result ℕ × State
  -- a group, flags, a mask and a path
  pub fanotify_mark : ℕ → ℕ → ℕ → Text → State → Result (Unit {0}) × State
  -- at most so many bytes of a file
  pub read : ℕ → ℕ → State → Result Bytes × State
  pub open_file : Text → State → Option ℕ × State
  pub close_file : ℕ → State → State
  -- a file on the mount, and a handle
  pub open_by_handle_at : ℕ → Bytes → State → Option ℕ × State
  -- the monotonic clock in nanoseconds; reading it may let time pass
  pub clock : State → ℕ × State
  -- the clock as RFC 3339 text
  pub now : State → Text × State
  -- whether the path is a symbolic link
  pub is_symlink : State → Text → Bool
  -- `getpwuid_r`: the home directory of a user
  pub getpwuid : State → ℕ → Option Text
  -- why the last call failed
  pub last_os_error : State → Text
  -- the tables of Unicode, and the decoding of UTF-8
  pub is_alphanumeric : ℕ → Bool
  pub from_utf8 : Bytes → Option Text

-- `CString::new`: a text with a NUL in it is none.
unfoldable pub c_string : Text → Result Text
unfolding lit
c_string s = if any (λ c. c == 0) s then err (lit "nul byte found in provided data") else ok s

-- `mask & bit != 0`, where `bit` is a power of two.
unfoldable pub has_bit : ℕ → ℕ → Bool
has_bit mask bit = (mask / bit) % 2 == 1
