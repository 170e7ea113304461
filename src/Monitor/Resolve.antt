-- ===== src/Monitor/Resolve.antt =====
-- `resolve_info_record`, `resolve_tgid` and `scan_thread_ids` of `src/ebpf/mod.rs`: what the
-- numbers in an event stand for.
use pkgundo.Prelude.{
  Text, lit, text_eq, decimal, lines, trim, strip_prefix, parse_i32, ◌||◌, ℕ, ◌+◌, List, [], ◌∷◌,
  ◌++◌, Option, none, some, Result, ok, err, if◌then◌else◌, ◌==◌, ltb, length, drop,
}
use pkgundo.System.{Bytes}
use pkgundo.Kernel.{Kernel}
use pkgundo.Paths.{join}
use pkgundo.Monitor.Buffer.{u32_at}

-- The bytes before the first NUL, or all.
unfoldable until_nul : Bytes → Bytes
until_nul [] = []
until_nul (b ∷ bs) = let rest = until_nul bs in if b == 0 then [] else b ∷ rest

-- The path of the entry of this name, where a directory event has the name `.` or none.
entry_path : Text → Option Text → Option Text
unfolding text_eq lit join
entry_path dir none = none
entry_path dir (some name) =
    some (if text_eq name [] || text_eq name (lit ".") then dir else join dir name)

-- After the header of 4 bytes and the 8 of the file system comes the handle, its length first.
abbrev handle_off : ℕ
handle_off = 12

abbrev name_off : Bytes → ℕ
name_off info = handle_off + 8 + u32_at info handle_off

module _ (k : Kernel) where
  path_in : Bytes → Result Text → Option Text
  unfolding entry_path until_nul
  path_in info (err e) = none
  path_in info (ok dir) = entry_path dir (k.from_utf8 (until_nul (drop (name_off info) info)))

  resolve_in : Bytes → Option ℕ × k.State → Option Text × k.State
  unfolding path_in decimal lit
  resolve_in info (none, s) = (none, s)
  resolve_in info (some dir_fd, s) =
      (path_in info (k.read_link s (lit "/proc/self/fd/" ++ decimal dir_fd)), k.close_file dir_fd s)

  unfoldable pub resolve_info_record : ℕ → Bytes → k.State → Option Text × k.State
  unfolding resolve_in
  resolve_info_record mount_fd info s =
      if ltb (length info) (handle_off + 8)
      then (none, s)
      else if ltb (length info) (name_off info)
      then (none, s)
      else resolve_in info (k.open_by_handle_at mount_fd (drop handle_off info) s)

  -- The first line with the prefix counts, whether or not a number follows.
  tgid_in : List Text → Option ℕ
  unfolding strip_prefix parse_i32 trim lit
  tgid_in [] = none
  tgid_in (line ∷ ls) = elim (strip_prefix line (lit "Tgid:")) [
    | none ↦ tgid_in ls
    | some rest ↦ parse_i32 (trim rest)
  ]

  tgid_of : Result Text → Option ℕ
  unfolding tgid_in lines
  tgid_of (err e) = none
  tgid_of (ok status) = tgid_in (lines status)

  unfoldable pub resolve_tgid : ℕ → k.State → Option ℕ
  unfolding tgid_of decimal lit
  resolve_tgid tid s = tgid_of (k.read_to_string s (lit "/proc/" ++ decimal tid ++ lit "/status"))

  -- The names that are numbers.
  unfoldable pub numbers : List Text → List ℕ
  unfolding parse_i32
  numbers [] = []
  numbers (name ∷ names) = elim (parse_i32 name) [
    | none ↦ numbers names
    | some n ↦ n ∷ numbers names
  ]

  numbers_of : Result (List Text) → List ℕ
  unfolding numbers
  numbers_of (err e) = []
  numbers_of (ok names) = numbers names

  unfoldable pub scan_thread_ids : ℕ → k.State → List ℕ
  unfolding numbers_of decimal lit
  scan_thread_ids tgid s = numbers_of (k.read_dir s (lit "/proc/" ++ decimal tgid ++ lit "/task"))
