-- ===== src/ProcessTracker.antt =====
-- `src/process_tracker/mod.rs`: the processes that descend from a launch, found by polling `/proc`.
pub mod Chains
pub mod Fuel
pub mod Ticks
mod Tests
use pkgundo.Prelude.{
  Text, lit, text_eq, decimal, lines, trim, split_whitespace, starts_with, parse_i32, Bool, true,
  false, not, ◌||◌, ℕ, zero, suc, List, [], ◌∷◌, ◌++◌, Option, none, some, Result, ok, err,
  if◌then◌else◌, ◌==◌, leb, any, get_elem?,
}
use pkgundo.Kernel.{Kernel}
use pkgundo.Monitor.Resolve.{numbers}

pub record ProcessEntry : Type 0 where
  pub pid : ℕ
  pub ppid : ℕ
  pub name : Text
  pub txid : ℕ

pub record ProcessTracker : Type 0 where
  pub root_pid : ℕ
  pub txid : ℕ
  pub known_pids : List ℕ

abbrev pub new_tracker : ℕ → ℕ → ProcessTracker
new_tracker root_pid txid = record { root_pid = root_pid; txid = txid; known_pids = root_pid ∷ [] }

-- `HashSet::contains`
abbrev pub is_in : ℕ → List ℕ → Bool
is_in pid pids = any (λ p. pid == p) pids

second_number : Option Text → Option ℕ
second_number none = none
second_number (some word) = parse_i32 word

-- The first line with the prefix counts, whether or not a number follows.
ppid_in : List Text → Option ℕ
unfolding starts_with lit split_whitespace second_number
ppid_in [] = none
ppid_in (line ∷ ls) =
    let rest = ppid_in ls in
    if starts_with line (lit "PPid:")
    then second_number (get_elem? 1 (split_whitespace line))
    else rest

ppid_of : Result Text → Option ℕ
unfolding ppid_in lines
ppid_of (err e) = none
ppid_of (ok status) = ppid_in (lines status)

-- What `rest`, the walk from the parent, says, if there is a parent.
unfoldable pub next : (ℕ → Bool) → Option ℕ → Bool
next rest none = false
next rest (some ppid) = rest ppid

-- The walk up from a process over its parents, on fuel; `visited` are those it has passed.
unfoldable pub walk : (ℕ → Option ℕ) → ℕ → ℕ → List ℕ → ℕ → Bool
unfolding next
walk parent_of root zero visited current = false
walk parent_of root (suc fuel) visited current =
    if current == root
    then true
    else if is_in current visited || leb current 1
    then false
    else next (λ ppid. walk parent_of root fuel (current ∷ visited) ppid) (parent_of current)

-- The numbers of processes are those of an `i32`, so that a walk without a repetition passes fewer.
abbrev pub pid_limit : ℕ
pid_limit = 2147483648

module _ (k : Kernel) where
  unfoldable pub get_ppid : k.State → ℕ → Option ℕ
  unfolding ppid_of decimal lit
  get_ppid s pid = ppid_of (k.read_to_string s (lit "/proc/" ++ decimal pid ++ lit "/status"))

  name_or : ℕ → Result Text → Text
  unfolding trim decimal lit
  name_or pid (err e) = lit "pid_" ++ decimal pid
  name_or pid (ok s) = trim s

  unfoldable pub get_process_name : k.State → ℕ → Text
  unfolding name_or decimal lit
  get_process_name s pid =
      name_or pid (k.read_to_string s (lit "/proc/" ++ decimal pid ++ lit "/comm"))

  unfoldable pub is_descendant : k.State → ProcessTracker → ℕ → Bool
  unfolding walk next
  is_descendant s tracker pid = walk (get_ppid s) tracker.root_pid (suc pid_limit) [] pid

  descendants_in : k.State → ProcessTracker → List ℕ → List ℕ
  descendants_in s tracker [] = []
  descendants_in s tracker (pid ∷ pids) =
      let rest = descendants_in s tracker pids in
      if pid == tracker.root_pid
      then rest
      else if is_descendant s tracker pid
      then pid ∷ rest
      else rest

  descendants_of : k.State → ProcessTracker → Result (List Text) → List ℕ
  unfolding descendants_in numbers
  descendants_of s tracker (err e) = []
  descendants_of s tracker (ok names) = descendants_in s tracker (numbers k names)

  unfoldable pub scan_descendants : k.State → ProcessTracker → List ℕ
  unfolding descendants_of lit
  scan_descendants s tracker = descendants_of s tracker (k.read_dir s (lit "/proc"))

  or_root : ℕ → Option ℕ → ℕ
  or_root root none = root
  or_root root (some ppid) = ppid

  entry_of : k.State → ProcessTracker → ℕ → ProcessEntry
  unfolding or_root
  entry_of s tracker pid = record {
    pid = pid;
    ppid = or_root tracker.root_pid (get_ppid s pid);
    name = get_process_name s pid;
    txid = tracker.txid;
  }

  -- The processes that were not known are recorded, and their numbers sent, in this order.
  add_new : k.State → List ℕ → ProcessTracker → List ProcessEntry × ProcessTracker
  unfolding entry_of
  add_new s [] tracker = ([], tracker)
  add_new s (pid ∷ pids) tracker =
      if is_in pid tracker.known_pids
      then add_new s pids tracker
      else (let (entries, after) =
            add_new s pids (record tracker { known_pids = pid ∷ tracker.known_pids }) in
          (entry_of s tracker pid ∷ entries, after))

  is_ok : Result ℕ → Bool
  is_ok (ok n) = true
  is_ok (err e) = false

  any_alive : k.State → ProcessTracker → Bool
  unfolding is_ok decimal lit
  any_alive s tracker =
      any (λ pid. is_ok (k.dev s (lit "/proc/" ++ decimal pid))) tracker.known_pids

  -- A round of `watch_process_tree`: what it records, and whether it goes on.
  unfoldable pub watch_tick : k.State → ProcessTracker → (List ProcessEntry × Bool) × ProcessTracker
  unfolding add_new any_alive
  watch_tick s tracker =
      let (entries, after) = add_new s (scan_descendants s tracker) tracker in
      ((entries, any_alive s after), after)
