-- ===== src/ExecWatch.antt =====
-- `src/daemon/exec_watch.rs`: the executables that are watched, and the launches that their
-- executions begin.
pub mod Marks
pub mod Claims
mod Tests
use pkgundo.Prelude.{
  Text, lit, text_eq, decimal, lines, split_whitespace, strip_prefix, parse_u32, Bool, true, false,
  not, ℕ, ◌+◌, List, [], ◌∷◌, ◌++◌, map, filter, head?, Option, none, some, Result, ok, err,
  if◌then◌else◌, ◌==◌,
}
use pkgundo.Maps.{Map, lookup, put, without}
use pkgundo.System.{Bytes}
use pkgundo.Kernel.{Kernel, c_string}
use pkgundo.Paths.{PathBuf, components, path_eq, to_text}
use pkgundo.Run.{Run, pure, ◌>>=◌, ◌>>◌, inspect}
use pkgundo.Monitor.{
  ActiveLaunch, or_os_error, new_launch, fan_class_notif, fan_cloexec, fan_nonblock, fan_mark_add,
  fan_mark_remove, fan_nofd,
}
use pkgundo.Monitor.Buffer.{RawEvent, parse_events}
use pkgundo.Monitor.Filter.{Launches, same_pid}

abbrev fan_open_exec : ℕ
fan_open_exec = 0x1000

pub record WatchedApp : Type 0 where
  pub name : Text
  pub txid : ℕ

abbrev pub Watched : Type 0
Watched = Map PathBuf WatchedApp

-- The paths of the app's executables.
unfoldable pub paths_named : Text → Watched → List PathBuf
paths_named name watched = map (λ e. e.0) (filter (λ (_, app). text_eq app.name name) watched)

module _ (k : Kernel) where
  -- The group's descriptor and the apps by the paths of their executables, with the kernel.
  pub record ExecWatch : Type 0 where
    pub fanotify_fd : ℕ
    pub watched : Watched
    pub kernel : k.State

module _ {k : Kernel} where
  abbrev on_kernel : {A : Type 0} → Run k.State A → Run (ExecWatch k) A
  on_kernel m s = let (r, kernel) = m s.kernel in (r, record s { kernel = kernel })

module _ (k : Kernel) where
  unfoldable pub try_new : Run k.State (ExecWatch k)
  unfolding or_os_error lit
  try_new s =
      let (r, s') =
        or_os_error k (lit "fanotify_init (exec-watch) failed: ")
          (k.fanotify_init (fan_class_notif + fan_cloexec + fan_nonblock)) s in
      elim r [
        | ok fd ↦ (ok (record { fanotify_fd = fd; watched = []; kernel = s' }), s')
        | err e ↦ (err e, s')
      ]

  mark_message : Text → Bool → Text
  unfolding lit
  mark_message path add =
      lit "fanotify_mark ("
      ++ (if add then lit "add" else lit "remove")
      ++ lit ") failed for "
      ++ path
      ++ lit ": "

  mark_fd : ℕ → Text → Bool → Run k.State (Unit {0})
  unfolding mark_message or_os_error c_string
  mark_fd fd path add = do
    c_path ← inspect (λ _. c_string path)
    or_os_error k (mark_message path add)
        (k.fanotify_mark fd (if add then fan_mark_add else fan_mark_remove) fan_open_exec c_path)

  unfoldable pub mark : Text → Bool → Run (ExecWatch k) (Unit {0})
  unfolding mark_fd
  mark path add s = on_kernel (mark_fd s.fanotify_fd path add) s

  canonical : Text → Result Text → PathBuf
  canonical path (ok q) = components q
  canonical path (err e) = components path

  insert_app : Text → WatchedApp → Run (ExecWatch k) (Unit {0})
  unfolding canonical
  insert_app path app s =
      let key = canonical path (k.canonicalize s.kernel path) in
      (ok tt, record s { watched = put path_eq key app s.watched })

  -- The first mark that fails ends the loop.
  unfoldable pub watch_app : Text → ℕ → List Text → Run (ExecWatch k) (Unit {0})
  unfolding insert_app
  watch_app name txid [] = pure tt
  watch_app name txid (path ∷ paths) = do
    mark path true
    insert_app path (record { name = name; txid = txid })
    watch_app name txid paths

  -- A mark that cannot be removed is only logged.
  unwatch_all : List PathBuf → ExecWatch k → ExecWatch k
  unwatch_all [] s = s
  unwatch_all (path ∷ paths) s =
      let s' = (mark (to_text path) false s).1 in
      unwatch_all paths (record s' { watched = without path_eq path s'.watched })

  unfoldable pub unwatch_app : Text → ExecWatch k → ExecWatch k
  unfolding unwatch_all paths_named
  unwatch_app name s = unwatch_all (paths_named name s.watched) s

  link_of : ℕ → Result Text → List (ℕ × Text)
  link_of pid (ok path) = (pid, path) ∷ []
  link_of pid (err e) = []

  -- Each event has a descriptor of its own, which is closed when its path is read.
  read_event : RawEvent → k.State → List (ℕ × Text) × k.State
  unfolding link_of decimal lit
  read_event e s = if e.meta.fd == fan_nofd then ([], s) else (
    link_of e.meta.pid (k.read_link s (lit "/proc/self/fd/" ++ decimal e.meta.fd)),
    k.close_file e.meta.fd s,
  )

  read_all : List RawEvent → k.State → List (ℕ × Text) × k.State
  unfolding read_event
  read_all [] s = ([], s)
  read_all (e ∷ es) s =
      let (found, s') = read_event e s in let (more, s'') = read_all es s' in (found ++ more, s'')

  events_in : Result Bytes → k.State → List (ℕ × Text) × k.State
  unfolding read_all
  events_in (err e) s = ([], s)
  events_in (ok buf) s = read_all (parse_events buf) s

  unfoldable pub read_exec_events : ℕ → k.State → List (ℕ × Text) × k.State
  unfolding events_in
  read_exec_events fd s = let (answer, s') = k.read fd 4096 s in events_in answer s'

unfoldable pub is_usable_home : Text → Bool
unfolding path_eq components lit
is_usable_home path = not (path_eq (components path) (components (lit "/")))

first_number : Option Text → Option ℕ
first_number none = none
first_number (some word) = parse_u32 word

-- The first line with the prefix counts, whether or not a number follows.
uid_in : List Text → Option ℕ
unfolding first_number strip_prefix split_whitespace lit
uid_in [] = none
uid_in (line ∷ ls) = elim (strip_prefix line (lit "Uid:")) [
  | none ↦ uid_in ls
  | some rest ↦ first_number (head? (split_whitespace rest))
]

-- What the daemon does about the execution of a file: nothing, or a launch of this process.
pub record Launch : Type 0 where
  pub pid : ℕ
  pub txid : ℕ
  pub home : Text

module _ (k : Kernel) where
  uid_of : Result Text → Option ℕ
  unfolding uid_in lines
  uid_of (err e) = none
  uid_of (ok status) = uid_in (lines status)

  unfoldable pub read_real_uid : k.State → ℕ → Option ℕ
  unfolding uid_of decimal lit
  read_real_uid s pid = uid_of (k.read_to_string s (lit "/proc/" ++ decimal pid ++ lit "/status"))

  usable : Option Text → Option Text
  usable none = none
  usable (some home) = if is_usable_home home then some home else none

  home_by : k.State → Option ℕ → Option Text
  unfolding usable
  home_by s none = none
  home_by s (some uid) = usable (k.getpwuid s uid)

  register :
      ℕ → ℕ → Text → Launches → Option ActiveLaunch × k.State → (Option Launch × Launches) × k.State
  register pid txid home launches (none, s) = ((none, launches), s)
  register pid txid home launches (some launch, s) =
      ((some (record { pid = pid; txid = txid; home = home }), put same_pid pid launch launches), s)

  -- The first match for a process owns it: a later one finds its launch and backs off.
  claim :
      ℕ → ℕ → Text → Launches → Option ActiveLaunch → k.State → (Option Launch × Launches) × k.State
  unfolding register
  claim pid txid home launches (some owner) s = ((none, launches), s)
  claim pid txid home launches none s = register pid txid home launches (new_launch k txid home s)

  launch_by : ℕ → ℕ → Option Text → Launches → k.State → (Option Launch × Launches) × k.State
  unfolding claim
  launch_by pid txid none launches s = ((none, launches), s)
  launch_by pid txid (some home) launches s =
      claim pid txid home launches (lookup same_pid pid launches) s

  match_by : ℕ → Option WatchedApp → Launches → k.State → (Option Launch × Launches) × k.State
  unfolding launch_by home_by
  match_by pid none launches s = ((none, launches), s)
  match_by pid (some app) launches s =
      launch_by pid app.txid (home_by s (read_real_uid s pid)) launches s

  -- The body of the loop of `run`, for one event.
  unfoldable pub handle_exec :
      Watched → ℕ × Text → Launches → k.State → (Option Launch × Launches) × k.State
  unfolding match_by
  handle_exec watched (pid, path) launches s =
      match_by pid (lookup path_eq (components path) watched) launches s

-- What `spawn_launch` removes when the processes of a launch have ended.
unfoldable pub end_launch : List ℕ → Launches → Launches
end_launch [] launches = launches
end_launch (pid ∷ pids) launches = end_launch pids (without same_pid pid launches)
