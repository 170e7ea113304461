-- ===== src/ExecWatch/Claims.antt =====
-- A process that has a launch keeps it, and a launch begins for a watched executable only.
use pkgundo.Prelude.{Text, true, ℕ, Option, none, some, Result, ok, err, ==_iff, ◌≡◌, refl, arith}
use pkgundo.Maps.{lookup, lookup-put}
use pkgundo.Kernel.{Kernel, c_string}
use pkgundo.Paths.{components, path_eq}
use pkgundo.Monitor.{ActiveLaunch, launch_of, open_home, new_launch}
use pkgundo.Monitor.Filter.{Launches, same_pid}
use pkgundo.ExecWatch.{
  WatchedApp, Watched, Launch, is_usable_home, usable, home_by, register, claim, launch_by,
  match_by, handle_exec, read_real_uid,
}

-- Every process that had a launch has it still.
abbrev pub KeepsLaunches : Launches → Launches → Type 0
KeepsLaunches before after =
    (pid : ℕ) (l : ActiveLaunch)
    → lookup same_pid pid before ≡ some l
    → lookup same_pid pid after ≡ some l

-- The launch is of this process, which had none, with this transaction, in a usable home; the map has
-- for the process a launch with the same transaction and home.
abbrev pub IsNew : ℕ → ℕ → Launches → Launches → Launch → Type 0
IsNew pid txid before after launch =
    (((launch.pid ≡ pid) × (launch.txid ≡ txid))
      × ((lookup same_pid pid before ≡ none) × (is_usable_home launch.home ≡ true)))
    × ((l : ActiveLaunch) × ((lookup same_pid pid after ≡ some l)
          × ((l.txid ≡ txid) × (l.home ≡ launch.home))))

-- The launch, if one could be made, has this transaction and home.
abbrev HasLaunch : ℕ → Text → Option ActiveLaunch → Type 0
HasLaunch txid home none = Unit
HasLaunch txid home (some l) = (l.txid ≡ txid) × (l.home ≡ home)

module _ (k : Kernel) where
  -- What an execution leads to, for an app with this transaction.
  abbrev ResultOf : Type 0
  ResultOf = (Option Launch × Launches) × k.State

  abbrev pub IsClaimed : Launches → ℕ → ℕ → ResultOf → Type 0
  IsClaimed before pid txid ((none, after), s) = after ≡ before
  IsClaimed before pid txid ((some launch, after), s) =
      KeepsLaunches before after × IsNew pid txid before after launch

  launch_of-HasLaunch :
      (txid : ℕ) (home : Text) (fd : Option ℕ) → HasLaunch txid home (launch_of k txid home fd)
  unfolding launch_of
  launch_of-HasLaunch txid home none = tt
  launch_of-HasLaunch txid home (some fd) = (refl, refl)

  open_home-HasLaunch :
      (txid : ℕ) (home : Text) (s : k.State) (c_home : Result Text)
      → HasLaunch txid home (open_home k txid home s c_home).0
  unfolding open_home
  open_home-HasLaunch txid home s (err e) = tt
  open_home-HasLaunch txid home s (ok c) = launch_of-HasLaunch txid home (k.open_file c s).0

  new_launch-HasLaunch :
      (txid : ℕ) (home : Text) (s : k.State) → HasLaunch txid home (new_launch k txid home s).0
  unfolding new_launch
  new_launch-HasLaunch txid home s = open_home-HasLaunch txid home s (c_string home)

  register-IsClaimed :
      (pid txid : ℕ) (home : Text) (launches : Launches) (made : Option ActiveLaunch × k.State)
      → lookup same_pid pid launches ≡ none
      → is_usable_home home ≡ true
      → HasLaunch txid home made.0
      → IsClaimed launches pid txid (register k pid txid home launches made)
  unfolding register
  register-IsClaimed pid txid home launches (none, s) free fit has = refl
  register-IsClaimed pid txid home launches (some launch, s) free fit has = (
    λ p l h. ground (arith, lookup-put same_pid ==_iff pid p launch launches, ==_iff pid p),
    (
      ((refl, refl), (free, fit)),
      (
        launch,
        (ground (arith, lookup-put same_pid ==_iff pid pid launch launches, ==_iff pid pid), has),
      ),
    ),
  )

  claim-IsClaimed :
      (pid txid : ℕ) (home : Text) (launches : Launches) (owner : Option ActiveLaunch) (s : k.State)
      → lookup same_pid pid launches ≡ owner
      → is_usable_home home ≡ true
      → IsClaimed launches pid txid (claim k pid txid home launches owner s)
  unfolding claim
  claim-IsClaimed pid txid home launches (some owner) s owned fit = refl
  claim-IsClaimed pid txid home launches none s free fit =
      register-IsClaimed pid txid home launches (new_launch k txid home s) free fit
        (new_launch-HasLaunch txid home s)

  usable-fits : (home : Option Text) (h : Text) → usable k home ≡ some h → is_usable_home h ≡ true
  unfolding usable
  usable-fits none h e = absurd (cc e)
  usable-fits (some home) h e = ground arith

  home_by-fits :
      (s : k.State) (uid : Option ℕ) (h : Text) → home_by k s uid ≡ some h → is_usable_home h ≡ true
  unfolding home_by
  home_by-fits s none h e = absurd (cc e)
  home_by-fits s (some uid) h e = usable-fits (k.getpwuid s uid) h e

  launch_by-IsClaimed :
      (pid txid : ℕ) (home : Option Text) (launches : Launches) (s : k.State)
      → ((h : Text) → home ≡ some h → is_usable_home h ≡ true)
      → IsClaimed launches pid txid (launch_by k pid txid home launches s)
  unfolding launch_by
  launch_by-IsClaimed pid txid none launches s fit = refl
  launch_by-IsClaimed pid txid (some home) launches s fit =
      claim-IsClaimed pid txid home launches (lookup same_pid pid launches) s refl (fit home refl)

-- What the execution of a file by a process may do: nothing; or it begins a launch of that process,
-- which had none, with the transaction of the app that the file is watched for.
abbrev pub IsHandled : (k : Kernel) → Watched → ℕ → Text → Launches → ResultOf k → Type 0
IsHandled k watched pid path before ((none, after), s) = after ≡ before
IsHandled k watched pid path before ((some launch, after), s) =
    (app : WatchedApp) × ((lookup path_eq (components path) watched ≡ some app)
      × (KeepsLaunches before after × IsNew pid app.txid before after launch))

module _ (k : Kernel) where
  IsClaimed-IsHandled :
      (watched : Watched) (pid : ℕ) (path : Text) (before : Launches) (app : WatchedApp)
      (r : ResultOf k)
      → lookup path_eq (components path) watched ≡ some app
      → IsClaimed k before pid app.txid r
      → IsHandled k watched pid path before r
  IsClaimed-IsHandled watched pid path before app ((none, after), s) found claimed = claimed
  IsClaimed-IsHandled watched pid path before app ((some launch, after), s) found claimed =
      (app, (found, claimed))

  match_by-IsHandled :
      (watched : Watched) (pid : ℕ) (path : Text) (found : Option WatchedApp) (launches : Launches)
      (s : k.State)
      → lookup path_eq (components path) watched ≡ found
      → IsHandled k watched pid path launches (match_by k pid found launches s)
  unfolding match_by
  match_by-IsHandled watched pid path none launches s h = refl
  match_by-IsHandled watched pid path (some app) launches s h =
      IsClaimed-IsHandled watched pid path launches app
        (launch_by k pid app.txid (home_by k s (read_real_uid k s pid)) launches s) h
        (launch_by-IsClaimed k pid app.txid (home_by k s (read_real_uid k s pid)) launches s
          (home_by-fits k s (read_real_uid k s pid)))

-- The execution of a file by a process leaves the map of launches as it is, unless the file is watched
-- and the process has no launch: then it may begin one of that process, in a home that is not `/` and
-- with the transaction of the app that the file is watched for; a launch with that home and transaction
-- is entered for the process, and every other process keeps the launch that it has.
pub handle_exec-IsHandled :
    (k : Kernel) (watched : Watched) (pid : ℕ) (path : Text) (launches : Launches) (s : k.State)
    → IsHandled k watched pid path launches (handle_exec k watched (pid, path) launches s)
unfolding handle_exec
handle_exec-IsHandled k watched pid path launches s =
    match_by-IsHandled k watched pid path (lookup path_eq (components path) watched) launches s refl
