-- ===== src/Daemon/Requests/Untracking.antt =====
-- What the answer to a request to give an app up promises.
use pkgundo.Prelude.{Text, Result, ok, err, List, [], ◌∷◌, ◌++◌, Option, none, some, All, ◌≡◌, refl}
use pkgundo.System.{Os, insert_mutation}
use pkgundo.Kernel.{Kernel}
use pkgundo.Journal.{JournalMessage, flush}
use pkgundo.TrackedApps.{Json, untrack_app}
use pkgundo.TrackedApps.Tracking.Untrack.{IsUntracked, IsUntracked-same, untrack_app-IsUntracked}
use pkgundo.ExecWatch.{ExecWatch}
use pkgundo.ExecWatch.Marks.{IsUnwatched, unwatch_app-IsUnwatched}
use pkgundo.Daemon.{journal_task}
use pkgundo.Daemon.Flushed.{IsWritten, journal_task_flushes, tracked_apps-journal_task}
use pkgundo.Daemon.Requests.{
  Server, writing, ended, flush_by, flush_handled, ok_response, untrack, unwatch_if, flush_queue,
  answer_untrack, handle_request,
}

module _ (os : Os) (k : Kernel) (json : Json) where
  -- No executable is watched for the app.
  abbrev pub IsUnwatchedIf : Text → Option (ExecWatch k) → Type 0
  IsUnwatchedIf name none = Unit
  IsUnwatchedIf name (some watch) = IsUnwatched name watch.watched

  unwatch_if-IsUnwatchedIf :
      (name : Text) (watch : Option (ExecWatch k)) → IsUnwatchedIf name (unwatch_if os k name watch)
  unfolding unwatch_if
  unwatch_if-IsUnwatchedIf name none = tt
  unwatch_if-IsUnwatchedIf name (some watch) = unwatch_app-IsUnwatched k name watch

  -- The app is not tracked, no executable is watched for it, and what was in the channel is in the
  -- journal.
  abbrev pub IsGivenUp : Text → List JournalMessage → Server os k → Type 0
  IsGivenUp name queue s =
      (IsUntracked json name s.world.db × IsUnwatchedIf name s.exec_watch)
      × (All (IsWritten s.world.db) queue × (s.queue ≡ []))

  -- What the flush leads to while the task writes, and after it has ended.
  flushed : Server os k → Server os k
  flushed s = record s { world = (journal_task os (s.queue ++ flush 0 ∷ []) s.world).1; queue = [] }

  flush_queue-writing : (s : Server os k) → s.journal ≡ writing → flush_queue os k s ≡ flushed s
  unfolding flush_queue flush_by flush_handled flushed
  flush_queue-writing s works = rw works refl

  flush_queue-ended : (s : Server os k) → s.journal ≡ ended → flush_queue os k s ≡ s
  unfolding flush_queue flush_by
  flush_queue-ended s gone = rw gone refl

  module _ (sound : (s : os.State) → os.sql_fault s insert_mutation ≡ none) where
    flushed-IsGivenUp :
        (name : Text) (s : Server os k)
        → IsUntracked json name s.world.db
        → IsUnwatchedIf name s.exec_watch
        → IsGivenUp name s.queue (flushed s)
    unfolding flushed
    flushed-IsGivenUp name s closed unwatched = (
      (
        IsUntracked-same json name s.world.db
            (journal_task os (s.queue ++ flush 0 ∷ []) s.world).1.db
            (tracked_apps-journal_task os sound (s.queue ++ flush 0 ∷ []) s.world) closed,
        unwatched,
      ),
      ((journal_task_flushes os s.queue 0 s.world sound).1, refl),
    )

    answer_untrack-IsGivenUp :
        (name message : Text) (r : Result (Unit {0})) (s : Server os k)
        → s.journal ≡ writing
        → ((u : Unit {0}) → r ≡ ok u → IsUntracked json name s.world.db)
        → (answer_untrack os k name r s).0 ≡ ok_response message
        → IsGivenUp name s.queue (answer_untrack os k name r s).1
    unfolding answer_untrack
    answer_untrack-IsGivenUp name message (err e) s works closed h = absurd (cc h)
    answer_untrack-IsGivenUp name message (ok u) s works closed h =
        let s' = record s { exec_watch = unwatch_if os k name s.exec_watch } in
        rw (flush_queue-writing s' works)
          (flushed-IsGivenUp name s' (closed u refl) (unwatch_if-IsUnwatchedIf name s.exec_watch))

-- If SQLite refuses no insertion, the journal task has opened the database, and the daemon answers a
-- request to give an app up with success, then what the database has under its name, if anything, has
-- the status "untracked", no executable is watched for it, and every record that was sent to the
-- journal before is in the journal, unless the database has no transaction of its number.
pub handle_request-IsGivenUp :
    (os : Os) (k : Kernel) (json : Json) (name message : Text) (s : Server os k)
    → ((s : os.State) → os.sql_fault s insert_mutation ≡ none)
    → s.journal ≡ writing
    → (handle_request os k json (untrack name) s).0 ≡ ok_response message
    → IsGivenUp os k json name s.queue (handle_request os k json (untrack name) s).1
unfolding handle_request
handle_request-IsGivenUp os k json name message s sound works h =
    let (r, w) = untrack_app json os name s.world in
    answer_untrack-IsGivenUp os k json sound name message r (record s { world = w }) works
      (λ u done. untrack_app-IsUntracked json os name s.world u done) h
