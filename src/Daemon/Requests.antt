-- ===== src/Daemon/Requests.antt =====
-- `handle_request` of `src/daemon/mod.rs`. The database, the executables that are watched and the
-- channel to the journal task belong to one state; the lock on the database makes a request a step.
-- An error's text is its outermost context.
pub mod Untracking
use pkgundo.Prelude.{
  Text, lit, decimal, length, Bool, ℕ, List, [], ◌∷◌, ◌++◌, map, Option, none, some, Result, ok,
  err,
}
use pkgundo.System.{Os}
use pkgundo.Exec.{World}
use pkgundo.Kernel.{Kernel}
use pkgundo.Journal.{JournalMessage, flush}
use pkgundo.TrackedApps.{Json, TrackedApp, track_app, untrack_app, list_apps}
use pkgundo.ExecWatch.{ExecWatch, watch_app, unwatch_app}
use pkgundo.Daemon.{journal_task, open_journal}

pub data Request : Type 0 where
  track untrack : Text → Request
  list_tracked : Bool → Request
  ping : Request

pub record TrackedAppView : Type 0 where
  pub name : Text
  pub kind : Text
  pub package_name : Option Text
  pub resolved_paths : List Text
  pub status : Text
  pub created_at : Text
  pub txid : ℕ

pub data Response : Type 0 where
  ok_response : Text → Response
  tracked_list : List TrackedAppView → Response
  error : Text → Response
  pong : Response

abbrev view_of : TrackedApp → TrackedAppView
view_of app = record {
  name = app.name;
  kind = app.kind;
  package_name = app.package_name;
  resolved_paths = app.resolved_paths;
  status = app.status;
  created_at = app.created_at;
  txid = app.txid;
}

or_na : Option Text → Text
unfolding lit
or_na none = lit "n/a"
or_na (some name) = name

tracking_message : TrackedApp → Text
unfolding or_na decimal lit
tracking_message app =
    lit "Now tracking '"
    ++ app.name
    ++ lit "' ("
    ++ app.kind
    ++ lit ": "
    ++ or_na app.package_name
    ++ lit ", "
    ++ decimal (length app.resolved_paths)
    ++ lit " path(s) resolved)"

-- The journal task opens the database, writes, or has ended because it could not open it.
pub data Journaling : Type 0 where
  opening writing ended : Journaling

module _ (os : Os) (k : Kernel) where
  -- `exec_watch` is none where the kernel cannot tell of executions; `queue` is what was sent to the
  -- journal task and is not handled yet.
  pub record Server : Type 0 where
    pub world : World os
    pub exec_watch : Option (ExecWatch k)
    pub queue : List JournalMessage
    pub journal : Journaling

  -- A mark that fails is only logged.
  watch_if : TrackedApp → Option (ExecWatch k) → Option (ExecWatch k)
  watch_if app none = none
  watch_if app (some watch) = some (watch_app k app.name app.txid app.resolved_paths watch).1

  unwatch_if : Text → Option (ExecWatch k) → Option (ExecWatch k)
  unwatch_if name none = none
  unwatch_if name (some watch) = some (unwatch_app k name watch)

  -- The task handles what was sent before the flush, and answers it.
  flush_handled : Server → Server
  flush_handled s = record s {
    world = (journal_task os (s.queue ++ flush 0 ∷ []) s.world).1;
    queue = [];
  }

  -- A task that cannot open the database ends and drops its channel; the waiting for the answer fails,
  -- which is ignored.
  flush_opened : Result (Unit {0}) → Server → Server
  unfolding flush_handled
  flush_opened (err e) s = record s { journal = ended; queue = [] }
  flush_opened (ok _) s = flush_handled (record s { journal = writing })

  -- To a task that has ended the flush cannot be sent, and is given up.
  flush_by : Journaling → Server → Server
  unfolding flush_opened flush_handled open_journal
  flush_by ended s = s
  flush_by writing s = flush_handled s
  flush_by opening s =
      let (opened, w) = open_journal os s.world in flush_opened opened (record s { world = w })

  -- `MutationCapture::flush`
  unfoldable pub flush_queue : Server → Server
  unfolding flush_by
  flush_queue s = flush_by s.journal s

  answer_track : Result TrackedApp → Server → Response × Server
  unfolding watch_if tracking_message
  answer_track (err e) s = (error e, s)
  answer_track (ok app) s =
      (ok_response (tracking_message app), record s { exec_watch = watch_if app s.exec_watch })

  answer_untrack : Text → Result (Unit {0}) → Server → Response × Server
  unfolding unwatch_if flush_queue lit
  answer_untrack name (err e) s = (error e, s)
  answer_untrack name (ok _) s = (
    ok_response (lit "Stopped tracking '" ++ name ++ lit "'"),
    flush_queue (record s { exec_watch = unwatch_if name s.exec_watch }),
  )

  answer_list : Result (List TrackedApp) → Server → Response × Server
  answer_list (err e) s = (error e, s)
  answer_list (ok apps) s = (tracked_list (map view_of apps), s)

  unfoldable pub handle_request : Json → Request → Server → Response × Server
  unfolding answer_track answer_untrack answer_list
  handle_request json ping s = (pong, s)
  handle_request json (track name) s =
      let (r, w) = track_app json os name s.world in answer_track r (record s { world = w })
  handle_request json (untrack name) s =
      let (r, w) = untrack_app json os name s.world in
      answer_untrack name r (record s { world = w })
  handle_request json (list_tracked all) s =
      let (r, w) = list_apps json os all s.world in answer_list r (record s { world = w })
