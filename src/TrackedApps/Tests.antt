-- ===== src/TrackedApps/Tests.antt =====
-- Apps on the system in memory, where `which` finds nothing.
use pkgundo.Prelude.{lit, text_eq, starts_with, [], ◌∷◌, some, none, ok, ◌≡◌, refl}
use pkgundo.System.Memory.{memory, find, is_found}
use pkgundo.Exec.{World}
use pkgundo.Transaction.{create_transaction, update_transaction_status}
use pkgundo.Db.Tables.{select, insert, update}
use pkgundo.Transaction.Tests.{world_with}
use pkgundo.TrackedApps.{Json, TrackedApp, track_app, untrack_app, find_app, load_tracked_app}
use pkgundo.TrackedApps.Resolve.{resolve_app_targets}
use pkgundo.TrackedApps.Tracking.Lifecycle.{IsTrackedIn, track_app-IsTrackedIn}
use pkgundo.TrackedApps.Tracking.Untrack.{Fails, untrack_app-Fails}

abbrev pub plain_json : Json
plain_json = record { encode = λ paths. []; decode = λ s. some [] }

abbrev pub a_world : World memory
a_world = world_with ((lit "/opt/app", 1 ∷ []) ∷ [])

abbrev the_app : TrackedApp
the_app = record {
  id = 1;
  name = lit "/opt/app";
  kind = lit "binary";
  package_name = none;
  resolved_paths = [];
  status = lit "tracking";
  txid = 2;
  created_at = lit "2024-01-01T00:00:00+00:00";
  untracked_at = none;
}

the_app_tracked : (track_app plain_json memory (lit "/opt/app") a_world).0 ≡ ok the_app
unfolding track_app resolve_app_targets create_transaction is_found find text_eq starts_with lit
    select find_app insert load_tracked_app update
the_app_tracked = refl

track_app-IsTrackedIn_example :
    IsTrackedIn plain_json
      (lit "/opt/app")
      the_app
      (track_app plain_json memory (lit "/opt/app") a_world).1.db
track_app-IsTrackedIn_example =
    track_app-IsTrackedIn plain_json memory (lit "/opt/app") a_world the_app the_app_tracked

no_app : find_app plain_json (lit "vim") a_world.db ≡ none
unfolding find_app select
no_app = refl

untrack_app-Fails_example : Fails a_world (untrack_app plain_json memory (lit "vim") a_world)
untrack_app-Fails_example =
    untrack_app-Fails plain_json memory (lit "vim") a_world
      (λ app found. absurd (cc (no_app, found)))

unfoldable pub tracked_world : World memory
tracked_world = (track_app plain_json memory (lit "/opt/app") a_world).1

pub given_up : (untrack_app plain_json memory (lit "/opt/app") tracked_world).0 ≡ ok tt
unfolding track_app resolve_app_targets create_transaction is_found find text_eq starts_with lit
    select find_app insert load_tracked_app update untrack_app tracked_world
    update_transaction_status
given_up = refl
