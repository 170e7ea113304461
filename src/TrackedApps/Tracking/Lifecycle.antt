-- ===== src/TrackedApps/Tracking/Lifecycle.antt =====
-- Tracking an app and giving it up.
use pkgundo.Prelude.{Text, lit, ℕ, [], ◌++◌, some, ok, ◌≡◌, sym, arith, subst}
use pkgundo.System.{Os, track_transaction}
use pkgundo.Exec.{M, World, execute, ◌>>=◌, ◌>>◌, with_context}
use pkgundo.Exec.Keeps.{bind-result}
use pkgundo.Db.{Db}
use pkgundo.Transaction.{tracking, create_transaction}
use pkgundo.Transaction.Lifecycle.{HasStatus, update-HasStatus}
use pkgundo.TrackedApps.Resolve.{ResolvedTarget, resolve_app_targets}
use pkgundo.TrackedApps.{Json, TrackedApp, find_app, set_tracking, store_app, track_app}
use pkgundo.TrackedApps.Tracking.{IsStored, store_app-IsStored}

-- The app is what the database has under the name; it has that name and the status "tracking", and
-- its transaction, if it is found, is being tracked.
abbrev pub IsTrackedIn : Json → Text → TrackedApp → Db → Type 0
IsTrackedIn json name app db =
    (((app.name ≡ name) × (app.status ≡ lit "tracking")) × (find_app json name db ≡ some app))
    × HasStatus app.txid tracking db

module _ (json : Json) (os : Os) (name : Text) where
  stored-IsTrackedIn :
      (txid : ℕ) (app : TrackedApp) (w : World os)
      → IsStored json os name txid app w
      → IsTrackedIn json name app w.db
  stored-IsTrackedIn txid app w ((named, (status, same)), (found, has)) =
      (((named, status), found), subst (λ t. HasStatus t tracking w.db) (sym same) has)

  mark_then : ResolvedTarget → ℕ → M os TrackedApp
  unfolding set_tracking
  mark_then target txid = do
    execute track_transaction (λ db. (ok tt, set_tracking txid db))
    store_app json os name target txid

  marked :
      (txid : ℕ) (w : World os) (u : Unit {0})
      → (execute {os = os} track_transaction (λ db. (ok u, set_tracking txid db)) w).0 ≡ ok u
      → HasStatus txid tracking
          (execute {os = os} track_transaction (λ db. (ok u, set_tracking txid db)) w).1.db
  unfolding set_tracking
  marked txid w u h tx = ground (arith, update-HasStatus txid tracking w.db tx)

  mark_then-IsTrackedIn :
      (target : ResolvedTarget) (txid : ℕ) (w : World os) (app : TrackedApp)
      → (mark_then target txid w).0 ≡ ok app
      → IsTrackedIn json name app (mark_then target txid w).1.db
  unfolding mark_then
  mark_then-IsTrackedIn target txid w app h =
      bind-result (λ a (w' : World os). IsTrackedIn json name a w'.db)
        (execute track_transaction (λ db. (ok tt, set_tracking txid db)))
        (λ _. store_app json os name target txid) w
        (λ u done a stored.
          let w' =
            (execute {os = os} track_transaction (λ db. (ok tt, set_tracking txid db)) w).1 in
          stored-IsTrackedIn txid a (store_app json os name target txid w').1
            (store_app-IsStored json os name target txid w' (marked txid w tt done) a stored))
        app h

  create_then : ResolvedTarget → M os TrackedApp
  unfolding mark_then
  create_then target = do
    txid ←
        with_context (lit "Failed to create accumulation transaction for tracked app")
          (create_transaction os (lit "[tracked] " ++ name) [])
    mark_then target txid

  create_then-IsTrackedIn :
      (target : ResolvedTarget) (w : World os) (app : TrackedApp)
      → (create_then target w).0 ≡ ok app
      → IsTrackedIn json name app (create_then target w).1.db
  unfolding create_then
  create_then-IsTrackedIn target w app h =
      let create =
        with_context (lit "Failed to create accumulation transaction for tracked app")
          (create_transaction os (lit "[tracked] " ++ name) []) in
      bind-result (λ a (w' : World os). IsTrackedIn json name a w'.db) create (mark_then target) w
        (λ txid made a done. mark_then-IsTrackedIn target txid (create w).1 a done) app h

-- If tracking succeeds, it returns the app that the database then has under the name; the app has
-- that name and the status "tracking", and its transaction, if it is found, is being tracked.
pub track_app-IsTrackedIn :
    (json : Json) (os : Os) (name : Text) (w : World os) (app : TrackedApp)
    → (track_app json os name w).0 ≡ ok app
    → IsTrackedIn json name app (track_app json os name w).1.db
unfolding track_app create_then mark_then
track_app-IsTrackedIn json os name w app h =
    bind-result (λ a (w' : World os). IsTrackedIn json name a w'.db) (resolve_app_targets os name)
      (create_then json os name) w
      (λ target at a done.
        create_then-IsTrackedIn json os name target (resolve_app_targets os name w).1 a done)
      app h
