-- ===== src/TrackedApps/Tracking.antt =====
-- What is stored of an app when it is tracked.
pub mod Lifecycle
pub mod Untrack
use pkgundo.Prelude.{
  Text, lit, text_eq, text_eq_iff, Bool, true, false, ℕ, suc, List, [], ◌∷◌, ◌++◌, map, filter,
  Option, Option-cases, none, some, Result, Result-cases, ok, err, if◌then◌else◌, ◌≡◌, ◌≢◌, refl,
  sym, ap, ◌∙◌, arith, inl, inr, Bool-cases, ◌==◌,
}
use pkgundo.System.{
  Os, insert_tracked_app, update_tracked_app, select_tracked_app, track_transaction,
}
use pkgundo.Exec.{M, World, query, execute, now, ◌>>=◌, ◌>>◌, with_context}
use pkgundo.Exec.Keeps.{bind-result}
use pkgundo.Db.{Db, TrackedAppRow, TransactionRow, same_tracked_app}
use pkgundo.Db.Tables.{insert, append, select, update}
use pkgundo.Transaction.{
  tracking, untracked, find_transaction, create_transaction, update_transaction_status,
}
use pkgundo.Transaction.Lifecycle.{HasStatus, HasStatus-same, update-HasStatus}
use pkgundo.TrackedApps.Resolve.{ResolvedTarget, resolve_app_targets}
use pkgundo.TrackedApps.{
  Json, TrackedApp, row_to_tracked_app, first_app, find_app, revive, new_row, insert_app, close_app,
  set_tracking, load_tracked_app, write_app, or_vanished, store_app, track_app, untrack_app,
  tracked_or, not_tracked,
}

module _ (json : Json) where
  -- The app is tracked under this name, in this transaction.
  abbrev pub IsTracked : Text → ℕ → TrackedApp → Type 0
  IsTracked name txid app = (app.name ≡ name) × ((app.status ≡ lit "tracking") × (app.txid ≡ txid))

  revived_rows :
      (name : Text) (f : TrackedAppRow → TrackedAppRow) (txid : ℕ) (rows : List (ℕ × TrackedAppRow))
      (app : TrackedApp)
      → ((r : TrackedAppRow)
          → ((f r).name ≡ r.name) × (((f r).status ≡ lit "tracking") × ((f r).txid ≡ txid)))
      → first_app json (
          filter
            (λ (_, r). text_eq r.name name)
            (map (λ (k, r). (k, if text_eq r.name name then f r else r)) rows))
        ≡ some app
      → IsTracked name txid app
  unfolding first_app row_to_tracked_app
  revived_rows name f txid [] app same h = absurd (cc h)
  revived_rows name f txid ((k, r) ∷ rows) app same h =
      ground (arith, same r, text_eq_iff r.name name, revived_rows name f txid rows app same)

  appended_row :
      (name : Text) (key : ℕ) (row : TrackedAppRow) (rows : List (ℕ × TrackedAppRow))
      (app : TrackedApp)
      → first_app json (filter (λ (_, r). text_eq r.name name) rows) ≡ none
      → first_app json (filter (λ (_, r). text_eq r.name name) (rows ++ (key, row) ∷ [])) ≡ some app
      → app ≡ row_to_tracked_app json (key, row)
  unfolding first_app
  appended_row name key row [] app nothing h = ground arith
  appended_row name key row ((k, r) ∷ rows) app nothing h =
      ground (arith, appended_row name key row rows app)

  revive-IsTracked :
      (name : Text) (target : ResolvedTarget) (txid : ℕ) (db : Db) (app : TrackedApp)
      → find_app json name (revive json name target txid db) ≡ some app
      → IsTracked name txid app
  unfolding revive find_app select update
  revive-IsTracked name target txid db app h =
      revived_rows name _ txid db.tracked_apps.rows app (λ r. (refl, (refl, refl))) h

  insert_app-IsTracked :
      (name : Text) (target : ResolvedTarget) (txid : ℕ) (created : Text) (db : Db) (u : Unit {0})
      (app : TrackedApp)
      → find_app json name db ≡ none
      → (insert_app json (new_row json name target txid created) db).0 ≡ ok u
      → find_app json name (insert_app json (new_row json name target txid created) db).1 ≡ some app
      → IsTracked name txid app
  unfolding insert_app find_app select insert append new_row
  insert_app-IsTracked name target txid created db u app nothing done h = ground (
    arith,
    appended_row name (suc db.tracked_apps.last) (new_row json name target txid created)
        db.tracked_apps.rows app nothing,
  )

  write_app-IsTracked :
      (os : Os) (name : Text) (target : ResolvedTarget) (txid : ℕ) (created : Text)
      (existing : Option TrackedApp) (w : World os) (u : Unit {0}) (app : TrackedApp)
      → find_app json name w.db ≡ existing
      → (write_app json os name target txid created existing w).0 ≡ ok u
      → find_app json name (write_app json os name target txid created existing w).1.db ≡ some app
      → IsTracked name txid app
  unfolding write_app
  write_app-IsTracked os name target txid created none w u app there done h =
      ground (arith, insert_app-IsTracked name target txid created w.db u app there)
  write_app-IsTracked os name target txid created (some old) w u app there done h =
      ground (arith, revive-IsTracked name target txid w.db app)

  insert_app-transactions :
      (r : TrackedAppRow) (db : Db) → (insert_app json r db).1.transactions ≡ db.transactions
  unfolding insert_app
  insert_app-transactions r db = ground arith

  write_app-transactions :
      (os : Os) (name : Text) (target : ResolvedTarget) (txid : ℕ) (created : Text)
      (existing : Option TrackedApp) (w : World os)
      → (write_app json os name target txid created existing w).1.db.transactions
        ≡ w.db.transactions
  unfolding write_app revive
  write_app-transactions os name target txid created none w =
      ground (arith, insert_app-transactions (new_row json name target txid created) w.db)
  write_app-transactions os name target txid created (some old) w = ground arith

  -- The app is tracked in the transaction, which is being tracked, and the database has it so.
  abbrev IsStored : (os : Os) → Text → ℕ → TrackedApp → World os → Type 0
  IsStored os name txid app w =
      IsTracked name txid app
      × ((find_app json name w.db ≡ some app) × HasStatus txid tracking w.db)

  loaded :
      (os : Os) (name : Text) (w : World os) (found : Option TrackedApp)
      → (load_tracked_app json os name w).0 ≡ ok found
      → (find_app json name w.db ≡ found) × ((load_tracked_app json os name w).1 ≡ w)
  unfolding load_tracked_app
  loaded os name w found h = (ground arith, ground arith)

  or_vanished_ok :
      (os : Os) (found : Option TrackedApp) (w : World os) (app : TrackedApp)
      → (or_vanished json os found w).0 ≡ ok app
      → (found ≡ some app) × ((or_vanished json os found w).1 ≡ w)
  unfolding or_vanished
  or_vanished_ok os none w app h = absurd (cc h)
  or_vanished_ok os (some a) w app h = (cc, refl)

  reload-IsStored :
      (os : Os) (name : Text) (txid : ℕ) (w : World os)
      → ((app : TrackedApp) → find_app json name w.db ≡ some app → IsTracked name txid app)
      → HasStatus txid tracking w.db
      → (app : TrackedApp) → ((load_tracked_app json os name >>= or_vanished json os) w).0 ≡ ok app
      → IsStored os name txid app ((load_tracked_app json os name >>= or_vanished json os) w).1
  reload-IsStored os name txid w stored has app h =
      bind-result (IsStored os name txid) (load_tracked_app json os name) (or_vanished json os) w
        (λ found a b done.
          let (there, same) = loaded os name w found a in
          let (is_some, unchanged) =
            or_vanished_ok os found (load_tracked_app json os name w).1 b done in
          rw (unchanged, same) (stored b (there ∙ is_some), (there ∙ is_some, has)))
        app h

  module _ (os : Os) (name : Text) (target : ResolvedTarget) (txid : ℕ) where
    reload : M os TrackedApp
    reload = load_tracked_app json os name >>= or_vanished json os

    find_then : Text → M os TrackedApp
    unfolding reload
    find_then created = query select_tracked_app (find_app json name) >>= λ existing.
        write_app json os name target txid created existing >> reload

    written-IsStored :
        (created : Text) (existing : Option TrackedApp) (w : World os)
        → find_app json name w.db ≡ existing
        → HasStatus txid tracking w.db
        → (app : TrackedApp)
        → ((write_app json os name target txid created existing >> reload) w).0 ≡ ok app
        → IsStored os name txid app
            ((write_app json os name target txid created existing >> reload) w).1
    unfolding reload
    written-IsStored created existing w found has app h =
        bind-result (IsStored os name txid) (write_app json os name target txid created existing)
          (λ _. reload) w
          (λ u done.
            let w' = (write_app json os name target txid created existing w).1 in
            reload-IsStored os name txid w'
              (λ a. write_app-IsTracked os name target txid created existing w u a found done)
              (HasStatus-same txid tracking w.db w'.db
                (write_app-transactions os name target txid created existing w) has))
          app h

    queried :
        (w : World os) (found : Option TrackedApp)
        → (query {os = os} select_tracked_app (find_app json name) w).0 ≡ ok found
        → (find_app json name w.db ≡ found)
          × ((query {os = os} select_tracked_app (find_app json name) w).1 ≡ w)
    queried w found h = (ground arith, ground arith)

    find_then-IsStored :
        (created : Text) (w : World os)
        → HasStatus txid tracking w.db
        → (app : TrackedApp) → (find_then created w).0 ≡ ok app
        → IsStored os name txid app (find_then created w).1
    unfolding find_then
    find_then-IsStored created w has app h =
        bind-result (IsStored os name txid) (query select_tracked_app (find_app json name))
          (λ existing. write_app json os name target txid created existing >> reload) w
          (λ existing a b done.
            let (found, same) = queried w existing a in
            written-IsStored created existing
              (query {os = os} select_tracked_app (find_app json name) w).1 (rw same found)
              (rw same has) b done)
          app h

    store_app-IsStored :
        (w : World os)
        → HasStatus txid tracking w.db
        → (app : TrackedApp) → (store_app json os name target txid w).0 ≡ ok app
        → IsStored os name txid app (store_app json os name target txid w).1
    unfolding store_app find_then reload
    store_app-IsStored w has app h =
        bind-result (IsStored os name txid) now find_then w
          (λ created at. find_then-IsStored created (now {os = os} w).1 has) app h
