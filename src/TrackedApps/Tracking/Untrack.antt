-- ===== src/TrackedApps/Tracking/Untrack.antt =====
-- Giving an app up.
use pkgundo.Prelude.{
  Text, lit, text_eq, text_eq_iff, Bool-cases, ℕ, List, [], ◌∷◌, map, filter, Option, none, some,
  Result, ok, err, if◌then◌else◌, ◌≡◌, ◌≢◌, refl, subst, arith, inl, inr, ap, ◌∙◌, sym,
}
use pkgundo.System.{Os, update_tracked_app}
use pkgundo.Exec.{M, World, execute, now, ◌>>=◌, ◌>>◌}
use pkgundo.Exec.Keeps.{bind-post}
use pkgundo.Run.Rules.{bind-via}
use pkgundo.Db.{Db, TrackedAppRow}
use pkgundo.Db.Tables.{select, update}
use pkgundo.Transaction.{untracked, update_transaction_status}
use pkgundo.TrackedApps.{
  Json, TrackedApp, row_to_tracked_app, first_app, find_app, close_app, load_tracked_app,
  untrack_app, tracked_or,
}

module _ {os : Os} where
  -- It failed and changed nothing.
  abbrev pub Fails : {A : Type 0} → World os → Result A × World os → Type 0
  Fails w (r, t) = ((e : Text) × (r ≡ err e)) × (t ≡ w)

module _ (json : Json) (os : Os) (name : Text) where
  -- What was found is not being tracked.
  abbrev pub IsAbsent : Option TrackedApp → Type 0
  IsAbsent found = (app : TrackedApp) → found ≡ some app → app.status ≢ lit "tracking"

  tracked_or-Fails :
      (found : Option TrackedApp) (w : World os)
      → IsAbsent found
      → Fails w (tracked_or json os name found w)
  unfolding tracked_or
  tracked_or-Fails none w absent = ((_, refl), refl)
  tracked_or-Fails (some app) w absent = elim (Bool-cases (text_eq app.status (lit "tracking"))) [
    | inl here ↦ absurd (absent app refl ((text_eq_iff app.status (lit "tracking")).0 here))
    | inr other ↦ rw other ((_, refl), refl)
  ]

  abbrev IsLoaded : World os → Result (Option TrackedApp) × World os → Type 0
  IsLoaded w (r, t) =
      (t ≡ w) × ((found : Option TrackedApp) → r ≡ ok found → find_app json name w.db ≡ found)

  load-IsLoaded : (w : World os) → IsLoaded w (load_tracked_app json os name w)
  unfolding load_tracked_app
  load-IsLoaded w = (ground arith, λ found h. ground arith)

  close_then : TrackedApp → M os (Unit {0})
  unfolding close_app
  close_then app = do
    update_transaction_status os app.txid untracked none
    end ← now
    execute update_tracked_app (λ db. (ok tt, close_app json name end db))

-- An app that the database does not have as being tracked is not given up: the attempt fails, and
-- changes neither the system nor the database.
pub untrack_app-Fails :
    (json : Json) (os : Os) (name : Text) (w : World os)
    → IsAbsent json os name (find_app json name w.db)
    → Fails w (untrack_app json os name w)
unfolding untrack_app close_then
untrack_app-Fails json os name w absent =
    bind-via (IsLoaded json os name w) (Fails w) (load_tracked_app json os name)
      (λ found. tracked_or json os name found >>= close_then json os name) w
      (load-IsLoaded json os name w)
      (λ found t (same, there).
        bind-via (Fails w) (Fails w) (tracked_or json os name found) (close_then json os name) t
          (rw same (
            tracked_or-Fails json os name found w
              (subst (IsAbsent json os name) (there found refl) absent)))
          (λ app t' ((e, no_app), _). absurd (cc no_app)) (λ e t' fails. ((e, refl), fails.1)))
      (λ e t (same, _). ((e, refl), same))

closed_rows :
    (json : Json) (name end : Text) (rows : List (ℕ × TrackedAppRow)) (app : TrackedApp)
    → first_app json (
        filter
          (λ (_, r). text_eq r.name name)
          (map
            (λ (k, r). (
              k,
              if text_eq r.name name
                  then record r { status = lit "untracked"; untracked_at = some end }
                  else r,
            ))
            rows))
      ≡ some app
    → app.status ≡ lit "untracked"
unfolding first_app row_to_tracked_app
closed_rows json name end [] app h = absurd (cc h)
closed_rows json name end ((k, r) ∷ rows) app h = ground (arith, closed_rows json name end rows app)

-- What the database has under the name, if anything, is not being tracked any more.
abbrev pub IsUntracked : Json → Text → Db → Type 0
IsUntracked json name db =
    (app : TrackedApp) → find_app json name db ≡ some app → app.status ≡ lit "untracked"

module _ (json : Json) (os : Os) (name : Text) where
  close_app-IsUntracked :
      (end : Text) (w : World os) (u : Unit {0})
      → (execute {os = os} update_tracked_app (λ db. (ok tt, close_app json name end db)) w).0
        ≡ ok u
      → IsUntracked json name
          (execute {os = os} update_tracked_app (λ db. (ok tt, close_app json name end db)) w).1.db
  unfolding close_app find_app select update
  close_app-IsUntracked end w u h app found =
      ground (arith, closed_rows json name end w.db.tracked_apps.rows app)

  close_then-IsUntracked :
      (app : TrackedApp) (w : World os) (u : Unit {0})
      → (close_then json os name app w).0 ≡ ok u
      → IsUntracked json name (close_then json os name app w).1.db
  unfolding close_then
  close_then-IsUntracked app w u h =
      let close = λ (end : Text).
        execute {os = os} update_tracked_app (λ db. (ok (tt {0}), close_app json name end db)) in
      bind-post (λ w. IsUntracked json name w.db)
        (update_transaction_status os app.txid untracked none) (λ _. now >>= close) w
        (λ _ updated u' then_done.
          let w' = (update_transaction_status os app.txid untracked none w).1 in
          bind-post (λ w. IsUntracked json name w.db) now close w'
            (λ end at u'' done. close_app-IsUntracked end (now {os = os} w').1 u'' done) u'
            then_done)
        u h

-- If giving an app up succeeds, what the database then has under its name, if anything, has the
-- status "untracked".
pub untrack_app-IsUntracked :
    (json : Json) (os : Os) (name : Text) (w : World os) (u : Unit {0})
    → (untrack_app json os name w).0 ≡ ok u
    → IsUntracked json name (untrack_app json os name w).1.db
unfolding untrack_app close_then
untrack_app-IsUntracked json os name w u h =
    bind-post (λ w. IsUntracked json name w.db) (load_tracked_app json os name)
      (λ found. tracked_or json os name found >>= close_then json os name) w
      (λ found at u' rest.
        let w' = (load_tracked_app json os name w).1 in
        bind-post (λ w. IsUntracked json name w.db) (tracked_or json os name found)
          (close_then json os name) w'
          (λ app tracked u'' done.
            close_then-IsUntracked json os name app (tracked_or json os name found w').1 u'' done)
          u' rest)
      u h

-- The status of an app is a matter of the table of tracked apps.
pub IsUntracked-same :
    (json : Json) (name : Text) (db db' : Db)
    → db'.tracked_apps ≡ db.tracked_apps
    → IsUntracked json name db
    → IsUntracked json name db'
unfolding find_app
IsUntracked-same json name db db' same closed app h =
    closed app (ap (λ t. first_app json (select (λ _ r. text_eq r.name name) t)) (sym same) ∙ h)
