-- ===== src/TrackedApps/Lookup.antt =====
-- Which row the lookup of an app by its package finds.
use pkgundo.Prelude.{
  Text, lit, text_eq, Bool, true, false, ◌&&◌, ℕ, List, [], ◌∷◌, any, filter, filter-All, All,
  All-mem, Mem, Option, none, some, ◌≡◌, refl, arith,
}
use pkgundo.Db.{Db, TrackedAppRow}
use pkgundo.Db.Tables.{select}
use pkgundo.TrackedApps.{
  Json, TrackedApp, row_to_tracked_app, first_app, is_package, find_app_by_package,
}

-- The row is of an app of this package, which is tracked.
unfoldable pub tracks : Text → TrackedAppRow → Bool
tracks pkg r =
    (elim r.package_name [ none ↦ false | some p ↦ text_eq p pkg ])
    && text_eq r.status (lit "tracking")

-- One of the rows is.
unfoldable pub is_tracked : Db → Text → Bool
unfolding tracks
is_tracked db pkg = any (λ (_, r). tracks pkg r) db.tracked_apps.rows

unfoldable pub is_found : Option TrackedApp → Bool
is_found none = false
is_found (some app) = true

module _ (json : Json) where
  test-eq :
      (pkg : Text) (p : Option Text) (b : Bool)
      → (is_package json pkg p && b) ≡ ((elim p [ none ↦ false | some q ↦ text_eq q pkg ]) && b)
  unfolding is_package
  test-eq pkg none b = refl
  test-eq pkg (some q) b = refl

  abbrev test : Text → ℕ × TrackedAppRow → Bool
  test pkg (_, r) = is_package json pkg r.package_name && text_eq r.status (lit "tracking")

  is_found-first_app :
      (pkg : Text) (rows : List (ℕ × TrackedAppRow))
      → is_found (first_app json (filter (test pkg) rows)) ≡ any (λ (_, r). tracks pkg r) rows
  unfolding first_app is_found tracks
  is_found-first_app pkg [] = refl
  is_found-first_app pkg ((k, r) ∷ rows) = ground (
    arith,
    test-eq pkg r.package_name (text_eq r.status (lit "tracking")),
    is_found-first_app pkg rows,
  )

  -- An app is found for a package exactly if a row is of a tracked app of the package.
  pub is_found-find_app_by_package :
      (db : Db) (pkg : Text) → is_found (find_app_by_package json pkg db) ≡ is_tracked db pkg
  unfolding find_app_by_package select is_tracked
  is_found-find_app_by_package db pkg = is_found-first_app pkg db.tracked_apps.rows

  -- The app that is found is that of such a row.
  abbrev pub IsOfRow : Db → Text → TrackedApp → Type 0
  IsOfRow db pkg app =
      (key : ℕ) × (r : TrackedAppRow) × (Mem (key, r) db.tracked_apps.rows
        × ((tracks pkg r ≡ true) × ((app.name ≡ r.name) × (app.txid ≡ r.txid))))

  first_app-All :
      (P : ℕ × TrackedAppRow → Type 0) (rows : List (ℕ × TrackedAppRow)) (app : TrackedApp)
      → All P rows
      → first_app json rows ≡ some app
      → (key : ℕ) × (r : TrackedAppRow) × (P (key, r) × ((app.name ≡ r.name) × (app.txid ≡ r.txid)))
  unfolding first_app row_to_tracked_app
  first_app-All P [] app all h = absurd (cc h)
  first_app-All P ((key, r) ∷ rows) app (here, all) h =
      (key, r, (here, (ground arith, ground arith)))

  pub find_app_by_package-IsOfRow :
      (db : Db) (pkg : Text) (app : TrackedApp)
      → find_app_by_package json pkg db ≡ some app
      → IsOfRow db pkg app
  unfolding find_app_by_package select tracks
  find_app_by_package-IsOfRow db pkg app h =
      let rows = db.tracked_apps.rows in
      let (key, r, ((member, fits), same)) =
        first_app-All (λ e. Mem e rows × (test pkg e ≡ true)) (filter (test pkg) rows) app
          (filter-All (λ e. Mem e rows) (test pkg) rows (All-mem rows)) h in
      (
        key,
        r,
        (
          member,
          (
            ground (arith, fits, test-eq pkg r.package_name (text_eq r.status (lit "tracking"))),
            same,
          ),
        ),
      )
