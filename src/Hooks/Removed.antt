-- ===== src/Hooks/Removed.antt =====
-- The lookup of removed packages among the apps that are tracked.
use pkgundo.Prelude.{
  Text, true, ℕ, suc, ◌==◌, All, Mem, ap, ◌∙◌, List, [], ◌∷◌, map, filter, length, Option-cases,
  none, some, ok, ◌≡◌, refl, arith, inl, inr,
}
use pkgundo.System.{Os, Statement, select_tracked_app, select_mutations}
use pkgundo.Exec.{M, World}
use pkgundo.Db.{Db, TrackedAppRow}
use pkgundo.Db.Tables.{select, order_by}
use pkgundo.Db.Tables.Lengths.{length-order_by}
use pkgundo.Journal.{get_mutations, mutations_of, from_row}
use pkgundo.TrackedApps.{Json, TrackedApp, load_tracked_app_by_package, find_app_by_package}
use pkgundo.TrackedApps.Lookup.{
  tracks, is_tracked, is_found, is_found-find_app_by_package, find_app_by_package-IsOfRow,
}
use pkgundo.Hooks.{Hit, removed_hits, find_tracked_removed}

-- How many rows of the journal have this transaction.
abbrev pub recorded : ℕ → Db → ℕ
recorded txid db = length (filter (λ (_, m). m.txid == txid) db.mutations.rows)

-- The hit has the name of a tracked app of its package, and the count of what the journal has of it.
abbrev pub IsHitOf : Db → Hit → Type 0
IsHitOf db h =
    (key : ℕ) × (r : TrackedAppRow) × (Mem (key, r) db.tracked_apps.rows
      × ((tracks h.removed r ≡ true) × ((h.name ≡ r.name) × (h.count ≡ recorded r.txid db))))

-- The code returns, changes nothing, and reports these packages by such hits.
pub Reports : {os : Os} → List Text → M os (List Hit) → World os → Type 0
Reports names m w =
    (hits : List Hit) × ((m w ≡ (ok hits, w))
      × ((map (λ h. h.removed) hits ≡ names) × All (IsHitOf w.db) hits))

length-map : {A B : Type 0} (f : A → B) (xs : List A) → length (map f xs) ≡ length xs
length-map f [] = refl
length-map f (x ∷ xs) = ap suc (length-map f xs)

length-mutations_of : (txid : ℕ) (db : Db) → length (mutations_of txid db) ≡ recorded txid db
unfolding select
length-mutations_of txid db =
    let rows = select (λ _ r. r.txid == txid) db.mutations in
    length-map from_row (order_by (λ r. r.timestamp) rows) ∙ length-order_by (λ r. r.timestamp) rows

module _ (json : Json) (os : Os) (w : World os)
    (fine : (q : Statement) → os.sql_fault w.state q ≡ none) where
  load_tracked_app_by_package-answers :
      (pkg : Text)
      → load_tracked_app_by_package json os pkg w ≡ (ok (find_app_by_package json pkg w.db), w)
  unfolding load_tracked_app_by_package
  load_tracked_app_by_package-answers pkg = ground (arith, fine select_tracked_app)

  get_mutations-answers : (txid : ℕ) → get_mutations os txid w ≡ (ok (mutations_of txid w.db), w)
  unfolding get_mutations
  get_mutations-answers txid = ground (arith, fine select_mutations)

  abbrev hit_of : Text → TrackedApp → Hit
  hit_of pkg app = record {
    removed = pkg;
    name = app.name;
    count = length (mutations_of app.txid w.db);
  }

  hit_of-IsHitOf :
      (pkg : Text) (app : TrackedApp)
      → find_app_by_package json pkg w.db ≡ some app
      → IsHitOf w.db (hit_of pkg app)
  hit_of-IsHitOf pkg app found =
      let (key, r, (member, (tracked, (name, txid)))) =
        find_app_by_package-IsOfRow json w.db pkg app found in
      (
        key,
        r,
        (
          member,
          (tracked, (name, length-mutations_of app.txid w.db ∙ ap (λ t. recorded t w.db) txid)),
        ),
      )

  -- If the database answers every query, the lookup of removed packages returns without changing
  -- anything. It reports, in their order, those packages for which a row with the status "tracking" is
  -- there, each with the name of such a row and the number of mutations that the journal has under the
  -- row's transaction.
  pub find_tracked_removed-filter :
      (pkgs : List Text)
      → Reports (filter (is_tracked w.db) pkgs) (find_tracked_removed json os pkgs) w
  unfolding Reports find_tracked_removed removed_hits is_found
  find_tracked_removed-filter [] = ([], (refl, (refl, tt)))
  find_tracked_removed-filter (pkg ∷ pkgs) =
      let (hits, (run, (names, ofs))) = find_tracked_removed-filter pkgs in
      elim (Option-cases (find_app_by_package json pkg w.db)) [
        | inl nothing ↦ (
          hits,
          (
            ground (arith, load_tracked_app_by_package-answers pkg, nothing, run),
            (ground (arith, nothing, names, is_found-find_app_by_package json w.db pkg), ofs),
          ),
        )
        | inr (app, found) ↦ (
          hit_of pkg app ∷ hits,
          (
            ground (
              arith,
              load_tracked_app_by_package-answers pkg,
              found,
              get_mutations-answers app.txid,
              run,
            ),
            (
              ground (arith, found, names, is_found-find_app_by_package json w.db pkg),
              (hit_of-IsHitOf pkg app found, ofs),
            ),
          ),
        )
      ]
