-- ===== src/TrackedApps.antt =====
-- `src/tracked_apps/mod.rs`: the apps that are tracked over all their launches. `json` is the
-- encoding of a list of texts by `serde_json`.
pub mod Resolve
pub mod Tracking
pub mod Lookup
pub mod Tests
use pkgundo.Prelude.{
  Text, lit, text_eq, Bool, true, false, not, ◌&&◌, ◌||◌, ℕ, List, [], ◌∷◌, ◌++◌, map, Option, none,
  some, Result, ok, err, if◌then◌else◌, ◌==◌,
}
use pkgundo.System.{
  Os, track_transaction, select_tracked_app, insert_tracked_app, update_tracked_app,
  list_tracked_apps,
}
use pkgundo.Exec.{M, pure, fail, ◌>>=◌, ◌>>◌, query, execute, now, with_context, choose}
use pkgundo.Db.{Db, refers, TrackedAppRow, TransactionRow, same_tracked_app}
use pkgundo.Db.Tables.{insert, select, update, order_by_desc}
use pkgundo.Transaction.{
  status_name, tracking, untracked, create_transaction, update_transaction_status,
}
use pkgundo.TrackedApps.Resolve.{ResolvedTarget, of_package, of_binary, resolve_app_targets}

pub record Json : Type 0 where
  pub encode : List Text → Text
  pub decode : Text → Option (List Text)

pub record TrackedApp : Type 0 where
  pub id : ℕ
  pub name : Text
  pub kind : Text
  pub package_name : Option Text
  pub resolved_paths : List Text
  pub status : Text
  pub txid : ℕ
  pub created_at : Text
  pub untracked_at : Option Text

kind_of : ResolvedTarget → Text
unfolding lit
kind_of (of_package name binaries) = lit "package"
kind_of (of_binary path) = lit "binary"

package_of : ResolvedTarget → Option Text
package_of (of_package name binaries) = some name
package_of (of_binary path) = none

paths_of : ResolvedTarget → List Text
paths_of (of_package name binaries) = binaries
paths_of (of_binary path) = path ∷ []

or_default : Option (List Text) → List Text
or_default none = []
or_default (some paths) = paths

-- The status column alone, unlike `update_transaction_status`.
set_tracking : ℕ → Db → Db
set_tracking txid db = record db {
  transactions =
      update (λ key _. key == txid) (λ r. record r { status = status_name tracking })
        db.transactions;
}

module _ (json : Json) where
  resolved_paths_json : ResolvedTarget → Text
  unfolding paths_of
  resolved_paths_json target = json.encode (paths_of target)

  row_to_tracked_app : ℕ × TrackedAppRow → TrackedApp
  unfolding or_default
  row_to_tracked_app (id, r) = record {
    id = id;
    name = r.name;
    kind = r.kind;
    package_name = r.package_name;
    resolved_paths = or_default (json.decode r.resolved_paths);
    status = r.status;
    txid = r.txid;
    created_at = r.created_at;
    untracked_at = r.untracked_at;
  }

  first_app : List (ℕ × TrackedAppRow) → Option TrackedApp
  unfolding row_to_tracked_app
  first_app [] = none
  first_app (r ∷ rows) = some (row_to_tracked_app r)

  unfoldable pub find_app : Text → Db → Option TrackedApp
  unfolding first_app
  find_app name db = first_app (select (λ _ r. text_eq r.name name) db.tracked_apps)

  is_package : Text → Option Text → Bool
  is_package name none = false
  is_package name (some p) = text_eq p name

  unfoldable pub find_app_by_package : Text → Db → Option TrackedApp
  unfolding first_app is_package
  find_app_by_package name db = first_app (
      select (λ _ r. is_package name r.package_name && text_eq r.status (lit "tracking"))
        db.tracked_apps)

  apps_of : Bool → Db → List TrackedApp
  unfolding row_to_tracked_app
  apps_of include_all db = map row_to_tracked_app (
      order_by_desc (λ r. r.created_at)
        (select (λ _ r. include_all || text_eq r.status (lit "tracking")) db.tracked_apps))

  -- The row of an app that was untracked is taken up again, with a transaction of its own.
  revive : Text → ResolvedTarget → ℕ → Db → Db
  unfolding kind_of package_of resolved_paths_json
  revive name target txid db = record db {
    tracked_apps =
        update (λ _ r. text_eq r.name name)
          (λ r. record r {
            kind = kind_of target;
            package_name = package_of target;
            resolved_paths = resolved_paths_json target;
            status = lit "tracking";
            txid = txid;
            untracked_at = none;
          })
          db.tracked_apps;
  }

  new_row : Text → ResolvedTarget → ℕ → Text → TrackedAppRow
  unfolding kind_of package_of resolved_paths_json
  new_row name target txid created_at = record {
    name = name;
    kind = kind_of target;
    package_name = package_of target;
    resolved_paths = resolved_paths_json target;
    status = lit "tracking";
    txid = txid;
    created_at = created_at;
    untracked_at = none;
  }

  insert_app : TrackedAppRow → Db → Result (Unit {0}) × Db
  insert_app r db =
      let (key, t) = insert same_tracked_app r db.tracked_apps in
      elim key [ ok _ ↦ (ok tt, record db { tracked_apps = t }) | err e ↦ (err e, db) ]

  close_app : Text → Text → Db → Db
  close_app name end db = record db {
    tracked_apps =
        update (λ _ r. text_eq r.name name)
          (λ r. record r { status = lit "untracked"; untracked_at = some end }) db.tracked_apps;
  }

  module _ (os : Os) where
    unfoldable pub load_tracked_app : Text → M os (Option TrackedApp)
    unfolding find_app
    load_tracked_app name =
        with_context (lit "Failed to load tracked app") (query select_tracked_app (find_app name))

    unfoldable pub load_tracked_app_by_package : Text → M os (Option TrackedApp)
    unfolding find_app_by_package
    load_tracked_app_by_package name =
        with_context (lit "Failed to load tracked app by package name")
          (query select_tracked_app (find_app_by_package name))

    unfoldable pub list_apps : Bool → M os (List TrackedApp)
    unfolding apps_of
    list_apps include_all =
        with_context (lit "Failed to list tracked apps")
          (query list_tracked_apps (apps_of include_all))

    write_app : Text → ResolvedTarget → ℕ → Text → Option TrackedApp → M os (Unit {0})
    unfolding revive new_row insert_app
    write_app name target txid created_at (some existing) =
        execute update_tracked_app (λ db. refers txid db (ok tt, revive name target txid db))
    write_app name target txid created_at none =
        execute insert_tracked_app
          (λ db. refers txid db (insert_app (new_row name target txid created_at) db))

    or_vanished : Option TrackedApp → M os TrackedApp
    or_vanished none = fail (lit "tracked app vanished immediately after insert")
    or_vanished (some app) = pure app

    store_app : Text → ResolvedTarget → ℕ → M os TrackedApp
    unfolding write_app or_vanished
    store_app name target txid = do
      created_at ← now
      existing ← query select_tracked_app (find_app name)
      write_app name target txid created_at existing
      app ← load_tracked_app name
      or_vanished app

    unfoldable pub track_app : Text → M os TrackedApp
    unfolding set_tracking store_app
    track_app name = do
      target ← resolve_app_targets os name
      txid ←
          with_context (lit "Failed to create accumulation transaction for tracked app")
            (create_transaction os (lit "[tracked] " ++ name) [])
      execute track_transaction (λ db. (ok tt, set_tracking txid db))
      store_app name target txid

    not_tracked : Text → Text
    unfolding lit
    not_tracked name = lit "'" ++ name ++ lit "' is not currently tracked"

    -- The app, if it is tracked now.
    tracked_or : Text → Option TrackedApp → M os TrackedApp
    unfolding not_tracked
    tracked_or name none = fail (not_tracked name)
    tracked_or name (some app) =
        choose (text_eq app.status (lit "tracking")) (pure app) (fail (not_tracked name))

    unfoldable pub untrack_app : Text → M os (Unit {0})
    unfolding tracked_or close_app
    untrack_app name = do
      found ← load_tracked_app name
      app ← tracked_or name found
      update_transaction_status os app.txid untracked none
      end ← now
      execute update_tracked_app (λ db. (ok tt, close_app name end db))
