-- ===== src/Rollback/Engine/DryRun.antt =====
-- A dry run of the whole rollback changes nothing.
use pkgundo.Prelude.{Text, Bool, true, false, ◌&&◌, not, List, [], ◌∷◌, Option, ◌≡◌, refl, arith}
use pkgundo.System.{Os}
use pkgundo.Exec.{World}
use pkgundo.Exec.Keeps.{bind-same}
use pkgundo.Journal.Dedup.{get_mutations-same}
use pkgundo.Journal.{MutationRecord}
use pkgundo.Archive.{Codec}
use pkgundo.Classifier.{classify_path}
use pkgundo.Transaction.{PackageManager, Transaction}
use pkgundo.Transaction.Lifecycle.{load_transaction-same}
use pkgundo.ServiceTracker.Rollback.{rollback_service_events_same}
use pkgundo.UserTracker.Rollback.{rollback_user_events_same}
use pkgundo.Rollback.{
  RollbackMode, conservative, RollbackEngine, RollbackReport, mutation_passes_group_filter,
}
use pkgundo.Rollback.Files.Safety.{process_mutation-dry}
use pkgundo.Rollback.Engine.{
  delegate, process_one, process_filtered, process_all, clean_up, undo_services, undo_users,
  integrity_check, finish, conclude, reconcile, undo_all, process, run_rollback, refuse, run_loaded,
  run_opened, execute,
}

module _ (os : Os) (codec : Codec) (lower : Text → Text) (e : RollbackEngine)
    (dry : e.dry_run ≡ true) where
  delegate-same :
      (name : Option Text) (pm : PackageManager) (report : RollbackReport) (w : World os)
      → (delegate os codec lower e e.dry_run name pm report w).1 ≡ w
  unfolding delegate
  delegate-same name pm report w = ground arith

  process_filtered-same :
      (b : Bool) (m : MutationRecord) (report : RollbackReport) (w : World os)
      → (process_filtered os codec lower e b m report w).1 ≡ w
  unfolding process_filtered process_one
  process_filtered-same b m report w = ground (
    arith,
    process_mutation-dry os codec e dry m.path m.operation
        (classify_path (os.is_symlink w.state m.path) m.path) w,
  )

  process_all-same :
      (ms : List MutationRecord) (report : RollbackReport) (w : World os)
      → (process_all os codec lower e ms report w).1 ≡ w
  unfolding process_all
  process_all-same [] report w = refl
  process_all-same (m ∷ ms) report w =
      let passes = mutation_passes_group_filter lower m.path e.selected_groups in
      bind-same (process_filtered os codec lower e passes m report)
        (λ r. process_all os codec lower e ms r) w (process_filtered-same passes m report w)
        (λ r. process_all-same ms r w)

  undo_services-same :
      (report : RollbackReport) (w : World os) → (undo_services os codec lower e report w).1 ≡ w
  unfolding undo_services
  undo_services-same report w = rw dry (ground (arith, rollback_service_events_same os e.txid w))

  undo_users-same :
      (mode : RollbackMode) (report : RollbackReport) (w : World os)
      → (undo_users os codec lower e mode report w).1 ≡ w
  unfolding undo_users
  undo_users-same conservative report w = refl
  undo_users-same mode report w = rw dry (ground (arith, rollback_user_events_same os e.txid w))

  clean_up-same :
      (report : RollbackReport) (w : World os)
      → (clean_up os codec lower e (e.home_cleanup && not e.dry_run) report w).1 ≡ w
  unfolding clean_up
  clean_up-same report w = rw dry (ground arith)

  conclude-same :
      (report : RollbackReport) (w : World os) → (conclude os codec lower e report w).1 ≡ w
  unfolding conclude finish
  conclude-same report w = ground arith

  reconcile-same :
      (report : RollbackReport) (w : World os) → (reconcile os codec lower e report w).1 ≡ w
  unfolding reconcile undo_all integrity_check
  reconcile-same report w =
      grind (arith, clean_up-same, undo_services-same, undo_users-same, conclude-same)

  run_rollback-same :
      (tx : Transaction) (ms : List MutationRecord) (w : World os)
      → (run_rollback os codec lower e tx ms w).1 ≡ w
  unfolding run_rollback process
  run_rollback-same tx ms w = grind (arith, delegate-same, process_all-same, reconcile-same)

  run_loaded-same :
      (done : Bool) (tx : Transaction) (w : World os)
      → (run_loaded os codec lower e done tx w).1 ≡ w
  unfolding run_loaded refuse
  run_loaded-same true tx w = refl
  run_loaded-same false tx w = grind (arith, get_mutations-same, run_rollback-same)

  run_opened-same : (w : World os) → (run_opened os codec lower e w).1 ≡ w
  unfolding run_opened
  run_opened-same w = grind (arith, load_transaction-same, run_loaded-same)

  -- A dry run of a rollback changes neither the system nor the database, whatever it returns.
  pub execute-dry : (w : World os) → (execute os codec lower e w).1 ≡ w
  unfolding execute
  execute-dry w = ground (arith, run_opened-same w)
