-- ===== src/Rollback/Engine/Success.antt =====
-- A rollback ends with a report unless it is refused, whatever happens to single files.
use pkgundo.Prelude.{
  Text, Bool, true, false, ◌&&◌, not, List, ◌++◌, Option, none, some, ok, ◌≡◌, ◌≢◌, refl, arith,
}
use pkgundo.System.{
  Os, Statement, open_database, select_transaction, select_mutations, update_transaction,
}
use pkgundo.Exec.{World, M, ◌>>=◌}
use pkgundo.Journal.{MutationRecord, get_mutations, mutations_of}
use pkgundo.Archive.{Codec}
use pkgundo.Transaction.{
  PackageManager, Transaction, TransactionStatus, rolled_back, load_transaction, find_transaction,
  update_transaction_status,
}
use pkgundo.Rollback.{RollbackEngine, RollbackReport}
use pkgundo.Rollback.Engine.{
  remove_command, run_command, delegate, process_all, clean_up, undo_services, undo_users,
  integrity_check, finish, conclude, reconcile, undo_all, process, run_rollback, run_opened,
  run_loaded, execute, is_rolled_back, package_to_remove, start_report,
}
use pkgundo.Rollback.{RollbackMode, conservative, clean, nuclear}
use pkgundo.Rollback.Engine.Accounting.{process_all_total}
use pkgundo.Rollback.Cleanup.Fuel.{cleanup_empty_ancestor_dirs-ok}

module _ {os : Os} where
  -- It returns a result.
  abbrev Succeeds : {A : Type 0} → M os A → World os → Type 0
  Succeeds {A} m w = (a : A) × ((m w).0 ≡ ok a)

  bind-Succeeds :
      {A B : Type 0} (m : M os A) (f : A → M os B) (w : World os)
      → Succeeds m w
      → ((a : A) (w : World os) → Succeeds (f a) w)
      → Succeeds (m >>= f) w
  bind-Succeeds m f w (a, done) next = let (b, then_done) = next a (m w).1 in (b, ground arith)

module _ (os : Os) (codec : Codec) (lower : Text → Text) (e : RollbackEngine)
    (sound : (s : os.State) (statement : Statement) → os.sql_fault s statement ≡ none)
    (runs : (bin : Text) (args : List Text) (s : os.State)
      → (b : Bool) × ((os.command bin args s).0 ≡ ok b)) where
  run_command-ok :
      (c : Option (Text × List Text)) (report : RollbackReport) (w : World os)
      → Succeeds (run_command os codec lower e c report) w
  unfolding run_command
  run_command-ok none report w = (report, refl)
  run_command-ok (some (bin, args)) report w =
      let (b, h) = runs bin args w.state in
      (record report { pm_removal_succeeded = b }, ground arith)

  delegate-ok :
      (dry : Bool) (name : Option Text) (pm : PackageManager) (report : RollbackReport)
      (w : World os)
      → Succeeds (delegate os codec lower e dry name pm report) w
  unfolding delegate
  delegate-ok dry none pm report w = (report, refl)
  delegate-ok true (some name) pm report w = (report, refl)
  delegate-ok false (some name) pm report w = run_command-ok (remove_command pm name) report w

  undo_users-ok :
      (mode : RollbackMode) (report : RollbackReport) (w : World os)
      → Succeeds (undo_users os codec lower e mode report) w
  unfolding undo_users
  undo_users-ok conservative report w = (report, refl)
  undo_users-ok clean report w = (_, refl)
  undo_users-ok nuclear report w = (_, refl)

  undo_all-ok :
      (report : RollbackReport) (w : World os) → Succeeds (undo_all os codec lower e report) w
  unfolding undo_all undo_services integrity_check
  undo_all-ok report w =
      bind-Succeeds (undo_services os codec lower e report)
        (λ served. undo_users os codec lower e e.mode served >>= integrity_check os codec lower e) w
        (_, refl)
        (λ served w'.
          bind-Succeeds (undo_users os codec lower e e.mode served)
            (integrity_check os codec lower e) w' (undo_users-ok e.mode served w')
            (λ undone w''. (_, refl)))

  finish-ok : (dry : Bool) (w : World os) → Succeeds (finish os codec lower e dry) w
  unfolding finish update_transaction_status
  finish-ok true w = (tt, refl)
  finish-ok false w = (tt, ground (arith, sound (os.now w.state).1 update_transaction))

  clean_up-ok :
      (b : Bool) (report : RollbackReport) (w : World os)
      → Succeeds (clean_up os codec lower e b report) w
  unfolding clean_up
  clean_up-ok false report w = (tt, refl)
  clean_up-ok true report w =
      (tt, cleanup_empty_ancestor_dirs-ok os (report.removed ++ report.archived) w)

  -- The steps after the mutations end with a report that says so.
  conclude-ok :
      (report : RollbackReport) (w : World os)
      → (conclude os codec lower e report w).0 ≡ ok (record report { success = true })
  unfolding conclude
  conclude-ok report w = ground (arith, (finish-ok e.dry_run w).1)

  reconcile-ok :
      (report : RollbackReport) (w : World os) → Succeeds (reconcile os codec lower e report) w
  unfolding reconcile
  reconcile-ok report w =
      bind-Succeeds (clean_up os codec lower e (e.home_cleanup && not e.dry_run) report)
        (λ _. undo_all os codec lower e report >>= conclude os codec lower e) w
        (clean_up-ok (e.home_cleanup && not e.dry_run) report w)
        (λ _ w'.
          bind-Succeeds (undo_all os codec lower e report) (conclude os codec lower e) w'
            (undo_all-ok report w')
            (λ checked w''. (record checked { success = true }, conclude-ok checked w'')))

  process-ok :
      (tx : Transaction) (ms : List MutationRecord) (w : World os)
      → Succeeds (process os codec lower e tx ms) w
  unfolding process
  process-ok tx ms w =
      bind-Succeeds
        (delegate os codec lower e e.dry_run (package_to_remove tx) tx.package_manager
          (start_report os codec lower e tx))
        (process_all os codec lower e ms) w
        (delegate-ok e.dry_run (package_to_remove tx) tx.package_manager
          (start_report os codec lower e tx) w)
        (λ report w'.
          let (r, done, total) = process_all_total os codec lower e ms report w' in (r, done))

  run_rollback-ok :
      (tx : Transaction) (ms : List MutationRecord) (w : World os)
      → Succeeds (run_rollback os codec lower e tx ms) w
  unfolding run_rollback
  run_rollback-ok tx ms w =
      bind-Succeeds (process os codec lower e tx ms) (reconcile os codec lower e) w
        (process-ok tx ms w) reconcile-ok

  run_loaded-ok :
      (done : Bool) (tx : Transaction) (w : World os)
      → done ≡ false
      → Succeeds (run_loaded os codec lower e done tx) w
  unfolding run_loaded get_mutations
  run_loaded-ok true tx w fresh = absurd (cc fresh)
  run_loaded-ok false tx w fresh =
      bind-Succeeds (get_mutations os e.txid) (run_rollback os codec lower e tx) w
        (mutations_of e.txid w.db, ground (arith, sound w.state select_mutations))
        (run_rollback-ok tx)

  is_rolled_back-false : (s : TransactionStatus) → s ≢ rolled_back → is_rolled_back s ≡ false
  unfolding is_rolled_back
  is_rolled_back-false s fresh = ground arith

  run_opened-ok :
      (tx : Transaction) (w : World os)
      → find_transaction e.txid w.db ≡ some tx
      → tx.status ≢ rolled_back
      → Succeeds (run_opened os codec lower e) w
  unfolding run_opened load_transaction
  run_opened-ok tx w found fresh =
      let (r, done) =
        run_loaded-ok (is_rolled_back tx.status) tx w (is_rolled_back-false tx.status fresh) in
      (r, ground (arith, sound w.state select_transaction))

  -- If the database answers every statement and every program can be run, then the rollback of a
  -- transaction that is in the database and is not yet rolled back returns a report, whatever the
  -- file system answers.
  pub execute_returns :
      (tx : Transaction) (w : World os)
      → find_transaction e.txid w.db ≡ some tx
      → tx.status ≢ rolled_back
      → (r : RollbackReport) × ((execute os codec lower e w).0 ≡ ok r)
  unfolding execute
  execute_returns tx w found fresh =
      let (r, done) = run_opened-ok tx w found fresh in
      (r, ground (arith, sound w.state open_database))
