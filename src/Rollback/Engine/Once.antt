-- ===== src/Rollback/Engine/Once.antt =====
-- A transaction is rolled back at most once.
use pkgundo.Prelude.{Text, Bool, true, false, ◌&&◌, not, none, ok, ◌≡◌, ◌≢◌, arith}
use pkgundo.System.{Os, open_database}
use pkgundo.Exec.{World, ◌>>=◌, query, with_context, pure}
use pkgundo.Exec.Keeps.{bind-post}
use pkgundo.Journal.{get_mutations}
use pkgundo.Archive.{Codec}
use pkgundo.Transaction.{Transaction, rolled_back, load_transaction, not_found}
use pkgundo.Transaction.Lifecycle.{
  HasStatus, update_transaction_status-HasStatus, load_transaction-found,
}
use pkgundo.Rollback.{RollbackEngine, RollbackReport}
use pkgundo.Rollback.Engine.{
  clean_up, finish, conclude, reconcile, undo_all, process, run_rollback, run_opened, refuse,
  run_loaded, execute, is_rolled_back,
}

module _ (os : Os) (codec : Codec) (lower : Text → Text) where
  -- The transaction of this engine is closed in the database, if it is there.
  abbrev IsDone : RollbackEngine → World os → Type 0
  IsDone e w = HasStatus e.txid rolled_back w.db

  module _ (e : RollbackEngine) where
    finish-IsDone :
        (dry : Bool) (w : World os) (u : Unit {0})
        → dry ≡ false
        → (finish os codec lower e dry w).0 ≡ ok u
        → IsDone e (finish os codec lower e dry w).1
    unfolding finish
    finish-IsDone true w u real h = absurd (cc real)
    finish-IsDone false w u real h =
        update_transaction_status-HasStatus os e.txid rolled_back none w u h

  module _ (e : RollbackEngine) (real : e.dry_run ≡ false) where
    conclude-IsDone :
        (report : RollbackReport) (w : World os) (r : RollbackReport)
        → (conclude os codec lower e report w).0 ≡ ok r
        → IsDone e (conclude os codec lower e report w).1
    unfolding conclude
    conclude-IsDone report w =
        bind-post (IsDone e) (finish os codec lower e e.dry_run)
          (λ _. pure (record report { success = true })) w
          (λ u done r h. finish-IsDone e e.dry_run w u real done)

    reconcile-IsDone :
        (report : RollbackReport) (w : World os) (r : RollbackReport)
        → (reconcile os codec lower e report w).0 ≡ ok r
        → IsDone e (reconcile os codec lower e report w).1
    unfolding reconcile
    reconcile-IsDone report w =
        bind-post (IsDone e) (clean_up os codec lower e (e.home_cleanup && not e.dry_run) report)
          (λ _. undo_all os codec lower e report >>= conclude os codec lower e) w
          λ _ _.
            bind-post (IsDone e) (undo_all os codec lower e report) (conclude os codec lower e) _
              λ checked _. conclude-IsDone checked _

    run_loaded-IsDone :
        (done : Bool) (tx : Transaction) (w : World os) (r : RollbackReport)
        → (run_loaded os codec lower e done tx w).0 ≡ ok r
        → IsDone e (run_loaded os codec lower e done tx w).1
    unfolding run_loaded run_rollback refuse
    run_loaded-IsDone true tx w r h = absurd (cc h)
    run_loaded-IsDone false tx w r h =
        bind-post (IsDone e) (get_mutations os e.txid) (run_rollback os codec lower e tx) w
          (λ ms _.
            bind-post (IsDone e) (process os codec lower e tx ms) (reconcile os codec lower e) _
              λ processed _. reconcile-IsDone processed _)
          r h

    run_opened-IsDone :
        (w : World os) (r : RollbackReport)
        → (run_opened os codec lower e w).0 ≡ ok r
        → IsDone e (run_opened os codec lower e w).1
    unfolding run_opened
    run_opened-IsDone w =
        bind-post (IsDone e) (with_context (not_found e.txid) (load_transaction os e.txid))
          (λ tx. run_loaded os codec lower e (is_rolled_back tx.status) tx) w
          λ tx _. run_loaded-IsDone (is_rolled_back tx.status) tx _

    execute-IsDone :
        (w : World os) (r : RollbackReport)
        → (execute os codec lower e w).0 ≡ ok r
        → IsDone e (execute os codec lower e w).1
    unfolding execute
    execute-IsDone w =
        bind-post (IsDone e) (query {os = os} open_database (λ _. tt))
          (λ _. run_opened os codec lower e) w λ _ _. run_opened-IsDone _

  refuse_done :
      (e : RollbackEngine) (tx : Transaction) (w : World os) (r : RollbackReport)
      → tx.status ≡ rolled_back
      → (run_loaded os codec lower e (is_rolled_back tx.status) tx w).0 ≢ ok r
  unfolding run_loaded refuse is_rolled_back
  refuse_done e tx w r done h = ground arith

  run_opened-refused :
      (e : RollbackEngine) (w : World os) (r : RollbackReport)
      → IsDone e w
      → (run_opened os codec lower e w).0 ≢ ok r
  unfolding run_opened
  run_opened-refused e w r done =
      bind-post (λ _. ⊥) (with_context (not_found e.txid) (load_transaction os e.txid))
        (λ tx. run_loaded os codec lower e (is_rolled_back tx.status) tx) w
        (λ tx loaded r' h.
          refuse_done e tx _ r' (done tx (load_transaction-found os e.txid w tx (ground arith))) h)
        r

  refused :
      (e : RollbackEngine) (w : World os) (r : RollbackReport)
      → IsDone e w
      → (execute os codec lower e w).0 ≢ ok r
  unfolding execute
  refused e w r done h = ground (arith, run_opened-refused e w r done)

  -- After a rollback that was no dry run has succeeded, no rollback of the same transaction
  -- succeeds in the world that it left, whatever its settings.
  pub execute_once :
      (e again : RollbackEngine) (w : World os) (r r' : RollbackReport)
      → e.dry_run ≡ false
      → (execute os codec lower e w).0 ≡ ok r
      → again.txid ≡ e.txid
      → (execute os codec lower again (execute os codec lower e w).1).0 ≢ ok r'
  execute_once e again w r r' real h same =
      refused again (execute os codec lower e w).1 r' (rw same (execute-IsDone e real w r h))
