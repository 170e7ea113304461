-- ===== src/Rollback/Engine.antt =====
-- `RollbackEngine::execute` of `src/rollback/mod.rs`: the steps A to G of a rollback. What it
-- prints is not modelled.
pub mod Accounting
pub mod DryRun
pub mod Once
pub mod Success
use pkgundo.Prelude.{
  Text, lit, text_eq, Bool, true, false, ◌||◌, ◌&&◌, not, ℕ, List, [], ◌∷◌, ◌++◌, map, Option, none,
  some, Result, ok, err, if◌then◌else◌, decimal,
}
use pkgundo.System.{Os, Statement, open_database}
use pkgundo.Db.{Db}
use pkgundo.Exec.{M, query, with_context, attempt, ◌>>=◌, ◌>>◌, ask, call, pure, fail}
use pkgundo.Paths.{join}
use pkgundo.Classifier.{classify_path}
use pkgundo.Transaction.{
  PackageManager, pacman, apt, dnf, rpm, dpkg, pip, script, unknown, Transaction, TransactionStatus,
  rolled_back, extract_package_name, load_transaction, update_transaction_status, not_found,
}
use pkgundo.Journal.{MutationRecord, get_mutations}
use pkgundo.Archive.{Codec}
use pkgundo.ServiceTracker.{rollback_service_events}
use pkgundo.UserTracker.{rollback_user_events}
use pkgundo.Rollback.{
  RollbackMode, conservative, clean, nuclear, RollbackEngine, RollbackReport, new_report,
  add_result, add_skipped, mutation_passes_group_filter,
}
use pkgundo.Rollback.Files.{process_mutation}
use pkgundo.Rollback.Cleanup.{cleanup_empty_ancestor_dirs}

-- The program and its arguments, for the package managers that are called.
pub remove_command : PackageManager → Text → Option (Text × List Text)
remove_command pacman name = some (lit "pacman", lit "-Rcns" ∷ lit "--noconfirm" ∷ name ∷ [])
remove_command apt name = some (lit "apt-get", lit "purge" ∷ lit "-y" ∷ name ∷ [])
remove_command dnf name = some (lit "dnf", lit "remove" ∷ lit "-y" ∷ name ∷ [])
remove_command rpm name = some (lit "rpm", lit "-e" ∷ name ∷ [])
remove_command dpkg name = some (lit "dpkg", lit "--purge" ∷ name ∷ [])
remove_command _ name = none

pub is_rolled_back : TransactionStatus → Bool
is_rolled_back rolled_back = true
is_rolled_back _ = false

by_manager : PackageManager → Option Text → Option Text
by_manager script name = none
by_manager unknown name = none
by_manager _ name = name

-- The package that is to be removed, where a package manager made the transaction.
pub package_to_remove : Transaction → Option Text
package_to_remove tx = by_manager tx.package_manager (extract_package_name tx)

-- The list, if the step succeeded; its error is logged.
or_empty : Result (List Text) → List Text
or_empty (ok l) = l
or_empty (err e) = []

abbrev check_dirs : List Text
check_dirs = lit "/usr/bin" ∷ lit "/usr/lib" ∷ lit "/etc" ∷ []

module _ (os : Os) (codec : Codec) (lower : Text → Text) (e : RollbackEngine) where
  run_command : Option (Text × List Text) → RollbackReport → M os RollbackReport
  run_command none report = pure report
  run_command (some (bin, args)) report = do
    success ←
        with_context (lit "Failed to run " ++ bin ++ lit " for package removal")
          (call (os.command bin args))
    pure (record report { pm_removal_succeeded = success })

  -- Step C
  delegate : Bool → Option Text → PackageManager → RollbackReport → M os RollbackReport
  delegate dry none pm report = pure report
  delegate true (some name) pm report = pure report
  delegate false (some name) pm report = run_command (remove_command pm name) report

  process_one : MutationRecord → RollbackReport → M os RollbackReport
  process_one m report = do
    link ← ask (λ s. os.is_symlink s m.path)
    result ← attempt (process_mutation os codec e m.path m.operation (classify_path link m.path))
    pure (add_result m.path result report)

  process_filtered : Bool → MutationRecord → RollbackReport → M os RollbackReport
  process_filtered true m report = process_one m report
  process_filtered false m report = pure (add_skipped m.path report)

  -- Step E
  pub process_all : List MutationRecord → RollbackReport → M os RollbackReport
  process_all [] report = pure report
  process_all (m ∷ ms) report = do
    report' ←
        process_filtered (mutation_passes_group_filter lower m.path e.selected_groups) m report
    process_all ms report'

  clean_up : Bool → RollbackReport → M os (Unit {0})
  clean_up false report = pure tt
  clean_up true report = cleanup_empty_ancestor_dirs os (report.removed ++ report.archived)

  -- Step F
  undo_services : RollbackReport → M os RollbackReport
  undo_services report = do
    reversed ← attempt (rollback_service_events os e.txid e.dry_run)
    pure (record report { service_reversals = or_empty reversed })

  undo_users : RollbackMode → RollbackReport → M os RollbackReport
  undo_users conservative report = pure report
  undo_users _ report = do
    reversed ← attempt (rollback_user_events os e.txid e.dry_run)
    pure (record report { user_reversals = or_empty reversed })

  broken_in : os.State → Text → List Text → List Text
  broken_in s dir [] = []
  broken_in s dir (name ∷ names) =
      let path = join dir name in
      let rest = broken_in s dir names in
      if os.is_symlink s path && not (os.exists s path)
      then (lit "Broken symlink: " ++ path) ∷ rest
      else rest

  issues_in : os.State → Text → List Text
  issues_in s dir = if os.exists s dir then broken_in s dir (or_empty (os.read_dir s dir)) else []

  all_issues : os.State → List Text → List Text
  all_issues s [] = []
  all_issues s (dir ∷ dirs) = issues_in s dir ++ all_issues s dirs

  -- Step G
  integrity_check : RollbackReport → M os RollbackReport
  integrity_check report = do
    issues ← ask (λ s. all_issues s check_dirs)
    pure (record report { integrity_issues = issues })

  finish : Bool → M os (Unit {0})
  finish true = pure tt
  finish false = update_transaction_status os e.txid rolled_back none

  conclude : RollbackReport → M os RollbackReport
  conclude checked = do finish e.dry_run; pure (record checked { success = true })

  -- Steps F and G.
  undo_all : RollbackReport → M os RollbackReport
  undo_all processed = do
    served ← undo_services processed
    undone ← undo_users e.mode served
    integrity_check undone

  -- The steps after the mutations are processed.
  reconcile : RollbackReport → M os RollbackReport
  reconcile processed = do
    clean_up (e.home_cleanup && not e.dry_run) processed
    checked ← undo_all processed
    conclude checked

  start_report : Transaction → RollbackReport
  start_report tx = record (new_report e.txid) { command = tx.command }

  -- Steps B to E.
  process : Transaction → List MutationRecord → M os RollbackReport
  process tx mutations = do
    delegated ← delegate e.dry_run (package_to_remove tx) tx.package_manager (start_report tx)
    process_all mutations delegated

  pub run_rollback : Transaction → List MutationRecord → M os RollbackReport
  run_rollback tx mutations = do processed ← process tx mutations; reconcile processed

  pub refuse : M os RollbackReport
  refuse = fail (lit "Transaction " ++ decimal e.txid ++ lit " has already been rolled back.")

  run_loaded : Bool → Transaction → M os RollbackReport
  run_loaded true tx = refuse
  run_loaded false tx = do mutations ← get_mutations os e.txid; run_rollback tx mutations

  run_opened : M os RollbackReport
  run_opened = do
    tx ← with_context (not_found e.txid) (load_transaction os e.txid)
    run_loaded (is_rolled_back tx.status) tx

  pub execute : M os RollbackReport
  execute = do query open_database (λ _. tt); run_opened
