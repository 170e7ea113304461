-- ===== src/Rollback/Engine/Accounting.antt =====
-- The report of a rollback has one entry for each mutation.
use pkgundo.Prelude.{
  Text, lit, Bool, true, false, ℕ, ◌+◌, List, [], ◌∷◌, ◌++◌, Result, ok, err, ◌≡◌, refl, arith,
  length, length-append,
}
use pkgundo.System.{Os}
use pkgundo.Exec.{World}
use pkgundo.Journal.{MutationRecord}
use pkgundo.Archive.{Codec}
use pkgundo.Classifier.{classify_path}
use pkgundo.Rollback.{
  RollbackEngine, RollbackReport, FileRollbackResult, removed, archived, restored, skipped, failed,
  add_result, add_skipped, mutation_passes_group_filter,
}
use pkgundo.Rollback.Files.{process_mutation}
use pkgundo.Rollback.Engine.{process_one, process_filtered, process_all}

-- How many mutations the report accounts for.
pub entries : RollbackReport → ℕ
entries r =
    length r.removed + length r.archived + length r.restored + length r.skipped + length r.failed

entries-add_result :
    (path : Text) (result : Result FileRollbackResult) (r : RollbackReport)
    → entries (add_result path result r) ≡ entries r + 1
unfolding entries add_result
entries-add_result path (ok (removed p)) r = omega (arith, length-append {0} r.removed (p ∷ []))
entries-add_result path (ok (archived p)) r = omega (arith, length-append {0} r.archived (p ∷ []))
entries-add_result path (ok (restored p)) r = omega (arith, length-append {0} r.restored (p ∷ []))
entries-add_result path (ok (skipped p)) r = omega (arith, length-append {0} r.skipped (p ∷ []))
entries-add_result path (ok (failed p reason)) r =
    omega (arith, length-append {0} r.failed ((p, reason) ∷ []))
entries-add_result path (err e) r =
    omega (arith, length-append {0} r.failed ((path, lit "Error: " ++ e) ∷ []))

entries-add_skipped :
    (path : Text) (r : RollbackReport) → entries (add_skipped path r) ≡ entries r + 1
unfolding entries add_skipped
entries-add_skipped path r = omega (arith, length-append {0} r.skipped (path ∷ []))

module _ (os : Os) (codec : Codec) (lower : Text → Text) (e : RollbackEngine) where
  process_filtered-total :
      (b : Bool) (m : MutationRecord) (report : RollbackReport) (w : World os)
      → (r : RollbackReport) × ((process_filtered os codec lower e b m report w).0 ≡ ok r)
        × (entries r ≡ entries report + 1)
  unfolding process_filtered process_one
  process_filtered-total true m report w =
      let result =
        (process_mutation os codec e m.path m.operation
          (classify_path (os.is_symlink w.state m.path) m.path) w).0 in
      (add_result m.path result report, refl, entries-add_result m.path result report)
  process_filtered-total false m report w =
      (add_skipped m.path report, refl, entries-add_skipped m.path report)

  -- Processing the mutations always returns a report, which has as many new entries, in one or
  -- another of its lists, as there are mutations.
  pub process_all_total :
      (ms : List MutationRecord) (report : RollbackReport) (w : World os)
      → (r : RollbackReport) × ((process_all os codec lower e ms report w).0 ≡ ok r)
        × (entries r ≡ entries report + length ms)
  unfolding process_all
  process_all_total [] report w = (report, refl, omega arith)
  process_all_total (m ∷ ms) report w =
      let passes = mutation_passes_group_filter lower m.path e.selected_groups in
      let (r₁, e₁, n₁) = process_filtered-total passes m report w in
      let (r₂, e₂, n₂) =
        process_all_total ms r₁ (process_filtered os codec lower e passes m report w).1 in
      (r₂, ground arith, omega arith)
