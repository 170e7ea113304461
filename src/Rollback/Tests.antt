-- ===== src/Rollback/Tests.antt =====
-- Rollbacks of one transaction.
use pkgundo.Prelude.{Text, lit, true, false, [], ◌∷◌, none, ok, ◌≡◌, ◌≢◌, refl, ◌+◌, length}
use pkgundo.System.Memory.{memory, Files}
use pkgundo.Paths.{PathBuf, root_dir, normal}
use pkgundo.Transaction.{running, rolled_back}
use pkgundo.Transaction.Tests.{one_transaction, one_found}
use pkgundo.Archive.Tests.{plain_codec, a_world, a_path}
use pkgundo.Journal.{MutationRecord}
use pkgundo.Rollback.{new_engine, clean, nuclear, RollbackReport, new_report}
use pkgundo.Rollback.Engine.{execute, process_all}
use pkgundo.Rollback.Engine.DryRun.{execute-dry}
use pkgundo.Rollback.Engine.Once.{execute_once}
use pkgundo.Rollback.Engine.Success.{execute_returns}
use pkgundo.Rollback.Engine.Accounting.{process_all_total, entries}
use pkgundo.Rollback.Cleanup.{cleanup_empty_ancestor_dirs}
use pkgundo.Rollback.Cleanup.Safety.{cleanup_empty_ancestor_dirs-keeps}

abbrev same_case : Text → Text
same_case s = s

execute-dry_example :
    (execute memory plain_codec same_case (new_engine 1 nuclear true) a_world).1 ≡ a_world
unfolding new_engine
execute-dry_example =
    execute-dry memory plain_codec same_case (new_engine 1 nuclear true) refl a_world

is_fresh : running ≢ rolled_back
is_fresh h = absurd (cc h)

execute_returns_example :
    (r : RollbackReport) × ((execute memory plain_codec same_case
        (new_engine 1 clean false)
        a_world).0
      ≡ ok r)
unfolding new_engine
execute_returns_example =
    execute_returns memory plain_codec same_case (new_engine 1 clean false) (λ s statement. refl)
      (λ bin args s. (true, refl)) one_transaction a_world one_found is_fresh

done_once :
    (r : RollbackReport) × ((execute memory plain_codec same_case
        (new_engine 1 clean false)
        a_world).0
      ≡ ok r)
unfolding new_engine
done_once =
    execute_returns memory plain_codec same_case (new_engine 1 clean false) (λ s statement. refl)
      (λ bin args s. (true, refl)) one_transaction a_world one_found is_fresh

execute_once_example :
    (execute memory plain_codec same_case
      (new_engine 1 nuclear true)
      (execute memory plain_codec same_case (new_engine 1 clean false) a_world).1).0
    ≢ ok (new_report 1)
unfolding new_engine
execute_once_example =
    execute_once memory plain_codec same_case (new_engine 1 clean false) (new_engine 1 nuclear true)
      a_world done_once.0 (new_report 1) refl done_once.1 refl

abbrev one_mutation : MutationRecord
one_mutation = record {
  id = none;
  txid = 1;
  pid = none;
  operation = lit "create";
  path = a_path;
  timestamp = lit "2024-01-01T00:00:00+00:00";
  file_category = lit "Unknown";
  pre_hash = none;
  post_hash = none;
}

process_all_total_example :
    (r : RollbackReport) × ((process_all memory plain_codec same_case
        (new_engine 1 clean false)
        (one_mutation ∷ one_mutation ∷ [])
        (new_report 1)
        a_world).0
      ≡ ok r)
    × (entries r ≡ entries (new_report 1) + 2)
process_all_total_example =
    process_all_total memory plain_codec same_case (new_engine 1 clean false)
      (one_mutation ∷ one_mutation ∷ []) (new_report 1) a_world

abbrev a_home : PathBuf
a_home = root_dir ∷ normal (lit "root") ∷ []

abbrev a_dir : PathBuf
a_dir = root_dir ∷ normal (lit "root") ∷ normal (lit ".cache") ∷ []

abbrev OneFile : Files → Type 0
OneFile files = length files ≡ 1

cleanup_empty_ancestor_dirs-keeps_example :
    OneFile (cleanup_empty_ancestor_dirs memory (a_path ∷ []) a_world).1.state
cleanup_empty_ancestor_dirs-keeps_example =
    cleanup_empty_ancestor_dirs-keeps memory OneFile (a_path ∷ []) a_world
      (λ start home dir s _ _ _ _ h. h) refl
