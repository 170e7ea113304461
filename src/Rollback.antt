-- ===== src/Rollback.antt =====
-- `src/rollback/mod.rs`: the rollback engine's settings, its report and its group filter. The
-- handlers of single files, the clean-up of directories and the whole run are in `Files`,
-- `Cleanup` and `Engine`.
pub mod Files
pub mod Cleanup
pub mod Engine
mod Tests
use pkgundo.Prelude.{
  Text, lit, text_eq, Bool, true, false, ◌||◌, ◌&&◌, not, ℕ, List, [], ◌∷◌, ◌++◌, Option, none,
  some, any, Result, ok, err, if◌then◌else◌,
}
use pkgundo.Paths.{PathBuf, path_eq}
use pkgundo.Review.{group_key_for_path}

pub data RollbackMode : Type 0 where
  conservative clean nuclear : RollbackMode

-- `RollbackMode::from_str`; `lower` is `str::to_lowercase`.
pub mode_of_name : (Text → Text) → Text → RollbackMode
mode_of_name lower s =
    if text_eq (lower s) (lit "clean")
    then clean
    else if text_eq (lower s) (lit "nuclear")
    then nuclear
    else conservative

pub data FileRollbackResult : Type 0 where
  removed archived restored skipped : Text → FileRollbackResult
  failed : Text → Text → FileRollbackResult

pub record RollbackEngine : Type 0 where
  pub txid : ℕ
  pub mode : RollbackMode
  pub dry_run : Bool
  pub archive_root : Option Text
  pub home_cleanup : Bool
  pub selected_groups : Option (List PathBuf)

-- `RollbackEngine::new`
unfoldable pub new_engine : ℕ → RollbackMode → Bool → RollbackEngine
new_engine txid mode dry_run = record {
  txid = txid;
  mode = mode;
  dry_run = dry_run;
  archive_root = none;
  home_cleanup = false;
  selected_groups = none;
}

pub record RollbackReport : Type 0 where
  pub txid : ℕ
  pub command : Text
  pub success : Bool
  pub pm_removal_succeeded : Bool
  pub removed : List Text
  pub archived : List Text
  pub restored : List Text
  pub skipped : List Text
  pub failed : List (Text × Text)
  pub integrity_issues : List Text
  pub service_reversals : List Text
  pub user_reversals : List Text

-- `RollbackReport::new`
unfoldable pub new_report : ℕ → RollbackReport
new_report txid = record {
  txid = txid;
  command = [];
  success = false;
  pm_removal_succeeded = false;
  removed = [];
  archived = [];
  restored = [];
  skipped = [];
  failed = [];
  integrity_issues = [];
  service_reversals = [];
  user_reversals = [];
}

unfoldable pub add_skipped : Text → RollbackReport → RollbackReport
add_skipped p r = record r { skipped = r.skipped ++ p ∷ [] }

-- One entry for the result of a mutation, in the list that it belongs to.
unfoldable pub add_result : Text → Result FileRollbackResult → RollbackReport → RollbackReport
unfolding add_skipped
add_result path (ok (removed p)) r = record r { removed = r.removed ++ p ∷ [] }
add_result path (ok (archived p)) r = record r { archived = r.archived ++ p ∷ [] }
add_result path (ok (restored p)) r = record r { restored = r.restored ++ p ∷ [] }
add_result path (ok (skipped p)) r = add_skipped p r
add_result path (ok (failed p reason)) r = record r { failed = r.failed ++ (p, reason) ∷ [] }
add_result path (err e) r = record r { failed = r.failed ++ (path, lit "Error: " ++ e) ∷ [] }

-- `selected.contains(&key)`
unfoldable pub has_key : List PathBuf → PathBuf → Bool
has_key keys k = any (λ j. path_eq j k) keys

key_selected : List PathBuf → Option PathBuf → Bool
key_selected keys none = true
key_selected keys (some k) = has_key keys k

unfoldable pub mutation_passes_group_filter : (Text → Text) → Text → Option (List PathBuf) → Bool
unfolding key_selected
mutation_passes_group_filter lower path none = true
mutation_passes_group_filter lower path (some keys) =
    key_selected keys (group_key_for_path lower path)
