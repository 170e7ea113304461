-- ===== src/Db.antt =====
-- `src/db/mod.rs`: the tables that `init_db` creates, a row type for each and its `UNIQUE`
-- constraint. A timestamp is the RFC 3339 text that is stored.
pub mod Tables
use pkgundo.Prelude.{
  Text, lit, text_eq, Bool, ◌&&◌, ℕ, Option, ◌==◌, any, Result, err, if◌then◌else◌,
}
use pkgundo.System.{Bytes}
use pkgundo.Db.Tables.{Table}

pub record TransactionRow : Type 0 where
  pub command : Text
  pub package_manager : Text
  pub start_time : Text
  pub end_time : Option Text
  pub status : Text
  pub pid_root : Option ℕ
  pub rollback_mode : Text
  pub notes : Option Text

pub record MutationRow : Type 0 where
  pub txid : ℕ
  pub pid : Option ℕ
  pub operation : Text
  pub path : Text
  pub timestamp : Text
  pub file_category : Text
  pub pre_hash : Option Text
  pub post_hash : Option Text

pub record FingerprintRow : Type 0 where
  pub txid : ℕ
  pub path : Text
  pub phase : Text
  pub sha256 : Option Text
  pub size : Option ℕ
  pub uid : Option ℕ
  pub gid : Option ℕ
  pub mode : Option ℕ
  pub mtime : Option ℕ
  pub captured_at : Text
  pub is_symlink : Bool
  pub symlink_target : Option Text

pub record ArchiveRow : Type 0 where
  pub txid : ℕ
  pub original_path : Text
  pub archive_path : Text
  pub modified_after_install : Bool
  pub archived_at : Text

pub record BlobRow : Type 0 where
  pub txid : ℕ
  pub path : Text
  pub phase : Text
  pub content : Bytes
  pub sha256 : Text
  pub size : ℕ
  pub uid : ℕ
  pub gid : ℕ
  pub mode : ℕ
  pub captured_at : Text

pub record ServiceEventRow : Type 0 where
  pub txid : ℕ
  pub service_name : Text
  pub action : Text
  pub pre_state : Option Text
  pub timestamp : Text

pub record UserEventRow : Type 0 where
  pub txid : ℕ
  pub kind : Text
  pub name : Text
  pub pre_state : Option Text
  pub timestamp : Text

pub record TrackedAppRow : Type 0 where
  pub name : Text
  pub kind : Text
  pub package_name : Option Text
  pub resolved_paths : Text
  pub status : Text
  pub txid : ℕ
  pub created_at : Text
  pub untracked_at : Option Text

pub record Db : Type 0 where
  pub transactions : Table TransactionRow
  pub mutations : Table MutationRow
  pub fingerprints : Table FingerprintRow
  pub archives : Table ArchiveRow
  pub file_blobs : Table BlobRow
  pub service_events : Table ServiceEventRow
  pub user_events : Table UserEventRow
  pub tracked_apps : Table TrackedAppRow

abbrev pub has_transaction : ℕ → Db → Bool
has_transaction txid db = any (λ (k, _). k == txid) db.transactions.rows

-- `REFERENCES transactions(txid)`, which the SQLite that rusqlite bundles enforces: the statement is
-- refused unless the transaction is there. As this holds of every row, it does not matter that a row
-- that is there already is found first.
abbrev pub refers : {A : Type 0} → ℕ → Db → Result A × Db → Result A × Db
refers txid db done =
    if has_transaction txid db then done else (err (lit "FOREIGN KEY constraint failed"), db)

-- UNIQUE(txid, operation, path)
unfoldable pub same_mutation : MutationRow → MutationRow → Bool
same_mutation a b = a.txid == b.txid && (text_eq a.operation b.operation && text_eq a.path b.path)

-- UNIQUE(txid, path, phase)
unfoldable pub same_fingerprint : FingerprintRow → FingerprintRow → Bool
same_fingerprint a b = a.txid == b.txid && (text_eq a.path b.path && text_eq a.phase b.phase)

-- UNIQUE(txid, original_path)
unfoldable pub same_archive : ArchiveRow → ArchiveRow → Bool
same_archive a b = a.txid == b.txid && text_eq a.original_path b.original_path

-- UNIQUE(txid, path, phase)
unfoldable pub same_blob : BlobRow → BlobRow → Bool
same_blob a b = a.txid == b.txid && (text_eq a.path b.path && text_eq a.phase b.phase)

-- UNIQUE(txid, service_name, action)
unfoldable pub same_service_event : ServiceEventRow → ServiceEventRow → Bool
same_service_event a b =
    a.txid == b.txid && (text_eq a.service_name b.service_name && text_eq a.action b.action)

-- UNIQUE(txid, kind, name)
unfoldable pub same_user_event : UserEventRow → UserEventRow → Bool
same_user_event a b = a.txid == b.txid && (text_eq a.kind b.kind && text_eq a.name b.name)

-- UNIQUE(name)
unfoldable pub same_tracked_app : TrackedAppRow → TrackedAppRow → Bool
same_tracked_app a b = text_eq a.name b.name
