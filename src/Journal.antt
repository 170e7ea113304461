-- ===== src/Journal.antt =====
-- `src/journal/mod.rs`: the journal of mutations.
pub mod Dedup
pub mod Persist
mod Tests
use pkgundo.Prelude.{
  Text, lit, text_eq, Bool, ℕ, List, [], ◌∷◌, map, Option, none, some, length, filter, ◌==◌, ◌||◌,
  Result, ok, err,
}
use pkgundo.System.{Os, Statement, insert_mutation, select_mutations}
use pkgundo.Db.{Db, refers, MutationRow, same_mutation}
use pkgundo.Db.Tables.{insert, select, order_by}
use pkgundo.Exec.{M, query, execute, with_context}

pub record MutationRecord : Type 0 where
  pub id : Option ℕ
  pub txid : ℕ
  pub pid : Option ℕ
  pub operation : Text
  pub path : Text
  pub timestamp : Text
  pub file_category : Text
  pub pre_hash : Option Text
  pub post_hash : Option Text

-- A message to the task that writes the journal; the answer to a `flush` goes to the number of its
-- channel.
pub data JournalMessage : Type 0 where
  record_message : MutationRecord → JournalMessage
  flush : ℕ → JournalMessage

-- The parameters of the `INSERT`.
abbrev pub to_row : MutationRecord → MutationRow
to_row m = record {
  txid = m.txid;
  pid = m.pid;
  operation = m.operation;
  path = m.path;
  timestamp = m.timestamp;
  file_category = m.file_category;
  pre_hash = m.pre_hash;
  post_hash = m.post_hash;
}

abbrev pub from_row : ℕ × MutationRow → MutationRecord
from_row (key, r) = record {
  id = some key;
  txid = r.txid;
  pid = r.pid;
  operation = r.operation;
  path = r.path;
  timestamp = r.timestamp;
  file_category = r.file_category;
  pre_hash = r.pre_hash;
  post_hash = r.post_hash;
}

abbrev insert_row : MutationRow → Db → Result ℕ × Db
insert_row r db =
    refers r.txid db
      (let (key, t) = insert same_mutation r db.mutations in (key, record db { mutations = t }))

abbrev pub mutations_of : ℕ → Db → List MutationRecord
mutations_of txid db =
    map from_row (order_by (λ r. r.timestamp) (select (λ _ r. r.txid == txid) db.mutations))

module _ (os : Os) where
  unfoldable pub append_mutation : MutationRecord → M os ℕ
  append_mutation m =
      with_context (lit "Failed to append mutation record")
        (execute insert_mutation (insert_row (to_row m)))

  unfoldable pub get_mutations : ℕ → M os (List MutationRecord)
  get_mutations txid = query select_mutations (mutations_of txid)

pub record MutationSummary : Type 0 where
  pub created : ℕ
  pub modified : ℕ
  pub deleted : ℕ
  pub renamed : ℕ
  pub total : ℕ

count_of : (Text → Bool) → List MutationRecord → ℕ
count_of test ms = length (filter (λ m. test m.operation) ms)

is_rename : Text → Bool
is_rename op =
    text_eq op (lit "rename_to") || text_eq op (lit "rename_from") || text_eq op (lit "rename")

pub summarize_mutations : List MutationRecord → MutationSummary
summarize_mutations ms = record {
  created = count_of (λ op. text_eq op (lit "create")) ms;
  modified = count_of (λ op. text_eq op (lit "modify")) ms;
  deleted = count_of (λ op. text_eq op (lit "delete")) ms;
  renamed = count_of is_rename ms;
  total = length ms;
}
