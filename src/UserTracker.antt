-- ===== src/UserTracker.antt =====
-- `src/user_tracker/mod.rs`: users and groups that a command added, and their removal.
pub mod Diff
pub mod Rollback
mod Tests
use pkgundo.Prelude.{
  Text, lit, text_eq, Bool, true, false, ◌||◌, ◌&&◌, not, ℕ, List, [], ◌∷◌, ◌++◌, map, Option, none,
  some, ◌==◌, Result, ok, err, if◌then◌else◌, starts_with, split_on, any, lines,
}
use pkgundo.System.{Os, Bytes, Statement, insert_user_event, select_user_events}
use pkgundo.Db.{Db, refers, UserEventRow, same_user_event}
use pkgundo.Db.Tables.{insert_or_ignore, select, order_by}
use pkgundo.Exec.{M, query, execute, with_context, attempt, ◌>>=◌, ◌>>◌, inspect, call, pure}

pub data UserEventKind : Type 0 where
  user_added user_removed user_modified group_added group_removed group_modified : UserEventKind

unfoldable pub kind_name : UserEventKind → Text
kind_name user_added = lit "user_added"
kind_name user_removed = lit "user_removed"
kind_name user_modified = lit "user_modified"
kind_name group_added = lit "group_added"
kind_name group_removed = lit "group_removed"
kind_name group_modified = lit "group_modified"

pub kind_of_name : Text → Option UserEventKind
kind_of_name s =
    if text_eq s (lit "user_added")
    then some user_added
    else if text_eq s (lit "user_removed")
    then some user_removed
    else if text_eq s (lit "user_modified")
    then some user_modified
    else if text_eq s (lit "group_added")
    then some group_added
    else if text_eq s (lit "group_removed")
    then some group_removed
    else if text_eq s (lit "group_modified")
    then some group_modified
    else none

pub record UserEvent : Type 0 where
  pub id : Option ℕ
  pub txid : ℕ
  pub kind : UserEventKind
  pub name : Text
  pub pre_state : Option Text
  pub timestamp : Text

pub record UserGroupSnapshot : Type 0 where
  pub passwd_lines : List Text
  pub group_lines : List Text

-- `lines.contains(line)`
pub has_line : List Text → Text → Bool
has_line [] line = false
has_line (l ∷ ls) line = text_eq l line || has_line ls line

first_piece : List Text → Text
first_piece [] = lit "unknown"
first_piece (p ∷ _) = p

-- `line.split(':').next().unwrap_or("unknown")`
pub name_of : Text → Text
name_of line = first_piece (split_on (λ c. c == 0x3a) line)

pub is_entry : Text → Bool
is_entry name = not (text_eq name []) && not (starts_with name (lit "#"))

-- An event for each line of `these` that `those` lacks, if it names something.
changed : (Text → Text → UserEvent) → List Text → List Text → List UserEvent
changed event [] those = []
changed event (line ∷ these) those =
    let rest = changed event these those in
    if not (has_line those line) && is_entry (name_of line)
    then event line (name_of line) ∷ rest
    else rest

module _ (txid : ℕ) (stamp : Text) where
  added : UserEventKind → Text → Text → UserEvent
  added kind line name = record {
    id = none;
    txid = txid;
    kind = kind;
    name = name;
    pre_state = none;
    timestamp = stamp;
  }

  removed : UserEventKind → Text → Text → UserEvent
  removed kind line name = record {
    id = none;
    txid = txid;
    kind = kind;
    name = name;
    pre_state = some line;
    timestamp = stamp;
  }

  -- The clock is read for each event; here all readings are `stamp`.
  pub diff_snapshots : UserGroupSnapshot → UserGroupSnapshot → List UserEvent
  diff_snapshots before after =
      changed (added user_added) after.passwd_lines before.passwd_lines
      ++ (changed (removed user_removed) before.passwd_lines after.passwd_lines
          ++ (changed (added group_added) after.group_lines before.group_lines
              ++ changed (removed group_removed) before.group_lines after.group_lines))

to_row : UserEvent → UserEventRow
to_row e = record {
  txid = e.txid;
  kind = kind_name e.kind;
  name = e.name;
  pre_state = e.pre_state;
  timestamp = e.timestamp;
}

-- A kind that is no known name is taken for `user_modified`.
or_modified : Option UserEventKind → UserEventKind
or_modified none = user_modified
or_modified (some k) = k

from_row : ℕ × UserEventRow → UserEvent
from_row (key, r) = record {
  id = some key;
  txid = r.txid;
  kind = or_modified (kind_of_name r.kind);
  name = r.name;
  pre_state = r.pre_state;
  timestamp = r.timestamp;
}

pub user_events_of : ℕ → Db → List UserEvent
user_events_of txid db =
    map from_row (order_by (λ r. r.timestamp) (select (λ _ r. r.txid == txid) db.user_events))

insert_event_row : UserEventRow → Db → Result (Unit {0}) × Db
insert_event_row r db =
    refers r.txid db
      (ok tt, record db { user_events = insert_or_ignore same_user_event r db.user_events })

read_text : (Bytes → Result Text) → Result Bytes → Result Text
read_text f (ok b) = f b
read_text f (err e) = err e

module _ (os : Os) where
  -- `decode` makes text of a file that is UTF-8, as `fs::read_to_string` does.
  pub capture : (Bytes → Result Text) → M os UserGroupSnapshot
  capture decode = do
    passwd ←
        with_context (lit "Failed to read /etc/passwd")
          (inspect (λ s. read_text decode (os.read s (lit "/etc/passwd"))))
    group ←
        with_context (lit "Failed to read /etc/group")
          (inspect (λ s. read_text decode (os.read s (lit "/etc/group"))))
    pure (record { passwd_lines = lines passwd; group_lines = lines group })

  pub record_user_events : List UserEvent → M os (Unit {0})
  record_user_events [] = pure tt
  record_user_events (e ∷ events) = do
    execute insert_user_event (insert_event_row (to_row e))
    record_user_events events

  pub get_user_events : ℕ → M os (List UserEvent)
  get_user_events txid = query select_user_events (user_events_of txid)

  listed : Result Bool → Text → List Text → List Text
  listed (ok true) text reversed = reversed ++ text ∷ []
  listed _ text reversed = reversed

  remove_by : Bool → Text → List Text → Text → List Text → M os (List Text)
  remove_by true bin args text reversed = pure (reversed ++ (lit "[dry-run] " ++ text) ∷ [])
  remove_by false bin args text reversed = do
    result ← attempt (call (os.command bin args))
    pure (listed result text reversed)

  -- Only additions are undone.
  undo_event : Bool → UserEventKind → Text → List Text → M os (List Text)
  undo_event dry_run user_added name reversed =
      remove_by dry_run (lit "userdel") (lit "--remove" ∷ name ∷ [])
        (lit "userdel --remove " ++ name) reversed
  undo_event dry_run group_added name reversed =
      remove_by dry_run (lit "groupdel") (name ∷ []) (lit "groupdel " ++ name) reversed
  undo_event dry_run _ name reversed = pure reversed

  undo_events : Bool → List UserEvent → List Text → M os (List Text)
  undo_events dry_run [] reversed = pure reversed
  undo_events dry_run (e ∷ events) reversed = do
    reversed' ← undo_event dry_run e.kind e.name reversed
    undo_events dry_run events reversed'

  pub rollback_user_events : ℕ → Bool → M os (List Text)
  rollback_user_events txid dry_run = do
    events ← get_user_events txid
    undo_events dry_run events []
