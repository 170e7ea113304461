-- ===== src/ServiceTracker.antt =====
-- `src/service_tracker/mod.rs`: the `systemctl` calls of a command, and their reversal.
pub mod Inverse
pub mod Parsing
pub mod Rollback
mod Tests
use pkgundo.Prelude.{
  Text, lit, text_eq, Bool, true, false, ◌||◌, ◌&&◌, not, ℕ, List, [], ◌∷◌, ◌++◌, map, reverse,
  Option, none, some, ◌==◌, Result, ok, err, if◌then◌else◌, starts_with, split_on, non_empty, drop,
  filter,
}
use pkgundo.System.{Os, Bytes, Statement, insert_service_event, select_service_events}
use pkgundo.Db.{Db, refers, ServiceEventRow, same_service_event}
use pkgundo.Db.Tables.{insert_or_ignore, select, order_by}
use pkgundo.Exec.{
  M, query, execute, with_context, attempt, ◌>>=◌, ◌>>◌, now, ask, inspect, call, pure,
}
use pkgundo.Transaction.{program_name}

pub data ServiceAction : Type 0 where
  enable disable start stop restart reload daemon_reload : ServiceAction

unfoldable pub action_name : ServiceAction → Text
action_name enable = lit "enable"
action_name disable = lit "disable"
action_name start = lit "start"
action_name stop = lit "stop"
action_name restart = lit "restart"
action_name reload = lit "reload"
action_name daemon_reload = lit "daemon-reload"

pub action_of_name : Text → Option ServiceAction
action_of_name s =
    if text_eq s (lit "enable")
    then some enable
    else if text_eq s (lit "disable")
    then some disable
    else if text_eq s (lit "start")
    then some start
    else if text_eq s (lit "stop")
    then some stop
    else if text_eq s (lit "restart")
    then some restart
    else if text_eq s (lit "reload")
    then some reload
    else if text_eq s (lit "daemon-reload")
    then some daemon_reload
    else none

unfoldable pub inverse : ServiceAction → Option ServiceAction
inverse enable = some disable
inverse disable = some enable
inverse start = some stop
inverse _ = none

pub record ServiceEvent : Type 0 where
  pub id : Option ℕ
  pub txid : ℕ
  pub service_name : Text
  pub action : ServiceAction
  pub pre_state : Option Text
  pub timestamp : Text

abbrev is_flag : Text → Bool
is_flag arg = starts_with arg (lit "-")

-- `iter().find(|a| !a.starts_with('-'))`
first_verb : List Text → Option Text
first_verb [] = none
first_verb (a ∷ rest) = let more = first_verb rest in if is_flag a then more else some a

-- What follows the first argument equal to `verb`.
after_verb : Text → List Text → List Text
after_verb verb [] = []
after_verb verb (a ∷ rest) =
    let more = after_verb verb rest in if text_eq a verb then rest else more

services_after : Text → List Text → List Text
services_after verb args = filter (λ a. not (is_flag a)) (after_verb verb args)

with_services : List Text → Option ServiceAction → Option (ServiceAction × List Text)
with_services services none = none
with_services services (some action) = some (action, services)

by_verb : Option Text → List Text → Option (ServiceAction × List Text)
by_verb none args = none
by_verb (some verb) args = with_services (services_after verb args) (action_of_name verb)

-- The arguments of a command line, of which the first is the program.
pub parse_args : List Text → Option (ServiceAction × List Text)
parse_args [] = none
parse_args (bin ∷ args) =
    if not (text_eq (program_name bin) (lit "systemctl"))
    then none
    else by_verb (first_verb args) args

-- `from_utf8_lossy` is the argument `decode`.
pub parse_cmdline_for_systemctl : (Bytes → Text) → Bytes → Option (ServiceAction × List Text)
parse_cmdline_for_systemctl decode raw =
    parse_args (map decode (non_empty (split_on (λ b. b == 0) raw)))

pub to_row : ServiceEvent → ServiceEventRow
to_row e = record {
  txid = e.txid;
  service_name = e.service_name;
  action = action_name e.action;
  pre_state = e.pre_state;
  timestamp = e.timestamp;
}

-- An action that is no known name is taken for `reload`.
or_reload : Option ServiceAction → ServiceAction
or_reload none = reload
or_reload (some a) = a

pub from_row : ℕ × ServiceEventRow → ServiceEvent
from_row (key, r) = record {
  id = some key;
  txid = r.txid;
  service_name = r.service_name;
  action = or_reload (action_of_name r.action);
  pre_state = r.pre_state;
  timestamp = r.timestamp;
}

pub service_events_of : ℕ → Db → List ServiceEvent
service_events_of txid db =
    map from_row (order_by (λ r. r.timestamp) (select (λ _ r. r.txid == txid) db.service_events))

insert_event_row : ServiceEventRow → Db → Result (Unit {0}) × Db
insert_event_row r db =
    refers r.txid db (
      ok tt,
      record db { service_events = insert_or_ignore same_service_event r db.service_events },
    )

-- The state that an action is taken to have changed.
pub pre_state_of : ServiceAction → Option Text
pre_state_of enable = some (lit "disabled")
pre_state_of disable = some (lit "enabled")
pre_state_of start = some (lit "inactive")
pre_state_of stop = some (lit "active")
pre_state_of _ = none

module _ (os : Os) where
  pub record_service_event : ServiceEvent → M os (Unit {0})
  record_service_event e =
      with_context (lit "Failed to record service event")
        (execute insert_service_event (insert_event_row (to_row e)))

  pub get_service_events : ℕ → M os (List ServiceEvent)
  get_service_events txid = query select_service_events (service_events_of txid)

  record_services : ℕ → ServiceAction → List Text → M os (Unit {0})
  record_services txid action [] = pure tt
  record_services txid action (service ∷ services) = do
    timestamp ← now
    attempt (
        record_service_event (record {
          id = none;
          txid = txid;
          service_name = service;
          action = action;
          pre_state = pre_state_of action;
          timestamp = timestamp;
        }))
    record_services txid action services

  record_parsed : ℕ → Option (ServiceAction × List Text) → M os (Unit {0})
  record_parsed txid none = pure tt
  record_parsed txid (some (action, services)) = record_services txid action services

  -- The command lines are those that `read_cmdline` gives for the process ids, `none` for a
  -- process that is gone.
  pub detect_service_changes : (Bytes → Text) → ℕ → List (Option Bytes) → M os (Unit {0})
  detect_service_changes decode txid [] = pure tt
  detect_service_changes decode txid (none ∷ raws) = detect_service_changes decode txid raws
  detect_service_changes decode txid (some raw ∷ raws) = do
    record_parsed txid (parse_cmdline_for_systemctl decode raw)
    detect_service_changes decode txid raws

  reversal_text : ServiceAction → Text → Text
  reversal_text action service = lit "systemctl " ++ action_name action ++ lit " " ++ service

  -- A call that fails, or exits without success, is logged and not listed.
  listed : Result Bool → Text → List Text → List Text
  listed (ok true) text reversed = reversed ++ text ∷ []
  listed _ text reversed = reversed

  reverse_by : Bool → Option ServiceAction → Text → List Text → M os (List Text)
  reverse_by dry_run none service reversed = pure reversed
  reverse_by true (some action) service reversed =
      pure (reversed ++ (lit "[dry-run] " ++ reversal_text action service) ∷ [])
  reverse_by false (some action) service reversed = do
    result ← attempt (call (os.command (lit "systemctl") (action_name action ∷ service ∷ [])))
    pure (listed result (reversal_text action service) reversed)

  pub reverse_events : Bool → List ServiceEvent → List Text → M os (List Text)
  reverse_events dry_run [] reversed = pure reversed
  reverse_events dry_run (e ∷ events) reversed = do
    reversed' ← reverse_by dry_run (inverse e.action) e.service_name reversed
    reverse_events dry_run events reversed'

  -- Units are read again if anything was reversed.
  daemon_reload_after : Bool → List Text → M os (Unit {0})
  daemon_reload_after dry_run [] = pure tt
  daemon_reload_after true (_ ∷ _) = pure tt
  daemon_reload_after false (_ ∷ _) = do
    attempt (call (os.command (lit "systemctl") (lit "daemon-reload" ∷ [])))
    pure tt

  pub rollback_service_events : ℕ → Bool → M os (List Text)
  rollback_service_events txid dry_run = do
    events ← get_service_events txid
    reversed ← reverse_events dry_run (reverse events) []
    daemon_reload_after dry_run reversed
    pure reversed
