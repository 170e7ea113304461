-- ===== src/UserTracker/Rollback.antt =====
-- What `rollback_user_events` plans, and which commands it may run.
use pkgundo.Prelude.{
  Text, lit, true, ℕ, List, [], ◌∷◌, ◌++◌, none, ok, ◌≡◌, refl, ap, arith, inl, inr, Option-cases,
}
use mathlib.Core.List.{append-nil, append_assoc}
use pkgundo.System.{Os, select_user_events}
use pkgundo.Exec.{World}
use pkgundo.UserTracker.{
  UserEventKind, user_added, group_added, UserEvent, undo_event, remove_by, undo_events,
  get_user_events, user_events_of, rollback_user_events,
}

-- The command that undoes an event of this kind.
pub undo_text : UserEventKind → Text → List Text
undo_text user_added name = (lit "[dry-run] " ++ lit "userdel --remove " ++ name) ∷ []
undo_text group_added name = (lit "[dry-run] " ++ lit "groupdel " ++ name) ∷ []
undo_text _ name = []

pub plan : List UserEvent → List Text
plan [] = []
plan (e ∷ events) = undo_text e.kind e.name ++ plan events

module _ (os : Os) where
  undo_event-dry :
      (k : UserEventKind) (name : Text) (reversed : List Text) (w : World os)
      → undo_event os true k name reversed w ≡ (ok (reversed ++ undo_text k name), w)
  unfolding undo_event undo_text remove_by lit
  undo_event-dry user_added name reversed w = refl
  undo_event-dry group_added name reversed w = refl
  undo_event-dry k name reversed w = rw append-nil refl

  undo_events-dry :
      (events : List UserEvent) (reversed : List Text) (w : World os)
      → undo_events os true events reversed w ≡ (ok (reversed ++ plan events), w)
  unfolding undo_events plan
  undo_events-dry [] reversed w = rw append-nil refl
  undo_events-dry (e ∷ events) reversed w = ground (
    arith,
    undo_event-dry e.kind e.name reversed w,
    undo_events-dry events (reversed ++ undo_text e.kind e.name) w,
    append_assoc reversed (undo_text e.kind e.name) (plan events),
  )

  -- A dry run changes nothing, and lists the removal of each added user and group, in order, and
  -- nothing for any other event.
  pub rollback_user_events-dry :
      (txid : ℕ) (w : World os)
      → os.sql_fault w.state select_user_events ≡ none
      → rollback_user_events os txid true w ≡ (ok (plan (user_events_of txid w.db)), w)
  unfolding rollback_user_events get_user_events
  rollback_user_events-dry txid w fine =
      ground (arith, undo_events-dry (user_events_of txid w.db) [] w)

  -- A dry run changes nothing, also where the events cannot be read.
  pub rollback_user_events_same :
      (txid : ℕ) (w : World os) → (rollback_user_events os txid true w).1 ≡ w
  unfolding rollback_user_events get_user_events
  rollback_user_events_same txid w = elim (Option-cases (os.sql_fault w.state select_user_events)) [
    | inl fine ↦ ap (λ r. r.1) (rollback_user_events-dry txid w fine)
    | inr (e, refused) ↦ ground arith
  ]
