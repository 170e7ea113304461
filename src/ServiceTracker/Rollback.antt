-- ===== src/ServiceTracker/Rollback.antt =====
-- What `rollback_service_events` plans and what it reports.
use pkgundo.Prelude.{
  Text, lit, true, ℕ, List, [], ◌∷◌, ◌++◌, reverse, Option, none, some, ok, ◌≡◌, refl, ap, arith,
  inl, inr, Option-cases,
}
use mathlib.Core.List.{append-nil, append_assoc}
use pkgundo.System.{Os, select_service_events}
use pkgundo.Exec.{World}
use pkgundo.ServiceTracker.{
  ServiceAction, ServiceEvent, inverse, reversal_text, reverse_by, reverse_events,
  daemon_reload_after, get_service_events, rollback_service_events, service_events_of,
}

module _ (os : Os) where
  plan_of : Option ServiceAction → Text → List Text
  plan_of none service = []
  plan_of (some a) service = (lit "[dry-run] " ++ reversal_text os a service) ∷ []

  -- The lines of a dry run: the reversal of every event that has one, in the order given.
  pub plan : List ServiceEvent → List Text
  plan [] = []
  plan (e ∷ events) = plan_of (inverse e.action) e.service_name ++ plan events

  reverse_by-dry :
      (a : Option ServiceAction) (service : Text) (reversed : List Text) (w : World os)
      → reverse_by os true a service reversed w ≡ (ok (reversed ++ plan_of a service), w)
  unfolding reverse_by plan_of
  reverse_by-dry none service reversed w = rw append-nil refl
  reverse_by-dry (some a) service reversed w = refl

  reverse_events-dry :
      (events : List ServiceEvent) (reversed : List Text) (w : World os)
      → reverse_events os true events reversed w ≡ (ok (reversed ++ plan events), w)
  unfolding reverse_events plan
  reverse_events-dry [] reversed w = rw append-nil refl
  reverse_events-dry (e ∷ events) reversed w = ground (
    arith,
    reverse_by-dry (inverse e.action) e.service_name reversed w,
    reverse_events-dry events (reversed ++ plan_of (inverse e.action) e.service_name) w,
    append_assoc reversed (plan_of (inverse e.action) e.service_name) (plan events),
  )

  daemon_reload-dry :
      (reversed : List Text) (w : World os) → daemon_reload_after os true reversed w ≡ (ok tt, w)
  unfolding daemon_reload_after
  daemon_reload-dry [] w = refl
  daemon_reload-dry (_ ∷ _) w = refl

  -- A dry run changes nothing, and lists the reversal of each recorded event that has one, the
  -- last event first.
  pub rollback_service_events-dry :
      (txid : ℕ) (w : World os)
      → os.sql_fault w.state select_service_events ≡ none
      → rollback_service_events os txid true w
        ≡ (ok (plan (reverse (service_events_of txid w.db))), w)
  unfolding rollback_service_events get_service_events
  rollback_service_events-dry txid w fine = ground (
    arith,
    reverse_events-dry (reverse (service_events_of txid w.db)) [] w,
    daemon_reload-dry (plan (reverse (service_events_of txid w.db))) w,
  )

  -- A dry run changes nothing, also where the events cannot be read.
  pub rollback_service_events_same :
      (txid : ℕ) (w : World os) → (rollback_service_events os txid true w).1 ≡ w
  unfolding rollback_service_events get_service_events
  rollback_service_events_same txid w =
      elim (Option-cases (os.sql_fault w.state select_service_events)) [
        | inl fine ↦ ap (λ r. r.1) (rollback_service_events-dry txid w fine)
        | inr (e, refused) ↦ ground arith
      ]
