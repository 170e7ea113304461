-- ===== src/ServiceTracker/Inverse.antt =====
-- The names of service actions, and what undoes them.
use pkgundo.Prelude.{lit, text_eq, some, ◌≡◌, refl}
use pkgundo.ServiceTracker.{
  ServiceAction, enable, disable, start, stop, restart, reload, daemon_reload, action_name,
  action_of_name, ServiceEvent, to_row, from_row, or_reload,
}
use pkgundo.Prelude.{ℕ}

-- An action is read back from its name.
pub action_of_name-action_name : (a : ServiceAction) → action_of_name (action_name a) ≡ some a
unfolding action_of_name action_name text_eq lit
action_of_name-action_name enable = refl
action_of_name-action_name disable = refl
action_of_name-action_name start = refl
action_of_name-action_name stop = refl
action_of_name-action_name restart = refl
action_of_name-action_name reload = refl
action_of_name-action_name daemon_reload = refl

-- An event that is stored as a row is read back with the key that the row was given.
pub from_row-to_row :
    (key : ℕ) (e : ServiceEvent) → from_row (key, to_row e) ≡ record e { id = some key }
unfolding from_row to_row or_reload
from_row-to_row key e = rw (action_of_name-action_name e.action) refl
