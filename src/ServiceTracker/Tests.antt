-- ===== src/ServiceTracker/Tests.antt =====
-- Calls of `systemctl` and their reversal.
use pkgundo.Prelude.{lit, starts_with, text_eq, [], ◌∷◌, ◌++◌, none, some, ◌≡◌, refl, split_on}
use pkgundo.Paths.{components, file_name, body}
use pkgundo.Transaction.{program_name}
use pkgundo.ServiceTracker.{enable, action_name, parse_args, ServiceEvent}
use pkgundo.ServiceTracker.Parsing.{parse_args-command_line}

abbrev sshd_enabled : ServiceEvent
sshd_enabled = record {
  id = none;
  txid = 1;
  service_name = lit "sshd";
  action = enable;
  pre_state = some (lit "disabled");
  timestamp = lit "2024-01-01T00:00:00+00:00";
}

is_systemctl : program_name (lit "/usr/bin/systemctl") ≡ lit "systemctl"
unfolding program_name file_name components body split_on text_eq starts_with lit
is_systemctl = refl

parse_args-command_line_example :
    parse_args
      (lit "/usr/bin/systemctl" ∷ (lit "--now" ∷ []) ++ action_name enable ∷ lit "sshd" ∷ [])
    ≡ some (enable, lit "sshd" ∷ [])
unfolding starts_with lit
parse_args-command_line_example =
    parse_args-command_line (lit "/usr/bin/systemctl") (lit "--now" ∷ []) enable (lit "sshd" ∷ [])
      is_systemctl (refl, tt) (refl, tt)
