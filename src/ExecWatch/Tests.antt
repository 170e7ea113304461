-- ===== src/ExecWatch/Tests.antt =====
-- An app whose executable is run.
use pkgundo.Prelude.{lit, [], ◌∷◌}
use pkgundo.Kernel.Memory.{machine, Machine}
use pkgundo.Paths.{components}
use pkgundo.ExecWatch.{WatchedApp, Watched, handle_exec}
use pkgundo.ExecWatch.Claims.{IsHandled, handle_exec-IsHandled}

abbrev an_app : WatchedApp
an_app = record { name = lit "vim"; txid = 7 }

abbrev watched : Watched
watched = (components (lit "/usr/bin/vim"), an_app) ∷ []

abbrev a_machine : Machine
a_machine = record {
  files = (lit "/proc/42/status", lit "Name:\tvim\nUid:\t1000\t1000\t1000\t1000\n") ∷ [];
  dirs = [];
  buffer = [];
}

handle_exec-IsHandled_example :
    IsHandled machine watched 42
      (lit "/usr/bin/vim")
      []
      (handle_exec machine watched (42, lit "/usr/bin/vim") [] a_machine)
handle_exec-IsHandled_example =
    handle_exec-IsHandled machine watched 42 (lit "/usr/bin/vim") [] a_machine
