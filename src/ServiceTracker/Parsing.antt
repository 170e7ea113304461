-- ===== src/ServiceTracker/Parsing.antt =====
-- What `parse_cmdline_for_systemctl` reads from a call of `systemctl`.
use pkgundo.Prelude.{
  Text, lit, text_eq_refl, text_eq_iff, true, false, not, some, List, [], ◌∷◌, ◌++◌, ◌≡◌, refl, All,
  arith, filter, starts_with,
}
use pkgundo.Transaction.{program_name}
use pkgundo.ServiceTracker.{
  ServiceAction, enable, action_name, is_flag, first_verb, after_verb, services_after,
  with_services, by_verb, parse_args,
}
use pkgundo.ServiceTracker.Inverse.{action_of_name-action_name}

abbrev pub IsFlag : Text → Type 0
IsFlag a = is_flag a ≡ true

abbrev pub IsPlain : Text → Type 0
IsPlain a = is_flag a ≡ false

action_name-IsPlain : (a : ServiceAction) → IsPlain (action_name a)
unfolding action_name starts_with lit
action_name-IsPlain enable = refl
action_name-IsPlain a = refl

first_verb-append :
    (flags rest : List Text) (verb : Text)
    → All IsFlag flags
    → IsPlain verb
    → first_verb (flags ++ verb ∷ rest) ≡ some verb
unfolding first_verb
first_verb-append [] rest verb _ plain = rw plain refl
first_verb-append (f ∷ flags) rest verb (flag, h) plain =
    rw flag (first_verb-append flags rest verb h plain)

after_verb-append :
    (flags rest : List Text) (verb : Text)
    → All IsFlag flags
    → IsPlain verb
    → after_verb verb (flags ++ verb ∷ rest) ≡ rest
unfolding after_verb
after_verb-append [] rest verb _ plain = rw (text_eq_refl verb) refl
after_verb-append (f ∷ flags) rest verb (flag, h) plain =
    ground (arith, text_eq_iff f verb, after_verb-append flags rest verb h plain)

filter-plain :
    (services : List Text)
    → All IsPlain services
    → filter (λ a. not (is_flag a)) services ≡ services
filter-plain [] _ = refl
filter-plain (s ∷ services) (plain, h) = rw plain (rw (filter-plain services h) refl)

-- A call of `systemctl`, wherever it is installed, with flags, an action and services is read as
-- that action on those services.
pub parse_args-command_line :
    (bin : Text) (flags : List Text) (a : ServiceAction) (services : List Text)
    → program_name bin ≡ lit "systemctl"
    → All IsFlag flags
    → All IsPlain services
    → parse_args (bin ∷ (flags ++ action_name a ∷ services)) ≡ some (a, services)
unfolding parse_args by_verb services_after with_services
parse_args-command_line bin flags a services named flagged plain =
    let verb = action_name-IsPlain a in
    rw
      (
        named,
        text_eq_refl (lit "systemctl"),
        first_verb-append flags services (action_name a) flagged verb,
        action_of_name-action_name a,
        after_verb-append flags services (action_name a) flagged verb,
        filter-plain services plain,
      )
      refl
