-- ===== src/Risk/Tests.antt =====
-- Concrete inputs for the risk layer, and the theorems at inputs that meet their hypotheses.
mod SubmissionTests
use native.Mathlib.Decide.{ℕ_discrete}
use quantora_trade.Prelude.{
  ℕ, String, String_discrete, ◌≡◌, refl, true, false, some, none, List, [], ◌∷◌, ◌++◌, ◌↔◌, All,
}
use quantora_trade.Prelude.Text.{text_length, is_blank, is_trimmed, upper}
use quantora_trade.Prelude.Dict.{lookup, insert}
use quantora_trade.Prelude.Exec.{ok}
use quantora_trade.Domain.Time.{DateTime}
use quantora_trade.Risk.KillSwitch.{
  KillSwitchScope, KillSwitchState, KillSwitchEvent, KillSwitchQuery, symbol, global_scope,
  scope_key, check_scope, matches, Repository, Call, activation, deactivation, run, call, activate,
  deactivate, get, record_event, persist_transition, write_transition, check_event, check_state,
  no_switches, is_blocked, active_states, active_in, new_event, new_state, activates, events,
  KillSwitchScope-discrete, KillSwitchEvent-discrete, KillSwitchScopeKind-discrete,
  optional_text_discrete,
}
use quantora_trade.Risk.KillSwitch.Scopes.{IsScope, scope_key-injective}
use quantora_trade.Risk.KillSwitch.Audit.{Audited, run-Audited, run-append_only, latest}
use quantora_trade.Risk.KillSwitch.Blocking.{
  is_blocked-log, LastActivates, activate-stays_blocked, releases,
}

abbrev at_time : ℕ → DateTime
at_time n = record { utc = true; instant = n }

abbrev isoformat : DateTime → String
isoformat t = "2026-01-01T00:00:00+00:00"

abbrev euro : KillSwitchScope
euro = record { kind = symbol; value = some "EURUSD" }

abbrev everything : KillSwitchScope
everything = record { kind = global_scope; value = none }

abbrev query : KillSwitchQuery
query = record {
  account_name = none;
  asset_name = none;
  symbol_name = some "EURUSD";
  strategy_name = none;
  new_entry = true;
}

unfoldable executable : Unit {0}
unfolding run call activate deactivate get record_event persist_transition write_transition
    check_event check_state no_switches is_blocked active_in matches lookup insert is_blank
    String_discrete ℕ_discrete text_length scope_key KillSwitchScope-discrete
    KillSwitchEvent-discrete KillSwitchScopeKind-discrete optional_text_discrete latest releases
executable = tt

-- The global switch goes on and off.
abbrev earlier : List Call
earlier =
    activation everything (at_time 10) "ops" "drill" "INC-1"
    ∷ deactivation everything (at_time 20) "ops" "drill over" "INC-1" true
    ∷ []

-- The symbol's deactivation has no higher authorization.
abbrev later_calls : List Call
later_calls =
    deactivation euro (at_time 40) "ops" "mistake" "INC-2" false
    ∷ activation everything (at_time 50) "ops" "again" "INC-3"
    ∷ deactivation everything (at_time 60) "ops" "over" "INC-3" true
    ∷ []

abbrev euro_event : KillSwitchEvent
euro_event = new_event text_length isoformat activates euro (at_time 30) "ops" "volatile" "INC-2"

test_blocked :
    is_blocked (ok (active_states (run text_length isoformat earlier no_switches))) query ≡ false
unfolding executable
test_blocked = refl

euro-IsScope : IsScope euro
unfolding executable check_scope is_trimmed upper
euro-IsScope = refl

scope_key-injective_example : euro ≡ euro
scope_key-injective_example = scope_key-injective euro euro euro-IsScope euro-IsScope refl

run-Audited_example : Audited (run text_length isoformat earlier no_switches)
run-Audited_example = run-Audited text_length isoformat earlier

run-append_only_example :
    (more : List KillSwitchEvent) × (events (run text_length isoformat earlier no_switches)
      ≡ events no_switches ++ more)
run-append_only_example = run-append_only text_length isoformat earlier no_switches

is_blocked-log_example :
    (is_blocked (ok (active_states (run text_length isoformat earlier no_switches))) query ≡ true)
    ↔ LastActivates (run text_length isoformat earlier no_switches) query
is_blocked-log_example = is_blocked-log text_length isoformat earlier query

activated :
    (activate text_length isoformat euro
      (at_time 30)
      "ops"
      "volatile"
      "INC-2"
      (run text_length isoformat earlier no_switches)).0
    ≡ ok (new_state true euro_event)
unfolding executable
activated = refl

later_calls-All : All (λ c. releases (scope_key euro) c ≡ false) later_calls
unfolding executable
later_calls-All = (refl, (refl, (refl, tt)))

euro-matches : matches euro query ≡ true
unfolding executable
euro-matches = refl

activate-stays_blocked_example :
    (scope_key euro ≡ scope_key euro)
    × (is_blocked
          (ok (
            active_states (
              run text_length isoformat later_calls
                (activate text_length isoformat euro
                  (at_time 30)
                  "ops"
                  "volatile"
                  "INC-2"
                  (run text_length isoformat earlier no_switches)).1)))
          query
        ≡ true)
activate-stays_blocked_example =
    activate-stays_blocked text_length isoformat earlier later_calls euro (at_time 30) "ops"
      "volatile" "INC-2" (new_state true euro_event) query activated later_calls-All euro-matches
