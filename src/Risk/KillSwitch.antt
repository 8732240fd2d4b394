-- ===== src/Risk/KillSwitch.antt =====
-- The kill switch: src/quantora_trade/risk/kill_switch.py. The in-memory repository and the service
-- over it. Of the methods only `persist_transition` and `submission_guard` take the repository's
-- lock; the model runs a whole call of the service with no other call between its accesses, so it
-- says nothing of two threads inside `activate` at once. Datetimes are aware here: Python raises TypeError when it compares a naive one.
pub mod Scopes
pub mod Audit
pub mod Blocking
use native.Mathlib.Decide.{ℕ_discrete}
use Prim.Native.String.{◌++◌ as join}
use quantora_trade.Prelude.{
  ℕ, String, String_discrete, Bool, true, false, not, ◌&&◌, ◌||◌, Option, none, some, List, [], ◌∷◌,
  map, any, ◌==◌, ◌!=◌, Eq, nat_eq, string_eq, if◌then◌else◌,
}
use quantora_trade.Prelude.Text.{is_blank, is_trimmed, codes, codes_eq, upper}
use quantora_trade.Prelude.Dict.{Dict, lookup, insert}
use quantora_trade.Prelude.Exec.{
  value_error, permission_error, Check, check, ◌⨾◌, Result, ok, err, Exec, pure, raise, gets, lift,
  modify, raise_if, ◌>>=◌, ◌>>◌,
}
use quantora_trade.Domain.Time.{DateTime, DateTime-discrete, not_after, require_utc}

pub data KillSwitchScopeKind : Type 0 where
  global_scope account asset symbol strategy new_entries : KillSwitchScopeKind

pub data KillSwitchAction : Type 0 where
  activates deactivates : KillSwitchAction

unfoldable pub KillSwitchScopeKind-discrete : Discrete KillSwitchScopeKind
KillSwitchScopeKind-discrete = hlevel

unfoldable pub KillSwitchAction-discrete : Discrete KillSwitchAction
KillSwitchAction-discrete = hlevel

instance abbrev pub scope_kind_eq : Eq KillSwitchScopeKind
scope_kind_eq = record { dec = KillSwitchScopeKind-discrete }

instance abbrev pub kill_switch_action_eq : Eq KillSwitchAction
kill_switch_action_eq = record { dec = KillSwitchAction-discrete }

unfoldable pub optional_text_discrete : Discrete (Option String)
optional_text_discrete = hlevel String_discrete

instance abbrev pub optional_text_eq : Eq (Option String)
optional_text_eq = record { dec = optional_text_discrete }

-- The values of the two enumerations.
abbrev pub kind_value : KillSwitchScopeKind → String
kind_value global_scope = "global"
kind_value account = "account"
kind_value asset = "asset"
kind_value symbol = "symbol"
kind_value strategy = "strategy"
kind_value new_entries = "new_entries"

abbrev pub action_value : KillSwitchAction → String
action_value activates = "activate"
action_value deactivates = "deactivate"

pub record KillSwitchScope : Type 0 where
  pub kind : KillSwitchScopeKind
  pub value : Option String

abbrev pub is_unqualified : KillSwitchScopeKind → Bool
is_unqualified global_scope = true
is_unqualified new_entries = true
is_unqualified _ = false

abbrev pub is_uppercase : String → Bool
is_uppercase s = codes s == upper (codes s)

-- The checks of a scope that has a value, and of one that has none.
abbrev pub check_value : KillSwitchScopeKind → Option String → Check
check_value kind none = check (not (is_unqualified kind)) (value_error "scope requires a value")
check_value kind (some v) =
    check (is_unqualified kind) (value_error "scope must not have a value")
    ⨾ check (not (is_unqualified kind) && is_blank v) (value_error "scope requires a value")
    ⨾ check (not (is_trimmed v)) (value_error "scope value must be trimmed")
    ⨾ check ((kind == asset || kind == symbol) && not (is_uppercase v))
        (value_error "scope value must be canonical uppercase")

unfoldable pub check_scope : KillSwitchScope → Check
check_scope s = check_value s.kind s.value

-- `value or '*'`
abbrev pub value_or_star : Option String → String
value_or_star none = "*"
value_or_star (some v) = if v == "" then "*" else v

unfoldable pub scope_key : KillSwitchScope → String
scope_key s = join (join (kind_value s.kind) ":") (value_or_star s.value)

pub record KillSwitchEvent : Type 0 where
  pub id : ℕ
  pub action : KillSwitchAction
  pub scope : KillSwitchScope
  pub occurred_at : DateTime
  pub actor : String
  pub reason : String
  pub incident_reference : String

ruleset kill_switch_parts = (
  ℕ_discrete, String_discrete, optional_text_discrete, KillSwitchScopeKind-discrete,
  KillSwitchAction-discrete, DateTime-discrete,
)

unfoldable pub KillSwitchScope-discrete : Discrete KillSwitchScope
KillSwitchScope-discrete = hlevel kill_switch_parts

instance abbrev pub scope_eq : Eq KillSwitchScope
scope_eq = record { dec = KillSwitchScope-discrete }

unfoldable pub KillSwitchEvent-discrete : Discrete KillSwitchEvent
KillSwitchEvent-discrete = hlevel (kill_switch_parts, KillSwitchScope-discrete)

instance abbrev pub kill_switch_event_eq : Eq KillSwitchEvent
kill_switch_event_eq = record { dec = KillSwitchEvent-discrete }

unfoldable pub check_event : KillSwitchEvent → Check
check_event e =
    require_utc e.occurred_at "occurred_at must be timezone-aware UTC"
    ⨾ check (is_blank e.actor) (value_error "actor must not be empty")
    ⨾ check (is_blank e.reason) (value_error "reason must not be empty")
    ⨾ check (is_blank e.incident_reference) (value_error "incident_reference must not be empty")

pub record KillSwitchState : Type 0 where
  pub scope : KillSwitchScope
  pub active : Bool
  pub last_event : KillSwitchEvent

abbrev pub agrees : Bool → KillSwitchAction → Bool
agrees true activates = true
agrees false deactivates = true
agrees _ _ = false

unfoldable pub check_state : KillSwitchState → Check
check_state s =
    check (s.scope != s.last_event.scope) (value_error "state and event scopes must match")
    ⨾ check (not (agrees s.active s.last_event.action))
        (value_error "state must agree with the last event action")

pub record KillSwitchQuery : Type 0 where
  pub account_name : Option String
  pub asset_name : Option String
  pub symbol_name : Option String
  pub strategy_name : Option String
  pub new_entry : Bool

-- InMemoryKillSwitchRepository
pub record Repository : Type 0 where
  pub states : Dict String KillSwitchState
  pub log : Dict ℕ KillSwitchEvent

unfoldable pub no_switches : Repository
no_switches = record { states = []; log = [] }

abbrev pub events : Repository → List KillSwitchEvent
events r = map (λ p. p.1) r.log

unfoldable pub get : KillSwitchScope → Exec Repository (Option KillSwitchState)
get scope = gets (λ r. lookup (scope_key scope) r.states)

unfoldable pub active_in : Dict String KillSwitchState → List KillSwitchState
active_in [] = []
active_in ((_, s) ∷ states) = if s.active then s ∷ active_in states else active_in states

abbrev pub active_states : Repository → List KillSwitchState
active_states r = active_in r.states

-- `current is not None and time <= current.last_event.occurred_at`
abbrev pub is_late : DateTime → Option KillSwitchState → Bool
is_late t none = false
is_late t (some current) = not_after t current.last_event.occurred_at

unfoldable pub write_transition : KillSwitchEvent → KillSwitchState → Exec Repository (Unit {0})
write_transition event state = do
  current ← gets (λ r. lookup (scope_key state.scope) r.states)
  raise_if (is_late event.occurred_at current)
      (value_error "kill-switch transitions must be strictly monotonic")
  modify (λ r. record r {
    states = insert (scope_key state.scope) state r.states;
    log = insert event.id event r.log;
  })

unfoldable pub persist_transition : KillSwitchEvent → KillSwitchState → Exec Repository (Unit {0})
persist_transition event state = do
  existing ← gets (λ r. lookup event.id r.log)
  elim existing [
    | some other ↦ raise_if (other != event) (value_error "event id collision")
    | none ↦ write_transition event state
  ]

unfoldable pub matches : KillSwitchScope → KillSwitchQuery → Bool
matches scope q = elim scope.kind [
  | global_scope ↦ true
  | new_entries ↦ q.new_entry
  | account ↦ q.account_name == scope.value
  | asset ↦ q.asset_name == scope.value
  | symbol ↦ q.symbol_name == scope.value
  | strategy ↦ q.strategy_name == scope.value
]

-- `is_blocked`, given what the repository's `active_states` returns or raises.
unfoldable pub is_blocked : Result (List KillSwitchState) → KillSwitchQuery → Bool
is_blocked (ok states) q = any (λ s. matches s.scope q) states
is_blocked (err _) q = true

abbrev pub new_state : Bool → KillSwitchEvent → KillSwitchState
new_state active event = record { scope = event.scope; active = active; last_event = event }

-- The event and the state are built with their checks, then persisted.
unfoldable pub record_event : Bool → KillSwitchEvent → Exec Repository KillSwitchState
record_event active event = do
  lift (check_event event)
  let state = new_state active event
  lift (check_state state)
  persist_transition event state
  pure state

module _ (uuid5 : String → ℕ) (isoformat : DateTime → String) where
  abbrev pub event_identity :
      KillSwitchAction → KillSwitchScope → DateTime → String → String → String → String
  event_identity action scope t actor reason reference =
      join
        (join
          (join
            (join
              (join
                (join
                  (join (join (join (join (action_value action) "|") (scope_key scope)) "|")
                    (isoformat t))
                  "|")
                actor)
              "|")
            reason)
          "|")
        reference

  abbrev pub new_event :
      KillSwitchAction → KillSwitchScope → DateTime → String → String → String → KillSwitchEvent
  new_event action scope t actor reason reference = record {
    id = uuid5 (event_identity action scope t actor reason reference);
    action = action;
    scope = scope;
    occurred_at = t;
    actor = actor;
    reason = reason;
    incident_reference = reference;
  }

  unfoldable pub activate :
      KillSwitchScope → DateTime → String → String → String → Exec Repository KillSwitchState
  activate scope t actor reason reference = do
    current ← get scope
    elim current [
      | some s ↦
          if s.active
          then pure s
          else (raise_if (not_after t s.last_event.occurred_at)
                (value_error "kill-switch transition time must move forwards")
              >> record_event true (new_event activates scope t actor reason reference))
      | none ↦ record_event true (new_event activates scope t actor reason reference)
    ]

  unfoldable pub deactivate :
      KillSwitchScope → DateTime → String → String → String → Bool → Exec Repository KillSwitchState
  deactivate scope t actor reason reference higher_authorization = do
    raise_if (not higher_authorization)
        (permission_error "kill-switch deactivation requires higher authorization")
    raise_if (is_blank reference) (value_error "recovery_reference must not be empty")
    current ← get scope
    elim current [
      | none ↦ raise (value_error "kill switch is not active for this scope")
      | some s ↦
          raise_if (not s.active) (value_error "kill switch is not active for this scope")
          >> raise_if (not_after t s.last_event.occurred_at)
              (value_error "kill-switch transition time must move forwards")
          >> record_event false (new_event deactivates scope t actor reason reference)
    ]

-- A call of the service; a scope is checked when it is built, before the call.
pub data Call : Type 0 where
  activation : KillSwitchScope → DateTime → String → String → String → Call
  deactivation : KillSwitchScope → DateTime → String → String → String → Bool → Call

module _ (uuid5 : String → ℕ) (isoformat : DateTime → String) where
  unfoldable pub call : Call → Repository → Repository
  call (activation scope t actor reason reference) r =
      (activate uuid5 isoformat scope t actor reason reference r).1
  call (deactivation scope t actor reason reference higher) r =
      (deactivate uuid5 isoformat scope t actor reason reference higher r).1

  unfoldable pub run : List Call → Repository → Repository
  run [] r = r
  run (c ∷ cs) r = run cs (call c r)
