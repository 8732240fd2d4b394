-- ===== src/Risk/KillSwitch/Audit.antt =====
-- The audit log: every transition is in it, and it alone determines the switches' states.
use mathlib.Core.Path.{subst}
use mathlib.Core.List.{map-append, append-nil, append_assoc}
use quantora_trade.Prelude.{
  ℕ, ◌≤◌, ◌≡◌, refl, sym, ◌∙◌, ap, ◌⊎◌, inl, inr, String, Bool, true, false, Option, some, none,
  List, [], ◌∷◌, ◌++◌, map, ◌==◌, string_eq, nat_eq, if◌then◌else◌, arith, ==_eq,
}
use quantora_trade.Prelude.Dict.{Dict, lookup, insert, lookup-insert}
use quantora_trade.Prelude.Exec.{Ends, Result, ok, err}
use quantora_trade.Domain.Time.{DateTime}
use quantora_trade.Risk.KillSwitch.{
  KillSwitchEvent, KillSwitchState, Repository, scope_key, events, new_state, record_event,
  new_event, activates, deactivates, activate, deactivate, get, persist_transition,
  write_transition, check_state, is_late, agrees, Call, activation, deactivation, call, run,
  no_switches, kill_switch_event_eq,
}

-- The last event of the log with a scope of the key.
unfoldable pub latest : String → List KillSwitchEvent → Option KillSwitchEvent
latest key [] = none
latest key (e ∷ es) = elim (latest key es) [
  | some l ↦ some l
  | none ↦ if key == scope_key e.scope then some e else none
]

latest-append :
    (key : String) (es : List KillSwitchEvent) (e : KillSwitchEvent)
    → latest key (es ++ e ∷ []) ≡ (if key == scope_key e.scope then some e else latest key es)
unfolding latest
latest-append key [] e = ground arith
latest-append key (x ∷ es) e = ground (arith, latest-append key es e)

insert_new :
    {V : Type 0} (k : ℕ) (v : V) (d : Dict ℕ V)
    → lookup k d ≡ none
    → insert k v d ≡ d ++ (k, v) ∷ []
unfolding lookup insert
insert_new k v [] h = refl
insert_new k v ((j, w) ∷ d) h = ground (arith, insert_new k v d)

abbrev pub last_of : Option KillSwitchState → Option KillSwitchEvent
last_of none = none
last_of (some s) = some s.last_event

-- The repository after an event.
abbrev pub written : Bool → KillSwitchEvent → Repository → Repository
written active event r = record {
  states = insert (scope_key event.scope) (new_state active event) r.states;
  log = insert event.id event r.log;
}

-- What one call does to the repository when it writes.
abbrev pub Written : Bool → KillSwitchEvent → Repository → Repository → Type 0
Written active event r r' =
    (lookup event.id r.log ≡ none)
    × (is_late event.occurred_at (lookup (scope_key event.scope) r.states) ≡ false)
    × (agrees active event.action ≡ true)
    × (r' ≡ written active event r)

abbrev pub Moves : Repository → Repository → Type 0
Moves r r' = (r' ≡ r) ⊎ ((active : Bool) × (event : KillSwitchEvent) × Written active event r r')

-- The event was recorded, now or before; or nothing was changed.
abbrev pub Recorded :
    Bool → KillSwitchEvent → Repository → Result KillSwitchState × Repository → Type 0
Recorded active event r =
    Ends
      (λ s r'.
        (s ≡ new_state active event)
        × ((r' ≡ r) × (lookup event.id r.log ≡ some event) ⊎ Written active event r r'))
      (λ e r'. r' ≡ r)

pub record_event-Recorded :
    (active : Bool) (event : KillSwitchEvent) (r : Repository)
    → Recorded active event r (record_event active event r)
unfolding record_event persist_transition write_transition check_state
record_event-Recorded active event r =
    elim (lookup event.id r.log)
        as (λ o.
          (lookup event.id r.log ≡ o) → Recorded active event r (record_event active event r)) [
            | none ↦ λ h. ground (arith, h)
            | some x ↦ λ h. ground (arith, h, ==_eq x event)
          ]
      refl

Recorded-Moves :
    (active : Bool) (event : KillSwitchEvent) (r : Repository)
    (result : Result KillSwitchState × Repository)
    → Recorded active event r result
    → Moves r result.1
Recorded-Moves active event r (ok s, r') (_, inl (e, _)) = inl e
Recorded-Moves active event r (ok s, r') (_, inr w) = inr (active, event, w)
Recorded-Moves active event r (err e, r') h = inl h

record_event-Moves :
    (active : Bool) (event : KillSwitchEvent) (r : Repository)
    → Moves r (record_event active event r).1
record_event-Moves active event r =
    Recorded-Moves active event r (record_event active event r)
      (record_event-Recorded active event r)

module _ (uuid5 : String → ℕ) (isoformat : DateTime → String) where
  pub call-Moves : (c : Call) (r : Repository) → Moves r (call uuid5 isoformat c r)
  unfolding call activate deactivate get
  call-Moves (activation scope t actor reason reference) r =
      let step =
        record_event-Moves true (new_event uuid5 isoformat activates scope t actor reason reference)
          r in
      ground (arith, step)
  call-Moves (deactivation scope t actor reason reference higher) r =
      let step =
        record_event-Moves false
          (new_event uuid5 isoformat deactivates scope t actor reason reference) r in
      ground (arith, step)

-- What the log and the states have in common.
pub record Audited (r : Repository) : Type 0 where
  -- A state's last event is the last in the log with its key.
  pub last_is_latest : (key : String) → last_of (lookup key r.states) ≡ latest key (events r)
  -- A state lies under its scope's key, which is its event's, and is active as its event says.
  pub agree :
      (key : String) (s : KillSwitchState)
      → lookup key r.states ≡ some s
      → (scope_key s.scope ≡ key)
        × (s.scope ≡ s.last_event.scope)
        × (agrees s.active s.last_event.action ≡ true)
  -- No event of the log is later than its scope's last.
  pub bounded :
      (id : ℕ) (e : KillSwitchEvent)
      → lookup id r.log ≡ some e
      → (s : KillSwitchState) × (lookup (scope_key e.scope) r.states ≡ some s)
        × e.occurred_at.instant ≤ s.last_event.occurred_at.instant

events_new :
    (id : ℕ) (e : KillSwitchEvent) (log : Dict ℕ KillSwitchEvent)
    → lookup id log ≡ none
    → map (λ p. p.1) (insert id e log) ≡ map (λ p. p.1) log ++ e ∷ []
events_new id e log h = rw (insert_new id e log h, map-append (λ p. p.1) log ((id, e) ∷ []))

module _ (active : Bool) (e : KillSwitchEvent) (r : Repository) (a : Audited r)
    (fresh : lookup e.id r.log ≡ none)
    (on_time : is_late e.occurred_at (lookup (scope_key e.scope) r.states) ≡ false)
    (ag : agrees active e.action ≡ true) where
  written-last :
      (key : String)
      → last_of (lookup key (written active e r).states) ≡ latest key (events (written active e r))
  written-last key =
      let events_after : _ =
        ap (latest key) (events_new e.id e r.log fresh) ∙ latest-append key (events r) e in
      ground (
        arith,
        events_after,
        a.last_is_latest key,
        lookup-insert (scope_key e.scope) key (new_state active e) r.states,
      )

  written-agree :
      (key : String) (s : KillSwitchState)
      → lookup key (written active e r).states ≡ some s
      → (scope_key s.scope ≡ key)
        × (s.scope ≡ s.last_event.scope)
        × (agrees s.active s.last_event.action ≡ true)
  written-agree key s h =
      ground
        (arith, a.agree key s, lookup-insert (scope_key e.scope) key (new_state active e) r.states)

  written-bounded :
      (id : ℕ) (x : KillSwitchEvent)
      → lookup id (written active e r).log ≡ some x
      → (s : KillSwitchState) × (lookup (scope_key x.scope) (written active e r).states ≡ some s)
        × x.occurred_at.instant ≤ s.last_event.occurred_at.instant
  written-bounded id x h = ground (
    arith,
    a.bounded id x,
    lookup-insert e.id id e r.log,
    lookup-insert (scope_key e.scope) (scope_key x.scope) (new_state active e) r.states,
  )

  written-Audited : Audited (written active e r)
  written-Audited = record {
    last_is_latest = written-last;
    agree = written-agree;
    bounded = written-bounded;
  }

Moves-Audited : (r r' : Repository) → Moves r r' → Audited r → Audited r'
Moves-Audited r r' (inl same) a = subst Audited (sym same) a
Moves-Audited r r' (inr (active, e, (fresh, on_time, ag, moved))) a =
    subst Audited (sym moved) (written-Audited active e r a fresh on_time ag)

no_switches-Audited : Audited no_switches
unfolding no_switches lookup latest
no_switches-Audited = record {
  last_is_latest = λ key. refl;
  agree = λ key s h. ground (arith, h);
  bounded = λ id e h. ground (arith, h);
}

Moves-events :
    (r r' : Repository)
    → Moves r r'
    → (later : List KillSwitchEvent) × (events r' ≡ events r ++ later)
Moves-events r r' (inl same) = ([], rw (same, append-nil (events r)))
Moves-events r r' (inr (active, e, (fresh, _, _, moved))) =
    (e ∷ [], ap events moved ∙ events_new e.id e r.log fresh)

module _ (uuid5 : String → ℕ) (isoformat : DateTime → String) where
  run-Audited_from :
      (cs : List Call) (r : Repository) → Audited r → Audited (run uuid5 isoformat cs r)
  unfolding run
  run-Audited_from [] r a = a
  run-Audited_from (c ∷ cs) r a =
      run-Audited_from cs (call uuid5 isoformat c r)
        (Moves-Audited r (call uuid5 isoformat c r) (call-Moves uuid5 isoformat c r) a)

  -- After any calls on an empty repository, those that raise included, the audit log alone
  -- determines the switches: the state under each key has the last event of the log with that key
  -- as its last event, is active as that event's action says, and has that event's scope; and no
  -- event of the log is later than the last of its scope.
  pub run-Audited : (cs : List Call) → Audited (run uuid5 isoformat cs no_switches)
  run-Audited cs = run-Audited_from cs no_switches no_switches-Audited

  -- The audit log is append-only: whatever calls are made, every earlier event stays, in its place.
  pub run-append_only :
      (cs : List Call) (r : Repository)
      → (later : List KillSwitchEvent) × (events (run uuid5 isoformat cs r) ≡ events r ++ later)
  unfolding run
  run-append_only [] r = ([], sym (append-nil (events r)))
  run-append_only (c ∷ cs) r =
      let (now, p) = Moves-events r (call uuid5 isoformat c r) (call-Moves uuid5 isoformat c r) in
      let (later, q) = run-append_only cs (call uuid5 isoformat c r) in
      (now ++ later, q ∙ ap (λ es. es ++ later) p ∙ append_assoc (events r) now later)
