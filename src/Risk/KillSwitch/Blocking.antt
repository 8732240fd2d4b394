-- ===== src/Risk/KillSwitch/Blocking.antt =====
-- What is blocked, and for how long.
use mathlib.Core.Path.{subst}
use quantora_trade.Prelude.{
  ℕ, ◌≡◌, refl, sym, ◌∙◌, ap, inl, inr, ◌↔◌, String, String_discrete, Bool, true, false, ◌&&◌, some,
  none, List, [], ◌∷◌, any, All, ◌==◌, string_eq, nat_eq, if◌then◌else◌, arith, ==_refl, holds,
  Bool-cases, Option-cases,
}
use quantora_trade.Prelude.Dict.{
  Dict, lookup, insert, lookup-insert, lookup-insert_self, lookup-insert_ne,
}
use quantora_trade.Prelude.Exec.{Result, ok, err}
use quantora_trade.Domain.Time.{DateTime}
use quantora_trade.Risk.KillSwitch.{
  KillSwitchScope, KillSwitchEvent, KillSwitchState, KillSwitchQuery, Repository, scope_key, events,
  new_state, new_event, record_event, persist_transition, write_transition, check_state, is_late,
  activate, deactivate, activates, deactivates, get, matches, is_blocked, active_states, active_in,
  Call, activation, deactivation, call, run, no_switches,
}
use quantora_trade.Risk.KillSwitch.Audit.{
  Audited, run-Audited, Recorded, record_event-Recorded, Moves, call-Moves, latest, last_of,
}

-- A dict has each key once.
NoDup : {V : Type 0} → Dict String V → Type 0
NoDup [] = Unit
NoDup ((k, v) ∷ d) = (lookup k d ≡ none) × NoDup d

insert-NoDup :
    {V : Type 0} (k : String) (v : V) (d : Dict String V) → NoDup d → NoDup (insert k v d)
unfolding NoDup insert lookup
insert-NoDup k v [] h = (refl, tt)
insert-NoDup k v ((j, w) ∷ d) (free, h) =
    elim (String_discrete k j)
      as (λ x. NoDup (if holds x then (j, v) ∷ d else (j, w) ∷ insert k v d)) [
        | yes p ↦ (free, h)
        | no n ↦ (lookup-insert_ne k j v d n ∙ free, insert-NoDup k v d h)
      ]

module _ (q : KillSwitchQuery) where
  -- An active switch that matches the query blocks it.
  lookup-blocked :
      (key : String) (s : KillSwitchState) (d : Dict String KillSwitchState)
      → lookup key d ≡ some s
      → s.active ≡ true
      → matches s.scope q ≡ true
      → any (λ x. matches x.scope q) (active_in d) ≡ true
  unfolding lookup active_in
  lookup-blocked key s [] h on m = ground (arith, h)
  lookup-blocked key s ((j, w) ∷ d) h on m = ground (arith, lookup-blocked key s d)

  -- Whatever blocks a query is an active switch that matches it.
  blocked-lookup :
      (d : Dict String KillSwitchState)
      → NoDup d
      → any (λ x. matches x.scope q) (active_in d) ≡ true
      → (key : String) × (s : KillSwitchState) × (lookup key d ≡ some s)
        × (s.active ≡ true)
        × (matches s.scope q ≡ true)
  unfolding NoDup lookup active_in
  blocked-lookup [] u h = ground (arith, h)
  blocked-lookup ((j, w) ∷ d) (free, u) h = elim (Bool-cases (w.active && matches w.scope q)) [
    | inl hit ↦ (j, w, ground (arith, ==_refl j), ground (arith, hit), ground (arith, hit))
    | inr miss ↦
        let (k, s, found, on, m) = blocked-lookup d u (ground (arith, h, miss)) in
        (k, s, ground (arith, found, free), on, m)
  ]

Moves-NoDup : (r r' : Repository) → Moves r r' → NoDup r.states → NoDup r'.states
Moves-NoDup r r' (inl same) u = subst (λ x. NoDup x.states) (sym same) u
Moves-NoDup r r' (inr (active, e, (_, _, _, moved))) u =
    subst (λ x. NoDup x.states) (sym moved)
      (insert-NoDup (scope_key e.scope) (new_state active e) r.states u)

-- The stored state is the returned one: its event is no earlier one's, since the log has none that
-- late.
Recorded-stored :
    (active : Bool) (event : KillSwitchEvent) (r : Repository) (s : KillSwitchState)
    (result : Result KillSwitchState × Repository)
    → Audited r
    → is_late event.occurred_at (lookup (scope_key event.scope) r.states) ≡ false
    → Recorded active event r result
    → result.0 ≡ ok s
    → (lookup (scope_key event.scope) result.1.states ≡ some s) × (s ≡ new_state active event)
Recorded-stored active event r s (err e, r') a on_time h p = ground (arith, p)
Recorded-stored active event r s (ok s', r') a on_time (same, inl (_, found)) p =
    let (last, there, before) = a.bounded event.id event found in
    ground (arith, there, before, on_time)
Recorded-stored active event r s (ok s', r') a on_time (same, inr (_, _, _, moved)) p = ground (
  arith,
  p,
  same,
  ap (λ x. lookup (scope_key event.scope) x.states) moved,
  lookup-insert_self (scope_key event.scope) (new_state active event) r.states,
)

-- Whether a call is an authorized deactivation of the key's scope.
unfoldable pub releases : String → Call → Bool
releases key (activation scope t actor reason reference) = false
releases key (deactivation scope t actor reason reference higher) = higher && scope_key scope == key

no_switches-NoDup : NoDup no_switches.states
unfolding NoDup no_switches
no_switches-NoDup = tt

-- Some scope that matches the query has an activation as its last event in the audit log.
abbrev pub LastActivates : Repository → KillSwitchQuery → Type 0
LastActivates r q =
    (key : String) × (e : KillSwitchEvent) × (latest key (events r) ≡ some e)
    × (e.action ≡ activates)
    × (matches e.scope q ≡ true)

blocked-LastActivates :
    (r : Repository) (q : KillSwitchQuery)
    → Audited r
    → NoDup r.states
    → is_blocked (ok (active_states r)) q ≡ true
    → LastActivates r q
unfolding is_blocked
blocked-LastActivates r q a u h =
    let (key, s, found, on, m) = blocked-lookup q r.states u h in
    let (_, same, ag) = a.agree key s found in
    (
      key,
      s.last_event,
      sym (a.last_is_latest key) ∙ ap last_of found,
      ground (arith, on, ag),
      subst (λ x. matches x q ≡ true) same m,
    )

LastActivates-blocked :
    (r : Repository) (q : KillSwitchQuery)
    → Audited r
    → LastActivates r q
    → is_blocked (ok (active_states r)) q ≡ true
unfolding is_blocked
LastActivates-blocked r q a (key, e, found, on, m) = elim (Option-cases (lookup key r.states)) [
  | inl gone ↦ ground (arith, gone, found, a.last_is_latest key)
  | inr (s, there) ↦
      let (_, same, ag) = a.agree key s there in
      let last : some s.last_event ≡ some e =
        ap last_of (sym there) ∙ a.last_is_latest key ∙ found in
      lookup-blocked q key s r.states there (ground (arith, on, ag, last))
        (ground (arith, same, last, m))
]

record_event-other :
    (active : Bool) (event : KillSwitchEvent) (key : String) (r : Repository)
    → (scope_key event.scope == key) ≡ false
    → lookup key (record_event active event r).1.states ≡ lookup key r.states
unfolding record_event persist_transition write_transition check_state
record_event-other active event key r n =
    ground (arith, n, lookup-insert (scope_key event.scope) key (new_state active event) r.states)

module _ (uuid5 : String → ℕ) (isoformat : DateTime → String) where
  run-NoDup :
      (cs : List Call) (r : Repository) → NoDup r.states → NoDup (run uuid5 isoformat cs r).states
  unfolding run
  run-NoDup [] r u = u
  run-NoDup (c ∷ cs) r u =
      run-NoDup cs (call uuid5 isoformat c r)
        (Moves-NoDup r (call uuid5 isoformat c r) (call-Moves uuid5 isoformat c r) u)

  -- After any calls on an empty repository, a query is blocked exactly when the audit log says so:
  -- when the last event with some key is an activation of a scope that matches the query.
  pub is_blocked-log :
      (cs : List Call) (q : KillSwitchQuery)
      → (is_blocked (ok (active_states (run uuid5 isoformat cs no_switches))) q ≡ true)
        ↔ LastActivates (run uuid5 isoformat cs no_switches) q
  is_blocked-log cs q =
      let r : Repository = run uuid5 isoformat cs no_switches in
      let a : Audited r = run-Audited uuid5 isoformat cs in
      (
        blocked-LastActivates r q a (run-NoDup cs no_switches no_switches-NoDup),
        LastActivates-blocked r q a,
      )

  -- A call that does not release the key leaves its active state as it is.
  call-keeps :
      (c : Call) (key : String) (s : KillSwitchState) (r : Repository)
      → lookup key r.states ≡ some s
      → s.active ≡ true
      → releases key c ≡ false
      → lookup key (call uuid5 isoformat c r).states ≡ some s
  unfolding call activate deactivate get releases
  call-keeps (activation scope t actor reason reference) key s r h on free = ground (
    arith,
    h,
    on,
    record_event-other true (new_event uuid5 isoformat activates scope t actor reason reference) key
        r,
  )
  call-keeps (deactivation scope t actor reason reference higher) key s r h on free = ground (
    arith,
    h,
    on,
    free,
    record_event-other false (new_event uuid5 isoformat deactivates scope t actor reason reference)
        key r,
  )

  run-keeps :
      (cs : List Call) (key : String) (s : KillSwitchState) (r : Repository)
      → lookup key r.states ≡ some s
      → s.active ≡ true
      → All (λ c. releases key c ≡ false) cs
      → lookup key (run uuid5 isoformat cs r).states ≡ some s
  unfolding run
  run-keeps [] key s r h on free = h
  run-keeps (c ∷ cs) key s r h on (free, more) =
      run-keeps cs key s (call uuid5 isoformat c r) (call-keeps c key s r h on free) on more

  -- What `activate` returns is the active state that is stored for the scope.
  activate-stored :
      (scope : KillSwitchScope) (t : DateTime) (actor reason reference : String) (r : Repository)
      (s : KillSwitchState)
      → Audited r
      → (activate uuid5 isoformat scope t actor reason reference r).0 ≡ ok s
      → (lookup
            (scope_key scope)
            (activate uuid5 isoformat scope t actor reason reference r).1.states
          ≡ some s)
        × (s.active ≡ true)
        × (scope_key s.scope ≡ scope_key scope)
  unfolding activate get
  activate-stored scope t actor reason reference r s a h =
      let event : KillSwitchEvent =
        new_event uuid5 isoformat activates scope t actor reason reference in
      let stored = λ (on_time : is_late t (lookup (scope_key scope) r.states) ≡ false).
        Recorded-stored true event r s (record_event true event r) a on_time
          (record_event-Recorded true event r) in
      elim (Option-cases (lookup (scope_key scope) r.states)) [
        | inl free ↦ ground (arith, h, free, stored)
        | inr (c, found) ↦ ground (arith, h, found, a.agree (scope_key scope) c found, stored)
      ]

  -- Once `activate` has returned a switch, every query that the switch's scope matches is blocked,
  -- and stays so after any later calls, those that raise included, of which none is an authorized
  -- deactivation of that scope. The switch has the key of the scope asked for, and the repository is
  -- one that calls on an empty one have made.
  pub activate-stays_blocked :
      (cs ds : List Call) (scope : KillSwitchScope) (t : DateTime) (actor reason reference : String)
      (s : KillSwitchState) (q : KillSwitchQuery)
      → let before : Repository = run uuid5 isoformat cs no_switches in
        let (result, after) = activate uuid5 isoformat scope t actor reason reference before in
        result ≡ ok s
        → All (λ c. releases (scope_key scope) c ≡ false) ds
        → matches s.scope q ≡ true
        → (scope_key s.scope ≡ scope_key scope)
          × (is_blocked (ok (active_states (run uuid5 isoformat ds after))) q ≡ true)
  unfolding is_blocked
  activate-stays_blocked cs ds scope t actor reason reference s q h free m =
      let before : Repository = run uuid5 isoformat cs no_switches in
      let after : Repository = (activate uuid5 isoformat scope t actor reason reference before).1 in
      let (stored, on, same) =
        activate-stored scope t actor reason reference before s (run-Audited uuid5 isoformat cs)
          h in
      (
        same,
        lookup-blocked q (scope_key scope) s (run uuid5 isoformat ds after).states
            (run-keeps ds (scope_key scope) s after stored on free) on m,
      )
