-- ===== src/Application/Worker/Log.antt =====
-- What the worker's commands do to its state and its log of commands.
use quantora_trade.Prelude.{
  ◌+◌, ◌≡◌, ◌≢◌, refl, sym, ◌∙◌, ap, ◌⊎◌, inl, inr, String, Bool, true, false, some, none, List, [],
  ◌∷◌, arith, string_eq, Bool-cases, Option-cases, All, ==_eq,
}
use quantora_trade.Prelude.Dict.{lookup, insert, lookup-insert, lookup-insert_self}
use quantora_trade.Prelude.Exec.{ok}
use quantora_trade.Application.Worker.{
  halted, Store, WorkerSetup, PaperWorkerState, StoredWorkerCommand, transition, move, persist,
  write, now, blocked, gate_if, fails_closed, next_state, check_command_id,
}
use quantora_trade.Application.Worker.Control.{
  Command, start, mark_started, stop, mark_stopped, degrade, halt, recover, allows_new_entries,
  control, run, allowed, target, config_of, reason_of, is_start, fingerprint, check_command,
}

abbrev pub is_recovery : Command → Bool
is_recovery (recover _) = true
is_recovery _ = false

-- A command changes nothing; or it is new, its status was allowed, a start's gate is open, and its
-- result is the state and is logged under its id.
abbrev pub Steps : WorkerSetup → String → Command → Store → Store → Type 0
Steps setup id c s s' =
    ((s'.commands ≡ s.commands) × (s'.state ≡ s.state))
    ⊎ ((result : PaperWorkerState) × (lookup id s.commands ≡ none)
        × (s'.commands
            ≡ insert id (record { fingerprint = fingerprint setup c; result = result }) s.commands)
        × (s'.state ≡ result)
        × (allowed c s.state.status ≡ true)
        × (result.status ≡ target c)
        × (result.revision ≡ s.state.revision + 1)
        × ((is_start c ≡ false) ⊎ (fails_closed (setup.gate s.gate_calls) ≡ false)))

module _ (setup : WorkerSetup) where
  abbrev moved : String → Command → Store → Store
  moved id c s =
      (move setup id (fingerprint setup c) (allowed c) (target c) (config_of c) (reason_of c)
        (is_start c) s).1

  abbrev result_of : Command → Store → PaperWorkerState
  result_of c s =
      next_state setup (target c) (config_of c) (reason_of c) (setup.clock s.clock_calls) s.state

  -- A command that the gate lets through.
  open-Steps :
      (id : String) (c : Command) (s : Store)
      → lookup id s.commands ≡ none
      → (is_start c ≡ false) ⊎ (fails_closed (setup.gate s.gate_calls) ≡ false)
      → Steps setup id c s (moved id c s)
  unfolding move gate_if blocked now persist write
  open-Steps id c s new free = elim (Bool-cases (allowed c s.state.status)) [
    | inr bad ↦ inl (ground (arith, free, bad))
    | inl good ↦ elim (Bool-cases (setup.clock s.clock_calls).utc) [
      | inr local ↦ inl (ground (arith, free, good, local))
      | inl utc ↦ inr (
        result_of c s,
        new,
        ground (arith, free, good, utc, new),
        ground (arith, free, good, utc, new),
        good,
        refl,
        refl,
        free,
      )
    ]
  ]

  move-Steps :
      (id : String) (c : Command) (s : Store)
      → lookup id s.commands ≡ none
      → Steps setup id c s (moved id c s)
  unfolding move gate_if blocked
  move-Steps id c s new = elim (Bool-cases (is_start c)) [
    | inr n ↦ open-Steps id c s new (inl n)
    | inl p ↦ elim (Bool-cases (fails_closed (setup.gate s.gate_calls))) [
      | inr free ↦ open-Steps id c s new (inr free)
      | inl shut ↦ inl (ground (arith, p, shut))
    ]
  ]

  -- One command, whatever it returns or raises: it changes neither the state nor the log; or it is
  -- a new one whose transition the current status allows, a start only while the gate is open; its
  -- state has the target status and the next revision; and exactly this result is logged under its
  -- id.
  pub control-Steps :
      (id : String) (c : Command) (s : Store) → Steps setup id c s (control setup id c s).1
  unfolding control transition
  control-Steps id c s = elim (Option-cases (lookup id s.commands)) [
    | inr (old, found) ↦ inl (ground (arith, found))
    | inl new ↦ ground (arith, new, move-Steps id c s new)
  ]

  abbrev logged : Command → PaperWorkerState → StoredWorkerCommand
  logged c r = record { fingerprint = fingerprint setup c; result = r }

  Steps-lookup :
      (id k : String) (c : Command) (s s' : Store) (x : StoredWorkerCommand)
      → Steps setup id c s s'
      → lookup k s.commands ≡ some x
      → lookup k s'.commands ≡ some x
  Steps-lookup id k c s s' x (inl (same, _)) h = ap (lookup k) same ∙ h
  Steps-lookup id k c s s' x (inr (r, new, more, _, _, _, _, _)) h =
      ground (arith, new, h, ap (lookup k) more, lookup-insert id k (logged c r) s.commands)

  run-lookup :
      (cs : List (String × Command)) (k : String) (s : Store) (x : StoredWorkerCommand)
      → lookup k s.commands ≡ some x
      → lookup k (run setup cs s).commands ≡ some x
  unfolding run
  run-lookup [] k s x h = h
  run-lookup ((id, c) ∷ cs) k s x h =
      run-lookup cs k (control setup id c s).1 x
        (Steps-lookup id k c s (control setup id c s).1 x (control-Steps id c s) h)

  open-logged :
      (id : String) (c : Command) (s : Store) (r : PaperWorkerState)
      → lookup id s.commands ≡ none
      → (is_start c ≡ false) ⊎ (fails_closed (setup.gate s.gate_calls) ≡ false)
      → (move setup id
          (fingerprint setup c)
          (allowed c)
          (target c)
          (config_of c)
          (reason_of c)
          (is_start c)
          s).0
        ≡ ok r
      → lookup id (moved id c s).commands ≡ some (logged c r)
  unfolding move gate_if blocked now persist write
  open-logged id c s r new free h = elim (Bool-cases (allowed c s.state.status)) [
    | inr bad ↦ ground (arith, free, bad, h)
    | inl good ↦ elim (Bool-cases (setup.clock s.clock_calls).utc) [
      | inr local ↦ ground (arith, free, good, local, h)
      | inl utc ↦
          let stored : _ = lookup-insert_self id (logged c (result_of c s)) s.commands in
          ground (arith, free, good, utc, new, h, stored)
    ]
  ]

  move-logged :
      (id : String) (c : Command) (s : Store) (r : PaperWorkerState)
      → lookup id s.commands ≡ none
      → (move setup id
          (fingerprint setup c)
          (allowed c)
          (target c)
          (config_of c)
          (reason_of c)
          (is_start c)
          s).0
        ≡ ok r
      → lookup id (moved id c s).commands ≡ some (logged c r)
  unfolding move gate_if blocked
  move-logged id c s r new h = elim (Bool-cases (is_start c)) [
    | inr n ↦ open-logged id c s r new (inl n) h
    | inl p ↦ elim (Bool-cases (fails_closed (setup.gate s.gate_calls))) [
      | inr free ↦ open-logged id c s r new (inr free) h
      | inl shut ↦ ground (arith, p, shut, h)
    ]
  ]

  control-logged :
      (id : String) (c : Command) (s : Store) (r : PaperWorkerState)
      → (control setup id c s).0 ≡ ok r
      → (check_command id c ≡ ok tt)
        × (check_command_id id ≡ ok tt)
        × (lookup id (control setup id c s).1.commands ≡ some (logged c r))
  unfolding control transition
  control-logged id c s r h = elim (Option-cases (lookup id s.commands)) [
    | inr (old, found) ↦ ground (arith, h, found, ==_eq old.fingerprint (fingerprint setup c))
    | inl new ↦ ground (arith, h, new, move-logged id c s r new)
  ]

  -- A command that returned a result is idempotent for ever: given again with the same id, after
  -- any other commands and whatever they returned or raised, it returns that result and changes
  -- nothing, and neither the clock nor the entry gate is asked.
  pub control_twice :
      (id : String) (c : Command) (s : Store) (r : PaperWorkerState) (cs : List (String × Command))
      → (control setup id c s).0 ≡ ok r
      → control setup id c (run setup cs (control setup id c s).1)
        ≡ (ok r, run setup cs (control setup id c s).1)
  unfolding control transition
  control_twice id c s r cs h =
      let (checked, named, there) = control-logged id c s r h in
      ground (arith, checked, named, run-lookup cs id (control setup id c s).1 (logged c r) there)

  halted_step :
      (id : String) (c : Command) (s : Store)
      → is_recovery c ≡ false
      → s.state.status ≡ halted
      → (control setup id c s).1.state ≡ s.state
  halted_step id c s other h = elim (control-Steps id c s) [
    | inl (_, same) ↦ same
    | inr (r, _, _, _, good, _, _, _) ↦ absurd (refused c other (ap (allowed c) (sym h) ∙ good))
  ]
    where
      refused : (k : Command) → is_recovery k ≡ false → allowed k halted ≢ true
      refused (start _ _) p q = ground (arith, q)
      refused mark_started p q = ground (arith, q)
      refused stop p q = ground (arith, q)
      refused mark_stopped p q = ground (arith, q)
      refused (degrade _) p q = ground (arith, q)
      refused (halt _) p q = ground (arith, q)
      refused (recover _) p q = ground (arith, p)

  run-halted :
      (cs : List (String × Command)) (s : Store)
      → All (λ p. is_recovery p.1 ≡ false) cs
      → s.state.status ≡ halted
      → (run setup cs s).state.status ≡ halted
  unfolding run
  run-halted [] s others h = h
  run-halted ((id, c) ∷ cs) s (other, others) h =
      run-halted cs (control setup id c s).1 others
        (ap (λ x. x.status) (halted_step id c s other h) ∙ h)

  -- A halted worker allows no new entry until it is recovered: after any commands but a recovery,
  -- whatever they return or raise, it is still HALTED and `allows_new_entries` is false, whatever
  -- the entry gate would answer.
  pub halted_allows_none :
      (cs : List (String × Command)) (s : Store)
      → All (λ p. is_recovery p.1 ≡ false) cs
      → s.state.status ≡ halted
      → ((run setup cs s).state.status ≡ halted)
        × ((allows_new_entries setup (run setup cs s)).0 ≡ ok false)
  unfolding allows_new_entries
  halted_allows_none cs s others h =
      let still : _ = run-halted cs s others h in (still, ground (arith, still))
