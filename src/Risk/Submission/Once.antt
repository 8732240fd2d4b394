-- ===== src/Risk/Submission/Once.antt =====
-- At most one call of the broker for each idempotency key.
use quantora_trade.Prelude.{
  ℕ, suc, ◌+◌, ◌≤◌, ◌≡◌, refl, sym, ap, ◌⊎◌, inl, inr, String, String_discrete, true, false, List,
  [], ◌∷◌, ◌++◌, arith, string_eq, ◌==◌, if◌then◌else◌, length,
}
use quantora_trade.Prelude.Exec.{Result, ok, err, lift, continue, ◌>>=◌}
use quantora_trade.Domain.Orders.{ApprovedOrderIntent}
use quantora_trade.Risk.KillSwitch.{Repository, is_blocked, active_states}
use quantora_trade.Infrastructure.Journal.{
  Journal, SubmissionClaim, acquired, completed, in_flight, unknown, claim,
}
use quantora_trade.Infrastructure.Journal.Rows.{
  has, Keeps, claim-Keeps, abandon-Keeps, complete-Keeping, mark_unknown-Keeping,
  recover_expired-Keeping, reconcile_completed-Keeping,
}
use quantora_trade.Risk.Submission.{
  Service, Desk, SubmissionContext, Step, submits, recovers, marks, reconciles, switches_to, step,
  run, empty_desk, submit, now, verify, after_claim, send, refuse, deliver, submission_request_hash,
  query, on_journal, with_journal,
}

-- How many of the broker's calls had the key.
unfoldable pub calls_of : String → List ApprovedOrderIntent → ℕ
calls_of key [] = 0
calls_of key (i ∷ is) =
    let rest = calls_of key is in if key == i.idempotency_key then suc rest else rest

calls_of-append :
    (key : String) (is : List ApprovedOrderIntent) (i : ApprovedOrderIntent)
    → calls_of key (is ++ i ∷ [])
      ≡ (if key == i.idempotency_key then suc (calls_of key is) else calls_of key is)
unfolding calls_of
calls_of-append key [] i = ground arith
calls_of-append key (j ∷ is) i = ground (arith, calls_of-append key is i)

-- A key was sent never, or once and the journal has it.
IsOnce : String → Desk → Type 0
IsOnce k d = (calls_of k d.sent ≡ 0) ⊎ ((calls_of k d.sent ≡ 1) × (has k d.journal ≡ true))

abbrev Once : Desk → Type 0
Once d = (k : String) → IsOnce k d

-- A change of the journal that keeps its rows.
Keeps-Once : (d d' : Desk) → d'.sent ≡ d.sent → Keeps d.journal d'.journal → Once d → Once d'
unfolding IsOnce
Keeps-Once d d' same keep once k = elim (once k) [
  | inl never ↦ inl (ground (arith, never, same))
  | inr (one, there) ↦ inr (ground (arith, one, same), keep k there)
]

module _ (service : Service) (i : ApprovedOrderIntent) where
  abbrev key : String
  key = i.idempotency_key

  -- The desk once the broker is called.
  abbrev called : Desk → Desk
  called d = record d { sent = d.sent ++ i ∷ [] }

  called-Once :
      (d : Desk) → Once d → calls_of key d.sent ≡ 0 → has key d.journal ≡ true → Once (called d)
  unfolding IsOnce
  called-Once d once never there k = elim (String_discrete k key) [
    | yes p ↦ inr (ground (arith, p, never, calls_of-append k d.sent i), ground (arith, p, there))
    | no n ↦ ground (arith, n, once k, calls_of-append k d.sent i)
  ]

  deliver-Once :
      (d : Desk)
      → Once d
      → calls_of key d.sent ≡ 0
      → has key d.journal ≡ true
      → Once (deliver service i d).1
  unfolding deliver
  deliver-Once d once never there =
      elim (service.broker (length d.sent) i)
          as (λ r. (service.broker (length d.sent) i ≡ r) → Once (deliver service i d).1) [
            | err e ↦ λ p.
                Keeps-Once (called d) _ (ground (arith, p)) (λ k h. ground (arith, p, h))
                  (called-Once d once never there)
            | ok id ↦ λ p.
                Keeps-Once (called d) _ (ground (arith, p))
                  (λ k h.
                    ground (
                      arith,
                      p,
                      (complete-Keeping service.journal_setup key id).keeps d.journal k h,
                    ))
                  (called-Once d once never there)
          ]
        refl

  refuse-Once : (d : Desk) → Once d → calls_of key d.sent ≡ 0 → Once (refuse service i d).1
  unfolding refuse IsOnce
  refuse-Once d once never k = elim (String_discrete k key) [
    | yes p ↦ inl (ground (arith, p, never))
    | no n ↦
        ground (arith, once k, abandon-Keeps service.journal_setup key d.journal k (λ e. n (sym e)))
  ]

  send-Once :
      (context : SubmissionContext) (d : Desk)
      → Once d
      → calls_of key d.sent ≡ 0
      → has key d.journal ≡ true
      → Once (send service i context d).1
  unfolding send
  send-Once context d once never there =
      elim (is_blocked (ok (active_states d.switches)) (query context i))
        as (λ b. Once ((if b then refuse service i else deliver service i) d).1) [
          | true ↦ refuse-Once d once never
          | false ↦ deliver-Once d once never there
        ]

  after_claim-Once :
      (context : SubmissionContext) (c : SubmissionClaim) (d : Desk)
      → Once d
      → (c ≡ acquired → (calls_of key d.sent ≡ 0) × (has key d.journal ≡ true))
      → Once (after_claim service i context c d).1
  unfolding after_claim
  after_claim-Once context (completed id) d once won = once
  after_claim-Once context in_flight d once won = once
  after_claim-Once context unknown d once won = once
  after_claim-Once context acquired d once won = send-Once context d once (won refl).0 (won refl).1

  -- A key whose row is missing was never sent.
  missing-never : (d : Desk) → Once d → has key d.journal ≡ false → calls_of key d.sent ≡ 0
  unfolding IsOnce
  missing-never d once gone = ground (arith, once key, gone)

  -- `submit` after its guards.
  abbrev claimed : SubmissionContext → Result SubmissionClaim × Journal → Desk → Desk
  claimed context r d =
      (continue (with_journal d r).0 (with_journal d r).1 (after_claim service i context)).1

  claimed-Once :
      (context : SubmissionContext) (r : Result SubmissionClaim × Journal) (d : Desk)
      → Once d
      → Keeps d.journal r.1
        × (r.0 ≡ ok acquired → (has key d.journal ≡ false) × (has key r.1 ≡ true))
      → Once (claimed context r d)
  claimed-Once context (err e, j) d once (keep, won) = Keeps-Once d _ refl keep once
  claimed-Once context (ok c, j) d once (keep, won) =
      after_claim-Once context c (record d { journal = j }) (Keeps-Once d _ refl keep once)
        (λ p. (missing-never d once (won (ap ok p)).0, (won (ap ok p)).1))

  submit-Once : (d : Desk) → Once d → Once (submit service i d).1
  unfolding submit now
  submit-Once d once =
      let t : Desk = record d { clock_calls = d.clock_calls + 1 } in
      let hash : String = submission_request_hash service.libs i in
      elim (verify service i (service.clock d.clock_calls))
        as (λ r.
          Once
            ((lift r >>= λ context.
                on_journal (claim service.journal_setup key hash) >>= after_claim service i context)
              t).1) [
                | err e ↦ Keeps-Once d t refl (λ k h. h) once
                | ok context ↦
                    claimed-Once context (claim service.journal_setup key hash d.journal) t
                      (Keeps-Once d t refl (λ k h. h) once)
                      (claim-Keeps service.journal_setup key hash d.journal)
              ]

module _ (service : Service) where
  step-Once : (s : Step) (d : Desk) → Once d → Once (step service s d)
  unfolding step
  step-Once (submits i) d once = submit-Once service i d once
  step-Once (recovers k h f m) d once =
      Keeps-Once d _ refl ((recover_expired-Keeping service.journal_setup k h f m).keeps d.journal)
        once
  step-Once (marks k m) d once =
      Keeps-Once d _ refl ((mark_unknown-Keeping service.journal_setup k m).keeps d.journal) once
  step-Once (reconciles k id m) d once =
      Keeps-Once d _ refl
        ((reconcile_completed-Keeping service.journal_setup k id m).keeps d.journal) once
  step-Once (switches_to r) d once = Keeps-Once d _ refl (λ k h. h) once

  run-Once : (steps : List Step) (d : Desk) → Once d → Once (run service steps d)
  unfolding run
  run-Once [] d once = once
  run-Once (s ∷ steps) d once = run-Once steps (step service s d) (step-Once s d once)

  -- From an empty journal, over any submissions, recoveries, reconciliations and changes of the
  -- switches, whatever the broker answers or raises and whatever expires: the broker is called at
  -- most once for each idempotency key.
  pub broker_at_most_once :
      (steps : List Step) (switches : Repository) (k : String)
      → calls_of k (run service steps (empty_desk switches)).sent ≤ 1
  unfolding empty_desk calls_of IsOnce
  broker_at_most_once steps switches k =
      ground (arith, run-Once steps (empty_desk switches) (λ j. inl refl) k)
