-- ===== src/Risk/Submission/Guards.antt =====
-- What stands before every call of the broker.
use quantora_trade.Prelude.{
  ◌+◌, ◌<◌, ◌≡◌, refl, sym, ◌∙◌, ap, ◌⊎◌, inl, inr, String, false, some, [], ◌∷◌, ◌++◌, arith,
  string_eq, Option-cases, length,
}
use quantora_trade.Prelude.Exec.{Result, ok, err, lift, continue, ◌>>=◌}
use quantora_trade.Domain.Enums.{paper}
use quantora_trade.Domain.Orders.{Decision, RiskAssessment, ApprovedOrderIntent}
use quantora_trade.Domain.Time.{DateTime}
use quantora_trade.Risk.Approval.{build_approved_order_intent}
use quantora_trade.Risk.KillSwitch.{is_blocked, active_states}
use quantora_trade.Infrastructure.Journal.{
  Journal, SubmissionClaim, acquired, completed, in_flight, unknown, claim,
}
use quantora_trade.Infrastructure.Journal.Rows.{has, claim-Keeps}
use quantora_trade.Risk.Submission.{
  Service, Desk, SubmissionContext, submit, now, verify, check_routing, check_evidence, after_claim,
  send, refuse, deliver, submission_request_hash, query, on_journal, with_journal, decision,
  assessment, submission_context,
}

module _ (service : Service) (i : ApprovedOrderIntent) where
  -- The stored evidence that approves the intent at the time.
  abbrev pub IsApproved : DateTime → SubmissionContext → Type 0
  IsApproved t context =
      (a : RiskAssessment) × (d : Decision) × (assessment service.evidence i.risk_assessment_id
        ≡ some a)
      × (decision service.evidence a.decision_id ≡ some d)
      × (submission_context service.evidence a.id ≡ some context)
      × (i.mode ≡ paper)
      × t.instant < d.expires_at.instant
      × (build_approved_order_intent service.libs service.uuid_text d a i.mode i.created_at ≡ ok i)

  verify-IsApproved :
      (t : DateTime) (context : SubmissionContext)
      → verify service i t ≡ ok context
      → IsApproved t context
  unfolding verify check_routing check_evidence
  verify-IsApproved t context h =
      elim (Option-cases (assessment service.evidence i.risk_assessment_id)) [
        | inl gone ↦ ground (arith, h, gone)
        | inr (a, p) ↦ elim (Option-cases (decision service.evidence a.decision_id)) [
          | inl gone ↦ ground (arith, h, p, gone)
          | inr (d, q) ↦ elim (Option-cases (submission_context service.evidence a.id)) [
            | inl gone ↦ ground (arith, h, p, q, gone)
            | inr (c, r) ↦ (
              a,
              d,
              p,
              q,
              ground (arith, h, p, q, r),
              ground (arith, h, p, q, r),
              ground (arith, h, p, q, r),
              ground (arith, h, p, q, r),
            )
          ]
        ]
      ]

  -- What holds when the broker is called: the guards passed, the journal had no claim of the key,
  -- and no switch blocks the order.
  abbrev pub IsCleared : Desk → Type 0
  IsCleared d =
      (context : SubmissionContext) × IsApproved (service.clock d.clock_calls) context
      × (has i.idempotency_key d.journal ≡ false)
      × (is_blocked (ok (active_states d.switches)) (query context i) ≡ false)

  -- The broker was not called; or it was called once, with the intent, when that was cleared.
  abbrev pub Sends : Desk → Desk → Type 0
  Sends d d' = (d'.sent ≡ d.sent) ⊎ ((d'.sent ≡ d.sent ++ i ∷ []) × IsCleared d)

  deliver-sent : (d : Desk) → (deliver service i d).1.sent ≡ d.sent ++ i ∷ []
  unfolding deliver
  deliver-sent d =
      elim (service.broker (length d.sent) i)
          as (λ r.
            (service.broker (length d.sent) i ≡ r)
            → (deliver service i d).1.sent ≡ d.sent ++ i ∷ []) [
              | err e ↦ λ p. ground (arith, p)
              | ok id ↦ λ p. ground (arith, p)
            ]
        refl

  send-Sends :
      (context : SubmissionContext) (d : Desk)
      → ((send service i context d).1.sent ≡ d.sent)
        ⊎ (((send service i context d).1.sent ≡ d.sent ++ i ∷ [])
            × (is_blocked (ok (active_states d.switches)) (query context i) ≡ false))
  unfolding send refuse
  send-Sends context d = ground (arith, deliver-sent d)

  after_claim-Sends :
      (context : SubmissionContext) (c : SubmissionClaim) (d : Desk)
      → ((after_claim service i context c d).1.sent ≡ d.sent)
        ⊎ (((after_claim service i context c d).1.sent ≡ d.sent ++ i ∷ [])
            × (c ≡ acquired)
            × (is_blocked (ok (active_states d.switches)) (query context i) ≡ false))
  unfolding after_claim
  after_claim-Sends context (completed id) d = inl refl
  after_claim-Sends context in_flight d = inl refl
  after_claim-Sends context unknown d = inl refl
  after_claim-Sends context acquired d = elim (send-Sends context d) [
    | inl p ↦ inl p
    | inr (p, q) ↦ inr (p, refl, q)
  ]

  claimed-Sends :
      (context : SubmissionContext) (r : Result SubmissionClaim × Journal) (d t : Desk)
      → t ≡ record d { clock_calls = d.clock_calls + 1 }
      → IsApproved (service.clock d.clock_calls) context
      → (r.0 ≡ ok acquired → has i.idempotency_key d.journal ≡ false)
      → Sends d
          (continue (with_journal t r).0 (with_journal t r).1 (after_claim service i context)).1
  claimed-Sends context (err e, j) d t p approved won = inl (ap (λ x. x.sent) p)
  claimed-Sends context (ok c, j) d t p approved won =
      elim (after_claim-Sends context c (record t { journal = j })) [
        | inl same ↦ inl (same ∙ ap (λ x. x.sent) p)
        | inr (sends, mine, free) ↦ inr (
          sends ∙ ap (λ x. x.sent ++ i ∷ []) p,
          (
            context,
            approved,
            won (ap ok mine),
            sym (ap (λ x. is_blocked (ok (active_states x.switches)) (query context i)) p) ∙ free,
          ),
        )
      ]

  -- A submission calls the broker at most once, and only with an intent that the stored evidence
  -- approves: a PAPER intent, the very one that the approval gate builds from its assessment and
  -- its unexpired decision; whose key the journal had no claim for; and that no active switch
  -- blocks in its routing context. On every other branch, the errors included, it does not call it.
  pub submit-Sends : (d : Desk) → Sends d (submit service i d).1
  unfolding submit now
  submit-Sends d =
      let t : Desk = record d { clock_calls = d.clock_calls + 1 } in
      let hash : String = submission_request_hash service.libs i in
      elim (verify service i (service.clock d.clock_calls))
          as (λ r.
            (verify service i (service.clock d.clock_calls) ≡ r)
            → Sends d
                ((lift r >>= λ context.
                    on_journal (claim service.journal_setup i.idempotency_key hash)
                    >>= after_claim service i context)
                  t).1) [
                    | err e ↦ λ p. inl refl
                    | ok context ↦ λ p.
                        claimed-Sends context
                          (claim service.journal_setup i.idempotency_key hash d.journal) d t refl
                          (verify-IsApproved (service.clock d.clock_calls) context p)
                          (λ won.
                            ((claim-Keeps service.journal_setup i.idempotency_key hash d.journal).1
                              won).0)
                  ]
        refl
