-- ===== src/Risk/Submission.antt =====
-- The submission boundary: src/quantora_trade/risk/submission.py. The service over its journal, the
-- kill switch and a broker. The broker is a parameter: `broker n intent` is its answer to call
-- number `n`, an order's external id or what it raises. The evidence is read from records that no
-- operation here changes. `submission_guard` is the lock that makes the last check of the kill switch
-- and the broker's call one step, and the repository of the switches is the in-memory one, whose
-- reads do not fail.
pub mod Once
pub mod Guards
use native.Mathlib.Decide.{ℕ_discrete}
use quantora_trade.Prelude.{
  ℕ, ◌+◌, String, String_discrete, Bool, true, false, not, ◌||◌, Option, none, some, List, [], ◌∷◌,
  ◌++◌, length, ◌==◌, ◌!=◌, nat_eq, string_eq, if◌then◌else◌,
}
use quantora_trade.Prelude.Text.{is_blank, is_trimmed, upper, codes, codes_eq}
use quantora_trade.Prelude.Dict.{Dict, lookup}
use quantora_trade.Prelude.Exec.{
  value_error, permission_error, runtime_error, Check, check, ◌⨾◌, Result, ok, err, Exec, pure,
  raise, gets, lift, modify, raise_if, or_raise, ◌>>=◌, ◌>>◌,
}
use quantora_trade.Domain.Enums.{TradingMode, paper, live, trading_mode_eq}
use quantora_trade.Domain.Time.{DateTime, before, not_after}
use quantora_trade.Domain.Libs.{Libs, Payload, text, uuid, decimal, iso}
use quantora_trade.Domain.Orders.{Decision, RiskAssessment, ApprovedOrderIntent, intent_eq}
use quantora_trade.Risk.Approval.{
  build_approved_order_intent, action_value, mode_value, optional_decimal,
}
use quantora_trade.Risk.KillSwitch.{Repository, KillSwitchQuery, is_blocked, active_states}
use quantora_trade.Infrastructure.Journal.{
  Journal, JournalSetup, SubmissionClaim, acquired, completed, in_flight, unknown, claim, complete,
  abandon, mark_unknown, recover_expired, reconcile_completed,
}

pub record SubmissionContext : Type 0 where
  pub account : String
  pub asset : String
  pub strategy : String

abbrev pub check_name : String → String → Check
check_name s message = check (is_blank s || not (is_trimmed s)) (value_error message)

unfoldable pub check_context : SubmissionContext → Check
check_context c =
    check_name c.account "account must be a non-empty trimmed value"
    ⨾ check_name c.asset "asset must be a non-empty trimmed value"
    ⨾ check_name c.strategy "strategy must be a non-empty trimmed value"
    ⨾ check (codes c.asset != upper (codes c.asset))
        (value_error "asset must be canonical uppercase")

-- ApprovalEvidenceRepository, as its table holds it: an assessment with its context.
pub record Evidence : Type 0 where
  pub decisions : Dict ℕ Decision
  pub assessments : Dict ℕ (RiskAssessment × SubmissionContext)

abbrev pub first_of {ℓ} : {A B : Type ℓ} → Option (A × B) → Option A
first_of none = none
first_of (some p) = some p.0

abbrev pub second_of {ℓ} : {A B : Type ℓ} → Option (A × B) → Option B
second_of none = none
second_of (some p) = some p.1

unfoldable pub decision : Evidence → ℕ → Option Decision
decision e id = lookup id e.decisions

unfoldable pub assessment : Evidence → ℕ → Option RiskAssessment
assessment e id = first_of (lookup id e.assessments)

unfoldable pub submission_context : Evidence → ℕ → Option SubmissionContext
submission_context e id = second_of (lookup id e.assessments)

unfoldable pub submission_payload : ApprovedOrderIntent → Payload
submission_payload i =
    ("created_at", iso i.created_at)
    ∷ ("id", uuid i.id)
    ∷ ("idempotency_key", text i.idempotency_key)
    ∷ ("mode", text (mode_value i.mode))
    ∷ ("risk_assessment_id", uuid i.risk_assessment_id)
    ∷ ("side", text (action_value i.side))
    ∷ ("stop_loss", decimal i.stop_loss)
    ∷ ("symbol", text i.symbol)
    ∷ ("take_profit", optional_decimal i.take_profit)
    ∷ ("volume", decimal i.volume)
    ∷ []

unfoldable pub submission_request_hash : Libs → ApprovedOrderIntent → String
submission_request_hash libs i = libs.sha256 (libs.json_dumps (submission_payload i))

-- OrderSubmissionService with what it was given.
pub record Service : Type 0 where
  pub libs : Libs
  pub uuid_text : ℕ → String
  pub evidence : Evidence
  pub journal_setup : JournalSetup
  pub broker : ℕ → ApprovedOrderIntent → Result String
  pub clock : ℕ → DateTime
  pub decision_policy_version : String
  pub risk_policy_version : String

-- The journal, the switches, the readings of the service's clock and every call of the broker, the
-- first one first.
pub record Desk : Type 0 where
  pub journal : Journal
  pub switches : Repository
  pub clock_calls : ℕ
  pub sent : List ApprovedOrderIntent

abbrev pub with_journal : {A : Type 0} → Desk → Result A × Journal → Result A × Desk
with_journal d (r, j) = (r, record d { journal = j })

-- A method of the journal.
abbrev pub on_journal : {A : Type 0} → Exec Journal A → Exec Desk A
on_journal m d = with_journal d (m d.journal)

abbrev pub query : SubmissionContext → ApprovedOrderIntent → KillSwitchQuery
query context intent = record {
  account_name = some context.account;
  asset_name = some context.asset;
  symbol_name = some intent.symbol;
  strategy_name = some context.strategy;
  new_entry = true;
}

abbrev pub matches_expected : ApprovedOrderIntent → Result ApprovedOrderIntent → Check
matches_expected intent (err e) = err e
matches_expected intent (ok expected) =
    check (intent != expected) (permission_error "order intent does not match approval evidence")

-- The guards before the evidence is read.
unfoldable pub check_routing : ApprovedOrderIntent → DateTime → Check
check_routing intent t =
    check (not t.utc) (value_error "trusted clock must return timezone-aware UTC")
    ⨾ check (intent.mode == live) (permission_error "LIVE submission is disabled in Phase 5")
    ⨾ check (intent.mode != paper)
        (permission_error "broker submission is restricted to PAPER mode")
    ⨾ check (before t intent.created_at)
        (permission_error "order intent cannot come from the future")

pub data Step : Type 0 where
  submits : ApprovedOrderIntent → Step
  recovers : String → String → Result (Option String) → Dict String String → Step
  marks : String → Dict String String → Step
  reconciles : String → String → Dict String String → Step
  switches_to : Repository → Step

module _ (service : Service) where
  unfoldable pub now : Exec Desk DateTime
  now = do
    i ← gets (λ d. d.clock_calls)
    modify (λ d. record d { clock_calls = d.clock_calls + 1 })
    pure (service.clock i)

  -- The guards on the evidence.
  unfoldable pub check_evidence : ApprovedOrderIntent → Decision → RiskAssessment → DateTime → Check
  check_evidence intent d a t =
      check (d.policy_version != service.decision_policy_version)
        (permission_error "decision policy version mismatch")
      ⨾ check (a.policy_version != service.risk_policy_version)
          (permission_error "risk policy version mismatch")
      ⨾ check (not_after d.expires_at t) (permission_error "decision has expired")
      ⨾ matches_expected intent (
          build_approved_order_intent service.libs service.uuid_text d a intent.mode
            intent.created_at)

  abbrev pub context_if : Check → SubmissionContext → Result SubmissionContext
  context_if (ok _) context = ok context
  context_if (err e) context = err e

  abbrev pub verify_found :
      ApprovedOrderIntent
      → DateTime
      → RiskAssessment
      → Option Decision
      → Option SubmissionContext
      → Result SubmissionContext
  verify_found intent t a (some d) (some context) = context_if (check_evidence intent d a t) context
  verify_found intent t a _ _ = err (permission_error "decision or routing evidence is missing")

  abbrev pub verify_assessment :
      ApprovedOrderIntent → DateTime → Option RiskAssessment → Result SubmissionContext
  verify_assessment intent t none = err (permission_error "approval evidence is missing")
  verify_assessment intent t (some a) =
      verify_found intent t a (decision service.evidence a.decision_id)
        (submission_context service.evidence a.id)

  abbrev pub verify_routed : ApprovedOrderIntent → DateTime → Check → Result SubmissionContext
  verify_routed intent t (err e) = err e
  verify_routed intent t (ok _) =
      verify_assessment intent t (assessment service.evidence intent.risk_assessment_id)

  -- The part of `submit` before the claim: the routing context, if every guard passes.
  unfoldable pub verify : ApprovedOrderIntent → DateTime → Result SubmissionContext
  verify intent t = verify_routed intent t (check_routing intent t)

  -- The broker's call, then its record; if the broker raises, the claim stays in flight.
  unfoldable pub deliver : ApprovedOrderIntent → Exec Desk String
  deliver intent = do
    n ← gets (λ d. length d.sent)
    modify (λ d. record d { sent = d.sent ++ intent ∷ [] })
    id ← lift (service.broker n intent)
    on_journal (complete service.journal_setup intent.idempotency_key id)
    pure id

  unfoldable pub refuse : ApprovedOrderIntent → Exec Desk String
  refuse intent = do
    on_journal (abandon service.journal_setup intent.idempotency_key)
    raise (permission_error "kill switch blocks order submission")

  unfoldable pub send : ApprovedOrderIntent → SubmissionContext → Exec Desk String
  send intent context = do
    blocked ← gets (λ d. is_blocked (ok (active_states d.switches)) (query context intent))
    (if blocked then refuse intent else deliver intent)

  unfoldable pub after_claim :
      ApprovedOrderIntent → SubmissionContext → SubmissionClaim → Exec Desk String
  after_claim intent context (completed id) = pure id
  after_claim intent context in_flight =
      raise (runtime_error "submission outcome is pending reconciliation")
  after_claim intent context unknown =
      raise (runtime_error "submission outcome is unknown and requires reconciliation")
  after_claim intent context acquired = send intent context

  unfoldable pub submit : ApprovedOrderIntent → Exec Desk String
  submit intent = do
    t ← now
    context ← lift (verify intent t)
    c ← on_journal (
        claim service.journal_setup intent.idempotency_key
          (submission_request_hash service.libs intent))
    after_claim intent context c

  -- A step of the desk: a submission, a reconciliation of the journal, or a change of the switches.
  unfoldable pub step : Step → Desk → Desk
  step (submits intent) d = (submit intent d).1
  step (recovers key hash found metadata) d =
      (on_journal (recover_expired service.journal_setup key hash found metadata) d).1
  step (marks key metadata) d = (on_journal (mark_unknown service.journal_setup key metadata) d).1
  step (reconciles key id metadata) d =
      (on_journal (reconcile_completed service.journal_setup key id metadata) d).1
  step (switches_to switches) d = record d { switches = switches }

  unfoldable pub run : List Step → Desk → Desk
  run [] d = d
  run (s ∷ steps) d = run steps (step s d)

unfoldable pub empty_desk : Repository → Desk
empty_desk switches = record {
  journal = record { rows = []; owners = []; clock_calls = 0; uuid_calls = 0 };
  switches = switches;
  clock_calls = 0;
  sent = [];
}
