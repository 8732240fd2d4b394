-- ===== src/Risk/Tests/SubmissionTests.antt =====
-- The approval gate and the submission boundary at concrete inputs.
use native.Mathlib.Decide.{ℕ_discrete}
use quantora_trade.Prelude.{
  ℕ, ◌⊎◌, ◌++◌, arith, zero, suc, ◌+◌, ◌≤◌, ◌↔◌, ◌≡◌, refl, String, String_discrete, some, true,
  List, [], ◌∷◌,
}
use quantora_trade.Prelude.Text.{is_canonical, text_length, is_blank, is_hex}
use quantora_trade.Prelude.Dict.{lookup, insert, remove}
use quantora_trade.Prelude.Exec.{ok, err, runtime_error}
use quantora_trade.Domain.Enums.{buy, hold, paper, Action-discrete, TradingMode-discrete}
use quantora_trade.Domain.Time.{DateTime, DateTime-discrete}
use quantora_trade.Domain.Libs.{Libs}
use quantora_trade.Domain.Orders.{
  Decision, RiskAssessment, ApprovedOrderIntent, ApprovedOrderIntent-discrete, check_intent, one,
}
use quantora_trade.Risk.KillSwitch.{no_switches, is_blocked, active_in}
use quantora_trade.Infrastructure.Journal.{
  JournalSetup, claim, acquire, claim_row, claim_state, complete, owned, locked, forget, put_row,
  new_owner, RowState-discrete,
}
use quantora_trade.Infrastructure.Journal as J
use quantora_trade.Risk.Approval.{
  build_approved_order_intent, check_approval, new_intent, intent_identity,
}
use quantora_trade.Risk.Approval.Gate.{build-IsApprovable, IsApprovable, IsIntentOf}
use quantora_trade.Risk.Submission.{
  Service, Step, submits, recovers, run, step, submit, now, verify, check_routing, check_evidence,
  decision, assessment, submission_context, after_claim, send, deliver, refuse,
  submission_request_hash, submission_payload, empty_desk,
}
use quantora_trade.Risk.Decision.{Signal, DecisionPolicy, check_policy, decide}
use quantora_trade.Risk.Decision.Policy.{IsSignal, IsEligible, decide-IsEligible}
use quantora_trade.Risk.Submission.Once.{calls_of, broker_at_most_once}
use quantora_trade.Risk.Submission.Guards.{Sends, submit-Sends}

abbrev at_time : ℕ → DateTime
at_time n = record { utc = true; instant = n }

abbrev digest : String
digest = "aaaaaaaaaaaaaaaaaaaaaaaaaaaaaaaaaaaaaaaaaaaaaaaaaaaaaaaaaaaaaaaa"

abbrev libs : Libs
libs = record { json_dumps = λ p. digest; sha256 = λ s. s; uuid5 = text_length }

abbrev uuid_text : ℕ → String
uuid_text n = "00000000-0000-5000-8000-000000000040"

abbrev a_decision : Decision
a_decision = record {
  id = 3;
  signal_id = 2;
  symbol = "EURUSD";
  timeframe = "M15";
  action = buy;
  confidence = 800000000000;
  policy_version = "d1";
  reason_codes = "BULLISH_TRIGGER" ∷ [];
  expires_at = at_time 2000;
}

abbrev an_assessment : RiskAssessment
an_assessment = record {
  id = 5;
  decision_id = 3;
  policy_version = "r1";
  approved = true;
  rejection_codes = [];
  risk_amount = 50;
  volume = 100;
  stop_loss = some 290;
  take_profit = some 330;
  created_at = at_time 900;
}

abbrev intent : ApprovedOrderIntent
intent = new_intent libs uuid_text a_decision an_assessment paper (at_time 950) 290

-- The broker's first answer is lost.
abbrev service : Service
service = record {
  libs = libs;
  uuid_text = uuid_text;
  evidence = record {
    decisions = (3, a_decision) ∷ [];
    assessments =
        (5, (an_assessment, record { account = "paper-1"; asset = "FX"; strategy = "trend" })) ∷ [];
  };
  journal_setup = record { clock = λ n. 1000 + n; uuid4 = λ n. n; lease_duration = 120 };
  broker = λ n i. elim n [ zero ↦ err (runtime_error "connection lost") | suc _ ↦ ok "order-1" ];
  clock = λ n. at_time (1000 + n);
  decision_policy_version = "d1";
  risk_policy_version = "r1";
}

-- A submission whose answer is lost, a retry, and a recovery.
abbrev steps : List Step
steps =
    submits intent
    ∷ submits intent
    ∷ recovers intent.idempotency_key digest (ok (some "order-1")) (("by", "ops") ∷ [])
    ∷ submits intent
    ∷ []

build-IsApprovable_example :
    (build_approved_order_intent libs uuid_text a_decision an_assessment paper (at_time 950)
      ≡ ok intent)
    ↔ (IsApprovable a_decision an_assessment (at_time 950)
        × ((level : ℕ) × (an_assessment.stop_loss ≡ some level)
            × IsIntentOf libs uuid_text a_decision an_assessment paper (at_time 950) level intent))
build-IsApprovable_example =
    build-IsApprovable libs uuid_text a_decision an_assessment paper (at_time 950) intent

broker_at_most_once_example :
    calls_of intent.idempotency_key (run service steps (empty_desk no_switches)).sent ≤ 1
broker_at_most_once_example = broker_at_most_once service steps no_switches intent.idempotency_key

submit-Sends_example :
    Sends service intent (empty_desk no_switches) (submit service intent (empty_desk no_switches)).1
submit-Sends_example = submit-Sends service intent (empty_desk no_switches)

-- The first submission reaches the broker and the retry does not.
test_sent :
    calls_of intent.idempotency_key
      (run service (submits intent ∷ submits intent ∷ []) (empty_desk no_switches)).sent
    ≡ 1
unfolding run step submit now verify check_routing check_evidence decision assessment
    submission_context after_claim send deliver refuse submission_request_hash submission_payload
    empty_desk no_switches is_blocked active_in claim acquire claim_row claim_state complete owned
    locked forget put_row new_owner J.now RowState-discrete lookup insert remove String_discrete
    ℕ_discrete Action-discrete TradingMode-discrete ApprovedOrderIntent-discrete check_intent
    build_approved_order_intent check_approval new_intent intent_identity calls_of is_blank is_hex
    text_length DateTime-discrete
test_sent = refl

abbrev signal : Signal
signal = record {
  id = 2;
  symbol = "EURUSD";
  timeframe = "M15";
  action = buy;
  confidence = 800000000000;
  strategy_version = "s1";
  reason_codes = "BULLISH_TRIGGER" ∷ [];
  observed_at = at_time 800;
  expires_at = at_time 2000;
}

abbrev decision_policy : DecisionPolicy
decision_policy = record { version = "d1"; minimum_confidence = 700000000000 }

policy-checked : check_policy decision_policy ≡ ok tt
unfolding check_policy is_blank one ℕ_discrete
policy-checked = refl

signal-IsSignal : IsSignal signal
unfolding is_canonical is_blank one ℕ_discrete
signal-IsSignal = (refl, refl, refl, omega arith)

decide-IsEligible_example :
    (d : Decision) × (decide libs decision_policy signal (at_time 900) ≡ ok d)
    × ((IsEligible decision_policy signal (at_time 900)
          × (d.action ≡ buy)
          × (d.reason_codes ≡ signal.reason_codes))
        ⊎ (¬ IsEligible decision_policy signal (at_time 900)
            × (d.action ≡ hold)
            × ((code : String) × (d.reason_codes ≡ signal.reason_codes ++ code ∷ []))))
    × (d.signal_id ≡ 2)
    × (d.symbol ≡ "EURUSD")
    × (d.timeframe ≡ "M15")
    × (d.confidence ≡ 800000000000)
    × (d.expires_at ≡ at_time 2000)
decide-IsEligible_example =
    decide-IsEligible libs decision_policy signal (at_time 900) policy-checked signal-IsSignal refl
