-- ===== src/Risk/Decision.antt =====
-- The decision engine: src/quantora_trade/risk/decision.py, on the signals of
-- src/quantora_trade/domain/models.py. A confidence counts units of 10^-12.
pub mod Policy
use native.Mathlib.Decide.{ℕ_discrete}
use quantora_trade.Prelude.{
  ℕ, String, String_discrete, Bool, true, false, not, ◌&&◌, List, [], ◌∷◌, ◌++◌, ltb, ◌==◌, ◌!=◌,
  nat_eq, string_eq, if◌then◌else◌,
}
use quantora_trade.Prelude.Text.{is_blank}
use quantora_trade.Prelude.Exec.{value_error, assertion_error, Check, check, ◌⨾◌, Result, ok, err}
use quantora_trade.Domain.Enums.{Action, hold, action_eq}
use quantora_trade.Domain.Time.{DateTime, not_after, require_utc}
use quantora_trade.Domain.Libs.{Libs, Payload, text, texts, uuid, decimal, iso}
use quantora_trade.Domain.Orders.{Decision, check_decision, one}
use quantora_trade.Risk.Approval.{action_value}

pub record Signal : Type 0 where
  pub id : ℕ
  pub symbol : String
  pub timeframe : String
  pub action : Action
  pub confidence : ℕ
  pub strategy_version : String
  pub reason_codes : List String
  pub observed_at : DateTime
  pub expires_at : DateTime

pub record DecisionPolicy : Type 0 where
  pub version : String
  pub minimum_confidence : ℕ

unfoldable pub check_policy : DecisionPolicy → Check
check_policy p =
    check (is_blank p.version) (value_error "decision policy version must not be empty")
    ⨾ check (ltb one p.minimum_confidence)
        (value_error "minimum_confidence must be between zero and one")

-- The action and the reasons that the policy gives, none or one, so that sorting leaves them.
unfoldable pub judge : DecisionPolicy → Signal → DateTime → Action × List String
judge policy signal t =
    if signal.action == hold
    then (hold, "SIGNAL_HOLD" ∷ [])
    else if not_after signal.expires_at t
    then (hold, "SIGNAL_EXPIRED" ∷ [])
    else if ltb signal.confidence policy.minimum_confidence
    then (hold, "BELOW_DECISION_CONFIDENCE" ∷ [])
    else (signal.action, [])

unfoldable pub decision_identity : DecisionPolicy → Signal → Action → List String → Payload
decision_identity policy signal action codes =
    ("action", text (action_value action))
    ∷ ("confidence", decimal signal.confidence)
    ∷ ("expires_at", iso signal.expires_at)
    ∷ ("policy_version", text policy.version)
    ∷ ("reason_codes", texts codes)
    ∷ ("signal_id", uuid signal.id)
    ∷ ("symbol", text signal.symbol)
    ∷ ("timeframe", text signal.timeframe)
    ∷ []

module _ (libs : Libs) (policy : DecisionPolicy) where
  unfoldable pub new_decision : Signal → Action × List String → Decision
  new_decision signal (action, reasons) =
      let codes = signal.reason_codes ++ reasons in
      record {
        id = libs.uuid5 (libs.json_dumps (decision_identity policy signal action codes));
        signal_id = signal.id;
        symbol = signal.symbol;
        timeframe = signal.timeframe;
        action = action;
        confidence = signal.confidence;
        policy_version = policy.version;
        reason_codes = codes;
        expires_at = signal.expires_at;
      }

  abbrev pub decision_if : Decision → Check → Result Decision
  decision_if d (ok _) = ok d
  decision_if d (err e) = err e

  unfoldable pub decide : Signal → DateTime → Result Decision
  decide signal t =
      let d = new_decision signal (judge policy signal t) in
      decision_if d (
        require_utc t "evaluated_at must be timezone-aware UTC"
        ⨾ check_decision d
        ⨾ check (d.action != signal.action && d.action != hold)
            (assertion_error "decision policy cannot reverse signal direction"))
