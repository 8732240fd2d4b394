-- ===== src/Domain/Orders.antt =====
-- Decisions, risk assessments and approved order intents, from
-- src/quantora_trade/domain/models.py, with the checks that their `__post_init__` makes. Amounts and
-- prices are natural numbers of units and a confidence counts units of 10^-12; the codes of
-- an assessment are kept without their vocabulary.
use native.Mathlib.Decide.{ℕ_discrete}
use quantora_trade.Prelude.{
  ℕ, String, String_discrete, Bool, true, false, not, ◌||◌, Option, none, some, List, ◌==◌, Eq, ltb,
  nat_eq, string_eq,
}
use quantora_trade.Prelude.Text.{is_blank, is_canonical}
use quantora_trade.Prelude.Exec.{value_error, Check, check, ◌⨾◌}
use quantora_trade.Domain.Enums.{
  Action, hold, TradingMode, Action-discrete, TradingMode-discrete, action_eq,
}
use quantora_trade.Domain.Time.{DateTime, DateTime-discrete, require_utc}

-- A confidence of 1.
unfoldable pub one : ℕ
one = 1000000000000

pub record Decision : Type 0 where
  pub id : ℕ
  pub signal_id : ℕ
  pub symbol : String
  pub timeframe : String
  pub action : Action
  pub confidence : ℕ
  pub policy_version : String
  pub reason_codes : List String
  pub expires_at : DateTime

unfoldable pub check_decision : Decision → Check
check_decision d =
    check (not (is_canonical d.symbol)) (value_error "decision symbol must be canonical uppercase")
    ⨾ check (is_blank d.timeframe || is_blank d.policy_version)
        (value_error "decision timeframe and policy_version must not be empty")
    ⨾ require_utc d.expires_at "expires_at must be timezone-aware UTC"
    ⨾ check (ltb one d.confidence) (value_error "confidence must be between zero and one")

pub record RiskAssessment : Type 0 where
  pub id : ℕ
  pub decision_id : ℕ
  pub policy_version : String
  pub approved : Bool
  pub rejection_codes : List String
  pub risk_amount : ℕ
  pub volume : ℕ
  pub stop_loss : Option ℕ
  pub take_profit : Option ℕ
  pub created_at : DateTime

abbrev pub is_none {ℓ} : {A : Type ℓ} → Option A → Bool
is_none none = true
is_none (some _) = false

pub record ApprovedOrderIntent : Type 0 where
  pub id : ℕ
  pub risk_assessment_id : ℕ
  pub idempotency_key : String
  pub mode : TradingMode
  pub symbol : String
  pub side : Action
  pub volume : ℕ
  pub stop_loss : ℕ
  pub take_profit : Option ℕ
  pub created_at : DateTime

unfoldable pub check_intent : ApprovedOrderIntent → Check
check_intent i =
    require_utc i.created_at "created_at must be timezone-aware UTC"
    ⨾ check (i.side == hold) (value_error "order side cannot be HOLD")
    ⨾ check (i.volume == 0) (value_error "volume must be greater than zero")
    ⨾ check (is_blank i.idempotency_key) (value_error "idempotency_key must not be empty")

ruleset intent_parts =
    (ℕ_discrete, String_discrete, Action-discrete, TradingMode-discrete, DateTime-discrete)

unfoldable pub ApprovedOrderIntent-discrete : Discrete ApprovedOrderIntent
ApprovedOrderIntent-discrete = hlevel intent_parts

instance abbrev pub intent_eq : Eq ApprovedOrderIntent
intent_eq = record { dec = ApprovedOrderIntent-discrete }
