-- ===== src/Risk/Approval.antt =====
-- The approval gate: src/quantora_trade/risk/approval.py.
pub mod Gate
use native.Mathlib.Decide.{ℕ_discrete}
use Prim.Native.String.{◌++◌ as join}
use quantora_trade.Prelude.{
  ℕ, String, Bool, true, false, not, ◌||◌, Option, none, some, List, [], ◌∷◌, ◌==◌, ◌!=◌, nat_eq,
}
use quantora_trade.Prelude.Exec.{value_error, Check, check, ◌⨾◌, Result, ok, err}
use quantora_trade.Domain.Enums.{
  Action, buy, sell, hold, TradingMode, backtest, paper, live, action_eq,
}
use quantora_trade.Domain.Time.{DateTime, before, not_after, require_utc}
use quantora_trade.Domain.Libs.{Libs, Payload, Rendered, text, uuid, decimal, null}
use quantora_trade.Domain.Orders.{
  Decision, RiskAssessment, ApprovedOrderIntent, check_intent, is_none,
}

abbrev pub action_value : Action → String
action_value buy = "BUY"
action_value sell = "SELL"
action_value hold = "HOLD"

abbrev pub mode_value : TradingMode → String
mode_value backtest = "backtest"
mode_value paper = "paper"
mode_value live = "live"

abbrev pub optional_decimal : Option ℕ → Rendered
optional_decimal none = null
optional_decimal (some n) = decimal n

-- The guards, in order.
unfoldable pub check_approval : Decision → RiskAssessment → DateTime → Check
check_approval decision assessment created_at =
    require_utc created_at "created_at must be timezone-aware UTC"
    ⨾ check (decision.action == hold) (value_error "HOLD decision cannot produce an order intent")
    ⨾ check (not_after decision.expires_at created_at)
        (value_error "decision expired before order approval")
    ⨾ check (assessment.decision_id != decision.id)
        (value_error "risk assessment does not belong to decision")
    ⨾ check (not assessment.approved)
        (value_error "rejected risk assessment cannot produce an order intent")
    ⨾ check (is_none assessment.stop_loss || assessment.volume == 0)
        (value_error "approved assessment is missing protective sizing")
    ⨾ check (before created_at assessment.created_at)
        (value_error "risk assessment cannot come from the future")

-- The text that is hashed, with the stop loss that the guards have found.
unfoldable pub intent_identity : Decision → RiskAssessment → TradingMode → ℕ → Payload
intent_identity decision assessment mode stop_loss =
    ("assessment_id", uuid assessment.id)
    ∷ ("decision_id", uuid decision.id)
    ∷ ("mode", text (mode_value mode))
    ∷ ("side", text (action_value decision.action))
    ∷ ("stop_loss", decimal stop_loss)
    ∷ ("symbol", text decision.symbol)
    ∷ ("take_profit", optional_decimal assessment.take_profit)
    ∷ ("volume", decimal assessment.volume)
    ∷ []

-- `uuid_text` is `str` of a UUID.
module _ (libs : Libs) (uuid_text : ℕ → String) where
  unfoldable pub new_intent :
      Decision → RiskAssessment → TradingMode → DateTime → ℕ → ApprovedOrderIntent
  new_intent decision assessment mode created_at stop_loss =
      let id = libs.uuid5 (libs.json_dumps (intent_identity decision assessment mode stop_loss)) in
      record {
        id = id;
        risk_assessment_id = assessment.id;
        idempotency_key = join "quantora:" (uuid_text id);
        mode = mode;
        symbol = decision.symbol;
        side = decision.action;
        volume = assessment.volume;
        stop_loss = stop_loss;
        take_profit = assessment.take_profit;
        created_at = created_at;
      }

  abbrev pub checked_intent : ApprovedOrderIntent → Check → Result ApprovedOrderIntent
  checked_intent intent (ok _) = ok intent
  checked_intent intent (err e) = err e

  abbrev pub intent_after :
      Decision
      → RiskAssessment
      → TradingMode
      → DateTime
      → Option ℕ
      → Check
      → Result ApprovedOrderIntent
  intent_after decision assessment mode created_at stop_loss (err e) = err e
  intent_after decision assessment mode created_at none (ok _) =
      err (value_error "approved assessment is missing protective sizing")
  intent_after decision assessment mode created_at (some level) (ok _) =
      let intent = new_intent decision assessment mode created_at level in
      checked_intent intent (check_intent intent)

  unfoldable pub build_approved_order_intent :
      Decision → RiskAssessment → TradingMode → DateTime → Result ApprovedOrderIntent
  build_approved_order_intent decision assessment mode created_at =
      intent_after decision assessment mode created_at assessment.stop_loss
        (check_approval decision assessment created_at)
