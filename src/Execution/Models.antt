-- ===== src/Execution/Models.antt =====
-- The value objects of src/quantora_trade/execution/models.py, with the checks that their
-- `__post_init__` makes. Decimals are finite; a volume, a price and a rate count units of 10^-12,
-- the scale of their columns, and a commission, a product of two, counts units of 10^-24.
use native.Mathlib.Decide.{ℕ_discrete}
use quantora_trade.Prelude.{
  ℕ, String, not, ◌||◌, List, ◌-◌, ◌==◌, ◌!=◌, Eq, ltb, nat_eq, string_eq, String_discrete,
}
use quantora_trade.Prelude.Text.{is_blank, is_trimmed, is_canonical, text_length, is_hex}
use quantora_trade.Prelude.Exec.{value_error, Check, check, ◌⨾◌}
use quantora_trade.Domain.Enums.{
  Action, hold, TradingMode, paper, Action-discrete, TradingMode-discrete, action_eq,
  trading_mode_eq,
}
use quantora_trade.Domain.Time.{DateTime, DateTime-discrete, require_utc}

pub data OrderStatus : Type 0 where
  created accepted partial filled cancel_pending cancelled rejected expired unknown : OrderStatus

unfoldable pub OrderStatus-discrete : Discrete OrderStatus
OrderStatus-discrete = hlevel

instance abbrev pub order_status_eq : Eq OrderStatus
order_status_eq = record { dec = OrderStatus-discrete }

pub record InstrumentExecutionSnapshot : Type 0 where
  pub instrument_id : ℕ
  pub broker_id : ℕ
  pub specification_hash : String
  pub quote_currency : String
  pub contract_multiplier : ℕ
  pub point : ℕ

-- `_positive`, of a value that is not negative
abbrev pub require_positive : ℕ → String → Check
require_positive n message = check (n == 0) (value_error message)

unfoldable pub check_instrument : InstrumentExecutionSnapshot → Check
check_instrument i =
    check (text_length i.specification_hash != 64 || not (is_hex i.specification_hash))
      (value_error "specification_hash must be a SHA-256 hex digest")
    ⨾ check (not (is_canonical i.quote_currency) || text_length i.quote_currency != 3)
        (value_error "quote_currency must be canonical ISO-style uppercase")
    ⨾ require_positive i.contract_multiplier
        "contract_multiplier must be finite and greater than zero"
    ⨾ require_positive i.point "point must be finite and greater than zero"

pub record PaperOrderRequest : Type 0 where
  pub approved_intent_id : ℕ
  pub idempotency_key : String
  pub mode : TradingMode
  pub symbol : String
  pub side : Action
  pub volume : ℕ
  pub instrument : InstrumentExecutionSnapshot
  pub expires_at : DateTime

unfoldable pub check_request : PaperOrderRequest → Check
check_request r =
    check (r.mode != paper) (value_error "paper adapter accepts PAPER mode only")
    ⨾ check (r.side == hold) (value_error "paper order side must be BUY or SELL")
    ⨾ check (not (is_canonical r.symbol) || r.symbol == "")
        (value_error "symbol must be canonical uppercase")
    ⨾ check (is_blank r.idempotency_key || not (is_trimmed r.idempotency_key))
        (value_error "idempotency_key must be a non-empty trimmed value")
    ⨾ require_positive r.volume "volume must be finite and greater than zero"
    ⨾ require_utc r.expires_at "expires_at must be timezone-aware UTC"

pub record PaperQuote : Type 0 where
  pub symbol : String
  pub bid : ℕ
  pub ask : ℕ
  pub available_volume : ℕ
  pub observed_at : DateTime

unfoldable pub check_quote : PaperQuote → Check
check_quote q =
    check (not (is_canonical q.symbol) || q.symbol == "")
      (value_error "quote symbol must be canonical uppercase")
    ⨾ require_positive q.bid "bid must be finite and greater than zero"
    ⨾ require_positive q.ask "ask must be finite and greater than zero"
    ⨾ check (ltb q.ask q.bid) (value_error "ask must not be below bid")
    ⨾ require_utc q.observed_at "observed_at must be timezone-aware UTC"

pub record Fill : Type 0 where
  pub volume : ℕ
  pub price : ℕ
  pub commission : ℕ
  pub filled_at : DateTime

unfoldable pub check_fill : Fill → Check
check_fill f =
    require_positive f.volume "fill volume must be finite and greater than zero"
    ⨾ require_positive f.price "fill price must be finite and greater than zero"
    ⨾ require_utc f.filled_at "filled_at must be timezone-aware UTC"

pub record OrderEvent : Type 0 where
  pub sequence : ℕ
  pub status : OrderStatus
  pub occurred_at : DateTime
  pub code : String

unfoldable pub check_event : OrderEvent → Check
check_event e =
    check (e.sequence == 0 || is_blank e.code) (value_error "event sequence and code must be valid")
    ⨾ require_utc e.occurred_at "occurred_at must be timezone-aware UTC"

pub record PaperOrder : Type 0 where
  pub id : ℕ
  pub request_hash : String
  pub request : PaperOrderRequest
  pub status : OrderStatus
  pub filled_volume : ℕ
  pub fills : List Fill
  pub events : List OrderEvent

-- The source's difference may be negative, where this one is 0: the callers test for that.
unfoldable pub remaining_volume : PaperOrder → ℕ
remaining_volume o = o.request.volume - o.filled_volume

ruleset discrete_parts = (
  ℕ_discrete, String_discrete, DateTime-discrete, Action-discrete, TradingMode-discrete,
  OrderStatus-discrete,
)

unfoldable pub PaperOrderRequest-discrete : Discrete PaperOrderRequest
PaperOrderRequest-discrete = hlevel discrete_parts

unfoldable pub PaperOrder-discrete : Discrete PaperOrder
PaperOrder-discrete = hlevel (discrete_parts, PaperOrderRequest-discrete)

unfoldable pub OrderEvent-discrete : Discrete OrderEvent
OrderEvent-discrete = hlevel discrete_parts

unfoldable pub Fill-discrete : Discrete Fill
Fill-discrete = hlevel discrete_parts

instance abbrev pub request_eq : Eq PaperOrderRequest
request_eq = record { dec = PaperOrderRequest-discrete }

instance abbrev pub order_eq : Eq PaperOrder
order_eq = record { dec = PaperOrder-discrete }

instance abbrev pub event_eq : Eq OrderEvent
event_eq = record { dec = OrderEvent-discrete }

instance abbrev pub fill_eq : Eq Fill
fill_eq = record { dec = Fill-discrete }
