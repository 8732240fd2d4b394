-- ===== src/Execution/Paper.antt =====
-- The in-memory PAPER adapter: src/quantora_trade/execution/paper.py. A method maps the adapter's
-- state to its result and the state that it leaves. `clock i` is the reading of the clock's call
-- number `i`, and the state counts the calls.
pub mod Invariant
pub mod Methods
pub mod Store
pub mod History
pub mod Replay
pub mod Fills
pub mod Terminal
pub mod Steps
use quantora_trade.Prelude.{
  ℕ, ◌+◌, ◌-◌, ◌*◌, min, String, Bool, true, false, not, ◌||◌, Option, none, some, List, [], ◌∷◌,
  ◌++◌, length, ltb, leb, ◌==◌, ◌!=◌, nat_eq, string_eq, if◌then◌else◌,
}
use Prim.Native.String.{◌++◌ as join}
use quantora_trade.Prelude.Dict.{Dict, lookup, insert}
use quantora_trade.Prelude.Exec.{
  Error, value_error, key_error, idempotency_conflict, Check, check, ◌⨾◌, Result, ok, err, Exec,
  pure, raise, gets, lift, modify, raise_if, or_raise, ◌>>=◌, ◌>>◌,
}
use quantora_trade.Domain.Enums.{
  action_eq, Action, buy, sell, hold, TradingMode, paper, live, backtest,
}
use quantora_trade.Domain.Time.{DateTime, before, not_after}
use quantora_trade.Domain.Libs.{Libs, Payload, text, uuid, decimal, iso}
use quantora_trade.Execution.Models.{
  OrderStatus, created, accepted, partial, filled, cancel_pending, cancelled, rejected, expired,
  PaperOrderRequest, PaperQuote, Fill, OrderEvent, PaperOrder, check_fill, check_event,
  remaining_volume, order_status_eq, request_eq, order_eq,
}
use quantora_trade.Execution.Lifecycle.{require_transition}

pub record PaperFillPolicy : Type 0 where
  pub slippage_points : ℕ
  pub commission_per_volume : ℕ
  pub max_quote_age : ℕ

unfoldable pub check_policy : PaperFillPolicy → Check
check_policy p =
    check (p.max_quote_age == 0) (value_error "max_quote_age must be greater than zero")

-- What the adapter is built from, with the standard library's functions.
pub record Setup : Type 0 where
  pub libs : Libs
  pub clock : ℕ → DateTime
  pub policy : PaperFillPolicy

pub record Adapter : Type 0 where
  pub orders : Dict String PaperOrder
  pub clock_calls : ℕ

abbrev pub mode_value : TradingMode → String
mode_value backtest = "backtest"
mode_value paper = "paper"
mode_value live = "live"

abbrev pub action_value : Action → String
action_value buy = "BUY"
action_value sell = "SELL"
action_value hold = "HOLD"

-- An amount is its value here, and `str` of a Decimal keeps how it was written: two payloads that
-- the model tells apart differ in the source too, and two that it makes equal are equal there when
-- their amounts are written alike (Decimal("1") and Decimal("1.0") are not).
unfoldable pub request_payload : PaperOrderRequest → Payload
request_payload r =
    ("approved_intent_id", uuid r.approved_intent_id)
    ∷ ("expires_at", iso r.expires_at)
    ∷ ("mode", text (mode_value r.mode))
    ∷ ("broker_id", uuid r.instrument.broker_id)
    ∷ ("contract_multiplier", decimal r.instrument.contract_multiplier)
    ∷ ("instrument_id", uuid r.instrument.instrument_id)
    ∷ ("point", decimal r.instrument.point)
    ∷ ("quote_currency", text r.instrument.quote_currency)
    ∷ ("specification_hash", text r.instrument.specification_hash)
    ∷ ("side", text (action_value r.side))
    ∷ ("symbol", text r.symbol)
    ∷ ("volume", decimal r.volume)
    ∷ []

unfoldable pub request_hash : Libs → PaperOrderRequest → String
request_hash libs r = libs.sha256 (libs.json_dumps (request_payload r))

-- The name under which the order's UUID is derived: `paper:{key}:{digest}`.
unfoldable pub order_name : String → String → String
order_name key digest = join (join (join "paper:" key) ":") digest

abbrev pub order_event : ℕ → OrderStatus → DateTime → String → OrderEvent
order_event n s t c = record { sequence = n; status = s; occurred_at = t; code = c }

abbrev pub new_fill : ℕ → ℕ → ℕ → DateTime → Fill
new_fill v p c t = record { volume = v; price = p; commission = c; filled_at = t }

abbrev pub new_order : ℕ → String → PaperOrderRequest → OrderEvent → PaperOrder
new_order id digest request event = record {
  id = id;
  request_hash = digest;
  request = request;
  status = created;
  filled_volume = 0;
  fills = [];
  events = event ∷ [];
}

unfoldable pub store : String → PaperOrder → Exec Adapter (Unit {0})
store key order = modify (λ s. record s { orders = insert key order s.orders })

-- `_get` and `get`
unfoldable pub get : String → Exec Adapter PaperOrder
get key = do
  found ← gets (λ s. lookup key s.orders)
  or_raise found (key_error "paper order not found")

-- The end of a method: its order is stored and returned.
unfoldable pub save : String → Exec Adapter PaperOrder → Exec Adapter PaperOrder
save key m = do order ← m; store key order; pure order

module _ (setup : Setup) where
  open setup use {libs, clock, policy}

  -- `self._clock.now()`
  unfoldable pub now : Exec Adapter DateTime
  now s = (ok (clock s.clock_calls), record s { clock_calls = s.clock_calls + 1 })

  unfoldable pub transition : PaperOrder → OrderStatus → String → Exec Adapter PaperOrder
  transition order target code = do
    lift (require_transition order.status target)
    t ← now
    let event = order_event (length order.events + 1) target t code
    lift (check_event event)
    pure (record order { status = target; events = order.events ++ event ∷ [] })

  -- `none` is a usable quote.
  unfoldable pub quote_error : PaperQuote → DateTime → Option String
  quote_error quote t =
      if before t quote.observed_at
      then some "QUOTE_FROM_FUTURE"
      else if ltb policy.max_quote_age (t.instant - quote.observed_at.instant)
      then some "QUOTE_TOO_OLD"
      else none

  -- On a sale the difference stops at 0, and the caller refuses 0 as the source refuses what is
  -- not positive.
  unfoldable pub fill_price : PaperOrder → PaperQuote → ℕ
  fill_price order quote =
      let adjustment = order.request.instrument.point * policy.slippage_points in
      if order.request.side == buy then quote.ask + adjustment else quote.bid - adjustment

  -- The part of `_fill` that has a volume other than 0. A negative volume and 0 fail the same check
  -- of `Fill`, so 0 stands for both.
  unfoldable pub fill_volume : PaperOrder → PaperQuote → ℕ → Exec Adapter PaperOrder
  fill_volume order quote volume = do
    let price = fill_price order quote
    raise_if (price == 0) (value_error "slippage produced a non-positive fill price")
    t ← now
    let fill = new_fill volume price (volume * policy.commission_per_volume) t
    lift (check_fill fill)
    let total = order.filled_volume + volume
    let target = if total == order.request.volume then filled else partial
    moved ←
        transition order target (if target == filled then "ORDER_FILLED" else "ORDER_PARTIAL_FILL")
    pure (record moved { filled_volume = total; fills = order.fills ++ fill ∷ [] })

  unfoldable pub fill : PaperOrder → PaperQuote → Exec Adapter PaperOrder
  fill order quote = do
    raise_if (not (order.status == accepted || order.status == partial))
        (value_error "only accepted or partial orders can fill")
    let volume = min (remaining_volume order) quote.available_volume
    (if ltb order.request.volume order.filled_volume
        then fill_volume order quote 0
        else if volume == 0
        then pure order
        else fill_volume order quote volume)

  -- The branches of `submit` between the created order and its store.
  unfoldable pub route : PaperOrder → PaperQuote → DateTime → Exec Adapter PaperOrder
  route order quote t =
      if not_after order.request.expires_at t
      then transition order expired "ORDER_EXPIRED"
      else if quote.symbol != order.request.symbol
      then transition order rejected "QUOTE_SYMBOL_MISMATCH"
      else elim (quote_error quote t) [
        | some code ↦ transition order rejected code
        | none ↦ transition order accepted "ORDER_ACCEPTED" >>= λ o. fill o quote
      ]

  unfoldable pub submit_new : PaperOrderRequest → PaperQuote → String → Exec Adapter PaperOrder
  submit_new request quote digest = do
    t ← now
    let event = order_event 1 created t "ORDER_CREATED"
    let id = libs.uuid5 (order_name request.idempotency_key digest)
    lift (check_event event)
    save request.idempotency_key (route (new_order id digest request event) quote t)

  unfoldable pub submit : PaperOrderRequest → PaperQuote → Exec Adapter PaperOrder
  submit request quote = do
    let digest = request_hash libs request
    replay ← gets (λ s. lookup request.idempotency_key s.orders)
    elim replay [
      | some order ↦
          if order.request_hash != digest
          then raise (idempotency_conflict "idempotency key reused with a different request")
          else pure order
      | none ↦ submit_new request quote digest
    ]

  unfoldable pub fill_on_quote : PaperOrder → PaperQuote → DateTime → Exec Adapter PaperOrder
  fill_on_quote order quote t = elim (quote_error quote t) [
    | some code ↦ raise (value_error code)
    | none ↦ fill order quote
  ]

  unfoldable pub fill_or_expire : PaperOrder → PaperQuote → DateTime → Exec Adapter PaperOrder
  fill_or_expire order quote t =
      if not_after order.request.expires_at t
      then transition order expired "ORDER_EXPIRED"
      else fill_on_quote order quote t

  unfoldable pub add_liquidity : String → PaperQuote → Exec Adapter PaperOrder
  add_liquidity key quote = do
    order ← get key
    raise_if (quote.symbol != order.request.symbol)
        (value_error "quote symbol does not match order")
    t ← now
    save key (fill_or_expire order quote t)

  unfoldable pub cancel_order : PaperOrder → Exec Adapter PaperOrder
  cancel_order order = do
    pending ← transition order cancel_pending "CANCEL_REQUESTED"
    transition pending cancelled "ORDER_CANCELLED"

  unfoldable pub cancel : String → Exec Adapter PaperOrder
  cancel key = do order ← get key; save key (cancel_order order)

  unfoldable pub expire : String → Exec Adapter PaperOrder
  expire key = do
    order ← get key
    t ← now
    raise_if (before t order.request.expires_at) (value_error "order has not reached expires_at")
    save key (transition order expired "ORDER_EXPIRED")

-- `existing is not None and existing != order`
abbrev pub differs : Option PaperOrder → PaperOrder → Bool
differs none order = false
differs (some existing) order = existing != order

-- The same with the identity alone.
abbrev pub differs_in_identity : Option PaperOrder → PaperOrder → Bool
differs_in_identity none order = false
differs_in_identity (some existing) order =
    existing.id != order.id
    || existing.request_hash != order.request_hash
    || existing.request != order.request

unfoldable pub restore : PaperOrder → Exec Adapter (Unit {0})
restore order = do
  existing ← gets (λ s. lookup order.request.idempotency_key s.orders)
  raise_if (differs existing order)
      (idempotency_conflict "in-memory state differs from durable state")
  store order.request.idempotency_key order

unfoldable pub reconcile : PaperOrder → Exec Adapter (Unit {0})
reconcile order = do
  existing ← gets (λ s. lookup order.request.idempotency_key s.orders)
  raise_if (differs_in_identity existing order)
      (idempotency_conflict "durable state belongs to a different request")
  store order.request.idempotency_key order

-- A call of the adapter.
pub data Call : Type 0 where
  submits : PaperOrderRequest → PaperQuote → Call
  adds_liquidity : String → PaperQuote → Call
  cancels expires : String → Call
  restores reconciles : PaperOrder → Call

-- The state that a call leaves; the caller has its result or its error.
unfoldable pub call : Setup → Call → Adapter → Adapter
call setup (submits r q) s = (submit setup r q s).1
call setup (adds_liquidity key q) s = (add_liquidity setup key q s).1
call setup (cancels key) s = (cancel setup key s).1
call setup (expires key) s = (expire setup key s).1
call setup (restores o) s = (restore o s).1
call setup (reconciles o) s = (reconcile o s).1

unfoldable pub run : Setup → List Call → Adapter → Adapter
run setup [] s = s
run setup (c ∷ cs) s = run setup cs (call setup c s)

unfoldable pub empty : Adapter
empty = record { orders = []; clock_calls = 0 }
