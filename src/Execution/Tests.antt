-- ===== src/Execution/Tests.antt =====
-- Concrete inputs for the PAPER execution, and runs at them; the children have the theorems at
-- these inputs.
mod PaperTests
mod TableTests
use mathlib.Core.Option
use native.Mathlib.Decide.{ℕ_discrete}
use text.Mathlib.TextEquality.{eq_iff}
use quantora_trade.Prelude.{
  ℕ, zero, suc, ◌+◌, ◌<◌, ◌≡◌, ◌≢◌, refl, Bool, true, false, String, String_discrete, Option, none,
  some, List, [], ◌∷◌, length, arith, ◌==◌, nat_eq, string_eq, if◌then◌else◌, ltb,
}
use quantora_trade.Prelude.Text.{is_blank, is_hex, text_length, is_trimmed, is_canonical, is_space}
use quantora_trade.Prelude.Dict.{Dict, lookup, insert}
use quantora_trade.Prelude.Exec.{ok, err, Result, Ends, Exec, idempotency_conflict}
use quantora_trade.Domain.Enums.{buy, sell, paper, TradingMode-discrete, Action-discrete}
use quantora_trade.Domain.Time.{DateTime, DateTime-discrete}
use quantora_trade.Domain.Libs.{Libs, Payload, Rendered, decimal}
use quantora_trade.Execution.Models.{
  InstrumentExecutionSnapshot, PaperOrderRequest, PaperQuote, PaperOrder, OrderStatus, created,
  accepted, request_eq, partial, filled, cancelled, check_request, check_event, check_fill,
  remaining_volume, OrderStatus-discrete, PaperOrderRequest-discrete, PaperOrder-discrete,
}
use quantora_trade.Execution.Lifecycle.{allows, require_transition}
use quantora_trade.Execution.Lifecycle.Trace.{is_cancelled}
use quantora_trade.Execution.Paper.{
  Setup, Adapter, Call, submits, adds_liquidity, cancels, run, call, empty, submit, submit_new,
  add_liquidity, cancel, expire, save, store, get, now, transition, route, fill, fill_volume,
  fill_price, fill_or_expire, new_order, order_event, fill_on_quote, cancel_order, quote_error,
  request_hash, request_payload, order_name,
}
use quantora_trade.Execution.Paper.Store.{IsProper, AllSound, run-empty-AllSound}
use quantora_trade.Execution.Paper.Replay.{submit_twice, request_payload-injective}
use quantora_trade.Execution.Paper.Fills.{
  submit_outcome, fill_exact, Gives, expected_status, expected_volume,
}
use quantora_trade.Execution.Paper.Terminal.{terminal_frozen}
use quantora_trade.Execution.Paper.History.{run-Has, IsLocal, Has}
use quantora_trade.Execution.Repository
use quantora_trade.Execution.Repository.{Table, validate}
use quantora_trade.Execution.Repository.Append.{Grows, persist-Grows}
use quantora_trade.Execution.Repository.Validation.{validate-IsPersistable, IsPersistable}
use quantora_trade.Execution.Durable
use quantora_trade.Execution.Durable.{Durable}
use quantora_trade.Execution.Durable.Safety.{no_lost_update, Keeps}
use quantora_trade.Execution.Durable.Calls.{run-validate, mutate-Reports}

abbrev pub utc_at : ℕ → DateTime
utc_at n = record { utc = true; instant = n }

-- Two digests: of the payloads with volume 100 and of all others.
abbrev pub digest_a : String
digest_a = "aaaaaaaaaaaaaaaaaaaaaaaaaaaaaaaaaaaaaaaaaaaaaaaaaaaaaaaaaaaaaaaa"

abbrev pub digest_b : String
digest_b = "bbbbbbbbbbbbbbbbbbbbbbbbbbbbbbbbbbbbbbbbbbbbbbbbbbbbbbbbbbbbbbbb"

abbrev pub volume_of : Payload → ℕ
volume_of [] = 0
volume_of ((_, decimal n) ∷ []) = n
volume_of (_ ∷ p) = volume_of p

abbrev pub libs : Libs
libs = record {
  json_dumps = λ p. if volume_of p == 100 then digest_a else digest_b;
  sha256 = λ s. s;
  uuid5 = text_length;
}

-- The clock reads 1000, 1001, …; one point of slippage, a commission of 2 and quotes up to 50 old.
abbrev pub setup : Setup
setup = record {
  libs = libs;
  clock = λ i. utc_at (1000 + i);
  policy = record { slippage_points = 1; commission_per_volume = 2; max_quote_age = 50 };
}

abbrev pub request : PaperOrderRequest
request = record {
  approved_intent_id = 7;
  idempotency_key = "order-1";
  mode = paper;
  symbol = "EURUSD";
  side = buy;
  volume = 100;
  instrument = record {
    instrument_id = 1;
    broker_id = 2;
    specification_hash = "aaaaaaaaaaaaaaaaaaaaaaaaaaaaaaaaaaaaaaaaaaaaaaaaaaaaaaaaaaaaaaaa";
    quote_currency = "USD";
    contract_multiplier = 1;
    point = 5;
  };
  expires_at = utc_at 2000;
}

abbrev pub quote_of : ℕ → PaperQuote
quote_of n = record {
  symbol = "EURUSD";
  bid = 300;
  ask = 310;
  available_volume = n;
  observed_at = utc_at 990;
}

-- What a run computes through.
unfoldable pub executable : Unit {0}
unfolding submit submit_new route save store now transition require_transition allows check_event
    quote_error fill remaining_volume fill_volume fill_price check_fill add_liquidity get
    fill_or_expire fill_on_quote cancel cancel_order run call empty request_hash request_payload
    order_name lookup insert is_blank String_discrete ℕ_discrete OrderStatus-discrete text_length
    Action-discrete
executable = tt

abbrev pub calls : List Call
calls =
    submits request (quote_of 40) ∷ adds_liquidity "order-1" (quote_of 10) ∷ cancels "order-1" ∷ []

-- 40 of 100 filled at 315, 10 more, then cancelled.
abbrev pub after_calls : Adapter
after_calls = run setup calls empty

test_run :
    Option.map {B = OrderStatus × ℕ × ℕ × ℕ}
      (λ o. (o.status, o.filled_volume, length o.events, length o.fills))
      (lookup "order-1" after_calls.orders)
    ≡ some (cancelled, 50, 6, 2)
unfolding executable
test_run = refl

pub request-checked : check_request request ≡ ok tt
unfolding check_request executable is_canonical is_trimmed TradingMode-discrete
request-checked = refl

-- The same with a hash that is the same digest for every text.
abbrev pub hex_setup : Setup
hex_setup = record setup { libs = record libs { sha256 = λ text. digest_a } }
