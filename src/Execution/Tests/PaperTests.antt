-- ===== src/Execution/Tests/PaperTests.antt =====
-- The adapter's theorems at inputs that meet their hypotheses.
use text.Mathlib.TextEquality.{eq_iff}
use quantora_trade.Prelude.{
  All, ℕ, ◌+◌, ◌-◌, ◌*◌, ◌<◌, ◌≤◌, ◌⊎◌, ◌++◌, min, ◌≡◌, ◌≢◌, refl, true, Option, none, some, List,
  [], ◌∷◌, arith, nat_eq, string_eq,
}
use quantora_trade.Prelude.Dict.{lookup}
use quantora_trade.Prelude.Exec.{ok, err, Result}
use quantora_trade.Domain.Enums.{buy}
use quantora_trade.Execution.Models.{PaperOrderRequest, PaperOrder, created, request_eq, partial}
use quantora_trade.Execution.Lifecycle.Trace.{is_cancelled, IsTerminal}
use quantora_trade.Execution.Paper.{
  Adapter, Call, submits, adds_liquidity, cancels, run, empty, submit, add_liquidity, cancel,
  expire, fill, fill_price, new_fill, new_order, order_event, request_hash,
}
use quantora_trade.Execution.Paper.Store.{IsProper, AllSound, run-empty-AllSound}
use quantora_trade.Execution.Paper.Replay.{Replays, submit_twice, request_payload-injective}
use quantora_trade.Execution.Paper.Fills.{submit_outcome, fill_exact, Gives}
use quantora_trade.Execution.Paper.Terminal.{terminal_frozen, Fails}
use quantora_trade.Execution.Paper.History.{run-Has, Has}
use quantora_trade.Execution.Tests.{
  utc_at, digest_a, digest_b, libs, setup, request, quote_of, calls, after_calls, executable,
  request-checked,
}

calls-IsProper : All (IsProper setup) calls
calls-IsProper = (request-checked, (tt, (tt, tt)))

run-empty-AllSound_example : AllSound setup (run setup calls empty)
run-empty-AllSound_example = run-empty-AllSound setup calls calls-IsProper

-- The state after the first submission, and the order that it returned.
abbrev submitted : Result PaperOrder × Adapter
submitted = submit setup request (quote_of 40) empty

abbrev order_of : Result PaperOrder → PaperOrder
order_of (ok o) = o
order_of (err e) = new_order 0 "" request (order_event 0 created (utc_at 0) "")

submitted_ok : submitted.0 ≡ ok (order_of submitted.0)
unfolding executable
submitted_ok = refl

-- Another volume under the same key.
abbrev other_request : PaperOrderRequest
other_request = record request { volume = 200 }

other_hash : request_hash libs request ≡ request_hash libs other_request → ⊥
unfolding executable
other_hash e = ground (arith, eq_iff digest_a digest_b)

submit_twice_example :
    Replays setup request other_request
      (order_of submitted.0)
      submitted.1
      (submit setup other_request (quote_of 1) submitted.1)
submit_twice_example =
    submit_twice setup request other_request (quote_of 40) (quote_of 1) (order_of submitted.0) empty
      submitted.1 request-checked submitted_ok refl refl (λ e. absurd (other_hash e))

submitted_lookup : lookup "order-1" submitted.1.orders ≡ some (order_of submitted.0)
unfolding executable
submitted_lookup = refl

clock_utc : (i : ℕ) → (setup.clock i).utc ≡ true
clock_utc i = refl

submit_outcome_example : Gives setup clock_utc partial 40 (submit setup request (quote_of 40) empty)
unfolding executable
submit_outcome_example =
    submit_outcome setup clock_utc request (quote_of 40) empty request-checked refl priced
  where
    priced : (o : PaperOrder) → o.request ≡ request → 0 < fill_price setup o (quote_of 40)
    priced o e = ground arith

submitted-AllSound : AllSound setup submitted.1
unfolding executable
submitted-AllSound =
    run-empty-AllSound setup (submits request (quote_of 40) ∷ []) (request-checked, tt)

abbrev later_calls : List Call
later_calls = adds_liquidity "order-1" (quote_of 10) ∷ cancels "order-1" ∷ []

run-Has_example : Has setup "order-1" (order_of submitted.0) (run setup later_calls submitted.1)
run-Has_example =
    run-Has setup later_calls "order-1" (order_of submitted.0) submitted.1 (tt, (tt, tt))
      submitted-AllSound submitted_lookup

-- The fill of the 10 units.
abbrev filling : Result PaperOrder × Adapter
filling = fill setup (order_of submitted.0) (quote_of 10) submitted.1

filling_ok : filling.0 ≡ ok (order_of filling.0)
unfolding executable
filling_ok = refl

submitted_within : (order_of submitted.0).filled_volume ≤ (order_of submitted.0).request.volume
unfolding executable
submitted_within = omega arith

fill_exact_example :
    let o = order_of submitted.0 in
    let o' = order_of filling.0 in
    let volume = min (o.request.volume - o.filled_volume) (quote_of 10).available_volume in
    let slippage = o.request.instrument.point * setup.policy.slippage_points in
    (o'.filled_volume ≡ o.filled_volume + volume)
    × (((volume ≡ 0) × (o'.fills ≡ o.fills))
        ⊎ ((price : ℕ) × (o'.fills
              ≡ o.fills
                ++ new_fill volume price
                    (volume * setup.policy.commission_per_volume)
                    (setup.clock submitted.1.clock_calls)
                  ∷ [])
            × (0 < price)
            × ((o.request.side ≡ buy) → price ≡ (quote_of 10).ask + slippage)
            × ((o.request.side ≢ buy) → price + slippage ≡ (quote_of 10).bid)))
fill_exact_example =
    fill_exact setup (order_of submitted.0) (order_of filling.0) (quote_of 10) submitted.1
      submitted_within filling_ok

abbrev stored_order : Option PaperOrder → PaperOrder
stored_order (some o) = o
stored_order none = order_of submitted.0

cancelled_order :
    lookup "order-1" after_calls.orders ≡ some (stored_order (lookup "order-1" after_calls.orders))
unfolding executable
cancelled_order = refl

cancelled_status : IsTerminal (stored_order (lookup "order-1" after_calls.orders)).status
unfolding executable
cancelled_status = is_cancelled

terminal_frozen_example :
    Fails after_calls (add_liquidity setup "order-1" (quote_of 10) after_calls)
    × Fails after_calls (cancel setup "order-1" after_calls)
    × Fails after_calls (expire setup "order-1" after_calls)
terminal_frozen_example =
    terminal_frozen setup "order-1" (stored_order (lookup "order-1" after_calls.orders)) after_calls
      cancelled_order cancelled_status (quote_of 10)

request_payload-injective_example : request ≡ request
request_payload-injective_example = request_payload-injective request request refl refl
