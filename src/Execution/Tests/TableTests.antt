-- ===== src/Execution/Tests/TableTests.antt =====
-- The repository's and the facade's theorems at inputs that meet their hypotheses.
use quantora_trade.Prelude.{
  ℕ, zero, suc, ◌+◌, ◌/◌, ◌↔◌, ◌≡◌, refl, true, String, Option, none, some, [], nat_eq, string_eq,
}
use quantora_trade.Prelude.Text.{is_hex}
use quantora_trade.Prelude.Dict.{Dict, lookup, insert}
use quantora_trade.Prelude.Exec.{ok, err, Result}
use quantora_trade.Domain.Enums.{TradingMode-discrete}
use quantora_trade.Domain.Time.{DateTime-discrete}
use quantora_trade.Execution.Models.{
  PaperOrder, created, request_eq, PaperOrderRequest-discrete, PaperOrder-discrete,
}
use quantora_trade.Execution.Paper.{
  Adapter, run, empty, submit, add_liquidity, cancel, reconcile, new_order, order_event,
}
use quantora_trade.Execution.Repository
use quantora_trade.Execution.Repository.{
  Table, validate, check_events, is_contiguous, check_transitions, collides,
}
use quantora_trade.Execution.Repository.Append.{Grows, Grows-refl, persist-Grows}
use quantora_trade.Execution.Repository.Validation.{
  validate-IsPersistable, IsPersistable, is_digest,
}
use quantora_trade.Execution.Durable
use quantora_trade.Execution.Durable.{Durable}
use quantora_trade.Execution.Durable.Safety.{no_lost_update, Keeps}
use quantora_trade.Execution.Durable.Calls.{run-validate, mutate-Reports, lost_races}
use quantora_trade.Execution.Tests.{
  hex_setup, utc_at, setup, request, quote_of, calls, executable, request-checked,
}

abbrev others : ℕ → Dict String PaperOrder → Dict String PaperOrder
others i rows = rows

others-Grows : (i : ℕ) (rows : Dict String PaperOrder) → Grows rows (others i rows)
others-Grows i rows = Grows-refl rows

-- The order that a submission makes, and the table that holds it.
abbrev made : Result PaperOrder × Adapter
made = submit setup request (quote_of 40) empty

abbrev order_of : Result PaperOrder → PaperOrder
order_of (ok o) = o
order_of (err e) = new_order 0 "" request (order_event 0 created (utc_at 0) "")

abbrev table : Table
table = record { rows = insert "order-1" (order_of made.0) []; accesses = 0 }

abbrev fresh_table : Table
fresh_table = record { rows = []; accesses = 0 }

persist-Grows_example :
    Grows table.rows (Repository.persist others (order_of made.0) (some 0) table).1.rows
persist-Grows_example = persist-Grows others others-Grows (order_of made.0) (some 0) table

validate-IsPersistable_example :
    (validate (order_of made.0) ≡ ok tt) ↔ IsPersistable (order_of made.0)
validate-IsPersistable_example = validate-IsPersistable (order_of made.0)

no_lost_update_example :
    Keeps (Durable.submit setup others request (quote_of 40))
    × Keeps (Durable.add_liquidity setup others "order-1" (quote_of 40))
    × Keeps (Durable.cancel setup others "order-1")
    × Keeps (Durable.expire setup others "order-1")
    × Keeps (Durable.get setup others "order-1")
no_lost_update_example = no_lost_update setup others others-Grows request (quote_of 40) "order-1"

digests : (text : String) → is_digest (hex_setup.libs.sha256 text) ≡ true
unfolding executable is_hex
digests text = refl

abbrev stored_order : Option PaperOrder → PaperOrder
stored_order (some o) = o
stored_order none = order_of made.0

abbrev final_order : PaperOrder
final_order = stored_order (lookup "order-1" (run hex_setup calls empty).orders)

final_order-lookup : lookup "order-1" (run hex_setup calls empty).orders ≡ some final_order
unfolding executable
final_order-lookup = refl

run-validate_example : validate final_order ≡ ok tt
run-validate_example =
    run-validate hex_setup calls "order-1" final_order digests (request-checked, (tt, (tt, tt)))
      final_order-lookup

abbrev durable : Durable
durable = record { memory = empty; table = fresh_table }

-- The order after more and more liquidity, and a process that adds some before each second access.
abbrev aged : ℕ → PaperOrder
aged zero = order_of made.0
aged (suc n) = stored_order (
    lookup "order-1"
      (add_liquidity setup "order-1" (quote_of 10)
        (record { orders = insert "order-1" (aged n) []; clock_calls = 20 })).1.orders)

abbrev busy : ℕ → Dict String PaperOrder → Dict String PaperOrder
busy i rows = insert "order-1" (aged ((i + 1) / 2)) rows

mutate-Reports_example : lost_races ≡ lost_races
unfolding executable Durable.mutate Durable.load Durable.attempt Durable.after_race
    Durable.apply_and_write Durable.write Repository.get Repository.persist Repository.interfere
    Repository.update_row Repository.advance Repository.require_identity validate check_events
    is_contiguous check_transitions is_hex TradingMode-discrete PaperOrderRequest-discrete
    PaperOrder-discrete reconcile DateTime-discrete
mutate-Reports_example =
    mutate-Reports setup busy 2 "order-1" (cancel setup "order-1") durable lost_races refl refl
