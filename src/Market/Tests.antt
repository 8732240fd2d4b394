-- ===== src/Market/Tests.antt =====
-- Candles to validate: two quarter hours with a gap between them.
use native.Mathlib.Decide.{ℕ_discrete}
use quantora_trade.Prelude.{ℕ, ◌+◌, String_discrete, true, false, none, [], ◌∷◌, ◌≡◌, refl, ◌↔◌}
use quantora_trade.Prelude.Int.{pos, ◌*ℤ◌}
use quantora_trade.Domain.Time.{DateTime}
use quantora_trade.Domain.Candles.{Candle}
use quantora_trade.Market.Quality.{
  MarketDataValidator, is_usable, validate, scan, candle_issues, order_issues, staleness,
}
use quantora_trade.Market.Quality.Usable.{AreUsable, validate-AreUsable}

abbrev at_time : ℕ → DateTime
at_time n = record { utc = true; instant = n }

abbrev bar : ℕ → Candle
bar n = record {
  symbol = "EURUSD";
  timeframe = "M15";
  open_time = at_time n;
  close_time = at_time (n + 15);
  opening = pos 10;
  high = pos 12;
  low = pos 9;
  closing = pos 11;
  tick_volume = none;
  is_closed = true;
}

abbrev validator : MarketDataValidator
validator = record { expected_interval = pos 15; max_staleness = pos 30; gap_multiplier = pos 1 }

unfoldable executable : Unit {0}
unfolding is_usable validate scan candle_issues order_issues staleness String_discrete ◌*ℤ◌
    ℕ_discrete
executable = tt

-- A gap is no error; a bar twice and a late report are.
test_gap :
    is_usable (validate validator "EURUSD" "M15" (bar 100 ∷ bar 130 ∷ []) (at_time 170)) ≡ true
unfolding executable
test_gap = refl

test_twice :
    is_usable (validate validator "EURUSD" "M15" (bar 100 ∷ bar 100 ∷ []) (at_time 120)) ≡ false
unfolding executable
test_twice = refl

test_stale : is_usable (validate validator "EURUSD" "M15" (bar 100 ∷ []) (at_time 146)) ≡ false
unfolding executable
test_stale = refl

validate-AreUsable_example :
    is_usable (validate validator "EURUSD" "M15" (bar 100 ∷ bar 130 ∷ []) (at_time 170)) ≡ true
    ↔ AreUsable validator "EURUSD" "M15" (at_time 170) (bar 100 ∷ bar 130 ∷ [])
validate-AreUsable_example =
    validate-AreUsable validator "EURUSD" "M15" (at_time 170) (bar 100 ∷ bar 130 ∷ [])
