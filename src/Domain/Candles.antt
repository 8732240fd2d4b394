-- ===== src/Domain/Candles.antt =====
-- Candles: `Candle` of src/quantora_trade/domain/models.py. A price counts units of 10^-12.
use quantora_trade.Prelude.{String, Bool, false, Option, none, some, leb}
use quantora_trade.Prelude.Int.{ℤ, pos, ltb_ℤ, max_ℤ, min_ℤ}
use quantora_trade.Prelude.Exec.{value_error, Check, check, ◌⨾◌}
use quantora_trade.Domain.Time.{DateTime, require_utc}

pub record Candle : Type 0 where
  pub symbol : String
  pub timeframe : String
  pub open_time : DateTime
  pub close_time : DateTime
  pub opening : ℤ
  pub high : ℤ
  pub low : ℤ
  pub closing : ℤ
  pub tick_volume : Option ℤ
  pub is_closed : Bool

abbrev pub is_negative : Option ℤ → Bool
is_negative none = false
is_negative (some v) = ltb_ℤ v (pos 0)

unfoldable pub check_candle : Candle → Check
check_candle c =
    require_utc c.open_time "open_time"
    ⨾ require_utc c.close_time "close_time"
    ⨾ check (leb c.close_time.instant c.open_time.instant)
        (value_error "close_time must be after open_time")
    ⨾ check (ltb_ℤ c.high (max_ℤ (max_ℤ c.opening c.closing) c.low))
        (value_error "high violates OHLC invariant")
    ⨾ check (ltb_ℤ (min_ℤ (min_ℤ c.opening c.closing) c.high) c.low)
        (value_error "low violates OHLC invariant")
    ⨾ check (is_negative c.tick_volume) (value_error "tick_volume must be non-negative")
