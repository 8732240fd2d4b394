-- ===== src/Market/Quality.antt =====
-- The validation of candle sequences: src/quantora_trade/market_data/quality.py. A timedelta is its
-- number of microseconds, and aware datetimes are equal when their instants are. The messages of
-- the issues, texts for a reader, are left out.
pub mod Usable
use quantora_trade.Prelude.{
  ℕ, String, String_discrete, Bool, true, false, not, Option, none, some, List, [], ◌∷◌, ◌++◌, any,
  length, ltb, ◌==◌, ◌!=◌, string_eq, nat_eq,
}
use native.Mathlib.Decide.{ℕ_discrete}
use quantora_trade.Prelude.Int.{ℤ, pos, sub_ℕ, ◌*ℤ◌, ltb_ℤ}
use quantora_trade.Domain.Time.{DateTime, before}
use quantora_trade.Domain.Candles.{Candle}

pub data DataQualitySeverity : Type 0 where
  warning error : DataQualitySeverity

pub data DataQualityIssueCode : Type 0 where
  empty_data symbol_mismatch timeframe_mismatch forming_candle : DataQualityIssueCode
  out_of_order duplicate_candle gap_detected stale_data : DataQualityIssueCode

pub record DataQualityIssue : Type 0 where
  pub code : DataQualityIssueCode
  pub severity : DataQualitySeverity
  pub candle_open_time : Option DateTime

pub record DataQualityReport : Type 0 where
  pub symbol : String
  pub timeframe : String
  pub candle_count : ℕ
  pub issues : List DataQualityIssue

abbrev pub is_error : DataQualityIssue → Bool
is_error i = elim i.severity [ error ↦ true | warning ↦ false ]

unfoldable pub is_usable : DataQualityReport → Bool
is_usable r = not (any is_error r.issues)

pub record MarketDataValidator : Type 0 where
  pub expected_interval : ℤ
  pub max_staleness : ℤ
  pub gap_multiplier : ℤ

-- `a - b`
abbrev pub since : DateTime → DateTime → ℤ
since a b = sub_ℕ a.instant b.instant

abbrev pub issue_if :
    Bool → DataQualityIssueCode → DataQualitySeverity → DateTime → List DataQualityIssue
issue_if true code severity t =
    record { code = code; severity = severity; candle_open_time = some t } ∷ []
issue_if false code severity t = []

-- `t in seen_open_times`
abbrev pub seen_before : DateTime → List DateTime → Bool
seen_before t = any (λ s. s.instant == t.instant)

abbrev pub latest : Candle → List Candle → Candle
latest c [] = c
latest _ (c ∷ cs) = latest c cs

module _ (v : MarketDataValidator) (symbol timeframe : String) where
  unfoldable pub candle_issues : List DateTime → Candle → List DataQualityIssue
  candle_issues seen c =
      issue_if (c.symbol != symbol) symbol_mismatch error c.open_time
      ++ issue_if (c.timeframe != timeframe) timeframe_mismatch error c.open_time
      ++ issue_if (not c.is_closed) forming_candle error c.open_time
      ++ issue_if (seen_before c.open_time seen) duplicate_candle error c.open_time

  unfoldable pub order_issues : Option Candle → Candle → List DataQualityIssue
  order_issues none c = []
  order_issues (some p) c =
      issue_if (before c.open_time p.open_time) out_of_order error c.open_time
      ++ issue_if (ltb_ℤ (v.expected_interval *ℤ v.gap_multiplier) (since c.open_time p.open_time))
          gap_detected warning c.open_time

  -- The loop over the candles, with the previous candle and the open times seen.
  unfoldable pub scan : Option Candle → List DateTime → List Candle → List DataQualityIssue
  scan previous seen [] = []
  scan previous seen (c ∷ cs) =
      candle_issues seen c ++ order_issues previous c ++ scan (some c) (c.open_time ∷ seen) cs

  unfoldable pub staleness : DateTime → Candle → List DataQualityIssue
  staleness as_of c =
      issue_if (ltb_ℤ v.max_staleness (since as_of c.close_time)) stale_data error c.open_time

  abbrev pub report : ℕ → List DataQualityIssue → DataQualityReport
  report n issues = record {
    symbol = symbol;
    timeframe = timeframe;
    candle_count = n;
    issues = issues;
  }

  unfoldable pub validate : List Candle → DateTime → DataQualityReport
  validate [] as_of =
      report 0 (record { code = empty_data; severity = error; candle_open_time = none } ∷ [])
  validate (c ∷ cs) as_of =
      report (length (c ∷ cs)) (scan none [] (c ∷ cs) ++ staleness as_of (latest c cs))
