-- ===== src/Domain/Time.antt =====
-- Datetimes: an aware datetime is its instant in microseconds and whether its offset is that of UTC.
-- A naive datetime fails the same test as one of another offset, and is counted with those.
use quantora_trade.Prelude.{ℕ, String, Bool, if◌then◌else◌, Eq, leb, ltb}
use quantora_trade.Prelude.Exec.{Result, ok, err, value_error}
use native.Mathlib.Decide.{ℕ_discrete}

pub record DateTime : Type 0 where
  pub utc : Bool
  pub instant : ℕ

unfoldable pub DateTime-discrete : Discrete DateTime
DateTime-discrete = hlevel ℕ_discrete

instance abbrev pub date_time_eq : Eq DateTime
date_time_eq = record { dec = DateTime-discrete }

-- `a < b` and `a <= b`
abbrev pub before : DateTime → DateTime → Bool
before a b = ltb a.instant b.instant

abbrev pub not_after : DateTime → DateTime → Bool
not_after a b = leb a.instant b.instant

-- The checks named `_utc` and `_require_utc` of the source's modules.
abbrev pub require_utc : DateTime → String → Result (Unit {0})
require_utc t message = if t.utc then ok tt else err (value_error message)
