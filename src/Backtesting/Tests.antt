-- ===== src/Backtesting/Tests.antt =====
-- Six samples split at 20 and 40 microseconds; three fall into a buffer and are excluded.
use native.Mathlib.Decide.{ℕ_discrete}
use quantora_trade.Prelude.{ℕ, String, String_discrete, true, List, [], ◌∷◌, ◌≡◌, refl}
use quantora_trade.Prelude.Text.{is_blank}
use quantora_trade.Prelude.Int.{pos, ◌+ℤ◌, ◌-ℤ◌}
use quantora_trade.Prelude.Exec.{ok}
use quantora_trade.Domain.Time.{DateTime, DateTime-discrete}
use quantora_trade.Backtesting.Splits.{
  TemporalSample, ChronologicalDatasetSplit, TemporalSample-discrete, chronological_split,
  check_split, check_arguments, new_split, sorted,
}
use quantora_trade.Backtesting.Splits.Leakage.{AreClear, split-AreClear}

abbrev at_time : ℕ → DateTime
at_time n = record { utc = true; instant = n }

abbrev sample : String → ℕ → ℕ → TemporalSample
sample id n m = record { id = id; observed_at = at_time n; label_end_at = at_time m }

abbrev samples : List TemporalSample
samples =
    sample "a" 0 5
    ∷ sample "b" 10 19
    ∷ sample "c" 20 22
    ∷ sample "d" 25 31
    ∷ sample "e" 40 44
    ∷ sample "f" 45 48
    ∷ []

unfoldable executable : Unit {0}
unfolding chronological_split check_split check_arguments new_split sorted TemporalSample-discrete
    DateTime-discrete String_discrete ℕ_discrete ◌+ℤ◌ ◌-ℤ◌ is_blank
executable = tt

abbrev split : ChronologicalDatasetSplit
split = record {
  training = sample "a" 0 5 ∷ [];
  validation = sample "d" 25 31 ∷ [];
  test = sample "f" 45 48 ∷ [];
  excluded = sample "b" 10 19 ∷ sample "c" 20 22 ∷ sample "e" 40 44 ∷ [];
  validation_boundary = at_time 20;
  test_boundary = at_time 40;
  purge = pos 2;
  embargo = pos 3;
}

returned :
    chronological_split samples (pos 400000000000) (pos 300000000000) (pos 2) (pos 3) ≡ ok split
unfolding executable
returned = refl

split-AreClear_example :
    AreClear (pos 2) (pos 3) split.training split.validation
    × AreClear (pos 2) (pos 3) split.training split.test
    × AreClear (pos 2) (pos 3) split.validation split.test
split-AreClear_example =
    split-AreClear samples (pos 400000000000) (pos 300000000000) (pos 2) (pos 3) split returned
