-- ===== src/Backtesting/Splits.antt =====
-- Chronological splits: src/quantora_trade/backtesting/splits.py. A timedelta is its number of
-- microseconds, a fraction counts units of 10^-12, and texts are ordered by their code points.
pub mod Leakage
use native.Mathlib.Decide.{ℕ_discrete}
use quantora_trade.Prelude.{
  ℕ, ◌*◌, ◌/◌, String, String_discrete, Bool, true, false, not, ◌&&◌, ◌||◌, List, [], ◌∷◌, ◌++◌,
  any, length, map, drop, ◌==◌, ◌!=◌, Eq, ltb, leb, nat_eq, string_eq, if◌then◌else◌,
}
use quantora_trade.Prelude.Text.{codes, is_blank}
use quantora_trade.Prelude.Int.{ℤ, pos, pos_part, ◌+ℤ◌, ◌-ℤ◌, ltb_ℤ, leb_ℤ}
use quantora_trade.Prelude.Exec.{value_error, index_error, Check, check, ◌⨾◌, Result, ok, err}
use quantora_trade.Domain.Time.{DateTime, DateTime-discrete, before, not_after, require_utc}

pub record TemporalSample : Type 0 where
  pub id : String
  pub observed_at : DateTime
  pub label_end_at : DateTime

unfoldable pub TemporalSample-discrete : Discrete TemporalSample
TemporalSample-discrete = hlevel (String_discrete, DateTime-discrete)

instance abbrev pub samples_eq : Eq (List TemporalSample)
samples_eq = record { dec = hlevel TemporalSample-discrete }

unfoldable pub check_sample : TemporalSample → Check
check_sample s =
    check (is_blank s.id) (value_error "sample ID must not be empty")
    ⨾ require_utc s.observed_at "observed_at"
    ⨾ require_utc s.label_end_at "label_end_at"
    ⨾ check (before s.label_end_at s.observed_at)
        (value_error "sample label cannot end before observation")

-- `s < t` of two texts
abbrev pub codes_before : List ℕ → List ℕ → Bool
codes_before [] [] = false
codes_before [] (_ ∷ _) = true
codes_before (_ ∷ _) [] = false
codes_before (c ∷ cs) (d ∷ ds) = ltb c d || (c == d && codes_before cs ds)

abbrev pub key_before : TemporalSample → TemporalSample → Bool
key_before a b =
    before a.observed_at b.observed_at
    || (a.observed_at.instant == b.observed_at.instant && codes_before (codes a.id) (codes b.id))

-- `sorted(…, key=…)`, which is stable.
abbrev pub insert_sample : TemporalSample → List TemporalSample → List TemporalSample
insert_sample s [] = s ∷ []
insert_sample s (x ∷ xs) =
    let rest = insert_sample s xs in if key_before x s then x ∷ rest else s ∷ x ∷ xs

unfoldable pub sorted : List TemporalSample → List TemporalSample
sorted [] = []
sorted (s ∷ ss) = insert_sample s (sorted ss)

abbrev pub has_repeat : List String → Bool
has_repeat [] = false
has_repeat (s ∷ ss) = any (λ t. t == s) ss || has_repeat ss

abbrev pub ids : List TemporalSample → List String
ids = map (λ s. s.id)

abbrev pub filter : (TemporalSample → Bool) → List TemporalSample → List TemporalSample
filter p [] = []
filter p (s ∷ ss) = let rest = filter p ss in if p s then s ∷ rest else rest

abbrev pub is_nil : List TemporalSample → Bool
is_nil [] = true
is_nil (_ ∷ _) = false

-- `t <= b - d` and `b + d <= t`
abbrev pub ends_before : ℤ → DateTime → DateTime → Bool
ends_before d b t = leb_ℤ (pos t.instant) (pos b.instant -ℤ d)

abbrev pub starts_after : ℤ → DateTime → DateTime → Bool
starts_after d b t = leb_ℤ (pos b.instant +ℤ d) (pos t.instant)

pub record ChronologicalDatasetSplit : Type 0 where
  pub training : List TemporalSample
  pub validation : List TemporalSample
  pub test : List TemporalSample
  pub excluded : List TemporalSample
  pub validation_boundary : DateTime
  pub test_boundary : DateTime
  pub purge : ℤ
  pub embargo : ℤ

unfoldable pub check_split : ChronologicalDatasetSplit → Check
check_split s =
    require_utc s.validation_boundary "validation_boundary"
    ⨾ require_utc s.test_boundary "test_boundary"
    ⨾ check (not (before s.validation_boundary s.test_boundary))
        (value_error "validation boundary must precede test boundary")
    ⨾ check (ltb_ℤ s.purge (pos 0) || ltb_ℤ s.embargo (pos 0))
        (value_error "purge and embargo must be non-negative")
    ⨾ check (has_repeat (ids (s.training ++ s.validation ++ s.test ++ s.excluded)))
        (value_error "dataset split contains duplicate sample membership")
    ⨾ check (is_nil s.training || is_nil s.validation || is_nil s.test)
        (value_error "every dataset partition must contain at least one sample")
    ⨾ check
        (s.training != sorted s.training
          || s.validation != sorted s.validation
          || s.test != sorted s.test
          || s.excluded != sorted s.excluded)
        (value_error "dataset partitions must be chronologically ordered")
    ⨾ check
        (any
          (λ x.
            not (before x.observed_at s.validation_boundary)
            || not (ends_before s.purge s.validation_boundary x.label_end_at))
          s.training)
        (value_error "training partition crosses the validation boundary")
    ⨾ check
        (any
          (λ x.
            not (starts_after s.embargo s.validation_boundary x.observed_at)
            || not (before x.observed_at s.test_boundary)
            || not (ends_before s.purge s.test_boundary x.label_end_at))
          s.validation)
        (value_error "validation partition violates a leakage boundary")
    ⨾ check (any (λ x. not (starts_after s.embargo s.test_boundary x.observed_at)) s.test)
        (value_error "test partition violates its embargo boundary")

-- One, in units of a fraction.
abbrev pub one : ℕ
one = 1000000000000

abbrev pub is_fraction : ℤ → Bool
is_fraction f = ltb_ℤ (pos 0) f && ltb_ℤ f (pos one)

unfoldable pub check_arguments : List TemporalSample → ℤ → ℤ → ℤ → ℤ → Check
check_arguments samples training_fraction validation_fraction purge embargo =
    check (ltb (length samples) 3) (value_error "at least three samples are required")
    ⨾ check (has_repeat (ids samples)) (value_error "sample IDs must be unique")
    ⨾ check (samples != sorted samples)
        (value_error "samples must be in deterministic chronological order")
    ⨾ check (not (is_fraction training_fraction))
        (value_error "training_fraction must be between zero and one")
    ⨾ check (not (is_fraction validation_fraction))
        (value_error "validation_fraction must be between zero and one")
    ⨾ check (leb_ℤ (pos one) (training_fraction +ℤ validation_fraction))
        (value_error "training and validation fractions must leave a test partition")
    ⨾ check (ltb_ℤ purge (pos 0) || ltb_ℤ embargo (pos 0))
        (value_error "purge and embargo must be non-negative")

-- `int(Decimal(n) * fraction)`
abbrev pub share : ℕ → ℤ → ℕ
share n f = n * pos_part f / one

-- `samples[i].observed_at`
abbrev pub boundary_of : List TemporalSample → Result DateTime
boundary_of [] = err (index_error "tuple index out of range")
boundary_of (s ∷ _) = ok s.observed_at

unfoldable pub new_split :
    List TemporalSample → ℤ → ℤ → DateTime → DateTime → ChronologicalDatasetSplit
new_split samples purge embargo validation_boundary test_boundary =
    let training =
      filter
        (λ s.
          before s.observed_at validation_boundary
          && ends_before purge validation_boundary s.label_end_at)
        samples in
    let validation =
      filter
        (λ s.
          starts_after embargo validation_boundary s.observed_at
          && before s.observed_at test_boundary
          && ends_before purge test_boundary s.label_end_at)
        samples in
    let test = filter (λ s. starts_after embargo test_boundary s.observed_at) samples in
    let included = ids (training ++ validation ++ test) in
    record {
      training = training;
      validation = validation;
      test = test;
      excluded = filter (λ s. not (any (λ i. i == s.id) included)) samples;
      validation_boundary = validation_boundary;
      test_boundary = test_boundary;
      purge = purge;
      embargo = embargo;
    }

abbrev pub checked : ChronologicalDatasetSplit → Check → Result ChronologicalDatasetSplit
checked s (err e) = err e
checked s (ok _) = ok s

abbrev pub split_at :
    List TemporalSample
    → ℤ
    → ℤ
    → Result DateTime
    → Result DateTime
    → Result ChronologicalDatasetSplit
split_at samples purge embargo (err e) t = err e
split_at samples purge embargo (ok v) (err e) = err e
split_at samples purge embargo (ok v) (ok t) =
    let s = new_split samples purge embargo v t in checked s (check_split s)

abbrev pub after_check : Check → Result ChronologicalDatasetSplit → Result ChronologicalDatasetSplit
after_check (err e) r = err e
after_check (ok _) r = r

unfoldable pub chronological_split :
    List TemporalSample → ℤ → ℤ → ℤ → ℤ → Result ChronologicalDatasetSplit
chronological_split samples training_fraction validation_fraction purge embargo =
    let n = length samples in
    let training_end = share n training_fraction in
    let validation_end = share n (training_fraction +ℤ validation_fraction) in
    after_check
      (check_arguments samples training_fraction validation_fraction purge embargo
        ⨾ check (training_end == 0 || leb validation_end training_end || leb n validation_end)
            (value_error "fractions produce an empty raw partition"))
      (split_at samples purge embargo (boundary_of (drop training_end samples))
        (boundary_of (drop validation_end samples)))
