-- ===== src/Market/Quality/Usable.antt =====
-- What a usable report says about the candles.
use quantora_trade.Prelude.{
  ℕ, ◌<◌, ◌≤◌, ltb, ◌≡◌, refl, ◌↔◌, String, Bool, true, false, not, ◌||◌, none, some, List, [], ◌∷◌,
  ◌++◌, arith, any, All, ap,
}
use quantora_trade.Prelude.Int.{◌≤ℤ◌}
use quantora_trade.Domain.Time.{DateTime}
use quantora_trade.Domain.Candles.{Candle}
use quantora_trade.Market.Quality.{
  MarketDataValidator, DataQualityIssue, is_error, is_usable, validate, scan, latest, since,
  candle_issues, order_issues, staleness, seen_before,
}

-- Every open time is after the one before.
abbrev pub Ascending : Candle → List Candle → Type 0
Ascending _ [] = Unit
Ascending p (c ∷ cs) = p.open_time.instant < c.open_time.instant × Ascending c cs

-- Closed candles of the symbol and the timeframe, in the strict order of their open times, of which
-- the last closed not longer ago than allowed.
abbrev pub Matches : String → String → Candle → Type 0
Matches symbol timeframe c = (c.symbol ≡ symbol) × (c.timeframe ≡ timeframe) × (c.is_closed ≡ true)

abbrev pub IsFresh : MarketDataValidator → DateTime → Candle → Type 0
IsFresh v as_of c = since as_of c.close_time ≤ℤ v.max_staleness

abbrev pub AreUsable : MarketDataValidator → String → String → DateTime → List Candle → Type 0
AreUsable v symbol timeframe as_of [] = ⊥
AreUsable v symbol timeframe as_of (c ∷ cs) =
    All (Matches symbol timeframe) (c ∷ cs) × Ascending c cs × IsFresh v as_of (latest c cs)

any-append :
    (xs ys : List DataQualityIssue) → any is_error (xs ++ ys) ≡ any is_error xs || any is_error ys
any-append [] ys = refl
any-append (x ∷ xs) ys = ground (arith, any-append xs ys)

either :
    (xs ys : List DataQualityIssue)
    → any is_error (xs ++ ys) ≡ false
    → (any is_error xs ≡ false) × (any is_error ys ≡ false)
either xs ys h = ground (arith, h, any-append xs ys)

neither :
    (xs ys : List DataQualityIssue)
    → any is_error xs ≡ false
    → any is_error ys ≡ false
    → any is_error (xs ++ ys) ≡ false
neither xs ys h k = ground (arith, h, k, any-append xs ys)

module _ (v : MarketDataValidator) (symbol timeframe : String) where
  candle_lem :
      (seen : List DateTime) (c : Candle)
      → any is_error (candle_issues v symbol timeframe seen c) ≡ false
        ↔ Matches symbol timeframe c × (seen_before c.open_time seen ≡ false)
  unfolding candle_issues
  candle_lem seen c = (λ h. ground (arith, h), λ h. ground (arith, h))

  order_lem :
      (p c : Candle)
      → any is_error (order_issues v symbol timeframe (some p) c)
        ≡ ltb c.open_time.instant p.open_time.instant
  unfolding order_issues
  order_lem p c = ground arith

  -- A time after all the times seen is not among them.
  unseen :
      (t m : ℕ) (u : Bool) (seen : List DateTime)
      → All (λ s. s.instant ≤ m) seen
      → m < t
      → seen_before (record { utc = u; instant = t }) seen ≡ false
  unseen t m u [] h l = refl
  unseen t m u (s ∷ seen) h l = ground (arith, h, l, unseen t m u seen h.1 l)

  staleness_lem :
      (as_of : DateTime) (c : Candle)
      → any is_error (staleness v symbol timeframe as_of c) ≡ false ↔ IsFresh v as_of c
  unfolding staleness
  staleness_lem as_of c = (λ h. ground (arith, h), λ h. ground (arith, h))

  bounded :
      {m n : ℕ} (seen : List DateTime)
      → m ≤ n
      → All (λ s. s.instant ≤ m) seen
      → All (λ s. s.instant ≤ n) seen
  bounded [] l h = tt
  bounded (s ∷ seen) l h = (omega (arith, h.0), bounded seen l h.1)

  split_lem :
      (seen : List DateTime) (p c : Candle) (cs : List Candle)
      → any is_error (scan v symbol timeframe (some p) seen (c ∷ cs)) ≡ false
        ↔ (any is_error (candle_issues v symbol timeframe seen c) ≡ false)
          × (ltb c.open_time.instant p.open_time.instant ≡ false)
          × (any is_error (scan v symbol timeframe (some c) (c.open_time ∷ seen) cs) ≡ false)
  unfolding scan
  split_lem seen p c cs =
      let here = candle_issues v symbol timeframe seen c in
      let order = order_issues v symbol timeframe (some p) c in
      let rest = scan v symbol timeframe (some c) (c.open_time ∷ seen) cs in
      (
        λ h.
            ground
              (arith, h, any-append (here ++ order) rest, any-append here order, order_lem p c),
        λ h.
            ground
              (arith, h, any-append (here ++ order) rest, any-append here order, order_lem p c),
      )

  after :
      (p c : Candle) (seen : List DateTime)
      → seen_before c.open_time (p.open_time ∷ seen) ≡ false
      → ltb c.open_time.instant p.open_time.instant ≡ false
      → p.open_time.instant < c.open_time.instant
  after p c seen h l = ground (arith, h, l)

  scan_lem :
      (p : Candle) (seen : List DateTime) (cs : List Candle)
      → All (λ s. s.instant ≤ p.open_time.instant) seen
      → any is_error (scan v symbol timeframe (some p) (p.open_time ∷ seen) cs) ≡ false
        ↔ All (Matches symbol timeframe) cs × Ascending p cs
  unfolding scan
  scan_lem p seen [] h = (λ _. (tt, tt), λ _. refl)
  scan_lem p seen (c ∷ cs) h = (
    λ e.
        let parts = (split_lem (p.open_time ∷ seen) p c cs).0 e in
        let here = (candle_lem (p.open_time ∷ seen) c).0 parts.0 in
        let l = after p c seen here.1 parts.1 in
        let rest = (scan_lem c (p.open_time ∷ seen) cs (later l)).0 parts.2 in
        ((here.0, rest.0), (l, rest.1)),
    λ q.
        let l = q.1.0 in
        (split_lem (p.open_time ∷ seen) p c cs).1 (
          (candle_lem (p.open_time ∷ seen) c).1
              (q.0.0, unseen _ _ c.open_time.utc (p.open_time ∷ seen) (omega (arith, l), h) l),
          ground (arith, l),
          (scan_lem c (p.open_time ∷ seen) cs (later l)).1 (q.0.1, q.1.1),
        ),
  )
    where
      later :
          p.open_time.instant < c.open_time.instant
          → All (λ s. s.instant ≤ c.open_time.instant) (p.open_time ∷ seen)
      later l = (omega (arith, l), bounded seen (omega (arith, l)) h)

  -- The first candle's issues and the rest of the loop.
  first_lem :
      (c : Candle) (cs : List Candle)
      → any is_error (scan v symbol timeframe none [] (c ∷ cs)) ≡ false
        ↔ All (Matches symbol timeframe) (c ∷ cs) × Ascending c cs
  unfolding scan order_issues
  first_lem c cs =
      let here = candle_issues v symbol timeframe [] c in
      let rest = scan v symbol timeframe (some c) (c.open_time ∷ []) cs in
      (
        λ e.
            let parts = either (here ++ []) rest e in
            let first = (candle_lem [] c).0 (either here [] parts.0).0 in
            let others = (scan_lem c [] cs tt).0 parts.1 in ((first.0, others.0), others.1),
        λ q.
            neither (here ++ []) rest (neither here [] ((candle_lem [] c).1 (q.0.0, refl)) refl)
              ((scan_lem c [] cs tt).1 (q.0.1, q.1)),
      )

  -- A report is usable exactly when there are candles, each is a closed candle of the symbol and of
  -- the timeframe, their open times strictly increase, and the last closed at most the allowed time
  -- ago. The validator's test against all the times seen and its test against the previous candle
  -- together are that order, and a gap alone never makes a report unusable.
  pub validate-AreUsable :
      (as_of : DateTime) (cs : List Candle)
      → is_usable (validate v symbol timeframe cs as_of) ≡ true
        ↔ AreUsable v symbol timeframe as_of cs
  unfolding is_usable validate
  validate-AreUsable as_of [] = (λ h. ground (arith, h), λ q. absurd q)
  validate-AreUsable as_of (c ∷ cs) = (
    λ e.
        let parts =
          either (scan v symbol timeframe none [] (c ∷ cs))
            (staleness v symbol timeframe as_of (latest c cs)) (ground (arith, e)) in
        let order = (first_lem c cs).0 parts.0 in
        (order.0, order.1, (staleness_lem as_of (latest c cs)).0 parts.1),
    λ q. ap not (
        neither (scan v symbol timeframe none [] (c ∷ cs))
          (staleness v symbol timeframe as_of (latest c cs)) ((first_lem c cs).1 (q.0, q.1))
          ((staleness_lem as_of (latest c cs)).1 q.2)),
  )
