-- ===== src/Risk/Decision/Policy.antt =====
-- What the decision engine makes of a signal.
use mathlib.Core.List.{append-nil}
use quantora_trade.Prelude.{
  ◌<◌, ◌≤◌, ◌≡◌, ◌≢◌, refl, ◌⊎◌, inl, inr, String, true, false, [], ◌∷◌, ◌++◌, arith, ap, ◌∙◌,
  Bool-cases, ltb, leb,
}
use quantora_trade.Prelude.Text.{is_blank, is_canonical}
use quantora_trade.Prelude.Exec.{ok}
use quantora_trade.Domain.Enums.{hold, Action-discrete}
use quantora_trade.Domain.Time.{DateTime}
use quantora_trade.Domain.Libs.{Libs}
use quantora_trade.Domain.Orders.{Decision, check_decision, one}
use quantora_trade.Risk.Decision.{Signal, DecisionPolicy, check_policy, judge, new_decision, decide}

-- What the checks of a signal ensure of the fields that a decision copies.
abbrev pub IsSignal : Signal → Type 0
IsSignal s =
    (is_canonical s.symbol ≡ true)
    × (is_blank s.timeframe ≡ false)
    × (s.expires_at.utc ≡ true)
    × s.confidence ≤ one

-- A signal to trade on: it has a direction, has not expired and is confident enough.
abbrev pub IsEligible : DecisionPolicy → Signal → DateTime → Type 0
IsEligible p s t =
    (s.action ≢ hold) × t.instant < s.expires_at.instant × p.minimum_confidence ≤ s.confidence

-- The verdict: the signal's direction for an eligible signal, else HOLD with one reason.
judge-IsEligible :
    (p : DecisionPolicy) (s : Signal) (t : DateTime)
    → (IsEligible p s t × (judge p s t ≡ (s.action, [])))
      ⊎ ((code : String) × ¬ IsEligible p s t × (judge p s t ≡ (hold, code ∷ [])))
unfolding judge
judge-IsEligible p s t = elim (Action-discrete s.action hold) [
  | yes e ↦ inr ("SIGNAL_HOLD", (λ q. q.0 e), ground (arith, e))
  | no n ↦ elim (Bool-cases (leb s.expires_at.instant t.instant)) [
    | inl late ↦ inr ("SIGNAL_EXPIRED", ground (arith, late), ground (arith, n, late))
    | inr early ↦ elim (Bool-cases (ltb s.confidence p.minimum_confidence)) [
      | inl low ↦
          inr ("BELOW_DECISION_CONFIDENCE", ground (arith, low), ground (arith, n, early, low))
      | inr high ↦
          inl ((n, ground (arith, early), ground (arith, high)), ground (arith, n, early, high))
    ]
  ]
]

module _ (libs : Libs) (p : DecisionPolicy) where
  -- At a UTC time, the engine always decides on a valid signal. The decision keeps the signal's
  -- direction exactly when the signal is eligible, and is HOLD otherwise; its reasons are the
  -- signal's own, to which a HOLD adds exactly one; and it copies the signal's symbol, timeframe,
  -- confidence and expiry. No direction is made or reversed.
  pub decide-IsEligible :
      (s : Signal) (t : DateTime)
      → check_policy p ≡ ok tt
      → IsSignal s
      → t.utc ≡ true
      → (d : Decision) × (decide libs p s t ≡ ok d)
        × ((IsEligible p s t × (d.action ≡ s.action) × (d.reason_codes ≡ s.reason_codes))
            ⊎ (¬ IsEligible p s t
                × (d.action ≡ hold)
                × ((code : String) × (d.reason_codes ≡ s.reason_codes ++ code ∷ []))))
        × (d.signal_id ≡ s.id)
        × (d.symbol ≡ s.symbol)
        × (d.timeframe ≡ s.timeframe)
        × (d.confidence ≡ s.confidence)
        × (d.expires_at ≡ s.expires_at)
  unfolding check_policy decide new_decision check_decision
  decide-IsEligible s t hp hs ht = elim (judge-IsEligible p s t) [
    | inl (e, v) ↦ (
      new_decision libs p s (judge p s t),
      ground (arith, hp, hs, ht, v),
      inl (e, ap (λ x. x.0) v, ap (λ x. s.reason_codes ++ x.1) v ∙ append-nil s.reason_codes),
      refl,
      refl,
      refl,
      refl,
      refl,
    )
    | inr (code, n, v) ↦ (
      new_decision libs p s (judge p s t),
      ground (arith, hp, hs, ht, v),
      inr (n, ap (λ x. x.0) v, (code, ap (λ x. s.reason_codes ++ x.1) v)),
      refl,
      refl,
      refl,
      refl,
      refl,
    )
  ]
