-- ===== src/Execution/Paper/Steps.antt =====
-- What the adapter's private steps do to an order; none of them touches the stored orders.
use quantora_trade.Prelude.{
  ℕ, suc, ◌+◌, ◌-◌, ◌*◌, ◌≤◌, ◌<◌, ◌≡◌, refl, ◌∙◌, ◌≢◌, inl, inr, true, String, [], ◌∷◌, ◌++◌,
  length, All-append, arith, ◌==◌, min, string_eq, if◌then◌else◌, nat_eq, Option-cases,
}
use quantora_trade.Prelude.Exec.{Ends, Ends-bind, Ends-mono, Result, Exec, ◌>>=◌}
use quantora_trade.Domain.Time.{DateTime}
use quantora_trade.Execution.Models.{
  OrderStatus, accepted, partial, filled, rejected, expired, Fill, OrderEvent, PaperOrder,
  PaperQuote, check_event, check_fill, remaining_volume, order_status_eq,
}
use quantora_trade.Execution.Lifecycle.{allows, require_transition}
use quantora_trade.Execution.Lifecycle.Trace.{IsHistory-snoc}
use quantora_trade.Execution.Paper.{
  Setup, Adapter, now, transition, order_event, new_fill, fill_volume, fill, route, fill_price,
  quote_error,
}
use quantora_trade.Execution.Paper.Invariant.{
  IsValid, Evolves, Evolves-refl, Evolves-trans, IsFill, total_volume-append,
}

-- The order with one more event.
abbrev pub moved : PaperOrder → OrderEvent → PaperOrder
moved o e = record o { status = e.status; events = o.events ++ e ∷ [] }

pub Evolves-moved : (o : PaperOrder) (e : OrderEvent) → Evolves o (moved o e)
Evolves-moved o e =
    let r = Evolves-refl o in
    record {
      same_id = refl;
      same_hash = refl;
      same_request = refl;
      events_grow = (e ∷ [], refl);
      fills_grow = r.fills_grow;
    }

leaves_filled : (s t : OrderStatus) → s ≡ filled → allows s t ≡ true → ⊥
unfolding allows
leaves_filled s t e a = ground arith

module _ (setup : Setup) where
  open setup use {clock}

  -- The event that a transition appends.
  abbrev pub next_event : PaperOrder → OrderStatus → String → Adapter → OrderEvent
  next_event o target code s = order_event (length o.events + 1) target (clock s.clock_calls) code

  pub transition_lem :
      (o : PaperOrder) (target : OrderStatus) (code : String) (s : Adapter)
      → Ends
          (λ o' s'.
            (o' ≡ moved o (next_event o target code s))
            × (allows o.status target ≡ true)
            × ((clock s.clock_calls).utc ≡ true)
            × (s'.orders ≡ s.orders))
          (λ e s'. s'.orders ≡ s.orders)
          (transition setup o target code s)
  unfolding transition now require_transition check_event
  transition_lem o target code s = ground arith

  -- A step ends with a valid order that has evolved from `o`, or raises; the store is untouched.
  abbrev pub Steps : PaperOrder → Adapter → Result PaperOrder × Adapter → Type 0
  Steps o s =
      Ends (λ o' s'. IsValid o' × Evolves o o' × (s'.orders ≡ s.orders))
        (λ e s'. s'.orders ≡ s.orders)

  -- A transition to a status other than `filled` keeps a valid order valid, unless it was full.
  pub moved-IsValid :
      (o : PaperOrder) (e : OrderEvent)
      → IsValid o
      → allows o.status e.status ≡ true
      → e.sequence ≡ suc (length o.events)
      → e.status ≢ filled
      → IsValid (moved o e)
  moved-IsValid o e v a n f = record {
    history = IsHistory-snoc o.events o.status e v.history a n;
    summed = v.summed;
    fills_valid = v.fills_valid;
    within = v.within;
    full = λ q. absurd (f q);
    not_full = λ _. v.not_full (not_filled a);
  }
    where
      not_filled : allows o.status e.status ≡ true → o.status ≢ filled
      not_filled a q = leaves_filled o.status e.status q a

  pub transition-Steps :
      (o : PaperOrder) (target : OrderStatus) (code : String) (s : Adapter)
      → IsValid o
      → target ≢ filled
      → Steps o s (transition setup o target code s)
  transition-Steps o target code s v f =
      Ends-mono _ _ _ _ (transition setup o target code s) (transition_lem o target code s)
        (λ o' s' (e, a, u, k). rw e (moved-IsValid o _ v a (omega arith) f, Evolves-moved o _, k))
        (λ e s' k. k)

  -- A fill of a positive volume that the order has room for.
  abbrev pub filled_order :
      PaperOrder → PaperQuote → ℕ → OrderStatus → String → Adapter → PaperOrder
  filled_order o q volume target code s = record o {
    status = target;
    filled_volume = o.filled_volume + volume;
    fills =
        o.fills
        ++ new_fill volume (fill_price setup o q) (volume * setup.policy.commission_per_volume)
            (clock s.clock_calls)
          ∷ [];
    events =
        o.events ++ next_event o target code (record s { clock_calls = s.clock_calls + 1 }) ∷ [];
  }

  -- The status and the code that a fill of the volume ends with.
  abbrev pub fill_target : PaperOrder → ℕ → OrderStatus
  fill_target o volume = if o.filled_volume + volume == o.request.volume then filled else partial

  abbrev pub fill_code : PaperOrder → ℕ → String
  fill_code o volume =
      if fill_target o volume == filled then "ORDER_FILLED" else "ORDER_PARTIAL_FILL"

  pub fill_volume_lem :
      (o : PaperOrder) (q : PaperQuote) (volume : ℕ) (s : Adapter)
      → Ends
          (λ o' s'.
            (o' ≡ filled_order o q volume (fill_target o volume) (fill_code o volume) s)
            × (allows o.status (fill_target o volume) ≡ true)
            × (0 < volume)
            × (0 < fill_price setup o q)
            × ((clock s.clock_calls).utc ≡ true)
            × (s'.orders ≡ s.orders))
          (λ e s'. s'.orders ≡ s.orders)
          (fill_volume setup o q volume s)
  unfolding fill_volume transition now require_transition check_event check_fill
  fill_volume_lem o q volume s = ground arith

  module _ (o : PaperOrder) (q : PaperQuote) (volume : ℕ) (s : Adapter) (v : IsValid o)
      (a : allows o.status (fill_target o volume) ≡ true) (positive : 0 < volume)
      (priced : 0 < fill_price setup o q) (u : (clock s.clock_calls).utc ≡ true)
      (room : o.filled_volume + volume ≤ o.request.volume) where
    abbrev after_fill : PaperOrder
    after_fill = filled_order o q volume (fill_target o volume) (fill_code o volume) s

    pub after_fill-IsValid : IsValid after_fill
    after_fill-IsValid = record {
      history = IsHistory-snoc o.events o.status _ v.history a (omega arith);
      summed = omega (arith, v.summed, total_volume-append o.fills (after_fill-entry ∷ []));
      fills_valid =
          All-append IsFill o.fills (after_fill-entry ∷ []) v.fills_valid
            ((positive, priced, u), tt);
      within = room;
      full = λ e. ground arith;
      not_full = λ e. ground arith;
    }
      where
        after_fill-entry : Fill
        after_fill-entry =
            new_fill volume (fill_price setup o q) (volume * setup.policy.commission_per_volume)
              (clock s.clock_calls)

    pub after_fill-Evolves : Evolves o after_fill
    after_fill-Evolves = record {
      same_id = refl;
      same_hash = refl;
      same_request = refl;
      events_grow = (_ ∷ [], refl);
      fills_grow = (_ ∷ [], refl);
    }

  pub fill_volume-Steps :
      (o : PaperOrder) (q : PaperQuote) (volume : ℕ) (s : Adapter)
      → IsValid o
      → o.filled_volume + volume ≤ o.request.volume
      → Steps o s (fill_volume setup o q volume s)
  fill_volume-Steps o q volume s v room =
      Ends-mono _ _ _ _ (fill_volume setup o q volume s) (fill_volume_lem o q volume s)
        (λ o' s' (e, a, p, c, u, k). rw e (
          after_fill-IsValid o q volume s v a p c u room,
          after_fill-Evolves o q volume s v a p c u room,
          k,
        ))
        (λ e s' k. k)

  pub fill-Steps :
      (o : PaperOrder) (q : PaperQuote) (s : Adapter) → IsValid o → Steps o s (fill setup o q s)
  unfolding fill remaining_volume
  fill-Steps o q s v = ground (
    arith,
    v.within,
    Evolves-refl o,
    fill_volume-Steps o q (min (o.request.volume - o.filled_volume) q.available_volume) s v,
  )

  -- A step after a step.
  pub Steps-bind :
      (o : PaperOrder) (m : Exec Adapter PaperOrder) (f : PaperOrder → Exec Adapter PaperOrder)
      (s : Adapter)
      → Steps o s (m s)
      → ((p : PaperOrder) (t : Adapter) → IsValid p → Steps p t (f p t))
      → Steps o s ((m >>= f) s)
  Steps-bind o m f s h k =
      Ends-bind m f s _ _ _ _ h
        (λ p t (v, g, same).
          Ends-mono _ _ _ _ (f p t) (k p t v)
            (λ p' t' (v', g', same'). (v', Evolves-trans g g', same' ∙ same))
            (λ e t' same'. same' ∙ same))
        (λ e t same. same)

  pub route-Steps :
      (o : PaperOrder) (q : PaperQuote) (t : DateTime) (s : Adapter)
      → IsValid o
      → Steps o s (route setup o q t s)
  unfolding route
  route-Steps o q t s v =
      let accept =
        Steps-bind o (transition setup o accepted "ORDER_ACCEPTED") (λ p. fill setup p q) s
          (transition-Steps o accepted "ORDER_ACCEPTED" s v (ground arith))
          (λ p t' w. fill-Steps p q t' w) in
      let expire = transition-Steps o expired "ORDER_EXPIRED" s v (ground arith) in
      let mismatch = transition-Steps o rejected "QUOTE_SYMBOL_MISMATCH" s v (ground arith) in
      elim (Option-cases (quote_error setup q t)) [
        | inl usable ↦ ground arith
        | inr (code, bad) ↦
            let reject = transition-Steps o rejected code s v (ground arith) in ground arith
      ]
