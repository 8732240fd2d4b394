-- ===== src/Execution/Paper/Methods.antt =====
-- The adapter's public methods: what each call leaves in the store, on every branch.
use quantora_trade.Prelude.{
  ◌+◌, ◌<◌, ◌≡◌, refl, ◌∙◌, ◌⊎◌, inl, inr, string_eq, String, none, some, arith, Option-cases,
}
use quantora_trade.Prelude.Dict.{lookup, insert}
use quantora_trade.Prelude.Exec.{Ends, Ends-bind, Result, ok, Exec, pure, ◌>>◌}
use quantora_trade.Domain.Time.{DateTime}
use quantora_trade.Execution.Models.{
  created, cancel_pending, cancelled, expired, PaperOrder, PaperOrderRequest, PaperQuote,
  check_request,
}
use quantora_trade.Execution.Paper.{
  Setup, Adapter, now, transition, order_event, order_name, new_order, request_hash, fill_on_quote,
  get, store, submit, submit_new, add_liquidity, cancel, expire, save, fill_or_expire, cancel_order,
}
use quantora_trade.Execution.Paper.Invariant.{IsValid, Evolves}
use quantora_trade.Execution.Paper.Steps.{
  Steps, transition-Steps, fill-Steps, route-Steps, Steps-bind,
}

-- A call that changes one order: it stores an order that evolved from the one under the key, or
-- raises and leaves the store as it was.
abbrev pub Updates : String → Adapter → Result PaperOrder × Adapter → Type 0
Updates key s =
    Ends
      (λ o' s'.
        (o : PaperOrder) × (lookup key s.orders ≡ some o)
        × IsValid o'
        × Evolves o o'
        × (s'.orders ≡ insert key o' s.orders))
      (λ e s'. s'.orders ≡ s.orders)

module _ (setup : Setup) where
  fill_on_quote-Steps :
      (o : PaperOrder) (q : PaperQuote) (t : DateTime) (s : Adapter)
      → IsValid o
      → Steps setup o s (fill_on_quote setup o q t s)
  unfolding fill_on_quote
  fill_on_quote-Steps o q t s v = ground (arith, fill-Steps setup o q s v)

  save-Updates :
      (key : String) (o : PaperOrder) (m : Exec Adapter PaperOrder) (s t : Adapter)
      → lookup key s.orders ≡ some o
      → t.orders ≡ s.orders
      → Steps setup o t (m t)
      → Updates key s (save key m t)
  unfolding save store
  save-Updates key o m s t e k h =
      Ends-bind m (λ o'. store key o' >> pure o') t _ _ _ _ h
        (λ o' t' (v, g, same). (o, e, v, g, rw (same ∙ k) refl)) (λ x t' same. same ∙ k)

  fill_or_expire-Steps :
      (o : PaperOrder) (q : PaperQuote) (t : DateTime) (s : Adapter)
      → IsValid o
      → Steps setup o s (fill_or_expire setup o q t s)
  unfolding fill_or_expire
  fill_or_expire-Steps o q t s v = ground (
    arith,
    transition-Steps setup o expired "ORDER_EXPIRED" s v (ground arith),
    fill_on_quote-Steps o q t s v,
  )

  cancel_order-Steps :
      (o : PaperOrder) (s : Adapter) → IsValid o → Steps setup o s (cancel_order setup o s)
  unfolding cancel_order
  cancel_order-Steps o s v =
      Steps-bind setup o (transition setup o cancel_pending "CANCEL_REQUESTED")
        (λ p. transition setup p cancelled "ORDER_CANCELLED") s
        (transition-Steps setup o cancel_pending "CANCEL_REQUESTED" s v (ground arith))
        (λ p t w. transition-Steps setup p cancelled "ORDER_CANCELLED" t w (ground arith))

  -- The state after a reading of the clock.
  abbrev ticked : Adapter → Adapter
  ticked s = record s { clock_calls = s.clock_calls + 1 }

  module _ (key : String) (s : Adapter)
      (h : (o : PaperOrder) → lookup key s.orders ≡ some o → IsValid o) where
    pub add_liquidity-Updates : (q : PaperQuote) → Updates key s (add_liquidity setup key q s)
    unfolding add_liquidity get now
    add_liquidity-Updates q = elim (Option-cases (lookup key s.orders)) [
      | inl missing ↦ rw (missing, add_liquidity, get) refl
      | inr (o, found) ↦
          let t = setup.clock s.clock_calls in
          rw (found, add_liquidity, get)
            (ground (
              arith,
              save-Updates key o (fill_or_expire setup o q t) s (ticked s) found refl
                  (fill_or_expire-Steps o q t (ticked s) (h o found)),
            ))
    ]

    pub cancel-Updates : Updates key s (cancel setup key s)
    unfolding cancel get
    cancel-Updates = elim (Option-cases (lookup key s.orders)) [
      | inl missing ↦ rw (missing, cancel, get) refl
      | inr (o, found) ↦
          rw (found, cancel, get)
            (ground (
              arith,
              save-Updates key o (cancel_order setup o) s s found refl
                  (cancel_order-Steps o s (h o found)),
            ))
    ]

    pub expire-Updates : Updates key s (expire setup key s)
    unfolding expire get now
    expire-Updates = elim (Option-cases (lookup key s.orders)) [
      | inl missing ↦ rw (missing, expire, get) refl
      | inr (o, found) ↦
          rw (found, expire, get)
            (ground (
              arith,
              save-Updates key o (transition setup o expired "ORDER_EXPIRED") s (ticked s) found
                  refl
                  (transition-Steps setup o expired "ORDER_EXPIRED" (ticked s) (h o found)
                    (ground arith)),
            ))
    ]

-- The order that `submit` made for the request.
pub record IsFor (setup : Setup) (request : PaperOrderRequest) (o : PaperOrder) : Type 0 where
  pub same_request : o.request ≡ request
  pub same_hash : o.request_hash ≡ request_hash setup.libs request
  pub named :
      o.id ≡ setup.libs.uuid5 (order_name request.idempotency_key (request_hash setup.libs request))

-- `submit` returns the stored order of the same hash, or stores a new one under a free key, or
-- raises and leaves the store as it was.
abbrev pub Submits : Setup → PaperOrderRequest → Adapter → Result PaperOrder × Adapter → Type 0
Submits setup request s =
    Ends
      (λ o s'.
        ((lookup request.idempotency_key s.orders ≡ some o)
          × (o.request_hash ≡ request_hash setup.libs request)
          × (s'.orders ≡ s.orders))
        ⊎ ((lookup request.idempotency_key s.orders ≡ none)
            × IsValid o
            × IsFor setup request o
            × (s'.orders ≡ insert request.idempotency_key o s.orders)))
      (λ e s'. s'.orders ≡ s.orders)

pub check_request-volume : (r : PaperOrderRequest) → check_request r ≡ ok tt → 0 < r.volume
unfolding check_request
check_request-volume r h = ground arith

module _ (setup : Setup) (request : PaperOrderRequest) (fine : check_request request ≡ ok tt) where
  abbrev pub digest : String
  digest = request_hash setup.libs request

  abbrev pub first_order : DateTime → PaperOrder
  first_order t =
      new_order (setup.libs.uuid5 (order_name request.idempotency_key digest)) digest request
        (order_event 1 created t "ORDER_CREATED")

  first_order-IsValid : (t : DateTime) → IsValid (first_order t)
  first_order-IsValid t = record {
    history = (refl, refl, refl);
    summed = refl;
    fills_valid = tt;
    within = omega arith;
    full = λ e. cc;
    not_full = λ _. check_request-volume request fine;
  }

  submit_new-Submits :
      (q : PaperQuote) (s : Adapter)
      → lookup request.idempotency_key s.orders ≡ none
      → Submits setup request s (submit_new setup request q digest s)
  unfolding submit_new now save store
  submit_new-Submits q s e =
      let t = setup.clock s.clock_calls in
      ground (
        arith,
        route-Steps setup (first_order t) q t (record s { clock_calls = s.clock_calls + 1 })
            (first_order-IsValid t),
      )

  pub submit-Submits :
      (q : PaperQuote) (s : Adapter) → Submits setup request s (submit setup request q s)
  unfolding submit
  submit-Submits q s = elim (Option-cases (lookup request.idempotency_key s.orders)) [
    | inl fresh ↦ ground (arith, submit_new-Submits q s fresh)
    | inr (o, found) ↦ ground arith
  ]
