-- ===== src/Execution/Paper/Fills.antt =====
-- What a submission on a free key ends with, and what a fill does to an order.
use native.Mathlib.Decide.{ℕ_discrete}
use quantora_trade.Prelude.{
  ℕ, ◌+◌, ◌-◌, ◌*◌, ◌≤◌, ◌<◌, min, ◌≡◌, refl, ◌≢◌, ◌⊎◌, inl, inr, ◌==◌, string_eq, nat_eq, String,
  none, [], ◌∷◌, ◌++◌, arith, leb, Bool-cases, if◌then◌else◌, Bool, true, false, ◌||◌, ◌&&◌, not,
}
use quantora_trade.Prelude.Dict.{lookup}
use quantora_trade.Prelude.Text.{is_blank}
use quantora_trade.Prelude.Exec.{Result, ok, Ends}
use quantora_trade.Domain.Time.{DateTime, not_after}
use quantora_trade.Domain.Enums.{buy}
use quantora_trade.Execution.Models.{
  OrderStatus, created, accepted, partial, filled, rejected, expired, order_status_eq, PaperOrder,
  PaperOrderRequest, PaperQuote, check_request, check_event, check_fill, remaining_volume,
}
use quantora_trade.Execution.Lifecycle.{allows, require_transition}
use quantora_trade.Execution.Paper.{
  Setup, PaperFillPolicy, Adapter, submit, submit_new, save, store, route, now, transition, fill,
  fill_volume, fill_price, quote_error, new_fill,
}
use quantora_trade.Execution.Paper.Methods.{first_order, check_request-volume}
use quantora_trade.Execution.Paper.Steps.{
  moved, next_event, filled_order, fill_target, fill_code, fill_volume_lem,
}

-- A quote for the symbol, not from the future and not older than the policy allows.
abbrev pub is_usable : PaperFillPolicy → PaperOrderRequest → PaperQuote → DateTime → Bool
is_usable policy r q t =
    q.symbol == r.symbol
    && leb q.observed_at.instant t.instant
    && leb t.instant (q.observed_at.instant + policy.max_quote_age)

-- The status that a new order ends its submission with.
abbrev pub expected_status :
    PaperFillPolicy → PaperOrderRequest → PaperQuote → DateTime → OrderStatus
expected_status policy r q t =
    if not_after r.expires_at t
    then expired
    else if not (is_usable policy r q t)
    then rejected
    else if q.available_volume == 0
    then accepted
    else if leb r.volume q.available_volume
    then filled
    else partial

-- Its filled volume.
abbrev pub expected_volume : PaperFillPolicy → PaperOrderRequest → PaperQuote → DateTime → ℕ
expected_volume policy r q t =
    if not_after r.expires_at t || not (is_usable policy r q t)
    then 0
    else min r.volume q.available_volume

code_text : (b : Bool) → is_blank (if b then "ORDER_FILLED" else "ORDER_PARTIAL_FILL") ≡ false
unfolding is_blank ℕ_discrete
code_text true = refl
code_text false = refl

-- The codes of the other events.
codes_text :
    (is_blank "ORDER_CREATED" ≡ false)
    × (is_blank "ORDER_EXPIRED" ≡ false)
    × (is_blank "QUOTE_SYMBOL_MISMATCH" ≡ false)
    × (is_blank "ORDER_ACCEPTED" ≡ false)
    × (is_blank "QUOTE_FROM_FUTURE" ≡ false)
    × (is_blank "QUOTE_TOO_OLD" ≡ false)
unfolding is_blank ℕ_discrete
codes_text = (refl, refl, refl, refl, refl, refl)

module _ (setup : Setup) (utc : (i : ℕ) → (setup.clock i).utc ≡ true) where
  abbrev ticked : Adapter → Adapter
  ticked s = record s { clock_calls = s.clock_calls + 1 }

  transition_done :
      (o : PaperOrder) (target : OrderStatus) (code : String) (s : Adapter)
      → allows o.status target ≡ true
      → is_blank code ≡ false
      → transition setup o target code s
        ≡ (ok (moved o (next_event setup o target code s)), ticked s)
  unfolding transition now require_transition check_event
  transition_done o target code s a b = ground (arith, utc s.clock_calls)

  fill_code_text : (o : PaperOrder) (volume : ℕ) → is_blank (fill_code setup o volume) ≡ false
  fill_code_text o volume = code_text (fill_target setup o volume == filled)

  fill_volume_done :
      (o : PaperOrder) (q : PaperQuote) (volume : ℕ) (s : Adapter)
      → allows o.status (fill_target setup o volume) ≡ true
      → 0 < volume
      → 0 < fill_price setup o q
      → fill_volume setup o q volume s ≡ (
        ok (
            filled_order setup o q volume
              (fill_target setup o volume)
              (fill_code setup o volume)
              s),
        ticked (ticked s),
      )
  unfolding fill_volume now check_fill
  fill_volume_done o q volume s a p c = ground (
    arith,
    utc s.clock_calls,
    transition_done o (fill_target setup o volume) (fill_code setup o volume) (ticked s) a
        (fill_code_text o volume),
  )

  -- How a step ends when it cannot raise.
  abbrev pub Gives : OrderStatus → ℕ → Result PaperOrder × Adapter → Type 0
  Gives status volume = Ends (λ o s'. (o.status ≡ status) × (o.filled_volume ≡ volume)) (λ e s'. ⊥)

  -- The fill of an order that has just been accepted.
  fill_accepted :
      (o : PaperOrder) (q : PaperQuote) (s : Adapter)
      → o.status ≡ accepted
      → o.filled_volume ≡ 0
      → 0 < o.request.volume
      → 0 < fill_price setup o q
      → Gives
          (if q.available_volume == 0
            then accepted
            else if leb o.request.volume q.available_volume
            then filled
            else partial)
          (min o.request.volume q.available_volume)
          (fill setup o q s)
  unfolding fill remaining_volume allows
  fill_accepted o q s a z p c =
      ground (
        arith,
        fill_volume_done o q (min (o.request.volume - o.filled_volume) q.available_volume) s,
      )

  fill_price-moved :
      (o : PaperOrder) (q : PaperQuote) (code : String) (s : Adapter)
      → fill_price setup (moved o (next_event setup o accepted code s)) q ≡ fill_price setup o q
  unfolding fill_price
  fill_price-moved o q code s = refl

  route_new :
      (o : PaperOrder) (q : PaperQuote) (t : DateTime) (s : Adapter)
      → o.status ≡ created
      → o.filled_volume ≡ 0
      → 0 < o.request.volume
      → 0 < fill_price setup o q
      → Gives
          (expected_status setup.policy o.request q t)
          (expected_volume setup.policy o.request q t)
          (route setup o q t s)
  unfolding route quote_error allows
  route_new o q t s a z p c = ground (
    arith,
    codes_text,
    fill_price-moved o q "ORDER_ACCEPTED" s,
    transition_done o expired "ORDER_EXPIRED" s,
    transition_done o rejected "QUOTE_SYMBOL_MISMATCH" s,
    transition_done o rejected "QUOTE_FROM_FUTURE" s,
    transition_done o rejected "QUOTE_TOO_OLD" s,
    transition_done o accepted "ORDER_ACCEPTED" s,
    fill_accepted (moved o (next_event setup o accepted "ORDER_ACCEPTED" s)) q (ticked s),
  )

  -- A submission of a valid request under a free key, while the clock reads UTC and slippage leaves
  -- the price positive, returns an order whose status and filled volume are those expected at the
  -- first reading of the clock: EXPIRED from the expiry on; else REJECTED without a usable quote;
  -- else the lesser of the requested and the available volume is filled, and the status is FILLED,
  -- PARTIAL or, when nothing is available, ACCEPTED.
  pub submit_outcome :
      (r : PaperOrderRequest) (q : PaperQuote) (s : Adapter)
      → check_request r ≡ ok tt
      → lookup r.idempotency_key s.orders ≡ none
      → ((o : PaperOrder) → o.request ≡ r → 0 < fill_price setup o q)
      → let t = setup.clock s.clock_calls in
        Gives
          (expected_status setup.policy r q t)
          (expected_volume setup.policy r q t)
          (submit setup r q s)
  unfolding submit submit_new save store now check_event
  submit_outcome r q s fine fresh c =
      let t = setup.clock s.clock_calls in
      let o = first_order setup r fine t in
      ground (
        arith,
        codes_text,
        utc s.clock_calls,
        check_request-volume r fine,
        c o refl,
        route_new o q t (ticked s) refl refl,
      )

fill_price_sides :
    (setup : Setup) (o : PaperOrder) (q : PaperQuote)
    → 0 < fill_price setup o q
    → let slippage = o.request.instrument.point * setup.policy.slippage_points in
      (o.request.side ≡ buy → fill_price setup o q ≡ q.ask + slippage)
      × (o.request.side ≢ buy → fill_price setup o q + slippage ≡ q.bid)
unfolding fill_price
fill_price_sides setup o q p = ground arith

fill_volume_price :
    (setup : Setup) (o o' : PaperOrder) (q : PaperQuote) (volume : ℕ) (s : Adapter)
    → (fill_volume setup o q volume s).0 ≡ ok o'
    → (o' ≡ filled_order setup o q volume (fill_target setup o volume) (fill_code setup o volume) s)
      × (0 < fill_price setup o q)
fill_volume_price setup o o' q volume s done = ground (arith, fill_volume_lem setup o q volume s)

-- What a fill that returns has done: nothing when no volume is left or available, else one more
-- fill, of the lesser of the remaining and the available volume, at the ask and slippage above it
-- for a purchase, at the bid and slippage below it for a sale.
pub fill_exact :
    (setup : Setup) (o o' : PaperOrder) (q : PaperQuote) (s : Adapter)
    → o.filled_volume ≤ o.request.volume
    → (fill setup o q s).0 ≡ ok o'
    → let volume = min (o.request.volume - o.filled_volume) q.available_volume in
      let slippage = o.request.instrument.point * setup.policy.slippage_points in
      (o'.filled_volume ≡ o.filled_volume + volume)
      × (((volume ≡ 0) × (o'.fills ≡ o.fills))
          ⊎ ((price : ℕ) × (o'.fills
                ≡ o.fills
                  ++ new_fill volume price
                      (volume * setup.policy.commission_per_volume)
                      (setup.clock s.clock_calls)
                    ∷ [])
              × (0 < price)
              × ((o.request.side ≡ buy) → price ≡ q.ask + slippage)
              × ((o.request.side ≢ buy) → price + slippage ≡ q.bid)))
unfolding fill remaining_volume
fill_exact setup o o' q s within done =
    let volume = min (o.request.volume - o.filled_volume) q.available_volume in
    elim (Bool-cases (volume == 0)) [
      | inl nothing ↦ ground arith
      | inr something ↦
          let priced = fill_volume_price setup o o' q volume s (ground arith) in
          let sides = fill_price_sides setup o q priced.1 in
          (ground arith, inr (fill_price setup o q, ground arith, priced.1, sides.0, sides.1))
    ]
