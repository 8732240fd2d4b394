-- ===== src/Execution/Paper/Terminal.antt =====
-- Orders in a terminal state.
use quantora_trade.Prelude.{◌+◌, ◌≡◌, refl, String, some, false, arith, string_eq}
use quantora_trade.Prelude.Dict.{lookup}
use quantora_trade.Prelude.Exec.{Result, Ends, Exec}
use quantora_trade.Domain.Time.{DateTime}
use quantora_trade.Execution.Models.{
  OrderStatus, PaperOrder, PaperQuote, expired, cancel_pending, filled,
}
use quantora_trade.Execution.Lifecycle.{allows, require_transition}
use quantora_trade.Execution.Lifecycle.Trace.{IsTerminal, allows-IsTerminal}
use quantora_trade.Execution.Paper.{
  Setup, Adapter, get, now, transition, fill, fill_on_quote, fill_or_expire, save, cancel_order,
  add_liquidity, cancel, expire,
}

-- A call that raises and leaves the stored orders as they were.
abbrev pub Fails : Adapter → Result PaperOrder × Adapter → Type 0
Fails s = Ends (λ o s'. ⊥) (λ e s'. s'.orders ≡ s.orders)

module _ (setup : Setup) where
  transition-Fails :
      (o : PaperOrder) (target : OrderStatus) (code : String) (s : Adapter)
      → allows o.status target ≡ false
      → Fails s (transition setup o target code s)
  unfolding transition require_transition
  transition-Fails o target code s a = ground arith

  fill-Fails :
      (o : PaperOrder) (q : PaperQuote) (s : Adapter)
      → allows o.status filled ≡ false
      → Fails s (fill setup o q s)
  unfolding fill allows
  fill-Fails o q s h = ground arith

  fill_or_expire-Fails :
      (o : PaperOrder) (q : PaperQuote) (t : DateTime) (s : Adapter)
      → IsTerminal o.status
      → Fails s (fill_or_expire setup o q t s)
  unfolding fill_or_expire fill_on_quote
  fill_or_expire-Fails o q t s h = ground (
    arith,
    transition-Fails o expired "ORDER_EXPIRED" s (allows-IsTerminal h expired),
    fill-Fails o q s (allows-IsTerminal h filled),
  )

  save-Fails :
      (key : String) (m : Exec Adapter PaperOrder) (s t : Adapter)
      → t.orders ≡ s.orders
      → Fails t (m t)
      → Fails s (save key m t)
  unfolding save
  save-Fails key m s t e h = ground arith

  cancel_order-Fails :
      (o : PaperOrder) (s : Adapter) → IsTerminal o.status → Fails s (cancel_order setup o s)
  unfolding cancel_order
  cancel_order-Fails o s h = ground (
    arith,
    transition-Fails o cancel_pending "CANCEL_REQUESTED" s (allows-IsTerminal h cancel_pending),
  )

  module _ (key : String) (o : PaperOrder) (s : Adapter) (found : lookup key s.orders ≡ some o)
      (h : IsTerminal o.status) where
    -- An order that is FILLED, CANCELLED, REJECTED, EXPIRED or UNKNOWN stays as it is: more
    -- liquidity, a cancellation and an expiry raise, and the stored orders are left alone.
    pub terminal_frozen :
        (q : PaperQuote)
        → Fails s (add_liquidity setup key q s)
          × Fails s (cancel setup key s)
          × Fails s (expire setup key s)
    unfolding add_liquidity cancel expire get now
    terminal_frozen q =
        let t = record s { clock_calls = s.clock_calls + 1 } in
        (
          ground (
            arith,
            save-Fails key (fill_or_expire setup o q (setup.clock s.clock_calls)) s t refl
                (fill_or_expire-Fails o q (setup.clock s.clock_calls) t h),
          ),
          ground (arith, save-Fails key (cancel_order setup o) s s refl (cancel_order-Fails o s h)),
          ground (
            arith,
            save-Fails key (transition setup o expired "ORDER_EXPIRED") s t refl
                (transition-Fails o expired "ORDER_EXPIRED" t (allows-IsTerminal h expired)),
          ),
        )
