-- ===== src/Execution/Lifecycle/Trace.antt =====
-- Event lists that the lifecycle allows: contiguous numbers, and each status allowed after the one
-- before it.
use quantora_trade.Prelude.{ℕ, suc, ◌+◌, ◌≡◌, refl, true, false, List, [], ◌∷◌, ◌++◌, length, arith}
use quantora_trade.Execution.Models.{
  OrderStatus, OrderEvent, created, filled, cancelled, rejected, expired, unknown,
}
use quantora_trade.Execution.Lifecycle.{allows}

-- From the status `from` after event `n`, the events lead to the status `to`.
abbrev pub Leads : ℕ → OrderStatus → List OrderEvent → OrderStatus → Type 0
Leads n from [] to = from ≡ to
Leads n from (e ∷ es) to =
    (e.sequence ≡ suc n) × (allows from e.status ≡ true) × Leads (suc n) e.status es to

-- A whole history: event 1 has the status `created`.
abbrev pub IsHistory : List OrderEvent → OrderStatus → Type 0
IsHistory [] to = ⊥
IsHistory (e ∷ es) to = (e.sequence ≡ 1) × (e.status ≡ created) × Leads 1 e.status es to

Leads-snoc :
    (n : ℕ) (from mid : OrderStatus) (es : List OrderEvent) (e : OrderEvent)
    → Leads n from es mid
    → allows mid e.status ≡ true
    → e.sequence ≡ suc (n + length es)
    → Leads n from (es ++ e ∷ []) e.status
Leads-snoc n from mid [] e h a s = (omega arith, ground arith, refl)
Leads-snoc n from mid (x ∷ es) e (hs, ha, h) a s =
    (hs, ha, Leads-snoc (suc n) x.status mid es e h a (omega arith))

-- An allowed event with the next number extends a history.
pub IsHistory-snoc :
    (es : List OrderEvent) (from : OrderStatus) (e : OrderEvent)
    → IsHistory es from
    → allows from e.status ≡ true
    → e.sequence ≡ suc (length es)
    → IsHistory (es ++ e ∷ []) e.status
IsHistory-snoc [] from e h a s = elim h [ ]
IsHistory-snoc (x ∷ es) from e (hs, hc, h) a s =
    (hs, hc, Leads-snoc 1 x.status from es e h a (omega arith))

-- The states that no event leaves.
pub data IsTerminal : OrderStatus → Type 0 where
  is_filled : IsTerminal filled
  is_cancelled : IsTerminal cancelled
  is_rejected : IsTerminal rejected
  is_expired : IsTerminal expired
  is_unknown : IsTerminal unknown

pub allows-IsTerminal : {s : OrderStatus} → IsTerminal s → (t : OrderStatus) → allows s t ≡ false
unfolding allows
allows-IsTerminal is_filled t = refl
allows-IsTerminal is_cancelled t = refl
allows-IsTerminal is_rejected t = refl
allows-IsTerminal is_expired t = refl
allows-IsTerminal is_unknown t = refl
