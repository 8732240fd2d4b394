-- ===== src/Execution/Repository/Validation.antt =====
-- What `_validate` accepts: exactly the PAPER orders with a hash of the right form, a history that
-- the lifecycle allows, and the filled volume that their fills have.
use quantora_trade.Prelude.{
  ℕ, suc, ◌≤◌, ◌≡◌, refl, ◌↔◌, Bool, true, ◌&&◌, String, List, [], ◌∷◌, arith, ◌==◌, nat_eq,
}
use quantora_trade.Prelude.Text.{text_length, is_hex}
use quantora_trade.Prelude.Exec.{ok}
use quantora_trade.Domain.Enums.{paper}
use quantora_trade.Execution.Models.{OrderStatus, OrderEvent, PaperOrder}
use quantora_trade.Execution.Lifecycle.{require_transition}
use quantora_trade.Execution.Lifecycle.Trace.{Leads, IsHistory}
use quantora_trade.Execution.Paper.Invariant.{total_volume}
use quantora_trade.Execution.Repository.{
  validate, check_events, check_transitions, is_contiguous, last_status,
}

-- A chain of allowed statuses and contiguous numbers is a path of the lifecycle.
chain-Leads :
    (n : ℕ) (from : OrderStatus) (es : List OrderEvent)
    → is_contiguous (suc n) es ≡ true
    → check_transitions from es ≡ ok tt
    → Leads n from es (last_status from es)
unfolding is_contiguous check_transitions require_transition
chain-Leads n from [] c t = refl
chain-Leads n from (e ∷ es) c t = ground (arith, chain-Leads (suc n) e.status es)

Leads-chain :
    (n : ℕ) (from to : OrderStatus) (es : List OrderEvent)
    → Leads n from es to
    → (is_contiguous (suc n) es ≡ true)
      × (check_transitions from es ≡ ok tt)
      × (last_status from es ≡ to)
unfolding is_contiguous check_transitions require_transition
Leads-chain n from to [] h = (refl, refl, h)
Leads-chain n from to (e ∷ es) h = ground (arith, Leads-chain (suc n) e.status to es h.2)

-- A SHA-256 hex digest, as `_validate` tests it.
abbrev pub is_digest : String → Bool
is_digest s = text_length s == 64 && is_hex s

pub record IsPersistable (o : PaperOrder) : Type 0 where
  pub in_paper_mode : o.request.mode ≡ paper
  pub hashed : is_digest o.request_hash ≡ true
  pub history : IsHistory o.events o.status
  pub summed : o.filled_volume ≡ total_volume o.fills
  pub within : o.filled_volume ≤ o.request.volume

events_checked :
    (o : PaperOrder) (es : List OrderEvent)
    → (check_events o es ≡ ok tt) ↔ (
        IsHistory es o.status
        × (o.filled_volume ≡ total_volume o.fills)
        × (o.filled_volume ≤ o.request.volume))
unfolding check_events is_contiguous
events_checked o [] = (λ h. cc, λ h. elim h.0 [ ])
events_checked o (e ∷ es) = (
  λ h. ground (arith, chain-Leads 1 e.status es),
  λ h. ground (arith, Leads-chain 1 e.status o.status es h.0.2),
)

-- `_validate` passes exactly the orders that are persistable.
pub validate-IsPersistable : (o : PaperOrder) → (validate o ≡ ok tt) ↔ IsPersistable o
unfolding validate
validate-IsPersistable o = (
  λ h. ground (arith, (events_checked o o.events).0),
  λ h. ground (arith, (events_checked o o.events).1 (h.history, h.summed, h.within)),
)
