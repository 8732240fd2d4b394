-- ===== src/Execution/Lifecycle.antt =====
-- The order lifecycle: src/quantora_trade/execution/lifecycle.py.
pub mod Trace
use quantora_trade.Prelude.{Bool, true, false, not}
use quantora_trade.Prelude.Exec.{Check, check, invalid_transition}
use quantora_trade.Execution.Models.{
  OrderStatus, created, accepted, partial, filled, cancel_pending, cancelled, rejected, expired,
  unknown,
}

-- `target in ORDER_TRANSITIONS[current]`
unfoldable pub allows : OrderStatus → OrderStatus → Bool
allows created accepted = true
allows created rejected = true
allows created expired = true
allows accepted partial = true
allows accepted filled = true
allows accepted cancel_pending = true
allows accepted expired = true
allows partial partial = true
allows partial filled = true
allows partial cancel_pending = true
allows partial expired = true
allows cancel_pending cancelled = true
allows _ _ = false

-- The message names the two states in the source.
unfoldable pub require_transition : OrderStatus → OrderStatus → Check
unfolding allows
require_transition current target =
    check (not (allows current target)) (invalid_transition "invalid order transition")
