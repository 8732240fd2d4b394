-- ===== src/Execution/Repository.antt =====
-- The order repository over PostgreSQL: src/quantora_trade/infrastructure/database/
-- order_repository.py. A row with its events and fills is the order that `_order` reads back, and
-- the rows are keyed by idempotency key. Other processes share the table: `others i` is what they
-- do before this process's table access number `i`; a row that is read FOR UPDATE stays locked.
pub mod Validation
pub mod Append
use quantora_trade.Prelude.{
  ℕ, suc, ◌+◌, ◌≤◌, ltb, leb, String, Bool, true, false, not, ◌||◌, ◌&&◌, Option, none, some, List,
  [], ◌∷◌, length, take, any, ◌==◌, ◌!=◌, nat_eq, string_eq, if◌then◌else◌, Eq,
}
use quantora_trade.Prelude.Text.{text_length, is_hex}
use quantora_trade.Prelude.Dict.{Dict, lookup, insert}
use quantora_trade.Prelude.Exec.{
  value_error, idempotency_conflict, concurrent_update, Check, check, ◌⨾◌, Result, ok, err, Exec,
  pure, raise, gets, lift, modify, raise_if, ◌>>=◌, ◌>>◌,
}
use quantora_trade.Domain.Enums.{TradingMode, paper, trading_mode_eq}
use quantora_trade.Execution.Models.{
  OrderStatus, created, Fill, OrderEvent, PaperOrder, order_status_eq, request_eq, order_eq,
  event_eq, fill_eq, OrderEvent-discrete, Fill-discrete,
}
use quantora_trade.Execution.Lifecycle.{require_transition}
use quantora_trade.Execution.Paper.Invariant.{total_volume}

pub record Table : Type 0 where
  pub rows : Dict String PaperOrder
  pub accesses : ℕ

-- `event.sequence` runs 1, 2, …
unfoldable pub is_contiguous : ℕ → List OrderEvent → Bool
is_contiguous n [] = true
is_contiguous n (e ∷ es) = e.sequence == n && is_contiguous (n + 1) es

abbrev pub last_status : OrderStatus → List OrderEvent → OrderStatus
last_status s [] = s
last_status s (e ∷ es) = last_status e.status es

-- `require_transition` of each two neighbours
unfoldable pub check_transitions : OrderStatus → List OrderEvent → Check
check_transitions s [] = ok tt
check_transitions s (e ∷ es) = require_transition s e.status ⨾ check_transitions e.status es

abbrev is_empty : List OrderEvent → Bool
is_empty [] = true
is_empty (_ ∷ _) = false

-- The checks of `_validate` that speak of the first event, once there is one.
unfoldable pub check_events : PaperOrder → List OrderEvent → Check
check_events o [] = err (value_error "events must have contiguous sequence starting at one")
check_events o (e ∷ es) =
    check (not (is_contiguous 1 (e ∷ es)))
      (value_error "events must have contiguous sequence starting at one")
    ⨾ check (e.status != created) (value_error "paper order must begin in created state")
    ⨾ check (total_volume o.fills != o.filled_volume || ltb o.request.volume (total_volume o.fills))
        (value_error "filled volume must equal fills and not exceed requested volume")
    ⨾ check (last_status e.status es != o.status)
        (value_error "latest event status must equal order status")
    ⨾ check_transitions e.status es

unfoldable pub validate : PaperOrder → Check
validate o =
    check (o.request.mode != paper) (value_error "only PAPER orders may be persisted")
    ⨾ check (text_length o.request_hash != 64 || not (is_hex o.request_hash))
        (value_error "request_hash must be a SHA-256 hex digest")
    ⨾ check_events o o.events

unfoldable pub require_identity : PaperOrder → PaperOrder → Check
require_identity current candidate =
    check
      (current.id != candidate.id
        || current.request_hash != candidate.request_hash
        || current.request != candidate.request)
      (idempotency_conflict "idempotency key reused with a different request")

-- Instances for the two kinds of evidence lists.
unfoldable pub events_discrete : Discrete (List OrderEvent)
events_discrete = hlevel OrderEvent-discrete

unfoldable pub fills_discrete : Discrete (List Fill)
fills_discrete = hlevel Fill-discrete

instance abbrev pub events_eq : Eq (List OrderEvent)
events_eq = record { dec = events_discrete }

instance abbrev pub fills_eq : Eq (List Fill)
fills_eq = record { dec = fills_discrete }

-- `expected_sequence is not None and expected_sequence != n`
abbrev pub misses : Option ℕ → ℕ → Bool
misses none n = false
misses (some k) n = k != n

-- What `persist` does with the row that it found and locked: the row to write, or an error.
unfoldable pub advance : PaperOrder → PaperOrder → Option ℕ → Result PaperOrder
advance current order expected =
    let checks =
      check (misses expected (length current.events))
        (concurrent_update "paper order sequence changed")
      ⨾ check (leb (length order.events) (length current.events))
          (concurrent_update "paper order snapshot is stale")
      ⨾ check (take (length current.events) order.events != current.events)
          (value_error "persisted order events are immutable")
      ⨾ check
          (ltb (length order.fills) (length current.fills)
            || take (length current.fills) order.fills != current.fills)
          (value_error "persisted fills are immutable") in
    elim (require_identity current order) [
      | err e ↦ err e
      | ok _ ↦
          if current == order then ok current else elim checks [ err e ↦ err e | ok _ ↦ ok order ]
    ]

-- Whether a unique column of the table already holds the key, the UUID or the hash of the order.
unfoldable pub collides : PaperOrder → Dict String PaperOrder → Bool
collides o [] = false
collides o ((key, p) ∷ rows) =
    (o.request.idempotency_key == key || o.id == p.id || o.request_hash == p.request_hash)
    || collides o rows

module _ (others : ℕ → Dict String PaperOrder → Dict String PaperOrder) where
  -- The other processes' turn.
  unfoldable pub interfere : Exec Table (Unit {0})
  interfere = modify (λ t. record t { rows = others t.accesses t.rows; accesses = t.accesses + 1 })

  unfoldable pub get : String → Exec Table (Option PaperOrder)
  get key = do interfere; gets (λ t. lookup key t.rows)

  -- A new row; the database refuses it with an IntegrityError if a unique column has its value.
  unfoldable pub insert_row : PaperOrder → Exec Table PaperOrder
  insert_row order = do
    interfere
    taken ← gets (λ t. collides order t.rows)
    raise_if taken (idempotency_conflict "paper order identity already belongs to another request")
    modify (λ t. record t { rows = insert order.request.idempotency_key order t.rows })
    pure order

  unfoldable pub update_row : PaperOrder → PaperOrder → Option ℕ → Exec Table PaperOrder
  update_row current order expected = do
    row ← lift (advance current order expected)
    modify (λ t. record t { rows = insert order.request.idempotency_key row t.rows })
    pure row

  unfoldable pub persist : PaperOrder → Option ℕ → Exec Table PaperOrder
  persist order expected = do
    lift (validate order)
    interfere
    row ← gets (λ t. lookup order.request.idempotency_key t.rows)
    elim row [
      | none ↦
          raise_if (misses expected 0)
            (concurrent_update "paper order does not exist at expected sequence")
          >> insert_row order
      | some current ↦ update_row current order expected
    ]
