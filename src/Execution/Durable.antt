-- ===== src/Execution/Durable.antt =====
-- The durable facade: src/quantora_trade/execution/durable.py. Its state is the wrapped adapter's
-- and the table's.
pub mod Safety
pub mod Calls
use quantora_trade.Prelude.{
  ℕ, suc, zero, ◌+◌, String, Bool, true, false, ◌||◌, Option, none, some, List, length, ◌==◌, ◌!=◌,
  string_eq, if◌then◌else◌,
}
use quantora_trade.Prelude.Dict.{Dict}
use quantora_trade.Prelude.Exec.{
  Error, idempotency_conflict, key_error, reconciliation_required, assertion_error,
  is_runtime_error, Result, ok, err, Exec, pure, raise, raise_if, ◌>>=◌, ◌>>◌,
}
use quantora_trade.Execution.Models.{PaperOrder, PaperOrderRequest, PaperQuote, request_eq}
use quantora_trade.Execution.Paper.{Setup, Adapter, request_hash, restore, reconcile}
use quantora_trade.Execution.Paper
use quantora_trade.Execution.Repository.{Table}
use quantora_trade.Execution.Repository

pub record Durable : Type 0 where
  pub memory : Adapter
  pub table : Table

-- A call of the wrapped adapter, and one of the repository.
abbrev pub in_memory : {A : Type 0} → Exec Adapter A → Exec Durable A
in_memory m s = let (r, t) = m s.memory in (r, record s { memory = t })

abbrev pub in_table : {A : Type 0} → Exec Table A → Exec Durable A
in_table m s = let (r, t) = m s.table in (r, record s { table = t })

-- `try: m` with `except` clauses for the errors that `caught` names.
abbrev pub recover :
    {A : Type 0} → Exec Durable A → (Error → Bool) → (Error → Exec Durable A) → Exec Durable A
recover m caught handler s =
    let (r, t) = m s in
    elim r [ ok a ↦ (ok a, t) | err e ↦ if caught e then handler e t else (err e, t) ]

-- `except IdempotencyConflict`
abbrev pub is_conflict : Error → Bool
is_conflict (idempotency_conflict _) = true
is_conflict _ = false

-- `self._adapter.restore(order)`, and the order.
unfoldable pub restored : PaperOrder → Exec Durable PaperOrder
restored order = in_memory (restore order) >> pure order

-- The end of `submit` after a conflict, with what the table holds by then.
unfoldable pub replay_or_raise : PaperOrder → Error → Option PaperOrder → Exec Durable PaperOrder
replay_or_raise candidate error none = raise error
replay_or_raise candidate error (some winner) =
    if winner.request_hash != candidate.request_hash then raise error else restored winner

-- `get` with what the table holds.
unfoldable pub get_found : Option PaperOrder → Exec Durable PaperOrder
get_found none = raise (key_error "paper order not found")
get_found (some order) = restored order

-- Only the first of the two attempts is tried again.
unfoldable pub after_race : ℕ → Exec Durable PaperOrder → Exec Durable PaperOrder
after_race zero again =
    raise (reconciliation_required "concurrent PAPER mutation requires explicit reconciliation")
after_race (suc left) again = again

module _ (setup : Setup) (others : ℕ → Dict String PaperOrder → Dict String PaperOrder) where
  unfoldable pub load : String → Exec Durable (Option PaperOrder)
  load key = in_table (Repository.get others key)

  unfoldable pub write : PaperOrder → ℕ → Exec Durable PaperOrder
  write order expected = in_table (Repository.persist others order (some expected))

  unfoldable pub persist_new : PaperOrderRequest → PaperOrder → Exec Durable PaperOrder
  persist_new request candidate =
      recover (write candidate 0) is_conflict
        λ error. load request.idempotency_key >>= replay_or_raise candidate error

  -- `submit` with what the table holds under the key.
  unfoldable pub submit_found :
      PaperOrderRequest → PaperQuote → Option PaperOrder → Exec Durable PaperOrder
  submit_found request quote none =
      in_memory (Paper.submit setup request quote) >>= persist_new request
  submit_found request quote (some current) =
      if current.request_hash != request_hash setup.libs request || current.request != request
      then raise (idempotency_conflict "idempotency key reused with a different request")
      else restored current

  unfoldable pub submit : PaperOrderRequest → PaperQuote → Exec Durable PaperOrder
  submit request quote = load request.idempotency_key >>= submit_found request quote

  -- The body of the `try` in `_mutate`.
  unfoldable pub apply_and_write : Exec Adapter PaperOrder → PaperOrder → Exec Durable PaperOrder
  apply_and_write action current = do
    candidate ← in_memory action
    write candidate (length current.events)

  -- One attempt of `_mutate` with what the table holds; `again` is the rest of the loop.
  unfoldable pub attempt :
      Exec Adapter PaperOrder
      → Exec Durable PaperOrder
      → Option PaperOrder
      → Exec Durable PaperOrder
  attempt action again none = raise (key_error "paper order not found")
  attempt action again (some current) =
      in_memory (reconcile current)
      >> recover (apply_and_write action current) is_runtime_error (λ error. again)

  -- `_mutate` with the attempts that are left; the source makes two.
  unfoldable pub mutate : ℕ → String → Exec Adapter PaperOrder → Exec Durable PaperOrder
  mutate zero key action = raise (assertion_error "bounded mutation loop exhausted")
  mutate (suc left) key action =
      load key >>= attempt action (after_race left (mutate left key action))

  unfoldable pub add_liquidity : String → PaperQuote → Exec Durable PaperOrder
  add_liquidity key quote = mutate 2 key (Paper.add_liquidity setup key quote)

  unfoldable pub cancel : String → Exec Durable PaperOrder
  cancel key = mutate 2 key (Paper.cancel setup key)

  unfoldable pub expire : String → Exec Durable PaperOrder
  expire key = mutate 2 key (Paper.expire setup key)

  unfoldable pub get : String → Exec Durable PaperOrder
  get key = load key >>= get_found
