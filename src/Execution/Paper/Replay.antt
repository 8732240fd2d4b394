-- ===== src/Execution/Paper/Replay.antt =====
-- Idempotency of `submit`: what a second submission under a used key returns.
use text.Mathlib.TextEquality.{eq_iff}
use quantora_trade.Prelude.{◌≡◌, ◌⊎◌, inl, inr, ◌==◌, string_eq, some, arith, if◌then◌else◌}
use quantora_trade.Prelude.Dict.{lookup, lookup-insert_self}
use quantora_trade.Prelude.Exec.{Result, ok, err, idempotency_conflict}
use quantora_trade.Domain.Enums.{Action, TradingMode}
use quantora_trade.Execution.Models.{
  PaperOrder, PaperOrderRequest, PaperQuote, check_request, PaperOrderRequest-discrete,
}
use quantora_trade.Execution.Paper.{
  Setup, Adapter, submit, request_hash, request_payload, action_value, mode_value,
}
use quantora_trade.Execution.Paper.Methods.{Submits, submit-Submits}

action_value-injective : (a b : Action) → action_value a ≡ action_value b → a ≡ b
action_value-injective a b e =
    ground (arith, eq_iff "BUY" "SELL", eq_iff "BUY" "HOLD", eq_iff "SELL" "HOLD")

mode_value-injective : (a b : TradingMode) → mode_value a ≡ mode_value b → a ≡ b
mode_value-injective a b e =
    ground (arith, eq_iff "paper" "live", eq_iff "paper" "backtest", eq_iff "live" "backtest")

-- The hashed payload and the key together determine a request: nothing of it stays unhashed.
pub request_payload-injective :
    (r r' : PaperOrderRequest)
    → request_payload r ≡ request_payload r'
    → r.idempotency_key ≡ r'.idempotency_key
    → r ≡ r'
unfolding request_payload
request_payload-injective r r' e k =
    ground (arith, action_value-injective r.side r'.side, mode_value-injective r.mode r'.mode)

module _ (setup : Setup) where
  -- What `submit` returns lies in the store, under the hash of its request.
  submit_stored :
      (r : PaperOrderRequest) (s : Adapter) (o : PaperOrder) (x : Result PaperOrder × Adapter)
      → Submits setup r s x
      → x.0 ≡ ok o
      → (lookup r.idempotency_key x.1.orders ≡ some o)
        × (o.request_hash ≡ request_hash setup.libs r)
  submit_stored r s o (ok p, t) (inl (found, same, e)) done = ground arith
  submit_stored r s o (ok p, t) (inr (fresh, v, f, e)) done =
      ground (arith, lookup-insert_self r.idempotency_key p s.orders)
  submit_stored r s o (err e, t) h done = cc

  -- What a submission of `r'` does where the order `o` of `r` is stored under its key.
  abbrev pub Replays :
      PaperOrderRequest
      → PaperOrderRequest
      → PaperOrder
      → Adapter
      → Result PaperOrder × Adapter
      → Type 0
  Replays r r' o t x =
      (x ≡ (
        if request_hash setup.libs r' == request_hash setup.libs r
        then (ok o, t)
        else (err (idempotency_conflict "idempotency key reused with a different request"), t)))
      × ((r' ≡ r)
          ⊎ (x ≡ (err (idempotency_conflict "idempotency key reused with a different request"), t)))

  submit_seen :
      (r r' : PaperOrderRequest) (q' : PaperQuote) (o : PaperOrder) (t : Adapter)
      → lookup r'.idempotency_key t.orders ≡ some o
      → o.request_hash ≡ request_hash setup.libs r
      → r'.idempotency_key ≡ r.idempotency_key
      → (request_hash setup.libs r ≡ request_hash setup.libs r'
          → request_payload r ≡ request_payload r')
      → Replays r r' o t (submit setup r' q' t)
  unfolding submit
  submit_seen r r' q' o t there hash k sound = (
    ground arith,
    elim (PaperOrderRequest-discrete r' r) [
      | yes e ↦ inl e
      | no ne ↦ inr (ground (arith, ne, request_payload-injective r r'))
    ],
  )

  -- After a submission of `r` that returned `o`, a submission of `r'` under the same key changes
  -- nothing and reads no clock. It returns `o` if the two requests have the same hash and raises
  -- IdempotencyConflict if not, which it does whenever the requests differ in anything. The hypothesis: the two payloads are no
  -- collision of the hash. Requests that are equal but written differently, as with the volumes
  -- Decimal("1") and Decimal("1.0"), have different hashes in the source, and nothing is said of them.
  pub submit_twice :
      (r r' : PaperOrderRequest) (q q' : PaperQuote) (o : PaperOrder) (s t : Adapter)
      → check_request r ≡ ok tt
      → (submit setup r q s).0 ≡ ok o
      → t.orders ≡ (submit setup r q s).1.orders
      → r'.idempotency_key ≡ r.idempotency_key
      → (request_hash setup.libs r ≡ request_hash setup.libs r'
          → request_payload r ≡ request_payload r')
      → Replays r r' o t (submit setup r' q' t)
  submit_twice r r' q q' o s t fine done same k sound =
      let (there, hash) =
        submit_stored r s o (submit setup r q s) (submit-Submits setup r fine q s) done in
      submit_seen r r' q' o t (rw (k, same) there) hash k sound
