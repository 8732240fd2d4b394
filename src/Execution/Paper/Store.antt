-- ===== src/Execution/Paper/Store.antt =====
-- The store over any sequence of calls: every order in it is sound, and an order only evolves.
use quantora_trade.Prelude.{
  ◌≡◌, refl, ◌⊎◌, inl, inr, string_eq, String, some, List, [], ◌∷◌, All, arith,
}
use quantora_trade.Prelude.Dict.{lookup, insert, lookup-insert, lookup-empty}
use quantora_trade.Prelude.Exec.{Result, ok, err}
use quantora_trade.Execution.Models.{PaperOrder, PaperOrderRequest, check_request}
use quantora_trade.Execution.Paper.{
  Setup, Adapter, Call, submits, adds_liquidity, cancels, expires, restores, reconciles, call, run,
  empty, submit, add_liquidity, cancel, expire, restore, reconcile, store,
}
use quantora_trade.Execution.Paper.Invariant.{IsValid, Evolves}
use quantora_trade.Execution.Paper.Methods.{
  Updates, Submits, IsFor, add_liquidity-Updates, cancel-Updates, expire-Updates, submit-Submits,
}

module _ (setup : Setup) where
  -- A valid order, whose hash and UUID are those that its request gives, under its request's key.
  pub record IsSound (key : String) (o : PaperOrder) : Type 0 where
    pub valid : IsValid o
    pub keyed : o.request.idempotency_key ≡ key
    pub checked : check_request o.request ≡ ok tt
    pub identified : IsFor setup o.request o

  abbrev pub AllSound : Adapter → Type 0
  AllSound s = (key : String) (o : PaperOrder) → lookup key s.orders ≡ some o → IsSound key o

  -- What a caller may pass: requests that their constructor accepts, and orders that are sound.
  abbrev pub IsProper : Call → Type 0
  IsProper (submits r q) = check_request r ≡ ok tt
  IsProper (restores o) = IsSound o.request.idempotency_key o
  IsProper (reconciles o) = IsSound o.request.idempotency_key o
  IsProper _ = Unit

  AllSound-insert :
      (key : String) (o : PaperOrder) (s t : Adapter)
      → AllSound s
      → IsSound key o
      → t.orders ≡ insert key o s.orders
      → AllSound t
  AllSound-insert key o s t h n e j p found =
      ground (arith, lookup-insert key j o s.orders, h j p, n)

  IsSound-Evolves :
      {key : String} {o p : PaperOrder} → IsSound key o → IsValid p → Evolves o p → IsSound key p
  IsSound-Evolves s v g = record {
    valid = v;
    keyed = ground arith;
    checked = ground arith;
    identified = record { same_request = refl; same_hash = ground arith; named = ground arith };
  }

  AllSound-same : (s t : Adapter) → AllSound s → t.orders ≡ s.orders → AllSound t
  AllSound-same s t h e j p found = h j p (ground arith)

  Updates-AllSound :
      (key : String) (s : Adapter) (r : Result PaperOrder × Adapter)
      → AllSound s
      → Updates key s r
      → AllSound r.1
  Updates-AllSound key s (ok o', t) h (o, found, v, g, e) =
      AllSound-insert key o' s t h (IsSound-Evolves (h key o found) v g) e
  Updates-AllSound key s (err x, t) h e = AllSound-same s t h e

  Submits-AllSound :
      (request : PaperOrderRequest) (s : Adapter) (r : Result PaperOrder × Adapter)
      → check_request request ≡ ok tt
      → AllSound s
      → Submits setup request s r
      → AllSound r.1
  Submits-AllSound request s (ok o, t) c h (inl (found, same, e)) = AllSound-same s t h e
  Submits-AllSound request s (ok o, t) c h (inr (fresh, v, f, e)) =
      AllSound-insert request.idempotency_key o s t h
        (record {
          valid = v;
          keyed = ground arith;
          checked = ground (arith, f.same_request);
          identified = record {
            same_request = refl;
            same_hash = ground arith;
            named = ground arith;
          };
        })
        e
  Submits-AllSound request s (err x, t) c h e = AllSound-same s t h e

  stored-AllSound :
      (o : PaperOrder) (s t : Adapter)
      → AllSound s
      → IsSound o.request.idempotency_key o
      → (t.orders ≡ s.orders) ⊎ (t.orders ≡ insert o.request.idempotency_key o s.orders)
      → AllSound t
  stored-AllSound o s t h n (inl e) = AllSound-same s t h e
  stored-AllSound o s t h n (inr e) = AllSound-insert o.request.idempotency_key o s t h n e

  pub call-AllSound : (c : Call) (s : Adapter) → IsProper c → AllSound s → AllSound (call setup c s)
  unfolding call restore reconcile store
  call-AllSound (submits r q) s p h =
      Submits-AllSound r s (submit setup r q s) p h (submit-Submits setup r p q s)
  call-AllSound (adds_liquidity key q) s p h =
      Updates-AllSound key s (add_liquidity setup key q s) h
        (add_liquidity-Updates setup key s (λ o e. (h key o e).valid) q)
  call-AllSound (cancels key) s p h =
      Updates-AllSound key s (cancel setup key s) h
        (cancel-Updates setup key s (λ o e. (h key o e).valid))
  call-AllSound (expires key) s p h =
      Updates-AllSound key s (expire setup key s) h
        (expire-Updates setup key s (λ o e. (h key o e).valid))
  call-AllSound (restores o) s p h = stored-AllSound o s (restore o s).1 h p (ground arith)
  call-AllSound (reconciles o) s p h = stored-AllSound o s (reconcile o s).1 h p (ground arith)

  run-AllSound :
      (cs : List Call) (s : Adapter) → All IsProper cs → AllSound s → AllSound (run setup cs s)
  unfolding run
  run-AllSound [] s p h = h
  run-AllSound (c ∷ cs) s p h = run-AllSound cs (call setup c s) p.1 (call-AllSound c s p.0 h)

  -- From the empty store, after any calls that a caller may make, those that raise included, every
  -- stored order is sound: its events are numbered from 1 without a gap, start at CREATED, follow
  -- the lifecycle table and end at its status; its filled volume is the sum of its fills, is at most
  -- the requested volume, and equals it exactly when the status is FILLED; each fill has a positive
  -- volume and price; and it lies under its request's key with the hash and UUID of its request.
  pub run-empty-AllSound : (cs : List Call) → All IsProper cs → AllSound (run setup cs empty)
  unfolding empty
  run-empty-AllSound cs p =
      run-AllSound cs empty p (λ key o e. cc (lookup-empty {V = PaperOrder} key))
