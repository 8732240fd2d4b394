-- ===== src/Execution/Paper/History.antt =====
-- What becomes of one stored order over a sequence of calls.
use mathlib.Core.Path.{subst}
use quantora_trade.Prelude.{
  ◌≡◌, inl, inr, string_eq, String, String_discrete, some, List, [], ◌∷◌, All, arith,
}
use quantora_trade.Prelude.Dict.{lookup, insert, lookup-insert}
use quantora_trade.Prelude.Exec.{Result, ok, err}
use quantora_trade.Execution.Models.{PaperOrder, PaperOrderRequest}
use quantora_trade.Execution.Paper.{
  Setup, Adapter, Call, submits, adds_liquidity, cancels, expires, restores, reconciles, call, run,
  submit, add_liquidity, cancel, expire, restore, store,
}
use quantora_trade.Execution.Paper.Invariant.{Evolves, Evolves-refl, Evolves-trans}
use quantora_trade.Execution.Paper.Methods.{
  Updates, Submits, add_liquidity-Updates, cancel-Updates, expire-Updates, submit-Submits,
}
use quantora_trade.Execution.Paper.Store.{AllSound, IsProper, call-AllSound}

module _ (setup : Setup) where
  -- A call that is not `reconcile`, which replaces the volatile order by the durable one.
  abbrev pub IsLocal : Call → Type 0
  IsLocal (reconciles o) = ⊥
  IsLocal c = IsProper setup c

  -- The store still has an order under the key, which evolved from `o`.
  abbrev pub Has : String → PaperOrder → Adapter → Type 0
  Has key o t = (p : PaperOrder) × (lookup key t.orders ≡ some p) × Evolves o p

  Has-same :
      (key : String) (o : PaperOrder) (s t : Adapter)
      → lookup key s.orders ≡ some o
      → t.orders ≡ s.orders
      → Has key o t
  Has-same key o s t found e = (o, rw e found, Evolves-refl o)

  Has-insert :
      (key j : String) (o p q : PaperOrder) (s t : Adapter)
      → lookup key s.orders ≡ some o
      → lookup j s.orders ≡ some p
      → Evolves p q
      → t.orders ≡ insert j q s.orders
      → Has key o t
  Has-insert key j o p q s t found other g e = elim (String_discrete j key) [
    | yes same ↦
        (q, ground (arith, lookup-insert j key q s.orders), subst (λ x. Evolves x q) (agree same) g)
    | no differ ↦ (o, ground (arith, lookup-insert j key q s.orders), Evolves-refl o)
  ]
    where
      agree : j ≡ key → p ≡ o
      agree same = ground arith

  Updates-Has :
      (key j : String) (o : PaperOrder) (s : Adapter) (r : Result PaperOrder × Adapter)
      → lookup key s.orders ≡ some o
      → Updates j s r
      → Has key o r.1
  Updates-Has key j o s (ok q, t) found (p, other, v, g, e) =
      Has-insert key j o p q s t found other g e
  Updates-Has key j o s (err x, t) found e = Has-same key o s t found e

  Submits-Has :
      (key : String) (o : PaperOrder) (request : PaperOrderRequest) (s : Adapter)
      (r : Result PaperOrder × Adapter)
      → lookup key s.orders ≡ some o
      → Submits setup request s r
      → Has key o r.1
  Submits-Has key o request s (ok q, t) found (inl (old, same, e)) = Has-same key o s t found e
  Submits-Has key o request s (ok q, t) found (inr (fresh, v, f, e)) =
      (o, ground (arith, lookup-insert request.idempotency_key key q s.orders), Evolves-refl o)
  Submits-Has key o request s (err x, t) found e = Has-same key o s t found e

  restore-Has :
      (key : String) (o p : PaperOrder) (s : Adapter)
      → lookup key s.orders ≡ some o
      → Has key o (restore p s).1
  unfolding restore store
  restore-Has key o p s found =
      (o, ground (arith, lookup-insert p.request.idempotency_key key p s.orders), Evolves-refl o)

  call-Has :
      (c : Call) (key : String) (o : PaperOrder) (s : Adapter)
      → IsLocal c
      → AllSound setup s
      → lookup key s.orders ≡ some o
      → Has key o (call setup c s)
  unfolding call
  call-Has (submits r q) key o s p h found =
      Submits-Has key o r s (submit setup r q s) found (submit-Submits setup r p q s)
  call-Has (adds_liquidity j q) key o s p h found =
      Updates-Has key j o s (add_liquidity setup j q s) found
        (add_liquidity-Updates setup j s (λ x e. (h j x e).valid) q)
  call-Has (cancels j) key o s p h found =
      Updates-Has key j o s (cancel setup j s) found
        (cancel-Updates setup j s (λ x e. (h j x e).valid))
  call-Has (expires j) key o s p h found =
      Updates-Has key j o s (expire setup j s) found
        (expire-Updates setup j s (λ x e. (h j x e).valid))
  call-Has (restores x) key o s p h found = restore-Has key o x s found
  call-Has (reconciles x) key o s p h found = elim p [ ]

  local-IsProper : (c : Call) → IsLocal c → IsProper setup c
  local-IsProper (submits r q) p = p
  local-IsProper (reconciles o) p = elim p [ ]
  local-IsProper (restores o) p = p
  local-IsProper (adds_liquidity key q) p = tt
  local-IsProper (cancels key) p = tt
  local-IsProper (expires key) p = tt

  -- In a sound store, over any calls but `reconcile`, an order is never lost: its key keeps an order
  -- with the same UUID, hash and request, whose events and fills extend the earlier ones.
  pub run-Has :
      (cs : List Call) (key : String) (o : PaperOrder) (s : Adapter)
      → All IsLocal cs
      → AllSound setup s
      → lookup key s.orders ≡ some o
      → Has key o (run setup cs s)
  unfolding run
  run-Has [] key o s p h found = (o, found, Evolves-refl o)
  run-Has (c ∷ cs) key o s p h found =
      let (q, there, g) = call-Has c key o s p.0 h found in
      let (q', there', g') =
        run-Has cs key q (call setup c s) p.1 (call-AllSound setup c s (local-IsProper c p.0) h)
          there in
      (q', there', Evolves-trans g g')
