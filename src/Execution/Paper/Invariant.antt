-- ===== src/Execution/Paper/Invariant.antt =====
-- What holds of every order that the adapter keeps, and how an order may evolve.
use mathlib.Core.List.{append-nil, append_assoc}
use quantora_trade.Prelude.{
  ℕ, ◌+◌, ◌≤◌, ◌<◌, ◌≡◌, refl, sym, ◌∙◌, ap, ◌≢◌, true, List, [], ◌∷◌, ◌++◌, All, arith,
}
use quantora_trade.Execution.Models.{filled, Fill, OrderEvent, PaperOrder}
use quantora_trade.Execution.Lifecycle.Trace.{IsHistory}

abbrev pub total_volume : List Fill → ℕ
total_volume [] = 0
total_volume (f ∷ fs) = f.volume + total_volume fs

pub total_volume-append :
    (xs ys : List Fill) → total_volume (xs ++ ys) ≡ total_volume xs + total_volume ys
total_volume-append [] ys = omega arith
total_volume-append (x ∷ xs) ys = omega (arith, total_volume-append xs ys)

abbrev pub IsFill : Fill → Type 0
IsFill f = (0 < f.volume) × (0 < f.price) × (f.filled_at.utc ≡ true)

pub record IsValid (o : PaperOrder) : Type 0 where
  pub history : IsHistory o.events o.status
  pub summed : o.filled_volume ≡ total_volume o.fills
  pub fills_valid : All IsFill o.fills
  pub within : o.filled_volume ≤ o.request.volume
  pub full : o.status ≡ filled → o.filled_volume ≡ o.request.volume
  pub not_full : o.status ≢ filled → o.filled_volume < o.request.volume

-- The identity stays, and events and fills are only appended.
pub record Evolves (o o' : PaperOrder) : Type 0 where
  pub same_id : o'.id ≡ o.id
  pub same_hash : o'.request_hash ≡ o.request_hash
  pub same_request : o'.request ≡ o.request
  pub events_grow : (es : List OrderEvent) × (o'.events ≡ o.events ++ es)
  pub fills_grow : (fs : List Fill) × (o'.fills ≡ o.fills ++ fs)

pub Evolves-refl : (o : PaperOrder) → Evolves o o
Evolves-refl o = record {
  same_id = refl;
  same_hash = refl;
  same_request = refl;
  events_grow = ([], sym (append-nil o.events));
  fills_grow = ([], sym (append-nil o.fills));
}

pub Evolves-trans : {o p q : PaperOrder} → Evolves o p → Evolves p q → Evolves o q
Evolves-trans {o} {p} {q} g h = record {
  same_id = h.same_id ∙ g.same_id;
  same_hash = h.same_hash ∙ g.same_hash;
  same_request = h.same_request ∙ g.same_request;
  events_grow = (
    g.events_grow.0 ++ h.events_grow.0,
    rw (h.events_grow.1, g.events_grow.1) (append_assoc o.events _ _),
  );
  fills_grow = (
    g.fills_grow.0 ++ h.fills_grow.0,
    rw (h.fills_grow.1, g.fills_grow.1) (append_assoc o.fills _ _),
  );
}

-- An order's filled volume never falls.
pub Evolves-filled_volume :
    (o o' : PaperOrder) → IsValid o → IsValid o' → Evolves o o' → o.filled_volume ≤ o'.filled_volume
Evolves-filled_volume o o' v v' e = omega (
  arith,
  v.summed,
  v'.summed,
  ap total_volume e.fills_grow.1,
  total_volume-append o.fills e.fills_grow.0,
)
