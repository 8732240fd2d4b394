-- ===== src/Execution/Repository/Append.antt =====
-- The table only grows: whatever order `persist` is given, and whatever lawful writers run between
-- its table accesses, every row keeps its identity, its events and its fills.
use mathlib.Core.Path.{subst}
use mathlib.Core.Option.{some-injective}
use quantora_trade.Prelude.{
  ℕ, ◌+◌, ◌≡◌, refl, sym, ◌∙◌, ap, ◌⊎◌, inl, inr, false, String, String_discrete, Option, none,
  some, List, [], ◌∷◌, ◌++◌, arith, nat_eq, length, take, drop, take-append-drop, string_eq,
  Option-cases, Bool-cases,
}
use quantora_trade.Prelude.Dict.{Dict, lookup, insert, lookup-insert, lookup-empty, lookup-cons_ne}
use quantora_trade.Prelude.Exec.{ok, err, Result, Check-cases}
use quantora_trade.Execution.Models.{PaperOrder}
use quantora_trade.Execution.Paper.Invariant.{Evolves, Evolves-refl, Evolves-trans}
use quantora_trade.Execution.Repository.{
  Table, advance, require_identity, collides, interfere, insert_row, update_row, persist, misses,
  validate,
}

-- A prefix test that passes gives the rest of the list.
prefix_rest {ℓ} :
    {A : Type ℓ} (xs ys : List A) → take (length xs) ys ≡ xs → (zs : List A) × (ys ≡ xs ++ zs)
prefix_rest xs ys e = (
  drop (length xs) ys,
  sym (take-append-drop (length xs) ys) ∙ ap (λ l. l ++ drop (length xs) ys) e,
)

-- What a successful advance has tested.
advance_tests :
    (current order row : PaperOrder) (expected : Option ℕ)
    → advance current order expected ≡ ok row
    → (row ≡ current)
      ⊎ ((row ≡ order)
          × (order.id ≡ current.id)
          × (order.request_hash ≡ current.request_hash)
          × (order.request ≡ current.request)
          × (take (length current.events) order.events ≡ current.events)
          × (take (length current.fills) order.fills ≡ current.fills)
          × (misses expected (length current.events) ≡ false))
unfolding advance require_identity
advance_tests current order row expected h = ground arith

-- A row that `persist` writes over another extends it.
pub advance-Evolves :
    (current order row : PaperOrder) (expected : Option ℕ)
    → advance current order expected ≡ ok row
    → Evolves current row
advance-Evolves current order row expected h = elim (advance_tests current order row expected h) [
  | inl same ↦ rw same (Evolves-refl current)
  | inr (same, i, d, r, es, fs, _) ↦ rw same (record {
    same_id = i;
    same_hash = d;
    same_request = r;
    events_grow = prefix_rest current.events order.events es;
    fills_grow = prefix_rest current.fills order.fills fs;
  })
]

-- Every row of the one table is still there in the other, and has evolved.
abbrev pub Grows : Dict String PaperOrder → Dict String PaperOrder → Type 0
Grows rows rows' =
    (key : String) (o : PaperOrder)
    → lookup key rows ≡ some o
    → (p : PaperOrder) × (lookup key rows' ≡ some p) × Evolves o p

pub Grows-refl : (rows : Dict String PaperOrder) → Grows rows rows
Grows-refl rows key o found = (o, found, Evolves-refl o)

pub Grows-trans : (a b c : Dict String PaperOrder) → Grows a b → Grows b c → Grows a c
Grows-trans a b c g h key o found =
    let (p, there, e) = g key o found in
    let (q, there', e') = h key p there in (q, there', Evolves-trans e e')

-- A write under a free key, or over a row that it extends.
Grows-insert :
    (rows : Dict String PaperOrder) (key : String) (q : PaperOrder)
    → ((o : PaperOrder) → lookup key rows ≡ some o → Evolves o q)
    → Grows rows (insert key q rows)
Grows-insert rows key q h j o found = elim (String_discrete key j) [
  | yes same ↦ (q, ground (arith, lookup-insert key j q rows), h o (rw same found))
  | no differ ↦ (o, ground (arith, lookup-insert key j q rows), Evolves-refl o)
]

-- A table without a collision has no row under the key.
collides-lookup :
    (o : PaperOrder) (rows : Dict String PaperOrder)
    → collides o rows ≡ false
    → lookup o.request.idempotency_key rows ≡ none
unfolding collides
collides-lookup o [] h = lookup-empty o.request.idempotency_key
collides-lookup o ((key, p) ∷ rows) h =
    lookup-cons_ne o.request.idempotency_key key p rows (ground arith)
    ∙ collides-lookup o rows (ground arith)

module _ (others : ℕ → Dict String PaperOrder → Dict String PaperOrder)
    (lawful : (i : ℕ) (rows : Dict String PaperOrder) → Grows rows (others i rows)) where
  insert_row-Grows : (o : PaperOrder) (t : Table) → Grows t.rows (insert_row others o t).1.rows
  unfolding insert_row interfere
  insert_row-Grows o t =
      let rows = others t.accesses t.rows in
      elim (Bool-cases (collides o rows)) [
        | inl taken ↦ rw taken (lawful t.accesses t.rows)
        | inr free ↦ rw free (
            Grows-trans t.rows rows (insert o.request.idempotency_key o rows)
              (lawful t.accesses t.rows)
              (Grows-insert rows o.request.idempotency_key o
                (λ x found. cc (collides-lookup o rows free))))
      ]

  update_row-Grows :
      (current o : PaperOrder) (expected : Option ℕ) (t : Table)
      → lookup o.request.idempotency_key t.rows ≡ some current
      → Grows t.rows (update_row others current o expected t).1.rows
  unfolding update_row
  update_row-Grows current o expected t found = go (advance current o expected) refl
    where
      go :
          (r : Result PaperOrder)
          → advance current o expected ≡ r
          → Grows t.rows (update_row others current o expected t).1.rows
      go (ok row) e =
          rw (e, update_row)
            (Grows-insert t.rows o.request.idempotency_key row (λ x there.
              subst (λ c. Evolves c row) (some-injective current x (sym found ∙ there))
                (advance-Evolves current o row expected e)))
      go (err x) e = rw (e, update_row) (Grows-refl t.rows)

  -- Whatever order is given, whatever sequence is expected and whether the call returns or raises:
  -- no row is lost, and no row's UUID, hash, request, events or fills change but by appending. The
  -- hypothesis: the other processes' writes are of the same kind.
  pub persist-Grows :
      (o : PaperOrder) (expected : Option ℕ) (t : Table)
      → Grows t.rows (persist others o expected t).1.rows
  unfolding persist interfere
  persist-Grows o expected t =
      let rows = others t.accesses t.rows in
      let u = record t { rows = rows; accesses = t.accesses + 1 } in
      elim (Check-cases (validate o)) [
        | inr (x, bad) ↦ rw (bad, persist) (Grows-refl t.rows)
        | inl fine ↦ elim (Option-cases (lookup o.request.idempotency_key rows)) [
          | inl fresh ↦ elim (Bool-cases (misses expected 0)) [
            | inl stale ↦ rw (fine, fresh, stale, persist) (lawful t.accesses t.rows)
            | inr due ↦
                rw (fine, fresh, due, persist)
                  (Grows-trans t.rows rows (insert_row others o u).1.rows (lawful t.accesses t.rows)
                    (insert_row-Grows o u))
          ]
          | inr (current, found) ↦
              rw (fine, found, persist)
                (Grows-trans t.rows rows (update_row others current o expected u).1.rows
                  (lawful t.accesses t.rows) (update_row-Grows current o expected u found))
        ]
      ]
