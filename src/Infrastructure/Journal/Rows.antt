-- ===== src/Infrastructure/Journal/Rows.antt =====
-- Which rows the journal's methods keep.
use quantora_trade.Prelude.{
  ℕ, ◌≡◌, ◌≢◌, refl, String, Option, some, none, Bool, true, false, arith, string_eq, if◌then◌else◌,
  ◌||◌, ◌!=◌, ◌+◌, ltb, Option-cases, inl, inr,
}
use quantora_trade.Prelude.Dict.{Dict, lookup, insert, lookup-insert, lookup-remove_ne}
use quantora_trade.Prelude.Text.{is_blank}
use quantora_trade.Prelude.Exec.{
  Error, value_error, raise, Result, ok, err, Exec, gets, lift, raise_if, or_raise, ◌>>=◌, continue,
  pure, modify,
}
use quantora_trade.Infrastructure.Journal.{
  Journal, JournalRow, JournalSetup, acquired, claim, complete, mark_unknown, abandon,
  reconcile_completed, recover_expired, take_over, settle, acquire, claim_row, claim_state, owned,
  locked, forget, put_row, now, new_owner, delete_claim, is_fenced, new_row, empty_metadata,
  row_completed, row_unknown, row_in_flight, unknown, completed, row_state_eq,
}

abbrev pub is_some : {A : Type 0} → Option A → Bool
is_some none = false
is_some (some _) = true

abbrev pub has : String → Journal → Bool
has key j = is_some (lookup key j.rows)

-- Every key that has a row keeps one.
abbrev pub Keeps : Journal → Journal → Type 0
Keeps j j' = (k : String) → has k j ≡ true → has k j' ≡ true

-- A method that keeps every key's row, whether it returns or raises.
pub record Keeping {A : Type 0} (m : Exec Journal A) : Type 0 where
  pub keeps : (j : Journal) → Keeps j (m j).1

bind-Keeps :
    {A B : Type 0} (m : Exec Journal A) (f : A → Exec Journal B)
    → Keeping m
    → ((a : A) → Keeping (f a))
    → (j : Journal) → Keeps j ((m >>= f) j).1
bind-Keeps m f p q j k h = go (m j) (p.keeps j k h)
  where
    go : (r : Result _ × Journal) → has k r.1 ≡ true → has k (continue r.0 r.1 f).1 ≡ true
    go (ok a, t) e = (q a).keeps t k e
    go (err e, t) e' = e'

bind-Keeping :
    {A B : Type 0} {m : Exec Journal A} {f : A → Exec Journal B}
    → Keeping m
    → ((a : A) → Keeping (f a))
    → Keeping (m >>= f)
bind-Keeping {m = m} {f = f} p q = record { keeps = bind-Keeps m f p q }

raise_if-Keeping : (b : Bool) (e : Error) → Keeping (raise_if b e)
raise_if-Keeping b e = record { keeps = λ j k h. ground (arith, h) }

put_row-Keeping : (key : String) (row : JournalRow) → Keeping (put_row key row)
unfolding put_row
put_row-Keeping key row = record {
  keeps = λ j k h. ground (arith, h, lookup-insert key k row j.rows);
}

or_raise-Keeping : {A : Type 0} (o : Option A) (e : Error) → Keeping (or_raise o e)
or_raise-Keeping none e = record { keeps = λ j k h. h }
or_raise-Keeping (some a) e = record { keeps = λ j k h. h }

-- What leaves the rows alone.
rows-Keeping :
    {A : Type 0} {m : Exec Journal A} → ((j : Journal) → (m j).1.rows ≡ j.rows) → Keeping m
rows-Keeping same = record { keeps = λ j k h. ground (arith, h, same j) }

owned-Keeping : (key : String) → Keeping (owned key)
unfolding owned
owned-Keeping key =
    bind-Keeping {m = gets (λ j. lookup key j.owners)} (rows-Keeping (λ j. refl)) (λ o.
      or_raise-Keeping o (value_error "submission claim is not owned by this journal instance"))

locked-Keeping : (key : String) → Keeping (locked key)
unfolding locked
locked-Keeping key =
    bind-Keeping {m = gets (λ j. lookup key j.rows)} (rows-Keeping (λ j. refl))
      (λ o. or_raise-Keeping o (value_error "submission claim does not exist"))

forget-Keeping : (key : String) (owner : ℕ) → Keeping (forget key owner)
unfolding forget
forget-Keeping key owner = rows-Keeping (λ j. refl)

module _ (setup : JournalSetup) where
  now-Keeping : Keeping (now setup)
  unfolding now
  now-Keeping = rows-Keeping (λ j. refl)

  new_owner-Keeping : Keeping (new_owner setup)
  unfolding new_owner
  new_owner-Keeping = rows-Keeping (λ j. refl)

  pub complete-Keeping : (key id : String) → Keeping (complete setup key id)
  unfolding complete
  complete-Keeping key id = bind-Keeping (owned-Keeping key) (λ owner.
      bind-Keeping (locked-Keeping key) (λ row. bind-Keeping now-Keeping (λ t.
        bind-Keeping
          (raise_if-Keeping (is_fenced row owner t)
            (value_error "only the claim owner can complete an in-flight claim"))
          (λ _.
            bind-Keeping
              (raise_if-Keeping (is_blank id) (value_error "external order id must not be empty"))
              (λ _. bind-Keeping now-Keeping (λ t'.
                bind-Keeping
                  (put_row-Keeping key (record row {
                    state = row_completed;
                    external_order_id = some id;
                    updated_at = t';
                  }))
                  (λ _. forget-Keeping key owner)))))))

  pub mark_unknown-Keeping :
      (key : String) (metadata : Dict String String) → Keeping (mark_unknown setup key metadata)
  unfolding mark_unknown
  mark_unknown-Keeping key metadata =
      bind-Keeping
        (raise_if-Keeping (empty_metadata metadata) (value_error "recovery metadata is required"))
        (λ _. bind-Keeping (owned-Keeping key) (λ owner. bind-Keeping (locked-Keeping key) (λ row.
          bind-Keeping now-Keeping (λ t.
            bind-Keeping
              (raise_if-Keeping (is_fenced row owner t)
                (value_error "only the claim owner can mark an in-flight claim unknown"))
              (λ _. bind-Keeping now-Keeping (λ t'.
                bind-Keeping
                  (put_row-Keeping key (record row {
                    state = row_unknown;
                    recovery_metadata = metadata;
                    updated_at = t';
                  }))
                  (λ _. forget-Keeping key owner)))))))

  pub reconcile_completed-Keeping :
      (key id : String) (metadata : Dict String String)
      → Keeping (reconcile_completed setup key id metadata)
  unfolding reconcile_completed
  reconcile_completed-Keeping key id metadata =
      bind-Keeping
        (raise_if-Keeping (empty_metadata metadata || is_blank id)
          (value_error "result and recovery metadata are required"))
        (λ _. bind-Keeping (locked-Keeping key) (λ row.
          bind-Keeping
            (raise_if-Keeping (row.state != row_unknown)
              (value_error "only an unknown claim can be reconciled"))
            (λ _. bind-Keeping now-Keeping (λ t. put_row-Keeping key (record row {
              state = row_completed;
              external_order_id = some id;
              recovery_metadata = metadata;
              updated_at = t;
            })))))

  settle-Keeping :
      (key : String) (found : Result (Option String)) (metadata : Dict String String)
      → Keeping (settle setup key found metadata)
  unfolding settle
  settle-Keeping key (err e) metadata = rows-Keeping {m = raise e} (λ j. refl)
  settle-Keeping key (ok none) metadata =
      bind-Keeping (mark_unknown-Keeping key metadata)
        (λ _. rows-Keeping {m = pure unknown} (λ j. refl))
  settle-Keeping key (ok (some id)) metadata =
      bind-Keeping (complete-Keeping key id)
        (λ _. rows-Keeping {m = pure (completed id)} (λ j. refl))

  take_over-Keeping :
      (key : String) (row : JournalRow) (owner t : ℕ) (found : Result (Option String))
      (metadata : Dict String String)
      → Keeping (take_over setup key row owner t found metadata)
  unfolding take_over
  take_over-Keeping key row owner t found metadata =
      bind-Keeping
        (put_row-Keeping key (record row {
          claim_owner = owner;
          fencing_token = row.fencing_token + 1;
          lease_expires_at = t + setup.lease_duration;
          updated_at = t;
        }))
        (λ _.
          bind-Keeping {m = modify (λ j. record j { owners = insert key owner j.owners })}
            (rows-Keeping (λ j. refl)) (λ _. settle-Keeping key found metadata))

  if-Keeping :
      {A : Type 0} (b : Bool) {m n : Exec Journal A}
      → Keeping m
      → Keeping n
      → Keeping (if b then m else n)
  if-Keeping true p q = p
  if-Keeping false p q = q

  pub recover_expired-Keeping :
      (key request_hash : String) (found : Result (Option String)) (metadata : Dict String String)
      → Keeping (recover_expired setup key request_hash found metadata)
  unfolding recover_expired
  recover_expired-Keeping key request_hash found metadata =
      bind-Keeping
        (raise_if-Keeping (empty_metadata metadata) (value_error "recovery metadata is required"))
        (λ _. bind-Keeping now-Keeping (λ t. bind-Keeping new_owner-Keeping (λ owner.
          bind-Keeping (locked-Keeping key) (λ row.
            bind-Keeping
              (raise_if-Keeping (row.request_hash != request_hash)
                (value_error "idempotency key is already bound to another request"))
              (λ _.
                if-Keeping (row.state != row_in_flight || ltb t row.lease_expires_at)
                  (rows-Keeping {m = lift (claim_state row)} (λ j. refl))
                  (take_over-Keeping key row owner t found metadata))))))

  -- A claim keeps every row, and one that is acquired had none and has one now.
  pub claim-Keeps :
      (key request_hash : String) (j : Journal)
      → Keeps j (claim setup key request_hash j).1
        × ((claim setup key request_hash j).0 ≡ ok acquired
            → (has key j ≡ false) × (has key (claim setup key request_hash j).1 ≡ true))
  unfolding claim now new_owner acquire put_row claim_row claim_state
  claim-Keeps key request_hash j =
      let row : JournalRow =
        new_row setup request_hash (setup.uuid4 j.uuid_calls) (setup.clock j.clock_calls) in
      elim (Option-cases (lookup key j.rows)) [
        | inl free ↦ (
          λ k h. ground (arith, h, free, lookup-insert key k row j.rows),
          λ won. ground (arith, won, free, lookup-insert key key row j.rows),
        )
        | inr (old, there) ↦ (λ k h. ground (arith, h, there), λ won. ground (arith, won, there))
      ]

  -- An abandonment keeps every other row.
  pub abandon-Keeps :
      (key : String) (j : Journal) (k : String) → key ≢ k → has k (abandon setup key j).1 ≡ has k j
  unfolding abandon owned now delete_claim forget
  abandon-Keeps key j k n = elim (Option-cases (lookup key j.rows)) [
    | inl free ↦ elim (Option-cases (lookup key j.owners)) [
      | inl a ↦ ground (arith, a)
      | inr (o, a) ↦ ground (arith, a, free)
    ]
    | inr (row, there) ↦ elim (Option-cases (lookup key j.owners)) [
      | inl a ↦ ground (arith, a)
      | inr (o, a) ↦ ground (arith, a, there, lookup-remove_ne key k j.rows n)
    ]
  ]
