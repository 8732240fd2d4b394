-- ===== src/Infrastructure/Commands/Outcomes.antt =====
-- What a claim and the end of a command return, and what the table then holds.
use mathlib.Core.List.Memᴰ
use mathlib.Core.List.{Memᴰ}
use mathlib.Core.Path.{transport}
use quantora_trade.Prelude.{
  ℕ, ◌≡◌, refl, sym, ◌∙◌, inl, inr, String, Bool, true, false, Option, none, some, ap, map,
  Bool-cases, arith, ◌==◌, nat_eq, if-elim,
}
use quantora_trade.Prelude.Exec.{ok, continue-ok, Error, Exec, raise_if, value_error, ok_inj}
use quantora_trade.Domain.Libs.{Payload}
use quantora_trade.Infrastructure.Commands.{
  CommandStatus, DurableSystemCommand, Queue, first, candidate, is_leased, leased_to, update_if,
  update_where, update_found, is_owned, owned_update, finish, finished, claim, claim_row, get,
  satisfies_constraints, required, aware_utc,
}
use quantora_trade.Infrastructure.Commands.Serial.{IsSerial}
use quantora_trade.Infrastructure.Commands.Leases.{Memᴰ-get, first-Memᴰ}
use quantora_trade.Infrastructure.Commands.Progress.{owned-id}

abbrev Row : Type 0
Row = DurableSystemCommand

-- An update that returned wrote its row.
update-ok :
    (p : Row → Bool) (f : Row → Row) (c r : Row) (q : Queue)
    → (update_where p f c q).0 ≡ ok r
    → (r ≡ f c) × ((update_where p f c q).1.rows ≡ map (update_if p f) q.rows)
unfolding update_where
update-ok p f c r q h = elim (Bool-cases (satisfies_constraints (f c))) [
  | inl v ↦ (ok_inj r (f c) (sym h ∙ ground (arith, v)), ground (arith, v))
  | inr v ↦ absurd (ground (arith, v, h))
]

owned-ok :
    (id : ℕ) (worker : String) (token now : ℕ) (f : Row → Row) (r : Row) (q : Queue)
    → (owned_update id worker token now f q).0 ≡ ok r
    → (c : Row) × Memᴰ c q.rows
      × (is_owned id worker token now c ≡ true)
      × ((owned_update id worker token now f q).1.rows
          ≡ map (update_if (is_owned id worker token now) f) q.rows)
unfolding owned_update
owned-ok id worker token now f r q h =
    let (_, _, h1, s1) = continue-ok (required worker "worker_id") q _ r h in
    let (c, m, o, e) = found (first (is_owned id worker token now) q.rows) refl h1 in
    (c, m, o, ap (λ (x : Queue). x.rows) s1 ∙ e)
  where
    p : Row → Bool
    p = is_owned id worker token now

    found :
        (o : Option Row)
        → first p q.rows ≡ o
        → (update_found p f o q).0 ≡ ok r
        → (c : Row) × Memᴰ c q.rows
          × (p c ≡ true)
          × ((update_found p f o q).1.rows ≡ map (update_if p f) q.rows)
    found none e k = absurd (cc k)
    found (some c) e k =
        let (m, o) = first-Memᴰ p q.rows c e in (c, m, o, (update-ok p f c r q k).1)

-- An end of a command that returned has left its row with the outcome.
pub finish-settles :
    (id : ℕ) (worker : String) (token : ℕ) (status : CommandStatus) (result : Payload)
    (clock : Option ℕ) (q : Queue) (r : Row)
    → IsSerial (finish id worker token status result clock q).1
    → (finish id worker token status result clock q).0 ≡ ok r
    → (row : Row) × (get id (finish id worker token status result clock q).1 ≡ some row)
      × (row.status ≡ status)
unfolding finish
finish-settles id worker token status result clock q r i h =
    let (now, _, h1, s1) = continue-ok (aware_utc clock) q _ r h in
    let f = finished status result now in
    let p = is_owned id worker token now in
    let (c, m, o, e) = owned-ok id worker token now f r q h1 in
    let t = (finish id worker token status result clock q).1 in
    let written =
      transport (λ k. Memᴰ (update_true p f c o k) (sym (ap (λ (x : Queue). x.rows) s1 ∙ e) k))
        (Memᴰ.map (update_if p f) m) in
    (
      f c,
      ap (λ n. get n t) (sym (owned-id id worker token now c o)) ∙ Memᴰ-get t (f c) i written,
      refl,
    )
  where
    update_true : (p : Row → Bool) (f : Row → Row) (c : Row) → p c ≡ true → update_if p f c ≡ f c
    update_true p f c h = ground (arith, h)

some_inj : (a b : Row) → some a ≡ some b → a ≡ b
some_inj a b h = cc h

raise_if-state : (b : Bool) (e : Error) (q : Queue) → (raise_if b e q).1 ≡ q
raise_if-state true e q = refl
raise_if-state false e q = refl

leased-id :
    (worker : String) (duration now token : ℕ) (c : Row)
    → (leased_to worker duration now token c).id ≡ c.id
unfolding leased_to
leased-id worker duration now token c = refl

row-ok :
    (worker : String) (duration now token : ℕ) (o : Option Row) (q : Queue) (r : Row)
    → (claim_row worker duration now token o q).0 ≡ ok (some r)
    → (c : Row) × (o ≡ some c) × (r.id ≡ c.id)
unfolding claim_row
row-ok worker duration now token none q r h = absurd (cc (ok_inj none (some r) h))
row-ok worker duration now token (some c) q r h =
    if-elim
      (λ (m : Exec Queue (Option Row)).
        (m q).0 ≡ ok (some r) → (x : Row) × (some c ≡ some x) × (r.id ≡ x.id))
      (is_leased now c) (λ _ k. absurd (cc (ok_inj none (some r) k)))
      (λ _ k.
        let m = update_where (λ x. x.id == c.id) (leased_to worker duration now token) c q in
        let (x, e, g, _) = continue-ok m.0 m.1 _ (some r) k in
        let wrote = update-ok _ (leased_to worker duration now token) c x q e in
        (
          c,
          refl,
          ap (λ z. z.id) (sym (some_inj x r (ok_inj (some x) (some r) g)) ∙ wrote.0)
              ∙ leased-id worker duration now token c,
        ))
      h

-- A claim that returned a command has taken the oldest active one.
pub claim-candidate :
    (worker : String) (duration : ℕ) (clock : Option ℕ) (token : ℕ) (q : Queue) (r : Row)
    → (claim worker duration clock token q).0 ≡ ok (some r)
    → (c : Row) × (candidate q.rows ≡ some c) × (r.id ≡ c.id)
unfolding claim
claim-candidate worker duration clock token q r h =
    let e = value_error "lease_duration must be positive" in
    let s = (raise_if (duration == 0) e q).1 in
    let (_, _, h1, _) = continue-ok (required worker "worker_id") q _ (some r) h in
    let (_, _, h2, _) = continue-ok (raise_if (duration == 0) e q).0 s _ (some r) h1 in
    let (now, _, h3, _) = continue-ok (aware_utc clock) s _ (some r) h2 in
    let (c, o, n) = row-ok worker duration now token (candidate s.rows) s r h3 in
    (c, ap (λ (x : Queue). candidate x.rows) (sym (raise_if-state (duration == 0) e q)) ∙ o, n)
