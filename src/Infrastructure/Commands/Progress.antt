-- ===== src/Infrastructure/Commands/Progress.antt =====
-- What a claim returns: the oldest command, when nobody holds it.
use mathlib.Core.List.Memᴰ
use mathlib.Core.List.{Memᴰ}
use mathlib.Core.Path.{transport}
use quantora_trade.Prelude.{
  ℕ, ◌≡◌, ◌≢◌, ◌≤◌, refl, sym, ◌∙◌, inl, inr, String, Bool, true, false, some, List, [], ◌∷◌, map,
  any, ◌==◌, arith, nat_eq, string_eq, ap, ==_eq, ==_ne, if-elim, Option-cases,
}
use quantora_trade.Prelude.Text.{text_length}
use quantora_trade.Prelude.Exec.{ok}
use quantora_trade.Infrastructure.Commands.{
  CommandStatus-discrete, DurableSystemCommand, Queue, candidate, is_active, is_leased, leased_to,
  update_if, update_where, is_owned, satisfies_constraints, state_consistent, claim, claim_row,
  required,
}
use quantora_trade.Infrastructure.Commands.Rows.{
  Step, step, run, empty, step-Change, kept, appended, claimed, settled,
}
use quantora_trade.Infrastructure.Commands.Oldest.{IsOldest, candidate-IsOldest}
use quantora_trade.Infrastructure.Commands.Serial.{IsSerial, step-IsSerial, empty-IsSerial}
use quantora_trade.Infrastructure.Commands.Leases.{oldest, first-Memᴰ}

-- Every row satisfies the constraints of the table.
abbrev AreValid : Queue → Type 0
AreValid q = (a : DurableSystemCommand) → Memᴰ a q.rows → satisfies_constraints a ≡ true

mapped-AreValid :
    (q r : Queue) (p : DurableSystemCommand → Bool)
    (f : DurableSystemCommand → DurableSystemCommand) (c : DurableSystemCommand)
    → ((a : DurableSystemCommand) → Memᴰ a q.rows → p a ≡ true → a ≡ c)
    → satisfies_constraints (f c) ≡ true
    → r.rows ≡ map (update_if p f) q.rows
    → AreValid q
    → AreValid r
mapped-AreValid q r p f c one v e h a m =
    let (x, mx, ex) = Memᴰ.of_map (update_if p f) q.rows (transport (λ k. Memᴰ a (e k)) m) in
    ap satisfies_constraints (sym ex)
    ∙ if-elim (λ (y : DurableSystemCommand). satisfies_constraints y ≡ true) (p x)
        (λ k. ap (λ y. satisfies_constraints (f y)) (one x mx k) ∙ v) (λ _. h x mx)

pub owned-id :
    (id : ℕ) (worker : String) (token now : ℕ) (r : DurableSystemCommand)
    → is_owned id worker token now r ≡ true
    → r.id ≡ id
unfolding is_owned
owned-id id worker token now r h = ==_eq r.id id (ground (arith, h))

step-AreValid : (s : Step) (q : Queue) → IsSerial q → AreValid q → AreValid (step s q)
step-AreValid s q i h = elim (step-Change s q) [
  | kept e ↦ λ a m. h a (transport (λ k. Memᴰ a (e k)) m)
  | appended c hs hn v hf e ↦ λ a m.
      elim (Memᴰ.append_cases q.rows (transport (λ k. Memᴰ a (e k)) m)) [
        | inl x ↦ h a x
        | inr y ↦ ap satisfies_constraints (Memᴰ.eq_of_singleton y) ∙ v
      ]
  | claimed c worker duration now token t hc l v e ↦
      mapped-AreValid q (step s q) (λ o. o.id == c.id) (leased_to worker duration now token) c
        (λ a m k. i.keyed a c m (oldest q c hc).0 (==_eq a.id c.id k)) v e h
  | settled id worker token now f t k hf (c, o, v) e ↦
      let found = first-Memᴰ (is_owned id worker token now) q.rows c o in
      mapped-AreValid q (step s q) (is_owned id worker token now) f c
        (λ a m k.
          i.keyed a c m found.0
            (owned-id id worker token now a k ∙ sym (owned-id id worker token now c found.1)))
        v e h
]

run-AreValid : (steps : List Step) (q : Queue) → IsSerial q → AreValid q → AreValid (run steps q)
unfolding run
run-AreValid [] q i h = h
run-AreValid (s ∷ steps) q i h =
    run-AreValid steps (step s q) (step-IsSerial s q i) (step-AreValid s q i h)

leased-satisfies :
    (worker : String) (duration now token : ℕ) (c : DurableSystemCommand)
    → satisfies_constraints c ≡ true
    → is_active c ≡ true
    → c.created_at ≤ now
    → text_length worker ≤ 255
    → satisfies_constraints (leased_to worker duration now token c) ≡ true
unfolding satisfies_constraints leased_to state_consistent CommandStatus-discrete
leased-satisfies worker duration now token c h a l w = ground (arith, h, a, l, w)

none-active :
    (rs : List DurableSystemCommand)
    → ((b : DurableSystemCommand) → Memᴰ b rs → is_active b ≡ false)
    → any is_active rs ≡ false
none-active [] h = refl
none-active (r ∷ rs) h =
    ground (arith, h r (Memᴰ.head refl), none-active rs λ b m. h b (Memᴰ.tail m))

-- There is an active row, so a candidate.
candidate-some :
    (rs : List DurableSystemCommand)
    → any is_active rs ≡ true
    → (c : DurableSystemCommand) × (candidate rs ≡ some c)
candidate-some rs h = elim (Option-cases (candidate rs)) [
  | inl e ↦ cc (none-active rs (transport (λ k. IsOldest (e k) rs) (candidate-IsOldest rs)), h)
  | inr o ↦ o
]

claim_row-takes :
    (worker : String) (duration now token : ℕ) (q : Queue) (c : DurableSystemCommand)
    → candidate q.rows ≡ some c
    → is_leased now c ≡ false
    → satisfies_constraints (leased_to worker duration now token c) ≡ true
    → required worker "worker_id" ≡ ok tt
    → duration ≢ 0
    → (claim worker duration (some now) token q).0
      ≡ ok (some (leased_to worker duration now token c))
unfolding claim claim_row update_where
claim_row-takes worker duration now token q c hc l v w d = rw (w, ==_ne duration 0 d, hc, l, v)

-- From the empty table, after any calls: when some command is active, and of the active commands none
-- has a live lease or was created after the time of the call, a claim by a worker with a proper name
-- of at most 255 characters, for a positive duration, returns the oldest of them, leased to the worker.
-- So a command whose worker has died is claimed again once its lease is over.
pub claim-IsOldest :
    (steps : List Step) (worker : String) (duration now token : ℕ)
    → required worker "worker_id" ≡ ok tt
    → text_length worker ≤ 255
    → duration ≢ 0
    → any is_active (run steps empty).rows ≡ true
    → ((r : DurableSystemCommand)
        → Memᴰ r (run steps empty).rows
        → is_active r ≡ true
        → r.created_at ≤ now × (is_leased now r ≡ false))
    → (c : DurableSystemCommand) × IsOldest (some c) (run steps empty).rows
      × ((claim worker duration (some now) token (run steps empty)).0
          ≡ ok (some (leased_to worker duration now token c)))
claim-IsOldest steps worker duration now token w len d some_active free =
    let q = run steps empty in
    let (c, hc) = candidate-some q.rows some_active in
    let o = oldest q c hc in
    let valid = run-AreValid steps empty empty-IsSerial (λ a m. absurd (Memᴰ.not-nil m)) in
    let (l, u) = free c o.0 o.1 in
    (
      c,
      o,
      claim_row-takes worker duration now token q c hc u
          (leased-satisfies worker duration now token c (valid c o.0) o.1 l len) w d,
    )
