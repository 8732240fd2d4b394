-- ===== src/Infrastructure/Commands/Keys.antt =====
-- The idempotency keys of the commands.
use quantora_trade.Prelude.{
  ℕ, ◌≡◌, refl, sym, ◌∙◌, inl, inr, String, Bool, true, false, Option, none, some, List, [], ◌∷◌,
  ◌++◌, map, any, ◌!=◌, arith, nat_eq, string_eq, Bool-cases, ap, if-elim,
}
use quantora_trade.Prelude.Exec.{ok, continue-ok, ok_inj}
use quantora_trade.Infrastructure.Commands.{
  DurableSystemCommand, Queue, Request, EnqueueResult, first, leased_to, update_if, same_key,
  enqueue, insert_row, new_command, satisfies_constraints, state_consistent, check_request, bound,
  CommandStatus-discrete,
}
use quantora_trade.Infrastructure.Commands.Rows.{
  Step, step, run, step-Change, kept, appended, claimed, settled,
}

first-append :
    (p : DurableSystemCommand → Bool) (rs xs : List DurableSystemCommand) (r : DurableSystemCommand)
    → first p rs ≡ some r
    → first p (rs ++ xs) ≡ some r
unfolding first
first-append p [] xs r h = cc h
first-append p (x ∷ rs) xs r h = elim (Bool-cases (p x)) [
  | inl e ↦ ground (arith, e, h)
  | inr e ↦ ground (arith, e, h, first-append p rs xs r)
]

first-head :
    (p : DurableSystemCommand → Bool) (x : DurableSystemCommand) (rs : List DurableSystemCommand)
    → p x ≡ true
    → first p (x ∷ rs) ≡ some x
unfolding first
first-head p x rs h = ground (arith, h)

any-first :
    (p : DurableSystemCommand → Bool) (rs : List DurableSystemCommand) (r : DurableSystemCommand)
    → first p rs ≡ some r
    → any p rs ≡ true
unfolding first
any-first p [] r h = absurd (cc h)
any-first p (x ∷ rs) r h = elim (Bool-cases (p x)) [
  | inl e ↦ ground (arith, e)
  | inr e ↦ ground (arith, e, h, any-first p rs r)
]

some_inj : (a b : DurableSystemCommand) → some a ≡ some b → a ≡ b
some_inj a b h = cc h

first-map :
    (p : DurableSystemCommand → Bool) (g : DurableSystemCommand → DurableSystemCommand)
    (rs : List DurableSystemCommand) (r : DurableSystemCommand)
    → ((a : DurableSystemCommand) → p (g a) ≡ p a)
    → first p rs ≡ some r
    → first p (map g rs) ≡ some (g r)
unfolding first
first-map p g [] r h e = cc e
first-map p g (x ∷ rs) r h e = elim (Bool-cases (p x)) [
  | inl k ↦
      first-head p (g x) (map g rs) (h x ∙ k)
      ∙ ap some (ap g (some_inj x r (sym (first-head p x rs k) ∙ e)))
  | inr k ↦ ground (arith, k, e, h x, first-map p g rs r h)
]

-- What an update keeps of a row.
abbrev Keeps : (DurableSystemCommand → DurableSystemCommand) → Type 0
Keeps g =
    (a : DurableSystemCommand)
    → ((g a).id ≡ a.id)
      × ((g a).actor ≡ a.actor)
      × ((g a).idempotency_key ≡ a.idempotency_key)
      × ((g a).request_hash ≡ a.request_hash)

-- A request is bound: its key names a row with its hash.
abbrev Bound : Request → ℕ → Queue → Type 0
Bound q id s =
    (r : DurableSystemCommand) × (first (same_key q.actor q.idempotency_key) s.rows ≡ some r)
    × (r.request_hash ≡ q.request_hash)
    × (r.id ≡ id)

mapped-Bound :
    (q : Request) (id : ℕ) (s t : Queue) (g : DurableSystemCommand → DurableSystemCommand)
    → Keeps g
    → t.rows ≡ map g s.rows
    → Bound q id s
    → Bound q id t
mapped-Bound q id s t g h e (r, f, k, n) = (
  g r,
  ap (first (same_key q.actor q.idempotency_key)) e
      ∙ first-map (same_key q.actor q.idempotency_key) g s.rows r same f,
  (h r).3 ∙ k,
  (h r).0 ∙ n,
)
  where
    same :
        (a : DurableSystemCommand)
        → same_key q.actor q.idempotency_key (g a) ≡ same_key q.actor q.idempotency_key a
    same a = rw ((h a).1, (h a).2)

updated-Keeps :
    (p : DurableSystemCommand → Bool) (f : DurableSystemCommand → DurableSystemCommand)
    → Keeps f
    → Keeps (update_if p f)
updated-Keeps p f h a =
    if-elim
      (λ (x : DurableSystemCommand).
        (x.id ≡ a.id)
        × (x.actor ≡ a.actor)
        × (x.idempotency_key ≡ a.idempotency_key)
        × (x.request_hash ≡ a.request_hash))
      (p a) (λ _. h a) (λ _. (refl, refl, refl, refl))

leased-Keeps :
    (worker : String) (duration now token : ℕ) → Keeps (leased_to worker duration now token)
unfolding leased_to
leased-Keeps worker duration now token a = (refl, refl, refl, refl)

step-Bound : (c : Step) (q : Request) (id : ℕ) (s : Queue) → Bound q id s → Bound q id (step c s)
step-Bound c q id s b = elim (step-Change c s) [
  | kept e ↦ (b.0, ap (first (same_key q.actor q.idempotency_key)) e ∙ b.1, b.2, b.3)
  | appended r hs hn v hf e ↦ (
    b.0,
    ap (first (same_key q.actor q.idempotency_key)) e
        ∙ first-append (same_key q.actor q.idempotency_key) s.rows (r ∷ []) b.0 b.1,
    b.2,
    b.3,
  )
  | claimed r worker duration now token t hc l v e ↦
      mapped-Bound q id s (step c s) _ (updated-Keeps _ _ (leased-Keeps worker duration now token))
        e b
  | settled i worker token now f t h hf v e ↦
      mapped-Bound q id s (step c s) _
        (updated-Keeps _ f λ a. ((hf a).0, (hf a).3, (hf a).4, (hf a).5)) e b
]

run-Bound :
    (steps : List Step) (q : Request) (id : ℕ) (s : Queue) → Bound q id s → Bound q id (run steps s)
unfolding run
run-Bound [] q id s b = b
run-Bound (c ∷ steps) q id s b = run-Bound steps q id (step c s) (step-Bound c q id s b)

constraints_lem :
    (q : Request) (i j t u m n : ℕ)
    → satisfies_constraints (new_command q i t m) ≡ satisfies_constraints (new_command q j u n)
unfolding satisfies_constraints new_command state_consistent CommandStatus-discrete
constraints_lem q i j t u m n = ground arith

bound_same :
    (q : Request) (created : Bool) (r : DurableSystemCommand)
    → (r.request_hash != q.request_hash) ≡ false
    → bound q created (some r) ≡ ok (record { command = r; created = created })
bound_same q created r h = ground (arith, h)

bound_lem :
    (q : Request) (created : Bool) (o : Option DurableSystemCommand) (res : EnqueueResult)
    → bound q created o ≡ ok res
    → (o ≡ some res.command) × (res.command.request_hash ≡ q.request_hash)
bound_lem q created none res h = cc h
bound_lem q created (some r) res h = elim (Bool-cases (r.request_hash != q.request_hash)) [
  | inl e ↦ absurd (ground (arith, e, h))
  | inr e ↦ (
    ap some (same r res h e),
    ap (λ x. x.request_hash) (sym (same r res h e)) ∙ ground (arith, e),
  )
]
  where
    same :
        (r : DurableSystemCommand) (res : EnqueueResult)
        → bound q created (some r) ≡ ok res
        → (r.request_hash != q.request_hash) ≡ false
        → r ≡ res.command
    same r res h e = ap (λ x. x.command) (ok_inj _ res (sym (bound_same q created r e) ∙ h))

inserted :
    (c : DurableSystemCommand) (s : Queue) (b : Bool)
    → (insert_row c s).0 ≡ ok b
    → satisfies_constraints c ≡ true
unfolding insert_row
inserted c s b h = ground (arith, h)

-- A row whose key is taken is not inserted.
insert_again :
    (c : DurableSystemCommand) (s : Queue) (r : DurableSystemCommand)
    → satisfies_constraints c ≡ true
    → first (same_key c.actor c.idempotency_key) s.rows ≡ some r
    → insert_row c s ≡ (ok false, s)
unfolding insert_row
insert_again c s r v h =
    ground (arith, v, any-first (same_key c.actor c.idempotency_key) s.rows r h)

-- What a call that returned has found: a request that passes its checks, and a binding.
enqueue-Bound :
    (q : Request) (t id n : ℕ) (s : Queue) (res : EnqueueResult)
    → (enqueue q (some t) id n s).0 ≡ ok res
    → (check_request q ≡ ok tt)
      × (satisfies_constraints (new_command q id t n) ≡ true)
      × Bound q res.command.id (enqueue q (some t) id n s).1
unfolding enqueue
enqueue-Bound q t id n s res h =
    let c = new_command q id t n in
    let (_, e, h1, s1) = continue-ok (check_request q) s _ res h in
    let (created, v, h2, s2) = continue-ok (insert_row c s).0 (insert_row c s).1 _ res h1 in
    let (f, k) = bound_lem q created _ res h2 in
    (
      e,
      inserted c s created v,
      (
        res.command,
        ap (λ (x : Queue). first (same_key q.actor q.idempotency_key) x.rows) (s1 ∙ s2) ∙ f,
        k,
        refl,
      ),
    )

keyed :
    (q : Request) (j u n : ℕ) (s : Queue)
    → first (same_key (new_command q j u n).actor (new_command q j u n).idempotency_key) s.rows
      ≡ first (same_key q.actor q.idempotency_key) s.rows
unfolding new_command
keyed q j u n s = refl

-- A bound request is found again, and nothing changes.
again :
    (q : Request) (u j n id : ℕ) (s : Queue) (b : Bound q id s)
    → check_request q ≡ ok tt
    → satisfies_constraints (new_command q j u n) ≡ true
    → enqueue q (some u) j n s ≡ (ok (record { command = b.0; created = false }), s)
unfolding enqueue
again q u j n id s b c v = rw (
  c,
  insert_again (new_command q j u n) s b.0 v (keyed q j u n s ∙ b.1),
  b.1,
  bound_same q false b.0 (ground (arith, b.2)),
)

-- A request that was accepted is accepted again, by any caller, whatever its clock reads and after any
-- other calls: the second call returns the command with the same id as one that was not created, and
-- changes nothing.
pub enqueue_twice :
    (request : Request) (t u id other m n : ℕ) (q : Queue) (first_result : EnqueueResult)
    (steps : List Step)
    → (enqueue request (some t) id m q).0 ≡ ok first_result
    → let later = run steps (enqueue request (some t) id m q).1 in
      (replayed : EnqueueResult) × ((enqueue request (some u) other n later).0 ≡ ok replayed)
      × (replayed.created ≡ false)
      × (replayed.command.id ≡ first_result.command.id)
      × ((enqueue request (some u) other n later).1 ≡ later)
enqueue_twice request t u id other m n q first_result steps h =
    let (c, v, b) = enqueue-Bound request t id m q first_result h in
    let later = run steps (enqueue request (some t) id m q).1 in
    let b' =
      run-Bound steps request first_result.command.id (enqueue request (some t) id m q).1 b in
    let e =
      again request u other n first_result.command.id later b' c
        (constraints_lem request other id u t n m ∙ v) in
    (record { command = b'.0; created = false }, ap (λ x. x.0) e, refl, b'.3, ap (λ x. x.1) e)
