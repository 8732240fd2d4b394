-- ===== src/Infrastructure/Commands/Leases.antt =====
-- The leases of the commands and what a finished command keeps.
use mathlib.Core.List.Memᴰ
use mathlib.Core.List.{Memᴰ}
use mathlib.Core.Path.{transport}
use quantora_trade.Prelude.{
  ℕ, ◌≡◌, refl, sym, ◌∙◌, ◌⊎◌, inl, inr, String, Bool, not, true, false, Option, none, some, List,
  [], ◌∷◌, map, ◌==◌, arith, nat_eq, Bool-cases, ap, ==_eq, ==_refl, if-elim, Eq, string_eq,
}
use quantora_trade.Infrastructure.Commands.{
  CommandStatus-discrete, DurableSystemCommand, Queue, first, candidate, is_active, is_leased,
  leased_to, update_if, is_owned, is_some, get,
}
use quantora_trade.Infrastructure.Commands.Rows.{
  Step, step, run, empty, time_of, holder_of, step-Change, kept, appended, claimed, settled,
}
use quantora_trade.Infrastructure.Commands.Oldest.{IsOldest, candidate-IsOldest}
use quantora_trade.Infrastructure.Commands.Serial.{
  IsSerial, step-IsSerial, run-IsSerial, empty-IsSerial,
}

pub first-Memᴰ :
    (p : DurableSystemCommand → Bool) (rs : List DurableSystemCommand) (r : DurableSystemCommand)
    → first p rs ≡ some r
    → Memᴰ r rs × (p r ≡ true)
unfolding first
first-Memᴰ p [] r h = absurd (cc h)
first-Memᴰ p (x ∷ rs) r h =
    if-elim (λ (o : Option DurableSystemCommand). o ≡ some r → Memᴰ r (x ∷ rs) × (p r ≡ true)) (p x)
      (λ e k. (Memᴰ.head (sym (cc k)), ap p (sym (cc k)) ∙ e))
      (λ _ k. let m = first-Memᴰ p rs r k in (Memᴰ.tail m.0, m.1)) h

first-some :
    (p : DurableSystemCommand → Bool) (rs : List DurableSystemCommand) (r : DurableSystemCommand)
    → Memᴰ r rs
    → p r ≡ true
    → (c : DurableSystemCommand) × (first p rs ≡ some c)
unfolding first
first-some p [] r m h = absurd (Memᴰ.not-nil m)
first-some p (x ∷ rs) r m h =
    if-elim (λ (o : Option DurableSystemCommand). (c : DurableSystemCommand) × (o ≡ some c)) (p x)
      (λ _. (x, refl))
      (λ e. elim (Memᴰ.cases_cons m) [ inl k ↦ cc (ap p k, h, e) | inr k ↦ first-some p rs r k h ])

-- A row of a table whose ids are keys is found by its id.
pub Memᴰ-get :
    (q : Queue) (r : DurableSystemCommand) → IsSerial q → Memᴰ r q.rows → get r.id q ≡ some r
unfolding get
Memᴰ-get q r i m =
    let (c, e) = first-some (λ x. x.id == r.id) q.rows r m (==_refl r.id) in
    let found = first-Memᴰ (λ x. x.id == r.id) q.rows c e in
    e ∙ ap some (i.keyed c r found.0 m (==_eq c.id r.id found.1))

pub get-Memᴰ :
    (q : Queue) (id : ℕ) (r : DurableSystemCommand)
    → get id q ≡ some r
    → Memᴰ r q.rows × (r.id ≡ id)
unfolding get
get-Memᴰ q id r h =
    let found = first-Memᴰ (λ x. x.id == id) q.rows r h in (found.0, ==_eq r.id id found.1)

-- A row that an update passes over stays.
passed :
    (q r : Queue) (p : DurableSystemCommand → Bool)
    (f : DurableSystemCommand → DurableSystemCommand) (c : DurableSystemCommand)
    → r.rows ≡ map (update_if p f) q.rows
    → Memᴰ c q.rows
    → p c ≡ false
    → Memᴰ c r.rows
passed q r p f c e m h = transport (λ i. Memᴰ (same i) (sym e i)) (Memᴰ.map (update_if p f) m)
  where
    same : update_if p f c ≡ c
    same = ground (arith, h)

pub oldest :
    (q : Queue) (c : DurableSystemCommand) → candidate q.rows ≡ some c → IsOldest (some c) q.rows
oldest q c h = transport (λ k. IsOldest (h k) q.rows) (candidate-IsOldest q.rows)

-- A row that a claim does not take keeps its place: the row taken is active and has no live lease.
chosen :
    (q : Queue) (r c : DurableSystemCommand) (p : DurableSystemCommand → Bool)
    → IsSerial q
    → Memᴰ r q.rows
    → candidate q.rows ≡ some c
    → p c ≡ true
    → p r ≡ false
    → (r.id == c.id) ≡ false
chosen q r c p i m hc h k = elim (Bool-cases (r.id == c.id)) [
  | inl e ↦ cc (ap p (i.keyed r c m (oldest q c hc).0 (==_eq r.id c.id e)), h, k)
  | inr e ↦ e
]

-- Who may write a row: nobody but the holder of its lease, while the lease lives.
abbrev pub Holds : Step → DurableSystemCommand → Type 0
Holds s r =
    (worker : String) × (token : ℕ) × (holder_of s ≡ some (worker, token))
    × (r.worker_id ≡ some worker)
    × (r.lease_token ≡ some token)

step-finished :
    (s : Step) (q : Queue) (r : DurableSystemCommand)
    → IsSerial q
    → Memᴰ r q.rows
    → is_active r ≡ false
    → Memᴰ r (step s q).rows
unfolding is_owned CommandStatus-discrete
step-finished s q r i m h = elim (step-Change s q) [
  | kept e ↦ transport (λ k. Memᴰ r (sym e k)) m
  | appended c hs hn v hf e ↦ transport (λ k. Memᴰ r (sym e k)) (Memᴰ.append_left _ m)
  | claimed c worker duration now token t hc l v e ↦
      passed q (step s q) (λ o. o.id == c.id) (leased_to worker duration now token) r e m
        (chosen q r c is_active i m hc (oldest q c hc).1 h)
  | settled id worker token now f t k hf v e ↦ passed q (step s q) _ f r e m (ground (arith, h))
]

same_time : (a b : ℕ) → some a ≡ some b → a ≡ b
same_time a b h = cc h

is_some_lem : {A : Type 0} ⦃e : Eq A⦄ (a : A) (o : Option A) → is_some a o ≡ true → o ≡ some a
is_some_lem a none h = cc h
is_some_lem a (some b) h = ap some (==_eq b a h)

owned_lem :
    (id : ℕ) (worker : String) (token now : ℕ) (r : DurableSystemCommand)
    → is_owned id worker token now r ≡ true
    → (r.worker_id ≡ some worker) × (r.lease_token ≡ some token)
unfolding is_owned
owned_lem id worker token now r h = (
  is_some_lem worker r.worker_id (ground (arith, h)),
  is_some_lem token r.lease_token (ground (arith, h)),
)

step-leased :
    (s : Step) (q : Queue) (r : DurableSystemCommand) (now : ℕ)
    → IsSerial q
    → time_of s ≡ some now
    → Memᴰ r q.rows
    → is_leased now r ≡ true
    → Memᴰ r (step s q).rows ⊎ Holds s r
step-leased s q r now i t m h = elim (step-Change s q) [
  | kept e ↦ inl (transport (λ k. Memᴰ r (sym e k)) m)
  | appended c hs hn v hf e ↦ inl (transport (λ k. Memᴰ r (sym e k)) (Memᴰ.append_left _ m))
  | claimed c worker duration u token t' hc l v e ↦ inl (
      passed q (step s q) (λ o. o.id == c.id) (leased_to worker duration u token) r e m
        (chosen q r c (λ x. not (is_leased u x)) i m hc (ap not l)
          (ap (λ n. not (is_leased n r)) (same_time u now (sym t' ∙ t)) ∙ ap not h)))
  | settled id worker token u f t' k hf v e ↦ elim (Bool-cases (is_owned id worker token u r)) [
    | inl o ↦ let (w, x) = owned_lem id worker token u r o in inr (worker, token, k, w, x)
    | inr o ↦ inl (passed q (step s q) _ f r e m o)
  ]
]

run-finished :
    (steps : List Step) (q : Queue) (r : DurableSystemCommand)
    → IsSerial q
    → Memᴰ r q.rows
    → is_active r ≡ false
    → Memᴰ r (run steps q).rows
unfolding run
run-finished [] q r i m h = m
run-finished (s ∷ steps) q r i m h =
    run-finished steps (step s q) r (step-IsSerial s q i) (step-finished s q r i m h) h

-- From the empty table, after any calls, a command that has succeeded or failed reads the same after
-- any more calls: no stale worker changes its outcome.
pub finished-stays :
    (steps more : List Step) (id : ℕ) (r : DurableSystemCommand)
    → get id (run steps empty) ≡ some r
    → is_active r ≡ false
    → get id (run more (run steps empty)) ≡ some r
finished-stays steps more id r h k =
    let i = run-IsSerial steps empty empty-IsSerial in
    let q = run steps empty in
    let found = get-Memᴰ q id r h in
    ap (λ n. get n (run more q)) (sym found.1)
    ∙ Memᴰ-get (run more q) r (run-IsSerial more q i) (run-finished more q r i found.0 k)

-- From the empty table, after any calls, a call made while the lease of a command lives leaves the
-- command as it is, unless the call is by the worker that holds the lease, with its token.
pub lease-excludes :
    (steps : List Step) (s : Step) (now id : ℕ) (r : DurableSystemCommand)
    → get id (run steps empty) ≡ some r
    → time_of s ≡ some now
    → is_leased now r ≡ true
    → (get id (step s (run steps empty)) ≡ some r) ⊎ Holds s r
lease-excludes steps s now id r h t l =
    let q = run steps empty in
    let i = run-IsSerial steps empty empty-IsSerial in
    let found = get-Memᴰ q id r h in
    elim (step-leased s q r now i t found.0 l) [
      | inl m ↦
          inl (
            ap (λ n. get n (step s q)) (sym found.1)
            ∙ Memᴰ-get (step s q) r (step-IsSerial s q i) m)
      | inr o ↦ inr o
    ]
