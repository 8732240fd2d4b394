-- ===== src/Infrastructure/Commands/Rows.antt =====
-- What a step of a worker or of the API changes in the table of commands.
use quantora_trade.Prelude.{
  ℕ, ◌≡◌, refl, ◌⊎◌, inl, inr, String, Bool, true, false, not, Option, none, some, List, [], ◌∷◌,
  ◌++◌, map, any, ◌==◌, arith, nat_eq, if-elim,
}
use quantora_trade.Prelude.Exec.{
  Exec, Result, ok, continue-state, then-state, raise_if, ◌>>◌, Error,
}
use quantora_trade.Domain.Libs.{Payload}
use quantora_trade.Infrastructure.Commands.{
  CommandStatus-discrete, queued, succeeded, failed, DurableSystemCommand, Queue, Request, first,
  candidate, is_active, is_leased, leased_to, update_if, update_where, is_owned, owned_update,
  enqueue, insert_row, new_command, claim, claim_row, heartbeat, extended, finish, finished,
  acknowledge, fail, satisfies_constraints, same_key, required, update_found, aware_utc,
  check_request,
}

-- One call: by the API or by a worker, at what its clock says, with a new UUID.
pub data Step : Type 0 where
  enqueues : Request → Option ℕ → ℕ → ℕ → Step
  claims : String → ℕ → Option ℕ → ℕ → Step
  heartbeats : ℕ → String → ℕ → ℕ → Option ℕ → Step
  acknowledges fails : ℕ → String → ℕ → Payload → Option ℕ → Step

unfoldable pub step : Step → Queue → Queue
step (enqueues request clock id sequence) q = (enqueue request clock id sequence q).1
step (claims worker duration clock token) q = (claim worker duration clock token q).1
step (heartbeats id worker token duration clock) q = (heartbeat id worker token duration clock q).1
step (acknowledges id worker token result clock) q = (acknowledge id worker token result clock q).1
step (fails id worker token result clock) q = (fail id worker token result clock q).1

unfoldable pub run : List Step → Queue → Queue
run [] q = q
run (s ∷ steps) q = run steps (step s q)

-- The time of a step and, for a step under a lease, its holder.
abbrev pub time_of : Step → Option ℕ
time_of (enqueues _ clock _ _) = clock
time_of (claims _ _ clock _) = clock
time_of (heartbeats _ _ _ _ clock) = clock
time_of (acknowledges _ _ _ _ clock) = clock
time_of (fails _ _ _ _ clock) = clock

abbrev pub holder_of : Step → Option (String × ℕ)
holder_of (heartbeats _ worker token _ _) = some (worker, token)
holder_of (acknowledges _ worker token _ _) = some (worker, token)
holder_of (fails _ worker token _ _) = some (worker, token)
holder_of _ = none

abbrev pub empty : Queue
empty = record { rows = [] }

-- An update by the holder keeps a row's identity, and its status or finishes it.
abbrev pub Settles : (DurableSystemCommand → DurableSystemCommand) → Type 0
Settles f =
    (r : DurableSystemCommand)
    → ((f r).id ≡ r.id)
      × ((f r).queue_sequence ≡ r.queue_sequence)
      × (((f r).status ≡ r.status) ⊎ (is_active (f r) ≡ false))
      × ((f r).actor ≡ r.actor)
      × ((f r).idempotency_key ≡ r.idempotency_key)
      × ((f r).request_hash ≡ r.request_hash)

pub data Change (s : Step) (q r : Queue) : Type 0 where
  kept : r.rows ≡ q.rows → Change s q r
  appended :
      (c : DurableSystemCommand)
      → c.status ≡ queued
      → any (λ o. o.queue_sequence == c.queue_sequence) q.rows ≡ false
      → satisfies_constraints c ≡ true
      → any (λ o. o.id == c.id) q.rows ≡ false
      → r.rows ≡ q.rows ++ c ∷ []
      → Change s q r
  claimed :
      (c : DurableSystemCommand) (worker : String) (duration now token : ℕ)
      → time_of s ≡ some now
      → candidate q.rows ≡ some c
      → is_leased now c ≡ false
      → satisfies_constraints (leased_to worker duration now token c) ≡ true
      → r.rows ≡ map (update_if (λ o. o.id == c.id) (leased_to worker duration now token)) q.rows
      → Change s q r
  settled :
      (id : ℕ) (worker : String) (token now : ℕ) (f : DurableSystemCommand → DurableSystemCommand)
      → time_of s ≡ some now
      → holder_of s ≡ some (worker, token)
      → Settles f
      → ((c : DurableSystemCommand) × (first (is_owned id worker token now) q.rows ≡ some c)
          × (satisfies_constraints (f c) ≡ true))
      → r.rows ≡ map (update_if (is_owned id worker token now) f) q.rows
      → Change s q r

insert_lem :
    (s : Step) (q : Queue) (c : DurableSystemCommand)
    → c.status ≡ queued
    → Change s q (insert_row c q).1
unfolding insert_row
insert_lem s q c h =
    if-elim P (not (satisfies_constraints c)) (λ _. kept refl)
      λ v.
        if-elim P (any (same_key c.actor c.idempotency_key) q.rows) (λ _. kept refl)
          λ _.
            if-elim P (any (λ o. o.id == c.id) q.rows) (λ _. kept refl)
              λ e.
                if-elim P (any (λ o. o.queue_sequence == c.queue_sequence) q.rows) (λ _. kept refl)
                  λ k. appended c h k (ground (arith, v)) e refl
  where
    P : Result Bool × Queue → Type 0
    P r = Change s q r.1

update_lem :
    (s : Step) (q : Queue) (p : DurableSystemCommand → Bool)
    (f : DurableSystemCommand → DurableSystemCommand) (c : DurableSystemCommand)
    → ((r : Queue)
        → satisfies_constraints (f c) ≡ true
        → r.rows ≡ map (update_if p f) q.rows
        → Change s q r)
    → Change s q (update_where p f c q).1
unfolding update_where
update_lem s q p f c h =
    if-elim (λ (r : Result DurableSystemCommand × Queue). Change s q r.1)
      (not (satisfies_constraints (f c))) (λ _. kept refl) λ v. h _ (ground (arith, v)) refl

settle_lem :
    (s : Step) (q : Queue) (id : ℕ) (worker : String) (token now : ℕ)
    (f : DurableSystemCommand → DurableSystemCommand)
    → time_of s ≡ some now
    → holder_of s ≡ some (worker, token)
    → Settles f
    → Change s q (owned_update id worker token now f q).1
unfolding owned_update
settle_lem s q id worker token now f ht hh hf =
    continue-state (Change s q) (required worker "worker_id") q _ (kept refl)
      λ _ _. found (first (is_owned id worker token now) q.rows) refl
  where
    found :
        (o : Option DurableSystemCommand)
        → first (is_owned id worker token now) q.rows ≡ o
        → Change s q (update_found (is_owned id worker token now) f o q).1
    found none e = kept refl
    found (some c) e = update_lem s q _ f c λ r v. settled id worker token now f ht hh hf (c, e, v)

claim_lem :
    (s : Step) (q : Queue) (worker : String) (duration now token : ℕ)
    → time_of s ≡ some now
    → Change s q (claim_row worker duration now token (candidate q.rows) q).1
unfolding claim_row
claim_lem s q worker duration now token ht = found (candidate q.rows) refl
  where
    found :
        (o : Option DurableSystemCommand)
        → candidate q.rows ≡ o
        → Change s q (claim_row worker duration now token o q).1
    found none e = kept refl
    found (some c) e =
        if-elim (λ (m : Exec Queue (Option DurableSystemCommand)). Change s q (m q).1)
          (is_leased now c) (λ _. kept refl)
          λ h.
            then-state (Change s q)
              (update_where (λ r. r.id == c.id) (leased_to worker duration now token) c q) _
              (λ _ _. refl) (update_lem s q _ _ c λ r. claimed c worker duration now token ht e h)

new_lem :
    (s : Step) (q : Queue) (request : Request) (id now sequence : ℕ)
    → Change s q (insert_row (new_command request id now sequence) q).1
unfolding new_command
new_lem s q request id now sequence = insert_lem s q _ refl

aware_lem : (clock : Option ℕ) (now : ℕ) → aware_utc clock ≡ ok now → clock ≡ some now
aware_lem none now h = ground (arith, h)
aware_lem (some t) now h = ground (arith, h)

unless :
    {A : Type 0} (s : Step) (q : Queue) (b : Bool) (e : Error) (m : Exec Queue A)
    → Change s q (m q).1
    → Change s q ((raise_if b e >> m) q).1
unless s q true e m h = kept refl
unless s q false e m h = h

-- A heartbeat extends the lease and keeps the status; the ends of a command finish it.
extended-Settles : (duration now : ℕ) → Settles (extended duration now)
extended-Settles duration now r = (refl, refl, inl refl, refl, refl, refl)

succeeded-Settles : (result : Payload) (now : ℕ) → Settles (finished succeeded result now)
unfolding CommandStatus-discrete
succeeded-Settles result now r = (refl, refl, inr refl, refl, refl, refl)

failed-Settles : (result : Payload) (now : ℕ) → Settles (finished failed result now)
unfolding CommandStatus-discrete
failed-Settles result now r = (refl, refl, inr refl, refl, refl, refl)

pub step-Change : (s : Step) (q : Queue) → Change s q (step s q)
unfolding step enqueue claim heartbeat acknowledge fail finish
step-Change (enqueues request clock id sequence) q =
    let s = enqueues request clock id sequence in
    continue-state (Change s q) (check_request request) q _ (kept refl) λ _ _.
      continue-state (Change s q) (aware_utc clock) q _ (kept refl) λ now _.
        then-state (Change s q) (insert_row (new_command request id now sequence) q) _ (λ _ _. refl)
          (new_lem s q request id now sequence)
step-Change (claims worker duration clock token) q =
    let s = claims worker duration clock token in
    continue-state (Change s q) (required worker "worker_id") q _ (kept refl) λ _ _.
      unless s q (duration == 0) _ _ (
        continue-state (Change s q) (aware_utc clock) q _ (kept refl)
          λ now e. claim_lem s q worker duration now token (aware_lem clock now e))
step-Change (heartbeats id worker token duration clock) q =
    let s = heartbeats id worker token duration clock in
    unless s q (duration == 0) _ _ (
      continue-state (Change s q) (aware_utc clock) q _ (kept refl) λ now e.
        settle_lem s q id worker token now (extended duration now) (aware_lem clock now e) refl
          (extended-Settles duration now))
step-Change (acknowledges id worker token result clock) q =
    let s = acknowledges id worker token result clock in
    continue-state (Change s q) (aware_utc clock) q _ (kept refl) λ now e.
      settle_lem s q id worker token now (finished succeeded result now) (aware_lem clock now e)
        refl (succeeded-Settles result now)
step-Change (fails id worker token result clock) q =
    let s = fails id worker token result clock in
    continue-state (Change s q) (aware_utc clock) q _ (kept refl) λ now e.
      settle_lem s q id worker token now (finished failed result now) (aware_lem clock now e) refl
        (failed-Settles result now)
