-- ===== src/Application/Consumer/Settles.antt =====
-- A consumer that returned has settled the command that it claimed.
use quantora_trade.Prelude.{
  ℕ, ◌≡◌, refl, sym, ◌∙◌, ◌⊎◌, inl, inr, Bool, true, false, Option, none, some, ap, List, [], ◌∷◌,
  ◌+◌, arith,
}
use mathlib.Core.Path.{transport}
use quantora_trade.Prelude.Exec.{
  Result, ok, err, continue-ok, continue-state, continue, pure, ok_inj,
}
use quantora_trade.Domain.Libs.{Payload, text}
use quantora_trade.Infrastructure.Commands.{
  CommandStatus-discrete, succeeded, failed, DurableSystemCommand, Queue, candidate, is_active,
  claim, CommandStatus, acknowledge, fail, get,
}
use quantora_trade.Infrastructure.Commands.Rows.{
  Step, step, run, empty, claims, heartbeats, acknowledges, fails,
}
use quantora_trade.Infrastructure.Commands.Serial.{
  IsSerial, step-IsSerial, run-IsSerial, empty-IsSerial,
}
use quantora_trade.Infrastructure.Commands.Outcomes.{finish-settles, claim-candidate}
use quantora_trade.Application.Consumer.{
  ConsumerSetup, Host, run_once, process, process_claimed, conclude, extend_lease, execute, now,
  new_id, on_plant, error_name,
}

module _ {W : Type 0} (setup : ConsumerSetup W) where
  -- The end of a command, whichever it is, leaves it finished.
  abbrev IsSettled : ℕ → Host W → Type 0
  IsSettled id h =
      (row : DurableSystemCommand) × (get id h.queue ≡ some row) × (is_active row ≡ false)

  inactive :
      (status : CommandStatus) (row : DurableSystemCommand)
      → (status ≡ succeeded) ⊎ (status ≡ failed)
      → row.status ≡ status
      → is_active row ≡ false
  unfolding CommandStatus-discrete
  inactive status row (inl s) e = ground (arith, s, e)
  inactive status row (inr s) e = ground (arith, s, e)

  ended :
      (id : ℕ) (status : CommandStatus) (m : Result DurableSystemCommand × Queue) (h : Host W)
      → (status ≡ succeeded) ⊎ (status ≡ failed)
      → ((r : DurableSystemCommand)
          → m.0 ≡ ok r
          → (row : DurableSystemCommand) × (get id m.1 ≡ some row) × (row.status ≡ status))
      → (continue m.0 (record h { queue = m.1 }) (λ _. pure true)).0 ≡ ok true
      → IsSettled id (continue m.0 (record h { queue = m.1 }) (λ _. pure {A = Bool} true)).1
  ended id status m h s f e =
      let (r, k, _, t) = continue-ok m.0 (record h { queue = m.1 }) (λ _. pure true) true e in
      let (row, g, n) = f r k in
      (row, ap (λ (x : Host W). get id x.queue) t ∙ g, inactive status row s n)

  conclude-settles :
      (id token : ℕ) (r : Result Payload) (h : Host W)
      → IsSerial h.queue
      → (conclude setup id token r h).0 ≡ ok true
      → IsSettled id (conclude setup id token r h).1
  unfolding conclude now acknowledge fail step
  conclude-settles id token (ok result) h i e =
      let t = setup.clock h.clock_calls in
      ended id succeeded (acknowledge id setup.worker_id token result t h.queue)
        (record h { clock_calls = h.clock_calls + 1 }) (inl refl)
        (λ r k.
          finish-settles id setup.worker_id token succeeded result t h.queue r
            (step-IsSerial (acknowledges id setup.worker_id token result t) h.queue i) k)
        e
  conclude-settles id token (err x) h i e =
      let t = setup.clock h.clock_calls in
      let result = ("code", text "COMMAND_REJECTED") ∷ ("error_type", text (error_name x)) ∷ [] in
      ended id failed (fail id setup.worker_id token result t h.queue)
        (record h { clock_calls = h.clock_calls + 1 }) (inr refl)
        (λ r k.
          finish-settles id setup.worker_id token failed result t h.queue r
            (step-IsSerial (fails id setup.worker_id token result t) h.queue i) k)
        e

  -- A host whose queue is in order; nothing but the queue's own calls changes the queue.
  Serially : Host W → Type 0
  Serially h = IsSerial h.queue

  extend_lease-IsSerial :
      (id token : ℕ) (h : Host W)
      → IsSerial h.queue
      → IsSerial (extend_lease setup id token h).1.queue
  unfolding extend_lease now step
  extend_lease-IsSerial id token h i =
      step-IsSerial
        (heartbeats id setup.worker_id token setup.lease_duration (setup.clock h.clock_calls))
        h.queue i

  process-settles :
      (c : DurableSystemCommand) (token : Option ℕ) (h : Host W)
      → IsSerial h.queue
      → (process setup c token h).0 ≡ ok true
      → IsSettled c.id (process setup c token h).1
  unfolding process Serially
  process-settles c none h i e = absurd (cc e)
  process-settles c (some token) h i e =
      conclude-settles c.id token _ _
        (continue-state Serially (extend_lease setup c.id token h).0
          (extend_lease setup c.id token h).1 (λ _. on_plant (execute setup c))
          (extend_lease-IsSerial c.id token h i) λ _ _. extend_lease-IsSerial c.id token h i)
        e

  claimed-settles :
      (o : Option DurableSystemCommand) (h : Host W)
      → IsSerial h.queue
      → (process_claimed setup o h).0 ≡ ok true
      → (c : DurableSystemCommand) × (o ≡ some c) × IsSettled c.id (process_claimed setup o h).1
  claimed-settles none h i e = absurd (cc (ok_inj false true e))
  claimed-settles (some c) h i e = (c, refl, process-settles c c.lease_token h i e)

  -- On a queue that calls from the empty one have reached, a consumer that returns true has taken the
  -- oldest active command and left it finished: succeeded, or failed when the lease was lost, the
  -- worker's control refused or the workload raised.
  pub run_once-settles :
      (steps : List Step) (h : Host W)
      → h.queue ≡ run steps empty
      → (run_once setup h).0 ≡ ok true
      → (c : DurableSystemCommand) × (row : DurableSystemCommand) × (candidate h.queue.rows
          ≡ some c)
        × (get c.id (run_once setup h).1.queue ≡ some row)
        × (is_active row ≡ false)
  unfolding run_once now new_id step
  run_once-settles steps h q e =
      let t = setup.clock h.clock_calls in
      let n = setup.uuid4 h.uuid_calls in
      let m = claim setup.worker_id setup.lease_duration t n h.queue in
      let h' = record h {
        queue = m.1;
        clock_calls = h.clock_calls + 1;
        uuid_calls = h.uuid_calls + 1;
      } in
      let i = transport (λ k. IsSerial (sym q k)) (run-IsSerial steps empty empty-IsSerial) in
      let (o, k, f, s) = continue-ok m.0 h' (process_claimed setup) true e in
      let i' = step-IsSerial (claims setup.worker_id setup.lease_duration t n) h.queue i in
      let (c, oc, (row, g, done)) = claimed-settles o h' i' f in
      let (c', cand, same) =
        claim-candidate setup.worker_id setup.lease_duration t n h.queue c (k ∙ ap ok oc) in
      (
        c',
        row,
        cand,
        ap (λ j. get j (run_once setup h).1.queue) (sym same)
            ∙ ap (λ (x : Host W). get c.id x.queue) s
            ∙ g,
        done,
      )
