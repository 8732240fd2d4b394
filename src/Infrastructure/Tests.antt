-- ===== src/Infrastructure/Tests.antt =====
-- The queue at concrete calls: a start, which one worker claims and lets lapse, and a stop after it.
use native.Mathlib.Decide.{ℕ_discrete}
use mathlib.Core.List.Memᴰ
use mathlib.Core.List.{Memᴰ}
use quantora_trade.Prelude.{
  map, ◌≡◌, refl, ◌⊎◌, inl, inr, String, String_discrete, true, false, none, some, List, [], ◌∷◌,
  ◌++◌, ◌≤◌, ◌∙◌, sym, ap, any, arith,
}
use mathlib.Core.Path.{transport}
use quantora_trade.Prelude.Text.{is_blank, is_trimmed, is_hex, strip, text_length}
use quantora_trade.Prelude.Exec.{ok}
use quantora_trade.Infrastructure.Commands.{
  CommandStatus-discrete, queued, processing, succeeded, DurableSystemCommand, Queue, Request,
  EnqueueResult, first, candidate, is_active, is_leased, leased_to, update_where, is_owned,
  owned_update, enqueue, insert_row, new_command, claim, claim_row, heartbeat, finish, acknowledge,
  fail, get, check_request, required, satisfies_constraints, state_consistent,
}
use quantora_trade.Infrastructure.Commands.Rows.{
  Step, enqueues, claims, acknowledges, fails, step, run, empty,
}
use quantora_trade.Infrastructure.Commands.Oldest.{IsOldest}
use quantora_trade.Infrastructure.Commands.Serial.{run-overtakes_none}
use quantora_trade.Infrastructure.Commands.Leases.{Holds, finished-stays, lease-excludes}
use quantora_trade.Infrastructure.Commands.Keys.{enqueue_twice}
use quantora_trade.Infrastructure.Commands.Progress.{claim-IsOldest}

abbrev request : String → String → Request
request action key = record {
  request_id = "req";
  idempotency_key = key;
  request_hash = "0123456789abcdef0123456789abcdef0123456789abcdef0123456789abcdef";
  action = action;
  mode = "paper";
  payload = [];
  actor = "ops";
}

abbrev starting : List Step
starting =
    enqueues (request "start" "k1") (some 10) 1 1
    ∷ claims "w1" 5 (some 20) 71
    ∷ enqueues (request "stop" "k2") (some 21) 2 2
    ∷ []

unfoldable executable : Unit {0}
unfolding run step enqueue insert_row new_command claim claim_row update_where heartbeat
    owned_update is_owned finish acknowledge fail get first candidate leased_to check_request
    required satisfies_constraints state_consistent CommandStatus-discrete is_blank is_trimmed strip
    is_hex text_length String_discrete ℕ_discrete
executable = tt

-- The start as the first worker claimed it.
abbrev held : DurableSystemCommand
held = record {
  id = 1;
  request_id = "req";
  idempotency_key = "k1";
  request_hash = "0123456789abcdef0123456789abcdef0123456789abcdef0123456789abcdef";
  action = "start";
  mode = "paper";
  payload = [];
  actor = "ops";
  status = processing;
  created_at = 10;
  updated_at = 20;
  result = none;
  worker_id = some "w1";
  lease_token = some 71;
  lease_expires_at = some 25;
  last_heartbeat_at = some 20;
  attempts = 1;
  completed_at = none;
  queue_sequence = 1;
}

abbrev waiting : DurableSystemCommand
waiting = record held {
  id = 2;
  idempotency_key = "k2";
  action = "stop";
  status = queued;
  created_at = 21;
  updated_at = 21;
  worker_id = none;
  lease_token = none;
  lease_expires_at = none;
  last_heartbeat_at = none;
  attempts = 0;
  queue_sequence = 2;
}

rows_lem : (run starting empty).rows ≡ held ∷ waiting ∷ []
unfolding executable
rows_lem = refl

held_first : Memᴰ held (run starting empty).rows
held_first = transport (λ i. Memᴰ held (sym rows_lem i)) (Memᴰ.head refl)

waiting_next : Memᴰ waiting (run starting empty).rows
waiting_next = transport (λ i. Memᴰ waiting (sym rows_lem i)) (Memᴰ.tail (Memᴰ.head refl))

-- The worker acknowledges in time; then its token is of no more use.
abbrev ending : List Step
ending = starting ++ acknowledges 1 "w1" 71 [] (some 22) ∷ []

abbrev done : DurableSystemCommand
done = record held { status = succeeded; updated_at = 22; result = some []; completed_at = some 22 }

abbrev intruding : List Step
intruding = fails 1 "w1" 71 [] (some 23) ∷ claims "w2" 5 (some 24) 72 ∷ []

done_lem : get 1 (run ending empty) ≡ some done
unfolding executable
done_lem = refl

done_inactive : is_active done ≡ false
unfolding executable
done_inactive = refl

finished-stays_example : get 1 (run intruding (run ending empty)) ≡ some done
finished-stays_example = finished-stays ending intruding 1 done done_lem done_inactive

held_lem : get 1 (run starting empty) ≡ some held
unfolding executable
held_lem = refl

held_leased : is_leased 22 held ≡ true
unfolding executable
held_leased = refl

lease-excludes_example :
    (get 1 (step (claims "w2" 5 (some 22) 72) (run starting empty)) ≡ some held)
    ⊎ Holds (claims "w2" 5 (some 22) 72) held
lease-excludes_example =
    lease-excludes starting (claims "w2" 5 (some 22) 72) 22 1 held held_lem refl held_leased

abbrev stored : EnqueueResult
stored = record {
  command = record waiting {
    id = 1;
    idempotency_key = "k1";
    action = "start";
    created_at = 10;
    updated_at = 10;
    queue_sequence = 1;
  };
  created = true;
}

stored_lem : (enqueue (request "start" "k1") (some 10) 1 1 empty).0 ≡ ok stored
unfolding executable
stored_lem = refl

abbrev between : List Step
between = claims "w1" 5 (some 20) 71 ∷ enqueues (request "stop" "k2") (some 21) 2 2 ∷ []

abbrev later : Queue
later = run between (enqueue (request "start" "k1") (some 10) 1 1 empty).1

enqueue_twice_example :
    (replayed : EnqueueResult) × ((enqueue (request "start" "k1") (some 30) 9 4 later).0
      ≡ ok replayed)
    × (replayed.created ≡ false)
    × (replayed.command.id ≡ 1)
    × ((enqueue (request "start" "k1") (some 30) 9 4 later).1 ≡ later)
enqueue_twice_example =
    enqueue_twice (request "start" "k1") 10 30 1 9 1 4 empty stored between stored_lem

named : required "w2" "worker_id" ≡ ok tt
unfolding executable
named = refl

short : text_length "w2" ≤ 255
unfolding executable
short = omega arith

active_lem : any is_active (run starting empty).rows ≡ true
unfolding executable
active_lem = refl

lapsed : is_leased 30 held ≡ false
unfolding executable
lapsed = refl

unclaimed : is_leased 30 waiting ≡ false
unfolding executable
unclaimed = refl

free_lem :
    (r : DurableSystemCommand)
    → Memᴰ r (run starting empty).rows
    → is_active r ≡ true
    → r.created_at ≤ 30 × (is_leased 30 r ≡ false)
free_lem r m _ = elim (Memᴰ.cases_cons (transport (λ i. Memᴰ r (rows_lem i)) m)) [
  | inl e ↦ (omega (arith, ap (λ x. x.created_at) e), ap (is_leased 30) e ∙ lapsed)
  | inr k ↦
      let e = Memᴰ.eq_of_singleton k in
      (omega (arith, ap (λ x. x.created_at) e), ap (is_leased 30) e ∙ unclaimed)
]

claim-IsOldest_example :
    (c : DurableSystemCommand) × IsOldest (some c) (run starting empty).rows
    × ((claim "w2" 5 (some 30) 72 (run starting empty)).0 ≡ ok (some (leased_to "w2" 5 30 72 c)))
claim-IsOldest_example =
    claim-IsOldest starting "w2" 5 30 72 named short (λ e. omega (arith, e)) active_lem free_lem

-- After the start has ended, the stop is claimed.
abbrev stopping : DurableSystemCommand
stopping = record waiting {
  status = processing;
  updated_at = 24;
  worker_id = some "w2";
  lease_token = some 72;
  lease_expires_at = some 29;
  last_heartbeat_at = some 24;
  attempts = 1;
}

abbrev then_stop : List Step
then_stop = ending ++ claims "w2" 5 (some 24) 72 ∷ []

stop_lem : (run then_stop empty).rows ≡ done ∷ stopping ∷ []
unfolding executable
stop_lem = refl

run-overtakes_none_example : (is_active done ≡ false) ⊎ (2 ≤ 1)
run-overtakes_none_example =
    run-overtakes_none then_stop [] (stopping ∷ []) stopping done stop_lem (Memᴰ.head refl) refl

-- A stop that is committed before a start of a smaller number is claimed first, and the start beside
-- it.
test_overtaking :
    map
      (λ r. r.status)
      (run
        (enqueues (request "stop" "k2") (some 10) 2 2
          ∷ claims "w1" 50 (some 11) 71
          ∷ enqueues (request "start" "k1") (some 9) 1 1
          ∷ claims "w2" 50 (some 12) 72
          ∷ [])
        empty).rows
    ≡ processing ∷ processing ∷ []
unfolding executable
test_overtaking = refl
