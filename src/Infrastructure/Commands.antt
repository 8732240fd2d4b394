-- ===== src/Infrastructure/Commands.antt =====
-- The queue of control commands: PostgresSystemCommandRepository of src/quantora_trade/
-- infrastructure/database/command_repository.py over the table of command_models.py there. The table
-- is shared by every process: a method is one transaction, one step on the table, and takes what the
-- caller's clock (`none` for a naive datetime), its generator of UUIDs and, for a new row, the
-- identity column's sequence return in it. Datetimes are UTC
-- instants; a duration of zero stands for a negative one too, which is refused alike.
pub mod Rows
pub mod Oldest
pub mod Serial
pub mod Leases
pub mod Keys
pub mod Progress
pub mod Outcomes
use native.Mathlib.Decide.{ℕ_discrete}
use quantora_trade.Prelude.{
  ℕ, ◌+◌, String, String_discrete, Bool, true, false, not, ◌&&◌, ◌||◌, Option, none, some, List, [],
  ◌∷◌, ◌++◌, map, any, ◌==◌, ◌!=◌, Eq, ltb, leb, nat_eq, string_eq, if◌then◌else◌,
}
use quantora_trade.Prelude.Text.{is_blank, is_trimmed, is_hex, text_length}
use quantora_trade.Prelude.Exec.{
  value_error, runtime_error, integrity_error, lease_ownership, idempotency_conflict, Check, check,
  ◌⨾◌, Result, ok, err, Exec, pure, raise, gets, lift, modify, raise_if, ◌>>=◌, ◌>>◌,
}
use quantora_trade.Domain.Libs.{Payload}

pub data CommandStatus : Type 0 where
  queued processing succeeded failed : CommandStatus

unfoldable pub CommandStatus-discrete : Discrete CommandStatus
CommandStatus-discrete = hlevel

instance abbrev pub command_status_eq : Eq CommandStatus
command_status_eq = record { dec = CommandStatus-discrete }

-- A row of the table, which `_command` copies field by field.
pub record DurableSystemCommand : Type 0 where
  pub id : ℕ
  pub request_id : String
  pub idempotency_key : String
  pub request_hash : String
  pub action : String
  pub mode : String
  pub payload : Payload
  pub actor : String
  pub status : CommandStatus
  pub created_at : ℕ
  pub updated_at : ℕ
  pub result : Option Payload
  pub worker_id : Option String
  pub lease_token : Option ℕ
  pub lease_expires_at : Option ℕ
  pub last_heartbeat_at : Option ℕ
  pub attempts : ℕ
  pub completed_at : Option ℕ
  pub queue_sequence : ℕ

pub record EnqueueResult : Type 0 where
  pub command : DurableSystemCommand
  pub created : Bool

pub record Queue : Type 0 where
  pub rows : List DurableSystemCommand

abbrev pub is_none : {A : Type 0} → Option A → Bool
is_none none = true
is_none (some _) = false

-- `a IS NULL OR a >= t`
abbrev pub none_before : ℕ → Option ℕ → Bool
none_before t none = true
none_before t (some a) = leb t a

abbrev pub fits : Option String → Bool
fits none = true
fits (some s) = leb (text_length s) 255

unfoldable pub state_consistent : DurableSystemCommand → Bool
state_consistent r =
    let unleased = is_none r.worker_id && is_none r.lease_token && is_none r.lease_expires_at in
    let leased =
      not (is_none r.worker_id)
      && not (is_none r.lease_token)
      && not (is_none r.lease_expires_at) in
    elim r.status [
      | queued ↦ unleased && is_none r.completed_at && is_none r.result
      | processing ↦ leased && is_none r.completed_at && is_none r.result
      | succeeded ↦ leased && not (is_none r.completed_at) && not (is_none r.result)
      | failed ↦ leased && not (is_none r.completed_at) && not (is_none r.result)
    ]

-- The constraints of the table on one row; its columns of bounded length are among them.
unfoldable pub satisfies_constraints : DurableSystemCommand → Bool
satisfies_constraints r =
    (r.action == "start" || r.action == "stop")
    && r.mode == "paper"
    && text_length r.request_hash == 64
    && is_hex r.request_hash
    && leb r.created_at r.updated_at
    && state_consistent r
    && none_before r.created_at r.last_heartbeat_at
    && none_before r.created_at r.completed_at
    && leb (text_length r.request_id) 255
    && leb (text_length r.idempotency_key) 255
    && leb (text_length r.actor) 255
    && fits r.worker_id

unfoldable pub required : String → String → Check
required value name =
    check (is_blank value || not (is_trimmed value))
      (value_error "value must be non-empty and trimmed")

abbrev pub aware_utc : Option ℕ → Result ℕ
aware_utc none = err (value_error "repository clock must return a timezone-aware datetime")
aware_utc (some t) = ok t

pub record Request : Type 0 where
  pub request_id : String
  pub idempotency_key : String
  pub request_hash : String
  pub action : String
  pub mode : String
  pub payload : Payload
  pub actor : String

unfoldable pub new_command : Request → ℕ → ℕ → ℕ → DurableSystemCommand
new_command q id now sequence = record {
  id = id;
  request_id = q.request_id;
  idempotency_key = q.idempotency_key;
  request_hash = q.request_hash;
  action = q.action;
  mode = q.mode;
  payload = q.payload;
  actor = q.actor;
  status = queued;
  created_at = now;
  updated_at = now;
  result = none;
  worker_id = none;
  lease_token = none;
  lease_expires_at = none;
  last_heartbeat_at = none;
  attempts = 0;
  completed_at = none;
  queue_sequence = sequence;
}

-- The first row that a `WHERE` clause selects.
unfoldable pub first :
    (DurableSystemCommand → Bool) → List DurableSystemCommand → Option DurableSystemCommand
first p [] = none
first p (r ∷ rs) = if p r then some r else first p rs

abbrev pub same_key : String → String → DurableSystemCommand → Bool
same_key actor key r = r.actor == actor && r.idempotency_key == key

-- `INSERT … ON CONFLICT DO NOTHING`: a refused row raises.
unfoldable pub insert_row : DurableSystemCommand → Exec Queue Bool
insert_row r q =
    if not (satisfies_constraints r)
    then (err (integrity_error "check constraint"), q)
    else if any (same_key r.actor r.idempotency_key) q.rows
    then (ok false, q)
    else if any (λ o. o.id == r.id) q.rows
    then (err (integrity_error "primary key"), q)
    else if any (λ o. o.queue_sequence == r.queue_sequence) q.rows
    then (err (integrity_error "unique queue_sequence"), q)
    else (ok true, record q { rows = q.rows ++ r ∷ [] })

abbrev pub bound : Request → Bool → Option DurableSystemCommand → Result EnqueueResult
bound q created none = err (runtime_error "enqueued system command disappeared")
bound q created (some r) =
    if r.request_hash != q.request_hash
    then err (idempotency_conflict "idempotency key is already bound to another request")
    else ok (record { command = r; created = created })

unfoldable pub check_request : Request → Check
check_request q =
    required q.request_id "request_id"
    ⨾ required q.idempotency_key "idempotency_key"
    ⨾ required q.actor "actor"
    ⨾ check (text_length q.request_hash != 64 || not (is_hex q.request_hash))
        (value_error "request_hash must be a SHA-256 hex digest")

-- The step is the transaction's commit, from which on the row is visible; an insert of a key waits for
-- another transaction that inserts the same. The number is what the identity column drew for the
-- insert, before the commit: transactions may commit in another order than that of their numbers. A
-- transaction that raises is rolled back.
unfoldable pub enqueue : Request → Option ℕ → ℕ → ℕ → Exec Queue EnqueueResult
enqueue q clock id sequence = do
  lift (check_request q)
  now ← lift (aware_utc clock)
  created ← insert_row (new_command q id now sequence)
  row ← gets (λ s. first (same_key q.actor q.idempotency_key) s.rows)
  lift (bound q created row)

abbrev pub is_active : DurableSystemCommand → Bool
is_active r = r.status == queued || r.status == processing

abbrev pub older : Option DurableSystemCommand → DurableSystemCommand → Option DurableSystemCommand
older none r = some r
older (some o) r = if ltb o.queue_sequence r.queue_sequence then some o else some r

-- `ORDER BY queue_sequence LIMIT 1` over the active rows.
unfoldable pub candidate : List DurableSystemCommand → Option DurableSystemCommand
candidate [] = none
candidate (r ∷ rs) = let rest = candidate rs in if is_active r then older rest r else rest

-- `a > now`, which no missing value is.
abbrev pub after : ℕ → Option ℕ → Bool
after now none = false
after now (some t) = ltb now t

abbrev pub is_leased : ℕ → DurableSystemCommand → Bool
is_leased now r = r.status == processing && after now r.lease_expires_at

unfoldable pub leased_to : String → ℕ → ℕ → ℕ → DurableSystemCommand → DurableSystemCommand
leased_to worker duration now token r = record r {
  status = processing;
  worker_id = some worker;
  lease_token = some token;
  lease_expires_at = some (now + duration);
  last_heartbeat_at = some now;
  attempts = r.attempts + 1;
  updated_at = now;
}

abbrev pub update_if :
    (DurableSystemCommand → Bool)
    → (DurableSystemCommand → DurableSystemCommand)
    → DurableSystemCommand
    → DurableSystemCommand
update_if p f r = if p r then f r else r

-- `UPDATE` of the rows that the clause selects, which returns the first of them.
unfoldable pub update_where :
    (DurableSystemCommand → Bool)
    → (DurableSystemCommand → DurableSystemCommand)
    → DurableSystemCommand
    → Exec Queue DurableSystemCommand
update_where p f r q =
    if not (satisfies_constraints (f r))
    then (err (integrity_error "check constraint"), q)
    else (ok (f r), record q { rows = map (update_if p f) q.rows })

unfoldable pub claim_row :
    String → ℕ → ℕ → ℕ → Option DurableSystemCommand → Exec Queue (Option DurableSystemCommand)
claim_row worker duration now token none = pure none
claim_row worker duration now token (some c) =
    if is_leased now c
    then pure none
    else update_where (λ r. r.id == c.id) (leased_to worker duration now token) c >>= λ r.
        pure (some r)

unfoldable pub claim : String → ℕ → Option ℕ → ℕ → Exec Queue (Option DurableSystemCommand)
claim worker duration clock token = do
  lift (required worker "worker_id")
  raise_if (duration == 0) (value_error "lease_duration must be positive")
  now ← lift (aware_utc clock)
  c ← gets (λ s. candidate s.rows)
  claim_row worker duration now token c

abbrev pub is_some : {A : Type 0} ⦃e : Eq A⦄ → A → Option A → Bool
is_some a none = false
is_some a (some b) = b == a

-- The `WHERE` clause of `_owned_update`.
unfoldable pub is_owned : ℕ → String → ℕ → ℕ → DurableSystemCommand → Bool
is_owned id worker token now r =
    r.id == id
    && r.status == processing
    && is_some worker r.worker_id
    && is_some token r.lease_token
    && after now r.lease_expires_at
    && leb r.updated_at now

abbrev pub update_found :
    (DurableSystemCommand → Bool)
    → (DurableSystemCommand → DurableSystemCommand)
    → Option DurableSystemCommand
    → Exec Queue DurableSystemCommand
update_found p f none = raise (lease_ownership "command lease is absent, expired, or fenced")
update_found p f (some r) = update_where p f r

unfoldable pub owned_update :
    ℕ
    → String
    → ℕ
    → ℕ
    → (DurableSystemCommand → DurableSystemCommand)
    → Exec Queue DurableSystemCommand
owned_update id worker token now values = do
  lift (required worker "worker_id")
  row ← gets (λ s. first (is_owned id worker token now) s.rows)
  update_found (is_owned id worker token now) values row

abbrev pub extended : ℕ → ℕ → DurableSystemCommand → DurableSystemCommand
extended duration now r = record r {
  lease_expires_at = some (now + duration);
  last_heartbeat_at = some now;
  updated_at = now;
}

unfoldable pub heartbeat : ℕ → String → ℕ → ℕ → Option ℕ → Exec Queue DurableSystemCommand
heartbeat id worker token duration clock = do
  raise_if (duration == 0) (value_error "lease_duration must be positive")
  now ← lift (aware_utc clock)
  owned_update id worker token now (extended duration now)

abbrev pub finished : CommandStatus → Payload → ℕ → DurableSystemCommand → DurableSystemCommand
finished status result now r = record r {
  status = status;
  result = some result;
  completed_at = some now;
  updated_at = now;
}

unfoldable pub finish :
    ℕ → String → ℕ → CommandStatus → Payload → Option ℕ → Exec Queue DurableSystemCommand
finish id worker token status result clock = do
  now ← lift (aware_utc clock)
  owned_update id worker token now (finished status result now)

unfoldable pub acknowledge : ℕ → String → ℕ → Payload → Option ℕ → Exec Queue DurableSystemCommand
acknowledge id worker token result clock = finish id worker token succeeded result clock

unfoldable pub fail : ℕ → String → ℕ → Payload → Option ℕ → Exec Queue DurableSystemCommand
fail id worker token result clock = finish id worker token failed result clock

unfoldable pub get : ℕ → Queue → Option DurableSystemCommand
get id q = first (λ r. r.id == id) q.rows
