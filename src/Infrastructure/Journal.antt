-- ===== src/Infrastructure/Journal.antt =====
-- The submission journal: PostgresSubmissionJournal of src/quantora_trade/infrastructure/database/
-- submission_repository.py. The rows of its table are keyed by idempotency key; `owners` are the
-- claims that this instance holds. `clock i` is reading number `i` of its clock and `uuid4 i` its
-- new UUID number `i`; datetimes are UTC, as `_utc` makes them. A method's transaction is one step. A guard
-- reads the clock first here, where the source may skip the reading after a failed test.
pub mod Rows
use native.Mathlib.Decide.{ℕ_discrete}
use quantora_trade.Prelude.{
  ℕ, ◌+◌, String, String_discrete, Bool, true, false, not, ◌&&◌, ◌||◌, Option, none, some, List, [],
  ◌∷◌, ◌==◌, ◌!=◌, Eq, ltb, leb, nat_eq, string_eq, if◌then◌else◌,
}
use quantora_trade.Prelude.Text.{is_blank, is_hex, text_length}
use quantora_trade.Prelude.Dict.{Dict, lookup, insert, remove}
use quantora_trade.Prelude.Exec.{
  value_error, runtime_error, assertion_error, Result, ok, err, Exec, pure, raise, gets, lift,
  modify, raise_if, or_raise, ◌>>=◌, ◌>>◌,
}

-- The `state` column.
pub data RowState : Type 0 where
  row_in_flight row_completed row_unknown : RowState

unfoldable pub RowState-discrete : Discrete RowState
RowState-discrete = hlevel

instance abbrev pub row_state_eq : Eq RowState
row_state_eq = record { dec = RowState-discrete }

pub record JournalRow : Type 0 where
  pub request_hash : String
  pub claim_owner : ℕ
  pub lease_expires_at : ℕ
  pub fencing_token : ℕ
  pub state : RowState
  pub external_order_id : Option String
  pub recovery_metadata : Dict String String
  pub updated_at : ℕ

-- A claim, with the broker's result when it is completed.
pub data SubmissionClaim : Type 0 where
  acquired in_flight unknown : SubmissionClaim
  completed : String → SubmissionClaim

pub record Journal : Type 0 where
  pub rows : Dict String JournalRow
  pub owners : Dict String ℕ
  pub clock_calls : ℕ
  pub uuid_calls : ℕ

abbrev pub empty_metadata : Dict String String → Bool
empty_metadata [] = true
empty_metadata (_ ∷ _) = false

-- The clock, the generator of UUIDs and the duration of a lease.
pub record JournalSetup : Type 0 where
  pub clock : ℕ → ℕ
  pub uuid4 : ℕ → ℕ
  pub lease_duration : ℕ

unfoldable pub owned : String → Exec Journal ℕ
owned key = do
  owner ← gets (λ j. lookup key j.owners)
  or_raise owner (value_error "submission claim is not owned by this journal instance")

unfoldable pub locked : String → Exec Journal JournalRow
locked key = do
  row ← gets (λ j. lookup key j.rows)
  or_raise row (value_error "submission claim does not exist")

abbrev pub owner_is : ℕ → Option ℕ → Bool
owner_is owner none = false
owner_is owner (some o) = o == owner

unfoldable pub forget : String → ℕ → Exec Journal (Unit {0})
forget key owner = modify (λ j. record j {
  owners = if owner_is owner (lookup key j.owners) then remove key j.owners else j.owners;
})

unfoldable pub put_row : String → JournalRow → Exec Journal (Unit {0})
put_row key row = modify (λ j. record j { rows = insert key row j.rows })

-- What a second claim of a key returns.
unfoldable pub claim_state : JournalRow → Result SubmissionClaim
claim_state row = elim row.state [
  | row_in_flight ↦ ok in_flight
  | row_unknown ↦ ok unknown
  | row_completed ↦ elim row.external_order_id [
    | some id ↦ ok (completed id)
    | none ↦ err (assertion_error "")
  ]
]

-- Whether the caller may not write: the claim is settled, another's, or past its lease.
abbrev pub is_fenced : JournalRow → ℕ → ℕ → Bool
is_fenced row owner t =
    row.state != row_in_flight || row.claim_owner != owner || leb row.lease_expires_at t

module _ (setup : JournalSetup) where
  unfoldable pub now : Exec Journal ℕ
  now = do
    i ← gets (λ j. j.clock_calls)
    modify (λ j. record j { clock_calls = j.clock_calls + 1 })
    pure (setup.clock i)

  unfoldable pub new_owner : Exec Journal ℕ
  new_owner = do
    i ← gets (λ j. j.uuid_calls)
    modify (λ j. record j { uuid_calls = j.uuid_calls + 1 })
    pure (setup.uuid4 i)

  abbrev pub new_row : String → ℕ → ℕ → JournalRow
  new_row request_hash owner t = record {
    request_hash = request_hash;
    claim_owner = owner;
    lease_expires_at = t + setup.lease_duration;
    fencing_token = 1;
    state = row_in_flight;
    external_order_id = none;
    recovery_metadata = [];
    updated_at = t;
  }

  -- The row is inserted unless the key has one.
  unfoldable pub acquire : String → String → ℕ → ℕ → Exec Journal SubmissionClaim
  acquire key request_hash owner t = do
    put_row key (new_row request_hash owner t)
    modify (λ j. record j { owners = insert key owner j.owners })
    pure acquired

  unfoldable pub claim_row : JournalRow → String → Exec Journal SubmissionClaim
  claim_row row request_hash = do
    raise_if (row.request_hash != request_hash)
        (value_error "idempotency key is already bound to another request")
    lift (claim_state row)

  unfoldable pub claim : String → String → Exec Journal SubmissionClaim
  claim key request_hash = do
    raise_if (is_blank key || text_length request_hash != 64 || not (is_hex request_hash))
        (value_error "valid idempotency key and request hash are required")
    t ← now
    owner ← new_owner
    row ← gets (λ j. lookup key j.rows)
    elim row [
      | some current ↦ claim_row current request_hash
      | none ↦ acquire key request_hash owner t
    ]

  unfoldable pub complete : String → String → Exec Journal (Unit {0})
  complete key external_order_id = do
    owner ← owned key
    row ← locked key
    t ← now
    raise_if (is_fenced row owner t)
        (value_error "only the claim owner can complete an in-flight claim")
    raise_if (is_blank external_order_id) (value_error "external order id must not be empty")
    t' ← now
    put_row key (record row {
      state = row_completed;
      external_order_id = some external_order_id;
      updated_at = t';
    })
    forget key owner

  unfoldable pub mark_unknown : String → Dict String String → Exec Journal (Unit {0})
  mark_unknown key metadata = do
    raise_if (empty_metadata metadata) (value_error "recovery metadata is required")
    owner ← owned key
    row ← locked key
    t ← now
    raise_if (is_fenced row owner t)
        (value_error "only the claim owner can mark an in-flight claim unknown")
    t' ← now
    put_row key (record row { state = row_unknown; recovery_metadata = metadata; updated_at = t' })
    forget key owner

  unfoldable pub delete_claim : String → Option JournalRow → ℕ → ℕ → Exec Journal (Unit {0})
  delete_claim key none owner t =
      raise (value_error "only the claim owner can abandon an in-flight claim")
  delete_claim key (some row) owner t =
      raise_if (is_fenced row owner t)
        (value_error "only the claim owner can abandon an in-flight claim")
      >> modify (λ j. record j { rows = remove key j.rows })

  unfoldable pub abandon : String → Exec Journal (Unit {0})
  abandon key = do
    owner ← owned key
    t ← now
    row ← gets (λ j. lookup key j.rows)
    delete_claim key row owner t
    forget key owner

  unfoldable pub reconcile_completed :
      String → String → Dict String String → Exec Journal (Unit {0})
  reconcile_completed key external_order_id metadata = do
    raise_if (empty_metadata metadata || is_blank external_order_id)
        (value_error "result and recovery metadata are required")
    row ← locked key
    raise_if (row.state != row_unknown) (value_error "only an unknown claim can be reconciled")
    t ← now
    put_row key (record row {
      state = row_completed;
      external_order_id = some external_order_id;
      recovery_metadata = metadata;
      updated_at = t;
    })

  -- The claim is fenced, then settled by what the broker is found to have.
  unfoldable pub settle :
      String → Result (Option String) → Dict String String → Exec Journal SubmissionClaim
  settle key (err e) metadata = raise e
  settle key (ok none) metadata = mark_unknown key metadata >> pure unknown
  settle key (ok (some id)) metadata = complete key id >> pure (completed id)

  unfoldable pub take_over :
      String
      → JournalRow
      → ℕ
      → ℕ
      → Result (Option String)
      → Dict String String
      → Exec Journal SubmissionClaim
  take_over key row owner t found metadata = do
    put_row key (record row {
      claim_owner = owner;
      fencing_token = row.fencing_token + 1;
      lease_expires_at = t + setup.lease_duration;
      updated_at = t;
    })
    modify (λ j. record j { owners = insert key owner j.owners })
    settle key found metadata

  -- `found` is what the broker's lookup returns or raises.
  unfoldable pub recover_expired :
      String → String → Result (Option String) → Dict String String → Exec Journal SubmissionClaim
  recover_expired key request_hash found metadata = do
    raise_if (empty_metadata metadata) (value_error "recovery metadata is required")
    t ← now
    owner ← new_owner
    row ← locked key
    raise_if (row.request_hash != request_hash)
        (value_error "idempotency key is already bound to another request")
    (if row.state != row_in_flight || ltb t row.lease_expires_at
        then lift (claim_state row)
        else take_over key row owner t found metadata)
