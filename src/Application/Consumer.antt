-- ===== src/Application/Consumer.antt =====
-- The command consumer: src/quantora_trade/application/paper_command_consumer.py, over the queue of
-- commands and the worker's control. The workload is an interface, whose implementation is a
-- parameter: each method a function of its state `W`. `clock i` and `uuid4 i` are what the queue's
-- clock and generator return to call number `i`, and the control's clock is its own. A payload is the
-- mapping that was stored: a value that is neither a text nor a list of texts is refused.
pub mod Settles
pub mod Workload
use Prim.Native.String.{◌++◌ as join}
use native.Mathlib.Decide.{ℕ_discrete}
use quantora_trade.Prelude.{
  ℕ, ◌+◌, String, String_discrete, Bool, true, false, Option, none, some, List, [], ◌∷◌, ◌==◌, ◌!=◌,
  nat_eq, string_eq, if◌then◌else◌,
}
use quantora_trade.Prelude.Exec.{
  Error, value_error, type_error, key_error, permission_error, runtime_error, assertion_error,
  idempotency_conflict, invalid_transition, concurrent_update, reconciliation_required,
  lease_ownership, integrity_error, index_error, Result, ok, err, Exec, pure, raise, gets, lift,
  modify, raise_if, ◌>>=◌, ◌>>◌,
}
use quantora_trade.Prelude.Dict.{lookup}
use quantora_trade.Domain.Enums.{paper}
use quantora_trade.Domain.Libs.{Payload, Rendered, text, texts, null}
use quantora_trade.Infrastructure.Commands.{
  DurableSystemCommand, Queue, claim, heartbeat, acknowledge, fail,
}
use quantora_trade.Application.Worker.{
  WorkerStatus, stopped, starting, running, stopping, degraded, halted, PaperWorkerConfig,
  PaperWorkerState, Store, WorkerSetup, check_config,
}
use quantora_trade.Application.Worker.Control.{
  start, mark_started, stop, mark_stopped, degrade, halt, control,
}

pub record PaperRuntimeDefaults : Type 0 where
  pub account : String
  pub timeframes : List String
  pub polling_interval : ℕ

-- PaperWorkloadLifecycle
pub record PaperWorkloadLifecycle (W : Type 0) : Type 0 where
  pub start : PaperWorkerConfig → ℕ → Exec W (Unit {0})
  pub active_generation : W → Result (Option ℕ)
  pub stop : ℕ → Exec W (Unit {0})

pub record ConsumerSetup (W : Type 0) : Type 0 where
  pub worker : WorkerSetup
  pub defaults : PaperRuntimeDefaults
  pub worker_id : String
  pub lease_duration : ℕ
  pub workload : Option (PaperWorkloadLifecycle W)
  pub clock : ℕ → Option ℕ
  pub uuid4 : ℕ → ℕ
  pub uuid_text : ℕ → String
  pub uuid5 : String → ℕ

-- What a command acts on: the worker's tables and the workload.
pub record Plant (W : Type 0) : Type 0 where
  pub store : Store
  pub work : W

pub record Host (W : Type 0) : Type 0 where
  pub queue : Queue
  pub plant : Plant W
  pub clock_calls : ℕ
  pub uuid_calls : ℕ

abbrev pub status_value : WorkerStatus → String
status_value stopped = "stopped"
status_value starting = "starting"
status_value running = "running"
status_value stopping = "stopping"
status_value degraded = "degraded"
status_value halted = "halted"

abbrev pub text_or_null : Option String → Rendered
text_or_null none = null
text_or_null (some s) = text s

-- `type(exc).__name__`
abbrev pub error_name : Error → String
error_name (value_error _) = "ValueError"
error_name (type_error _) = "TypeError"
error_name (key_error _) = "KeyError"
error_name (permission_error _) = "PermissionError"
error_name (runtime_error _) = "RuntimeError"
error_name (assertion_error _) = "AssertionError"
error_name (idempotency_conflict _) = "IdempotencyConflictError"
error_name (invalid_transition _) = "InvalidOrderTransition"
error_name (concurrent_update _) = "WorkerStateConflictError"
error_name (reconciliation_required _) = "PaperOrderReconciliationRequired"
error_name (lease_ownership _) = "LeaseOwnershipError"
error_name (integrity_error _) = "IntegrityError"
error_name (index_error _) = "IndexError"

module _ {S A : Type 0} where
  -- The body of a `try`: its outcome as a value.
  abbrev pub attempt : Exec S A → Exec S (Result A)
  attempt m s = let (r, t) = m s in (ok r, t)

module _ {W : Type 0} where
  abbrev pub on_store : {A : Type 0} → Exec Store A → Exec (Plant W) A
  on_store m p = let (r, s) = m p.store in (r, record p { store = s })

  abbrev pub on_work : {A : Type 0} → Exec W A → Exec (Plant W) A
  on_work m p = let (r, w) = m p.work in (r, record p { work = w })

  abbrev pub on_plant : {A : Type 0} → Exec (Plant W) A → Exec (Host W) A
  on_plant m h = let (r, p) = m h.plant in (r, record h { plant = p })

  abbrev pub on_queue : {A : Type 0} → Exec Queue A → Exec (Host W) A
  on_queue m h = let (r, q) = m h.queue in (r, record h { queue = q })

-- `str`-typed `strategy_id` and a list of texts as `symbols`
abbrev pub typed_config :
    PaperRuntimeDefaults → Option Rendered → Option Rendered → Result PaperWorkerConfig
typed_config d (some (text strategy)) (some (texts symbols)) = ok (record {
  account = d.account;
  strategy_id = strategy;
  symbols = symbols;
  timeframes = d.timeframes;
  polling_interval = d.polling_interval;
})
typed_config d _ _ = err (value_error "start payload is missing typed strategy_id or symbols")

abbrev pub checked_config : Result PaperWorkerConfig → Result PaperWorkerConfig
checked_config (err e) = err e
checked_config (ok c) = elim (check_config c) [ ok _ ↦ ok c | err e ↦ err e ]

unfoldable pub config_of : PaperRuntimeDefaults → Payload → Result PaperWorkerConfig
config_of d payload =
    checked_config (typed_config d (lookup "strategy_id" payload) (lookup "symbols" payload))

module _ {W : Type 0} (setup : ConsumerSetup W) where
  unfoldable pub workload_generation : ℕ → ℕ
  workload_generation id = setup.uuid5 (setup.uuid_text id)

  unfoldable pub result_of : PaperWorkerState → Payload
  result_of state =
      ("status", text (status_value state.status))
      ∷ ("config_hash", text_or_null state.config_hash)
      ∷ ("worker_id", text setup.worker_id)
      ∷ []

  abbrev pub command_id : ℕ → String → String
  command_id id suffix = join (setup.uuid_text id) suffix

  -- What follows the workload's own start, or its failure.
  unfoldable pub after_start : ℕ → Result (Unit {0}) → Exec (Plant W) PaperWorkerState
  after_start id (ok _) = on_store (control setup.worker (command_id id ":started") mark_started)
  after_start id (err e) =
      on_store
        (control setup.worker (command_id id ":workload-failed") (degrade "workload start failed"))
      >> raise e

  unfoldable pub start_workload :
      PaperWorkloadLifecycle W → DurableSystemCommand → Exec (Plant W) PaperWorkerState
  start_workload workload command = do
    config ← lift (config_of setup.defaults command.payload)
    on_store (control setup.worker (command_id command.id ":start") (start paper config))
    r ← attempt (on_work (workload.start config (workload_generation command.id)))
    after_start command.id r

  unfoldable pub after_stop : ℕ → Result (Unit {0}) → Exec (Plant W) PaperWorkerState
  after_stop id (ok _) = on_store (control setup.worker (command_id id ":stopped") mark_stopped)
  after_stop id (err e) =
      on_store (control setup.worker (command_id id ":stop-failed") (halt "workload stop failed"))
      >> raise e

  abbrev pub stop_active : PaperWorkloadLifecycle W → Result (Option ℕ) → Exec W (Unit {0})
  stop_active workload (err e) = raise e
  stop_active workload (ok none) = raise (runtime_error "paper workload has no active generation")
  stop_active workload (ok (some generation)) = workload.stop generation

  unfoldable pub stop_workload :
      PaperWorkloadLifecycle W → DurableSystemCommand → Exec (Plant W) PaperWorkerState
  stop_workload workload command = do
    on_store (control setup.worker (command_id command.id ":stop") stop)
    r ← attempt (on_work λ w. stop_active workload (workload.active_generation w) w)
    after_stop command.id r

  abbrev pub with_workload :
      Option (PaperWorkloadLifecycle W)
      → (PaperWorkloadLifecycle W → Exec (Plant W) PaperWorkerState)
      → Exec (Plant W) PaperWorkerState
  with_workload none f = raise (runtime_error "paper workload lifecycle is not configured")
  with_workload (some workload) f = f workload

  unfoldable pub perform : DurableSystemCommand → Exec (Plant W) PaperWorkerState
  perform command =
      if command.action == "start"
      then with_workload setup.workload (λ w. start_workload w command)
      else if command.action == "stop"
      then with_workload setup.workload (λ w. stop_workload w command)
      else raise (value_error "unsupported worker command action")

  unfoldable pub execute : DurableSystemCommand → Exec (Plant W) Payload
  execute command = do
    raise_if (command.mode != "paper") (permission_error "worker command must be PAPER mode")
    state ← perform command
    pure (result_of state)

  -- What the queue's clock and generator of UUIDs return to its next call.
  unfoldable pub now : Exec (Host W) (Option ℕ)
  now = do
    i ← gets (λ h. h.clock_calls)
    modify (λ h. record h { clock_calls = h.clock_calls + 1 })
    pure (setup.clock i)

  unfoldable pub new_id : Exec (Host W) ℕ
  new_id = do
    i ← gets (λ h. h.uuid_calls)
    modify (λ h. record h { uuid_calls = h.uuid_calls + 1 })
    pure (setup.uuid4 i)

  unfoldable pub extend_lease : ℕ → ℕ → Exec (Host W) DurableSystemCommand
  extend_lease id token = do
    t ← now
    on_queue (heartbeat id setup.worker_id token setup.lease_duration t)

  -- `except Exception`, and the end of the command.
  unfoldable pub conclude : ℕ → ℕ → Result Payload → Exec (Host W) Bool
  conclude id token (ok result) = do
    t ← now
    on_queue (acknowledge id setup.worker_id token result t)
    pure true
  conclude id token (err e) = do
    t ← now
    on_queue (
        fail id setup.worker_id token
          (("code", text "COMMAND_REJECTED") ∷ ("error_type", text (error_name e)) ∷ []) t)
    pure true

  unfoldable pub process : DurableSystemCommand → Option ℕ → Exec (Host W) Bool
  process command none = raise (runtime_error "claimed command is missing its fencing token")
  process command (some token) = do
    r ← attempt (extend_lease command.id token >> on_plant (execute command))
    conclude command.id token r

  abbrev pub process_claimed : Option DurableSystemCommand → Exec (Host W) Bool
  process_claimed none = pure false
  process_claimed (some command) = process command command.lease_token

  unfoldable pub run_once : Exec (Host W) Bool
  run_once = do
    t ← now
    token ← new_id
    command ← on_queue (claim setup.worker_id setup.lease_duration t token)
    process_claimed command
