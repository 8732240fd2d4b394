-- ===== src/Application/Worker.antt =====
-- The PAPER worker's control: src/quantora_trade/application/paper_worker.py, over the transitions
-- that src/quantora_trade/infrastructure/database/worker_repository.py stores. The repository holds
-- the one state row and the commands; no other process writes between a method's transactions. `clock i` and `gate i` are the clock's reading and the entry
-- gate's answer to call number `i`; a gate that raises is an error.
pub mod Control
pub mod Log
pub mod Lease
use native.Mathlib.Decide.{ℕ_discrete}
use Prim.Native.String.{◌++◌ as join}
use quantora_trade.Prelude.{
  ℕ, ◌+◌, String, String_discrete, Bool, true, false, not, ◌&&◌, ◌||◌, Option, none, some, List, [],
  ◌∷◌, any, length, ◌==◌, ◌!=◌, Eq, nat_eq, string_eq, if◌then◌else◌,
}
use quantora_trade.Prelude.Text.{is_blank, is_trimmed, is_canonical}
use quantora_trade.Prelude.Dict.{Dict, lookup, insert}
use quantora_trade.Prelude.Exec.{
  value_error, permission_error, concurrent_update, Check, check, ◌⨾◌, Result, ok, err, Exec, pure,
  raise, gets, lift, modify, raise_if, ◌>>=◌, ◌>>◌,
}
use quantora_trade.Domain.Enums.{TradingMode, paper, trading_mode_eq}
use quantora_trade.Domain.Time.{DateTime, DateTime-discrete, require_utc}
use quantora_trade.Domain.Libs.{Libs, Payload, text, texts, decimal}
use quantora_trade.Risk.Approval.{mode_value}

pub data WorkerStatus : Type 0 where
  stopped starting running stopping degraded halted : WorkerStatus

unfoldable pub WorkerStatus-discrete : Discrete WorkerStatus
WorkerStatus-discrete = hlevel

instance abbrev pub worker_status_eq : Eq WorkerStatus
worker_status_eq = record { dec = WorkerStatus-discrete }

-- The interval counts units.
pub record PaperWorkerConfig : Type 0 where
  pub account : String
  pub strategy_id : String
  pub symbols : List String
  pub timeframes : List String
  pub polling_interval : ℕ

abbrev pub has_repeat : List String → Bool
has_repeat [] = false
has_repeat (s ∷ ss) = any (λ t. s == t) ss || has_repeat ss

abbrev pub is_nil : List String → Bool
is_nil [] = true
is_nil (_ ∷ _) = false

abbrev pub check_name : String → String → Check
check_name s message = check (is_blank s || not (is_trimmed s)) (value_error message)

unfoldable pub check_config : PaperWorkerConfig → Check
check_config c =
    check_name c.account "account must be non-empty and trimmed"
    ⨾ check_name c.strategy_id "strategy_id must be non-empty and trimmed"
    ⨾ check (is_nil c.symbols || any (λ s. s == "" || not (is_canonical s)) c.symbols)
        (value_error "symbols must be non-empty canonical uppercase values")
    ⨾ check (has_repeat c.symbols) (value_error "symbols must be unique")
    ⨾ check (is_nil c.timeframes || any (λ s. is_blank s || not (is_canonical s)) c.timeframes)
        (value_error "timeframes must be non-empty canonical uppercase values")
    ⨾ check (has_repeat c.timeframes) (value_error "timeframes must be unique")
    ⨾ check (c.polling_interval == 0)
        (value_error "polling_interval_seconds must be finite and greater than zero")

abbrev pub config_payload : PaperWorkerConfig → Payload
config_payload c =
    ("account", text c.account)
    ∷ ("polling_interval_seconds", decimal c.polling_interval)
    ∷ ("strategy_id", text c.strategy_id)
    ∷ ("symbols", texts c.symbols)
    ∷ ("timeframes", texts c.timeframes)
    ∷ []

unfoldable pub digest : Libs → PaperWorkerConfig → String
digest libs c = libs.sha256 (libs.json_dumps (config_payload c))

pub record PaperWorkerState : Type 0 where
  pub status : WorkerStatus
  pub changed_at : DateTime
  pub config : Option PaperWorkerConfig
  pub config_hash : Option String
  pub reason : Option String
  pub revision : ℕ

ruleset worker_parts = (ℕ_discrete, String_discrete, WorkerStatus-discrete, DateTime-discrete)

unfoldable pub PaperWorkerConfig-discrete : Discrete PaperWorkerConfig
PaperWorkerConfig-discrete = hlevel worker_parts

unfoldable pub PaperWorkerState-discrete : Discrete PaperWorkerState
PaperWorkerState-discrete = hlevel (worker_parts, PaperWorkerConfig-discrete)

instance abbrev pub worker_state_eq : Eq PaperWorkerState
worker_state_eq = record { dec = PaperWorkerState-discrete }

pub record StoredWorkerCommand : Type 0 where
  pub fingerprint : String
  pub result : PaperWorkerState

-- The tables, and the calls of the clock and of the gate.
pub record Store : Type 0 where
  pub state : PaperWorkerState
  pub commands : Dict String StoredWorkerCommand
  pub clock_calls : ℕ
  pub gate_calls : ℕ

pub record WorkerSetup : Type 0 where
  pub libs : Libs
  pub clock : ℕ → DateTime
  pub gate : ℕ → Result Bool

unfoldable pub check_command_id : String → Check
check_command_id id =
    check (is_blank id || not (is_trimmed id))
      (value_error "command_id must be non-empty and trimmed")

-- `_blocked` of what the gate returns or raises.
abbrev pub fails_closed : Result Bool → Bool
fails_closed (ok b) = b
fails_closed (err _) = true

abbrev pub snapshot : Option PaperWorkerConfig → Option PaperWorkerConfig → Option PaperWorkerConfig
snapshot none kept = kept
snapshot (some c) kept = some c

abbrev pub digest_of : Libs → Option PaperWorkerConfig → Option String
digest_of libs none = none
digest_of libs (some c) = some (digest libs c)

module _ (setup : WorkerSetup) where
  unfoldable pub now : Exec Store DateTime
  now = do
    i ← gets (λ s. s.clock_calls)
    modify (λ s. record s { clock_calls = s.clock_calls + 1 })
    pure (setup.clock i)

  unfoldable pub blocked : Exec Store Bool
  blocked = do
    i ← gets (λ s. s.gate_calls)
    modify (λ s. record s { gate_calls = s.gate_calls + 1 })
    pure (fails_closed (setup.gate i))

  unfoldable pub gate_if : Bool → Exec Store Bool
  gate_if true = blocked
  gate_if false = pure false

  abbrev pub next_state :
      WorkerStatus
      → Option PaperWorkerConfig
      → Option String
      → DateTime
      → PaperWorkerState
      → PaperWorkerState
  next_state target config reason t current = record {
    status = target;
    changed_at = t;
    config = snapshot config current.config;
    config_hash = digest_of setup.libs (snapshot config current.config);
    reason = reason;
    revision = current.revision + 1;
  }

  unfoldable pub write : String → StoredWorkerCommand → Exec Store PaperWorkerState
  write id command = do
    modify (λ s. record s { state = command.result; commands = insert id command s.commands })
    pure command.result

  unfoldable pub persist :
      String → PaperWorkerState → StoredWorkerCommand → Exec Store PaperWorkerState
  persist id expected command = do
    replay ← gets (λ s. lookup id s.commands)
    elim replay [
      | some stored ↦
          if stored.fingerprint != command.fingerprint
          then raise (value_error "command_id reused for a different command")
          else pure stored.result
      | none ↦ gets (λ s. s.state != expected) >>= (λ changed.
          raise_if changed (concurrent_update "optimistic worker state conflict")
          >> write id command)
    ]

  -- `_transition` for a command that was not seen before.
  unfoldable pub move :
      String
      → String
      → (WorkerStatus → Bool)
      → WorkerStatus
      → Option PaperWorkerConfig
      → Option String
      → Bool
      → Exec Store PaperWorkerState
  move id fingerprint allowed target config reason gated = do
    is_blocked ← gate_if gated
    raise_if is_blocked (permission_error "kill switch blocks paper-worker start")
    current ← gets (λ s. s.state)
    raise_if (not (allowed current.status)) (value_error "illegal worker transition")
    t ← now
    lift (require_utc t "changed_at must be timezone-aware UTC")
    persist id current
        (record { fingerprint = fingerprint; result = next_state target config reason t current })

  unfoldable pub transition :
      String
      → String
      → (WorkerStatus → Bool)
      → WorkerStatus
      → Option PaperWorkerConfig
      → Option String
      → Bool
      → Exec Store PaperWorkerState
  transition id fingerprint allowed target config reason gated = do
    lift (check_command_id id)
    replay ← gets (λ s. lookup id s.commands)
    elim replay [
      | some command ↦
          if command.fingerprint != fingerprint
          then raise (value_error "command_id reused for a different command")
          else pure command.result
      | none ↦ move id fingerprint allowed target config reason gated
    ]
