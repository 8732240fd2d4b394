-- ===== src/Application/Worker/Control.antt =====
-- The commands of PaperWorkerControl.
use Prim.Native.String.{◌++◌ as join}
use quantora_trade.Prelude.{
  String, Bool, true, false, not, Option, none, some, List, [], ◌∷◌, ◌!=◌, ◌==◌,
}
use quantora_trade.Prelude.Text.{is_blank}
use quantora_trade.Prelude.Exec.{
  value_error, permission_error, Check, check, ◌⨾◌, Exec, lift, gets, pure, ◌>>=◌, ◌>>◌,
}
use quantora_trade.Domain.Enums.{TradingMode, paper, trading_mode_eq}
use quantora_trade.Risk.Approval.{mode_value}
use quantora_trade.Application.Worker.{
  WorkerStatus, stopped, starting, running, stopping, degraded, halted, PaperWorkerConfig,
  PaperWorkerState, Store, WorkerSetup, transition, blocked, digest, check_config, check_command_id,
  worker_status_eq,
}

pub data Command : Type 0 where
  start : TradingMode → PaperWorkerConfig → Command
  mark_started stop mark_stopped : Command
  degrade halt recover : String → Command

-- The statuses that a command may find, and the one that it leaves.
abbrev pub allowed : Command → WorkerStatus → Bool
allowed (start _ _) stopped = true
allowed mark_started starting = true
allowed stop starting = true
allowed stop running = true
allowed stop degraded = true
allowed mark_stopped stopping = true
allowed (degrade _) starting = true
allowed (degrade _) running = true
allowed (halt _) halted = false
allowed (halt _) _ = true
allowed (recover _) degraded = true
allowed (recover _) halted = true
allowed _ _ = false

abbrev pub target : Command → WorkerStatus
target (start _ _) = starting
target mark_started = running
target stop = stopping
target mark_stopped = stopped
target (degrade _) = degraded
target (halt _) = halted
target (recover _) = stopped

abbrev pub config_of : Command → Option PaperWorkerConfig
config_of (start _ c) = some c
config_of _ = none

abbrev pub reason_of : Command → Option String
reason_of (degrade r) = some r
reason_of (halt r) = some r
reason_of (recover r) = some r
reason_of _ = none

abbrev pub is_start : Command → Bool
is_start (start _ _) = true
is_start _ = false

-- What is checked before the transition: the values of a start are checked when they are built.
unfoldable pub check_command : String → Command → Check
check_command id (start mode config) =
    check_config config
    ⨾ check_command_id id
    ⨾ check (mode != paper) (permission_error "paper worker accepts PAPER mode only")
check_command id (degrade r) = check (is_blank r) (value_error "degraded reason must not be blank")
check_command id (halt r) = check (is_blank r) (value_error "halt reason must not be blank")
check_command id (recover r) = check (is_blank r) (value_error "recovery reason must not be blank")
check_command id _ = check false (value_error "")

module _ (setup : WorkerSetup) where
  unfoldable pub fingerprint : Command → String
  fingerprint (start mode config) =
      join (join (join "start:" (mode_value mode)) ":") (digest setup.libs config)
  fingerprint mark_started = "started"
  fingerprint stop = "stop"
  fingerprint mark_stopped = "stopped"
  fingerprint (degrade r) = join "degrade:" r
  fingerprint (halt r) = join "halt:" r
  fingerprint (recover r) = join "recover:" r

  -- The public method of the command.
  unfoldable pub control : String → Command → Exec Store PaperWorkerState
  control id c = do
    lift (check_command id c)
    transition setup id (fingerprint c) (allowed c) (target c) (config_of c) (reason_of c)
        (is_start c)

  unfoldable pub allows_new_entries : Exec Store Bool
  allows_new_entries = do
    state ← gets (λ s. s.state)
    (elim (state.status == running) [
      | true ↦ blocked setup >>= (λ b. pure (not b))
      | false ↦ pure false
    ])

  -- The state after some commands, whatever each returns or raises.
  unfoldable pub run : List (String × Command) → Store → Store
  run [] s = s
  run ((id, c) ∷ cs) s = run cs (control id c s).1
