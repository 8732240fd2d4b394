-- ===== src/Application/Tests.antt =====
-- The worker's theorems at concrete inputs.
mod ConsumerTests
mod LeaseTests
use native.Mathlib.Decide.{ℕ_discrete}
use quantora_trade.Prelude.{
  ℕ, ◌+◌, String, String_discrete, true, false, some, none, List, [], ◌∷◌, ◌≡◌, refl,
}
use quantora_trade.Prelude.Text.{is_blank, is_trimmed, is_canonical, upper}
use quantora_trade.Prelude.Dict.{lookup, insert}
use quantora_trade.Prelude.Exec.{ok}
use quantora_trade.Domain.Enums.{paper, TradingMode-discrete}
use quantora_trade.Domain.Time.{DateTime, DateTime-discrete}
use quantora_trade.Application.Worker.{
  Store, WorkerSetup, PaperWorkerState, PaperWorkerConfig, stopped, starting, halted, digest,
  check_config, check_command_id, transition, move, now, blocked, gate_if, persist, write,
  PaperWorkerState-discrete, WorkerStatus-discrete,
}
use quantora_trade.Application.Worker.Control.{
  Command, start, mark_started, halt, stop, control, run, check_command, fingerprint,
  allows_new_entries,
}
use quantora_trade.Application.Worker.Log.{Steps, control-Steps, control_twice, halted_allows_none}

abbrev at_time : ℕ → DateTime
at_time n = record { utc = true; instant = n }

abbrev setup : WorkerSetup
setup = record {
  libs = record { json_dumps = λ p. "json"; sha256 = λ s. "digest"; uuid5 = λ s. 0 };
  clock = λ n. at_time (100 + n);
  gate = λ n. ok false;
}

abbrev config : PaperWorkerConfig
config = record {
  account = "paper-1";
  strategy_id = "trend";
  symbols = "EURUSD" ∷ [];
  timeframes = "M15" ∷ [];
  polling_interval = 5;
}

abbrev idle : Store
idle = record {
  state = record {
    status = stopped;
    changed_at = at_time 90;
    config = none;
    config_hash = none;
    reason = none;
    revision = 0;
  };
  commands = [];
  clock_calls = 0;
  gate_calls = 0;
}

abbrev started : PaperWorkerState
started = record {
  status = starting;
  changed_at = at_time 100;
  config = some config;
  config_hash = some "digest";
  reason = none;
  revision = 1;
}

unfoldable executable : Unit {0}
unfolding control check_command check_config check_command_id transition move now blocked gate_if
    persist write PaperWorkerState-discrete run fingerprint digest lookup insert is_blank is_trimmed
    is_canonical upper String_discrete ℕ_discrete DateTime-discrete TradingMode-discrete
    WorkerStatus-discrete
executable = tt

start_returns : (control setup "cmd-1" (start paper config) idle).0 ≡ ok started
unfolding executable
start_returns = refl

abbrev others : List (String × Command)
others = ("cmd-2", mark_started) ∷ ("cmd-3", halt "drill") ∷ ("cmd-2", stop) ∷ []

control_twice_example :
    control setup "cmd-1"
      (start paper config)
      (run setup others (control setup "cmd-1" (start paper config) idle).1)
    ≡ (ok started, run setup others (control setup "cmd-1" (start paper config) idle).1)
control_twice_example =
    control_twice setup "cmd-1" (start paper config) idle started others start_returns

control-Steps_example :
    Steps setup "cmd-1"
      (start paper config)
      idle
      (control setup "cmd-1" (start paper config) idle).1
control-Steps_example = control-Steps setup "cmd-1" (start paper config) idle

abbrev halted_store : Store
halted_store = record idle { state = record started { status = halted } }

halted_allows_none_example :
    ((run setup others halted_store).state.status ≡ halted)
    × ((allows_new_entries setup (run setup others halted_store)).0 ≡ ok false)
halted_allows_none_example =
    halted_allows_none setup others halted_store (refl, (refl, (refl, tt))) refl
