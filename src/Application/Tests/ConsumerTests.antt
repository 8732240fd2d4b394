-- ===== src/Application/Tests/ConsumerTests.antt =====
-- The consumer at a start command; the workload is the list of the generations that run.
use native.Mathlib.Decide.{ℕ_discrete}
use quantora_trade.Prelude.{
  ℕ, ◌+◌, String_discrete, true, false, some, none, List, [], ◌∷◌, ◌≡◌, refl, ◌⊎◌, Option,
}
use quantora_trade.Prelude.Text.{
  is_blank, is_trimmed, is_canonical, upper, strip, is_hex, text_length,
}
use quantora_trade.Prelude.Dict.{lookup, insert}
use quantora_trade.Prelude.Exec.{ok}
use quantora_trade.Domain.Enums.{TradingMode-discrete}
use quantora_trade.Domain.Libs.{text, texts}
use quantora_trade.Domain.Time.{DateTime-discrete}
use quantora_trade.Infrastructure.Commands.{
  CommandStatus-discrete, DurableSystemCommand, first, candidate, is_active, leased_to,
  update_where, is_owned, owned_update, enqueue, insert_row, new_command, claim, claim_row,
  heartbeat, finish, acknowledge, fail, get, check_request, required, satisfies_constraints,
  state_consistent,
}
use quantora_trade.Infrastructure.Commands.Rows.{Step, enqueues, step, run, empty}
use quantora_trade.Application.Worker.{
  check_config, check_command_id, transition, move, now, blocked, gate_if, persist, write, digest,
  PaperWorkerState-discrete, PaperWorkerConfig-discrete, WorkerStatus-discrete,
}
use quantora_trade.Application.Worker.Control.{control, check_command, fingerprint}
use quantora_trade.Application.Consumer.{
  ConsumerSetup, PaperWorkloadLifecycle, Host, Plant, run_once, process, execute, perform,
  start_workload, after_start, stop_workload, after_stop, config_of, result_of, extend_lease,
  conclude, new_id, workload_generation,
}
use quantora_trade.Application.Consumer as Consumer
use quantora_trade.Application.Consumer.Settles.{run_once-settles}
use quantora_trade.Application.Consumer.Workload.{execute-Touches, Touches}
use quantora_trade.Application.Tests.{setup, idle}

abbrev first_running : List ℕ → Option ℕ
first_running [] = none
first_running (g ∷ _) = some g

abbrev workload : PaperWorkloadLifecycle (List ℕ)
workload = record {
  start = λ config g ws. (ok tt, g ∷ ws);
  active_generation = λ ws. ok (first_running ws);
  stop = λ g ws. (ok tt, []);
}

abbrev consumer : ConsumerSetup (List ℕ)
consumer = record {
  worker = setup;
  defaults = record { account = "paper-1"; timeframes = "M15" ∷ []; polling_interval = 5 };
  worker_id = "w1";
  lease_duration = 50;
  workload = some workload;
  clock = λ i. some (30 + i);
  uuid4 = λ i. 70 + i;
  uuid_text = λ n. "u";
  uuid5 = λ s. 9;
}

abbrev steps : List Step
steps =
    enqueues
      (record {
        request_id = "req";
        idempotency_key = "k1";
        request_hash = "0123456789abcdef0123456789abcdef0123456789abcdef0123456789abcdef";
        action = "start";
        mode = "paper";
        payload = ("strategy_id", text "trend") ∷ ("symbols", texts ("EURUSD" ∷ [])) ∷ [];
        actor = "ops";
      })
      (some 10) 1 1
    ∷ []

abbrev host : Host (List ℕ)
host = record {
  queue = run steps empty;
  plant = record { store = idle; work = [] };
  clock_calls = 0;
  uuid_calls = 0;
}

unfoldable executable : Unit {0}
unfolding run step enqueue insert_row new_command claim claim_row update_where heartbeat
    owned_update is_owned finish acknowledge fail get first candidate leased_to check_request
    required satisfies_constraints state_consistent CommandStatus-discrete is_blank is_trimmed strip
    is_hex text_length String_discrete ℕ_discrete control check_command check_config
    check_command_id transition move now blocked gate_if persist write PaperWorkerState-discrete
    PaperWorkerConfig-discrete fingerprint digest lookup insert is_canonical upper DateTime-discrete
    TradingMode-discrete WorkerStatus-discrete run_once process execute perform start_workload
    after_start stop_workload after_stop config_of result_of extend_lease conclude Consumer.now
    new_id workload_generation
executable = tt

-- The workload runs under the generation of the command.
test_started : (run_once consumer host).1.plant.work ≡ 9 ∷ []
unfolding executable
test_started = refl

returned : (run_once consumer host).0 ≡ ok true
unfolding executable
returned = refl

run_once-settles_example :
    (c : DurableSystemCommand) × (row : DurableSystemCommand) × (candidate host.queue.rows ≡ some c)
    × (get c.id (run_once consumer host).1.queue ≡ some row)
    × (is_active row ≡ false)
run_once-settles_example = run_once-settles consumer steps host refl returned

abbrev command : DurableSystemCommand
command =
    new_command
      (record {
        request_id = "req";
        idempotency_key = "k1";
        request_hash = "";
        action = "start";
        mode = "paper";
        payload = ("strategy_id", text "trend") ∷ ("symbols", texts ("EURUSD" ∷ [])) ∷ [];
        actor = "ops";
      })
      1 10 1

execute-Touches_example :
    ((execute consumer command host.plant).1.work ≡ [])
    ⊎ ((command.mode ≡ "paper")
        × Touches consumer command host.plant (execute consumer command host.plant).1.work)
execute-Touches_example = execute-Touches consumer command host.plant
