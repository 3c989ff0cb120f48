-- ===== src/Examples/Mains.antt =====
-- Workers with the settings "ls,cat" and "rm", and with the command executor switched off.
use dist_command_exec.Prelude.{
  ◌<◌, occurs, ℕ, ◌≡◌, ◌≢◌, ◌↔◌, refl, String, true, false, Option, some, none, List, [], ◌∷◌,
  eq_iff, arith,
}
use dist_command_exec.Prelude.Int.{pos}
use dist_command_exec.Prelude.Map
use dist_command_exec.Types.{Bytes, Duration}
use dist_command_exec.Config.{CommandExecutorConfig, trim_space, trim_left, trim_right, is_space}
use dist_command_exec.Config.Texts.{codes}
use dist_command_exec.Executor.Registry as Registry
use dist_command_exec.Executor.Command.{
  CommandPayload, World, new_command_executor_with_limits, no_error,
}
use dist_command_exec.Executor.Command.Limits.{IsAllowed}
use dist_command_exec.Client.{command_payload}
use dist_command_exec.Master.Dispatcher.{ExecuteRequest}
use dist_command_exec.Master.Server.{new_server}
use dist_command_exec.Worker.Runner.{TaskRunner}
use dist_command_exec.Worker.Server as Worker
use dist_command_exec.Worker.Registration.{up, new_registration, registration_of}
use dist_command_exec.Worker.Process.{Process, new_process, timed_out, shut_down}
use dist_command_exec.Worker.Process.Ending.{shut_down_lem}
use dist_command_exec.Master.State.{Master}
use dist_command_exec.Examples.{blank, config}
use dist_command_exec.Worker.Server.{WorkerConfig, execute, get_worker_status, healthy}
use dist_command_exec.Mains.{registry_of, worker_of}
use dist_command_exec.Mains.Limits.{setting, IsSetting, registry_of_lem}

abbrev unmarshal : Bytes → Option CommandPayload
unmarshal b = some (command_payload "ls" [])

abbrev allowed : List String
allowed = "ls" ∷ "cat" ∷ []

abbrev blocked : List String
blocked = "rm" ∷ []

allowed-IsSetting : IsSetting allowed
unfolding codes trim_space trim_left trim_right is_space
allowed-IsSetting = (
  ((refl, (refl, tt)), ((refl, (refl, (refl, tt))), tt)),
  ((refl, λ e. absurd (ground (arith, e))), ((refl, λ e. absurd (ground (arith, e))), tt)),
)

blocked-IsSetting : IsSetting blocked
unfolding codes trim_space trim_left trim_right is_space
blocked-IsSetting = (((refl, (refl, tt)), tt), ((refl, λ e. absurd (ground (arith, e))), tt))

registry_of_lem_example :
    (Registry.validate
        (registry_of unmarshal (record {
          enabled = true;
          allowed_commands = setting allowed;
          blocked_commands = setting blocked;
        }))
        "command"
        []
      ≡ none)
    ↔ ((p : CommandPayload) × (unmarshal [] ≡ some p)
        × IsAllowed (new_command_executor_with_limits allowed blocked) p)
registry_of_lem_example =
    registry_of_lem unmarshal allowed blocked [] allowed-IsSetting blocked-IsSetting

abbrev off : CommandExecutorConfig
off = record { enabled = false; allowed_commands = []; blocked_commands = [] }

abbrev settings : WorkerConfig
settings = record {
  id = "w1";
  address = "10.0.0.1:50052";
  master_address = "master:50051";
  max_concurrent_tasks = pos 4;
}

abbrev request : ExecuteRequest
request = record {
  task_id = "job1";
  task_type = "command";
  payload = 1 ∷ [];
  timeout = none;
  metadata = Map.empty;
}

abbrev world : Duration → World
world d = record {
  environ = [];
  run = λ cmd. record { stdout = []; stderr = ""; error = no_error };
  ctx_err = none;
  range_env = λ env. [];
}

abbrev runner : TaskRunner
runner = record { max_tasks = pos 4; active_tasks = pos 0; running = Map.empty; in_flight = 0 }

has_id : request.task_id ≢ ""
has_id e = absurd (ground (arith, (eq_iff "job1" "").1 e))

has_type : request.task_type ≢ ""
has_type e = absurd (ground (arith, (eq_iff "command" "").1 e))

nothing_registered : Map.Visits (worker_of unmarshal settings off).executors []
unfolding worker_of registry_of Worker.new_server Registry.new_registry Map.empty Map.get
nothing_registered = record { once = tt; same = λ k. refl }

-- A registered worker that is stopped while a task runs.
abbrev busy : TaskRunner
busy = record {
  max_tasks = pos 4;
  active_tasks = pos 1;
  running = record { entries = ("job1", 3) ∷ [] };
  in_flight = 1;
}

abbrev master : Master
master = new_server (λ _. blank) (config 2) false

abbrev process : Process World
process =
    let w = new_process settings (registry_of unmarshal off) [] in
    record w {
      registration = record w.registration { client = true; registered = true };
      accepting = true;
    }

has_worker_id : process.registration.worker_id ≢ ""
unfolding new_process new_registration registration_of
has_worker_id e = absurd (ground (arith, (eq_iff "w1" "").1 e))

listed : (process.registration.client ≡ true) × (process.registration.registered ≡ true)
listed = (refl, refl)

table : Map.Visits busy.running (("job1", 3) ∷ [])
unfolding Map.get
table = Map.Visits-entries busy.running (refl, tt)

shut_down_lem_example :
    let (w', m', ended) = shut_down process up (timed_out busy (("job1", 3) ∷ []) table) master in
    (Map.get m'.registry.nodes process.registration.worker_id ≡ none)
    × (w'.registration.registered ≡ false)
    × (w'.accepting ≡ false)
    × ((id : String) (call : ℕ) → Map.get busy.running id ≡ some call → 0 < occurs call ended)
shut_down_lem_example =
    shut_down_lem process master busy (("job1", 3) ∷ []) table has_worker_id refl refl
