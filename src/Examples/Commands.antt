-- ===== src/Examples/Commands.antt =====
-- The command `ls` from a client to a worker.
use dist_command_exec.Prelude.{
  str_eq, eq_iff, ◌&&◌, if◌then◌else◌, ◌≡◌, ◌≢◌, arith, refl, String, false, Option, none, some,
  List, [], ◌∷◌,
}
use dist_command_exec.Prelude.Int.{pos}
use dist_command_exec.Prelude.Map
use dist_command_exec.Types.{Bytes, Duration}
use dist_command_exec.Executor.Command.{
  CommandPayload, CommandExecutor, World, no_error, as_executor,
}
use dist_command_exec.Master.Dispatcher.{ExecuteResponse, request}
use dist_command_exec.Master.Server.{ok, new_server, submit, accept}
use dist_command_exec.Master.Scheduler.{enqueue, new_scheduler}
use dist_command_exec.Client.{run_command_with_timeout, command_payload}
use dist_command_exec.Client.Hosted.{Hosted, hosted}
use dist_command_exec.Client.Journey.{Tells, run_command_lem}
use dist_command_exec.Worker.Runner.{at_capacity}
use dist_command_exec.Worker.Server.{Server, execute}
use dist_command_exec.Examples.{blank, config, node}

abbrev ls : CommandPayload
ls = command_payload "ls" []

-- A codec for this one payload.
abbrev unmarshal : Bytes → Option CommandPayload
unmarshal [] = none
unmarshal (c ∷ rest) = some ls

abbrev marshal_fields :
    String → List String → List (String × String) → String → String → Option Bytes
marshal_fields command [] [] dir stdin =
    if str_eq command "ls" && str_eq dir "" && str_eq stdin "" then some (108 ∷ 115 ∷ []) else none
marshal_fields command args env dir stdin = none

abbrev marshal : CommandPayload → Option Bytes
marshal p = marshal_fields p.command p.args p.env.entries p.working_dir p.stdin

reads_fields :
    (command : String) (args : List String) (env : List (String × String)) (dir stdin : String)
    (b : Bytes)
    → marshal_fields command args env dir stdin ≡ some b
    → unmarshal b
      ≡ some (record {
        command = command;
        args = args;
        env = record { entries = env };
        working_dir = dir;
        stdin = stdin;
      })
unfolding Map.empty
reads_fields command [] [] dir stdin [] h = absurd (ground (arith, h))
reads_fields command [] [] dir stdin (x ∷ b) h =
    ground (arith, h, eq_iff command "ls", eq_iff dir "", eq_iff stdin "")
reads_fields command [] (e ∷ env) dir stdin b h = absurd (ground (arith, h))
reads_fields command (a ∷ args) [] dir stdin b h = absurd (ground (arith, h))
reads_fields command (a ∷ args) (e ∷ env) dir stdin b h = absurd (ground (arith, h))

-- Every process prints "hi" and succeeds.
abbrev world : Duration → World
world d = record {
  environ = [];
  run = λ cmd. record { stdout = 104 ∷ 105 ∷ []; stderr = ""; error = no_error };
  ctx_err = none;
  range_env = λ env. [];
}

abbrev limits : CommandExecutor
limits = record { allowed_commands = "ls" ∷ []; blocked_commands = "rm" ∷ [] }

abbrev server : Server World
server = record {
  id = "w1";
  runner = record { max_tasks = pos 4; active_tasks = pos 0; running = Map.empty; in_flight = 0 };
  executors = Map.put Map.empty "command" (as_executor unmarshal limits);
}

abbrev host : Hosted
host = record {
  master = new_server (λ _. blank) (config 2) false;
  ids = λ n. "job1";
  fresh = 0;
  now = 5;
}

abbrev sent : Hosted × Option String
sent = run_command_with_timeout hosted marshal host "ls" (pos 1000) []

accepted : sent.1 ≡ some "job1"
unfolding run_command_with_timeout Map.empty submit accept enqueue Map.get new_server new_scheduler
accepted = refl

abbrev job : String
job = "job1"

named : job ≢ ""
named e = absurd (ground (arith, (eq_iff "job1" "").1 e))

free : at_capacity server.runner ≡ false
unfolding at_capacity
free = refl

run_command_lem_example :
    (resp : ExecuteResponse) × ((execute server
        (request (sent.0.master.scheduler.heap 0))
        0
        world
        (pos 7)).1
      ≡ ok resp)
    × (resp.task_id ≡ "job1")
    × Tells marshal unmarshal
        (sent.0.master.scheduler.heap 0)
        (node "w1" (pos 4) (pos 0) 1)
        resp
        9
        (record { stdout = 104 ∷ 105 ∷ []; stderr = ""; error = no_error })
run_command_lem_example =
    run_command_lem marshal unmarshal host "ls" "job1" (pos 1000) [] limits server 0 world (pos 7)
      (node "w1" (pos 4) (pos 0) 1) 9
      (λ p b h. reads_fields p.command p.args p.env.entries p.working_dir p.stdin b h) refl accepted
      named (Map.get-put_self Map.empty "command" (as_executor unmarshal limits)) free
