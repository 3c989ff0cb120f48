-- ===== src/Examples/Clients.antt =====
-- A worker that the master has lost, a client that waits, a resource of the operator, and a list of
-- commands.
use dist_command_exec.Prelude.{
  ℕ, ◌+◌, ◌≡◌, ◌≢◌, ◌⊎◌, ◌↔◌, arith, refl, String, eq_iff, true, false, Bool, none, some, [], ◌∷◌,
  map, ◌==◌, if◌then◌else◌,
}
use dist_command_exec.Prelude.Int.{pos}
use dist_command_exec.Prelude.Map
use dist_command_exec.Master.State.{Master}
use dist_command_exec.Master.Server.{new_server, GetStatusResponse, completed, running}
use dist_command_exec.Worker.Registration.{
  Registration, up, request_lost, Turn, beat, serve, register,
}
use dist_command_exec.Worker.Registration.Known.{IsKnown, beat_lem, serve_unregistered, alone}
use dist_command_exec.Client.{MasterClient, ticked, finished, job_status_of, wait_for_completion}
use dist_command_exec.Client.Waiting.{Stops, seen, wait_for_completion_lem}
use dist_command_exec.Operator.{DistributedJob, Spec, Update, Value, check_job_status}
use dist_command_exec.Operator.Phases.{IsVerdict, check_job_status_lem}
use dist_command_exec.Config.{Text, split_csv, split, trim_space, trim_right, trim_left, is_space}
use dist_command_exec.Examples.{blank, config}

abbrev master : Master
master = new_server (λ _. blank) (config 2) false

-- A worker that is registered where the master does not know it.
abbrev registration : Bool → Registration
registration registered = record {
  worker_id = "w1";
  address = "10.0.0.1:50052";
  master_addr = "master:50051";
  capabilities = "command" ∷ [];
  max_tasks = pos 4;
  labels = Map.empty;
  client = true;
  heartbeat_interval = pos 5000000000;
  registered = registered;
}

abbrev turn : Turn
turn = record { active_tasks = pos 1; link = up; now = 100; dials = true; again = up; later = 101 }

abbrev worker_id : String
worker_id = "w1"

abbrev address : String
address = "10.0.0.1:50052"

named : worker_id ≢ ""
named e = absurd (ground (arith, (eq_iff "w1" "").1 e))

reachable : address ≢ ""
reachable e = absurd (ground (arith, (eq_iff "10.0.0.1:50052" "").1 e))

beat_lem_example :
    (IsKnown (beat (registration true) turn master).1 "w1" 100
      ⊎ IsKnown (beat (registration true) turn master).1 "w1" 101)
    × ((beat (registration true) turn master).0.registered ≡ true)
beat_lem_example = beat_lem (registration true) turn master named reachable refl refl refl refl

lost : request_lost ≢ up
lost e = absurd (ground (arith, e))

serve_unregistered_example :
    ((serve (registration false) true request_lost 5 ((λ m. m, turn) ∷ []) master).0.registered
      ≡ false)
    × ((serve (registration false) true request_lost 5 ((λ m. m, turn) ∷ []) master).1
        ≡ alone ((λ m. m, turn) ∷ []) (register (registration false) true request_lost 5 master).1)
serve_unregistered_example =
    serve_unregistered (registration false) true request_lost 5 ((λ m. m, turn) ∷ []) master refl
      lost

-- A job with the status of a number: 0 is running, everything else completed.
abbrev report : ℕ → GetStatusResponse
report n = record {
  job_id = "job1";
  status = if n == 0 then running else completed;
  output = [];
  error = "";
  exit_code = pos 0;
  worker_id = "w1";
  created_at = 1;
  completed_at = none;
}

abbrev counter : MasterClient ℕ
counter = record {
  submit = λ n req. (n + 1, some "job1");
  get_status = λ n id. some (report n);
  cancel = λ n id. (n, none);
}

wait_for_completion_lem_example :
    (wait_for_completion counter "job1" (map ticked ((λ n. n) ∷ (λ n. n + 1) ∷ [])) 0
      ≡ finished (job_status_of (report 1)))
    ↔ Stops counter "job1"
        (job_status_of (report 1))
        (seen counter "job1" ((λ n. n) ∷ (λ n. n + 1) ∷ []) 0)
wait_for_completion_lem_example =
    wait_for_completion_lem counter "job1" (job_status_of (report 1)) ((λ n. n) ∷ (λ n. n + 1) ∷ [])
      0

abbrev spec : Spec
spec = record {
  command = Value.text "ls";
  args = Value.null;
  parallelism = Value.integer (pos 2);
  timeout = Value.null;
}

abbrev resource : DistributedJob
resource = record {
  name = "demo";
  namespace = "default";
  spec = some spec;
  phase = "Running";
  task_ids = "job1" ∷ [];
  start_time = "now";
}

one_task : resource.task_ids ≢ []
one_task e = absurd (ground (arith, e))

check_job_status_lem_example :
    (w : Update) × (check_job_status counter resource (λ id. 1) ≡ some w)
    × (w.task_ids ≡ some ("job1" ∷ []))
    × IsVerdict 1 1 0 w
check_job_status_lem_example =
    check_job_status_lem counter resource (λ id. 1) one_task (omega arith)

-- " ls,,cat "
abbrev listing : Text
listing = 32 ∷ 108 ∷ 115 ∷ 44 ∷ 44 ∷ 99 ∷ 97 ∷ 116 ∷ 32 ∷ []

listed : split_csv listing ≡ (108 ∷ 115 ∷ []) ∷ (99 ∷ 97 ∷ 116 ∷ []) ∷ []
unfolding split_csv split trim_space trim_right trim_left is_space
listed = refl
