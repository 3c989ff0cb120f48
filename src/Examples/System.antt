-- ===== src/Examples/System.antt =====
-- A job that goes through the whole system, and a worker that sends a heartbeat.
use dist_command_exec.Prelude.{
  ℕ, ◌+◌, ◌≡◌, ap, ◌≤◌, ◌<◌, ◌⊎◌, refl, true, false, none, some, [], ◌∷◌, occurs, arith,
  if◌then◌else◌,
}
use dist_command_exec.Prelude.Int.{pos, int32, int64}
use dist_command_exec.Prelude.Map
use dist_command_exec.Types.{pending, completed, failed, cancelled, Result, new_task, is_success}
use dist_command_exec.Master.Store.{
  new_store, Job, save_job, update_job_status, save_result, get_job, outcome,
}
use dist_command_exec.Master.Scheduler.{
  new_scheduler, mark_running, mark_complete, enqueue, get_task, dequeue, pending_count,
}
use dist_command_exec.Master.Scaler.{Api}
use dist_command_exec.Master.Registry.{NodeInfo, get_healthy_nodes, refreshed}
use dist_command_exec.Master.State.{Master}
use dist_command_exec.Master.Registry as Registry
use dist_command_exec.Master.Balancer.{select_round_robin}
use dist_command_exec.Master.Dispatcher.{choose, send, complete, result_of, result_status}
use dist_command_exec.Master.Server.{
  cancel_write, deregister, register, submit, accept, get_status, GetStatusResponse, ok, JobStatus,
  to_proto_job_status, new_server, heartbeat, monitor, node_of,
}
use dist_command_exec.Master.System.{
  System, Reach, here, later, registers, submits, takes, selects, sends, replies, asks, cancels,
  deregisters, taken, selected, calling,
}
use dist_command_exec.Master.System.View.{pointers}
use dist_command_exec.Master.System.Invariant.{initial}
use dist_command_exec.Master.System.Jobs.{
  task_in_one_place, queue_lem, settled_lem, get_status-reported,
}
use dist_command_exec.Master.System.Life.{Follows, life, seen, shown}
use dist_command_exec.Master.System.Future.{asked}
use dist_command_exec.Master.System.Completed.{completed_lem}
use dist_command_exec.Master.System.Final.{life_lem, job_kept}
use dist_command_exec.Master.System.Timing.{heartbeat-monitor}
use dist_command_exec.Examples.{blank, config, register_request, submit_request, response, node}

abbrev api : Api
api = record { deployment = none; updates = false }

abbrev start : System
start = initial (λ _. blank) (config 2) false

abbrev registered : System
registered = record start { master = (register start.master register_request 1).0 }

abbrev submitted : System
submitted = record registered {
  master = (submit registered.master submit_request "job1" 0 2).0;
  fresh = 1;
}

abbrev dequeued : System
dequeued = record submitted {
  master = record submitted.master { scheduler = record submitted.master.scheduler { queue = [] } };
  held = (0, taken) ∷ [];
}

abbrev worker : NodeInfo
worker = node "w1" (pos 4) (pos 0) 1

abbrev chosen : System
chosen = record dequeued {
  master = (choose dequeued.master 3 api [] (("w1", worker) ∷ [])).0;
  held = (0, selected worker) ∷ [];
}

abbrev called : System
called = record chosen {
  master = (send chosen.master 0 worker true 4).0;
  held = (0, calling worker) ∷ [];
}

abbrev done : System
done = record called { master = complete called.master 0 worker response 5; held = [] }

Reach-submitted : Reach start submitted
unfolding new_server Map.get Map.empty register new_store
Reach-submitted =
    later (later here (registers register_request 1)) (submits submit_request "job1" 2 refl)

Reach-done : Reach start done
unfolding choose get_healthy_nodes select_round_robin submit accept enqueue Map.get Map.put register
    new_server new_scheduler Map.empty send dequeue
Reach-done =
    later
      (later
        (later (later Reach-submitted (takes false false 0 dequeued.master.scheduler refl))
          (selects [] [] 0 3 api [] (("w1", worker) ∷ []) refl))
        (sends [] [] 0 worker true 4 refl))
      (replies [] [] 0 worker (some response) 5 refl)

task_in_one_place_example :
    occurs 0 submitted.master.scheduler.queue + occurs 0 (pointers submitted.held) ≤ 1
task_in_one_place_example =
    task_in_one_place (λ _. blank) (config 2) false submitted Reach-submitted 0

queue_lem_example :
    ((p : ℕ)
      → 0 < occurs p submitted.master.scheduler.queue
      → ((submitted.master.scheduler.heap p).status ≡ pending)
        × (get_task submitted.master.scheduler (submitted.master.scheduler.heap p).id ≡ some p))
    × (pending_count submitted.master.scheduler ≤ submitted.master.scheduler.capacity)
queue_lem_example = queue_lem (λ _. blank) (config 2) false submitted Reach-submitted

abbrev result : Result
result = result_of (called.master.scheduler.heap 0) worker response 5

abbrev completed_job : Job
completed_job = record {
  id = "job1";
  task_type = "command";
  payload = 123 ∷ 125 ∷ [];
  priority = pos 1;
  timeout = pos 30000000000;
  metadata = Map.empty;
  created_at = 2;
  status = completed;
  result = some result;
}

job_done : get_job done.master.store "job1" ≡ some completed_job
unfolding get_job Map.get complete save_result send choose submit accept enqueue register new_server
    new_scheduler Map.empty save_job Map.put mark_running new_task outcome is_success result_of
    result_status
job_done = refl

settled_lem_example :
    ((completed_job.status ≡ (if is_success result then completed else failed))
      ⊎ (completed_job.status ≡ cancelled))
    × ((p : ℕ)
        → get_task done.master.scheduler "job1" ≡ some p
        → occurs p done.master.scheduler.queue + occurs p (pointers done.held) ≡ 0)
settled_lem_example =
    settled_lem (λ _. blank) (config 2) false done Reach-done "job1" completed_job result job_done
      refl

abbrev reply : GetStatusResponse
reply = record {
  job_id = "job1";
  status = JobStatus.completed;
  output = 104 ∷ 105 ∷ [];
  error = "";
  exit_code = pos 0;
  worker_id = "w1";
  created_at = 2;
  completed_at = some 5;
}

status_done : get_status done.master "job1" ≡ ok reply
unfolding get_status to_proto_job_status result_of int32 int64
status_done = rw job_done refl

get_status-reported_example :
    (reply.status ≡ JobStatus.pending)
    ⊎ (reply.status ≡ JobStatus.completed)
    ⊎ (reply.status ≡ JobStatus.failed)
    ⊎ (reply.status ≡ JobStatus.cancelled)
get_status-reported_example =
    get_status-reported (λ _. blank) (config 2) false done Reach-done "job1" reply status_done

Reach-later : Reach submitted done
unfolding choose get_healthy_nodes select_round_robin submit accept enqueue Map.get Map.put register
    new_server new_scheduler Map.empty send dequeue
Reach-later =
    later
      (later
        (later (later here (takes false false 0 dequeued.master.scheduler refl))
          (selects [] [] 0 3 api [] (("w1", worker) ∷ []) refl))
        (sends [] [] 0 worker true 4 refl))
      (replies [] [] 0 worker (some response) 5 refl)

abbrev pending_job : Job
pending_job = record completed_job { status = pending; result = none }

job_submitted : get_job submitted.master.store "job1" ≡ some pending_job
unfolding get_job Map.get submit accept enqueue register new_server new_scheduler Map.empty save_job
    Map.put
job_submitted = refl

job_kept_example :
    (job' : Job) × (get_job done.master.store "job1" ≡ some job')
    × (job' ≡ record pending_job { status = job'.status; result = job'.result })
    × ((r : Result) → pending_job.result ≡ some r → job'.result ≡ some r)
    × ((job' ≡ pending_job) ⊎ (pending_job.result ≡ none) ⊎ (0 < asked submitted "job1"))
job_kept_example =
    job_kept (λ _. blank) (config 2) false submitted done Reach-submitted Reach-later "job1"
      pending_job job_submitted

life_lem_example :
    Follows
      (life (get_job submitted.master.store "job1"), asked submitted "job1")
      (life (get_job done.master.store "job1"), asked done "job1")
    × (seen (get_status done.master "job1") ≡ shown (life (get_job done.master.store "job1")))
life_lem_example =
    life_lem (λ _. blank) (config 2) false submitted done Reach-submitted Reach-later "job1" refl

-- The worker goes.
abbrev left : System
left = record done { master = (deregister done.master "w1").0 }

nobody_holds : occurs 0 done.master.scheduler.queue + occurs 0 (pointers done.held) ≡ 0
unfolding complete mark_complete mark_running Map.get save_result send choose submit accept enqueue
    register new_server new_scheduler Map.empty save_job Map.put new_task
nobody_holds = refl

seen_done : seen (get_status done.master "job1") ≡ some JobStatus.completed
seen_done = ap seen status_done

completed_lem_example :
    (job : Job) × (job' : Job) × (r : Result) × (get_job done.master.store "job1" ≡ some job)
    × (job.result ≡ some r)
    × (is_success r ≡ true)
    × (get_job left.master.store "job1" ≡ some job')
    × (job'.result ≡ some r)
    × (((job' ≡ job) × (seen (get_status left.master "job1") ≡ some JobStatus.completed))
        ⊎ ((0 < asked done "job1")
            × (job' ≡ record job { status = cancelled })
            × (seen (get_status left.master "job1") ≡ some JobStatus.cancelled)))
completed_lem_example =
    completed_lem (λ _. blank) (config 2) false done left Reach-done (later here (deregisters "w1"))
      "job1" refl seen_done

worker_known : Map.get registered.master.registry.nodes "w1" ≡ some worker
unfolding register node_of Registry.register Map.get Map.put new_server Map.empty
worker_known = refl

abbrev beaten : Master
beaten = (heartbeat registered.master "w1" (pos 2) 100).0

Visits-beaten : Map.Visits beaten.registry.nodes beaten.registry.nodes.entries
unfolding heartbeat node_of Registry.heartbeat Registry.heard register Registry.register Map.get
    Map.put new_server Map.empty Registry.set_node_removed_callback Registry.new_registry
Visits-beaten = Map.Visits-entries beaten.registry.nodes (refl, tt)

heartbeat-monitor_example :
    Map.get (monitor beaten 15000000100 beaten.registry.nodes.entries).registry.nodes "w1"
    ≡ some (refreshed (pos 2) 100 worker)
heartbeat-monitor_example =
    heartbeat-monitor (λ _. blank) (config 2) false registered 15 "w1" worker (pos 2) 100
      15000000100 beaten.registry.nodes.entries (later here (registers register_request 1)) refl
      (omega arith) (omega arith) refl worker_known Visits-beaten (omega arith) (omega arith)

-- A Cancel that has read the job as pending, and writes when its client has seen it completed.
abbrev asking : System
asking = record submitted { cancelling = "job1" ∷ [] }

abbrev raced : System
raced = record done { master = cancel_write done.master "job1" }

Reach-asking : Reach start asking
Reach-asking = later Reach-submitted (asks "job1" pending_job refl job_submitted refl)

Reach-raced : Reach asking raced
unfolding choose get_healthy_nodes select_round_robin submit accept enqueue Map.get Map.put register
    new_server new_scheduler Map.empty send dequeue
Reach-raced =
    later
      (later
        (later
          (later (later here (takes false false 0 dequeued.master.scheduler refl))
            (selects [] [] 0 3 api [] (("w1", worker) ∷ []) refl))
          (sends [] [] 0 worker true 4 refl))
        (replies [] [] 0 worker (some response) 5 refl))
      (cancels [] [] "job1" refl)

raced_status : seen (get_status raced.master "job1") ≡ some JobStatus.cancelled
unfolding get_job Map.get complete save_result send choose submit accept enqueue register new_server
    new_scheduler Map.empty save_job Map.put mark_running new_task outcome is_success result_of
    result_status get_status to_proto_job_status update_job_status
raced_status = refl
