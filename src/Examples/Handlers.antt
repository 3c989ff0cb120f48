-- ===== src/Examples/Handlers.antt =====
-- The handlers, the scheduler and the store on a master with one job.
use dist_command_exec.Prelude.{
  ℕ, ◌≡◌, ◌≤◌, refl, String, true, none, some, [], ◌∷◌, map, arith, length, keep, take, drop,
}
use dist_command_exec.Prelude.Int.{pos, negsuc, int64, ◌+ℤ◌}
use dist_command_exec.Prelude.Map
use dist_command_exec.Prelude.Map.{Map, Visits, Visits-entries}
use dist_command_exec.Types.{
  Result, completed, Task, new_task, TaskStatus, pending, running, failed, cancelled,
}
use dist_command_exec.Master.Store.{Store, Job, get_job}
use dist_command_exec.Master.Scheduler.{Scheduler, enqueue, requeue, get_task}
use dist_command_exec.Master.Scheduler.Enqueue.{Promise, enqueue-Promise}
use dist_command_exec.Master.Registry.{decrement_active_tasks}
use dist_command_exec.Master.Scaler.{default_scaler_config, new_auto_scaler}
use dist_command_exec.Master.State.{Master}
use dist_command_exec.Master.Dispatcher.{fail, complete, requeued}
use dist_command_exec.Master.Dispatcher.Outcomes.{fail-retries, requeued_full}
use dist_command_exec.Master.Server.{
  submit, status, resource_exhausted, GetStatusResponse, get_status, cancel, list, ok, JobStatus,
  ListJobsRequest, summary,
}
use dist_command_exec.Master.Server.Replies.{matches, list_lem, page_size, submit_full}
use dist_command_exec.Master.Server.Cancelling.{Carries, complete-cancel}
use dist_command_exec.Examples.{blank, node, submit_request, response}

abbrev pub job : String → TaskStatus → Job
job id state = record {
  id = id;
  task_type = "command";
  payload = 123 ∷ 125 ∷ [];
  priority = pos 1;
  timeout = pos 30000000000;
  metadata = Map.empty;
  created_at = 2;
  status = state;
  result = none;
}

-- A running task, after so many retries of 3.
abbrev pub task : ℕ → Task
task retries = record blank {
  id = "job1";
  status = running;
  retries = pos retries;
  worker_id = "w1";
}

abbrev pub scheduler : ℕ → ℕ → Scheduler
scheduler capacity retries = record {
  heap = λ _. task retries;
  queue = [];
  capacity = capacity;
  tasks = record { entries = ("job1", 0) ∷ [] };
  max_queue = pos capacity;
}

abbrev pub store : Store
store = record {
  jobs = record { entries = ("job1", job "job1" pending) ∷ ("job2", job "job2" failed) ∷ [] };
  results = Map.empty;
}

abbrev pub master : ℕ → ℕ → Master
master capacity retries = record {
  store = store;
  scheduler = scheduler capacity retries;
  registry = record {
    nodes = record { entries = ("w1", node "w1" (pos 4) (pos 1) 1) ∷ [] };
    heartbeat_timeout = pos 15000000000;
    unhealthy_timeout = pos 30000000000;
    on_node_removed = true;
  };
  counter = 0;
  scaler = new_auto_scaler default_scaler_config;
  clients = Map.empty;
  conns = Map.empty;
  settings = record { task_timeout = pos 30; retry_delay = pos 1; max_retries = pos 3 };
}

enqueue-Promise_example : Promise (scheduler 2 0) 0 (enqueue (scheduler 2 0) 0)
enqueue-Promise_example = enqueue-Promise (scheduler 2 0) 0

fail-retries_example :
    (get_job (fail (master 2 0) 0 (node "w1" (pos 4) (pos 1) 1) 7).store "job1"
      ≡ some (record (job "job1" pending) { status = failed }))
    × ((fail (master 2 0) 0 (node "w1" (pos 4) (pos 1) 1) 7).scheduler.heap 0 ≡ record (task 0) {
      status = pending;
      retries = int64 ((task 0).retries +ℤ pos 1);
      worker_id = "";
      started_at = none;
      completed_at = some 7;
    })
    × ((fail (master 2 0) 0 (node "w1" (pos 4) (pos 1) 1) 7).scheduler.queue ≡ 0 ∷ [])
    × ((fail (master 2 0) 0 (node "w1" (pos 4) (pos 1) 1) 7).registry
        ≡ decrement_active_tasks (master 2 0).registry "w1")
unfolding get_task get_job Map.get new_task
fail-retries_example =
    fail-retries (master 2 0) 0 (node "w1" (pos 4) (pos 1) 1) 7 (job "job1" pending) (refl, refl)
      refl

requeued_full_example :
    (get_task (requeued (master 0 0) 0).scheduler "job1" ≡ some 0)
    × (((requeued (master 0 0) 0).scheduler.heap 0).status ≡ pending)
    × ((requeued (master 0 0) 0).scheduler.queue ≡ [])
    × ((requeued (master 0 0) 0).store ≡ store)
unfolding get_task Map.get requeue
requeued_full_example = requeued_full (master 0 0) 0 refl (omega arith)

submit_full_example :
    ((submit (master 0 0) submit_request "job3" 1 9).1 ≡ status resource_exhausted)
    × ((submit (master 0 0) submit_request "job3" 1 9).0.scheduler.queue ≡ [])
    × ((resp : GetStatusResponse) × (get_status
            (submit (master 0 0) submit_request "job3" 1 9).0
            "job3"
          ≡ ok resp)
        × (resp.status ≡ JobStatus.pending))
submit_full_example =
    submit_full (master 0 0) submit_request "job3" 1 9 refl refl refl (omega arith)

complete-cancel_example :
    ((cancel (master 2 0) "job1").1 ≡ ok (record { cancelled = true; message = "job cancelled" }))
    × (get_job (cancel (master 2 0) "job1").0.store "job1"
        ≡ some (record (job "job1" pending) { status = cancelled }))
    × ((cancel (master 2 0) "job1").0.scheduler ≡ scheduler 2 0)
    × (r : Result) × Carries r (task 0) (node "w1" (pos 4) (pos 1) 1) response 7
    × (get_job
          (complete (cancel (master 2 0) "job1").0 0 (node "w1" (pos 4) (pos 1) 1) response 7).store
          "job1"
        ≡ some (record (job "job1" pending) { result = some r; status = completed }))
unfolding get_job Map.get
complete-cancel_example =
    complete-cancel (master 2 0) 0 (node "w1" (pos 4) (pos 1) 1) response 7 (job "job1" pending)
      refl refl refl

abbrev list_request : ListJobsRequest
list_request = record { limit = pos 0; offset = negsuc 1; status_filter = JobStatus.failed }

list_lem_example :
    ((list (master 2 0) list_request store.jobs.entries).jobs
      ≡ map summary (
          take (page_size (pos 0)) (
            drop 0 (
              keep
                (λ (j : Job). matches JobStatus.failed j.status)
                (job "job1" pending ∷ job "job2" failed ∷ [])))))
    × (length (list (master 2 0) list_request store.jobs.entries).jobs ≤ 100)
list_lem_example = list_lem (master 2 0) list_request store.jobs.entries
