-- ===== src/Worker/Server.antt =====
-- internal/worker/server.go: the handlers of the worker's gRPC service. The executors are a
-- parameter of the worker; the number of a call and the duration that the clock gives are
-- arguments.
use dist_command_exec.Prelude.{
  ℕ, String, Bool, not, ◌||◌, Option, none, some, List, [], ◌∷◌, if◌then◌else◌, str_eq,
}
use dist_command_exec.Prelude.Int.{ℤ, int32}
use dist_command_exec.Prelude.Map.{Map}
use dist_command_exec.Types.{Duration}
use dist_command_exec.Executor.{Executor, Task, Result, returns, fails}
use dist_command_exec.Executor.Registry.{capabilities, health_check_all}
use dist_command_exec.Master.Balancer.{is_zero}
use dist_command_exec.Master.Dispatcher.{ExecuteRequest, ExecuteResponse, ExecutionStatus}
use dist_command_exec.Master.Server.{
  Reply, ok, status, invalid_argument, resource_exhausted, internal, unimplemented, timeout_of,
}
use dist_command_exec.Worker.Runner.{
  TaskRunner, Ran, err_at_capacity, ran, run, cancel_task, active_count, max_tasks, new_task_runner,
}

-- Server, without its gRPC parts; its registration is in Worker/Registration.
pub record Server (W : Type 0) : Type 0 where
  pub id : String
  pub runner : TaskRunner
  pub executors : Map (Executor W)

-- config.Worker, as far as NewServer uses it.
pub record WorkerConfig : Type 0 where
  pub id : String
  pub address : String
  pub master_address : String
  pub max_concurrent_tasks : ℤ

-- NewServer
unfoldable pub new_server : {W : Type 0} → WorkerConfig → Map (Executor W) → Server W
new_server cfg executors = record {
  id = cfg.id;
  runner = new_task_runner cfg.max_concurrent_tasks;
  executors = executors;
}

-- The executor task that Execute builds.
unfoldable pub task_of : ExecuteRequest → Task
task_of req = record {
  id = req.task_id;
  task_type = req.task_type;
  payload = req.payload;
  metadata = req.metadata;
}

-- The status of a response: a failure if there is an error text or an exit code.
unfoldable pub status_of : Result → ExecutionStatus
status_of r =
    if not (str_eq r.error "") || not (is_zero r.exit_code)
    then ExecutionStatus.failure
    else ExecutionStatus.success

unfoldable pub response_of : ExecuteRequest → Result → Duration → ExecuteResponse
unfolding status_of
response_of req r duration = record {
  task_id = req.task_id;
  status = status_of r;
  output = r.output;
  error = r.error;
  exit_code = int32 r.exit_code;
  duration = duration;
}

replied : ExecuteRequest → Duration → Ran → Reply ExecuteResponse
replied req duration err_at_capacity = status resource_exhausted
replied req duration (ran (fails message)) = status internal
replied req duration (ran (returns r)) = ok (response_of req r duration)

-- Execute, with nothing else happening meanwhile.
unfoldable pub execute :
    {W : Type 0}
    → Server W
    → ExecuteRequest
    → ℕ
    → (Duration → W)
    → Duration
    → Server W × Reply ExecuteResponse
unfolding replied
execute s req call world duration =
    if str_eq req.task_id ""
    then (s, status invalid_argument)
    else if str_eq req.task_type ""
    then (s, status invalid_argument)
    else let (runner, r) =
        run s.runner s.executors call world (task_of req) (timeout_of req.timeout) in
      (record s { runner = runner }, replied req duration r)

-- ExecuteStream
unfoldable pub execute_stream : Reply (Unit {0})
execute_stream = status unimplemented

-- CancelTask: the reply, and the call whose cancel function it runs.
unfoldable pub cancel : {W : Type 0} → Server W → String → Reply Bool × Option ℕ
cancel s id =
    if str_eq id ""
    then (status invalid_argument, none)
    else let (found, call) = cancel_task s.runner id in (ok found, call)

pub data WorkerHealth : Type 0 where
  healthy degraded : WorkerHealth

-- pb.GetWorkerStatusResponse
pub record WorkerStatus : Type 0 where
  pub worker_id : String
  pub capabilities : List String
  pub max_concurrent_tasks : ℤ
  pub active_tasks : ℤ
  pub health : WorkerHealth

-- The loop over the results of the health checks.
health_of : List (String × Option String) → WorkerHealth
health_of [] = healthy
health_of ((_, none) ∷ rest) = health_of rest
health_of ((_, some e) ∷ rest) = degraded

-- GetWorkerStatus. The executors are visited twice, in an order of `range` each.
unfoldable pub get_worker_status :
    {W : Type 0}
    → Server W
    → W
    → List (String × Executor W)
    → List (String × Executor W)
    → WorkerStatus
unfolding health_of
get_worker_status s world checked listed = record {
  worker_id = s.id;
  capabilities = capabilities listed;
  max_concurrent_tasks = int32 (max_tasks s.runner);
  active_tasks = int32 (active_count s.runner);
  health = health_of (health_check_all world checked);
}
