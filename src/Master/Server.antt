-- ===== src/Master/Server.antt =====
-- internal/master/server.go: the handlers of the master's gRPC services. A handler returns the new
-- state and its reply. The job ID that uuid.New gives, the pointer of a new task and `time.Now()`
-- are arguments. Error messages are left out, but for the message of CancelResponse; an int32 of a
-- request is a number in the range of int32.
mod Wire
pub mod Replies
pub mod Cancelling
pub mod Reconnect
pub mod Running
unfoldable pub use Wire.*
use Prim.Native.String.{◌++◌ as append}
use dist_command_exec.Prelude.{
  ℕ, ◌*◌, String, Bool, true, false, ◌&&◌, Option, none, some, List, [], ◌∷◌, map, if◌then◌else◌,
  str_eq, length, update,
}
use dist_command_exec.Prelude.Int.{ℤ, pos, ltb_ℤ, leb_ℤ, int32, int64}
use dist_command_exec.Prelude.Map
use dist_command_exec.Prelude.Map.{Map}
use dist_command_exec.Types.{
  Time, Duration, Bytes, second, Task, new_task, Result, TaskStatus, to_string,
}
use dist_command_exec.Master.Store.{
  Store, Job, save_job, get_job, update_job_status, list_jobs, count,
}
use dist_command_exec.Master.Store
use dist_command_exec.Master.Scheduler.{Scheduler, Error, enqueue, new_scheduler, write}
use dist_command_exec.Master.Registry.{NodeInfo, NodeRegistry, healthy, check_health}
use dist_command_exec.Master.Registry
use dist_command_exec.Master.Scaler.{
  AutoScaler, times_int, default_scaler_config, new_auto_scaler, new_auto_scaler_with_k8s,
}
use dist_command_exec.Master.State.{Master}
use dist_command_exec.Master.Dispatcher.{remove_client, new_dispatcher_config}

abbrev pub is_empty {ℓ} : {A : Type ℓ} → List A → Bool
is_empty [] = true
is_empty (_ ∷ _) = false

-- The timeout of a request, or 30 seconds.
abbrev pub timeout_of : Option Duration → Duration
timeout_of none = pos (30 * second)
timeout_of (some d) = d

-- The job and the task that Submit creates.
unfoldable pub job_of : SubmitRequest → String → Time → Job
job_of req id now = record {
  id = id;
  task_type = req.task_type;
  payload = req.payload;
  priority = req.priority;
  timeout = timeout_of req.timeout;
  metadata = req.metadata;
  created_at = now;
  status = TaskStatus.pending;
  result = none;
}

unfoldable pub task_of : SubmitRequest → String → Time → Task
task_of req id now =
    let task = new_task id req.task_type req.payload now in
    record task {
      priority = req.priority;
      timeout = timeout_of req.timeout;
      metadata = req.metadata;
    }

submitted : Master → String → Scheduler × Option Error → Master × Reply String
submitted m id (s, none) = (record m { scheduler = s }, ok id)
submitted m id (s, some _) = (record m { scheduler = s }, status resource_exhausted)

-- Submit behind its checks.
unfoldable pub accept : Master → SubmitRequest → String → ℕ → Time → Master × Reply String
unfolding submitted job_of task_of
accept m req id p now =
    submitted (record m { store = save_job m.store (job_of req id now) }) id
      (enqueue (write m.scheduler p (task_of req id now)) p)

-- Submit; the reply is the job's ID.
unfoldable pub submit : Master → SubmitRequest → String → ℕ → Time → Master × Reply String
submit m req id p now =
    if str_eq req.task_type ""
    then (m, status invalid_argument)
    else if is_empty req.payload
    then (m, status invalid_argument)
    else accept m req id p now

with_result : Option Result → GetStatusResponse → GetStatusResponse
with_result none resp = resp
with_result (some r) resp = record resp {
  output = r.output;
  error = r.error;
  exit_code = int32 r.exit_code;
  worker_id = r.worker_id;
  completed_at = some r.completed_at;
}

status_of : Option Job → Reply GetStatusResponse
status_of none = status not_found
status_of (some job) = ok (
    with_result job.result (record {
      job_id = job.id;
      status = to_proto_job_status job.status;
      output = [];
      error = "";
      exit_code = pos 0;
      worker_id = "";
      created_at = job.created_at;
      completed_at = none;
    }))

-- GetStatus
unfoldable pub get_status : Master → String → Reply GetStatusResponse
unfolding status_of with_result
get_status m id = if str_eq id "" then status invalid_argument else status_of (get_job m.store id)

-- Only pending or running jobs can be cancelled.
abbrev pub can_cancel : TaskStatus → Bool
can_cancel TaskStatus.pending = true
can_cancel TaskStatus.running = true
can_cancel _ = false

-- The last part of Cancel, once its check has passed: by then the job may have changed.
abbrev pub cancel_write : Master → String → Master
cancel_write m id = record m { store = update_job_status m.store id TaskStatus.cancelled }

cancel_job : Master → String → Option Job → Master × Reply CancelResponse
cancel_job m id none = (m, status not_found)
cancel_job m id (some job) =
    if can_cancel job.status
    then (cancel_write m id, ok (record { cancelled = true; message = "job cancelled" }))
    else (
      m,
      ok (record {
        cancelled = false;
        message = append "cannot cancel job in state " (to_string job.status);
      }),
    )

-- Cancel, where nothing comes between its check and its write.
unfoldable pub cancel : Master → String → Master × Reply CancelResponse
unfolding cancel_job
cancel m id =
    if str_eq id "" then (m, status invalid_argument) else cancel_job m id (get_job m.store id)

-- The limit that ListJobs works with: 10 by default, and at most 100.
unfoldable pub clamp_limit : ℤ → ℤ
clamp_limit limit =
    let given = if leb_ℤ limit (pos 0) then pos 10 else limit in
    if ltb_ℤ (pos 100) given then pos 100 else given

unfoldable pub clamp_offset : ℤ → ℤ
clamp_offset offset = if ltb_ℤ offset (pos 0) then pos 0 else offset

unfoldable pub summary : Job → JobSummary
summary job = record {
  job_id = job.id;
  task_type = job.task_type;
  status = to_proto_job_status job.status;
  created_at = job.created_at;
}

-- ListJobs, over the jobs in the order in which `range` yields them.
unfoldable pub list : Master → ListJobsRequest → List (String × Job) → ListJobsResponse
list m req visited = record {
  jobs = map summary (
      list_jobs (from_proto_job_status req.status_filter) (clamp_limit req.limit)
        (clamp_offset req.offset) visited);
  total = int32 (pos (count m.store));
}

-- StreamOutput
unfoldable pub stream_output : Reply (Unit {0})
stream_output = status unimplemented

-- The node of a request; the registry sets LastSeen and Status.
unfoldable pub node_of : RegisterRequest → NodeInfo
node_of req = record {
  id = req.worker_id;
  address = req.address;
  capabilities = req.capabilities;
  max_tasks = req.max_concurrent_tasks;
  active_tasks = pos 0;
  last_seen = 0;
  status = healthy;
  labels = req.labels;
}

-- Register
unfoldable pub register : Master → RegisterRequest → Time → Master × Reply RegisterResponse
register m req now =
    if str_eq req.worker_id ""
    then (m, status invalid_argument)
    else if str_eq req.address ""
    then (m, status invalid_argument)
    else (
      record m { registry = Registry.register m.registry (node_of req) now },
      ok (record { accepted = true; heartbeat_interval = pos (5 * second) }),
    )

-- Deregister
unfoldable pub deregister : Master → String → Master × Reply Bool
deregister m id =
    if str_eq id ""
    then (m, status invalid_argument)
    else (remove_client (record m { registry = Registry.deregister m.registry id }) id, ok true)

acknowledged : Master → NodeRegistry × Bool → Master × Reply Bool
acknowledged m (r, known) = (record m { registry = r }, ok known)

-- Heartbeat; the reply is whether it is acknowledged, and the action is always NONE.
unfoldable pub heartbeat : Master → String → ℤ → Time → Master × Reply Bool
unfolding acknowledged
heartbeat m id active_tasks now =
    if str_eq id ""
    then (m, status invalid_argument)
    else acknowledged m (Registry.heartbeat m.registry id active_tasks now)

-- The callback that NewServer sets, for each removed node.
unfoldable pub remove_clients : List String → Master → Master
remove_clients [] m = m
remove_clients (id ∷ ids) m = remove_clients ids (remove_client m id)

-- One tick of MonitorHealth.
unfoldable pub monitor : Master → Time → List (String × NodeInfo) → Master
unfolding remove_clients
monitor m now visited =
    let (r, ids) = check_health m.registry now visited in
    remove_clients ids (record m { registry = r })

-- The auto-scaler of NewServer: `has_k8s` says whether both steps to a Kubernetes client succeed.
unfoldable pub server_scaler : Bool → Bool → AutoScaler
server_scaler scaling_enabled has_k8s =
    let cfg = record default_scaler_config { enabled = scaling_enabled } in
    if scaling_enabled && has_k8s then new_auto_scaler_with_k8s cfg true else new_auto_scaler cfg

-- NewServer, over a heap that other code may have filled.
unfoldable pub new_server : (ℕ → Task) → MasterConfig → Bool → Master
unfolding server_scaler
new_server heap cfg has_k8s = record {
  store = Store.new_store;
  scheduler = new_scheduler heap cfg.max_concurrent_jobs;
  registry = Registry.set_node_removed_callback (
      Registry.new_registry (times_int cfg.heartbeat_timeout (pos second))
        (times_int (times_int cfg.heartbeat_timeout (pos 2)) (pos second)));
  counter = 0;
  scaler = server_scaler cfg.scaling_enabled has_k8s;
  clients = Map.empty;
  conns = Map.empty;
  settings =
      new_dispatcher_config (record {
        task_timeout = pos (30 * second);
        retry_delay = pos second;
        max_retries = pos 3;
      });
}
