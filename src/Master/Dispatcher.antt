-- ===== src/Master/Dispatcher.antt =====
-- internal/master/dispatcher.go: the goroutine that takes one task to a worker.
--
-- dispatchTask gives up the processor in three places: it sleeps before it requeues a task for
-- which there is no node, and it waits for the worker's reply. So it is cut into the functions
-- `choose`, `send` and, after the reply, `complete` or `fail`; `dispatch_task` is their
-- composition. Requeue failures are logged and dropped there. The worker is not part of the master:
-- its reply is an argument, and so are the clock, the API of Kubernetes and whether gRPC can dial.
pub mod Outcomes
pub mod Whole
use dist_command_exec.Prelude.{
  ℕ, ◌*◌, String, Bool, true, false, Option, none, some, List, [], ◌∷◌, if◌then◌else◌, length,
}
use dist_command_exec.Prelude.Int.{ℤ, pos, int64}
use dist_command_exec.Prelude.Map
use dist_command_exec.Prelude.Map.{Map}
use dist_command_exec.Types.{
  Time, Duration, Bytes, Task, second, ResultStatus, failed, can_retry, Result,
}
use dist_command_exec.Master.Store.{save_result, update_job_status}
use dist_command_exec.Master.Scheduler.{
  mark_running, mark_complete, mark_failed, requeue, at_most_zero, pending_count,
}
use dist_command_exec.Master.Registry.{
  NodeInfo, get_healthy_nodes, increment_active_tasks, decrement_active_tasks,
}
use dist_command_exec.Master.Balancer.{select_round_robin}
use dist_command_exec.Master.Scaler.{Api, ensure_capacity}
use dist_command_exec.Master.State.{DispatcherConfig, Master}

-- pb.ExecutionStatus, with the values that a peer may send and that have no name.
pub data ExecutionStatus : Type 0 where
  unspecified success failure timeout cancelled : ExecutionStatus
  unrecognized : ℤ → ExecutionStatus

-- pb.ExecuteRequest
pub record ExecuteRequest : Type 0 where
  pub task_id : String
  pub task_type : String
  pub payload : Bytes
  pub timeout : Option Duration
  pub metadata : Map String

-- pb.ExecuteResponse
pub record ExecuteResponse : Type 0 where
  pub task_id : String
  pub status : ExecutionStatus
  pub output : Bytes
  pub error : String
  pub exit_code : ℤ
  pub duration : Duration

-- NewDispatcher: a setting that is not positive is replaced by its default.
unfoldable pub new_dispatcher_config : DispatcherConfig → DispatcherConfig
new_dispatcher_config cfg = record {
  task_timeout = if at_most_zero cfg.task_timeout then pos (30 * second) else cfg.task_timeout;
  retry_delay = if at_most_zero cfg.retry_delay then pos second else cfg.retry_delay;
  max_retries = if at_most_zero cfg.max_retries then pos 3 else cfg.max_retries;
}

abbrev pub requeued : Master → ℕ → Master
requeued m p = record m { scheduler = (requeue m.scheduler p).0 }

-- What dispatchTask does next.
pub data Choice : Type 0 where
  -- It sleeps for the retry delay, and then requeues the task.
  starved : Choice
  -- It requeues the task at once.
  unbalanced : Choice
  -- It sends the task to a node.
  chosen : NodeInfo → Choice

pub select_node : List NodeInfo → ℕ → ℕ × Choice
select_node [] counter = (counter, starved)
select_node (n ∷ ns) counter =
    let (counter', node) = select_round_robin counter (n ∷ ns) in
    (counter', elim node [ none ↦ unbalanced | some found ↦ chosen found ])

-- dispatchTask, up to the selection of a node. `seen` are the nodes that the scaler sees, and
-- `visited` those of GetHealthyNodes, in the order of its `range`.
unfoldable pub choose :
    Master → Time → Api → List NodeInfo → List (String × NodeInfo) → Master × Choice
unfolding select_node
choose m now api seen visited =
    let (scaler', _) = ensure_capacity m.scaler now api seen (pos (pending_count m.scheduler)) in
    let (counter', choice) = select_node (get_healthy_nodes visited) m.counter in
    (record m { scaler = scaler'; counter = counter' }, choice)

-- getClient: the address of the connection, if there is one or one can be made.
client_for : Master → NodeInfo → Bool → Option String → Master × Option String
client_for m node dials (some address) = (m, some address)
client_for m node false none = (m, none)
client_for m node true none = (
  record m {
    clients = Map.put m.clients node.id node.address;
    conns = Map.put m.conns node.id node.address;
  },
  some node.address,
)

unfoldable pub get_client : Master → NodeInfo → Bool → Master × Option String
unfolding client_for
get_client m node dials = client_for m node dials (Map.get m.clients node.id)

-- The request of sendToWorker.
unfoldable pub request : Task → ExecuteRequest
request t = record {
  task_id = t.id;
  task_type = t.task_type;
  payload = t.payload;
  timeout = some t.timeout;
  metadata = t.metadata;
}

sent_to : ℕ → NodeInfo → Time → Master × Option String → Master × Option (String × ExecuteRequest)
sent_to p node now (m, none) = (m, none)
sent_to p node now (m, some address) =
    let t = m.scheduler.heap p in
    (
      record m {
        scheduler = (mark_running m.scheduler t.id node.id now).0;
        registry = increment_active_tasks m.registry node.id;
      },
      some (address, request t),
    )

-- sendToWorker, up to the call of the worker: where the request goes, or `none` if there is no
-- client.
unfoldable pub send :
    Master → ℕ → NodeInfo → Bool → Time → Master × Option (String × ExecuteRequest)
unfolding sent_to get_client
send m p node dials now = sent_to p node now (get_client m node dials)

-- The `switch` of sendToWorker.
unfoldable pub result_status : ExecutionStatus → ResultStatus
result_status success = ResultStatus.success
result_status timeout = ResultStatus.timeout
result_status cancelled = ResultStatus.cancelled
result_status _ = ResultStatus.failure

-- The result that sendToWorker makes of a response.
unfoldable pub result_of : Task → NodeInfo → ExecuteResponse → Time → Result
unfolding result_status
result_of t node resp now = record {
  task_id = t.id;
  status = result_status resp.status;
  output = resp.output;
  error = resp.error;
  exit_code = resp.exit_code;
  duration = resp.duration;
  worker_id = node.id;
  completed_at = now;
  metadata = Map.empty;
}

-- dispatchTask after a response.
unfoldable pub complete : Master → ℕ → NodeInfo → ExecuteResponse → Time → Master
unfolding result_of
complete m p node resp now =
    let t = m.scheduler.heap p in
    record m {
      store = save_result m.store (result_of t node resp now);
      scheduler = (mark_complete m.scheduler t.id now).0;
      registry = decrement_active_tasks m.registry node.id;
    }

-- dispatchTask after an error of sendToWorker.
unfoldable pub give_up : Master → ℕ → Time → Master
give_up m p now =
    let id = (m.scheduler.heap p).id in
    let m' = record m {
      scheduler = (mark_failed m.scheduler id now).0;
      store = update_job_status m.store id failed;
    } in
    if can_retry (m'.scheduler.heap p) then requeued m' p else m'

-- The worker's call has failed: sendToWorker takes the node's count back, and dispatchTask goes on.
unfoldable pub fail : Master → ℕ → NodeInfo → Time → Master
unfolding give_up
fail m p node now =
    give_up (record m { registry = decrement_active_tasks m.registry node.id }) p now

-- What the call of the worker gives: `none` is an error of gRPC.
abbrev pub Reply : Type 0
Reply = Option ExecuteResponse

replied : ℕ → NodeInfo → Reply → Time → Master × Option (String × ExecuteRequest) → Master
replied p node reply now (m, none) = give_up m p now
replied p node none now (m, some _) = fail m p node now
replied p node (some resp) now (m, some _) = complete m p node resp now

route : ℕ → Bool → Reply → Time → Time → Master × Choice → Master
route p dials reply now later (m, starved) = requeued m p
route p dials reply now later (m, unbalanced) = requeued m p
route p dials reply now later (m, chosen node) =
    replied p node reply later (send m p node dials now)

-- dispatchTask, with nothing else happening meanwhile. `now` is the time of the call of the worker,
-- and `later` that of its reply.
unfoldable pub dispatch_task :
    Master
    → ℕ
    → Time
    → Time
    → Api
    → List NodeInfo
    → List (String × NodeInfo)
    → Bool
    → Reply
    → Master
unfolding route replied
dispatch_task m p now later api seen visited dials reply =
    route p dials reply now later (choose m now api seen visited)

-- closeConnections ranges over the connections, and deletes each and its client.
close_all : List (String × String) → Master → Master
close_all [] m = m
close_all ((id, _) ∷ rest) m =
    close_all rest (record m { clients = Map.delete m.clients id; conns = Map.delete m.conns id })

unfoldable pub close_connections : Master → List (String × String) → Master
unfolding close_all
close_connections m visited = close_all visited m

removed : Master → String → Option String → Master
removed m id none = m
removed m id (some _) = record m {
  clients = Map.delete m.clients id;
  conns = Map.delete m.conns id;
}

-- RemoveClient
unfoldable pub remove_client : Master → String → Master
unfolding removed
remove_client m id = removed m id (Map.get m.conns id)
