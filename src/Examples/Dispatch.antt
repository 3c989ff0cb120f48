-- ===== src/Examples/Dispatch.antt =====
-- A dispatch of the one task of a master, and a node that comes back.
use dist_command_exec.Prelude.{◌≡◌, refl, arith, String, true, false, none, some, List, [], ◌∷◌}
use dist_command_exec.Prelude.Int.{pos}
use dist_command_exec.Prelude.Map
use dist_command_exec.Types.{Result, pending, completed}
use dist_command_exec.Master.Store.{get_job}
use dist_command_exec.Master.Scheduler.{get_task}
use dist_command_exec.Master.Registry.{
  NodeInfo, get_node, get_healthy_nodes, increment_active_tasks, decrement_active_tasks,
}
use dist_command_exec.Master.Scaler.{Api}
use dist_command_exec.Master.State.{Master}
use dist_command_exec.Master.Dispatcher.{dispatch_task, get_client}
use dist_command_exec.Master.Dispatcher.Whole.{dispatch_task_lem}
use dist_command_exec.Master.Server.{register}
use dist_command_exec.Master.Server.Cancelling.{Carries}
use dist_command_exec.Master.Server.Reconnect.{get_client-register}
use dist_command_exec.Examples.{node, response, register_request}
use dist_command_exec.Examples.Handlers.{job, task, master}

abbrev api : Api
api = record { deployment = none; updates = false }

abbrev visited : List (String × NodeInfo)
visited = ("w1", node "w1" (pos 4) (pos 1) 1) ∷ []

abbrev end : Master
end = dispatch_task (master 2 0) 0 5 6 api [] visited true (some response)

dispatch_task_lem_example :
    (n : NodeInfo) × (r : Result) × Carries r (task 0) n response 6
    × (get_job end.store "job1"
        ≡ some (record (job "job1" pending) { result = some r; status = completed }))
    × (end.scheduler.heap 0 ≡ record (task 0) {
      status = completed;
      started_at = some 5;
      completed_at = some 6;
      worker_id = n.id;
    })
    × (end.scheduler.queue ≡ [])
    × (end.registry
        ≡ decrement_active_tasks (increment_active_tasks (master 2 0).registry n.id) n.id)
unfolding get_task get_job Map.get get_healthy_nodes
dispatch_task_lem_example =
    dispatch_task_lem (master 2 0) 0 5 6 api [] visited response (job "job1" pending) (refl, refl)
      (omega arith)

-- The master, with a client for a former address of the node.
abbrev pooled : Master
pooled = record (master 2 0) { clients = record { entries = ("w1", "10.0.0.9:50052") ∷ [] } }

get_client-register_example :
    (n : NodeInfo) × (get_node (register pooled register_request 9).0.registry "w1" ≡ some n)
    × (n.address ≡ "10.0.0.1:50052")
    × (get_client (register pooled register_request 9).0 n true
        ≡ ((register pooled register_request 9).0, some "10.0.0.9:50052"))
unfolding Map.get
get_client-register_example =
    get_client-register pooled register_request 9 true "10.0.0.9:50052" refl refl refl
