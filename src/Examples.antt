-- ===== src/Examples.antt =====
-- Inputs for the tests: nodes, requests and replies of a small cluster.
pub mod System
pub mod Handlers
pub mod Dispatch
pub mod Registry
pub mod Balancer
pub mod Scaler
pub mod Worker
pub mod Commands
pub mod Clients
pub mod Distctl
pub mod Mains
pub mod Operator
use dist_command_exec.Prelude.{ℕ, String, Bool, true, false, Option, none, some, List, [], ◌∷◌}
use dist_command_exec.Prelude.Int.{ℤ, pos}
use dist_command_exec.Prelude.Map
use dist_command_exec.Types.{Task, new_task, Time, Duration, second}
use dist_command_exec.Master.Registry.{NodeInfo, healthy}
use dist_command_exec.Master.State.{Master}
use dist_command_exec.Master.Dispatcher.{ExecuteResponse, success}
use dist_command_exec.Master.Server.{MasterConfig, SubmitRequest, RegisterRequest, new_server}

-- A healthy node.
abbrev pub node : String → ℤ → ℤ → Time → NodeInfo
node id max active seen = record {
  id = id;
  address = "10.0.0.1:50052";
  capabilities = "command" ∷ [];
  max_tasks = max;
  active_tasks = active;
  last_seen = seen;
  status = healthy;
  labels = Map.empty;
}

abbrev pub blank : Task
blank = new_task "" "" [] 0

-- A master whose queue takes so many tasks.
abbrev pub config : ℕ → MasterConfig
config jobs = record {
  max_concurrent_jobs = pos jobs;
  heartbeat_timeout = pos 15;
  scaling_enabled = false;
}

abbrev pub register_request : RegisterRequest
register_request = record {
  worker_id = "w1";
  address = "10.0.0.1:50052";
  capabilities = "command" ∷ [];
  max_concurrent_tasks = pos 4;
  labels = Map.empty;
}

abbrev pub submit_request : SubmitRequest
submit_request = record {
  task_type = "command";
  payload = 123 ∷ 125 ∷ [];
  timeout = none;
  priority = pos 1;
  metadata = Map.empty;
}

abbrev pub response : ExecuteResponse
response = record {
  task_id = "job1";
  status = success;
  output = 104 ∷ 105 ∷ [];
  error = "";
  exit_code = pos 0;
  duration = pos 1000;
}
