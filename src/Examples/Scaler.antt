-- ===== src/Examples/Scaler.antt =====
-- The auto-scaler, on deployments of a few replicas.
use dist_command_exec.Prelude.{
  Bool, String, length, ◌<◌, ℕ, ◌≡◌, refl, true, none, some, List, [], ◌∷◌, arith,
}
use dist_command_exec.Prelude.Int.{pos, half32, ◌<ℤ◌, ◌≤ℤ◌, ◌+ℤ◌, ◌-ℤ◌, int32, int64}
use dist_command_exec.Master.Registry.{NodeInfo, sub_time, available_capacity}
use dist_command_exec.Master.Balancer.{total_weight}
use dist_command_exec.Master.Scaler.{
  decide, backing_up, needed, scale_up, raised, set_replicas, AutoScaler, Api, ensure_capacity,
  scale_down,
}
use dist_command_exec.Master.Scaler.Bounds.{ensure_capacity_bounds}
use dist_command_exec.Master.Registry.{get_healthy_nodes}
use dist_command_exec.Master.Scaler.{default_scaler_config, new_auto_scaler_with_k8s}
use dist_command_exec.Master.Server.{MasterConfig, new_server, server_scaler}
use dist_command_exec.Master.Server.Running.{scale_tick}
use dist_command_exec.Master.System.{here}
use dist_command_exec.Master.System.Invariant.{initial}
use dist_command_exec.Master.System.Scaling.{scale_tick_lem}
use dist_command_exec.Examples.{node, config, blank}

abbrev scaler : AutoScaler
scaler = record {
  cfg = record {
    min_replicas = pos 1;
    max_replicas = pos 20;
    tasks_per_worker = pos 10;
    scale_up_threshold = pos 5;
    cooldown_period = pos 30000000000;
    scale_down_delay = pos 300000000000;
    enabled = true;
  };
  has_k8s = true;
  last_scale_up = 0;
  enabled = true;
}

abbrev api : Api
api = record { deployment = some (some (pos 2)); updates = true }

abbrev nodes : List NodeInfo
nodes = node "w1" (pos 4) (pos 4) 1 ∷ node "w2" (pos 4) (pos 4) 1 ∷ []

abbrev idle : List NodeInfo
idle = node "w1" (pos 4) (pos 0) 1 ∷ node "w2" (pos 4) (pos 0) 1 ∷ []

abbrev now : ℕ
now = 1000000000000

written : (ensure_capacity scaler now api nodes (pos 35)).1.written ≡ some (pos 6)
unfolding ensure_capacity sub_time ◌-ℤ◌ ◌+ℤ◌ decide total_weight int64 int32 available_capacity
    backing_up needed scale_up raised
written = refl

no_failure : (ensure_capacity scaler now api nodes (pos 35)).1.failure ≡ none
unfolding ensure_capacity sub_time ◌-ℤ◌ ◌+ℤ◌ decide total_weight int64 int32 available_capacity
    backing_up needed scale_up raised
no_failure = refl

ensure_capacity_bounds_example : (pos 2 <ℤ pos 6) × (pos 6 ≤ℤ pos 20)
ensure_capacity_bounds_example =
    ensure_capacity_bounds scaler now api nodes (pos 35) (pos 2) (pos 6) refl (omega arith)
      (omega arith) (omega arith) (omega arith) written

scaled_down : (scale_down scaler api idle).written ≡ some (pos 1)
unfolding scale_down set_replicas ◌-ℤ◌ int32 int64
scaled_down = refl

-- A master with four idle workers.
abbrev scaling : MasterConfig
scaling = record (config 2) { scaling_enabled = true }

abbrev workers : List (String × NodeInfo)
workers =
    ("w1", node "w1" (pos 4) (pos 0) 1)
    ∷ ("w2", node "w2" (pos 4) (pos 0) 1)
    ∷ ("w3", node "w3" (pos 4) (pos 0) 1)
    ∷ ("w4", node "w4" (pos 4) (pos 0) 1)
    ∷ []

ticked : (scale_tick (new_server (λ _. blank) scaling true) api workers).written ≡ some (pos 3)
unfolding scale_tick scale_down set_replicas ◌-ℤ◌ int32 int64 new_server get_healthy_nodes
    server_scaler new_auto_scaler_with_k8s default_scaler_config
ticked = refl

few : length (get_healthy_nodes workers) < half32
unfolding get_healthy_nodes
few = omega arith

scale_tick_lem_example :
    (scaling.scaling_enabled ≡ true)
    × (◌≡◌ {A = Bool} true true)
    × (pos 3 ≤ℤ pos 3)
    × (pos 3 +ℤ pos 1 ≡ pos (length (get_healthy_nodes workers)))
scale_tick_lem_example =
    scale_tick_lem (λ _. blank) scaling true (initial (λ _. blank) scaling true) here api workers
      (pos 3) few ticked
