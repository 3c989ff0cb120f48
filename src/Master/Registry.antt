-- ===== src/Master/Registry.antt =====
-- internal/master/registry.go: the worker nodes and their health. Each method runs under the
-- registry's lock, so it is one step; `time.Now()` is the argument `now`. The map holds the nodes
-- themselves, since only the registry writes them and readers get copies. `NodeStatus` is an int
-- that only holds its named constants. A `range` over the nodes takes its entries as an argument.
pub mod Health
pub mod Load
use dist_command_exec.Prelude.{
  ℕ, suc, ◌-◌, ◌*◌, String, Bool, true, false, ◌&&◌, Option, none, some, List, [], ◌∷◌, ◌++◌, map,
  ltb, leb, if◌then◌else◌,
}
use dist_command_exec.Prelude.Int.{
  ℤ, pos, negsuc, pos_part, neg_part, ltb_ℤ, leb_ℤ, ◌+ℤ◌, ◌-ℤ◌, int64, half64,
}
use dist_command_exec.Prelude.Map
use dist_command_exec.Prelude.Map.{Map}
use dist_command_exec.Types.{Time, Duration, second}

pub data NodeStatus : Type 0 where
  healthy unhealthy draining : NodeStatus

abbrev pub is_healthy : NodeStatus → Bool
is_healthy healthy = true
is_healthy _ = false

abbrev pub is_unhealthy : NodeStatus → Bool
is_unhealthy unhealthy = true
is_unhealthy _ = false

-- NodeStatus.String
unfoldable pub node_status_name : NodeStatus → String
node_status_name healthy = "HEALTHY"
node_status_name unhealthy = "UNHEALTHY"
node_status_name draining = "DRAINING"

pub record NodeInfo : Type 0 where
  pub id : String
  pub address : String
  pub capabilities : List String
  pub max_tasks : ℤ
  pub active_tasks : ℤ
  pub last_seen : Time
  pub status : NodeStatus
  pub labels : Map String

-- AvailableCapacity
unfoldable pub available_capacity : NodeInfo → ℤ
available_capacity n = int64 (n.max_tasks -ℤ n.active_tasks)

-- The callback of SetNodeRemovedCallback is represented by whether it is set: `check_health`
-- returns the IDs for which it is called, and the server runs it (see Master.Server).
pub record NodeRegistry : Type 0 where
  pub nodes : Map NodeInfo
  pub heartbeat_timeout : Duration
  pub unhealthy_timeout : Duration
  pub on_node_removed : Bool

-- NewNodeRegistry
unfoldable pub new_registry : Duration → Duration → NodeRegistry
new_registry heartbeat_timeout unhealthy_timeout = record {
  nodes = Map.empty;
  heartbeat_timeout =
      if leb_ℤ heartbeat_timeout (pos 0) then pos (15 * second) else heartbeat_timeout;
  unhealthy_timeout =
      if leb_ℤ unhealthy_timeout (pos 0) then pos (30 * second) else unhealthy_timeout;
  on_node_removed = false;
}

-- SetNodeRemovedCallback, with a callback that is not nil.
unfoldable pub set_node_removed_callback : NodeRegistry → NodeRegistry
set_node_removed_callback r = record r { on_node_removed = true }

-- Register. It never fails.
unfoldable pub register : NodeRegistry → NodeInfo → Time → NodeRegistry
register r node now = record r {
  nodes = Map.put r.nodes node.id (record node { last_seen = now; status = healthy });
}

-- Deregister. It never fails.
unfoldable pub deregister : NodeRegistry → String → NodeRegistry
deregister r id = record r { nodes = Map.delete r.nodes id }

-- The node that a heartbeat leaves.
abbrev pub refreshed : ℤ → Time → NodeInfo → NodeInfo
refreshed active_tasks now n = record n {
  last_seen = now;
  active_tasks = active_tasks;
  status = if is_unhealthy n.status then healthy else n.status;
}

unfoldable pub heard : NodeRegistry → String → ℤ → Time → Option NodeInfo → NodeRegistry × Bool
heard r id active_tasks now none = (r, false)
heard r id active_tasks now (some n) =
    (record r { nodes = Map.put r.nodes id (refreshed active_tasks now n) }, true)

-- Heartbeat; `false` is the error for an unknown node.
unfoldable pub heartbeat : NodeRegistry → String → ℤ → Time → NodeRegistry × Bool
unfolding heard
heartbeat r id active_tasks now = heard r id active_tasks now (Map.get r.nodes id)

-- GetNode
unfoldable pub get_node : NodeRegistry → String → Option NodeInfo
get_node r id = Map.get r.nodes id

-- GetHealthyNodes, over the nodes in the order in which `range` yields them.
unfoldable pub get_healthy_nodes : List (String × NodeInfo) → List NodeInfo
get_healthy_nodes [] = []
get_healthy_nodes ((_, n) ∷ rest) =
    let found = get_healthy_nodes rest in if is_healthy n.status then n ∷ found else found

-- GetAllNodes
unfoldable pub get_all_nodes : List (String × NodeInfo) → List NodeInfo
get_all_nodes visited = map (λ e. e.1) visited

-- NodeCount
unfoldable pub node_count : NodeRegistry → ℕ
node_count r = Map.len r.nodes

count_healthy : ℕ → List (String × NodeInfo) → ℕ
count_healthy count [] = count
count_healthy count ((_, n) ∷ rest) =
    count_healthy (if is_healthy n.status then suc count else count) rest

-- HealthyNodeCount
unfoldable pub healthy_node_count : List (String × NodeInfo) → ℕ
unfolding count_healthy
healthy_node_count visited = count_healthy 0 visited

adjust : (NodeInfo → NodeInfo) → NodeRegistry → String → Option NodeInfo → NodeRegistry
adjust f r id none = r
adjust f r id (some n) = record r { nodes = Map.put r.nodes id (f n) }

abbrev pub one_more : NodeInfo → NodeInfo
one_more n = record n { active_tasks = int64 (n.active_tasks +ℤ pos 1) }

abbrev pub one_less : NodeInfo → NodeInfo
one_less n =
    if ltb_ℤ (pos 0) n.active_tasks
    then record n { active_tasks = int64 (n.active_tasks -ℤ pos 1) }
    else n

-- IncrementActiveTasks
unfoldable pub increment_active_tasks : NodeRegistry → String → NodeRegistry
unfolding adjust
increment_active_tasks r id = adjust one_more r id (Map.get r.nodes id)

-- DecrementActiveTasks
unfoldable pub decrement_active_tasks : NodeRegistry → String → NodeRegistry
unfolding adjust
decrement_active_tasks r id = adjust one_less r id (Map.get r.nodes id)

-- Time.Sub: a difference that no Duration holds is saturated.
unfoldable pub sub_time : Time → Time → Duration
sub_time t u =
    let d = pos t -ℤ pos u in
    if leb half64 (pos_part d)
    then pos (half64 - 1)
    else if ltb half64 (neg_part d)
    then negsuc (half64 - 1)
    else d

-- What one round of checkHealth does to a node: it removes it, marks it, or leaves it.
pub data Verdict : Type 0 where
  remove mark leave : Verdict

unfoldable pub judge : NodeRegistry → Time → NodeInfo → Verdict
unfolding sub_time
judge r now n =
    if ltb_ℤ r.unhealthy_timeout (sub_time now n.last_seen)
    then remove
    else if ltb_ℤ r.heartbeat_timeout (sub_time now n.last_seen) && is_healthy n.status
    then mark
    else leave

act : Verdict → String → NodeInfo → Map NodeInfo × List String → Map NodeInfo × List String
act remove id n (nodes, to_remove) = (nodes, to_remove ++ id ∷ [])
act mark id n (nodes, to_remove) = (Map.put nodes id (record n { status = unhealthy }), to_remove)
act leave id n state = state

-- The first loop of checkHealth, over the nodes in the order in which `range` yields them.
pub scan :
    NodeRegistry
    → Time
    → List (String × NodeInfo)
    → Map NodeInfo × List String
    → Map NodeInfo × List String
scan r now [] state = state
scan r now ((id, n) ∷ rest) state = scan r now rest (act (judge r now n) id n state)

-- The second loop of checkHealth.
pub remove_all : List String → Map NodeInfo → Map NodeInfo
remove_all [] nodes = nodes
remove_all (id ∷ ids) nodes = remove_all ids (Map.delete nodes id)

-- checkHealth: the registry, and the IDs for which the callback is called.
unfoldable pub check_health :
    NodeRegistry → Time → List (String × NodeInfo) → NodeRegistry × List String
unfolding scan remove_all act judge
check_health r now visited =
    let (nodes, to_remove) = scan r now visited (r.nodes, []) in
    (record r { nodes = remove_all to_remove nodes }, if r.on_node_removed then to_remove else [])
