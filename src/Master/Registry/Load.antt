-- ===== src/Master/Registry/Load.antt =====
-- Heartbeats and the active-task counts of the nodes.
use dist_command_exec.Prelude.{
  ℕ, suc, ◌+◌, ◌-◌, ◌≤◌, ◌≡◌, refl, String, some, List, [], ◌∷◌, arith, str_eq, eq_iff, eq_refl,
  if◌then◌else◌, length, total,
}
use dist_command_exec.Prelude.Int.{ℤ, pos, ◌≤ℤ◌, ◌<ℤ◌, ◌-ℤ◌, ◌+ℤ◌, int64, max_int}
use dist_command_exec.Prelude.Map
use dist_command_exec.Prelude.Map.{Map, IsMap, Visits, Visits-total, get-put, map_laws}
use dist_command_exec.Types.{Time, Duration}
use dist_command_exec.Master.Registry.{
  NodeInfo, NodeRegistry, is_healthy, sub_time, refreshed, heartbeat, one_more, one_less,
  get_healthy_nodes, count_healthy, healthy_node_count, node_count, increment_active_tasks,
  decrement_active_tasks, check_health,
}
use dist_command_exec.Master.Registry.Health.{get-check_health}

sub_time-le :
    (now seen : Time) (d : Duration) → seen ≤ now → pos (now - seen) ≤ℤ d → sub_time now seen ≤ℤ d
unfolding sub_time ◌-ℤ◌
sub_time-le now seen d le fits = ground arith

get-heartbeat :
    (r : NodeRegistry) (id j : String) (active : ℤ) (seen : Time) (n : NodeInfo)
    → Map.get r.nodes id ≡ some n
    → Map.get (heartbeat r id active seen).0.nodes j
      ≡ (if str_eq id j then some (refreshed active seen n) else Map.get r.nodes j)
unfolding heartbeat
get-heartbeat r id j active seen n known =
    rw (known, heartbeat) (get-put r.nodes id j (refreshed active seen n))

timeouts-heartbeat :
    (r : NodeRegistry) (id : String) (active : ℤ) (seen : Time)
    → ((heartbeat r id active seen).0.heartbeat_timeout ≡ r.heartbeat_timeout)
      × ((heartbeat r id active seen).0.unhealthy_timeout ≡ r.unhealthy_timeout)
unfolding heartbeat
timeouts-heartbeat r id active seen = ground arith

-- A known node that sent a heartbeat at `seen` is still there, as the heartbeat left it, after a
-- health check at any time up to the heartbeat timeout later, over the nodes in any order of its
-- `range`, if that timeout is at most the removal timeout.
pub heartbeat_keeps :
    (r : NodeRegistry) (id : String) (active : ℤ) (seen now : Time) (n : NodeInfo)
    (visited : List (String × NodeInfo))
    → Map.get r.nodes id ≡ some n
    → Visits (heartbeat r id active seen).0.nodes visited
    → seen ≤ now
    → pos (now - seen) ≤ℤ r.heartbeat_timeout
    → r.heartbeat_timeout ≤ℤ r.unhealthy_timeout
    → Map.get (check_health (heartbeat r id active seen).0 now visited).0.nodes id
      ≡ some (refreshed active seen n)
heartbeat_keeps r id active seen now n visited known v order recent wider =
    rw (get-check_health (heartbeat r id active seen).0 now visited v id) (
      ground (
        arith,
        get-heartbeat r id id active seen n known,
        eq_refl id,
        timeouts-heartbeat r id active seen,
        sub_time-le now seen r.heartbeat_timeout,
      ))

count_healthy-total :
    (count : ℕ) (visited : List (String × NodeInfo))
    → count_healthy count visited
      ≡ count + total (λ e. if is_healthy e.1.status then 1 else 0) visited
unfolding count_healthy
count_healthy-total count [] = omega arith
count_healthy-total count ((_, n) ∷ rest) =
    ground (arith, count_healthy-total count rest, count_healthy-total (suc count) rest)

length-get_healthy_nodes :
    (visited : List (String × NodeInfo))
    → length (get_healthy_nodes visited)
      ≡ total (λ e. if is_healthy e.1.status then 1 else 0) visited
unfolding get_healthy_nodes
length-get_healthy_nodes [] = refl
length-get_healthy_nodes ((_, n) ∷ rest) = ground (arith, length-get_healthy_nodes rest)

healthy-le-length :
    (visited : List (String × NodeInfo))
    → total (λ e. if is_healthy e.1.status then 1 else 0) visited ≤ length visited
healthy-le-length [] = omega arith
healthy-le-length ((_, n) ∷ rest) = ground (arith, healthy-le-length rest)

-- HealthyNodeCount is the number of nodes that GetHealthyNodes returns, whatever the orders in
-- which the two visit the nodes, and it is at most NodeCount; no ID stands twice in the map.
pub healthy_node_count-get_healthy_nodes :
    (r : NodeRegistry) (visited visited' : List (String × NodeInfo))
    → IsMap r.nodes
    → Visits r.nodes visited
    → Visits r.nodes visited'
    → (healthy_node_count visited ≡ length (get_healthy_nodes visited'))
      × (healthy_node_count visited ≤ node_count r)
unfolding healthy_node_count node_count Map.len
healthy_node_count-get_healthy_nodes r visited visited' d v v' = omega (
  arith,
  count_healthy-total 0 visited,
  length-get_healthy_nodes visited',
  Visits-total (λ e. if is_healthy e.1.status then 1 else 0) r.nodes visited d v,
  Visits-total (λ e. if is_healthy e.1.status then 1 else 0) r.nodes visited' d v',
  healthy-le-length r.nodes.entries,
)

get-increment_active_tasks :
    (r : NodeRegistry) (id j : String) (n : NodeInfo)
    → Map.get r.nodes id ≡ some n
    → Map.get (increment_active_tasks r id).nodes j
      ≡ (if str_eq id j then some (one_more n) else Map.get r.nodes j)
unfolding increment_active_tasks
get-increment_active_tasks r id j n known =
    rw (known, increment_active_tasks) (get-put r.nodes id j (one_more n))

get-decrement_active_tasks :
    (r : NodeRegistry) (id j : String) (n : NodeInfo)
    → Map.get r.nodes id ≡ some n
    → Map.get (decrement_active_tasks r id).nodes j
      ≡ (if str_eq id j then some (one_less n) else Map.get r.nodes j)
unfolding decrement_active_tasks
get-decrement_active_tasks r id j n known =
    rw (known, decrement_active_tasks) (get-put r.nodes id j (one_less n))

one_less-one_more :
    (n : NodeInfo) → pos 0 ≤ℤ n.active_tasks → n.active_tasks <ℤ max_int → one_less (one_more n) ≡ n
unfolding int64 ◌+ℤ◌ ◌-ℤ◌
one_less-one_more n lo hi = ground arith

-- An increment and a decrement of a known node's count leave every node as it was, while the count
-- is between 0 and the largest int, exclusive.
pub decrement-increment :
    (r : NodeRegistry) (id : String) (n : NodeInfo)
    → Map.get r.nodes id ≡ some n
    → pos 0 ≤ℤ n.active_tasks
    → n.active_tasks <ℤ max_int
    → (j : String)
    → Map.get (decrement_active_tasks (increment_active_tasks r id) id).nodes j ≡ Map.get r.nodes j
decrement-increment r id n known lo hi j = ground (
  arith,
  get-increment_active_tasks r id id n known,
  get-increment_active_tasks r id j n known,
  get-decrement_active_tasks (increment_active_tasks r id) id j (one_more n),
  one_less-one_more n,
  eq_refl id,
  eq_iff id j,
)
