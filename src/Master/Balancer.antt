-- ===== src/Master/Balancer.antt =====
-- internal/master/balancer.go: the selection of a node. Each Select takes the balancer's counter, a
-- uint64, and returns it with the node; `none` is ErrNoHealthyNodes. The counters are atomic, so
-- one Select is one step. The task argument is not used by any balancer.
pub mod RoundRobin
pub mod Least
pub mod Weighted
pub mod Choosing
use dist_command_exec.Prelude.{
  ℕ, suc, ◌+◌, ◌-◌, ◌%◌, ◌^◌, Option, none, some, List, [], ◌∷◌, Bool, true, false, ltb, ◌==◌,
  if◌then◌else◌, length, get_elem?,
}
use dist_command_exec.Prelude.Int.{ℤ, pos, pos_part, neg_part, ltb_ℤ, ◌+ℤ◌, ◌-ℤ◌, int64, max_int}
use dist_command_exec.Prelude.Map
use dist_command_exec.Master.Registry.{NodeInfo, healthy, available_capacity}

abbrev pub uint64 : ℕ
uint64 = 2 ^ 64

-- atomic.AddUint64(&b.counter, 1)
abbrev pub next : ℕ → ℕ
next counter = (counter + 1) % uint64

-- nodes[next(counter) % len(nodes)], which RoundRobinBalancer, RandomBalancer and the fall-back of
-- WeightedRoundRobinBalancer share. An index out of range would panic: `none` stands for that too.
unfoldable pub rotate : ℕ → List NodeInfo → ℕ × Option NodeInfo
rotate counter nodes = (next counter, get_elem? nodes (next counter % length nodes))

-- RoundRobinBalancer.Select
unfoldable pub select_round_robin : ℕ → List NodeInfo → ℕ × Option NodeInfo
unfolding rotate
select_round_robin counter [] = (counter, none)
select_round_robin counter (n ∷ ns) = rotate counter (n ∷ ns)

-- RandomBalancer.Select
unfoldable pub select_random : ℕ → List NodeInfo → ℕ × Option NodeInfo
unfolding rotate
select_random counter [] = (counter, none)
select_random counter (n ∷ ns) = rotate counter (n ∷ ns)

-- NodeInfo{}
abbrev pub zero_node : NodeInfo
zero_node = record {
  id = "";
  address = "";
  capabilities = [];
  max_tasks = pos 0;
  active_tasks = pos 0;
  last_seen = 0;
  status = healthy;
  labels = Map.empty;
}

-- The loop of LeastConnectionsBalancer.Select.
unfoldable pub least_loop : ℤ → NodeInfo → List NodeInfo → NodeInfo
least_loop min_load best [] = best
least_loop min_load best (n ∷ ns) =
    let better = least_loop n.active_tasks n ns in
    let worse = least_loop min_load best ns in
    if ltb_ℤ n.active_tasks min_load then better else worse

-- LeastConnectionsBalancer.Select
unfoldable pub select_least : List NodeInfo → Option NodeInfo
unfolding least_loop
select_least [] = none
select_least (n ∷ ns) = some (least_loop max_int zero_node (n ∷ ns))

-- totalWeight += n.AvailableCapacity()
unfoldable pub total_weight : ℤ → List NodeInfo → ℤ
total_weight acc [] = acc
total_weight acc (n ∷ ns) = total_weight (int64 (acc +ℤ available_capacity n)) ns

-- The conversion uint64(x) of an int.
abbrev pub to_uint64 : ℤ → ℕ
to_uint64 x = (pos_part x + uint64 - neg_part x) % uint64

abbrev pub is_zero : ℤ → Bool
is_zero x = pos_part x + neg_part x == 0

-- The second loop of WeightedRoundRobinBalancer.Select, with its fall-back.
unfoldable pub weighted_loop : ℤ → NodeInfo → List NodeInfo → NodeInfo
weighted_loop target fallback [] = fallback
weighted_loop target fallback (n ∷ ns) =
    let left = int64 (target -ℤ available_capacity n) in
    let later = weighted_loop left fallback ns in if ltb_ℤ left (pos 0) then n else later

-- The selection by weight, once the sum of the capacities is known.
unfoldable pub select_by_weight : ℕ → ℤ → NodeInfo → List NodeInfo → ℕ × Option NodeInfo
select_by_weight counter weight first nodes = if is_zero weight then rotate counter nodes else (
  next counter,
  some (weighted_loop (int64 (pos (next counter % to_uint64 weight))) first nodes),
)

-- WeightedRoundRobinBalancer.Select
unfoldable pub select_weighted : ℕ → List NodeInfo → ℕ × Option NodeInfo
select_weighted counter [] = (counter, none)
select_weighted counter (n ∷ ns) =
    select_by_weight counter (total_weight (pos 0) (n ∷ ns)) n (n ∷ ns)

-- LoadBalancer: a balancer as its counter and its Select.
pub record LoadBalancer : Type 0 where
  pub counter : ℕ
  pub select : ℕ → List NodeInfo → ℕ × Option NodeInfo

-- NewRoundRobinBalancer
abbrev pub new_round_robin_balancer : LoadBalancer
new_round_robin_balancer = record { counter = 0; select = select_round_robin }

-- NewLeastConnectionsBalancer, which counts nothing.
abbrev pub new_least_connections_balancer : LoadBalancer
new_least_connections_balancer = record {
  counter = 0;
  select = λ counter nodes. (counter, select_least nodes);
}

-- NewWeightedRoundRobinBalancer
abbrev pub new_weighted_round_robin_balancer : LoadBalancer
new_weighted_round_robin_balancer = record { counter = 0; select = select_weighted }

-- NewRandomBalancer
abbrev pub new_random_balancer : LoadBalancer
new_random_balancer = record { counter = 0; select = select_random }

-- The implementations of the interface.
pub data Policy : Type 0 where
  round_robin least_connections weighted_round_robin random : Policy

abbrev pub new_balancer : Policy → LoadBalancer
new_balancer round_robin = new_round_robin_balancer
new_balancer least_connections = new_least_connections_balancer
new_balancer weighted_round_robin = new_weighted_round_robin_balancer
new_balancer random = new_random_balancer
