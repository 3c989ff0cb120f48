-- ===== src/Examples/Registry.antt =====
-- The node registry with a node that is heard of and one that is silent.
use dist_command_exec.Prelude.{◌≡◌, refl, true, [], ◌∷◌}
use dist_command_exec.Prelude.Int.{pos}
use dist_command_exec.Prelude.Map
use dist_command_exec.Prelude.Map.{Visits, Visits-entries, IsMap}
use dist_command_exec.Master.Registry.{NodeRegistry, check_health}
use dist_command_exec.Master.Registry.Health.{aged?, get-check_health}
use dist_command_exec.Examples.{node}

abbrev registry : NodeRegistry
registry = record {
  nodes = record {
    entries =
        ("w1", node "w1" (pos 4) (pos 1) 100000000000)
        ∷ ("w2", node "w2" (pos 4) (pos 0) 50000000000)
        ∷ [];
  };
  heartbeat_timeout = pos 15000000000;
  unhealthy_timeout = pos 30000000000;
  on_node_removed = true;
}

get-check_health_example :
    Map.get (check_health registry 110000000000 registry.nodes.entries).0.nodes "w2"
    ≡ aged? registry 110000000000 (Map.get registry.nodes "w2")
get-check_health_example =
    get-check_health registry 110000000000 registry.nodes.entries
      (Visits-entries registry.nodes (refl, (refl, tt))) "w2"
