-- ===== src/Examples/Balancer.antt =====
-- The balancers over two nodes.
use dist_command_exec.Prelude.{◌≡◌, some, List, [], ◌∷◌, arith}
use dist_command_exec.Prelude.Int.{pos}
use dist_command_exec.Master.Registry.{NodeInfo}
use dist_command_exec.Master.Balancer.RoundRobin.{picks, picks-round}
use dist_command_exec.Examples.{node}

abbrev one : NodeInfo
one = node "w1" (pos 4) (pos 3) 1

abbrev other : NodeInfo
other = node "w2" (pos 4) (pos 2) 1

abbrev nodes : List NodeInfo
nodes = one ∷ other ∷ []

picks-round_example : picks 2 6 nodes ≡ some other ∷ some one ∷ []
picks-round_example = picks-round nodes (omega arith) 6 (omega arith)
