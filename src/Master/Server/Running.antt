-- ===== src/Master/Server/Running.antt =====
-- Run of internal/master/server.go: the ticker beside the handlers, the dispatcher and the health
-- monitor, which Master/System has as steps.
use dist_command_exec.Prelude.{String, List}
use dist_command_exec.Master.Registry.{NodeInfo, get_healthy_nodes}
use dist_command_exec.Master.Scaler.{Api, Effect, scale_down}
use dist_command_exec.Master.State.{Master}

-- One tick of the scale-down, over the nodes in the order in which `range` yields them. It does not
-- change the master, and its error is only logged.
unfoldable pub scale_tick : Master → Api → List (String × NodeInfo) → Effect
scale_tick m api visited = scale_down m.scaler api (get_healthy_nodes visited)
