-- ===== src/Master/Server/Reconnect.antt =====
-- Nodes that register again (internal/master/server.go) and the client pool of the dispatcher.
use dist_command_exec.Prelude.{◌≡◌, refl, String, Bool, false, some, str_eq, eq_refl}
use dist_command_exec.Prelude.Map
use dist_command_exec.Prelude.Map.{get-put}
use dist_command_exec.Types.{Time}
use dist_command_exec.Master.Registry.{NodeInfo, get_node, healthy}
use dist_command_exec.Master.Registry
use dist_command_exec.Master.State.{Master}
use dist_command_exec.Master.Dispatcher.{get_client}
use dist_command_exec.Master.Server.{RegisterRequest, register, node_of}

-- The node as the registry keeps it.
abbrev pub kept : RegisterRequest → Time → NodeInfo
kept req now = record (node_of req) { last_seen = now; status = healthy }

-- A node that registers with an address, and under an ID that has a client, neither of them empty,
-- is in the registry with that address; and the dispatcher keeps the client, so that it calls the
-- address that this was made for.
pub get_client-register :
    (m : Master) (req : RegisterRequest) (now : Time) (dials : Bool) (address : String)
    → str_eq req.worker_id "" ≡ false
    → str_eq req.address "" ≡ false
    → Map.get m.clients req.worker_id ≡ some address
    → let m' = (register m req now).0 in
      (n : NodeInfo) × (get_node m'.registry req.worker_id ≡ some n)
      × (n.address ≡ req.address)
      × (get_client m' n dials ≡ (m', some address))
unfolding get_client register node_of get_node Registry.register
get_client-register m req now dials address named placed pooled =
    (kept req now, rw (named, placed, get-put, eq_refl) refl, refl, rw (named, placed, pooled) refl)
