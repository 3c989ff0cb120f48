-- ===== src/Master/System/View.antt =====
-- The core of a state of the system, and the handlers that leave it alone.
use dist_command_exec.Prelude.{ℕ, ◌≡◌, refl, String, Bool, List, [], ◌∷◌, map, arith}
use dist_command_exec.Prelude.Int.{ℤ}
use dist_command_exec.Prelude.Map
use dist_command_exec.Prelude.Map.{get-put, get-delete}
use dist_command_exec.Types.{Time}
use dist_command_exec.Master.Registry.{NodeInfo, decrement_active_tasks, check_health}
use dist_command_exec.Master.Registry
use dist_command_exec.Master.Scaler.{Api}
use dist_command_exec.Master.State.{Master}
use dist_command_exec.Master.Dispatcher.{choose, get_client, remove_client}
use dist_command_exec.Master.Server.{
  RegisterRequest, register, deregister, heartbeat, remove_clients, monitor,
}
use dist_command_exec.Master.System.{System, Pc}
use dist_command_exec.Master.System.Core.{Core, Inv}

abbrev pub pointers : List (ℕ × Pc) → List ℕ
pointers = map (λ h. h.0)

abbrev pub core_of : Master → List ℕ → ℕ → Core
core_of m held fresh = record {
  heap = m.scheduler.heap;
  queue = m.scheduler.queue;
  capacity = m.scheduler.capacity;
  tasks = Map.get m.scheduler.tasks;
  jobs = Map.get m.store.jobs;
  held = held;
  fresh = fresh;
}

abbrev pub core : System → Core
core y = core_of y.master (pointers y.held) y.fresh

-- What the other handlers leave alone.
abbrev pub Same : Master → Master → Type 0
Same m m' = (m'.store ≡ m.store) × (m'.scheduler ≡ m.scheduler)

pub Same-Inv :
    (m m' : Master) (held : List ℕ) (fresh : ℕ)
    → Same m m'
    → Inv (core_of m held fresh)
    → Inv (core_of m' held fresh)
Same-Inv m m' held fresh (a, b) v = rw (a, b) v

pub get_client-Same :
    (m : Master) (node : NodeInfo) (dials : Bool) → Same m (get_client m node dials).0
unfolding get_client
get_client-Same m node dials = ground arith

pub remove_client-Same : (m : Master) (id : String) → Same m (remove_client m id)
unfolding remove_client
remove_client-Same m id = ground arith

pub remove_clients-Same : (ids : List String) (m : Master) → Same m (remove_clients ids m)
unfolding remove_clients
remove_clients-Same [] m = (refl, refl)
remove_clients-Same (id ∷ ids) m =
    ground (arith, remove_clients-Same ids (remove_client m id), remove_client-Same m id)

pub register-Same :
    (m : Master) (req : RegisterRequest) (now : Time) → Same m (register m req now).0
unfolding register
register-Same m req now = ground arith

pub deregister-Same : (m : Master) (id : String) → Same m (deregister m id).0
unfolding deregister
deregister-Same m id =
    ground
      (arith, remove_client-Same (record m { registry = Registry.deregister m.registry id }) id)

pub heartbeat-Same :
    (m : Master) (id : String) (active : ℤ) (now : Time) → Same m (heartbeat m id active now).0
unfolding heartbeat
heartbeat-Same m id active now = ground arith

pub monitor-Same :
    (m : Master) (now : Time) (visited : List (String × NodeInfo)) → Same m (monitor m now visited)
unfolding monitor
monitor-Same m now visited = ground (
  arith,
  remove_clients-Same (check_health m.registry now visited).1
      (record m { registry = (check_health m.registry now visited).0 }),
)

pub choose-Same :
    (m : Master) (now : Time) (api : Api) (seen : List NodeInfo)
    (visited : List (String × NodeInfo))
    → Same m (choose m now api seen visited).0
unfolding choose
choose-Same m now api seen visited = (refl, refl)
