-- ===== src/Master/System/Timing.antt =====
-- The timeouts of the registry, over the steps of the master's goroutines.
use dist_command_exec.Prelude.{
  ℕ, ◌+◌, ◌*◌, ◌-◌, ◌≤◌, ◌<◌, ◌≡◌, false, str_eq, refl, ap, sym, subst, ◌∙◌, String, Bool, Option,
  none, some, List, [], ◌∷◌, arith,
}
use dist_command_exec.Prelude.Int.{ℤ, pos, ◌≤ℤ◌, half32, int64, int64_in_range}
use dist_command_exec.Prelude.Map
use dist_command_exec.Prelude.Map.{Visits}
use dist_command_exec.Types.{Task, Time, second}
use dist_command_exec.Master.State.{Master}
use dist_command_exec.Master.Registry.{
  NodeInfo, NodeRegistry, refreshed, check_health, scan, remove_all, increment_active_tasks,
  decrement_active_tasks,
}
use dist_command_exec.Master.Registry.Load.{heartbeat_keeps}
use dist_command_exec.Master.Registry as Registry
use dist_command_exec.Master.Scaler.{Api, times_int}
use dist_command_exec.Master.Dispatcher.{
  ExecuteRequest, ExecuteResponse, choose, send, get_client, give_up, fail, complete, remove_client,
}
use dist_command_exec.Master.Server.{
  MasterConfig, SubmitRequest, RegisterRequest, submit, accept, cancel_write, register, deregister,
  heartbeat, monitor, remove_clients, new_server,
}
use dist_command_exec.Master.System.{
  System, Pc, Step, Reach, after_send, here, later, submits, asks, cancels, registers, deregisters,
  beats, monitors, takes, selects, requeues, sends, replies,
}
use dist_command_exec.Master.System.Invariant.{initial}

-- A registry with the same timeouts.
abbrev Same : NodeRegistry → NodeRegistry → Type 0
Same a b = (b.heartbeat_timeout ≡ a.heartbeat_timeout) × (b.unhealthy_timeout ≡ a.unhealthy_timeout)

submit-Same :
    (m : Master) (req : SubmitRequest) (id : String) (p : ℕ) (now : Time)
    → Same m.registry (submit m req id p now).0.registry
unfolding submit accept
submit-Same m req id p now = ground arith

cancel-Same : (m : Master) (id : String) → Same m.registry (cancel_write m id).registry
cancel-Same m id = ground arith

register-Same :
    (m : Master) (req : RegisterRequest) (now : Time)
    → Same m.registry (register m req now).0.registry
unfolding register Registry.register
register-Same m req now = ground arith

deregister-Same : (m : Master) (id : String) → Same m.registry (deregister m id).0.registry
unfolding deregister remove_client Registry.deregister
deregister-Same m id = ground arith

heartbeat-Same :
    (m : Master) (id : String) (active : ℤ) (now : Time)
    → Same m.registry (heartbeat m id active now).0.registry
unfolding heartbeat Registry.heartbeat
heartbeat-Same m id active now = ground arith

remove_clients-Same :
    (ids : List String) (m : Master) → Same m.registry (remove_clients ids m).registry
unfolding remove_clients remove_client
remove_clients-Same [] m = (refl, refl)
remove_clients-Same (id ∷ ids) m = ground (arith, remove_clients-Same ids (remove_client m id))

check_health-Same :
    (r : NodeRegistry) (now : Time) (visited : List (String × NodeInfo))
    → Same r (check_health r now visited).0
unfolding check_health
check_health-Same r now visited = ground arith

choose-Same :
    (m : Master) (now : Time) (api : Api) (seen : List NodeInfo)
    (visited : List (String × NodeInfo))
    → Same m.registry (choose m now api seen visited).0.registry
unfolding choose
choose-Same m now api seen visited = (refl, refl)

send-Same :
    (m : Master) (p : ℕ) (node : NodeInfo) (dials : Bool) (now : Time)
    → Same m.registry (send m p node dials now).0.registry
unfolding send get_client increment_active_tasks
send-Same m p node dials now = ground arith

give_up-Same : (m : Master) (p : ℕ) (now : Time) → Same m.registry (give_up m p now).registry
unfolding give_up
give_up-Same m p now = ground arith

fail-Same :
    (m : Master) (p : ℕ) (node : NodeInfo) (now : Time)
    → Same m.registry (fail m p node now).registry
unfolding fail give_up decrement_active_tasks
fail-Same m p node now = ground arith

complete-Same :
    (m : Master) (p : ℕ) (node : NodeInfo) (resp : ExecuteResponse) (now : Time)
    → Same m.registry (complete m p node resp now).registry
unfolding complete decrement_active_tasks
complete-Same m p node resp now = ground arith

after_send-Same :
    (p : ℕ) (node : NodeInfo) (now : Time) (xs ys : List (ℕ × Pc)) (y : System)
    (sent : Option (String × ExecuteRequest))
    → Same y.master.registry (after_send p node now xs ys y sent).master.registry
after_send-Same p node now xs ys y none = give_up-Same y.master p now
after_send-Same p node now xs ys y (some _) = (refl, refl)

Same-trans : (a b c : NodeRegistry) → Same a b → Same b c → Same a c
Same-trans a b c f g = (g.0 ∙ f.0, g.1 ∙ f.1)

monitor-Same :
    (m : Master) (now : Time) (visited : List (String × NodeInfo))
    → Same m.registry (monitor m now visited).registry
unfolding monitor
monitor-Same m now visited =
    let (r, ids) = check_health m.registry now visited in
    Same-trans m.registry r (remove_clients ids (record m { registry = r })).registry
      (check_health-Same m.registry now visited)
      (remove_clients-Same ids (record m { registry = r }))

Step-Same : {y z : System} → Step y z → Same y.master.registry z.master.registry
Step-Same {y} (submits req id now new) = submit-Same y.master req id y.fresh now
Step-Same {y} (asks id job named there can) = (refl, refl)
Step-Same {y} (cancels xs ys id e) = cancel-Same y.master id
Step-Same {y} (registers req now) = register-Same y.master req now
Step-Same {y} (deregisters id) = deregister-Same y.master id
Step-Same {y} (beats id active now) = heartbeat-Same y.master id active now
Step-Same {y} (monitors now visited) = monitor-Same y.master now visited
Step-Same {y} (takes done choice p s e) = (refl, refl)
Step-Same {y} (selects xs ys p now api seen visited e) = choose-Same y.master now api seen visited
Step-Same {y} (requeues xs ys p e) = (refl, refl)
Step-Same {y} (sends xs ys p node dials now e) =
    let sent = send y.master p node dials now in
    Same-trans y.master.registry sent.0.registry
      (after_send p node now xs ys (record y { master = sent.0 }) sent.1).master.registry
      (send-Same y.master p node dials now)
      (after_send-Same p node now xs ys (record y { master = sent.0 }) sent.1)
Step-Same {y} (replies xs ys p node none now e) = fail-Same y.master p node now
Step-Same {y} (replies xs ys p node (some resp) now e) = complete-Same y.master p node resp now

Reach-Same : {y z : System} → Reach y z → Same y.master.registry z.master.registry
Reach-Same here = (refl, refl)
Reach-Same {y} {z} (later {u} r s) =
    Same-trans y.master.registry u.master.registry z.master.registry (Reach-Same r) (Step-Same s)

remove_clients-registry :
    (ids : List String) (m : Master) → (remove_clients ids m).registry ≡ m.registry
unfolding remove_clients remove_client
remove_clients-registry [] m = refl
remove_clients-registry (id ∷ ids) m =
    ground (arith, remove_clients-registry ids (remove_client m id))

seconds : (t : ℕ) → t ≤ 2 * half32 → times_int (pos t) (pos second) ≡ pos (t * second)
seconds t small =
    ap int64 (ground arith) ∙ int64_in_range (pos (t * second)) (omega arith, omega arith)

twice : (t : ℕ) → t < half32 → times_int (pos t) (pos 2) ≡ pos (t * 2)
twice t small = ap int64 (ground arith) ∙ int64_in_range (pos (t * 2)) (omega arith, omega arith)

-- The timeouts that NewServer sets.
starts :
    (heap : ℕ → Task) (cfg : MasterConfig) (has_k8s : Bool) (t : ℕ)
    → cfg.heartbeat_timeout ≡ pos t
    → 0 < t
    → t < half32
    → let r = (new_server heap cfg has_k8s).registry in
      (r.heartbeat_timeout ≡ pos (t * second)) × (r.unhealthy_timeout ≡ pos (t * 2 * second))
unfolding new_server Registry.new_registry Registry.set_node_removed_callback
starts heap cfg has_k8s t set some_time small = rw set (
    rw (seconds t (omega arith))
      (rw (twice t small) (rw (seconds (t * 2) (omega arith)) (ground arith))))

settings :
    (heap : ℕ → Task) (cfg : MasterConfig) (has_k8s : Bool) (z : System) (t : ℕ)
    → Reach (initial heap cfg has_k8s) z
    → cfg.heartbeat_timeout ≡ pos t
    → 0 < t
    → t < half32
    → (z.master.registry.heartbeat_timeout ≡ pos (t * second))
      × (z.master.registry.unhealthy_timeout ≡ pos (t * 2 * second))
settings heap cfg has_k8s z t r set some_time small =
    let first = starts heap cfg has_k8s t set some_time small in
    let same = Reach-Same r in (same.0 ∙ first.0, same.1 ∙ first.1)

monitor-registry :
    (m : Master) (now : Time) (visited : List (String × NodeInfo))
    → (monitor m now visited).registry ≡ (check_health m.registry now visited).0
unfolding monitor
monitor-registry m now visited =
    let (r, ids) = check_health m.registry now visited in
    remove_clients-registry ids (record m { registry = r })

heartbeat-registry :
    (m : Master) (id : String) (active : ℤ) (seen : Time)
    → str_eq id "" ≡ false
    → (heartbeat m id active seen).0.registry ≡ (Registry.heartbeat m.registry id active seen).0
unfolding heartbeat
heartbeat-registry m id active seen named = ground arith

-- In any reachable state of a master whose HeartbeatTimeout is positive and below 2^31 seconds, a
-- known node that sends a heartbeat, with an ID that is not empty, is still there, as the heartbeat
-- left it, after a health check of the monitor up to HeartbeatTimeout seconds later, over the nodes
-- in any order of the range.
pub heartbeat-monitor :
    (heap : ℕ → Task) (cfg : MasterConfig) (has_k8s : Bool) (z : System) (t : ℕ) (id : String)
    (n : NodeInfo) (active : ℤ) (seen now : Time) (visited : List (String × NodeInfo))
    → Reach (initial heap cfg has_k8s) z
    → cfg.heartbeat_timeout ≡ pos t
    → 0 < t
    → t < half32
    → str_eq id "" ≡ false
    → Map.get z.master.registry.nodes id ≡ some n
    → let m = (heartbeat z.master id active seen).0 in
      Visits m.registry.nodes visited
      → seen ≤ now
      → now ≤ seen + t * second
      → let m = (heartbeat z.master id active seen).0 in
        Map.get (monitor m now visited).registry.nodes id ≡ some (refreshed active seen n)
heartbeat-monitor heap cfg has_k8s z t id n active seen now visited r set some_time small named
      known order past recent =
    let s = settings heap cfg has_k8s z t r set some_time small in
    let beat = heartbeat-registry z.master id active seen named in
    rw (monitor-registry (heartbeat z.master id active seen).0 now visited) (
      rw beat (
        heartbeat_keeps z.master.registry id active seen now n visited known
          (subst (λ g. Visits g.nodes visited) beat order) past
          (subst (λ d. pos (now - seen) ≤ℤ d) (sym (s.0)) (omega arith))
          (rw (s.0) (rw (s.1) (omega arith)))))
