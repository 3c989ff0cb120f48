-- ===== src/Master/System/Pool.antt =====
-- The client pool of the dispatcher (clients and conns) in the states that the master reaches.
use dist_command_exec.Prelude.{
  ℕ, ◌≡◌, ◌∙◌, sym, refl, String, Bool, false, Option, none, some, List, [], ◌∷◌, arith, str_eq,
  eq_iff, if◌then◌else◌, Bool-cases, Option-cases, inl, inr,
}
use dist_command_exec.Prelude.Int.{ℤ}
use dist_command_exec.Prelude.Map
use dist_command_exec.Prelude.Map.{get-put, get-delete}
use dist_command_exec.Types.{Task, Time}
use dist_command_exec.Master.Registry.{NodeInfo, check_health, decrement_active_tasks}
use dist_command_exec.Master.Scaler.{Api}
use dist_command_exec.Master.Registry
use dist_command_exec.Master.State.{Master}
use dist_command_exec.Master.Dispatcher.{
  ExecuteRequest, ExecuteResponse, get_client, send, give_up, fail, complete, choose, remove_client,
}
use dist_command_exec.Master.Server.{
  SubmitRequest, RegisterRequest, MasterConfig, submit, accept, cancel_write, register, deregister,
  heartbeat, monitor, remove_clients, new_server,
}
use dist_command_exec.Master.System.{
  System, Pc, Reach, Step, here, later, after_send, submits, asks, cancels, registers, deregisters,
  beats, monitors, takes, selects, requeues, sends, replies,
}
use dist_command_exec.Master.System.Invariant.{initial}

abbrev pub IsPaired : Master → Type 0
IsPaired m = (id : String) → Map.get m.clients id ≡ Map.get m.conns id

-- The pool is left alone.
abbrev SamePool : Master → Master → Type 0
SamePool m m' = (m'.clients ≡ m.clients) × (m'.conns ≡ m.conns)

keep-IsPaired : (m m' : Master) → SamePool m m' → IsPaired m → IsPaired m'
keep-IsPaired m m' (a, b) v id = rw (a, b) (v id)

accept-SamePool :
    (m : Master) (req : SubmitRequest) (id : String) (p : ℕ) (now : Time)
    → SamePool m (accept m req id p now).0
unfolding accept
accept-SamePool m req id p now = ground arith

submit-SamePool :
    (m : Master) (req : SubmitRequest) (id : String) (p : ℕ) (now : Time)
    → SamePool m (submit m req id p now).0
unfolding submit
submit-SamePool m req id p now = ground (arith, accept-SamePool m req id p now)

cancel-SamePool : (m : Master) (id : String) → SamePool m (cancel_write m id)
cancel-SamePool m id = ground arith

register-SamePool :
    (m : Master) (req : RegisterRequest) (now : Time) → SamePool m (register m req now).0
unfolding register
register-SamePool m req now = ground arith

heartbeat-SamePool :
    (m : Master) (id : String) (active : ℤ) (now : Time) → SamePool m (heartbeat m id active now).0
unfolding heartbeat
heartbeat-SamePool m id active now = ground arith

give_up-SamePool : (m : Master) (p : ℕ) (now : Time) → SamePool m (give_up m p now)
unfolding give_up
give_up-SamePool m p now = ground arith

fail-SamePool : (m : Master) (p : ℕ) (node : NodeInfo) (now : Time) → SamePool m (fail m p node now)
unfolding fail
fail-SamePool m p node now =
    give_up-SamePool (record m { registry = decrement_active_tasks m.registry node.id }) p now

complete-SamePool :
    (m : Master) (p : ℕ) (node : NodeInfo) (resp : ExecuteResponse) (now : Time)
    → SamePool m (complete m p node resp now)
unfolding complete
complete-SamePool m p node resp now = (refl, refl)

choose-SamePool :
    (m : Master) (now : Time) (api : Api) (seen : List NodeInfo)
    (visited : List (String × NodeInfo))
    → SamePool m (choose m now api seen visited).0
unfolding choose
choose-SamePool m now api seen visited = (refl, refl)

-- Removal takes a client and its connection.
get-remove_client :
    (m : Master) (id j : String)
    → IsPaired m
    → (Map.get (remove_client m id).clients j ≡ (if str_eq id j then none else Map.get m.clients j))
      × (Map.get (remove_client m id).conns j ≡ (if str_eq id j then none else Map.get m.conns j))
unfolding remove_client
get-remove_client m id j v = elim (Option-cases (Map.get m.conns id)) [
  | inl absent ↦
      rw absent (ground (arith, absent, v id, eq_iff id j), ground (arith, absent, eq_iff id j))
  | inr (address, there) ↦ rw there (get-delete m.clients id j, get-delete m.conns id j)
]

remove_client-IsPaired : (m : Master) (id : String) → IsPaired m → IsPaired (remove_client m id)
remove_client-IsPaired m id v j = let (a, b) = get-remove_client m id j v in rw (a, b, v j) refl

remove_clients-IsPaired :
    (ids : List String) (m : Master) → IsPaired m → IsPaired (remove_clients ids m)
unfolding remove_clients
remove_clients-IsPaired [] m v = v
remove_clients-IsPaired (id ∷ ids) m v =
    remove_clients-IsPaired ids (remove_client m id) (remove_client-IsPaired m id v)

get_client-IsPaired :
    (m : Master) (node : NodeInfo) (dials : Bool)
    → IsPaired m
    → IsPaired (get_client m node dials).0
unfolding get_client
get_client-IsPaired m node dials v j = elim (Option-cases (Map.get m.clients node.id)) [
  | inr (address, pooled) ↦ rw pooled (v j)
  | inl unpooled ↦ elim (Bool-cases dials) [
    | inl up ↦
        rw (unpooled, up)
          (get-put m.clients node.id j node.address
            ∙ sym (rw (get-put m.conns node.id j node.address, ← v j) refl))
    | inr down ↦ rw (unpooled, down) (v j)
  ]
]

send-SamePool :
    (m : Master) (p : ℕ) (node : NodeInfo) (dials : Bool) (now : Time)
    → SamePool (get_client m node dials).0 (send m p node dials now).0
unfolding send
send-SamePool m p node dials now = ground arith

send-IsPaired :
    (m : Master) (p : ℕ) (node : NodeInfo) (dials : Bool) (now : Time)
    → IsPaired m
    → IsPaired (send m p node dials now).0
send-IsPaired m p node dials now v =
    keep-IsPaired (get_client m node dials).0 (send m p node dials now).0
      (send-SamePool m p node dials now) (get_client-IsPaired m node dials v)

after_send-IsPaired :
    (p : ℕ) (node : NodeInfo) (now : Time) (xs ys : List (ℕ × Pc)) (y : System)
    (sent : Option (String × ExecuteRequest))
    → IsPaired y.master
    → IsPaired (after_send p node now xs ys y sent).master
after_send-IsPaired p node now xs ys y none v =
    keep-IsPaired y.master (give_up y.master p now) (give_up-SamePool y.master p now) v
after_send-IsPaired p node now xs ys y (some _) v = v

deregister-IsPaired : (m : Master) (id : String) → IsPaired m → IsPaired (deregister m id).0
unfolding deregister
deregister-IsPaired m id v = elim (Bool-cases (str_eq id "")) [
  | inl blank ↦ rw blank v
  | inr given ↦
      rw given
        (remove_client-IsPaired (record m { registry = Registry.deregister m.registry id }) id v)
]

monitor-IsPaired :
    (m : Master) (now : Time) (visited : List (String × NodeInfo))
    → IsPaired m
    → IsPaired (monitor m now visited)
unfolding monitor
monitor-IsPaired m now visited v =
    remove_clients-IsPaired (check_health m.registry now visited).1
      (record m { registry = (check_health m.registry now visited).0 }) v

Step-IsPaired : {y z : System} → Step y z → IsPaired y.master → IsPaired z.master
Step-IsPaired {y} (submits req id now new) v =
    keep-IsPaired y.master (submit y.master req id y.fresh now).0
      (submit-SamePool y.master req id y.fresh now) v
Step-IsPaired {y} (asks id job named there can) v = v
Step-IsPaired {y} (cancels xs ys id e) v =
    keep-IsPaired y.master (cancel_write y.master id) (cancel-SamePool y.master id) v
Step-IsPaired {y} (registers req now) v =
    keep-IsPaired y.master (register y.master req now).0 (register-SamePool y.master req now) v
Step-IsPaired {y} (deregisters id) v = deregister-IsPaired y.master id v
Step-IsPaired {y} (beats id active now) v =
    keep-IsPaired y.master (heartbeat y.master id active now).0
      (heartbeat-SamePool y.master id active now) v
Step-IsPaired {y} (monitors now visited) v = monitor-IsPaired y.master now visited v
Step-IsPaired {y} (takes done choice p s e) v = v
Step-IsPaired {y} (selects xs ys p now api seen visited e) v =
    keep-IsPaired y.master (choose y.master now api seen visited).0
      (choose-SamePool y.master now api seen visited) v
Step-IsPaired {y} (requeues xs ys p e) v = v
Step-IsPaired {y} (sends xs ys p node dials now e) v =
    after_send-IsPaired p node now xs ys (record y { master = (send y.master p node dials now).0 })
      (send y.master p node dials now).1 (send-IsPaired y.master p node dials now v)
Step-IsPaired {y} (replies xs ys p node none now e) v =
    keep-IsPaired y.master (fail y.master p node now) (fail-SamePool y.master p node now) v
Step-IsPaired {y} (replies xs ys p node (some resp) now e) v =
    keep-IsPaired y.master (complete y.master p node resp now)
      (complete-SamePool y.master p node resp now) v

Reach-IsPaired : {y z : System} → Reach y z → IsPaired y.master → IsPaired z.master
Reach-IsPaired here v = v
Reach-IsPaired (later r s) v = Step-IsPaired s (Reach-IsPaired r v)

-- In every state that the master reaches from its start, after a Deregister of a node with an ID
-- that is not empty the dispatcher has neither client nor connection for it, every other node has
-- those that it had, and clients and connections stand under the same IDs.
pub deregister-pool :
    (heap : ℕ → Task) (cfg : MasterConfig) (has_k8s : Bool) (z : System) (id j : String)
    → Reach (initial heap cfg has_k8s) z
    → str_eq id "" ≡ false
    → let m' = (deregister z.master id).0 in
      (Map.get m'.clients j ≡ (if str_eq id j then none else Map.get z.master.clients j))
      × (Map.get m'.conns j ≡ Map.get m'.clients j)
unfolding deregister new_server
deregister-pool heap cfg has_k8s z id j r given =
    let v = Reach-IsPaired r (λ k. refl) in
    (
      rw given
          (get-remove_client
            (record z.master { registry = Registry.deregister z.master.registry id }) id j v).0,
      sym (deregister-IsPaired z.master id v j),
    )
