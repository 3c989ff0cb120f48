-- ===== src/Worker/Registration/Leaving.antt =====
-- A worker that shuts down (internal/worker/server.go and registration.go) and the master's
-- registry.
use dist_command_exec.Prelude.{
  ◌≡◌, ◌≢◌, ◌∙◌, inl, inr, subst, sym, arith, refl, String, str_eq, Bool, Bool-cases, not, true,
  false, Option, none, some, List, [], ◌∷◌, if◌then◌else◌,
}
use dist_command_exec.Prelude.Int.{int32}
use dist_command_exec.Prelude.Map
use dist_command_exec.Prelude.Map.{get-delete_self}
use dist_command_exec.Types.{Time}
use dist_command_exec.Master.State.{Master}
use dist_command_exec.Master.Registry as Registry
use dist_command_exec.Master.Dispatcher.{remove_client}
use dist_command_exec.Master.Server as Master
use dist_command_exec.Worker.Registration.{
  Registration, Link, Turn, up, call, connect, deregister, shutdown, accepted, register,
  registered_with, register_request, acknowledged, beat, heartbeat_loop,
}
use dist_command_exec.Worker.Registration.Known.{str_miss}

remove_client-registry : (m : Master) (id : String) → (remove_client m id).registry ≡ m.registry
unfolding remove_client
remove_client-registry m id = ground arith

deregister-registry :
    (m : Master) (id : String)
    → str_eq id "" ≡ false
    → ((Master.deregister m id).0.registry ≡ Registry.deregister m.registry id)
      × ((Master.deregister m id).1 ≡ Master.ok true)
unfolding Master.deregister
deregister-registry m id named =
    rw named
      (remove_client-registry (record m { registry = Registry.deregister m.registry id }) id, refl)

shutdown-eq :
    (r : Registration) (m : Master)
    → r.client ≡ true
    → r.registered ≡ true
    → (Master.deregister m r.worker_id).1 ≡ Master.ok true
    → shutdown r up m ≡ (record r { registered = false }, (Master.deregister m r.worker_id).0)
unfolding shutdown deregister call
shutdown-eq r m connected registered acknowledged = simp (connected, registered, acknowledged)

-- A registered worker that shuts down, with an ID that is not empty and a call that reaches the
-- master: the master has no node for it, and it is not registered any more.
pub shutdown_lem :
    (r : Registration) (m : Master)
    → r.worker_id ≢ ""
    → r.client ≡ true
    → r.registered ≡ true
    → (Map.get (shutdown r up m).1.registry.nodes r.worker_id ≡ none)
      × ((shutdown r up m).0.registered ≡ false)
unfolding Registry.deregister
shutdown_lem r m named connected registered =
    let (gone, acknowledged) = deregister-registry m r.worker_id (str_miss r.worker_id named) in
    rw (shutdown-eq r m connected registered acknowledged, gone)
      (get-delete_self m.registry.nodes r.worker_id, refl)

-- A worker that stays registered, under its ID and with its connection.
pub record Stays (r s : Registration) : Type 0 where
  pub same : s.worker_id ≡ r.worker_id
  pub connected : s.client ≡ true
  pub listed : s.registered ≡ true

Stays-trans : (r s t : Registration) → Stays r s → Stays s t → Stays r t
Stays-trans r s t a b = record {
  same = b.same ∙ a.same;
  connected = b.connected;
  listed = b.listed;
}

-- Whatever a registration that is on record meets, it is still on record.
accepted-Stays :
    (r : Registration) (x : Master × Option Master.RegisterResponse)
    → Stays r r
    → Stays r (accepted r x).0
unfolding accepted
accepted-Stays r (m, none) v = v
accepted-Stays r (m, some resp) v = elim (Bool-cases resp.accepted) [
  | inl yes_ ↦ rw yes_ (record { same = refl; connected = v.connected; listed = refl })
  | inr no_ ↦ rw no_ v
]

register-Stays :
    (r : Registration) (dials : Bool) (link : Link) (now : Time) (m : Master)
    → Stays r r
    → Stays r (register r dials link now m).0
unfolding register registered_with
register-Stays r dials link now m v =
    subst (λ b. Stays r (registered_with (if b then (r, true) else connect dials r) link now m).0)
      (sym v.connected)
      (accepted-Stays r (call link (λ m. Master.register m (register_request r) now) m) v)

acknowledged-Stays :
    (r : Registration) (t : Turn) (x : Master × Option Bool)
    → Stays r r
    → Stays r (acknowledged r t x).0
unfolding acknowledged
acknowledged-Stays r t (m, none) v = v
acknowledged-Stays r t (m, some true) v = v
acknowledged-Stays r t (m, some false) v = register-Stays r t.dials t.again t.later m v

beat-Stays : (r : Registration) (t : Turn) (m : Master) → Stays r r → Stays r (beat r t m).0
unfolding beat
beat-Stays r t m v =
    let sent = call t.link (λ m. Master.heartbeat m r.worker_id (int32 t.active_tasks) t.now) m in
    subst (λ b. Stays r (if not b then (r, m) else acknowledged r t sent).0) (sym v.listed)
      (acknowledged-Stays r t sent v)

pub heartbeat_loop-Stays :
    (ts : List ((Master → Master) × Turn)) (r : Registration) (m : Master)
    → Stays r r
    → Stays r (heartbeat_loop ts r m).0
unfolding heartbeat_loop
heartbeat_loop-Stays [] r m v = v
heartbeat_loop-Stays ((meanwhile, t) ∷ ts) r m v =
    let s = (beat r t (meanwhile m)).0 in
    let w = beat-Stays r t (meanwhile m) v in
    Stays-trans r s (heartbeat_loop ts s (beat r t (meanwhile m)).1).0 w (
      heartbeat_loop-Stays ts s (beat r t (meanwhile m)).1
        (record { same = refl; connected = w.connected; listed = w.listed }))
