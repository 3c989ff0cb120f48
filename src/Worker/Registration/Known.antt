-- ===== src/Worker/Registration/Known.antt =====
-- Whether the master knows a worker (internal/worker/registration.go against
-- internal/master/server.go and registry.go).
use dist_command_exec.Prelude.{
  ◌≡◌, ◌≢◌, ◌⊎◌, inl, inr, refl, String, str_eq, eq_iff, Bool, true, false, Bool-cases,
  Option-cases, none, some, List, [], ◌∷◌, arith, if◌then◌else◌,
}
use dist_command_exec.Prelude.Int.{ℤ, int32}
use dist_command_exec.Prelude.Map
use dist_command_exec.Prelude.Map.{get-put_self}
use dist_command_exec.Types.{Time}
use dist_command_exec.Master.State.{Master}
use dist_command_exec.Master.Registry.{
  NodeInfo, NodeStatus, healthy, unhealthy, draining, refreshed, is_unhealthy,
}
use dist_command_exec.Master.Registry as Registry
use dist_command_exec.Master.Server as Master
use dist_command_exec.Worker.Registration.{
  Registration, Link, up, call, connect, register, register_request, beat, Turn, heartbeat_loop,
  serve, request_lost, reply_lost,
}

pub str_miss : (s : String) → s ≢ "" → str_eq s "" ≡ false
str_miss s h = elim (Bool-cases (str_eq s "")) [
  | inl hit ↦ absurd (h ((eq_iff s "").0 hit))
  | inr miss ↦ miss
]

-- What the master knows of the worker: it was heard of at the given time, and is not taken for
-- dead.
pub record IsKnown (m : Master) (id : String) (now : Time) : Type 0 where
  pub node : NodeInfo
  pub stored : Map.get m.registry.nodes id ≡ some node
  pub heard : node.last_seen ≡ now
  pub alive : node.status ≢ unhealthy

register_lem :
    (r : Registration) (dials : Bool) (now : Time) (m : Master)
    → r.worker_id ≢ ""
    → r.address ≢ ""
    → r.client ≡ true
    → IsKnown (register r dials up now m).1 r.worker_id now
      × ((register r dials up now m).0.registered ≡ true)
      × ((register r dials up now m).2 ≡ true)
unfolding register register_request call Master.register Master.node_of Registry.register Map.put
    Map.get
register_lem r dials now m named at connected =
    rw (connected, str_miss r.worker_id named, str_miss r.address at)
      (
        record {
          node = _;
          stored = get-put_self m.registry.nodes r.worker_id _;
          heard = refl;
          alive = λ h. ground (arith, h);
        },
        refl,
        refl,
      )

not_unhealthy : (s : NodeStatus) → (if is_unhealthy s then healthy else s) ≢ unhealthy
not_unhealthy healthy h = ground (arith, h)
not_unhealthy unhealthy h = ground (arith, h)
not_unhealthy draining h = ground (arith, h)

heartbeat-IsKnown :
    (m : Master) (id : String) (active : ℤ) (now : Time) (n : NodeInfo)
    → id ≢ ""
    → Map.get m.registry.nodes id ≡ some n
    → IsKnown (Master.heartbeat m id active now).0 id now
      × ((Master.heartbeat m id active now).1 ≡ Master.ok true)
unfolding Master.heartbeat Registry.heartbeat
heartbeat-IsKnown m id active now n named stored =
    rw (str_miss id named, stored)
      (
        record {
          node = refreshed active now n;
          stored = get-put_self m.registry.nodes id _;
          heard = refl;
          alive = λ h. not_unhealthy n.status h;
        },
        refl,
      )

heartbeat_unknown :
    (m : Master) (id : String) (active : ℤ) (now : Time)
    → id ≢ ""
    → Map.get m.registry.nodes id ≡ none
    → Master.heartbeat m id active now ≡ (m, Master.ok false)
unfolding Master.heartbeat Registry.heartbeat
heartbeat_unknown m id active now named absent = rw (str_miss id named, absent) refl

beat_unknown :
    (r : Registration) (t : Turn) (m : Master)
    → r.worker_id ≢ ""
    → r.registered ≡ true
    → t.link ≡ up
    → t.again ≡ up
    → Map.get m.registry.nodes r.worker_id ≡ none
    → beat r t m ≡ ((register r t.dials up t.later m).0, (register r t.dials up t.later m).1)
unfolding beat call
beat_unknown r t m named registered up_now up_then absent = simp (
  registered,
  up_now,
  up_then,
  heartbeat_unknown m r.worker_id (int32 t.active_tasks) t.now named absent,
)

beat_known :
    (r : Registration) (t : Turn) (m : Master) (n : NodeInfo)
    → r.worker_id ≢ ""
    → r.registered ≡ true
    → t.link ≡ up
    → Map.get m.registry.nodes r.worker_id ≡ some n
    → beat r t m ≡ (r, (Master.heartbeat m r.worker_id (int32 t.active_tasks) t.now).0)
unfolding beat call
beat_known r t m n named registered up_now stored = simp (
  registered,
  up_now,
  (heartbeat-IsKnown m r.worker_id (int32 t.active_tasks) t.now n named stored).1,
)

-- One turn of the heartbeat loop of a registered worker, with an ID and an address that are not
-- empty and a client, whose calls reach the master and return: whatever the master had done with
-- the node, it then knows the worker, has heard of it at the time of the heartbeat or of the new
-- registration, and does not take it for unhealthy; and the worker is still registered.
pub beat_lem :
    (r : Registration) (t : Turn) (m : Master)
    → r.worker_id ≢ ""
    → r.address ≢ ""
    → r.client ≡ true
    → r.registered ≡ true
    → t.link ≡ up
    → t.again ≡ up
    → (IsKnown (beat r t m).1 r.worker_id t.now ⊎ IsKnown (beat r t m).1 r.worker_id t.later)
      × ((beat r t m).0.registered ≡ true)
beat_lem r t m named at connected registered up_now up_then =
    elim (Option-cases (Map.get m.registry.nodes r.worker_id)) [
      | inl absent ↦
          let (known, again, _) = register_lem r t.dials t.later m named at connected in
          rw (beat_unknown r t m named registered up_now up_then absent) (inr known, again)
      | inr (n, stored) ↦
          let (known, _) =
            heartbeat-IsKnown m r.worker_id (int32 t.active_tasks) t.now n named stored in
          rw (beat_known r t m n named registered up_now stored) (inl known, registered)
    ]

-- The master without the worker.
abbrev pub alone : List ((Master → Master) × Turn) → Master → Master
alone [] m = m
alone ((meanwhile, t) ∷ ts) m = alone ts (meanwhile m)

unregistered_lem :
    (ts : List ((Master → Master) × Turn)) (r : Registration) (m : Master)
    → r.registered ≡ false
    → heartbeat_loop ts r m ≡ (r, alone ts m)
unfolding heartbeat_loop beat
unregistered_lem [] r m h = refl
unregistered_lem ((meanwhile, t) ∷ ts) r m h = simp (h, unregistered_lem ts r (meanwhile m) h)

failed_register :
    (r : Registration) (dials : Bool) (link : Link) (now : Time) (m : Master)
    → r.registered ≡ false
    → link ≢ up
    → (register r dials link now m).0.registered ≡ false
unfolding register call connect
failed_register r dials up now m h lost = absurd (lost refl)
failed_register r dials request_lost now m h lost = ground (arith, h)
failed_register r dials reply_lost now m h lost = ground (arith, h)

-- If the first registration of a worker that is not registered gets no answer, it never registers:
-- it sends nothing in any number of turns, and after the attempt the master changes only by its own
-- steps.
pub serve_unregistered :
    (r : Registration) (dials : Bool) (link : Link) (now : Time)
    (ts : List ((Master → Master) × Turn)) (m : Master)
    → r.registered ≡ false
    → link ≢ up
    → ((serve r dials link now ts m).0.registered ≡ false)
      × ((serve r dials link now ts m).1 ≡ alone ts (register r dials link now m).1)
unfolding serve
serve_unregistered r dials link now ts m h lost =
    let e = failed_register r dials link now m h lost in
    rw (unregistered_lem ts (register r dials link now m).0 (register r dials link now m).1 e)
      (e, refl)
