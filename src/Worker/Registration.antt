-- ===== src/Worker/Registration.antt =====
-- internal/worker/registration.go: how a worker makes itself known to the master and stays known.
-- The master is the model of internal/master; what the network does to a call is an argument of the
-- functions, and so is the clock.
pub mod Known
pub mod Leaving
use dist_command_exec.Prelude.{
  ◌*◌, String, Bool, true, false, not, ◌||◌, Option, none, some, List, [], ◌∷◌, if◌then◌else◌,
}
use dist_command_exec.Prelude.Int.{ℤ, pos, int32}
use dist_command_exec.Prelude.Map
use dist_command_exec.Prelude.Map.{Map}
use dist_command_exec.Worker.Server.{WorkerConfig}
use dist_command_exec.Types.{Time, Duration, second}
use dist_command_exec.Master.State.{Master}
use dist_command_exec.Master.Server.{Reply, ok, status, RegisterRequest, RegisterResponse}
use dist_command_exec.Master.Server as Master

-- The client connection is represented by whether there is one.
pub record Registration : Type 0 where
  pub worker_id : String
  pub address : String
  pub master_addr : String
  pub capabilities : List String
  pub max_tasks : ℤ
  pub labels : Map String
  pub client : Bool
  pub heartbeat_interval : Duration
  pub registered : Bool

pub record RegistrationConfig : Type 0 where
  pub worker_id : String
  pub address : String
  pub master_addr : String
  pub capabilities : List String
  pub max_tasks : ℤ
  pub labels : Map String

-- NewRegistration
unfoldable pub new_registration : RegistrationConfig → Registration
new_registration cfg = record {
  worker_id = cfg.worker_id;
  address = cfg.address;
  master_addr = cfg.master_addr;
  capabilities = cfg.capabilities;
  max_tasks = cfg.max_tasks;
  labels = cfg.labels;
  client = false;
  heartbeat_interval = pos (5 * second);
  registered = false;
}

-- The configuration that NewServer of internal/worker/server.go makes of the worker's own.
unfoldable pub registration_of : WorkerConfig → List String → RegistrationConfig
registration_of cfg capabilities = record {
  worker_id = cfg.id;
  address = cfg.address;
  master_addr = cfg.master_address;
  capabilities = capabilities;
  max_tasks = cfg.max_concurrent_tasks;
  labels = Map.empty;
}

-- What the network does to one call.
pub data Link : Type 0 where
  up request_lost reply_lost : Link

answer : {A : Type 0} → Reply A → Option A
answer (ok a) = some a
answer (status code) = none

-- A call of a handler over a link; `none` is an error.
unfoldable pub call : {A : Type 0} → Link → (Master → Master × Reply A) → Master → Master × Option A
unfolding answer
call up handler m = let (m', reply) = handler m in (m', answer reply)
call request_lost handler m = (m, none)
call reply_lost handler m = ((handler m).0, none)

-- Connect; `false` is an error.
unfoldable pub connect : Bool → Registration → Registration × Bool
connect dials r = if dials then (record r { client = true }, true) else (r, false)

unfoldable pub register_request : Registration → RegisterRequest
register_request r = record {
  worker_id = r.worker_id;
  address = r.address;
  capabilities = r.capabilities;
  max_concurrent_tasks = int32 r.max_tasks;
  labels = r.labels;
}

accepted : Registration → Master × Option RegisterResponse → Registration × Master × Bool
accepted r (m, none) = (r, m, false)
accepted r (m, some resp) =
    if resp.accepted
    then (record r { heartbeat_interval = resp.heartbeat_interval; registered = true }, m, true)
    else (r, m, false)

registered_with : Registration × Bool → Link → Time → Master → Registration × Master × Bool
registered_with (r, false) link now m = (r, m, false)
registered_with (r, true) link now m =
    accepted r (call link (λ m. Master.register m (register_request r) now) m)

-- Register. The master always sends an interval.
unfoldable pub register : Registration → Bool → Link → Time → Master → Registration × Master × Bool
unfolding accepted registered_with
register r dials link now m =
    registered_with (if r.client then (r, true) else connect dials r) link now m

deregistered : Registration → Master × Option Bool → Registration × Master × Bool
deregistered r (m, none) = (r, m, false)
deregistered r (m, some _) = (record r { registered = false }, m, true)

-- Deregister
unfoldable pub deregister : Registration → Link → Master → Registration × Master × Bool
unfolding deregistered
deregister r link m =
    if not r.client || not r.registered
    then (r, m, true)
    else deregistered r (call link (λ m. Master.deregister m r.worker_id) m)

-- What one turn of the heartbeat loop meets: the number of active tasks, and for the heartbeat and
-- the registration that may follow, the links and times.
pub record Turn : Type 0 where
  pub active_tasks : ℤ
  pub link : Link
  pub now : Time
  pub dials : Bool
  pub again : Link
  pub later : Time

acknowledged : Registration → Turn → Master × Option Bool → Registration × Master
acknowledged r t (m, none) = (r, m)
acknowledged r t (m, some true) = (r, m)
acknowledged r t (m, some false) =
    let (r', m', _) = register r t.dials t.again t.later m in (r', m')

-- One tick of HeartbeatLoop. The actions of the master are only logged.
unfoldable pub beat : Registration → Turn → Master → Registration × Master
unfolding acknowledged
beat r t m =
    if not r.registered
    then (r, m)
    else acknowledged r t
        (call t.link (λ m. Master.heartbeat m r.worker_id (int32 t.active_tasks) t.now) m)

-- HeartbeatLoop, until its context is done. Between two turns the master goes on, by a function of
-- its own.
unfoldable pub heartbeat_loop :
    List ((Master → Master) × Turn) → Registration → Master → Registration × Master
heartbeat_loop [] r m = (r, m)
heartbeat_loop ((meanwhile, t) ∷ ts) r m =
    let (r', m') = beat r t (meanwhile m) in heartbeat_loop ts r' m'

-- Run of internal/worker/server.go, as far as the registration goes: a first attempt, whose error
-- is only logged, and the loop.
unfoldable pub serve :
    Registration
    → Bool
    → Link
    → Time
    → List ((Master → Master) × Turn)
    → Master
    → Registration × Master
serve r dials link now ts m =
    let (r', m', _) = register r dials link now m in heartbeat_loop ts r' m'

-- Shutdown of internal/worker/server.go, as far as the registration goes: an error of Deregister is
-- only logged.
unfoldable pub shutdown : Registration → Link → Master → Registration × Master
shutdown r link m = let (r', m', _) = deregister r link m in (r', m')

-- IsRegistered
unfoldable pub is_registered : Registration → Bool
is_registered r = r.registered

-- Close: whether there is a connection to close.
unfoldable pub close : Registration → Bool
close r = r.client
