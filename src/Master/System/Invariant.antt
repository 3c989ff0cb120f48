-- ===== src/Master/System/Invariant.antt =====
-- The core invariant over the steps of the system, from the state that NewServer makes.
use dist_command_exec.Prelude.{ℕ, ap, Bool, none, some, [], ◌∷◌, ◌++◌, arith, length, occurs}
use dist_command_exec.Prelude.Map.{get-empty}
use dist_command_exec.Types.{Task}
use dist_command_exec.Master.Store.{new_store, Job}
use dist_command_exec.Master.Scheduler.{new_scheduler}
use dist_command_exec.Master.Scheduler.Queue.{dequeue-received}
use dist_command_exec.Master.Dispatcher.{choose}
use dist_command_exec.Master.Server.{
  MasterConfig, new_server, register, deregister, heartbeat, monitor,
}
use dist_command_exec.Master.System.{
  System, taken, resting, calling, Step, Reach, after_choice, submits, asks, cancels, registers,
  deregisters, beats, monitors, takes, selects, requeues, sends, replies, here, later,
}
use dist_command_exec.Master.System.Core.{Inv, move-Inv}
use dist_command_exec.Master.System.View.{
  Same-Inv, core, pointers, register-Same, deregister-Same, heartbeat-Same, monitor-Same,
  choose-Same,
}
use dist_command_exec.Master.System.Handlers.{cancel_write-Inv, submit-Inv}
use dist_command_exec.Master.System.Dispatching.{
  send-Inv, requeued-Inv, complete-Inv, fail-Inv, repoint-Inv, held-Splits,
}

-- Every step of the system keeps the invariant.
pub Step-Inv : {y z : System} → Step y z → Inv (core y) → Inv (core z)
Step-Inv {y} (submits req id now new) v =
    submit-Inv y.master req id now (pointers y.held) y.fresh new v
Step-Inv {y} (asks id job named there can) v = v
Step-Inv {y} (cancels xs ys id e) v = cancel_write-Inv y.master id (pointers y.held) y.fresh v
Step-Inv {y} (registers req now) v =
    Same-Inv y.master (register y.master req now).0 (pointers y.held) y.fresh
      (register-Same y.master req now) v
Step-Inv {y} (deregisters id) v =
    Same-Inv y.master (deregister y.master id).0 (pointers y.held) y.fresh
      (deregister-Same y.master id) v
Step-Inv {y} (beats id active now) v =
    Same-Inv y.master (heartbeat y.master id active now).0 (pointers y.held) y.fresh
      (heartbeat-Same y.master id active now) v
Step-Inv {y} (monitors now visited) v =
    Same-Inv y.master (monitor y.master now visited) (pointers y.held) y.fresh
      (monitor-Same y.master now visited) v
Step-Inv {y} (takes done choice p s e) v =
    let (rest, head, next) = dequeue-received y.master.scheduler s done choice p e in
    rw next (
      move-Inv (core y) rest (p ∷ pointers y.held) v (λ q. omega (arith, ap (occurs q) head))
        (λ q. omega (arith, ap (occurs q) head)) (omega (arith, ap length head)))
Step-Inv {y} (selects xs ys p now api seen visited e) v =
    Same-Inv y.master (choose y.master now api seen visited).0
      (pointers (xs ++ (p, after_choice (choose y.master now api seen visited).1) ∷ ys)) y.fresh
      (choose-Same y.master now api seen visited)
      (repoint-Inv y p taken (after_choice (choose y.master now api seen visited).1) xs ys v e)
Step-Inv {y} (requeues xs ys p e) v =
    requeued-Inv y.master p y.fresh (pointers y.held) (pointers (xs ++ ys)) v
      (held-Splits y p resting xs ys e)
Step-Inv {y} (sends xs ys p node dials now e) v = send-Inv y p node dials now xs ys v e
Step-Inv {y} (replies xs ys p node none now e) v =
    fail-Inv y.master p y.fresh (pointers y.held) (pointers (xs ++ ys)) node now v
      (held-Splits y p (calling node) xs ys e)
Step-Inv {y} (replies xs ys p node (some resp) now e) v =
    complete-Inv y.master p y.fresh (pointers y.held) (pointers (xs ++ ys)) node resp now v
      (held-Splits y p (calling node) xs ys e)

-- From a state where it holds, it holds in every state that can be reached.
pub Reach-Inv : {y z : System} → Reach y z → Inv (core y) → Inv (core z)
Reach-Inv here v = v
Reach-Inv (later r s) v = Step-Inv s (Reach-Inv r v)

-- The state that NewServer makes.
abbrev pub initial : (ℕ → Task) → MasterConfig → Bool → System
initial heap cfg has_k8s = record {
  master = new_server heap cfg has_k8s;
  held = [];
  cancelling = [];
  fresh = 0;
}

pub initial-Inv :
    (heap : ℕ → Task) (cfg : MasterConfig) (has_k8s : Bool) → Inv (core (initial heap cfg has_k8s))
unfolding new_server new_scheduler new_store
initial-Inv heap cfg has_k8s = record {
  unique = λ p. omega arith;
  tracked = λ p h. absurd (omega arith);
  keyed = λ id p h. absurd (ground (arith, get-empty {V = ℕ} id));
  allocated = λ id p h. absurd (ground (arith, get-empty {V = ℕ} id));
  known = λ id h. get-empty {V = ℕ} id;
  recorded = λ id job h. absurd (ground (arith, get-empty {V = Job} id));
  waiting = λ p h. absurd (omega arith);
  bounded = omega arith;
}
