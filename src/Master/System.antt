-- ===== src/Master/System.antt =====
-- The master as a system of goroutines: the handlers of internal/master/server.go, the health
-- monitor of internal/master/registry.go, and one dispatchTask of internal/master/dispatcher.go for
-- each task taken from the queue. A step is what one goroutine does between two points where it
-- waits; within dispatchTask these are the points at which Master.Dispatcher cuts it. What comes
-- from outside is chosen by the step: requests, times, job IDs, replies of workers, and the order
-- of each `range`.
pub mod Core
pub mod Moves
pub mod View
pub mod Handlers
pub mod Dispatching
pub mod Invariant
pub mod Jobs
pub mod Life
pub mod History
pub mod Onwards
pub mod Future
pub mod Final
pub mod Pool
pub mod Scaling
pub mod Timing
pub mod Completed
use dist_command_exec.Prelude.{
  ℕ, ◌+◌, ◌≡◌, String, Bool, Option, none, some, List, [], ◌∷◌, ◌++◌, map, str_eq, false, true,
}
use dist_command_exec.Prelude.Int.{ℤ}
use dist_command_exec.Prelude.Map
use dist_command_exec.Types.{Time}
use dist_command_exec.Master.Store.{Job, get_job}
use dist_command_exec.Master.Scheduler.{Scheduler, Received, received, dequeue}
use dist_command_exec.Master.Registry.{NodeInfo}
use dist_command_exec.Master.Scaler.{Api}
use dist_command_exec.Master.State.{Master}
use dist_command_exec.Master.Dispatcher.{
  Choice, starved, unbalanced, chosen, ExecuteRequest, ExecuteResponse, requeued, choose, send,
  give_up, fail, complete,
}
use dist_command_exec.Master.Server.{
  SubmitRequest, RegisterRequest, submit, can_cancel, cancel_write, register, deregister, heartbeat,
  monitor,
}

-- Where a dispatchTask stands.
pub data Pc : Type 0 where
  -- It has a task from the queue.
  taken : Pc
  -- It is about to requeue its task, now or after the retry delay.
  resting : Pc
  -- It has selected a node.
  selected : NodeInfo → Pc
  -- It waits for the reply of a node.
  calling : NodeInfo → Pc

-- `held` are the running dispatchTasks with their tasks, `cancelling` the job IDs of the Cancels
-- between check and write; `fresh` is the next pointer that Go hands out.
pub record System : Type 0 where
  pub master : Master
  pub held : List (ℕ × Pc)
  pub cancelling : List String
  pub fresh : ℕ

-- Where dispatchTask goes on after the selection.
abbrev pub after_choice : Choice → Pc
after_choice starved = resting
after_choice unbalanced = resting
after_choice (chosen node) = selected node

-- After the attempt to send: it waits for the reply, or it has no client and gives up.
abbrev pub after_send :
    ℕ
    → NodeInfo
    → Time
    → List (ℕ × Pc)
    → List (ℕ × Pc)
    → System
    → Option (String × ExecuteRequest)
    → System
after_send p node now xs ys y none = record y { master = give_up y.master p now; held = xs ++ ys }
after_send p node now xs ys y (some _) = record y { held = xs ++ (p, calling node) ∷ ys }

abbrev pub after_reply : ℕ → NodeInfo → Time → Master → Option ExecuteResponse → Master
after_reply p node now m none = fail m p node now
after_reply p node now m (some resp) = complete m p node resp now

pub data Step (y : System) : System → Type 0 where
  -- A job ID from uuid.New is new.
  submits :
      (req : SubmitRequest) (id : String) (now : Time)
      → Map.get y.master.store.jobs id ≡ none
      → Step y (record y { master = (submit y.master req id y.fresh now).0; fresh = y.fresh + 1 })
  -- Cancel has read a status that may be cancelled. One that is refused changes nothing.
  asks :
      (id : String) (job : Job)
      → str_eq id "" ≡ false
      → get_job y.master.store id ≡ some job
      → can_cancel job.status ≡ true
      → Step y (record y { cancelling = id ∷ y.cancelling })
  -- It writes, whatever the status is by now.
  cancels :
      (xs ys : List String) (id : String)
      → y.cancelling ≡ xs ++ id ∷ ys
      → Step y (record y { master = cancel_write y.master id; cancelling = xs ++ ys })
  registers :
      (req : RegisterRequest) (now : Time)
      → Step y (record y { master = (register y.master req now).0 })
  deregisters : (id : String) → Step y (record y { master = (deregister y.master id).0 })
  beats :
      (id : String) (active : ℤ) (now : Time)
      → Step y (record y { master = (heartbeat y.master id active now).0 })
  monitors :
      (now : Time) (visited : List (String × NodeInfo))
      → Step y (record y { master = monitor y.master now visited })
  takes :
      (done choice : Bool) (p : ℕ) (s : Scheduler)
      → dequeue done choice y.master.scheduler ≡ received p s
      → Step y (record y { master = record y.master { scheduler = s }; held = (p, taken) ∷ y.held })
  selects :
      (xs ys : List (ℕ × Pc)) (p : ℕ) (now : Time) (api : Api) (seen : List NodeInfo)
      (visited : List (String × NodeInfo))
      → y.held ≡ xs ++ (p, taken) ∷ ys
      → Step y (record y {
        master = (choose y.master now api seen visited).0;
        held = xs ++ (p, after_choice (choose y.master now api seen visited).1) ∷ ys;
      })
  requeues :
      (xs ys : List (ℕ × Pc)) (p : ℕ)
      → y.held ≡ xs ++ (p, resting) ∷ ys
      → Step y (record y { master = requeued y.master p; held = xs ++ ys })
  sends :
      (xs ys : List (ℕ × Pc)) (p : ℕ) (node : NodeInfo) (dials : Bool) (now : Time)
      → y.held ≡ xs ++ (p, selected node) ∷ ys
      → Step y (
          after_send p node now xs ys
            (record y { master = (send y.master p node dials now).0 })
            (send y.master p node dials now).1)
  replies :
      (xs ys : List (ℕ × Pc)) (p : ℕ) (node : NodeInfo) (reply : Option ExecuteResponse)
      (now : Time)
      → y.held ≡ xs ++ (p, calling node) ∷ ys
      → Step y (record y { master = after_reply p node now y.master reply; held = xs ++ ys })

pub data Reach (y : System) : System → Type 0 where
  here : Reach y y
  later : {u v : System} → Reach y u → Step u v → Reach y v
