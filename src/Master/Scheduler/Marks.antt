-- ===== src/Master/Scheduler/Marks.antt =====
-- The scheduler's methods on a task that the table knows.
use dist_command_exec.Prelude.{
  ℕ, ◌≡◌, String, none, some, [], ◌∷◌, ◌++◌, arith, ltb, if◌then◌else◌, length,
}
use dist_command_exec.Prelude.Map
use dist_command_exec.Types.{Time, completed, failed}
use dist_command_exec.Master.Scheduler.{
  Scheduler, write, started, finished, reset, mark_running, mark_complete, mark_failed, requeue,
  queue_full,
}

pub mark_running_lem :
    (s : Scheduler) (id worker : String) (now : Time) (p : ℕ)
    → Map.get s.tasks id ≡ some p
    → mark_running s id worker now ≡ (write s p (started worker now (s.heap p)), none)
unfolding mark_running
mark_running_lem s id worker now p known = rw (known, mark_running)

pub mark_complete_lem :
    (s : Scheduler) (id : String) (now : Time) (p : ℕ)
    → Map.get s.tasks id ≡ some p
    → mark_complete s id now ≡ (write s p (finished completed now (s.heap p)), none)
unfolding mark_complete
mark_complete_lem s id now p known = rw (known, mark_complete)

pub mark_failed_lem :
    (s : Scheduler) (id : String) (now : Time) (p : ℕ)
    → Map.get s.tasks id ≡ some p
    → mark_failed s id now ≡ (write s p (finished failed now (s.heap p)), none)
unfolding mark_failed
mark_failed_lem s id now p known = rw (known, mark_failed)

-- Requeue resets the task in any case, and puts it into the queue if there is room.
pub requeue_lem :
    (s : Scheduler) (p : ℕ)
    → requeue s p ≡ (
        if ltb (length s.queue) s.capacity
        then (record (write s p (reset (s.heap p))) { queue = s.queue ++ p ∷ [] }, none)
        else (write s p (reset (s.heap p)), some queue_full))
unfolding requeue
requeue_lem s p = ground arith
