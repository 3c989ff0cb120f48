-- ===== src/Master/Scheduler.antt =====
-- internal/master/scheduler.go: the bounded queue of pending tasks and the table of all tasks.
--
-- Queue, table and dispatcher share `*types.Task` pointers: `heap` maps each pointer, a number, to
-- its task, and queue and table hold pointers. `pending` is the buffered channel, oldest first. A
-- method whose work falls into two critical sections is the composition of two functions, so that
-- the other goroutines can be interleaved between them.
pub mod Marks
pub mod Queue
pub mod Enqueue
use dist_command_exec.Prelude.{
  ℕ, ◌+◌, String, Bool, true, false, ◌&&◌, Option, none, some, List, [], ◌∷◌, ◌++◌, map, ltb,
  if◌then◌else◌, length, update,
}
use dist_command_exec.Prelude.Int.{ℤ, pos, ltb_ℤ, leb_ℤ, pos_part, ◌+ℤ◌, int64}
use dist_command_exec.Prelude.Map
use dist_command_exec.Prelude.Map.{Map}
use dist_command_exec.Types.{Time, Task, TaskStatus, pending, running, completed, failed, Result}
use dist_command_exec.Master.Paging.{page_loop}

pub data Error : Type 0 where
  queue_full task_exists task_not_found : Error

pub record Scheduler : Type 0 where
  pub heap : ℕ → Task
  pub queue : List ℕ
  pub capacity : ℕ
  pub tasks : Map ℕ
  pub max_queue : ℤ

abbrev pub at_most_zero : ℤ → Bool
at_most_zero n = leb_ℤ n (pos 0)

-- NewScheduler, over a heap that other code may have filled.
unfoldable pub new_scheduler : (ℕ → Task) → ℤ → Scheduler
new_scheduler heap size =
    let max_queue = if at_most_zero size then pos 10000 else size in
    record {
      heap = heap;
      queue = [];
      capacity = pos_part max_queue;
      tasks = Map.empty;
      max_queue = max_queue;
    }

abbrev pub write : Scheduler → ℕ → Task → Scheduler
write s p t = record s { heap = update s.heap p t }

-- The non-blocking send of Enqueue and Requeue: `false` is the `default` case.
unfoldable pub send : Scheduler → ℕ → Scheduler × Bool
send s p =
    if ltb (length s.queue) s.capacity
    then (record s { queue = s.queue ++ p ∷ [] }, true)
    else (s, false)

-- The first critical section of Enqueue: `none` is ErrTaskExists.
reserve_new : Scheduler → ℕ → Option ℕ → Option Scheduler
reserve_new s p (some _) = none
reserve_new s p none =
    let t = s.heap p in
    some (record (write s p (record t { status = pending })) { tasks = Map.put s.tasks t.id p })

unfoldable pub reserve : Scheduler → ℕ → Option Scheduler
unfolding reserve_new
reserve s p = reserve_new s p (Map.get s.tasks (s.heap p).id)

-- The rest of Enqueue: the send, and the roll-back if the queue is full.
rolled_back : ℕ → Scheduler × Bool → Scheduler × Option Error
rolled_back p (s, true) = (s, none)
rolled_back p (s, false) = (record s { tasks = Map.delete s.tasks (s.heap p).id }, some queue_full)

unfoldable pub commit : Scheduler → ℕ → Scheduler × Option Error
unfolding rolled_back send
commit s p = rolled_back p (send s p)

enqueued : Scheduler → ℕ → Option Scheduler → Scheduler × Option Error
enqueued s p none = (s, some task_exists)
enqueued s p (some reserved) = commit reserved p

-- Enqueue
unfoldable pub enqueue : Scheduler → ℕ → Scheduler × Option Error
unfolding enqueued reserve commit
enqueue s p = enqueued s p (reserve s p)

-- What Dequeue, or the `select` of the loop Run, does: it waits, gives up since the context is
-- done, or takes a task from the queue.
pub data Received : Type 0 where
  blocked : Received
  stopped : Received
  received : ℕ → Scheduler → Received

pub receive : Bool → Bool → Scheduler → List ℕ → Received
receive true choice s [] = stopped
receive false choice s [] = blocked
receive done choice s (p ∷ rest) =
    if done && choice then stopped else received p (record s { queue = rest })

-- Dequeue. `done` says whether the context is done; where both cases are ready Go picks one at
-- random, and `choice` is true if it picks the context.
unfoldable pub dequeue : Bool → Bool → Scheduler → Received
unfolding receive
dequeue done choice s = receive done choice s s.queue

-- A method that looks a task up by its ID and writes it.
mark : (Task → Task) → Scheduler → Option ℕ → Scheduler × Option Error
mark f s none = (s, some task_not_found)
mark f s (some p) = (write s p (f (s.heap p)), none)

abbrev pub started : String → Time → Task → Task
started worker now t = record t { status = running; started_at = some now; worker_id = worker }

abbrev pub finished : TaskStatus → Time → Task → Task
finished status now t = record t { status = status; completed_at = some now }

-- MarkRunning
unfoldable pub mark_running : Scheduler → String → String → Time → Scheduler × Option Error
unfolding mark
mark_running s id worker now = mark (started worker now) s (Map.get s.tasks id)

-- MarkComplete; its result argument is not used.
unfoldable pub mark_complete : Scheduler → String → Time → Scheduler × Option Error
unfolding mark
mark_complete s id now = mark (finished completed now) s (Map.get s.tasks id)

-- MarkFailed; its error argument is not used.
unfoldable pub mark_failed : Scheduler → String → Time → Scheduler × Option Error
unfolding mark
mark_failed s id now = mark (finished failed now) s (Map.get s.tasks id)

abbrev pub reset : Task → Task
reset t = record t {
  retries = int64 (t.retries +ℤ pos 1);
  status = pending;
  worker_id = "";
  started_at = none;
}

sent : Scheduler × Bool → Scheduler × Option Error
sent (s, true) = (s, none)
sent (s, false) = (s, some queue_full)

-- Requeue
unfoldable pub requeue : Scheduler → ℕ → Scheduler × Option Error
unfolding send sent
requeue s p = sent (send (write s p (reset (s.heap p))) p)

-- GetTask
unfoldable pub get_task : Scheduler → String → Option ℕ
get_task s id = Map.get s.tasks id

-- PendingCount
unfoldable pub pending_count : Scheduler → ℕ
pending_count s = length s.queue

-- ListTasks, over the tasks in the order in which `range` yields them.
unfoldable pub list_tasks : Scheduler → TaskStatus → ℤ → ℤ → List (String × ℕ) → List ℕ
list_tasks s filter limit offset visited =
    page_loop (λ p. (s.heap p).status) filter limit offset (map (λ e. e.1) visited) 0 []

-- Run, for as many turns of its `select` as the list has entries, each with whether the context is
-- done and which case Go picks. `dispatch` is what the callback does to a state of its own.
unfoldable pub run {ℓ} :
    {D : Type ℓ} → (ℕ → D → D) → List (Bool × Bool) → Scheduler → D → Scheduler × D
run dispatch [] s d = (s, d)
run dispatch ((done, choice) ∷ turns) s d = elim (receive done choice s s.queue) [
  | blocked ↦ run dispatch turns s d
  | stopped ↦ (s, d)
  | received p s' ↦ run dispatch turns s' (dispatch p d)
]
