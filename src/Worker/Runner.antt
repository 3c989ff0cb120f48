-- ===== src/Worker/Runner.antt =====
-- internal/worker/runner.go: the bound on running tasks, the table of their cancel functions, and
-- the wait group. A cancel function is the number of the call of Run that it belongs to. Run is cut
-- at each access to shared state: `track`, `count`, `join`, then the executor, then `untrack`,
-- `uncount`, `leave`.
use dist_command_exec.Prelude.{
  ℕ, suc, ◌-◌, ◌==◌, String, Bool, true, false, Option, none, some, List, map, if◌then◌else◌,
}
use dist_command_exec.Prelude.Int.{ℤ, pos, ◌+ℤ◌, ◌-ℤ◌, leb_ℤ, int64}
use dist_command_exec.Prelude.Map
use dist_command_exec.Prelude.Map.{Map}
use dist_command_exec.Types.{Duration}
use dist_command_exec.Executor.{Executor, Task, Result, Outcome}
use dist_command_exec.Executor.Registry.{execute}

-- `in_flight` is the counter of the wait group.
pub record TaskRunner : Type 0 where
  pub max_tasks : ℤ
  pub active_tasks : ℤ
  pub running : Map ℕ
  pub in_flight : ℕ

-- NewTaskRunner
unfoldable pub new_task_runner : ℤ → TaskRunner
new_task_runner max_concurrent_tasks = record {
  max_tasks = if leb_ℤ max_concurrent_tasks (pos 0) then pos 10 else max_concurrent_tasks;
  active_tasks = pos 0;
  running = Map.empty;
  in_flight = 0;
}

-- The check of Run.
unfoldable pub at_capacity : TaskRunner → Bool
at_capacity r = leb_ℤ r.max_tasks r.active_tasks

-- r.running[task.ID] = cancel
unfoldable pub track : TaskRunner → String → ℕ → TaskRunner
track r id call = record r { running = Map.put r.running id call }

-- atomic.AddInt64(&r.activeTasks, 1)
unfoldable pub count : TaskRunner → TaskRunner
count r = record r { active_tasks = int64 (r.active_tasks +ℤ pos 1) }

-- r.wg.Add(1)
unfoldable pub join : TaskRunner → TaskRunner
join r = record r { in_flight = suc r.in_flight }

-- delete(r.running, task.ID)
unfoldable pub untrack : TaskRunner → String → TaskRunner
untrack r id = record r { running = Map.delete r.running id }

-- atomic.AddInt64(&r.activeTasks, -1)
unfoldable pub uncount : TaskRunner → TaskRunner
uncount r = record r { active_tasks = int64 (r.active_tasks -ℤ pos 1) }

-- r.wg.Done()
unfoldable pub leave : TaskRunner → TaskRunner
leave r = record r { in_flight = r.in_flight - 1 }

-- What Run returns: ErrAtCapacity, or what the executor returns.
pub data Ran : Type 0 where
  err_at_capacity : Ran
  ran : Outcome Result → Ran

-- Run, with nothing else happening meanwhile. `world` is what the executor finds in a context with
-- the given timeout.
unfoldable pub run :
    {W : Type 0}
    → TaskRunner
    → Map (Executor W)
    → ℕ
    → (Duration → W)
    → Task
    → Duration
    → TaskRunner × Ran
unfolding at_capacity track count join untrack uncount leave
run r executors call world task timeout = if at_capacity r then (r, err_at_capacity) else (
  leave (uncount (untrack (join (count (track r task.id call))) task.id)),
  ran (execute executors (world timeout) task),
)

-- CancelTask: whether it finds the task, and the call whose cancel function it runs.
found : Option ℕ → Bool
found none = false
found (some call) = true

unfoldable pub cancel_task : TaskRunner → String → Bool × Option ℕ
unfolding found
cancel_task r id = (found (Map.get r.running id), Map.get r.running id)

-- ActiveCount
unfoldable pub active_count : TaskRunner → ℤ
active_count r = r.active_tasks

-- MaxTasks
unfoldable pub max_tasks : TaskRunner → ℤ
max_tasks r = r.max_tasks

-- The calls that WaitForDrain cancels when its context is done, over the table in the order in
-- which `range` yields it.
unfoldable pub cancel_all : List (String × ℕ) → List ℕ
cancel_all visited = map (λ e. e.1) visited

-- r.wg.Wait() returns.
unfoldable pub drained : TaskRunner → Bool
drained r = r.in_flight == 0
