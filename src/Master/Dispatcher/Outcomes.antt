-- ===== src/Master/Dispatcher/Outcomes.antt =====
-- How a dispatch ends: what store, scheduler and registry then hold.
use dist_command_exec.Prelude.{
  ℕ, ◌≡◌, ◌≤◌, refl, true, false, none, some, [], ◌∷◌, ◌++◌, arith, if◌then◌else◌, length, ltb,
  eq_refl,
}
use dist_command_exec.Prelude.Int.{pos, ltb_ℤ, int64, ◌+ℤ◌}
use dist_command_exec.Types.{Time, pending, failed, can_retry}
use dist_command_exec.Master.Store.{Job, get_job, update_job_status}
use dist_command_exec.Master.Store.Lookup.{get-update_job_status}
use dist_command_exec.Master.Scheduler.{write, finished, get_task}
use dist_command_exec.Master.Scheduler.Marks.{mark_failed_lem, requeue_lem}
use dist_command_exec.Master.Registry.{NodeInfo, decrement_active_tasks}
use dist_command_exec.Master.State.{Master}
use dist_command_exec.Master.Dispatcher.{requeued, give_up, fail}

-- A task of the table whose job the store has.
abbrev pub IsKnown : Master → ℕ → Job → Type 0
IsKnown m p job =
    (get_task m.scheduler (m.scheduler.heap p).id ≡ some p)
    × (get_job m.store (m.scheduler.heap p).id ≡ some job)

-- The state behind the marks of a dispatch that gives up.
abbrev lost : Master → ℕ → Time → Master
lost m p now = record m {
  scheduler = write m.scheduler p (finished failed now (m.scheduler.heap p));
  store = update_job_status m.store (m.scheduler.heap p).id failed;
}

give_up_lem :
    (m : Master) (p : ℕ) (now : Time)
    → get_task m.scheduler (m.scheduler.heap p).id ≡ some p
    → give_up m p now ≡ (
        if ltb_ℤ (m.scheduler.heap p).retries (m.scheduler.heap p).max_retries
        then requeued (lost m p now) p
        else lost m p now)
unfolding give_up get_task can_retry
give_up_lem m p now known =
    rw (mark_failed_lem m.scheduler (m.scheduler.heap p).id now p known) (ground arith)

lost-failed :
    (m : Master) (p : ℕ) (now : Time) (job : Job)
    → get_job m.store (m.scheduler.heap p).id ≡ some job
    → get_job (lost m p now).store (m.scheduler.heap p).id ≡ some (record job { status = failed })
unfolding get_job
lost-failed m p now job there =
    rw
      (
        get-update_job_status m.store (m.scheduler.heap p).id (m.scheduler.heap p).id failed job
            there,
        eq_refl,
      )
      refl

-- A worker's call that fails for a known task with retries left: the job of the task is reported as
-- failed; the task is pending again, with one retry more, no worker, no start and the time of the
-- failure as its completion; it goes to the end of the queue if there is room, and into no queue
-- otherwise. The node's count is taken back.
pub fail-retries :
    (m : Master) (p : ℕ) (node : NodeInfo) (now : Time) (job : Job)
    → IsKnown m p job
    → ltb_ℤ (m.scheduler.heap p).retries (m.scheduler.heap p).max_retries ≡ true
    → let m' = fail m p node now in
      (get_job m'.store (m.scheduler.heap p).id ≡ some (record job { status = failed }))
      × (m'.scheduler.heap p ≡ record (m.scheduler.heap p) {
        status = pending;
        retries = int64 ((m.scheduler.heap p).retries +ℤ pos 1);
        worker_id = "";
        started_at = none;
        completed_at = some now;
      })
      × (m'.scheduler.queue ≡ (
          if ltb (length m.scheduler.queue) m.scheduler.capacity
          then m.scheduler.queue ++ p ∷ []
          else m.scheduler.queue))
      × (m'.registry ≡ decrement_active_tasks m.registry node.id)
unfolding fail get_job get_task
fail-retries m p node now job (known, there) left =
    let m1 = record m { registry = decrement_active_tasks m.registry node.id } in
    rw (give_up_lem m1 p now known, left, requeue_lem (lost m1 p now).scheduler p)
      (lost-failed m1 p now job there, ground arith, ground arith, refl)

-- A worker's call that fails for a known task with no retries left: job and task are failed, the
-- queue stays as it is, and the node's count is taken back.
pub fail_for_good :
    (m : Master) (p : ℕ) (node : NodeInfo) (now : Time) (job : Job)
    → IsKnown m p job
    → ltb_ℤ (m.scheduler.heap p).retries (m.scheduler.heap p).max_retries ≡ false
    → let m' = fail m p node now in
      (get_job m'.store (m.scheduler.heap p).id ≡ some (record job { status = failed }))
      × (m'.scheduler.heap p ≡ finished failed now (m.scheduler.heap p))
      × (m'.scheduler.queue ≡ m.scheduler.queue)
      × (m'.registry ≡ decrement_active_tasks m.registry node.id)
unfolding fail get_job get_task
fail_for_good m p node now job (known, there) over =
    let m1 = record m { registry = decrement_active_tasks m.registry node.id } in
    rw (give_up_lem m1 p now known, over) (lost-failed m1 p now job there, ground arith, refl, refl)

-- Without a free place in the queue, Requeue resets a task of the table and drops it: the task
-- stays pending in the table, and queue and jobs do not change.
pub requeued_full :
    (m : Master) (p : ℕ)
    → get_task m.scheduler (m.scheduler.heap p).id ≡ some p
    → m.scheduler.capacity ≤ length m.scheduler.queue
    → let m' = requeued m p in
      (get_task m'.scheduler (m'.scheduler.heap p).id ≡ some p)
      × ((m'.scheduler.heap p).status ≡ pending)
      × (m'.scheduler.queue ≡ m.scheduler.queue)
      × (m'.store ≡ m.store)
unfolding get_task
requeued_full m p known full =
    let over : ltb (length m.scheduler.queue) m.scheduler.capacity ≡ false = ground arith in
    rw (requeue_lem m.scheduler p, over) (ground arith, ground arith, refl, refl)
