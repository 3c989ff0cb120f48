-- ===== src/Master/System/Jobs.antt =====
-- Tasks and jobs in the states that the master reaches.
use dist_command_exec.Prelude.{
  ℕ, ◌+◌, ◌≡◌, ◌≤◌, ◌<◌, ◌⊎◌, String, Bool, some, arith, occurs, if◌then◌else◌,
}
use dist_command_exec.Types.{
  TaskStatus, Task, Result, pending, completed, failed, cancelled, is_success,
}
use dist_command_exec.Master.Store.{get_job, outcome}
use dist_command_exec.Master.Scheduler.{get_task, pending_count}
use dist_command_exec.Master.Server.{
  MasterConfig, JobStatus, get_status, GetStatusResponse, ok, to_proto_job_status,
}
use dist_command_exec.Master.Store.{Job}
use dist_command_exec.Master.Server.Replies.{get_status-stored}
use dist_command_exec.Master.System.{System, Reach}
use dist_command_exec.Master.System.Core.{Inv, IsStored}
use dist_command_exec.Master.System.View.{core, pointers}
use dist_command_exec.Master.System.Invariant.{Reach-Inv, initial, initial-Inv}

reported :
    (s : TaskStatus)
    → IsStored s
    → (to_proto_job_status s ≡ JobStatus.pending)
      ⊎ (to_proto_job_status s ≡ JobStatus.completed)
      ⊎ (to_proto_job_status s ≡ JobStatus.failed)
      ⊎ (to_proto_job_status s ≡ JobStatus.cancelled)
unfolding to_proto_job_status
reported s stored = ground arith

module _ (heap : ℕ → Task) (cfg : MasterConfig) (has_k8s : Bool) (z : System)
    (r : Reach (initial heap cfg has_k8s) z) where
  invariant : Inv (core z)
  invariant = Reach-Inv r (initial-Inv heap cfg has_k8s)

  -- In every state that the master reaches from its start by any steps of its goroutines, a task
  -- stands at most once in queue and dispatchers together.
  pub task_in_one_place :
      (p : ℕ) → occurs p z.master.scheduler.queue + occurs p (pointers z.held) ≤ 1
  task_in_one_place p = invariant.unique p

  -- In every state that the master reaches from its start, a task in the queue is pending, and
  -- GetTask finds it under its ID; and the queue is within its capacity.
  pub queue_lem :
      ((p : ℕ)
        → 0 < occurs p z.master.scheduler.queue
        → ((z.master.scheduler.heap p).status ≡ pending)
          × (get_task z.master.scheduler (z.master.scheduler.heap p).id ≡ some p))
      × (pending_count z.master.scheduler ≤ z.master.scheduler.capacity)
  unfolding get_task pending_count
  queue_lem = (λ p h. (invariant.waiting p h, invariant.tracked p (omega arith)), invariant.bounded)

  -- In every state that the master reaches from its start, a job with a result has the status that
  -- the result gives it, or is CANCELLED, and its task is neither in the queue nor with a
  -- dispatcher. A Cancel may write after the result, if it checked before.
  pub settled_lem :
      (id : String) (job : Job) (res : Result)
      → get_job z.master.store id ≡ some job
      → job.result ≡ some res
      → ((job.status ≡ (if is_success res then completed else failed)) ⊎ (job.status ≡ cancelled))
        × ((p : ℕ)
            → get_task z.master.scheduler id ≡ some p
            → occurs p z.master.scheduler.queue + occurs p (pointers z.held) ≡ 0)
  unfolding get_job get_task outcome
  settled_lem id job res there e =
      let j = invariant.recorded id job there in (j.settled res e, j.retired res e)

  -- In every state that the master reaches from its start, GetStatus reports a job as PENDING,
  -- COMPLETED, FAILED or CANCELLED: it never reports RUNNING, TIMEOUT or UNSPECIFIED.
  pub get_status-reported :
      (id : String) (resp : GetStatusResponse)
      → get_status z.master id ≡ ok resp
      → (resp.status ≡ JobStatus.pending)
        ⊎ (resp.status ≡ JobStatus.completed)
        ⊎ (resp.status ≡ JobStatus.failed)
        ⊎ (resp.status ≡ JobStatus.cancelled)
  unfolding get_job
  get_status-reported id resp e =
      let (job, there, same) = get_status-stored z.master id resp e in
      rw same (reported job.status (invariant.recorded id job there).stored)
