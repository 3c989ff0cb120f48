-- ===== src/Master/Server/Cancelling.antt =====
-- What a cancellation does to a job, and what the dispatch of its task then does.
use dist_command_exec.Prelude.{ℕ, ◌≡◌, refl, String, true, false, some, str_eq, eq_refl, arith}
use dist_command_exec.Types.{
  Time, Task, TaskStatus, Result, pending, cancelled, completed, failed, is_success,
}
use dist_command_exec.Master.Store.{Job, get_job, update_job_status, outcome}
use dist_command_exec.Master.Store.Lookup.{get-update_job_status, get-save_result}
use dist_command_exec.Master.State.{Master}
use dist_command_exec.Master.Registry.{NodeInfo}
use dist_command_exec.Master.Dispatcher.{
  ExecutionStatus, ExecuteResponse, result_status, complete, result_of,
}
use dist_command_exec.Master.Server.{cancel, ok, can_cancel}

-- The status that a worker's reply is to give its job.
abbrev pub verdict : ExecutionStatus → TaskStatus
verdict ExecutionStatus.success = completed
verdict _ = failed

pub outcome-result_of :
    (t : Task) (node : NodeInfo) (resp : ExecuteResponse) (now : Time)
    → outcome (result_of t node resp now) ≡ verdict resp.status
unfolding outcome result_of result_status is_success
outcome-result_of t node resp now = ground arith

-- What a result is to hold of a worker's reply.
pub record Carries (r : Result) (t : Task) (node : NodeInfo) (resp : ExecuteResponse) (now : Time)
    : Type 0 where
  pub task_id : r.task_id ≡ t.id
  pub output : r.output ≡ resp.output
  pub error : r.error ≡ resp.error
  pub exit_code : r.exit_code ≡ resp.exit_code
  pub worker_id : r.worker_id ≡ node.id
  pub completed_at : r.completed_at ≡ now

pub result_of-Carries :
    (t : Task) (node : NodeInfo) (resp : ExecuteResponse) (now : Time)
    → Carries (result_of t node resp now) t node resp now
unfolding result_of
result_of-Carries t node resp now = record {
  task_id = refl;
  output = refl;
  error = refl;
  exit_code = refl;
  worker_id = refl;
  completed_at = refl;
}

-- Cancel of a job that may be cancelled.
pub cancel-can :
    (m : Master) (id : String) (job : Job)
    → str_eq id "" ≡ false
    → get_job m.store id ≡ some job
    → can_cancel job.status ≡ true
    → cancel m id ≡ (
      record m { store = update_job_status m.store id cancelled },
      ok (record { cancelled = true; message = "job cancelled" }),
    )
unfolding cancel
cancel-can m id job given there can = rw (given, there, can) refl

-- Cancel of a pending job, under an ID that is not empty, replies that the job is cancelled, and
-- the store says so; but scheduler and task stay as they are, and when a worker's reply to the task
-- comes, the job takes a result with the output, error and exit code of the reply, and is COMPLETED
-- if the reply says success and FAILED if it says anything else.
pub complete-cancel :
    (m : Master) (p : ℕ) (node : NodeInfo) (resp : ExecuteResponse) (now : Time) (job : Job)
    → str_eq (m.scheduler.heap p).id "" ≡ false
    → get_job m.store (m.scheduler.heap p).id ≡ some job
    → job.status ≡ pending
    → let id = (m.scheduler.heap p).id in
      ((cancel m id).1 ≡ ok (record { cancelled = true; message = "job cancelled" }))
      × (get_job (cancel m id).0.store id ≡ some (record job { status = cancelled }))
      × ((cancel m id).0.scheduler ≡ m.scheduler)
      × (r : Result) × Carries r (m.scheduler.heap p) node resp now
      × (get_job (complete (cancel m id).0 p node resp now).store id
          ≡ some (record job { result = some r; status = verdict resp.status }))
unfolding complete get_job
complete-cancel m p node resp now job given there waits =
    let t = m.scheduler.heap p in
    let r = result_of t node resp now in
    let gone : get_job (update_job_status m.store t.id cancelled) t.id
        ≡ some (record job { status = cancelled }) =
      rw (get-update_job_status m.store t.id t.id cancelled job there, eq_refl t.id) refl in
    rw (cancel-can m t.id job given there (rw waits refl)) (
      refl,
      gone,
      refl,
      r,
      result_of-Carries t node resp now,
      rw
          (
            ← outcome-result_of t node resp now,
            get-save_result (update_job_status m.store t.id cancelled) r t.id
                (record job { status = cancelled }) gone,
            eq_refl t.id,
          )
          refl,
    )
