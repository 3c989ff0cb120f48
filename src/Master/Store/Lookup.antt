-- ===== src/Master/Store/Lookup.antt =====
-- What the store's methods do to the job under each ID.
use dist_command_exec.Prelude.{◌≡◌, String, some, str_eq, if◌then◌else◌}
use dist_command_exec.Prelude.Map
use dist_command_exec.Prelude.Map.{get-put}
use dist_command_exec.Types.{TaskStatus, Result}
use dist_command_exec.Master.Store.{Store, Job, update_job_status, save_result, outcome}

pub get-update_job_status :
    (s : Store) (id j : String) (status : TaskStatus) (job : Job)
    → Map.get s.jobs id ≡ some job
    → Map.get (update_job_status s id status).jobs j
      ≡ (if str_eq id j then some (record job { status = status }) else Map.get s.jobs j)
unfolding update_job_status
get-update_job_status s id j status job known =
    rw (known, update_job_status) (get-put s.jobs id j (record job { status = status }))

pub get-save_result :
    (s : Store) (r : Result) (j : String) (job : Job)
    → Map.get s.jobs r.task_id ≡ some job
    → Map.get (save_result s r).jobs j ≡ (
        if str_eq r.task_id j
        then some (record job { result = some r; status = outcome r })
        else Map.get s.jobs j)
unfolding save_result
get-save_result s r j job known =
    rw (known, save_result)
      (get-put s.jobs r.task_id j (record job { result = some r; status = outcome r }))
