-- ===== src/Master/Store.antt =====
-- internal/master/store.go: jobs and results by job ID. Each method runs under the store's lock, so
-- it is one step; a `*Job` is only written through the map, so the map holds the jobs themselves.
-- A `range` over the jobs takes its entries as an argument.
pub mod Lookup
pub mod Listing
use dist_command_exec.Prelude.{
  ℕ, suc, String, Bool, Option, none, some, List, [], ◌∷◌, map, if◌then◌else◌,
}
use dist_command_exec.Prelude.Int.{ℤ}
use dist_command_exec.Prelude.Map
use dist_command_exec.Prelude.Map.{Map}
use dist_command_exec.Types.{
  Time, Duration, Bytes, TaskStatus, pending, completed, failed, status_eq, Result, is_success,
}
use dist_command_exec.Master.Paging.{page_loop}

pub record Job : Type 0 where
  pub id : String
  pub task_type : String
  pub payload : Bytes
  pub priority : ℤ
  pub timeout : Duration
  pub metadata : Map String
  pub created_at : Time
  pub status : TaskStatus
  pub result : Option Result

pub record Store : Type 0 where
  pub jobs : Map Job
  pub results : Map Result

-- NewStore
unfoldable pub new_store : Store
new_store = record { jobs = Map.empty; results = Map.empty }

-- SaveJob
unfoldable pub save_job : Store → Job → Store
save_job s job = record s { jobs = Map.put s.jobs job.id job }

-- GetJob
unfoldable pub get_job : Store → String → Option Job
get_job s id = Map.get s.jobs id

-- The write of UpdateJobStatus, on the job that the map holds, if it holds one.
set_status : Store → String → TaskStatus → Option Job → Store
set_status s id status none = s
set_status s id status (some job) = record s {
  jobs = Map.put s.jobs id (record job { status = status });
}

-- UpdateJobStatus
unfoldable pub update_job_status : Store → String → TaskStatus → Store
unfolding set_status
update_job_status s id status = set_status s id status (Map.get s.jobs id)

-- The status that SaveResult gives to the job.
unfoldable pub outcome : Result → TaskStatus
outcome r = if is_success r then completed else failed

attach_result : Store → Result → Option Job → Store
attach_result s r none = s
attach_result s r (some job) = record s {
  jobs = Map.put s.jobs r.task_id (record job { result = some r; status = outcome r });
}

-- SaveResult
unfoldable pub save_result : Store → Result → Store
unfolding attach_result
save_result s r =
    attach_result (record s { results = Map.put s.results r.task_id r }) r
      (Map.get s.jobs r.task_id)

-- GetResult
unfoldable pub get_result : Store → String → Option Result
get_result s id = Map.get s.results id

-- ListJobs, over the jobs in the order in which `range` yields them.
unfoldable pub list_jobs : TaskStatus → ℤ → ℤ → List (String × Job) → List Job
list_jobs filter limit offset visited =
    page_loop (λ (j : Job). j.status) filter limit offset (map (λ e. e.1) visited) 0 []

-- Count
unfoldable pub count : Store → ℕ
count s = Map.len s.jobs

-- counts[status]++
abbrev pub tally : (TaskStatus → ℕ) → TaskStatus → TaskStatus → ℕ
tally counts status s = if status_eq status s then suc (counts s) else counts s

-- The loop of CountByStatus. A missing key of the Go map reads as 0.
pub count_loop : (TaskStatus → ℕ) → List (String × Job) → TaskStatus → ℕ
count_loop counts [] = counts
count_loop counts ((_, job) ∷ rest) = count_loop (tally counts job.status) rest

-- CountByStatus
unfoldable pub count_by_status : List (String × Job) → TaskStatus → ℕ
unfolding count_loop
count_by_status visited = count_loop (λ _. 0) visited
