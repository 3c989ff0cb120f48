-- ===== src/Master/Server/Replies.antt =====
-- What clients see: statuses, listings, submissions and cancellations.
use dist_command_exec.Prelude.{
  ℕ, ◌≡◌, ◌≤◌, refl, String, Bool, true, false, not, none, some, List, [], ◌∷◌, map, arith,
  if◌then◌else◌, length, keep, leb, take, drop, Bool-cases, Option-cases, inl, inr, length-take,
  length-map, min, str_eq, eq_refl,
}
use dist_command_exec.Prelude.Int.{ℤ, pos, pos_part}
use dist_command_exec.Prelude.Map
use dist_command_exec.Prelude.Map.{get-put}
use dist_command_exec.Types.{TaskStatus, Time}
use dist_command_exec.Master.Paging.{excluded}
use dist_command_exec.Master.Store.{Job, get_job, save_job}
use dist_command_exec.Master.Store.Listing.{list_jobs-page}
use dist_command_exec.Master.Scheduler.{write}
use dist_command_exec.Master.Scheduler.Queue.{enqueue_full}
use dist_command_exec.Master.State.{Master}
use dist_command_exec.Master.Server.{
  JobStatus, unrecognized, is_empty, task_of, submit, status, resource_exhausted,
  to_proto_job_status, from_proto_job_status, SubmitRequest, accept, job_of, get_status, ok,
  GetStatusResponse, ListJobsRequest, list, summary, clamp_limit, clamp_offset,
}

-- A status that is sent to a client and comes back in a filter is the same status.
pub from_proto_job_status-to_proto_job_status :
    (s : TaskStatus) → from_proto_job_status (to_proto_job_status s) ≡ s
unfolding to_proto_job_status from_proto_job_status
from_proto_job_status-to_proto_job_status s = ground arith

-- The limit of a page: 10 where none is given, and at most 100.
abbrev pub page_size : ℤ → ℕ
page_size limit =
    if leb (pos_part limit) 0 then 10 else if leb 100 (pos_part limit) then 100 else pos_part limit

page_size-clamp_limit :
    (limit : ℤ)
    → (pos_part (clamp_limit limit) ≡ page_size limit)
      × (leb (pos_part (clamp_limit limit)) 0 ≡ false)
unfolding clamp_limit
page_size-clamp_limit limit = ground arith

page_size_le : (limit : ℤ) (n : ℕ) → min (page_size limit) n ≤ 100
page_size_le limit n = ground arith

offset-clamp_offset : (offset : ℤ) → pos_part (clamp_offset offset) ≡ pos_part offset
unfolding clamp_offset
offset-clamp_offset offset = ground arith

-- Whether a job with this status passes the filter of a request.
abbrev pub matches : JobStatus → TaskStatus → Bool
matches JobStatus.unspecified s = true
matches (unrecognized n) s = true
matches JobStatus.pending TaskStatus.pending = true
matches JobStatus.running TaskStatus.running = true
matches JobStatus.completed TaskStatus.completed = true
matches JobStatus.failed TaskStatus.failed = true
matches JobStatus.cancelled TaskStatus.cancelled = true
matches JobStatus.timeout TaskStatus.timeout = true
matches _ _ = false

not-excluded :
    (f : JobStatus) (j : Job)
    → not (excluded (λ (j : Job). j.status) (from_proto_job_status f) j) ≡ matches f j.status
unfolding excluded from_proto_job_status
not-excluded f j = ground arith

keep_same :
    {A : Type 0} (f g : A → Bool) → ((a : A) → f a ≡ g a) → (xs : List A) → keep f xs ≡ keep g xs
keep_same f g same [] = refl
keep_same f g same (a ∷ xs) = ground (arith, same a, keep_same f g same xs)

-- ListJobs returns the summaries of the jobs whose status is that of the filter, or of all jobs if
-- the filter is UNSPECIFIED or no known status, in the order of the range, without as many as the
-- offset says and cut after the limit, where an offset below 0 counts as 0, a limit below 1 as 10
-- and one above 100 as 100; so there are at most 100.
pub list_lem :
    (m : Master) (req : ListJobsRequest) (visited : List (String × Job))
    → ((list m req visited).jobs
        ≡ map summary (
            take (page_size req.limit) (
              drop
                (pos_part req.offset)
                (keep (λ (j : Job). matches req.status_filter j.status) (map (λ e. e.1) visited)))))
      × (length (list m req visited).jobs ≤ 100)
unfolding list
list_lem m req visited =
    let (size, some_room) = page_size-clamp_limit req.limit in
    let matching =
      keep (λ (j : Job). matches req.status_filter j.status) (map (λ e. e.1) visited) in
    let filtered =
      keep_same
        (λ (j : Job).
          not (excluded (λ (j : Job). j.status) (from_proto_job_status req.status_filter) j))
        (λ (j : Job). matches req.status_filter j.status) (not-excluded req.status_filter)
        (map (λ e. e.1) visited) in
    let same : (list m req visited).jobs
        ≡ map summary (take (page_size req.limit) (drop (pos_part req.offset) matching)) =
      rw
        (
          list_jobs-page (from_proto_job_status req.status_filter) (clamp_limit req.limit)
              (clamp_offset req.offset) visited,
          some_room,
          filtered,
          size,
          offset-clamp_offset req.offset,
        )
        refl in
    (same, rw (same, length-map, length-take) (page_size_le req.limit _))

pub store-accept :
    (m : Master) (req : SubmitRequest) (id : String) (p : ℕ) (now : Time)
    → (accept m req id p now).0.store ≡ save_job m.store (job_of req id now)
unfolding accept
store-accept m req id p now = ground arith

-- Behind the checks of Submit, and under an ID that is not empty, GetStatus reports the job as
-- pending, with no output and created at the time of the submission, whatever Submit then replies.
pub get_status-accept :
    (m : Master) (req : SubmitRequest) (id : String) (p : ℕ) (now : Time)
    → str_eq id "" ≡ false
    → get_status (accept m req id p now).0 id
      ≡ ok (record {
        job_id = id;
        status = JobStatus.pending;
        output = [];
        error = "";
        exit_code = pos 0;
        worker_id = "";
        created_at = now;
        completed_at = none;
      })
unfolding get_status job_of save_job get_job to_proto_job_status
get_status-accept m req id p now given =
    rw
      (
        given,
        store-accept m req id p now,
        get-put m.store.jobs id id (job_of req id now),
        eq_refl id,
      )
      refl

-- A reply of GetStatus has the status of the job in the store.
pub get_status-stored :
    (m : Master) (id : String) (resp : GetStatusResponse)
    → get_status m id ≡ ok resp
    → (job : Job) × (get_job m.store id ≡ some job) × (resp.status ≡ to_proto_job_status job.status)
unfolding get_status get_job
get_status-stored m id resp e = elim (Bool-cases (str_eq id "")) [
  | inl blank ↦ absurd (ground (arith, e))
  | inr given ↦ elim (Option-cases (Map.get m.store.jobs id)) [
    | inl absent ↦ absurd (ground (arith, e))
    | inr (job, there) ↦ (job, there, ground (arith, e))
  ]
]

accept_full :
    (m : Master) (req : SubmitRequest) (id : String) (p : ℕ) (now : Time)
    → m.scheduler.capacity ≤ length m.scheduler.queue
    → ((accept m req id p now).1 ≡ status resource_exhausted)
      × ((accept m req id p now).0.scheduler.queue ≡ m.scheduler.queue)
unfolding accept
accept_full m req id p now over =
    let (e, failed, same) = enqueue_full (write m.scheduler p (task_of req id now)) p over in
    (rw failed refl, rw (failed, same) refl)

-- Where the queue is full, Submit of a request that passes the checks, under an ID that is not
-- empty, replies RESOURCE_EXHAUSTED and queues nothing, and still leaves a job that GetStatus
-- finds and reports as pending.
pub submit_full :
    (m : Master) (req : SubmitRequest) (id : String) (p : ℕ) (now : Time)
    → str_eq req.task_type "" ≡ false
    → is_empty req.payload ≡ false
    → str_eq id "" ≡ false
    → m.scheduler.capacity ≤ length m.scheduler.queue
    → ((submit m req id p now).1 ≡ status resource_exhausted)
      × ((submit m req id p now).0.scheduler.queue ≡ m.scheduler.queue)
      × ((resp : GetStatusResponse) × (get_status (submit m req id p now).0 id ≡ ok resp)
          × (resp.status ≡ JobStatus.pending))
unfolding submit
submit_full m req id p now typed full given over =
    let (reply, queue) = accept_full m req id p now over in
    rw (typed, full) (reply, queue, (_, get_status-accept m req id p now given, refl))
