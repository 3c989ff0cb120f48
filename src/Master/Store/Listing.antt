-- ===== src/Master/Store/Listing.antt =====
-- What the listing and the counts of the store say of its jobs.
use dist_command_exec.Prelude.{
  ℕ, suc, ◌+◌, ◌≡◌, String, List, [], ◌∷◌, map, arith, if◌then◌else◌, length, length-total, total,
}
use dist_command_exec.Prelude.Int.{ℤ}
use dist_command_exec.Prelude.Map
use dist_command_exec.Prelude.Map.{IsMap, Visits, Visits-total}
use dist_command_exec.Types.{
  TaskStatus, created, pending, running, completed, failed, cancelled, timeout, status_eq,
}
use dist_command_exec.Master.Paging.{page, page_loop-eq-page}
use dist_command_exec.Master.Store.{
  Store, Job, list_jobs, count, count_by_status, count_loop, tally,
}

-- One for an entry with the status.
abbrev pub counts_as : TaskStatus → String × Job → ℕ
counts_as status (_, job) = if status_eq job.status status then 1 else 0

count_loop-total :
    (status : TaskStatus) (counts : TaskStatus → ℕ) (visited : List (String × Job))
    → count_loop counts visited status ≡ counts status + total (counts_as status) visited
unfolding count_loop
count_loop-total status counts [] = omega arith
count_loop-total status counts ((id, job) ∷ rest) =
    ground (arith, count_loop-total status (tally counts job.status) rest)

-- All statuses together.
abbrev pub sum : (TaskStatus → ℕ) → ℕ
sum f = f created + f pending + f running + f completed + f failed + f cancelled + f timeout

sum-tally :
    (counts : TaskStatus → ℕ) (status : TaskStatus) → sum (tally counts status) ≡ suc (sum counts)
sum-tally counts status = ground arith

sum-count_loop :
    (counts : TaskStatus → ℕ) (visited : List (String × Job))
    → sum (count_loop counts visited) ≡ sum counts + length visited
unfolding count_loop
sum-count_loop counts [] = omega arith
sum-count_loop counts ((id, job) ∷ rest) =
    omega (arith, sum-count_loop (tally counts job.status) rest, sum-tally counts job.status)

-- CountByStatus counts, for each status, the jobs of the store that have it, and its counts add up
-- to Count, whatever the order of its `range`; no ID stands twice in the map.
pub count_by_status-sum :
    (s : Store) (visited : List (String × Job))
    → IsMap s.jobs
    → Visits s.jobs visited
    → ((status : TaskStatus)
        → count_by_status visited status ≡ total (counts_as status) s.jobs.entries)
      × (sum (count_by_status visited) ≡ count s)
unfolding count_by_status count Map.len
count_by_status-sum s visited d v = (
  λ status. omega (
    arith,
    count_loop-total status (λ _. 0) visited,
    Visits-total (counts_as status) s.jobs visited d v,
  ),
  omega (
    arith,
    sum-count_loop (λ _. 0) visited,
    length-total visited,
    length-total s.jobs.entries,
    Visits-total (λ (e : String × Job). 1) s.jobs visited d v,
  ),
)

-- The listing is the page of the visited jobs.
pub list_jobs-page :
    (filter : TaskStatus) (limit offset : ℤ) (visited : List (String × Job))
    → list_jobs filter limit offset visited
      ≡ page (λ (j : Job). j.status) filter limit offset (map (λ e. e.1) visited)
unfolding list_jobs
list_jobs-page filter limit offset visited =
    page_loop-eq-page (λ (j : Job). j.status) filter limit offset (map (λ e. e.1) visited)
