-- ===== src/Operator.antt =====
-- internal/operator/controller.go: the controller that runs DistributedJob resources of Kubernetes.
--
-- What the accessors of `unstructured` find in a resource are the fields of a record. The API
-- server holds one resource; what a call of it gives is an argument. `set_status` is what
-- SetNestedField makes of the resource and a new status. json.Marshal, time.ParseDuration and the
-- formatted time are parameters too.
mod Resource
unfoldable pub use Resource.*
pub mod Counts
pub mod Launching
pub mod Phases
pub mod Updates
pub mod Watching
use Prim.Native.String.{◌++◌ as append}
use dist_command_exec.Prelude.{
  ℕ, zero, suc, ◌+◌, ◌*◌, String, Bool, true, false, not, ◌&&◌, ◌||◌, Option, none, some, List, [],
  ◌∷◌, ◌++◌, if◌then◌else◌, str_eq, length,
}
use dist_command_exec.Prelude.Int.{ℤ, pos, pos_part, ltb_ℤ, leb_ℤ, ◌+ℤ◌, int32}
use dist_command_exec.Prelude.Map
use dist_command_exec.Prelude.Map.{Map}
use dist_command_exec.Types.{Duration, Bytes, second}
use dist_command_exec.Executor.Command.{CommandPayload, decimal}
use dist_command_exec.Master.Server.{SubmitRequest, GetStatusResponse, JobStatus, completed, failed}
use dist_command_exec.Client.{MasterClient, command_payload}

-- What checkJobStatus counts.
pub record Tally : Type 0 where
  pub completed : ℤ
  pub failed : ℤ

counted : Tally → JobStatus → Tally
counted t JobStatus.completed = record t { completed = int32 (t.completed +ℤ pos 1) }
counted t JobStatus.failed = record t { failed = int32 (t.failed +ℤ pos 1) }
counted t _ = t

counted_reply : Tally → Option GetStatusResponse → Tally
counted_reply t none = t
counted_reply t (some resp) = counted t resp.status

-- The loop of checkJobStatus over the replies to its calls.
unfoldable pub tally : List (Option GetStatusResponse) → Tally → Tally
unfolding counted counted_reply
tally [] t = t
tally (reply ∷ rest) t = tally rest (counted_reply t reply)

-- `%d/%d …`
abbrev pub progress : ℤ → ℤ → String → String
progress n total rest = append (decimal n) (append "/" (append (decimal total) rest))

unfoldable pub verdict : List String → Tally → Update
verdict ids t =
    let total = int32 (pos (length ids)) in
    if leb_ℤ total (int32 (t.completed +ℤ t.failed))
    then (if ltb_ℤ (pos 0) t.failed
        then record {
          phase = "Failed";
          completions = t.completed;
          failed = t.failed;
          message = progress t.failed total " failed";
          task_ids = some ids;
        }
        else record {
          phase = "Succeeded";
          completions = t.completed;
          failed = t.failed;
          message = "all tasks completed";
          task_ids = some ids;
        })
    else record {
      phase = "Running";
      completions = t.completed;
      failed = t.failed;
      message = progress t.completed total " completed";
      task_ids = some ids;
    }

module _ {M : Type 0} (c : MasterClient M) where
  -- The calls of checkJobStatus; `met` is the state that the call for a task meets.
  abbrev pub replies_to : List String → (String → M) → List (Option GetStatusResponse)
  replies_to [] met = []
  replies_to (id ∷ ids) met = c.get_status (met id) id ∷ replies_to ids met

  -- checkJobStatus, up to its updateStatus: nothing is written if there are no task IDs.
  checked : List String → (String → M) → Option Update
  checked [] met = none
  checked (id ∷ ids) met = some (
      verdict (id ∷ ids)
        (tally (replies_to (id ∷ ids) met) (record { completed = pos 0; failed = pos 0 })))

  unfoldable pub check_job_status : DistributedJob → (String → M) → Option Update
  unfolding checked
  check_job_status u met = checked u.task_ids met

module _ {M : Type 0} (c : MasterClient M) (marshal : CommandPayload → Option Bytes) where
  abbrev pub task_request : DistributedJob → Bytes → Duration → ℕ → SubmitRequest
  task_request u payload timeout i = record {
    task_type = "command";
    payload = payload;
    timeout = some timeout;
    priority = pos 0;
    metadata =
        Map.put (Map.put (Map.put Map.empty "distributedjob" u.name) "namespace" u.namespace)
          "task_index" (decimal (pos i));
  }

  also : List String → Option String → List String
  also ids none = ids
  also ids (some id) = ids ++ id ∷ []

  -- The loop of startJobs, for `left` more tasks from the i-th on.
  submit_all : DistributedJob → Bytes → Duration → ℕ → ℕ → List String → M → M × List String
  submit_all u payload timeout zero i ids m = (m, ids)
  submit_all u payload timeout (suc left) i ids m =
      let (m', id) = c.submit m (task_request u payload timeout i) in
      submit_all u payload timeout left (suc i) (also ids id) m'

  launched : ℤ → M × List String → M × Update
  launched parallelism (m, []) = (
    m,
    record {
      phase = "Failed";
      completions = pos 0;
      failed = parallelism;
      message = "failed to submit any tasks";
      task_ids = none;
    },
  )
  launched parallelism (m, id ∷ ids) = (
    m,
    record {
      phase = "Running";
      completions = pos 0;
      failed = pos 0;
      message = append "submitted " (append (decimal (pos (length (id ∷ ids)))) " tasks");
      task_ids = some (id ∷ ids);
    },
  )

  pub started : M → DistributedJob → Duration → ℤ → Option Bytes → M × Update
  started m u timeout parallelism none = (
    m,
    record {
      phase = "Failed";
      completions = pos 0;
      failed = pos 0;
      message = "marshal error";
      task_ids = none;
    },
  )
  started m u timeout parallelism (some payload) =
      launched parallelism (submit_all u payload timeout (pos_part parallelism) 0 [] m)

  -- startJobs, up to its updateStatus.
  unfoldable pub start_jobs : M → DistributedJob → String → List String → ℤ → Duration → M × Update
  unfolding also submit_all launched started
  start_jobs m u command args parallelism timeout =
      started m u timeout parallelism (marshal (command_payload command args))

  -- The timeout of reconcile.
  unfoldable pub parsed : Option Duration → Duration
  parsed none = pos (30 * second)
  parsed (some d) = d

  unfoldable pub run_timeout : (String → Option Duration) → Value → Duration
  run_timeout parse_duration v =
      parsed (parse_duration (if str_eq (text_of v) "" then "30s" else text_of v))

  unfoldable pub wrote : M × Update → M × Option Update
  wrote (m, w) = (m, some w)

  unfoldable pub by_phase :
      (String → Option Duration) → M → DistributedJob → (String → M) → Spec → M × Option Update
  by_phase parse_duration m u met spec =
      if str_eq u.phase "" || str_eq u.phase "Pending"
      then wrote (
          start_jobs m u (text_of spec.command) (to_string_slice spec.args)
            (parallelism_of spec.parallelism) (run_timeout parse_duration spec.timeout))
      else if str_eq u.phase "Running"
      then (m, check_job_status c u met)
      else (m, none)

  unfoldable pub with_spec :
      (String → Option Duration)
      → M
      → DistributedJob
      → (String → M)
      → Option Spec
      → M × Option Update
  with_spec parse_duration m u met none = (m, none)
  with_spec parse_duration m u met (some spec) = by_phase parse_duration m u met spec

  -- reconcile, up to its updateStatus. `m` is the state that startJobs meets, and `met` those that
  -- checkJobStatus meets.
  unfoldable pub reconcile :
      (String → Option Duration) → M → DistributedJob → (String → M) → M × Option Update
  unfolding parsed run_timeout wrote by_phase with_spec
  reconcile parse_duration m u met =
      if str_eq u.phase "Succeeded" || str_eq u.phase "Failed"
      then (m, none)
      else with_spec parse_duration m u met u.spec

  saved :
      (DistributedJob → List (String × GoValue) → Setting)
      → Access
      → DistributedJob
      → M × Option Update
      → M × Outlook
  saved set_nested_field a stored (m, none) = (m, lives stored)
  saved set_nested_field a stored (m, some w) = (m, update_status set_nested_field a stored w)

  -- onAdd and onUpdate: reconcile as a whole, on what the cache holds of the resource, with the
  -- resource that the API server then stores.
  unfoldable pub on_update :
      (DistributedJob → List (String × GoValue) → Setting)
      → (String → Option Duration)
      → M
      → DistributedJob
      → (String → M)
      → Access
      → DistributedJob
      → M × Outlook
  unfolding saved
  on_update set_nested_field parse_duration m cached met a stored =
      saved set_nested_field a stored (reconcile parse_duration m cached met)
