-- ===== src/Distctl.antt =====
-- cmd/distctl/main.go: the command line. cobra parses the flags and checks the number of arguments;
-- what it hands over is an Invocation. A command prints to stdout and returns nil, or returns an
-- error, of which the part that distctl puts in front is kept. The stub of the master is a record
-- of functions; whether grpc.NewClient takes an address, json.Marshal, and the format of a time are
-- parameters. A reply of GetStatus and a summary always have their CreatedAt, as the master sets
-- it.
pub mod Hosted
pub mod Submitting
pub mod Reading
pub mod Sessions
use Prim.Native.String.{◌++◌ as append, count}
use dist_command_exec.Prelude.{
  ℕ, zero, suc, ◌-◌, ◌*◌, String, Bool, true, false, not, Option, none, some, List, [], ◌∷◌, ◌++◌,
  map, if◌then◌else◌, str_eq,
}
use dist_command_exec.Prelude.Int.{ℤ, pos, int32}
use dist_command_exec.Types.{Time, Duration, Bytes, second}
use dist_command_exec.Executor.Command.{CommandPayload, decimal}
use dist_command_exec.Master.Balancer.{is_zero}
use dist_command_exec.Master.Server.{
  GetStatusResponse, CancelResponse, ListJobsRequest, ListJobsResponse, JobSummary, JobStatus,
  is_empty,
}
use dist_command_exec.Client.{MasterClient, command_payload, command_request, status_name}

-- pb.MasterServiceClient, as far as distctl uses it.
pub record Stub (M : Type 0) : Type 0 where
  pub calls : MasterClient M
  pub list_jobs : M → ListJobsRequest → Option ListJobsResponse

-- The flags that all commands share, and the one of `run`.
pub record Settings : Type 0 where
  pub master_addr : String
  pub output_json : Bool
  pub timeout : Duration

abbrev pub default_settings : Settings
default_settings = record {
  master_addr = "localhost:50051";
  output_json = false;
  timeout = pos (30 * second);
}

-- The flag of `list`.
abbrev pub default_limit : ℤ
default_limit = pos 10

-- What is handed to the encoder of `--json`.
pub data Encoded : Type 0 where
  job_id : String → Encoded
  job_status : GetStatusResponse → Encoded
  jobs : ListJobsResponse → Encoded
  cancellation : CancelResponse → Encoded

-- A piece of stdout: a text with its line break, bytes as they are, or an encoded value.
pub data Shown : Type 0 where
  line : String → Shown
  raw : Bytes → Shown
  json : Encoded → Shown

-- How a command ends.
pub data Ended : Type 0 where
  done : List Shown → Ended
  error : String → Ended

-- The commands, with the arguments that cobra lets through.
pub data Invocation : Type 0 where
  run : String → List String → Invocation
  status : String → Invocation
  list : ℤ → Invocation
  cancel : String → Invocation

-- `%-*s`: spaces up to a width.
spaces : ℕ → String
spaces zero = ""
spaces (suc n) = append " " (spaces n)

unfoldable pub padded : ℕ → String → String
unfolding spaces
padded width s = append s (spaces (width - count s))

-- A line that is printed if a test holds.
abbrev pub line_if : Bool → String → List Shown
line_if true s = line s ∷ []
line_if false s = []

-- The bytes of a text that is no String of the model are printed as they are.
abbrev pub output_lines : Bytes → List Shown
output_lines [] = []
output_lines (b ∷ bs) = line "" ∷ line "Output:" ∷ raw (b ∷ bs) ∷ []

abbrev pub error_lines : String → List Shown
error_lines e = if str_eq e "" then [] else line "" ∷ line (append "Error: " e) ∷ []

-- One row of the table of jobs.
abbrev pub row : String → String → String → String → String
row id kind state created = append (padded 36 id) (
    append "  "
      (append (padded 10 kind) (append "  " (append (padded 12 state) (append "  " created)))))

abbrev pub rule : String
rule = "-------------------------------------------------------------------------------------"

module _ (rfc3339 : Time → String) where
  abbrev pub completed_line : Option Time → List Shown
  completed_line none = []
  completed_line (some t) = line (append "Completed: " (rfc3339 t)) ∷ []

  -- What getStatus prints of a reply.
  unfoldable pub status_lines : GetStatusResponse → List Shown
  status_lines resp =
      line (append "Job ID:    " resp.job_id)
        ∷ line (append "Status:    " (status_name resp.status))
        ∷ line_if (not (str_eq resp.worker_id "")) (append "Worker:    " resp.worker_id)
      ++ line (append "Created:   " (rfc3339 resp.created_at)) ∷ completed_line resp.completed_at
      ++ output_lines resp.output
      ++ error_lines resp.error
      ++ line_if (not (is_zero resp.exit_code)) (append "Exit Code: " (decimal resp.exit_code))

  -- What listJobs prints of a reply.
  unfoldable pub job_row : JobSummary → Shown
  job_row job =
      line (row job.job_id job.task_type (status_name job.status) (rfc3339 job.created_at))

  unfoldable pub table : ListJobsResponse → List Shown
  unfolding job_row
  table resp =
      if is_empty resp.jobs
      then line "No jobs found" ∷ []
      else line (row "JOB ID" "TYPE" "STATUS" "CREATED") ∷ line rule ∷ map job_row resp.jobs
        ++ line "" ∷ line (append "Total: " (decimal resp.total)) ∷ []

-- The request of listJobs.
abbrev pub list_request : ℤ → ListJobsRequest
list_request limit = record {
  limit = int32 limit;
  offset = pos 0;
  status_filter = JobStatus.unspecified;
}

module _ {M : Type 0} (s : Stub M) (dials : String → Bool) (marshal : CommandPayload → Option Bytes)
    (rfc3339 : Time → String) (g : Settings) where
  -- getClient and the `if err != nil` behind it.
  with_client : M → M × Ended → M × Ended
  with_client m next = if dials g.master_addr then next else (m, error "failed to connect")

  submitted : M × Option String → M × Ended
  submitted (m, none) = (m, error "submit failed")
  submitted (m, some id) = (
    m,
    done (
        if g.output_json
        then json (job_id id) ∷ []
        else line (append "Job submitted: " id)
          ∷ line (append "Use 'distctl status " (append id "' to check status"))
          ∷ []),
  )

  submit_payload : M → Option Bytes → M × Ended
  submit_payload m none = (m, error "failed to marshal payload")
  submit_payload m (some payload) = submitted (s.calls.submit m (command_request payload g.timeout))

  -- runCommand
  unfoldable pub run_command : String → List String → M → M × Ended
  unfolding with_client submitted submit_payload
  run_command command args m =
      with_client m (submit_payload m (marshal (command_payload command args)))

  reported : Option GetStatusResponse → Ended
  reported none = error "get status failed"
  reported (some resp) =
      done (if g.output_json then json (job_status resp) ∷ [] else status_lines rfc3339 resp)

  -- getStatus
  unfoldable pub get_status : String → M → M × Ended
  unfolding with_client reported
  get_status id m = with_client m (m, reported (s.calls.get_status m id))

  listed : Option ListJobsResponse → Ended
  listed none = error "list jobs failed"
  listed (some resp) = done (if g.output_json then json (jobs resp) ∷ [] else table rfc3339 resp)

  -- listJobs
  unfoldable pub list_jobs : ℤ → M → M × Ended
  unfolding with_client listed
  list_jobs limit m = with_client m (m, listed (s.list_jobs m (list_request limit)))

  cancel_line : String → CancelResponse → Shown
  cancel_line id resp =
      if resp.cancelled
      then line (append "Job " (append id " cancelled"))
      else line (append "Could not cancel job: " resp.message)

  cancelled : String → M × Option CancelResponse → M × Ended
  cancelled id (m, none) = (m, error "cancel failed")
  cancelled id (m, some resp) =
      (m, done ((if g.output_json then json (cancellation resp) else cancel_line id resp) ∷ []))

  -- cancelJob
  unfoldable pub cancel_job : String → M → M × Ended
  unfolding with_client cancel_line cancelled
  cancel_job id m = with_client m (cancelled id (s.calls.cancel m id))

  -- The RunE of each command.
  unfoldable pub execute : Invocation → M → M × Ended
  execute (run command args) = run_command command args
  execute (status id) = get_status id
  execute (list limit) = list_jobs limit
  execute (cancel id) = cancel_job id

-- What main makes of the end of a command: the exit code.
unfoldable pub exit_code : Ended → ℕ
exit_code (done shown) = 0
exit_code (error e) = 1
