-- ===== src/Client.antt =====
-- pkg/client/client.go: the Go API for the master. The generated stub of the master's service is a
-- record of functions on what it talks to, of type M; Client/Hosted fills it with the model of
-- internal/master. An error is its absence of a reply. json.Marshal is a parameter.
pub mod Hosted
pub mod Waiting
pub mod Journey
use dist_command_exec.Prelude.{
  ℕ, ◌*◌, String, Bool, true, false, ◌&&◌, ◌||◌, Option, none, some, List, [], ◌∷◌, if◌then◌else◌,
  str_eq,
}
use dist_command_exec.Prelude.Int.{ℤ, pos, leb_ℤ}
use dist_command_exec.Prelude.Map
use dist_command_exec.Types.{Time, Duration, Bytes, second}
use dist_command_exec.Executor.Command.{CommandPayload, decimal}
use dist_command_exec.Master.Balancer.{is_zero}
use dist_command_exec.Master.Server.{SubmitRequest, GetStatusResponse, CancelResponse}
use dist_command_exec.Master.Server as Server

-- pb.MasterServiceClient, as far as it is used.
pub record MasterClient (M : Type 0) : Type 0 where
  pub submit : M → SubmitRequest → M × Option String
  pub get_status : M → String → Option GetStatusResponse
  pub cancel : M → String → M × Option CancelResponse

-- String of pb.JobStatus, with the names of proto/distexec/v1/common.proto.
unfoldable pub status_name : Server.JobStatus → String
status_name Server.JobStatus.unspecified = "JOB_STATUS_UNSPECIFIED"
status_name Server.JobStatus.pending = "JOB_STATUS_PENDING"
status_name Server.JobStatus.running = "JOB_STATUS_RUNNING"
status_name Server.JobStatus.completed = "JOB_STATUS_COMPLETED"
status_name Server.JobStatus.failed = "JOB_STATUS_FAILED"
status_name Server.JobStatus.cancelled = "JOB_STATUS_CANCELLED"
status_name Server.JobStatus.timeout = "JOB_STATUS_TIMEOUT"
status_name (Server.JobStatus.unrecognized n) = decimal n

-- JobStatus
pub record JobStatus : Type 0 where
  pub job_id : String
  pub status : String
  pub output : Bytes
  pub error : String
  pub exit_code : ℤ
  pub worker_id : String
  pub created_at : Time
  pub completed_at : Time

-- AsTime of a missing time is the start of 1970.
abbrev as_time : Option Time → Time
as_time none = 62135596800 * second
as_time (some t) = t

abbrev pub job_status_of : GetStatusResponse → JobStatus
job_status_of resp = record {
  job_id = resp.job_id;
  status = status_name resp.status;
  output = resp.output;
  error = resp.error;
  exit_code = resp.exit_code;
  worker_id = resp.worker_id;
  created_at = resp.created_at;
  completed_at = as_time resp.completed_at;
}

-- The `switch` of IsComplete and of WaitForCompletion.
abbrev pub is_final : String → Bool
is_final s =
    str_eq s "JOB_STATUS_COMPLETED"
    || str_eq s "JOB_STATUS_FAILED"
    || str_eq s "JOB_STATUS_CANCELLED"
    || str_eq s "JOB_STATUS_TIMEOUT"

-- IsComplete
unfoldable pub is_complete : JobStatus → Bool
is_complete s = is_final s.status

-- IsSuccess
unfoldable pub is_success : JobStatus → Bool
is_success s = str_eq s.status "JOB_STATUS_COMPLETED" && is_zero s.exit_code

-- The request of RunCommandWithTimeout.
abbrev pub command_request : Bytes → Duration → SubmitRequest
command_request payload timeout = record {
  task_type = "command";
  payload = payload;
  timeout = some timeout;
  priority = pos 0;
  metadata = Map.empty;
}

abbrev pub command_payload : String → List String → CommandPayload
command_payload command args = record {
  command = command;
  args = args;
  env = Map.empty;
  working_dir = "";
  stdin = "";
}

-- What the loop of WaitForCompletion meets: its context is done, with an error, or the ticker fires
-- after the master went on.
pub data Event (M : Type 0) : Type 0 where
  done : String → Event M
  ticked : (M → M) → Event M

-- What WaitForCompletion does with the events: it returns a status or an error, or waits on.
pub data Waited : Type 0 where
  finished : JobStatus → Waited
  gave_up : Waited
  waiting : Waited

-- The poll interval in use.
unfoldable pub poll_interval : Duration → Duration
poll_interval d = if leb_ℤ d (pos 0) then pos 500000000 else d

module _ {M : Type 0} (c : MasterClient M) where
  submitted_with : M → Duration → Option Bytes → M × Option String
  submitted_with m timeout none = (m, none)
  submitted_with m timeout (some payload) = c.submit m (command_request payload timeout)

  -- RunCommandWithTimeout
  unfoldable pub run_command_with_timeout :
      (CommandPayload → Option Bytes) → M → String → Duration → List String → M × Option String
  unfolding submitted_with
  run_command_with_timeout marshal m command timeout args =
      submitted_with m timeout (marshal (command_payload command args))

  -- RunCommand
  unfoldable pub run_command :
      (CommandPayload → Option Bytes) → M → String → List String → M × Option String
  run_command marshal m command args =
      run_command_with_timeout marshal m command (pos (30 * second)) args

  reported : Option GetStatusResponse → Option JobStatus
  reported none = none
  reported (some resp) = some (job_status_of resp)

  -- GetStatus
  unfoldable pub get_status : M → String → Option JobStatus
  unfolding reported
  get_status m id = reported (c.get_status m id)

  cancelled_of : M × Option CancelResponse → M × Option Bool
  cancelled_of (m, none) = (m, none)
  cancelled_of (m, some resp) = (m, some resp.cancelled)

  -- Cancel
  unfoldable pub cancel : M → String → M × Option Bool
  unfolding cancelled_of
  cancel m id = cancelled_of (c.cancel m id)

  polled : Option JobStatus → Waited → Waited
  polled none later = gave_up
  polled (some s) later = if is_final s.status then finished s else later

  -- WaitForCompletion
  unfoldable pub wait_for_completion : String → List (Event M) → M → Waited
  unfolding polled
  wait_for_completion id [] m = waiting
  wait_for_completion id (done e ∷ es) m = gave_up
  wait_for_completion id (ticked meanwhile ∷ es) m =
      let later = wait_for_completion id es (meanwhile m) in
      polled (get_status (meanwhile m) id) later

  waited : List (Event M) → M × Option String → Waited
  waited es (m, none) = gave_up
  waited es (m, some id) = wait_for_completion id es m

  -- RunAndWait
  unfoldable pub run_and_wait :
      (CommandPayload → Option Bytes) → M → String → List String → List (Event M) → Waited
  unfolding waited
  run_and_wait marshal m command args es = waited es (run_command marshal m command args)
