-- ===== src/Master/Server/Wire.antt =====
-- The messages of the master's gRPC services (proto/), as internal/master/server.go uses them, its
-- translations of job statuses, and the settings of internal/config/master.go.
use dist_command_exec.Prelude.{String, Bool, Option, List}
use dist_command_exec.Prelude.Int.{ℤ}
use dist_command_exec.Prelude.Map.{Map}
use dist_command_exec.Types.{Time, Duration, Bytes, TaskStatus}

-- codes.Code, as far as the handlers use it.
pub data Code : Type 0 where
  invalid_argument not_found resource_exhausted internal unimplemented : Code

pub data Reply {ℓ} (A : Type ℓ) : Type ℓ where
  ok : A → Reply A
  status : Code → Reply A

-- pb.JobStatus, with the values that a peer may send and that have no name.
pub data JobStatus : Type 0 where
  unspecified pending running completed failed cancelled timeout : JobStatus
  unrecognized : ℤ → JobStatus

-- toProtoJobStatus
unfoldable pub to_proto_job_status : TaskStatus → JobStatus
to_proto_job_status TaskStatus.created = JobStatus.unspecified
to_proto_job_status TaskStatus.pending = JobStatus.pending
to_proto_job_status TaskStatus.running = JobStatus.running
to_proto_job_status TaskStatus.completed = JobStatus.completed
to_proto_job_status TaskStatus.failed = JobStatus.failed
to_proto_job_status TaskStatus.cancelled = JobStatus.cancelled
to_proto_job_status TaskStatus.timeout = JobStatus.timeout

-- fromProtoJobStatus; the status 0 is `created`.
unfoldable pub from_proto_job_status : JobStatus → TaskStatus
from_proto_job_status JobStatus.pending = TaskStatus.pending
from_proto_job_status JobStatus.running = TaskStatus.running
from_proto_job_status JobStatus.completed = TaskStatus.completed
from_proto_job_status JobStatus.failed = TaskStatus.failed
from_proto_job_status JobStatus.cancelled = TaskStatus.cancelled
from_proto_job_status JobStatus.timeout = TaskStatus.timeout
from_proto_job_status _ = TaskStatus.created

-- pb.SubmitRequest
pub record SubmitRequest : Type 0 where
  pub task_type : String
  pub payload : Bytes
  pub timeout : Option Duration
  pub priority : ℤ
  pub metadata : Map String

-- pb.GetStatusResponse; StartedAt is never set.
pub record GetStatusResponse : Type 0 where
  pub job_id : String
  pub status : JobStatus
  pub output : Bytes
  pub error : String
  pub exit_code : ℤ
  pub worker_id : String
  pub created_at : Time
  pub completed_at : Option Time

-- pb.CancelResponse
pub record CancelResponse : Type 0 where
  pub cancelled : Bool
  pub message : String

-- pb.ListJobsRequest
pub record ListJobsRequest : Type 0 where
  pub limit : ℤ
  pub offset : ℤ
  pub status_filter : JobStatus

-- pb.JobSummary
pub record JobSummary : Type 0 where
  pub job_id : String
  pub task_type : String
  pub status : JobStatus
  pub created_at : Time

-- pb.ListJobsResponse
pub record ListJobsResponse : Type 0 where
  pub jobs : List JobSummary
  pub total : ℤ

-- pb.RegisterRequest
pub record RegisterRequest : Type 0 where
  pub worker_id : String
  pub address : String
  pub capabilities : List String
  pub max_concurrent_tasks : ℤ
  pub labels : Map String

-- pb.RegisterResponse, without its message.
pub record RegisterResponse : Type 0 where
  pub accepted : Bool
  pub heartbeat_interval : Duration

-- config.Master, as far as NewServer uses it.
pub record MasterConfig : Type 0 where
  pub max_concurrent_jobs : ℤ
  pub heartbeat_timeout : ℤ
  pub scaling_enabled : Bool
