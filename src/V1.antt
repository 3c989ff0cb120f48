-- ===== src/V1.antt =====
-- api/v1: the Go types of the DistributedJob resource, with the JSON object that the tags of their
-- fields describe, in the terms in which internal/operator/controller.go reads and writes it.
-- `omitempty` leaves out what is zero. metav1.Time is its text; the metadata is name and namespace.
pub mod Specs
pub mod Statuses
use dist_command_exec.Prelude.{
  String, Option, none, some, List, [], ◌∷◌, map, if◌then◌else◌, str_eq,
}
use dist_command_exec.Prelude.Int.{ℤ}
use dist_command_exec.Prelude.Map.{Map}
use dist_command_exec.Master.Balancer.{is_zero}
use dist_command_exec.Operator.{Item, Value, Spec, DistributedJob}
use dist_command_exec.Operator as Operator

-- schema.GroupVersion and schema.GroupResource
pub record GroupVersion : Type 0 where
  pub group : String
  pub version : String

pub record GroupResource : Type 0 where
  pub group : String
  pub resource : String

-- GroupVersion
abbrev pub group_version : GroupVersion
group_version = record { group = "distexec.io"; version = "v1" }

-- Resource
unfoldable pub resource : String → GroupResource
resource name = record { group = group_version.group; resource = name }

-- DistributedJobSpec
pub record DistributedJobSpec : Type 0 where
  pub command : String
  pub args : List String
  pub parallelism : ℤ
  pub timeout : String
  pub working_dir : String
  pub env : Map String

-- The constants of JobPhase.
pub data JobPhase : Type 0 where
  pending running succeeded failed : JobPhase

abbrev pub phase_text : JobPhase → String
phase_text pending = "Pending"
phase_text running = "Running"
phase_text succeeded = "Succeeded"
phase_text failed = "Failed"

-- DistributedJobStatus; `none` is an empty phase, or a pointer that is nil.
pub record DistributedJobStatus : Type 0 where
  pub phase : Option JobPhase
  pub start_time : Option String
  pub completion_time : Option String
  pub completions : ℤ
  pub failed : ℤ
  pub message : String
  pub task_ids : List String

-- DistributedJob
pub record Job : Type 0 where
  pub name : String
  pub namespace : String
  pub spec : DistributedJobSpec
  pub status : DistributedJobStatus

-- DistributedJobList
pub record JobList : Type 0 where
  pub items : List Job

-- The fields with `omitempty`.
text_or_null : String → Value
text_or_null s = if str_eq s "" then Value.null else Value.text s

integer_or_null : ℤ → Value
integer_or_null n = if is_zero n then Value.null else Value.integer n

items_or_null : List String → Value
items_or_null [] = Value.null
items_or_null (s ∷ ss) = Value.items (map Item.text (s ∷ ss))

-- The keys of an encoded spec that the operator reads.
unfoldable pub spec_of : DistributedJobSpec → Spec
unfolding text_or_null integer_or_null items_or_null
spec_of s = record {
  command = Value.text s.command;
  args = items_or_null s.args;
  parallelism = integer_or_null s.parallelism;
  timeout = text_or_null s.timeout;
}

abbrev phase_or_empty : Option JobPhase → String
phase_or_empty none = ""
phase_or_empty (some p) = phase_text p

abbrev text_or_empty : Option String → String
text_or_empty none = ""
text_or_empty (some s) = s

-- What the operator finds in an encoded resource.
unfoldable pub encoded : Job → Operator.DistributedJob
encoded job = record {
  name = job.name;
  namespace = job.namespace;
  spec = some (spec_of job.spec);
  phase = phase_or_empty job.status.phase;
  task_ids = job.status.task_ids;
  start_time = text_or_empty job.status.start_time;
}
