-- ===== src/Types.antt =====
-- pkg/types/task.go and pkg/types/result.go: tasks, their lifecycle states, and results.
--
-- `TaskStatus` and `ResultStatus` are Go ints; the code only ever stores the named constants, which
-- are the constructors here, and `default` branches that serve other ints are not reached. Times
-- are nanoseconds since Go's zero time; what `time.Now()` returns is an argument.
use dist_command_exec.Prelude.{
  ℕ, ◌*◌, String, Bool, true, false, Option, none, List, [], ◌==◌, ◌&&◌,
}
use dist_command_exec.Prelude.Int.{ℤ, pos, ltb_ℤ}
use dist_command_exec.Prelude.Map
use dist_command_exec.Prelude.Map.{Map}

-- time.Time and time.Duration, in nanoseconds.
abbrev pub Time : Type 0
Time = ℕ

abbrev pub Duration : Type 0
Duration = ℤ

abbrev pub second : ℕ
second = 1000000000

abbrev pub Bytes : Type 0
Bytes = List ℕ

pub data TaskStatus : Type 0 where
  created pending running completed failed cancelled timeout : TaskStatus

-- The iota of each constant.
abbrev pub code : TaskStatus → ℕ
code created = 0
code pending = 1
code running = 2
code completed = 3
code failed = 4
code cancelled = 5
code timeout = 6

-- `==` and `!=` on TaskStatus.
abbrev pub status_eq : TaskStatus → TaskStatus → Bool
status_eq a b = code a == code b

-- TaskStatus.String
unfoldable pub to_string : TaskStatus → String
to_string created = "CREATED"
to_string pending = "PENDING"
to_string running = "RUNNING"
to_string completed = "COMPLETED"
to_string failed = "FAILED"
to_string cancelled = "CANCELLED"
to_string timeout = "TIMEOUT"

pub data ResultStatus : Type 0 where
  success failure timeout cancelled : ResultStatus

pub record Task : Type 0 where
  pub id : String
  pub task_type : String
  pub payload : Bytes
  pub priority : ℤ
  pub timeout : Duration
  pub retries : ℤ
  pub max_retries : ℤ
  pub created_at : Time
  pub started_at : Option Time
  pub completed_at : Option Time
  pub status : TaskStatus
  pub worker_id : String
  pub metadata : Map String

-- NewTask
unfoldable pub new_task : String → String → Bytes → Time → Task
new_task id task_type payload now = record {
  id = id;
  task_type = task_type;
  payload = payload;
  priority = pos 0;
  timeout = pos (30 * second);
  retries = pos 0;
  max_retries = pos 3;
  created_at = now;
  started_at = none;
  completed_at = none;
  status = created;
  worker_id = "";
  metadata = Map.empty;
}

-- The states that `IsTerminal` lists.
abbrev pub terminal : TaskStatus → Bool
terminal completed = true
terminal failed = true
terminal cancelled = true
terminal timeout = true
terminal _ = false

-- Task.IsTerminal
unfoldable pub is_terminal : Task → Bool
is_terminal t = terminal t.status

-- Task.CanRetry
unfoldable pub can_retry : Task → Bool
can_retry t = ltb_ℤ t.retries t.max_retries && status_eq t.status failed

pub record Result : Type 0 where
  pub task_id : String
  pub status : ResultStatus
  pub output : Bytes
  pub error : String
  pub exit_code : ℤ
  pub duration : Duration
  pub worker_id : String
  pub completed_at : Time
  pub metadata : Map String

-- The test of `IsSuccess`.
abbrev pub succeeded : ResultStatus → Bool
succeeded success = true
succeeded _ = false

-- Result.IsSuccess
unfoldable pub is_success : Result → Bool
is_success r = succeeded r.status

-- ResultStatus.String
unfoldable pub result_status_name : ResultStatus → String
result_status_name success = "SUCCESS"
result_status_name failure = "FAILURE"
result_status_name ResultStatus.timeout = "TIMEOUT"
result_status_name ResultStatus.cancelled = "CANCELLED"

-- NewResult; `now` is the time of the call.
unfoldable pub new_result : String → Time → Result
new_result task_id now = record {
  task_id = task_id;
  status = success;
  output = [];
  error = "";
  exit_code = pos 0;
  duration = pos 0;
  worker_id = "";
  completed_at = now;
  metadata = Map.empty;
}

-- Success
unfoldable pub success_result : String → Bytes → Duration → Time → Result
success_result task_id output duration now = record (new_result task_id now) {
  output = output;
  duration = duration;
}

-- Failure
unfoldable pub failure_result : String → String → ℤ → Duration → Time → Result
failure_result task_id error exit_code duration now = record (new_result task_id now) {
  status = failure;
  error = error;
  exit_code = exit_code;
  duration = duration;
}
