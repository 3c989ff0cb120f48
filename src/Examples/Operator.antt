-- ===== src/Examples/Operator.antt =====
-- A resource with two tasks, encoded from the types of api/v1, and its events.
use dist_command_exec.Prelude.{
  List, ◌&&◌, if◌then◌else◌, ℕ, ◌+◌, ◌≡◌, inl, refl, String, true, Option, some, none, [], ◌∷◌,
  arith,
}
use dist_command_exec.Prelude.Int.{pos, int32}
use dist_command_exec.Prelude.Map
use dist_command_exec.Types.{Bytes, Duration}
use dist_command_exec.Executor.Command.{CommandPayload, decimal}
use dist_command_exec.Client.{MasterClient}
use dist_command_exec.Operator.{
  DistributedJob, GoValue, Setting, panics, Outlook, lives, dies, on_update, Update, Access,
  reconcile, start_jobs, status_of, parallelism_of,
}
use dist_command_exec.Operator.Updates.{all_json, PanicsOnOthers, is_some, on_update_lem}
use dist_command_exec.Operator.Watching.{Event, handle_all}
use dist_command_exec.Operator.Watching.Panics.{stored_of, launch, shows, handle_all-stored}
use dist_command_exec.V1.{DistributedJobSpec, Job, spec_of, encoded}
use dist_command_exec.V1.Specs.{tasks_of, timeout_given, reconcile-encoded}
use dist_command_exec.V1.Statuses.{IsTyped, status_of-IsTyped}

-- A master that counts its submissions, and knows no job.
abbrev counter : MasterClient ℕ
counter = record {
  submit = λ n req. (n + 1, some "job1");
  get_status = λ n id. none;
  cancel = λ n id. (n, none);
}

abbrev marshal : CommandPayload → Option Bytes
marshal p = some (1 ∷ [])

abbrev parse_duration : String → Option Duration
parse_duration s = none

abbrev typed_spec : DistributedJobSpec
typed_spec = record {
  command = "ls";
  args = "-l" ∷ [];
  parallelism = pos 2;
  timeout = "";
  working_dir = "/tmp";
  env = Map.empty;
}

abbrev job : Job
job = record {
  name = "demo";
  namespace = "default";
  spec = typed_spec;
  status = record {
    phase = none;
    start_time = none;
    completion_time = none;
    completions = pos 0;
    failed = pos 0;
    message = "";
    task_ids = [];
  };
}

abbrev met : String → ℕ
met id = 0

reconcile-encoded_example : reconcile counter marshal parse_duration 0 (encoded job) met ≡ (
  (start_jobs counter marshal 0
      (encoded job)
      "ls"
      ("-l" ∷ [])
      (tasks_of (pos 2))
      (timeout_given parse_duration "")).0,
  some
      (start_jobs counter marshal 0
        (encoded job)
        "ls"
        ("-l" ∷ [])
        (tasks_of (pos 2))
        (timeout_given parse_duration "")).1,
)
reconcile-encoded_example =
    reconcile-encoded counter marshal parse_duration 0 job met (inl refl) (omega arith)

-- The resource, as the operator first sees it.
abbrev fresh : DistributedJob
fresh = record {
  name = "demo";
  namespace = "default";
  spec = some (spec_of typed_spec);
  phase = "";
  task_ids = [];
  start_time = "";
}

abbrev launch_update : Update
launch_update = record {
  phase = "Running";
  completions = pos 0;
  failed = pos 0;
  message = "submitted 2 tasks";
  task_ids = some ("job1" ∷ "job1" ∷ []);
}

launches : (reconcile counter marshal parse_duration 0 fresh met).1 ≡ some launch_update
unfolding reconcile start_jobs parallelism_of int32 decimal spec_of
launches = refl

status_of-IsTyped_example :
    IsTyped fresh "2024-01-01T00:00:00Z" (status_of fresh launch_update "2024-01-01T00:00:00Z")
status_of-IsTyped_example =
    status_of-IsTyped counter marshal parse_duration 0 fresh met (spec_of typed_spec) launch_update
      "2024-01-01T00:00:00Z" refl (omega arith) launches

-- SetNestedField, as far as panics go.
abbrev set_nested_field : DistributedJob → List (String × GoValue) → Setting
set_nested_field u m = if all_json m then Setting.sets u else panics

documented : PanicsOnOthers set_nested_field
documented u m h = rw h refl

abbrev access : Access
access = record { found = some fresh; writes = true; now = "2024-01-01T00:00:00Z" }

on_update_lem_example :
    on_update counter marshal set_nested_field parse_duration 0 fresh met access fresh ≡ (
      (reconcile counter marshal parse_duration 0 fresh met).0,
      if is_some (reconcile counter marshal parse_duration 0 fresh met).1 && is_some access.found
          then dies fresh
          else lives fresh,
    )
on_update_lem_example =
    on_update_lem counter marshal set_nested_field parse_duration 0 fresh met access fresh
      documented

abbrev event : Event ℕ
event = shows counter marshal set_nested_field parse_duration fresh met access

handle_all-stored_example :
    stored_of
      (handle_all counter marshal set_nested_field parse_duration (event ∷ event ∷ []) (7, fresh)).1
    ≡ fresh
handle_all-stored_example =
    handle_all-stored counter marshal set_nested_field parse_duration (event ∷ event ∷ []) 7 fresh
      documented

abbrev launch_fresh : ℕ → ℕ
launch_fresh n =
    (launch counter marshal set_nested_field parse_duration fresh (spec_of typed_spec) n).0

abbrev first_run : ℕ × Outlook
first_run = handle_all counter marshal set_nested_field parse_duration (event ∷ []) (0, fresh)
