-- ===== src/Operator/Resource.antt =====
-- The resource of internal/operator/controller.go, its fields, and updateStatus.
use dist_command_exec.Prelude.{
  String, Bool, true, false, ◌&&◌, ◌||◌, Option, none, some, List, [], ◌∷◌, ◌++◌, if◌then◌else◌,
  str_eq,
}
use dist_command_exec.Prelude.Int.{ℤ, pos, int32}

-- A value of the resource, as far as the type switches tell values apart; `null` is a missing one.
pub data Item : Type 0 where
  text : String → Item
  other : Item

pub data Value : Type 0 where
  null other : Value
  text : String → Value
  integer : ℤ → Value
  items : List Item → Value

-- The spec, by the keys that reconcile reads.
pub record Spec : Type 0 where
  pub command : Value
  pub args : Value
  pub parallelism : Value
  pub timeout : Value

pub record DistributedJob : Type 0 where
  pub name : String
  pub namespace : String
  -- `none`: there is no spec, or it is no map.
  pub spec : Option Spec
  pub phase : String
  pub task_ids : List String
  pub start_time : String

-- The status map of updateStatus; an option is a key that is set only sometimes.
pub record Status : Type 0 where
  pub phase : String
  pub completions : ℤ
  pub failed : ℤ
  pub message : String
  pub task_ids : Option (List String)
  pub start_time : Option String
  pub completion_time : Option String

-- toStringSlice
unfoldable pub texts_of : List Item → List String
texts_of [] = []
texts_of (text s ∷ rest) = s ∷ texts_of rest
texts_of (other ∷ rest) = texts_of rest

unfoldable pub to_string_slice : Value → List String
unfolding texts_of
to_string_slice (items is) = texts_of is
to_string_slice _ = []

-- command, _ := v.(string)
abbrev pub text_of : Value → String
text_of (text s) = s
text_of _ = ""

-- The parallelism, 1 if it is no int64.
unfoldable pub parallelism_of : Value → ℤ
parallelism_of (integer n) = int32 n
parallelism_of _ = pos 1

-- What a reconciliation writes: the arguments of updateStatus behind the name.
pub record Update : Type 0 where
  pub phase : String
  pub completions : ℤ
  pub failed : ℤ
  pub message : String
  pub task_ids : Option (List String)

-- What the world gives to one updateStatus: the resource that Get finds, whether UpdateStatus
-- succeeds, and the time as text.
pub record Access : Type 0 where
  pub found : Option DistributedJob
  pub writes : Bool
  pub now : String

unfoldable pub status_of : DistributedJob → Update → String → Status
status_of u w now = record {
  phase = w.phase;
  completions = w.completions;
  failed = w.failed;
  message = w.message;
  task_ids = w.task_ids;
  start_time = if str_eq w.phase "Running" && str_eq u.start_time "" then some now else none;
  completion_time =
      if str_eq w.phase "Succeeded" || str_eq w.phase "Failed" then some now else none;
}

-- A Go value of the status map, by its type: string, int32 or []string.
pub data GoValue : Type 0 where
  string_value : String → GoValue
  int32_value : ℤ → GoValue
  strings_value : List String → GoValue

given : {A : Type 0} → String → (A → GoValue) → Option A → List (String × GoValue)
given key value none = []
given key value (some a) = (key, value a) ∷ []

-- The status map with the types that updateStatus gives to its values.
unfoldable pub status_map : Status → List (String × GoValue)
unfolding given
status_map s =
    ("phase", string_value s.phase)
      ∷ ("completions", int32_value s.completions)
      ∷ ("failed", int32_value s.failed)
      ∷ ("message", string_value s.message)
      ∷ given "taskIds" strings_value s.task_ids
    ++ given "startTime" string_value s.start_time
    ++ given "completionTime" string_value s.completion_time

-- How SetNestedField ends: with a resource, an error or a panic.
pub data Setting : Type 0 where
  sets : DistributedJob → Setting
  refuses : Setting
  panics : Setting

-- The resource that the API server stores, and whether the process goes on: nothing in it recovers
-- from a panic.
pub data Outlook : Type 0 where
  lives : DistributedJob → Outlook
  dies : DistributedJob → Outlook

module _ (set_nested_field : DistributedJob → List (String × GoValue) → Setting) where
  unfoldable pub written : Bool → DistributedJob → Setting → Outlook
  written true stored (sets u) = lives u
  written false stored (sets u) = lives stored
  written _ stored refuses = lives stored
  written _ stored panics = dies stored

  updated : Access → DistributedJob → Update → Option DistributedJob → Outlook
  updated a stored w none = lives stored
  updated a stored w (some u) =
      written a.writes stored (set_nested_field u (status_map (status_of u w a.now)))

  -- updateStatus
  unfoldable pub update_status : Access → DistributedJob → Update → Outlook
  unfolding status_of written updated
  update_status a stored w = updated a stored w a.found
