-- ===== src/Executor/Registry.antt =====
-- pkg/executor/registry.go: the executors of a worker by name. Each method runs under the
-- registry's lock but for the call of an executor in Execute and Validate.
use Prim.Native.String.{◌++◌ as append}
use dist_command_exec.Prelude.{String, Option, none, some, List, map}
use dist_command_exec.Prelude.Map
use dist_command_exec.Prelude.Map.{Map}
use dist_command_exec.Types.{Bytes}
use dist_command_exec.Executor.{Executor, Task, Result, Outcome, fails}

module _ {W : Type 0} where
  -- NewRegistry
  unfoldable pub new_registry : Map (Executor W)
  new_registry = Map.empty

  -- Register
  unfoldable pub register : Map (Executor W) → Executor W → Map (Executor W)
  register r e = Map.put r e.name e

  -- Get
  unfoldable pub get : Map (Executor W) → String → Option (Executor W)
  get r name = Map.get r name

  -- Capabilities, over the executors in the order in which `range` yields them.
  unfoldable pub capabilities : List (String × Executor W) → List String
  capabilities visited = map (λ e. e.0) visited

  execute_with : W → Task → Option (Executor W) → Outcome Result
  execute_with world task none = fails (append "unknown executor type: " task.task_type)
  execute_with world task (some e) = e.execute world task

  -- Execute
  unfoldable pub execute : Map (Executor W) → W → Task → Outcome Result
  unfolding execute_with get
  execute r world task = execute_with world task (get r task.task_type)

  validate_with : String → Bytes → Option (Executor W) → Option String
  validate_with task_type payload none = some (append "unknown executor type: " task_type)
  validate_with task_type payload (some e) = e.validate payload

  -- Validate
  unfoldable pub validate : Map (Executor W) → String → Bytes → Option String
  unfolding validate_with get
  validate r task_type payload = validate_with task_type payload (get r task_type)

  -- HealthCheckAll, over the executors in the order in which `range` yields them.
  unfoldable pub health_check_all : W → List (String × Executor W) → List (String × Option String)
  health_check_all world visited = map (λ e. (e.0, e.1.health_check world)) visited
