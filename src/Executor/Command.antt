-- ===== src/Executor/Command.antt =====
-- pkg/executor/command.go: the executor of shell commands. The JSON decoder and the run of a
-- process are parameters: `unmarshal` is what json.Unmarshal makes of a payload, and a World is
-- what os/exec and the context give in one run.
pub mod Limits
pub mod Exit
use Prim.Native.String.{◌++◌ as append}
use dist_command_exec.Prelude.{
  ℕ, zero, suc, ◌+◌, ◌/◌, ◌%◌, String, Bool, true, false, Option, none, some, List, [], ◌∷◌, ◌++◌,
  map, ◌==◌, ltb, ◌||◌, not, ◌&&◌, if◌then◌else◌, str_eq,
}
use dist_command_exec.Prelude.Int.{ℤ, pos, negsuc}
use dist_command_exec.Prelude.Map
use dist_command_exec.Prelude.Map.{Map}
use dist_command_exec.Types.{Bytes}
use dist_command_exec.Executor.Registry as Registry
use dist_command_exec.Executor.{Executor, Task, Result, Outcome, returns, fails}

pub record CommandPayload : Type 0 where
  pub command : String
  pub args : List String
  pub env : Map String
  pub working_dir : String
  pub stdin : String

pub record CommandExecutor : Type 0 where
  pub allowed_commands : List String
  pub blocked_commands : List String

-- NewCommandExecutor
unfoldable pub new_command_executor : CommandExecutor
new_command_executor = record { allowed_commands = []; blocked_commands = [] }

-- NewCommandExecutorWithLimits
unfoldable pub new_command_executor_with_limits : List String → List String → CommandExecutor
new_command_executor_with_limits allowed blocked = record {
  allowed_commands = allowed;
  blocked_commands = blocked;
}

-- exec.Cmd, as far as Execute sets it; `none` stands for the zero value, which inherits.
pub record Cmd : Type 0 where
  pub path : String
  pub args : List String
  pub dir : Option String
  pub env : Option (List String)
  pub stdin : Option String

-- How cmd.Run ends: with nil, with an ExitError and its exit code, or with another error.
pub data RunError : Type 0 where
  no_error : RunError
  exit_error : ℤ → RunError
  other_error : String → RunError

pub record Process : Type 0 where
  pub stdout : Bytes
  pub stderr : String
  pub error : RunError

-- What is outside: the environment, what a process does, and the error of the context after the
-- run.
pub record World : Type 0 where
  pub environ : List String
  pub run : Cmd → Process
  pub ctx_err : Option String
  -- The order in which the loop over Env meets its entries.
  pub range_env : Map String → List (String × String)

-- The loops of Validate over its lists.
pub listed : String → List String → Bool
listed command [] = false
listed command (c ∷ rest) =
    let later = listed command rest in if str_eq command c then true else later

-- The decimal digits of a number, at most as many as the fuel.
digit : ℕ → String
digit n =
    if n == 0
    then "0"
    else if n == 1
    then "1"
    else if n == 2
    then "2"
    else if n == 3
    then "3"
    else if n == 4
    then "4"
    else if n == 5
    then "5"
    else if n == 6
    then "6"
    else if n == 7
    then "7"
    else if n == 8
    then "8"
    else "9"

decimal_of : ℕ → ℕ → String
decimal_of zero n = ""
decimal_of (suc fuel) n =
    let front = decimal_of fuel (n / 10) in
    if ltb n 10 then digit n else append front (digit (n % 10))

-- The verb %d. A number has at most as many digits as its value, and one.
unfoldable pub decimal : ℤ → String
unfolding digit decimal_of
decimal (pos n) = decimal_of (suc n) n
decimal (negsuc n) = append "-" (decimal_of (suc (suc n)) (suc n))

-- The command that Execute builds; `ranged` is the payload's Env in the order of the `range`.
unfoldable pub cmd_of : List String → CommandPayload → List (String × String) → Cmd
cmd_of environ p ranged = record {
  path = p.command;
  args = p.args;
  dir = if str_eq p.working_dir "" then none else some p.working_dir;
  env = elim ranged [
    | [] ↦ none
    | e ∷ rest ↦ some (environ ++ map (λ kv. append kv.0 (append "=" kv.1)) (e ∷ rest))
  ];
  stdin = if str_eq p.stdin "" then none else some p.stdin;
}

-- The result that Execute makes of a process.
error_text : World → RunError → String
error_text w no_error = ""
error_text w (exit_error code) = append "command exited with code " (decimal code)
error_text w (other_error message) = elim w.ctx_err [ none ↦ message | some e ↦ e ]

exit_code_of : RunError → ℤ
exit_code_of no_error = pos 0
exit_code_of (exit_error code) = code
exit_code_of (other_error message) = negsuc 0

unfoldable pub result_of : World → Process → Result
unfolding error_text exit_code_of
result_of w p = record {
  output = p.stdout;
  exit_code = exit_code_of p.error;
  error = error_text w p.error;
  metadata = Map.put Map.empty "stderr" p.stderr;
}

module _ (unmarshal : Bytes → Option CommandPayload) where
  -- Validate behind the decoder.
  validate_payload : CommandExecutor → Option CommandPayload → Option String
  validate_payload e none = some "invalid payload"
  validate_payload e (some p) =
      if str_eq p.command ""
      then some "command is required"
      else if listed p.command e.blocked_commands
      then some "command is blocked"
      else elim e.allowed_commands [
        | [] ↦ none
        | c ∷ rest ↦
            if listed p.command (c ∷ rest) then none else some "command is not in allowed list"
      ]

  -- Validate; of the quoted command and the decoder's message only the kind of error is kept.
  unfoldable pub validate : CommandExecutor → Bytes → Option String
  unfolding validate_payload listed
  validate e payload = validate_payload e (unmarshal payload)

  execute_payload : World → Option CommandPayload → Outcome Result
  execute_payload w none = fails "payload parse error"
  execute_payload w (some p) =
      returns (result_of w (w.run (cmd_of w.environ p (w.range_env p.env))))

  -- Execute
  unfoldable pub execute : CommandExecutor → World → Task → Outcome Result
  unfolding execute_payload
  execute e w task = execute_payload w (unmarshal task.payload)

  abbrev true_error : RunError → Option String
  true_error no_error = none
  true_error (exit_error code) = some "exit status"
  true_error (other_error message) = some message

  -- HealthCheck: the command `true` can be run.
  unfoldable pub health_check : CommandExecutor → World → Option String
  health_check e w =
      true_error
        (w.run (record { path = "true"; args = []; dir = none; env = none; stdin = none })).error

  -- The executor as a value of the interface; its Name is "command".
  unfoldable pub as_executor : CommandExecutor → Executor World
  as_executor e = record {
    name = "command";
    execute = execute e;
    validate = validate e;
    health_check = health_check e;
  }

  -- NewDefaultRegistry
  unfoldable pub new_default_registry : Map (Executor World)
  new_default_registry = Registry.register Registry.new_registry (as_executor new_command_executor)
