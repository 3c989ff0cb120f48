-- ===== src/Executor.antt =====
-- pkg/executor: what a worker runs. This file follows executor.go; the registry of executors is in
-- Executor/Registry, and the executor of shell commands in Executor/Command.
--
-- The interface Executor is a record of functions. What an executor finds outside the program when
-- it runs, the context included, is an argument of type W. An error is its message.
pub mod Registry
pub mod Command
use dist_command_exec.Prelude.{String, Option, [], ◌⊎◌}
use dist_command_exec.Prelude.Int.{ℤ, pos}
use dist_command_exec.Prelude.Map
use dist_command_exec.Prelude.Map.{Map}
use dist_command_exec.Types.{Bytes}

pub record Task : Type 0 where
  pub id : String
  pub task_type : String
  pub payload : Bytes
  pub metadata : Map String

pub record Result : Type 0 where
  pub output : Bytes
  pub exit_code : ℤ
  pub error : String
  pub metadata : Map String

-- What a call returns: a result, or an error (with the zero result).
pub data Outcome {ℓ} (A : Type ℓ) : Type ℓ where
  returns : A → Outcome A
  fails : String → Outcome A

-- Executor; `validate` and `health_check` return nil or an error.
pub record Executor (W : Type 0) : Type 0 where
  pub name : String
  pub execute : W → Task → Outcome Result
  pub validate : Bytes → Option String
  pub health_check : W → Option String

-- NewResult
unfoldable pub new_result : Result
new_result = record { output = []; exit_code = pos 0; error = ""; metadata = Map.empty }

-- Success
unfoldable pub success : Bytes → Result
success output = record { output = output; exit_code = pos 0; error = ""; metadata = Map.empty }

-- Failure
unfoldable pub failure : String → ℤ → Result
failure message exit_code = record {
  output = [];
  exit_code = exit_code;
  error = message;
  metadata = Map.empty;
}
