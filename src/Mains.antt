-- ===== src/Mains.antt =====
-- cmd/master/main.go, cmd/worker/main.go and cmd/operator/main.go: what the processes build from
-- their settings before they run. The environment is a function from the names of its variables; a
-- variable that is not set is empty, as for os.Getenv.
pub mod Limits
pub mod Disabled
use dist_command_exec.Prelude.{Option, String, Bool, if◌then◌else◌, str_eq, map, List, ◌∷◌, []}
use dist_command_exec.Prelude.Map
use dist_command_exec.Prelude.Map.{Map}
use dist_command_exec.Types.{Bytes}
use dist_command_exec.Config.{CommandExecutorConfig, allowed_commands_list, blocked_commands_list}
use dist_command_exec.Config.Texts.{string_of}
use dist_command_exec.Executor.{Executor}
use dist_command_exec.Executor.Registry as Registry
use dist_command_exec.Executor.Command.{
  CommandPayload, World, as_executor, new_command_executor_with_limits,
}
use dist_command_exec.Worker.Server.{WorkerConfig, Server, new_server}
use dist_command_exec.Worker.Registration.{Registration, new_registration, registration_of}

-- zerolog.Level, as far as setupLogging uses it.
pub data Level : Type 0 where
  debug info warn error : Level

-- setupLogging of master and worker: the global level.
unfoldable pub level_of : String → Level
level_of level =
    if str_eq level "debug"
    then debug
    else if str_eq level "warn"
    then warn
    else if str_eq level "error"
    then error
    else info

module _ (unmarshal : Bytes → Option CommandPayload) where
  -- The registry that the worker's main builds.
  unfoldable pub registry_of : CommandExecutorConfig → Map (Executor World)
  registry_of cfg =
      if cfg.enabled
      then Registry.register Registry.new_registry (
          as_executor unmarshal (
            new_command_executor_with_limits (map string_of (allowed_commands_list cfg))
              (map string_of (blocked_commands_list cfg))))
      else Registry.new_registry

  -- The server that the worker's main runs.
  unfoldable pub worker_of : WorkerConfig → CommandExecutorConfig → Server World
  worker_of cfg command = new_server cfg (registry_of command)

-- Where the operator takes its client configuration from.
pub data Source : Type 0 where
  kubeconfig : String → Source
  in_cluster : Source

-- What the operator's main takes from the environment.
pub record OperatorSettings : Type 0 where
  pub master_addr : String
  pub namespace : String
  pub source : Source

abbrev or_default : String → String → String
or_default value other = if str_eq value "" then other else value

unfoldable pub operator_settings : (String → String) → OperatorSettings
operator_settings getenv = record {
  master_addr = or_default (getenv "MASTER_ADDRESS") "master:50051";
  namespace = or_default (getenv "WATCH_NAMESPACE") "default";
  source = if str_eq (getenv "KUBECONFIG") "" then in_cluster else kubeconfig (getenv "KUBECONFIG");
}
