-- ===== src/Mains/Limits.antt =====
-- The limits of commands, from the settings of internal/config/worker.go through
-- cmd/worker/main.go to the executor of pkg/executor/command.go.
use dist_command_exec.Prelude.{◌≡◌, ◌↔◌, ap, ◌∙◌, String, true, List, map, Option, some, none}
use dist_command_exec.Prelude.Map.{get-put_self}
use dist_command_exec.Types.{Bytes}
use dist_command_exec.Config.{
  Text, CommandExecutorConfig, allowed_commands_list, blocked_commands_list, comma, split_csv,
}
use dist_command_exec.Config.Csv.{IsCommandList, join, split_csv-join}
use dist_command_exec.Config.Texts.{codes, string_of, map-string_of-codes}
use dist_command_exec.Executor.Registry as Registry
use dist_command_exec.Executor.Command.{
  CommandPayload, as_executor, new_command_executor_with_limits,
}
use dist_command_exec.Executor.Command.Limits.{IsAllowed, validate_lem}
use dist_command_exec.Mains.{registry_of}

-- The setting for a list of commands: their texts with commas between them.
abbrev pub setting : List String → Text
setting commands = join comma (map codes commands)

-- No command of the list is empty, has a comma or has a space at an end.
abbrev pub IsSetting : List String → Type 0
IsSetting commands = IsCommandList (map codes commands)

split_csv-setting :
    (commands : List String)
    → IsSetting commands
    → map string_of (split_csv (setting commands)) ≡ commands
split_csv-setting commands good =
    ap (map string_of) (split_csv-join (map codes commands) good.0 good.1)
    ∙ map-string_of-codes commands

module _ (unmarshal : Bytes → Option CommandPayload) where
  -- A worker whose settings list allowed and blocked commands, with commas between them, where no
  -- command is empty, has a comma or a space at an end: its registry validates a payload of type
  -- "command" exactly when it decodes, its command is not empty, not among the blocked ones, and
  -- among the allowed ones unless there are none.
  pub registry_of_lem :
      (allowed blocked : List String) (payload : Bytes)
      → IsSetting allowed
      → IsSetting blocked
      → let cfg : CommandExecutorConfig = record {
        enabled = true;
        allowed_commands = setting allowed;
        blocked_commands = setting blocked;
      } in
        let limits = new_command_executor_with_limits allowed blocked in
        (Registry.validate (registry_of unmarshal cfg) "command" payload ≡ none)
        ↔ ((p : CommandPayload) × (unmarshal payload ≡ some p) × IsAllowed limits p)
  unfolding registry_of Registry.validate Registry.register as_executor allowed_commands_list
      blocked_commands_list
  registry_of_lem allowed blocked payload a b =
      rw (split_csv-setting allowed a, split_csv-setting blocked b, get-put_self)
        (validate_lem unmarshal (new_command_executor_with_limits allowed blocked) payload)
