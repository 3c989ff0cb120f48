-- ===== src/Mains/Disabled.antt =====
-- A worker whose command executor is switched off (cmd/worker/main.go), against the dispatcher's
-- requests.
use dist_command_exec.Prelude.{
  ℕ, ◌≡◌, ◌≢◌, inl, inr, refl, String, str_eq, eq_iff, false, Bool-cases, Option, none, [], ◌∷◌,
  eq_refl, List, arith, if◌then◌else◌,
}
use dist_command_exec.Prelude.Int.{pos}
use dist_command_exec.Prelude.Map
use dist_command_exec.Prelude.Map.{get-empty, Visits}
use dist_command_exec.Types.{Bytes, Duration}
use dist_command_exec.Config.{CommandExecutorConfig}
use dist_command_exec.Executor.{Executor}
use dist_command_exec.Executor.Registry as Registry
use dist_command_exec.Executor.Command.{CommandPayload, World}
use dist_command_exec.Master.Dispatcher.{ExecuteRequest}
use dist_command_exec.Master.Server.{status, internal, resource_exhausted}
use dist_command_exec.Worker.Runner.{TaskRunner, at_capacity, run}
use dist_command_exec.Worker.Server.{
  WorkerConfig, execute, task_of, new_server, get_worker_status, healthy,
}
use dist_command_exec.Mains.{registry_of, worker_of}

named : (s : String) → s ≢ "" → str_eq s "" ≡ false
named s h = elim (Bool-cases (str_eq s "")) [
  | inl hit ↦ absurd (h ((eq_iff s "").0 hit))
  | inr miss ↦ miss
]

module _ (unmarshal : Bytes → Option CommandPayload) where
  nothing :
      (cfg : WorkerConfig) (command : CommandExecutorConfig) (name : String)
      → command.enabled ≡ false
      → Map.get (worker_of unmarshal cfg command).executors name ≡ none
  unfolding worker_of registry_of new_server Registry.new_registry Map.empty
  nothing cfg command name off = rw off (get-empty name)

  visited :
      (cfg : WorkerConfig) (command : CommandExecutorConfig)
      (checked : List (String × Executor World))
      → command.enabled ≡ false
      → Visits (worker_of unmarshal cfg command).executors checked
      → checked ≡ []
  visited cfg command [] off v = refl
  visited cfg command ((k, e) ∷ rest) off v =
      absurd (ground (arith, eq_refl k, v.same k, nothing cfg command k off))

  -- A worker whose command executor is switched off, whatever its runner: to a request with an ID
  -- and a type it replies RESOURCE_EXHAUSTED at its limit and INTERNAL otherwise, never a result;
  -- and it shows as healthy.
  worker_of-disabled :
      (cfg : WorkerConfig) (command : CommandExecutorConfig) (runner : TaskRunner)
      (req : ExecuteRequest) (call : ℕ) (world : Duration → World) (duration : Duration)
      (checked listed : List (String × Executor World))
      → command.enabled ≡ false
      → req.task_id ≢ ""
      → req.task_type ≢ ""
      → Visits (worker_of unmarshal cfg command).executors checked
      → let s = record (worker_of unmarshal cfg command) { runner = runner } in
        ((execute s req call world duration).1
          ≡ (if at_capacity runner then status resource_exhausted else status internal))
        × ((get_worker_status s (world (pos 0)) checked listed).health ≡ healthy)
  unfolding execute run Registry.execute task_of get_worker_status Registry.health_check_all
  worker_of-disabled cfg command runner req call world duration checked listed off id kind v = (
    rw (named req.task_id id, named req.task_type kind)
        (elim (Bool-cases (at_capacity runner)) [
          | inl full ↦ rw full refl
          | inr free ↦ rw (free, nothing cfg command req.task_type off) refl
        ]),
    rw (visited cfg command checked off v) refl,
  )
