-- ===== src/V1/Statuses.antt =====
-- The status that internal/operator/controller.go writes, in the types of
-- api/v1/distributedjob_types.go.
use dist_command_exec.Prelude.{
  ◌<◌, ◌≡◌, ◌⊎◌, refl, String, str_eq, inl, inr, Option, none, some, length, if◌then◌else◌,
}
use dist_command_exec.Prelude.Int.{half32}
use dist_command_exec.Types.{Bytes, Duration}
use dist_command_exec.Executor.Command.{CommandPayload}
use dist_command_exec.Client.{MasterClient}
use dist_command_exec.Operator.{DistributedJob, Spec, Status, Update, reconcile, status_of}
use dist_command_exec.Operator.Phases.{reconcile_lem}
use dist_command_exec.Operator.Updates.{Moves, Turns-Moves}
use dist_command_exec.V1.{JobPhase, phase_text}

-- A status with a phase of the API: Running, with a start time if the resource had none, or a final
-- one, with the time of its completion.
abbrev pub IsTyped : DistributedJob → String → Status → Type 0
IsTyped u now s =
    (p : JobPhase) × (s.phase ≡ phase_text p)
    × ((p ≡ JobPhase.running)
          × (s.completion_time ≡ none)
          × (s.start_time ≡ (if str_eq u.start_time "" then some now else none))
        ⊎ ((p ≡ JobPhase.succeeded) ⊎ (p ≡ JobPhase.failed))
          × (s.completion_time ≡ some now)
          × (s.start_time ≡ none))

module _ (u : DistributedJob) (w : Update) (now : String) where
  status-running : w.phase ≡ "Running" → IsTyped u now (status_of u w now)
  unfolding status_of
  status-running e = (JobPhase.running, rw e refl, inl (refl, rw e refl, rw e refl))

  status-failed : w.phase ≡ "Failed" → IsTyped u now (status_of u w now)
  unfolding status_of
  status-failed e = (JobPhase.failed, rw e refl, inr (inr refl, rw e refl, rw e refl))

  status-succeeded : w.phase ≡ "Succeeded" → IsTyped u now (status_of u w now)
  unfolding status_of
  status-succeeded e = (JobPhase.succeeded, rw e refl, inr (inl refl, rw e refl, rw e refl))

  Moves-IsTyped : Moves u.phase w.phase → IsTyped u now (status_of u w now)
  Moves-IsTyped (inl (waits, inl runs)) = status-running runs
  Moves-IsTyped (inl (waits, inr fails)) = status-failed fails
  Moves-IsTyped (inr (runs, inl succeeds)) = status-succeeded succeeds
  Moves-IsTyped (inr (runs, inr (inl fails))) = status-failed fails
  Moves-IsTyped (inr (runs, inr (inr stays))) = status-running stays

module _ {M : Type 0} (c : MasterClient M) (marshal : CommandPayload → Option Bytes) where
  -- The status that updateStatus makes of what reconcile writes, for a resource with a spec and
  -- fewer than 2^31 task IDs, has a phase of api/v1: Running, with no completion time, and with a
  -- start time exactly if the resource had none; or Succeeded or Failed, with the current time as
  -- completion time and no start time.
  pub status_of-IsTyped :
      (parse_duration : String → Option Duration) (m : M) (u : DistributedJob) (met : String → M)
      (spec : Spec) (w : Update) (now : String)
      → u.spec ≡ some spec
      → length u.task_ids < half32
      → (reconcile c marshal parse_duration m u met).1 ≡ some w
      → IsTyped u now (status_of u w now)
  status_of-IsTyped parse_duration m u met spec w now known small writes = Moves-IsTyped u w now (
      Turns-Moves c marshal u spec met w
        (reconcile_lem c marshal parse_duration m u met spec w known small writes))
