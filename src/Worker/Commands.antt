-- ===== src/Worker/Commands.antt =====
-- A command on its way from the master's dispatcher (internal/master/dispatcher.go) through a
-- worker (internal/worker/server.go, runner.go) and its executor (pkg/executor/command.go) to the
-- result that the master stores.
use dist_command_exec.Prelude.{
  ◌≡◌, ◌≢◌, ◌⊎◌, inl, inr, refl, ℕ, str_eq, eq_iff, false, Bool-cases, Option, some,
}
use dist_command_exec.Prelude.Map
use dist_command_exec.Types.{Bytes, Duration, Time, Task, is_success, completed, failed}
use dist_command_exec.Executor.Command.{
  CommandPayload, CommandExecutor, World, Process, result_of, cmd_of, as_executor, no_error,
}
use dist_command_exec.Executor.Command.Exit.{Reported, status_of-result_of}
use dist_command_exec.Executor.Command as Command
use dist_command_exec.Executor.Registry as Registry
use dist_command_exec.Master.Store.{outcome}
use dist_command_exec.Master.Registry.{NodeInfo}
use dist_command_exec.Master.Dispatcher.{
  ExecuteRequest, ExecuteResponse, ExecutionStatus, request, result_status,
}
use dist_command_exec.Master.Dispatcher as Dispatcher
use dist_command_exec.Master.Server.{ok, timeout_of}
use dist_command_exec.Worker.Runner.{at_capacity, run}
use dist_command_exec.Worker.Server.{Server, execute, response_of, task_of}

-- The process that a worker starts for a payload.
abbrev pub process_of : World → CommandPayload → Process
process_of w p = w.run (cmd_of w.environ p (w.range_env p.env))

module _ (unmarshal : Bytes → Option CommandPayload) where
  replies :
      (e : CommandExecutor) (s : Server World) (req : ExecuteRequest) (call : ℕ)
      (world : Duration → World) (duration : Duration) (p : CommandPayload)
      → Map.get s.executors "command" ≡ some (as_executor unmarshal e)
      → at_capacity s.runner ≡ false
      → req.task_id ≢ ""
      → req.task_type ≡ "command"
      → unmarshal req.payload ≡ some p
      → (execute s req call world duration).1
        ≡ ok (
            response_of req
              (result_of
                (world (timeout_of req.timeout))
                (process_of (world (timeout_of req.timeout)) p))
              duration)
  unfolding execute task_of run Registry.execute as_executor Command.execute
  replies e s req call world duration p installed free named typed decoded =
      rw (named', typed, free, installed, decoded) refl
    where
      named' : str_eq req.task_id "" ≡ false
      named' = elim (Bool-cases (str_eq req.task_id "")) [
        | inl hit ↦ absurd (named ((eq_iff req.task_id "").0 hit))
        | inr miss ↦ miss
      ]

  outcome-Reported :
      (t : Task) (node : NodeInfo) (resp : ExecuteResponse) (now : Time) (p : Process)
      → Reported p resp.status
      → (p.error ≡ no_error) × (outcome (Dispatcher.result_of t node resp now) ≡ completed)
        ⊎ (p.error ≢ no_error) × (outcome (Dispatcher.result_of t node resp now) ≡ failed)
  unfolding outcome Dispatcher.result_of is_success result_status
  outcome-Reported t node resp now p (inl (clean, good)) = inl (clean, rw good refl)
  outcome-Reported t node resp now p (inr (error, bad)) = inr (error, rw bad refl)

  -- A worker below its limit, on which a command executor is registered (with whatever limits),
  -- gets the dispatcher's request for a task of type "command" whose payload decodes. Then it
  -- starts the process of the payload and replies, and the result that the master makes of the
  -- reply has the output of the process, and gives the job the status COMPLETED if the process
  -- ended without an error, FAILED otherwise.
  pub command_lem :
      (e : CommandExecutor) (s : Server World) (t : Task) (call : ℕ) (world : Duration → World)
      (duration : Duration) (p : CommandPayload) (node : NodeInfo) (now : Time)
      → Map.get s.executors "command" ≡ some (as_executor unmarshal e)
      → at_capacity s.runner ≡ false
      → t.id ≢ ""
      → t.task_type ≡ "command"
      → unmarshal t.payload ≡ some p
      → (resp : ExecuteResponse) × ((execute s (request t) call world duration).1 ≡ ok resp)
        × (resp.task_id ≡ t.id)
        × ((Dispatcher.result_of t node resp now).output ≡ (process_of (world t.timeout) p).stdout)
        × (((process_of (world t.timeout) p).error ≡ no_error)
              × (outcome (Dispatcher.result_of t node resp now) ≡ completed)
            ⊎ ((process_of (world t.timeout) p).error ≢ no_error)
              × (outcome (Dispatcher.result_of t node resp now) ≡ failed))
  unfolding request response_of Dispatcher.result_of result_of
  command_lem e s t call world duration p node now installed free named typed decoded =
      let w = world t.timeout in
      let resp = response_of (request t) (result_of w (process_of w p)) duration in
      (
        resp,
        replies e s (request t) call world duration p installed free named typed decoded,
        refl,
        refl,
        outcome-Reported t node resp now (process_of w p) (status_of-result_of w (process_of w p)),
      )
