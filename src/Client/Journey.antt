-- ===== src/Client/Journey.antt =====
-- A command from the client (pkg/client/client.go) through the master (internal/master/server.go,
-- dispatcher.go) to a worker's process and into the job's final status.
use dist_command_exec.Prelude.{
  ℕ, ◌≡◌, ◌≢◌, ◌⊎◌, inl, inr, refl, ap, subst, sym, ◌∙◌, String, true, false, Option, Option-cases,
  none, some, List, [], ◌∷◌, arith, ◌==◌, Bool-cases, ltb, length,
}
use dist_command_exec.Prelude.Map
use dist_command_exec.Types.{Bytes, Time, Duration, Task, new_task, pending, completed, failed}
use dist_command_exec.Executor.Command.{
  CommandPayload, CommandExecutor, World, Process, Cmd, cmd_of, as_executor, no_error,
}
use dist_command_exec.Master.State.{Master}
use dist_command_exec.Master.Store.{outcome}
use dist_command_exec.Master.Registry.{NodeInfo}
use dist_command_exec.Master.Scheduler.{Scheduler, enqueue, write}
use dist_command_exec.Master.Scheduler.Queue.{enqueue-new, enqueue-known}
use dist_command_exec.Master.Server.{submit, accept, ok, SubmitRequest, task_of}
use dist_command_exec.Master.Dispatcher.{request, ExecuteResponse}
use dist_command_exec.Master.Dispatcher as Dispatcher
use dist_command_exec.Client.{run_command_with_timeout, command_request, command_payload}
use dist_command_exec.Client.Hosted.{Hosted, hosted}
use dist_command_exec.Worker.Runner.{at_capacity}
use dist_command_exec.Worker.Server.{Server, execute}
use dist_command_exec.Worker.Commands.{process_of, command_lem}

-- What a command becomes in the heap.
pub record IsCommand (t : Task) (id : String) (payload : Bytes) (timeout : Duration) : Type 0 where
  pub named : t.id ≡ id
  pub typed : t.task_type ≡ "command"
  pub carries : t.payload ≡ payload
  pub limited : t.timeout ≡ timeout

self : (p : ℕ) → (p == p) ≡ true
self p = ground arith

enqueue-IsCommand :
    (s : Scheduler) (p : ℕ) (id : String) (payload : Bytes) (timeout : Duration)
    → IsCommand (s.heap p) id payload timeout
    → IsCommand ((enqueue s p).0.heap p) id payload timeout
enqueue-IsCommand s p id payload timeout c = elim (Option-cases (Map.get s.tasks (s.heap p).id)) [
  | inr (q, known) ↦ rw (enqueue-known s p q known) c
  | inl new ↦ rw (enqueue-new s p new) (elim (Bool-cases (ltb (length s.queue) s.capacity)) [
    | inl room ↦ rw (room, self p) kept
    | inr full ↦ rw (full, self p) kept
  ])
]
  where
    kept : IsCommand (record (s.heap p) { status = pending }) id payload timeout
    kept = record { named = c.named; typed = c.typed; carries = c.carries; limited = c.limited }

scheduler-accept :
    (m : Master) (req : SubmitRequest) (id : String) (p : ℕ) (now : Time)
    → (accept m req id p now).0.scheduler ≡ (enqueue (write m.scheduler p (task_of req id now)) p).0
unfolding accept
scheduler-accept m req id p now = ground arith

-- An accepted command stands in the heap with its payload and timeout.
accept-IsCommand :
    (m : Master) (payload : Bytes) (timeout : Duration) (id : String) (p : ℕ) (now : Time)
    → IsCommand
        ((accept m (command_request payload timeout) id p now).0.scheduler.heap p)
        id
        payload
        timeout
unfolding task_of new_task
accept-IsCommand m payload timeout id p now =
    rw (scheduler-accept m (command_request payload timeout) id p now) (
      enqueue-IsCommand (write m.scheduler p (task_of (command_request payload timeout) id now)) p
        id payload timeout
        (rw (self p) (record { named = refl; typed = refl; carries = refl; limited = refl })))

pub accept-job :
    (m : Master) (req : SubmitRequest) (id job : String) (p : ℕ) (now : Time)
    → (accept m req id p now).1 ≡ ok job
    → id ≡ job
unfolding accept
accept-job m req id job p now h = ground (arith, h)

submit-IsCommand :
    (m : Master) (payload : Bytes) (timeout : Duration) (id : String) (p : ℕ) (now : Time)
    (job : String)
    → (submit m (command_request payload timeout) id p now).1 ≡ ok job
    → IsCommand
        ((submit m (command_request payload timeout) id p now).0.scheduler.heap p)
        job
        payload
        timeout
unfolding submit
submit-IsCommand m [] timeout id p now job h = absurd (ground (arith, h))
submit-IsCommand m (x ∷ payload) timeout id p now job h =
    subst
      (λ j.
        IsCommand ((accept m (command_request (x ∷ payload) timeout) id p now).0.scheduler.heap p) j
          (x ∷ payload) timeout)
      (accept-job m (command_request (x ∷ payload) timeout) id job p now h)
      (accept-IsCommand m (x ∷ payload) timeout id p now)

module _ (marshal : CommandPayload → Option Bytes) (unmarshal : Bytes → Option CommandPayload) where
  -- json.Unmarshal reads back what json.Marshal wrote.
  abbrev pub IsJson : Type 0
  IsJson = (p : CommandPayload) (b : Bytes) → marshal p ≡ some b → unmarshal b ≡ some p

  submitted-IsCommand :
      (h : Hosted) (command job : String) (timeout : Duration) (args : List String)
      → (run_command_with_timeout hosted marshal h command timeout args).1 ≡ some job
      → (b : Bytes) × (marshal (command_payload command args) ≡ some b)
        × IsCommand
            ((run_command_with_timeout hosted marshal h command timeout
                args).0.master.scheduler.heap
              h.fresh)
            job
            b
            timeout
  unfolding run_command_with_timeout submit
  submitted-IsCommand h command job timeout args e =
      elim (Option-cases (marshal (command_payload command args))) [
        | inl failed_ ↦ absurd (ground (arith, e, failed_))
        | inr (b, written) ↦ (
          b,
          written,
          rw written (
              submit-IsCommand h.master b timeout (h.ids h.fresh) h.fresh h.now job
                (ground (arith, e, written))),
        )
      ]

  -- The process of a command with its arguments, in the worker's own directory and environment.
  abbrev pub plain : String → List String → Cmd
  plain command args = record { path = command; args = args; dir = none; env = none; stdin = none }

  -- The result that the master makes of a reply tells of the process.
  abbrev pub Tells : Task → NodeInfo → ExecuteResponse → Time → Process → Type 0
  Tells t node resp now process =
      ((Dispatcher.result_of t node resp now).output ≡ process.stdout)
      × ((process.error ≡ no_error) × (outcome (Dispatcher.result_of t node resp now) ≡ completed)
          ⊎ (process.error ≢ no_error) × (outcome (Dispatcher.result_of t node resp now) ≡ failed))

  plain_lem :
      (w : World) (command : String) (args : List String)
      → w.range_env Map.empty ≡ []
      → process_of w (command_payload command args) ≡ w.run (plain command args)
  unfolding cmd_of
  plain_lem w command args ranged = rw (process_of, ranged) refl

  -- The client submits a command, the master accepts it as a job, and a worker below its limit with
  -- a command executor, whatever the executor's limits, gets the dispatcher's request for the job's
  -- task: the worker runs exactly the command with its arguments, in its own directory and
  -- environment and in a context with the client's timeout, and the result that the master makes of
  -- the reply has the output of that process and settles the job as COMPLETED if the process ended
  -- without an error, and as FAILED otherwise. json.Unmarshal reads back what json.Marshal wrote, a
  -- range over an empty map yields nothing, and the job ID is not empty.
  pub run_command_lem :
      (h : Hosted) (command job : String) (timeout : Duration) (args : List String)
      (e : CommandExecutor) (s : Server World) (call : ℕ) (world : Duration → World)
      (duration : Duration) (node : NodeInfo) (now : Time)
      → IsJson
      → (world timeout).range_env Map.empty ≡ []
      → (run_command_with_timeout hosted marshal h command timeout args).1 ≡ some job
      → job ≢ ""
      → Map.get s.executors "command" ≡ some (as_executor unmarshal e)
      → at_capacity s.runner ≡ false
      → let t =
          (run_command_with_timeout hosted marshal h command timeout args).0.master.scheduler.heap
            h.fresh in
        (resp : ExecuteResponse) × ((execute s (request t) call world duration).1 ≡ ok resp)
        × (resp.task_id ≡ job)
        × Tells t node resp now ((world timeout).run (plain command args))
  run_command_lem h command job timeout args e s call world duration node now json ranged accepted
        named installed free =
      let (b, written, c) = submitted-IsCommand h command job timeout args accepted in
      let t =
        (run_command_with_timeout hosted marshal h command timeout args).0.master.scheduler.heap
          h.fresh in
      let (resp, replied, same, output, ends) =
        command_lem unmarshal e s t call world duration (command_payload command args) node now
          installed free (λ empty. named (sym c.named ∙ empty)) c.typed
          (ap unmarshal c.carries ∙ json (command_payload command args) b written) in
      let process : Duration → Process = λ d. process_of (world d) (command_payload command args) in
      (
        resp,
        replied,
        same ∙ c.named,
        subst (Tells t node resp now)
            (ap process c.limited ∙ plain_lem (world timeout) command args ranged) (output, ends),
      )
