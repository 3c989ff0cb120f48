-- ===== src/Distctl/Submitting.antt =====
-- `distctl run` (cmd/distctl/main.go) against pkg/client/client.go, and against the master.
use Prim.Native.String.{◌++◌ as append}
use dist_command_exec.Prelude.{
  ◌≡◌, ◌↔◌, refl, String, Bool, true, Option, none, some, List, [], ◌∷◌, arith, if◌then◌else◌,
}
use dist_command_exec.Types.{Bytes, Time}
use dist_command_exec.Executor.Command.{CommandPayload}
use dist_command_exec.Client.{run_command_with_timeout, command_payload, command_request}
use dist_command_exec.Distctl.{
  Stub, Settings, Shown, line, json, job_id, Ended, done, run_command, exit_code, submit_payload,
  submitted,
}

abbrev pub plain_lines : String → List Shown
plain_lines id =
    line (append "Job submitted: " id)
    ∷ line (append "Use 'distctl status " (append id "' to check status"))
    ∷ []

-- What `run` prints of a job ID.
abbrev pub run_lines : Settings → String → List Shown
run_lines g id = if g.output_json then json (job_id id) ∷ [] else plain_lines id

module _ {M : Type 0} (s : Stub M) (dials : String → Bool) (marshal : CommandPayload → Option Bytes)
    (rfc3339 : Time → String) (g : Settings) where
  -- How a command ends that has submitted, against the ID that the client library returns.
  abbrev Agrees : M × Option String → M × Ended → Type 0
  Agrees (m', reply) (m'', ended) =
      (m'' ≡ m')
      × ((exit_code ended ≡ 0)
          ↔ ((id : String) × (reply ≡ some id) × (ended ≡ done (run_lines g id))))

  submitted-Agrees : (r : M × Option String) → Agrees r (submitted s dials marshal rfc3339 g r)
  unfolding submitted exit_code
  submitted-Agrees (m, none) =
      (refl, (λ e. absurd (ground (arith, e)), λ (id, e, p). absurd (ground (arith, e))))
  submitted-Agrees (m, some id) = (refl, (λ e. (id, refl, refl), λ p. refl))

  submit_payload-Agrees :
      (command : String) (args : List String) (m : M) (o : Option Bytes)
      → marshal (command_payload command args) ≡ o
      → Agrees
          (run_command_with_timeout s.calls marshal m command g.timeout args)
          (submit_payload s dials marshal rfc3339 g m o)
  unfolding submit_payload run_command_with_timeout exit_code
  submit_payload-Agrees command args m none e =
      rw e (refl, (λ e. absurd (ground (arith, e)), λ (id, e, p). absurd (ground (arith, e))))
  submit_payload-Agrees command args m (some payload) e =
      rw e (submitted-Agrees (s.calls.submit m (command_request payload g.timeout)))

  -- Where grpc.NewClient takes the address, `distctl run` leaves the master as
  -- RunCommandWithTimeout of the client library does with the same command, arguments and timeout,
  -- and it ends with exit code 0 exactly if that returns a job ID; then it prints this ID, as JSON
  -- or in its two lines.
  pub run_command-run_command_with_timeout :
      (command : String) (args : List String) (m : M)
      → dials g.master_addr ≡ true
      → let (m', reply) = run_command_with_timeout s.calls marshal m command g.timeout args in
        let (m'', ended) = run_command s dials marshal rfc3339 g command args m in
        (m'' ≡ m')
        × ((exit_code ended ≡ 0)
            ↔ ((id : String) × (reply ≡ some id) × (ended ≡ done (run_lines g id))))
  unfolding run_command
  run_command-run_command_with_timeout command args m up =
      rw up (submit_payload-Agrees command args m (marshal (command_payload command args)) refl)
