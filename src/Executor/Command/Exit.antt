-- ===== src/Executor/Command/Exit.antt =====
-- What becomes of the end of a process: Execute of pkg/executor/command.go, the status of the
-- worker's reply (internal/worker/server.go), and the job in the master's store.
use Prim.Native.String.{◌++◌ as append}
use text.Mathlib.TextLemmas.{append-eq-nil_iff}
use dist_command_exec.Prelude.{
  ◌≡◌, ◌≢◌, ◌⊎◌, inl, inr, refl, String, str_eq, eq_iff, false, Bool-cases, arith,
}
use dist_command_exec.Prelude.Int.{ℤ}
use dist_command_exec.Types.{Bytes}
use dist_command_exec.Executor.Command.{
  World, Process, RunError, no_error, exit_error, other_error, result_of, decimal,
}
use dist_command_exec.Master.Dispatcher.{ExecutionStatus}
use dist_command_exec.Worker.Server.{status_of}

no_literal : (s : String) → str_eq s "" ≡ false → s ≢ ""
no_literal s h e = absurd (ground (arith, h, (eq_iff s "").1 e))

exit_text : (code : ℤ) → str_eq (append "command exited with code " (decimal code)) "" ≡ false
exit_text code = elim (Bool-cases (str_eq (append "command exited with code " (decimal code)) "")) [
  | inl hit ↦
      absurd
        (no_literal "command exited with code " refl (append-eq-nil_iff.0 ((eq_iff _ "").0 hit)).0)
  | inr miss ↦ miss
]

status_by_end :
    (w : World) (out : Bytes) (err : String) (e : RunError)
    → (e ≡ no_error)
        × (status_of (result_of w (record { stdout = out; stderr = err; error = e }))
            ≡ ExecutionStatus.success)
      ⊎ (e ≢ no_error)
        × (status_of (result_of w (record { stdout = out; stderr = err; error = e }))
            ≡ ExecutionStatus.failure)
unfolding status_of result_of
status_by_end w out err no_error = inl (refl, refl)
status_by_end w out err (exit_error code) = inr (λ h. ground (arith, h), rw (exit_text code) refl)
status_by_end w out err (other_error message) = inr (λ h. ground (arith, h), ground arith)

-- Whether the process ended without an error decides the status of the reply.
abbrev pub Reported : Process → ExecutionStatus → Type 0
Reported p s =
    (p.error ≡ no_error) × (s ≡ ExecutionStatus.success)
    ⊎ (p.error ≢ no_error) × (s ≡ ExecutionStatus.failure)

pub status_of-result_of : (w : World) (p : Process) → Reported p (status_of (result_of w p))
status_of-result_of w p = status_by_end w p.stdout p.stderr p.error
