-- ===== src/V1/Specs.antt =====
-- The spec of api/v1/distributedjob_types.go, as internal/operator/controller.go reads it.
use dist_command_exec.Prelude.{
  ◌≡◌, ◌*◌, ◌⊎◌, sym, refl, ap, String, str_eq, eq_iff, Bool-cases, inl, inr, Option, none, some,
  List, [], ◌∷◌, map, arith, if◌then◌else◌,
}
use dist_command_exec.Prelude.Int.{ℤ, pos, InInt32, int32_in_range}
use dist_command_exec.Types.{Bytes, Duration, second}
use dist_command_exec.Executor.Command.{CommandPayload}
use dist_command_exec.Master.Balancer.{is_zero}
use dist_command_exec.Client.{MasterClient}
use dist_command_exec.Operator.{
  Item, reconcile, start_jobs, to_string_slice, text_of, parallelism_of, run_timeout, by_phase,
  with_spec, wrote, parsed, texts_of,
}
use dist_command_exec.V1.{
  JobPhase, Job, spec_of, encoded, items_or_null, integer_or_null, text_or_null,
}

texts_of-map : (ss : List String) → texts_of (map Item.text ss) ≡ ss
unfolding texts_of
texts_of-map [] = refl
texts_of-map (s ∷ ss) = ap (λ rest. s ∷ rest) (texts_of-map ss)

args_lem : (ss : List String) → to_string_slice (items_or_null ss) ≡ ss
unfolding to_string_slice items_or_null
args_lem [] = refl
args_lem (s ∷ ss) = texts_of-map (s ∷ ss)

-- The parallelism of a spec, 1 where it gives none.
abbrev pub tasks_of : ℤ → ℤ
tasks_of n = if is_zero n then pos 1 else n

parallelism_lem : (n : ℤ) → InInt32 n → parallelism_of (integer_or_null n) ≡ tasks_of n
unfolding parallelism_of integer_or_null
parallelism_lem n small = ground (arith, int32_in_range n small)

text_lem : (s : String) → text_of (text_or_null s) ≡ s
unfolding text_or_null
text_lem s = elim (Bool-cases (str_eq s "")) [
  | inl hit ↦ rw hit (sym ((eq_iff s "").0 hit))
  | inr miss ↦ rw miss refl
]

-- The timeout of a spec: 30 seconds where it gives none, or none that can be read.
abbrev pub read : Option Duration → Duration
read none = pos (30 * second)
read (some d) = d

abbrev pub timeout_given : (String → Option Duration) → String → Duration
timeout_given parse_duration s = read (parse_duration (if str_eq s "" then "30s" else s))

module _ {M : Type 0} (c : MasterClient M) (marshal : CommandPayload → Option Bytes) where
  parsed-read : (o : Option Duration) → parsed c marshal o ≡ read o
  unfolding parsed
  parsed-read none = refl
  parsed-read (some d) = refl

  timeout_lem :
      (parse_duration : String → Option Duration) (s : String)
      → run_timeout c marshal parse_duration (text_or_null s) ≡ timeout_given parse_duration s
  unfolding run_timeout
  timeout_lem parse_duration s =
      rw (text_lem s) (parsed-read (parse_duration (if str_eq s "" then "30s" else s)))

  -- A resource that is encoded from the types of api/v1, with no phase or Pending, and a
  -- parallelism that is an int32: reconcile starts jobs with the command and the arguments of the
  -- typed spec, with its parallelism, or 1 where it is 0, and with its timeout, or 30s where it is
  -- empty or not a duration.
  pub reconcile-encoded :
      (parse_duration : String → Option Duration) (m : M) (job : Job) (met : String → M)
      → (job.status.phase ≡ none) ⊎ (job.status.phase ≡ some JobPhase.pending)
      → InInt32 job.spec.parallelism
      → let s = job.spec in
        let (m', w) =
          start_jobs c marshal m
            (encoded job)
            s.command
            s.args
            (tasks_of s.parallelism)
            (timeout_given parse_duration s.timeout) in
        reconcile c marshal parse_duration m (encoded job) met ≡ (m', some w)
  unfolding reconcile encoded by_phase with_spec wrote spec_of
  reconcile-encoded parse_duration m job met (inl empty) small =
      rw
        (
          empty,
          args_lem job.spec.args,
          parallelism_lem job.spec.parallelism small,
          timeout_lem parse_duration job.spec.timeout,
        )
        refl
  reconcile-encoded parse_duration m job met (inr waits) small =
      rw
        (
          waits,
          args_lem job.spec.args,
          parallelism_lem job.spec.parallelism small,
          timeout_lem parse_duration job.spec.timeout,
        )
        refl
