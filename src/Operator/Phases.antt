-- ===== src/Operator/Phases.antt =====
-- The phases of a DistributedJob (internal/operator/controller.go).
use dist_command_exec.Prelude.{
  ℕ, ◌+◌, ◌≤◌, ◌<◌, ◌≡◌, ◌≢◌, ◌⊎◌, inl, inr, refl, ap, sym, subst, ◌∙◌, String, str_eq, eq_iff,
  true, false, Bool-cases, ◌||◌, Option, none, some, List, [], ◌∷◌, arith, if◌then◌else◌, length,
}
use dist_command_exec.Prelude.Int.{pos, ltb_ℤ, leb_ℤ, half32, int32_in_range}
use dist_command_exec.Executor.Command.{CommandPayload}
use dist_command_exec.Types.{Duration, Bytes}
use dist_command_exec.Client.{MasterClient, command_payload}
use dist_command_exec.Operator.{
  checked, DistributedJob, Tally, Update, tally, verdict, replies_to, check_job_status, reconcile,
  start_jobs, Spec, parallelism_of, text_of, to_string_slice, by_phase, with_spec, wrote,
  run_timeout,
}
use dist_command_exec.Operator.Counts.{
  all_completed, all_failed, counts_le, int32_add, tallied, tally_all,
}
use dist_command_exec.Operator.Launching.{Launch, started-Launch}

-- What the counts say of the resource: all tasks are completed; all are completed or failed, some
-- failed; or some are neither.
abbrev pub IsVerdict : ℕ → ℕ → ℕ → Update → Type 0
IsVerdict n a b w =
    ((a ≡ n) × (w.phase ≡ "Succeeded")
      ⊎ ((a + b ≡ n) × (0 < b) × (w.phase ≡ "Failed") ⊎ (a + b < n) × (w.phase ≡ "Running")))
    × (w.completions ≡ pos a)
    × (w.failed ≡ pos b)

verdict-IsVerdict :
    (ids : List String) (a b : ℕ)
    → a + b ≤ length ids
    → length ids < half32
    → IsVerdict (length ids) a b (verdict ids (tallied a b))
unfolding verdict
verdict-IsVerdict ids a b few small =
    rw (int32_add a b (omega arith), int32_in_range (pos (length ids)) (omega arith, omega arith))
      (elim (Bool-cases (leb_ℤ (pos (length ids)) (pos (a + b)))) [
        | inr more ↦ rw more (inr (inr (ground (arith, more), refl)), refl, refl)
        | inl all ↦ elim (Bool-cases (ltb_ℤ (pos 0) (pos b))) [
          | inl bad ↦
              rw (all, bad) (inr (inl (ground (arith, all), ground (arith, bad), refl)), refl, refl)
          | inr good ↦ rw (all, good) (inl (ground (arith, all, good), refl), refl, refl)
        ]
      ])

verdict-task_ids : (ids : List String) (t : Tally) → (verdict ids t).task_ids ≡ some ids
unfolding verdict
verdict-task_ids ids t = ground arith

module _ {M : Type 0} (c : MasterClient M) where
  length-replies_to :
      (ids : List String) (met : String → M) → length (replies_to c ids met) ≡ length ids
  length-replies_to [] met = refl
  length-replies_to (id ∷ ids) met = omega (arith, length-replies_to ids met)

  checked_lem :
      (ids : List String) (met : String → M)
      → ids ≢ []
      → length ids < half32
      → let rs = replies_to c ids met in
        (w : Update) × (checked c ids met ≡ some w)
        × (w.task_ids ≡ some ids)
        × IsVerdict (length ids) (all_completed rs) (all_failed rs) w
  unfolding checked
  checked_lem [] met some_task small = absurd (some_task refl)
  checked_lem (id ∷ ids) met some_task small =
      let rs = replies_to c (id ∷ ids) met in
      let same = length-replies_to (id ∷ ids) met in
      let counts = tally_all rs (omega (arith, same, small)) in
      (
        verdict (id ∷ ids) (tally rs (tallied 0 0)),
        refl,
        verdict-task_ids (id ∷ ids) (tally rs (tallied 0 0)),
        subst
            (λ t.
              IsVerdict (length (id ∷ ids)) (all_completed rs) (all_failed rs)
                (verdict (id ∷ ids) t))
            (sym counts)
            (verdict-IsVerdict (id ∷ ids) (all_completed rs) (all_failed rs)
              (omega (arith, counts_le rs, same)) small),
      )

  -- For a resource with task IDs, fewer than 2^31, a check writes the phase Succeeded exactly if
  -- the master reports every task as completed, Failed exactly if it reports every task as
  -- completed or failed, and some as failed, and Running in all other cases, also if a call fails
  -- or a task is cancelled or timed out; with the numbers of the completed and failed tasks, and
  -- the same task IDs.
  pub check_job_status_lem :
      (u : DistributedJob) (met : String → M)
      → u.task_ids ≢ []
      → length u.task_ids < half32
      → let rs = replies_to c u.task_ids met in
        (w : Update) × (check_job_status c u met ≡ some w)
        × (w.task_ids ≡ some u.task_ids)
        × IsVerdict (length u.task_ids) (all_completed rs) (all_failed rs) w
  unfolding check_job_status
  check_job_status_lem u met some_task small = checked_lem u.task_ids met some_task small

module _ {M : Type 0} (c : MasterClient M) (marshal : CommandPayload → Option Bytes) where
  -- What reconcile may write: a resource that waits is launched, a running one is judged.
  abbrev pub Turns : DistributedJob → Spec → (String → M) → Update → Type 0
  Turns u spec met w =
      ((u.phase ≡ "") ⊎ (u.phase ≡ "Pending")) × Launch (parallelism_of spec.parallelism) w
      ⊎ (u.phase ≡ "Running")
        × IsVerdict (length u.task_ids) (all_completed (replies_to c u.task_ids met))
            (all_failed (replies_to c u.task_ids met)) w

  checked-some :
      (ids : List String) (met : String → M) (w : Update) → checked c ids met ≡ some w → ids ≢ []
  unfolding checked
  checked-some [] met w h e = absurd (ground (arith, h))
  checked-some (id ∷ ids) met w h e = absurd (ground (arith, e))

  judged :
      (u : DistributedJob) (met : String → M) (w : Update)
      → length u.task_ids < half32
      → check_job_status c u met ≡ some w
      → IsVerdict
          (length u.task_ids)
          (all_completed (replies_to c u.task_ids met))
          (all_failed (replies_to c u.task_ids met))
          w
  unfolding check_job_status
  judged u met w small h =
      let (w', e, same, v) = check_job_status_lem c u met (checked-some u.task_ids met w h) small in
      subst
        (IsVerdict (length u.task_ids) (all_completed (replies_to c u.task_ids met))
          (all_failed (replies_to c u.task_ids met)))
        {x = w'} {y = w} (ground (arith, e, h)) v

  open-by_phase :
      (parse_duration : String → Option Duration) (m : M) (u : DistributedJob) (met : String → M)
      (spec : Spec)
      → u.spec ≡ some spec
      → (str_eq u.phase "Succeeded" || str_eq u.phase "Failed") ≡ false
      → reconcile c marshal parse_duration m u met ≡ by_phase c marshal parse_duration m u met spec
  unfolding reconcile
  open-by_phase parse_duration m u met spec known open_ =
      let with_it : reconcile c marshal parse_duration m u met
          ≡ with_spec c marshal parse_duration m u met u.spec =
        ap (λ b. if b then (m, none) else with_spec c marshal parse_duration m u met u.spec)
          open_ in
      with_it ∙ ap (with_spec c marshal parse_duration m u met) known

  waiting :
      (u : DistributedJob)
      → (str_eq u.phase "" || str_eq u.phase "Pending") ≡ true
      → (u.phase ≡ "") ⊎ (u.phase ≡ "Pending")
  waiting u h = elim (Bool-cases (str_eq u.phase "")) [
    | inl empty ↦ inl ((eq_iff u.phase "").0 empty)
    | inr named ↦ inr ((eq_iff u.phase "Pending").0 (ground (arith, h, named)))
  ]

  launched_by :
      (parse_duration : String → Option Duration) (m : M) (u : DistributedJob) (spec : Spec)
      (w : Update)
      → (start_jobs c marshal m u
          (text_of spec.command)
          (to_string_slice spec.args)
          (parallelism_of spec.parallelism)
          (run_timeout c marshal parse_duration spec.timeout)).1
        ≡ w
      → Launch (parallelism_of spec.parallelism) w
  unfolding start_jobs
  launched_by parse_duration m u spec w h = subst (Launch (parallelism_of spec.parallelism)) h (
      started-Launch c marshal u (run_timeout c marshal parse_duration spec.timeout)
        (parallelism_of spec.parallelism) m
        (marshal (command_payload (text_of spec.command) (to_string_slice spec.args))))

  -- reconcile writes to a resource with a spec, and fewer than 2^31 task IDs, only if its phase is
  -- empty, Pending or Running. In the first two cases the new phase is Running, with at least one
  -- and at most as many task IDs as the spec's parallelism, or Failed without task IDs; in the
  -- third it is what the master's replies for its tasks say.
  pub reconcile_lem :
      (parse_duration : String → Option Duration) (m : M) (u : DistributedJob) (met : String → M)
      (spec : Spec) (w : Update)
      → u.spec ≡ some spec
      → length u.task_ids < half32
      → (reconcile c marshal parse_duration m u met).1 ≡ some w
      → Turns u spec met w
  unfolding reconcile by_phase wrote start_jobs
  reconcile_lem parse_duration m u met spec w known small h =
      elim (Bool-cases (str_eq u.phase "Succeeded" || str_eq u.phase "Failed")) [
        | inl over ↦ absurd (ground (arith, h, over))
        | inr open_ ↦
            let h' : (by_phase c marshal parse_duration m u met spec).1 ≡ some w =
              ap (λ r. r.1) (sym (open-by_phase parse_duration m u met spec known open_)) ∙ h in
            elim (Bool-cases (str_eq u.phase "" || str_eq u.phase "Pending")) [
              | inl waits ↦ inl (
                waiting u waits,
                launched_by parse_duration m u spec w (ground (arith, h', waits)),
              )
              | inr not_waits ↦ elim (Bool-cases (str_eq u.phase "Running")) [
                | inl runs ↦ inr (
                  (eq_iff u.phase "Running").0 runs,
                  judged u met w small ground (arith, h', not_waits, runs),
                )
                | inr idle ↦ absurd (ground (arith, h', not_waits, idle))
              ]
            ]
      ]
