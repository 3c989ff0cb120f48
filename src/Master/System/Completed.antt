-- ===== src/Master/System/Completed.antt =====
-- Jobs that GetStatus of internal/master/server.go reports as completed.
use dist_command_exec.Prelude.{
  ℕ, ◌<◌, ◌≡◌, refl, ap, sym, ◌∙◌, subst, ◌⊎◌, inl, inr, String, str_eq, Bool, true, false,
  Bool-cases, Option, none, some, arith,
}
use dist_command_exec.Prelude.Map.{get-empty}
use dist_command_exec.Types.{Task, TaskStatus, pending, failed, cancelled, Result, is_success}
use dist_command_exec.Master.Store.{Job, get_job, outcome, new_store}
use dist_command_exec.Master.Server.{
  MasterConfig, get_status, to_proto_job_status, JobStatus, new_server,
}
use dist_command_exec.Master.System.Life.{
  Life, absent, open_, settled, Next, arrives, lets, stops, withdraws, repeats, withdrawn, fails,
  settles, Follows, stays, goes, life_of, life, seen, shown,
}
use dist_command_exec.Master.System.{System, Reach, here}
use dist_command_exec.Master.System.Invariant.{initial}
use dist_command_exec.Master.System.Final.{life_lem, job_kept, result_status}
use dist_command_exec.Master.System.Future.{asked}

-- The statuses of a job without a result.
abbrev IsPossible : Life → Type 0
IsPossible absent = Unit
IsPossible (open_ s) = (s ≡ pending) ⊎ (s ≡ cancelled) ⊎ (s ≡ failed)
IsPossible (settled r) = Unit
IsPossible (withdrawn r) = Unit

Next-IsPossible : {l m : Life × ℕ} → Next l m → IsPossible l.0 → IsPossible m.0
Next-IsPossible arrives p = inl refl
Next-IsPossible fails p = inr (inr refl)
Next-IsPossible (settles r) p = tt
Next-IsPossible (lets can) p = p
Next-IsPossible stops p = inr (inl refl)
Next-IsPossible withdraws p = tt
Next-IsPossible repeats p = tt

Follows-IsPossible : {l m : Life × ℕ} → Follows l m → IsPossible l.0 → IsPossible m.0
Follows-IsPossible stays p = p
Follows-IsPossible (goes f n) p = Next-IsPossible n (Follows-IsPossible f p)

-- Only a result that is a success shows as completed.
shown_completed :
    (l : Life)
    → IsPossible l
    → shown l ≡ some JobStatus.completed
    → (r : Result) × (l ≡ settled r) × (is_success r ≡ true)
unfolding to_proto_job_status outcome
shown_completed absent p h = absurd (ground (arith, h))
shown_completed (open_ s) p h = absurd (ground (arith, h, p))
shown_completed (settled r) p h = elim (Bool-cases (is_success r)) [
  | inl good ↦ (r, refl, good)
  | inr bad ↦ absurd (ground (arith, h, bad))
]
shown_completed (withdrawn r) p h = absurd (ground (arith, h))

abbrev result_in : Life → Option Result
result_in (settled r) = some r
result_in (withdrawn r) = some r
result_in _ = none

result_in-life_of : (s : TaskStatus) (o : Option Result) → result_in (life_of s o) ≡ o
result_in-life_of s none = refl
result_in-life_of s (some r) = ground arith

-- A settled life is that of a job with the result.
settled_job :
    (o : Option Job) (r : Result)
    → life o ≡ settled r
    → (job : Job) × (o ≡ some job) × (job.result ≡ some r)
settled_job none r h = let e : none ≡ some r = ap result_in h in absurd (ground (arith, e))
settled_job (some job) r h =
    (job, refl, sym (result_in-life_of job.status job.result) ∙ ap result_in h)

settled_status :
    (job : Job) (r : Result)
    → life (some job) ≡ settled r
    → job.result ≡ some r
    → (job.status ≡ outcome r) ⊎ (job.status ≡ cancelled)
    → job.status ≡ outcome r
unfolding outcome
settled_status job r h e (inl same) = same
settled_status job r h e (inr over) =
    let e' : withdrawn r ≡ life (some job) = rw (over, e) refl in absurd (ground (arith, e' ∙ h))

shown_cancelled :
    (o : Option Job) (job : Job) (r : Result)
    → o ≡ some job
    → job.status ≡ cancelled
    → job.result ≡ some r
    → shown (life o) ≡ some JobStatus.cancelled
shown_cancelled o job r there over e = rw (there, over, e) refl

module _ (heap : ℕ → Task) (cfg : MasterConfig) (has_k8s : Bool) (y z : System)
    (before : Reach (initial heap cfg has_k8s) y) (after : Reach y z) (id : String)
    (named : str_eq id "" ≡ false) where
  started_absent : life (get_job (initial heap cfg has_k8s).master.store id) ≡ absent
  unfolding new_server new_store get_job
  started_absent = ap life (get-empty {V = Job} id)

  possible : IsPossible (life (get_job y.master.store id))
  possible =
      Follows-IsPossible
        (life_lem heap cfg has_k8s (initial heap cfg has_k8s) y here before id named).0
        (subst IsPossible (sym started_absent) tt)

  -- If GetStatus reports a job, under an ID that is not empty, as COMPLETED in a state that the
  -- master reaches from its start, then the job has a result that is a success, and keeps it. In
  -- every later state the store has the same job and GetStatus reports it as COMPLETED; or, if a
  -- Cancel of the ID was between its check and its write when COMPLETED was reported, only the
  -- status has become CANCELLED, and GetStatus reports that.
  pub completed_lem :
      seen (get_status y.master id) ≡ some JobStatus.completed
      → (job : Job) × (job' : Job) × (r : Result) × (get_job y.master.store id ≡ some job)
        × (job.result ≡ some r)
        × (is_success r ≡ true)
        × (get_job z.master.store id ≡ some job')
        × (job'.result ≡ some r)
        × (((job' ≡ job) × (seen (get_status z.master id) ≡ some JobStatus.completed))
            ⊎ ((0 < asked y id)
                × (job' ≡ record job { status = cancelled })
                × (seen (get_status z.master id) ≡ some JobStatus.cancelled)))
  completed_lem h =
      let shows = (life_lem heap cfg has_k8s (initial heap cfg has_k8s) y here before id named).1 in
      let (r, life_is, good) =
        shown_completed (life (get_job y.master.store id)) possible (sym shows ∙ h) in
      let (job, there, e) = settled_job (get_job y.master.store id) r life_is in
      let (job', there', same, kept, or_else) =
        job_kept heap cfg has_k8s y z before after id job there in
      let later_on = (life_lem heap cfg has_k8s y z before after id named).1 in
      let completed_still : job' ≡ job → seen (get_status z.master id) ≡ some JobStatus.completed =
        λ unchanged.
          later_on
          ∙ ap (λ o. shown (life o)) (there' ∙ ap some unchanged ∙ sym there)
          ∙ sym shows
          ∙ h in
      let was =
        settled_status job r (ap life (sym there) ∙ life_is) e
          (result_status heap cfg has_k8s y y before here id job r there e) in
      let is = result_status heap cfg has_k8s y z before after id job' r there' (kept r e) in
      let with_status : (s : TaskStatus) → job'.status ≡ s → job' ≡ record job { status = s } =
        λ s changed.
          same
          ∙ ap (λ t. record job { status = t; result = job'.result }) changed
          ∙ ap (λ o. record job { status = s; result = o }) (kept r e ∙ sym e) in
      (
        job,
        job',
        r,
        there,
        e,
        good,
        there',
        kept r e,
        elim or_else [
          | inl unchanged ↦ inl (unchanged, completed_still unchanged)
          | inr (inl none_yet) ↦ absurd (ground (arith, none_yet, e))
          | inr (inr racing) ↦ elim is [
            | inl as_result ↦
                let unchanged : job' ≡ job =
                  with_status (outcome r) as_result
                  ∙ ap (λ s. record job { status = s }) (sym was) in
                inl (unchanged, completed_still unchanged)
            | inr over ↦ inr (
              racing,
              with_status cancelled over,
              later_on ∙ shown_cancelled (get_job z.master.store id) job' r there' over (kept r e),
            )
          ]
        ],
      )
