-- ===== src/Master/System/Final.antt =====
-- Settled jobs and idle tasks in the later states of the master.
use dist_command_exec.Prelude.{
  ℕ, ◌+◌, ◌<◌, ◌≡◌, ◌⊎◌, arith, refl, ap, inl, inr, String, str_eq, Bool, Bool-cases, false, some,
  none, sym, subst, ◌∙◌, Option-cases, occurs,
}
use native.Mathlib.Decide.{dec_lt}
use dist_command_exec.Prelude.Map
use dist_command_exec.Types.{Task, TaskStatus, Result, cancelled}
use dist_command_exec.Master.Store.{Job, get_job, outcome, new_store}
use dist_command_exec.Master.State.{Master}
use dist_command_exec.Master.Server.{MasterConfig, get_status, to_proto_job_status, new_server}
use dist_command_exec.Prelude.Map.{get-empty}
use dist_command_exec.Master.System.Core.{Inv}
use dist_command_exec.Master.System.Life.{
  Follows, Follows-final, IsFinal, life, life_of, is_cancelled, seen, shown,
}
use dist_command_exec.Master.System.{System, Reach}
use dist_command_exec.Master.System.View.{core, pointers}
use dist_command_exec.Master.System.Invariant.{initial, initial-Inv}
use dist_command_exec.Master.System.History.{Moves}
use dist_command_exec.Master.System.Future.{Reach-Moves, Reach-Good, Good, asked}

get_status-named :
    (m : Master) (id : String)
    → ((job : Job) (r : Result)
        → get_job m.store id ≡ some job
        → job.result ≡ some r
        → (job.status ≡ outcome r) ⊎ (job.status ≡ cancelled))
    → str_eq id "" ≡ false
    → seen (get_status m id) ≡ shown (life (get_job m.store id))
unfolding get_status outcome to_proto_job_status
get_status-named m id settled_by named = elim (Option-cases (get_job m.store id)) [
  | inl none_there ↦ rw (named, none_there) refl
  | inr (job, there) ↦ elim (Option-cases job.result) [
    | inl open_job ↦ rw (named, there, open_job) refl
    | inr (r, e) ↦ elim (settled_by job r there e) [
      | inl same ↦ rw (named, there, e, same) (ground arith)
      | inr over ↦ rw (named, there, e, over) refl
    ]
  ]
]

-- A job with a result has the status that its life says.
status-life :
    (s s' : TaskStatus) (r : Result)
    → (s ≡ outcome r) ⊎ (s ≡ cancelled)
    → (s' ≡ outcome r) ⊎ (s' ≡ cancelled)
    → life_of s' (some r) ≡ life_of s (some r)
    → s' ≡ s
unfolding outcome
status-life s s' r h h' e = ground (arith, h, h', e)

life-IsFinal : (s : TaskStatus) (r : Result) → IsFinal (life_of s (some r), 0)
life-IsFinal s r = elim (Bool-cases (is_cancelled s)) [
  | inl over ↦ rw over refl
  | inr kept ↦ rw kept refl
]

initial-Good :
    (heap : ℕ → Task) (cfg : MasterConfig) (has_k8s : Bool) → Good (initial heap cfg has_k8s)
unfolding new_server new_store
initial-Good heap cfg has_k8s = record {
  core_Inv = initial-Inv heap cfg has_k8s;
  about = λ id. rw (get-empty {V = Job} id) refl;
}

module _ (heap : ℕ → Task) (cfg : MasterConfig) (has_k8s : Bool) (y z : System)
    (before : Reach (initial heap cfg has_k8s) y) (after : Reach y z) where
  good : Good y
  good = Reach-Good before (initial-Good heap cfg has_k8s)

  moves : Moves (asked y) (asked z) (core y) (core z)
  moves = Reach-Moves after good

  invariant : Inv (core z)
  invariant = (Reach-Good after good).core_Inv

  -- A job with a result.
  pub result_status :
      (id : String) (job : Job) (r : Result)
      → get_job z.master.store id ≡ some job
      → job.result ≡ some r
      → (job.status ≡ outcome r) ⊎ (job.status ≡ cancelled)
  unfolding get_job
  result_status id job r there e = (invariant.recorded id job there).settled r e

  -- Without a Cancel that may still write, a job with a result does not change.
  settled_kept :
      (id : String) (job job' : Job) (r : Result)
      → get_job y.master.store id ≡ some job
      → get_job z.master.store id ≡ some job'
      → job.result ≡ some r
      → asked y id ≡ 0
      → job'.result ≡ some r
      → job'.status ≡ job.status
  unfolding get_job
  settled_kept id job job' r there there' e quiet e' =
      let f : Follows (life_of job.status (some r), 0) (life_of job'.status (some r), asked z id) =
        subst (λ l. Follows l (life_of job'.status (some r), asked z id))
          (rw (there, quiet, e) refl)
          (subst (Follows (life (Map.get y.master.store.jobs id), asked y id))
            (rw (there', e') refl) (moves.lives id)) in
      let same = Follows-final f (life-IsFinal job.status r) in
      status-life job.status job'.status r ((good.core_Inv.recorded id job there).settled r e)
        ((invariant.recorded id job' there').settled r e') (ap (λ p. p.0) same)

  -- For a state that the master reaches from its start and any later one: a job of the first is in
  -- the second under its ID, with no field changed but status and result, and with its result if it
  -- has one. It is the same job, unless it has no result in the first state or a Cancel of its ID
  -- is then between its check and its write.
  pub job_kept :
      (id : String) (job : Job)
      → get_job y.master.store id ≡ some job
      → (job' : Job) × (get_job z.master.store id ≡ some job')
        × (job' ≡ record job { status = job'.status; result = job'.result })
        × ((r : Result) → job.result ≡ some r → job'.result ≡ some r)
        × ((job' ≡ job) ⊎ (job.result ≡ none) ⊎ (0 < asked y id))
  unfolding get_job
  job_kept id job known =
      let (job', there, grown) = moves.grows id job known in
      (
        job',
        there,
        grown.0,
        grown.1,
        elim (Option-cases job.result) [
          | inl none_yet ↦ inr (inl none_yet)
          | inr (r, e) ↦ elim (dec_lt 0 (asked y id)) [
            | yes racing ↦ inr (inr racing)
            | no quiet ↦
                let e' = grown.1 r e in
                let status = settled_kept id job job' r known there e (omega arith) e' in
                inl (
                  grown.0
                  ∙ ap (λ s. record job { status = s; result = job'.result }) status
                  ∙ ap (λ o. record job { result = o }) (e' ∙ sym e))
          ]
        ],
      )

  -- For a state that the master reaches from its start and any later one: a task, already
  -- allocated, that stands neither in the queue nor with a dispatcher in the first state stands in
  -- neither in the second, and is the same task, with the same status.
  pub idle_task_kept :
      (p : ℕ)
      → p < y.fresh
      → occurs p y.master.scheduler.queue + occurs p (pointers y.held) ≡ 0
      → (occurs p z.master.scheduler.queue + occurs p (pointers z.held) ≡ 0)
        × (z.master.scheduler.heap p ≡ y.master.scheduler.heap p)
  idle_task_kept p below free = moves.idle p below free

  -- For a state that the master reaches from its start, any later one and an ID that is not empty:
  -- from the first to the second the job under the ID, with the number of Cancels of it that have
  -- passed their check and not yet written, makes only moves of a specification without queue,
  -- dispatchers and workers. It arrives as pending; while it has no result it may fail, be settled
  -- by a result, or let a Cancel through, if its status is PENDING or RUNNING; a Cancel that was
  -- let through writes CANCELLED later, whatever the job is by then, and nothing else changes a job
  -- with a result. GetStatus shows the state of the specification: nothing, the status, the status
  -- that the result gives, or CANCELLED after such a write.
  pub life_lem :
      (id : String)
      → str_eq id "" ≡ false
      → Follows
          (life (get_job y.master.store id), asked y id)
          (life (get_job z.master.store id), asked z id)
        × (seen (get_status z.master id) ≡ shown (life (get_job z.master.store id)))
  unfolding get_job
  life_lem id named = (
    moves.lives id,
    get_status-named z.master id (λ job r there e. (invariant.recorded id job there).settled r e)
        named,
  )
