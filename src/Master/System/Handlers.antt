-- ===== src/Master/System/Handlers.antt =====
-- Submit and Cancel of internal/master/server.go, and the core invariant.
use dist_command_exec.Prelude.{
  ℕ, ◌+◌, ◌≤◌, ◌<◌, ◌≡◌, ◌≢◌, refl, String, true, false, none, some, List, [], ◌∷◌, ◌++◌, arith,
  str_eq, eq_refl, ltb, length, update, Option-cases, Bool-cases, inl, inr, ◌⊎◌,
}
use dist_command_exec.Prelude.Map
use dist_command_exec.Prelude.Map.{get-put, get-delete}
use dist_command_exec.Types.{Time, pending, new_task, cancelled, Result}
use dist_command_exec.Master.Store.{Job, save_job, get_job, outcome, update_job_status}
use dist_command_exec.Master.Store.Lookup.{get-update_job_status}
use dist_command_exec.Master.Scheduler.{write}
use dist_command_exec.Master.Scheduler.Queue.{enqueue-new}
use dist_command_exec.Master.State.{Master}
use dist_command_exec.Master.Server.{
  can_cancel, is_empty, job_of, task_of, accept, SubmitRequest, submit, cancel, cancel_write,
}
use dist_command_exec.Master.System.Core.{
  Core, live, Inv, write-Inv, push-Inv, job-Inv, allocate-Inv, enter-Inv, leave-Inv, fresh_free,
}
use dist_command_exec.Master.System.View.{core_of}

-- Cancel either changes nothing, or the status of a job that may be cancelled.
pub cancel-cases :
    (m : Master) (id : String)
    → ((cancel m id).0 ≡ m)
      ⊎ ((job : Job) × (Map.get m.store.jobs id ≡ some job)
          × (str_eq id "" ≡ false)
          × (can_cancel job.status ≡ true)
          × ((cancel m id).0 ≡ cancel_write m id))
unfolding cancel get_job
cancel-cases m id = elim (Bool-cases (str_eq id "")) [
  | inl blank ↦ inl (rw blank refl)
  | inr given ↦ elim (Option-cases (Map.get m.store.jobs id)) [
    | inl absent ↦ inl (rw (given, absent) refl)
    | inr (job, known) ↦ elim (Bool-cases (can_cancel job.status)) [
      | inl can ↦ inr (job, known, given, can, rw (given, known, can) refl)
      | inr cannot ↦ inl (rw (given, known, cannot) refl)
    ]
  ]
]

-- A job with a result may not.
pub uncancellable :
    (r : Result) (job : Job)
    → (job.status ≡ outcome r) ⊎ (job.status ≡ cancelled)
    → can_cancel job.status ≢ true
unfolding outcome
uncancellable r job e can = ground (arith, can, e)

pub cancel_write-Inv :
    (m : Master) (id : String) (held : List ℕ) (fresh : ℕ)
    → Inv (core_of m held fresh)
    → Inv (core_of (cancel_write m id) held fresh)
unfolding update_job_status
cancel_write-Inv m id held fresh v = elim (Option-cases (Map.get m.store.jobs id)) [
  | inl absent ↦ rw absent v
  | inr (job, known) ↦
      let old = v.recorded id job known in
      job-Inv (core_of m held fresh) (Map.get (update_job_status m.store id cancelled).jobs) id
        (record job { status = cancelled }) v
        (λ j. get-update_job_status m.store id j cancelled job known)
        (record {
          own_id = old.own_id;
          stored = ground arith;
          settled = λ r e. inr refl;
          retired = old.retired;
        })
]

-- A new job, and the reservation of its task in the table.
module _ (m : Master) (req : SubmitRequest) (id : String) (now : Time) (held : List ℕ)
    (fresh : ℕ) where
  abbrev offered : Core
  offered = core_of m held fresh

  abbrev reserved : Core
  reserved = record offered {
    heap =
        update (update m.scheduler.heap fresh (task_of req id now)) fresh
          (record (task_of req id now) { status = pending });
    tasks = Map.get (Map.put m.scheduler.tasks id fresh);
    jobs = Map.get (save_job m.store (job_of req id now)).jobs;
    fresh = fresh + 1;
  }

  reserved-Inv : Map.get m.store.jobs id ≡ none → Inv offered → Inv reserved
  unfolding save_job job_of task_of new_task
  reserved-Inv new v =
      let t = task_of req id now in
      let c1 = record offered { jobs = Map.get (save_job m.store (job_of req id now)).jobs } in
      let v1 : Inv c1 =
        job-Inv offered c1.jobs id (job_of req id now) v
          (λ j. get-put m.store.jobs id j (job_of req id now))
          (record {
            own_id = refl;
            stored = ground arith;
            settled = λ r e. ground arith;
            retired = λ r e. ground arith;
          }) in
      let v2 = allocate-Inv c1 t v1 in
      let c2 = record c1 { heap = update c1.heap fresh t; fresh = fresh + 1 } in
      let free : live c1 fresh ≡ 0 = fresh_free c1 v1 in
      let self : c2.heap fresh ≡ t = ground arith in
      let v3 =
        write-Inv c2 fresh (record t { status = pending }) v2 (omega (arith, free))
          (rw self refl) in
      let c3 = record c2 { heap = update c2.heap fresh (record t { status = pending }) } in
      let self' : c3.heap fresh ≡ record t { status = pending } = ground arith in
      enter-Inv c3 (Map.get (Map.put m.scheduler.tasks id fresh)) fresh v3
        (λ j. rw self' (get-put m.scheduler.tasks id j fresh)) (rw self' (v.known id new)) free
        (omega arith)
        (rw self'
          (λ e. ground (arith, get-put m.store.jobs id id (job_of req id now), eq_refl id, e)))

  -- Submit behind its checks, where the queue has room.
  pub accepted :
      Map.get m.scheduler.tasks id ≡ none
      → length m.scheduler.queue < m.scheduler.capacity
      → core_of (accept m req id fresh now).0 held (fresh + 1)
        ≡ record reserved { queue = m.scheduler.queue ++ fresh ∷ [] }
  unfolding accept task_of new_task
  accepted new room =
      let self : (write m.scheduler fresh (task_of req id now)).heap fresh ≡ task_of req id now =
        ground arith in
      let fits : ltb (length m.scheduler.queue) m.scheduler.capacity ≡ true = ground arith in
      rw
        (enqueue-new (write m.scheduler fresh (task_of req id now)) fresh (rw self new), self, fits)
        refl

  -- The same, where the queue is full.
  pub refused :
      Map.get m.scheduler.tasks id ≡ none
      → m.scheduler.capacity ≤ length m.scheduler.queue
      → core_of (accept m req id fresh now).0 held (fresh + 1)
        ≡ record reserved { tasks = Map.get (Map.delete (Map.put m.scheduler.tasks id fresh) id) }
  unfolding accept task_of new_task
  refused new full =
      let self : (write m.scheduler fresh (task_of req id now)).heap fresh ≡ task_of req id now =
        ground arith in
      let over : ltb (length m.scheduler.queue) m.scheduler.capacity ≡ false = ground arith in
      rw
        (enqueue-new (write m.scheduler fresh (task_of req id now)) fresh (rw self new), self, over)
        refl

  accept-Inv :
      Map.get m.store.jobs id ≡ none
      → Inv offered
      → Inv (core_of (accept m req id fresh now).0 held (fresh + 1))
  unfolding task_of new_task save_job job_of
  accept-Inv new v =
      let v' = reserved-Inv new v in
      let absent = v.known id new in
      let self : reserved.heap fresh ≡ record (task_of req id now) { status = pending } =
        ground arith in
      let free : live reserved fresh ≡ 0 = fresh_free offered v in
      let here : reserved.tasks id ≡ some fresh =
        ground (arith, get-put m.scheduler.tasks id id fresh, eq_refl id) in
      elim (Bool-cases (ltb (length m.scheduler.queue) m.scheduler.capacity)) [
        | inl fits ↦ rw (accepted absent (ground arith)) (
            push-Inv reserved fresh v' free (rw self here) (rw self refl)
              (λ job. rw self (λ e.
                ground (arith, get-put m.store.jobs id id (job_of req id now), eq_refl id, e)))
              (ground arith))
        | inr over ↦ rw (refused absent (ground arith)) (
            leave-Inv reserved (Map.get (Map.delete (Map.put m.scheduler.tasks id fresh) id)) fresh
              v' (λ j. rw self (get-delete (Map.put m.scheduler.tasks id fresh) id j))
              (rw self here) free)
      ]

pub submit-Inv :
    (m : Master) (req : SubmitRequest) (id : String) (now : Time) (held : List ℕ) (fresh : ℕ)
    → Map.get m.store.jobs id ≡ none
    → Inv (core_of m held fresh)
    → Inv (core_of (submit m req id fresh now).0 held (fresh + 1))
unfolding submit
submit-Inv m req id now held fresh new v =
    let skip : Inv (core_of m held (fresh + 1)) = record {
      unique = v.unique;
      tracked = v.tracked;
      keyed = v.keyed;
      allocated = λ j q h. omega (arith, v.allocated j q h);
      known = v.known;
      recorded = λ j job h.
          let old = v.recorded j job h in
          record {
            own_id = old.own_id;
            stored = old.stored;
            settled = old.settled;
            retired = old.retired;
          };
      waiting = v.waiting;
      bounded = v.bounded;
    } in
    elim (Bool-cases (str_eq req.task_type "")) [
      | inl blank ↦ rw (submit, blank) skip
      | inr typed ↦ elim (Bool-cases (is_empty req.payload)) [
        | inl blank ↦ rw (submit, typed, blank) skip
        | inr full ↦ rw (submit, typed, full) (accept-Inv m req id now held fresh new v)
      ]
    ]
