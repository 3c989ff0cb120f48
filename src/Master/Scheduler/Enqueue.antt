-- ===== src/Master/Scheduler/Enqueue.antt =====
-- Enqueue of internal/master/scheduler.go as a whole, on all its branches.
use dist_command_exec.Prelude.{
  ℕ, ◌≡◌, ◌≤◌, refl, String, Bool-cases, Option, none, some, Option-cases, [], ◌∷◌, ◌++◌, arith,
  ltb, if◌then◌else◌, length, inl, inr, length-append, str_eq, eq_iff,
}
use dist_command_exec.Prelude.Map
use dist_command_exec.Prelude.Map.{get-put, get-delete}
use dist_command_exec.Master.Scheduler.{
  Scheduler, Error, get_task, enqueue, queue_full, task_exists, task_not_found,
}
use dist_command_exec.Master.Scheduler.Queue.{enqueue-new, enqueue-known}

-- Queue and table are as before.
abbrev pub IsUntouched : Scheduler → Scheduler → Type 0
IsUntouched s s' = (s'.queue ≡ s.queue) × ((id : String) → get_task s' id ≡ get_task s id)

-- What each reply of Enqueue promises of the state that it leaves.
abbrev pub Promise : Scheduler → ℕ → Scheduler × Option Error → Type 0
Promise s p (s', none) =
    (get_task s (s.heap p).id ≡ none)
    × (s'.queue ≡ s.queue ++ p ∷ [])
    × (length s'.queue ≤ s'.capacity)
    × ((id : String) → get_task s' id ≡ (if str_eq (s.heap p).id id then some p else get_task s id))
Promise s p (s', some queue_full) = (s.capacity ≤ length s.queue) × IsUntouched s s'
Promise s p (s', some task_exists) =
    ((q : ℕ) × (get_task s (s.heap p).id ≡ some q)) × IsUntouched s s'
Promise s p (s', some task_not_found) = ⊥

-- The roll-back.
unchanged :
    (s : Scheduler) (p : ℕ) (id : String)
    → Map.get s.tasks (s.heap p).id ≡ none
    → Map.get (Map.delete (Map.put s.tasks (s.heap p).id p) (s.heap p).id) id ≡ Map.get s.tasks id
unchanged s p id new = ground (
  arith,
  get-delete (Map.put s.tasks (s.heap p).id p) (s.heap p).id id,
  get-put s.tasks (s.heap p).id id p,
  eq_iff (s.heap p).id id,
)

-- Whatever the state, Enqueue either appends the task to the queue, within its capacity, and adds
-- it to the table under its ID, which was not there; or it replies ErrQueueFull, where the queue is
-- full, or ErrTaskExists, where the ID is known, and leaves queue and table as they were.
pub enqueue-Promise : (s : Scheduler) (p : ℕ) → Promise s p (enqueue s p)
unfolding get_task
enqueue-Promise s p = elim (Option-cases (Map.get s.tasks (s.heap p).id)) [
  | inr (q, known) ↦ rw (enqueue-known s p q known) ((q, known), (refl, λ id. refl))
  | inl new ↦ elim (Bool-cases (ltb (length s.queue) s.capacity)) [
    | inl room ↦
        rw (enqueue-new s p new, room)
          (
            new,
            refl,
            ground (arith, length-append s.queue (p ∷ [])),
            λ id. get-put s.tasks (s.heap p).id id p,
          )
    | inr full ↦ rw (enqueue-new s p new, full) (ground arith, (refl, λ id. unchanged s p id new))
  ]
]
