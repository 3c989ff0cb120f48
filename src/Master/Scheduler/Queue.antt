-- ===== src/Master/Scheduler/Queue.antt =====
-- What goes into the queue and what comes out of it.
use dist_command_exec.Prelude.{
  ◌≤◌, Option-cases, inl, inr, refl, ℕ, ◌≡◌, Bool, true, false, none, some, List, [], ◌∷◌, ◌++◌,
  arith, ltb, if◌then◌else◌, length,
}
use dist_command_exec.Prelude.Map
use dist_command_exec.Types.{pending}
use dist_command_exec.Master.Scheduler.{
  Error, Scheduler, write, enqueue, dequeue, receive, received, queue_full, task_exists,
}

-- Enqueue of a task whose ID is not in the table.
pub enqueue-new :
    (s : Scheduler) (p : ℕ)
    → Map.get s.tasks (s.heap p).id ≡ none
    → enqueue s p ≡ (
        if ltb (length s.queue) s.capacity
        then (
          record (write s p (record (s.heap p) { status = pending })) {
            tasks = Map.put s.tasks (s.heap p).id p;
            queue = s.queue ++ p ∷ [];
          },
          none,
        )
        else (
          record (write s p (record (s.heap p) { status = pending })) {
            tasks = Map.delete (Map.put s.tasks (s.heap p).id p) (s.heap p).id;
          },
          some queue_full,
        ))
unfolding enqueue
enqueue-new s p new = rw new (ground arith)

pub enqueue-known :
    (s : Scheduler) (p q : ℕ)
    → Map.get s.tasks (s.heap p).id ≡ some q
    → enqueue s p ≡ (s, some task_exists)
unfolding enqueue
enqueue-known s p q known = rw (known, enqueue)

-- With a full queue Enqueue fails, and the queue stays as it is.
pub enqueue_full :
    (s : Scheduler) (p : ℕ)
    → s.capacity ≤ length s.queue
    → (e : Error) × ((enqueue s p).1 ≡ some e) × ((enqueue s p).0.queue ≡ s.queue)
enqueue_full s p over = elim (Option-cases (Map.get s.tasks (s.heap p).id)) [
  | inr (q, known) ↦
      (task_exists, rw (enqueue-known s p q known) refl, rw (enqueue-known s p q known) refl)
  | inl new ↦
      let full : ltb (length s.queue) s.capacity ≡ false = ground arith in
      (queue_full, rw (enqueue-new s p new, full) refl, rw (enqueue-new s p new, full) refl)
]

receive-received :
    (done choice : Bool) (s s' : Scheduler) (xs : List ℕ) (p : ℕ)
    → receive done choice s xs ≡ received p s'
    → (rest : List ℕ) × (xs ≡ p ∷ rest) × (s' ≡ record s { queue = rest })
unfolding receive
receive-received true choice s s' [] p e = absurd (ground arith)
receive-received false choice s s' [] p e = absurd (ground arith)
receive-received done choice s s' (x ∷ rest) p e = (rest, ground arith, ground arith)

-- What Dequeue receives is the head of the queue.
pub dequeue-received :
    (s s' : Scheduler) (done choice : Bool) (p : ℕ)
    → dequeue done choice s ≡ received p s'
    → (rest : List ℕ) × (s.queue ≡ p ∷ rest) × (s' ≡ record s { queue = rest })
unfolding dequeue
dequeue-received s s' done choice p e = receive-received done choice s s' s.queue p e
