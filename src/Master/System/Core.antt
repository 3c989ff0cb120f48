-- ===== src/Master/System/Core.antt =====
-- What scheduler, store and dispatchers agree on, and the moves that keep it.
use dist_command_exec.Prelude.{
  ℕ, ◌+◌, ◌≤◌, ◌<◌, ◌≡◌, ◌≢◌, subst, Bool-cases, ◌⊎◌, inl, inr, String, Option, none, some, List,
  [], ◌∷◌, ◌++◌, arith, str_eq, eq_iff, if◌then◌else◌, length, length-append, occurs, occurs-append,
  update,
}
use native.Mathlib.Decide.{dec_lt}
use dist_command_exec.Types.{Task, TaskStatus, pending, completed, failed, cancelled, Result}
use dist_command_exec.Master.Store.{Job, outcome}

-- `held` are the tasks of the running dispatchers.
pub record Core : Type 0 where
  pub heap : ℕ → Task
  pub queue : List ℕ
  pub capacity : ℕ
  pub tasks : String → Option ℕ
  pub jobs : String → Option Job
  pub held : List ℕ
  pub fresh : ℕ

-- How many queue places and dispatchers hold a task.
abbrev pub live : Core → ℕ → ℕ
live c p = occurs p c.queue + occurs p c.held

-- The statuses that a job takes in the store.
abbrev pub IsStored : TaskStatus → Type 0
IsStored s = (s ≡ pending) ⊎ (s ≡ completed) ⊎ (s ≡ failed) ⊎ (s ≡ cancelled)

-- A job under its ID. One with a result has the status that the result gives, or CANCELLED, and no
-- task of it is queued or in a dispatcher's hands.
pub record IsJob (c : Core) (id : String) (job : Job) : Type 0 where
  pub own_id : job.id ≡ id
  pub stored : IsStored job.status
  pub settled :
      (r : Result) → job.result ≡ some r → (job.status ≡ outcome r) ⊎ (job.status ≡ cancelled)
  pub retired : (r : Result) → job.result ≡ some r → (p : ℕ) → c.tasks id ≡ some p → live c p ≡ 0

pub record Inv (c : Core) : Type 0 where
  pub unique : (p : ℕ) → live c p ≤ 1
  pub tracked : (p : ℕ) → 0 < live c p → c.tasks (c.heap p).id ≡ some p
  pub keyed : (id : String) (p : ℕ) → c.tasks id ≡ some p → (c.heap p).id ≡ id
  pub allocated : (id : String) (p : ℕ) → c.tasks id ≡ some p → p < c.fresh
  pub known : (id : String) → c.jobs id ≡ none → c.tasks id ≡ none
  pub recorded : (id : String) (job : Job) → c.jobs id ≡ some job → IsJob c id job
  pub waiting : (p : ℕ) → 0 < occurs p c.queue → (c.heap p).status ≡ pending
  pub bounded : length c.queue ≤ c.capacity

-- A dispatcher writes its task, and keeps the ID.
pub write-Inv :
    (c : Core) (p : ℕ) (t : Task)
    → Inv c
    → occurs p c.queue ≡ 0
    → t.id ≡ (c.heap p).id
    → Inv (record c { heap = update c.heap p t })
write-Inv c p t v absent same = record {
  unique = v.unique;
  tracked = λ q h. ground (arith, v.tracked q);
  keyed = λ id q h. ground (arith, v.keyed id q);
  allocated = v.allocated;
  known = v.known;
  recorded = λ id job h.
      let j = v.recorded id job h in
      record { own_id = j.own_id; stored = j.stored; settled = j.settled; retired = j.retired };
  waiting = λ q h. ground (arith, v.waiting q);
  bounded = v.bounded;
}

-- Tasks go from the queue to dispatchers, or out of their hands.
pub move-Inv :
    (c : Core) (queue held : List ℕ)
    → Inv c
    → ((q : ℕ) → occurs q queue + occurs q held ≤ live c q)
    → ((q : ℕ) → occurs q queue ≤ occurs q c.queue)
    → length queue ≤ length c.queue
    → Inv (record c { queue = queue; held = held })
move-Inv c queue held v fewer sub short = record {
  unique = λ p. omega (arith, v.unique p, fewer p);
  tracked = λ p h. v.tracked p (omega (arith, fewer p));
  keyed = v.keyed;
  allocated = v.allocated;
  known = v.known;
  recorded = λ id job h.
      let j = v.recorded id job h in
      record {
        own_id = j.own_id;
        stored = j.stored;
        settled = j.settled;
        retired = λ r e p t. omega (arith, j.retired r e p t, fewer p);
      };
  waiting = λ p h. v.waiting p (omega (arith, sub p));
  bounded = omega (arith, v.bounded);
}

-- A task that nobody holds goes into the queue.
pub push-Inv :
    (c : Core) (p : ℕ)
    → Inv c
    → live c p ≡ 0
    → c.tasks (c.heap p).id ≡ some p
    → (c.heap p).status ≡ pending
    → ((job : Job) → c.jobs (c.heap p).id ≡ some job → job.result ≡ none)
    → length c.queue < c.capacity
    → Inv (record c { queue = c.queue ++ p ∷ [] })
push-Inv c p v free here at_rest open_job room = record {
  unique = λ q. ground (arith, v.unique q, occurs-append q c.queue (p ∷ []));
  tracked = λ q h. ground (arith, v.tracked q, occurs-append q c.queue (p ∷ []));
  keyed = v.keyed;
  allocated = v.allocated;
  known = v.known;
  recorded = λ id job h.
      let j = v.recorded id job h in
      record {
        own_id = j.own_id;
        stored = j.stored;
        settled = j.settled;
        retired = λ r e q t. ground (
          arith,
          j.retired r e q t,
          occurs-append q c.queue (p ∷ []),
          v.keyed id q t,
          open_job job,
        );
      };
  waiting = λ q h. ground (arith, v.waiting q, occurs-append q c.queue (p ∷ []));
  bounded = omega (arith, length-append c.queue (p ∷ []));
}

-- The store writes a job under its ID.
pub job-Inv :
    (c : Core) (jobs : String → Option Job) (id : String) (job : Job)
    → Inv c
    → ((j : String) → jobs j ≡ (if str_eq id j then some job else c.jobs j))
    → IsJob c id job
    → Inv (record c { jobs = jobs })
job-Inv c jobs id job v put new = record {
  unique = v.unique;
  tracked = v.tracked;
  keyed = v.keyed;
  allocated = v.allocated;
  known = λ j h. ground (arith, put j, v.known j, eq_iff id j);
  recorded = λ j job' h.
      let found = look j job' h in
      record {
        own_id = found.own_id;
        stored = found.stored;
        settled = found.settled;
        retired = found.retired;
      };
  waiting = v.waiting;
  bounded = v.bounded;
}
  where
    look : (j : String) (job' : Job) → jobs j ≡ some job' → IsJob c j job'
    look j job' h = elim (Bool-cases (str_eq id j)) [
      | inl hit ↦
          let same : job ≡ job' = ground (arith, put j) in
          subst (λ i. IsJob c i job') ((eq_iff id j).0 hit) (subst (IsJob c id) same new)
      | inr miss ↦ v.recorded j job' (ground (arith, put j))
    ]

-- The heap may also be written at a pointer that nothing uses yet.
pub fresh_lem : (c : Core) → Inv c → (id : String) → c.tasks id ≢ some c.fresh
fresh_lem c v id h = absurd (omega (arith, v.allocated id c.fresh h))

pub fresh_free : (c : Core) → Inv c → live c c.fresh ≡ 0
fresh_free c v = elim (dec_lt 0 (live c c.fresh)) [
  | yes h ↦ absurd (fresh_lem c v (c.heap c.fresh).id (v.tracked c.fresh h))
  | no h ↦ omega arith
]

-- Allocation of a task, which is not yet in the table.
pub allocate-Inv :
    (c : Core) (t : Task)
    → Inv c
    → Inv (record c { heap = update c.heap c.fresh t; fresh = c.fresh + 1 })
allocate-Inv c t v = record {
  unique = v.unique;
  tracked = λ q h. ground (arith, v.tracked q, fresh_free c v);
  keyed = λ id q h. ground (arith, v.keyed id q, v.allocated id q);
  allocated = λ id q h. omega (arith, v.allocated id q h);
  known = v.known;
  recorded = λ id job h.
      let j = v.recorded id job h in
      record { own_id = j.own_id; stored = j.stored; settled = j.settled; retired = j.retired };
  waiting = λ q h. ground (arith, v.waiting q, fresh_free c v);
  bounded = v.bounded;
}

-- The table gets an entry for a task that is allocated, not live, and whose job has no result.
pub enter-Inv :
    (c : Core) (tasks : String → Option ℕ) (p : ℕ)
    → Inv c
    → ((j : String) → tasks j ≡ (if str_eq (c.heap p).id j then some p else c.tasks j))
    → c.tasks (c.heap p).id ≡ none
    → live c p ≡ 0
    → p < c.fresh
    → c.jobs (c.heap p).id ≢ none
    → Inv (record c { tasks = tasks })
enter-Inv c tasks p v put absent free below named = record {
  unique = v.unique;
  tracked =
      λ q h. ground (arith, put (c.heap q).id, v.tracked q h, eq_iff (c.heap p).id (c.heap q).id);
  keyed = λ id q h. ground (arith, put id, v.keyed id q, eq_iff (c.heap p).id id);
  allocated = λ id q h. ground (arith, put id, v.allocated id q);
  known = λ id h. ground (arith, put id, v.known id h, eq_iff (c.heap p).id id);
  recorded = λ id job h.
      let j = v.recorded id job h in
      record {
        own_id = j.own_id;
        stored = j.stored;
        settled = j.settled;
        retired = λ r e q t. ground (arith, put id, j.retired r e q);
      };
  waiting = v.waiting;
  bounded = v.bounded;
}

-- The table loses the entry of a task that is not live.
pub leave-Inv :
    (c : Core) (tasks : String → Option ℕ) (p : ℕ)
    → Inv c
    → ((j : String) → tasks j ≡ (if str_eq (c.heap p).id j then none else c.tasks j))
    → c.tasks (c.heap p).id ≡ some p
    → live c p ≡ 0
    → Inv (record c { tasks = tasks })
leave-Inv c tasks p v cut here free = record {
  unique = v.unique;
  tracked =
      λ q h. ground (arith, cut (c.heap q).id, v.tracked q h, eq_iff (c.heap p).id (c.heap q).id);
  keyed = λ id q h. ground (arith, cut id, v.keyed id q);
  allocated = λ id q h. ground (arith, cut id, v.allocated id q);
  known = λ id h. ground (arith, cut id, v.known id h);
  recorded = λ id job h.
      let j = v.recorded id job h in
      record {
        own_id = j.own_id;
        stored = j.stored;
        settled = j.settled;
        retired = λ r e q t. ground (arith, cut id, j.retired r e q);
      };
  waiting = v.waiting;
  bounded = v.bounded;
}
