-- ===== src/Master/System/Moves.antt =====
-- What the functions of the dispatcher do to the core, for a task in a dispatcher's hands.
use dist_command_exec.Prelude.{
  ℕ, ◌+◌, ◌≤◌, ◌<◌, ◌≡◌, String, Option, none, some, List, [], ◌∷◌, ◌++◌, arith, str_eq,
  if◌then◌else◌, length, occurs, update, Option-cases, inl, inr,
}
use dist_command_exec.Types.{Task, pending, failed, Result}
use dist_command_exec.Master.Store.{Job, outcome}
use dist_command_exec.Master.System.Core.{
  Core, Inv, IsStored, write-Inv, move-Inv, push-Inv, job-Inv,
}

-- `held` is what the dispatchers hold without one that holds p.
pub record Splits (c : Core) (p : ℕ) (held : List ℕ) : Type 0 where
  pub one : occurs p c.held ≡ occurs p held + 1
  pub fewer : (q : ℕ) → occurs q held ≤ occurs q c.held

-- What follows for p: it is neither in the queue nor held twice, the table knows it, and its job
-- has no result.
pub record Owned (c : Core) (p : ℕ) (held : List ℕ) : Type 0 where
  pub absent : occurs p c.queue ≡ 0
  pub alone : occurs p held ≡ 0
  pub here : c.tasks (c.heap p).id ≡ some p
  pub unsettled : (job : Job) → c.jobs (c.heap p).id ≡ some job → job.result ≡ none
  pub named : (job : Job) × (c.jobs (c.heap p).id ≡ some job)

pub Splits-Owned : (c : Core) (p : ℕ) (held : List ℕ) → Inv c → Splits c p held → Owned c p held
Splits-Owned c p held v s =
    let here : c.tasks (c.heap p).id ≡ some p = v.tracked p (omega (arith, s.one)) in
    record {
      absent = omega (arith, s.one, v.unique p);
      alone = omega (arith, s.one, v.unique p);
      here = here;
      unsettled = λ job known. elim (Option-cases job.result) [
        | inl e ↦ e
        | inr (r, e) ↦
            absurd (omega (arith, s.one, (v.recorded (c.heap p).id job known).retired r e p here))
      ];
      named = elim (Option-cases (c.jobs (c.heap p).id)) [
        | inl e ↦ absurd (ground (arith, v.known (c.heap p).id e, here))
        | inr found ↦ found
      ];
    }

-- The dispatcher writes its task, and ends.
pub drop-Inv :
    (c : Core) (p : ℕ) (held : List ℕ) (t : Task)
    → Inv c
    → Splits c p held
    → t.id ≡ (c.heap p).id
    → Inv (record c { heap = update c.heap p t; held = held })
drop-Inv c p held t v s same =
    let o = Splits-Owned c p held v s in
    write-Inv (record c { held = held }) p t
      (move-Inv c c.queue held v (λ q. omega (arith, s.fewer q)) (λ q. omega arith) (omega arith))
      o.absent same

-- The dispatcher resets its task, sends it to the queue, and ends.
pub back-Inv :
    (c : Core) (p : ℕ) (held : List ℕ) (t : Task)
    → Inv c
    → Splits c p held
    → t.id ≡ (c.heap p).id
    → t.status ≡ pending
    → length c.queue < c.capacity
    → Inv (record c { heap = update c.heap p t; held = held; queue = c.queue ++ p ∷ [] })
back-Inv c p held t v s same at_rest room =
    let o = Splits-Owned c p held v s in
    let c' : Core = record c { heap = update c.heap p t; held = held } in
    let self : c'.heap p ≡ t = ground arith in
    push-Inv c' p (drop-Inv c p held t v s same) (omega (arith, o.absent, o.alone))
      (rw (self, same) o.here) (rw self at_rest) (λ job. rw (self, same) (o.unsettled job)) room

outcome-IsStored : (r : Result) → IsStored (outcome r)
unfolding outcome
outcome-IsStored r = ground arith

-- The dispatcher writes its task and saves a result for its job, and ends.
pub settle-Inv :
    (c : Core) (p : ℕ) (held : List ℕ) (t : Task) (jobs : String → Option Job) (job : Job)
    (r : Result)
    → Inv c
    → Splits c p held
    → t.id ≡ (c.heap p).id
    → c.jobs (c.heap p).id ≡ some job
    → ((j : String)
        → jobs j ≡ (
            if str_eq (c.heap p).id j
            then some (record job { result = some r; status = outcome r })
            else c.jobs j))
    → Inv (record c { heap = update c.heap p t; held = held; jobs = jobs })
settle-Inv c p held t jobs job r v s same known put =
    let o = Splits-Owned c p held v s in
    let c' : Core = record c { heap = update c.heap p t; held = held } in
    let old = v.recorded (c.heap p).id job known in
    job-Inv c' jobs (c.heap p).id (record job { result = some r; status = outcome r })
      (drop-Inv c p held t v s same) put
      (record {
        own_id = old.own_id;
        stored = outcome-IsStored r;
        settled = λ r' e. inl cc;
        retired = λ r' e q here.
            let me : q ≡ p = cc (o.here, here) in rw me (omega (arith, o.absent, o.alone));
      })

-- The dispatcher writes its task and marks its job as failed, and goes on.
pub lose-Inv :
    (c : Core) (p : ℕ) (held : List ℕ) (t : Task) (jobs : String → Option Job) (job : Job)
    → Inv c
    → Splits c p held
    → t.id ≡ (c.heap p).id
    → c.jobs (c.heap p).id ≡ some job
    → ((j : String)
        → jobs j
          ≡ (if str_eq (c.heap p).id j then some (record job { status = failed }) else c.jobs j))
    → Inv (record c { heap = update c.heap p t; jobs = jobs })
lose-Inv c p held t jobs job v s same known put =
    let o = Splits-Owned c p held v s in
    let old = v.recorded (c.heap p).id job known in
    let open_job = o.unsettled job known in
    job-Inv (record c { heap = update c.heap p t }) jobs (c.heap p).id
      (record job { status = failed }) (write-Inv c p t v o.absent same) put
      (record {
        own_id = old.own_id;
        stored = ground arith;
        settled = λ r e. ground arith;
        retired = λ r e q here. ground arith;
      })
