-- ===== src/Master/System/Future.antt =====
-- From each step of the system to the states that follow it (see Master/System/History).
use dist_command_exec.Prelude.{
  ℕ, ◌+◌, ◌≡◌, subst, false, Option, eq_iff, refl, ap, String, true, none, some, List, [], ◌∷◌,
  ◌++◌, arith, str_eq, if◌then◌else◌, ◌⊎◌, eq_refl, length, occurs, occurs-append, ltb, Bool-cases,
  Option-cases, inl, inr,
}
use dist_command_exec.Prelude.Map
use dist_command_exec.Prelude.Map.{get-put}
use dist_command_exec.Types.{Time, cancelled, pending, Result}
use dist_command_exec.Master.Store.{Job, get_job, outcome, update_job_status, save_job}
use dist_command_exec.Master.Store.Lookup.{get-update_job_status}
use dist_command_exec.Master.Scheduler.Queue.{dequeue-received}
use dist_command_exec.Master.State.{Master}
use dist_command_exec.Master.Registry.{NodeInfo}
use dist_command_exec.Master.Dispatcher.{choose, send, ExecuteRequest}
use dist_command_exec.Master.Server.{
  can_cancel, SubmitRequest, submit, accept, cancel_write, job_of, task_of, is_empty, register,
  deregister, heartbeat, monitor,
}
use dist_command_exec.Master.System.{
  Pc, after_send, System, Reach, here, later, taken, calling, resting, Step, after_choice, submits,
  asks, cancels, registers, deregisters, beats, monitors, takes, selects, requeues, sends, replies,
}
use dist_command_exec.Master.System.Core.{Inv}
use dist_command_exec.Master.System.View.{
  core, core_of, pointers, Same, register-Same, deregister-Same, heartbeat-Same, monitor-Same,
  choose-Same,
}
use dist_command_exec.Master.System.Handlers.{accepted, refused, uncancellable}
use dist_command_exec.Master.System.Dispatching.{held-Splits}
use dist_command_exec.Master.System.Invariant.{Step-Inv}
use dist_command_exec.Master.System.Life.{goes, stays, lets, arrives, Follows}
use dist_command_exec.Master.System.Life as Life
use dist_command_exec.Master.System.History.{
  Onward, Onward-refl, Moves, Moves-trans, put-Moves, new-Onward, move-Onward,
}
use dist_command_exec.Master.System.Onwards.{
  requeued-Onward, complete-Onward, fail-Onward, moved, send-Onward,
}

-- How many Cancels of an ID may still write.
abbrev pub mentions : String → List String → ℕ
mentions id [] = 0
mentions id (j ∷ js) = let rest = mentions id js in if str_eq j id then rest + 1 else rest

mentions-split :
    (id j : String) (xs ys : List String)
    → mentions id (xs ++ j ∷ ys) ≡ mentions id (xs ++ ys) + (if str_eq j id then 1 else 0)
mentions-split id j [] ys = ground arith
mentions-split id j (x ∷ xs) ys = ground (arith, mentions-split id j xs ys)

abbrev pub asked : System → String → ℕ
asked y id = mentions id y.cancelling

-- The invariant of the core, and a Cancel between check and write is about a job of the store.
pub record Good (y : System) : Type 0 where
  pub core_Inv : Inv (core y)
  pub about : (id : String) → Life.IsAbout (Life.life (Map.get y.master.store.jobs id), asked y id)

-- A job with a status that can be cancelled has no result.
uncancellable-none :
    (job : Job)
    → ((r : Result) → job.result ≡ some r → (job.status ≡ outcome r) ⊎ (job.status ≡ cancelled))
    → can_cancel job.status ≡ true
    → job.result ≡ none
uncancellable-none job settled can = elim (Option-cases job.result) [
  | inl e ↦ e
  | inr (r, e) ↦ absurd (uncancellable r job (settled r e) can)
]

abbrev LivesWhileAsked : System → String → String → Type 0
LivesWhileAsked y id j =
    let l = Life.life (Map.get y.master.store.jobs j) in
    Follows (l, asked y j) (l, asked (record y { cancelling = id ∷ y.cancelling }) j)

asked_lem :
    (y : System) (id j : String) (job : Job)
    → Inv (core y)
    → get_job y.master.store id ≡ some job
    → can_cancel job.status ≡ true
    → LivesWhileAsked y id j
unfolding get_job
asked_lem y id j job v there can = elim (Bool-cases (str_eq id j)) [
  | inl hit ↦ subst (LivesWhileAsked y id) ((eq_iff id j).0 hit) (
      rw (eq_refl id, there)
        (Life.asks job (asked y id) (uncancellable-none job (v.recorded id job there).settled can)
          can))
  | inr miss ↦ rw miss stays
]

after_send-asked :
    (p : ℕ) (node : NodeInfo) (now : Time) (xs ys : List (ℕ × Pc)) (y : System)
    (sent : Option (String × ExecuteRequest))
    → asked y ≡ asked (after_send p node now xs ys y sent)
after_send-asked p node now xs ys y none = refl
after_send-asked p node now xs ys y (some _) = refl

cancel_write-Moves :
    {a b : String → ℕ} (m : Master) (id : String) (held : List ℕ) (fresh : ℕ) (job : Job)
    → Map.get m.store.jobs id ≡ some job
    → a id ≡ b id + 1
    → ((j : String) → str_eq id j ≡ false → b j ≡ a j)
    → Moves a b (core_of m held fresh) (core_of (cancel_write m id) held fresh)
cancel_write-Moves {a} {b} m id held fresh job known one others =
    put-Moves (core_of m held fresh) (Map.get (update_job_status m.store id cancelled).jobs) id job
      (record job { status = cancelled })
      (λ j. get-update_job_status m.store id j cancelled job known) known (refl, λ r e. e)
      (rw one (Life.cancels job (b id))) others

accept-Onward :
    (m : Master) (req : SubmitRequest) (id : String) (now : Time) (held : List ℕ) (fresh : ℕ)
    → Map.get m.store.jobs id ≡ none
    → Map.get m.scheduler.tasks id ≡ none
    → Onward (core_of m held fresh) (core_of (accept m req id fresh now).0 held (fresh + 1))
unfolding save_job job_of
accept-Onward m req id now held fresh new absent =
    let c = core_of m held fresh in
    let t = task_of req id now in
    let jobs = Map.get (save_job m.store (job_of req id now)).jobs in
    let tasks = Map.put m.scheduler.tasks id fresh in
    let put : (j : String) → jobs j ≡ (if str_eq id j then some (job_of req id now) else c.jobs j) =
      λ j. get-put m.store.jobs id j (job_of req id now) in
    elim (Bool-cases (ltb (length m.scheduler.queue) m.scheduler.capacity)) [
      | inl fits ↦ rw (accepted m req id now held fresh absent (ground arith)) (
          new-Onward c t (record t { status = pending }) (Map.get tasks) jobs
            (m.scheduler.queue ++ fresh ∷ []) id (job_of req id now) put new
            (λ q below. ground (arith, occurs-append q m.scheduler.queue (fresh ∷ []), below))
            (λ k. goes stays arrives))
      | inr over ↦ rw (refused m req id now held fresh absent (ground arith)) (
          new-Onward c t (record t { status = pending }) (Map.get (Map.delete tasks id)) jobs
            m.scheduler.queue id (job_of req id now) put new (λ q below. refl)
            (λ k. goes stays arrives))
    ]

submit-Onward :
    (m : Master) (req : SubmitRequest) (id : String) (now : Time) (held : List ℕ) (fresh : ℕ)
    → Map.get m.store.jobs id ≡ none
    → Inv (core_of m held fresh)
    → Onward (core_of m held fresh) (core_of (submit m req id fresh now).0 held (fresh + 1))
unfolding submit
submit-Onward m req id now held fresh new v =
    let c = core_of m held fresh in
    let skip : Onward c (record c { fresh = fresh + 1 }) = λ a. record {
      grows = (Onward-refl c a).grows;
      idle = (Onward-refl c a).idle;
      ages = omega arith;
      lives = (Onward-refl c a).lives;
    } in
    elim (Bool-cases (str_eq req.task_type "")) [
      | inl blank ↦ rw blank skip
      | inr typed ↦ elim (Bool-cases (is_empty req.payload)) [
        | inl blank ↦ rw (typed, blank) skip
        | inr full ↦ rw (typed, full) (accept-Onward m req id now held fresh new (v.known id new))
      ]
    ]

Same-Onward :
    (m m' : Master) (held held' : List ℕ) (fresh : ℕ)
    → Same m m'
    → Onward (core_of m held fresh) (core_of m held' fresh)
    → Onward (core_of m held fresh) (core_of m' held' fresh)
Same-Onward m m' held held' fresh (a, b) f = rw (a, b) f

-- From a state where the invariant holds.
pub Step-Moves : {y z : System} → Step y z → Good y → Moves (asked y) (asked z) (core y) (core z)
Step-Moves {y} (submits req id now new) g =
    (submit-Onward y.master req id now (pointers y.held) y.fresh new g.core_Inv) (asked y)
Step-Moves {y} (asks id job named there can) g =
    let same = Onward-refl (core y) (asked y) in
    record {
      grows = same.grows;
      idle = same.idle;
      ages = same.ages;
      lives = λ j. asked_lem y id j job g.core_Inv there can;
    }
Step-Moves {y} (cancels xs ys id e) g =
    let one : asked y id ≡ mentions id (xs ++ ys) + 1 =
      rw e (ground (arith, mentions-split id id xs ys, eq_refl id)) in
    let (job, known) = Life.job_there (Map.get y.master.store.jobs id) (mentions id (xs ++ ys)) (
      subst (λ k. Life.IsAbout (Life.life (Map.get y.master.store.jobs id), k)) one (g.about id)) in
    cancel_write-Moves y.master id (pointers y.held) y.fresh job known one
      (λ j miss. rw e (ground (arith, mentions-split j id xs ys, miss)))
Step-Moves {y} (registers req now) g =
    (Same-Onward y.master (register y.master req now).0 (pointers y.held) (pointers y.held) y.fresh
        (register-Same y.master req now) (Onward-refl (core y)))
      (asked y)
Step-Moves {y} (deregisters id) g =
    (Same-Onward y.master (deregister y.master id).0 (pointers y.held) (pointers y.held) y.fresh
        (deregister-Same y.master id) (Onward-refl (core y)))
      (asked y)
Step-Moves {y} (beats id active now) g =
    (Same-Onward y.master (heartbeat y.master id active now).0 (pointers y.held) (pointers y.held)
        y.fresh (heartbeat-Same y.master id active now) (Onward-refl (core y)))
      (asked y)
Step-Moves {y} (monitors now visited) g =
    (Same-Onward y.master (monitor y.master now visited) (pointers y.held) (pointers y.held) y.fresh
        (monitor-Same y.master now visited) (Onward-refl (core y)))
      (asked y)
Step-Moves {y} (takes done choice p s e) g =
    let (rest, head, next) = dequeue-received y.master.scheduler s done choice p e in
    rw next (
      move-Onward (core y) rest (p ∷ pointers y.held) (λ q. omega (arith, ap (occurs q) head))
        (asked y))
Step-Moves {y} (selects xs ys p now api seen visited e) g =
    let pc = after_choice (choose y.master now api seen visited).1 in
    (Same-Onward y.master (choose y.master now api seen visited).0 (pointers y.held)
        (pointers (xs ++ (p, pc) ∷ ys)) y.fresh (choose-Same y.master now api seen visited)
        (move-Onward (core y) (core y).queue (pointers (xs ++ (p, pc) ∷ ys))
          (moved y p taken pc xs ys e)))
      (asked y)
Step-Moves {y} (requeues xs ys p e) g =
    (requeued-Onward y.master p y.fresh (pointers y.held) (pointers (xs ++ ys))
        (held-Splits y p resting xs ys e))
      (asked y)
Step-Moves {y} {z} (sends xs ys p node dials now e) g =
    subst (λ (b : String → ℕ). Moves (asked y) b (core y) (core z))
      (after_send-asked p node now xs ys (record y { master = (send y.master p node dials now).0 })
        (send y.master p node dials now).1)
      ((send-Onward y p node dials now xs ys g.core_Inv e) (asked y))
Step-Moves {y} (replies xs ys p node none now e) g =
    (fail-Onward y.master p y.fresh (pointers y.held) (pointers (xs ++ ys)) node now g.core_Inv
        (held-Splits y p (calling node) xs ys e))
      (asked y)
Step-Moves {y} (replies xs ys p node (some resp) now e) g =
    (complete-Onward y.master p y.fresh (pointers y.held) (pointers (xs ++ ys)) node resp now
        g.core_Inv (held-Splits y p (calling node) xs ys e))
      (asked y)

pub Step-Good : {y z : System} → Step y z → Good y → Good z
Step-Good {y} {z} s g = record {
  core_Inv = Step-Inv s g.core_Inv;
  about = λ id. Life.Follows-IsAbout ((Step-Moves s g).lives id) (g.about id);
}

pub Reach-Good : {y z : System} → Reach y z → Good y → Good z
Reach-Good here g = g
Reach-Good (later r s) g = Step-Good s (Reach-Good r g)

pub Reach-Moves : {y z : System} → Reach y z → Good y → Moves (asked y) (asked z) (core y) (core z)
Reach-Moves {y} here g = Onward-refl (core y) (asked y)
Reach-Moves {y} (later {u} {v = w} r s) g =
    Moves-trans (core y) (core u) (core w) (Reach-Moves r g) (Step-Moves s (Reach-Good r g))
