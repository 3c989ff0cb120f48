-- ===== src/Master/System/Dispatching.antt =====
-- The parts of dispatchTask (internal/master/dispatcher.go) and the core invariant.
use dist_command_exec.Prelude.{
  ℕ, ◌+◌, ◌≡◌, refl, Bool, List, [], ◌∷◌, ◌++◌, arith, ◌==◌, if◌then◌else◌, ltb, length, occurs,
  Option-cases, Bool-cases, inl, inr,
}
use dist_command_exec.Prelude.Map
use dist_command_exec.Prelude.Map.{get-put, get-delete}
use dist_command_exec.Types.{Time, completed, failed, can_retry}
use dist_command_exec.Master.Store.{save_result, update_job_status}
use dist_command_exec.Master.Store.Lookup.{get-update_job_status, get-save_result}
use dist_command_exec.Master.Scheduler.{started, finished, reset, mark_failed, mark_running}
use dist_command_exec.Master.Scheduler.Marks.{
  mark_running_lem, mark_complete_lem, mark_failed_lem, requeue_lem,
}
use dist_command_exec.Master.Registry.{NodeInfo, decrement_active_tasks}
use dist_command_exec.Master.State.{Master}
use dist_command_exec.Master.Dispatcher.{
  ExecuteResponse, requeued, get_client, send, give_up, fail, complete, result_of,
}
use dist_command_exec.Master.System.{System, Pc, selected, calling, after_send}
use dist_command_exec.Master.System.Core.{Inv, move-Inv, write-Inv}
use dist_command_exec.Master.System.Moves.{
  Splits, Splits-Owned, drop-Inv, back-Inv, settle-Inv, lose-Inv,
}
use dist_command_exec.Master.System.View.{core, core_of, pointers}

pub occurs-split :
    (q p : ℕ) (pc : Pc) (xs ys : List (ℕ × Pc))
    → occurs q (pointers (xs ++ (p, pc) ∷ ys))
      ≡ occurs q (pointers (xs ++ ys)) + (if p == q then 1 else 0)
occurs-split q p pc [] ys = omega arith
occurs-split q p pc ((x, c) ∷ xs) ys = omega (arith, occurs-split q p pc xs ys)

pub held-Splits :
    (y : System) (p : ℕ) (pc : Pc) (xs ys : List (ℕ × Pc))
    → y.held ≡ xs ++ (p, pc) ∷ ys
    → Splits (core y) p (pointers (xs ++ ys))
held-Splits y p pc xs ys e = record {
  one = rw e (ground (arith, occurs-split p p pc xs ys));
  fewer = λ q. rw e (omega (arith, occurs-split q p pc xs ys));
}

-- A dispatcher goes on to another place.
pub repoint-Inv :
    (y : System) (p : ℕ) (pc pc' : Pc) (xs ys : List (ℕ × Pc))
    → Inv (core y)
    → y.held ≡ xs ++ (p, pc) ∷ ys
    → Inv (core (record y { held = xs ++ (p, pc') ∷ ys }))
repoint-Inv y p pc pc' xs ys v e =
    move-Inv (core y) (core y).queue (pointers (xs ++ (p, pc') ∷ ys)) v
      (λ q. rw e (omega (arith, occurs-split q p pc xs ys, occurs-split q p pc' xs ys)))
      (λ q. omega arith) (omega arith)

pub requeued-Inv :
    (m : Master) (p fresh : ℕ) (held held' : List ℕ)
    → Inv (core_of m held fresh)
    → Splits (core_of m held fresh) p held'
    → Inv (core_of (requeued m p) held' fresh)
requeued-Inv m p fresh held held' v s =
    elim (Bool-cases (ltb (length m.scheduler.queue) m.scheduler.capacity)) [
      | inl room ↦
          rw (requeue_lem m.scheduler p, room)
            (back-Inv (core_of m held fresh) p held' (reset (m.scheduler.heap p)) v s refl refl
              (ground arith))
      | inr full ↦
          rw (requeue_lem m.scheduler p, full)
            (drop-Inv (core_of m held fresh) p held' (reset (m.scheduler.heap p)) v s refl)
    ]

pub complete-Inv :
    (m : Master) (p fresh : ℕ) (held held' : List ℕ) (node : NodeInfo) (resp : ExecuteResponse)
    (now : Time)
    → Inv (core_of m held fresh)
    → Splits (core_of m held fresh) p held'
    → Inv (core_of (complete m p node resp now) held' fresh)
unfolding complete
complete-Inv m p fresh held held' node resp now v s =
    let o = Splits-Owned (core_of m held fresh) p held' v s in
    let (job, known) = o.named in
    let t = m.scheduler.heap p in
    rw (mark_complete_lem m.scheduler t.id now p o.here) (
      settle-Inv (core_of m held fresh) p held' (finished completed now t)
        (Map.get (save_result m.store (result_of t node resp now)).jobs) job
        (result_of t node resp now) v s refl known
        (λ j. get-save_result m.store (result_of t node resp now) j job known))

pub give_up-Inv :
    (m : Master) (p fresh : ℕ) (held held' : List ℕ) (now : Time)
    → Inv (core_of m held fresh)
    → Splits (core_of m held fresh) p held'
    → Inv (core_of (give_up m p now) held' fresh)
unfolding give_up
give_up-Inv m p fresh held held' now v s =
    let o = Splits-Owned (core_of m held fresh) p held' v s in
    let (job, known) = o.named in
    let t = m.scheduler.heap p in
    let lost = record m {
      scheduler = (mark_failed m.scheduler t.id now).0;
      store = update_job_status m.store t.id failed;
    } in
    let v' : Inv (core_of lost held fresh) = rw (mark_failed_lem m.scheduler t.id now p o.here) (
      lose-Inv (core_of m held fresh) p held' (finished failed now t)
        (Map.get (update_job_status m.store t.id failed).jobs) job v s refl known
        (λ j. get-update_job_status m.store t.id j failed job known)) in
    let s' : Splits (core_of lost held fresh) p held' = record { one = s.one; fewer = s.fewer } in
    elim (Bool-cases (can_retry (lost.scheduler.heap p))) [
      | inl again ↦ rw again (requeued-Inv lost p fresh held held' v' s')
      | inr over ↦ rw over (
          move-Inv (core_of lost held fresh) lost.scheduler.queue held' v'
            (λ q. omega (arith, s.fewer q)) (λ q. omega arith) (omega arith))
    ]

pub fail-Inv :
    (m : Master) (p fresh : ℕ) (held held' : List ℕ) (node : NodeInfo) (now : Time)
    → Inv (core_of m held fresh)
    → Splits (core_of m held fresh) p held'
    → Inv (core_of (fail m p node now) held' fresh)
unfolding fail
fail-Inv m p fresh held held' node now v s =
    give_up-Inv (record m { registry = decrement_active_tasks m.registry node.id }) p fresh held
      held' now v s

-- Through a client, the dispatcher marks its task as running and waits for the reply.
deliver-Inv :
    (y : System) (p : ℕ) (node : NodeInfo) (now : Time) (xs ys : List (ℕ × Pc))
    → Inv (core y)
    → y.held ≡ xs ++ (p, selected node) ∷ ys
    → Inv (
        core_of
          (record y.master {
            scheduler =
                (mark_running y.master.scheduler (y.master.scheduler.heap p).id node.id now).0;
          })
          (pointers (xs ++ (p, calling node) ∷ ys))
          y.fresh)
deliver-Inv y p node now xs ys v e =
    let o =
      Splits-Owned (core y) p (pointers (xs ++ ys)) v (held-Splits y p (selected node) xs ys e) in
    let t = y.master.scheduler.heap p in
    rw (mark_running_lem y.master.scheduler t.id node.id now p o.here) (
      write-Inv (core (record y { held = xs ++ (p, calling node) ∷ ys })) p (started node.id now t)
        (repoint-Inv y p (selected node) (calling node) xs ys v e) o.absent refl)

-- A new connection may be made before.
pub send-Inv :
    (y : System) (p : ℕ) (node : NodeInfo) (dials : Bool) (now : Time) (xs ys : List (ℕ × Pc))
    → Inv (core y)
    → y.held ≡ xs ++ (p, selected node) ∷ ys
    → Inv (
        core (
          after_send p node now xs ys
            (record y { master = (send y.master p node dials now).0 })
            (send y.master p node dials now).1))
unfolding send get_client
send-Inv y p node dials now xs ys v e = elim (Option-cases (Map.get y.master.clients node.id)) [
  | inr (address, known) ↦ rw known (deliver-Inv y p node now xs ys v e)
  | inl unknown ↦ elim (Bool-cases dials) [
    | inl up ↦ rw (unknown, up) (deliver-Inv y p node now xs ys v e)
    | inr down ↦
        rw (unknown, down)
          (give_up-Inv y.master p y.fresh (pointers y.held) (pointers (xs ++ ys)) now v
            (held-Splits y p (selected node) xs ys e))
  ]
]
