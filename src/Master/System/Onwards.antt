-- ===== src/Master/System/Onwards.antt =====
-- The parts of dispatchTask (internal/master/dispatcher.go) and the later states.
use dist_command_exec.Prelude.{
  ℕ, ◌+◌, ◌≤◌, ◌<◌, ◌≡◌, refl, Bool, some, List, [], ◌∷◌, ◌++◌, arith, length, occurs,
  occurs-append, ltb, Bool-cases, Option-cases, inl, inr,
}
use dist_command_exec.Prelude.Map
use dist_command_exec.Prelude.Map.{get-put}
use dist_command_exec.Types.{Time, failed, completed, can_retry}
use dist_command_exec.Master.Store.{outcome, update_job_status, save_result}
use dist_command_exec.Master.Store.Lookup.{get-update_job_status, get-save_result}
use dist_command_exec.Master.Scheduler.{mark_running, mark_failed, started, finished, reset}
use dist_command_exec.Master.Scheduler.Marks.{
  mark_failed_lem, mark_complete_lem, mark_running_lem, requeue_lem,
}
use dist_command_exec.Master.Registry.{NodeInfo, decrement_active_tasks}
use dist_command_exec.Master.State.{Master}
use dist_command_exec.Master.Dispatcher.{
  ExecuteResponse, requeued, get_client, send, give_up, fail, complete, result_of,
}
use dist_command_exec.Master.System.{System, Pc, selected, calling, after_send}
use dist_command_exec.Master.System.Core.{Core, Inv, live}
use dist_command_exec.Master.System.Moves.{Splits, Splits-Owned}
use dist_command_exec.Master.System.View.{core, core_of, pointers}
use dist_command_exec.Master.System.Dispatching.{held-Splits, occurs-split}
use dist_command_exec.Master.System.Life.{closes, reopens, fails}
use dist_command_exec.Master.System.History.{
  Onward, Onward-trans, work-Onward, put-Onward, move-Onward,
}

pub busy : (c : Core) (p : ℕ) (held : List ℕ) → Splits c p held → 0 < live c p
busy c p held s = omega (arith, s.one)

pub requeued-Onward :
    (m : Master) (p fresh : ℕ) (held held' : List ℕ)
    → Splits (core_of m held fresh) p held'
    → Onward (core_of m held fresh) (core_of (requeued m p) held' fresh)
requeued-Onward m p fresh held held' s =
    let c = core_of m held fresh in
    let t = reset (m.scheduler.heap p) in
    elim (Bool-cases (ltb (length m.scheduler.queue) m.scheduler.capacity)) [
      | inl room ↦
          rw (requeue_lem m.scheduler p, room)
            (work-Onward c p t (m.scheduler.queue ++ p ∷ []) held' (busy c p held' s)
              (λ q. ground (arith, occurs-append q m.scheduler.queue (p ∷ []), s.fewer q, s.one)))
      | inr full ↦
          rw (requeue_lem m.scheduler p, full)
            (work-Onward c p t m.scheduler.queue held' (busy c p held' s)
              (λ q. omega (arith, s.fewer q)))
    ]

pub complete-Onward :
    (m : Master) (p fresh : ℕ) (held held' : List ℕ) (node : NodeInfo) (resp : ExecuteResponse)
    (now : Time)
    → Inv (core_of m held fresh)
    → Splits (core_of m held fresh) p held'
    → Onward (core_of m held fresh) (core_of (complete m p node resp now) held' fresh)
unfolding complete
complete-Onward m p fresh held held' node resp now v s =
    let c = core_of m held fresh in
    let o = Splits-Owned c p held' v s in
    let (job, known) = o.named in
    let t = m.scheduler.heap p in
    let r = result_of t node resp now in
    let jobs = Map.get (save_result m.store r).jobs in
    rw (mark_complete_lem m.scheduler t.id now p o.here) (
      Onward-trans c (record c { jobs = jobs }) _
        (put-Onward c jobs t.id job (record job { result = some r; status = outcome r })
          (λ j. get-save_result m.store r j job known) known (o.unsettled job known) refl
          (λ k. closes job r k (o.unsettled job known)))
        (work-Onward (record c { jobs = jobs }) p (finished completed now t) c.queue held'
          (busy c p held' s) (λ q. omega (arith, s.fewer q))))

pub give_up-Onward :
    (m : Master) (p fresh : ℕ) (held held' : List ℕ) (now : Time)
    → Inv (core_of m held fresh)
    → Splits (core_of m held fresh) p held'
    → Onward (core_of m held fresh) (core_of (give_up m p now) held' fresh)
unfolding give_up
give_up-Onward m p fresh held held' now v s =
    let c = core_of m held fresh in
    let o = Splits-Owned c p held' v s in
    let (job, known) = o.named in
    let t = m.scheduler.heap p in
    let jobs = Map.get (update_job_status m.store t.id failed).jobs in
    let lost = record m {
      scheduler = (mark_failed m.scheduler t.id now).0;
      store = update_job_status m.store t.id failed;
    } in
    let first : Onward c (core_of lost held fresh) =
      rw (mark_failed_lem m.scheduler t.id now p o.here) (
        Onward-trans c (record c { jobs = jobs }) _
          (put-Onward c jobs t.id job (record job { status = failed })
            (λ j. get-update_job_status m.store t.id j failed job known) known
            (o.unsettled job known) refl (λ k. reopens job failed k (o.unsettled job known) fails))
          (work-Onward (record c { jobs = jobs }) p (finished failed now t) c.queue held
            (busy c p held' s) (λ q. omega arith))) in
    let s' : Splits (core_of lost held fresh) p held' = record { one = s.one; fewer = s.fewer } in
    elim (Bool-cases (can_retry (lost.scheduler.heap p))) [
      | inl again ↦ rw again (
          Onward-trans c (core_of lost held fresh) _ first
            (requeued-Onward lost p fresh held held' s'))
      | inr over ↦ rw over (
          Onward-trans c (core_of lost held fresh) _ first (
            move-Onward (core_of lost held fresh) lost.scheduler.queue held'
              (λ q. omega (arith, s'.fewer q))))
    ]

pub fail-Onward :
    (m : Master) (p fresh : ℕ) (held held' : List ℕ) (node : NodeInfo) (now : Time)
    → Inv (core_of m held fresh)
    → Splits (core_of m held fresh) p held'
    → Onward (core_of m held fresh) (core_of (fail m p node now) held' fresh)
unfolding fail
fail-Onward m p fresh held held' node now v s =
    give_up-Onward (record m { registry = decrement_active_tasks m.registry node.id }) p fresh held
      held' now v s

-- A dispatcher that goes on to another place holds the same task.
pub moved :
    (y : System) (p : ℕ) (pc pc' : Pc) (xs ys : List (ℕ × Pc))
    → y.held ≡ xs ++ (p, pc) ∷ ys
    → (q : ℕ)
    → occurs q (core y).queue + occurs q (pointers (xs ++ (p, pc') ∷ ys)) ≤ live (core y) q
moved y p pc pc' xs ys e q =
    rw e (omega (arith, occurs-split q p pc xs ys, occurs-split q p pc' xs ys))

pub deliver-Onward :
    (y : System) (p : ℕ) (node : NodeInfo) (now : Time) (xs ys : List (ℕ × Pc))
    → Inv (core y)
    → y.held ≡ xs ++ (p, selected node) ∷ ys
    → Onward (core y) (
        core_of
          (record y.master {
            scheduler =
                (mark_running y.master.scheduler (y.master.scheduler.heap p).id node.id now).0;
          })
          (pointers (xs ++ (p, calling node) ∷ ys))
          y.fresh)
deliver-Onward y p node now xs ys v e =
    let s = held-Splits y p (selected node) xs ys e in
    let o = Splits-Owned (core y) p (pointers (xs ++ ys)) v s in
    let t = y.master.scheduler.heap p in
    rw (mark_running_lem y.master.scheduler t.id node.id now p o.here) (
      work-Onward (core y) p (started node.id now t) (core y).queue
        (pointers (xs ++ (p, calling node) ∷ ys)) (busy (core y) p (pointers (xs ++ ys)) s)
        (moved y p (selected node) (calling node) xs ys e))

pub send-Onward :
    (y : System) (p : ℕ) (node : NodeInfo) (dials : Bool) (now : Time) (xs ys : List (ℕ × Pc))
    → Inv (core y)
    → y.held ≡ xs ++ (p, selected node) ∷ ys
    → Onward (core y) (
        core (
          after_send p node now xs ys
            (record y { master = (send y.master p node dials now).0 })
            (send y.master p node dials now).1))
unfolding send get_client
send-Onward y p node dials now xs ys v e = elim (Option-cases (Map.get y.master.clients node.id)) [
  | inr (address, known) ↦ rw known (deliver-Onward y p node now xs ys v e)
  | inl unknown ↦ elim (Bool-cases dials) [
    | inl up ↦ rw (unknown, up) (deliver-Onward y p node now xs ys v e)
    | inr down ↦
        rw (unknown, down)
          (give_up-Onward y.master p y.fresh (pointers y.held) (pointers (xs ++ ys)) now v
            (held-Splits y p (selected node) xs ys e))
  ]
]
