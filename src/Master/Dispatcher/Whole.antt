-- ===== src/Master/Dispatcher/Whole.antt =====
-- A dispatch from the selection of a node to its end, and the client pool.
use dist_command_exec.Prelude.{
  ℕ, ◌≡◌, ◌∙◌, ap, subst, ◌<◌, refl, String, true, some, List, [], ◌∷◌, arith, length, Option-cases,
  inl, inr, eq_refl,
}
use dist_command_exec.Prelude.Map
use dist_command_exec.Types.{Task, Time, Result, completed}
use dist_command_exec.Master.Store.{Job, get_job, outcome}
use dist_command_exec.Master.Store.Lookup.{get-save_result}
use dist_command_exec.Master.Scheduler.{write, started, finished, get_task}
use dist_command_exec.Master.Scheduler.Marks.{mark_running_lem, mark_complete_lem}
use dist_command_exec.Master.Registry.{
  NodeInfo, get_healthy_nodes, increment_active_tasks, decrement_active_tasks,
}
use dist_command_exec.Master.Balancer.RoundRobin.{select_round_robin_total}
use dist_command_exec.Master.Scaler.{Api}
use dist_command_exec.Master.State.{Master}
use dist_command_exec.Master.Dispatcher.{
  ExecuteResponse, select_node, request, chosen, choose, send, get_client, complete, result_of,
  dispatch_task,
}
use dist_command_exec.Master.Dispatcher.Outcomes.{IsKnown}
use dist_command_exec.Master.Server.Cancelling.{
  Carries, result_of-Carries, verdict, outcome-result_of,
}

select_node-chosen :
    (nodes : List NodeInfo) (counter : ℕ)
    → 0 < length nodes
    → (node : NodeInfo) × ((select_node nodes counter).1 ≡ chosen node)
unfolding select_node
select_node-chosen [] counter h = absurd (omega arith)
select_node-chosen (n ∷ ns) counter h =
    let (node, at, _) = select_round_robin_total counter (n ∷ ns) h in
    (node, rw (at, select_node) refl)

-- With a healthy node there is a choice.
choose-chosen :
    (m : Master) (now : Time) (api : Api) (seen : List NodeInfo)
    (visited : List (String × NodeInfo))
    → 0 < length (get_healthy_nodes visited)
    → (node : NodeInfo) × ((choose m now api seen visited).1 ≡ chosen node)
unfolding choose
choose-chosen m now api seen visited some_node =
    select_node-chosen (get_healthy_nodes visited) m.counter some_node

choose_keeps :
    (m : Master) (now : Time) (api : Api) (seen : List NodeInfo)
    (visited : List (String × NodeInfo))
    → ((choose m now api seen visited).0.store ≡ m.store)
      × ((choose m now api seen visited).0.scheduler ≡ m.scheduler)
      × ((choose m now api seen visited).0.registry ≡ m.registry)
unfolding choose
choose_keeps m now api seen visited = (refl, refl, refl)

-- With a client, or one that can be made, the request goes out.
send-delivered :
    (m : Master) (p : ℕ) (node : NodeInfo) (now : Time)
    → get_task m.scheduler (m.scheduler.heap p).id ≡ some p
    → (address : String) × ((send m p node true now).1
        ≡ some (address, request (m.scheduler.heap p)))
      × ((send m p node true now).0.store ≡ m.store)
      × ((send m p node true now).0.scheduler
          ≡ write m.scheduler p (started node.id now (m.scheduler.heap p)))
      × ((send m p node true now).0.registry ≡ increment_active_tasks m.registry node.id)
unfolding send get_client get_task
send-delivered m p node now known =
    let marked = mark_running_lem m.scheduler (m.scheduler.heap p).id node.id now p known in
    elim (Option-cases (Map.get m.clients node.id)) [
      | inr (address, pooled) ↦
          (address, rw pooled refl, rw pooled refl, rw (pooled, marked) refl, rw pooled refl)
      | inl unpooled ↦ (
        node.address,
        rw unpooled refl,
        rw unpooled refl,
        rw (unpooled, marked) refl,
        rw unpooled refl,
      )
    ]

-- The end of a dispatch after a reply.
complete_lem :
    (m : Master) (p : ℕ) (node : NodeInfo) (resp : ExecuteResponse) (now : Time) (job : Job)
    → IsKnown m p job
    → let m' = complete m p node resp now in
      let r = result_of (m.scheduler.heap p) node resp now in
      (get_job m'.store (m.scheduler.heap p).id
        ≡ some (record job { result = some r; status = outcome r }))
      × (m'.scheduler.heap p ≡ finished completed now (m.scheduler.heap p))
      × (m'.scheduler.queue ≡ m.scheduler.queue)
      × (m'.registry ≡ decrement_active_tasks m.registry node.id)
unfolding complete get_job get_task
complete_lem m p node resp now job (known, there) =
    let t = m.scheduler.heap p in
    let marked = mark_complete_lem m.scheduler t.id now p known in
    let r = result_of t node resp now in
    (
      rw (get-save_result m.store r t.id job there, eq_refl t.id) refl,
      rw marked (ground arith),
      rw marked refl,
      refl,
    )

abbrev HasResult : Master → NodeInfo → ExecuteResponse → Time → Job → Task → Type 0
HasResult m node resp now job t =
    get_job m.store t.id
    ≡ some (record job {
      result = some (result_of t node resp now);
      status = outcome (result_of t node resp now);
    })

-- A dispatch of a known task with a healthy node, a client or one that can be made, and a worker
-- that replies: the job gets a result with the output, error and exit code of the reply, under the
-- ID of the task and of the node, and is COMPLETED if the reply says success and FAILED if it says
-- anything else; the task is completed either way, with the times of its start and end and the
-- node, the queue is as before, and the count of the node is raised and lowered once.
pub dispatch_task_lem :
    (m : Master) (p : ℕ) (now later : Time) (api : Api) (seen : List NodeInfo)
    (visited : List (String × NodeInfo)) (resp : ExecuteResponse) (job : Job)
    → IsKnown m p job
    → 0 < length (get_healthy_nodes visited)
    → let m' = dispatch_task m p now later api seen visited true (some resp) in
      (node : NodeInfo) × (r : Result) × Carries r (m.scheduler.heap p) node resp later
      × (get_job m'.store (m.scheduler.heap p).id
          ≡ some (record job { result = some r; status = verdict resp.status }))
      × (m'.scheduler.heap p ≡ record (m.scheduler.heap p) {
        status = completed;
        started_at = some now;
        completed_at = some later;
        worker_id = node.id;
      })
      × (m'.scheduler.queue ≡ m.scheduler.queue)
      × (m'.registry ≡ decrement_active_tasks (increment_active_tasks m.registry node.id) node.id)
unfolding dispatch_task result_of get_task
dispatch_task_lem m p now later api seen visited resp job (known, there) some_node =
    let (node, picked) = choose-chosen m now api seen visited some_node in
    let (store1, scheduler1, registry1) = choose_keeps m now api seen visited in
    let m1 = (choose m now api seen visited).0 in
    let (address, sent, store2, scheduler2, registry2) =
      send-delivered m1 p node now (rw scheduler1 known) in
    let m2 = (send m1 p node true now).0 in
    let same : dispatch_task m p now later api seen visited true (some resp)
        ≡ complete m2 p node resp later =
      rw (picked, sent) refl in
    let task : m2.scheduler.heap p ≡ started node.id now (m.scheduler.heap p) =
      rw (scheduler2, scheduler1) (ground arith) in
    let known2 : IsKnown m2 p job =
      rw (task, scheduler2, scheduler1, store2, store1) (known, there) in
    let (saved, done, queue, counted) = complete_lem m2 p node resp later job known2 in
    let r = result_of (m.scheduler.heap p) node resp later in
    let saved' : HasResult (complete m2 p node resp later) node resp later job
        (m.scheduler.heap p) =
      subst (HasResult (complete m2 p node resp later) node resp later job) task saved in
    (
      node,
      r,
      result_of-Carries (m.scheduler.heap p) node resp later,
      rw (← outcome-result_of (m.scheduler.heap p) node resp later, same) saved',
      rw same (done ∙ ap (finished completed later) task),
      rw same (queue ∙ rw (scheduler2, scheduler1) refl),
      rw same (
          counted
          ∙ ap (λ r. decrement_active_tasks r node.id)
              (registry2 ∙ ap (λ r. increment_active_tasks r node.id) registry1)),
    )
