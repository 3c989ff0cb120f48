-- ===== src/Worker/Process/Ending.antt =====
-- The end of a worker (internal/worker/server.go) in the master's registry and for its calls.
use dist_command_exec.Prelude.{
  ℕ, ◌≡◌, ◌≢◌, ◌<◌, refl, ◌∙◌, String, true, false, some, none, List, [], ◌∷◌, occurs, arith,
}
use dist_command_exec.Prelude.Map
use dist_command_exec.Prelude.Map.{Visits}
use dist_command_exec.Master.State.{Master}
use dist_command_exec.Worker.Registration.{up}
use dist_command_exec.Worker.Registration.Leaving.{shutdown_lem}
use dist_command_exec.Worker.Runner.{TaskRunner, cancel_all}
use dist_command_exec.Worker.Process.{Process, timed_out, shut_down, wait_for_drain}

found-cancel_all :
    (visited : List (String × ℕ)) (id : String) (call : ℕ)
    → Map.find id visited ≡ some call
    → 0 < occurs call (cancel_all visited)
unfolding cancel_all
found-cancel_all [] id call h = absurd (ground (arith, h))
found-cancel_all ((j, k) ∷ rest) id call h = ground (arith, h, found-cancel_all rest id call)

-- Shutdown of a registered worker with a client, under an ID that is not empty, where the
-- deregistration reaches the master, no turn of the heartbeat loop is under way, and the time of
-- the drain is over: the master has no node under its ID, the worker is not registered and takes no
-- calls, and every call that the runner's table has by then, in any order of the range, is
-- cancelled.
pub shut_down_lem :
    {W : Type 0} (w : Process W) (m : Master) (runner : TaskRunner) (visited : List (String × ℕ))
    (order : Visits runner.running visited)
    → w.registration.worker_id ≢ ""
    → w.registration.client ≡ true
    → w.registration.registered ≡ true
    → let (w', m', ended) = shut_down w up (timed_out runner visited order) m in
      (Map.get m'.registry.nodes w.registration.worker_id ≡ none)
      × (w'.registration.registered ≡ false)
      × (w'.accepting ≡ false)
      × ((id : String) (call : ℕ) → Map.get runner.running id ≡ some call → 0 < occurs call ended)
unfolding shut_down wait_for_drain Map.get
shut_down_lem w m runner visited order named connected listed =
    let (gone, left) = shutdown_lem w.registration m named connected listed in
    (gone, left, refl, λ id call there. found-cancel_all visited id call (order.same id ∙ there))
