-- ===== src/Worker/Process.antt =====
-- NewServer and Shutdown of internal/worker/server.go, with WaitForDrain of
-- internal/worker/runner.go. The gRPC server is represented by whether it takes calls, and the
-- health service by whether it reports SERVING. That the wait group empties is the subject of
-- Worker/Crew.
pub mod Ending
use dist_command_exec.Prelude.{
  ℕ, String, Bool, true, false, Option, none, some, List, [], ◌∷◌, if◌then◌else◌,
}
use dist_command_exec.Prelude.Map.{Map, Visits}
use dist_command_exec.Types.{Time}
use dist_command_exec.Executor.{Executor}
use dist_command_exec.Executor.Registry.{capabilities}
use dist_command_exec.Master.State.{Master}
use dist_command_exec.Worker.Runner.{TaskRunner, cancel_all}
use dist_command_exec.Worker.Server.{Server, WorkerConfig, new_server}
use dist_command_exec.Worker.Registration.{
  Registration, Link, Turn, new_registration, registration_of, serve, shutdown,
}

pub record Process (W : Type 0) : Type 0 where
  pub server : Server W
  pub registration : Registration
  pub serving : Bool
  pub accepting : Bool

-- NewServer; `visited` is the order in which the `range` of Capabilities yields the executors.
unfoldable pub new_process :
    {W : Type 0} → WorkerConfig → Map (Executor W) → List (String × Executor W) → Process W
new_process cfg executors visited = record {
  server = new_server cfg executors;
  registration = new_registration (registration_of cfg (capabilities visited));
  serving = true;
  accepting = false;
}

-- How the wait of WaitForDrain ends: all calls have left, or the context is done first, and then
-- the table of cancel functions, as the runner has it by then, is what `range` yields.
pub data Drain : Type 0 where
  natural : Drain
  timed_out :
      (runner : TaskRunner) (visited : List (String × ℕ)) → Visits runner.running visited → Drain

-- WaitForDrain: the calls that it cancels.
unfoldable pub wait_for_drain : Drain → List ℕ
wait_for_drain natural = []
wait_for_drain (timed_out runner visited order) = cancel_all visited

-- Shutdown, with the calls that it cancels, where the heartbeat loop is not in the middle of a
-- turn. At its end Close closes the connection to the master, if there is one (`close` of
-- Worker/Registration).
unfoldable pub shut_down :
    {W : Type 0} → Process W → Link → Drain → Master → Process W × Master × List ℕ
shut_down w link drain m =
    let (r, m') = shutdown w.registration link m in
    (record w { registration = r; serving = false; accepting = false }, m', wait_for_drain drain)
