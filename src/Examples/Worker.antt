-- ===== src/Examples/Worker.antt =====
-- Workers with calls that interleave, and commands that run on them.
use dist_command_exec.Prelude.{
  ◌+◌, ◌≡◌, ◌≤◌, ◌<◌, ◌↔◌, arith, refl, String, true, some, [], ◌∷◌, total,
}
use dist_command_exec.Prelude.Int.{pos}
use dist_command_exec.Prelude.Map
use dist_command_exec.Worker.Runner.{
  new_task_runner, at_capacity, track, active_count, drained, cancel_task,
}
use dist_command_exec.Worker.Crew.{
  effect, after, Crew, new_crew, Reach, here, later, admits, goes_on, moves, AnyTask, joined, work,
  admitted, tracked, enter, Move,
}
use dist_command_exec.Worker.Crew.Count.{active_count_lem}
use dist_command_exec.Worker.Crew.Limit.{active_le_limit, Entering}
use dist_command_exec.Worker.Crew.Overrun.{overrun}
use dist_command_exec.Worker.Crew.Drain.{drain_lem, Moves, done}
use dist_command_exec.Worker.Crew.Cancel.{cancel_task_lem, cancellable, NewTask}

abbrev one_call : Crew
one_call = enter (new_crew (pos 1)) "job1"

-- The call has stored its cancel function.
abbrev one_tracked : Crew
one_tracked = record {
  runner = record {
    max_tasks = pos 1;
    active_tasks = pos 0;
    running = Map.put Map.empty "job1" 0;
    in_flight = 0;
  };
  calls = record { number = 0; task = "job1"; pc = tracked } ∷ [];
  fresh = 1;
}

entered :
    {P : Crew → String → Type 0}
    → P (new_crew (pos 1)) "job1"
    → Reach P (new_crew (pos 1)) one_tracked
unfolding new_crew new_task_runner Map.empty at_capacity effect after track
entered p =
    later (later here (admits "job1" p refl))
      (goes_on (moves [] [] (record { number = 0; task = "job1"; pc = admitted }) refl))

nobody_enters : Entering 1 (new_crew (pos 1)) "job1"
unfolding new_crew
nobody_enters = omega arith

no_calls : NewTask (new_crew (pos 1)) "job1"
unfolding new_crew
no_calls = refl

active_count_lem_example :
    (active_count one_tracked.runner ≡ pos 0) × (one_tracked.runner.in_flight ≡ joined one_tracked)
active_count_lem_example =
    active_count_lem (pos 1) one_tracked (entered {P = AnyTask} tt) (omega arith)

active_le_limit_example : (active_count one_tracked.runner ≡ pos 0) × (1 ≤ 1 + 1)
active_le_limit_example =
    active_le_limit 1 1 one_tracked (omega arith) (entered {P = Entering 1} nobody_enters)
      (omega arith)

overrun_example : (y : Crew) × Reach AnyTask (new_crew (pos 1)) y × (active_count y.runner ≡ pos 3)
overrun_example = overrun 1 3 (omega arith) (omega arith)

drain_lem_example :
    (1 ≤ 6)
    × (1 < work one_call → (u : Crew) × Move one_tracked u)
    × (1 ≡ work one_call
        → (one_tracked.calls ≡ [])
          × (drained one_tracked.runner ≡ true)
          × (active_count one_tracked.runner ≡ pos 0))
unfolding new_crew new_task_runner Map.empty at_capacity effect after track
drain_lem_example =
    drain_lem (pos 1) one_call one_tracked 1 (later here (admits "job1" tt refl)) (omega arith)
      (Moves.then done (moves [] [] (record { number = 0; task = "job1"; pc = admitted }) refl))

cancel_task_lem_example :
    (cancel_task one_tracked.runner "job1" ≡ (true, some 0))
    ↔ (0 < total (cancellable "job1" 0) one_tracked.calls)
cancel_task_lem_example =
    cancel_task_lem (pos 1) one_tracked "job1" (entered {P = NewTask} no_calls) 0
