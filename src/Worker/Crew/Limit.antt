-- ===== src/Worker/Crew/Limit.antt =====
-- The bound on running tasks (internal/worker/runner.go).
use dist_command_exec.Prelude.{ℕ, ◌+◌, ◌≤◌, ◌<◌, ◌≡◌, ◌∙◌, String, false, arith, total}
use dist_command_exec.Prelude.Int.{ℤ, pos, half64}
use dist_command_exec.Worker.Runner.{TaskRunner, new_task_runner, at_capacity, active_count}
use dist_command_exec.Worker.Crew.{
  Call, after, Crew, new_crew, Move, moves, Step, admits, goes_on, Reach, here, later, entering_at,
  counted_at, entering, active, total-before, total-after,
}
use dist_command_exec.Worker.Crew.Count.{Counts, Reach-Counts, new_crew-Counts, effect-max_tasks}

-- At most k calls pass the check before they are counted.
abbrev pub Entering : ℕ → Crew → String → Type 0
Entering k y id = entering y < k

-- The bound with k calls between the check and the counter.
pub record Fits (max k : ℕ) (y : Crew) : Type 0 where
  pub limit : y.runner.max_tasks ≡ pos max
  pub room : active y + entering y + 1 ≤ max + k

after_no_more :
    (c : Call)
    → total (λ c. counted_at c.pc) (after c) + total (λ c. entering_at c.pc) (after c)
      ≤ counted_at c.pc + entering_at c.pc
unfolding after
after_no_more c = grind arith

Move-Fits : {max k : ℕ} {y z : Crew} → Fits max k y → Move y z → Fits max k z
Move-Fits {max} {k} {y} v (moves xs ys c e) = record {
  limit = effect-max_tasks c y.runner ∙ v.limit;
  room = omega (
    arith,
    v.room,
    after_no_more c,
    total-before (λ c. counted_at c.pc) y c xs ys e,
    total-before (λ c. entering_at c.pc) y c xs ys e,
    total-after (λ c. counted_at c.pc) c xs ys,
    total-after (λ c. entering_at c.pc) c xs ys,
  );
}

at_capacity_lem :
    (r : TaskRunner) (max n : ℕ)
    → r.max_tasks ≡ pos max
    → r.active_tasks ≡ pos n
    → at_capacity r ≡ false
    → n < max
unfolding at_capacity
at_capacity_lem r max n e f h = ground (arith, e, f, h)

fresh_le : {P : Crew → String → Type 0} {y z : Crew} → Step P y z → y.fresh ≤ z.fresh
fresh_le (admits id p free) = omega arith
fresh_le (goes_on (moves xs ys c e)) = omega arith

Reach-Fits :
    {max k : ℕ} {m : ℤ} {y z : Crew}
    → Counts m y
    → Fits max k y
    → Reach (Entering k) y z
    → z.fresh < half64
    → Fits max k z
Reach-Fits c v here small = v
Reach-Fits {y = y} c v (later {u} r s) small =
    let old = Reach-Fits c v r (omega (arith, small, fresh_le s)) in
    step old (Reach-Counts c r) (omega (arith, small, fresh_le s)) s
  where
    step :
        {max k : ℕ} {m : ℤ} {u z : Crew}
        → Fits max k u
        → Counts m u
        → u.fresh < half64
        → Step (Entering k) u z
        → Fits max k z
    step {max} {k} {m} {u} w n h (goes_on m') = Move-Fits w m'
    step {max} {k} {m} {u} w n h (admits id p free) = record {
      limit = w.limit;
      room = omega (arith, p, at_capacity_lem u.runner max (active u) w.limit (n.counts h) free);
    }

-- If no more than k calls at once are between the check of the limit and their count, a runner with
-- the limit max, at least 1, never shows more than max + k - 1 active tasks, while fewer than 2^63
-- calls have come: with k = 1 never more than its limit.
pub active_le_limit :
    (max k : ℕ) (y : Crew)
    → 0 < max
    → Reach (Entering k) (new_crew (pos max)) y
    → y.fresh < half64
    → active_count y.runner ≡ pos (active y) × (active y + 1 ≤ max + k)
unfolding active_count new_crew new_task_runner
active_le_limit max k y some_room r small =
    let v =
      Reach-Fits {max = max} {k = k} (new_crew-Counts (pos max))
        (record { limit = ground (arith, some_room); room = omega arith }) r small in
    ((Reach-Counts (new_crew-Counts (pos max)) r).counts small, omega (arith, v.room))
