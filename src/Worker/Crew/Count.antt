-- ===== src/Worker/Crew/Count.antt =====
-- The counters of the runner against the calls
-- (internal/worker/runner.go).
use dist_command_exec.Prelude.{
  ℕ, ◌+◌, ◌≤◌, ◌<◌, ◌≡◌, refl, ap, ◌∙◌, String, List, [], ◌∷◌, ◌++◌, arith, total, length,
  length-total,
}
use dist_command_exec.Prelude.Int.{ℤ, pos, int64, ◌+ℤ◌, ◌-ℤ◌, half64, int64_in_range, int_laws}
use dist_command_exec.Worker.Runner.{
  TaskRunner, new_task_runner, count, uncount, join, leave, track, untrack, active_count,
}
use dist_command_exec.Worker.Crew.{
  Pc, admitted, tracked, counted, executing, untracked, uncounted, Call, effect, after, Crew,
  new_crew, enter, Move, moves, Step, admits, goes_on, Reach, here, later, AnyTask, counted_at,
  joined_at, active, joined, total-before, total-after,
}

pub record Counts (max : ℤ) (y : Crew) : Type 0 where
  pub limit : y.runner.max_tasks ≡ max
  pub numbered : length y.calls ≤ y.fresh
  pub counts : y.fresh < half64 → y.runner.active_tasks ≡ pos (active y)
  pub joins : y.runner.in_flight ≡ joined y

active_le : (calls : List Call) → total (λ c. counted_at c.pc) calls ≤ length calls
active_le [] = omega arith
active_le (c ∷ calls) = grind (arith, active_le calls)

plus_one : (n : ℕ) → n + 1 < half64 → int64 (pos n +ℤ pos 1) ≡ pos (n + 1)
plus_one n h =
    let e : pos n +ℤ pos 1 ≡ pos (n + 1) = grind int_laws in
    rw e (int64_in_range (pos (n + 1)) (omega arith, omega arith))

minus_one : (n : ℕ) → n + 1 < half64 → int64 (pos (n + 1) -ℤ pos 1) ≡ pos n
minus_one n h =
    let e : pos (n + 1) -ℤ pos 1 ≡ pos n = grind int_laws in
    rw e (int64_in_range (pos n) (omega arith, omega arith))

-- The effect of one access on the counters.
effect-counts :
    (n : ℕ) (id : String) (pc : Pc) (r : TaskRunner) (others : ℕ)
    → others + 1 < half64
    → r.active_tasks ≡ pos (others + counted_at pc)
    → (effect (record { number = n; task = id; pc = pc }) r).active_tasks
      ≡ pos (
          others + total (λ c. counted_at c.pc) (after (record { number = n; task = id; pc = pc })))
unfolding effect after track count join untrack uncount leave
effect-counts n id tracked r others small e = ground (arith, e, plus_one others small)
effect-counts n id untracked r others small e = ground (arith, e, minus_one others small)
effect-counts n id admitted r others small e = ground (arith, e)
effect-counts n id counted r others small e = ground (arith, e)
effect-counts n id executing r others small e = ground (arith, e)
effect-counts n id uncounted r others small e = ground (arith, e)

effect-joins :
    (n : ℕ) (id : String) (pc : Pc) (r : TaskRunner) (others : ℕ)
    → r.in_flight ≡ others + joined_at pc
    → (effect (record { number = n; task = id; pc = pc }) r).in_flight
      ≡ others + total (λ c. joined_at c.pc) (after (record { number = n; task = id; pc = pc }))
unfolding effect after track count join untrack uncount leave
effect-joins n id pc r others e = grind arith

pub effect-max_tasks : (c : Call) (r : TaskRunner) → (effect c r).max_tasks ≡ r.max_tasks
unfolding effect track count join untrack uncount leave
effect-max_tasks c r = grind arith

pub length-after : (c : Call) → length (after c) ≤ 1
unfolding after
length-after c = grind arith

Move-Counts : {max : ℤ} {y z : Crew} → Counts max y → Move y z → Counts max z
Move-Counts {max} {y} v (moves xs ys c e) = record {
  limit = effect-max_tasks c y.runner ∙ v.limit;
  numbered = omega (
    arith,
    v.numbered,
    length-after c,
    length-total (after c),
    length-total y.calls,
    length-total (xs ++ (after c ++ ys)),
    total-before (λ c. 1) y c xs ys e,
    total-after (λ c. 1) c xs ys,
  );
  counts = λ small. rw (total-after (λ c. counted_at c.pc) c xs ys) (
      effect-counts c.number c.task c.pc y.runner (total (λ c. counted_at c.pc) (xs ++ ys))
        (omega (
          arith,
          small,
          v.numbered,
          active_le (xs ++ ys),
          length-total y.calls,
          length-total (xs ++ ys),
          total-before (λ c. 1) y c xs ys e,
        ))
        (v.counts small ∙ ap pos (total-before (λ c. counted_at c.pc) y c xs ys e)));
  joins = rw (total-after (λ c. joined_at c.pc) c xs ys) (
      effect-joins c.number c.task c.pc y.runner (total (λ c. joined_at c.pc) (xs ++ ys))
        (v.joins ∙ total-before (λ c. joined_at c.pc) y c xs ys e));
}

enter-Counts : {max : ℤ} {y : Crew} → Counts max y → (id : String) → Counts max (enter y id)
enter-Counts v id = record {
  limit = v.limit;
  numbered = omega (arith, v.numbered);
  counts = λ small. ground (arith, v.counts);
  joins = ground (arith, v.joins);
}

Step-Counts :
    {max : ℤ} {P : Crew → String → Type 0} {y z : Crew} → Counts max y → Step P y z → Counts max z
Step-Counts v (admits id p free) = enter-Counts v id
Step-Counts v (goes_on m) = Move-Counts v m

-- NewTaskRunner's limit.
abbrev pub limit_of : ℤ → ℤ
limit_of max = (new_task_runner max).max_tasks

pub new_crew-Counts : (max : ℤ) → Counts (limit_of max) (new_crew max)
unfolding new_crew new_task_runner
new_crew-Counts max = record {
  limit = refl;
  numbered = omega arith;
  counts = λ small. refl;
  joins = refl;
}

pub Reach-Counts :
    {max : ℤ} {P : Crew → String → Type 0} {y z : Crew} → Counts max y → Reach P y z → Counts max z
Reach-Counts v here = v
Reach-Counts v (later r s) = Step-Counts (Reach-Counts v r) s

-- While fewer than 2^63 calls have come, a runner in use shows as active exactly the calls that are
-- counted, and its wait group holds exactly the calls that have joined it.
pub active_count_lem :
    (max : ℤ) (y : Crew)
    → Reach AnyTask (new_crew max) y
    → y.fresh < half64
    → (active_count y.runner ≡ pos (active y)) × (y.runner.in_flight ≡ joined y)
unfolding active_count
active_count_lem max y r small =
    let v = Reach-Counts (new_crew-Counts max) r in (v.counts small, v.joins)
