-- ===== src/Worker/Crew/Cancel.antt =====
-- Which calls CancelTask (internal/worker/runner.go) finds.
use dist_command_exec.Prelude.{
  ◌↔◌, ℕ, ◌+◌, ◌≤◌, ◌<◌, ◌≡◌, refl, ap, String, str_eq, eq_iff, true, false, Bool, ◌&&◌, some, List,
  [], ◌∷◌, ◌++◌, arith, ◌==◌, if◌then◌else◌, total,
}
use dist_command_exec.Prelude.Int.{ℤ}
use dist_command_exec.Prelude.Map
use dist_command_exec.Prelude.Map.{get-put, get-delete, get-empty}
use dist_command_exec.Worker.Runner.{
  TaskRunner, new_task_runner, track, count, join, untrack, uncount, leave, cancel_task,
}
use dist_command_exec.Worker.Crew.{
  Pc, admitted, tracked, counted, executing, untracked, uncounted, Call, effect, after, Crew,
  new_crew, enter, Move, moves, admits, goes_on, Reach, here, later, total-before, total-after,
}

abbrev pub tracked_at : Pc → Bool
tracked_at tracked = true
tracked_at counted = true
tracked_at executing = true
tracked_at _ = false

-- The weight of a call for a task, and of one with a number whose cancel function is in the table.
abbrev pub for_task : String → Call → ℕ
for_task id c = if str_eq c.task id then 1 else 0

abbrev pub cancellable : String → ℕ → Call → ℕ
cancellable id n c = if str_eq c.task id && (c.number == n) && tracked_at c.pc then 1 else 0

-- A task comes that no call has.
abbrev pub NewTask : Crew → String → Type 0
NewTask y id = total (for_task id) y.calls ≡ 0

pub record Table (y : Crew) : Type 0 where
  pub single : (id : String) → total (for_task id) y.calls ≤ 1
  pub stored :
      (id : String) (n : ℕ)
      → Map.get y.runner.running id ≡ some n
      → 0 < total (cancellable id n) y.calls
  pub listed :
      (id : String) (n : ℕ)
      → 0 < total (cancellable id n) y.calls
      → Map.get y.runner.running id ≡ some n

for_task-after : (id : String) (c : Call) → total (for_task id) (after c) ≤ for_task id c
unfolding after
for_task-after id c = grind arith

cancellable_le :
    (id : String) (n : ℕ) (calls : List Call)
    → total (cancellable id n) calls ≤ total (for_task id) calls
cancellable_le id n [] = omega arith
cancellable_le id n (c ∷ calls) = ground (arith, cancellable_le id n calls)

-- One access on the table, when no other call has the task.
effect-table :
    (m : ℕ) (id' : String) (pc : Pc) (r : TaskRunner) (id : String) (n others : ℕ)
    → (str_eq id' id ≡ true → others ≡ 0)
    → (Map.get r.running id ≡ some n
        → 0 < others + cancellable id n (record { number = m; task = id'; pc = pc }))
    → (0 < others + cancellable id n (record { number = m; task = id'; pc = pc })
        → Map.get r.running id ≡ some n)
    → (Map.get (effect (record { number = m; task = id'; pc = pc }) r).running id ≡ some n
        → 0
          < others + total (cancellable id n) (after (record { number = m; task = id'; pc = pc })))
      × (0 < others + total (cancellable id n) (after (record { number = m; task = id'; pc = pc }))
          → Map.get (effect (record { number = m; task = id'; pc = pc }) r).running id ≡ some n)
unfolding effect after track count join untrack uncount leave
effect-table m id' admitted r id n others alone to from =
    ground (arith, alone, to, from, get-put r.running id' id m)
effect-table m id' executing r id n others alone to from =
    ground (arith, alone, to, from, get-delete r.running id' id)
effect-table m id' tracked r id n others alone to from = ground (arith, alone, to, from)
effect-table m id' counted r id n others alone to from = ground (arith, alone, to, from)
effect-table m id' untracked r id n others alone to from = ground (arith, alone, to, from)
effect-table m id' uncounted r id n others alone to from = ground (arith, alone, to, from)

Move-Table : {y z : Crew} → Table y → Move y z → Table z
Move-Table {y} v (moves xs ys c e) = record {
  single = λ id. omega (
    arith,
    v.single id,
    for_task-after id c,
    total-before (for_task id) y c xs ys e,
    total-after (for_task id) c xs ys,
  );
  stored = λ id n h. omega (arith, (turn id n).0 h, total-after (cancellable id n) c xs ys);
  listed = λ id n h. (turn id n).1 (omega (arith, h, total-after (cancellable id n) c xs ys));
}
  where
    others : String → ℕ → ℕ
    others id n = total (cancellable id n) (xs ++ ys)

    alone : (id : String) (n : ℕ) → str_eq c.task id ≡ true → others id n ≡ 0
    alone id n h = ground (
      arith,
      h,
      v.single id,
      total-before (for_task id) y c xs ys e,
      cancellable_le id n (xs ++ ys),
    )

    turn :
        (id : String) (n : ℕ)
        → (Map.get (effect c y.runner).running id ≡ some n
            → 0 < others id n + total (cancellable id n) (after c))
          × (0 < others id n + total (cancellable id n) (after c)
              → Map.get (effect c y.runner).running id ≡ some n)
    turn id n =
        effect-table c.number c.task c.pc y.runner id n (others id n) (alone id n)
          (λ h. omega (arith, v.stored id n h, total-before (cancellable id n) y c xs ys e))
          (λ h. v.listed id n (omega (arith, h, total-before (cancellable id n) y c xs ys e)))

enter-Table : {y : Crew} → Table y → (id : String) → NewTask y id → Table (enter y id)
enter-Table v id new = record {
  single = λ j. ground (arith, v.single j, new, eq_iff id j);
  stored = λ j n h. ground (arith, v.stored j n h);
  listed = λ j n h. v.listed j n (ground (arith, h));
}

Reach-Table : {y z : Crew} → Table y → Reach NewTask y z → Table z
Reach-Table v here = v
Reach-Table v (later r (goes_on m)) = Move-Table (Reach-Table v r) m
Reach-Table v (later r (admits id new free)) = enter-Table (Reach-Table v r) id new

new_crew-Table : (max : ℤ) → Table (new_crew max)
unfolding new_crew new_task_runner
new_crew-Table max = record {
  single = λ id. omega arith;
  stored = λ id n h. absurd (ground (arith, h, get-empty {V = ℕ} id));
  listed = λ id n h. absurd (omega (arith, h));
}

-- When no task comes while a call has the same one, CancelTask finds a task, with the cancel
-- function of a call, exactly when that call is for the task, has stored its cancel function and
-- has not yet removed it.
pub cancel_task_lem :
    (max : ℤ) (y : Crew) (id : String)
    → Reach NewTask (new_crew max) y
    → (n : ℕ) → (cancel_task y.runner id ≡ (true, some n)) ↔ (0 < total (cancellable id n) y.calls)
unfolding cancel_task
cancel_task_lem max y id r n =
    let v = Reach-Table (new_crew-Table max) r in
    (λ h. v.stored id n (ap (λ p. p.1) h), λ h. rw (v.listed id n h) refl)
