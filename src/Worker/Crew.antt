-- ===== src/Worker/Crew.antt =====
-- The calls of Run (internal/worker/runner.go) that a worker serves at once: every interleaving of
-- their accesses to the runner. A call that is refused leaves the runner alone and is not followed.
pub mod Count
pub mod Limit
pub mod Overrun
pub mod Drain
pub mod Cancel
use dist_command_exec.Prelude.{
  ℕ, suc, ◌+◌, ◌≤◌, ◌<◌, ◌≡◌, refl, ap, ◌∙◌, sym, String, str_eq, Bool, true, false, Option, none,
  some, List, [], ◌∷◌, ◌++◌, arith, ◌==◌, if◌then◌else◌, total, total-append, length,
}
use dist_command_exec.Prelude.Int.{ℤ, pos}
use dist_command_exec.Prelude.Map
use dist_command_exec.Worker.Runner.{
  TaskRunner, new_task_runner, at_capacity, track, count, join, untrack, uncount, leave,
}

-- Where a call stands: past the check, and then past each access.
pub data Pc : Type 0 where
  admitted tracked counted executing untracked uncounted : Pc

pub record Call : Type 0 where
  pub number : ℕ
  pub task : String
  pub pc : Pc

-- The next access of a call. That of an executing call is the one after its executor has returned.
effect_at : ℕ → String → Pc → TaskRunner → TaskRunner
effect_at n id admitted r = track r id n
effect_at n id tracked r = count r
effect_at n id counted r = join r
effect_at n id executing r = untrack r id
effect_at n id untracked r = uncount r
effect_at n id uncounted r = leave r

unfoldable pub effect : Call → TaskRunner → TaskRunner
unfolding effect_at
effect c r = effect_at c.number c.task c.pc r

-- The call afterwards, if it has not returned.
after_at : ℕ → String → Pc → List Call
after_at n id admitted = record { number = n; task = id; pc = tracked } ∷ []
after_at n id tracked = record { number = n; task = id; pc = counted } ∷ []
after_at n id counted = record { number = n; task = id; pc = executing } ∷ []
after_at n id executing = record { number = n; task = id; pc = untracked } ∷ []
after_at n id untracked = record { number = n; task = id; pc = uncounted } ∷ []
after_at n id uncounted = []

unfoldable pub after : Call → List Call
unfolding after_at
after c = after_at c.number c.task c.pc

-- `fresh` is the number of the next call.
pub record Crew : Type 0 where
  pub runner : TaskRunner
  pub calls : List Call
  pub fresh : ℕ

unfoldable pub new_crew : ℤ → Crew
new_crew max_concurrent_tasks = record {
  runner = new_task_runner max_concurrent_tasks;
  calls = [];
  fresh = 0;
}

abbrev pub enter : Crew → String → Crew
enter y id = record y {
  calls = record { number = y.fresh; task = id; pc = admitted } ∷ y.calls;
  fresh = suc y.fresh;
}

-- One of the calls makes its next access.
pub data Move (y : Crew) : Crew → Type 0 where
  moves :
      (xs ys : List Call) (c : Call)
      → y.calls ≡ xs ++ c ∷ ys
      → Move y (record y { runner = effect c y.runner; calls = xs ++ (after c ++ ys) })

-- Or a new call passes the check. `P` says which tasks come.
pub data Step (P : Crew → String → Type 0) (y : Crew) : Crew → Type 0 where
  admits : (id : String) → P y id → at_capacity y.runner ≡ false → Step P y (enter y id)
  goes_on : {z : Crew} → Move y z → Step P y z

pub data Reach (P : Crew → String → Type 0) (y : Crew) : Crew → Type 0 where
  here : Reach P y y
  later : {u v : Crew} → Reach P y u → Step P u v → Reach P y v

-- Any task.
abbrev pub AnyTask : Crew → String → Type 0
AnyTask y id = Unit

-- The calls of a kind.
abbrev pub entering_at : Pc → ℕ
entering_at admitted = 1
entering_at tracked = 1
entering_at _ = 0

abbrev pub counted_at : Pc → ℕ
counted_at counted = 1
counted_at executing = 1
counted_at untracked = 1
counted_at _ = 0

abbrev pub joined_at : Pc → ℕ
joined_at executing = 1
joined_at untracked = 1
joined_at uncounted = 1
joined_at _ = 0

-- Past the check, but not yet counted.
abbrev pub entering : Crew → ℕ
entering y = total (λ c. entering_at c.pc) y.calls

-- Counted as active.
abbrev pub active : Crew → ℕ
active y = total (λ c. counted_at c.pc) y.calls

-- In the wait group.
abbrev pub joined : Crew → ℕ
joined y = total (λ c. joined_at c.pc) y.calls

-- The accesses that a call still makes.
abbrev pub rest_at : Pc → ℕ
rest_at admitted = 6
rest_at tracked = 5
rest_at counted = 4
rest_at executing = 3
rest_at untracked = 2
rest_at uncounted = 1

abbrev pub work : Crew → ℕ
work y = total (λ c. rest_at c.pc) y.calls

-- A sum over the calls, before and after one of them goes on.
pub total-before :
    (w : Call → ℕ) (y : Crew) (c : Call) (xs ys : List Call)
    → y.calls ≡ xs ++ c ∷ ys
    → total w y.calls ≡ total w (xs ++ ys) + w c
total-before w y c xs ys e = rw e (omega (arith, total-append w xs (c ∷ ys), total-append w xs ys))

pub total-after :
    (w : Call → ℕ) (c : Call) (xs ys : List Call)
    → total w (xs ++ (after c ++ ys)) ≡ total w (xs ++ ys) + total w (after c)
total-after w c xs ys =
    omega
      (arith, total-append w xs (after c ++ ys), total-append w (after c) ys, total-append w xs ys)
