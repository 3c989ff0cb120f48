-- ===== src/Worker/Crew/Drain.antt =====
-- The calls of a worker run out (WaitForDrain of internal/worker/runner.go) when no new one comes.
-- That an executor returns is what a context with a timeout is for.
use dist_command_exec.Prelude.{
  ℕ, suc, ◌+◌, ◌*◌, ◌≤◌, ◌<◌, ◌≡◌, refl, ap, ◌∙◌, true, List, [], ◌∷◌, arith, total, length,
}
use dist_command_exec.Prelude.Int.{ℤ, pos, half64}
use dist_command_exec.Worker.Runner.{active_count, drained}
use dist_command_exec.Worker.Crew.{
  Call, after, Crew, new_crew, Move, moves, goes_on, Reach, later, AnyTask, rest_at, counted_at,
  joined_at, work, total-before, total-after,
}
use dist_command_exec.Worker.Crew.Count.{active_count_lem}

-- n accesses of the calls that are there.
pub data Moves : ℕ → Crew → Crew → Type 0 where
  done : {y : Crew} → Moves 0 y y
  then : {n : ℕ} {y u z : Crew} → Moves n y u → Move u z → Moves (suc n) y z

after-work : (c : Call) → total (λ c. rest_at c.pc) (after c) + 1 ≡ rest_at c.pc
unfolding after
after-work c = grind arith

Move-work : {y z : Crew} → Move y z → work z + 1 ≡ work y
Move-work {y} (moves xs ys c e) = omega (
  arith,
  total-before (λ c. rest_at c.pc) y c xs ys e,
  total-after (λ c. rest_at c.pc) c xs ys,
  after-work c,
)

Moves-work : {n : ℕ} {y z : Crew} → Moves n y z → work z + n ≡ work y
Moves-work done = omega arith
Moves-work (then ms m) = omega (arith, Moves-work ms, Move-work m)

Moves-Reach : {n : ℕ} {s y z : Crew} → Reach AnyTask s y → Moves n y z → Reach AnyTask s z
Moves-Reach r done = r
Moves-Reach r (then ms m) = later (Moves-Reach r ms) (goes_on m)

work_le : (calls : List Call) → total (λ c. rest_at c.pc) calls ≤ 6 * length calls
work_le [] = omega arith
work_le (c ∷ calls) = grind (arith, work_le calls)

-- A call can go on, and a worker without calls has no work.
goes : (y : Crew) → 0 < work y → (z : Crew) × Move y z
goes y h = pick y.calls refl
  where
    no_work : 0 < work y → y.calls ≡ [] → ⊥
    no_work h e = omega (arith, h, ap (total (λ c. rest_at c.pc)) e)

    pick : (calls : List Call) → y.calls ≡ calls → (z : Crew) × Move y z
    pick [] e = absurd (no_work h (rw e refl))
    pick (c ∷ calls) e = (_, moves [] calls c e)

idle : (calls : List Call) → total (λ c. rest_at c.pc) calls ≡ 0 → calls ≡ []
idle [] h = refl
idle (c ∷ calls) h = absurd (grind (arith, h))

Moves-fresh : {n : ℕ} {y z : Crew} → Moves n y z → z.fresh ≡ y.fresh
Moves-fresh done = refl
Moves-fresh (then ms (moves xs ys c e)) = Moves-fresh ms

rested :
    (max : ℤ) (z : Crew)
    → Reach AnyTask (new_crew max) z
    → z.fresh < half64
    → work z ≡ 0
    → (z.calls ≡ []) × (drained z.runner ≡ true) × (active_count z.runner ≡ pos 0)
unfolding drained
rested max z r small h =
    let e = idle z.calls h in
    let (shown, joins) = active_count_lem max z r small in
    (
      e,
      ground (arith, joins, ap (total (λ c. joined_at c.pc)) e),
      shown ∙ ap pos (ap (total (λ c. counted_at c.pc)) e),
    )

-- From any state that a worker reaches, when no new call comes: its calls make at most six accesses
-- each, in whatever order; while fewer than the outstanding ones are made, some call can go on;
-- when all are made, no call is left, the wait group is empty and no task shows as active, if fewer
-- than 2^63 calls have come.
pub drain_lem :
    (max : ℤ) (y z : Crew) (n : ℕ)
    → Reach AnyTask (new_crew max) y
    → y.fresh < half64
    → Moves n y z
    → (n ≤ 6 * length y.calls)
      × (n < work y → (u : Crew) × Move z u)
      × (n ≡ work y → (z.calls ≡ []) × (drained z.runner ≡ true) × (active_count z.runner ≡ pos 0))
drain_lem max y z n r small ms = (
  omega (arith, Moves-work ms, work_le y.calls),
  λ less. goes z (omega (arith, Moves-work ms)),
  λ all.
      rested max z (Moves-Reach r ms) (omega (arith, Moves-fresh ms, small))
        (omega (arith, Moves-work ms, all)),
)
