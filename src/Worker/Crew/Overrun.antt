-- ===== src/Worker/Crew/Overrun.antt =====
-- Calls that pass the check of Run (internal/worker/runner.go) together.
use dist_command_exec.Prelude.{
  ℕ, suc, zero, ◌+◌, ◌<◌, ◌≡◌, refl, ap, ◌∙◌, sym, false, List, [], ◌∷◌, ◌++◌, arith, total,
  total-append, length, All,
}
use mathlib.Core.List.{append_assoc}
use dist_command_exec.Prelude.Int.{pos, half64}
use dist_command_exec.Worker.Runner.{new_task_runner, at_capacity, active_count}
use dist_command_exec.Worker.Crew.{
  Pc, admitted, tracked, counted, Call, after, Crew, new_crew, enter, moves, admits, goes_on, Reach,
  here, later, AnyTask, counted_at, active,
}
use dist_command_exec.Worker.Crew.Count.{active_count_lem}

abbrev at : Call → Pc → Call
at c pc = record { number = c.number; task = c.task; pc = pc }

abbrev IsAdmitted : Call → Type 0
IsAdmitted c = c.pc ≡ admitted

-- A call that was admitted goes on until it is counted.
goes_in :
    (s y : Crew) (c : Call) (xs ys : List Call)
    → Reach AnyTask s y
    → y.calls ≡ xs ++ c ∷ ys
    → IsAdmitted c
    → (z : Crew) × Reach AnyTask s z × (z.calls ≡ xs ++ at c counted ∷ ys) × (z.fresh ≡ y.fresh)
unfolding after
goes_in s y c xs ys r e a =
    let one : y.calls ≡ xs ++ at c admitted ∷ ys = e ∙ ap (λ pc. xs ++ at c pc ∷ ys) a in
    (
      _,
      later (later r (goes_on (moves xs ys (at c admitted) one)))
          (goes_on (moves xs ys (at c tracked) refl)),
      refl,
      refl,
    )

press :
    (s y : Crew) (ps qs : List Call)
    → Reach AnyTask s y
    → y.calls ≡ ps ++ qs
    → All IsAdmitted qs
    → (z : Crew) × Reach AnyTask s z
      × (active z ≡ total (λ c. counted_at c.pc) ps + length qs)
      × (z.fresh ≡ y.fresh)
press s y ps [] r e a =
    (y, r, rw e (omega (arith, total-append (λ c. counted_at c.pc) ps [])), refl)
press s y ps (c ∷ qs) r e a =
    let (u, ru, eu, fu) = goes_in s y c ps qs r e a.0 in
    let (z, rz, ez, fz) =
      press s u (ps ++ at c counted ∷ []) qs ru (eu ∙ sym (append_assoc ps (at c counted ∷ []) qs))
        a.1 in
    (z, rz, omega (arith, ez, total-append (λ c. counted_at c.pc) ps (at c counted ∷ [])), fz ∙ fu)

-- n calls pass the check.
crowd :
    (s : Crew) (n : ℕ)
    → at_capacity s.runner ≡ false
    → s.calls ≡ []
    → (y : Crew) × Reach AnyTask s y
      × All IsAdmitted y.calls
      × (length y.calls ≡ n)
      × (y.fresh ≡ s.fresh + n)
      × (y.runner ≡ s.runner)
crowd s zero free e = (s, here, rw e tt, rw e refl, omega arith, refl)
crowd s (suc n) free e =
    let (y, r, a, l, f, same) = crowd s n free e in
    (
      enter y "task",
      later r (admits "task" tt (rw same free)),
      (refl, a),
      omega (arith, l),
      omega (arith, f),
      same,
    )

-- However small the limit, at least 1, is: for every n below 2^63 a runner can come to show n
-- active tasks, when n calls pass the check before any of them is counted.
pub overrun :
    (max n : ℕ)
    → 0 < max
    → n < half64
    → (y : Crew) × Reach AnyTask (new_crew (pos max)) y × (active_count y.runner ≡ pos n)
unfolding new_crew new_task_runner at_capacity
overrun max n some_room small =
    let (u, ru, a, l, f, same) = crowd (new_crew (pos max)) n (ground (arith, some_room)) refl in
    let (z, rz, ez, fz) = press (new_crew (pos max)) u [] u.calls ru refl a in
    (
      z,
      rz,
      (active_count_lem (pos max) z rz (omega (arith, fz, f, small))).0
          ∙ ap pos (omega (arith, ez, l)),
    )
