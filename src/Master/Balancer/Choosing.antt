-- ===== src/Master/Balancer/Choosing.antt =====
-- What LoadBalancer of internal/master/balancer.go promises, and its four implementations.
use native.Mathlib.Nat.{mod-lt}
use mathlib.Core.List.{Mem, mem-cons_self, mem-cons_of_mem}
use dist_command_exec.Prelude.{
  ℕ, zero, suc, ◌%◌, ◌≡◌, ◌⊎◌, inl, inr, refl, sym, subst, Bool-cases, Option, none, some, List, [],
  ◌∷◌, arith, All, length, get_elem?, get_elem?-lt,
}
use dist_command_exec.Prelude.Int.{ℤ, pos, ltb_ℤ, ◌<ℤ◌, max_int, int64, ◌-ℤ◌}
use dist_command_exec.Master.Registry.{NodeInfo, available_capacity}
use dist_command_exec.Master.Balancer.{
  new_balancer, Policy, round_robin, random, weighted_round_robin, least_connections,
  select_round_robin, select_random, select_weighted, select_by_weight, weighted_loop, rotate, next,
  select_least, total_weight, is_zero,
}
use dist_command_exec.Master.Balancer.Least.{select_least-IsFirstLeast}

-- No node for an empty list, and otherwise a node of the list.
abbrev pub Chooses : List NodeInfo → Option NodeInfo → Type 0
Chooses nodes o = ((nodes ≡ []) × (o ≡ none)) ⊎ ((r : NodeInfo) × (o ≡ some r) × Mem r nodes)

get_elem?-Mem : (ns : List NodeInfo) (i : ℕ) (n : NodeInfo) → get_elem? ns i ≡ some n → Mem n ns
get_elem?-Mem [] i n e = absurd (ground (arith, e))
get_elem?-Mem (x ∷ ns) zero n e =
    subst (λ m. Mem m (x ∷ ns)) {x = x} {y = n} (ground (arith, e)) mem-cons_self
get_elem?-Mem (x ∷ ns) (suc i) n e = mem-cons_of_mem x (get_elem?-Mem ns i n e)

rotate-Mem :
    (counter : ℕ) (n : NodeInfo) (ns : List NodeInfo)
    → (r : NodeInfo) × ((rotate counter (n ∷ ns)).1 ≡ some r) × Mem r (n ∷ ns)
unfolding rotate
rotate-Mem counter n ns =
    let i = next counter % length (n ∷ ns) in
    let (r, e) = get_elem?-lt (n ∷ ns) i (mod-lt (next counter) (omega arith)) in
    (r, e, get_elem?-Mem (n ∷ ns) i r e)

weighted_loop-Mem :
    (target : ℤ) (first : NodeInfo) (ns : List NodeInfo)
    → (weighted_loop target first ns ≡ first) ⊎ Mem (weighted_loop target first ns) ns
unfolding weighted_loop
weighted_loop-Mem target first [] = inl refl
weighted_loop-Mem target first (n ∷ ns) =
    elim (Bool-cases (ltb_ℤ (int64 (target -ℤ available_capacity n)) (pos 0))) [
      | inl below ↦ inr (rw below mem-cons_self)
      | inr above ↦
          rw above (elim (weighted_loop-Mem (int64 (target -ℤ available_capacity n)) first ns) [
            | inl same ↦ inl same
            | inr later ↦ inr (mem-cons_of_mem n later)
          ])
    ]

weighted-Mem :
    (target : ℤ) (n : NodeInfo) (ns : List NodeInfo)
    → Mem (weighted_loop target n (n ∷ ns)) (n ∷ ns)
weighted-Mem target n ns = elim (weighted_loop-Mem target n (n ∷ ns)) [
  | inl same ↦ subst (λ x. Mem x (n ∷ ns)) (sym same) mem-cons_self
  | inr there ↦ there
]

weighted_picks :
    (counter : ℕ) (weight : ℤ) (n : NodeInfo) (ns : List NodeInfo)
    → (r : NodeInfo) × ((select_by_weight counter weight n (n ∷ ns)).1 ≡ some r) × Mem r (n ∷ ns)
unfolding select_by_weight
weighted_picks counter weight n ns = elim (Bool-cases (is_zero weight)) [
  | inl none_free ↦ rw none_free (rotate-Mem counter n ns)
  | inr some_free ↦ rw some_free (_, refl, weighted-Mem _ n ns)
]

picks :
    (p : Policy) (counter : ℕ) (n : NodeInfo) (ns : List NodeInfo)
    → n.active_tasks <ℤ max_int
    → (r : NodeInfo) × (((new_balancer p).select counter (n ∷ ns)).1 ≡ some r) × Mem r (n ∷ ns)
unfolding select_round_robin select_random select_weighted
picks round_robin counter n ns small = rotate-Mem counter n ns
picks random counter n ns small = rotate-Mem counter n ns
picks weighted_round_robin counter n ns small =
    weighted_picks counter (total_weight (pos 0) (n ∷ ns)) n ns
picks least_connections counter n ns small =
    let (r, i, chosen, least) = select_least-IsFirstLeast n ns small in
    (r, chosen, get_elem?-Mem (n ∷ ns) i r least.0)

refuses : (p : Policy) (counter : ℕ) → ((new_balancer p).select counter []).1 ≡ none
unfolding select_round_robin select_random select_weighted select_least
refuses round_robin counter = refl
refuses random counter = refl
refuses weighted_round_robin counter = refl
refuses least_connections counter = refl

pub select-Chooses :
    (p : Policy) (counter : ℕ) (nodes : List NodeInfo)
    → All (λ n. n.active_tasks <ℤ max_int) nodes
    → Chooses nodes ((new_balancer p).select counter nodes).1
select-Chooses p counter [] small = inl (refl, refuses p counter)
select-Chooses p counter (n ∷ ns) small = inr (picks p counter n ns small.0)
