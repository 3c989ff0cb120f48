-- ===== src/Master/Balancer/Least.antt =====
-- LeastConnectionsBalancer of internal/master/balancer.go.
use dist_command_exec.Prelude.{
  ℕ, suc, ◌≡◌, refl, sym, subst, ◌⊎◌, inl, inr, some, List, [], ◌∷◌, arith, get_elem?, take,
  Bool-cases, All,
}
use dist_command_exec.Prelude.Int.{ℤ, ltb_ℤ, ◌≤ℤ◌, ◌<ℤ◌, max_int}
use dist_command_exec.Master.Registry.{NodeInfo}
use dist_command_exec.Master.Balancer.{zero_node, least_loop, select_least}

-- `r` stands at index i, no node has fewer active tasks, and all before it have more.
abbrev pub IsFirstLeast : List NodeInfo → ℕ → NodeInfo → Type 0
IsFirstLeast nodes i r =
    (get_elem? nodes i ≡ some r)
    × All (λ n. r.active_tasks ≤ℤ n.active_tasks) nodes
    × All (λ n. r.active_tasks <ℤ n.active_tasks) (take i nodes)

abbrev Outcome : ℤ → NodeInfo → List NodeInfo → NodeInfo → Type 0
Outcome min_load best nodes r =
    ((r ≡ best) × All (λ n. min_load ≤ℤ n.active_tasks) nodes)
    ⊎ ((i : ℕ) × IsFirstLeast nodes i r × (r.active_tasks <ℤ min_load))

Outcome-better :
    (min_load : ℤ) (best n r : NodeInfo) (ns : List NodeInfo)
    → n.active_tasks <ℤ min_load
    → Outcome n.active_tasks n ns r
    → Outcome min_load best (n ∷ ns) r
Outcome-better min_load best n r ns lt (inl (e, all)) =
    subst (Outcome min_load best (n ∷ ns)) (sym e) (inr (0, (refl, (omega arith, all), tt), lt))
Outcome-better min_load best n r ns lt (inr (i, (at, all, before), below)) =
    inr (suc i, (at, (omega arith, all), (below, before)), omega arith)

Outcome-worse :
    (min_load : ℤ) (best n r : NodeInfo) (ns : List NodeInfo)
    → min_load ≤ℤ n.active_tasks
    → Outcome min_load best ns r
    → Outcome min_load best (n ∷ ns) r
Outcome-worse min_load best n r ns le (inl (e, all)) = inl (e, (le, all))
Outcome-worse min_load best n r ns le (inr (i, (at, all, before), below)) =
    inr (suc i, (at, (omega arith, all), (omega arith, before)), below)

least_loop-Outcome :
    (min_load : ℤ) (best : NodeInfo) (nodes : List NodeInfo)
    → Outcome min_load best nodes (least_loop min_load best nodes)
unfolding least_loop
least_loop-Outcome min_load best [] = inl (refl, tt)
least_loop-Outcome min_load best (n ∷ ns) = elim (Bool-cases (ltb_ℤ n.active_tasks min_load)) [
  | inl e ↦ subst (Outcome min_load best (n ∷ ns)) (ground arith) (
      Outcome-better min_load best n (least_loop n.active_tasks n ns) ns (ground arith)
        (least_loop-Outcome n.active_tasks n ns))
  | inr e ↦ subst (Outcome min_load best (n ∷ ns)) (ground arith) (
      Outcome-worse min_load best n (least_loop min_load best ns) ns (ground arith)
        (least_loop-Outcome min_load best ns))
]

-- Where the first node has fewer active tasks than the largest int, the selection returns the first
-- of the nodes with the fewest active tasks.
pub select_least-IsFirstLeast :
    (n : NodeInfo) (ns : List NodeInfo)
    → n.active_tasks <ℤ max_int
    → (r : NodeInfo) × (i : ℕ) × (select_least (n ∷ ns) ≡ some r) × IsFirstLeast (n ∷ ns) i r
unfolding select_least
select_least-IsFirstLeast n ns small = pick (least_loop-Outcome max_int zero_node (n ∷ ns))
  where
    r : NodeInfo
    r = least_loop max_int zero_node (n ∷ ns)

    pick :
        Outcome max_int zero_node (n ∷ ns) r
        → (r' : NodeInfo) × (i : ℕ) × (some r ≡ some r') × IsFirstLeast (n ∷ ns) i r'
    pick (inl (_, all)) = absurd (omega arith)
    pick (inr (i, least, _)) = (r, i, refl, least)
