-- ===== src/Master/Balancer/RoundRobin.antt =====
-- RoundRobinBalancer of internal/master/balancer.go: single selections, and a round of them.
use dist_command_exec.Prelude.{
  ℕ, zero, suc, ◌+◌, ◌-◌, ◌%◌, ◌^◌, ◌≤◌, ◌<◌, ◌≡◌, refl, sym, ap, ◌∙◌, Option, some, List, [], ◌∷◌,
  ◌++◌, map, arith, length, get_elem?, take, drop, get_elem?-lt, take_all, drop-get_elem?,
  length-drop,
}
use mathlib.Core.List.{map-append}
use native.Mathlib.Nat.{mod-lt, mod-add-mod, mod-eq_of_lt, mod_self, add-zero, suc-add, zero-add}
use dist_command_exec.Master.Registry.{NodeInfo}
use dist_command_exec.Master.Balancer.{next, select_round_robin}

-- The nodes that n selections in a row return.
abbrev pub picks : ℕ → ℕ → List NodeInfo → List (Option NodeInfo)
picks zero counter nodes = []
picks (suc n) counter nodes =
    let (counter', node) = select_round_robin counter nodes in node ∷ picks n counter' nodes

-- One round, from the node that is next.
abbrev pub round : ℕ → List NodeInfo → List NodeInfo
round k nodes = drop k nodes ++ take k nodes

select_lem :
    (counter : ℕ) (nodes : List NodeInfo)
    → 0 < length nodes
    → select_round_robin counter nodes
      ≡ (next counter, get_elem? nodes (next counter % length nodes))
unfolding select_round_robin
select_lem counter [] h = absurd (omega arith)
select_lem counter (n ∷ ns) h = refl

-- On a non-empty list the round-robin selection returns the node at the next counter modulo the
-- length, also where the counter wraps at 64 bits.
pub select_round_robin_total :
    (counter : ℕ) (nodes : List NodeInfo)
    → 0 < length nodes
    → (n : NodeInfo) × ((select_round_robin counter nodes).1 ≡ some n)
      × (get_elem? nodes ((counter + 1) % 2 ^ 64 % length nodes) ≡ some n)
select_round_robin_total counter nodes h =
    let (n, at) = get_elem?-lt nodes (next counter % length nodes) (mod-lt _ h) in
    (n, rw (select_lem counter nodes h) at, at)

-- The index after the last one in use.
mod_step : (c n i : ℕ) → (c + 1) % n ≡ i → suc i < n → (c + 1 + 1) % n ≡ suc i
mod_step c n i at h = grind (arith, mod-add-mod (c + 1) n 1, mod-eq_of_lt h)

-- A round from index i ends before index i.
mod_wrap : (c n : ℕ) → 0 < n → (c + (n - (c + 1) % n) + 1) % n ≡ 0
mod_wrap c n h =
    let i = (c + 1) % n in
    let below : i < n = mod-lt (c + 1) h in
    let sum : c + (n - i) + 1 ≡ c + 1 + (n - i) = omega arith in
    let whole : i + (n - i) ≡ n = omega arith in
    rw sum (sym (mod-add-mod (c + 1) n (n - i)) ∙ ap (λ (k : ℕ). k % n) whole ∙ mod_self n)

module _ (nodes : List NodeInfo) (some_node : 0 < length nodes) where
  -- A stretch of selections within one pass over the list.
  picks_stretch :
      (m i counter : ℕ)
      → i + m ≤ length nodes
      → (0 < m → (counter + 1) % length nodes ≡ i)
      → counter + m < 2 ^ 64
      → picks m counter nodes ≡ map some (take m (drop i nodes))
  picks_stretch zero i counter fits at small = refl
  picks_stretch (suc m) i counter fits at small =
      let (a, got, split) = drop-get_elem? i nodes (omega arith) in
      let rest : picks m (counter + 1) nodes ≡ map some (take m (drop (suc i) nodes)) =
        picks_stretch m (suc i) (counter + 1) (omega arith)
          (λ more. mod_step counter (length nodes) i (at (omega arith)) (omega arith))
          (omega arith) in
      let now : next counter ≡ counter + 1 = omega arith in
      rw (split, select_lem counter nodes some_node, now, at (omega arith), got)
        (ap (◌∷◌ (some a)) rest)

  picks-add :
      (m n counter : ℕ)
      → counter + m < 2 ^ 64
      → picks (m + n) counter nodes ≡ picks m counter nodes ++ picks n (counter + m) nodes
  picks-add zero n counter small = rw (zero-add, add-zero)
  picks-add (suc m) n counter small =
      let now : next counter ≡ counter + 1 = omega arith in
      let shift : counter + suc m ≡ counter + 1 + m = omega arith in
      rw (suc-add, select_lem counter nodes some_node, now, shift)
        (ap (◌∷◌ (get_elem? nodes ((counter + 1) % length nodes)))
          (picks-add m n (counter + 1) (omega arith)))

  -- On a list that is not empty: as many selections in a row as there are nodes, from a counter
  -- that does not wrap meanwhile, return each node of the list once, in the order of the list from
  -- the one after the last choice.
  pub picks-round :
      (counter : ℕ)
      → counter + length nodes < 2 ^ 64
      → picks (length nodes) counter nodes ≡ map some (round ((counter + 1) % length nodes) nodes)
  picks-round counter small =
      let i = (counter + 1) % length nodes in
      let inside : i < length nodes = mod-lt (counter + 1) some_node in
      let split : length nodes ≡ (length nodes - i) + i = omega arith in
      let first : picks (length nodes - i) counter nodes
          ≡ map some (take (length nodes - i) (drop i nodes)) =
        picks_stretch (length nodes - i) i counter (omega arith) (λ _. refl) (omega arith) in
      let again : picks i (counter + (length nodes - i)) nodes ≡ map some (take i (drop 0 nodes)) =
        picks_stretch i 0 (counter + (length nodes - i)) (omega arith)
          (λ _. mod_wrap counter (length nodes) some_node) (omega arith) in
      ap (λ (k : ℕ). picks k counter nodes) split
      ∙ picks-add (length nodes - i) i counter (omega arith)
      ∙ cc (
        first,
        again,
        map-append some (drop i nodes) (take i nodes),
        take_all (length nodes - i) (drop i nodes) (omega (arith, length-drop i nodes)),
      )
