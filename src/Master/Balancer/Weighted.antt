-- ===== src/Master/Balancer/Weighted.antt =====
-- WeightedRoundRobinBalancer of internal/master/balancer.go, and the free slots of the nodes.
use native.Mathlib.Nat.{mod-lt}
use dist_command_exec.Prelude.{
  ℕ, zero, suc, ◌+◌, ◌-◌, ◌%◌, ◌≤◌, ◌<◌, ◌≡◌, refl, ap, ◌∙◌, Option, some, List, [], ◌∷◌, ◌++◌,
  arith, ltb, if◌then◌else◌, length, get_elem?, length-append, All,
}
use dist_command_exec.Prelude.Int.{
  pos, negsuc, pos_part, neg_part, half64, int64, int64_in_range, ◌+ℤ◌, ◌-ℤ◌,
}
use native.Mathlib.Decide.{dec_lt}
use dist_command_exec.Master.Registry.{NodeInfo, available_capacity}
use dist_command_exec.Master.Balancer.{
  next, total_weight, to_uint64, weighted_loop, select_by_weight, select_weighted,
}

-- The slots that a node has free; none if it is overloaded.
abbrev pub free : NodeInfo → ℕ
free n = pos_part (available_capacity n)

abbrev pub copies : ℕ → NodeInfo → List NodeInfo
copies zero n = []
copies (suc k) n = n ∷ copies k n

-- Each node as often as it has free slots.
abbrev pub slots : List NodeInfo → List NodeInfo
slots [] = []
slots (n ∷ ns) = copies (free n) n ++ slots ns

-- No node runs more tasks than its maximum.
abbrev pub IsWithin : NodeInfo → Type 0
IsWithin n = neg_part (available_capacity n) ≡ 0

length-copies : (k : ℕ) (n : NodeInfo) → length (copies k n) ≡ k
length-copies zero n = refl
length-copies (suc k) n = ap suc (length-copies k n)

get_elem?-copies :
    (k i : ℕ) (n : NodeInfo) (ns : List NodeInfo)
    → get_elem? (copies k n ++ ns) i ≡ (if ltb i k then some n else get_elem? ns (i - k))
get_elem?-copies zero i n ns = ground arith
get_elem?-copies (suc k) zero n ns = ground arith
get_elem?-copies (suc k) (suc i) n ns = ground (arith, get_elem?-copies k i n ns)

capacity-free : (n : NodeInfo) → IsWithin n → available_capacity n ≡ pos (free n)
capacity-free n h = ground arith

int64_add : (a b : ℕ) → a + b < half64 → int64 (pos a +ℤ pos b) ≡ pos (a + b)
unfolding int64 ◌+ℤ◌
int64_add a b h = ground arith

int64_sub_lt : (a b : ℕ) → a < b → b < half64 → int64 (pos a -ℤ pos b) ≡ negsuc (b - a - 1)
unfolding int64 ◌-ℤ◌
int64_sub_lt a b h k = ground arith

int64_sub_le : (a b : ℕ) → b ≤ a → a < half64 → int64 (pos a -ℤ pos b) ≡ pos (a - b)
unfolding int64 ◌-ℤ◌
int64_sub_le a b h k = ground arith

length-slots :
    (n : NodeInfo) (ns : List NodeInfo) → length (slots (n ∷ ns)) ≡ free n + length (slots ns)
length-slots n ns =
    omega (arith, length-append (copies (free n) n) (slots ns), length-copies (free n) n)

total_weight-slots :
    (acc : ℕ) (ns : List NodeInfo)
    → All IsWithin ns
    → acc + length (slots ns) < half64
    → total_weight (pos acc) ns ≡ pos (acc + length (slots ns))
unfolding total_weight
total_weight-slots acc [] h small = ground arith
total_weight-slots acc (n ∷ ns) h small =
    let room : acc + free n < half64 = omega (arith, length-slots n ns) in
    rw (capacity-free n h.0, int64_add acc (free n) room, length-slots n ns)
      (total_weight-slots (acc + free n) ns h.1 (omega (arith, length-slots n ns))
        ∙ ap pos (omega arith))

weighted_loop-slots :
    (target : ℕ) (fallback : NodeInfo) (ns : List NodeInfo)
    → All IsWithin ns
    → target < length (slots ns)
    → length (slots ns) < half64
    → some (weighted_loop (pos target) fallback ns) ≡ get_elem? (slots ns) target
unfolding weighted_loop
weighted_loop-slots target fallback [] h inside small = absurd (omega arith)
weighted_loop-slots target fallback (n ∷ ns) h inside small = elim (dec_lt target (free n)) [
  | yes hit ↦
      rw (capacity-free n h.0, int64_sub_lt target (free n) hit (omega (arith, length-slots n ns)))
        (ground (arith, get_elem?-copies (free n) target n (slots ns)))
  | no past ↦
      let rest : some (weighted_loop (pos (target - free n)) fallback ns)
          ≡ get_elem? (slots ns) (target - free n) =
        weighted_loop-slots (target - free n) fallback ns h.1 (omega (arith, length-slots n ns))
          (omega (arith, length-slots n ns)) in
      rw (capacity-free n h.0, int64_sub_le target (free n) (omega arith) (omega arith))
        (ground (arith, get_elem?-copies (free n) target n (slots ns), rest))
]

weigh_slots :
    (counter k : ℕ) (first : NodeInfo) (nodes : List NodeInfo) {slot : Option NodeInfo}
    → 0 < k
    → k < half64
    → some (weighted_loop (pos (next counter % k)) first nodes) ≡ slot
    → select_by_weight counter (pos k) first nodes ≡ (next counter, slot)
unfolding select_by_weight
weigh_slots counter k first nodes pos_k small chosen =
    let exact : to_uint64 (pos k) ≡ k = omega arith in
    let below : next counter % k < k = mod-lt (next counter) pos_k in
    rw (exact, int64_in_range (pos (next counter % k)) (omega arith, omega arith), ← chosen)
      (ground arith)

-- While no node runs more tasks than its maximum, some slot is free, and the number of free slots
-- is an int, the selection is a round-robin over the list in which each node stands once for each
-- of its free slots.
pub select_weighted-slots :
    (counter : ℕ) (nodes : List NodeInfo)
    → All IsWithin nodes
    → 0 < length (slots nodes)
    → length (slots nodes) < half64
    → select_weighted counter nodes
      ≡ (next counter, get_elem? (slots nodes) (next counter % length (slots nodes)))
unfolding select_weighted
select_weighted-slots counter [] h some_slot small = absurd (omega arith)
select_weighted-slots counter (n ∷ ns) h some_slot small =
    let weight : total_weight (pos 0) (n ∷ ns) ≡ pos (length (slots (n ∷ ns))) =
      total_weight-slots 0 (n ∷ ns) h (omega arith) ∙ ap pos (omega arith) in
    let target : next counter % length (slots (n ∷ ns)) < length (slots (n ∷ ns)) =
      mod-lt (next counter) some_slot in
    let loop : some (weighted_loop (pos (next counter % length (slots (n ∷ ns)))) n (n ∷ ns))
        ≡ get_elem? (slots (n ∷ ns)) (next counter % length (slots (n ∷ ns))) =
      weighted_loop-slots (next counter % length (slots (n ∷ ns))) n (n ∷ ns) h target small in
    rw weight (weigh_slots counter (length (slots (n ∷ ns))) n (n ∷ ns) some_slot small loop)
