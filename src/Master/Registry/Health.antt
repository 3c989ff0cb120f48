-- ===== src/Master/Registry/Health.antt =====
-- What a round of checkHealth does to each node, whatever the order of its loops.
use dist_command_exec.Prelude.{
  ℕ, ◌+◌, ◌≡◌, refl, String, Bool, true, false, Option, none, some, List, [], ◌∷◌, ◌++◌, arith,
  str_eq, eq_iff, ◌==◌, if◌then◌else◌,
}
use dist_command_exec.Prelude.Int.{ltb_ℤ}
use dist_command_exec.Prelude.Map
use dist_command_exec.Prelude.Map.{Map, find, Distinct, Visits, get-put, get-delete}
use dist_command_exec.Types.{Time}
use dist_command_exec.Master.Registry.{
  NodeInfo, NodeRegistry, unhealthy, is_healthy, sub_time, judge, Verdict, remove, mark, act, scan,
  remove_all, check_health,
}

-- What is left of a node after a round: nothing if it has been silent for longer than the removal
-- timeout; the node, marked unhealthy if it was healthy, behind the heartbeat timeout.
abbrev pub aged : NodeRegistry → Time → NodeInfo → Option NodeInfo
aged r now n =
    if ltb_ℤ r.unhealthy_timeout (sub_time now n.last_seen)
    then none
    else if ltb_ℤ r.heartbeat_timeout (sub_time now n.last_seen)
    then some (if is_healthy n.status then record n { status = unhealthy } else n)
    else some n

abbrev pub aged? : NodeRegistry → Time → Option NodeInfo → Option NodeInfo
aged? r now none = none
aged? r now (some n) = aged r now n

-- How often an ID stands in a list.
abbrev pub times : String → List String → ℕ
times id [] = 0
times id (j ∷ js) = (if str_eq j id then 1 else 0) + times id js

abbrev is_removed : Verdict → Bool
is_removed remove = true
is_removed _ = false

abbrev kept : Verdict → NodeInfo → Option NodeInfo → Option NodeInfo
kept mark n o = some (record n { status = unhealthy })
kept _ n o = o

module _ (r : NodeRegistry) (now : Time) where
  abbrev marked? : Option NodeInfo → Option NodeInfo → Option NodeInfo
  marked? none o = o
  marked? (some n) o = kept (judge r now n) n o

  abbrev removed? : Option NodeInfo → ℕ
  removed? none = 0
  removed? (some n) = if is_removed (judge r now n) then 1 else 0

  get-act :
      (v : Verdict) (id j : String) (n : NodeInfo) (nodes : Map NodeInfo) (ids : List String)
      → Map.get (act v id n (nodes, ids)).0 j
        ≡ (if str_eq id j then kept v n (Map.get nodes j) else Map.get nodes j)
  unfolding act
  get-act v id j n nodes ids = ground (arith, get-put nodes id j (record n { status = unhealthy }))

  times-append : (j : String) (xs ys : List String) → times j (xs ++ ys) ≡ times j xs + times j ys
  times-append j [] ys = omega arith
  times-append j (x ∷ xs) ys = omega (arith, times-append j xs ys)

  times-act :
      (v : Verdict) (id j : String) (n : NodeInfo) (nodes : Map NodeInfo) (ids : List String)
      → times j (act v id n (nodes, ids)).1
        ≡ times j ids + (if str_eq id j then (if is_removed v then 1 else 0) else 0)
  unfolding act
  times-act v id j n nodes ids = ground (arith, times-append j ids (id ∷ []))

  -- The first loop, from any state.
  get-scan :
      (visited : List (String × NodeInfo)) (state : Map NodeInfo × List String) (j : String)
      → Distinct visited
      → Map.get (scan r now visited state).0 j ≡ marked? (find j visited) (Map.get state.0 j)
  unfolding scan
  get-scan [] state j d = refl
  get-scan ((id, n) ∷ rest) (nodes, ids) j d = ground (
    arith,
    get-scan rest (act (judge r now n) id n (nodes, ids)) j d.1,
    get-act (judge r now n) id j n nodes ids,
    eq_iff id j,
    d.0,
  )

  times-scan :
      (visited : List (String × NodeInfo)) (state : Map NodeInfo × List String) (j : String)
      → Distinct visited
      → times j (scan r now visited state).1 ≡ times j state.1 + removed? (find j visited)
  unfolding scan
  times-scan [] state j d = omega arith
  times-scan ((id, n) ∷ rest) (nodes, ids) j d = ground (
    arith,
    times-scan rest (act (judge r now n) id n (nodes, ids)) j d.1,
    times-act (judge r now n) id j n nodes ids,
    eq_iff id j,
    d.0,
  )

get-remove_all :
    (ids : List String) (nodes : Map NodeInfo) (j : String)
    → Map.get (remove_all ids nodes) j ≡ (if times j ids == 0 then Map.get nodes j else none)
unfolding remove_all
get-remove_all [] nodes j = refl
get-remove_all (id ∷ ids) nodes j =
    ground (arith, get-remove_all ids (Map.delete nodes id) j, get-delete nodes id j)

module _ (r : NodeRegistry) (now : Time) (visited : List (String × NodeInfo))
    (v : Visits r.nodes visited) where
  -- After a round of checkHealth each node is what its own silence makes of it: removed behind the
  -- removal timeout, unhealthy behind the heartbeat timeout if it was healthy, and unchanged
  -- otherwise; an unknown ID stays unknown. The order in which `range` visits the nodes is open.
  pub get-check_health :
      (id : String)
      → Map.get (check_health r now visited).0.nodes id ≡ aged? r now (Map.get r.nodes id)
  unfolding check_health
  get-check_health id = ground (
    arith,
    get-remove_all (scan r now visited (r.nodes, [])).1 (scan r now visited (r.nodes, [])).0 id,
    get-scan r now visited (r.nodes, []) id v.once,
    times-scan r now visited (r.nodes, []) id v.once,
    v.same id,
  )

  -- If a callback is set, it runs once for each node that the round removes and for no other ID,
  -- over the nodes in any order of the `range`.
  pub times-check_health :
      (id : String)
      → r.on_node_removed ≡ true
      → times id (check_health r now visited).1 ≡ (elim (Map.get r.nodes id) [
        | none ↦ 0
        | some n ↦ if ltb_ℤ r.unhealthy_timeout (sub_time now n.last_seen) then 1 else 0
      ])
  unfolding check_health
  times-check_health id set =
      ground (arith, times-scan r now visited (r.nodes, []) id v.once, v.same id)
