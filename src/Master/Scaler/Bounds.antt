-- ===== src/Master/Scaler/Bounds.antt =====
-- The replica counts that the scaler writes.
use dist_command_exec.Prelude.{
  ℕ, ◌<◌, ◌≡◌, refl, ◌⊎◌, inl, inr, true, Option, none, some, List, arith, if◌then◌else◌, length,
}
use dist_command_exec.Prelude.Int.{ℤ, pos, ◌≤ℤ◌, ◌<ℤ◌, int32, ◌+ℤ◌, ◌-ℤ◌, half32, int64, ltb_ℤ}
use dist_command_exec.Types.{Time}
use dist_command_exec.Master.Registry.{NodeInfo}
use dist_command_exec.Master.Balancer.{total_weight}
use dist_command_exec.Master.Scaler.{
  ScalerConfig, AutoScaler, Api, raised, scale_up, min_int, quotient, decide, backing_up, needed,
  ensure_capacity, scale_down, set_replicas,
}

raised-le :
    (cfg : ScalerConfig) (replicas : Option ℤ) (count : ℤ)
    → raised cfg replicas count ≤ℤ int32 cfg.max_replicas
unfolding raised
raised-le cfg replicas count = ground arith

-- What a scale-up writes: the replicas raised by the count, if the deployment could be read.
scale_up-written :
    (s : AutoScaler) (now : Time) (api : Api) (count w : ℤ)
    → (scale_up s now api count).1.written ≡ some w
    → (replicas : Option ℤ) × (api.deployment ≡ some replicas) × (w ≡ raised s.cfg replicas count)
unfolding scale_up
scale_up-written s now api count w h = ground arith

backing_up-written :
    (s : AutoScaler) (now : Time) (api : Api) (pending current w : ℤ)
    → (backing_up s now api pending current).1.written ≡ some w
    → (scale_up s now api (pos 1)).1.written ≡ some w
unfolding backing_up
backing_up-written s now api pending current w h = ground arith

decide_cases :
    (s : AutoScaler) (now : Time) (api : Api) (pending current capacity : ℤ)
    → ((decide s now api pending current capacity
          ≡ scale_up s now api (needed s.cfg pending current))
        × (pos 0 <ℤ needed s.cfg pending current))
      ⊎ (decide s now api pending current capacity ≡ backing_up s now api pending current)
      ⊎ ((decide s now api pending current capacity).1.written ≡ none)
unfolding decide
decide_cases s now api pending current capacity = ground arith

-- The count of a scale-up is 1 or what case 1 needs.
decide-written :
    (s : AutoScaler) (now : Time) (api : Api) (pending current capacity w : ℤ)
    → (decide s now api pending current capacity).1.written ≡ some w
    → (count : ℤ) × ((scale_up s now api count).1.written ≡ some w)
      × ((count ≡ pos 1) ⊎ ((count ≡ needed s.cfg pending current) × (pos 0 <ℤ count)))
decide-written s now api pending current capacity w h =
    elim (decide_cases s now api pending current capacity) [
      | inl (e, up) ↦ (needed s.cfg pending current, rw e at h, inr (refl, up))
      | inr (inl e) ↦ (pos 1, backing_up-written s now api pending current w (rw e at h), inl refl)
      | inr (inr e) ↦ cc
    ]

ensure_capacity-decide :
    (s : AutoScaler) (now : Time) (api : Api) (nodes : List NodeInfo) (pending w : ℤ)
    → (ensure_capacity s now api nodes pending).1.written ≡ some w
    → (decide s now api pending (pos (length nodes)) (total_weight (pos 0) nodes)).1.written
      ≡ some w
unfolding ensure_capacity
ensure_capacity-decide s now api nodes pending w h = ground arith

raised-ge :
    (cfg : ScalerConfig) (k count : ℤ)
    → pos 0 ≤ℤ k
    → k <ℤ cfg.max_replicas
    → cfg.max_replicas <ℤ pos 1073741824
    → pos 0 <ℤ count
    → count ≤ℤ cfg.max_replicas
    → (k <ℤ raised cfg (some k) count) × (raised cfg (some k) count ≤ℤ cfg.max_replicas)
unfolding raised ◌+ℤ◌ int32
raised-ge cfg k count lo hi small up fits = ground arith

min_int-le_right : (a b : ℤ) → min_int a b ≤ℤ b
min_int-le_right a b = ground arith

room-le :
    (m : ℤ) (healthy : ℕ)
    → pos 0 <ℤ m
    → m <ℤ pos 1073741824
    → healthy < half32
    → int64 (m -ℤ pos healthy) ≤ℤ m
unfolding int64 ◌-ℤ◌
room-le m healthy lo hi h = ground arith

needed-le :
    (cfg : ScalerConfig) (pending : ℤ) (healthy : ℕ)
    → pos 0 <ℤ cfg.max_replicas
    → cfg.max_replicas <ℤ pos 1073741824
    → healthy < half32
    → needed cfg pending (pos healthy) ≤ℤ cfg.max_replicas
unfolding needed
needed-le cfg pending healthy lo hi h =
    let asked = int64 (quotient pending cfg.tasks_per_worker +ℤ pos 1) in
    let room = int64 (cfg.max_replicas -ℤ pos healthy) in
    omega (arith, min_int-le_right asked room, room-le cfg.max_replicas healthy lo hi h)

count_range :
    (count asked m : ℤ)
    → (count ≡ pos 1) ⊎ ((count ≡ asked) × (pos 0 <ℤ count))
    → asked ≤ℤ m
    → pos 0 <ℤ m
    → (pos 0 <ℤ count) × (count ≤ℤ m)
count_range count asked m why le lo = ground arith

-- EnsureCapacity, on a deployment with k ≥ 0 replicas below the maximum, writes a number of
-- replicas above k and at most the maximum, if it writes one; the maximum is below 2^30, and there
-- are fewer than 2^31 healthy nodes.
pub ensure_capacity_bounds :
    (s : AutoScaler) (now : Time) (api : Api) (nodes : List NodeInfo) (pending k w : ℤ)
    → api.deployment ≡ some (some k)
    → pos 0 ≤ℤ k
    → k <ℤ s.cfg.max_replicas
    → s.cfg.max_replicas <ℤ pos 1073741824
    → length nodes < half32
    → (ensure_capacity s now api nodes pending).1.written ≡ some w
    → (k <ℤ w) × (w ≤ℤ s.cfg.max_replicas)
ensure_capacity_bounds s now api nodes pending k w read lo hi small few h =
    let (count, up, why) =
      decide-written s now api pending (pos (length nodes)) (total_weight (pos 0) nodes) w
        (ensure_capacity-decide s now api nodes pending w h) in
    let (replicas, got, e) = scale_up-written s now api count w up in
    let same : raised s.cfg replicas count ≡ raised s.cfg (some k) count = cc in
    let asked : needed s.cfg pending (pos (length nodes)) ≤ℤ s.cfg.max_replicas =
      needed-le s.cfg pending (length nodes) (omega arith) small few in
    let (positive, fits) =
      count_range count (needed s.cfg pending (pos (length nodes))) s.cfg.max_replicas why asked
        (omega arith) in
    rw (e, same) (raised-ge s.cfg k count lo hi small positive fits)

-- EnsureCapacity never writes more than the maximum, whatever the deployment has.
pub ensure_capacity-max :
    (s : AutoScaler) (now : Time) (api : Api) (nodes : List NodeInfo) (pending w : ℤ)
    → (ensure_capacity s now api nodes pending).1.written ≡ some w
    → w ≤ℤ int32 s.cfg.max_replicas
ensure_capacity-max s now api nodes pending w h =
    let (count, up, why) =
      decide-written s now api pending (pos (length nodes)) (total_weight (pos 0) nodes) w
        (ensure_capacity-decide s now api nodes pending w h) in
    let (replicas, got, e) = scale_up-written s now api count w up in
    rw e (raised-le s.cfg replicas count)

set_replicas-written :
    (s : AutoScaler) (api : Api) (replicas w : ℤ)
    → (set_replicas s api replicas).written ≡ some w
    → w ≡ int32 replicas
unfolding set_replicas
set_replicas-written s api replicas w h = ground arith

abbrev target : ℤ → ℕ → ℤ
target least healthy = if ltb_ℤ (pos healthy -ℤ pos 1) least then least else pos healthy -ℤ pos 1

scale_down-written :
    (s : AutoScaler) (api : Api) (nodes : List NodeInfo) (w : ℤ)
    → (scale_down s api nodes).written ≡ some w
    → (s.enabled ≡ true)
      × (s.cfg.min_replicas <ℤ pos (length nodes))
      × ((set_replicas s api (target s.cfg.min_replicas (length nodes))).written ≡ some w)
unfolding scale_down
scale_down-written s api nodes w h = ground arith

-- Only a scaler with a client of Kubernetes writes.
pub scale_down-has_k8s :
    (s : AutoScaler) (api : Api) (nodes : List NodeInfo) (w : ℤ)
    → (scale_down s api nodes).written ≡ some w
    → s.has_k8s ≡ true
unfolding scale_down set_replicas
scale_down-has_k8s s api nodes w h = ground arith

target_range :
    (healthy : ℕ) (least : ℤ)
    → healthy < half32
    → pos 0 ≤ℤ least
    → least <ℤ pos healthy
    → (int32 (target least healthy) +ℤ pos 1 ≡ pos healthy)
      × (least ≤ℤ int32 (target least healthy))
unfolding ◌+ℤ◌ ◌-ℤ◌ int32
target_range healthy least few lo above = ground arith

-- ScaleDown writes one replica less than there are healthy nodes, if it writes at all; then it is
-- enabled, there are more healthy nodes than the minimum, and what it writes is at least the
-- minimum. There are fewer than 2^31 healthy nodes, and the minimum is not negative.
pub scale_down_bounds :
    (s : AutoScaler) (api : Api) (nodes : List NodeInfo) (w : ℤ)
    → length nodes < half32
    → pos 0 ≤ℤ s.cfg.min_replicas
    → (scale_down s api nodes).written ≡ some w
    → (s.enabled ≡ true)
      × (s.cfg.min_replicas <ℤ pos (length nodes))
      × (w +ℤ pos 1 ≡ pos (length nodes))
      × (s.cfg.min_replicas ≤ℤ w)
scale_down_bounds s api nodes w few lo h =
    let (on, above, set) = scale_down-written s api nodes w h in
    let (less, least) = target_range (length nodes) s.cfg.min_replicas few lo above in
    let e = set_replicas-written s api (target s.cfg.min_replicas (length nodes)) w set in
    (on, above, rw e less, rw e least)
