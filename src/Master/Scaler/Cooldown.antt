-- ===== src/Master/Scaler/Cooldown.antt =====
-- The time between scale-ups.
use dist_command_exec.Prelude.{◌-◌, ◌≤◌, ◌≡◌, true, none, some, List, arith, length}
use dist_command_exec.Prelude.Int.{ℤ, pos, ◌<ℤ◌, ltb_ℤ, ◌-ℤ◌}
use dist_command_exec.Types.{Time, Duration}
use dist_command_exec.Master.Registry.{NodeInfo, sub_time}
use dist_command_exec.Master.Balancer.{total_weight}
use dist_command_exec.Master.Scaler.{
  AutoScaler, Api, Effect, nothing, scale_up, decide, backing_up, needed, ensure_capacity,
}

-- The call has written the number of replicas, with no error.
abbrev pub IsScaled : AutoScaler × Effect → ℤ → Type 0
IsScaled (s, e) w = (e.written ≡ some w) × (e.failure ≡ none)

-- What a call at `now` leaves: the configuration, and the time of a scale-up that it made.
abbrev Stamped : AutoScaler → Time → AutoScaler × Effect → Type 0
Stamped s now r = (r.0.cfg ≡ s.cfg) × ((w : ℤ) → IsScaled r w → r.0.last_scale_up ≡ now)

scale_up-Stamped :
    (s : AutoScaler) (now : Time) (api : Api) (count : ℤ) → Stamped s now (scale_up s now api count)
unfolding scale_up
scale_up-Stamped s now api count = (ground arith, λ w h. ground arith)

backing_up-Stamped :
    (s : AutoScaler) (now : Time) (api : Api) (pending current : ℤ)
    → Stamped s now (backing_up s now api pending current)
unfolding backing_up
backing_up-Stamped s now api pending current =
    let up = scale_up-Stamped s now api (pos 1) in (ground arith, λ w h. ground (arith, up.1 w))

decide-Stamped :
    (s : AutoScaler) (now : Time) (api : Api) (pending current capacity : ℤ)
    → Stamped s now (decide s now api pending current capacity)
unfolding decide
decide-Stamped s now api pending current capacity =
    let up = scale_up-Stamped s now api (needed s.cfg pending current) in
    let back = backing_up-Stamped s now api pending current in
    (ground (arith, up.0, back.0), λ w h. ground (arith, up.1 w, back.1 w))

ensure_capacity-Stamped :
    (s : AutoScaler) (now : Time) (api : Api) (nodes : List NodeInfo) (pending : ℤ)
    → Stamped s now (ensure_capacity s now api nodes pending)
unfolding ensure_capacity
ensure_capacity-Stamped s now api nodes pending =
    let st = decide-Stamped s now api pending (pos (length nodes)) (total_weight (pos 0) nodes) in
    (ground (arith, st.0), λ w h. ground (arith, st.1 w))

ensure_capacity_quiet :
    (s : AutoScaler) (later : Time) (api : Api) (nodes : List NodeInfo) (pending : ℤ)
    → ltb_ℤ (sub_time later s.last_scale_up) s.cfg.cooldown_period ≡ true
    → ensure_capacity s later api nodes pending ≡ (s, nothing)
unfolding ensure_capacity
ensure_capacity_quiet s later api nodes pending soon = ground arith

sub_time_lt :
    (later now : Time) (d : Duration)
    → now ≤ later
    → pos (later - now) <ℤ d
    → ltb_ℤ (sub_time later now) d ≡ true
unfolding sub_time ◌-ℤ◌
sub_time_lt later now d order soon = ground arith

-- Once EnsureCapacity has scaled up, every later call until the cooldown is over does nothing,
-- whatever the nodes and the pending tasks then are.
pub ensure_capacity_cooldown :
    (s : AutoScaler) (now later : Time) (api api' : Api) (nodes nodes' : List NodeInfo)
    (pending pending' w : ℤ)
    → IsScaled (ensure_capacity s now api nodes pending) w
    → now ≤ later
    → pos (later - now) <ℤ s.cfg.cooldown_period
    → let s' = (ensure_capacity s now api nodes pending).0 in
      ensure_capacity s' later api' nodes' pending' ≡ (s', nothing)
ensure_capacity_cooldown s now later api api' nodes nodes' pending pending' w scaled order soon =
    let (same, stamped) = ensure_capacity-Stamped s now api nodes pending in
    ensure_capacity_quiet (ensure_capacity s now api nodes pending).0 later api' nodes' pending'
      (rw (same, stamped w scaled) (sub_time_lt later now s.cfg.cooldown_period order soon))
