-- ===== src/Master/Scaler.antt =====
-- internal/master/scaler.go: the auto-scaler. The Kubernetes API is not part of the program: what
-- its calls return is the argument `api`, and what the scaler asks for is part of the result. The
-- healthy nodes are an argument too (see Master.Registry), and so is `time.Now()`. Each method runs
-- under the scaler's lock, so it is one step.
pub mod Bounds
pub mod Cooldown
use dist_command_exec.Prelude.{
  ℕ, suc, ◌+◌, ◌*◌, ◌/◌, String, Bool, true, false, not, ◌&&◌, ◌||◌, Option, none, some, List, [],
  ◌∷◌, ◌==◌, ltb, if◌then◌else◌, length,
}
use dist_command_exec.Prelude.Int.{
  ℤ, pos, negsuc, pos_part, neg_part, sub_ℕ, ltb_ℤ, leb_ℤ, ◌+ℤ◌, ◌-ℤ◌, int64, int32,
}
use dist_command_exec.Types.{Time, Duration, second}
use dist_command_exec.Master.Registry.{NodeInfo, sub_time, available_capacity}
use dist_command_exec.Master.Balancer.{total_weight, is_zero}

pub record ScalerConfig : Type 0 where
  pub min_replicas : ℤ
  pub max_replicas : ℤ
  pub tasks_per_worker : ℤ
  pub scale_up_threshold : ℤ
  pub cooldown_period : Duration
  pub scale_down_delay : Duration
  pub enabled : Bool

-- DefaultScalerConfig
unfoldable pub default_scaler_config : ScalerConfig
default_scaler_config = record {
  min_replicas = pos 3;
  max_replicas = pos 20;
  tasks_per_worker = pos 10;
  scale_up_threshold = pos 5;
  cooldown_period = pos (30 * second);
  scale_down_delay = pos (5 * (60 * second));
  enabled = false;
}

-- `has_k8s` says whether the client is set; its namespace and deployment only name the target.
pub record AutoScaler : Type 0 where
  pub cfg : ScalerConfig
  pub has_k8s : Bool
  pub last_scale_up : Time
  pub enabled : Bool

-- NewAutoScaler
unfoldable pub new_auto_scaler : ScalerConfig → AutoScaler
new_auto_scaler cfg = record {
  cfg = cfg;
  has_k8s = false;
  last_scale_up = 0;
  enabled = cfg.enabled;
}

-- NewAutoScalerWithK8s, with a client that may be nil.
unfoldable pub new_auto_scaler_with_k8s : ScalerConfig → Bool → AutoScaler
new_auto_scaler_with_k8s cfg has_k8s = record {
  cfg = cfg;
  has_k8s = has_k8s;
  last_scale_up = 0;
  enabled = cfg.enabled && has_k8s;
}

-- What the API answers: `deployment` is `none` if Get fails, and else the Replicas of the
-- deployment, a pointer that may be nil; `updates` says whether Update succeeds.
pub record Api : Type 0 where
  pub deployment : Option (Option ℤ)
  pub updates : Bool

-- How a call can fail; the last one is the panic of a division by zero.
pub data Failure : Type 0 where
  get_failed update_failed zero_division : Failure

-- What a call does besides its new state: the replicas that it passes to Update, and its error.
pub record Effect : Type 0 where
  pub written : Option ℤ
  pub failure : Option Failure

abbrev pub nothing : Effect
nothing = record { written = none; failure = none }

-- The product of two ints, with its wrap-around.
abbrev pub times_int : ℤ → ℤ → ℤ
times_int a b = int64 (
    sub_ℕ (pos_part a * pos_part b + neg_part a * neg_part b)
      (pos_part a * neg_part b + neg_part a * pos_part b))

-- Go's division of ints, which rounds to zero; the divisor is not 0.
abbrev pub quotient : ℤ → ℤ → ℤ
quotient a b = int64 (
    sub_ℕ (pos_part a / pos_part b + neg_part a / neg_part b)
      (pos_part a / neg_part b + neg_part a / pos_part b))

-- min
abbrev pub min_int : ℤ → ℤ → ℤ
min_int a b = if ltb_ℤ a b then a else b

-- The value of a pointer to the replicas, 0 for nil.
abbrev pub replicas_of : Option ℤ → ℤ
replicas_of none = pos 0
replicas_of (some k) = k

-- newReplicas in scaleUp.
unfoldable pub raised : ScalerConfig → Option ℤ → ℤ → ℤ
raised cfg replicas count =
    let new_replicas = int32 (replicas_of replicas +ℤ int32 count) in
    if ltb_ℤ (int32 cfg.max_replicas) new_replicas then int32 cfg.max_replicas else new_replicas

scale_up_with : AutoScaler → Time → Bool → ℤ → Option (Option ℤ) → AutoScaler × Effect
scale_up_with s now updates count none = (s, record { written = none; failure = some get_failed })
scale_up_with s now updates count (some replicas) =
    let effect : Effect = record {
      written = some (raised s.cfg replicas count);
      failure = if updates then none else some update_failed;
    } in
    (if updates then record s { last_scale_up = now } else s, effect)

-- scaleUp
unfoldable pub scale_up : AutoScaler → Time → Api → ℤ → AutoScaler × Effect
unfolding scale_up_with
scale_up s now api count =
    if s.has_k8s
    then scale_up_with s now api.updates count api.deployment
    else (record s { last_scale_up = now }, nothing)

-- The workers that case 1 of EnsureCapacity asks for.
unfoldable pub needed : ScalerConfig → ℤ → ℤ → ℤ
needed cfg pending current =
    min_int (int64 (quotient pending cfg.tasks_per_worker +ℤ pos 1))
      (int64 (cfg.max_replicas -ℤ current))

-- Case 2 of EnsureCapacity.
unfoldable pub backing_up : AutoScaler → Time → Api → ℤ → ℤ → AutoScaler × Effect
backing_up s now api pending current =
    if ltb_ℤ (times_int current s.cfg.scale_up_threshold) pending
      && ltb_ℤ current s.cfg.max_replicas
    then scale_up s now api (pos 1)
    else (s, nothing)

-- Cases 1 and 2 of EnsureCapacity.
unfoldable pub decide : AutoScaler → Time → Api → ℤ → ℤ → ℤ → AutoScaler × Effect
decide s now api pending current capacity =
    if is_zero capacity && ltb_ℤ (pos 0) pending
    then (if is_zero s.cfg.tasks_per_worker
        then (s, record { written = none; failure = some zero_division })
        else if ltb_ℤ (pos 0) (needed s.cfg pending current)
        then scale_up s now api (needed s.cfg pending current)
        else backing_up s now api pending current)
    else backing_up s now api pending current

-- EnsureCapacity; the loop over the nodes is that of the balancer's total weight.
unfoldable pub ensure_capacity : AutoScaler → Time → Api → List NodeInfo → ℤ → AutoScaler × Effect
ensure_capacity s now api nodes pending =
    if not s.enabled || ltb_ℤ (sub_time now s.last_scale_up) s.cfg.cooldown_period
    then (s, nothing)
    else decide s now api pending (pos (length nodes)) (total_weight (pos 0) nodes)

-- setReplicas
unfoldable pub set_replicas : AutoScaler → Api → ℤ → Effect
set_replicas s api replicas =
    if s.has_k8s
    then elim api.deployment [
      | none ↦ record { written = none; failure = some get_failed }
      | some _ ↦ record {
        written = some (int32 replicas);
        failure = if api.updates then none else some update_failed;
      }
    ]
    else nothing

count_idle : ℕ → List NodeInfo → ℕ
count_idle count [] = count
count_idle count (n ∷ ns) = count_idle (if is_zero n.active_tasks then suc count else count) ns

-- ScaleDown, which does not change the scaler.
unfoldable pub scale_down : AutoScaler → Api → List NodeInfo → Effect
unfolding count_idle
scale_down s api nodes =
    let current = length nodes in
    let less = pos current -ℤ pos 1 in
    let target = if ltb_ℤ less s.cfg.min_replicas then s.cfg.min_replicas else less in
    if not s.enabled || leb_ℤ (pos current) s.cfg.min_replicas
    then nothing
    else if ltb (current / 2) (count_idle 0 nodes)
    then set_replicas s api target
    else nothing

-- GetCurrentScale: current, desired, and whether it fails.
unfoldable pub get_current_scale : AutoScaler → Api → ℕ → ℤ × ℤ × Option Failure
get_current_scale s api healthy =
    if s.has_k8s
    then elim api.deployment [
      | none ↦ (pos healthy, pos healthy, some get_failed)
      | some none ↦ (pos healthy, pos 0, none)
      | some (some k) ↦ (pos healthy, k, none)
    ]
    else (pos healthy, pos healthy, none)

-- SetEnabled
unfoldable pub set_enabled : AutoScaler → Bool → AutoScaler
set_enabled s enabled = record s { enabled = enabled && (s.has_k8s || not enabled) }
