-- ===== src/Master/System/Scaling.antt =====
-- The replicas that the master asks for, over the steps of its goroutines.
use dist_command_exec.Prelude.{
  ℕ, ◌<◌, ◌≡◌, refl, ap, sym, ◌∙◌, String, Bool, subst, true, false, ◌&&◌, Option, none, some, List,
  [], ◌∷◌, arith, length,
}
use dist_command_exec.Prelude.Int.{ℤ, pos, ◌≤ℤ◌, ◌+ℤ◌, half32, int32}
use dist_command_exec.Types.{Task, Time}
use dist_command_exec.Master.State.{Master}
use dist_command_exec.Master.Registry.{NodeInfo, get_healthy_nodes, check_health}
use dist_command_exec.Master.Scaler.{
  AutoScaler, ScalerConfig, Api, ensure_capacity, decide, backing_up, scale_up, new_auto_scaler,
  new_auto_scaler_with_k8s, default_scaler_config,
}
use dist_command_exec.Master.Scaler.Bounds.{
  scale_down_bounds, scale_down-has_k8s, ensure_capacity-max,
}
use dist_command_exec.Master.Dispatcher.{
  ExecuteRequest, ExecuteResponse, choose, send, get_client, give_up, fail, complete, remove_client,
}
use dist_command_exec.Master.Server.{
  MasterConfig, SubmitRequest, RegisterRequest, submit, accept, cancel_write, register, deregister,
  heartbeat, monitor, remove_clients, new_server, server_scaler,
}
use dist_command_exec.Master.Server.Running.{scale_tick}
use dist_command_exec.Master.System.{
  System, Pc, Step, Reach, after_send, here, later, submits, asks, cancels, registers, deregisters,
  beats, monitors, takes, selects, requeues, sends, replies,
}
use dist_command_exec.Master.System.Invariant.{initial}

-- A scaler with the same settings.
pub record Same (a b : AutoScaler) : Type 0 where
  pub cfg : b.cfg ≡ a.cfg
  pub enabled : b.enabled ≡ a.enabled
  pub has_k8s : b.has_k8s ≡ a.has_k8s

kept : (a b : AutoScaler) → b ≡ a → Same a b
kept a b e = record {
  cfg = ap (λ (s : AutoScaler). s.cfg) e;
  enabled = ap (λ (s : AutoScaler). s.enabled) e;
  has_k8s = ap (λ (s : AutoScaler). s.has_k8s) e;
}

submit-scaler :
    (m : Master) (req : SubmitRequest) (id : String) (p : ℕ) (now : Time)
    → (submit m req id p now).0.scaler ≡ m.scaler
unfolding submit accept
submit-scaler m req id p now = ground arith

cancel-scaler : (m : Master) (id : String) → (cancel_write m id).scaler ≡ m.scaler
cancel-scaler m id = ground arith

register-scaler :
    (m : Master) (req : RegisterRequest) (now : Time) → (register m req now).0.scaler ≡ m.scaler
unfolding register
register-scaler m req now = ground arith

remove_client-scaler : (m : Master) (id : String) → (remove_client m id).scaler ≡ m.scaler
unfolding remove_client
remove_client-scaler m id = ground arith

deregister-scaler : (m : Master) (id : String) → (deregister m id).0.scaler ≡ m.scaler
unfolding deregister remove_client
deregister-scaler m id = ground arith

heartbeat-scaler :
    (m : Master) (id : String) (active : ℤ) (now : Time)
    → (heartbeat m id active now).0.scaler ≡ m.scaler
unfolding heartbeat
heartbeat-scaler m id active now = ground arith

remove_clients-scaler : (ids : List String) (m : Master) → (remove_clients ids m).scaler ≡ m.scaler
unfolding remove_clients
remove_clients-scaler [] m = refl
remove_clients-scaler (id ∷ ids) m =
    remove_clients-scaler ids (remove_client m id) ∙ remove_client-scaler m id

send-scaler :
    (m : Master) (p : ℕ) (node : NodeInfo) (dials : Bool) (now : Time)
    → (send m p node dials now).0.scaler ≡ m.scaler
unfolding send get_client
send-scaler m p node dials now = ground arith

give_up-scaler : (m : Master) (p : ℕ) (now : Time) → (give_up m p now).scaler ≡ m.scaler
unfolding give_up
give_up-scaler m p now = ground arith

fail-scaler :
    (m : Master) (p : ℕ) (node : NodeInfo) (now : Time) → (fail m p node now).scaler ≡ m.scaler
unfolding fail give_up
fail-scaler m p node now = ground arith

complete-scaler :
    (m : Master) (p : ℕ) (node : NodeInfo) (resp : ExecuteResponse) (now : Time)
    → (complete m p node resp now).scaler ≡ m.scaler
unfolding complete
complete-scaler m p node resp now = ground arith

ensure_capacity-Same :
    (s : AutoScaler) (now : Time) (api : Api) (nodes : List NodeInfo) (pending : ℤ)
    → Same s (ensure_capacity s now api nodes pending).0
unfolding ensure_capacity decide backing_up scale_up
ensure_capacity-Same s now api nodes pending = ground arith

choose-Same :
    (m : Master) (now : Time) (api : Api) (seen : List NodeInfo)
    (visited : List (String × NodeInfo))
    → Same m.scaler (choose m now api seen visited).0.scaler
unfolding choose
choose-Same m now api seen visited = ensure_capacity-Same m.scaler now api seen _

after_send-scaler :
    (p : ℕ) (node : NodeInfo) (now : Time) (xs ys : List (ℕ × Pc)) (y : System)
    (sent : Option (String × ExecuteRequest))
    → (after_send p node now xs ys y sent).master.scaler ≡ y.master.scaler
after_send-scaler p node now xs ys y none = give_up-scaler y.master p now
after_send-scaler p node now xs ys y (some _) = refl

Step-Same : {y z : System} → Step y z → Same y.master.scaler z.master.scaler
unfolding monitor
Step-Same {y} (submits req id now new) = kept _ _ (submit-scaler y.master req id y.fresh now)
Step-Same {y} (asks id job named there can) = kept _ _ refl
Step-Same {y} (cancels xs ys id e) = kept _ _ (cancel-scaler y.master id)
Step-Same {y} (registers req now) = kept _ _ (register-scaler y.master req now)
Step-Same {y} (deregisters id) = kept _ _ (deregister-scaler y.master id)
Step-Same {y} (beats id active now) = kept _ _ (heartbeat-scaler y.master id active now)
Step-Same {y} (monitors now visited) = kept _ _ (
    remove_clients-scaler (check_health y.master.registry now visited).1
      (record y.master { registry = (check_health y.master.registry now visited).0 }))
Step-Same {y} (takes done choice p s e) = kept _ _ refl
Step-Same {y} (selects xs ys p now api seen visited e) = choose-Same y.master now api seen visited
Step-Same {y} (requeues xs ys p e) = kept _ _ refl
Step-Same {y} (sends xs ys p node dials now e) = kept _ _ (
    after_send-scaler p node now xs ys (record y { master = (send y.master p node dials now).0 })
      (send y.master p node dials now).1
    ∙ send-scaler y.master p node dials now)
Step-Same {y} (replies xs ys p node none now e) = kept _ _ (fail-scaler y.master p node now)
Step-Same {y} (replies xs ys p node (some resp) now e) =
    kept _ _ (complete-scaler y.master p node resp now)

Same-trans : (a b c : AutoScaler) → Same a b → Same b c → Same a c
Same-trans a b c f g = record {
  cfg = g.cfg ∙ f.cfg;
  enabled = g.enabled ∙ f.enabled;
  has_k8s = g.has_k8s ∙ f.has_k8s;
}

Reach-Same : {y z : System} → Reach y z → Same y.master.scaler z.master.scaler
Reach-Same here = kept _ _ refl
Reach-Same (later r s) = Same-trans _ _ _ (Reach-Same r) (Step-Same s)

-- The scaler of NewServer.
abbrev Starts : Bool → Bool → AutoScaler → Type 0
Starts scaling has_k8s s =
    (s.cfg.min_replicas ≡ pos 3)
    × (s.cfg.max_replicas ≡ pos 20)
    × (s.enabled ≡ scaling)
    × (s.has_k8s ≡ scaling && has_k8s)

server_scaler-Starts :
    (scaling has_k8s : Bool) → Starts scaling has_k8s (server_scaler scaling has_k8s)
unfolding server_scaler new_auto_scaler new_auto_scaler_with_k8s default_scaler_config
server_scaler-Starts true true = (refl, refl, refl, refl)
server_scaler-Starts true false = (refl, refl, refl, refl)
server_scaler-Starts false true = (refl, refl, refl, refl)
server_scaler-Starts false false = (refl, refl, refl, refl)

both : (a b : Bool) → (a && b) ≡ true → b ≡ true
both true b h = h
both false b h = absurd (ground (arith, h))

module _ (heap : ℕ → Task) (cfg : MasterConfig) (has_k8s : Bool) (z : System)
    (r : Reach (initial heap cfg has_k8s) z) where
  settings : Starts cfg.scaling_enabled has_k8s z.master.scaler
  unfolding new_server
  settings =
      let s = Reach-Same r in
      let (least, most, on, k8s) = server_scaler-Starts cfg.scaling_enabled has_k8s in
      (
        ap (λ (c : ScalerConfig). c.min_replicas) s.cfg ∙ least,
        ap (λ (c : ScalerConfig). c.max_replicas) s.cfg ∙ most,
        s.enabled ∙ on,
        s.has_k8s ∙ k8s,
      )

  -- In a dispatch the master never asks for more than 20 replicas.
  pub ensure_capacity-most :
      (now : Time) (api : Api) (seen : List NodeInfo) (pending w : ℤ)
      → (ensure_capacity z.master.scaler now api seen pending).1.written ≡ some w
      → w ≤ℤ pos 20
  unfolding int32
  ensure_capacity-most now api seen pending w h =
      subst (λ n. w ≤ℤ int32 n) settings.1
        (ensure_capacity-max z.master.scaler now api seen pending w h)

  -- In every state that the master reaches from its start, with fewer than 2^31 healthy nodes: if a
  -- tick of the scale-down writes a number of replicas, then scaling is enabled in the settings,
  -- there is a client of Kubernetes, and the number is at least 3 and one less than the healthy
  -- nodes.
  pub scale_tick_lem :
      (api : Api) (visited : List (String × NodeInfo)) (w : ℤ)
      → length (get_healthy_nodes visited) < half32
      → (scale_tick z.master api visited).written ≡ some w
      → (cfg.scaling_enabled ≡ true)
        × (has_k8s ≡ true)
        × (pos 3 ≤ℤ w)
        × (w +ℤ pos 1 ≡ pos (length (get_healthy_nodes visited)))
  unfolding scale_tick
  scale_tick_lem api visited w few h =
      let s = z.master.scaler in
      let (least, most, on, k8s) = settings in
      let (enabled, above, less, kept) =
        scale_down_bounds s api (get_healthy_nodes visited) w few (rw least (omega arith)) h in
      (
        sym on ∙ enabled,
        both cfg.scaling_enabled has_k8s
            (sym k8s ∙ scale_down-has_k8s s api (get_healthy_nodes visited) w h),
        subst (λ n. n ≤ℤ w) least kept,
        less,
      )
