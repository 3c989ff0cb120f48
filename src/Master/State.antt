-- ===== src/Master/State.antt =====
-- The master's shared state (internal/master/server.go, type Server): the store, the scheduler, the
-- registry, the round-robin counter of the balancer, the scaler and the dispatcher's client pool.
use dist_command_exec.Prelude.{ℕ, String}
use dist_command_exec.Prelude.Int.{ℤ}
use dist_command_exec.Prelude.Map.{Map}
use dist_command_exec.Types.{Duration}
use dist_command_exec.Master.Store.{Store}
use dist_command_exec.Master.Scheduler.{Scheduler}
use dist_command_exec.Master.Registry.{NodeRegistry}
use dist_command_exec.Master.Scaler.{AutoScaler}

pub record DispatcherConfig : Type 0 where
  pub task_timeout : Duration
  pub retry_delay : Duration
  pub max_retries : ℤ

pub record Master : Type 0 where
  pub store : Store
  pub scheduler : Scheduler
  pub registry : NodeRegistry
  -- The counter of the RoundRobinBalancer.
  pub counter : ℕ
  pub scaler : AutoScaler
  -- The client pool by node ID. A connection is represented by the address that it was dialled to.
  pub clients : Map String
  pub conns : Map String
  -- Set, and never read.
  pub settings : DispatcherConfig
