-- ===== src/Master.antt =====
-- internal/master: the master node's components, and the system that they form.
pub mod Paging
pub mod Store
pub mod Scheduler
pub mod Registry
pub mod Balancer
pub mod Scaler
pub mod State
pub mod Dispatcher
pub mod Server
pub mod System
