-- ===== src/Worker.antt =====
-- internal/worker: the process that runs tasks for the master. Runner follows runner.go, Server the
-- handlers of server.go, and Registration registration.go; Crew lets concurrent calls interleave.
pub mod Runner
pub mod Server
pub mod Registration
pub mod Crew
pub mod Commands
pub mod Process
