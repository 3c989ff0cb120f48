-- ===== src/Distctl/Hosted.antt =====
-- The master of internal/master behind the stub that distctl uses. `order` is the order in which
-- the `range` of ListJobs yields the jobs.
use dist_command_exec.Prelude.{String, some, List}
use dist_command_exec.Master.State.{Master}
use dist_command_exec.Master.Store.{Job}
use dist_command_exec.Master.Server.{list}
use dist_command_exec.Client.Hosted.{Hosted, hosted}
use dist_command_exec.Distctl.{Stub}

unfoldable pub stub : (Master → List (String × Job)) → Stub Hosted
stub order = record {
  calls = hosted;
  list_jobs = λ h req. some (list h.master req (order h.master));
}
