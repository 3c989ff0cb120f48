-- ===== src/Client/Hosted.antt =====
-- The master of internal/master/server.go behind the client's stub. The job IDs that uuid.New gives
-- and the clock belong to the state; every call arrives.
use dist_command_exec.Prelude.{ℕ, suc, String, Option, none, some}
use dist_command_exec.Types.{Time}
use dist_command_exec.Master.State.{Master}
use dist_command_exec.Master.Server.{Reply, ok, status}
use dist_command_exec.Master.Server as Server
use dist_command_exec.Client.{MasterClient}

pub record Hosted : Type 0 where
  pub master : Master
  pub ids : ℕ → String
  pub fresh : ℕ
  pub now : Time

abbrev pub answer {ℓ} : {A : Type ℓ} → Reply A → Option A
answer (ok a) = some a
answer (status code) = none

abbrev pub hosted : MasterClient Hosted
hosted = record {
  submit = λ h req.
      let (m, reply) = Server.submit h.master req (h.ids h.fresh) h.fresh h.now in
      (record h { master = m; fresh = suc h.fresh }, answer reply);
  get_status = λ h id. answer (Server.get_status h.master id);
  cancel =
      λ h id. let (m, reply) = Server.cancel h.master id in (record h { master = m }, answer reply);
}
