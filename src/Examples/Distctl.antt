-- ===== src/Examples/Distctl.antt =====
-- A session at the command line, against a new master.
use Prim.Native.Char.{char}
use Prim.Native.String.{◌++◌ as append, ◌∷◌ as prepend}
use dist_command_exec.Prelude.{
  ℕ, zero, suc, ◌≡◌, ◌↔◌, ◌⊎◌, refl, ap, String, Bool, true, false, Option, some, none, List, [],
  ◌∷◌, arith, length,
}
use dist_command_exec.Prelude.Int.{pos}
use dist_command_exec.Prelude.Map
use dist_command_exec.Prelude.Map.{get-empty}
use dist_command_exec.Types.{Bytes, Time, pending, cancelled, to_string}
use dist_command_exec.Config.Texts.{codes}
use dist_command_exec.Executor.Command.{CommandPayload}
use dist_command_exec.Master.State.{Master}
use dist_command_exec.Master.Store.{Job, get_job, new_store, save_job}
use dist_command_exec.Master.Server.{new_server, can_cancel, submit, accept}
use dist_command_exec.Master.Scheduler.{enqueue, new_scheduler}
use dist_command_exec.Master.System.{Reach, here}
use dist_command_exec.Master.System.Invariant.{initial}
use dist_command_exec.Client.{run_command_with_timeout}
use dist_command_exec.Client.Hosted.{Hosted, hosted}
use dist_command_exec.Distctl.{
  default_settings, done, line, Invocation, run, status, list, cancel, run_command, cancel_job,
  exit_code,
}
use dist_command_exec.Distctl.Hosted.{stub}
use dist_command_exec.Distctl.Submitting.{run_lines, run_command-run_command_with_timeout}
use dist_command_exec.Distctl.Reading.{cancel_job_lem}
use dist_command_exec.Distctl.Sessions.{AreNew, system_of, run_all, effects, run_all-Reach}
use dist_command_exec.Examples.{blank, config}

-- IDs of growing length.
id_of : ℕ → String
id_of zero = "a"
id_of (suc n) = prepend (char 97 tt) (id_of n)

abbrev start : Hosted
start = record {
  master = new_server (λ _. blank) (config 2) false;
  ids = id_of;
  fresh = 0;
  now = 5;
}

abbrev marshal : CommandPayload → Option Bytes
marshal p = some (108 ∷ 115 ∷ [])

abbrev order : Master → List (String × Job)
order m = m.store.jobs.entries

abbrev dials : String → Bool
dials a = true

abbrev rfc3339 : Time → String
rfc3339 t = "2024-01-01T00:00:00Z"

length-id_of : (n : ℕ) → length (codes (id_of n)) ≡ suc n
unfolding id_of codes
length-id_of zero = refl
length-id_of (suc n) = ap suc (length-id_of n)

id_of_distinct : (n k : ℕ) → id_of n ≡ id_of k → n ≡ k
id_of_distinct n k e = omega (arith, length-id_of n, length-id_of k, ap (λ s. length (codes s)) e)

start-AreNew : AreNew start
unfolding new_server new_store
start-AreNew = record {
  unused = λ n above. get-empty {V = Job} (id_of n);
  distinct = id_of_distinct;
}

abbrev session : List Invocation
session = run "ls" ("-l" ∷ []) ∷ status "a" ∷ cancel "a" ∷ list (pos 10) ∷ []

run_all-Reach_example :
    (run_all order dials marshal rfc3339 default_settings session start
      ≡ effects order dials marshal rfc3339 default_settings session start)
    × Reach
        (initial (λ _. blank) (config 2) false)
        (system_of [] [] (run_all order dials marshal rfc3339 default_settings session start))
run_all-Reach_example =
    run_all-Reach order dials marshal rfc3339 default_settings session start [] []
      (initial (λ _. blank) (config 2) false) start-AreNew here

run_command-run_command_with_timeout_example :
    ((run_command (stub order) dials marshal rfc3339 default_settings "ls" [] start).0
      ≡ (run_command_with_timeout hosted marshal start "ls" default_settings.timeout []).0)
    × ((exit_code (run_command (stub order) dials marshal rfc3339 default_settings "ls" [] start).1
          ≡ 0)
        ↔ ((id : String) × ((run_command_with_timeout hosted marshal start "ls"
                default_settings.timeout []).1
              ≡ some id)
            × ((run_command (stub order) dials marshal rfc3339 default_settings "ls" [] start).1
                ≡ done (run_lines default_settings id))))
unfolding stub
run_command-run_command_with_timeout_example =
    run_command-run_command_with_timeout (stub order) dials marshal rfc3339 default_settings "ls" []
      start refl

abbrev one_job : Hosted
one_job = (run_command (stub order) dials marshal rfc3339 default_settings "ls" [] start).0

abbrev stored : Job
stored = record {
  id = "a";
  task_type = "command";
  payload = 108 ∷ 115 ∷ [];
  priority = pos 0;
  timeout = pos 30000000000;
  metadata = Map.empty;
  created_at = 5;
  status = pending;
  result = none;
}

job_stored : get_job one_job.master.store "a" ≡ some stored
unfolding run_command stub submit accept save_job get_job Map.get new_server new_store enqueue
    new_scheduler Map.put Map.empty id_of
job_stored = refl

cancel_job_lem_example :
    (can_cancel pending ≡ true)
      × ((cancel_job (stub order) dials marshal rfc3339 default_settings "a" one_job).1
          ≡ done (line "Job a cancelled" ∷ []))
      × (get_job
            (cancel_job
              (stub order)
              dials
              marshal
              rfc3339
              default_settings
              "a"
              one_job).0.master.store
            "a"
          ≡ some (record stored { status = cancelled }))
    ⊎ (can_cancel pending ≡ false)
      × ((cancel_job (stub order) dials marshal rfc3339 default_settings "a" one_job).1
          ≡ done (
              line (
                append "Could not cancel job: "
                  (append "cannot cancel job in state " (to_string pending)))
              ∷ []))
      × ((cancel_job (stub order) dials marshal rfc3339 default_settings "a" one_job).0 ≡ one_job)
cancel_job_lem_example =
    cancel_job_lem order dials marshal rfc3339 default_settings refl refl one_job "a" stored refl
      job_stored
