-- ===== src/Distctl/Reading.antt =====
-- What cmd/distctl/main.go prints where internal/master/server.go replies.
use Prim.Native.String.{◌++◌ as append}
use dist_command_exec.Prelude.{
  ◌≡◌, refl, ap, sym, ◌∙◌, subst, String, str_eq, Bool, true, false, Bool-cases, Option, inl, inr,
  none, some, List, [], ◌∷◌, ◌++◌, map, arith, take, length, length-map, keep, ◌≤◌, ◌⊎◌, eq_refl,
}
use dist_command_exec.Prelude.Int.{ℤ, pos, int32}
use dist_command_exec.Types.{Bytes, Time, cancelled, to_string}
use dist_command_exec.Executor.Command.{CommandPayload, decimal}
use dist_command_exec.Client.{command_payload, command_request, status_name}
use dist_command_exec.Client.Journey.{accept-job}
use dist_command_exec.Client.Hosted.{Hosted}
use dist_command_exec.Master.State.{Master}
use dist_command_exec.Master.Store.{Job, get_job, count}
use dist_command_exec.Master.Server.{
  JobStatus, GetStatusResponse, summary, can_cancel, is_empty, accept, from_proto_job_status,
}
use dist_command_exec.Master.Store.Lookup.{get-update_job_status}
use dist_command_exec.Master.Server as Server
use dist_command_exec.Master.Server.Replies.{matches, page_size, list_lem, get_status-accept}
use dist_command_exec.Master.Server.Cancelling.{cancel-can}
use dist_command_exec.Distctl.{
  run_command, submit_payload, submitted, exit_code, Settings, Shown, line, done, Ended, list_jobs,
  get_status, cancel_job, job_row, status_lines, table, row, rule, list_request,
}
use dist_command_exec.Distctl.Hosted.{stub}
use dist_command_exec.Distctl.Submitting.{run_lines, plain_lines}

-- The request of distctl filters nothing.
keep_all : (js : List Job) → keep (λ (j : Job). matches JobStatus.unspecified j.status) js ≡ js
keep_all [] = refl
keep_all (j ∷ js) = ap (λ rest. j ∷ rest) (keep_all js)

-- What `list` prints of some jobs.
abbrev pub listing : (Time → String) → List Job → ℤ → List Shown
listing rfc3339 [] total = line "No jobs found" ∷ []
listing rfc3339 (job ∷ rest) total =
    line (row "JOB ID" "TYPE" "STATUS" "CREATED")
      ∷ line rule
      ∷ map (λ job. job_row rfc3339 (summary job)) (job ∷ rest)
    ++ line "" ∷ line (append "Total: " (decimal total)) ∷ []

map-job_row :
    (rfc3339 : Time → String) (js : List Job)
    → map (job_row rfc3339) (map summary js) ≡ map (λ job. job_row rfc3339 (summary job)) js
map-job_row rfc3339 [] = refl
map-job_row rfc3339 (j ∷ js) =
    ap (λ rest. job_row rfc3339 (summary j) ∷ rest) (map-job_row rfc3339 js)

table-listing :
    (rfc3339 : Time → String) (js : List Job) (total : ℤ)
    → table rfc3339 (record { jobs = map summary js; total = total }) ≡ listing rfc3339 js total
unfolding table
table-listing rfc3339 [] total = refl
table-listing rfc3339 (j ∷ js) total = rw (map-job_row rfc3339 js) refl

cancel-cannot :
    (m : Master) (id : String) (job : Job)
    → str_eq id "" ≡ false
    → get_job m.store id ≡ some job
    → can_cancel job.status ≡ false
    → Server.cancel m id ≡ (
      m,
      Server.ok (record {
        cancelled = false;
        message = append "cannot cancel job in state " (to_string job.status);
      }),
    )
unfolding Server.cancel
cancel-cannot m id job given there cannot = rw (given, there, cannot) refl

Reply-cases :
    {A : Type 0} (r : Server.Reply A)
    → ((a : A) × (r ≡ Server.ok a)) ⊎ ((code : Server.Code) × (r ≡ Server.status code))
Reply-cases (Server.ok a) = inl (a, refl)
Reply-cases (Server.status code) = inr (code, refl)

module _ (order : Master → List (String × Job)) (dials : String → Bool)
    (marshal : CommandPayload → Option Bytes) (rfc3339 : Time → String) (g : Settings)
    (up : dials g.master_addr ≡ true) (plain : g.output_json ≡ false) where
  -- The jobs of a listing: the first ones, up to the limit.
  abbrev pub first_jobs : ℤ → Hosted → List Job
  first_jobs limit h = take (page_size (int32 limit)) (map (λ e. e.1) (order h.master))

  pub list_jobs_lem :
      (limit : ℤ) (h : Hosted)
      → (list_jobs (stub order) dials marshal rfc3339 g limit h
          ≡ (h, done (listing rfc3339 (first_jobs limit h) (int32 (pos (count h.master.store))))))
        × (length (first_jobs limit h) ≤ 100)
  unfolding list_jobs stub Server.list
  list_jobs_lem limit h =
      let req = list_request limit in
      let (same, few) = list_lem h.master req (order h.master) in
      let jobs = map (λ e. e.1) (order h.master) in
      let named : (Server.list h.master req (order h.master)).jobs
          ≡ map summary (first_jobs limit h) =
        same ∙ ap (λ js. map summary (take (page_size (int32 limit)) js)) (keep_all jobs) in
      (
        rw (up, plain, named)
            (ap (λ shown. (h, done shown))
              (table-listing rfc3339 (first_jobs limit h) (int32 (pos (count h.master.store))))),
        subst (λ n. n ≤ 100) (ap length named ∙ length-map summary (first_jobs limit h)) few,
      )

  -- `distctl cancel` without --json, for a job of the master, under an ID that is not empty: if the
  -- job may be cancelled, it says so and the job has the status CANCELLED; otherwise it prints the
  -- state of the job and changes nothing.
  pub cancel_job_lem :
      (h : Hosted) (id : String) (job : Job)
      → str_eq id "" ≡ false
      → get_job h.master.store id ≡ some job
      → let (h', ended) = cancel_job (stub order) dials marshal rfc3339 g id h in
        (can_cancel job.status ≡ true)
          × (ended ≡ done (line (append "Job " (append id " cancelled")) ∷ []))
          × (get_job h'.master.store id ≡ some (record job { status = cancelled }))
        ⊎ (can_cancel job.status ≡ false)
          × (ended
              ≡ done (
                  line (
                    append "Could not cancel job: "
                      (append "cannot cancel job in state " (to_string job.status)))
                  ∷ []))
          × (h' ≡ h)
  unfolding cancel_job stub get_job
  cancel_job_lem h id job given there = elim (Bool-cases (can_cancel job.status)) [
    | inl can ↦ inl (
      can,
      rw (up, plain, cancel-can h.master id job given there can) refl,
      rw (up, plain, cancel-can h.master id job given there can)
          (rw (get-update_job_status h.master.store id id cancelled job there, eq_refl id) refl),
    )
    | inr cannot ↦ inr (
      cannot,
      rw (up, plain, cancel-cannot h.master id job given there cannot) refl,
      rw (up, plain, cancel-cannot h.master id job given there cannot) refl,
    )
  ]

  -- A submission under an ID, and the status behind it.
  abbrev Submits : Hosted → Hosted × Ended → Type 0
  Submits h (h', ended) =
      let id = h.ids h.fresh in
      (ended ≡ done (run_lines g id))
      × ((get_status (stub order) dials marshal rfc3339 g id h').1
          ≡ done (
              line (append "Job ID:    " id)
              ∷ line "Status:    JOB_STATUS_PENDING"
              ∷ line (append "Created:   " (rfc3339 h.now))
              ∷ []))

  submit_payload-Submits :
      (h : Hosted) (o : Option Bytes)
      → str_eq (h.ids h.fresh) "" ≡ false
      → let r = submit_payload (stub order) dials marshal rfc3339 g h o in
        exit_code r.1 ≡ 0 → Submits h r
  unfolding Server.submit submit_payload submitted exit_code stub get_status status_lines
      status_name
  submit_payload-Submits h none named e = absurd (ground (arith, e))
  submit_payload-Submits h (some []) named e = absurd (ground (arith, e))
  submit_payload-Submits h (some (b ∷ bs)) named e =
      let id = h.ids h.fresh in
      let req = command_request (b ∷ bs) g.timeout in
      let stored = get_status-accept h.master req id h.fresh h.now named in
      elim (Reply-cases (accept h.master req id h.fresh h.now).1) [
        | inr (code, refused) ↦ absurd (ground (arith, e, refused))
        | inl (job, accepted) ↦
            let same : id ≡ job = accept-job h.master req id job h.fresh h.now accepted in
            rw (accepted, up, plain) (ap (λ j. done (plain_lines j)) (sym same), rw stored refl)
      ]

  pub get_status-run_command :
      (command : String) (args : List String) (h : Hosted)
      → str_eq (h.ids h.fresh) "" ≡ false
      → let (h', ended) = run_command (stub order) dials marshal rfc3339 g command args h in
        exit_code ended ≡ 0
        → let id = h.ids h.fresh in
          (ended ≡ done (run_lines g id))
          × ((get_status (stub order) dials marshal rfc3339 g id h').1
              ≡ done (
                  line (append "Job ID:    " id)
                  ∷ line "Status:    JOB_STATUS_PENDING"
                  ∷ line (append "Created:   " (rfc3339 h.now))
                  ∷ []))
  unfolding run_command
  get_status-run_command command args h named e = rw up (
      submit_payload-Submits h (marshal (command_payload command args)) named
        (ground (arith, e, up)))
