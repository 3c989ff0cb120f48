-- ===== src/Distctl/Sessions.antt =====
-- Commands of cmd/distctl/main.go one after another against internal/master/server.go, and as steps
-- of the master's goroutines.
use dist_command_exec.Prelude.{
  ℕ, suc, ◌≤◌, ◌<◌, ◌≡◌, ◌⊎◌, refl, ap, sym, ◌∙◌, subst, String, str_eq, eq_iff, Bool, true, false,
  Bool-cases, Option, inl, inr, none, some, List, [], ◌∷◌, arith, if◌then◌else◌,
}
use dist_command_exec.Prelude.Map
use dist_command_exec.Prelude.Map.{get-put}
use dist_command_exec.Types.{Bytes, Time, cancelled}
use dist_command_exec.Executor.Command.{CommandPayload}
use dist_command_exec.Client.{command_payload, command_request}
use dist_command_exec.Client.Hosted.{Hosted}
use dist_command_exec.Master.State.{Master}
use dist_command_exec.Master.Store.{Job, save_job, get_job}
use dist_command_exec.Master.Store.Lookup.{get-update_job_status}
use dist_command_exec.Master.Server.{CancelResponse, SubmitRequest, accept, job_of}
use dist_command_exec.Master.Server as Server
use dist_command_exec.Master.Server.Replies.{store-accept}
use dist_command_exec.Master.System.{System, Pc, Step, Reach, later, submits, asks, cancels}
use dist_command_exec.Master.System.Handlers.{cancel-cases}
use dist_command_exec.Distctl.{
  Stub, Settings, Shown, line, Ended, done, Invocation, run, status, list, cancel, execute,
  submitted, submit_payload, run_command, get_status, list_jobs, cancel_job, exit_code,
  status_lines,
}
use dist_command_exec.Distctl as Distctl
use dist_command_exec.Distctl.Hosted.{stub}

-- The IDs that are still to come are new, and no two are the same.
pub record AreNew (h : Hosted) : Type 0 where
  pub unused : (n : ℕ) → h.fresh ≤ n → Map.get h.master.store.jobs (h.ids n) ≡ none
  pub distinct : (n k : ℕ) → h.ids n ≡ h.ids k → n ≡ k

abbrev pub system_of : List (ℕ × Pc) → List String → Hosted → System
system_of held cancelling h = record {
  master = h.master;
  held = held;
  cancelling = cancelling;
  fresh = h.fresh;
}

abbrev after_submit : Hosted → SubmitRequest → Hosted
after_submit h req = record h {
  master = (Server.submit h.master req (h.ids h.fresh) h.fresh h.now).0;
  fresh = suc h.fresh;
}

abbrev after_cancel : Hosted → String → Hosted
after_cancel h id = record h { master = (Server.cancel h.master id).0 }

get-accept :
    (m : Master) (req : SubmitRequest) (id j : String) (p : ℕ) (now : Time)
    → str_eq id j ≡ false
    → Map.get (accept m req id p now).0.store.jobs j ≡ Map.get m.store.jobs j
unfolding save_job job_of Map.get
get-accept m req id j p now other = rw (store-accept m req id p now) (
    get-put m.store.jobs id j (job_of req id now)
    ∙ ap (λ b. if b then some (job_of req id now) else Map.get m.store.jobs j) other)

get-submit :
    (m : Master) (req : SubmitRequest) (id j : String) (p : ℕ) (now : Time)
    → str_eq id j ≡ false
    → Map.get (Server.submit m req id p now).0.store.jobs j ≡ Map.get m.store.jobs j
unfolding Server.submit
get-submit m req id j p now other = elim (Bool-cases (str_eq req.task_type "")) [
  | inl untyped ↦ rw untyped refl
  | inr typed ↦ elim (Bool-cases (Server.is_empty req.payload)) [
    | inl empty ↦ rw (typed, empty) refl
    | inr full ↦ rw (typed, full) (get-accept m req id j p now other)
  ]
]

after_submit-AreNew : (h : Hosted) (req : SubmitRequest) → AreNew h → AreNew (after_submit h req)
after_submit-AreNew h req v = record {
  unused = λ n above.
      get-submit h.master req (h.ids h.fresh) (h.ids n) h.fresh h.now (differ n (omega arith))
      ∙ v.unused n (omega arith);
  distinct = v.distinct;
}
  where
    differ : (n : ℕ) → h.fresh < n → str_eq (h.ids h.fresh) (h.ids n) ≡ false
    differ n above = elim (Bool-cases (str_eq (h.ids h.fresh) (h.ids n))) [
      | inl hit ↦
          absurd (omega (arith, v.distinct h.fresh n ((eq_iff (h.ids h.fresh) (h.ids n)).0 hit)))
      | inr miss ↦ miss
    ]

after_cancel-AreNew : (h : Hosted) (id : String) → AreNew h → AreNew (after_cancel h id)
after_cancel-AreNew h id v = record {
  unused = λ n above. elim (cancel-cases h.master id) [
    | inl same ↦ ap (λ (m : Master). Map.get m.store.jobs (h.ids n)) same ∙ v.unused n above
    | inr (job, known, named, can, changed) ↦
        ap (λ (m : Master). Map.get m.store.jobs (h.ids n)) changed
        ∙ get-update_job_status h.master.store id (h.ids n) cancelled job known
        ∙ ground (arith, v.unused n above, known, eq_iff id (h.ids n))
  ];
  distinct = v.distinct;
}

-- What a command does to the master.
abbrev Acts : Hosted → Hosted → Type 0
Acts h h' =
    (h' ≡ h)
    ⊎ ((req : SubmitRequest) × (h' ≡ after_submit h req))
    ⊎ ((id : String) × (h' ≡ after_cancel h id))

Acts-AreNew : (h h' : Hosted) → Acts h h' → AreNew h → AreNew h'
Acts-AreNew h h' (inl same) v = subst AreNew (sym same) v
Acts-AreNew h h' (inr (inl (req, e))) v = subst AreNew (sym e) (after_submit-AreNew h req v)
Acts-AreNew h h' (inr (inr (id, e))) v = subst AreNew (sym e) (after_cancel-AreNew h id v)

submit-Step :
    (h : Hosted) (req : SubmitRequest) (held : List (ℕ × Pc)) (c : List String)
    → AreNew h
    → Step (system_of held c h) (system_of held c (after_submit h req))
submit-Step h req held c v =
    subst
      (λ n.
        Step (system_of held c h) (record (system_of held c (after_submit h req)) { fresh = n }))
      (omega arith) (submits req (h.ids h.fresh) h.now (v.unused h.fresh (omega arith)))

-- A whole Cancel is its check and then its write, or nothing.
cancel-Reach :
    (h : Hosted) (held : List (ℕ × Pc)) (c : List String) (y : System) (id : String)
    → Reach y (system_of held c h)
    → Reach y (system_of held c (after_cancel h id))
unfolding get_job
cancel-Reach h held c y id r = elim (cancel-cases h.master id) [
  | inl same ↦ rw same r
  | inr (job, known, named, can, changed) ↦
      rw changed (later (later r (asks id job named known can)) (cancels [] c id refl))
]

Acts-Reach :
    (h h' : Hosted) (held : List (ℕ × Pc)) (c : List String) (y : System)
    → Acts h h'
    → AreNew h
    → Reach y (system_of held c h)
    → Reach y (system_of held c h')
Acts-Reach h h' held c y (inl same) v r = subst (λ x. Reach y (system_of held c x)) (sym same) r
Acts-Reach h h' held c y (inr (inl (req, e))) v r =
    subst (λ x. Reach y (system_of held c x)) (sym e) (later r (submit-Step h req held c v))
Acts-Reach h h' held c y (inr (inr (id, e))) v r =
    subst (λ x. Reach y (system_of held c x)) (sym e) (cancel-Reach h held c y id r)

module _ (order : Master → List (String × Job)) (dials : String → Bool)
    (marshal : CommandPayload → Option Bytes) (rfc3339 : Time → String) (g : Settings) where
  submitted-state :
      (r : Hosted × Option String) → (submitted (stub order) dials marshal rfc3339 g r).0 ≡ r.0
  unfolding submitted
  submitted-state (h, none) = refl
  submitted-state (h, some id) = refl

  cancelled-state :
      (id : String) (r : Hosted × Option CancelResponse)
      → (Distctl.cancelled (stub order) dials marshal rfc3339 g id r).0 ≡ r.0
  unfolding Distctl.cancelled
  cancelled-state id (h, none) = refl
  cancelled-state id (h, some resp) = refl

  -- What a command is to do to the master.
  abbrev submission : Hosted → Option Bytes → Hosted
  submission h none = h
  submission h (some payload) = after_submit h (command_request payload g.timeout)

  abbrev pub effect : Invocation → Hosted → Hosted
  effect (run command args) h = submission h (marshal (command_payload command args))
  effect (status id) h = h
  effect (list limit) h = h
  effect (cancel id) h = after_cancel h id

  abbrev pub effects : List Invocation → Hosted → Hosted
  effects [] h = h
  effects (i ∷ is) h = effects is (if dials g.master_addr then effect i h else h)

  submit_payload-submission :
      (h : Hosted) (o : Option Bytes)
      → (submit_payload (stub order) dials marshal rfc3339 g h o).0 ≡ submission h o
  unfolding submit_payload stub
  submit_payload-submission h none = refl
  submit_payload-submission h (some payload) =
      submitted-state ((stub order).calls.submit h (command_request payload g.timeout))

  execute-effect :
      (i : Invocation) (h : Hosted)
      → dials g.master_addr ≡ true
      → (execute (stub order) dials marshal rfc3339 g i h).0 ≡ effect i h
  unfolding execute run_command get_status list_jobs cancel_job stub
  execute-effect (run command args) h up =
      rw up (submit_payload-submission h (marshal (command_payload command args)))
  execute-effect (status id) h up = rw up refl
  execute-effect (list limit) h up = rw up refl
  execute-effect (cancel id) h up = rw up (cancelled-state id ((stub order).calls.cancel h id))

  unreachable :
      (i : Invocation) (h : Hosted)
      → dials g.master_addr ≡ false
      → (execute (stub order) dials marshal rfc3339 g i h).0 ≡ h
  unfolding execute run_command get_status list_jobs cancel_job
  unreachable (run command args) h down = rw down refl
  unreachable (status id) h down = rw down refl
  unreachable (list limit) h down = rw down refl
  unreachable (cancel id) h down = rw down refl

  any-effect :
      (i : Invocation) (h : Hosted)
      → (execute (stub order) dials marshal rfc3339 g i h).0
        ≡ (if dials g.master_addr then effect i h else h)
  any-effect i h = elim (Bool-cases (dials g.master_addr)) [
    | inl up ↦ execute-effect i h up ∙ rw up refl
    | inr down ↦ unreachable i h down ∙ rw down refl
  ]

  submission-Acts : (h : Hosted) (o : Option Bytes) → Acts h (submission h o)
  submission-Acts h none = inl refl
  submission-Acts h (some payload) = inr (inl (command_request payload g.timeout, refl))

  effect-Acts : (i : Invocation) (h : Hosted) → Acts h (effect i h)
  effect-Acts (run command args) h = submission-Acts h (marshal (command_payload command args))
  effect-Acts (status id) h = inl refl
  effect-Acts (list limit) h = inl refl
  effect-Acts (cancel id) h = inr (inr (id, refl))

  any-Acts : (i : Invocation) (h : Hosted) → Acts h (if dials g.master_addr then effect i h else h)
  any-Acts i h = elim (Bool-cases (dials g.master_addr)) [
    | inl up ↦ rw up (effect-Acts i h)
    | inr down ↦ rw down (inl refl)
  ]

  -- Commands one after another.
  abbrev pub run_all : List Invocation → Hosted → Hosted
  run_all [] h = h
  run_all (i ∷ is) h = run_all is (execute (stub order) dials marshal rfc3339 g i h).0

  run_all-effects : (is : List Invocation) (h : Hosted) → run_all is h ≡ effects is h
  run_all-effects [] h = refl
  run_all-effects (i ∷ is) h =
      run_all-effects is (execute (stub order) dials marshal rfc3339 g i h).0
      ∙ ap (effects is) (any-effect i h)

  effects-Reach :
      (is : List Invocation) (h : Hosted) (held : List (ℕ × Pc)) (c : List String) (y : System)
      → AreNew h
      → Reach y (system_of held c h)
      → Reach y (system_of held c (effects is h))
  effects-Reach [] h held c y v r = r
  effects-Reach (i ∷ is) h held c y v r =
      let h' = if dials g.master_addr then effect i h else h in
      effects-Reach is h' held c y (Acts-AreNew h h' (any-Acts i h) v)
        (Acts-Reach h h' held c y (any-Acts i h) v r)

  -- Any commands of distctl one after another, from a state of the master that the system of its
  -- goroutines can be in, whatever dispatchers and Cancels are then under way: where grpc.NewClient
  -- takes the address, `run` submits its command once if it can be marshalled, `cancel` cancels its
  -- job, and `status` and `list` leave the master as it is; otherwise nothing happens. The state
  -- after them is one that the system reaches too. The job IDs still to come are new, and no two
  -- are the same.
  pub run_all-Reach :
      (is : List Invocation) (h : Hosted) (held : List (ℕ × Pc)) (c : List String) (y : System)
      → AreNew h
      → Reach y (system_of held c h)
      → (run_all is h ≡ effects is h) × Reach y (system_of held c (run_all is h))
  run_all-Reach is h held c y v r = (
    run_all-effects is h,
    subst (λ x. Reach y (system_of held c x)) (sym (run_all-effects is h))
        (effects-Reach is h held c y v r),
  )
