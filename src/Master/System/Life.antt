-- ===== src/Master/System/Life.antt =====
-- A specification of the life of a job in the store of internal/master/store.go, without queue,
-- dispatchers and workers.
use dist_command_exec.Prelude.{
  ℕ, ◌+◌, ◌≡◌, refl, sym, subst, ◌∙◌, Bool, true, false, Option, none, some, Option-cases,
  Bool-cases, inl, inr, if◌then◌else◌, arith,
}
use dist_command_exec.Types.{TaskStatus, pending, failed, cancelled, Result, is_success}
use dist_command_exec.Master.Store.{Job, outcome}
use dist_command_exec.Master.Server.{
  can_cancel, JobStatus, to_proto_job_status, Reply, ok, status, GetStatusResponse,
}

-- A job is not there, is open with a status, is settled by a result, or has a result and was
-- cancelled after it came.
pub data Life : Type 0 where
  absent : Life
  open_ : TaskStatus → Life
  settled : Result → Life
  withdrawn : Result → Life

-- With the number of Cancels that may still write. A job arrives as pending. While it is open it
-- may fail or be settled, and a Cancel may be let through, if the status is one that can be
-- cancelled. Such a Cancel writes later, whatever the job is by then.
pub data Next : Life × ℕ → Life × ℕ → Type 0 where
  arrives : {k : ℕ} → Next (absent, k) (open_ pending, k)
  fails : {s : TaskStatus} {k : ℕ} → Next (open_ s, k) (open_ failed, k)
  settles : {s : TaskStatus} {k : ℕ} (r : Result) → Next (open_ s, k) (settled r, k)
  lets : {s : TaskStatus} {k : ℕ} → can_cancel s ≡ true → Next (open_ s, k) (open_ s, k + 1)
  stops : {s : TaskStatus} {k : ℕ} → Next (open_ s, k + 1) (open_ cancelled, k)
  withdraws : {r : Result} {k : ℕ} → Next (settled r, k + 1) (withdrawn r, k)
  repeats : {r : Result} {k : ℕ} → Next (withdrawn r, k + 1) (withdrawn r, k)

pub data Follows (l : Life × ℕ) : Life × ℕ → Type 0 where
  stays : Follows l l
  goes : {m n : Life × ℕ} → Follows l m → Next m n → Follows l n

pub Follows-trans : {l m n : Life × ℕ} → Follows l m → Follows m n → Follows l n
Follows-trans f stays = f
Follows-trans f (goes g s) = goes (Follows-trans f g) s

abbrev pub is_cancelled : TaskStatus → Bool
is_cancelled cancelled = true
is_cancelled _ = false

-- The life of what the store holds under an ID.
abbrev pub life_of : TaskStatus → Option Result → Life
life_of s none = open_ s
life_of s (some r) = if is_cancelled s then withdrawn r else settled r

abbrev pub life : Option Job → Life
life none = absent
life (some job) = life_of job.status job.result

-- What a client sees of it.
abbrev pub shown : Life → Option JobStatus
shown absent = none
shown (open_ s) = some (to_proto_job_status s)
shown (settled r) = some (if is_success r then JobStatus.completed else JobStatus.failed)
shown (withdrawn r) = some JobStatus.cancelled

abbrev pub seen : Reply GetStatusResponse → Option JobStatus
seen (ok resp) = some resp.status
seen (status code) = none

-- A job without a result, with a new status, or with a result.
pub reopens :
    (job : Job) (s : TaskStatus) (k : ℕ)
    → job.result ≡ none
    → Next (open_ job.status, k) (open_ s, k)
    → Follows (life (some job), k) (life_of s job.result, k)
reopens job s k e n = rw e (goes stays n)

pub life_of-outcome : (r : Result) → life_of (outcome r) (some r) ≡ settled r
unfolding outcome
life_of-outcome r = ground arith

pub closes :
    (job : Job) (r : Result) (k : ℕ)
    → job.result ≡ none
    → Follows (life (some job), k) (life_of (outcome r) (some r), k)
closes job r k e = rw (life_of-outcome r, e) (goes stays (settles r))

-- A Cancel that was let through writes.
pub cancels :
    (job : Job) (k : ℕ) → Follows (life (some job), k + 1) (life_of cancelled job.result, k)
cancels job k = elim (Option-cases job.result) [
  | inl none_yet ↦ rw none_yet (goes stays stops)
  | inr (r, e) ↦ elim (Bool-cases (is_cancelled job.status)) [
    | inl again ↦ rw (e, again) (goes stays repeats)
    | inr first ↦ rw (e, first) (goes stays withdraws)
  ]
]

-- A Cancel that was let through.
pub asks :
    (job : Job) (k : ℕ)
    → job.result ≡ none
    → can_cancel job.status ≡ true
    → Follows (life (some job), k) (life (some job), k + 1)
asks job k e can = rw e (goes stays (lets can))

-- A Cancel that may still write is about a job that is there.
abbrev pub IsAbout : Life × ℕ → Type 0
IsAbout (absent, k) = k ≡ 0
IsAbout _ = Unit

Next-IsAbout : {l m : Life × ℕ} → Next l m → IsAbout m
Next-IsAbout arrives = tt
Next-IsAbout fails = tt
Next-IsAbout (settles r) = tt
Next-IsAbout (lets can) = tt
Next-IsAbout stops = tt
Next-IsAbout withdraws = tt
Next-IsAbout repeats = tt

pub Follows-IsAbout : {l m : Life × ℕ} → Follows l m → IsAbout l → IsAbout m
Follows-IsAbout stays h = h
Follows-IsAbout (goes f s) h = Next-IsAbout s

pub job_there : (o : Option Job) (k : ℕ) → IsAbout (life o, k + 1) → (job : Job) × (o ≡ some job)
job_there none k h = absurd (omega (arith, h))
job_there (some job) k h = (job, refl)

-- A job as the store shows it for good: with a result, and no Cancel that may still write.
abbrev pub IsFinal : Life × ℕ → Type 0
IsFinal (settled r, k) = k ≡ 0
IsFinal (withdrawn r, k) = k ≡ 0
IsFinal _ = ⊥

Next-final : {l m : Life × ℕ} → Next l m → IsFinal l → m ≡ l
Next-final arrives h = absurd h
Next-final fails h = absurd h
Next-final (settles r) h = absurd h
Next-final (lets can) h = absurd h
Next-final stops h = absurd h
Next-final withdraws h = absurd (omega (arith, h))
Next-final repeats h = absurd (omega (arith, h))

pub Follows-final : {l m : Life × ℕ} → Follows l m → IsFinal l → m ≡ l
Follows-final stays h = refl
Follows-final {l} (goes {m} f s) h =
    let same : m ≡ l = Follows-final f h in Next-final s (subst IsFinal (sym same) h) ∙ same
