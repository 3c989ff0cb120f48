-- ===== src/Operator/Counts.antt =====
-- The counts of checkJobStatus (internal/operator/controller.go).
use dist_command_exec.Prelude.{
  ℕ, ◌+◌, ◌≤◌, ◌<◌, ◌≡◌, ◌∙◌, Option, none, some, List, [], ◌∷◌, arith, length,
}
use dist_command_exec.Prelude.Int.{pos, ◌+ℤ◌, int32, half32, int32_in_range, int_laws}
use dist_command_exec.Master.Server.{GetStatusResponse, JobStatus}
use dist_command_exec.Operator.{counted, Tally, tally}

-- Of the replies, those of a kind.
abbrev pub is_completed : JobStatus → ℕ
is_completed JobStatus.completed = 1
is_completed _ = 0

abbrev pub is_failed : JobStatus → ℕ
is_failed JobStatus.failed = 1
is_failed _ = 0

abbrev pub completed_by : Option GetStatusResponse → ℕ
completed_by none = 0
completed_by (some resp) = is_completed resp.status

abbrev pub failed_by : Option GetStatusResponse → ℕ
failed_by none = 0
failed_by (some resp) = is_failed resp.status

abbrev pub all_completed : List (Option GetStatusResponse) → ℕ
all_completed [] = 0
all_completed (r ∷ rs) = completed_by r + all_completed rs

abbrev pub all_failed : List (Option GetStatusResponse) → ℕ
all_failed [] = 0
all_failed (r ∷ rs) = failed_by r + all_failed rs

pub counts_le :
    (rs : List (Option GetStatusResponse)) → all_completed rs + all_failed rs ≤ length rs
counts_le [] = omega arith
counts_le (none ∷ rs) = omega (arith, counts_le rs)
counts_le (some r ∷ rs) = grind (arith, counts_le rs)

pub int32_add : (n k : ℕ) → n + k < half32 → int32 (pos n +ℤ pos k) ≡ pos (n + k)
int32_add n k h =
    let e : pos n +ℤ pos k ≡ pos (n + k) = grind int_laws in
    rw e (int32_in_range (pos (n + k)) (omega arith, omega arith))

abbrev pub tallied : ℕ → ℕ → Tally
tallied a b = record { completed = pos a; failed = pos b }

counted_lem :
    (s : JobStatus) (a b : ℕ)
    → a + b + 1 < half32
    → counted (tallied a b) s ≡ tallied (a + is_completed s) (b + is_failed s)
unfolding counted
counted_lem JobStatus.completed a b h = rw (int32_add a 1 (omega (arith, h))) (ground arith)
counted_lem JobStatus.failed a b h = rw (int32_add b 1 (omega (arith, h))) (ground arith)
counted_lem JobStatus.unspecified a b h = ground arith
counted_lem JobStatus.pending a b h = ground arith
counted_lem JobStatus.running a b h = ground arith
counted_lem JobStatus.cancelled a b h = ground arith
counted_lem JobStatus.timeout a b h = ground arith
counted_lem (JobStatus.unrecognized n) a b h = ground arith

one_kind : (s : JobStatus) → is_completed s + is_failed s ≤ 1
one_kind s = grind arith

tally_lem :
    (rs : List (Option GetStatusResponse)) (a b : ℕ)
    → a + b + length rs < half32
    → tally rs (tallied a b) ≡ tallied (a + all_completed rs) (b + all_failed rs)
unfolding tally
tally_lem [] a b h = ground arith
tally_lem (none ∷ rs) a b h = tally_lem rs a b (omega (arith, h)) ∙ ground arith
tally_lem (some r ∷ rs) a b h = rw (counted_lem r.status a b (omega (arith, h))) (
    tally_lem rs (a + is_completed r.status) (b + is_failed r.status)
      (omega (arith, h, one_kind r.status))
    ∙ ground arith)

pub tally_all :
    (rs : List (Option GetStatusResponse))
    → length rs < half32
    → tally rs (tallied 0 0) ≡ tallied (all_completed rs) (all_failed rs)
tally_all rs small = tally_lem rs 0 0 (omega (arith, small)) ∙ ground arith
