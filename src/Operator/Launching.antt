-- ===== src/Operator/Launching.antt =====
-- What startJobs writes (internal/operator/controller.go).
use dist_command_exec.Prelude.{
  ℕ, zero, suc, ◌+◌, ◌≤◌, ◌≡◌, ◌⊎◌, inl, inr, refl, String, Option, none, some, List, [], ◌∷◌,
  arith, length, length-append,
}
use dist_command_exec.Prelude.Int.{ℤ, pos_part}
use dist_command_exec.Executor.Command.{CommandPayload}
use dist_command_exec.Types.{Duration, Bytes}
use dist_command_exec.Client.{MasterClient}
use dist_command_exec.Operator.{
  DistributedJob, Update, submit_all, also, task_request, started, launched,
}

-- What startJobs promises of what it writes, when it is to start n tasks.
abbrev pub Launch : ℤ → Update → Type 0
Launch n w =
    (w.phase ≡ "Running")
      × ((id : String) × (ids : List String) × (w.task_ids ≡ some (id ∷ ids))
          × (length (id ∷ ids) ≤ pos_part n))
    ⊎ (w.phase ≡ "Failed") × (w.task_ids ≡ none)

module _ {M : Type 0} (c : MasterClient M) (marshal : CommandPayload → Option Bytes) where
  length-also :
      (ids : List String) (id : Option String) → length (also c marshal ids id) ≤ length ids + 1
  unfolding also
  length-also ids none = omega arith
  length-also ids (some id) = omega (arith, length-append ids (id ∷ []))

  length-submit_all :
      (u : DistributedJob) (payload : Bytes) (timeout : Duration) (left i : ℕ) (ids : List String)
      (m : M)
      → length (submit_all c marshal u payload timeout left i ids m).1 ≤ length ids + left
  unfolding submit_all
  length-submit_all u payload timeout zero i ids m = omega arith
  length-submit_all u payload timeout (suc left) i ids m =
      let sent = c.submit m (task_request c marshal u payload timeout i) in
      omega (
        arith,
        length-also ids sent.1,
        length-submit_all u payload timeout left (suc i) (also c marshal ids sent.1) sent.0,
      )

  launched-Launch :
      (n : ℤ) (r : M × List String) → length r.1 ≤ pos_part n → Launch n (launched c marshal n r).1
  unfolding launched
  launched-Launch n (m, []) few = inr (refl, refl)
  launched-Launch n (m, id ∷ ids) few = inl (refl, (id, ids, refl, few))

  pub started-Launch :
      (u : DistributedJob) (timeout : Duration) (n : ℤ) (m : M) (payload : Option Bytes)
      → Launch n (started c marshal m u timeout n payload).1
  unfolding started launched
  started-Launch u timeout n m none = inr (refl, refl)
  started-Launch u timeout n m (some payload) =
      launched-Launch n (submit_all c marshal u payload timeout (pos_part n) 0 [] m)
        (omega (arith, length-submit_all u payload timeout (pos_part n) 0 [] m))
