-- ===== src/Client/Waiting.antt =====
-- The loop of WaitForCompletion (pkg/client/client.go).
use dist_command_exec.Prelude.{
  ◌≡◌, ◌↔◌, inl, inr, refl, ap, sym, ◌∙◌, String, Bool-cases, true, false, Option-cases, some, List,
  [], ◌∷◌, map, arith,
}
use dist_command_exec.Client.{
  MasterClient, JobStatus, is_complete, is_final, ticked, finished, get_status, wait_for_completion,
}

module _ {M : Type 0} (c : MasterClient M) (id : String) where
  -- The states that the polls of the ticks see, in turn.
  abbrev pub seen : List (M → M) → M → List M
  seen [] m = []
  seen (f ∷ fs) m = f m ∷ seen fs (f m)

  -- A poll that ends the loop with a status, and one that lets it go on.
  abbrev pub Ends : JobStatus → M → Type 0
  Ends s m = (get_status c m id ≡ some s) × (is_complete s ≡ true)

  abbrev pub GoesOn : M → Type 0
  GoesOn m = (s : JobStatus) × (get_status c m id ≡ some s) × (is_complete s ≡ false)

  -- Where the loop stops: behind the polls that let it go on, at one that ends it.
  pub data Stops (s : JobStatus) : List M → Type 0 where
    ends : {m : M} {ms : List M} → Ends s m → Stops s (m ∷ ms)
    skips : {m : M} {ms : List M} → GoesOn m → Stops s ms → Stops s (m ∷ ms)

  returns :
      (s : JobStatus) (fs : List (M → M)) (m : M)
      → Stops s (seen fs m)
      → wait_for_completion c id (map ticked fs) m ≡ finished s
  unfolding wait_for_completion is_complete
  returns s [] m st = elim st [ ]
  returns s (f ∷ fs) m (ends (got, final)) = rw (got, final) refl
  returns s (f ∷ fs) m (skips (t, got, open_) st) = rw (got, open_) (returns s fs (f m) st)

  stops :
      (s : JobStatus) (fs : List (M → M)) (m : M)
      → wait_for_completion c id (map ticked fs) m ≡ finished s
      → Stops s (seen fs m)
  unfolding wait_for_completion is_complete
  stops s [] m h = absurd (ground (arith, h))
  stops s (f ∷ fs) m h = elim (Option-cases (get_status c (f m) id)) [
    | inl lost ↦ absurd (ground (arith, h, lost))
    | inr (t, got) ↦ elim (Bool-cases (is_final t.status)) [
      | inl final ↦
          let same : t ≡ s = ground (arith, h, got, final) in
          ends (got ∙ ap some same, ap (λ u. is_final u.status) (sym same) ∙ final)
      | inr open_ ↦ skips (t, got, open_) (stops s fs (f m) (ground (arith, h, got, open_)))
    ]
  ]

  -- Without an end of its context, WaitForCompletion returns a status exactly when some poll gets
  -- it, it is complete, and each poll before gets a status that is not.
  pub wait_for_completion_lem :
      (s : JobStatus) (fs : List (M → M)) (m : M)
      → (wait_for_completion c id (map ticked fs) m ≡ finished s) ↔ Stops s (seen fs m)
  wait_for_completion_lem s fs m = (stops s fs m, returns s fs m)
