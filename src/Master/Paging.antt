-- ===== src/Master/Paging.antt =====
-- The loop that Store.ListJobs (internal/master/store.go) and Scheduler.ListTasks
-- (internal/master/scheduler.go) share, against a description of the page that it returns.
use dist_command_exec.Prelude.{
  ℕ, zero, suc, ◌+◌, ◌-◌, ◌≤◌, ◌≡◌, Bool, not, ◌&&◌, List, [], ◌∷◌, ◌++◌, arith, leb, if◌then◌else◌,
  length, sym, length-append, keep, take, drop, take-nil, drop-nil, Bool-cases, inl, inr,
}
use mathlib.Core.List.{append-nil, append_assoc}
use dist_command_exec.Prelude.Int.{ℤ, pos, pos_part, ltb_ℤ, leb_ℤ}
use dist_command_exec.Types.{TaskStatus, created, status_eq}

module _ {A : Type 0} (status : A → TaskStatus) (filter : TaskStatus) where
  -- The item passes `statusFilter != 0 && status != statusFilter`; the filter 0 is `created`.
  unfoldable pub excluded : A → Bool
  excluded a = not (status_eq filter created) && not (status_eq (status a) filter)

  module _ (limit offset : ℤ) where
    -- `i` counts the items skipped or taken, which is at most the size of the map.
    unfoldable pub page_loop : List A → ℕ → List A → List A
    page_loop [] i result = result
    page_loop (a ∷ rest) i result =
        let passed_over = page_loop rest i result in
        let skipped = page_loop rest (i + 1) result in
        let taken = result ++ a ∷ [] in
        let next = page_loop rest (i + 1) taken in
        if excluded a
        then passed_over
        else if ltb_ℤ (pos i) offset
        then skipped
        else if leb_ℤ limit (pos (length taken))
        then taken
        else next

    -- The page: what is left of the matching items behind the offset, cut at the limit. The loop
    -- tests the limit only after it has taken an item, so a limit below 1 yields one item.
    abbrev pub page : List A → List A
    page items =
        take (if leb (pos_part limit) 0 then 1 else pos_part limit)
          (drop (pos_part offset) (keep (λ a. not (excluded a)) items))

    abbrev matching : List A → List A
    matching = keep (λ a. not (excluded a))

    -- One item at least is taken.
    abbrev quota : ℕ
    quota = if leb (pos_part limit) 0 then 1 else pos_part limit

    -- Behind the offset, with room for `suc m` items more.
    taking :
        (m : ℕ) (items : List A) (i : ℕ) (result : List A)
        → pos_part offset ≤ i
        → length result + suc m ≡ quota
        → page_loop items i result ≡ result ++ take (suc m) (matching items)
    unfolding page_loop
    taking m [] i result behind room = sym (append-nil result)
    taking zero (a ∷ rest) i result behind room = elim (Bool-cases (excluded a)) [
      | inl e ↦ rw e (taking zero rest i result behind room)
      | inr e ↦ rw e (ground (arith, length-append result (a ∷ [])))
    ]
    taking (suc m) (a ∷ rest) i result behind room = elim (Bool-cases (excluded a)) [
      | inl e ↦ rw e (taking (suc m) rest i result behind room)
      | inr e ↦
          let more : page_loop rest (i + 1) (result ++ a ∷ [])
              ≡ (result ++ a ∷ []) ++ take (suc m) (matching rest) =
            taking m rest (i + 1) (result ++ a ∷ []) (omega arith)
              (omega (arith, length-append result (a ∷ []))) in
          rw e (
            ground (
              arith,
              length-append result (a ∷ []),
              more,
              append_assoc result (a ∷ []) (take (suc m) (matching rest)),
            ))
    ]

    skipping :
        (d : ℕ) (items : List A) (i : ℕ)
        → i + d ≡ pos_part offset
        → page_loop items i [] ≡ take quota (drop d (matching items))
    unfolding page_loop
    skipping d [] i at = rw (drop-nil d, take-nil quota)
    skipping zero (a ∷ rest) i at =
        rw room (taking (quota - 1) (a ∷ rest) i [] (omega arith) (omega (arith, room)))
      where
        room : quota ≡ suc (quota - 1)
        room = ground arith
    skipping (suc d) (a ∷ rest) i at = elim (Bool-cases (excluded a)) [
      | inl e ↦ rw e (skipping (suc d) rest i at)
      | inr e ↦ rw e (ground (arith, skipping d rest (i + 1)))
    ]

    -- The loop that ListJobs and ListTasks share returns the items that match the filter, in their
    -- order, without as many as the offset says, and cut at the limit, or at 1 for a limit below
    -- 1.
    pub page_loop-eq-page : (items : List A) → page_loop items 0 [] ≡ page items
    page_loop-eq-page items = skipping (pos_part offset) items 0 (omega arith)
