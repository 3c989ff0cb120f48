-- ===== src/Operator/Updates.antt =====
-- One event of the operator's watch (internal/operator/controller.go), with its write.
use dist_command_exec.Prelude.{
  ◌≡◌, ◌⊎◌, inl, inr, refl, String, Bool, true, false, Option, Option-cases, none, some, List, [],
  ◌∷◌, ◌&&◌, if◌then◌else◌,
}
use dist_command_exec.Executor.Command.{CommandPayload}
use dist_command_exec.Types.{Duration, Bytes}
use dist_command_exec.Client.{MasterClient}
use dist_command_exec.Operator.{
  DistributedJob, Spec, Update, Access, reconcile, update_status, on_update, status_of, written,
  saved, GoValue, string_value, Setting, panics, lives, dies, status_map,
}
use dist_command_exec.Operator.Phases.{Turns}

abbrev pub is_some : {A : Type 0} → Option A → Bool
is_some none = false
is_some (some a) = true

-- A write that changes the phase.
abbrev pub Moves : String → String → Type 0
Moves p q =
    ((p ≡ "") ⊎ (p ≡ "Pending")) × ((q ≡ "Running") ⊎ (q ≡ "Failed"))
    ⊎ (p ≡ "Running") × ((q ≡ "Succeeded") ⊎ (q ≡ "Failed") ⊎ (q ≡ "Running"))

-- The values that SetNestedField takes: those that encoding/json makes. It panics on any other.
abbrev pub is_json : GoValue → Bool
is_json (string_value s) = true
is_json _ = false

abbrev pub all_json : List (String × GoValue) → Bool
all_json [] = true
all_json ((key, v) ∷ rest) = is_json v && all_json rest

abbrev pub PanicsOnOthers : (DistributedJob → List (String × GoValue) → Setting) → Type 0
PanicsOnOthers set_nested_field =
    (u : DistributedJob) (m : List (String × GoValue))
    → all_json m ≡ false
    → set_nested_field u m ≡ panics

module _ (set_nested_field : DistributedJob → List (String × GoValue) → Setting)
    (documented : PanicsOnOthers set_nested_field) where
  written-panics :
      (b : Bool) (stored : DistributedJob) → written set_nested_field b stored panics ≡ dies stored
  unfolding written
  written-panics true stored = refl
  written-panics false stored = refl

  pub update_status_lem :
      (a : Access) (stored : DistributedJob) (w : Update)
      → update_status set_nested_field a stored w
        ≡ (if is_some a.found then dies stored else lives stored)
  unfolding update_status status_map
  update_status_lem a stored w = elim (Option-cases a.found) [
    | inl gone ↦ rw gone refl
    | inr (u, found) ↦
        let s = status_of u w a.now in
        rw (found, documented u (status_map s) refl) (written-panics a.writes stored)
  ]

module _ {M : Type 0} (c : MasterClient M) (marshal : CommandPayload → Option Bytes) where
  pub Turns-Moves :
      (u : DistributedJob) (spec : Spec) (met : String → M) (w : Update)
      → Turns c marshal u spec met w
      → Moves u.phase w.phase
  Turns-Moves u spec met w (inl (waits, inl (runs, rest))) = inl (waits, inl runs)
  Turns-Moves u spec met w (inl (waits, inr (fails, rest))) = inl (waits, inr fails)
  Turns-Moves u spec met w (inr (runs, v)) = inr (
    runs,
    elim v.0 [
      | inl (all, good) ↦ inl good
      | inr (inl (all, some_failed, bad)) ↦ inr (inl bad)
      | inr (inr (few, going)) ↦ inr (inr going)
    ],
  )

  -- One event that onAdd or onUpdate takes to reconcile, for any resource, where SetNestedField
  -- panics on values that are no JSON: the operator calls the master as reconcile does; if
  -- reconcile has a status to write and Get finds the resource, the process ends in a panic, else
  -- it goes on; either way what the API server stores is unchanged.
  pub on_update_lem :
      (set_nested_field : DistributedJob → List (String × GoValue) → Setting)
      (parse_duration : String → Option Duration) (m : M) (u : DistributedJob) (met : String → M)
      (a : Access) (stored : DistributedJob)
      → PanicsOnOthers set_nested_field
      → let (m', w) = reconcile c marshal parse_duration m u met in
        on_update c marshal set_nested_field parse_duration m u met a stored
        ≡ (m', if is_some w && is_some a.found then dies stored else lives stored)
  unfolding on_update saved
  on_update_lem set_nested_field parse_duration m u met a stored documented =
      elim (Option-cases (reconcile c marshal parse_duration m u met).1) [
        | inl nothing ↦ rw nothing refl
        | inr (w, writes) ↦
            rw (writes, update_status_lem set_nested_field documented a stored w) refl
      ]
