-- ===== src/Operator/Watching/Panics.antt =====
-- What becomes of a resource and of the process, where updateStatus panics
-- (internal/operator/controller.go).
use dist_command_exec.Prelude.{
  ◌≡◌, refl, ap, ◌∙◌, String, Bool, true, false, Option, some, none, List, [], ◌∷◌, ◌&&◌,
  if◌then◌else◌,
}
use dist_command_exec.Types.{Bytes, Duration}
use dist_command_exec.Executor.Command.{CommandPayload}
use dist_command_exec.Client.{MasterClient}
use dist_command_exec.Operator.{
  DistributedJob, Spec, Update, Access, reconcile, start_jobs, GoValue, Setting, Outlook, lives,
  dies, text_of, to_string_slice, parallelism_of, run_timeout,
}
use dist_command_exec.Operator.Updates.{PanicsOnOthers, is_some, on_update_lem}
use dist_command_exec.Operator.Watching.{
  Event, Sight, Kind, added, updated, deleted, handle, handle_all, behind, seen,
}

-- The resource that is stored in the end.
abbrev pub stored_of : Outlook → DistributedJob
stored_of (lives u) = u
stored_of (dies u) = u

module _ {M : Type 0} (c : MasterClient M) (marshal : CommandPayload → Option Bytes)
    (set_nested_field : DistributedJob → List (String × GoValue) → Setting)
    (parse_duration : String → Option Duration) where
  -- startJobs with what reconcile reads from the spec.
  abbrev pub launch : DistributedJob → Spec → M → M × Update
  launch u spec m =
      start_jobs c marshal m u (text_of spec.command) (to_string_slice spec.args)
        (parallelism_of spec.parallelism) (run_timeout c marshal parse_duration spec.timeout)

  stored_either : (b : Bool) (u : DistributedJob) → stored_of (if b then dies u else lives u) ≡ u
  stored_either true u = refl
  stored_either false u = refl

  seen-stored :
      (o : Option DistributedJob) (x : Sight M) (m : M) (stored : DistributedJob)
      → PanicsOnOthers set_nested_field
      → stored_of (seen c marshal set_nested_field parse_duration o x (m, stored)).1 ≡ stored
  unfolding seen
  seen-stored none x m stored documented = refl
  seen-stored (some u) x m stored documented =
      let (m', w) = reconcile c marshal parse_duration m u x.met in
      ap (λ (r : M × Outlook). stored_of r.1)
        (on_update_lem c marshal set_nested_field parse_duration m u x.met x.access stored
          documented)
      ∙ stored_either (is_some w && is_some x.access.found) stored

  handle-stored :
      (k : Kind) (x : Sight M) (m : M) (stored : DistributedJob)
      → PanicsOnOthers set_nested_field
      → stored_of (handle c marshal set_nested_field parse_duration k x (m, stored)).1 ≡ stored
  unfolding handle
  handle-stored added x m stored documented = seen-stored x.object x m stored documented
  handle-stored updated x m stored documented = seen-stored x.object x m stored documented
  handle-stored deleted x m stored documented = refl

  behind-stored :
      (next : M × DistributedJob → M × Outlook) (r : M × Outlook)
      → ((m : M) (u : DistributedJob) → stored_of (next (m, u)).1 ≡ u)
      → stored_of (behind next r).1 ≡ stored_of r.1
  unfolding behind
  behind-stored next (m, lives u) same = same m u
  behind-stored next (m, dies u) same = refl

  -- Over any events, with any resources that the informer shows and any answers of the API server,
  -- where SetNestedField panics on values that are no JSON, the resource that the API server stores
  -- stays as it is: no status of the operator is ever stored.
  pub handle_all-stored :
      (es : List (Event M)) (m : M) (stored : DistributedJob)
      → PanicsOnOthers set_nested_field
      → stored_of (handle_all c marshal set_nested_field parse_duration es (m, stored)).1 ≡ stored
  unfolding handle_all
  handle_all-stored [] m stored documented = refl
  handle_all-stored (e ∷ es) m stored documented =
      behind-stored (handle_all c marshal set_nested_field parse_duration es)
        (handle c marshal set_nested_field parse_duration e.kind e.sight (e.meanwhile m, stored))
        (λ m' u. handle_all-stored es m' u documented)
      ∙ handle-stored e.kind e.sight (e.meanwhile m) stored documented

  -- The informer of a process shows a resource as it is stored.
  abbrev pub shows : DistributedJob → (String → M) → Access → Event M
  shows u met a = record {
    meanwhile = λ m. m;
    kind = added;
    sight = record { object = some u; met = met; access = a };
  }
