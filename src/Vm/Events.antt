-- ===== src/Vm/Events.antt =====
-- controller/events.go, and reportHookOutcome of controller/ansiblebindingvm.go.
use ansible_supervisor_servi.Prelude.{
  String, Bool, false, Option, none, some, [], ◌∷◌, ◌++◌, Text, lit, quoted, decimal, ◌==◌, ◌is◌,
  if◌then◌else◌,
}
use ansible_supervisor_servi.Errors.{Result, ok}
use ansible_supervisor_servi.Exec.{Exec, pure, attempt, ◌>>=◌, ◌>>◌}
use ansible_supervisor_servi.Objects.{Object}
use ansible_supervisor_servi.Vm.Model.{
  DeprovisionStatus, VmSpec, VmStatus, VmBody, EventTarget, on_child, on_binding, event_created,
  VmServices, Visit, ask, tell, status_of, phase_succeeded, phase_failed, phase_timed_out,
  phase_skipped,
}
use ansible_supervisor_servi.Vm.Hook.{persist_hook_state}

abbrev pub event_normal : String
event_normal = "Normal"

abbrev pub event_warning : String
event_warning = "Warning"

-- The outcome in words; `to_lower` is strings.ToLower.
abbrev outcome_of : (String → String) → String → String
outcome_of to_lower phase =
    if phase is phase_succeeded
    then "succeeded"
    else if phase is phase_failed
    then "failed"
    else if phase is phase_timed_out
    then "timed out"
    else if phase is phase_skipped
    then "did not run"
    else to_lower phase

abbrev suffix : String → String → Text
suffix before s = if s is "" then [] else lit before ∷ lit s ∷ []

abbrev job_note : DeprovisionStatus → Text
job_note d =
    if d.job_id == 0
    then []
    else (lit " (AWX job " ∷ decimal d.job_id ∷ [])
      ++ suffix ", status " d.job_status
      ++ suffix ", " d.job_url
      ++ (lit ")" ∷ [])

-- hookOutcomeMessage of a hook that has a record.
unfoldable pub hook_outcome_message : (String → String) → String → DeprovisionStatus → Text
hook_outcome_message to_lower vm_name d =
    (lit "Deprovision hook for VirtualMachine "
      ∷ quoted vm_name
      ∷ lit " "
      ∷ lit (outcome_of to_lower d.phase)
      ∷ [])
    ++ job_note d
    ++ suffix ". " d.message

-- The type and the reason of the event.
abbrev pub event_kind : String → String × String
event_kind phase =
    if phase is phase_succeeded
    then (event_normal, "DeprovisionHookSucceeded")
    else if phase is phase_skipped
    then (event_normal, "DeprovisionHookSkipped")
    else if phase is phase_timed_out
    then (event_warning, "DeprovisionHookTimedOut")
    else (event_warning, "DeprovisionHookFailed")

abbrev target_from : Result (Option Bool) → EventTarget
target_from (ok (some false)) = on_binding
target_from _ = on_child

module _ {W : Type 0} (svc : VmServices W) where
  -- eventTarget
  unfoldable pub event_target : Object VmBody → String → Exec (Visit W) EventTarget
  event_target u binding =
      if binding is ""
      then pure on_child
      else (do r ← attempt (ask (svc.binding_deleting u.namespace binding)); pure (target_from r))

  -- recordEvent: an error is only logged.
  unfoldable pub record_event :
      EventTarget → Object VmBody → String × String → String → Exec (Visit W) (Unit {0})
  record_event t u kind message = do
    r ←
        attempt (
          tell (event_created t kind.0 kind.1 message) (svc.create_event t u kind.0 kind.1 message))
    pure tt

  unfoldable pub report_hook_outcome :
      Object VmBody → VmSpec → Option VmStatus → Exec (Visit W) (Unit {0})
  report_hook_outcome u spec prior = do
    st ← status_of
    elim st.deprovision [
      | none ↦ pure tt
      | some d ↦ do
        persist_hook_state svc u prior
        t ← event_target u spec.binding_name
        record_event t u (event_kind d.phase)
            (svc.render (hook_outcome_message svc.to_lower spec.vm_name d))
    ]
