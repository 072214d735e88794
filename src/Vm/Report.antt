-- ===== src/Vm/Report.antt =====
-- updateAnsibleBindingVMStatus of controller/ansiblebindingvm.go: what a user reads about a VM.
use ansible_supervisor_servi.Prelude.{
  Bool, true, false, not, ◌||◌, Option, none, some, [], ◌∷◌, lit, decimal, is_some, ◌is◌,
  if◌then◌else◌,
}
use ansible_supervisor_servi.Errors.{Error, error_text}
use ansible_supervisor_servi.Objects.{Object, GenericStatus}
use ansible_supervisor_servi.Engine.Report.{update_generic_status}
use ansible_supervisor_servi.Vm.Model.{
  VmStatus, VmBody, undecodable, decoded, phase_succeeded, phase_failed, phase_running,
}

unfoldable pub report_vm : VmStatus → GenericStatus
report_vm st =
    if st.phase is phase_succeeded
    then (record {
      state = "Ready";
      message = lit "Job " ∷ decimal st.last_job_id ∷ lit " completed successfully." ∷ [];
      ready = true;
    })
    else if st.phase is phase_failed
    then (record {
      state = "Failed";
      message = lit "Job " ∷ decimal st.last_job_id ∷ lit " failed." ∷ [];
      ready = false;
    })
    else if st.phase is phase_running
    then (record {
      state = "Running";
      message = lit "Job " ∷ decimal st.last_job_id ∷ lit " is still running." ∷ [];
      ready = false;
    })
    else (record {
      state = "Pending";
      message =
          lit "VirtualMachine is not ready to run (powered off, or no reported address)." ∷ [];
      ready = false;
    })

unfoldable pub report_child : VmBody → GenericStatus
unfolding report_vm
report_child (undecodable e) = record {
  state = "Pending";
  message = lit "Could not read run status: " ∷ error_text e;
  ready = false;
}
report_child (decoded spec none owners) = record {
  state = "Pending";
  message = lit "Waiting for the VirtualMachine to report an address." ∷ [];
  ready = false;
}
report_child (decoded spec (some st) owners) = report_vm st

unfoldable pub update_ansible_binding_vm_status :
    Object VmBody → Bool → Option Error → GenericStatus
unfolding report_child
update_ansible_binding_vm_status u success e =
    if is_some e || not success then update_generic_status u success e else report_child u.body
