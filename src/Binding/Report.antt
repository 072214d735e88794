-- ===== src/Binding/Report.antt =====
-- updateAnsibleBindingStatus of controller/ansiblebinding.go: what a user reads about a binding.
use ansible_supervisor_servi.Prelude.{
  ◌-◌, String, Bool, true, false, not, ◌&&◌, ◌||◌, Option, none, some, List, [], ◌∷◌, ◌++◌, Text,
  lit, decimal, length, take, join, is_some, leb, ◌==◌, ◌is◌, if◌then◌else◌,
}
use ansible_supervisor_servi.Errors.{Error, error_text}
use ansible_supervisor_servi.Objects.{Object, GenericStatus}
use ansible_supervisor_servi.Engine.Report.{update_generic_status}
use ansible_supervisor_servi.Binding.Model.{
  Summary, BindingStatus, BindingBody, undecodable, decoded,
}

-- nameList
unfoldable pub name_list : List String → Text
name_list names =
    if leb (length names) 3
    then lit (join ", " names) ∷ []
    else lit (join ", " (take 3 names))
      ∷ lit " and "
      ∷ decimal (length names - 3)
      ∷ lit " more"
      ∷ []

-- conflictMessage
unfoldable pub conflict_message : Summary → Text
conflict_message s =
    (decimal s.conflicted
      ∷ lit " of "
      ∷ decimal s.total
      ∷ lit " selected VM(s) are claimed by another binding: "
      ∷ name_list s.conflicted_vms)
    ++ (lit
          ". Narrow vmSelector, or release the existing owner; one binding owns a VM's whole lifecycle, so several playbooks for one VM belong in one AWX workflow under it."
        ∷ [])

abbrev failures_note : Summary → Text
failures_note s =
    if s.failed == 0
    then []
    else lit " " ∷ decimal s.failed ∷ lit " other VM(s) also failed their last run." ∷ []

abbrev first_note : Summary → Text
first_note s = if s.first_failure is "" then [] else lit " " ∷ lit s.first_failure ∷ []

abbrev generic : String → Text → Bool → GenericStatus
generic state message ready = record { state = state; message = message; ready = ready }

unfoldable pub report_summary : Summary → GenericStatus
report_summary s =
    if s.total == 0 && s.terminating == 0
    then generic "Pending" (lit "No VirtualMachines match vmSelector yet." ∷ []) false
    else if s.total == 0
    then generic "Terminating" (decimal s.terminating ∷ lit " VM(s) still cleaning up." ∷ []) false
    else if not (s.conflicted == 0)
    then generic "Conflict" (conflict_message s ++ failures_note s) false
    else if not (s.failed == 0)
    then generic "Failed"
        ((decimal s.failed
            ∷ lit " of "
            ∷ decimal s.total
            ∷ lit " VM(s) failed their last run: "
            ∷ name_list s.failed_vms)
          ++ (lit "." ∷ first_note s))
        false
    else if not (s.running == 0)
    then generic "Running"
        (decimal s.running ∷ lit " of " ∷ decimal s.total ∷ lit " VM(s) still running." ∷ []) false
    else if not (s.pending == 0)
    then generic "Pending"
        (decimal s.pending
          ∷ lit " of "
          ∷ decimal s.total
          ∷ lit
              " VM(s) have not completed this request yet (not yet started, powered off, or no reported IP)."
          ∷ [])
        false
    else if not (s.terminating == 0)
    then generic "Running"
        (lit "All "
          ∷ decimal s.total
          ∷ lit " VM(s) succeeded; "
          ∷ decimal s.terminating
          ∷ lit " child(ren) still cleaning up."
          ∷ [])
        false
    else generic "Ready"
        (lit "All " ∷ decimal s.total ∷ lit " VM(s) completed the requested run successfully." ∷ [])
        true

abbrev summary_of : Option BindingStatus → Option Summary
summary_of none = none
summary_of (some st) = st.summary

abbrev report_found : Option Summary → GenericStatus
report_found none = generic "Pending" (lit "No VirtualMachines match vmSelector yet." ∷ []) false
report_found (some s) = report_summary s

unfoldable pub report_binding : BindingBody → GenericStatus
unfolding report_summary
report_binding (undecodable e) =
    generic "Pending" (lit "Could not read the per-VM rollup: " ∷ error_text e) false
report_binding (decoded spec st) = report_found (summary_of st)

unfoldable pub update_ansible_binding_status :
    Object BindingBody → Bool → Option Error → GenericStatus
unfolding report_binding
update_ansible_binding_status u success e =
    if is_some e || not success then update_generic_status u success e else report_binding u.body
