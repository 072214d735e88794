-- ===== src/Vm/Ready.antt =====
-- vmReady of controller/util.go, checkOwnedByItsVM, hasRecordedLaunchIdentity and needsRun of
-- controller/ansiblebindingvm.go: what decides about a run.
use Prim.Native.Char.{code}
use Prim.Native.Nat.{ℕ, ◌+◌}
use ansible_supervisor_servi.Prelude.{
  String, Bool, true, false, not, ◌&&◌, ◌||◌, Option, none, some, List, [], ◌∷◌, lit, quoted, leb,
  ◌==◌, ◌is◌, if◌then◌else◌,
}
use ansible_supervisor_servi.Errors.{Result, ok, err, wrap, permanent_config}
use ansible_supervisor_servi.Awx.{ConnectionSpec, template_type_job, template_type_workflow}
use ansible_supervisor_servi.Vm.Model.{VmSpec, VmStatus, OwnerReference, VirtualMachine}

abbrev lower : ℕ → ℕ
lower c = if leb 65 c && leb c 90 then c + 32 else c

-- strings.EqualFold, for texts none of whose letters is the folding of another script's.
unfoldable pub equal_fold : String → String → Bool
equal_fold String.[] String.[] = true
equal_fold (String.◌∷◌ c s) (String.◌∷◌ d t) = lower (code c) == lower (code d) && equal_fold s t
equal_fold _ _ = false

-- vmReady: the address, none where the VM is not ready.
unfoldable pub vm_ready : VirtualMachine → Option String
unfolding equal_fold
vm_ready vm =
    if not (equal_fold vm.power_state "PoweredOn")
    then none
    else if not (vm.primary_ip4 is "")
    then some vm.primary_ip4
    else if not (vm.primary_ip6 is "")
    then some vm.primary_ip6
    else if not (vm.vm_ip is "")
    then some vm.vm_ip
    else none

abbrev pub vm_group : String
vm_group = "vmoperator.vmware.com"

abbrev in_group : Option String → String → Bool
in_group none group = false
in_group (some g) group = g is group

-- The UID of the first owner reference that names this child's own VirtualMachine.
unfoldable pub owner_uid : List OwnerReference → String → Option String
owner_uid [] vm = none
owner_uid (r ∷ rs) vm =
    let rest = owner_uid rs vm in
    if (r.kind is "VirtualMachine") && (r.name is vm) && in_group r.group vm_group
    then some r.uid
    else rest

-- checkOwnedByItsVM of the child named `name`.
unfoldable pub check_owned_by_its_vm : String → List OwnerReference → String → Result String
unfolding owner_uid
check_owned_by_its_vm name owners vm = elim (owner_uid owners vm) [
  | some uid ↦ ok uid
  | none ↦ err (
      wrap
        (lit "AnsibleBindingVM "
          ∷ quoted name
          ∷ lit " has no ownerReference to VirtualMachine "
          ∷ quoted vm
          ∷ lit ": children are created by their AnsibleBinding, not written by hand"
          ∷ [])
        permanent_config)
]

unfoldable pub has_recorded_launch_identity : VmStatus → Option ConnectionSpec
has_recorded_launch_identity st = elim st.last_job_connection [
  | none ↦ none
  | some conn ↦
      if conn.url is "" || (conn.secret_ref is "")
      then none
      else if st.last_job_type is template_type_job || (st.last_job_type is template_type_workflow)
      then some conn
      else none
]

unfoldable pub needs_run : VmStatus → VmSpec → Bool
needs_run st spec =
    st.last_job_id == 0
    || not (st.applied_generation == spec.binding_generation)
    || not (st.applied_trigger is spec.binding_trigger)
