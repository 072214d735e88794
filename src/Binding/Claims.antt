-- ===== src/Binding/Claims.antt =====
-- The claims of a binding on VirtualMachines: what applyAnsibleBinding of controller/ansiblebinding.go
-- decides about each one, with claimOwnerOf and bindingChildMatchesVM.
use ansible_supervisor_servi.Prelude.{
  String, Bool, true, false, not, ◌&&◌, ◌||◌, Option, none, some, List, [], ◌∷◌, concat, ◌is◌,
  if◌then◌else◌,
}
use ansible_supervisor_servi.Errors.{Result, ok, err}
use ansible_supervisor_servi.Objects.{Object}
use ansible_supervisor_servi.Vm.Model.{VmSpec, VirtualMachine}
use ansible_supervisor_servi.Vm.Same.{same_spec}
use ansible_supervisor_servi.Vm.Ready.{check_owned_by_its_vm}
use ansible_supervisor_servi.Binding.Model.{
  BindingSpec, BindingBody, Child, claim_held_by, child_spec_for,
}

abbrev owner_name : String → Option VmSpec → String
owner_name namespace none = "an unrecognised object"
owner_name namespace (some s) =
    if s.binding_name is ""
    then "an unrecognised object"
    else if s.binding_uid is ""
    then concat namespace (concat "/" (concat s.binding_name " (an earlier controller's child)"))
    else concat namespace (concat "/" s.binding_name)

-- claimOwnerOf
unfoldable pub claim_owner_of : Child → String
claim_owner_of c = owner_name c.meta.namespace c.spec

abbrev is_uid : Result String → String → Bool
is_uid (err e) uid = false
is_uid (ok owner) uid = not (owner is "") && (owner is uid)

abbrev matches_vm : Child → Option VmSpec → String → Bool
matches_vm c none uid = false
matches_vm c (some s) uid = is_uid (check_owned_by_its_vm c.meta.name c.owners s.vm_name) uid

-- bindingChildMatchesVM, of a child with a spec.
unfoldable pub binding_child_matches_vm : Child → String → Bool
binding_child_matches_vm c uid = matches_vm c c.spec uid

-- The name of the VM that a child is for.
abbrev is_for : Option VmSpec → String → Bool
is_for none vm = false
is_for (some s) vm = s.vm_name is vm

abbrev newest : Option Child → Child → Bool → Option Child
newest (some d) c b = some d
newest none c true = some c
newest none c false = none

-- childByVM: of several children for a VM, the last one.
unfoldable pub child_by_vm : List Child → String → Option Child
child_by_vm [] vm = none
child_by_vm (c ∷ cs) vm = newest (child_by_vm cs vm) c (is_for c.spec vm)

-- What a pass does about one VM: it makes the child, brings its spec up to date, leaves it as it is,
-- or leaves the VM to the owner who claims it.
pub data Decision : Type 0 where
  make : Decision
  refresh : Child → Decision
  leave : Decision
  give_way : String → Decision

abbrev has_spec : Option VmSpec → VmSpec → Bool
has_spec none desired = false
has_spec (some s) desired = same_spec s desired

unfoldable pub decide_held : Child → String → VmSpec → Decision
decide_held c uid desired =
    if c.meta.deleting || not (binding_child_matches_vm c uid)
    then leave
    else if has_spec c.spec desired
    then leave
    else refresh c

unfoldable pub decide_existing : Object BindingBody → String → VmSpec → Option Child → Decision
decide_existing ac uid desired none = make
decide_existing ac uid desired (some c) =
    if claim_held_by c ac then decide_held c uid desired else give_way (claim_owner_of c)

abbrev pub or_cached : Option Child → Option Child → Option Child
or_cached (some c) cached = some c
or_cached none cached = cached

-- The decision about a VM. `cached` is the child that the informer's store has under its name.
unfoldable pub decide_vm :
    Object BindingBody
    → BindingSpec
    → String
    → List Child
    → Option Child
    → VirtualMachine
    → Decision
decide_vm ac spec trigger children cached vm =
    decide_existing ac vm.uid (child_spec_for ac spec vm.name trigger)
      (or_cached (child_by_vm children vm.name) cached)

-- The UID of a selected VM, none for one that is not selected.
unfoldable pub selected_uid : List VirtualMachine → String → Option String
selected_uid [] name = none
selected_uid (vm ∷ vms) name =
    let rest = selected_uid vms name in if vm.name is name then some vm.uid else rest

abbrev matches_selected : Child → Option String → Bool
matches_selected c none = false
matches_selected c (some uid) = binding_child_matches_vm c uid

abbrev selected_of : List VirtualMachine → Option VmSpec → Option String
selected_of vms none = none
selected_of vms (some s) = selected_uid vms s.vm_name

-- Whether a child is that of a selected VM.
unfoldable pub is_current : List VirtualMachine → Child → Bool
is_current vms c = matches_selected c (selected_of vms c.spec)

-- The children that the summary counts.
unfoldable pub summary_children : Object BindingBody → List VirtualMachine → List Child → List Child
summary_children ac vms [] = []
summary_children ac vms (c ∷ cs) =
    let rest = summary_children ac vms cs in
    if claim_held_by c ac && (is_current vms c || c.meta.deleting) then c ∷ rest else rest

-- The children that go: the binding's own, of VMs that it does not select any more.
unfoldable pub obsolete_children :
    Object BindingBody → List VirtualMachine → List Child → List Child
obsolete_children ac vms [] = []
obsolete_children ac vms (c ∷ cs) =
    let rest = obsolete_children ac vms cs in
    if claim_held_by c ac && not (is_current vms c) then c ∷ rest else rest
