-- ===== src/Binding/Model.antt =====
-- The data of an AnsibleBinding (controller/types.go), and a child as a binding reads it.
use ansible_supervisor_servi.Prelude.{
  ℕ, String, Bool, false, ◌&&◌, not, Option, none, some, List, ◌is◌,
}
use ansible_supervisor_servi.Errors.{Error}
use ansible_supervisor_servi.Objects.{Object}
use ansible_supervisor_servi.Time.{Stamp}
use ansible_supervisor_servi.Awx.{TemplateRef, Vars}
use ansible_supervisor_servi.Vm.Model.{DeprovisionHook, VmSpec, VmStatus, OwnerReference, VmBody}

-- AnsibleBindingSpec; a map is its entries in the order of their keys.
pub record BindingSpec : Type 0 where
  pub vm_selector : Vars
  pub awx_connection_ref : String
  pub template : TemplateRef
  pub host_name : String
  pub host_variables : Vars
  pub use_default_limit : Bool
  pub extra_vars : Vars
  pub cleanup_policy : String
  pub on_deleted : Option DeprovisionHook

-- BindingSummary
pub record Summary : Type 0 where
  pub total : ℕ
  pub succeeded : ℕ
  pub running : ℕ
  pub pending : ℕ
  pub failed : ℕ
  pub conflicted : ℕ
  pub conflicted_vms : List String
  pub failed_vms : List String
  pub first_failure : String
  pub terminating : ℕ

-- AnsibleBindingStatus without the four generic fields.
pub record BindingStatus : Type 0 where
  pub observed_generation : ℕ
  pub last_applied_trigger : String
  pub summary : Option Summary
  pub last_orphan_scan : Stamp

-- What convertAnsibleBinding makes of an object: its error, or the spec and the status.
pub data BindingBody : Type 0 where
  undecodable : Error → BindingBody
  decoded : Option BindingSpec → Option BindingStatus → BindingBody

-- An AnsibleBindingVM that decodes.
pub record Child : Type 0 where
  pub meta : Object VmBody
  pub spec : Option VmSpec
  pub status : Option VmStatus
  pub owners : List OwnerReference

abbrev held_by : Option VmSpec → Object BindingBody → Bool
held_by none ac = false
held_by (some s) ac =
    (s.binding_name is ac.name) && (s.binding_uid is ac.uid) && not (s.binding_uid is "")

-- claimHeldBy
unfoldable pub claim_held_by : Child → Object BindingBody → Bool
claim_held_by c ac = held_by c.spec ac

-- childSpecFor
unfoldable pub child_spec_for : Object BindingBody → BindingSpec → String → String → VmSpec
child_spec_for ac spec vm_name trigger = record {
  on_deleted = spec.on_deleted;
  vm_name = vm_name;
  binding_name = ac.name;
  binding_uid = ac.uid;
  awx_connection_ref = spec.awx_connection_ref;
  template = spec.template;
  host_name = spec.host_name;
  host_variables = spec.host_variables;
  use_default_limit = spec.use_default_limit;
  extra_vars = spec.extra_vars;
  cleanup_policy = spec.cleanup_policy;
  binding_generation = ac.generation;
  binding_trigger = trigger;
}
