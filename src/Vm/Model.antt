-- ===== src/Vm/Model.antt =====
-- The data of an AnsibleBindingVM (controller/types.go), and the state of a pass over one.
use ansible_supervisor_servi.Prelude.{ℕ, String, Bool, false, Option, none, List, [], ◌∷◌, Text}
use ansible_supervisor_servi.Errors.{Error, Result, ok}
use ansible_supervisor_servi.Exec.{Exec, ◌>>=◌}
use ansible_supervisor_servi.Objects.{Object}
use ansible_supervisor_servi.Time.{Stamp, unset}
use ansible_supervisor_servi.Engine.Patch.{label, patch_status}
use ansible_supervisor_servi.Awx.{TemplateRef, ConnectionSpec, Client, Host, Launch, Vars}
use ansible_supervisor_servi.Run.Model.{Services, RunCall}

-- DeprovisionHook. A timeout is an int64 in seconds; one that is not positive is 0 here.
pub record DeprovisionHook : Type 0 where
  pub targeting : String
  pub template : TemplateRef
  pub timeout_seconds : ℕ

-- AnsibleBindingVMSpec. A map is its entries in the order of their keys.
pub record VmSpec : Type 0 where
  pub vm_name : String
  pub binding_name : String
  pub binding_uid : String
  pub awx_connection_ref : String
  pub template : TemplateRef
  pub host_name : String
  pub host_variables : Vars
  pub use_default_limit : Bool
  pub extra_vars : Vars
  pub cleanup_policy : String
  pub on_deleted : Option DeprovisionHook
  pub binding_generation : ℕ
  pub binding_trigger : String

pub record HistoryEntry : Type 0 where
  pub job_id : ℕ
  pub status : String
  pub started_at : Stamp
  pub finished_at : Stamp

pub record DeprovisionStatus : Type 0 where
  pub phase : String
  pub targeting : String
  pub message : String
  pub started_at : Stamp
  pub deadline : Stamp
  pub job_id : ℕ
  pub job_url : String
  pub job_status : String
  pub job_type : String
  pub endpoint : String
  pub launch_error : String
  pub host_pinned : Bool
  pub prior_connection : Option String
  pub pinned_host_id : ℕ
  pub pinned_host_endpoint : String

-- &DeprovisionStatus{}
abbrev pub no_hook : DeprovisionStatus
no_hook = record {
  phase = "";
  targeting = "";
  message = "";
  started_at = unset;
  deadline = unset;
  job_id = 0;
  job_url = "";
  job_status = "";
  job_type = "";
  endpoint = "";
  launch_error = "";
  host_pinned = false;
  prior_connection = none;
  pinned_host_id = 0;
  pinned_host_endpoint = "";
}

-- AnsibleBindingVMStatus without the four generic fields, which the object carries: what vmDetailsOf
-- leaves. An id of 0 is none.
pub record VmStatus : Type 0 where
  pub observed_ip : String
  pub phase : String
  pub awx_host_id : ℕ
  pub awx_inventory_id : ℕ
  pub awx_host_name : String
  pub awx_host_created : Bool
  pub awx_endpoint : String
  pub last_job_id : ℕ
  pub last_job_url : String
  pub last_job_status : String
  pub last_job_type : String
  pub last_job_connection : Option ConnectionSpec
  pub last_host_check : Stamp
  pub applied_generation : ℕ
  pub applied_trigger : String
  pub history : List HistoryEntry
  pub deprovision : Option DeprovisionStatus

-- AnsibleBindingVMStatus{}
abbrev pub no_vm_status : VmStatus
no_vm_status = record {
  observed_ip = "";
  phase = "";
  awx_host_id = 0;
  awx_inventory_id = 0;
  awx_host_name = "";
  awx_host_created = false;
  awx_endpoint = "";
  last_job_id = 0;
  last_job_url = "";
  last_job_status = "";
  last_job_type = "";
  last_job_connection = none;
  last_host_check = unset;
  applied_generation = 0;
  applied_trigger = "";
  history = [];
  deprovision = none;
}

-- An owner reference; `group` is that of its apiVersion, none where that does not parse.
pub record OwnerReference : Type 0 where
  pub kind : String
  pub name : String
  pub group : Option String
  pub uid : String

-- What convertAnsibleBindingVM makes of an object: its error, or the spec and the status, each of
-- which may be absent, and the owner references.
pub data VmBody : Type 0 where
  undecodable : Error → VmBody
  decoded : Option VmSpec → Option VmStatus → List OwnerReference → VmBody

-- A VirtualMachine, as far as it is read; a field is "" where it is absent or no string.
pub record VirtualMachine : Type 0 where
  pub name : String
  pub uid : String
  pub deleting : Bool
  pub power_state : String
  pub primary_ip4 : String
  pub primary_ip6 : String
  pub vm_ip : String

-- The phases, of a run and of a hook.
abbrev pub phase_pending : String
phase_pending = "Pending"

abbrev pub phase_running : String
phase_running = "Running"

abbrev pub phase_succeeded : String
phase_succeeded = "Succeeded"

abbrev pub phase_failed : String
phase_failed = "Failed"

abbrev pub phase_launching : String
phase_launching = "Launching"

abbrev pub phase_timed_out : String
phase_timed_out = "TimedOut"

abbrev pub phase_skipped : String
phase_skipped = "Skipped"

abbrev pub targeting_managed_host : String
targeting_managed_host = "ManagedHost"

abbrev pub targeting_template : String
targeting_template = "Template"

abbrev pub cleanup_policy_delete : String
cleanup_policy_delete = "Delete"

abbrev pub cleanup_policy_retain : String
cleanup_policy_retain = "Retain"

-- The object that an event of a teardown hangs on: its involvedObject.
pub data EventTarget : Type 0 where
  on_child on_binding : EventTarget

-- The calls of a pass that change something outside it, and the reads that decide about them.
pub data VmCall : Type 0 where
  written : VmStatus → Result (Unit {0}) → VmCall
  vm_read : Result (Option VirtualMachine) → VmCall
  hosts_found : ℕ → String → Result (Option Host) → VmCall
  upserted : List RunCall → VmCall
  pinned : ℕ → Result (Unit {0}) → VmCall
  restored : ℕ → Result (Unit {0}) → VmCall
  deleted : ℕ → Result (Unit {0}) → VmCall
  launched : Bool → ℕ → String → Vars → Launch → VmCall
  polled : ℕ → Result String → VmCall
  event_created : EventTarget → String → String → String → Result (Unit {0}) → VmCall

-- What a pass calls out to. `base` has the calls that runs make too. `get_vm` and `get_child` are
-- none where the API server says that the object does not exist. `client_with` is awxClientFor on
-- recorded launch settings, with the secret read anew. `read_variable` and `restored_variables` are
-- the JSON of a host's variables: what a key says as a string, and the document with the key put
-- back, none where it says that already. `random` is math/rand's Int63n. `binding_deleting` reads an
-- AnsibleBinding: none where there is none, or whether it is being deleted. `create_event` takes the
-- type, the reason and the message.
pub record VmServices (W : Type 0) : Type 0 where
  pub base : Services W
  pub get_vm : String → String → W → Result (Option VirtualMachine) × W
  pub get_child : String → String → W → Result (Option (Object VmBody)) × W
  pub apply_vm_status : Object VmBody → VmStatus → W → Result (Unit {0}) × W
  pub client_with : String → String → ConnectionSpec → W → Result Client × W
  pub read_variable : String → String → Option String
  pub restored_variables : String → String → Option String → Result (Option String)
  pub random : ℕ → W → ℕ × W
  pub sha256_hex : String → String
  pub render : Text → String
  pub to_lower : String → String
  pub binding_deleting : String → String → W → Result (Option Bool) × W
  pub create_event :
      EventTarget → Object VmBody → String → String → String → W → Result (Unit {0}) × W
  pub host_check_period : ℕ

-- `status` is what this pass will write, `calls` what it has called so far, the latest first;
-- `document` is the variables of the inventory host that a cleanup found, as they are by now.
pub record Visit (W : Type 0) : Type 0 where
  pub world : W
  pub status : VmStatus
  pub document : String
  pub calls : List VmCall

module _ {W A : Type 0} where
  abbrev answered : Visit W → Result A × W → Result A × Visit W
  answered s (r, w) = (r, record s { world = w })

  -- A call that is not recorded.
  abbrev pub ask : (W → Result A × W) → Exec (Visit W) A
  ask f s = answered s (f s.world)

  abbrev noted : Visit W → (Result A → VmCall) → Result A × W → Result A × Visit W
  noted s c (r, w) = (r, record s { world = w; calls = c r ∷ s.calls })

  -- A call that is recorded with its answer.
  abbrev pub tell : (Result A → VmCall) → (W → Result A × W) → Exec (Visit W) A
  tell c f s = noted s c (f s.world)

module _ {W : Type 0} where
  abbrev pub status_of : Exec (Visit W) VmStatus
  status_of s = (ok s.status, s)

  abbrev pub set_status : (VmStatus → VmStatus) → Exec (Visit W) (Unit {0})
  set_status f s = (ok tt, record s { status = f s.status })

module _ {W : Type 0} (svc : VmServices W) where
  unfoldable pub clock : Exec (Visit W) ℕ
  clock = ask (λ w. (ok (svc.base.now w), svc.base.tick w))

  unfoldable pub apply_details : Object VmBody → VmStatus → Exec (Visit W) (Unit {0})
  apply_details u st = tell (written st) (svc.apply_vm_status u st)

  -- writeAnsibleBindingVMDetails
  unfoldable pub write_vm_details : Object VmBody → Exec (Visit W) (Unit {0})
  write_vm_details u = do st ← status_of; patch_status (label u) (apply_details u st)
