-- ===== src/Vm/Same.antt =====
-- ansibleBindingVMDetailsCurrent of controller/ansiblebindingvm.go: reflect.DeepEqual on the details.
use ansible_supervisor_servi.Prelude.{
  String, Bool, true, false, ◌&&◌, Option, none, some, List, [], ◌∷◌, ◌==◌, ◌is◌,
}
use ansible_supervisor_servi.Time.{Stamp, unset, at, unreadable}
use ansible_supervisor_servi.Awx.{SecretKeyRef, ConnectionSpec, TemplateRef, Vars}
use ansible_supervisor_servi.Vm.Model.{
  HistoryEntry, DeprovisionStatus, DeprovisionHook, VmStatus, VmSpec,
}

abbrev pub same_bool : Bool → Bool → Bool
same_bool true b = b
same_bool false true = false
same_bool false false = true

-- Two stamps that do not parse are not told apart: the controller never writes one.
abbrev pub same_stamp : Stamp → Stamp → Bool
same_stamp unset unset = true
same_stamp (at a) (at b) = a == b
same_stamp unreadable unreadable = true
same_stamp _ _ = false

abbrev pub same_option : {A : Type 0} → (A → A → Bool) → Option A → Option A → Bool
same_option eq none none = true
same_option eq (some a) (some b) = eq a b
same_option eq _ _ = false

abbrev pub same_list : {A : Type 0} → (A → A → Bool) → List A → List A → Bool
same_list eq [] [] = true
same_list eq (a ∷ xs) (b ∷ ys) = eq a b && same_list eq xs ys
same_list eq _ _ = false

abbrev pub same_string : String → String → Bool
same_string a b = a is b

abbrev pub same_var : String × String → String × String → Bool
same_var a b = (a.0 is b.0) && (a.1 is b.1)

abbrev pub same_vars : Vars → Vars → Bool
same_vars = same_list same_var

abbrev pub same_template : TemplateRef → TemplateRef → Bool
same_template a b = (a.name is b.name) && (a.type is b.type)

abbrev pub same_key_ref : SecretKeyRef → SecretKeyRef → Bool
same_key_ref a b = (a.name is b.name) && (a.key is b.key)

unfoldable pub same_connection : ConnectionSpec → ConnectionSpec → Bool
same_connection a b =
    (a.url is b.url)
    && (a.secret_ref is b.secret_ref)
    && same_bool a.insecure_skip_verify b.insecure_skip_verify
    && same_option same_key_ref a.ca_bundle_secret_ref b.ca_bundle_secret_ref
    && (a.api_base_path is b.api_base_path)
    && (a.prefix is b.prefix)

unfoldable pub same_entry : HistoryEntry → HistoryEntry → Bool
same_entry a b =
    a.job_id == b.job_id
    && (a.status is b.status)
    && same_stamp a.started_at b.started_at
    && same_stamp a.finished_at b.finished_at

unfoldable pub same_deprovision : DeprovisionStatus → DeprovisionStatus → Bool
same_deprovision a b =
    (a.phase is b.phase)
    && (a.targeting is b.targeting)
    && (a.message is b.message)
    && same_stamp a.started_at b.started_at
    && same_stamp a.deadline b.deadline
    && a.job_id == b.job_id
    && (a.job_url is b.job_url)
    && (a.job_status is b.job_status)
    && (a.job_type is b.job_type)
    && (a.endpoint is b.endpoint)
    && (a.launch_error is b.launch_error)
    && same_bool a.host_pinned b.host_pinned
    && same_option same_string a.prior_connection b.prior_connection
    && a.pinned_host_id == b.pinned_host_id
    && (a.pinned_host_endpoint is b.pinned_host_endpoint)

unfoldable pub same_details : VmStatus → VmStatus → Bool
unfolding same_connection same_entry same_deprovision
same_details a b =
    same_option same_deprovision a.deprovision b.deprovision
    && (a.observed_ip is b.observed_ip)
    && (a.phase is b.phase)
    && a.awx_host_id == b.awx_host_id
    && a.awx_inventory_id == b.awx_inventory_id
    && (a.awx_host_name is b.awx_host_name)
    && same_bool a.awx_host_created b.awx_host_created
    && (a.awx_endpoint is b.awx_endpoint)
    && a.last_job_id == b.last_job_id
    && (a.last_job_url is b.last_job_url)
    && (a.last_job_status is b.last_job_status)
    && (a.last_job_type is b.last_job_type)
    && same_option same_connection a.last_job_connection b.last_job_connection
    && same_stamp a.last_host_check b.last_host_check
    && a.applied_generation == b.applied_generation
    && (a.applied_trigger is b.applied_trigger)
    && same_list same_entry a.history b.history

unfoldable pub details_current : Option VmStatus → VmStatus → Bool
details_current none next = false
details_current (some prior) next = same_details prior next

-- reflect.DeepEqual on two specs.
unfoldable pub same_hook : DeprovisionHook → DeprovisionHook → Bool
same_hook a b =
    (a.targeting is b.targeting)
    && same_template a.template b.template
    && a.timeout_seconds == b.timeout_seconds

unfoldable pub same_spec : VmSpec → VmSpec → Bool
unfolding same_hook
same_spec a b =
    (a.vm_name is b.vm_name)
    && (a.binding_name is b.binding_name)
    && (a.binding_uid is b.binding_uid)
    && (a.awx_connection_ref is b.awx_connection_ref)
    && same_template a.template b.template
    && (a.host_name is b.host_name)
    && same_vars a.host_variables b.host_variables
    && same_bool a.use_default_limit b.use_default_limit
    && same_vars a.extra_vars b.extra_vars
    && (a.cleanup_policy is b.cleanup_policy)
    && same_option same_hook a.on_deleted b.on_deleted
    && a.binding_generation == b.binding_generation
    && (a.binding_trigger is b.binding_trigger)
