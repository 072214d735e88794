-- ===== src/Tests/Binding.antt =====
-- Bindings at concrete inputs.
use ansible_supervisor_servi.Prelude.{
  ℕ, ◌≡◌, ◌≤◌, refl, true, false, length, some, none, Option, String, [], ◌∷◌, ◌+◌, List, lit,
  is_some,
}
use ansible_supervisor_servi.Errors.{ok, err, errorf}
use ansible_supervisor_servi.Exec.{Exec, start}
use ansible_supervisor_servi.Objects.{Object}
use ansible_supervisor_servi.Time.{unset}
use ansible_supervisor_servi.Awx.{Host, template_type_job}
use ansible_supervisor_servi.Vm.Model.{VmStatus, no_vm_status, phase_succeeded}
use ansible_supervisor_servi.Tests.VmWorld.{vm, child, vm_spec, owners}
use ansible_supervisor_servi.Tests.RunWorld.{client, connection_awx}
use ansible_supervisor_servi.Binding.Orphans.{ReapServices, reap_at}
use ansible_supervisor_servi.Binding.Orphans.Unclaimed.{orphans_only, reap_at-orphans}
use ansible_supervisor_servi.Binding.Apply.{BindingServices, Sync, apply_ansible_binding}
use ansible_supervisor_servi.Binding.Apply.Exclusive.{own_only, apply-own_only}
use ansible_supervisor_servi.Binding.Model.{
  BindingSpec, BindingStatus, BindingBody, decoded, Child, Summary,
}
use ansible_supervisor_servi.Binding.Summary.{summarize}
use ansible_supervisor_servi.Binding.Children.{
  ChildStore, sweep, delete_binding_children, confirm_gone, cleanup_ansible_binding,
}
use ansible_supervisor_servi.Binding.Children.Gone.{confirmed, cleanup-confirmed}
use ansible_supervisor_servi.Binding.Writes.{issue_child_writes, burst_child_writes, smaller}
use ansible_supervisor_servi.Binding.Writes.Order.{run_first, issue_child_writes_in_order}

abbrev count_one : Exec ℕ (Unit {0})
count_one n = (ok tt, n + 1)

abbrev failing : Exec ℕ (Unit {0})
failing n = (err (errorf (lit "denied" ∷ [])), n)

abbrev three : List (Exec ℕ (Unit {0}))
three = failing ∷ count_one ∷ count_one ∷ []

issue_child_writes_in_order_example :
    ((issue_child_writes three 0).1 ≡ (run_first (issue_child_writes three 0).0.issued three 0).1)
    × ((issue_child_writes three 0).0.failures
        ≡ (run_first (issue_child_writes three 0).0.issued three 0).0)
    × ((issue_child_writes three 0).0.issued ≤ smaller (length three) burst_child_writes)
    × (is_some (issue_child_writes three 0).0.first_error ≡ false
        → (issue_child_writes three 0).0.issued ≡ smaller (length three) burst_child_writes)
issue_child_writes_in_order_example = issue_child_writes_in_order three 0

abbrev binding_spec : BindingSpec
binding_spec = record {
  vm_selector = ("app", "db") ∷ [];
  awx_connection_ref = "awx";
  template = record { name = "site"; type = template_type_job };
  host_name = "";
  host_variables = [];
  use_default_limit = false;
  extra_vars = [];
  cleanup_policy = "Delete";
  on_deleted = none;
}

abbrev binding : Option BindingStatus → Object BindingBody
binding st = record {
  namespace = "ns";
  name = "site";
  uid = "b1";
  resource_version = "5";
  generation = 1;
  finalizers = [];
  deleting = false;
  reconcile_requested = "";
  state = none;
  message = none;
  ready = none;
  body = decoded (some binding_spec) st;
}

abbrev succeeded_status : VmStatus
succeeded_status = record no_vm_status { phase = phase_succeeded; applied_generation = 1 }

abbrev site_child : Child
site_child = record {
  meta = child (some succeeded_status);
  spec = some vm_spec;
  status = some succeeded_status;
  owners = owners ∷ [];
}

abbrev sorted : List String → List String
sorted names = names

abbrev of_one : Summary
of_one = summarize sorted (site_child ∷ []) ("db" ∷ []) [] 1 ""

abbrev told : BindingStatus
told = record {
  observed_generation = 1;
  last_applied_trigger = "";
  summary = some of_one;
  last_orphan_scan = unset;
}

-- The children of a binding, and how many requests were made.
abbrev store : ChildStore ℕ
store = record {
  live = λ ns name w. (ok [], w + 1);
  cached = λ ns name w. (ok [], w);
  patch_spec = λ c spec w. (ok tt, w + 1);
  remove = λ c w. (ok tt, w + 1);
}

cleanup-confirmed_example :
    confirmed "site" (cleanup_ansible_binding store (binding none) (start 0)).1.calls ≡ true
unfolding cleanup_ansible_binding sweep delete_binding_children confirm_gone
cleanup-confirmed_example =
    cleanup-confirmed store (binding none) (some binding_spec) none (start 0) refl refl

abbrev stray : Host
stray = record {
  id = 4;
  name = "old";
  description = "ansible-supervisor:sup:ns/site";
  variables = "";
}

-- One host that no child accounts for, and no children that the cache shows.
abbrev reap_services : ReapServices ℕ
reap_services = record {
  connection = λ ns name w. (ok (some connection_awx), w);
  client_for = λ c w. (ok client, w);
  list_owned = λ c i m w. (ok (stray ∷ []), w);
  list_children = λ ns name w. (ok [], w);
  delete_host = λ c i w. (ok tt, w + 1);
  supervisor_id = "sup";
}

abbrev in_inventory : Child
in_inventory = record site_child {
  status = some (record no_vm_status { awx_inventory_id = 2; awx_host_name = "db" });
}

reap_at-orphans_example :
    orphans_only binding_spec ""
      ("db" ∷ [])
      (reap_at reap_services
        (binding none)
        binding_spec
        (in_inventory ∷ [])
        ("db" ∷ [])
        connection_awx
        (start 0)).1.calls
    ≡ true
reap_at-orphans_example =
    reap_at-orphans reap_services (binding none) binding_spec (in_inventory ∷ []) ("db" ∷ [])
      connection_awx (start 0) refl

abbrev binding_services : BindingServices ℕ
binding_services = record {
  store = store;
  reap = reap_services;
  list_vms = λ ns spec w. (ok (vm ∷ []), w);
  cached_child = λ ns name w. none;
  create_child = λ ac v spec w. (ok tt, w + 1);
  live_child = λ ns name w. (ok none, w);
  apply_binding_status = λ ac st w. (ok tt, w + 1);
  create_event = λ ac t r m w. w;
  now = λ w. w;
  tick = λ w. w;
  random = λ n w. (0, w);
  sort = sorted;
  sha256_hex = λ s. "0123456789abcdef";
  orphan_scan_period = 2400;
}

abbrev sync_start : Sync ℕ
sync_start = record { world = 0; conflicts = []; created = []; calls = []; reap_calls = [] }

apply-own_only_example :
    own_only
      (binding none)
      (apply_ansible_binding binding_services (binding none) sync_start).1.calls
    ≡ true
apply-own_only_example = apply-own_only binding_services (binding none) sync_start refl
