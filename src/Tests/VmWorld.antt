-- ===== src/Tests/VmWorld.antt =====
-- A world of one VirtualMachine: AWX answers every request, and the API server holds the VM or not.
use ansible_supervisor_servi.Prelude.{false, Option, none, some, [], ◌∷◌}
use ansible_supervisor_servi.Errors.{ok}
use ansible_supervisor_servi.Objects.{Object}
use ansible_supervisor_servi.Time.{at}
use ansible_supervisor_servi.Awx.{Host, template_type_job}
use ansible_supervisor_servi.Vm.Model.{
  DeprovisionHook, VmSpec, VmStatus, VmBody, decoded, OwnerReference, VirtualMachine, VmServices,
  Visit, no_vm_status, no_hook, phase_pending,
}
use ansible_supervisor_servi.Vm.Cleanup.Inventory.{Claim, Found}
use ansible_supervisor_servi.Vm.Hook.Launch.{HookPass}
use ansible_supervisor_servi.Tests.RunWorld.{World, world, services, client}
use ansible_supervisor_servi.Run.Apply.{no_status as run_status}

abbrev pub vm : VirtualMachine
vm = record {
  name = "db";
  uid = "v1";
  deleting = false;
  power_state = "poweredOn";
  primary_ip4 = "10.0.0.1";
  primary_ip6 = "";
  vm_ip = "";
}

abbrev pub vm_services : Option VirtualMachine → VmServices World
vm_services there = record {
  base = services;
  get_vm = λ ns n w. (ok there, w);
  get_child = λ ns n w. (ok none, w);
  apply_vm_status = λ u st w. (ok tt, w);
  client_with = λ ns n c w. (ok client, w);
  read_variable = λ d k. none;
  restored_variables = λ d k v. ok none;
  random = λ n w. (0, w);
  sha256_hex = λ s. "0123456789abcdef";
  render = λ t. "a message";
  to_lower = λ s. s;
  binding_deleting = λ ns n w. (ok (some false), w);
  create_event = λ t u k r m w. (ok tt, w);
  host_check_period = 300;
}

abbrev pub hook : DeprovisionHook
hook = record {
  targeting = "Template";
  template = record { name = "leave"; type = template_type_job };
  timeout_seconds = 60;
}

abbrev pub vm_spec : VmSpec
vm_spec = record {
  vm_name = "db";
  binding_name = "site";
  binding_uid = "b1";
  awx_connection_ref = "awx";
  template = record { name = "site"; type = template_type_job };
  host_name = "";
  host_variables = [];
  use_default_limit = false;
  extra_vars = [];
  cleanup_policy = "";
  on_deleted = some hook;
  binding_generation = 1;
  binding_trigger = "";
}

abbrev pub owners : OwnerReference
owners = record {
  kind = "VirtualMachine";
  name = "db";
  group = some "vmoperator.vmware.com";
  uid = "v1";
}

abbrev pub child : Option VmStatus → Object VmBody
child st = record {
  namespace = "ns";
  name = "vm-db-0123456789";
  uid = "c1";
  resource_version = "5";
  generation = 1;
  finalizers = [];
  deleting = false;
  reconcile_requested = "";
  state = none;
  message = none;
  ready = none;
  body = decoded (some vm_spec) st (owners ∷ []);
}

abbrev pub begin : VmStatus → Visit World
begin st = record { world = world run_status; status = st; document = ""; calls = [] }

abbrev pub claim : Claim
claim = record { child = child none; spec = vm_spec; prior = none; owners = owners ∷ [] }

abbrev pub own_host : Host
own_host = record {
  id = 9;
  name = "db";
  description = "ansible-supervisor:sup:ns/site";
  variables = "";
}

abbrev pub found : Found
found = record { host = some own_host; inventory = 2; name = "db" }

abbrev pub hook_pass : HookPass
hook_pass = record {
  child = child none;
  spec = vm_spec;
  prior = none;
  owners = owners ∷ [];
  hook = hook;
  client = client;
  endpoint = "0123456789abcdef";
  inventory = 2;
}

-- A hook whose clock runs.
abbrev pub hook_begun : VmStatus
hook_begun = record no_vm_status {
  deprovision =
      some (record no_hook { phase = phase_pending; started_at = at 0; deadline = at 600 });
}
