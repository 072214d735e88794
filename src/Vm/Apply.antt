-- ===== src/Vm/Apply.antt =====
-- applyAnsibleBindingVM of controller/ansiblebindingvm.go: one pass over one VM.
pub mod Once
pub mod Answers
use ansible_supervisor_servi.Prelude.{
  ℕ, ◌+◌, String, Bool, true, false, not, ◌&&◌, ◌||◌, Option, none, some, List, [], ◌∷◌, Text, lit,
  quoted, decimal, concat, trim_space, is_some, is_empty, ◌==◌, ◌is◌, if◌then◌else◌,
}
use ansible_supervisor_servi.Errors.{Error, Result, ok, err, errorf, wrap}
use ansible_supervisor_servi.Exec.{Exec, pure, raise, lift, attempt, labelled, ◌>>=◌, ◌>>◌}
use ansible_supervisor_servi.Objects.{Object}
use ansible_supervisor_servi.Time.{Stamp, unset, due_for, now_rfc3339}
use ansible_supervisor_servi.Awx.{
  Template, Connection, ConnectionSpec, Client, Host, Launch, Vars, template_type_workflow,
}
use ansible_supervisor_servi.Engine.Reconcile.{Provisioned}
use ansible_supervisor_servi.Run.Model.{Pass}
use ansible_supervisor_servi.Run.Hosts.{upsert_host, insert_all}
use ansible_supervisor_servi.Run.Targets.{check_template_accepts_launch_fields}
use ansible_supervisor_servi.Run.Recover.{is_terminal_awx_status, endpoint_moved}
use ansible_supervisor_servi.Run.Apply.{start_pass}
use ansible_supervisor_servi.Vm.Model.{
  VmSpec, VmStatus, HistoryEntry, OwnerReference, VirtualMachine, VmBody, undecodable, decoded,
  VmCall, written, vm_read, hosts_found, upserted, deleted, launched, VmServices, Visit,
  no_vm_status, ask, tell, status_of, set_status, clock, write_vm_details, phase_pending,
  phase_running, phase_failed, cleanup_policy_delete,
}
use ansible_supervisor_servi.Vm.Same.{details_current}
use ansible_supervisor_servi.Vm.Names.{child_name}
use ansible_supervisor_servi.Vm.History.{upsert_history}
use ansible_supervisor_servi.Vm.Ready.{vm_ready, check_owned_by_its_vm, needs_run}
use ansible_supervisor_servi.Vm.Poll.{phase_of, host_owner_marker, connection_of, poll_recorded_job}

-- The status that a pass starts from: a job's phase is what its status says.
abbrev pub prior_status : Option VmStatus → VmStatus
prior_status none = no_vm_status
prior_status (some st) = st

abbrev pub starting_status : Option VmStatus → VmStatus
starting_status prior =
    let st = prior_status prior in
    if st.last_job_id == 0 then st else record st { phase = phase_of st.last_job_status }

abbrev pub address_of : Option String → String
address_of none = ""
address_of (some ip) = ip

abbrev pub use_default_limit_remedy : Text
use_default_limit_remedy =
    lit "set spec.useDefaultLimit: true to accept the template's own scope" ∷ []

-- The inventory host's name.
abbrev pub host_name_of : Connection → VmSpec → String
host_name_of conn spec =
    concat conn.spec.prefix (if spec.host_name is "" then spec.vm_name else spec.host_name)

abbrev pub policy_of : VmSpec → String
policy_of spec = if spec.cleanup_policy is "" then cleanup_policy_delete else spec.cleanup_policy

-- What the AWX half of a pass goes by: the template, the host's name and its inventory, none where
-- the template has none.
pub record Target : Type 0 where
  pub client : Client
  pub connection : Connection
  pub template : Template
  pub host_name : String
  pub marker : String
  pub targets_host : Bool

-- A host that the status records under another name, or in another inventory.
abbrev pub is_elsewhere : VmStatus → String → ℕ → Bool
is_elsewhere st name inventory =
    not (st.awx_host_name is "") && not (st.awx_host_name is name)
    || not (st.awx_inventory_id == 0) && not (st.awx_inventory_id == inventory)

abbrev note_found : String → Option Host → VmStatus → VmStatus
note_found marker none st = record st { awx_host_id = 0; awx_host_created = false }
note_found marker (some h) st = record st {
  awx_host_id = h.id;
  awx_host_created = trim_space h.description is marker;
}

-- Ids of another AWX instance are dropped.
abbrev pub forget_moved : String → VmStatus → VmStatus
forget_moved endpoint st =
    if endpoint_moved st.awx_endpoint endpoint
    then (record st {
      awx_host_id = 0;
      awx_inventory_id = 0;
      awx_host_name = "";
      awx_host_created = false;
      awx_endpoint = endpoint;
    })
    else (record st { awx_endpoint = endpoint })

abbrev pub pending_if_never_ran : VmStatus → VmStatus
pending_if_never_ran st = if st.last_job_id == 0 then record st { phase = phase_pending } else st

abbrev pub in_flight : VmStatus → Bool
in_flight st = not (st.last_job_id == 0) && not (is_terminal_awx_status st.last_job_status)

abbrev pub nothing_to_do : Provisioned VmBody
nothing_to_do = record { object = none; requeue_after = 0 }

abbrev pub last_word : Option Error → Provisioned VmBody → Result (Provisioned VmBody)
last_word none p = ok p
last_word (some e) p = err e

abbrev errors_of : Result ℕ → Result (Unit {0}) → Option Error
errors_of (err e) w = some e
errors_of (ok n) (err e) = some e
errors_of (ok n) (ok _) = none

abbrev delay_of : Result ℕ → ℕ
delay_of (ok n) = n
delay_of (err e) = 0

module _ {W : Type 0} (svc : VmServices W) where
  -- The previous host's id, where an earlier upsert may not have recorded it.
  unfoldable pub recover_previous : Target → VmStatus → Exec (Visit W) (Unit {0})
  recover_previous t st =
      if not (st.awx_inventory_id == 0) && not (st.awx_host_name is "")
      then (do
        host ← labelled (lit "recovering previous AWX host" ∷ []) (
            tell (hosts_found st.awx_inventory_id st.awx_host_name)
              (svc.base.awx.find_host t.client st.awx_inventory_id st.awx_host_name))
        set_status (note_found t.marker host))
      else pure tt

  -- A host that this binding created goes, under the policy Delete; the record of it is dropped.
  unfoldable pub drop_previous : VmSpec → Target → VmStatus → Exec (Visit W) (Unit {0})
  drop_previous spec t st = if st.awx_host_id == 0 then pure tt else (do
    (if st.awx_host_created && (policy_of spec is cleanup_policy_delete)
        then labelled (lit "retiring AWX host " ∷ quoted st.awx_host_name ∷ [])
            (tell (deleted st.awx_host_id) (svc.base.awx.delete_host t.client st.awx_host_id))
        else pure tt)
    set_status (λ s. record s { awx_host_id = 0; awx_host_created = false; awx_inventory_id = 0 }))

  unfoldable pub retire_previous : VmSpec → Target → ℕ → Exec (Visit W) (Unit {0})
  retire_previous spec t inventory = do
    st ← status_of
    if is_elsewhere st t.host_name inventory
        then (do recover_previous t st; found ← status_of; drop_previous spec t found)
        else pure tt

  -- The lookup coordinates are durable before anything is created in AWX.
  unfoldable pub record_intent :
      Object VmBody → Option VmStatus → String → ℕ → Exec (Visit W) (Unit {0})
  record_intent u prior name inventory = do
    st ← status_of
    if st.awx_host_id == 0
        then (do
          set_status (λ s. record s {
            awx_host_name = name;
            awx_inventory_id = inventory;
            awx_host_created = false;
          })
          next ← status_of
          if details_current prior next
              then pure tt
              else labelled (lit "recording AWX host intent" ∷ []) (write_vm_details svc u))
        else pure tt

  abbrev upserting : Visit W → Result (ℕ × Bool) × Pass W → Result (ℕ × Bool) × Visit W
  upserting s (r, p) = (r, record s { world = p.world; calls = upserted p.calls ∷ s.calls })

  -- UpsertHost, whose own calls are recorded together.
  unfoldable pub upsert : Target → ℕ → Vars → Exec (Visit W) (ℕ × Bool)
  upsert t inventory vars s =
      upserting s
        (upsert_host svc.base t.client inventory t.host_name t.marker vars (start_pass s.world))

  -- The host as AWX should have it.
  unfoldable pub keep_host :
      Object VmBody → VmSpec → Option VmStatus → Target → String → ℕ → Exec (Visit W) (Unit {0})
  keep_host u spec prior t ip inventory = do
    retire_previous spec t inventory
    record_intent u prior t.host_name inventory
    host ←
        labelled (lit "upserting AWX host" ∷ [])
          (upsert t inventory (insert_all (("ansible_host", ip) ∷ []) spec.host_variables))
    set_status (λ s. record s {
      awx_host_id = host.0;
      awx_host_name = t.host_name;
      awx_host_created = host.1;
      awx_inventory_id = inventory;
    })

  abbrev posted : Visit W → Bool → ℕ → String → Vars → Launch × W → Result Launch × Visit W
  posted s wf id limit vars (l, w) =
      (ok l, record s { world = w; calls = launched wf id limit vars l ∷ s.calls })

  -- LaunchJobTemplate or LaunchWorkflowJobTemplate
  unfoldable pub post_launch : Client → Bool → ℕ → String → Vars → Exec (Visit W) Launch
  post_launch client workflow id limit vars s =
      posted s workflow id limit vars (svc.base.awx.launch client workflow id limit vars s.world)

  -- A job is recorded even alongside an error, and with it the request that it answers.
  unfoldable pub record_launch : VmSpec → Target → Launch → Exec (Visit W) (Unit {0})
  record_launch spec t l = if l.job == 0 then pure tt else (do
    now ← clock svc
    set_status (λ s. record s {
      last_job_id = l.job;
      last_job_url =
          svc.base.awx.job_url t.client l.job (spec.template.type is template_type_workflow);
      last_job_status = "pending";
      last_job_type = spec.template.type;
      last_job_connection = some (record t.connection.spec { api_base_path = t.client.base_path });
      phase = phase_running;
      history = upsert_history s.history (record {
        job_id = l.job;
        status = "pending";
        started_at = now_rfc3339 now;
        finished_at = unset;
      });
      applied_generation = spec.binding_generation;
      applied_trigger = spec.binding_trigger;
    }))

  unfoldable pub settle_launch : Launch → Exec (Visit W) ℕ
  settle_launch l = elim l.error [
    | none ↦ pure svc.host_check_period
    | some e ↦ do
      (if l.job == 0 then set_status (λ s. record s { phase = phase_failed }) else pure tt)
      raise (wrap (lit "launching template" ∷ []) e)
  ]

  unfoldable pub launch_vm : VmSpec → Target → Exec (Visit W) ℕ
  launch_vm spec t = do
    l ←
        post_launch t.client (spec.template.type is template_type_workflow) t.template.id
          (if t.targets_host then t.host_name else "") spec.extra_vars
    record_launch spec t l
    settle_launch l

  unfoldable pub note_check : Exec (Visit W) (Unit {0})
  note_check = do now ← clock svc; set_status (λ s. record s { last_host_check = now_rfc3339 now })

  unfoldable pub host_stage :
      Object VmBody → VmSpec → Option VmStatus → Target → String → Exec (Visit W) (Unit {0})
  host_stage u spec prior t ip = elim t.template.inventory [
    | none ↦ note_check
    | some inventory ↦ keep_host u spec prior t ip inventory >> note_check
  ]

  -- For a launch the template is read from AWX; what it accepts is checked before anything is done.
  unfoldable pub target_of :
      Object VmBody → VmSpec → Bool → Connection → Client → Exec (Visit W) Target
  target_of u spec wants conn client = do
    tmpl ←
        if wants
        then ask (svc.base.awx.resolve_template client spec.template)
        else ask (svc.base.awx.resolve_template_cached client conn spec.template)
    lift (
        check_template_accepts_launch_fields tmpl spec.template.name
          (not spec.use_default_limit && is_some tmpl.inventory) (not (is_empty spec.extra_vars))
          use_default_limit_remedy)
    pure (record {
      client = client;
      connection = conn;
      template = tmpl;
      host_name = host_name_of conn spec;
      marker = host_owner_marker svc.base.supervisor_id u.namespace spec.binding_name;
      targets_host = not spec.use_default_limit && is_some tmpl.inventory;
    })

  unfoldable pub settle_target :
      Object VmBody
      → VmSpec
      → Option VmStatus
      → String
      → Bool
      → Connection
      → Client
      → Exec (Visit W) Target
  settle_target u spec prior ip wants conn client = do
    set_status (forget_moved (svc.base.fingerprint conn.spec.url client.base_path))
    t ← target_of u spec wants conn client
    host_stage u spec prior t ip
    pure t

  -- The AWX half of a pass up to the launch: the host is as AWX should have it.
  unfoldable pub reach_awx :
      Object VmBody → VmSpec → Option VmStatus → String → Bool → Exec (Visit W) Target
  reach_awx u spec prior ip wants = do
    conn ← connection_of svc u.namespace spec
    client ←
        labelled (lit "preparing a client for AWXConnection " ∷ quoted spec.awx_connection_ref ∷ [])
          (ask (svc.base.client_for conn))
    settle_target u spec prior ip wants conn client

  -- The AWX half of a pass; its result is the delay of the next one.
  unfoldable pub work_on_awx :
      Object VmBody → VmSpec → Option VmStatus → String → Bool → Exec (Visit W) ℕ
  work_on_awx u spec prior ip wants = do
    t ← reach_awx u spec prior ip wants
    if wants then launch_vm spec t else pure svc.host_check_period

  -- After the poll, if there was one: whether AWX is needed at all.
  unfoldable pub decide :
      Object VmBody → VmSpec → Option VmStatus → Option String → Bool → Bool × ℕ → Exec (Visit W) ℕ
  decide u spec prior ready wants check = elim ready [
    | none ↦ set_status pending_if_never_ran >> pure 0
    | some ip ↦ if not wants && not check.0 then pure check.1 else work_on_awx u spec prior ip wants
  ]

  -- The job that was in flight when the pass began. False is a job that is still going.
  unfoldable pub follow : Object VmBody → VmSpec → VmStatus → Exec (Visit W) Bool
  follow u spec st = do
    r ← attempt (poll_recorded_job svc u.namespace spec st)
    elim r [
      | err e ↦ do
        set_status (λ s. record s { phase = phase_running })
        raise (wrap (lit "polling job " ∷ decimal st.last_job_id ∷ []) e)
      | ok status ↦
          if is_terminal_awx_status status
          then (do
            now ← clock svc
            set_status (λ s. record s {
              last_job_status = status;
              phase = phase_of status;
              history = upsert_history s.history (record {
                job_id = st.last_job_id;
                status = status;
                started_at = unset;
                finished_at = now_rfc3339 now;
              });
            })
            pure true)
          else (do
            set_status (λ s. record s {
              last_job_status = status;
              phase = phase_of status;
              history = upsert_history s.history (record {
                job_id = st.last_job_id;
                status = status;
                started_at = unset;
                finished_at = unset;
              });
            })
            pure false)
    ]

  unfoldable pub visit_vm :
      Object VmBody → VmSpec → Option VmStatus → VirtualMachine → Exec (Visit W) ℕ
  visit_vm u spec prior vm = do
    set_status (λ s. record s { observed_ip = address_of (vm_ready vm) })
    st ← status_of
    now ← clock svc
    if in_flight (prior_status prior)
        then (do
          over ← follow u spec (prior_status prior)
          if over
              then decide u spec prior (vm_ready vm) (needs_run st spec)
                  (due_for st.last_host_check svc.host_check_period now)
              else pure 0)
        else decide u spec prior (vm_ready vm) (needs_run st spec)
            (due_for st.last_host_check svc.host_check_period now)

  -- Every exit persists what the pass worked out, unless the object says it already, and returns the
  -- first error.
  unfoldable pub finish :
      Object VmBody
      → VmSpec
      → Option VmStatus
      → List OwnerReference
      → Result ℕ
      → Exec (Visit W) (Provisioned VmBody)
  finish u spec prior owners r = do
    st ← status_of
    w ← if details_current prior st then pure (ok tt) else attempt (write_vm_details svc u)
    lift (
        last_word (errors_of r w) (record {
          object = some (record u { body = decoded (some spec) (some st) owners });
          requeue_after = delay_of r;
        }))

  unfoldable pub apply_claim :
      Object VmBody
      → VmSpec
      → Option VmStatus
      → List OwnerReference
      → String
      → Exec (Visit W) (Provisioned VmBody)
  apply_claim u spec prior owners owner = do
    set_status (λ s. starting_status prior)
    found ←
        labelled (lit "fetching VirtualMachine " ∷ quoted spec.vm_name ∷ [])
          (tell vm_read (svc.get_vm u.namespace spec.vm_name))
    elim found [
      | none ↦ pure nothing_to_do
      | some vm ↦
          if not (owner is "") && not (vm.uid is owner)
          then pure nothing_to_do
          else (do r ← attempt (visit_vm u spec prior vm); finish u spec prior owners r)
    ]

  -- The checks of applyAnsibleBindingVM before anything is called.
  unfoldable pub check_claim : Object VmBody → VmSpec → List OwnerReference → Result String
  check_claim u spec owners =
      let canonical = child_name svc.sha256_hex spec.vm_name in
      if spec.vm_name is ""
      then err (errorf (lit "spec.vmName is required" ∷ []))
      else if spec.binding_name is ""
      then err (errorf (lit "spec.bindingName is required" ∷ []))
      else if not (u.name is canonical)
      then err (
          errorf (
            lit "this object is not the claim on VirtualMachine "
            ∷ quoted spec.vm_name
            ∷ lit ": that is "
            ∷ quoted canonical
            ∷ lit ". AnsibleBindingVMs are created by the binding controller, not by hand"
            ∷ []))
      else if spec.awx_connection_ref is ""
      then err (errorf (lit "spec.awxConnectionRef is required" ∷ []))
      else check_owned_by_its_vm u.name owners spec.vm_name

  unfoldable pub apply_ansible_binding_vm : Object VmBody → Exec (Visit W) (Provisioned VmBody)
  unfolding check_claim
  apply_ansible_binding_vm u = elim u.body [
    | undecodable e ↦ raise (wrap (lit "decoding AnsibleBindingVM" ∷ []) e)
    | decoded none prior owners ↦ raise (errorf (lit "spec is required" ∷ []))
    | decoded (some spec) prior owners ↦ do
      owner ← lift (check_claim u spec owners)
      apply_claim u spec prior owners owner
  ]
