-- ===== src/Binding/Apply.antt =====
-- applyAnsibleBinding of controller/ansiblebinding.go: one pass over a binding.
pub mod Exclusive
use ansible_supervisor_servi.Prelude.{
  ℕ, ◌+◌, ◌-◌, ◌*◌, String, Bool, true, false, not, ◌&&◌, ◌||◌, Option, none, some, List, [], ◌∷◌,
  ◌++◌, map, Text, lit, quoted, decimal, length, ltb, is_empty, is_some, ◌==◌, ◌is◌, if◌then◌else◌,
}
use ansible_supervisor_servi.Errors.{Error, Result, ok, err, errorf, wrap, is_already_exists}
use ansible_supervisor_servi.Exec.{Exec, Logged, pure, raise, lift, attempt, labelled, ◌>>=◌, ◌>>◌}
use ansible_supervisor_servi.Objects.{Object}
use ansible_supervisor_servi.Time.{Stamp, unset, second, due_for, now_rfc3339}
use ansible_supervisor_servi.Awx.{template_type_job, template_type_workflow}
use ansible_supervisor_servi.Engine.Patch.{label, patch_status}
use ansible_supervisor_servi.Engine.Reconcile.{Provisioned}
use ansible_supervisor_servi.Vm.Model.{VmSpec, VirtualMachine}
use ansible_supervisor_servi.Vm.Names.{child_name}
use ansible_supervisor_servi.Vm.Events.{event_warning}
use ansible_supervisor_servi.Binding.Model.{
  BindingSpec, BindingStatus, BindingBody, undecodable, decoded, Summary, Child, claim_held_by,
  child_spec_for,
}
use ansible_supervisor_servi.Binding.Summary.{Conflicts, summarize}
use ansible_supervisor_servi.Binding.Report.{conflict_message}
use ansible_supervisor_servi.Binding.Writes.{Issued, issue_child_writes}
use ansible_supervisor_servi.Binding.Children.{
  ChildStore, BindingCall, Sweep, update_child_spec, delete_binding_child,
}
use ansible_supervisor_servi.Binding.Orphans.{ReapServices, ReapCall, Reaping, reap_orphan_hosts}
use ansible_supervisor_servi.Binding.Claims.{
  Decision, make, refresh, leave, give_way, claim_owner_of, decide_vm, summary_children,
  obsolete_children,
}
use ansible_supervisor_servi.Binding.Details.{details_current, conflict_worth_an_event}

-- What a pass calls out to. `live_child` is none where the API server has no such object, and
-- `some none` for one that does not decode; `orphan_scan_period` is four host check periods.
pub record BindingServices (W : Type 0) : Type 0 where
  pub store : ChildStore W
  pub reap : ReapServices W
  pub list_vms : String → BindingSpec → W → Result (List VirtualMachine) × W
  pub cached_child : String → String → W → Option Child
  pub create_child : Object BindingBody → VirtualMachine → VmSpec → W → Result (Unit {0}) × W
  pub live_child : String → String → W → Result (Option (Option Child)) × W
  pub apply_binding_status : Object BindingBody → BindingStatus → W → Result (Unit {0}) × W
  pub create_event : Object BindingBody → String → String → Text → W → W
  pub now : W → ℕ
  pub tick : W → W
  pub random : ℕ → W → ℕ × W
  pub sort : List String → List String
  pub sha256_hex : String → String
  pub orphan_scan_period : ℕ

-- The state of a pass: the conflicts found so far, and the calls, the latest first.
pub record Sync (W : Type 0) : Type 0 where
  pub world : W
  pub conflicts : Conflicts
  pub created : List (VmSpec × Result (Unit {0}))
  pub calls : List BindingCall
  pub reap_calls : List ReapCall

module _ {W : Type 0} where
  abbrev swept : {A : Type 0} → Sync W → Result A × Sweep W → Result A × Sync W
  swept s (r, t) = (r, record s { world = t.world; calls = t.calls })

  abbrev in_sweep : {A : Type 0} → Exec (Sweep W) A → Exec (Sync W) A
  in_sweep m s = swept s (m (record { world = s.world; calls = s.calls }))

  abbrev harvested : {A : Type 0} → Sync W → Result A × Reaping W → Result A × Sync W
  harvested s (r, t) = (r, record s { world = t.world; reap_calls = t.calls })

  abbrev in_reaping : {A : Type 0} → Exec (Reaping W) A → Exec (Sync W) A
  in_reaping m s = harvested s (m (record { world = s.world; calls = s.reap_calls }))

  abbrev answered : {A : Type 0} → Sync W → Result A × W → Result A × Sync W
  answered s (r, w) = (r, record s { world = w })

  abbrev pub ask : {A : Type 0} → (W → Result A × W) → Exec (Sync W) A
  ask f s = answered s (f s.world)

  abbrev record_conflict : String → String → Exec (Sync W) (Unit {0})
  record_conflict vm owner s = (ok tt, record s { conflicts = (vm, owner) ∷ s.conflicts })

-- The checks of a binding's spec.
unfoldable pub check_binding : BindingSpec → Result (Unit {0})
check_binding spec =
    if spec.awx_connection_ref is ""
    then err (errorf (lit "spec.awxConnectionRef is required" ∷ []))
    else if is_empty spec.vm_selector
    then err (
        errorf (
          lit
            "spec.vmSelector must not be empty: an empty selector would target every VM in the namespace"
          ∷ []))
    else if not (spec.template.type is template_type_job)
        && not (spec.template.type is template_type_workflow)
    then err (
        errorf (
          lit "spec.template.type must be "
          ∷ quoted template_type_job
          ∷ lit " or "
          ∷ quoted template_type_workflow
          ∷ lit ", got "
          ∷ quoted spec.template.type
          ∷ []))
    else ok tt

-- A host name can stand for one VM only.
unfoldable pub check_host_name : BindingSpec → List VirtualMachine → Result (Unit {0})
check_host_name spec vms =
    if not (spec.host_name is "") && ltb 1 (length vms)
    then err (
        errorf (
          lit "spec.hostName is set but vmSelector matches "
          ∷ decimal (length vms)
          ∷ lit " VMs: an inventory host name can only stand for one VM"
          ∷ []))
    else ok tt

abbrev pub conflict_retry_interval : ℕ
conflict_retry_interval = 30 * second

abbrev pub conflict_retry_jitter : ℕ
conflict_retry_jitter = 10 * second

abbrev pub first_of : Option Error → Option Error → Option Error
first_of (some e) f = some e
first_of none f = f

abbrev scan_of : Option BindingStatus → Stamp
scan_of none = unset
scan_of (some st) = st.last_orphan_scan

abbrev ended : Option Error → Provisioned BindingBody → Result (Provisioned BindingBody)
ended none p = ok p
ended (some e) p = err e

module _ {W : Type 0} (svc : BindingServices W) where
  -- createBindingChild
  unfoldable pub create_child :
      Object BindingBody → VirtualMachine → VmSpec → Exec (Sync W) (Unit {0})
  create_child ac vm desired s =
      let r = svc.create_child ac vm desired s.world in
      (r.0, record s { world = r.1; created = (desired, r.0) ∷ s.created })

  abbrev settle_claim :
      Object BindingBody → VirtualMachine → Option (Option Child) → Exec (Sync W) (Unit {0})
  settle_claim ac vm none = pure tt
  settle_claim ac vm (some none) =
      record_conflict vm.name "an unreadable object under the claim name"
  settle_claim ac vm (some (some c)) =
      if claim_held_by c ac then pure tt else record_conflict vm.name (claim_owner_of c)

  -- The write of a child that no cache shows: whoever holds the name already has the VM.
  unfoldable pub create_write :
      Object BindingBody → VirtualMachine → VmSpec → Exec (Sync W) (Unit {0})
  create_write ac vm desired = do
    r ← attempt (create_child ac vm desired)
    elim r [
      | ok _ ↦ pure tt
      | err e ↦
          if not (is_already_exists e)
          then raise (wrap (lit "creating the AnsibleBindingVM for VM " ∷ quoted vm.name ∷ []) e)
          else (do
            owner ←
                labelled
                  (lit "reading AnsibleBindingVM "
                    ∷ quoted (child_name svc.sha256_hex vm.name)
                    ∷ lit " to resolve the claim on VM "
                    ∷ quoted vm.name
                    ∷ [])
                  (ask (svc.live_child ac.namespace (child_name svc.sha256_hex vm.name)))
            settle_claim ac vm owner)
    ]

  abbrev pub update_write : VirtualMachine → VmSpec → Child → Exec (Sync W) (Unit {0})
  update_write vm desired c =
      labelled (lit "updating the AnsibleBindingVM for VM " ∷ quoted vm.name ∷ [])
        (in_sweep (update_child_spec svc.store c desired))

  -- The writes that a decision asks for.
  unfoldable pub plan_one :
      Object BindingBody
      → VirtualMachine
      → VmSpec
      → Decision
      → Exec (Sync W) (List (Exec (Sync W) (Unit {0})))
  plan_one ac vm desired make = pure (create_write ac vm desired ∷ [])
  plan_one ac vm desired (refresh c) = pure (update_write vm desired c ∷ [])
  plan_one ac vm desired leave = pure []
  plan_one ac vm desired (give_way owner) = record_conflict vm.name owner >> pure []

  -- The loop over the selected VMs.
  unfoldable pub plan_writes :
      Object BindingBody
      → BindingSpec
      → List Child
      → List VirtualMachine
      → Exec (Sync W) (List (Exec (Sync W) (Unit {0})))
  plan_writes ac spec children [] = pure []
  plan_writes ac spec children (vm ∷ vms) = do
    cached ←
        λ s. (ok (svc.cached_child ac.namespace (child_name svc.sha256_hex vm.name) s.world), s)
    ws ←
        plan_one ac vm (child_spec_for ac spec vm.name ac.reconcile_requested)
          (decide_vm ac spec ac.reconcile_requested children cached vm)
    rest ← plan_writes ac spec children vms
    pure (ws ++ rest)

  abbrev issue : List (Exec (Sync W) (Unit {0})) → Exec (Sync W) Issued
  issue ws s = let r = issue_child_writes ws s in (ok (r.0), r.1)

  abbrev pub deletion : BindingSpec → Child → Exec (Sync W) (Unit {0})
  deletion spec c = in_sweep (delete_binding_child svc.store c spec.cleanup_policy)

  -- Deletions are issued before the other writes; the second result is how many are left over.
  unfoldable pub issue_both :
      Object BindingBody
      → BindingSpec
      → List VirtualMachine
      → List Child
      → List (Exec (Sync W) (Unit {0}))
      → Exec (Sync W) (Option Error × ℕ)
  issue_both ac spec vms children writes = do
    d ← issue (map (deletion spec) (obsolete_children ac vms children))
    w ← issue writes
    pure (
      first_of d.first_error w.first_error,
      length writes - w.issued + (length (obsolete_children ac vms children) - d.issued),
    )

  unfoldable pub sync_children :
      Object BindingBody
      → BindingSpec
      → List VirtualMachine
      → List Child
      → Exec (Sync W) (Option Error × ℕ)
  sync_children ac spec vms children =
      plan_writes ac spec children vms >>= issue_both ac spec vms children

  abbrev clock : Exec (Sync W) ℕ
  clock = ask (λ w. (ok (svc.now w), svc.tick w))

  -- Orphans are looked for rarely, and only once every child is written.
  unfoldable pub scan_orphans :
      Object BindingBody
      → BindingSpec
      → Option BindingStatus
      → List VirtualMachine
      → List Child
      → Option Error × ℕ
      → Exec (Sync W) (Option Error × Stamp)
  scan_orphans ac spec prior vms children came = do
    now ← clock
    if (due_for (scan_of prior) svc.orphan_scan_period now).0 && came.1 == 0 && not (is_some came.0)
        then (do
          r ← attempt (
              in_reaping (
                reap_orphan_hosts svc.reap ac spec children
                  (map (λ (vm : VirtualMachine). vm.name) vms)))
          elim r [
            | err e ↦ pure (some (wrap (lit "reaping orphaned AWX hosts" ∷ []) e), scan_of prior)
            | ok _ ↦ clock >>= λ later. pure (none, now_rfc3339 later)
          ])
        else pure (came.0, scan_of prior)

  unfoldable pub tell_conflict :
      Object BindingBody → Option BindingStatus → Summary → Exec (Sync W) (Unit {0})
  tell_conflict ac prior summary =
      if conflict_worth_an_event prior summary
      then (λ s. (
        ok tt,
        record s {
          world =
              svc.create_event ac event_warning "VMClaimedByAnotherBinding"
                (conflict_message summary) s.world;
        },
      ))
      else pure tt

  -- writeAnsibleBindingDetails, unless the status says it already.
  unfoldable pub keep_details :
      Object BindingBody
      → Option BindingStatus
      → BindingStatus
      → Summary
      → Exec (Sync W) (Option Error)
  keep_details ac prior next summary = if details_current prior next summary then pure none else (do
    r ← attempt (patch_status (label ac) (ask (svc.apply_binding_status ac next)))
    elim r [ ok _ ↦ pure none | err e ↦ pure (some e) ])

  -- A waiter comes back on its own; a pass that left writes over comes straight back.
  unfoldable pub requeue_delay : Summary → ℕ → Option Error → Exec (Sync W) ℕ
  requeue_delay summary deferred failed = do
    waits ←
        (if not (summary.conflicted == 0) && not (is_some failed)
          then (do
            jitter ← ask (λ w. let r = svc.random conflict_retry_jitter w in (ok (r.0), r.1))
            pure (conflict_retry_interval + jitter))
          else pure 0)
    pure (if deferred == 0 then waits else second)

  -- The event, the status and the next pass.
  unfoldable pub report_pass :
      Object BindingBody
      → BindingSpec
      → Option BindingStatus
      → Summary
      → ℕ
      → Option Error × Stamp
      → Exec (Sync W) (Provisioned BindingBody)
  report_pass ac spec prior summary deferred scanned = do
    let next : BindingStatus = record {
      observed_generation = ac.generation;
      last_applied_trigger = ac.reconcile_requested;
      summary = some summary;
      last_orphan_scan = scanned.1;
    }
    tell_conflict ac prior summary
    w ← keep_details ac prior next summary
    delay ← requeue_delay summary deferred (first_of scanned.0 w)
    lift (
        ended (first_of scanned.0 w) (record {
          object = some (record ac { body = decoded (some spec) (some next) });
          requeue_after = delay;
        }))

  abbrev pub summary_now : Object BindingBody → List VirtualMachine → List Child → Sync W → Summary
  summary_now ac vms children s =
      summarize svc.sort (summary_children ac vms children)
        (map (λ (vm : VirtualMachine). vm.name) vms) s.conflicts ac.generation
        ac.reconcile_requested

  unfoldable pub conclude :
      Object BindingBody
      → BindingSpec
      → Option BindingStatus
      → List VirtualMachine
      → List Child
      → Option Error × ℕ
      → Exec (Sync W) (Provisioned BindingBody)
  conclude ac spec prior vms children came s =
      (scan_orphans ac spec prior vms children came
          >>= report_pass ac spec prior (summary_now ac vms children s) came.1)
        s

  unfoldable pub apply_spec :
      Object BindingBody
      → BindingSpec
      → Option BindingStatus
      → Exec (Sync W) (Provisioned BindingBody)
  apply_spec ac spec prior = do
    lift (check_binding spec)
    vms ← labelled (lit "listing target VMs" ∷ []) (ask (svc.list_vms ac.namespace spec))
    lift (check_host_name spec vms)
    children ←
        labelled (lit "listing the AnsibleBindingVMs for this binding" ∷ [])
          (ask (svc.store.cached ac.namespace ac.name))
    came ← sync_children ac spec vms children
    conclude ac spec prior vms children came

  unfoldable pub apply_ansible_binding :
      Object BindingBody → Exec (Sync W) (Provisioned BindingBody)
  apply_ansible_binding ac = elim ac.body [
    | undecodable e ↦ raise (wrap (lit "decoding AnsibleBinding" ∷ []) e)
    | decoded none prior ↦ raise (errorf (lit "spec is required" ∷ []))
    | decoded (some spec) prior ↦ apply_spec ac spec prior
  ]
