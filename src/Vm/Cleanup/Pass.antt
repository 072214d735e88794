-- ===== src/Vm/Cleanup/Pass.antt =====
-- cleanupAnsibleBindingVM of controller/ansiblebindingvm.go from its start up to the lookup of the
-- inventory host.
use ansible_supervisor_servi.Prelude.{
  String, Bool, not, ◌&&◌, Option, none, some, List, [], ◌∷◌, lit, quoted, decimal, is_some, shown,
  ◌is◌, if◌then◌else◌,
}
use ansible_supervisor_servi.Errors.{ok, err, wrap, is_permanent}
use ansible_supervisor_servi.Exec.{Exec, pure, raise, attempt, labelled, ◌>>=◌, ◌>>◌}
use ansible_supervisor_servi.Objects.{Object}
use ansible_supervisor_servi.Awx.{Connection, Client}
use ansible_supervisor_servi.Engine.Reconcile.{CleanupResult}
use ansible_supervisor_servi.Vm.Model.{
  DeprovisionStatus, VmSpec, VmStatus, OwnerReference, VmBody, undecodable, decoded, VmServices,
  Visit, ask, status_of, set_status,
}
use ansible_supervisor_servi.Vm.Apply.{prior_status}
use ansible_supervisor_servi.Vm.Hook.{hook_targeting, done, start_hook_clock, time_out_overdue}
use ansible_supervisor_servi.Vm.Cleanup.Inventory.{Claim, discover_cleanup_host, retains}
use ansible_supervisor_servi.Vm.Cleanup.{poll_running, found_host, finish_hookless}

-- recordedAWXEndpoint, of the hook's record.
abbrev hook_endpoint : Option DeprovisionStatus → String
hook_endpoint none = ""
hook_endpoint (some d) = if d.pinned_host_endpoint is "" then d.endpoint else d.pinned_host_endpoint

unfoldable pub recorded_awx_endpoint : VmStatus → String
recorded_awx_endpoint st =
    if st.awx_endpoint is "" then hook_endpoint st.deprovision else st.awx_endpoint

abbrev claim_of : Object VmBody → VmSpec → Option VmStatus → List OwnerReference → Claim
claim_of u spec prior owners = record { child = u; spec = spec; prior = prior; owners = owners }

module _ {W : Type 0} (svc : VmServices W) where
  -- The rest of a pass, once AWX can be asked.
  unfoldable pub with_client : Claim → Connection → Client → String → Exec (Visit W) CleanupResult
  with_client c conn client endpoint = do
    early ← poll_running svc c client endpoint
    elim early [
      | some r ↦ pure r
      | none ↦ do
        st ← status_of
        r ← attempt (discover_cleanup_host svc c conn client)
        found_host svc c (hook_targeting c.spec.on_deleted st.deprovision) client endpoint r
    ]

  abbrev moved : VmStatus → String → Bool
  moved st endpoint =
      not (recorded_awx_endpoint st is "") && not (recorded_awx_endpoint st is endpoint)

  unfoldable pub with_connection : Claim → Connection → Exec (Visit W) CleanupResult
  with_connection c conn = do
    st ← status_of
    r ← attempt (ask (svc.base.client_for conn))
    elim r [
      | err e ↦
          if is_permanent e
          then finish_hookless svc c "the AWX token is gone"
          else raise (
              wrap
                (lit "preparing a client to clean up AWX host "
                  ∷ decimal st.awx_host_id
                  ∷ lit
                      " (set spec.cleanupPolicy: Retain to release this object and leave it in place)"
                  ∷ [])
                e)
      | ok client ↦
          let endpoint = svc.base.fingerprint conn.spec.url client.base_path in
          if moved st endpoint
          then finish_hookless svc c "the AWXConnection now points at a different AWX instance"
          else with_client c conn client endpoint
    ]

  -- An AWXConnection that does not decode, or that has no spec, is none.
  unfoldable pub reach_connection : Claim → Exec (Visit W) CleanupResult
  reach_connection c = do
    st ← status_of
    r ← attempt (ask (svc.base.connection c.child.namespace c.spec.awx_connection_ref))
    elim r [
      | err e ↦
          if is_permanent e
          then finish_hookless svc c "the AWXConnection is gone"
          else raise (
              wrap
                (lit "fetching AWXConnection "
                  ∷ quoted c.spec.awx_connection_ref
                  ∷ lit " to clean up AWX host "
                  ∷ decimal st.awx_host_id
                  ∷ [])
                e)
      | ok none ↦ finish_hookless svc c "the AWXConnection is malformed"
      | ok (some conn) ↦ with_connection c conn
    ]

  unfoldable pub begin_hook : Claim → Exec (Visit W) (Unit {0})
  begin_hook c = elim c.spec.on_deleted [
    | none ↦ pure tt
    | some hook ↦ start_hook_clock svc c.child c.prior hook >> time_out_overdue svc
  ]

  unfoldable pub cleanup_claim : Claim → Exec (Visit W) CleanupResult
  cleanup_claim c = do set_status (λ s. prior_status c.prior); begin_hook c; reach_connection c

  abbrev refreshed : Claim → Object VmBody → VmBody → Exec (Visit W) CleanupResult
  refreshed c fresh (decoded (some spec) prior owners) =
      cleanup_claim (claim_of fresh spec prior owners)
  refreshed c fresh _ = cleanup_claim c

  -- With a hook, the child is read anew: a stale copy may not say that a job was launched.
  unfoldable pub cleanup_fresh : Claim → Exec (Visit W) CleanupResult
  cleanup_fresh c = do
    found ←
        labelled
          (lit "re-reading " ∷ shown c.child.name ∷ lit " before running its deprovision hook" ∷ [])
          (ask (svc.get_child c.child.namespace c.child.name))
    elim found [ none ↦ pure done | some fresh ↦ refreshed c fresh fresh.body ]

  unfoldable pub cleanup_ansible_binding_vm : Object VmBody → Exec (Visit W) CleanupResult
  cleanup_ansible_binding_vm u = elim u.body [
    | undecodable e ↦ pure done
    | decoded none prior owners ↦ pure done
    | decoded (some spec) prior owners ↦
        if is_some spec.on_deleted
        then cleanup_fresh (claim_of u spec prior owners)
        else if retains spec
        then pure done
        else cleanup_claim (claim_of u spec prior owners)
  ]
