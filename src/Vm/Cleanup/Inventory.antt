-- ===== src/Vm/Cleanup/Inventory.antt =====
-- The inventory host in a cleanup: discoverCleanupHost, vmIsGone, releaseWithoutHost and the last part
-- of cleanupAnsibleBindingVM, of controller/ansiblebindingvm.go, and RestoreHostVariable of
-- controller/awx_client.go.
use ansible_supervisor_servi.Prelude.{
  ℕ, String, Bool, true, false, not, ◌&&◌, ◌||◌, Option, none, some, List, [], ◌∷◌, ◌++◌, lit,
  quoted, decimal, trim_space, starts_with, is_some, ◌==◌, ◌is◌, if◌then◌else◌,
}
use ansible_supervisor_servi.Errors.{Error, ok, err, error_text}
use ansible_supervisor_servi.Exec.{Exec, pure, lift, attempt, labelled, ◌>>=◌, ◌>>◌}
use ansible_supervisor_servi.Objects.{Object}
use ansible_supervisor_servi.Awx.{Connection, Client, Host}
use ansible_supervisor_servi.Engine.Reconcile.{CleanupResult}
use ansible_supervisor_servi.Run.Hosts.{host_marker_prefix}
use ansible_supervisor_servi.Vm.Model.{
  DeprovisionStatus, VmSpec, VmStatus, OwnerReference, VmBody, VirtualMachine, vm_read, hosts_found,
  restored, deleted, VmServices, Visit, ask, tell, status_of, cleanup_policy_retain,
}
use ansible_supervisor_servi.Vm.Ready.{owner_uid}
use ansible_supervisor_servi.Vm.Poll.{host_owner_marker}
use ansible_supervisor_servi.Vm.Apply.{host_name_of}
use ansible_supervisor_servi.Vm.Hook.{hook_record, add_note, done, set_hook, persist_hook_state}
use ansible_supervisor_servi.Vm.Events.{report_hook_outcome}

-- A child that is going away: its object, as it was read, and what that decodes to.
pub record Claim : Type 0 where
  pub child : Object VmBody
  pub spec : VmSpec
  pub prior : Option VmStatus
  pub owners : List OwnerReference

-- The inventory host that a child is responsible for, none where there is none.
pub record Found : Type 0 where
  pub host : Option Host
  pub inventory : ℕ
  pub name : String

abbrev pub retains : VmSpec → Bool
retains spec = spec.cleanup_policy is cleanup_policy_retain

abbrev other_uid : Option String → String → Bool
other_uid none uid = false
other_uid (some owner) uid = not (owner is "") && not (uid is owner)

-- vmIsGone, of an answer of the API server.
unfoldable pub gone_by : Claim → Option VirtualMachine → Bool
gone_by c none = true
gone_by c (some vm) = vm.deleting || other_uid (owner_uid c.owners c.spec.vm_name) vm.uid

-- The prior status as Go has it: until a pass replaces the hook's record, both statuses point to the
-- same one, so that a change of the record is in both.
abbrev pub shared_prior : Bool → VmStatus → Option VmStatus → Option VmStatus
shared_prior shared st none = none
shared_prior shared st (some prior) =
    some (if shared then record prior { deprovision = st.deprovision } else prior)

abbrev is_pinned : Option DeprovisionStatus → Bool
is_pinned none = false
is_pinned (some d) = d.host_pinned

abbrev unpinned : DeprovisionStatus → DeprovisionStatus
unpinned d = record d { host_pinned = false; prior_connection = none }

module _ {W : Type 0} (svc : VmServices W) where
  abbrev pub is_ours : Claim → Host → Bool
  is_ours c h =
      trim_space h.description
      is host_owner_marker svc.base.supervisor_id c.child.namespace c.spec.binding_name

  abbrev pub is_foreign : Claim → Host → Bool
  is_foreign c h = not (is_ours c h) && starts_with (trim_space h.description) host_marker_prefix

  -- FindHost; the variables of the host are kept, as calls change them.
  unfoldable pub find_host : Client → ℕ → String → Exec (Visit W) Found
  find_host client inventory name = do
    host ←
        labelled (lit "rediscovering AWX host for cleanup" ∷ [])
          (tell (hosts_found inventory name) (svc.base.awx.find_host client inventory name))
    elim host [ none ↦ pure tt | some h ↦ λ s. (ok tt, record s { document = h.variables }) ]
    pure (record { host = host; inventory = inventory; name = name })

  -- discoverCleanupHost
  unfoldable pub discover_cleanup_host : Claim → Connection → Client → Exec (Visit W) Found
  discover_cleanup_host c conn client = do
    st ← status_of
    if st.awx_inventory_id == 0 || (st.awx_host_name is "")
        then (do
          tmpl ←
              labelled (lit "resolving inventory for host cleanup" ∷ [])
                (ask (svc.base.awx.resolve_template client c.spec.template))
          elim tmpl.inventory [
            | none ↦ pure (record { host = none; inventory = 0; name = "" })
            | some i ↦ find_host client i (host_name_of conn c.spec)
          ])
        else find_host client st.awx_inventory_id st.awx_host_name

  unfoldable pub vm_is_gone : Claim → Exec (Visit W) Bool
  vm_is_gone c = do
    vm ←
        labelled
          (lit "checking whether VirtualMachine " ∷ quoted c.spec.vm_name ∷ lit " is gone" ∷ [])
          (tell vm_read (svc.get_vm c.child.namespace c.spec.vm_name))
    pure (gone_by c vm)

  -- releaseWithoutHost
  unfoldable pub release_without_host : Claim → Bool → Error → Exec (Visit W) CleanupResult
  release_without_host c shared e = do
    st ← status_of
    (if is_pinned st.deprovision
        then set_hook (
            add_note (
              svc.render (
                lit " The hook's ansible_connection: local override is still on host "
                  ∷ quoted st.awx_host_name
                  ∷ lit ", which could not be reached to undo it ("
                  ∷ error_text e
                ++ (lit ")." ∷ []))))
        else pure tt)
    next ← status_of
    report_hook_outcome svc c.child c.spec (shared_prior shared next c.prior)
    pure done

  -- RestoreHostVariable, on the host that this pass found.
  unfoldable pub restore_host_variable :
      Client → Host → String → Option String → Exec (Visit W) (Unit {0})
  restore_host_variable client h key prior s =
      (do
        body ←
            labelled (lit "restoring " ∷ lit key ∷ lit " on host " ∷ quoted h.name ∷ [])
              (lift (svc.restored_variables s.document key prior))
        elim body [
          | none ↦ pure tt
          | some document ↦ do
            labelled (lit "restoring " ∷ lit key ∷ lit " on host " ∷ quoted h.name ∷ [])
                (tell (restored h.id) (svc.base.awx.patch_host client h.id document))
            λ t. (ok tt, record t { document = document })
        ])
        s

  -- A host that stays is handed back as it was found.
  unfoldable pub unpin_host : Claim → Client → Found → Host → Exec (Visit W) (Unit {0})
  unpin_host c client found h = do
    st ← status_of
    let d = hook_record st.deprovision
    if not (is_pinned st.deprovision && (retains c.spec || not (is_ours c h)))
        then pure tt
        else if not (d.pinned_host_id == 0) && not (h.id == d.pinned_host_id)
        then set_hook (λ d. unpinned (
            add_note
              (svc.render (
                lit " Host "
                ∷ quoted found.name
                ∷ lit " is no longer the host the hook pinned (id "
                ∷ decimal d.pinned_host_id
                ∷ lit ", now id "
                ∷ decimal h.id
                ∷ lit "), so the ansible_connection override was not restored onto it."
                ∷ []))
              d))
        else (do
          r ← attempt (restore_host_variable client h "ansible_connection" d.prior_connection)
          elim r [
            | ok _ ↦ set_hook unpinned
            | err e ↦ set_hook (
                add_note (
                  svc.render (
                    lit
                        " The hook's ansible_connection: local override could not be taken back off host "
                      ∷ quoted found.name
                      ∷ lit " ("
                      ∷ error_text e
                    ++ (lit "), so remove it in AWX before that host is used again." ∷ []))))
          ])

  -- A host that this binding created goes, unless the policy retains it.
  unfoldable pub delete_own_host : Claim → Client → Host → Exec (Visit W) (Unit {0})
  delete_own_host c client h =
      if not (retains c.spec) && is_ours c h
      then (do
        r ← attempt (
            labelled (lit "deleting AWX host " ∷ decimal h.id ∷ [])
              (tell (deleted h.id) (svc.base.awx.delete_host client h.id)))
        elim r [ ok _ ↦ pure tt | err e ↦ persist_hook_state svc c.child c.prior >> lift (err e) ])
      else pure tt

  unfoldable pub settle_host : Claim → Client → Found → Exec (Visit W) (Unit {0})
  settle_host c client found = elim found.host [
    | none ↦ pure tt
    | some h ↦ unpin_host c client found h >> delete_own_host c client h
  ]

  -- A pass without a hook has not replaced the hook's record.
  unfoldable pub report_end : Claim → Exec (Visit W) CleanupResult
  report_end c = do
    st ← status_of
    report_hook_outcome svc c.child c.spec
        (shared_prior (not (is_some c.spec.on_deleted)) st c.prior)
    pure done

  -- The last part of a cleanup.
  unfoldable pub finish_host : Claim → Client → Found → Exec (Visit W) CleanupResult
  finish_host c client found = settle_host c client found >> report_end c
