-- ===== src/Vm/Cleanup.antt =====
-- cleanupAnsibleBindingVM of controller/ansiblebindingvm.go: one pass over a child that is going away.
pub mod Inventory
pub mod Pass
pub mod Deletes
pub mod Gone
use ansible_supervisor_servi.Prelude.{
  ℕ, String, Bool, true, false, not, ◌&&◌, ◌||◌, Option, none, some, List, [], ◌∷◌, Text, lit,
  quoted, decimal, is_some, trim_space, shown, ◌==◌, ◌is◌, if◌then◌else◌,
}
use ansible_supervisor_servi.Errors.{Error, Result, ok, err, wrap, is_permanent}
use ansible_supervisor_servi.Exec.{Exec, pure, raise, attempt, labelled, ◌>>=◌, ◌>>◌}
use ansible_supervisor_servi.Objects.{Object}
use ansible_supervisor_servi.Awx.{Connection, Client, Host}
use ansible_supervisor_servi.Engine.Reconcile.{CleanupResult}
use ansible_supervisor_servi.Vm.Model.{
  DeprovisionHook, DeprovisionStatus, VmSpec, VmStatus, OwnerReference, VmBody, undecodable,
  decoded, VmServices, Visit, ask, status_of, set_status, phase_failed, targeting_managed_host,
  targeting_template, cleanup_policy_retain,
}
use ansible_supervisor_servi.Vm.Same.{same_option, same_deprovision}
use ansible_supervisor_servi.Vm.Apply.{prior_status}
use ansible_supervisor_servi.Vm.Hook.{
  is_terminal_hook_phase, hook_record, hook_targeting, skip_hook, hookless_outcome, done, set_hook,
  persist_hook_state, start_hook_clock, time_out_overdue,
}
use ansible_supervisor_servi.Vm.Hook.Launch.{HookPass, Aim, by_template, at_host}
use ansible_supervisor_servi.Vm.Hook.Step.{poll_deprovision_job, run_deprovision_hook}
use ansible_supervisor_servi.Vm.Events.{report_hook_outcome}
use ansible_supervisor_servi.Vm.Cleanup.Inventory.{
  Claim, Found, discover_cleanup_host, vm_is_gone, is_foreign, release_without_host, finish_host,
  retains,
}

-- A hook that has a record and is not over.
abbrev owed_hook : Option DeprovisionStatus → Bool
owed_hook none = false
owed_hook (some d) = not (is_terminal_hook_phase d.phase)

-- A hook whose job is polled without anything else being read.
abbrev pollable : Option DeprovisionStatus → Bool
pollable none = false
pollable (some d) =
    not (d.job_id == 0) && not (d.endpoint is "") && not (is_terminal_hook_phase d.phase)

abbrev still_present : String
still_present = "The VirtualMachine is still present, so this is a detach rather than a deletion."

abbrev pub hook_pass : Claim → DeprovisionHook → Client → String → ℕ → HookPass
hook_pass c hook client endpoint inventory = record {
  child = c.child;
  spec = c.spec;
  prior = c.prior;
  owners = c.owners;
  hook = hook;
  client = client;
  endpoint = endpoint;
  inventory = inventory;
}

abbrev not_done : CleanupResult → Option CleanupResult
not_done r = if r.is_done then none else some r

-- Whether a pass has left the hook's record alone: whatever replaces the record changes it.
abbrev same_record : Option VmStatus → Option DeprovisionStatus → Bool
same_record none dep = false
same_record (some prior) dep = same_option same_deprovision prior.deprovision dep

module _ {W : Type 0} (svc : VmServices W) where
  -- finishHookless
  unfoldable pub finish_hookless : Claim → String → Exec (Visit W) CleanupResult
  finish_hookless c reason =
      if is_some c.spec.on_deleted
      then (do
        set_status (λ s. record s {
          deprovision = some (hookless_outcome svc.render s.deprovision reason);
        })
        report_hook_outcome svc c.child c.spec c.prior
        pure done)
      else pure done

  -- The job that a hook already has is polled first; none is to go on.
  unfoldable pub poll_running : Claim → Client → String → Exec (Visit W) (Option CleanupResult)
  poll_running c client endpoint = do
    st ← status_of
    elim c.spec.on_deleted [
      | none ↦ pure none
      | some hook ↦
          if pollable st.deprovision
          then (do
            r ← poll_deprovision_job svc (hook_pass c hook client endpoint 0)
            pure (not_done r))
          else pure none
    ]

  unfoldable pub run_hook :
      Claim → DeprovisionHook → Client → String → ℕ → Aim → Exec (Visit W) (Option CleanupResult)
  run_hook c hook client endpoint inventory aim = do
    r ← run_deprovision_hook svc (hook_pass c hook client endpoint inventory) aim
    pure (not_done r)

  abbrev skip : String → Exec (Visit W) (Option CleanupResult)
  skip message = do
    set_status (λ s. record s { deprovision = some (skip_hook s.deprovision message) })
    pure none

  -- A hook that is aimed at the inventory host.
  unfoldable pub hook_at_host :
      Claim → DeprovisionHook → Client → String → Found → Exec (Visit W) (Option CleanupResult)
  hook_at_host c hook client endpoint found = elim found.host [
    | none ↦
        skip
          "There is no AWX inventory host to run against. Set spec.onDeleted.targeting: Template for a hook that does not need one."
    | some h ↦
        if is_foreign svc c h
        then skip (
            svc.render (
              lit "Inventory host "
              ∷ quoted found.name
              ∷ lit " belongs to another ansible-supervisor binding ("
              ∷ lit (trim_space h.description)
              ∷ lit "), so it was neither modified nor run against."
              ∷ []))
        else run_hook c hook client endpoint found.inventory (at_host h)
  ]

  -- The hook's part of a pass: only for a VM that is gone.
  unfoldable pub hook_stage :
      Claim → String → Client → String → Found → Exec (Visit W) (Option CleanupResult)
  hook_stage c mode client endpoint found = elim c.spec.on_deleted [
    | none ↦ pure none
    | some hook ↦ do
      gone ← vm_is_gone svc c
      if not gone
          then skip still_present
          else if mode is targeting_template
          then run_hook c hook client endpoint found.inventory by_template
          else if mode is targeting_managed_host
          then hook_at_host c hook client endpoint found
          else (do
            set_hook (λ d. record d {
              phase = phase_failed;
              message = svc.render (
                  lit "spec.onDeleted.targeting is "
                  ∷ quoted mode
                  ∷ lit ", which is neither ManagedHost nor Template, so nothing was launched."
                  ∷ []);
            })
            pure none)
  ]

  -- No hook is to be run, and the host could not be looked up.
  unfoldable pub give_up_host : Claim → Bool → Error → Exec (Visit W) CleanupResult
  give_up_host c shared e =
      if retains c.spec
      then release_without_host svc c shared e
      else persist_hook_state svc c.child c.prior >> raise e

  -- What follows the hook: its outcome is written down first where the lookup of the host failed.
  abbrev lookup_result : Option Error → Claim → Client → Found → Exec (Visit W) CleanupResult
  lookup_result none c client found = finish_host svc c client found
  lookup_result (some e) c client found =
      persist_hook_state svc c.child c.prior
      >> (if retains c.spec then release_without_host svc c false e else raise e)

  unfoldable pub with_host :
      Claim → String → Client → String → Found → Option Error → Exec (Visit W) CleanupResult
  with_host c mode client endpoint found failure = do
    early ← hook_stage c mode client endpoint found
    elim early [ some r ↦ pure r | none ↦ lookup_result failure c client found ]

  -- The host could not be looked up.
  unfoldable pub without_host :
      Claim → String → Client → String → Error → Exec (Visit W) CleanupResult
  without_host c mode client endpoint e = do
    st ← status_of
    if is_permanent e
        then finish_hookless c "the inventory could not be resolved"
        else if not (is_some c.spec.on_deleted && owed_hook st.deprovision)
        then give_up_host c (same_record c.prior st.deprovision) e
        else if mode is targeting_template
        then with_host c mode client endpoint
            (record { host = none; inventory = 0; name = st.awx_host_name }) (some e)
        else (do
          gone ← vm_is_gone svc c
          if gone then raise e else skip still_present >> give_up_host c false e)

  abbrev pub found_host :
      Claim → String → Client → String → Result Found → Exec (Visit W) CleanupResult
  found_host c mode client endpoint (ok found) = with_host c mode client endpoint found none
  found_host c mode client endpoint (err e) = without_host c mode client endpoint e
