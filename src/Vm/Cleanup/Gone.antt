-- ===== src/Vm/Cleanup/Gone.antt =====
-- Which deprovision hooks a cleanup runs: those of VirtualMachines that are gone.
use ansible_supervisor_servi.Prelude.{
  ℕ, ◌≡◌, Bool, true, false, ◌&&◌, Option, some, [], ◌∷◌, String, arith, inl, inr, Option-cases,
}
use ansible_supervisor_servi.Errors.{Result, ok, err}
use ansible_supervisor_servi.Awx.{Client}
use ansible_supervisor_servi.Engine.Patch.Keeps.{Result-cases}
use ansible_supervisor_servi.Vm.Model.{DeprovisionHook, VirtualMachine, VmServices, Visit, vm_read}
use ansible_supervisor_servi.Vm.Hook.{hook_record}
use ansible_supervisor_servi.Vm.Hook.Launch.{Aim, by_template, at_host}
use ansible_supervisor_servi.Vm.Hook.Once.{tally, prior_launching}
use ansible_supervisor_servi.Vm.Hook.Safety.{hook_sends}
use ansible_supervisor_servi.Vm.Hook.Steps.{may_start, run-sends}
use ansible_supervisor_servi.Vm.Cleanup.Inventory.{Claim, Found, gone_by, vm_is_gone}
use ansible_supervisor_servi.Vm.Cleanup.{hook_pass, run_hook, hook_at_host, hook_stage}

-- What a live read of the VirtualMachine says: only an answer counts.
abbrev pub says_gone : Claim → Result (Option VirtualMachine) → Bool
says_gone c (ok vm) = gone_by c vm
says_gone c (err e) = false

module _ {W : Type 0} (svc : VmServices W) where
  run-hook_sends :
      (c : Claim) (hook : DeprovisionHook) (client : Client) (endpoint : String) (inventory : ℕ)
      (aim : Aim) (s : Visit W)
      → prior_launching c.prior ≡ false
      → tally svc s ≡ some []
      → hook_sends
          (may_start (hook_record s.status.deprovision))
          (tally svc (run_hook svc c hook client endpoint inventory aim s).1)
        ≡ true
  unfolding run_hook
  run-hook_sends c hook client endpoint inventory aim s n e =
      ground (arith, run-sends svc (hook_pass c hook client endpoint inventory) aim s n e)

  host-hook_sends :
      (c : Claim) (hook : DeprovisionHook) (client : Client) (endpoint : String) (found : Found)
      (s : Visit W)
      → prior_launching c.prior ≡ false
      → tally svc s ≡ some []
      → hook_sends
          (may_start (hook_record s.status.deprovision))
          (tally svc (hook_at_host svc c hook client endpoint found s).1)
        ≡ true
  unfolding hook_at_host
  host-hook_sends c hook client endpoint found s n e = elim (Option-cases found.host) [
    | inl f ↦ ground (arith, f, e)
    | inr (h, f) ↦
        ground
          (arith, f, e, run-hook_sends c hook client endpoint found.inventory (at_host h) s n e)
  ]

  -- The hook's part of a cleanup, begun before anything was launched from a status that did not say
  -- Launching, launches at most once, as the call right after a write of the status with the phase
  -- Launching, which was accepted or answered that the child is not there any more. It launches
  -- nothing where the live read of the VirtualMachine fails or does not say that it is gone, nor where
  -- the hook's record has a job, nor where it has a start time and a phase that is terminal or
  -- Launching. A record without a start time begins anew, whatever its phase.
  pub stage-hook_sends :
      (c : Claim) (mode : String) (client : Client) (endpoint : String) (found : Found)
      (s : Visit W)
      → prior_launching c.prior ≡ false
      → tally svc s ≡ some []
      → hook_sends
          (says_gone c (svc.get_vm c.child.namespace c.spec.vm_name s.world).0
            && may_start (hook_record s.status.deprovision))
          (tally svc (hook_stage svc c mode client endpoint found s).1)
        ≡ true
  unfolding hook_stage vm_is_gone
  stage-hook_sends c mode client endpoint found s n e =
      let got = svc.get_vm c.child.namespace c.spec.vm_name s.world in
      let read = record s { world = got.1; calls = vm_read got.0 ∷ s.calls } in
      elim (Option-cases c.spec.on_deleted) [
        | inl f ↦ ground (arith, f, e)
        | inr (hook, f) ↦ elim (Result-cases got.0) [
          | inr (x, g) ↦ ground (arith, f, g, e)
          | inl (vm, g) ↦ ground (
            arith,
            f,
            g,
            e,
            run-hook_sends c hook client endpoint found.inventory by_template read n e,
            host-hook_sends c hook client endpoint found read n e,
          )
        ]
      ]
