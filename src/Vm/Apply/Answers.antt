-- ===== src/Vm/Apply/Answers.antt =====
-- What a whole pass of applyAnsibleBindingVM sends to AWX.
use ansible_supervisor_servi.Prelude.{◌≡◌, true, Option, some, List, [], arith, inl, inr}
use ansible_supervisor_servi.Engine.Patch.Keeps.{Result-cases}
use ansible_supervisor_servi.Objects.{Object}
use ansible_supervisor_servi.Vm.Model.{
  VmSpec, VmStatus, VmBody, decoded, OwnerReference, VmServices, Visit,
}
use ansible_supervisor_servi.Vm.Ready.{needs_run}
use ansible_supervisor_servi.Vm.Apply.{starting_status, check_claim, apply_ansible_binding_vm}
use ansible_supervisor_servi.Vm.Apply.Once.{launches, sends, none-sends, claim-sends}

module _ {W : Type 0} (svc : VmServices W) where
  -- A pass over a child that has a spec, begun before anything was launched, launches at most once,
  -- and not at all where neither the binding's generation nor its trigger is new and a job is on
  -- record; and where the launch made a job, the status that the pass ends with asks for no
  -- further run.
  pub apply-answers_once :
      (u : Object VmBody) (spec : VmSpec) (prior : Option VmStatus) (owners : List OwnerReference)
      (s : Visit W)
      → u.body ≡ decoded (some spec) prior owners
      → launches s.calls ≡ []
      → sends svc spec (needs_run (starting_status prior) spec) (apply_ansible_binding_vm svc u s).1
        ≡ true
  unfolding apply_ansible_binding_vm
  apply-answers_once u spec prior owners s b e =
      let wants = needs_run (starting_status prior) spec in
      elim (Result-cases (check_claim svc u spec owners)) [
        | inr (x, f) ↦ ground (arith, b, f, none-sends svc spec wants s e)
        | inl (owner, f) ↦ ground (arith, b, f, claim-sends svc u spec prior owners owner s e)
      ]
