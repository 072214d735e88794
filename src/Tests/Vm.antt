-- ===== src/Tests/Vm.antt =====
-- VirtualMachines of bindings at concrete inputs.
use ansible_supervisor_servi.Prelude.{
  ◌≡◌, ◌≤◌, refl, true, length, ◌&&◌, none, some, [], ◌∷◌, arith,
}
use ansible_supervisor_servi.Time.{unset, at}
use ansible_supervisor_servi.Vm.Model.{HistoryEntry, no_vm_status, no_hook, phase_running}
use ansible_supervisor_servi.Vm.History.{
  upsert_history, history_limit, has_job, distinct_jobs, upsert_history-bounded,
}
use ansible_supervisor_servi.Vm.Ready.{needs_run}
use ansible_supervisor_servi.Vm.Apply.{starting_status, apply_ansible_binding_vm}
use ansible_supervisor_servi.Vm.Apply.Once.{sends}
use ansible_supervisor_servi.Vm.Apply.Answers.{apply-answers_once}
use ansible_supervisor_servi.Vm.Hook.{hook_record, hookless_outcome, is_terminal_hook_phase}
use ansible_supervisor_servi.Vm.Hook.Once.{tally}
use ansible_supervisor_servi.Vm.Hook.Safety.{hook_sends}
use ansible_supervisor_servi.Vm.Hook.Steps.{may_start}
use ansible_supervisor_servi.Vm.Hook.Outcome.{hookless_outcome-final}
use ansible_supervisor_servi.Vm.Cleanup.Inventory.{finish_host}
use ansible_supervisor_servi.Vm.Cleanup.Deletes.{
  deletions, deletes, may_delete, host_id, finish-deletes_own,
}
use ansible_supervisor_servi.Vm.Cleanup.{hook_stage}
use ansible_supervisor_servi.Vm.Cleanup.Gone.{says_gone, stage-hook_sends}
use ansible_supervisor_servi.Tests.RunWorld.{client}
use ansible_supervisor_servi.Tests.VmWorld.{
  vm, vm_services, vm_spec, owners, child, begin, claim, found, hook_begun,
}

apply-answers_once_example :
    sends
      (vm_services (some vm))
      vm_spec
      (needs_run (starting_status none) vm_spec)
      (apply_ansible_binding_vm (vm_services (some vm)) (child none) (begin no_vm_status)).1
    ≡ true
apply-answers_once_example =
    apply-answers_once (vm_services (some vm)) (child none) vm_spec none (owners ∷ [])
      (begin no_vm_status) refl refl

stage-hook_sends_example :
    hook_sends
      (says_gone claim ((vm_services none).get_vm "ns" "db" (begin hook_begun).world).0
        && may_start (hook_record hook_begun.deprovision))
      (tally
        (vm_services none)
        (hook_stage
          (vm_services none)
          claim
          "Template"
          client
          "0123456789abcdef"
          found
          (begin hook_begun)).1)
    ≡ true
stage-hook_sends_example =
    stage-hook_sends (vm_services none) claim "Template" client "0123456789abcdef" found
      (begin hook_begun) refl refl

finish-deletes_own_example :
    deletes
      (vm_services none)
      (may_delete (vm_services none) claim found.host)
      (host_id (vm_services none) found.host)
      (deletions (finish_host (vm_services none) claim client found (begin hook_begun)).1.calls)
    ≡ true
finish-deletes_own_example =
    finish-deletes_own (vm_services none) claim client found (begin hook_begun) refl

abbrev entry : HistoryEntry
entry = record { job_id = 7; status = "pending"; started_at = at 3; finished_at = unset }

upsert_history-bounded_example :
    (length (upsert_history (entry ∷ []) entry) ≤ history_limit)
    × (distinct_jobs (upsert_history (entry ∷ []) entry) ≡ true)
    × (has_job 7 (upsert_history (entry ∷ []) entry) ≡ true)
upsert_history-bounded_example = upsert_history-bounded (entry ∷ []) entry (omega arith) refl

hookless_outcome-final_example :
    (is_terminal_hook_phase
        (hookless_outcome
          (λ t. "")
          (some (record no_hook { phase = phase_running; job_id = 4 }))
          "the AWXConnection is gone").phase
      ≡ true)
    × ((hookless_outcome
          (λ t. "")
          (some (record no_hook { phase = phase_running; job_id = 4 }))
          "the AWXConnection is gone").job_id
        ≡ 4)
hookless_outcome-final_example =
    hookless_outcome-final (λ t. "") (some (record no_hook { phase = phase_running; job_id = 4 }))
      "the AWXConnection is gone"
