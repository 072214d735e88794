-- ===== src/Vm/Hook/Steps.antt =====
-- runDeprovisionHook of controller/ansiblebindingvm.go: what a whole step launches.
use ansible_supervisor_servi.Prelude.{
  ◌≡◌, refl, ◌∙◌, ap, Bool, true, false, not, ◌&&◌, ◌||◌, Option, none, some, List, [], ◌∷◌, arith,
  inl, inr, ◌==◌, ◌is◌,
}
use ansible_supervisor_servi.Objects.{Object}
use ansible_supervisor_servi.Time.{is_set, now_rfc3339}
use ansible_supervisor_servi.Awx.{Launch}
use ansible_supervisor_servi.Engine.Patch.{label}
use ansible_supervisor_servi.Engine.Patch.Keeps.{patch_status_invariant, Result-cases}
use ansible_supervisor_servi.Vm.Model.{
  DeprovisionStatus, VmStatus, VmBody, VmServices, Visit, apply_details, write_vm_details, clock,
  phase_pending, phase_launching,
}
use ansible_supervisor_servi.Vm.Hook.{hook_record, deadline_of, is_terminal_hook_phase, persist}
use ansible_supervisor_servi.Vm.Hook.Launch.{HookPass, Aim}
use ansible_supervisor_servi.Vm.Hook.Step.{ensure_clock, resume_hook, run_deprovision_hook}
use ansible_supervisor_servi.Vm.Hook.Once.{tally, persist-Quiet, prior_launching}
use ansible_supervisor_servi.Vm.Hook.Safety.{hook_sends, advance-sends}

-- Whether a step of a hook may launch: its record has no job, and either no start time, and then its
-- phase is reset, or a phase that is neither terminal nor Launching.
abbrev pub may_start : DeprovisionStatus → Bool
may_start d =
    d.job_id == 0
    && (not (is_set d.started_at)
        || not (is_terminal_hook_phase d.phase) && not (d.phase is phase_launching))

abbrev may_go : DeprovisionStatus → Bool
may_go d =
    d.job_id == 0 && (not (is_terminal_hook_phase d.phase) && not (d.phase is phase_launching))

module _ {W : Type 0} (svc : VmServices W) where
  persist-status :
      (u : Object VmBody) (prior : Option VmStatus) (s : Visit W)
      → (persist svc u prior s).1.status ≡ s.status
  unfolding persist write_vm_details
  persist-status u prior s = ground (
    arith,
    patch_status_invariant (λ t. t.status ≡ s.status) (apply_details svc u s.status)
        (λ t h. unfold apply_details in h) (label u) s refl,
  )

  module _ (p : HookPass) where
    abbrev started : Visit W → Visit W
    started s = record s {
      world = svc.base.tick s.world;
      status = record s.status {
        deprovision = some (record (hook_record s.status.deprovision) {
          started_at = now_rfc3339 (svc.base.now s.world);
          deadline = deadline_of p.hook (svc.base.now s.world);
          phase = phase_pending;
        });
      };
    }

    clock-keeps :
        (s : Visit W)
        → (tally svc (ensure_clock svc p s).1 ≡ tally svc s)
          × (may_start (hook_record s.status.deprovision) ≡ false
              → may_go (hook_record (ensure_clock svc p s).1.status.deprovision) ≡ false)
    unfolding ensure_clock clock
    clock-keeps s = ground (
      arith,
      persist-Quiet svc p.child p.prior (started s),
      persist-status p.child p.prior (started s),
    )

    resume-sends :
        (aim : Aim) (s : Visit W)
        → prior_launching p.prior ≡ false
        → tally svc s ≡ some []
        → hook_sends
            (may_go (hook_record s.status.deprovision))
            (tally svc (resume_hook svc p aim s).1)
          ≡ true
    unfolding resume_hook
    resume-sends aim s n e = ground (arith, n, e, advance-sends svc p aim s)

    weaker :
        (a b : Bool) (ls : Option (List Launch))
        → (a ≡ false → b ≡ false)
        → hook_sends b ls ≡ true
        → hook_sends a ls ≡ true
    weaker a b none h k = ground (arith, h, k)
    weaker a b (some []) h k = ground (arith, h, k)
    weaker a b (some (l ∷ ls)) h k = ground (arith, h, k)

    -- One step of a hook, begun before anything was launched from a status that did not say Launching:
    -- it launches at most once, right after a write of the phase Launching was accepted or answered
    -- that the child is not there any more, and not at all where the record may not start.
    pub run-sends :
        (aim : Aim) (s : Visit W)
        → prior_launching p.prior ≡ false
        → tally svc s ≡ some []
        → hook_sends
            (may_start (hook_record s.status.deprovision))
            (tally svc (run_deprovision_hook svc p aim s).1)
          ≡ true
    unfolding run_deprovision_hook
    run-sends aim s n e =
        let t = (ensure_clock svc p s).1 in
        elim (Result-cases (ensure_clock svc p s).0) [
          | inl (a, f) ↦ ground (
            arith,
            f,
            weaker (may_start (hook_record s.status.deprovision))
                (may_go (hook_record t.status.deprovision)) (tally svc (resume_hook svc p aim t).1)
                (clock-keeps s).1 (resume-sends aim t n ((clock-keeps s).0 ∙ e)),
          )
          | inr (x, f) ↦ ground (
            arith,
            f,
            weaker (may_start (hook_record s.status.deprovision)) false (tally svc t) (λ _. refl)
                (ap (hook_sends false) ((clock-keeps s).0 ∙ e)),
          )
        ]
