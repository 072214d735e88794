-- ===== src/Vm/Hook/Safety.antt =====
-- One step of a deprovision hook launches at most once, right after its announcement in the status.
use ansible_supervisor_servi.Prelude.{
  ℕ, ◌≡◌, Bool, true, false, Option, none, some, List, [], ◌∷◌, String, arith, inl, inr, ◌==◌, ◌is◌,
  lit, decimal, is_empty,
}
use ansible_supervisor_servi.Errors.{ok}
use ansible_supervisor_servi.Time.{Stamp}
use ansible_supervisor_servi.Awx.{Template, Host, Launch, template_type_workflow}
use ansible_supervisor_servi.Engine.Patch.Keeps.{Result-cases}
use ansible_supervisor_servi.Vm.Model.{
  VmSpec, VmStatus, VmServices, Visit, clock, polled, phase_pending, phase_running,
}
use ansible_supervisor_servi.Vm.Poll.{connection_of, poll_job, poll_recorded_job, phase_of}
use ansible_supervisor_servi.Vm.Hook.{hook_record, waiting, overdue, persist}
use ansible_supervisor_servi.Vm.Hook.Launch.{
  HookPass, Aim, by_template, at_host, pin_host, set_host_variables, launch_at_host, launch_aimed,
  launch_deprovision_hook, mode_of,
}
use ansible_supervisor_servi.Vm.Hook.Step.{
  settle_job, poll_deprovision_job, wait_for_run, poll_or_launch, after_run, advance,
}
use ansible_supervisor_servi.Vm.Hook.Once.{
  Quiet, tally, persist-Quiet, waiting-Quiet, submit-announced, prior_launching, at_most_one,
}

-- Nothing for a hook that has a job, or none may be started for.
abbrev pub hook_sends : Bool → Option (List Launch) → Bool
hook_sends true ls = at_most_one ls
hook_sends false none = false
hook_sends false (some ls) = is_empty ls

module _ {W : Type 0} (svc : VmServices W) (p : HookPass) where
  variables-Quiet :
      (h : Host) (s : Visit W)
      → Quiet svc (set_host_variables svc p.client h (("ansible_connection", "local") ∷ [])) s
  unfolding set_host_variables
  variables-Quiet h s = ground arith

  pin-Quiet : (h : Host) (s : Visit W) → Quiet svc (pin_host svc p h) s
  unfolding pin_host
  pin-Quiet h s =
      let begun = record s {
        status = record s.status {
          deprovision = some (record (hook_record s.status.deprovision) {
            prior_connection = svc.read_variable s.document "ansible_connection";
            host_pinned = true;
            pinned_host_id = h.id;
            pinned_host_endpoint = p.endpoint;
          });
        };
      } in
      elim (Result-cases (persist svc p.child p.prior begun).0) [
        | inl (a, e) ↦ ground (
          arith,
          e,
          persist-Quiet svc p.child p.prior begun,
          variables-Quiet h s,
          variables-Quiet h (persist svc p.child p.prior begun).1,
        )
        | inr (x, e) ↦
            ground (arith, e, persist-Quiet svc p.child p.prior begun, variables-Quiet h s)
      ]

  at_host-announced :
      (h : Host) (tmpl : Template) (s : Visit W)
      → prior_launching p.prior ≡ false
      → tally svc s ≡ some []
      → at_most_one (tally svc (launch_at_host svc p h tmpl s).1) ≡ true
  unfolding launch_at_host
  at_host-announced h tmpl s n e = elim (Result-cases (pin_host svc p h s).0) [
    | inl (a, f) ↦
        ground
          (arith, f, e, n, pin-Quiet h s, submit-announced svc p tmpl h.name (pin_host svc p h s).1)
    | inr (x, f) ↦ ground (arith, f, e, pin-Quiet h s)
  ]

  aimed-announced :
      (aim : Aim) (tmpl : Template) (s : Visit W)
      → prior_launching p.prior ≡ false
      → tally svc s ≡ some []
      → at_most_one (tally svc (launch_aimed svc p aim tmpl s).1) ≡ true
  unfolding launch_aimed
  aimed-announced by_template tmpl s n e = submit-announced svc p tmpl "" s n e
  aimed-announced (at_host h) tmpl s n e = at_host-announced h tmpl s n e

  launch-announced :
      (aim : Aim) (s : Visit W)
      → prior_launching p.prior ≡ false
      → tally svc s ≡ some []
      → at_most_one (tally svc (launch_deprovision_hook svc p aim s).1) ≡ true
  unfolding launch_deprovision_hook
  launch-announced aim s n e =
      let got = svc.base.awx.resolve_template p.client p.hook.template s.world in
      elim (Result-cases got.0) [
        | inl (tmpl, f) ↦ ground (
          arith,
          f,
          n,
          e,
          aimed-announced aim tmpl (record s {
            world = got.1;
            status = record s.status {
              deprovision =
                  some (record (hook_record s.status.deprovision) { targeting = mode_of aim });
            };
          }),
        )
        | inr (x, f) ↦ ground (arith, f, e)
      ]

  poll-Quiet : (s : Visit W) → Quiet svc (poll_deprovision_job svc p) s
  unfolding poll_deprovision_job poll_job settle_job
  poll-Quiet s =
      let d = hook_record s.status.deprovision in
      let got =
        svc.base.awx.job_status p.client (d.job_type is template_type_workflow) d.job_id s.world in
      elim (Result-cases got.0) [
        | inl (status, e) ↦ ground (
          arith,
          e,
          waiting-Quiet svc p.child p.prior phase_running "" (record s {
            world = got.1;
            calls = polled d.job_id got.0 ∷ s.calls;
            status = record s.status { deprovision = some (record d { job_status = status }) };
          }),
        )
        | inr (x, e) ↦ ground (arith, e)
      ]

  run_poll-Quiet :
      (ns : String) (spec : VmSpec) (st : VmStatus) (s : Visit W)
      → Quiet svc (poll_recorded_job svc ns spec st) s
  unfolding poll_recorded_job connection_of poll_job
  run_poll-Quiet ns spec st s = ground arith

  abbrev job_of : Visit W → ℕ
  job_of s = (hook_record s.status.deprovision).job_id

  abbrev polled_run : String → Visit W → Visit W
  polled_run status s = record s {
    status = record s.status { last_job_status = status; phase = phase_of status };
  }

  abbrev run_note : VmStatus → String
  run_note st = svc.render (
      lit "Waiting for provisioning job "
      ∷ decimal st.last_job_id
      ∷ lit " to finish before launching the hook."
      ∷ [])

  wait_for_run-Quiet : (s : Visit W) → Quiet svc (wait_for_run svc p) s
  unfolding wait_for_run
  wait_for_run-Quiet s =
      let got = poll_recorded_job svc p.child.namespace p.spec s.status s in
      elim (Result-cases got.0) [
        | inl (status, e) ↦ ground (
          arith,
          e,
          run_poll-Quiet p.child.namespace p.spec s.status s,
          waiting-Quiet svc p.child p.prior phase_pending (run_note s.status)
              (polled_run status got.1),
        )
        | inr (x, e) ↦ ground (arith, e, run_poll-Quiet p.child.namespace p.spec s.status s)
      ]

  run_poll-status :
      (ns : String) (spec : VmSpec) (st : VmStatus) (s : Visit W)
      → (poll_recorded_job svc ns spec st s).1.status ≡ s.status
  unfolding poll_recorded_job connection_of poll_job
  run_poll-status ns spec st s = ground arith

  -- A provisioning job that is over leaves the hook's own job as it is.
  wait_for_run-job :
      (s : Visit W)
      → (wait_for_run svc p s).0 ≡ ok none
      → job_of (wait_for_run svc p s).1 ≡ job_of s
  unfolding wait_for_run
  wait_for_run-job s h =
      let got = poll_recorded_job svc p.child.namespace p.spec s.status s in
      elim (Result-cases got.0) [
        | inl (status, e) ↦
            elim (Result-cases
              (waiting svc p.child p.prior phase_pending (run_note s.status)
                (polled_run status got.1)).0) [
                  | inl (r, f) ↦
                      ground (arith, h, e, f, run_poll-status p.child.namespace p.spec s.status s)
                  | inr (x, f) ↦
                      ground (arith, h, e, f, run_poll-status p.child.namespace p.spec s.status s)
                ]
        | inr (x, e) ↦ ground (arith, h, e)
      ]

  step-sends :
      (aim : Aim) (s : Visit W)
      → prior_launching p.prior ≡ false
      → tally svc s ≡ some []
      → hook_sends (job_of s == 0) (tally svc (poll_or_launch svc p aim s).1) ≡ true
  unfolding poll_or_launch
  step-sends aim s n e = ground (arith, n, e, launch-announced aim s, poll-Quiet s)

  overdue-same :
      (d : Stamp) (s : Visit W)
      → ((overdue svc d s).1.status ≡ s.status) × (tally svc (overdue svc d s).1 ≡ tally svc s)
  unfolding overdue clock
  overdue-same d s = (ground arith, ground arith)

  waited-sends :
      (aim : Aim) (s : Visit W)
      → prior_launching p.prior ≡ false
      → tally svc s ≡ some []
      → hook_sends (job_of s == 0) (tally svc (after_run svc p aim s).1) ≡ true
  unfolding after_run
  waited-sends aim s n e = elim (Result-cases (wait_for_run svc p s).0) [
    | inl (none, f) ↦ ground (
      arith,
      f,
      n,
      e,
      wait_for_run-Quiet s,
      wait_for_run-job s,
      step-sends aim (wait_for_run svc p s).1,
    )
    | inl (some r, f) ↦ ground (arith, f, e, wait_for_run-Quiet s)
    | inr (x, f) ↦ ground (arith, f, e, wait_for_run-Quiet s)
  ]

  pub advance-sends :
      (aim : Aim) (s : Visit W)
      → prior_launching p.prior ≡ false
      → tally svc s ≡ some []
      → hook_sends (job_of s == 0) (tally svc (advance svc p aim s).1) ≡ true
  unfolding advance
  advance-sends aim s n e =
      let at = (hook_record s.status.deprovision).deadline in
      let looked = overdue svc at s in
      elim (Result-cases looked.0) [
        | inl (late, f) ↦ ground (arith, f, n, e, overdue-same at s, waited-sends aim looked.1)
        | inr (x, f) ↦ ground (arith, f, e, overdue-same at s)
      ]
