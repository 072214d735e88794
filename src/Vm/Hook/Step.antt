-- ===== src/Vm/Hook/Step.antt =====
-- pollDeprovisionJob and runDeprovisionHook of controller/ansiblebindingvm.go: one step of a hook.
use ansible_supervisor_servi.Prelude.{
  String, Bool, not, ◌&&◌, Option, none, some, [], ◌∷◌, lit, decimal, concat, ◌==◌, ◌is◌,
  if◌then◌else◌,
}
use ansible_supervisor_servi.Exec.{Exec, pure, labelled, ◌>>=◌, ◌>>◌}
use ansible_supervisor_servi.Time.{is_set, now_rfc3339}
use ansible_supervisor_servi.Engine.Reconcile.{CleanupResult}
use ansible_supervisor_servi.Run.Recover.{
  is_terminal_awx_status, map_awx_status, succeeded, failed, running,
}
use ansible_supervisor_servi.Vm.Model.{
  DeprovisionStatus, VmServices, Visit, status_of, set_status, clock, phase_pending, phase_running,
  phase_succeeded, phase_failed, phase_timed_out, phase_launching,
}
use ansible_supervisor_servi.Vm.Poll.{phase_of, poll_job, poll_recorded_job}
use ansible_supervisor_servi.Vm.Apply.{in_flight}
use ansible_supervisor_servi.Vm.Hook.{
  is_terminal_hook_phase, deadline_of, done, hook_of, set_hook, settle, overdue, persist, waiting,
}
use ansible_supervisor_servi.Vm.Hook.Launch.{HookPass, Aim, launch_deprovision_hook}

abbrev pub moved_away : DeprovisionStatus → String → Bool
moved_away d endpoint =
    not (d.endpoint is "") && not (endpoint is "") && not (d.endpoint is endpoint)

-- The outcome of a hook whose job is over.
unfoldable pub settle_job : {W : Type 0} → DeprovisionStatus → String → Exec (Visit W) CleanupResult
settle_job d status =
    if not (d.launch_error is "")
    then settle phase_failed (concat "AWX did not accept the launch as requested: " d.launch_error)
    else elim (map_awx_status status) [
      | succeeded ↦ settle phase_succeeded ""
      | failed ↦
          settle phase_failed
            "The deprovision job did not succeed. The inventory host was removed anyway."
      | running ↦
          settle phase_failed
            "The deprovision job did not succeed. The inventory host was removed anyway."
    ]

module _ {W : Type 0} (svc : VmServices W) (p : HookPass) where
  -- pollDeprovisionJob: a job id means nothing on another AWX instance.
  unfoldable pub poll_deprovision_job : Exec (Visit W) CleanupResult
  poll_deprovision_job = do
    d ← hook_of
    if moved_away d p.endpoint
        then settle phase_failed (
            svc.render (
              lit
                "The AWXConnection was repointed at a different AWX instance while the hook was running, so job "
              ∷ decimal d.job_id
              ∷ lit " could not be followed to a conclusion. Check "
              ∷ lit d.endpoint
              ∷ lit " for how it ended."
              ∷ []))
        else (do
          status ←
              labelled (lit "polling deprovision job " ∷ decimal d.job_id ∷ [])
                (poll_job svc p.client d.job_type d.job_id)
          set_hook (λ h. record h { job_status = status })
          if is_terminal_awx_status status
              then settle_job d status
              else waiting svc p.child p.prior phase_running "")

  -- A provisioning job that still runs is waited for; none is that there is nothing to wait for.
  unfoldable pub wait_for_run : Exec (Visit W) (Option CleanupResult)
  wait_for_run = do
    d ← hook_of
    st ← status_of
    if d.job_id == 0 && in_flight st
        then (do
          status ←
              labelled
                (lit "polling in-flight job "
                  ∷ decimal st.last_job_id
                  ∷ lit " before the deprovision hook"
                  ∷ [])
                (poll_recorded_job svc p.child.namespace p.spec st)
          set_status (λ s. record s { last_job_status = status; phase = phase_of status })
          if is_terminal_awx_status status then pure none else (do
            r ← waiting svc p.child p.prior phase_pending (
                svc.render (
                  lit "Waiting for provisioning job "
                  ∷ decimal st.last_job_id
                  ∷ lit " to finish before launching the hook."
                  ∷ []))
            pure (some r)))
        else pure none

  unfoldable pub poll_or_launch : Aim → Exec (Visit W) CleanupResult
  poll_or_launch aim = do
    d ← hook_of
    if d.job_id == 0 then launch_deprovision_hook svc p aim else poll_deprovision_job

  -- The clock, for a record that has none yet.
  unfoldable pub ensure_clock : Exec (Visit W) (Unit {0})
  ensure_clock = do
    d ← hook_of
    set_hook (λ h. h)
    if is_set d.started_at then pure tt else (do
      now ← clock svc
      set_hook (λ h. record h {
        started_at = now_rfc3339 now;
        deadline = deadline_of p.hook now;
        phase = phase_pending;
      })
      labelled (lit "recording the deprovision deadline" ∷ []) (persist svc p.child p.prior))

  unfoldable pub after_run : Aim → Exec (Visit W) CleanupResult
  after_run aim = do
    waits ← wait_for_run
    elim waits [ some r ↦ pure r | none ↦ poll_or_launch aim ]

  -- The step of a hook that is neither over nor without an answer to its launch.
  unfoldable pub advance : Aim → Exec (Visit W) CleanupResult
  advance aim = do
    d ← hook_of
    late ← overdue svc d.deadline
    if late
        then settle phase_timed_out
            "The hook did not finish before spec.onDeleted.timeoutSeconds elapsed. The inventory host was removed anyway."
        else after_run aim

  unfoldable pub resume_hook : Aim → Exec (Visit W) CleanupResult
  resume_hook aim = do
    d ← hook_of
    if is_terminal_hook_phase d.phase
        then pure done
        else if d.phase is phase_launching
        then settle phase_failed
            "A launch was issued but its outcome was never recorded, so it was not retried. Check AWX for a job against this host."
        else advance aim

  -- runDeprovisionHook
  unfoldable pub run_deprovision_hook : Aim → Exec (Visit W) CleanupResult
  run_deprovision_hook aim = ensure_clock >> resume_hook aim
