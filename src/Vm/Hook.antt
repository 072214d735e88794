-- ===== src/Vm/Hook.antt =====
-- The record of a deprovision hook, and its clock: the helpers of controller/ansiblebindingvm.go that
-- a hook's passes share.
pub mod Launch
pub mod Step
pub mod Once
pub mod Safety
pub mod Steps
pub mod Outcome
use ansible_supervisor_servi.Prelude.{
  ℕ, ◌+◌, ◌-◌, ◌*◌, String, Bool, true, false, not, ◌&&◌, ◌||◌, Option, none, some, [], ◌∷◌, Text,
  lit, concat, trim_space, ltb, ◌==◌, ◌is◌, if◌then◌else◌, ℤ, pos, negsuc,
}
use ansible_supervisor_servi.Exec.{Exec, pure, attempt, labelled, ◌>>=◌, ◌>>◌}
use ansible_supervisor_servi.Errors.{ok}
use ansible_supervisor_servi.Objects.{Object}
use ansible_supervisor_servi.Time.{Stamp, unset, second, is_set, parse, now_rfc3339, seconds}
use ansible_supervisor_servi.Engine.Reconcile.{CleanupResult}
use ansible_supervisor_servi.Vm.Model.{
  DeprovisionHook, DeprovisionStatus, no_hook, VmStatus, VmBody, VmServices, Visit, ask, status_of,
  set_status, clock, write_vm_details, phase_pending, phase_succeeded, phase_failed,
  phase_timed_out, phase_skipped, targeting_managed_host,
}
use ansible_supervisor_servi.Vm.Same.{details_current}

-- isTerminalHookPhase
abbrev pub is_terminal_hook_phase : String → Bool
is_terminal_hook_phase phase =
    (phase is phase_succeeded)
    || (phase is phase_failed)
    || (phase is phase_timed_out)
    || (phase is phase_skipped)

abbrev pub default_hook_timeout_seconds : ℕ
default_hook_timeout_seconds = 900

abbrev add_duration : ℕ → ℤ → ℕ
add_duration now (pos n) = now + n
add_duration now (negsuc n) = now - (n + 1)

-- The instant at which a hook that starts now is overdue.
unfoldable pub deadline_of : DeprovisionHook → ℕ → Stamp
deadline_of hook now =
    let timeout =
      if hook.timeout_seconds == 0 then default_hook_timeout_seconds else hook.timeout_seconds in
    now_rfc3339 (add_duration now (seconds timeout))

-- overdue, at the time `now`.
unfoldable pub overdue_at : Stamp → ℕ → Bool
overdue_at deadline now = elim (parse deadline) [ none ↦ false | some at ↦ ltb at now ]

abbrev pub hook_record : Option DeprovisionStatus → DeprovisionStatus
hook_record none = no_hook
hook_record (some d) = d

abbrev asked_mode : Option DeprovisionHook → String
asked_mode none = targeting_managed_host
asked_mode (some h) = if h.targeting is "" then targeting_managed_host else h.targeting

-- hookTargeting
unfoldable pub hook_targeting : Option DeprovisionHook → Option DeprovisionStatus → String
hook_targeting hook none = asked_mode hook
hook_targeting hook (some d) =
    if not (d.targeting is "")
    then d.targeting
    else if is_set d.started_at
    then targeting_managed_host
    else asked_mode hook

-- skipHook
abbrev pub skip_hook : Option DeprovisionStatus → String → DeprovisionStatus
skip_hook dep message = record (hook_record dep) { phase = phase_skipped; message = message }

abbrev pub never_started : DeprovisionStatus → Bool
never_started d = ((d.phase is "") || (d.phase is phase_pending)) && d.job_id == 0

-- A sentence more for the operator.
abbrev pub add_note : String → DeprovisionStatus → DeprovisionStatus
add_note note d = record d { message = trim_space (concat d.message note) }

abbrev no_longer_followed : String → DeprovisionStatus → DeprovisionStatus
no_longer_followed note d = add_note (concat " " note) (record d { phase = phase_failed })

-- The outcome by whether the hook never started and whether it is over.
unfoldable pub hookless_by :
    Bool → Bool → (Text → String) → DeprovisionStatus → String → DeprovisionStatus
hookless_by true _ render d reason = record no_hook {
  phase = phase_skipped;
  message = render (lit "The deprovision hook could not run: " ∷ lit reason ∷ lit "." ∷ []);
}
hookless_by false false render d reason =
    no_longer_followed
      (render (
        lit "The deprovision hook could not be followed to a conclusion: "
        ∷ lit reason
        ∷ lit ". Check AWX for a job against this host."
        ∷ []))
      d
hookless_by false true render d reason =
    add_note
      (concat " "
        (render (lit "Cleanup after the hook could not finish: " ∷ lit reason ∷ lit "." ∷ [])))
      d

-- hooklessOutcome; `render` is fmt.Sprintf. A hook without a record never started.
unfoldable pub hookless_outcome :
    (Text → String) → Option DeprovisionStatus → String → DeprovisionStatus
unfolding hookless_by
hookless_outcome render none reason = hookless_by true false render no_hook reason
hookless_outcome render (some d) reason =
    hookless_by (never_started d) (is_terminal_hook_phase d.phase) render d reason

abbrev pub done : CleanupResult
done = record { is_done = true; requeue_after = 0 }

abbrev pub hook_poll_interval : ℕ
hook_poll_interval = 15 * second

abbrev pub hook_poll_jitter : ℕ
hook_poll_jitter = 3 * second

-- The wait of hookRequeue for a hook with a deadline.
unfoldable pub wait_until : ℕ → ℕ → ℕ → ℕ
wait_until interval at now =
    if not (ltb at (now + interval))
    then interval
    else if ltb (at - now) second
    then second
    else at - now

module _ {W : Type 0} where
  -- The hook's record in the status of this pass.
  abbrev pub hook_of : Exec (Visit W) DeprovisionStatus
  hook_of = status_of >>= λ st. pure (hook_record st.deprovision)

  abbrev pub set_hook : (DeprovisionStatus → DeprovisionStatus) → Exec (Visit W) (Unit {0})
  set_hook f = set_status (λ s. record s { deprovision = some (f (hook_record s.deprovision)) })

  -- hookPass.settle
  abbrev pub settle : String → String → Exec (Visit W) CleanupResult
  settle phase message = do set_hook (λ d. record d { phase = phase; message = message }); pure done

module _ {W : Type 0} (svc : VmServices W) where
  -- overdue
  unfoldable pub overdue : Stamp → Exec (Visit W) Bool
  overdue deadline = elim (parse deadline) [
    | none ↦ pure false
    | some _ ↦ clock svc >>= λ now. pure (overdue_at deadline now)
  ]

  -- hookRequeue
  unfoldable pub hook_requeue : Stamp → Exec (Visit W) ℕ
  hook_requeue deadline = do
    jitter ← ask (λ w. let r = svc.random hook_poll_jitter w in (ok (r.0), r.1))
    elim (parse deadline) [
      | none ↦ pure (hook_poll_interval + jitter)
      | some at ↦ do now ← clock svc; pure (wait_until (hook_poll_interval + jitter) at now)
    ]

  -- hookPass.persist: a status that says nothing new is not written.
  unfoldable pub persist : Object VmBody → Option VmStatus → Exec (Visit W) (Unit {0})
  persist u prior = do
    st ← status_of
    if details_current prior st then pure tt else write_vm_details svc u

  -- persistHookState: an error is only logged.
  unfoldable pub persist_hook_state : Object VmBody → Option VmStatus → Exec (Visit W) (Unit {0})
  persist_hook_state u prior = do r ← attempt (persist u prior); pure tt

  unfoldable pub wait_for_hook : Exec (Visit W) CleanupResult
  wait_for_hook = do
    d ← hook_of
    delay ← hook_requeue d.deadline
    pure (record { is_done = false; requeue_after = delay })

  -- hookPass.waiting
  unfoldable pub waiting :
      Object VmBody → Option VmStatus → String → String → Exec (Visit W) CleanupResult
  waiting u prior phase message = do
    set_hook (λ d. record d { phase = phase; message = message })
    labelled (lit "recording deprovision progress" ∷ []) (persist u prior)
    wait_for_hook

  abbrev opened : DeprovisionHook → ℕ → DeprovisionStatus → DeprovisionStatus
  opened hook now d = record d {
    targeting = hook_targeting (some hook) (some d);
    started_at = now_rfc3339 now;
    deadline = deadline_of hook now;
    phase = if d.phase is "" then phase_pending else d.phase;
  }

  -- startHookClock
  unfoldable pub start_hook_clock :
      Object VmBody → Option VmStatus → DeprovisionHook → Exec (Visit W) (Unit {0})
  start_hook_clock u prior hook = do
    d ← hook_of
    if is_set d.started_at then pure tt else (do
      now ← clock svc
      set_hook (opened hook now)
      labelled (lit "recording the deprovision deadline" ∷ []) (persist u prior))

  -- A hook that is overdue is timed out before anything asks AWX.
  unfoldable pub time_out_overdue : Exec (Visit W) (Unit {0})
  time_out_overdue = do
    d ← hook_of
    if is_terminal_hook_phase d.phase then pure tt else (do
      late ← overdue d.deadline
      if late
          then set_hook (λ d. record d {
            phase = phase_timed_out;
            message = "The hook did not finish before spec.onDeleted.timeoutSeconds elapsed.";
          })
          else pure tt)
