-- ===== src/Run/Report/Outcome.antt =====
-- From AWX's answer about a job to the report of the run: pollRun and updateAnsibleRunStatus.
use ansible_supervisor_servi.Prelude.{
  ℕ, zero, suc, [], Text, String, ◌≡◌, refl, Bool, true, false, Option, some, arith, inl, inr, ◌==◌,
  ◌is◌, if◌then◌else◌,
}
use ansible_supervisor_servi.Errors.{Error, ok, err, is_terminal_error, error_text, errorf}
use ansible_supervisor_servi.Exec.{Exec}
use ansible_supervisor_servi.Objects.{Object}
use ansible_supervisor_servi.Time.{is_set, unset, now_rfc3339}
use ansible_supervisor_servi.Engine.Patch.{
  label, max_status_retries, patch_status_from, patch_status,
}
use ansible_supervisor_servi.Engine.Patch.Keeps.{Result-cases}
use ansible_supervisor_servi.Run.Model.{
  RunSpec, RunStatus, RunBody, decoded, AwxContext, Services, Pass,
}
use ansible_supervisor_servi.Run.Launch.{write_run_details, now_stamp, read_clock, apply_details}
use ansible_supervisor_servi.Run.Recover.{
  is_terminal_awx_status, map_awx_status, endpoint_moved, run_connection, awx_context_for_run,
  poll_job, poll_run, record_outcome, fail_run, stamp_failure, stamp_finished,
}
use ansible_supervisor_servi.Run.Apply.{advance_run, reconcile_run, drive}
use ansible_supervisor_servi.Run.Core.{SameStatus, write_run_details-SameStatus}
use ansible_supervisor_servi.Run.Report.{
  report_finished, report_running, report_status, update_ansible_run_status,
}

-- The state that a job's status stands for.
abbrev pub state_for : String → String
state_for status =
    if status is "successful"
    then "Ready"
    else if is_terminal_awx_status status
    then "Failed"
    else "Running"

module _ {S : Type 0} (apply : Exec S (Unit {0})) where
  patch_status_from-plain :
      (n : ℕ) (who : Text) (last : Error) (s : S) (x : Error)
      → is_terminal_error last ≡ false
      → ((t : S) (y : Error) → (apply t).0 ≡ err y → is_terminal_error y ≡ false)
      → (patch_status_from n who apply last s).0 ≡ err x
      → is_terminal_error x ≡ false
  unfolding patch_status_from is_terminal_error
  patch_status_from-plain zero who last s x l plain e = ground (arith, l, e)
  patch_status_from-plain (suc n) who last s x l plain e = elim (Result-cases (apply s).0) [
    | inl (a, f) ↦ ground (arith, f, e)
    | inr (y, f) ↦ ground (
      arith,
      f,
      e,
      plain s y f,
      patch_status_from-plain n who y (apply s).1 x (plain s y f) plain,
    )
  ]

  patch_status-plain :
      (who : Text) (s : S) (x : Error)
      → ((t : S) (y : Error) → (apply t).0 ≡ err y → is_terminal_error y ≡ false)
      → (patch_status who apply s).0 ≡ err x
      → is_terminal_error x ≡ false
  unfolding patch_status
  patch_status-plain who s x plain e =
      patch_status_from-plain max_status_retries who (errorf []) s x
        (unfold is_terminal_error in refl) plain e

report-failed :
    (e : Option Error) (st : RunStatus)
    → is_set st.finished_at ≡ true
    → (st.job_status is "successful") ≡ false
    → (report_status st e).state ≡ "Failed"
unfolding report_status report_finished
report-failed e st f n = ground (arith, f, n)

stays :
    (b : Bool) (status : String)
    → (status is "successful") ≡ false
    → ((if b then "unknown" else status) is "successful") ≡ false
stays true status n = refl
stays false status n = n

module _ {W : Type 0} (svc : Services W) where
  write-status : (u : Object RunBody) (s : Pass W) → (write_run_details svc u s).1.status ≡ s.status
  unfolding SameStatus
  write-status u s = ground (arith, write_run_details-SameStatus svc u s)

  poll_run-report :
      (u : Object RunBody) (awx : AwxContext) (status : String) (e : Option Error) (s : Pass W)
      → (poll_job svc awx s.status.job_id s).0 ≡ ok status
      → (s.status.job_id == 0) ≡ false
      → s.status.finished_at ≡ unset
      → (poll_run svc u awx s).0 ≡ ok tt
      → (report_status (poll_run svc u awx s).1.status e).state ≡ state_for status
  unfolding poll_run poll_job record_outcome report_status is_terminal_awx_status map_awx_status
      stamp_finished now_stamp read_clock report_finished report_running
  poll_run-report u awx status e s p j f o =
      let seen = (poll_job svc awx s.status.job_id s).1 in
      let known = record seen { status = record seen.status { job_status = status } } in
      ground (arith, p, j, f, o, write-status u known, write-status u (stamp_finished svc known).1)

  -- A poll that ends in a terminal error leaves a status that is terminal and not "successful".
  poll_run-fails :
      (u : Object RunBody) (awx : AwxContext) (status : String) (x : Error) (s : Pass W)
      → (poll_job svc awx s.status.job_id s).0 ≡ ok status
      → (poll_run svc u awx s).0 ≡ err x
      → ((poll_run svc u awx s).1.status.job_status ≡ status)
  unfolding poll_run poll_job record_outcome is_terminal_awx_status map_awx_status stamp_finished
      now_stamp read_clock
  poll_run-fails u awx status x s p o =
      let seen = (poll_job svc awx s.status.job_id s).1 in
      let known = record seen { status = record seen.status { job_status = status } } in
      ground (arith, p, o, write-status u known, write-status u (stamp_finished svc known).1)

  -- The API server's errors are not this package's terminalError.
  abbrev pub PlainErrors : Type 0
  PlainErrors =
      (u : Object RunBody) (st : RunStatus) (w : W) (x : Error)
      → (svc.apply_status u st w).0 ≡ err x
      → is_terminal_error x ≡ false

  write-plain :
      (u : Object RunBody) (s : Pass W) (x : Error)
      → PlainErrors
      → (write_run_details svc u s).0 ≡ err x
      → is_terminal_error x ≡ false
  unfolding write_run_details
  write-plain u s x plain e =
      patch_status-plain (apply_details svc u s.status) (label u) s x
        (λ t y h. unfold apply_details in plain u s.status t.world y h) e

  poll_run-terminal :
      (u : Object RunBody) (awx : AwxContext) (status : String) (x : Error) (s : Pass W)
      → PlainErrors
      → (poll_job svc awx s.status.job_id s).0 ≡ ok status
      → (poll_run svc u awx s).0 ≡ err x
      → is_terminal_error x ≡ true
      → (is_terminal_awx_status status ≡ true) × ((status is "successful") ≡ false)
  unfolding poll_run poll_job record_outcome is_terminal_awx_status map_awx_status stamp_finished
      now_stamp read_clock
  poll_run-terminal u awx status x s plain p o t =
      let seen = (poll_job svc awx s.status.job_id s).1 in
      let known = record seen { status = record seen.status { job_status = status } } in
      ground (
        arith,
        p,
        o,
        t,
        write-plain u known x plain,
        write-plain u (stamp_finished svc known).1 x plain,
      )

  fail_run-report :
      (u : Object RunBody) (reason : Text) (e : Option Error) (s : Pass W)
      → (s.status.job_status is "successful") ≡ false
      → (report_status (fail_run svc u reason s).1.status e).state ≡ "Failed"
  unfolding fail_run
  fail_run-report u reason e s n = ground (
    arith,
    write-status u (stamp_failure svc reason s).1,
    report-failed e (stamp_failure svc reason s).1.status
        (unfold stamp_failure now_stamp read_clock now_rfc3339 in refl)
        (unfold stamp_failure now_stamp read_clock in
          stays (s.status.job_status is "") s.status.job_status n),
  )

  context-status :
      (namespace : String) (spec : RunSpec) (s : Pass W)
      → (awx_context_for_run svc namespace spec s).1.status ≡ s.status
  unfolding awx_context_for_run run_connection
  context-status namespace spec s = ground arith

  -- A pass over an unfinished run with a job, that has reached the AWX instance which made the job,
  -- and AWX answers that the job is in `status`, where the API server's errors are not terminalError:
  -- if the pass ends without an error, the state reported of the run as the pass left it is Ready
  -- where the status is "successful", Failed where it is another terminal one, and Running where the
  -- job is still going.
  pub outcome_reported :
      (u : Object RunBody) (spec : RunSpec) (created : Option ℕ) (awx : AwxContext)
      (status : String) (success : Bool) (e : Option Error) (s : Pass W)
      → PlainErrors
      → (awx_context_for_run svc u.namespace spec s).0 ≡ ok awx
      → endpoint_moved s.status.awx_endpoint awx.endpoint ≡ false
      → (s.status.job_id == 0) ≡ false
      → s.status.finished_at ≡ unset
      → (poll_job svc awx s.status.job_id (awx_context_for_run svc u.namespace spec s).1).0
        ≡ ok status
      → (drive svc u spec s).0 ≡ ok tt
      → (update_ansible_run_status
          (record u { body = decoded (some spec) (drive svc u spec s).1.status created })
          success
          e).state
        ≡ state_for status
  unfolding drive reconcile_run advance_run update_ansible_run_status
  outcome_reported u spec created awx status success e s plain c m j f p o =
      let met = (awx_context_for_run svc u.namespace spec s).1 in
      elim (Result-cases (poll_run svc u awx met).0) [
        | inl (a, r) ↦ ground (
          arith,
          c,
          m,
          j,
          f,
          p,
          o,
          r,
          context-status u.namespace spec s,
          poll_run-report u awx status e met,
        )
        | inr (x, r) ↦ ground (
          arith,
          c,
          m,
          j,
          f,
          p,
          o,
          r,
          context-status u.namespace spec s,
          poll_run-terminal u awx status x met plain,
          poll_run-fails u awx status x met,
          fail_run-report u (error_text x) e (poll_run svc u awx met).1,
        )
      ]
