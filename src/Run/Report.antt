-- ===== src/Run/Report.antt =====
-- updateAnsibleRunStatus (controller/ansiblerun.go): what a user reads about a run.
pub mod Outcome
use ansible_supervisor_servi.Prelude.{
  Bool, true, false, not, Option, none, some, [], ◌∷◌, ◌++◌, Text, lit, shown, decimal, is_blank,
  ◌==◌, ◌is◌, if◌then◌else◌,
}
use ansible_supervisor_servi.Errors.{Error, error_text}
use ansible_supervisor_servi.Objects.{Object, GenericStatus}
use ansible_supervisor_servi.Time.{is_set}
use ansible_supervisor_servi.Engine.Report.{update_generic_status}
use ansible_supervisor_servi.Run.Model.{RunStatus, RunBody, undecodable, decoded}

unfoldable pub report_finished : RunStatus → GenericStatus
report_finished st =
    if st.job_status is "successful"
    then (record {
      state = "Ready";
      message = lit "AWX job " ∷ decimal st.job_id ∷ lit " completed successfully." ∷ [];
      ready = true;
    })
    else (record {
      state = "Failed";
      message =
          if not (is_blank st.failure_reason)
          then st.failure_reason
          else if not (st.job_id == 0)
          then lit "AWX job "
            ∷ decimal st.job_id
            ∷ lit " finished "
            ∷ shown st.job_status
            ∷ lit "."
            ∷ []
          else lit "Run failed." ∷ [];
      ready = false;
    })

unfoldable pub report_running : RunStatus → Option Error → GenericStatus
report_running st e = record {
  state = "Running";
  message =
      lit "AWX job "
      ∷ decimal st.job_id
      ∷ lit " is "
      ∷ shown st.job_status
      ∷ elim e [ some x ↦ lit "; last error: " ∷ error_text x | none ↦ lit "." ∷ [] ];
  ready = false;
}

unfoldable pub report_pending : Option Error → GenericStatus
report_pending e = record {
  state = "Pending";
  message = elim e [
    | some x ↦ lit "Not launched yet, retrying: " ∷ error_text x
    | none ↦ lit "Waiting to launch." ∷ []
  ];
  ready = false;
}

unfoldable pub report_status : RunStatus → Option Error → GenericStatus
report_status st e =
    if is_set st.finished_at
    then report_finished st
    else if not (st.job_id == 0)
    then report_running st e
    else report_pending e

unfoldable pub update_ansible_run_status : Object RunBody → Bool → Option Error → GenericStatus
update_ansible_run_status u success e = elim u.body [
  | undecodable x ↦ update_generic_status u success e
  | decoded spec st created ↦ report_status st e
]
