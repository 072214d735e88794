-- ===== src/Run/Cleanup.antt =====
-- cleanupAnsibleRun, resolveLostJobForCleanup and cancelAndConfirm: what happens before a run's
-- finalizer is released.
pub mod Deletes
pub mod Stops
use ansible_supervisor_servi.Prelude.{
  ℕ, ◌*◌, String, Bool, true, false, not, ◌&&◌, ◌||◌, Option, none, some, List, [], ◌∷◌, ◌++◌, Text,
  lit, quoted, decimal, ◌==◌, ◌is◌, if◌then◌else◌, keep, lt_int, pos, is_empty, trim_space,
}
use ansible_supervisor_servi.Errors.{Error, Result, ok, err, wrap, is_permanent, is_terminal_error}
use ansible_supervisor_servi.Exec.{Exec, pure, raise, lift, attempt, ◌>>=◌, ◌>>◌, labelled}
use ansible_supervisor_servi.Objects.{Object}
use ansible_supervisor_servi.Time.{Stamp, unset, is_set, parse, second, since}
use ansible_supervisor_servi.Awx.{Host, Job}
use ansible_supervisor_servi.Engine.Reconcile.{CleanupResult}
use ansible_supervisor_servi.Run.Model.{
  RunSpec, RunStatus, RunHostStatus, RunBody, undecodable, decoded, RunCall, canceled, host_read,
  host_deleted, AwxContext, Services, Pass, ask, tell, status_of, set_status, set_version,
}
use ansible_supervisor_servi.Run.Hosts.{run_host_owner_marker}
use ansible_supervisor_servi.Run.Launch.{read_clock, now_stamp, write_run_details}
use ansible_supervisor_servi.Run.Recover.{
  is_terminal_awx_status, endpoint_moved, run_connection, context_of, poll_job, post_cancel,
  stamp_cancel, match_lost_launch_jobs, created_stamp,
}
use ansible_supervisor_servi.Run.Apply.{read_run_live}

abbrev pub is_done_now : CleanupResult
is_done_now = record { is_done = true; requeue_after = 0 }

-- cancelConfirmPoll and cancelConfirmTimeout.
abbrev pub cancel_confirm_poll : ℕ
cancel_confirm_poll = 5 * second

abbrev pub cancel_confirm_timeout : ℕ
cancel_confirm_timeout = 120 * second

abbrev pub come_back : CleanupResult
come_back = record { is_done = false; requeue_after = cancel_confirm_poll }

-- The hosts that cleanup may delete: created by this run, and none under the policy Retain.
unfoldable pub hosts_to_delete : RunSpec → RunStatus → List RunHostStatus
unfolding keep
hosts_to_delete spec st =
    if spec.cleanup_policy is "Retain"
    then []
    else keep (λ (h : RunHostStatus). not (h.awx_host_id == 0) && h.awx_host_created) st.hosts

abbrev pub is_cancelling : RunStatus → Bool
is_cancelling st = not (st.job_id == 0) && not (is_terminal_awx_status st.job_status)

abbrev pub is_unresolved : RunStatus → Bool
is_unresolved st = (st.job_id == 0) && is_set st.launch_attempted_at

abbrev pub first_error : Option Error → Option Error → Option Error
first_error none e = e
first_error (some x) e = some x

module _ {W : Type 0} (svc : Services W) where
  -- The request to stop the job, once.
  unfoldable pub request_stop : Object RunBody → AwxContext → RunStatus → Exec (Pass W) (Unit {0})
  request_stop u awx st = if is_set st.cancel_requested_at then pure tt else (do
    labelled
        (lit "canceling AWX job "
          ∷ decimal st.job_id
          ∷ lit " (spec.cleanupPolicy: Retain will not skip this; cancel it in AWX to release this "
          ∷ lit "run)"
          ∷ [])
        (post_cancel svc awx st.job_id)
    stamp_cancel svc
    write_run_details svc u)

  -- A status that is news is recorded.
  unfoldable pub note_status : Object RunBody → String → Exec (Pass W) (Unit {0})
  note_status u status = do
    st ← status_of
    if status is st.job_status
        then pure tt
        else set_status (λ s. record s { job_status = status }) >> write_run_details svc u

  -- Done where the job has stopped, or where it was asked to longer ago than the timeout.
  unfoldable pub confirm_stop : String → Exec (Pass W) CleanupResult
  unfolding read_clock
  confirm_stop status = if is_terminal_awx_status status then pure is_done_now else (do
    st ← status_of
    elim (parse st.cancel_requested_at) [
      | none ↦ pure come_back
      | some requested ↦ (do
        now ← read_clock svc
        if lt_int (pos cancel_confirm_timeout) (since now requested)
            then pure is_done_now
            else pure come_back)
    ])

  unfoldable pub observe : AwxContext → Exec (Pass W) String
  observe awx = do
    st ← status_of
    labelled (lit "checking whether AWX job " ∷ decimal st.job_id ∷ lit " has stopped" ∷ [])
        (poll_job svc awx st.job_id)

  unfoldable pub cancel_and_confirm : Object RunBody → AwxContext → Exec (Pass W) CleanupResult
  cancel_and_confirm u awx = do
    before ← status_of
    request_stop u awx before
    status ← observe awx
    note_status u status
    confirm_stop status

  unfoldable pub adopt_found : AwxContext → Job → Exec (Pass W) (Unit {0})
  adopt_found awx job = set_status (λ st. record st {
    job_id = job.id;
    job_url = svc.awx.job_url awx.client job.id awx.is_workflow;
    job_status = job.status;
    started_at = if is_set st.started_at then st.started_at else created_stamp job.created;
  })

  -- The candidates of the last look: only a single one is the run's job.
  unfoldable pub adopt_for_cleanup : Object RunBody → AwxContext → List Job → Exec (Pass W) Bool
  adopt_for_cleanup u awx (job ∷ []) = do adopt_found awx job; write_run_details svc u; pure true
  adopt_for_cleanup u awx _ = pure false

  unfoldable pub resolve_lost_job_for_cleanup :
      Object RunBody → RunSpec → AwxContext → Stamp → Exec (Pass W) Bool
  resolve_lost_job_for_cleanup u spec awx sent = elim (parse sent) [
    | none ↦ pure false
    | some attempted ↦ do
      r ← attempt (match_lost_launch_jobs svc spec awx attempted)
      elim r [
        | ok jobs ↦ adopt_for_cleanup u awx jobs
        | err e ↦
            if is_permanent e
            then pure false
            else raise (
                wrap
                  (lit "looking for the job an unrecorded launch may have started, before "
                    ∷ lit "releasing this run"
                    ∷ [])
                  e)
      ]
  ]

  -- One host: it is deleted only if AWX says, now, that it carries this run's marker.
  unfoldable pub delete_one : AwxContext → String → RunHostStatus → Exec (Pass W) (Option Error)
  delete_one awx marker h = do
    r ← attempt (tell (host_read h.awx_host_id) (svc.awx.get_host_by_id awx.client h.awx_host_id))
    elim r [
      | err e ↦ pure (
          some (
            wrap
              (lit "reading AWX host "
                ∷ decimal h.awx_host_id
                ∷ lit " ("
                ∷ quoted h.name
                ∷ lit ") before deleting it"
                ∷ [])
              e))
      | ok none ↦ pure none
      | ok (some host) ↦ if not (trim_space host.description is marker) then pure none else (do
        d ←
            attempt
              (tell (host_deleted h.awx_host_id) (svc.awx.delete_host awx.client h.awx_host_id))
        elim d [
          | ok _ ↦ pure none
          | err e ↦ pure (
              some (
                wrap
                  (lit "deleting AWX host "
                    ∷ decimal h.awx_host_id
                    ∷ lit " ("
                    ∷ quoted h.name
                    ∷ lit ")"
                    ∷ [])
                  e))
        ])
    ]

  -- The loop goes on after an error; the first one is returned.
  unfoldable pub delete_hosts :
      AwxContext → String → List RunHostStatus → Option Error → Exec (Pass W) (Option Error)
  delete_hosts awx marker [] first = pure first
  delete_hosts awx marker (h ∷ hs) first = do
    e ← delete_one awx marker h
    delete_hosts awx marker hs (first_error first e)

  unfoldable pub delete_all :
      Object RunBody → AwxContext → List RunHostStatus → Exec (Pass W) CleanupResult
  delete_all u awx hosts = do
    e ← delete_hosts awx (run_host_owner_marker svc.supervisor_id u.namespace u.name) hosts none
    elim e [ none ↦ pure is_done_now | some x ↦ raise x ]

  -- The job is stopped before any host goes.
  unfoldable pub stop_and_delete :
      Object RunBody → AwxContext → List RunHostStatus → Bool → Exec (Pass W) CleanupResult
  stop_and_delete u awx hosts cancelling = do
    result ← if cancelling then cancel_and_confirm u awx else pure is_done_now
    if result.is_done then delete_all u awx hosts else pure result

  unfoldable pub cleanup_at :
      Object RunBody → RunSpec → AwxContext → RunStatus → Exec (Pass W) CleanupResult
  cleanup_at u spec awx st = do
    found ←
        if is_unresolved st
        then resolve_lost_job_for_cleanup u spec awx st.launch_attempted_at
        else pure false
    now ← status_of
    stop_and_delete u awx (hosts_to_delete spec st)
        (if found then not (is_terminal_awx_status now.job_status) else is_cancelling st)

  -- What cannot be reached from here is abandoned.
  unfoldable pub cleanup_with_client :
      Object RunBody → RunSpec → RunStatus → AwxContext → Exec (Pass W) CleanupResult
  cleanup_with_client u spec st awx =
      if endpoint_moved st.awx_endpoint awx.endpoint
      then pure is_done_now
      else cleanup_at u spec awx st

  unfoldable pub cleanup_reaching :
      Object RunBody → RunSpec → RunStatus → Exec (Pass W) CleanupResult
  cleanup_reaching u spec st = do
    r ← attempt (run_connection svc u.namespace spec)
    elim r [
      | err e ↦
          if is_terminal_error e
          then pure is_done_now
          else raise (
              wrap
                (lit "fetching AWXConnection "
                  ∷ quoted spec.awx_connection_ref
                  ∷ lit " to clean up after this run"
                  ∷ [])
                e)
      | ok conn ↦ do
        c ← attempt (ask (svc.client_for conn))
        elim c [
          | err e ↦
              if is_permanent e
              then pure is_done_now
              else raise (
                  wrap
                    (lit "preparing a client to clean up after this run (set "
                      ∷ lit "spec.cleanupPolicy: Retain to release it and leave its AWX hosts in "
                      ∷ lit "place)"
                      ∷ [])
                    e)
          | ok client ↦ cleanup_with_client u spec st (context_of svc spec conn client)
        ]
    ]

  unfoldable pub cleanup_decoded :
      Object RunBody → RunSpec → RunStatus → Exec (Pass W) CleanupResult
  cleanup_decoded u spec st =
      if is_empty (hosts_to_delete spec st) && not (is_cancelling st) && not (is_unresolved st)
      then pure is_done_now
      else cleanup_reaching u spec st

  unfoldable pub cleanup_body : Object RunBody → RunBody → Exec (Pass W) CleanupResult
  cleanup_body u (undecodable e) = pure is_done_now
  cleanup_body u (decoded none st created) = pure is_done_now
  cleanup_body u (decoded (some spec) st created) = do
    set_status (λ _. st)
    set_version u.resource_version
    cleanup_decoded u spec st

  unfoldable pub cleanup_ansible_run : Object RunBody → Exec (Pass W) CleanupResult
  unfolding cleanup_body
  cleanup_ansible_run cached = do
    live ← read_run_live svc cached
    elim live [ none ↦ pure is_done_now | some u ↦ cleanup_body u u.body ]
