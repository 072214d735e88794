-- ===== src/Run/Recover.antt =====
-- The parts of a pass that launch nothing: awxContextForRun, pollRun, recoverLostLaunch, failRun,
-- cancelRunJob, expireRun and collectFinishedRun.
pub mod Adopted
use ansible_supervisor_servi.Prelude.{
  ℕ, ◌*◌, ◌/◌, String, Bool, false, not, ◌&&◌, ◌||◌, Option, none, some, List, [], ◌∷◌, ◌++◌, Text,
  lit, quoted, shown, decimal, ◌==◌, ◌is◌, if◌then◌else◌, keep, ltb, lt_int, pos, is_blank,
}
use ansible_supervisor_servi.Errors.{ok, err, errorf, wrap, error_text, is_permanent, is_not_found}
use ansible_supervisor_servi.Exec.{Exec, pure, raise, attempt, ◌>>=◌, ◌>>◌, labelled}
use ansible_supervisor_servi.Objects.{Object}
use ansible_supervisor_servi.Time.{Stamp, at, is_set, parse, second, since, ttl_pending}
use ansible_supervisor_servi.Awx.{Job, Connection, Client, template_type_workflow}
use ansible_supervisor_servi.Run.Model.{
  RunSpec, RunStatus, RunBody, canceled, polled, run_deleted, AwxContext, Services, Pass, ask, tell,
  status_of, set_status, terminalf,
}
use ansible_supervisor_servi.Run.Hosts.{run_limit}
use ansible_supervisor_servi.Run.Launch.{read_clock, now_stamp, write_run_details}

-- mapAWXStatus of controller/util.go, as the phase that it gives.
pub data Phase : Type 0 where
  succeeded failed running : Phase

unfoldable pub map_awx_status : String → Phase
map_awx_status status =
    if status is "successful"
    then succeeded
    else if status is "failed" || (status is "error") || (status is "canceled")
    then failed
    else running

unfoldable pub is_terminal_awx_status : String → Bool
is_terminal_awx_status status =
    status is "successful" || (status is "failed") || (status is "error") || (status is "canceled")

-- launchRecoveryGrace, a minute.
abbrev pub launch_recovery_grace : ℕ
launch_recovery_grace = 60 * second

abbrev pub not_before : Option ℕ → ℕ → Bool
not_before none attempted = false
not_before (some created) attempted = not (ltb created attempted)

-- The filter of matchLostLaunchJobs.
unfoldable pub match_jobs : String → ℕ → List Job → List Job
unfolding keep
match_jobs limit attempted =
    keep (λ (job : Job). job.limit is limit && not_before job.created attempted)

abbrev pub created_stamp : Option ℕ → Stamp
created_stamp none = at 0
created_stamp (some t) = at (t / second)

-- Whether ids recorded for `recorded` mean something else at `current`.
abbrev pub endpoint_moved : String → String → Bool
endpoint_moved recorded current = not (recorded is "") && not (recorded is current)

abbrev ids_text : List Job → Text
ids_text [] = []
ids_text (j ∷ []) = decimal j.id ∷ []
ids_text (j ∷ js) = decimal j.id ∷ lit ", " ∷ ids_text js

-- The text of a timestamp, by its number of seconds.
abbrev stamp_text : Stamp → Text
stamp_text (at s) = decimal s ∷ []
stamp_text _ = []

module _ {W : Type 0} (svc : Services W) where
  unfoldable pub run_connection : String → RunSpec → Exec (Pass W) Connection
  run_connection namespace spec =
      let name = spec.awx_connection_ref in
      if name is "" then raise (terminalf (lit "spec.awxConnectionRef is required" ∷ [])) else (do
        r ← attempt (ask (svc.connection namespace name))
        elim r [
          | ok (some conn) ↦ pure conn
          | ok none ↦
              raise (terminalf (lit "AWXConnection " ∷ quoted name ∷ lit " is malformed" ∷ []))
          | err e ↦
              if is_not_found e
              then raise (
                  terminalf (
                    lit "AWXConnection "
                    ∷ quoted name
                    ∷ lit " does not exist in this namespace"
                    ∷ []))
              else raise (wrap (lit "fetching AWXConnection " ∷ quoted name ∷ []) e)
        ])

  abbrev pub context_of : RunSpec → Connection → Client → AwxContext
  context_of spec conn client = record {
    conn = conn;
    client = client;
    endpoint = svc.fingerprint conn.spec.url client.base_path;
    is_workflow = spec.template.type is template_type_workflow;
  }

  unfoldable pub awx_context_for_run : String → RunSpec → Exec (Pass W) AwxContext
  unfolding run_connection
  awx_context_for_run namespace spec = do
    conn ← run_connection namespace spec
    r ← attempt (ask (svc.client_for conn))
    elim r [
      | ok client ↦ pure (context_of spec conn client)
      | err e ↦
          if is_permanent e
          then raise (
              terminalf (
                lit "preparing a client for AWXConnection "
                ∷ quoted spec.awx_connection_ref
                ∷ lit ": "
                ∷ error_text e))
          else raise (
              wrap
                (lit "preparing a client for AWXConnection " ∷ quoted spec.awx_connection_ref ∷ [])
                e)
    ]

  unfoldable pub poll_job : AwxContext → ℕ → Exec (Pass W) String
  poll_job awx job = tell (polled job) (svc.awx.job_status awx.client awx.is_workflow job)

  unfoldable pub stamp_finished : Exec (Pass W) (Unit {0})
  unfolding now_stamp
  stamp_finished = do t ← now_stamp svc; set_status (λ s. record s { finished_at = t })

  -- pollRun after its poll: only a terminal status ends the run.
  unfoldable pub record_outcome : Object RunBody → RunStatus → String → Exec (Pass W) (Unit {0})
  record_outcome u st status =
      if not (is_terminal_awx_status status)
      then write_run_details svc u
      else elim (map_awx_status status) [
        | failed ↦ raise (
            terminalf (
              lit "AWX job "
              ∷ decimal st.job_id
              ∷ lit " finished "
              ∷ shown status
              ∷ lit ": see "
              ∷ shown st.job_url
              ∷ []))
        | _ ↦ stamp_finished >> write_run_details svc u
      ]

  unfoldable pub poll_run : Object RunBody → AwxContext → Exec (Pass W) (Unit {0})
  unfolding poll_job
  poll_run u awx = do
    st ← status_of
    status ← labelled (lit "polling job " ∷ decimal st.job_id ∷ []) (poll_job awx st.job_id)
    set_status (λ s. record s { job_status = status })
    record_outcome u st status

  unfoldable pub match_lost_launch_jobs : RunSpec → AwxContext → ℕ → Exec (Pass W) (List Job)
  match_lost_launch_jobs spec awx attempted = do
    tmpl ← ask (svc.awx.resolve_template_cached awx.client awx.conn spec.template)
    jobs ←
        labelled (lit "looking for the job a lost launch may have started" ∷ [])
          (ask (svc.awx.recent_jobs awx.client tmpl.id awx.is_workflow))
    st ← status_of
    pure (match_jobs (run_limit st.hosts) attempted jobs)

  unfoldable pub adopt_job : AwxContext → Job → Exec (Pass W) (Unit {0})
  adopt_job awx job = set_status (λ st. record st {
    job_id = job.id;
    job_url = svc.awx.job_url awx.client job.id awx.is_workflow;
    job_status = job.status;
    started_at = created_stamp job.created;
  })

  -- What recoverLostLaunch makes of the candidates: one is adopted, none is waited for during the
  -- grace and then final, several are final.
  unfoldable pub decide_lost_launch :
      Object RunBody → RunSpec → AwxContext → ℕ → Stamp → List Job → Exec (Pass W) (Unit {0})
  unfolding adopt_job
  decide_lost_launch u spec awx attempted sent [] = do
    now ← read_clock svc
    if lt_int (since now attempted) (pos launch_recovery_grace)
        then raise (
            errorf (
              lit "a launch was sent at " ∷ stamp_text sent
              ++ lit
                  " and its result was never recorded; waiting to see whether it started a job in "
                ∷ lit "AWX"
                ∷ []))
        else raise (
            terminalf (
              lit "a launch was sent at " ∷ stamp_text sent
              ++ lit " and its result was never recorded, and no job matching it has appeared in "
                ∷ lit "template "
                ∷ quoted spec.template.name
                ∷ lit
                    " since. AWX may have run it anyway - a trimmed job list, a restricted view or a "
                ∷ lit
                    "clock that disagrees all look like this - so this run will not send it again. "
                ∷ lit
                    "Check the template's recent jobs in AWX, and create a new AnsibleRun if it did "
                ∷ lit "not run"
                ∷ []))
  decide_lost_launch u spec awx attempted sent (job ∷ []) = do
    adopt_job awx job
    write_run_details svc u
  decide_lost_launch u spec awx attempted sent (job ∷ (other ∷ jobs)) = raise (
      terminalf (
        lit "a launch was sent at " ∷ stamp_text sent
        ++ lit " and its result was never recorded, and template "
          ∷ quoted spec.template.name
          ∷ lit " has more than one job ("
          ∷ ids_text (job ∷ (other ∷ jobs))
        ++ lit ") that could be it, so this run will not guess which. Check them in AWX, and "
          ∷ lit "create a new AnsibleRun if none of them did what this one asked for"
          ∷ []))

  unfoldable pub recover_lost_launch :
      Object RunBody → RunSpec → AwxContext → Stamp → Exec (Pass W) (Unit {0})
  recover_lost_launch u spec awx sent = elim (parse sent) [
    | none ↦ raise (
        terminalf (
          lit "status.launchAttemptedAt " ∷ stamp_text sent
          ++ lit " cannot be read, so it is not possible to tell whether "
            ∷ lit "this run's launch reached AWX. Check the template's recent jobs there, and "
            ∷ lit "create a new AnsibleRun if it did not run"
            ∷ []))
    | some attempted ↦ do
      r ← attempt (match_lost_launch_jobs spec awx attempted)
      elim r [
        | ok jobs ↦ decide_lost_launch u spec awx attempted sent jobs
        | err e ↦
            if is_permanent e
            then raise (
                terminalf (
                  lit "a launch was sent at " ∷ stamp_text sent
                  ++ lit " and its result was never recorded, and the job it may have started "
                    ∷ lit "cannot be looked for ("
                    ∷ error_text e
                  ++ lit "). Check template "
                    ∷ quoted spec.template.name
                    ∷ lit "'s recent jobs in AWX, and create a new AnsibleRun if it did not run"
                    ∷ []))
            else raise e
      ]
  ]

  unfoldable pub stamp_failure : Text → Exec (Pass W) (Unit {0})
  unfolding now_stamp
  stamp_failure reason = do
    t ← now_stamp svc
    set_status (λ st. record st {
      finished_at = t;
      failure_reason = reason;
      job_status = if st.job_status is "" then "unknown" else st.job_status;
    })

  -- failRun: the run is over, with its reason.
  unfoldable pub fail_run : Object RunBody → Text → Exec (Pass W) (Unit {0})
  fail_run u reason = stamp_failure reason >> write_run_details svc u

  unfoldable pub post_cancel : AwxContext → ℕ → Exec (Pass W) (Unit {0})
  post_cancel awx job = tell (canceled job) (svc.awx.cancel_job awx.client job awx.is_workflow)

  unfoldable pub stamp_cancel : Exec (Pass W) (Unit {0})
  unfolding now_stamp
  stamp_cancel = do t ← now_stamp svc; set_status (λ st. record st { cancel_requested_at = t })

  -- The request itself, and the sentence about it.
  unfoldable pub request_cancel : AwxContext → ℕ → Exec (Pass W) Text
  unfolding post_cancel stamp_cancel
  request_cancel awx job = do
    r ← attempt (post_cancel awx job)
    elim r [
      | err e ↦ pure (
          lit "AWX job " ∷ decimal job ∷ lit " could not be canceled (" ∷ error_text e
          ++ lit "), so it may still be running." ∷ [])
      | ok _ ↦ do stamp_cancel; pure (lit "AWX job " ∷ decimal job ∷ lit " was canceled." ∷ [])
    ]

  unfoldable pub cancel_at : RunSpec → RunStatus → AwxContext → Exec (Pass W) Text
  unfolding request_cancel
  cancel_at spec st awx =
      if endpoint_moved st.awx_endpoint awx.endpoint
      then pure (
          lit "AWX job "
          ∷ decimal st.job_id
          ∷ lit " was not canceled: AWXConnection "
          ∷ quoted spec.awx_connection_ref
          ∷ lit " now points at a different AWX instance, and canceling job "
          ∷ decimal st.job_id
          ∷ lit " there would stop an unrelated job."
          ∷ [])
      else request_cancel awx st.job_id

  unfoldable pub cancel_run_job : String → RunSpec → Exec (Pass W) Text
  unfolding awx_context_for_run cancel_at
  cancel_run_job namespace spec = do
    st ← status_of
    if st.job_id == 0
        then pure (
            if is_set st.launch_attempted_at
            then lit "A launch was sent at " ∷ stamp_text st.launch_attempted_at
              ++ lit
                  " and its result was never recorded, so a job may be running in AWX that could "
                ∷ lit "not be canceled from here - check the template's recent jobs there."
                ∷ []
            else [])
        else if is_terminal_awx_status st.job_status
        then pure []
        else (do
          r ← attempt (awx_context_for_run namespace spec)
          elim r [
            | err e ↦ pure (
                lit "AWX job " ∷ decimal st.job_id ∷ lit " could not be canceled (" ∷ error_text e
                ++ lit "), so it may still be running." ∷ [])
            | ok awx ↦ cancel_at spec st awx
          ])

  unfoldable pub expire_run : Object RunBody → RunSpec → Exec (Pass W) (Unit {0})
  expire_run u spec = do
    note ← cancel_run_job u.namespace spec
    fail_run u (
        lit "Run exceeded spec.activeDeadlineSeconds ("
        ∷ decimal spec.active_deadline_seconds
        ∷ lit "s) before finishing."
        ∷ (if is_blank note then [] else lit " " ∷ note))

  -- The delete is bound to the UID of the object that it was decided for.
  unfoldable pub delete_run : Object RunBody → Exec (Pass W) (Unit {0})
  delete_run u = do
    r ← attempt (tell (run_deleted u.uid) (svc.delete_run u))
    elim r [
      | ok _ ↦ pure tt
      | err e ↦
          if is_not_found e
          then pure tt
          else raise (wrap (lit "deleting finished AnsibleRun" ∷ []) e)
    ]

  unfoldable pub collect_finished_run : Object RunBody → RunSpec → Stamp → Exec (Pass W) (Unit {0})
  unfolding delete_run
  collect_finished_run u spec finished = elim spec.ttl_seconds_after_finished [
    | none ↦ pure tt
    | some ttl ↦ elim (parse finished) [
      | none ↦ pure tt
      | some t ↦ do now ← read_clock svc; if ttl_pending ttl t now then pure tt else delete_run u
    ]
  ]
