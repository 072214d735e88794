-- ===== src/Run/Apply.antt =====
-- applyAnsibleRun, readRunLive and reconcileRun: one pass over a run.
pub mod Finished
use ansible_supervisor_servi.Prelude.{
  ℕ, not, ◌&&◌, Option, none, some, [], ◌∷◌, ◌++◌, Text, lit, quoted, decimal, ◌==◌, ◌is◌,
  if◌then◌else◌,
}
use ansible_supervisor_servi.Errors.{
  ok, err, errorf, wrap, error_text, is_not_found, is_terminal_error,
}
use ansible_supervisor_servi.Exec.{Exec, pure, raise, attempt, ◌>>=◌, ◌>>◌}
use ansible_supervisor_servi.Objects.{Object}
use ansible_supervisor_servi.Time.{unset, is_set, deadline_exceeded}
use ansible_supervisor_servi.Run.Model.{
  RunSpec, RunStatus, RunBody, undecodable, decoded, AwxContext, Services, Pass, ask, status_of,
  set_status, set_version, terminalf,
}
use ansible_supervisor_servi.Run.Launch.{read_clock, launch_run}
use ansible_supervisor_servi.Run.Recover.{
  awx_context_for_run, endpoint_moved, poll_run, recover_lost_launch, fail_run, expire_run,
  collect_finished_run,
}

-- The zero AnsibleRunStatus.
abbrev pub no_status : RunStatus
no_status = record {
  job_id = 0;
  job_url = "";
  job_status = "";
  started_at = unset;
  finished_at = unset;
  launch_attempted_at = unset;
  cancel_requested_at = unset;
  awx_endpoint = "";
  failure_reason = [];
  resolved_vars = [];
  hosts = [];
}

abbrev pub start_pass : {W : Type 0} → W → Pass W
start_pass w = record { world = w; status = no_status; version = ""; calls = [] }

abbrev pub moved_text : RunSpec → RunStatus → Text
moved_text spec st =
    lit "AWXConnection "
      ∷ quoted spec.awx_connection_ref
      ∷ lit " now points at a different AWX instance than the one this run went to, so "
      ∷ (if st.job_id == 0
          then lit "the inventory host(s) this run made cannot be identified there" ∷ []
          else lit "job "
            ∷ decimal st.job_id
            ∷ lit " cannot be tracked there, and neither can the inventory host(s) this run made"
            ∷ [])
    ++ lit ". Check the original instance, and create a new AnsibleRun to run against the new one"
      ∷ []

module _ {W : Type 0} (svc : Services W) where
  unfoldable pub read_run_live : Object RunBody → Exec (Pass W) (Option (Object RunBody))
  read_run_live cached = do
    r ← attempt (ask (svc.get_run cached.namespace cached.name))
    elim r [
      | err e ↦
          if is_not_found e
          then pure none
          else raise (wrap (lit "re-reading AnsibleRun " ∷ quoted cached.name ∷ []) e)
      | ok live ↦
          pure (if not (cached.uid is "") && not (live.uid is cached.uid) then none else some live)
    ]

  -- What a pass does once it can talk to AWX: a job is polled, an attempt without a job is looked
  -- into, and only a run with neither is launched.
  unfoldable pub advance_run :
      Object RunBody → RunSpec → RunStatus → AwxContext → Exec (Pass W) (Unit {0})
  advance_run u spec st awx =
      if endpoint_moved st.awx_endpoint awx.endpoint
      then raise (terminalf (moved_text spec st))
      else if not (st.job_id == 0)
      then poll_run svc u awx
      else if is_set st.launch_attempted_at
      then recover_lost_launch svc u spec awx st.launch_attempted_at
      else launch_run svc u spec awx

  unfoldable pub reconcile_run : Object RunBody → RunSpec → Exec (Pass W) (Unit {0})
  reconcile_run u spec = do
    awx ← awx_context_for_run svc u.namespace spec
    st ← status_of
    advance_run u spec st awx

  -- A terminal error ends the run; any other is returned and retried.
  unfoldable pub drive : Object RunBody → RunSpec → Exec (Pass W) (Unit {0})
  drive u spec = do
    r ← attempt (reconcile_run u spec)
    elim r [
      | ok _ ↦ pure tt
      | err e ↦ if is_terminal_error e then fail_run svc u (error_text e) else raise e
    ]

  -- A run that has not finished: its deadline is checked before anything else.
  unfoldable pub work : Object RunBody → RunSpec → Option ℕ → Exec (Pass W) (Unit {0})
  work u spec created = do
    now ← read_clock svc
    if deadline_exceeded spec.active_deadline_seconds created now
        then expire_run svc u spec
        else drive u spec

  unfoldable pub apply_decoded :
      Object RunBody → RunSpec → RunStatus → Option ℕ → Exec (Pass W) (Unit {0})
  apply_decoded u spec st created =
      if is_set st.finished_at
      then collect_finished_run svc u spec st.finished_at
      else work u spec created

  -- Result.Object is the object with the status as this pass left it.
  unfoldable pub apply_body : Object RunBody → RunBody → Exec (Pass W) (Option (Object RunBody))
  apply_body u (undecodable e) = raise (wrap (lit "decoding AnsibleRun" ∷ []) e)
  apply_body u (decoded none st created) = raise (errorf (lit "spec is required" ∷ []))
  apply_body u (decoded (some spec) st created) = do
    set_status (λ _. st)
    set_version u.resource_version
    apply_decoded u spec st created
    left ← status_of
    pure (some (record u { body = decoded (some spec) left created }))

  unfoldable pub apply_ansible_run : Object RunBody → Exec (Pass W) (Option (Object RunBody))
  unfolding apply_body
  apply_ansible_run cached = do
    live ← read_run_live cached
    elim live [ none ↦ pure none | some u ↦ apply_body u u.body ]
