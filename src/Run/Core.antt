-- ===== src/Run/Core.antt =====
-- The calls of a pass that bear on its launch, the claims and the POSTs, in their order. All other
-- steps of a pass leave them, and the version in hand, as they were.
use ansible_supervisor_servi.Prelude.{
  ℕ, String, ◌≡◌, refl, Option, none, some, List, [], ◌∷◌, arith, inl, inr, ◌*◌, Text,
}
use ansible_supervisor_servi.Errors.{ok}
use ansible_supervisor_servi.Exec.{Exec, ◌>>=◌, lift}
use ansible_supervisor_servi.Objects.{Object}
use ansible_supervisor_servi.Time.{Stamp, unset, at, second}
use ansible_supervisor_servi.Awx.{Launch, Job}
use ansible_supervisor_servi.Engine.Patch.{label}
use ansible_supervisor_servi.Engine.Patch.Keeps.{patch_status_invariant, Result-cases}
use ansible_supervisor_servi.Run.Model.{
  RunSpec, RunStatus, RunBody, RunTarget, RunCall, claimed, launched, polled, AwxContext, Services,
  Pass,
}
use ansible_supervisor_servi.Run.Hosts.{resolve_run_host, run_host_owner_marker}
use ansible_supervisor_servi.Run.Targets.{
  check_launch_spec, check_scope, run_targets, gather_run_vars,
}
use ansible_supervisor_servi.Run.Launch.{
  read_clock, apply_details, write_run_details, upsert_target, upsert_targets, upsert_hosts,
  resolve_for_launch, prepare, record_job, settle_launch,
}
use ansible_supervisor_servi.Run.Recover.{
  awx_context_for_run, stamp_finished, stamp_failure, record_outcome, adopt_job, poll_run,
  decide_lost_launch, recover_lost_launch, match_lost_launch_jobs, fail_run, cancel_run_job,
  expire_run, collect_finished_run,
}

abbrev pub core : List RunCall → List RunCall
core [] = []
core (claimed st v r ∷ cs) = claimed st v r ∷ core cs
core (launched wf id limit vars l ∷ cs) = launched wf id limit vars l ∷ core cs
core (_ ∷ cs) = core cs

module _ {W : Type 0} (svc : Services W) where
  -- What a step leaves as it was.
  abbrev pub SameCore : {A : Type 0} → Exec (Pass W) A → Pass W → Type 0
  SameCore m s = (core (m s).1.calls ≡ core s.calls) × ((m s).1.version ≡ s.version)

  pub SameCore-bind :
      {A B : Type 0} (m : Exec (Pass W) A) (f : A → Exec (Pass W) B) (s : Pass W)
      → SameCore m s
      → ((a : A) → SameCore (f a) (m s).1)
      → SameCore (m >>= f) s
  SameCore-bind m f s h k = elim (Result-cases (m s).0) [
    | inl (a, e) ↦ ground (arith, e, h, k a)
    | inr (x, e) ↦ ground (arith, e, h)
  ]

  -- A write of the details leaves the status in hand as it was, too.
  unfoldable pub SameStatus : Pass W → Pass W → Type 0
  SameStatus s t = (core t.calls ≡ core s.calls) × (t.version ≡ s.version) × (t.status ≡ s.status)

  pub write_run_details-SameStatus :
      (u : Object RunBody) (s : Pass W) → SameStatus s (write_run_details svc u s).1
  unfolding write_run_details SameStatus
  write_run_details-SameStatus u s =
      patch_status_invariant (SameStatus s) (apply_details svc u s.status)
        (λ t h. unfold apply_details in h) (label u) s (refl, refl, refl)

  write_run_details-SameCore :
      (u : Object RunBody) (s : Pass W) → SameCore (write_run_details svc u) s
  unfolding SameStatus
  write_run_details-SameCore u s = ground (arith, write_run_details-SameStatus u s)

  resolve_run_host-SameCore :
      (awx : AwxContext) (i : ℕ) (t : RunTarget) (m : String) (s : Pass W)
      → SameCore (resolve_run_host svc awx.client i t m) s
  unfolding resolve_run_host
  resolve_run_host-SameCore awx i t m s = ground arith

  run_targets-SameCore :
      (u : Object RunBody) (spec : RunSpec) (awx : AwxContext) (s : Pass W)
      → SameCore (run_targets svc u.namespace spec awx.conn) s
  unfolding run_targets
  run_targets-SameCore u spec awx s = ground arith

  gather_run_vars-SameCore :
      (u : Object RunBody) (spec : RunSpec) (s : Pass W)
      → SameCore (gather_run_vars svc u.namespace spec) s
  unfolding gather_run_vars
  gather_run_vars-SameCore u spec s = ground arith

  resolve_for_launch-SameCore :
      (spec : RunSpec) (awx : AwxContext) (s : Pass W)
      → SameCore (resolve_for_launch svc spec awx) s
  unfolding resolve_for_launch
  resolve_for_launch-SameCore spec awx s = ground arith

  upsert_target-SameCore :
      (u : Object RunBody) (awx : AwxContext) (i : ℕ) (t : RunTarget) (s : Pass W)
      → SameCore (upsert_target svc u awx i t) s
  unfolding upsert_target
  upsert_target-SameCore u awx i t s =
      let m = run_host_owner_marker svc.supervisor_id u.namespace u.name in
      ground (
        arith,
        resolve_run_host-SameCore awx i t m s,
        write_run_details-SameCore u (resolve_run_host svc awx.client i t m s).1,
      )

  upsert_targets-SameCore :
      (u : Object RunBody) (awx : AwxContext) (i : ℕ) (ts : List RunTarget) (s : Pass W)
      → SameCore (upsert_targets svc u awx i ts) s
  unfolding upsert_targets
  upsert_targets-SameCore u awx i [] s = (refl, refl)
  upsert_targets-SameCore u awx i (t ∷ ts) s = ground (
    arith,
    upsert_target-SameCore u awx i t s,
    upsert_targets-SameCore u awx i ts (upsert_target svc u awx i t s).1,
  )

  upsert_hosts-SameCore :
      (u : Object RunBody) (awx : AwxContext) (i : Option ℕ) (ts : List RunTarget) (s : Pass W)
      → SameCore (upsert_hosts svc u awx i ts) s
  unfolding upsert_hosts
  upsert_hosts-SameCore u awx none ts s = (refl, refl)
  upsert_hosts-SameCore u awx (some i) ts s = upsert_targets-SameCore u awx i ts s

  pub record_job-SameCore :
      (awx : AwxContext) (l : Launch) (s : Pass W) → SameCore (record_job svc awx l) s
  unfolding record_job
  record_job-SameCore awx l s = ground arith

  pub settle_launch-SameCore :
      (u : Object RunBody) (spec : RunSpec) (l : Launch) (s : Pass W)
      → SameCore (settle_launch svc u spec l) s
  unfolding settle_launch
  settle_launch-SameCore u spec l s = ground (
    arith,
    write_run_details-SameCore u s,
    write_run_details-SameCore u
        (record s { status = record s.status { launch_attempted_at = unset } }),
  )

  pub awx_context_for_run-SameCore :
      (ns : String) (spec : RunSpec) (s : Pass W) → SameCore (awx_context_for_run svc ns spec) s
  unfolding awx_context_for_run
  awx_context_for_run-SameCore ns spec s = ground arith

  record_outcome-SameCore :
      (u : Object RunBody) (st : RunStatus) (status : String) (s : Pass W)
      → SameCore (record_outcome svc u st status) s
  unfolding record_outcome stamp_finished
  record_outcome-SameCore u st status s =
      ground (
        arith,
        write_run_details-SameCore u s,
        write_run_details-SameCore u (stamp_finished svc s).1,
      )

  pub poll_run-SameCore :
      (u : Object RunBody) (awx : AwxContext) (s : Pass W) → SameCore (poll_run svc u awx) s
  unfolding poll_run
  poll_run-SameCore u awx s =
      elim (Result-cases
        (svc.awx.job_status awx.client awx.is_workflow s.status.job_id s.world).0) [
          | inl (status, e) ↦ ground (
            arith,
            e,
            record_outcome-SameCore u s.status status (record s {
              world = (svc.awx.job_status awx.client awx.is_workflow s.status.job_id s.world).1;
              status = record s.status { job_status = status };
              calls = polled s.status.job_id (ok status) ∷ s.calls;
            }),
          )
          | inr (x, e) ↦ ground (arith, e)
        ]

  match_lost_launch_jobs-SameCore :
      (spec : RunSpec) (awx : AwxContext) (a : ℕ) (s : Pass W)
      → SameCore (match_lost_launch_jobs svc spec awx a) s
  unfolding match_lost_launch_jobs
  match_lost_launch_jobs-SameCore spec awx a s = ground arith

  stamp_failure-SameCore : (reason : Text) (s : Pass W) → SameCore (stamp_failure svc reason) s
  unfolding stamp_failure
  stamp_failure-SameCore reason s = ground arith

  pub fail_run-SameCore :
      (u : Object RunBody) (reason : Text) (s : Pass W) → SameCore (fail_run svc u reason) s
  unfolding fail_run
  fail_run-SameCore u reason s = ground (
    arith,
    stamp_failure-SameCore reason s,
    write_run_details-SameCore u (stamp_failure svc reason s).1,
  )

  cancel_run_job-SameCore :
      (ns : String) (spec : RunSpec) (s : Pass W) → SameCore (cancel_run_job svc ns spec) s
  unfolding cancel_run_job
  cancel_run_job-SameCore ns spec s = ground arith

  pub collect_finished_run-SameCore :
      (u : Object RunBody) (spec : RunSpec) (finished : Stamp) (s : Pass W)
      → SameCore (collect_finished_run svc u spec finished) s
  unfolding collect_finished_run read_clock
  collect_finished_run-SameCore u spec finished s = ground arith

  pub expire_run-SameCore :
      (u : Object RunBody) (spec : RunSpec) (s : Pass W) → SameCore (expire_run svc u spec) s
  unfolding expire_run
  expire_run-SameCore u spec s =
      SameCore-bind (cancel_run_job svc u.namespace spec) _ s
        (cancel_run_job-SameCore u.namespace spec s)
        (λ note. fail_run-SameCore u _ (cancel_run_job svc u.namespace spec s).1)

  decide_lost_launch-SameCore :
      (u : Object RunBody) (spec : RunSpec) (awx : AwxContext) (a : ℕ) (sent : Stamp)
      (jobs : List Job) (s : Pass W)
      → SameCore (decide_lost_launch svc u spec awx a sent jobs) s
  unfolding decide_lost_launch
  decide_lost_launch-SameCore u spec awx a sent [] s = unfold read_clock in ground arith
  decide_lost_launch-SameCore u spec awx a sent (job ∷ []) s =
      ground (arith, write_run_details-SameCore u (adopt_job svc awx job s).1)
  decide_lost_launch-SameCore u spec awx a sent (job ∷ (other ∷ jobs)) s = (refl, refl)

  pub recover_lost_launch-SameCore :
      (u : Object RunBody) (spec : RunSpec) (awx : AwxContext) (sent : Stamp) (s : Pass W)
      → SameCore (recover_lost_launch svc u spec awx sent) s
  unfolding recover_lost_launch
  recover_lost_launch-SameCore u spec awx (at n) s =
      let found = match_lost_launch_jobs svc spec awx (n * second) s in
      elim (Result-cases found.0) [
        | inl (jobs, e) ↦ ground (
          arith,
          e,
          match_lost_launch_jobs-SameCore spec awx (n * second) s,
          decide_lost_launch-SameCore u spec awx (n * second) (at n) jobs found.1,
        )
        | inr (x, e) ↦ ground (arith, e, match_lost_launch_jobs-SameCore spec awx (n * second) s)
      ]
  recover_lost_launch-SameCore u spec awx _ s = (refl, refl)

  -- launchRun before the attempt marker.
  pub prepare-SameCore :
      (u : Object RunBody) (spec : RunSpec) (awx : AwxContext) (s : Pass W)
      → SameCore (prepare svc u spec awx) s
  unfolding prepare
  prepare-SameCore u spec awx s =
      SameCore-bind (lift (check_launch_spec spec)) _ s (refl, refl)
        λ _.
          SameCore-bind (resolve_for_launch svc spec awx) _ s1
            (resolve_for_launch-SameCore spec awx s1)
            λ tmpl.
              SameCore-bind (gather_run_vars svc u.namespace spec) _ s2
                (gather_run_vars-SameCore u spec s2)
                λ gathered.
                  let s4 = record s3 { status = record s3.status { resolved_vars = gathered.1 } } in
                  SameCore-bind (run_targets svc u.namespace spec awx.conn) _ s4
                    (run_targets-SameCore u spec awx s4)
                    λ targets.
                      let s5 = (run_targets svc u.namespace spec awx.conn s4).1 in
                      SameCore-bind (lift (check_scope tmpl spec.template.name targets gathered.0))
                        _ s5 (refl, refl)
                        λ _.
                          SameCore-bind (upsert_hosts svc u awx tmpl.inventory targets) _ s5
                            (upsert_hosts-SameCore u awx tmpl.inventory targets s5)
                            (λ _. (refl, refl))
    where
      s1 : Pass W
      s1 = record s { status = record s.status { awx_endpoint = awx.endpoint } }

      s2 : Pass W
      s2 = (resolve_for_launch svc spec awx s1).1

      s3 : Pass W
      s3 = (gather_run_vars svc u.namespace spec s2).1
