-- ===== src/Run/Recover/Adopted.antt =====
-- recoverLostLaunch finds the job of a launch whose answer was lost.
use ansible_supervisor_servi.Prelude.{
  String, ℕ, ◌&&◌, ◌is◌, ◌/◌, ◌*◌, ◌≤◌, ◌≡◌, ap, ◌∙◌, some, List, [], ◌∷◌, ◌++◌, arith, keep,
  keep-append, eq_iff,
}
use ansible_supervisor_servi.Errors.{ok}
use ansible_supervisor_servi.Objects.{Object}
use ansible_supervisor_servi.Time.{Stamp, at, second, now_rfc3339}
use ansible_supervisor_servi.Awx.{Job, Template}
use ansible_supervisor_servi.Run.Model.{RunSpec, RunStatus, RunBody, AwxContext, Services, Pass}
use ansible_supervisor_servi.Run.Hosts.{run_limit}
use ansible_supervisor_servi.Run.Recover.{
  not_before, match_jobs, match_lost_launch_jobs, adopt_job, decide_lost_launch,
  recover_lost_launch,
}
use ansible_supervisor_servi.Run.Core.{SameStatus, write_run_details-SameStatus}

-- The time of the attempt, as the status carries it.
abbrev pub recorded : ℕ → ℕ
recorded t = (t / second) * second

match_first :
    (job : Job) (after : List Job) (limit : String) (t c : ℕ)
    → match_jobs limit (recorded t) after ≡ []
    → job.limit ≡ limit
    → job.created ≡ some c
    → t ≤ c
    → match_jobs limit (recorded t) (job ∷ after) ≡ job ∷ []
unfolding match_jobs keep
match_first job after limit t c a l e h = ground (arith, a, l, e, h, eq_iff job.limit limit)

match_among :
    (before after : List Job) (job : Job) (limit : String) (t c : ℕ)
    → match_jobs limit (recorded t) before ≡ []
    → match_jobs limit (recorded t) after ≡ []
    → job.limit ≡ limit
    → job.created ≡ some c
    → t ≤ c
    → match_jobs limit (recorded t) (before ++ job ∷ after) ≡ job ∷ []
unfolding match_jobs
match_among before after job limit t c b a l e h =
    keep-append (λ (j : Job). j.limit is limit && not_before j.created (recorded t)) before
      (job ∷ after)
    ∙ rw b (unfold match_jobs in match_first job after limit t c a l e h)

module _ {W : Type 0} (svc : Services W) where
  match_found :
      (spec : RunSpec) (awx : AwxContext) (a : ℕ) (tmpl : Template) (jobs : List Job) (s : Pass W)
      → (svc.awx.resolve_template_cached awx.client awx.conn spec.template s.world).0 ≡ ok tmpl
      → (svc.awx.recent_jobs awx.client tmpl.id awx.is_workflow
          (svc.awx.resolve_template_cached awx.client awx.conn spec.template s.world).1).0
        ≡ ok jobs
      → ((match_lost_launch_jobs svc spec awx a s).0
          ≡ ok (match_jobs (run_limit s.status.hosts) a jobs))
        × ((match_lost_launch_jobs svc spec awx a s).1.status ≡ s.status)
  unfolding match_lost_launch_jobs
  match_found spec awx a tmpl jobs s r q = ground (arith, r, q)

  adopted :
      (u : Object RunBody) (spec : RunSpec) (awx : AwxContext) (a : ℕ) (sent : Stamp) (job : Job)
      (s : Pass W)
      → (decide_lost_launch svc u spec awx a sent (job ∷ []) s).1.status.job_id ≡ job.id
  unfolding decide_lost_launch SameStatus
  adopted u spec awx a sent job s =
      ap (λ (st : RunStatus). st.job_id)
        ((write_run_details-SameStatus svc u (adopt_job svc awx job s).1).2)

  -- A launch was sent at the instant t, and its answer was lost: the status has the attempt, cut to
  -- seconds. If AWX created the job with the run's limit at t or later, and lists no other job that
  -- fits, the run takes that job for its own: its id is in the status, whether or not the write of
  -- the status succeeds.
  pub lost_job_adopted :
      (u : Object RunBody) (spec : RunSpec) (awx : AwxContext) (t c : ℕ) (tmpl : Template)
      (before after : List Job) (job : Job) (s : Pass W)
      → job.limit ≡ run_limit s.status.hosts
      → job.created ≡ some c
      → t ≤ c
      → match_jobs (run_limit s.status.hosts) (recorded t) before ≡ []
      → match_jobs (run_limit s.status.hosts) (recorded t) after ≡ []
      → (svc.awx.resolve_template_cached awx.client awx.conn spec.template s.world).0 ≡ ok tmpl
      → (svc.awx.recent_jobs awx.client tmpl.id awx.is_workflow
          (svc.awx.resolve_template_cached awx.client awx.conn spec.template s.world).1).0
        ≡ ok (before ++ job ∷ after)
      → (recover_lost_launch svc u spec awx (now_rfc3339 t) s).1.status.job_id ≡ job.id
  unfolding recover_lost_launch now_rfc3339
  lost_job_adopted u spec awx t c tmpl before after job s l e h b a r q =
      let found = match_found spec awx (recorded t) tmpl (before ++ job ∷ after) s r q in
      let one = match_among before after job (run_limit s.status.hosts) t c b a l e h in
      ground (
        arith,
        found,
        one,
        adopted u spec awx (recorded t) (at (t / second)) job
            (match_lost_launch_jobs svc spec awx (recorded t) s).1,
      )
