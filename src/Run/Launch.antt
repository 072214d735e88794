-- ===== src/Run/Launch.antt =====
-- launchRun: everything up to and including the single launch of a run.
use ansible_supervisor_servi.Prelude.{
  ℕ, String, Bool, Option, none, some, List, [], ◌∷◌, map, lit, quoted, ◌==◌, if◌then◌else◌, join,
}
use ansible_supervisor_servi.Errors.{
  Result, ok, err, wrap, terminal, error_text, is_permanent, launch_refused,
}
use ansible_supervisor_servi.Exec.{Exec, pure, raise, lift, attempt, ◌>>=◌, ◌>>◌, labelled}
use ansible_supervisor_servi.Objects.{Object}
use ansible_supervisor_servi.Time.{Stamp, unset, now_rfc3339}
use ansible_supervisor_servi.Awx.{Template, Launch, Vars}
use ansible_supervisor_servi.Engine.Patch.{label, patch_status}
use ansible_supervisor_servi.Run.Model.{
  RunSpec, RunStatus, RunBody, RunTarget, claimed, applied, launched, AwxContext, Services, Pass,
  ask, tell, status_of, set_status, set_version, terminalf,
}
use ansible_supervisor_servi.Run.Hosts.{record_run_host, run_host_owner_marker, resolve_run_host}
use ansible_supervisor_servi.Run.Targets.{
  check_launch_spec, check_scope, run_targets, gather_run_vars,
}

-- What a launch sends.
pub record Plan : Type 0 where
  pub template : Template
  pub vars : Vars
  pub limit : String

module _ {W : Type 0} (svc : Services W) where
  -- time.Now(); the clock may move on at each reading.
  unfoldable pub read_clock : Exec (Pass W) ℕ
  read_clock = ask (λ w. (ok (svc.now w), svc.tick w))

  unfoldable pub now_stamp : Exec (Pass W) Stamp
  unfolding read_clock now_rfc3339
  now_stamp = do t ← read_clock; pure (now_rfc3339 t)

  unfoldable pub apply_details : Object RunBody → RunStatus → Exec (Pass W) (Unit {0})
  apply_details u st = tell (applied st) (svc.apply_status u st)

  -- writeRunDetails
  unfoldable pub write_run_details : Object RunBody → Exec (Pass W) (Unit {0})
  write_run_details u = do st ← status_of; patch_status (label u) (apply_details u st)

  -- claimLaunch: the one write that carries the version this pass read the run at.
  unfoldable pub claim_launch : Object RunBody → Exec (Pass W) (Unit {0})
  claim_launch u s =
      (do
        updated ← tell (claimed s.status s.version) (svc.update_status u s.status s.version)
        set_version updated)
        s

  -- One target: its host is resolved and recorded, or what was recorded so far is written.
  unfoldable pub upsert_target :
      Object RunBody → AwxContext → ℕ → RunTarget → Exec (Pass W) (Unit {0})
  upsert_target u awx inventory t = do
    r ← attempt (
        resolve_run_host svc awx.client inventory t
          (run_host_owner_marker svc.supervisor_id u.namespace u.name))
    elim r [
      | err e ↦ do
        attempt (write_run_details u)
        raise (wrap (lit "upserting AWX host " ∷ quoted t.name ∷ []) e)
      | ok found ↦ set_status (λ st. record st {
        hosts = record_run_host st.hosts (record {
          name = t.name;
          address = t.address;
          awx_host_id = found.0;
          awx_inventory_id = inventory;
          awx_host_created = found.1;
        });
      })
    ]

  unfoldable pub upsert_targets :
      Object RunBody → AwxContext → ℕ → List RunTarget → Exec (Pass W) (Unit {0})
  upsert_targets u awx inventory [] = pure tt
  upsert_targets u awx inventory (t ∷ ts) =
      upsert_target u awx inventory t >> upsert_targets u awx inventory ts

  -- A template without an inventory is refused before where there is any target.
  unfoldable pub upsert_hosts :
      Object RunBody → AwxContext → Option ℕ → List RunTarget → Exec (Pass W) (Unit {0})
  unfolding upsert_targets
  upsert_hosts u awx none ts = pure tt
  upsert_hosts u awx (some inventory) ts = upsert_targets u awx inventory ts

  unfoldable pub resolve_for_launch : RunSpec → AwxContext → Exec (Pass W) Template
  resolve_for_launch spec awx = do
    r ← attempt (ask (svc.awx.resolve_template awx.client spec.template))
    elim r [
      | ok tmpl ↦ pure tmpl
      | err e ↦ if is_permanent e then raise (terminalf (error_text e)) else raise e
    ]

  -- launchRun up to the attempt marker.
  unfoldable pub prepare : Object RunBody → RunSpec → AwxContext → Exec (Pass W) Plan
  prepare u spec awx = do
    lift (check_launch_spec spec)
    set_status (λ st. record st { awx_endpoint = awx.endpoint })
    tmpl ← resolve_for_launch spec awx
    gathered ← gather_run_vars svc u.namespace spec
    set_status (λ st. record st { resolved_vars = gathered.1 })
    targets ← run_targets svc u.namespace spec awx.conn
    lift (check_scope tmpl spec.template.name targets gathered.0)
    upsert_hosts u awx tmpl.inventory targets
    pure (record {
      template = tmpl;
      vars = gathered.0;
      limit = join "," (map (λ (t : RunTarget). t.name) targets);
    })

  -- The attempt is recorded before it is made.
  unfoldable pub claim : Object RunBody → Exec (Pass W) (Unit {0})
  unfolding now_stamp claim_launch
  claim u = do
    t ← now_stamp
    set_status (λ st. record st { launch_attempted_at = t })
    labelled (lit "recording the launch attempt" ∷ []) (claim_launch u)

  abbrev post : Pass W → Bool → ℕ → String → Vars → Launch × W → Result Launch × Pass W
  post s wf id limit vars (l, w) =
      (ok l, record s { world = w; calls = launched wf id limit vars l ∷ s.calls })

  -- The POST.
  unfoldable pub fire : AwxContext → Plan → Exec (Pass W) Launch
  fire awx plan s =
      post s awx.is_workflow plan.template.id plan.limit plan.vars
        (svc.awx.launch awx.client awx.is_workflow plan.template.id plan.limit plan.vars s.world)

  -- A job is recorded even alongside an error.
  unfoldable pub record_job : AwxContext → Launch → Exec (Pass W) (Unit {0})
  unfolding now_stamp
  record_job awx l = if l.job == 0 then pure tt else (do
    t ← now_stamp
    set_status (λ st. record st {
      job_id = l.job;
      job_url = svc.awx.job_url awx.client l.job awx.is_workflow;
      job_status = "pending";
      started_at = t;
    }))

  -- The attempt marker comes off where AWX itself said that it refused the launch.
  unfoldable pub settle_launch : Object RunBody → RunSpec → Launch → Exec (Pass W) (Unit {0})
  settle_launch u spec l = elim l.error [
    | none ↦ write_run_details u
    | some e ↦
        if l.job == 0
        then (do
          (if launch_refused e
              then set_status (λ st. record st { launch_attempted_at = unset })
              else pure tt)
          write_run_details u
          raise (wrap (lit "launching template " ∷ quoted spec.template.name ∷ []) e))
        else raise (terminal e)
  ]

  unfoldable pub launch_run : Object RunBody → RunSpec → AwxContext → Exec (Pass W) (Unit {0})
  launch_run u spec awx = do
    plan ← prepare u spec awx
    claim u
    l ← fire awx plan
    record_job awx l
    settle_launch u spec l
