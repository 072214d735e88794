-- ===== src/Run/AtMostOnce.antt =====
-- One pass launches at most one job, and only under a claim of its own.
use ansible_supervisor_servi.Prelude.{
  ℕ, String, ◌≡◌, refl, Bool, true, false, not, ◌&&◌, ◌||◌, Option, some, List, [], ◌∷◌, arith, inl,
  inr, ◌is◌, ◌==◌, is_empty, eq_iff,
}
use ansible_supervisor_servi.Errors.{Error, Result, ok, err, error_text}
use ansible_supervisor_servi.Exec.{Exec, ◌>>=◌, ◌>>◌}
use ansible_supervisor_servi.Objects.{Object}
use ansible_supervisor_servi.Time.{is_set, now_rfc3339}
use ansible_supervisor_servi.Awx.{Launch}
use ansible_supervisor_servi.Engine.Patch.Keeps.{Result-cases}
use ansible_supervisor_servi.Run.Model.{
  RunSpec, RunStatus, RunBody, decoded, RunCall, claimed, launched, AwxContext, Services, Pass,
}
use ansible_supervisor_servi.Run.Launch.{
  read_clock, Plan, prepare, claim, fire, record_job, settle_launch, launch_run,
}
use ansible_supervisor_servi.Run.Recover.{awx_context_for_run}
use ansible_supervisor_servi.Run.Apply.{
  start_pass, read_run_live, advance_run, reconcile_run, drive, work, apply_decoded,
  apply_ansible_run,
}
use ansible_supervisor_servi.Run.Core.{
  core, SameCore-bind, prepare-SameCore, record_job-SameCore, settle_launch-SameCore,
  poll_run-SameCore, recover_lost_launch-SameCore, fail_run-SameCore, expire_run-SameCore,
  collect_finished_run-SameCore, awx_context_for_run-SameCore,
}

-- The claims and POSTs of a pass, the latest first, where `v` is the version it read the run at:
-- none; a claim that was refused; or one POST, right after a claim at version `v` that was
-- accepted and that carries the attempt marker.
abbrev pub well_launched : String → List RunCall → Bool
well_launched v [] = true
well_launched v (claimed st w (err e) ∷ []) = w is v
well_launched v (launched wf id limit vars l ∷ (claimed st w (ok v') ∷ [])) =
    w is v && is_set st.launch_attempted_at
well_launched v _ = false

-- Nothing in the status says that the run has been launched or is over.
abbrev pub is_fresh : RunStatus → Bool
is_fresh st = not (is_set st.finished_at) && (st.job_id == 0) && not (is_set st.launch_attempted_at)

module _ {W : Type 0} (svc : Services W) where
  claim_status : Pass W → RunStatus
  claim_status s = record s.status { launch_attempted_at = now_rfc3339 (svc.now s.world) }

  claim_answer : Object RunBody → Pass W → Result String
  unfolding claim_status
  claim_answer u s = (svc.update_status u (claim_status s) s.version (svc.tick s.world)).0

  claim_calls :
      (u : Object RunBody) (s : Pass W)
      → core (claim svc u s).1.calls
        ≡ claimed (claim_status s) s.version (claim_answer u s) ∷ core s.calls
  unfolding claim claim_answer
  claim_calls u s = ground arith

  claim_marks : (s : Pass W) → is_set (claim_status s).launch_attempted_at ≡ true
  unfolding claim_status now_rfc3339
  claim_marks s = refl

  claim_accepted :
      (u : Object RunBody) (s : Pass W) {a : Unit {0}}
      → (claim svc u s).0 ≡ ok a
      → (v : String) × (claim_answer u s ≡ ok v)
  unfolding claim claim_answer
  claim_accepted u s h = elim (Result-cases (claim_answer u s)) [
    | inl found ↦ found
    | inr (x, e) ↦ absurd (ground (arith, e))
  ]

  claim_refused :
      (u : Object RunBody) (s : Pass W) {x : Error}
      → (claim svc u s).0 ≡ err x
      → (e : Error) × (claim_answer u s ≡ err e)
  unfolding claim claim_answer
  claim_refused u s h = elim (Result-cases (claim_answer u s)) [
    | inl (v, e) ↦ absurd (ground (arith, e))
    | inr found ↦ found
  ]

  module _ (u : Object RunBody) (spec : RunSpec) (awx : AwxContext) where
    -- From the POST on.
    fire_rest : Plan → Exec (Pass W) (Unit {0})
    fire_rest plan = do l ← fire svc awx plan; record_job svc awx l; settle_launch svc u spec l

    answer_of : Plan → Pass W → Launch
    answer_of plan s =
        (svc.awx.launch awx.client awx.is_workflow plan.template.id plan.limit plan.vars s.world).0

    fire_rest-core :
        (plan : Plan) (s : Pass W)
        → core (fire_rest plan s).1.calls
          ≡ launched awx.is_workflow plan.template.id plan.limit plan.vars (answer_of plan s)
            ∷ core s.calls
    unfolding fire_rest fire answer_of
    fire_rest-core plan s =
        (SameCore-bind svc (record_job svc awx (answer_of plan s)) _ (fire svc awx plan s).1
          (record_job-SameCore svc awx (answer_of plan s) (fire svc awx plan s).1)
          (λ _.
            settle_launch-SameCore svc u spec (answer_of plan s)
              (record_job svc awx (answer_of plan s) (fire svc awx plan s).1).1)).0

    launch_run-well_launched :
        (s : Pass W)
        → core s.calls ≡ []
        → well_launched s.version (core (launch_run svc u spec awx s).1.calls) ≡ true
    unfolding launch_run fire_rest
    launch_run-well_launched s none_yet = elim (Result-cases (prepare svc u spec awx s).0) [
      | inr (x, e) ↦ ground (arith, e, none_yet, prepare-SameCore svc u spec awx s)
      | inl (plan, e) ↦
          let ready = (prepare svc u spec awx s).1 in
          elim (Result-cases (claim svc u ready).0) [
            | inr (x, q) ↦
                let (y, refused) = claim_refused u ready q in
                ground (
                  arith,
                  e,
                  q,
                  refused,
                  none_yet,
                  claim_calls u ready,
                  prepare-SameCore svc u spec awx s,
                  eq_iff ready.version s.version,
                )
            | inl (a, q) ↦
                let (v, accepted) = claim_accepted u ready q in
                ground (
                  arith,
                  e,
                  q,
                  accepted,
                  none_yet,
                  claim_calls u ready,
                  claim_marks ready,
                  fire_rest-core plan (claim svc u ready).1,
                  prepare-SameCore svc u spec awx s,
                  eq_iff ready.version s.version,
                )
          ]
    ]

-- Either nothing was claimed or launched, or the status was fresh and the launch is well made.
abbrev pub gated : RunStatus → String → List RunCall → Bool
gated st v cs = is_empty cs || is_fresh st && well_launched v cs

module _ {W : Type 0} (svc : Services W) (u : Object RunBody) (spec : RunSpec) where
  advance_run-gated :
      (st : RunStatus) (awx : AwxContext) (s : Pass W)
      → is_set st.finished_at ≡ false
      → core s.calls ≡ []
      → gated st s.version (core (advance_run svc u spec st awx s).1.calls) ≡ true
  unfolding advance_run
  advance_run-gated st awx s unfinished none_yet = ground (
    arith,
    poll_run-SameCore svc u awx s,
    recover_lost_launch-SameCore svc u spec awx st.launch_attempted_at s,
    launch_run-well_launched svc u spec awx s none_yet,
  )

  awx_context_for_run-status :
      (s : Pass W) → (awx_context_for_run svc u.namespace spec s).1.status ≡ s.status
  unfolding awx_context_for_run
  awx_context_for_run-status s = ground arith

  reconcile_run-gated :
      (s : Pass W)
      → is_set s.status.finished_at ≡ false
      → core s.calls ≡ []
      → gated s.status s.version (core (reconcile_run svc u spec s).1.calls) ≡ true
  unfolding reconcile_run
  reconcile_run-gated s unfinished none_yet =
      let ready = awx_context_for_run svc u.namespace spec s in
      elim (Result-cases ready.0) [
        | inl (awx, e) ↦ ground (
          arith,
          e,
          none_yet,
          unfinished,
          awx_context_for_run-SameCore svc u.namespace spec s,
          awx_context_for_run-status s,
          advance_run-gated s.status awx ready.1 unfinished,
        )
        | inr (x, e) ↦
            ground (arith, e, none_yet, awx_context_for_run-SameCore svc u.namespace spec s)
      ]

  drive-gated :
      (s : Pass W)
      → is_set s.status.finished_at ≡ false
      → core s.calls ≡ []
      → gated s.status s.version (core (drive svc u spec s).1.calls) ≡ true
  unfolding drive
  drive-gated s unfinished none_yet =
      let done = reconcile_run svc u spec s in
      elim (Result-cases done.0) [
        | inl (a, e) ↦ ground (arith, e, reconcile_run-gated s unfinished none_yet)
        | inr (x, e) ↦ ground (
          arith,
          e,
          reconcile_run-gated s unfinished none_yet,
          fail_run-SameCore svc u (error_text x) done.1,
        )
      ]

  apply_decoded-gated :
      (created : Option ℕ) (s : Pass W)
      → core s.calls ≡ []
      → gated s.status s.version (core (apply_decoded svc u spec s.status created s).1.calls) ≡ true
  unfolding apply_decoded work read_clock
  apply_decoded-gated created s none_yet =
      let later = record s { world = svc.tick s.world } in
      ground (
        arith,
        none_yet,
        collect_finished_run-SameCore svc u spec s.status.finished_at s,
        expire_run-SameCore svc u spec later,
        drive-gated later,
      )

-- A pass that read the run live as `u`, with the status `st`, makes at most one launch POST, and
-- none unless the status said neither that the run is over nor that it was launched nor that a
-- launch was attempted. The POST comes right after the pass's only claim, which the API server
-- accepted, which carried the attempt marker, and which was sent at the version that was read; a
-- claim that was refused is followed by no POST. This holds whatever AWX, the API server and the
-- clock answer, and however old the informer's copy is.
pub launch_at_most_once :
    {W : Type 0} (svc : Services W) (cached u : Object RunBody) (w : W) (spec : RunSpec)
    (st : RunStatus) (created : Option ℕ)
    → (svc.get_run cached.namespace cached.name w).0 ≡ ok u
    → u.body ≡ decoded (some spec) st created
    → gated st u.resource_version (core (apply_ansible_run svc cached (start_pass w)).1.calls)
      ≡ true
unfolding apply_ansible_run read_run_live
launch_at_most_once svc cached u w spec st created live body = ground (
  arith,
  live,
  body,
  apply_decoded-gated svc u spec created
      (record {
        world = (svc.get_run cached.namespace cached.name w).1;
        status = st;
        version = u.resource_version;
        calls = [];
      })
      refl,
)
