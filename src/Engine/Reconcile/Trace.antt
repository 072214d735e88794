-- ===== src/Engine/Reconcile/Trace.antt =====
-- One rule for what holds of the calls of a pass: a test of the call list that each kind of call
-- keeps, under what the pass knows when it makes it, holds of the list after the pass.
use ansible_supervisor_servi.Prelude.{
  ℕ, String, ◌≡◌, refl, Bool, true, false, not, ◌&&◌, none, some, List, ◌∷◌, arith, inl, inr, ◌is◌,
  Option-cases, Bool-cases,
}
use ansible_supervisor_servi.Errors.{Error, Result, ok, err}
use ansible_supervisor_servi.Exec.{Logged}
use ansible_supervisor_servi.Objects.{Object, GenericStatus}
use ansible_supervisor_servi.Engine.Finalizers.{
  contains_string, hold_finalizers, release_finalizers, finalizers_need_update,
}
use ansible_supervisor_servi.Engine.Patch.{label}
use ansible_supervisor_servi.Engine.Patch.Keeps.{
  patch_status-keeps, PatchLaws, patch_finalizer-keeps, Result-cases,
}
use ansible_supervisor_servi.Engine.Reconcile.{
  default_cleanup_requeue, latest, requeue_if_asked, Cluster, Controller, EngineCall, patched,
  cleaned, provisioned, applied, requeued, Provisioned, CleanupResult, send_patch, send_status,
  refresh_status, update_finalizers, add_after, run_cleanup, apply_once, get_live, finalize,
  release, delete_pass, secure, run_provision, provision_pass, live_pass, pass, report_error,
  reconcile,
}

abbrev Calls : Type 0 → Type 0
Calls B = List (EngineCall B)

-- `p` is the test. `secured` is what a pass knows before it provisions, `released` what it knows
-- before it takes finalizers off.
pub record TraceLaws {W B : Type 0} (c : Controller W B) (u : Object B)
    (p secured released : Calls B → Bool) : Type 0 where
  pub on_applied :
      (o : Object B) (g : GenericStatus) (r : Result (Unit {0})) (cs : Calls B)
      → p cs ≡ true
      → p (applied o g r ∷ cs) ≡ true
  pub on_requeued :
      (ns n : String) (d : ℕ) (cs : Calls B) → p cs ≡ true → p (requeued ns n d ∷ cs) ≡ true
  pub on_cleaned :
      (r : Result CleanupResult) (cs : Calls B)
      → u.deleting ≡ true
      → p cs ≡ true
      → p (cleaned u r ∷ cs) ≡ true
  pub on_held :
      (o : Object B) (r : Result (Unit {0})) (cs : Calls B)
      → u.deleting ≡ false
      → p cs ≡ true
      → p (patched o (hold_finalizers c.finals o.finalizers) r ∷ cs) ≡ true
  pub on_released :
      (o : Object B) (r : Result (Unit {0})) (cs : Calls B)
      → u.deleting ≡ true
      → p cs && released cs ≡ true
      → p (patched o (release_finalizers c.finals o.finalizers) r ∷ cs)
          && released (patched o (release_finalizers c.finals o.finalizers) r ∷ cs)
        ≡ true
  pub on_provisioned :
      (o : Object B) (r : Result (Provisioned B)) (cs : Calls B)
      → u.deleting ≡ false
      → p cs && secured cs ≡ true
      → p (provisioned o r ∷ cs) ≡ true
  pub held_secures :
      (o : Object B) (cs : Calls B)
      → secured (patched o (hold_finalizers c.finals o.finalizers) (ok tt) ∷ cs) ≡ true
  pub applied_secures :
      (o : Object B) (g : GenericStatus) (r : Result (Unit {0})) (cs : Calls B)
      → secured cs ≡ true
      → secured (applied o g r ∷ cs) ≡ true
  pub steady_secures :
      (cs : Calls B) → finalizers_need_update c.finals u.finalizers ≡ false → secured cs ≡ true
  pub cleanup_releases :
      (result : CleanupResult) (cs : Calls B)
      → result.is_done ≡ true
      → released (cleaned u (ok result) ∷ cs) ≡ true
  pub no_cleanup_releases : (cs : Calls B) → c.cleanup ≡ none → released cs ≡ true
  pub not_held_releases :
      (cs : Calls B)
      → not (c.finals.finalizer_name is "") && contains_string u.finalizers c.finals.finalizer_name
        ≡ false
      → released cs ≡ true

module _ {W B : Type 0} (api : Cluster W B) (c : Controller W B) (u : Object B)
    (p secured released : Calls B → Bool) (laws : TraceLaws c u p secured released) where
  send_status-keeps :
      (o : Object B) (g : GenericStatus) (s : Logged W (EngineCall B))
      → p s.calls ≡ true
      → p (send_status api o g s).1.calls ≡ true
  unfolding send_status
  send_status-keeps o g s h =
      patch_status-keeps (λ t. p t.calls) (apply_once api o g)
        (λ t. unfold apply_once in laws.on_applied o g _ t.calls) (label o) s h

  send_status-secured :
      (o : Object B) (g : GenericStatus) (s : Logged W (EngineCall B))
      → secured s.calls ≡ true
      → secured (send_status api o g s).1.calls ≡ true
  unfolding send_status
  send_status-secured o g s h =
      patch_status-keeps (λ t. secured t.calls) (apply_once api o g)
        (λ t. unfold apply_once in laws.applied_secures o g _ t.calls) (label o) s h

  abbrev SeePatch : (Calls B → Bool) → (Calls B → Bool) → (List String → List String) → Type 0
  SeePatch a b f =
      PatchLaws (λ (t : Logged W (EngineCall B)). a t.calls) (λ t. b t.calls) (send_patch api)
        (get_live api) f

  hold_rules : u.deleting ≡ false → SeePatch p secured (hold_finalizers c.finals)
  unfolding send_patch get_live
  hold_rules live = record {
    patched = λ o t. laws.on_held o _ t.calls live;
    accepted = λ o t e. rw e (laws.held_secures o t.calls);
    read = λ ns n t k. k;
  }

  release_rules :
      u.deleting ≡ true
      → SeePatch (λ cs. p cs && released cs) (λ cs. true) (release_finalizers c.finals)
  unfolding send_patch get_live
  release_rules gone = record {
    patched = λ o t. laws.on_released o _ t.calls gone;
    accepted = λ o t e. refl;
    read = λ ns n t k. k;
  }

  hold-keeps :
      (s : Logged W (EngineCall B))
      → u.deleting ≡ false
      → p s.calls ≡ true
      → (p (update_finalizers api u (hold_finalizers c.finals) s).1.calls ≡ true)
        × ((update_finalizers api u (hold_finalizers c.finals) s).0 ≡ ok tt
            → secured (update_finalizers api u (hold_finalizers c.finals) s).1.calls ≡ true)
  unfolding update_finalizers
  hold-keeps s live h =
      patch_finalizer-keeps (λ t. p t.calls) (λ t. secured t.calls) (send_patch api) (get_live api)
        (hold_finalizers c.finals) (hold_rules live) u s h

  release-keeps :
      (s : Logged W (EngineCall B))
      → u.deleting ≡ true
      → p s.calls && released s.calls ≡ true
      → p (release api c u s).1.calls ≡ true
  unfolding release update_finalizers
  release-keeps s gone h = ground (
    arith,
    patch_finalizer-keeps (λ t. p t.calls && released t.calls) (λ t. true) (send_patch api)
        (get_live api) (release_finalizers c.finals) (release_rules gone) u s h,
  )

  refresh-keeps :
      (o : Object B) (g : GenericStatus) (s : Logged W (EngineCall B))
      → p s.calls ≡ true
      → p (refresh_status api o g s).1.calls ≡ true
  unfolding refresh_status
  refresh-keeps o g s h = ground (arith, send_status-keeps o g s h)

  finalize-keeps :
      (s : Logged W (EngineCall B))
      → u.deleting ≡ true
      → p s.calls ≡ true
      → (p (finalize api c u s).1.calls ≡ true)
        × ((finalize api c u s).0 ≡ ok true → released (finalize api c u s).1.calls ≡ true)
  unfolding finalize run_cleanup add_after
  finalize-keeps s gone h = elim (Option-cases c.cleanup) [
    | inl absent ↦ ground (arith, absent, laws.no_cleanup_releases s.calls absent)
    | inr (f, given) ↦ elim (Result-cases (f u s.world).0) [
      | inl (result, e) ↦ ground (
        arith,
        given,
        e,
        laws.on_cleaned (ok result) s.calls gone h,
        laws.cleanup_releases result s.calls,
        laws.on_requeued u.namespace u.name result.requeue_after (cleaned u (ok result) ∷ s.calls),
        laws.on_requeued u.namespace u.name default_cleanup_requeue
            (cleaned u (ok result) ∷ s.calls),
      )
      | inr (x, e) ↦ ground (arith, given, e, laws.on_cleaned (err x) s.calls gone h)
    ]
  ]

  delete-keeps :
      (s : Logged W (EngineCall B))
      → u.deleting ≡ true
      → p s.calls ≡ true
      → p (delete_pass api c u s).1.calls ≡ true
  unfolding delete_pass
  delete-keeps s gone h = ground (
    arith,
    finalize-keeps s gone h,
    release-keeps (finalize api c u s).1 gone,
    release-keeps s gone,
    laws.not_held_releases s.calls,
  )

  secure-keeps :
      (s : Logged W (EngineCall B))
      → u.deleting ≡ false
      → p s.calls ≡ true
      → (p (secure api c u s).1.calls ≡ true)
        × ((o : Object B)
            → (secure api c u s).0 ≡ ok (some o)
            → secured (secure api c u s).1.calls ≡ true)
  unfolding secure get_live
  secure-keeps s live h = elim (Bool-cases (finalizers_need_update c.finals u.finalizers)) [
    | inl needed ↦ ground (
      arith,
      needed,
      hold-keeps s live h,
      send_status-keeps u (c.update_status u false none)
          (update_finalizers api u (hold_finalizers c.finals) s).1,
      send_status-secured u (c.update_status u false none)
          (update_finalizers api u (hold_finalizers c.finals) s).1,
    )
    | inr steady ↦ ground (arith, steady, laws.steady_secures s.calls steady)
  ]

  requeue-keeps :
      (o : Object B) (d : ℕ) (s : Logged W (EngineCall B))
      → p s.calls ≡ true
      → p (requeue_if_asked api o d s).1.calls ≡ true
  unfolding requeue_if_asked
  requeue-keeps o d s h = ground (arith, laws.on_requeued o.namespace o.name d s.calls h)

  after_provision :
      (o : Object B) → Result (Provisioned B) → Logged W (EngineCall B) → Logged W (EngineCall B)
  after_provision o r s = record {
    world = (c.provision o s.world).1;
    calls = provisioned o r ∷ s.calls;
  }

  provision-keeps :
      (o : Object B) (s : Logged W (EngineCall B))
      → u.deleting ≡ false
      → p s.calls && secured s.calls ≡ true
      → p (provision_pass api c o s).1.calls ≡ true
  unfolding provision_pass run_provision after_provision
  provision-keeps o s live h = elim (Result-cases (c.provision o s.world).0) [
    | inl (x, e) ↦
        let made = after_provision o (ok x) s in
        let asked =
          requeue-keeps o x.requeue_after made (laws.on_provisioned o (ok x) s.calls live h) in
        ground (
          arith,
          e,
          asked,
          refresh-keeps (latest o x.object) (c.update_status (latest o x.object) true none)
              (requeue_if_asked api o x.requeue_after made).1 asked,
        )
    | inr (x, e) ↦ ground (arith, e, laws.on_provisioned o (err x) s.calls live h)
  ]

  live-keeps :
      (s : Logged W (EngineCall B))
      → u.deleting ≡ false
      → p s.calls ≡ true
      → p (live_pass api c u s).1.calls ≡ true
  unfolding live_pass
  live-keeps s live h = elim (Result-cases (secure api c u s).0) [
    | inl (none, e) ↦ ground (arith, e, secure-keeps s live h)
    | inl (some o, e) ↦ ground (
      arith,
      e,
      secure-keeps s live h,
      (secure-keeps s live h).1 o e,
      provision-keeps o (secure api c u s).1 live,
    )
    | inr (x, e) ↦ ground (arith, e, secure-keeps s live h)
  ]

  pass-keeps : (s : Logged W (EngineCall B)) → p s.calls ≡ true → p (pass api c u s).1.calls ≡ true
  unfolding pass
  pass-keeps s h = ground (arith, live-keeps s, delete-keeps s)

  report-keeps :
      (e : Error) (s : Logged W (EngineCall B))
      → p s.calls ≡ true
      → p (report_error api c u e s).1.calls ≡ true
  unfolding report_error
  report-keeps e s h = elim (Result-cases (api.cached_get u.namespace u.name s.world).0) [
    | inl (none, q) ↦ ground (arith, q)
    | inl (some o, q) ↦ ground (
      arith,
      q,
      refresh-keeps o (c.update_status o false (some e))
          (record { world = (api.cached_get u.namespace u.name s.world).1; calls = s.calls }) h,
    )
    | inr (x, q) ↦ ground (arith, q)
  ]

  -- The rule.
  pub reconcile-keeps :
      (s : Logged W (EngineCall B)) → p s.calls ≡ true → p (reconcile api c u s).1.calls ≡ true
  unfolding reconcile
  reconcile-keeps s h = elim (Result-cases (pass api c u s).0) [
    | inl (none, e) ↦ ground (arith, e, pass-keeps s h)
    | inl (some x, e) ↦ ground (arith, e, pass-keeps s h)
    | inr (x, e) ↦ ground (arith, e, report-keeps x (pass api c u s).1 (pass-keeps s h))
  ]
