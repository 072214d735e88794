-- ===== src/Tests/Engine.antt =====
-- The reconcile loop at concrete objects.
use ansible_supervisor_servi.Prelude.{
  ℕ, ◌≡◌, refl, true, false, not, ◌||◌, ◌&&◌, List, [], ◌∷◌, keep, any, ◌is◌,
}
use ansible_supervisor_servi.Errors.{ok, err, wrap, cleanup_pending}
use ansible_supervisor_servi.Prelude.{lit}
use ansible_supervisor_servi.Exec.{start}
use ansible_supervisor_servi.Objects.{Object}
use ansible_supervisor_servi.Engine.Finalizers.{
  contains_string, contains_any, hold_finalizers, release_finalizers, finalizers_need_update,
}
use ansible_supervisor_servi.Engine.Finalizers.Held.{
  is_foreign, contains_string-hold_finalizers, contains_string-release_finalizers,
  foreign_unchanged,
}
use ansible_supervisor_servi.Engine.Finalizers.Stable.{
  hold_finalizers_stable, finalizers_need_update-hold_finalizers,
}
use ansible_supervisor_servi.Engine.Reconcile.{
  reconcile, EngineCall, pass, delete_pass, finalize, run_cleanup, report_error, refresh_status,
  generic_status_current, send_status, apply_once,
}
use ansible_supervisor_servi.Engine.Patch.{patch_status}
use ansible_supervisor_servi.Engine.Reconcile.Order.{
  holds_own, provisions_secured, releases_earned, is_provision, provision_after_finalizer,
  release_after_cleanup, branches_apart,
}
use ansible_supervisor_servi.Engine.Queue.{
  reconcile_by_key, key, finished as done, retried, process_next_work_item,
}
use ansible_supervisor_servi.Engine.Queue.Retries.{finalization_retried}
use ansible_supervisor_servi.Tests.EngineWorld.{
  finals, object, cluster, controller, finished, awx_down, queue,
}

-- The calls of a pass over an object that the server and the cache hold as it is.
abbrev ran : Object ℕ → List (EngineCall ℕ)
ran u = (reconcile cluster (controller finished) u (start u)).1.calls

contains_string-hold_finalizers_example :
    contains_string (hold_finalizers finals ("old" ∷ "x" ∷ [])) "own" ≡ (
      contains_string ("old" ∷ "x" ∷ []) "own" && not (contains_string ("old" ∷ []) "own")
      || not ("own" is "") && ("own" is "own"))
contains_string-hold_finalizers_example =
    contains_string-hold_finalizers finals ("old" ∷ "x" ∷ []) "own"

contains_string-release_finalizers_example :
    contains_string (release_finalizers finals ("own" ∷ "x" ∷ [])) "x" ≡ (
      contains_string ("own" ∷ "x" ∷ []) "x"
      && not (contains_string ("old" ∷ []) "x")
      && not (not ("own" is "") && ("own" is "x")))
contains_string-release_finalizers_example =
    contains_string-release_finalizers finals ("own" ∷ "x" ∷ []) "x"

foreign_unchanged_example :
    (keep (is_foreign finals) (hold_finalizers finals ("x" ∷ "old" ∷ []))
      ≡ keep (is_foreign finals) ("x" ∷ "old" ∷ []))
    × (keep (is_foreign finals) (release_finalizers finals ("x" ∷ "old" ∷ []))
        ≡ keep (is_foreign finals) ("x" ∷ "old" ∷ []))
foreign_unchanged_example = foreign_unchanged finals ("x" ∷ "old" ∷ [])

hold_finalizers_stable_example : hold_finalizers finals ("x" ∷ "own" ∷ []) ≡ "x" ∷ "own" ∷ []
unfolding finalizers_need_update contains_string contains_any
hold_finalizers_stable_example = hold_finalizers_stable finals ("x" ∷ "own" ∷ []) refl

finalizers_need_update-hold_finalizers_example :
    finalizers_need_update finals (hold_finalizers finals ("old" ∷ [])) ≡ false
unfolding contains_string
finalizers_need_update-hold_finalizers_example =
    finalizers_need_update-hold_finalizers finals ("old" ∷ []) refl

provision_after_finalizer_example :
    provisions_secured finals (holds_own finals ("old" ∷ [])) (ran (object false ("old" ∷ [])))
    ≡ true
provision_after_finalizer_example =
    provision_after_finalizer cluster (controller finished) (object false ("old" ∷ []))
      (object false ("old" ∷ []))

release_after_cleanup_example : releases_earned finals (ran (object true ("own" ∷ []))) ≡ true
unfolding contains_string
release_after_cleanup_example =
    release_after_cleanup cluster (controller finished) (object true ("own" ∷ []))
      (λ o w. (finished, w)) refl refl refl (object true ("own" ∷ []))

branches_apart_example : not (any is_provision (ran (object true ("own" ∷ [])))) ≡ true
branches_apart_example =
    branches_apart cluster (controller finished) (object true ("own" ∷ []))
      (object true ("own" ∷ []))

finalization_retried_example :
    let after =
      process_next_work_item queue cluster
        (controller (err awx_down))
        (start (object true ("own" ∷ []))) in
    (after.0 ≡ ok true) × (after.1.calls ≡ done (key "ns/run") ∷ retried (key "ns/run") ∷ [])
unfolding reconcile_by_key reconcile pass delete_pass finalize run_cleanup contains_string
    report_error refresh_status generic_status_current send_status patch_status apply_once
finalization_retried_example =
    finalization_retried queue cluster (controller (err awx_down)) "ns/run" "ns" "run"
      (object true ("own" ∷ [])) (object true ("own" ∷ [])) (object true ("own" ∷ []))
      (cleanup_pending (wrap (lit "cleanup failed" ∷ []) awx_down)) refl refl refl refl refl
