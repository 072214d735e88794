-- ===== src/Engine/Reconcile/Deletion.antt =====
-- The branch of Reconcile for an object that is being deleted.
use ansible_supervisor_servi.Prelude.{◌≡◌, true, arith, inl, inr}
use ansible_supervisor_servi.Errors.{Error, err, is_cleanup_pending}
use ansible_supervisor_servi.Exec.{Logged}
use ansible_supervisor_servi.Objects.{Object}
use ansible_supervisor_servi.Engine.Patch.Keeps.{Result-cases}
use ansible_supervisor_servi.Engine.Reconcile.{
  add_after, Cluster, Controller, EngineCall, report_error, refresh_status, reconcile, pass,
  delete_pass, finalize, release,
}

module _ {W B : Type 0} (api : Cluster W B) (c : Controller W B) where
  raises_report_error :
      (u : Object B) (e : Error) (s : Logged W (EngineCall B))
      → (report_error api c u e s).0 ≡ err e
  unfolding report_error refresh_status
  raises_report_error u e s = ground arith

  delete_pass_pending :
      (u : Object B) (s : Logged W (EngineCall B)) (e : Error)
      → (delete_pass api c u s).0 ≡ err e
      → is_cleanup_pending e ≡ true
  unfolding delete_pass finalize release add_after is_cleanup_pending
  delete_pass_pending u s e h = ground arith

  -- Every error of a pass over an object that is being deleted is a cleanup error, which the
  -- workqueue never gives up on.
  pub delete_errors_pending :
      (u : Object B) (s : Logged W (EngineCall B)) (e : Error)
      → u.deleting ≡ true
      → (reconcile api c u s).0 ≡ err e
      → is_cleanup_pending e ≡ true
  unfolding reconcile pass
  delete_errors_pending u s e d h = elim (Result-cases (delete_pass api c u s).0) [
    | inl (x, q) ↦ ground (arith, q)
    | inr (x, q) ↦
        ground
          (arith, q, delete_pass_pending u s x q, raises_report_error u x (delete_pass api c u s).1)
  ]
