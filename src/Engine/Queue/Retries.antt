-- ===== src/Engine/Queue/Retries.antt =====
-- What becomes of a key whose pass failed.
use ansible_supervisor_servi.Prelude.{
  String, ◌≡◌, true, ◌||◌, some, [], ◌∷◌, arith, ltb, if◌then◌else◌, sym, ◌∙◌,
}
use ansible_supervisor_servi.Errors.{Error, ok, err, is_cleanup_pending}
use ansible_supervisor_servi.Exec.{start}
use ansible_supervisor_servi.Objects.{Object}
use ansible_supervisor_servi.Engine.Reconcile.{Cluster, Controller, reconcile}
use ansible_supervisor_servi.Engine.Reconcile.Deletion.{delete_errors_pending}
use ansible_supervisor_servi.Engine.Queue.{
  Workqueue, key, forgot, retried, finished, max_reconcile_retries, reconcile_by_key,
  process_next_work_item,
}

module _ {W B : Type 0} (q : Workqueue W) (api : Cluster W B) (c : Controller W B) where
  pass_of_key :
      (k ns n : String) (w : W) (u : Object B)
      → q.split_key k ≡ some (ns, n)
      → (api.cached_get ns n w).0 ≡ ok (some u)
      → (reconcile_by_key q api c k w).0 ≡ (reconcile api c u (start (api.cached_get ns n w).1)).0
  unfolding reconcile_by_key
  pass_of_key k ns n w u split cached = rw (split, cached)

  -- A round over a key: what it answers and the calls it makes, from the outcome of its pass.
  round_of_error :
      (k : String) (w w' : W) (e : Error)
      → q.get w ≡ (some (key k), w')
      → (reconcile_by_key q api c k w').0 ≡ err e
      → ((process_next_work_item q api c (start w)).0 ≡ ok true)
        × ((process_next_work_item q api c (start w)).1.calls
            ≡ finished (key k)
              ∷ (if is_cleanup_pending e
                    || ltb
                        (q.num_requeues (key k) (reconcile_by_key q api c k w').1)
                        max_reconcile_retries
                  then retried (key k)
                  else forgot (key k))
              ∷ [])
  unfolding process_next_work_item
  round_of_error k w w' e got failed = ground (arith, got, failed)

  -- Finalization is never abandoned. Where the key names an object that is being deleted, and its
  -- pass fails, the round puts the key back on the queue, whatever the number of its requeues,
  -- and says true, so the worker goes on; it forgets the key in no case.
  pub finalization_retried :
      (k : String) (ns n : String) (w w' : W) (u : Object B) (e : Error)
      → q.get w ≡ (some (key k), w')
      → q.split_key k ≡ some (ns, n)
      → (api.cached_get ns n w').0 ≡ ok (some u)
      → u.deleting ≡ true
      → (reconcile_by_key q api c k w').0 ≡ err e
      → ((process_next_work_item q api c (start w)).0 ≡ ok true)
        × ((process_next_work_item q api c (start w)).1.calls
            ≡ finished (key k) ∷ retried (key k) ∷ [])
  finalization_retried k ns n w w' u e got split cached gone failed =
      let pending : is_cleanup_pending e ≡ true =
        delete_errors_pending api c u (start (api.cached_get ns n w').1) e gone
          (sym (pass_of_key k ns n w' u split cached) ∙ failed) in
      ground (arith, pending, round_of_error k w w' e got failed)
