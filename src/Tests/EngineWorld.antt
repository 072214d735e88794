-- ===== src/Tests/EngineWorld.antt =====
-- A cluster that accepts everything, and a kind with one finalizer, one stale one and a cleanup.
use ansible_supervisor_servi.Prelude.{ℕ, String, Bool, true, none, some, List, [], ◌∷◌, Text}
use ansible_supervisor_servi.Errors.{Error, Result, ok, errorf}
use ansible_supervisor_servi.Objects.{Object}
use ansible_supervisor_servi.Engine.Finalizers.{Finalizers}
use ansible_supervisor_servi.Engine.Reconcile.{Cluster, Controller, CleanupResult}
use ansible_supervisor_servi.Engine.Queue.{Workqueue, key}

abbrev pub finals : Finalizers
finals = record { finalizer_name = "own"; stale_finalizers = "old" ∷ [] }

abbrev pub no_text : Text
no_text = []

abbrev pub object : Bool → List String → Object ℕ
object deleting fs = record {
  namespace = "ns";
  name = "run";
  uid = "u1";
  resource_version = "5";
  generation = 1;
  finalizers = fs;
  deleting = deleting;
  reconcile_requested = "";
  state = none;
  message = none;
  ready = none;
  body = 0;
}

-- The world is the object that the server and the cache hold.
abbrev pub cluster : Cluster (Object ℕ) ℕ
cluster = record {
  patch_finalizers = λ o fs w. (ok tt, record w { finalizers = fs });
  get_live = λ ns n w. (ok w, w);
  cached_get = λ ns n w. (ok (some w), w);
  apply_status = λ o g w. (ok tt, w);
  add_after = λ ns n d w. w;
  render = λ t. "";
}

abbrev pub controller : Result CleanupResult → Controller (Object ℕ) ℕ
controller answer = record {
  finals = finals;
  provision = λ o w. (ok (record { object = none; requeue_after = 0 }), w);
  cleanup = some (λ o w. (answer, w));
  update_status = λ o b e. record { state = "Ready"; message = no_text; ready = true };
}

abbrev pub finished : Result CleanupResult
finished = ok (record { is_done = true; requeue_after = 0 })

abbrev pub awx_down : Error
awx_down = errorf []

abbrev pub queue : Workqueue (Object ℕ)
queue = record {
  get = λ w. (some (key "ns/run"), w);
  forget = λ i w. w;
  add_rate_limited = λ i w. w;
  done = λ i w. w;
  num_requeues = λ i w. 50;
  split_key = λ k. some ("ns", "run");
}
