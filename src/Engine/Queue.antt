-- ===== src/Engine/Queue.antt =====
-- controller/workqueue.go: one round of a worker.
pub mod Retries
use ansible_supervisor_servi.Prelude.{
  ℕ, String, ◌≡◌, refl, Bool, true, false, ◌||◌, Option, none, some, List, [], ◌∷◌, Text, lit,
  quoted, shown, arith, ltb, if◌then◌else◌, inl, inr, any,
}
use ansible_supervisor_servi.Errors.{Error, Result, ok, err, errorf, wrap, is_cleanup_pending}
use ansible_supervisor_servi.Exec.{
  Exec, Logged, pure, raise, lift, gets, attempt, ◌>>=◌, ◌>>◌, call, quiet, start,
}
use ansible_supervisor_servi.Objects.{Object}
use ansible_supervisor_servi.Engine.Patch.Keeps.{Result-cases}
use ansible_supervisor_servi.Engine.Reconcile.{Cluster, Controller, EngineCall, reconcile}
use ansible_supervisor_servi.Engine.Reconcile.Deletion.{delete_errors_pending}

abbrev pub max_reconcile_retries : ℕ
max_reconcile_retries = 10

-- What comes off the queue: a key, or something that is no string.
pub data Item : Type 0 where
  key foreign : String → Item

pub data QueueCall : Type 0 where
  forgot retried finished : Item → QueueCall

-- The rate-limited queue and the splitting of keys, which are client-go's. `none` is a shutdown.
pub record Workqueue (W : Type 0) : Type 0 where
  pub get : W → Option Item × W
  pub forget : Item → W → W
  pub add_rate_limited : Item → W → W
  pub done : Item → W → W
  pub num_requeues : Item → W → ℕ
  pub split_key : String → Option (String × String)

module _ {W B : Type 0} (q : Workqueue W) (api : Cluster W B) (c : Controller W B) where
  abbrev pub Round : Type 0 → Type 0
  Round A = Exec (Logged W QueueCall) A

  -- A pass, whose own calls are not recorded in the queue's list.
  unfoldable pub run_reconcile : Object B → W → Result (Unit {0}) × W
  run_reconcile u w = ((reconcile api c u (start w)).0, (reconcile api c u (start w)).1.world)

  unfoldable pub reconcile_found : Result (Option (Object B)) → String → W → Result (Unit {0}) × W
  unfolding run_reconcile
  reconcile_found (err e) k w = (err (wrap (lit "failed to fetch resource " ∷ shown k ∷ []) e), w)
  reconcile_found (ok none) k w = (ok tt, w)
  reconcile_found (ok (some u)) k w = run_reconcile u w

  unfoldable pub reconcile_split : Option (String × String) → String → W → Result (Unit {0}) × W
  unfolding reconcile_found
  reconcile_split none k w = (err (errorf (lit "invalid resource key: " ∷ shown k ∷ [])), w)
  reconcile_split (some (ns, n)) k w =
      reconcile_found (api.cached_get ns n w).0 k (api.cached_get ns n w).1

  -- The deadline of the pass's context is the API server's and AWX's to honour.
  unfoldable pub reconcile_by_key : String → W → Result (Unit {0}) × W
  unfolding reconcile_split
  reconcile_by_key k w = reconcile_split (q.split_key k) k w

  unfoldable pub forget : Item → Round (Unit {0})
  forget i = call (λ _. forgot i) (λ w. (ok tt, q.forget i w))

  unfoldable pub retry : Item → Round (Unit {0})
  retry i = call (λ _. retried i) (λ w. (ok tt, q.add_rate_limited i w))

  unfoldable pub finish : Item → Round (Unit {0})
  finish i = call (λ _. finished i) (λ w. (ok tt, q.done i w))

  -- What becomes of the key after its pass.
  unfoldable pub settle : String → Result (Unit {0}) → Round (Unit {0})
  unfolding forget retry
  settle k (ok _) = forget (key k)
  settle k (err e) = do
    requeues ← gets (λ s. q.num_requeues (key k) s.world)
    if is_cleanup_pending e || ltb requeues max_reconcile_retries
        then retry (key k)
        else forget (key k)

  unfoldable pub process_item : Item → Round (Unit {0})
  unfolding settle
  process_item (foreign x) = forget (foreign x)
  process_item (key k) = do r ← attempt (quiet (reconcile_by_key k)); settle k r

  unfoldable pub process_got : Option Item → Round Bool
  unfolding process_item finish
  process_got none = pure false
  process_got (some i) = process_item i >> finish i >> pure true

  -- false is a queue that was shut down.
  unfoldable pub process_next_work_item : Round Bool
  unfolding process_got
  process_next_work_item = do got ← quiet (λ w. (ok (q.get w).0, (q.get w).1)); process_got got
