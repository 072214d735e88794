-- ===== src/Engine/Reconcile.antt =====
-- Controller.Reconcile of controller/engine.go, over the calls that it makes.
pub mod Deletion
pub mod Trace
pub mod Order
use ansible_supervisor_servi.Prelude.{
  ℕ, String, Bool, true, false, not, ◌&&◌, Option, none, some, List, [], ◌∷◌, ◌++◌, Text, lit, ◌==◌,
  if◌then◌else◌, ◌is◌, ◌*◌,
}
use ansible_supervisor_servi.Errors.{Error, Result, ok, err, wrap, cleanup_pending, is_not_found}
use ansible_supervisor_servi.Exec.{
  Exec, Logged, pure, raise, attempt, ◌>>=◌, ◌>>◌, labelled, call, quiet,
}
use ansible_supervisor_servi.Objects.{Object, GenericStatus}
use ansible_supervisor_servi.Engine.Finalizers.{
  Finalizers, contains_string, contains_any, hold_finalizers, release_finalizers,
  finalizers_need_update,
}
use ansible_supervisor_servi.Engine.Patch.{label, patch_status, patch_finalizer}

-- time.Duration, in nanoseconds.
abbrev pub second : ℕ
second = 1000000000

abbrev pub default_cleanup_requeue : ℕ
default_cleanup_requeue = 10 * second

-- Result: the object as provisioning left it, and the delay of another pass, 0 for none.
pub record Provisioned (B : Type 0) : Type 0 where
  pub object : Option (Object B)
  pub requeue_after : ℕ

pub record CleanupResult : Type 0 where
  pub is_done : Bool
  pub requeue_after : ℕ

-- What one pass does to the world, and the answers it gets.
pub data EngineCall (B : Type 0) : Type 0 where
  -- A merge patch of metadata.finalizers, sent with the version of the object it was made from.
  patched : Object B → List String → Result (Unit {0}) → EngineCall B
  cleaned : Object B → Result CleanupResult → EngineCall B
  provisioned : Object B → Result (Provisioned B) → EngineCall B
  applied : Object B → GenericStatus → Result (Unit {0}) → EngineCall B
  requeued : String → String → ℕ → EngineCall B

-- What the loop calls out to: the API server, the informer's store and the workqueue. Text that
-- fmt formats is turned into a string by `render`.
pub record Cluster (W B : Type 0) : Type 0 where
  pub patch_finalizers : Object B → List String → W → Result (Unit {0}) × W
  pub get_live : String → String → W → Result (Object B) × W
  pub cached_get : String → String → W → Result (Option (Object B)) × W
  pub apply_status : Object B → GenericStatus → W → Result (Unit {0}) × W
  pub add_after : String → String → ℕ → W → W
  pub render : Text → String

-- Controller: the functions of one kind. `cleanup` is none where cleanupFunc is nil.
pub record Controller (W B : Type 0) : Type 0 where
  pub finals : Finalizers
  pub provision : Object B → W → Result (Provisioned B) × W
  pub cleanup : Option (Object B → W → Result CleanupResult × W)
  pub update_status : Object B → Bool → Option Error → GenericStatus

abbrev same_string : Option String → String → Bool
same_string none want = false
same_string (some got) want = got is want

abbrev same_bool : Option Bool → Bool → Bool
same_bool none want = false
same_bool (some true) want = want
same_bool (some false) want = not want

-- latestU: the object that provisioning handed back, else the one it was given.
abbrev pub latest : {B : Type 0} → Object B → Option (Object B) → Object B
latest u none = u
latest u (some o) = o

module _ {W B : Type 0} (api : Cluster W B) where
  -- genericStatusCurrent
  unfoldable pub generic_status_current : Object B → GenericStatus → Bool
  generic_status_current u want =
      same_string u.state want.state
      && same_string u.message (api.render want.message)
      && same_bool u.ready want.ready

  abbrev pub Pass : Type 0 → Type 0
  Pass A = Exec (Logged W (EngineCall B)) A

  unfoldable pub send_patch : Object B → List String → Pass (Unit {0})
  send_patch o fs = call (patched o fs) (api.patch_finalizers o fs)

  unfoldable pub apply_once : Object B → GenericStatus → Pass (Unit {0})
  apply_once o g = call (applied o g) (api.apply_status o g)

  unfoldable pub send_status : Object B → GenericStatus → Pass (Unit {0})
  send_status o g = patch_status (label o) (apply_once o g)

  unfoldable pub get_live : String → String → Pass (Object B)
  get_live ns n = quiet (api.get_live ns n)

  -- The status is written only where the object does not carry it already.
  unfoldable pub refresh_status : Object B → GenericStatus → Pass (Result (Unit {0}))
  unfolding generic_status_current
  refresh_status o g =
      if generic_status_current o g then pure (ok tt) else attempt (send_status o g)

  unfoldable pub update_finalizers : Object B → (List String → List String) → Pass (Unit {0})
  update_finalizers o f = patch_finalizer send_patch get_live o f

  unfoldable pub add_after : Object B → ℕ → Pass (Unit {0})
  add_after o d =
      call (λ _. requeued o.namespace o.name d) (λ w. (ok tt, api.add_after o.namespace o.name d w))

  -- A delay of 0 asks for nothing.
  unfoldable pub requeue_if_asked : Object B → ℕ → Pass (Unit {0})
  unfolding add_after
  requeue_if_asked o d = if d == 0 then pure tt else add_after o d

  module _ (c : Controller W B) where
    unfoldable pub run_cleanup :
        (Object B → W → Result CleanupResult × W) → Object B → Pass CleanupResult
    run_cleanup f o = call (cleaned o) (f o)

    -- What the deletion branch does with its finalizer: `true` where cleanup has finished or there
    -- is nothing to clean up, `false` where the pass ends with the finalizer in place.
    unfoldable pub finalize : Object B → Pass Bool
    finalize u = elim c.cleanup [
      | none ↦ pure true
      | some f ↦ do
        r ← attempt (run_cleanup f u)
        elim r [
          | err e ↦ raise (cleanup_pending (wrap (lit "cleanup failed" ∷ []) e))
          | ok result ↦ if result.is_done then pure true else (do
            add_after u (
                if result.requeue_after == 0 then default_cleanup_requeue else result.requeue_after)
            pure false)
        ]
    ]

    unfoldable pub release : Object B → Pass (Unit {0})
    release u = do
      r ← attempt (update_finalizers u (release_finalizers c.finals))
      elim r [
        | ok _ ↦ pure tt
        | err e ↦ raise (cleanup_pending (wrap (lit "finalizer removal patch failed" ∷ []) e))
      ]

    -- The branch of an object with a deletionTimestamp.
    unfoldable pub delete_pass : Object B → Pass (Unit {0})
    delete_pass u =
        let own = c.finals.finalizer_name in
        if not (own is "") && contains_string u.finalizers own
        then (do finished ← finalize u; if finished then release u else pure tt)
        else if contains_any u.finalizers c.finals.stale_finalizers
        then release u
        else pure tt

    -- The finalizers are in place before anything is provisioned. `none` is an object that was
    -- deleted right after its finalizers were set.
    unfoldable pub secure : Object B → Pass (Option (Object B))
    secure u =
        if finalizers_need_update c.finals u.finalizers
        then (do
          labelled (lit "finalizer patch failed" ∷ [])
              (update_finalizers u (hold_finalizers c.finals))
          attempt (send_status u (c.update_status u false none))
          r ← attempt (get_live u.namespace u.name)
          elim r [
            | ok refreshed ↦ pure (some refreshed)
            | err e ↦
                if is_not_found e
                then pure none
                else raise
                    (wrap (lit "re-fetching " ∷ label u ++ lit " after the finalizer patch" ∷ []) e)
          ])
        else pure (some u)

    unfoldable pub run_provision : Object B → Pass (Provisioned B)
    run_provision o = call (provisioned o) (c.provision o)

    -- The rest of a pass over a live object. The value is the error of the last status patch, which
    -- is returned and, unlike a raised one, reported in no status.
    unfoldable pub provision_pass : Object B → Pass (Option Error)
    provision_pass u = do
      result ← labelled (lit "provisioning failed" ∷ []) (run_provision u)
      requeue_if_asked u result.requeue_after
      r ←
          refresh_status (latest u result.object)
            (c.update_status (latest u result.object) true none)
      elim r [ ok _ ↦ pure none | err e ↦ pure (some e) ]

    unfoldable pub live_pass : Object B → Pass (Option Error)
    live_pass u = do
      o ← secure u
      elim o [ none ↦ pure none | some refreshed ↦ provision_pass refreshed ]

    unfoldable pub pass : Object B → Pass (Option Error)
    pass u = if u.deleting then delete_pass u >> pure none else live_pass u

    -- The deferred status update after an error.
    unfoldable pub report_error : Object B → Error → Pass (Unit {0})
    report_error u e = do
      r ← attempt (quiet (api.cached_get u.namespace u.name))
      elim r [
        | err _ ↦ raise e
        | ok none ↦ raise e
        | ok (some latest) ↦ do
          refresh_status latest (c.update_status latest false (some e))
          raise e
      ]

    unfoldable pub reconcile : Object B → Pass (Unit {0})
    reconcile u = do
      r ← attempt (pass u)
      elim r [ ok none ↦ pure tt | ok (some e) ↦ raise e | err e ↦ report_error u e ]
