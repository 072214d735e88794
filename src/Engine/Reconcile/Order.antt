-- ===== src/Engine/Reconcile/Order.antt =====
-- The order of a pass's calls: nothing is provisioned before the finalizer is in place, and the
-- finalizer is not taken off before cleanup has finished.
use ansible_supervisor_servi.Prelude.{
  String, ◌≡◌, refl, Bool, true, false, not, ◌&&◌, ◌||◌, some, List, [], ◌∷◌, arith, any, ◌is◌,
  if◌then◌else◌, eq_iff,
}
use ansible_supervisor_servi.Errors.{Result, ok}
use ansible_supervisor_servi.Exec.{start}
use ansible_supervisor_servi.Objects.{Object}
use ansible_supervisor_servi.Engine.Finalizers.{
  Finalizers, contains_string, hold_finalizers, finalizers_need_update,
}
use ansible_supervisor_servi.Engine.Finalizers.Held.{contains_string-hold_finalizers}
use ansible_supervisor_servi.Engine.Reconcile.{
  Cluster, Controller, EngineCall, patched, cleaned, provisioned, CleanupResult, reconcile,
}
use ansible_supervisor_servi.Engine.Reconcile.Trace.{TraceLaws, reconcile-keeps}

-- The list holds the controller's own finalizer, if it has one.
unfoldable pub holds_own : Finalizers → List String → Bool
holds_own f held = f.finalizer_name is "" || contains_string held f.finalizer_name

module _ {B : Type 0} where
  -- A finalizer patch that the API server accepted and that holds the own finalizer.
  abbrev pub puts_own : Finalizers → EngineCall B → Bool
  puts_own f (patched o fs (ok _)) = holds_own f fs
  puts_own f _ = false

  -- Each call of provisionFunc comes after such a patch, unless `held` says that the object held
  -- the finalizer from the start.
  abbrev pub provisions_secured : Finalizers → Bool → List (EngineCall B) → Bool
  provisions_secured f held [] = true
  provisions_secured f held (provisioned o r ∷ cs) =
      (held || any (puts_own f) cs) && provisions_secured f held cs
  provisions_secured f held (_ ∷ cs) = provisions_secured f held cs

  abbrev pub finishes_cleanup : EngineCall B → Bool
  finishes_cleanup (cleaned o (ok result)) = result.is_done
  finishes_cleanup _ = false

  -- Each patch that leaves the own finalizer out comes after a cleanup that finished.
  abbrev pub releases_earned : Finalizers → List (EngineCall B) → Bool
  releases_earned f [] = true
  releases_earned f (patched o fs r ∷ cs) =
      (holds_own f fs || any finishes_cleanup cs) && releases_earned f cs
  releases_earned f (_ ∷ cs) = releases_earned f cs

  abbrev pub is_provision : EngineCall B → Bool
  is_provision (provisioned o r) = true
  is_provision _ = false

  abbrev pub is_cleanup : EngineCall B → Bool
  is_cleanup (cleaned o r) = true
  is_cleanup _ = false

holds_own-hold_finalizers :
    (f : Finalizers) (l : List String) → holds_own f (hold_finalizers f l) ≡ true
unfolding holds_own
holds_own-hold_finalizers f l = ground (
  arith,
  contains_string-hold_finalizers f l f.finalizer_name,
  eq_iff f.finalizer_name f.finalizer_name,
)

module _ {W B : Type 0} (api : Cluster W B) (c : Controller W B) (u : Object B) where
  steady-holds_own :
      finalizers_need_update c.finals u.finalizers ≡ false → holds_own c.finals u.finalizers ≡ true
  unfolding finalizers_need_update holds_own
  steady-holds_own h = ground arith

  secured_laws :
      TraceLaws c u
        (provisions_secured c.finals (holds_own c.finals u.finalizers))
        (λ cs. holds_own c.finals u.finalizers || any (puts_own c.finals) cs)
        (λ cs. true)
  secured_laws = record {
    on_applied = λ o g r cs h. h;
    on_requeued = λ ns n d cs h. h;
    on_cleaned = λ r cs gone h. h;
    on_held = λ o r cs live h. h;
    on_released = λ o r cs gone h. ground arith;
    on_provisioned = λ o r cs live h. ground arith;
    held_secures = λ o cs. ground (arith, holds_own-hold_finalizers c.finals o.finalizers);
    applied_secures = λ o g r cs h. h;
    steady_secures = λ cs h. ground (arith, steady-holds_own h);
    cleanup_releases = λ result cs h. refl;
    no_cleanup_releases = λ cs h. refl;
    not_held_releases = λ cs h. refl;
  }

  -- In every pass, whatever the API server, the cache and the kind's own functions answer, each
  -- call of provisionFunc comes after the API server has accepted a patch that holds the
  -- controller's own finalizer, unless the object in hand held it (or the kind has none).
  pub provision_after_finalizer :
      (w : W)
      → provisions_secured c.finals
          (holds_own c.finals u.finalizers)
          (reconcile api c u (start w)).1.calls
        ≡ true
  provision_after_finalizer w =
      reconcile-keeps api c u (provisions_secured c.finals (holds_own c.finals u.finalizers))
        (λ cs. holds_own c.finals u.finalizers || any (puts_own c.finals) cs) (λ cs. true)
        secured_laws (start w) refl

  module _ (f : Object B → W → Result CleanupResult × W) (given : c.cleanup ≡ some f)
      (named : c.finals.finalizer_name is "" ≡ false)
      (held : contains_string u.finalizers c.finals.finalizer_name ≡ true) where
    released_laws :
        TraceLaws c u (releases_earned c.finals) (λ cs. true) (λ cs. any finishes_cleanup cs)
    released_laws = record {
      on_applied = λ o g r cs h. h;
      on_requeued = λ ns n d cs h. h;
      on_cleaned = λ r cs gone h. h;
      on_held = λ o r cs live h. ground (arith, holds_own-hold_finalizers c.finals o.finalizers);
      on_released = λ o r cs gone h. ground arith;
      on_provisioned = λ o r cs live h. ground arith;
      held_secures = λ o cs. refl;
      applied_secures = λ o g r cs h. h;
      steady_secures = λ cs h. refl;
      cleanup_releases = λ result cs h. ground arith;
      no_cleanup_releases = λ cs h. cc;
      not_held_releases = λ cs h. ground arith;
    }

    -- Where the kind has a cleanup function and the object holds the controller's finalizer, a pass
    -- sends no finalizer patch that leaves it out before a call of cleanupFunc has answered that
    -- cleanup is done.
    pub release_after_cleanup :
        (w : W) → releases_earned c.finals (reconcile api c u (start w)).1.calls ≡ true
    release_after_cleanup w =
        reconcile-keeps api c u (releases_earned c.finals) (λ cs. true)
          (λ cs. any finishes_cleanup cs) released_laws (start w) refl

  branch_laws :
      TraceLaws c u
        (λ cs. if u.deleting then not (any is_provision cs) else not (any is_cleanup cs))
        (λ cs. true)
        (λ cs. true)
  branch_laws = record {
    on_applied = λ o g r cs h. h;
    on_requeued = λ ns n d cs h. h;
    on_cleaned = λ r cs gone h. ground arith;
    on_held = λ o r cs live h. h;
    on_released = λ o r cs gone h. ground arith;
    on_provisioned = λ o r cs live h. ground arith;
    held_secures = λ o cs. refl;
    applied_secures = λ o g r cs h. h;
    steady_secures = λ cs h. refl;
    cleanup_releases = λ result cs h. refl;
    no_cleanup_releases = λ cs h. refl;
    not_held_releases = λ cs h. refl;
  }

  -- A pass over an object that is being deleted never provisions, and a pass over any other never
  -- cleans up.
  pub branches_apart :
      (w : W)
      → (if u.deleting
          then not (any is_provision (reconcile api c u (start w)).1.calls)
          else not (any is_cleanup (reconcile api c u (start w)).1.calls))
        ≡ true
  branches_apart w =
      reconcile-keeps api c u
        (λ cs. if u.deleting then not (any is_provision cs) else not (any is_cleanup cs))
        (λ cs. true) (λ cs. true) branch_laws (start w) (ground arith)
