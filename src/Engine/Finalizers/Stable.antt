-- ===== src/Engine/Finalizers/Stable.antt =====
-- finalizersNeedUpdate agrees with holdFinalizers: the patch is sent when it would change the list.
use ansible_supervisor_servi.Prelude.{
  String, ◌≡◌, refl, true, false, List, [], ◌∷◌, arith, keep, eq_iff,
}
use ansible_supervisor_servi.Engine.Finalizers.{
  Finalizers, contains_string, remove_string, remove_strings, hold_finalizers, contains_any,
  finalizers_need_update,
}
use ansible_supervisor_servi.Engine.Finalizers.Held.{contains_string-hold_finalizers}

remove_string_absent :
    (l : List String) (s : String) → contains_string l s ≡ false → remove_string l s ≡ l
unfolding contains_string remove_string keep
remove_string_absent [] s h = refl
remove_string_absent (x ∷ xs) s h = ground (arith, remove_string_absent xs s)

remove_strings_absent : (l ss : List String) → contains_any l ss ≡ false → remove_strings l ss ≡ l
unfolding remove_strings contains_any
remove_strings_absent l [] h = refl
remove_strings_absent l (s ∷ ss) h =
    ground (arith, remove_string_absent l s, remove_strings_absent l ss)

-- When no update is needed, the list is already what holdFinalizers makes of it.
pub hold_finalizers_stable :
    (c : Finalizers) (l : List String)
    → finalizers_need_update c l ≡ false
    → hold_finalizers c l ≡ l
unfolding hold_finalizers finalizers_need_update
hold_finalizers_stable c l h = ground (arith, remove_strings_absent l c.stale_finalizers)

-- No stale finalizer of `ss` is held in `l`.
NoneHeld : List String → List String → Type 0
NoneHeld l ss = (s : String) → contains_string ss s ≡ true → contains_string l s ≡ false

contains_any_none : (l ss : List String) → NoneHeld l ss → contains_any l ss ≡ false
unfolding contains_any contains_string NoneHeld
contains_any_none l [] h = refl
contains_any_none l (s ∷ ss) h =
    ground
      (arith, h s (ground (arith, eq_iff s s)), contains_any_none l ss (λ x e. h x (ground arith)))

-- After one update none is needed: where the controller's own finalizer is not among its stale
-- ones, the list that holdFinalizers makes satisfies finalizersNeedUpdate's test, so an object
-- that carries it is never patched again for its finalizers.
pub finalizers_need_update-hold_finalizers :
    (c : Finalizers) (l : List String)
    → contains_string c.stale_finalizers c.finalizer_name ≡ false
    → finalizers_need_update c (hold_finalizers c l) ≡ false
unfolding finalizers_need_update NoneHeld
finalizers_need_update-hold_finalizers c l own = ground (
  arith,
  contains_string-hold_finalizers c l c.finalizer_name,
  eq_iff c.finalizer_name c.finalizer_name,
  contains_any_none (hold_finalizers c l) c.stale_finalizers none_held,
)
  where
    none_held :
        (s : String)
        → contains_string c.stale_finalizers s ≡ true
        → contains_string (hold_finalizers c l) s ≡ false
    none_held s e = ground (arith, contains_string-hold_finalizers c l s, eq_iff c.finalizer_name s)
