-- ===== src/Engine/Finalizers/Held.antt =====
-- Which finalizers a resource holds after holdFinalizers and releaseFinalizers.
use ansible_supervisor_servi.Prelude.{
  String, ◌≡◌, refl, ◌∙◌, Bool, true, false, not, ◌&&◌, ◌||◌, List, [], ◌∷◌, ◌++◌, arith, keep,
  ◌is◌, eq_iff,
}
use ansible_supervisor_servi.Engine.Finalizers.{
  Finalizers, contains_string, remove_string, remove_strings, hold_finalizers, release_finalizers,
  contains_string-remove_string, contains_string-remove_strings, contains_string-append,
}

contains_string-singleton : (s f : String) → contains_string (s ∷ []) f ≡ s is f
unfolding contains_string
contains_string-singleton s f = ground arith

-- A name is held after holdFinalizers exactly when it was held and is not stale, or is the
-- controller's own non-empty finalizer.
pub contains_string-hold_finalizers :
    (c : Finalizers) (l : List String) (f : String)
    → contains_string (hold_finalizers c l) f ≡ (
        contains_string l f && not (contains_string c.stale_finalizers f)
        || not (c.finalizer_name is "") && (c.finalizer_name is f))
unfolding hold_finalizers
contains_string-hold_finalizers c l f = ground (
  arith,
  contains_string-remove_strings l c.stale_finalizers f,
  contains_string-remove_strings l c.stale_finalizers c.finalizer_name,
  contains_string-append (remove_strings l c.stale_finalizers) (c.finalizer_name ∷ []) f,
  contains_string-singleton c.finalizer_name f,
  eq_iff c.finalizer_name f,
)

-- A name is held after releaseFinalizers exactly when it was held, is not stale, and is not the
-- controller's own non-empty finalizer.
pub contains_string-release_finalizers :
    (c : Finalizers) (l : List String) (f : String)
    → contains_string (release_finalizers c l) f ≡ (
        contains_string l f
        && not (contains_string c.stale_finalizers f)
        && not (not (c.finalizer_name is "") && (c.finalizer_name is f)))
unfolding release_finalizers
contains_string-release_finalizers c l f = ground (
  arith,
  contains_string-remove_strings l c.stale_finalizers f,
  contains_string-remove_strings (remove_string l c.finalizer_name) c.stale_finalizers f,
  contains_string-remove_string l c.finalizer_name f,
)

-- The finalizers of others: neither the controller's own nor a stale one.
abbrev pub is_foreign : Finalizers → String → Bool
is_foreign c f = not (c.finalizer_name is f) && not (contains_string c.stale_finalizers f)

module _ (p : String → Bool) where
  keep-remove_string :
      (l : List String) (s : String) → p s ≡ false → keep p (remove_string l s) ≡ keep p l
  unfolding keep remove_string
  keep-remove_string [] s h = refl
  keep-remove_string (x ∷ xs) s h = ground (arith, keep-remove_string xs s h, eq_iff x s)

  keep-append_fails : (l : List String) (s : String) → p s ≡ false → keep p (l ++ s ∷ []) ≡ keep p l
  unfolding keep
  keep-append_fails [] s h = ground arith
  keep-append_fails (x ∷ xs) s h = ground (arith, keep-append_fails xs s h)

  AllFail : List String → Type 0
  AllFail ss = (s : String) → contains_string ss s ≡ true → p s ≡ false

  keep-remove_strings : (l ss : List String) → AllFail ss → keep p (remove_strings l ss) ≡ keep p l
  unfolding remove_strings AllFail contains_string
  keep-remove_strings l [] h = refl
  keep-remove_strings l (s ∷ ss) h =
      keep-remove_strings (remove_string l s) ss (λ x e. h x (ground arith))
      ∙ keep-remove_string l s (h s (ground (arith, eq_iff s s)))

-- The finalizers of others come out of both operations as they went in: all of them, as often,
-- and in their order.
pub foreign_unchanged :
    (c : Finalizers) (l : List String)
    → (keep (is_foreign c) (hold_finalizers c l) ≡ keep (is_foreign c) l)
      × (keep (is_foreign c) (release_finalizers c l) ≡ keep (is_foreign c) l)
unfolding hold_finalizers release_finalizers AllFail
foreign_unchanged c l = (held, released)
  where
    stale_fails :
        (s : String) → contains_string c.stale_finalizers s ≡ true → is_foreign c s ≡ false
    stale_fails s e = ground arith

    own_fails : is_foreign c c.finalizer_name ≡ false
    own_fails = ground (arith, eq_iff c.finalizer_name c.finalizer_name)

    swept :
        (k : List String)
        → keep (is_foreign c) (remove_strings k c.stale_finalizers) ≡ keep (is_foreign c) k
    swept k = keep-remove_strings (is_foreign c) k c.stale_finalizers stale_fails

    held : keep (is_foreign c) (hold_finalizers c l) ≡ keep (is_foreign c) l
    held = ground (
      arith,
      swept l,
      keep-append_fails (is_foreign c) (remove_strings l c.stale_finalizers) c.finalizer_name
          own_fails,
    )

    released : keep (is_foreign c) (release_finalizers c l) ≡ keep (is_foreign c) l
    released = ground (
      arith,
      swept l,
      swept (remove_string l c.finalizer_name),
      keep-remove_string (is_foreign c) l c.finalizer_name own_fails,
    )
