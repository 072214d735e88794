-- ===== src/Engine/Finalizers.antt =====
-- metadata.finalizers as a controller wants it: controller/engine.go.
pub mod Held
pub mod Stable
use ansible_supervisor_servi.Prelude.{
  String, ◌≡◌, refl, Bool, true, false, not, ◌&&◌, ◌||◌, List, [], ◌∷◌, ◌++◌, arith, any, keep,
  if◌then◌else◌, ◌is◌, eq_iff,
}

-- The finalizer fields of Controller. An empty name means that the kind needs no finalizer.
pub record Finalizers : Type 0 where
  pub finalizer_name : String
  pub stale_finalizers : List String

unfoldable pub contains_string : List String → String → Bool
contains_string slice s = any (λ item. item is s) slice

unfoldable pub remove_string : List String → String → List String
unfolding keep
remove_string slice s = keep (λ item. not (item is s)) slice

-- The loops over staleFinalizers in holdFinalizers and releaseFinalizers.
unfoldable pub remove_strings : List String → List String → List String
remove_strings slice [] = slice
remove_strings slice (s ∷ ss) = remove_strings (remove_string slice s) ss

unfoldable pub hold_finalizers : Finalizers → List String → List String
hold_finalizers c existing =
    let desired = remove_strings existing c.stale_finalizers in
    if not (c.finalizer_name is "") && not (contains_string desired c.finalizer_name)
    then desired ++ c.finalizer_name ∷ []
    else desired

unfoldable pub release_finalizers : Finalizers → List String → List String
release_finalizers c existing =
    remove_strings
      (if not (c.finalizer_name is "") then remove_string existing c.finalizer_name else existing)
      c.stale_finalizers

unfoldable pub contains_any : List String → List String → Bool
contains_any held [] = false
contains_any held (stale ∷ rest) = contains_string held stale || contains_any held rest

unfoldable pub finalizers_need_update : Finalizers → List String → Bool
finalizers_need_update c held =
    if not (c.finalizer_name is "") && not (contains_string held c.finalizer_name)
    then true
    else contains_any held c.stale_finalizers

-- What both operations do to one name.
pub contains_string-remove_string :
    (l : List String) (s f : String)
    → contains_string (remove_string l s) f ≡ (contains_string l f && not (s is f))
unfolding contains_string remove_string
contains_string-remove_string [] s f = refl
contains_string-remove_string (x ∷ xs) s f =
    ground (arith, contains_string-remove_string xs s f, eq_iff x s, eq_iff x f, eq_iff s f)

pub contains_string-remove_strings :
    (l ss : List String) (f : String)
    → contains_string (remove_strings l ss) f ≡ (contains_string l f && not (contains_string ss f))
unfolding remove_strings contains_string
contains_string-remove_strings l [] f = ground arith
contains_string-remove_strings l (s ∷ ss) f = ground (
  arith,
  contains_string-remove_strings (remove_string l s) ss f,
  contains_string-remove_string l s f,
)

pub contains_string-append :
    (xs ys : List String) (f : String)
    → contains_string (xs ++ ys) f ≡ (contains_string xs f || contains_string ys f)
unfolding contains_string
contains_string-append [] ys f = refl
contains_string-append (x ∷ xs) ys f = ground (arith, contains_string-append xs ys f)
