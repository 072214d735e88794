-- ===== src/Engine/Events.antt =====
-- Which watch events put a key on a queue: shouldEnqueueOnUpdate, informerEventHandler and
-- watchChildren of controller/engine.go.
pub mod Complete
use ansible_supervisor_servi.Prelude.{
  ℕ, String, ◌≡◌, refl, Bool, true, false, not, ◌&&◌, ◌||◌, Option, none, some, List, [], ◌∷◌, ◌++◌,
  arith, ◌==◌, ◌is◌, concat, eq_iff, if◌then◌else◌,
}
use ansible_supervisor_servi.Objects.{Object}

unfoldable pub should_enqueue_on_update : {B : Type 0} → Object B → Object B → Bool
should_enqueue_on_update old new =
    old.resource_version is new.resource_version
    || not (old.generation == new.generation)
    || not old.deleting && new.deleting
    || not (old.reconcile_requested is new.reconcile_requested)

-- What an informer delivers. `tombstone` is a DeletedFinalStateUnknown, with the last state known.
pub data Delivery (O : Type 0) : Type 0 where
  plain tombstone : O → Delivery O

pub data Event (O : Type 0) : Type 0 where
  added : Delivery O → Event O
  updated : Delivery O → Delivery O → Event O
  deleted : Delivery O → Event O

-- key(namespace, name)
abbrev pub key_of : String → String → String
key_of namespace name = concat namespace (concat "/" name)

-- A child of a binding as watchChildren reads it: spec.bindingName, and the binding label, "" where
-- either is absent.
pub record Child : Type 0 where
  pub namespace : String
  pub resource_version : String
  pub binding_name : String
  pub binding_label : String

abbrev unwrap : {O : Type 0} → Delivery O → O
unwrap (plain o) = o
unwrap (tombstone o) = o

-- parentKeyOf: the spec is the authority, and the label stands in where it is empty.
unfoldable pub parent_key_of : Delivery Child → Option String
parent_key_of d =
    let child = unwrap d in
    let binding = if child.binding_name is "" then child.binding_label else child.binding_name in
    if binding is "" then none else some (key_of child.namespace binding)

abbrev one : Option String → List String
one none = []
one (some k) = k ∷ []

-- toUnstructured knows no tombstone: an update with one is not compared, and wakes the parent.
abbrev same_delivery : Delivery Child → Delivery Child → Bool
same_delivery (plain old) (plain new) = old.resource_version is new.resource_version
same_delivery _ _ = false

-- watchChildren: the keys that it adds to the parent's queue.
unfoldable pub watch_children : Event Child → List String
unfolding parent_key_of
watch_children (added d) = one (parent_key_of d)
watch_children (updated old new) = if same_delivery old new then [] else one (parent_key_of new)
watch_children (deleted d) = one (parent_key_of d)
