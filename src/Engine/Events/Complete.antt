-- ===== src/Engine/Events/Complete.antt =====
-- No change that matters is filtered away: shouldEnqueueOnUpdate and watchChildren.
use ansible_supervisor_servi.Prelude.{
  ◌≡◌, Bool, true, false, not, ◌&&◌, List, [], ◌∷◌, arith, ◌is◌, eq_iff, if◌then◌else◌,
}
use ansible_supervisor_servi.Objects.{Object}
use ansible_supervisor_servi.Engine.Events.{
  should_enqueue_on_update, Delivery, plain, tombstone, Event, added, updated, deleted, Child,
  key_of, parent_key_of, watch_children,
}

-- The later states of an object, none of which its predecessor's update put on the queue.
abbrev pub all_quiet : {B : Type 0} → Object B → List (Object B) → Bool
all_quiet o [] = true
all_quiet o (n ∷ ns) = not (should_enqueue_on_update o n) && all_quiet n ns

abbrev pub last : {A : Type 0} → A → List A → A
last a [] = a
last a (b ∷ bs) = last b bs

-- However many updates are filtered away in a row: over all of them the generation and the reconcile
-- request are the same, and deletion was not requested.
pub nothing_missed :
    {B : Type 0} (o : Object B) (ns : List (Object B))
    → all_quiet o ns ≡ true
    → ((last o ns).generation ≡ o.generation)
      × ((last o ns).reconcile_requested ≡ o.reconcile_requested)
      × ((not o.deleting && (last o ns).deleting) ≡ false)
unfolding should_enqueue_on_update
nothing_missed o [] q = ground arith
nothing_missed o (n ∷ ns) q =
    ground (arith, nothing_missed n ns, eq_iff o.reconcile_requested n.reconcile_requested)

abbrev pub delivered : Delivery Child → Child
delivered (plain c) = c
delivered (tombstone c) = c

-- The child that an event is about, as it is now.
abbrev pub child_of : Event Child → Child
child_of (added d) = delivered d
child_of (updated old new) = delivered new
child_of (deleted d) = delivered d

-- An update that brings the version that was there.
abbrev pub is_redelivery : Event Child → Bool
is_redelivery (updated (plain old) (plain new)) = old.resource_version is new.resource_version
is_redelivery _ = false

-- Every event about a child that names its binding puts exactly the key of that binding on the
-- parent's queue, whatever the child's label says and also where the child is known from a
-- tombstone only; a redelivery of the same version puts nothing there.
pub parent_woken :
    (e : Event Child)
    → ((child_of e).binding_name is "") ≡ false
    → watch_children e ≡ (
        if is_redelivery e
        then []
        else key_of (child_of e).namespace (child_of e).binding_name ∷ [])
unfolding watch_children parent_key_of
parent_woken (added (plain c)) n = ground (arith, n)
parent_woken (added (tombstone c)) n = ground (arith, n)
parent_woken (deleted (plain c)) n = ground (arith, n)
parent_woken (deleted (tombstone c)) n = ground (arith, n)
parent_woken (updated (plain o) (plain c)) n = ground (arith, n)
parent_woken (updated (plain o) (tombstone c)) n = ground (arith, n)
parent_woken (updated (tombstone o) (plain c)) n = ground (arith, n)
parent_woken (updated (tombstone o) (tombstone c)) n = ground (arith, n)
