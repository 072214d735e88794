-- ===== src/Tests/Events.antt =====
-- Watch events at concrete inputs.
use ansible_supervisor_servi.Prelude.{◌≡◌, refl, false, not, ◌&&◌, [], ◌∷◌}
use ansible_supervisor_servi.Objects.{Object}
use ansible_supervisor_servi.Engine.Events.{
  Child, deleted, tombstone, watch_children, should_enqueue_on_update,
}
use ansible_supervisor_servi.Engine.Events.Complete.{nothing_missed, parent_woken}
use ansible_supervisor_servi.Run.Model.{RunBody}
use ansible_supervisor_servi.Run.Apply.{no_status}
use ansible_supervisor_servi.Tests.RunWorld.{run_object}

-- A terminating run before and after a write of its status.
abbrev before : Object RunBody
before = record (run_object no_status) { deleting = false }

abbrev after : Object RunBody
after = record before { resource_version = "6" }

nothing_missed_example :
    (after.generation ≡ before.generation)
    × (after.reconcile_requested ≡ before.reconcile_requested)
    × ((not before.deleting && after.deleting) ≡ false)
unfolding should_enqueue_on_update
nothing_missed_example = nothing_missed before (after ∷ []) refl

abbrev child : Child
child = record {
  namespace = "ns";
  resource_version = "7";
  binding_name = "b";
  binding_label = "other";
}

parent_woken_example : watch_children (deleted (tombstone child)) ≡ "ns/b" ∷ []
parent_woken_example = parent_woken (deleted (tombstone child)) refl
