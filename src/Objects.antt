-- ===== src/Objects.antt =====
-- The unstructured objects of the Kubernetes API, as far as the controller reads them.
use ansible_supervisor_servi.Prelude.{ℕ, String, Bool, Option, List, Text}

-- `deleting` is a deletionTimestamp that is set, `reconcile_requested` the value of the annotation
-- ansible.field.vmware.com/reconcile-requested-at, "" where it is absent. `state`, `message` and
-- `ready` are the generic status fields; `none` is a field that is absent or of another type.
-- `body` is what one kind adds: its spec and the detail half of its status.
pub record Object (B : Type 0) : Type 0 where
  pub namespace : String
  pub name : String
  pub uid : String
  pub resource_version : String
  pub generation : ℕ
  pub finalizers : List String
  pub deleting : Bool
  pub reconcile_requested : String
  pub state : Option String
  pub message : Option String
  pub ready : Option Bool
  pub body : B

-- What a StatusUpdater returns. `lastUpdated` is never compared and is left out.
pub record GenericStatus : Type 0 where
  pub state : String
  pub message : Text
  pub ready : Bool
