-- ===== src/Engine/Report.antt =====
-- updateGenericStatus (controller/engine.go): the status of a kind without one of its own.
use ansible_supervisor_servi.Prelude.{
  Bool, true, false, Option, none, some, ◌∷◌, [], lit, if◌then◌else◌,
}
use ansible_supervisor_servi.Errors.{Error, error_text}
use ansible_supervisor_servi.Objects.{Object, GenericStatus}

unfoldable pub update_generic_status : {B : Type 0} → Object B → Bool → Option Error → GenericStatus
update_generic_status u success (some e) = record {
  state = "Failed";
  message = lit "Reconciliation failed: " ∷ error_text e;
  ready = false;
}
update_generic_status u success none =
    if success
    then (record {
      state = "Ready";
      message = lit "Resource provisioned successfully." ∷ [];
      ready = true;
    })
    else (record {
      state = "Pending";
      message = lit "Provisioning not yet run." ∷ [];
      ready = false;
    })
