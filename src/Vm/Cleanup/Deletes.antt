-- ===== src/Vm/Cleanup/Deletes.antt =====
-- What a cleanup deletes and launches: the safety of cleanupAnsibleBindingVM.
use ansible_supervisor_servi.Prelude.{
  ℕ, ◌≡◌, refl, ◌∙◌, Bool, true, false, not, ◌&&◌, Option, none, some, List, [], ◌∷◌, arith, inl,
  inr, ◌==◌, Option-cases, is_some, is_empty,
}
use ansible_supervisor_servi.Errors.{ok}
use ansible_supervisor_servi.Exec.{Exec}
use ansible_supervisor_servi.Exec.Same.{Same}
use ansible_supervisor_servi.Objects.{Object}
use ansible_supervisor_servi.Awx.{Client, Host}
use ansible_supervisor_servi.Engine.Patch.{label}
use ansible_supervisor_servi.Engine.Patch.Keeps.{patch_status_invariant, Result-cases}
use ansible_supervisor_servi.Vm.Model.{
  VmSpec, VmStatus, VmBody, VmCall, deleted, VmServices, Visit, apply_details, write_vm_details,
}
use ansible_supervisor_servi.Vm.Hook.{persist, persist_hook_state}
use ansible_supervisor_servi.Vm.Events.{event_target, record_event, report_hook_outcome}
use ansible_supervisor_servi.Vm.Cleanup.Inventory.{
  Claim, Found, retains, is_ours, restore_host_variable, unpin_host, delete_own_host, settle_host,
  report_end, finish_host, shared_prior,
}

-- The ids of the hosts that some calls deleted, the latest first.
abbrev pub deletions : List VmCall → List ℕ
deletions [] = []
deletions (deleted id r ∷ cs) = id ∷ deletions cs
deletions (_ ∷ cs) = deletions cs

module _ {W : Type 0} (svc : VmServices W) where
  abbrev gone : Visit W → List ℕ
  gone s = deletions s.calls

  abbrev Quiet : {A : Type 0} → Exec (Visit W) A → Visit W → Type 0
  Quiet m s = Same gone m s

  persist-Quiet :
      (u : Object VmBody) (prior : Option VmStatus) (s : Visit W)
      → Quiet (persist_hook_state svc u prior) s
  unfolding persist_hook_state persist write_vm_details
  persist-Quiet u prior s = ground (
    arith,
    patch_status_invariant (λ t. deletions t.calls ≡ deletions s.calls)
        (apply_details svc u s.status) (λ t h. unfold apply_details in h) (label u) s refl,
  )

  report-Quiet :
      (u : Object VmBody) (spec : VmSpec) (prior : Option VmStatus) (s : Visit W)
      → Quiet (report_hook_outcome svc u spec prior) s
  unfolding report_hook_outcome event_target record_event
  report-Quiet u spec prior s = ground (arith, persist-Quiet u prior s)

  unpin-Quiet :
      (c : Claim) (client : Client) (found : Found) (h : Host) (s : Visit W)
      → Quiet (unpin_host svc c client found h) s
  unfolding unpin_host restore_host_variable
  unpin-Quiet c client found h s = ground arith

  -- The pass goes on whatever becomes of the override.
  unpin-result :
      (c : Claim) (client : Client) (found : Found) (h : Host) (s : Visit W)
      → (unpin_host svc c client found h s).0 ≡ ok tt
  unfolding unpin_host restore_host_variable
  unpin-result c client found h s = ground arith

  abbrev pub may_delete : Claim → Option Host → Bool
  may_delete c none = false
  may_delete c (some h) = not (retains c.spec) && is_ours svc c h

  abbrev pub host_id : Option Host → ℕ
  host_id none = 0
  host_id (some h) = h.id

  abbrev pub deletes : Bool → ℕ → List ℕ → Bool
  deletes false id ids = is_empty ids
  deletes true id (i ∷ []) = i == id
  deletes true id _ = false

  delete-deletes :
      (c : Claim) (client : Client) (h : Host) (s : Visit W)
      → gone s ≡ []
      → deletes (may_delete c (some h)) h.id (gone (delete_own_host svc c client h s).1) ≡ true
  unfolding delete_own_host
  delete-deletes c client h s e =
      let got = svc.base.awx.delete_host client h.id s.world in
      ground (
        arith,
        e,
        persist-Quiet c.child c.prior
            (record s { world = got.1; calls = deleted h.id got.0 ∷ s.calls }),
      )

  settle-deletes :
      (c : Claim) (client : Client) (found : Found) (s : Visit W)
      → gone s ≡ []
      → deletes
          (may_delete c found.host)
          (host_id found.host)
          (gone (settle_host svc c client found s).1)
        ≡ true
  unfolding settle_host
  settle-deletes c client found s e = elim (Option-cases found.host) [
    | inl f ↦ ground (arith, e, f)
    | inr (h, f) ↦
        let freed = unpin_host svc c client found h s in
        let kept = unpin-Quiet c client found h s ∙ e in
        elim (Result-cases freed.0) [
          | inl (a, g) ↦ ground (arith, f, g, delete-deletes c client h freed.1 kept)
          | inr (x, g) ↦ ground (arith, f, g, unpin-result c client found h s)
        ]
  ]

  end-Quiet : (c : Claim) (s : Visit W) → Quiet (report_end svc c) s
  unfolding report_end
  end-Quiet c s =
      let shared = not (is_some c.spec.on_deleted) in
      ground (arith, report-Quiet c.child c.spec (shared_prior shared s.status c.prior) s)

  -- The last part of a cleanup, begun before anything was deleted, deletes only the inventory host
  -- that it found, and that only where it carries this binding's own marker and the cleanup policy
  -- is not Retain.
  pub finish-deletes_own :
      (c : Claim) (client : Client) (found : Found) (s : Visit W)
      → deletions s.calls ≡ []
      → deletes
          (may_delete c found.host)
          (host_id found.host)
          (deletions (finish_host svc c client found s).1.calls)
        ≡ true
  unfolding finish_host
  finish-deletes_own c client found s e =
      let settled = settle_host svc c client found s in
      elim (Result-cases settled.0) [
        | inl (a, f) ↦ ground (arith, f, settle-deletes c client found s e, end-Quiet c settled.1)
        | inr (x, f) ↦ ground (arith, f, settle-deletes c client found s e)
      ]
