-- ===== src/Vm/Hook/Once.antt =====
-- What one step of a deprovision hook launches.
use ansible_supervisor_servi.Prelude.{
  ◌≡◌, refl, Bool, true, false, ◌&&◌, Option, none, some, List, [], ◌∷◌, String, arith, inl, inr,
  ◌is◌, Option-cases, eq_iff,
}
use ansible_supervisor_servi.Errors.{ok}
use ansible_supervisor_servi.Exec.{Exec}
use ansible_supervisor_servi.Exec.Same.{Same}
use ansible_supervisor_servi.Objects.{Object}
use ansible_supervisor_servi.Awx.{Template, Launch}
use ansible_supervisor_servi.Engine.Patch.{label}
use ansible_supervisor_servi.Engine.Patch.Keeps.{
  patch_status_invariant, patch_status-settles, is_final, Result-cases,
}
use ansible_supervisor_servi.Vm.Model.{
  DeprovisionStatus, VmStatus, VmBody, VmCall, launched, written, VmServices, Visit, apply_details,
  write_vm_details, clock, phase_launching,
}
use ansible_supervisor_servi.Vm.Hook.{persist, waiting, wait_for_hook, hook_requeue, hook_record}
use ansible_supervisor_servi.Vm.Same.{details_current, same_details, same_deprovision}
use ansible_supervisor_servi.Vm.Apply.{post_launch}
use ansible_supervisor_servi.Vm.Hook.Launch.{
  HookPass, follow_launch, submit_deprovision_hook, tracked, vars_note, accepted, is_workflow,
  hook_vars,
}

abbrev pub is_launching : Option DeprovisionStatus → Bool
is_launching none = false
is_launching (some d) = d.phase is phase_launching

-- Whether the latest call wrote the phase Launching, and was accepted or answered that the child is
-- not there any more, which patchStatus takes for success.
abbrev pub announced : List VmCall → Bool
announced (written st r ∷ cs) = is_final r && is_launching st.deprovision
announced _ = false

abbrev push : Bool → Launch → Option (List Launch) → Option (List Launch)
push true l (some ls) = some (l ∷ ls)
push _ l _ = none

-- The launches among some calls, the latest first: none where one of them was not announced.
abbrev pub announced_launches : List VmCall → Option (List Launch)
announced_launches [] = some []
announced_launches (launched wf id limit vars l ∷ cs) =
    push (announced cs) l (announced_launches cs)
announced_launches (_ ∷ cs) = announced_launches cs

module _ {W : Type 0} (svc : VmServices W) where
  abbrev pub tally : Visit W → Option (List Launch)
  tally s = announced_launches s.calls

  abbrev pub Quiet : {A : Type 0} → Exec (Visit W) A → Visit W → Type 0
  Quiet m s = Same tally m s

  write-Quiet : (u : Object VmBody) (s : Visit W) → Quiet (write_vm_details svc u) s
  unfolding write_vm_details
  write-Quiet u s =
      patch_status_invariant (λ t. announced_launches t.calls ≡ announced_launches s.calls)
        (apply_details svc u s.status) (λ t h. unfold apply_details in h) (label u) s refl

  pub persist-Quiet :
      (u : Object VmBody) (prior : Option VmStatus) (s : Visit W) → Quiet (persist svc u prior) s
  unfolding persist
  persist-Quiet u prior s = ground (arith, write-Quiet u s)

  write-announces :
      (u : Object VmBody) (s : Visit W)
      → is_launching s.status.deprovision ≡ true
      → (write_vm_details svc u s).0 ≡ ok tt
      → announced (write_vm_details svc u s).1.calls ≡ true
  unfolding write_vm_details
  write-announces u s l h =
      patch_status-settles (λ t. announced t.calls) (apply_details svc u s.status)
        (λ t f. unfold apply_details in ground (arith, f, l)) (label u) s h

  wait-Quiet : (s : Visit W) → Quiet (wait_for_hook svc) s
  unfolding wait_for_hook hook_requeue clock
  wait-Quiet s = ground arith

  pub waiting-Quiet :
      (u : Object VmBody) (prior : Option VmStatus) (phase message : String) (s : Visit W)
      → Quiet (waiting svc u prior phase message) s
  unfolding waiting
  waiting-Quiet u prior phase message s =
      let begun = record s {
        status = record s.status {
          deprovision =
              some (record (hook_record s.status.deprovision) { phase = phase; message = message });
        };
      } in
      elim (Result-cases (persist svc u prior begun).0) [
        | inl (a, e) ↦
            ground (arith, e, persist-Quiet u prior begun, wait-Quiet (persist svc u prior begun).1)
        | inr (x, e) ↦ ground (arith, e, persist-Quiet u prior begun)
      ]

abbrev pub prior_launching : Option VmStatus → Bool
prior_launching none = false
prior_launching (some st) = is_launching st.deprovision

current-launching :
    (prior : Option VmStatus) (st : VmStatus)
    → details_current prior st ≡ true
    → prior_launching prior ≡ is_launching st.deprovision
unfolding details_current same_details same_deprovision
current-launching none st h = ground (arith, h)
current-launching (some prior) st h = elim (Option-cases prior.deprovision) [
  | inl e ↦ elim (Option-cases st.deprovision) [
    | inl f ↦ ground (arith, e, f)
    | inr (d, f) ↦ ground (arith, h, e, f)
  ]
  | inr (c, e) ↦ elim (Option-cases st.deprovision) [
    | inl f ↦ ground (arith, h, e, f)
    | inr (d, f) ↦ ground (arith, h, e, f, eq_iff c.phase d.phase)
  ]
]

-- At most one launch, and announced.
abbrev pub at_most_one : Option (List Launch) → Bool
at_most_one none = false
at_most_one (some []) = true
at_most_one (some (l ∷ [])) = true
at_most_one (some (l ∷ (k ∷ ls))) = false

module _ {W : Type 0} (svc : VmServices W) where
  persist-announces :
      (u : Object VmBody) (prior : Option VmStatus) (s : Visit W)
      → prior_launching prior ≡ false
      → is_launching s.status.deprovision ≡ true
      → (persist svc u prior s).0 ≡ ok tt
      → announced (persist svc u prior s).1.calls ≡ true
  unfolding persist
  persist-announces u prior s n l h =
      ground (arith, n, l, h, write-announces svc u s, current-launching prior s.status)

  follow-Quiet : (p : HookPass) (l : Launch) (s : Visit W) → Quiet svc (follow_launch svc p l) s
  unfolding follow_launch
  follow-Quiet p l s =
      let begun = record s {
        status = record s.status {
          deprovision = some (tracked svc p l (hook_record s.status.deprovision));
        };
      } in
      elim (Result-cases (persist svc p.child p.prior begun).0) [
        | inl (a, e) ↦ ground (
          arith,
          e,
          persist-Quiet svc p.child p.prior begun,
          wait-Quiet svc (persist svc p.child p.prior begun).1,
        )
        | inr (x, e) ↦ ground (arith, e, persist-Quiet svc p.child p.prior begun)
      ]

  pub submit-announced :
      (p : HookPass) (tmpl : Template) (limit : String) (s : Visit W)
      → prior_launching p.prior ≡ false
      → tally svc s ≡ some []
      → at_most_one (tally svc (submit_deprovision_hook svc p tmpl limit s).1) ≡ true
  unfolding submit_deprovision_hook post_launch
  submit-announced p tmpl limit s n e =
      let begun = record s {
        status = record s.status {
          deprovision = some (record (hook_record s.status.deprovision) {
            phase = phase_launching;
            message = vars_note svc tmpl p;
            job_type = p.hook.template.type;
            endpoint = p.endpoint;
          });
        };
      } in
      let kept = persist svc p.child p.prior begun in
      let vars = accepted tmpl (hook_vars p s.status.observed_ip) in
      let sent = svc.base.awx.launch p.client (is_workflow p) tmpl.id limit vars kept.1.world in
      elim (Result-cases kept.0) [
        | inl (a, f) ↦ ground (
          arith,
          f,
          n,
          e,
          persist-Quiet svc p.child p.prior begun,
          persist-announces p.child p.prior begun,
          follow-Quiet p sent.0 (record kept.1 {
            world = sent.1;
            calls = launched (is_workflow p) tmpl.id limit vars sent.0 ∷ kept.1.calls;
          }),
        )
        | inr (x, f) ↦ ground (arith, f, e, persist-Quiet svc p.child p.prior begun)
      ]
