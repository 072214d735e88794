-- ===== src/Binding/Children/Gone.antt =====
-- When cleanupAnsibleBinding lets a binding go.
use ansible_supervisor_servi.Prelude.{
  zero, suc, ◌≡◌, refl, String, Bool, true, false, Option, List, [], ◌∷◌, arith, all, inl, inr,
  Bool-cases,
}
use ansible_supervisor_servi.Errors.{Result, ok, err}
use ansible_supervisor_servi.Objects.{Object}
use ansible_supervisor_servi.Engine.Patch.Keeps.{Result-cases}
use ansible_supervisor_servi.Engine.Reconcile.{CleanupResult}
use ansible_supervisor_servi.Binding.Model.{BindingSpec, BindingStatus, BindingBody, decoded, Child}
use ansible_supervisor_servi.Binding.Children.{
  BindingCall, listed, ChildStore, Sweep, policy_of, is_other, delete_binding_child,
  delete_binding_children, confirm_gone, sweep, cleanup_ansible_binding,
}

-- Whether the latest call is a live list without a child of the binding.
abbrev pub confirmed : String → List BindingCall → Bool
confirmed name (listed (ok cs) ∷ calls) = all (λ (c : Child). is_other c name) cs
confirmed name _ = false

abbrev pub lets_go : Result CleanupResult → Bool
lets_go (ok r) = r.is_done
lets_go (err e) = false

module _ {W : Type 0} (store : ChildStore W) where
  nothing-deleted :
      (name policy : String) (cs : List Child) (s : Sweep W)
      → (delete_binding_children store name policy cs s).0 ≡ ok 0
      → (all (λ (c : Child). is_other c name) cs ≡ true)
        × ((delete_binding_children store name policy cs s).1.calls ≡ s.calls)
  unfolding delete_binding_children
  nothing-deleted name policy [] s h = (refl, refl)
  nothing-deleted name policy (c ∷ cs) s h = elim (Bool-cases (is_other c name)) [
    | inl e ↦ ground (arith, e, h, nothing-deleted name policy cs s)
    | inr e ↦
        let gone = delete_binding_child store c policy s in
        elim (Result-cases gone.0) [
          | inr (x, f) ↦ ground (arith, e, f, h)
          | inl (a, f) ↦
              elim (Result-cases (delete_binding_children store name policy cs gone.1).0) [
                | inl (n, g) ↦ ground (arith, e, f, g, h)
                | inr (x, g) ↦ ground (arith, e, f, g, h)
              ]
        ]
  ]

  confirm-confirmed :
      (u : Object BindingBody) (policy : String) (s : Sweep W)
      → lets_go (confirm_gone store u policy s).0 ≡ true
      → confirmed u.name (confirm_gone store u policy s).1.calls ≡ true
  unfolding confirm_gone
  confirm-confirmed u policy s h =
      let got = store.live u.namespace u.name s.world in
      let read = record s { world = got.1; calls = listed got.0 ∷ s.calls } in
      elim (Result-cases got.0) [
        | inr (x, e) ↦ ground (arith, e, h)
        | inl (cs, e) ↦
            elim (Result-cases (delete_binding_children store u.name policy cs read).0) [
              | inr (x, f) ↦ ground (arith, e, f, h)
              | inl (zero, f) ↦ ground (arith, e, f, h, nothing-deleted u.name policy cs read f)
              | inl (suc n, f) ↦ ground (arith, e, f, h)
            ]
      ]

  sweep-confirmed :
      (u : Object BindingBody) (policy : String) (s : Sweep W)
      → lets_go (sweep store u policy s).0 ≡ true
      → confirmed u.name (sweep store u policy s).1.calls ≡ true
  unfolding sweep
  sweep-confirmed u policy s h =
      let got = store.cached u.namespace u.name s.world in
      let read = record s { world = got.1 } in
      elim (Result-cases got.0) [
        | inr (x, e) ↦ ground (arith, e, h)
        | inl (cs, e) ↦
            let swept = delete_binding_children store u.name policy cs read in
            elim (Result-cases swept.0) [
              | inr (x, f) ↦ ground (arith, e, f, h)
              | inl (zero, f) ↦ ground (arith, e, f, h, confirm-confirmed u policy swept.1)
              | inl (suc n, f) ↦ ground (arith, e, f, h)
            ]
      ]

  -- The cleanup of a binding that decodes is done only where its last call was a list from the API
  -- server in which every child names another binding.
  pub cleanup-confirmed :
      (u : Object BindingBody) (spec : Option BindingSpec) (st : Option BindingStatus) (s : Sweep W)
      → u.body ≡ decoded spec st
      → lets_go (cleanup_ansible_binding store u s).0 ≡ true
      → confirmed u.name (cleanup_ansible_binding store u s).1.calls ≡ true
  unfolding cleanup_ansible_binding
  cleanup-confirmed u spec st s b h = ground (arith, b, h, sweep-confirmed u (policy_of spec) s)
