-- ===== src/Binding/Apply/Exclusive.antt =====
-- Which children a pass over a binding touches.
use ansible_supervisor_servi.Prelude.{
  ℕ, ◌≡◌, refl, String, Bool, true, false, not, ◌&&◌, Option, none, some, List, [], ◌∷◌, ◌++◌, map,
  arith, lit, inl, inr, if◌then◌else◌,
}
use ansible_supervisor_servi.Errors.{Error, Result, ok, err, wrap, errorf}
use ansible_supervisor_servi.Exec.{Exec, raise, pure, continue, ◌>>=◌}
use ansible_supervisor_servi.Objects.{Object}
use ansible_supervisor_servi.Time.{Stamp}
use ansible_supervisor_servi.Engine.Reconcile.{Provisioned}
use ansible_supervisor_servi.Engine.Patch.{label}
use ansible_supervisor_servi.Engine.Patch.Keeps.{Result-cases, patch_status_invariant}
use ansible_supervisor_servi.Vm.Model.{VmSpec, VirtualMachine}
use ansible_supervisor_servi.Binding.Model.{
  BindingSpec, BindingStatus, BindingBody, undecodable, decoded, Child, Summary, claim_held_by,
  child_spec_for,
}
use ansible_supervisor_servi.Vm.Names.{child_name}
use ansible_supervisor_servi.Binding.Writes.{issue_child_writes}
use ansible_supervisor_servi.Binding.Writes.Keeps.{AllKeep, append-AllKeep, issue-keeps}
use ansible_supervisor_servi.Binding.Children.{
  BindingCall, listed, patched, removed, update_child_spec, copy_policy, remove_child,
  delete_binding_child,
}
use ansible_supervisor_servi.Binding.Claims.{
  Decision, make, refresh, leave, give_way, decide_held, decide_existing, decide_vm, child_by_vm,
  or_cached, is_current, obsolete_children,
}
use ansible_supervisor_servi.Binding.Apply.{
  BindingServices, Sync, create_child, create_write, update_write, plan_one, plan_writes, deletion,
  issue_both, sync_children, scan_orphans, tell_conflict, keep_details, requeue_delay, ask,
  first_of, report_pass, summary_now, conclude, check_binding, check_host_name, apply_spec,
  apply_ansible_binding,
}

-- Whether every child that some calls patched or deleted is one that the binding holds.
abbrev pub own_only : Object BindingBody → List BindingCall → Bool
own_only ac [] = true
own_only ac (listed r ∷ cs) = own_only ac cs
own_only ac (patched c spec r ∷ cs) = claim_held_by c ac && own_only ac cs
own_only ac (removed c r ∷ cs) = claim_held_by c ac && own_only ac cs

-- A decision that touches no child of another binding.
abbrev is_own : Object BindingBody → Decision → Bool
is_own ac (refresh c) = claim_held_by c ac
is_own ac _ = true

existing-own :
    (ac : Object BindingBody) (uid : String) (desired : VmSpec) (c : Option Child)
    → is_own ac (decide_existing ac uid desired c) ≡ true
unfolding decide_existing decide_held
existing-own ac uid desired none = refl
existing-own ac uid desired (some c) = ground arith

module _ {W : Type 0} (svc : BindingServices W) (ac : Object BindingBody) where
  abbrev own : Sync W → Bool
  own s = own_only ac s.calls

  abbrev Keeps : {A : Type 0} → Exec (Sync W) A → Type 0
  Keeps m = (s : Sync W) → own s ≡ true → own (m s).1 ≡ true

  create-Keeps : (vm : VirtualMachine) (desired : VmSpec) → Keeps (create_write svc ac vm desired)
  unfolding create_write create_child
  create-Keeps vm desired s h = ground (arith, h)

  update-Keeps :
      (vm : VirtualMachine) (desired : VmSpec) (c : Child)
      → claim_held_by c ac ≡ true
      → Keeps (update_write svc vm desired c)
  unfolding update_child_spec
  update-Keeps vm desired c e s h = ground (arith, e, h)

  deletion-Keeps :
      (spec : BindingSpec) (c : Child) → claim_held_by c ac ≡ true → Keeps (deletion svc spec c)
  unfolding delete_binding_child copy_policy remove_child update_child_spec
  deletion-Keeps spec c e s h = ground (arith, e, h)

  deletions-AllKeep :
      (spec : BindingSpec) (vms : List VirtualMachine) (cs : List Child)
      → AllKeep own (map (deletion svc spec) (obsolete_children ac vms cs))
  unfolding obsolete_children
  deletions-AllKeep spec vms [] = tt
  deletions-AllKeep spec vms (c ∷ cs) =
      pick (claim_held_by c ac && not (is_current vms c)) (λ e. ground (arith, e))
        (deletions-AllKeep spec vms cs)
    where
      pick :
          (b : Bool)
          → (b ≡ true → claim_held_by c ac ≡ true)
          → AllKeep own (map (deletion svc spec) (obsolete_children ac vms cs))
          → AllKeep own (
              map
                (deletion svc spec)
                (if b then c ∷ obsolete_children ac vms cs else obsolete_children ac vms cs))
      pick true e k = (deletion-Keeps spec c (e refl), k)
      pick false e k = k

  abbrev Planned : Result (List (Exec (Sync W) (Unit {0}))) × Sync W → Type 0
  Planned (ok ws, t) = AllKeep own ws × (own t ≡ true)
  Planned (err e, t) = own t ≡ true

  one-Planned :
      (vm : VirtualMachine) (desired : VmSpec) (d : Decision)
      → is_own ac d ≡ true
      → (s : Sync W) → own s ≡ true
      → Planned (plan_one svc ac vm desired d s)
  unfolding plan_one
  one-Planned vm desired make e s h = ((create-Keeps vm desired, tt), h)
  one-Planned vm desired (refresh c) e s h = ((update-Keeps vm desired c e, tt), h)
  one-Planned vm desired leave e s h = (tt, h)
  one-Planned vm desired (give_way owner) e s h = (tt, h)

  both-Planned :
      (ws : List (Exec (Sync W) (Unit {0})))
      → AllKeep own ws
      → (r : Result (List (Exec (Sync W) (Unit {0}))) × Sync W) → Planned r
      → Planned (continue r (λ vs. pure (ws ++ vs)))
  both-Planned ws k (ok vs, t) h = (append-AllKeep own ws vs k h.0, h.1)
  both-Planned ws k (err e, t) h = h

  join-Planned :
      (rest : Exec (Sync W) (List (Exec (Sync W) (Unit {0}))))
      → ((t : Sync W) → own t ≡ true → Planned (rest t))
      → (r : Result (List (Exec (Sync W) (Unit {0}))) × Sync W) → Planned r
      → Planned (continue r (λ ws. rest >>= λ vs. pure (ws ++ vs)))
  join-Planned rest f (ok ws, t) k = both-Planned ws k.0 (rest t) (f t k.1)
  join-Planned rest f (err e, t) k = k

  writes-Planned :
      (spec : BindingSpec) (children : List Child) (vms : List VirtualMachine) (s : Sync W)
      → own s ≡ true
      → Planned (plan_writes svc ac spec children vms s)
  unfolding plan_writes decide_vm
  writes-Planned spec children [] s h = (tt, h)
  writes-Planned spec children (vm ∷ vms) s h =
      let desired = child_spec_for ac spec vm.name ac.reconcile_requested in
      let cached = svc.cached_child ac.namespace (child_name svc.sha256_hex vm.name) s.world in
      let decision = decide_vm ac spec ac.reconcile_requested children cached vm in
      join-Planned (plan_writes svc ac spec children vms) (writes-Planned spec children vms)
        (plan_one svc ac vm desired decision s)
        (one-Planned vm desired decision
          (existing-own ac vm.uid desired (or_cached (child_by_vm children vm.name) cached)) s h)

  sync-own_only :
      (spec : BindingSpec) (vms : List VirtualMachine) (children : List Child) (s : Sync W)
      → own_only ac s.calls ≡ true
      → own_only ac (sync_children svc ac spec vms children s).1.calls ≡ true
  unfolding sync_children issue_both
  sync-own_only spec vms children s h =
      issued (plan_writes svc ac spec children vms s) (writes-Planned spec children vms s h)
    where
      issued :
          (r : Result (List (Exec (Sync W) (Unit {0}))) × Sync W)
          → Planned r
          → own (continue r (issue_both svc ac spec vms children)).1 ≡ true
      issued (ok ws, t) k =
          issue-keeps own ws k.0
            (issue_child_writes (map (deletion svc spec) (obsolete_children ac vms children)) t).1
            (issue-keeps own (map (deletion svc spec) (obsolete_children ac vms children))
              (deletions-AllKeep spec vms children) t k.1)
      issued (err e, t) k = k

  scan-calls :
      (spec : BindingSpec) (prior : Option BindingStatus) (vms : List VirtualMachine)
      (children : List Child) (came : Option Error × ℕ) (s : Sync W)
      → (scan_orphans svc ac spec prior vms children came s).1.calls ≡ s.calls
  unfolding scan_orphans
  scan-calls spec prior vms children came s = ground arith

  told-calls :
      (prior : Option BindingStatus) (summary : Summary) (s : Sync W)
      → (tell_conflict svc ac prior summary s).1.calls ≡ s.calls
  unfolding tell_conflict
  told-calls prior summary s = ground arith

  details-calls :
      (prior : Option BindingStatus) (next : BindingStatus) (summary : Summary) (s : Sync W)
      → (keep_details svc ac prior next summary s).1.calls ≡ s.calls
  unfolding keep_details
  details-calls prior next summary s = ground (
    arith,
    patch_status_invariant (λ (t : Sync W). t.calls ≡ s.calls)
        (ask (svc.apply_binding_status ac next)) (λ t h. h) (label ac) s refl,
  )

  requeue-calls :
      (summary : Summary) (deferred : ℕ) (failed : Option Error) (s : Sync W)
      → (requeue_delay svc summary deferred failed s).1.calls ≡ s.calls
  unfolding requeue_delay
  requeue-calls summary deferred failed s = ground arith

  report-calls :
      (spec : BindingSpec) (prior : Option BindingStatus) (summary : Summary) (deferred : ℕ)
      (scanned : Option Error × Stamp) (s : Sync W)
      → (report_pass svc ac spec prior summary deferred scanned s).1.calls ≡ s.calls
  unfolding report_pass
  report-calls spec prior summary deferred scanned s =
      let next : BindingStatus = record {
        observed_generation = ac.generation;
        last_applied_trigger = ac.reconcile_requested;
        summary = some summary;
        last_orphan_scan = scanned.1;
      } in
      let told = tell_conflict svc ac prior summary s in
      elim (Result-cases told.0) [
        | inr (x, e) ↦ ground (arith, e, told-calls prior summary s)
        | inl (a, e) ↦
            let kept = keep_details svc ac prior next summary told.1 in
            elim (Result-cases kept.0) [
              | inr (x, f) ↦
                  ground (
                    arith,
                    e,
                    f,
                    told-calls prior summary s,
                    details-calls prior next summary told.1,
                  )
              | inl (w, f) ↦ ground (
                arith,
                e,
                f,
                told-calls prior summary s,
                details-calls prior next summary told.1,
                requeue-calls summary deferred (first_of scanned.0 w) kept.1,
              )
            ]
      ]

  conclude-calls :
      (spec : BindingSpec) (prior : Option BindingStatus) (vms : List VirtualMachine)
      (children : List Child) (came : Option Error × ℕ) (s : Sync W)
      → (conclude svc ac spec prior vms children came s).1.calls ≡ s.calls
  unfolding conclude
  conclude-calls spec prior vms children came s =
      let scanned = scan_orphans svc ac spec prior vms children came s in
      elim (Result-cases scanned.0) [
        | inr (x, e) ↦ ground (arith, e, scan-calls spec prior vms children came s)
        | inl (a, e) ↦ ground (
          arith,
          e,
          scan-calls spec prior vms children came s,
          report-calls spec prior (summary_now svc ac vms children s) came.1 a scanned.1,
        )
      ]

  spec-own_only :
      (spec : BindingSpec) (prior : Option BindingStatus) (s : Sync W)
      → own s ≡ true
      → own (apply_spec svc ac spec prior s).1 ≡ true
  unfolding apply_spec
  spec-own_only spec prior s h =
      let got = svc.list_vms ac.namespace spec s.world in
      elim (Result-cases (check_binding spec)) [
        | inr (x, e) ↦ ground (arith, e, h)
        | inl (a, e) ↦ elim (Result-cases got.0) [
          | inr (x, f) ↦ ground (arith, e, f, h)
          | inl (vms, f) ↦
              let kids = svc.store.cached ac.namespace ac.name got.1 in
              let read = record s { world = kids.1 } in
              elim (Result-cases (check_host_name spec vms)) [
                | inr (x, g) ↦ ground (arith, e, f, g, h)
                | inl (b, g) ↦ elim (Result-cases kids.0) [
                  | inr (x, k) ↦ ground (arith, e, f, g, k, h)
                  | inl (cs, k) ↦
                      let synced = sync_children svc ac spec vms cs read in
                      elim (Result-cases synced.0) [
                        | inr (x, l) ↦
                            ground (arith, e, f, g, k, l, sync-own_only spec vms cs read h)
                        | inl (came, l) ↦ ground (
                          arith,
                          e,
                          f,
                          g,
                          k,
                          l,
                          sync-own_only spec vms cs read h,
                          conclude-calls spec prior vms cs came synced.1,
                        )
                      ]
                ]
              ]
        ]
      ]

  -- A pass over a binding, whatever VMs it selects and whatever the cache shows, patches and
  -- deletes only children that the binding itself holds, by its name and its UID.
  pub apply-own_only :
      (s : Sync W)
      → own_only ac s.calls ≡ true
      → own_only ac (apply_ansible_binding svc ac s).1.calls ≡ true
  unfolding apply_ansible_binding
  apply-own_only s h = by_body ac.body
    where
      by_body :
          (b : BindingBody)
          → own
              ((elim b as (λ _. Exec (Sync W) (Provisioned BindingBody)) [
                | undecodable e ↦ raise (wrap (lit "decoding AnsibleBinding" ∷ []) e)
                | decoded none prior ↦ raise (errorf (lit "spec is required" ∷ []))
                | decoded (some spec) prior ↦ apply_spec svc ac spec prior
              ])
                s).1
            ≡ true
      by_body (undecodable e) = h
      by_body (decoded none prior) = h
      by_body (decoded (some spec) prior) = spec-own_only spec prior s h
