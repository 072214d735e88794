-- ===== src/Binding/Children.antt =====
-- The children of a binding: deleteBindingChild, deleteBindingChildren and cleanupAnsibleBinding of
-- controller/ansiblebinding.go.
pub mod Gone
use ansible_supervisor_servi.Prelude.{
  ℕ, zero, suc, ◌+◌, ◌*◌, String, Bool, true, false, not, ◌&&◌, ◌||◌, Option, none, some, List, [],
  ◌∷◌, Text, lit, quoted, ◌==◌, ◌is◌, if◌then◌else◌,
}
use ansible_supervisor_servi.Errors.{Error, Result, ok, err, wrap, is_not_found}
use ansible_supervisor_servi.Exec.{
  Exec, Logged, pure, raise, lift, attempt, labelled, call, quiet, ◌>>=◌, ◌>>◌,
}
use ansible_supervisor_servi.Objects.{Object}
use ansible_supervisor_servi.Time.{second}
use ansible_supervisor_servi.Engine.Reconcile.{CleanupResult}
use ansible_supervisor_servi.Vm.Model.{VmSpec}
use ansible_supervisor_servi.Binding.Model.{BindingSpec, BindingBody, undecodable, decoded, Child}

-- The calls of a pass over a binding that change something, and the live lists that decide.
pub data BindingCall : Type 0 where
  listed : Result (List Child) → BindingCall
  patched : Child → VmSpec → Result (Unit {0}) → BindingCall
  removed : Child → Result (Unit {0}) → BindingCall

-- `live` lists the children of a binding at the API server, `cached` in the informer's store; both
-- decode every child, by name. `patch_spec` is guarded by the child's UID and version, `remove` by
-- its UID.
pub record ChildStore (W : Type 0) : Type 0 where
  pub live : String → String → W → Result (List Child) × W
  pub cached : String → String → W → Result (List Child) × W
  pub patch_spec : Child → VmSpec → W → Result (Unit {0}) × W
  pub remove : Child → W → Result (Unit {0}) × W

abbrev pub Sweep : Type 0 → Type 0
Sweep W = Logged W BindingCall

abbrev pub child_cleanup_poll_interval : ℕ
child_cleanup_poll_interval = 30 * second

-- A child whose spec does not say that it belongs to another binding.
abbrev names_other : Option VmSpec → String → Bool
names_other none name = false
names_other (some s) name = not (s.binding_name is name)

abbrev pub is_other : Child → String → Bool
is_other c name = names_other c.spec name

abbrev pub policy_of : Option BindingSpec → String
policy_of none = ""
policy_of (some s) = s.cleanup_policy

-- An error of a request for an object that is not there is none.
abbrev tolerate : Text → Result (Unit {0}) → Result Bool
tolerate t (ok _) = ok true
tolerate t (err e) = if is_not_found e then ok false else err (wrap t e)

module _ {W : Type 0} (store : ChildStore W) where
  -- updateBindingChildSpec
  unfoldable pub update_child_spec : Child → VmSpec → Exec (Sweep W) (Unit {0})
  update_child_spec c spec = call (patched c spec) (store.patch_spec c spec)

  -- The policy in force goes down into the child. False is that the child is not there any more.
  unfoldable pub copy_policy : Child → String → Exec (Sweep W) Bool
  copy_policy c policy = elim c.spec [
    | none ↦ pure true
    | some spec ↦
        if not (policy is "") && not (spec.cleanup_policy is policy)
        then (do
          r ← attempt (update_child_spec c (record spec { cleanup_policy = policy }))
          lift (
              tolerate
                (lit "updating cleanup policy on AnsibleBindingVM " ∷ quoted c.meta.name ∷ []) r))
        else pure true
  ]

  unfoldable pub remove_child : Child → Exec (Sweep W) (Unit {0})
  remove_child c = do
    r ← attempt (call (removed c) (store.remove c))
    lift (tolerate (lit "deleting AnsibleBindingVM " ∷ quoted c.meta.name ∷ []) r)
    pure tt

  -- deleteBindingChild
  unfoldable pub delete_binding_child : Child → String → Exec (Sweep W) (Unit {0})
  delete_binding_child c policy = do
    there ← copy_policy c policy
    if not there || c.meta.deleting then pure tt else remove_child c

  -- deleteBindingChildren: how many children are waited for.
  unfoldable pub delete_binding_children : String → String → List Child → Exec (Sweep W) ℕ
  delete_binding_children name policy [] = pure 0
  delete_binding_children name policy (c ∷ cs) =
      if is_other c name then delete_binding_children name policy cs else (do
        delete_binding_child c policy
        rest ← delete_binding_children name policy cs
        pure (suc rest))

  abbrev list_live : Object BindingBody → Exec (Sweep W) (List Child)
  list_live u = call listed (store.live u.namespace u.name)

  abbrev waiting_for : ℕ → Exec (Sweep W) CleanupResult → Exec (Sweep W) CleanupResult
  waiting_for zero next = next
  waiting_for (suc n) next =
      pure (record { is_done = false; requeue_after = child_cleanup_poll_interval })

  unfoldable pub confirm_gone : Object BindingBody → String → Exec (Sweep W) CleanupResult
  confirm_gone u policy = do
    fresh ← labelled (lit "confirming the AnsibleBindingVMs are gone" ∷ []) (list_live u)
    n ← delete_binding_children u.name policy fresh
    waiting_for n (pure (record { is_done = true; requeue_after = 0 }))

  unfoldable pub sweep : Object BindingBody → String → Exec (Sweep W) CleanupResult
  sweep u policy = do
    children ←
        labelled (lit "listing the AnsibleBindingVMs to clean up" ∷ [])
          (quiet (store.cached u.namespace u.name))
    n ← delete_binding_children u.name policy children
    waiting_for n (confirm_gone u policy)

  unfoldable pub cleanup_ansible_binding : Object BindingBody → Exec (Sweep W) CleanupResult
  cleanup_ansible_binding u = elim u.body [
    | undecodable e ↦ pure (record { is_done = true; requeue_after = 0 })
    | decoded spec st ↦ sweep u (policy_of spec)
  ]
