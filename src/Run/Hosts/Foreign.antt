-- ===== src/Run/Hosts/Foreign.antt =====
-- A host that another binding owns is never written, whatever a run's targets are.
use ansible_supervisor_servi.Prelude.{
  ℕ, String, ◌≡◌, refl, Bool, true, not, ◌&&◌, ◌==◌, ◌is◌, trim_space, starts_with, Option, none,
  some, List, [], ◌∷◌, arith, inl, inr, if◌then◌else◌,
}
use ansible_supervisor_servi.Errors.{ok}
use ansible_supervisor_servi.Exec.Same.{Same}
use ansible_supervisor_servi.Objects.{Object}
use ansible_supervisor_servi.Awx.{Host, Client, Vars}
use ansible_supervisor_servi.Engine.Patch.{label}
use ansible_supervisor_servi.Engine.Patch.Keeps.{patch_status_invariant, Result-cases}
use ansible_supervisor_servi.Run.Model.{
  RunBody, RunTarget, RunCall, host_patched, AwxContext, Services, Pass,
}
use ansible_supervisor_servi.Run.Hosts.{
  host_marker_prefix, run_host_owner_marker, update_host, create_host, upsert_host,
  resolve_run_host, host_vars,
}
use ansible_supervisor_servi.Run.Launch.{
  apply_details, write_run_details, upsert_target, upsert_targets, upsert_hosts,
}

-- The host carries the marker of another owner.
abbrev pub owned_elsewhere : String → Host → Bool
owned_elsewhere marker h =
    starts_with (trim_space h.description) host_marker_prefix
    && not (trim_space h.description is marker)

-- The writes to the host with this id, the latest first.
abbrev pub patches : ℕ → List RunCall → List RunCall
patches x [] = []
patches x (host_patched id r ∷ cs) =
    if id == x then host_patched id r ∷ patches x cs else patches x cs
patches x (_ ∷ cs) = patches x cs

module _ {W : Type 0} (svc : Services W) (x : ℕ) where
  -- In every answer of AWX, the host with this id has another owner than this marker's.
  abbrev pub Elsewhere : Client → String → Type 0
  Elsewhere client marker =
      (inventory : ℕ) (name : String) (w : W) (h : Host)
      → (svc.awx.find_host client inventory name w).0 ≡ ok (some h)
      → h.id ≡ x
      → owned_elsewhere marker h ≡ true

  abbrev written : Pass W → List RunCall
  written s = patches x s.calls

  update-Same :
      (client : Client) (h : Host) (name marker : String) (vars : Vars) (s : Pass W)
      → (h.id ≡ x → owned_elsewhere marker h ≡ true)
      → Same written (update_host svc client h name marker vars) s
  unfolding update_host
  update-Same client h name marker vars s other =
      elim (Result-cases (svc.awx.merge_variables h.variables vars)) [
        | inl (merged, e) ↦ ground (arith, e, other)
        | inr (y, e) ↦ ground (arith, e, other)
      ]

  upsert-Same :
      (client : Client) (inventory : ℕ) (name marker : String) (vars : Vars) (s : Pass W)
      → Elsewhere client marker
      → Same written (upsert_host svc client inventory name marker vars) s
  unfolding upsert_host create_host
  upsert-Same client inventory name marker vars s other =
      let got = svc.awx.find_host client inventory name s.world in
      elim (Result-cases got.0) [
        | inr (y, e) ↦ ground (arith, e)
        | inl (none, e) ↦ ground (arith, e)
        | inl (some h, e) ↦ ground (
          arith,
          e,
          update-Same client h name marker vars (record s { world = got.1 })
              (other inventory name s.world h e),
        )
      ]

  resolve-Same :
      (client : Client) (inventory : ℕ) (t : RunTarget) (marker : String) (s : Pass W)
      → Elsewhere client marker
      → Same written (resolve_run_host svc client inventory t marker) s
  unfolding resolve_run_host
  resolve-Same client inventory t marker s other =
      let got = svc.awx.find_host client inventory t.name s.world in
      elim (Result-cases got.0) [
        | inr (y, e) ↦ ground (arith, e)
        | inl (found, e) ↦ ground (
          arith,
          e,
          upsert-Same client inventory t.name marker (host_vars t.address t.overrides)
              (record s { world = got.1 }) other,
        )
      ]

  write-Same : (u : Object RunBody) (s : Pass W) → Same written (write_run_details svc u) s
  unfolding write_run_details
  write-Same u s =
      patch_status_invariant (λ t. written t ≡ written s) (apply_details svc u s.status)
        (λ t h. unfold apply_details in h) (label u) s refl

  target-Same :
      (u : Object RunBody) (awx : AwxContext) (inventory : ℕ) (t : RunTarget) (s : Pass W)
      → Elsewhere awx.client (run_host_owner_marker svc.supervisor_id u.namespace u.name)
      → Same written (upsert_target svc u awx inventory t) s
  unfolding upsert_target
  target-Same u awx inventory t s other =
      let marker = run_host_owner_marker svc.supervisor_id u.namespace u.name in
      let resolved = resolve_run_host svc awx.client inventory t marker s in
      elim (Result-cases resolved.0) [
        | inl (found, e) ↦ ground (arith, e, resolve-Same awx.client inventory t marker s other)
        | inr (y, e) ↦
            ground (
              arith,
              e,
              resolve-Same awx.client inventory t marker s other,
              write-Same u resolved.1,
            )
      ]

  targets-Same :
      (u : Object RunBody) (awx : AwxContext) (inventory : ℕ) (ts : List RunTarget) (s : Pass W)
      → Elsewhere awx.client (run_host_owner_marker svc.supervisor_id u.namespace u.name)
      → Same written (upsert_targets svc u awx inventory ts) s
  unfolding upsert_targets
  targets-Same u awx inventory [] s other = refl
  targets-Same u awx inventory (t ∷ ts) s other =
      let done = upsert_target svc u awx inventory t s in
      elim (Result-cases done.0) [
        | inl (a, e) ↦ ground (
          arith,
          e,
          target-Same u awx inventory t s other,
          targets-Same u awx inventory ts done.1 other,
        )
        | inr (y, e) ↦ ground (arith, e, target-Same u awx inventory t s other)
      ]

  -- The host with the id `x` carries the marker of another owner in every answer of AWX. Then the host
  -- part of a launch, over all targets of the run and whatever else AWX answers, sends no write to it,
  -- also where it stops with an error.
  pub foreign_host_unwritten :
      (u : Object RunBody) (awx : AwxContext) (inventory : Option ℕ) (ts : List RunTarget)
      (s : Pass W)
      → Elsewhere awx.client (run_host_owner_marker svc.supervisor_id u.namespace u.name)
      → patches x (upsert_hosts svc u awx inventory ts s).1.calls ≡ patches x s.calls
  unfolding upsert_hosts
  foreign_host_unwritten u awx none ts s other = refl
  foreign_host_unwritten u awx (some inventory) ts s other = targets-Same u awx inventory ts s other
