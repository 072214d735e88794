-- ===== src/Binding/Orphans/Unclaimed.antt =====
-- Which hosts the reaper of orphans deletes.
use ansible_supervisor_servi.Prelude.{
  ℕ, ◌≡◌, refl, String, Bool, true, not, ◌&&◌, Option, none, some, List, [], ◌∷◌, arith, inl, inr,
  Bool-cases,
}
use ansible_supervisor_servi.Errors.{ok, err}
use ansible_supervisor_servi.Objects.{Object}
use ansible_supervisor_servi.Awx.{Connection, Client, Host}
use ansible_supervisor_servi.Engine.Patch.Keeps.{Result-cases}
use ansible_supervisor_servi.Vm.Poll.{host_owner_marker}
use ansible_supervisor_servi.Binding.Model.{BindingSpec, BindingBody, Child}
use ansible_supervisor_servi.Binding.Summary.{has_name}
use ansible_supervisor_servi.Binding.Orphans.{
  ReapCall, children_read, reaped, ReapServices, Reaping, claimed_host_names, inventories_of,
  find_candidates, delete_unclaimed, reap_candidates, reap_at,
}

-- The children that the latest list shows.
abbrev pub latest_children : List ReapCall → Option (List Child)
latest_children [] = none
latest_children (children_read (ok cs) ∷ calls) = some cs
latest_children (children_read (err e) ∷ calls) = none
latest_children (reaped h r ∷ calls) = latest_children calls

abbrev pub accounts_for : BindingSpec → String → List String → Option (List Child) → String → Bool
accounts_for spec prefix matched none name = true
accounts_for spec prefix matched (some cs) name =
    has_name name (claimed_host_names spec prefix cs matched)

-- Every host among the deleted ones is one that the children do not account for, as the latest list
-- before its deletion shows them.
abbrev pub orphans_only : BindingSpec → String → List String → List ReapCall → Bool
orphans_only spec prefix matched [] = true
orphans_only spec prefix matched (children_read r ∷ calls) = orphans_only spec prefix matched calls
orphans_only spec prefix matched (reaped h r ∷ calls) =
    not (accounts_for spec prefix matched (latest_children calls) h.name)
    && orphans_only spec prefix matched calls

module _ {W : Type 0} (svc : ReapServices W) where
  find-calls :
      (client : Client) (marker : String) (names : List String) (js : List ℕ) (s : Reaping W)
      → (find_candidates svc client marker names js s).1.calls ≡ s.calls
  unfolding find_candidates
  find-calls client marker names [] s = refl
  find-calls client marker names (i ∷ js) s =
      let got = svc.list_owned client i marker s.world in
      let next = record s { world = got.1 } in
      elim (Result-cases got.0) [
        | inr (x, e) ↦ ground (arith, e)
        | inl (hosts, e) ↦ elim (Result-cases (find_candidates svc client marker names js next).0) [
          | inl (rest, f) ↦ ground (arith, e, f, find-calls client marker names js next)
          | inr (x, f) ↦ ground (arith, e, f, find-calls client marker names js next)
        ]
      ]

  delete-orphans :
      (spec : BindingSpec) (prefix : String) (matched : List String) (fresh : List Child)
      (client : Client) (hs : List Host) (s : Reaping W)
      → latest_children s.calls ≡ some fresh
      → orphans_only spec prefix matched s.calls ≡ true
      → orphans_only spec prefix matched
          (delete_unclaimed svc client (claimed_host_names spec prefix fresh matched) hs s).1.calls
        ≡ true
  unfolding delete_unclaimed
  delete-orphans spec prefix matched fresh client [] s l h = h
  delete-orphans spec prefix matched fresh client (g ∷ gs) s l h =
      let names = claimed_host_names spec prefix fresh matched in
      let got = svc.delete_host client g.id s.world in
      let next = record s { world = got.1; calls = reaped g got.0 ∷ s.calls } in
      elim (Bool-cases (has_name g.name names)) [
        | inl e ↦ ground (arith, e, delete-orphans spec prefix matched fresh client gs s l h)
        | inr e ↦ ground (arith, e, l, h, delete-orphans spec prefix matched fresh client gs next)
      ]

  reap-orphans :
      (ac : Object BindingBody) (spec : BindingSpec) (prefix : String) (client : Client)
      (matched : List String) (hs : List Host) (s : Reaping W)
      → orphans_only spec prefix matched s.calls ≡ true
      → orphans_only spec prefix matched
          (reap_candidates svc ac spec prefix client matched hs s).1.calls
        ≡ true
  unfolding reap_candidates
  reap-orphans ac spec prefix client matched [] s h = h
  reap-orphans ac spec prefix client matched (g ∷ gs) s h =
      let got = svc.list_children ac.namespace ac.name s.world in
      let next = record s { world = got.1; calls = children_read got.0 ∷ s.calls } in
      elim (Result-cases got.0) [
        | inr (x, e) ↦ ground (arith, e, h)
        | inl (fresh, e) ↦
            ground (arith, e, h, delete-orphans spec prefix matched fresh client (g ∷ gs) next)
      ]

  -- With the binding's AWXConnection, and whatever the cached children say, the reaper deletes only
  -- hosts that neither a selected VM nor a child accounts for, as a list of the children from the
  -- API server shows them right before.
  pub reap_at-orphans :
      (ac : Object BindingBody) (spec : BindingSpec) (children : List Child) (matched : List String)
      (conn : Connection) (s : Reaping W)
      → orphans_only spec conn.spec.prefix matched s.calls ≡ true
      → orphans_only spec conn.spec.prefix matched
          (reap_at svc ac spec children matched conn s).1.calls
        ≡ true
  unfolding reap_at
  reap_at-orphans ac spec children matched conn s h =
      let made = svc.client_for conn s.world in
      let next = record s { world = made.1 } in
      let marker = host_owner_marker svc.supervisor_id ac.namespace ac.name in
      let names = claimed_host_names spec conn.spec.prefix children matched in
      let js = inventories_of children in
      elim (Result-cases made.0) [
        | inr (x, e) ↦ ground (arith, e, h)
        | inl (client, e) ↦
            let found = find_candidates svc client marker names js next in
            elim (Result-cases found.0) [
              | inr (x, f) ↦ ground (arith, e, f, h, find-calls client marker names js next)
              | inl (hs, f) ↦ ground (
                arith,
                e,
                f,
                h,
                find-calls client marker names js next,
                reap-orphans ac spec conn.spec.prefix client matched hs found.1,
              )
            ]
      ]
