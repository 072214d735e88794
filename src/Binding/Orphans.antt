-- ===== src/Binding/Orphans.antt =====
-- reapOrphanHosts of controller/ansiblebinding.go: the inventory hosts of a binding that none of its
-- children accounts for.
pub mod Unclaimed
use ansible_supervisor_servi.Prelude.{
  ℕ, String, Bool, true, false, not, ◌&&◌, ◌||◌, Option, none, some, List, [], ◌∷◌, ◌++◌, map, Text,
  lit, quoted, decimal, concat, any, keep, ◌==◌, ◌is◌, if◌then◌else◌,
}
use ansible_supervisor_servi.Errors.{Error, Result, ok, err, errorf}
use ansible_supervisor_servi.Exec.{Exec, Logged, pure, raise, labelled, call, quiet, ◌>>=◌, ◌>>◌}
use ansible_supervisor_servi.Objects.{Object}
use ansible_supervisor_servi.Awx.{Connection, Client, Host}
use ansible_supervisor_servi.Vm.Model.{VmSpec, VmStatus, cleanup_policy_retain}
use ansible_supervisor_servi.Vm.Poll.{host_owner_marker}
use ansible_supervisor_servi.Binding.Model.{BindingSpec, BindingBody, Child}
use ansible_supervisor_servi.Binding.Summary.{has_name}

-- The live list of the children, and the deletes.
pub data ReapCall : Type 0 where
  children_read : Result (List Child) → ReapCall
  reaped : Host → Result (Unit {0}) → ReapCall

-- `list_owned` is ListOwnedHosts, by inventory and marker: the hosts of a map in one of its orders.
pub record ReapServices (W : Type 0) : Type 0 where
  pub connection : String → String → W → Result (Option Connection) × W
  pub client_for : Connection → W → Result Client × W
  pub list_owned : Client → ℕ → String → W → Result (List Host) × W
  pub list_children : String → String → W → Result (List Child) × W
  pub delete_host : Client → ℕ → W → Result (Unit {0}) × W
  pub supervisor_id : String

abbrev pub Reaping : Type 0 → Type 0
Reaping W = Logged W ReapCall

abbrev inventory_of : Option VmStatus → ℕ
inventory_of none = 0
inventory_of (some st) = st.awx_inventory_id

abbrev has_number : ℕ → List ℕ → Bool
has_number n ns = any (λ (m : ℕ). m == n) ns

-- The inventories that the children have hosts in, each once.
unfoldable pub inventories_of : List Child → List ℕ
inventories_of [] = []
inventories_of (c ∷ cs) =
    let rest = inventories_of cs in
    if inventory_of c.status == 0 || has_number (inventory_of c.status) rest
    then rest
    else inventory_of c.status ∷ rest

-- expectedHostName
abbrev pub expected_host_name : BindingSpec → String → String
expected_host_name spec vm_name = if spec.host_name is "" then vm_name else spec.host_name

abbrev recorded_name : Option VmStatus → List String
recorded_name none = []
recorded_name (some st) = if st.awx_host_name is "" then [] else st.awx_host_name ∷ []

abbrev expected_name : BindingSpec → String → Option VmSpec → List String
expected_name spec prefix none = []
expected_name spec prefix (some s) = concat prefix (expected_host_name spec s.vm_name) ∷ []

unfoldable pub names_of_children : BindingSpec → String → List Child → List String
names_of_children spec prefix [] = []
names_of_children spec prefix (c ∷ cs) =
    recorded_name c.status ++ (expected_name spec prefix c.spec ++ names_of_children spec prefix cs)

-- claimedHostNames
unfoldable pub claimed_host_names : BindingSpec → String → List Child → List String → List String
claimed_host_names spec prefix children matched =
    names_of_children spec prefix children
    ++ map (λ (v : String). concat prefix (expected_host_name spec v)) matched

abbrev unclaimed : List String → List Host → List Host
unclaimed names hosts = keep (λ (h : Host). not (has_name h.name names)) hosts

module _ {W : Type 0} (svc : ReapServices W) where
  -- The hosts that the cached children do not account for.
  unfoldable pub find_candidates :
      Client → String → List String → List ℕ → Exec (Reaping W) (List Host)
  find_candidates client marker names [] = pure []
  find_candidates client marker names (i ∷ js) = do
    hosts ← quiet (svc.list_owned client i marker)
    rest ← find_candidates client marker names js
    pure (unclaimed names hosts ++ rest)

  unfoldable pub delete_unclaimed : Client → List String → List Host → Exec (Reaping W) (Unit {0})
  delete_unclaimed client names [] = pure tt
  delete_unclaimed client names (h ∷ hs) =
      if has_name h.name names then delete_unclaimed client names hs else (do
        labelled (lit "deleting orphaned AWX host " ∷ decimal h.id ∷ [])
            (call (reaped h) (svc.delete_host client h.id))
        delete_unclaimed client names hs)

  -- The children are read anew right before anything is deleted.
  unfoldable pub reap_candidates :
      Object BindingBody
      → BindingSpec
      → String
      → Client
      → List String
      → List Host
      → Exec (Reaping W) (Unit {0})
  reap_candidates ac spec prefix client matched [] = pure tt
  reap_candidates ac spec prefix client matched (h ∷ hs) = do
    fresh ←
        labelled (lit "re-reading the children before deleting an orphaned host" ∷ [])
          (call children_read (svc.list_children ac.namespace ac.name))
    delete_unclaimed client (claimed_host_names spec prefix fresh matched) (h ∷ hs)

  unfoldable pub reap_at :
      Object BindingBody
      → BindingSpec
      → List Child
      → List String
      → Connection
      → Exec (Reaping W) (Unit {0})
  reap_at ac spec children matched conn = do
    client ←
        labelled (lit "preparing a client for AWXConnection " ∷ quoted spec.awx_connection_ref ∷ [])
          (quiet (svc.client_for conn))
    candidates ←
        find_candidates client (host_owner_marker svc.supervisor_id ac.namespace ac.name)
          (claimed_host_names spec conn.spec.prefix children matched) (inventories_of children)
    reap_candidates ac spec conn.spec.prefix client matched candidates

  abbrev found_connection :
      BindingSpec
      → Option Connection
      → (Connection → Exec (Reaping W) (Unit {0}))
      → Exec (Reaping W) (Unit {0})
  found_connection spec none next =
      raise (errorf (lit "decoding AWXConnection " ∷ quoted spec.awx_connection_ref ∷ []))
  found_connection spec (some conn) next = next conn

  -- reapOrphanHosts: without an inventory that a child has a host in there is nowhere to look.
  unfoldable pub reap_orphan_hosts :
      Object BindingBody → BindingSpec → List Child → List String → Exec (Reaping W) (Unit {0})
  reap_orphan_hosts ac spec children matched =
      if spec.cleanup_policy is cleanup_policy_retain
      then pure tt
      else elim (inventories_of children) [
        | [] ↦ pure tt
        | i ∷ js ↦ do
          conn ←
              labelled (lit "fetching AWXConnection " ∷ quoted spec.awx_connection_ref ∷ [])
                (quiet (svc.connection ac.namespace spec.awx_connection_ref))
          found_connection spec conn (reap_at ac spec children matched)
      ]
