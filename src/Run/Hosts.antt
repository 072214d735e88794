-- ===== src/Run/Hosts.antt =====
-- The inventory hosts of a run: recordRunHost, runLimit, resolveRunHost, and upsertInventoryHost
-- with AWXClient.UpsertHost.
pub mod Recorded
pub mod Foreign
use ansible_supervisor_servi.Prelude.{
  ℕ, String, Bool, true, false, not, ◌&&◌, ◌||◌, Option, none, some, List, [], ◌∷◌, ◌++◌, map, lit,
  quoted, shown, ◌==◌, ◌is◌, if◌then◌else◌, insert, concat, join, trim_space, starts_with, is_empty,
}
use ansible_supervisor_servi.Errors.{Error, Result, ok, err, errorf, wrap}
use ansible_supervisor_servi.Exec.{Exec, pure, raise, lift, attempt, ◌>>=◌, ◌>>◌, labelled}
use ansible_supervisor_servi.Awx.{Host, Client, Vars, Requests}
use ansible_supervisor_servi.Run.Model.{
  RunHostStatus, RunTarget, RunCall, host_patched, host_created, Services, Pass, ask, tell,
  terminalf,
}

-- Whether an entry is filed under the same identity.
abbrev pub same_host : RunHostStatus → RunHostStatus → Bool
same_host a b = (a.name is b.name) && (a.awx_inventory_id == b.awx_inventory_id)

unfoldable pub record_run_host : List RunHostStatus → RunHostStatus → List RunHostStatus
record_run_host [] h = h ∷ []
record_run_host (existing ∷ hosts) h =
    if same_host existing h
    then record h { awx_host_created = h.awx_host_created || existing.awx_host_created } ∷ hosts
    else existing ∷ record_run_host hosts h

unfoldable pub run_limit : List RunHostStatus → String
run_limit hosts = join "," (map (λ (h : RunHostStatus). h.name) hosts)

abbrev pub host_marker_prefix : String
host_marker_prefix = "ansible-supervisor:"

-- runHostOwnerMarker
unfoldable pub run_host_owner_marker : String → String → String → String
run_host_owner_marker supervisor namespace name = concat host_marker_prefix (
    concat supervisor
      (concat ":" (concat namespace (concat "/" (concat "ansibleruns" (concat "/" name))))))

-- requestsHostWrites
abbrev pub requests_host_writes : RunTarget → Bool
requests_host_writes t = not (t.requested_address is "") || not (is_empty t.overrides)

-- The loop of upsertInventoryHost over the extra variables.
unfoldable pub insert_all : Vars → Vars → Vars
insert_all m [] = m
insert_all m ((k, v) ∷ vs) = insert_all (insert k v m) vs

unfoldable pub host_vars : String → Vars → Vars
unfolding insert_all
host_vars address extra =
    insert_all (if address is "" then [] else ("ansible_host", address) ∷ []) extra

module _ {W : Type 0} (svc : Services W) (client : Client) where
  -- The branch of UpsertHost for a host that exists.
  unfoldable pub update_host : Host → String → String → Vars → Exec (Pass W) (ℕ × Bool)
  update_host existing name marker vars =
      let existing_marker = trim_space existing.description in
      if not (existing_marker is marker) && starts_with existing_marker host_marker_prefix
      then raise (
          errorf (
            lit "inventory host "
            ∷ quoted name
            ∷ lit " is already owned by another ansible-supervisor binding ("
            ∷ shown existing_marker
            ∷ lit "); refusing to take it over - set spec.hostNamePrefix on the AWXConnection (or "
            ∷ lit "spec.hostName) so this binding uses a distinct inventory host name"
            ∷ []))
      else (do
        merged ←
            labelled (lit "updating host " ∷ quoted name ∷ [])
              (lift (svc.awx.merge_variables existing.variables vars))
        (if merged is trim_space existing.variables
            then pure tt
            else labelled (lit "updating host " ∷ quoted name ∷ [])
                (tell (host_patched existing.id) (svc.awx.patch_host client existing.id merged)))
        pure (existing.id, existing_marker is marker))

  unfoldable pub create_host : ℕ → String → String → Vars → Exec (Pass W) (ℕ × Bool)
  create_host inventory name marker vars = do
    id ← labelled (lit "creating host " ∷ quoted name ∷ []) (
        tell (host_created inventory name marker)
          (svc.awx.create_host client inventory name marker (svc.awx.encode_variables vars)))
    pure (id, true)

  -- AWXClient.UpsertHost: the id of the host, and whether it is this owner's.
  unfoldable pub upsert_host : ℕ → String → String → Vars → Exec (Pass W) (ℕ × Bool)
  unfolding update_host create_host
  upsert_host inventory name marker vars = do
    found ← ask (svc.awx.find_host client inventory name)
    elim found [
      | none ↦ create_host inventory name marker vars
      | some existing ↦ update_host existing name marker vars
    ]

  -- The host is this run's to write: there is none yet, or its marker is this run's.
  abbrev pub is_own : Option Host → String → Bool
  is_own none marker = true
  is_own (some h) marker = trim_space h.description is marker

  abbrev pub id_of : Option Host → ℕ
  id_of none = 0
  id_of (some h) = h.id

  unfoldable pub resolve_run_host : ℕ → RunTarget → String → Exec (Pass W) (ℕ × Bool)
  unfolding upsert_host host_vars
  resolve_run_host inventory t marker = do
    existing ← ask (svc.awx.find_host client inventory t.name)
    if is_own existing marker
        then upsert_host inventory t.name marker (host_vars t.address t.overrides)
        else if requests_host_writes t
        then raise (
            terminalf (
              lit "inventory host "
              ∷ quoted t.name
              ∷ lit " already exists and is not this run's to change, so the address and host "
              ∷ lit
                  "variables this run asked for cannot be written onto it. Pass execution-specific "
              ∷ lit
                  "values through spec.extraVars or spec.varsFrom - AWX applies those to the job, "
              ∷ lit
                  "which overrides inventory variables for that job alone - or target a host name "
              ∷ lit "that does not already exist"
              ∷ []))
        else pure (id_of existing, false)
