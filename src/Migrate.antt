-- ===== src/Migrate.antt =====
-- controller/migrate.go: the start is refused beside children of an earlier version.
use ansible_supervisor_servi.Prelude.{
  ℕ, ◌-◌, ◌≡◌, refl, String, Bool, true, false, not, ◌&&◌, Option, none, some, List, [], ◌∷◌, ◌++◌,
  Text, lit, shown, quoted, decimal, arith, all, length, take, ltb, ◌==◌, ◌is◌, if◌then◌else◌,
}
use ansible_supervisor_servi.Errors.{Result, ok, err, errorf}
use ansible_supervisor_servi.Exec.{Exec, lift, labelled, ◌>>=◌}
use ansible_supervisor_servi.Objects.{Object}
use ansible_supervisor_servi.Vm.Model.{VmSpec, VmStatus, VmBody, undecodable, decoded}
use ansible_supervisor_servi.Vm.Names.{child_name}

-- legacyChild
pub record LegacyChild : Type 0 where
  pub namespace : String
  pub name : String
  pub vm_name : String
  pub binding : String
  pub reason : String
  pub terminating : Bool
  pub job_id : ℕ

abbrev job_of : Option VmStatus → ℕ
job_of none = 0
job_of (some st) = st.last_job_id

abbrev unreadable : Object VmBody → LegacyChild
unreadable u = record {
  namespace = u.namespace;
  name = u.name;
  vm_name = "";
  binding = "";
  reason = "its spec cannot be read, so nothing can say which VM it claims";
  terminating = u.deleting;
  job_id = 0;
}

abbrev legacy_entry : Object VmBody → VmSpec → Option VmStatus → String → LegacyChild
legacy_entry u spec st reason = record {
  namespace = u.namespace;
  name = u.name;
  vm_name = spec.vm_name;
  binding = spec.binding_name;
  reason = reason;
  terminating = u.deleting;
  job_id = job_of st;
}

abbrev legacy_of_spec :
    (String → String) → Object VmBody → VmSpec → Option VmStatus → Option LegacyChild
legacy_of_spec sha256_hex u spec st =
    if spec.vm_name is ""
    then some (unreadable u)
    else if not (u.name is child_name sha256_hex spec.vm_name)
    then some (
        legacy_entry u spec st
          "named for its binding and its VM, so it is not the claim on that VM")
    else if spec.binding_uid is ""
    then some (
        legacy_entry u spec st
          "has no spec.bindingUID, so which incarnation of its binding owns it is unknown")
    else none

-- What makes an object one of an earlier version.
abbrev legacy_of_body : (String → String) → Object VmBody → VmBody → Option LegacyChild
legacy_of_body sha256_hex u (undecodable e) = some (unreadable u)
legacy_of_body sha256_hex u (decoded none st owners) = some (unreadable u)
legacy_of_body sha256_hex u (decoded (some spec) st owners) = legacy_of_spec sha256_hex u spec st

abbrev with_legacy : Option LegacyChild → List LegacyChild → List LegacyChild
with_legacy none ls = ls
with_legacy (some l) ls = l ∷ ls

unfoldable pub find_legacy_children : (String → String) → List (Object VmBody) → List LegacyChild
find_legacy_children sha256_hex [] = []
find_legacy_children sha256_hex (u ∷ us) =
    with_legacy (legacy_of_body sha256_hex u u.body) (find_legacy_children sha256_hex us)

abbrev pub legacy_child_sample_limit : ℕ
legacy_child_sample_limit = 10

-- legacyChild.String
unfoldable pub legacy_text : LegacyChild → Text
legacy_text l =
    (shown l.namespace
      ∷ lit "/"
      ∷ shown l.name
      ∷ lit " (VM "
      ∷ quoted l.vm_name
      ∷ lit ", binding "
      ∷ quoted l.binding
      ∷ lit "): "
      ∷ lit l.reason
      ∷ [])
    ++ (if l.terminating then lit ", still terminating" ∷ [] else [])
    ++ (if l.job_id == 0 then [] else lit ", AWX job " ∷ decimal l.job_id ∷ lit " recorded" ∷ [])

unfoldable pub sample_text : List LegacyChild → Text
sample_text [] = []
sample_text (l ∷ ls) = (lit "  " ∷ legacy_text l) ++ (lit "\n" ∷ sample_text ls)

abbrev more_text : ℕ → Text
more_text n =
    if ltb legacy_child_sample_limit n
    then lit "  ... and " ∷ decimal (n - legacy_child_sample_limit) ∷ lit " more\n" ∷ []
    else []

abbrev upgrade_note : Text
upgrade_note =
    lit
      "\nChildren are now named after the VM alone, so that the name is an exclusive claim on it. Running both schemes at once would put two owners on one VM and could launch a second job against a machine already being configured.\n\nTo upgrade: stop any source that recreates bindings (GitOps included), roll back to the previous controller image, let its bindings finish or explicitly resolve any job still running, delete those bindings so their children and finalizers complete (cleanupPolicy: Delete removes their AWX hosts; Retain leaves the hosts and their ownership markers in place), then deploy this version and recreate the bindings. Recreated bindings provision again - this is not a silent migration.\nDo not remove finalizers or delete these objects by hand to get past this check: that abandons AWX hosts and job state this controller can no longer account for."
    ∷ []

abbrev refuse_legacy : (List LegacyChild → List LegacyChild) → List LegacyChild → Result (Unit {0})
refuse_legacy sort [] = ok tt
refuse_legacy sort (l ∷ ls) = err (
    errorf (
      (decimal (length (l ∷ ls))
        ∷ lit
            " AnsibleBindingVM(s) were created by an earlier version and cannot be managed by this one:\n"
        ∷ sample_text (take legacy_child_sample_limit (sort (l ∷ ls))))
      ++ more_text (length (l ∷ ls))
      ++ upgrade_note))

-- checkForLegacyChildren; `list_all` lists the children of every namespace, and `sort` puts them in
-- the order of their namespaces and names.
unfoldable pub check_for_legacy_children :
    {W : Type 0}
    → (W → Result (List (Object VmBody)) × W)
    → (List LegacyChild → List LegacyChild)
    → (String → String)
    → Exec W (Unit {0})
check_for_legacy_children list_all sort sha256_hex = do
  us ←
      labelled (lit "listing AnsibleBindingVMs to check for ones from an earlier version" ∷ [])
        list_all
  lift (refuse_legacy sort (find_legacy_children sha256_hex us))

abbrev canonical_body : (String → String) → String → VmBody → Bool
canonical_body sha256_hex name (undecodable e) = false
canonical_body sha256_hex name (decoded none st owners) = false
canonical_body sha256_hex name (decoded (some spec) st owners) =
    (name is child_name sha256_hex spec.vm_name) && not (spec.binding_uid is "")

-- Where no child of an earlier version is found, every child is the claim on its VM: it has the
-- VM's canonical name and says which incarnation of its binding made it.
none-legacy :
    (sha256_hex : String → String) (us : List (Object VmBody))
    → find_legacy_children sha256_hex us ≡ []
    → all (λ (u : Object VmBody). canonical_body sha256_hex u.name u.body) us ≡ true
unfolding find_legacy_children
none-legacy sha256_hex [] h = refl
none-legacy sha256_hex (u ∷ us) h = ground (arith, h, none-legacy sha256_hex us)
