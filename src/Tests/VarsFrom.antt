-- ===== src/Tests/VarsFrom.antt =====
-- Variables from other objects at concrete inputs.
use ansible_supervisor_servi.Prelude.{
  ℕ, ◌≡◌, ◌+◌, refl, String, true, false, none, [], ◌∷◌, List, trim_space,
}
use ansible_supervisor_servi.Errors.{ok}
use ansible_supervisor_servi.Exec.{start}
use ansible_supervisor_servi.Run.Model.{VarsFromSource}
use ansible_supervisor_servi.VarsFrom.{VarsFromResource, VarsApi, scalar, parse_vars_from_resources}
use ansible_supervisor_servi.VarsFrom.Resolve.{resolve_vars_from}
use ansible_supervisor_servi.VarsFrom.Permitted.{reads_permitted, resolve-permitted}

-- The default list of resources.
default_list :
    parse_vars_from_resources "core/configmaps,vmoperator.vmware.com/virtualmachines"
    ≡ record { group = ""; resource = "configmaps" }
      ∷ record { group = "vmoperator.vmware.com"; resource = "virtualmachines" }
      ∷ []
unfolding parse_vars_from_resources trim_space
default_list = refl

abbrev permitted : List VarsFromResource
permitted = record { group = ""; resource = "configmaps" } ∷ []

-- Documents are strings, and a path finds the document itself.
abbrev api : VarsApi ℕ String
api = record {
  parse_group_version = λ s. ok ("", s);
  rest_mapping = λ g k v w. (ok (record { resource = "configmaps"; namespaced = true }), w);
  is_no_match = λ e. false;
  reset = none;
  get = λ m g ns n w. (ok "eu-1", w + 1);
  parse_path = λ p. none;
  find_results = λ d p. ok (scalar d ∷ []);
}

abbrev region : VarsFromSource
region = record {
  resource = record { api_version = "v1"; kind = "ConfigMap"; name = "site" };
  vars = ("region", "{.data.region}") ∷ [];
}

resolve-permitted_example :
    reads_permitted api permitted "ns"
      (resolve_vars_from api permitted "ns" (region ∷ []) [] (start 0)).1
    ≡ true
resolve-permitted_example = resolve-permitted api permitted "ns" (region ∷ []) [] (start 0) refl
