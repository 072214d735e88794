-- ===== src/VarsFrom.antt =====
-- controller/varsfrom.go: variables of a run that are read out of other objects.
pub mod Resolve
pub mod Permitted
use Prim.Native.Nat.{ℕ}
use Prim.Native.Char.{Char, code}
use ansible_supervisor_servi.Prelude.{
  suc, String, Bool, true, false, not, ◌&&◌, ◌||◌, Option, none, some, List, [], ◌∷◌, ◌++◌, map,
  Text, lit, quoted, decimal, shown, trim_space, concat, join, any, length, insert, is_empty, ◌==◌,
  ◌is◌, if◌then◌else◌,
}
use ansible_supervisor_servi.Errors.{
  Error, Result, ok, err, errorf, wrap, not_populated, has_not_populated, error_text,
}
use ansible_supervisor_servi.Exec.{
  Exec, Logged, pure, raise, lift, attempt, labelled, call, quiet, ◌>>=◌, ◌>>◌,
}
use ansible_supervisor_servi.Awx.{Vars}
use ansible_supervisor_servi.Run.Model.{ResourceRef, VarsFromSource, terminalf}

-- varsFromResource
pub record VarsFromResource : Type 0 where
  pub group : String
  pub resource : String

abbrev pub core_group_alias : String
core_group_alias = "core"

abbrev before : Char → List String → List String
before c [] = String.◌∷◌ c "" ∷ []
before c (s ∷ ss) = String.◌∷◌ c s ∷ ss

-- strings.Split(s, ","); 44 is the comma.
unfoldable pub split_commas : String → List String
split_commas String.[] = "" ∷ []
split_commas (String.◌∷◌ c s) =
    let rest = split_commas s in if code c == 44 then "" ∷ rest else before c rest

abbrev ahead : Char → Option (String × String) → Option (String × String)
ahead c none = none
ahead c (some (a, b)) = some (String.◌∷◌ c a, b)

-- strings.Cut(s, "/"), none where there is no slash.
unfoldable pub cut_slash : String → Option (String × String)
cut_slash String.[] = none
cut_slash (String.◌∷◌ c s) =
    let rest = cut_slash s in if code c == 47 then some ("", s) else ahead c rest

abbrev named_group : String → String
named_group group = if group is core_group_alias then "" else group

abbrev add_entry : Option (String × String) → List VarsFromResource → List VarsFromResource
add_entry none rest = rest
add_entry (some (group, resource)) rest =
    if (group is "") || (resource is "")
    then rest
    else record { group = named_group group; resource = resource } ∷ rest

-- A malformed entry is dropped. An empty one has no slash.
unfoldable pub parse_entries : List String → List VarsFromResource
unfolding cut_slash
parse_entries [] = []
parse_entries (e ∷ es) = add_entry (cut_slash (trim_space e)) (parse_entries es)

unfoldable pub parse_vars_from_resources : String → List VarsFromResource
unfolding split_commas parse_entries
parse_vars_from_resources csv = parse_entries (split_commas csv)

unfoldable pub vars_from_resource_allowed : List VarsFromResource → String → String → Bool
vars_from_resource_allowed allowed group resource =
    any (λ (r : VarsFromResource). (r.group is group) && (r.resource is resource)) allowed

unfoldable pub vars_from_group_allowed : List VarsFromResource → String → Bool
vars_from_group_allowed allowed group = any (λ (r : VarsFromResource). r.group is group) allowed

abbrev pub group_label : String → String
group_label group = if group is "" then core_group_alias else group

unfoldable pub vars_from_resource_list : List VarsFromResource → List String
vars_from_resource_list allowed =
    map (λ (r : VarsFromResource). concat (group_label r.group) (concat "/" r.resource)) allowed

-- What a JSONPath finds: null, a scalar as fmt.Sprint and json.Marshal print it, or a value of
-- another kind, by the kind's name.
pub data Found : Type 0 where
  null : Found
  scalar : String → Found
  compound : String → Found

-- What the API server's REST mapping says of a kind.
pub record Mapping : Type 0 where
  pub resource : String
  pub namespaced : Bool

-- `parse_group_version` gives the group and the version. `rest_mapping` takes the group, the kind
-- and the version; `is_no_match` is meta.IsNoMatchError, `reset` the mapper's Reset, none where it
-- has none. `get` takes the mapping, the group, the namespace and the name. `parse_path` and
-- `find_results` are the JSONPath library's.
pub record VarsApi (W D : Type 0) : Type 0 where
  pub parse_group_version : String → Result (String × String)
  pub rest_mapping : String → String → String → W → Result Mapping × W
  pub is_no_match : Error → Bool
  pub reset : Option (W → W)
  pub get : Mapping → String → String → String → W → Result D × W
  pub parse_path : String → Option Error
  pub find_results : D → String → Result (List Found)

-- A read of an object: the kind, the group, the resource, whether it is namespaced, and the
-- namespace.
pub data VarsCall : Type 0 where
  object_read : String → String → Mapping → String → VarsCall

abbrev pub Reading : Type 0 → Type 0
Reading W = Logged W VarsCall

-- scalarString
unfoldable pub scalar_string : String → Found → Result String
scalar_string path null = err (wrap (quoted path ∷ lit " resolved to null" ∷ []) not_populated)
scalar_string path (scalar s) = ok s
scalar_string path (compound kind) = err (
    errorf (
      quoted path
      ∷ lit " resolved to a "
      ∷ lit kind
      ∷ lit "; extra variables must be scalars"
      ∷ []))

unfoldable pub one_value : String → Result (List Found) → Result String
one_value path (err e) =
    err (wrap (quoted path ∷ lit " did not match (" ∷ error_text e ++ (lit ")" ∷ [])) not_populated)
one_value path (ok []) = err (wrap (quoted path ∷ lit " matched nothing" ∷ []) not_populated)
one_value path (ok (v ∷ [])) = scalar_string path v
one_value path (ok (v ∷ (w ∷ vs))) = err (
    errorf (
      quoted path
      ∷ lit " matched "
      ∷ decimal (suc (suc (length vs)))
      ∷ lit " values; extra variables are single strings"
      ∷ []))

abbrev pub has_key : String → Vars → Bool
has_key k vars = any (λ (v : String × String). v.0 is k) vars

abbrev pub answer_of : Bool → Text → Error → Error
answer_of true t e = wrap t e
answer_of false t e = terminalf (t ++ (lit ": " ∷ error_text e))

module _ {W D : Type 0} (api : VarsApi W D) (allowed : List VarsFromResource) where
  -- evalJSONPath
  unfoldable pub eval_json_path : D → String → Result String
  eval_json_path obj path = elim (api.parse_path path) [
    | some e ↦ err (wrap (quoted path ∷ lit " is not a valid JSONPath" ∷ []) e)
    | none ↦ one_value path (api.find_results obj path)
  ]

  abbrev retried : String → String → String → Result Mapping → Exec (Reading W) Mapping
  retried group kind version (ok m) = pure m
  retried group kind version (err e) = elim api.reset [
    | none ↦ raise e
    | some f ↦
        if api.is_no_match e
        then quiet (λ w. api.rest_mapping group kind version (f w))
        else raise e
  ]

  -- The mapping of a kind; a cached discovery that does not know it is reset once.
  unfoldable pub mapping_of : String → String → String → Exec (Reading W) Mapping
  mapping_of group kind version = do
    r ← attempt (quiet (api.rest_mapping group kind version))
    retried group kind version r

  abbrev made_terminal : Text → Result Mapping → Result Mapping
  made_terminal t (ok m) = ok m
  made_terminal t (err e) = err (terminalf (t ++ error_text e))

  abbrev pub read_noted : String → String → Mapping → String → Result D → VarsCall
  read_noted kind group m namespace r = object_read kind group m namespace

  -- getVarsFromObject
  unfoldable pub get_vars_from_object : String → String → String → ResourceRef → Exec (Reading W) D
  get_vars_from_object namespace group version ref = do
    found ← attempt (mapping_of group ref.kind version)
    m ← lift (
        made_terminal
          (lit "resolving " ∷ shown ref.api_version ∷ lit " " ∷ shown ref.kind ∷ lit ": " ∷ [])
          found)
    if not m.namespaced
        then raise (
            terminalf (
              shown ref.api_version
              ∷ lit " "
              ∷ shown ref.kind
              ∷ lit
                  " is cluster-scoped: varsFrom only reads objects in the AnsibleRun's own namespace"
              ∷ []))
        else if not (vars_from_resource_allowed allowed group m.resource)
        then raise (
            terminalf (
              lit "varsFrom reads "
              ∷ lit (group_label group)
              ∷ lit "/"
              ∷ lit m.resource
              ∷ lit ", which this service is not permitted to read (allowed: "
              ∷ lit (join ", " (vars_from_resource_list allowed))
              ∷ lit "); an operator can widen it with the vars_from_resources package value"
              ∷ []))
        else labelled
            (lit "reading "
              ∷ shown ref.kind
              ∷ lit " "
              ∷ quoted ref.name
              ∷ lit " for spec.varsFrom"
              ∷ [])
            (call (read_noted ref.kind group m namespace) (api.get m group namespace ref.name))
