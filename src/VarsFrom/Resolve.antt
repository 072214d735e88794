-- ===== src/VarsFrom/Resolve.antt =====
-- resolveVarsFrom of controller/varsfrom.go.
use ansible_supervisor_servi.Prelude.{
  ℕ, suc, String, not, ◌||◌, List, [], ◌∷◌, ◌++◌, map, Text, lit, quoted, decimal, shown, join,
  insert, is_empty, ◌is◌, if◌then◌else◌,
}
use ansible_supervisor_servi.Errors.{Result, ok, err, has_not_populated, error_text}
use ansible_supervisor_servi.Exec.{Exec, pure, lift, ◌>>=◌, ◌>>◌}
use ansible_supervisor_servi.Awx.{Vars}
use ansible_supervisor_servi.Run.Model.{ResourceRef, VarsFromSource, terminalf}
use ansible_supervisor_servi.VarsFrom.{
  VarsFromResource, VarsApi, Reading, vars_from_group_allowed, vars_from_resource_list, group_label,
  has_key, eval_json_path, answer_of, get_vars_from_object,
}

abbrev where_from : ℕ → Text
where_from i = lit "spec.varsFrom[" ∷ decimal i ∷ lit "]" ∷ []

-- The checks of a source that come before anything is parsed.
unfoldable pub check_source : ℕ → VarsFromSource → Result (Unit {0})
check_source i src =
    if (src.resource.api_version is "") || (src.resource.kind is "") || (src.resource.name is "")
    then err (terminalf (where_from i ++ (lit ".resource needs apiVersion, kind and name" ∷ [])))
    else if is_empty src.vars
    then err (terminalf (where_from i ++ (lit ".vars must not be empty" ∷ [])))
    else ok tt

abbrev pub parsed_group : ℕ → VarsFromSource → Result (String × String) → Result (String × String)
parsed_group i src (ok g) = ok g
parsed_group i src (err e) = err (
    terminalf (
      where_from i
      ++ (lit ".resource.apiVersion "
          ∷ quoted src.resource.api_version
          ∷ lit " is not valid: "
          ∷ error_text e)))

-- A Secret is refused whatever is allowed, and so is a group in which nothing is.
unfoldable pub check_kind : List VarsFromResource → ℕ → VarsFromSource → String → Result (Unit {0})
check_kind allowed i src group =
    if src.resource.kind is "Secret"
    then err (
        terminalf (
          where_from i
          ++ (lit
                " reads a Secret: extra variables are visible in AWX job output and stored launch parameters, so Secrets are never sourced this way - attach an AWX Credential to the template instead"
              ∷ [])))
    else if not (vars_from_group_allowed allowed group)
    then err (
        terminalf (
          where_from i
          ++ (lit " reads API group "
              ∷ quoted (group_label group)
              ∷ lit ", which this service is not permitted to read anything in (allowed: "
              ∷ lit (join ", " (vars_from_resource_list allowed))
              ∷ lit "); an operator can widen it with the vars_from_resources package value"
              ∷ [])))
    else ok tt

module _ {W D : Type 0} (api : VarsApi W D) (allowed : List VarsFromResource) where
  abbrev put_value : ℕ → ResourceRef → String → Vars → Result String → Result Vars
  put_value i ref k resolved (ok v) = ok (insert k v resolved)
  put_value i ref k resolved (err e) = err (
      answer_of (has_not_populated e)
        (where_from i
          ++ (lit ".vars["
              ∷ quoted k
              ∷ lit "] against "
              ∷ shown ref.kind
              ∷ lit " "
              ∷ quoted ref.name
              ∷ []))
        e)

  -- One variable: a name that is taken already is an error.
  unfoldable pub resolve_var : ℕ → ResourceRef → D → Vars → String × String → Vars → Result Vars
  resolve_var i ref obj extra_vars kv resolved =
      if has_key kv.0 extra_vars
      then err (
          terminalf (
            where_from i
            ++ (lit ".vars key "
                ∷ quoted kv.0
                ∷ lit
                    " is already set in spec.extraVars: remove one rather than relying on which wins"
                ∷ [])))
      else if has_key kv.0 resolved
      then err (terminalf (lit "spec.varsFrom sets " ∷ quoted kv.0 ∷ lit " more than once" ∷ []))
      else put_value i ref kv.0 resolved (eval_json_path api allowed obj kv.1)

  abbrev and_then : Result Vars → (Vars → Result Vars) → Result Vars
  and_then (ok a) f = f a
  and_then (err e) f = err e

  -- The variables of one source, in the order of their keys.
  unfoldable pub resolve_all : ℕ → ResourceRef → D → Vars → Vars → Vars → Result Vars
  resolve_all i ref obj extra_vars [] resolved = ok resolved
  resolve_all i ref obj extra_vars (kv ∷ kvs) resolved =
      and_then (resolve_var i ref obj extra_vars kv resolved) (resolve_all i ref obj extra_vars kvs)

  unfoldable pub resolve_source : String → Vars → ℕ → VarsFromSource → Vars → Exec (Reading W) Vars
  resolve_source namespace extra_vars i src resolved = do
    lift (check_source i src)
    gv ← lift (parsed_group i src (api.parse_group_version src.resource.api_version))
    lift (check_kind allowed i src gv.0)
    obj ← get_vars_from_object api allowed namespace gv.0 gv.1 src.resource
    lift (resolve_all i src.resource obj extra_vars src.vars resolved)

  unfoldable pub resolve_sources :
      String → Vars → ℕ → List VarsFromSource → Vars → Exec (Reading W) Vars
  resolve_sources namespace extra_vars i [] resolved = pure resolved
  resolve_sources namespace extra_vars i (src ∷ srcs) resolved = do
    next ← resolve_source namespace extra_vars i src resolved
    resolve_sources namespace extra_vars (suc i) srcs next

  -- resolveVarsFrom: the variables and their names, which `insert` keeps in order.
  unfoldable pub resolve_vars_from :
      String → List VarsFromSource → Vars → Exec (Reading W) (Vars × List String)
  resolve_vars_from namespace sources extra_vars = do
    resolved ← resolve_sources namespace extra_vars 0 sources []
    pure (resolved, map (λ (v : String × String). v.0) resolved)
