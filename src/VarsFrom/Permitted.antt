-- ===== src/VarsFrom/Permitted.antt =====
-- What resolveVarsFrom reads, and that it never replaces a variable.
use ansible_supervisor_servi.Prelude.{
  ℕ, suc, ◌≡◌, refl, String, Bool, true, false, not, ◌&&◌, List, [], ◌∷◌, arith, all, inl, inr,
  ◌is◌, eq_iff,
}
use ansible_supervisor_servi.Awx.{Vars}
use ansible_supervisor_servi.Engine.Patch.Keeps.{Result-cases}
use ansible_supervisor_servi.Run.Model.{ResourceRef, VarsFromSource}
use ansible_supervisor_servi.VarsFrom.{
  VarsFromResource, VarsApi, VarsCall, object_read, Reading, vars_from_resource_allowed, mapping_of,
  get_vars_from_object,
}
use ansible_supervisor_servi.VarsFrom.Resolve.{
  check_source, check_kind, resolve_source, resolve_sources, resolve_vars_from, parsed_group,
}

-- A read that the operator permits: of a namespaced resource of the list, in the run's own namespace,
-- and of no Secret.
abbrev pub is_permitted : List VarsFromResource → String → VarsCall → Bool
is_permitted allowed namespace (object_read kind group m ns) =
    not (kind is "Secret")
    && m.namespaced
    && vars_from_resource_allowed allowed group m.resource
    && (ns is namespace)

module _ {W D : Type 0} (api : VarsApi W D) (allowed : List VarsFromResource) where
  abbrev pub reads_permitted : String → Reading W → Bool
  reads_permitted namespace s = all (is_permitted allowed namespace) s.calls

  mapping-calls :
      (group kind version : String) (s : Reading W)
      → (mapping_of api allowed group kind version s).1.calls ≡ s.calls
  unfolding mapping_of
  mapping-calls group kind version s = ground arith

  get-permitted :
      (namespace group version : String) (ref : ResourceRef) (s : Reading W)
      → ref.kind is "Secret" ≡ false
      → reads_permitted namespace s ≡ true
      → reads_permitted namespace (get_vars_from_object api allowed namespace group version ref s).1
        ≡ true
  unfolding get_vars_from_object
  get-permitted namespace group version ref s n h =
      elim (Result-cases (mapping_of api allowed group ref.kind version s).0) [
        | inr (x, e) ↦ ground (arith, e, h, mapping-calls group ref.kind version s)
        | inl (m, e) ↦ ground (
          arith,
          e,
          n,
          h,
          mapping-calls group ref.kind version s,
          (eq_iff namespace namespace).1 refl,
        )
      ]

  source-permitted :
      (namespace : String) (extra_vars : Vars) (i : ℕ) (src : VarsFromSource) (resolved : Vars)
      (s : Reading W)
      → reads_permitted namespace s ≡ true
      → reads_permitted namespace
          (resolve_source api allowed namespace extra_vars i src resolved s).1
        ≡ true
  unfolding resolve_source check_kind
  source-permitted namespace extra_vars i src resolved s h =
      elim (Result-cases (check_source i src)) [
        | inr (x, e) ↦ ground (arith, e, h)
        | inl (a, e) ↦
            elim (Result-cases
              (parsed_group i src (api.parse_group_version src.resource.api_version))) [
                | inr (x, f) ↦ ground (arith, e, f, h)
                | inl (gv, f) ↦
                    ground (arith, e, f, h, get-permitted namespace gv.0 gv.1 src.resource s)
              ]
      ]

  sources-permitted :
      (namespace : String) (extra_vars : Vars) (i : ℕ) (srcs : List VarsFromSource)
      (resolved : Vars) (s : Reading W)
      → reads_permitted namespace s ≡ true
      → reads_permitted namespace
          (resolve_sources api allowed namespace extra_vars i srcs resolved s).1
        ≡ true
  unfolding resolve_sources
  sources-permitted namespace extra_vars i [] resolved s h = h
  sources-permitted namespace extra_vars i (src ∷ srcs) resolved s h =
      let first = resolve_source api allowed namespace extra_vars i src resolved s in
      let kept = source-permitted namespace extra_vars i src resolved s h in
      elim (Result-cases first.0) [
        | inl (next, e) ↦
            ground (arith, e, sources-permitted namespace extra_vars (suc i) srcs next first.1 kept)
        | inr (x, e) ↦ ground (arith, e, kept)
      ]

  -- Whatever a run asks for, and whether it is resolved or refused, every object that is read is
  -- of a namespaced resource that the operator permits, in the run's own namespace, and no Secret.
  pub resolve-permitted :
      (namespace : String) (sources : List VarsFromSource) (extra_vars : Vars) (s : Reading W)
      → reads_permitted namespace s ≡ true
      → reads_permitted namespace (resolve_vars_from api allowed namespace sources extra_vars s).1
        ≡ true
  unfolding resolve_vars_from
  resolve-permitted namespace sources extra_vars s h =
      ground (arith, sources-permitted namespace extra_vars 0 sources [] s h)
