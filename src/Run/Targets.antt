-- ===== src/Run/Targets.antt =====
-- What a run points at and what it sends: runTargets, gatherRunVars and
-- checkTemplateAcceptsLaunchFields.
use ansible_supervisor_servi.Prelude.{
  ℕ, ◌+◌, String, Bool, not, ◌&&◌, none, some, List, [], ◌∷◌, Text, lit, quoted, decimal, ◌is◌,
  if◌then◌else◌, any, is_empty, is_some, concat,
}
use ansible_supervisor_servi.Errors.{Error, Result, ok, err, errorf}
use ansible_supervisor_servi.Exec.{Exec, pure, raise, lift, ◌>>=◌, labelled}
use ansible_supervisor_servi.Awx.{
  Template, Connection, Vars, template_type_job, template_type_workflow,
}
use ansible_supervisor_servi.Run.Model.{RunHost, RunSpec, RunTarget, Services, Pass, ask, terminalf}
use ansible_supervisor_servi.Run.Hosts.{insert_all}

abbrev prepend : {A : Type 0} → A → Result (List A) → Result (List A)
prepend a (ok as') = ok (a ∷ as')
prepend a (err e) = err e

abbrev pub explicit_target : RunHost → RunTarget
explicit_target h = record {
  name = h.name;
  address = h.address;
  requested_address = h.address;
  overrides = h.variables;
}

-- The loop over spec.hosts: `i` is the index, `seen` the names so far.
unfoldable pub explicit_targets : ℕ → List String → List RunHost → Result (List RunTarget)
explicit_targets i seen [] = ok []
explicit_targets i seen (h ∷ hs) =
    let rest = explicit_targets (i + 1) (h.name ∷ seen) hs in
    if h.name is ""
    then err (terminalf (lit "spec.hosts[" ∷ decimal i ∷ lit "].name is required" ∷ []))
    else if any (λ n. n is h.name) seen
    then err (terminalf (lit "spec.hosts names host " ∷ quoted h.name ∷ lit " more than once" ∷ []))
    else prepend (explicit_target h) rest

unfoldable pub check_launch_spec : RunSpec → Result (Unit {0})
check_launch_spec spec =
    if not (is_empty spec.hosts) && is_some spec.vm_ref
    then err (
        terminalf (
          lit "spec.hosts and spec.vmRef are mutually exclusive: a run points at explicit hosts or "
          ∷ lit "at one VM, not both"
          ∷ []))
    else if not (spec.template.type is template_type_job)
        && not (spec.template.type is template_type_workflow)
    then err (
        terminalf (
          lit "spec.template.type must be "
          ∷ quoted template_type_job
          ∷ lit " or "
          ∷ quoted template_type_workflow
          ∷ lit ", got "
          ∷ quoted spec.template.type
          ∷ []))
    else ok tt

unfoldable pub check_template_accepts_launch_fields :
    Template → String → Bool → Bool → Text → Result (Unit {0})
check_template_accepts_launch_fields tmpl name want_limit want_extra_vars limit_remedy =
    if want_limit && not tmpl.ask_limit_on_launch
    then err (
        errorf (
          lit "template "
          ∷ quoted name
          ∷ lit " does not accept a limit at launch time (ask_limit_on_launch is false), so AWX "
          ∷ lit "would ignore the limit and run against the whole inventory: enable Prompt on "
          ∷ lit "Launch for Limit in AWX, or "
          ∷ limit_remedy))
    else if want_extra_vars && not tmpl.ask_variables_on_launch
    then err (
        errorf (
          lit "template "
          ∷ quoted name
          ∷ lit " does not accept extra variables at launch time (ask_variables_on_launch is "
          ∷ lit "false), so AWX would ignore spec.extraVars: enable Prompt on Launch for "
          ∷ lit "Variables in AWX, or remove spec.extraVars"
          ∷ []))
    else ok tt

-- The two checks of launchRun between resolving its targets and writing any of them; a refusal of
-- the second is made terminal.
unfoldable pub check_scope : Template → String → List RunTarget → Vars → Result (Unit {0})
unfolding check_template_accepts_launch_fields
check_scope tmpl name targets vars =
    if not (is_empty targets) && not (is_some tmpl.inventory)
    then err (
        terminalf (
          lit "template "
          ∷ quoted name
          ∷ lit " has no inventory, so there is nowhere to create the host(s) this run targets and "
          ∷ lit "no inventory for a limit to scope against: point it at a template with an "
          ∷ lit "inventory, or drop spec.hosts/spec.vmRef to accept the template's own scope"
          ∷ []))
    else elim (check_template_accepts_launch_fields tmpl name (not (is_empty targets))
        (not (is_empty vars))
        (lit "remove spec.hosts/spec.vmRef to accept the template's own scope" ∷ [])) [
          | ok _ ↦ ok tt
          | err e ↦ err (Error.terminal e)
        ]

module _ {W : Type 0} (svc : Services W) where
  -- The target of spec.vmRef.
  unfoldable pub vm_target : String → String → RunSpec → Connection → Exec (Pass W) (List RunTarget)
  vm_target namespace vm spec conn = do
    found ←
        labelled (lit "reading VirtualMachine " ∷ quoted vm ∷ [])
          (ask (svc.vm_address namespace vm))
    elim found [
      | none ↦ raise (
          errorf (
            lit "VirtualMachine "
            ∷ quoted vm
            ∷ lit " is not powered on with a reported IP yet"
            ∷ []))
      | some ip ↦ pure (
          record {
            name = concat conn.spec.prefix (if spec.host_name is "" then vm else spec.host_name);
            address = ip;
            requested_address = "";
            overrides = spec.host_variables;
          }
          ∷ [])
    ]

  unfoldable pub run_targets : String → RunSpec → Connection → Exec (Pass W) (List RunTarget)
  unfolding explicit_targets vm_target
  run_targets namespace spec conn =
      if not (is_empty spec.hosts)
      then lift (explicit_targets 0 [] spec.hosts)
      else elim spec.vm_ref [
        | none ↦ pure []
        | some vm ↦
            if vm is ""
            then raise (terminalf (lit "spec.vmRef.name is required" ∷ []))
            else vm_target namespace vm spec conn
      ]

  -- gatherRunVars: the variables, and the names that spec.varsFrom resolved.
  unfoldable pub gather_run_vars : String → RunSpec → Exec (Pass W) (Vars × List String)
  gather_run_vars namespace spec =
      if is_empty spec.vars_from then pure (spec.extra_vars, []) else (do
        found ← ask (svc.vars_from namespace spec.vars_from spec.extra_vars)
        pure (insert_all spec.extra_vars found.0, found.1))
