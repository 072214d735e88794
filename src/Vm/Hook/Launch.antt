-- ===== src/Vm/Hook/Launch.antt =====
-- launchDeprovisionHook and submitDeprovisionHook of controller/ansiblebindingvm.go, and
-- SetHostVariables of controller/awx_client.go.
use ansible_supervisor_servi.Prelude.{
  ℕ, String, Bool, true, not, Option, none, some, List, [], ◌∷◌, Text, lit, quoted, decimal,
  trim_space, ◌==◌, ◌is◌, if◌then◌else◌,
}
use ansible_supervisor_servi.Errors.{Error, Result, ok, err, error_text, is_permanent}
use ansible_supervisor_servi.Exec.{Exec, pure, raise, lift, attempt, labelled, ◌>>=◌, ◌>>◌}
use ansible_supervisor_servi.Objects.{Object}
use ansible_supervisor_servi.Awx.{Template, Client, Host, Launch, Vars, template_type_workflow}
use ansible_supervisor_servi.Engine.Reconcile.{CleanupResult}
use ansible_supervisor_servi.Vm.Model.{
  DeprovisionHook, DeprovisionStatus, VmSpec, VmStatus, OwnerReference, VmBody, VmServices, Visit,
  ask, tell, pinned, status_of, phase_failed, phase_launching, phase_running,
  targeting_managed_host, targeting_template,
}
use ansible_supervisor_servi.Vm.Ready.{check_owned_by_its_vm}
use ansible_supervisor_servi.Vm.Apply.{post_launch}
use ansible_supervisor_servi.Vm.Hook.{hook_of, set_hook, settle, persist, wait_for_hook}

-- What a hook is aimed at: what its own template says, or the inventory host of this VM.
pub data Aim : Type 0 where
  by_template : Aim
  at_host : Host → Aim

abbrev pub mode_of : Aim → String
mode_of by_template = targeting_template
mode_of (at_host h) = targeting_managed_host

-- What the passes of one hook go by.
pub record HookPass : Type 0 where
  pub child : Object VmBody
  pub spec : VmSpec
  pub prior : Option VmStatus
  pub owners : List OwnerReference
  pub hook : DeprovisionHook
  pub client : Client
  pub endpoint : String
  pub inventory : ℕ

abbrev uid_var : Result String → Vars
uid_var (ok uid) = if uid is "" then [] else ("asb_vm_uid", uid) ∷ []
uid_var (err e) = []

-- The deletion context of a playbook, in the order of the keys.
unfoldable pub hook_vars : HookPass → String → Vars
hook_vars p ip =
    ("asb_binding", p.spec.binding_name)
    ∷ ("asb_hook", "onDeleted")
    ∷ ("asb_last_known_ip", ip)
    ∷ ("asb_vm_name", p.spec.vm_name)
    ∷ uid_var (check_owned_by_its_vm p.child.name p.owners p.spec.vm_name)

abbrev pub is_workflow : HookPass → Bool
is_workflow p = p.hook.template.type is template_type_workflow

abbrev cause : Option Error → Text
cause none = []
cause (some e) = error_text e

abbrev pub accepted : Template → Vars → Vars
accepted tmpl vars = if tmpl.ask_variables_on_launch then vars else []

module _ {W : Type 0} (svc : VmServices W) where
  abbrev pub vars_note : Template → HookPass → String
  vars_note tmpl p =
      if tmpl.ask_variables_on_launch
      then ""
      else svc.render (
          lit "Template "
          ∷ quoted p.hook.template.name
          ∷ lit " does not accept variables at launch time, so the asb_* variables were not passed."
          ∷ [])

  abbrev refusal : Option Error → String → String
  refusal none before = before
  refusal (some e) before = svc.render (error_text e)

  -- The hook's record once its launch has made a job.
  abbrev pub tracked : HookPass → Launch → DeprovisionStatus → DeprovisionStatus
  tracked p l d = record d {
    job_id = l.job;
    job_url = svc.base.awx.job_url p.client l.job (is_workflow p);
    job_status = "pending";
    phase = phase_running;
    launch_error = refusal l.error d.launch_error;
  }

  unfoldable pub follow_launch : HookPass → Launch → Exec (Visit W) CleanupResult
  follow_launch p l =
      if l.job == 0
      then settle phase_failed (svc.render (lit "The hook could not be launched: " ∷ cause l.error))
      else (do
        set_hook (tracked p l)
        labelled (lit "recording deprovision job " ∷ decimal l.job ∷ [])
            (persist svc p.child p.prior)
        wait_for_hook svc)

  -- submitDeprovisionHook: that a launch goes out is on record before it does.
  unfoldable pub submit_deprovision_hook :
      HookPass → Template → String → Exec (Visit W) CleanupResult
  submit_deprovision_hook p tmpl limit = do
    st ← status_of
    set_hook (λ d. record d {
      phase = phase_launching;
      message = vars_note tmpl p;
      job_type = p.hook.template.type;
      endpoint = p.endpoint;
    })
    labelled (lit "recording the deprovision launch" ∷ []) (persist svc p.child p.prior)
    l ←
        post_launch svc p.client (is_workflow p) tmpl.id limit
          (accepted tmpl (hook_vars p st.observed_ip))
    follow_launch p l

  -- SetHostVariables, on the host that this pass found.
  unfoldable pub set_host_variables : Client → Host → Vars → Exec (Visit W) (Unit {0})
  set_host_variables client h vars s =
      (do
        merged ←
            labelled (lit "updating variables on host " ∷ quoted h.name ∷ [])
              (lift (svc.base.awx.merge_variables s.document vars))
        if merged is trim_space s.document then pure tt else (do
          labelled (lit "updating variables on host " ∷ quoted h.name ∷ [])
              (tell (pinned h.id) (svc.base.awx.patch_host client h.id merged))
          λ t. (ok tt, record t { document = merged })))
        s

  -- What the variable said is on record before the host is touched, and only the first time.
  unfoldable pub pin_host : HookPass → Host → Exec (Visit W) (Unit {0})
  pin_host p h = do
    d ← hook_of
    (if d.host_pinned then pure tt else (do
      document ← λ s. (ok s.document, s)
      set_hook (λ d. record d {
        prior_connection = svc.read_variable document "ansible_connection";
        host_pinned = true;
        pinned_host_id = h.id;
        pinned_host_endpoint = p.endpoint;
      })
      labelled (lit "recording the connection override on host " ∷ quoted h.name ∷ [])
          (persist svc p.child p.prior)))
    labelled
        (lit "pinning host "
          ∷ quoted h.name
          ∷ lit " to the control node before the deprovision hook"
          ∷ [])
        (set_host_variables p.client h (("ansible_connection", "local") ∷ []))

  -- The half of launchDeprovisionHook that narrows the run to a host: the template has to take a
  -- limit, and has to have the host's own inventory.
  unfoldable pub launch_at_host : HookPass → Host → Template → Exec (Visit W) CleanupResult
  launch_at_host p h tmpl =
      if not tmpl.ask_limit_on_launch
      then settle phase_failed (
          svc.render (
            lit "Template "
            ∷ quoted p.hook.template.name
            ∷ lit
                " does not accept a limit at launch time (ask_limit_on_launch is false), so AWX would have run it against the whole inventory rather than this host. Enable Prompt on Launch for Limit in AWX, or set spec.onDeleted.targeting: Template if the hook is meant to run against what the template itself targets."
            ∷ []))
      else elim tmpl.inventory [
        | none ↦ settle phase_failed (
            svc.render (
              lit "Template "
              ∷ quoted p.hook.template.name
              ∷ lit " has no inventory of its own, so a per-host limit cannot select "
              ∷ quoted h.name
              ∷ lit
                  ". Point spec.onDeleted.template at a template configured with the same inventory as spec.template, or set spec.onDeleted.targeting: Template to launch it as configured."
              ∷ []))
        | some i ↦
            if not (i == p.inventory)
            then settle phase_failed (
                svc.render (
                  lit "Template "
                  ∷ quoted p.hook.template.name
                  ∷ lit " runs against inventory "
                  ∷ decimal i
                  ∷ lit ", but host "
                  ∷ quoted h.name
                  ∷ lit " is in inventory "
                  ∷ decimal p.inventory
                  ∷ lit
                      ". A limit only selects hosts within the job's own inventory, so the hook would have run against the wrong host or none at all. Point spec.onDeleted.template at a template configured with the same inventory as spec.template, or set spec.onDeleted.targeting: Template to launch it as configured."
                  ∷ []))
            else pin_host p h >> submit_deprovision_hook p tmpl h.name
      ]

  unfoldable pub launch_aimed : HookPass → Aim → Template → Exec (Visit W) CleanupResult
  launch_aimed p by_template tmpl = submit_deprovision_hook p tmpl ""
  launch_aimed p (at_host h) tmpl = launch_at_host p h tmpl

  -- launchDeprovisionHook
  unfoldable pub launch_deprovision_hook : HookPass → Aim → Exec (Visit W) CleanupResult
  launch_deprovision_hook p aim = do
    r ← attempt (ask (svc.base.awx.resolve_template p.client p.hook.template))
    elim r [
      | err e ↦
          if is_permanent e
          then settle phase_failed
              (svc.render (lit "The hook template could not be resolved: " ∷ error_text e))
          else raise e
      | ok tmpl ↦ do set_hook (λ d. record d { targeting = mode_of aim }); launch_aimed p aim tmpl
    ]
