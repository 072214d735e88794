-- ===== src/Vm/Poll.antt =====
-- pollRecordedJob of controller/ansiblebindingvm.go, and the names that both passes over an
-- AnsibleBindingVM use.
use ansible_supervisor_servi.Prelude.{ℕ, String, none, some, [], ◌∷◌, lit, quoted, concat, ◌is◌}
use ansible_supervisor_servi.Errors.{errorf}
use ansible_supervisor_servi.Exec.{Exec, pure, raise, labelled, ◌>>=◌}
use ansible_supervisor_servi.Awx.{Connection, Client, template_type_workflow}
use ansible_supervisor_servi.Run.Hosts.{host_marker_prefix}
use ansible_supervisor_servi.Run.Recover.{map_awx_status, succeeded, failed, running}
use ansible_supervisor_servi.Vm.Model.{
  VmSpec, VmStatus, VmServices, Visit, ask, tell, polled, phase_succeeded, phase_failed,
  phase_running,
}
use ansible_supervisor_servi.Vm.Ready.{has_recorded_launch_identity}

-- mapAWXStatus
unfoldable pub phase_of : String → String
phase_of status = elim (map_awx_status status) [
  | succeeded ↦ phase_succeeded
  | failed ↦ phase_failed
  | running ↦ phase_running
]

-- hostOwnerMarker
unfoldable pub host_owner_marker : String → String → String → String
host_owner_marker supervisor namespace name =
    concat host_marker_prefix (concat supervisor (concat ":" (concat namespace (concat "/" name))))

module _ {W : Type 0} (svc : VmServices W) where
  -- The connection by name. A connection that has no spec, or that does not decode, is none.
  unfoldable pub connection_of : String → VmSpec → Exec (Visit W) Connection
  connection_of namespace spec = do
    found ←
        labelled (lit "fetching AWXConnection " ∷ quoted spec.awx_connection_ref ∷ [])
          (ask (svc.base.connection namespace spec.awx_connection_ref))
    elim found [
      | some conn ↦ pure conn
      | none ↦
          raise (
            errorf
              (lit "AWXConnection " ∷ quoted spec.awx_connection_ref ∷ lit " has no spec" ∷ []))
    ]

  -- pollJobStatus
  unfoldable pub poll_job : Client → String → ℕ → Exec (Visit W) String
  poll_job client template_type job =
      tell (polled job)
        (svc.base.awx.job_status client (template_type is template_type_workflow) job)

  -- A job is polled where and as it was launched. A job from before that was recorded is polled with
  -- what the spec names now.
  unfoldable pub poll_recorded_job : String → VmSpec → VmStatus → Exec (Visit W) String
  unfolding connection_of poll_job
  poll_recorded_job namespace spec st = elim (has_recorded_launch_identity st) [
    | none ↦ do
      conn ← connection_of namespace spec
      client ← ask (svc.base.client_for conn)
      poll_job client spec.template.type st.last_job_id
    | some recorded ↦ do
      client ← ask (svc.client_with namespace spec.awx_connection_ref recorded)
      poll_job client st.last_job_type st.last_job_id
  ]
