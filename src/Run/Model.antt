-- ===== src/Run/Model.antt =====
-- The data of an AnsibleRun (controller/types.go), and the state of a pass over one.
use ansible_supervisor_servi.Prelude.{ℕ, String, Bool, Option, List, ◌∷◌, Text}
use ansible_supervisor_servi.Errors.{Error, Result, ok, errorf, terminal}
use ansible_supervisor_servi.Exec.{Exec}
use ansible_supervisor_servi.Objects.{Object}
use ansible_supervisor_servi.Time.{Stamp}
use ansible_supervisor_servi.Awx.{TemplateRef, Connection, Client, Launch, Vars, Requests, Host}

-- terminalf
abbrev pub terminalf : Text → Error
terminalf t = terminal (errorf t)

pub record RunHost : Type 0 where
  pub name : String
  pub address : String
  pub variables : Vars

pub record ResourceRef : Type 0 where
  pub api_version : String
  pub kind : String
  pub name : String

pub record VarsFromSource : Type 0 where
  pub resource : ResourceRef
  pub vars : Vars

-- AnsibleRunSpec. `vm_ref` is the name in spec.vmRef; the deadline and the TTL are int64 in seconds.
pub record RunSpec : Type 0 where
  pub awx_connection_ref : String
  pub template : TemplateRef
  pub vm_ref : Option String
  pub host_name : String
  pub host_variables : Vars
  pub hosts : List RunHost
  pub extra_vars : Vars
  pub vars_from : List VarsFromSource
  pub cleanup_policy : String
  pub active_deadline_seconds : ℕ
  pub ttl_seconds_after_finished : Option ℕ

pub record RunHostStatus : Type 0 where
  pub name : String
  pub address : String
  pub awx_host_id : ℕ
  pub awx_inventory_id : ℕ
  pub awx_host_created : Bool

-- AnsibleRunStatus without the four generic fields, which the object carries: what runStatusDetails
-- selects. A job id of 0 is none.
pub record RunStatus : Type 0 where
  pub job_id : ℕ
  pub job_url : String
  pub job_status : String
  pub started_at : Stamp
  pub finished_at : Stamp
  pub launch_attempted_at : Stamp
  pub cancel_requested_at : Stamp
  pub awx_endpoint : String
  pub failure_reason : Text
  pub resolved_vars : List String
  pub hosts : List RunHostStatus

-- What convertAnsibleRun makes of an object: its error, or the spec, which may be absent, the
-- status, zero where it is absent, and the creation time.
pub data RunBody : Type 0 where
  undecodable : Error → RunBody
  decoded : Option RunSpec → RunStatus → Option ℕ → RunBody

pub record RunTarget : Type 0 where
  pub name : String
  pub address : String
  pub requested_address : String
  pub overrides : Vars

-- runAWXContext
pub record AwxContext : Type 0 where
  pub conn : Connection
  pub client : Client
  pub endpoint : String
  pub is_workflow : Bool

-- The calls of a pass that change something outside it, and the reads that decide about a delete.
pub data RunCall : Type 0 where
  claimed : RunStatus → String → Result String → RunCall
  applied : RunStatus → Result (Unit {0}) → RunCall
  launched : Bool → ℕ → String → Vars → Launch → RunCall
  canceled : ℕ → Result (Unit {0}) → RunCall
  polled : ℕ → Result String → RunCall
  host_read : ℕ → Result (Option Host) → RunCall
  host_patched : ℕ → Result (Unit {0}) → RunCall
  host_created : ℕ → String → String → Result ℕ → RunCall
  host_deleted : ℕ → Result (Unit {0}) → RunCall
  run_deleted : String → Result (Unit {0}) → RunCall

-- What a pass over a run calls out to. `vm_address` is the read of a VirtualMachine followed by
-- vmReady, `none` where it is not ready; `vars_from` is resolveVarsFrom, which sorts the names.
pub record Services (W : Type 0) : Type 0 where
  pub now : W → ℕ
  pub tick : W → W
  pub get_run : String → String → W → Result (Object RunBody) × W
  pub update_status : Object RunBody → RunStatus → String → W → Result String × W
  pub apply_status : Object RunBody → RunStatus → W → Result (Unit {0}) × W
  pub delete_run : Object RunBody → W → Result (Unit {0}) × W
  pub connection : String → String → W → Result (Option Connection) × W
  pub client_for : Connection → W → Result Client × W
  pub fingerprint : String → String → String
  pub vm_address : String → String → W → Result (Option String) × W
  pub vars_from : String → List VarsFromSource → Vars → W → Result (Vars × List String) × W
  pub supervisor_id : String
  pub awx : Requests W

-- `status` is what `*AnsibleRunStatus` points to, `version` the resourceVersion of the object in
-- hand, and `calls` what the pass has called so far, the latest first.
pub record Pass (W : Type 0) : Type 0 where
  pub world : W
  pub status : RunStatus
  pub version : String
  pub calls : List RunCall

module _ {W A : Type 0} where
  abbrev pub answered : Pass W → Result A × W → Result A × Pass W
  answered s (r, w) = (r, record s { world = w })

  -- A call that is not recorded.
  abbrev pub ask : (W → Result A × W) → Exec (Pass W) A
  ask f s = answered s (f s.world)

  abbrev pub noted : Pass W → (Result A → RunCall) → Result A × W → Result A × Pass W
  noted s c (r, w) = (r, record s { world = w; calls = c r ∷ s.calls })

  -- A call that is recorded with its answer.
  abbrev pub tell : (Result A → RunCall) → (W → Result A × W) → Exec (Pass W) A
  tell c f s = noted s c (f s.world)

module _ {W : Type 0} where
  abbrev pub status_of : Exec (Pass W) RunStatus
  status_of s = (ok s.status, s)

  abbrev pub set_status : (RunStatus → RunStatus) → Exec (Pass W) (Unit {0})
  set_status f s = (ok tt, record s { status = f s.status })

  abbrev pub set_version : String → Exec (Pass W) (Unit {0})
  set_version v s = (ok tt, record s { version = v })
