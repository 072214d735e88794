-- ===== src/Awx.antt =====
-- What the controller knows of AWX: the data of controller/awx_client.go and of AWXConnection in
-- controller/types.go, and the requests that the client sends.
pub mod Lookup
use ansible_supervisor_servi.Prelude.{ℕ, String, Bool, Option, List}
use ansible_supervisor_servi.Errors.{Error, Result}

pub record TemplateRef : Type 0 where
  pub name : String
  pub type : String

abbrev pub template_type_job : String
template_type_job = "JobTemplate"

abbrev pub template_type_workflow : String
template_type_workflow = "WorkflowTemplate"

-- AWXTemplate
pub record Template : Type 0 where
  pub id : ℕ
  pub inventory : Option ℕ
  pub ask_limit_on_launch : Bool
  pub ask_variables_on_launch : Bool

-- hostResult
pub record Host : Type 0 where
  pub id : ℕ
  pub name : String
  pub description : String
  pub variables : String

-- AWXJob; `created` is none for the zero time of a timestamp that does not parse.
pub record Job : Type 0 where
  pub id : ℕ
  pub limit : String
  pub status : String
  pub created : Option ℕ

-- SecretKeyRef
pub record SecretKeyRef : Type 0 where
  pub name : String
  pub key : String

-- AWXConnectionSpec; `ca_bundle_secret_ref` is none for a nil pointer, `prefix` is hostNamePrefix.
pub record ConnectionSpec : Type 0 where
  pub url : String
  pub secret_ref : String
  pub insecure_skip_verify : Bool
  pub ca_bundle_secret_ref : Option SecretKeyRef
  pub api_base_path : String
  pub prefix : String

-- AWXConnection with a spec; `detected_base_path` is status.apiBasePath, "" where there is no status.
pub record Connection : Type 0 where
  pub namespace : String
  pub name : String
  pub resource_version : String
  pub spec : ConnectionSpec
  pub detected_base_path : String

-- AWXClient, with the API base path that it was built for.
pub record Client : Type 0 where
  pub base_url : String
  pub base_path : String

-- The two results of LaunchJobTemplate and LaunchWorkflowJobTemplate; `job` is 0 where no job is
-- known, and a job may come with an error, for fields that AWX ignored.
pub record Launch : Type 0 where
  pub job : ℕ
  pub error : Option Error

abbrev pub Vars : Type 0
Vars = List (String × String)

-- The requests. Each may fail, and each may change the world.
pub record Requests (W : Type 0) : Type 0 where
  pub resolve_template : Client → TemplateRef → W → Result Template × W
  pub resolve_template_cached : Client → Connection → TemplateRef → W → Result Template × W
  pub find_host : Client → ℕ → String → W → Result (Option Host) × W
  pub get_host_by_id : Client → ℕ → W → Result (Option Host) × W
  pub patch_host : Client → ℕ → String → W → Result (Unit {0}) × W
  pub create_host : Client → ℕ → String → String → String → W → Result ℕ × W
  pub delete_host : Client → ℕ → W → Result (Unit {0}) × W
  pub launch : Client → Bool → ℕ → String → Vars → W → Launch × W
  pub job_status : Client → Bool → ℕ → W → Result String × W
  pub cancel_job : Client → ℕ → Bool → W → Result (Unit {0}) × W
  pub recent_jobs : Client → ℕ → Bool → W → Result (List Job) × W
  pub job_url : Client → ℕ → Bool → String
  pub merge_variables : String → Vars → Result String
  pub encode_variables : Vars → String
