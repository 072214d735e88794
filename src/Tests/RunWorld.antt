-- ===== src/Tests/RunWorld.antt =====
-- A world of one run: the API server holds it, AWX answers every request and counts jobs.
use ansible_supervisor_servi.Prelude.{ℕ, ◌+◌, true, false, none, some, [], ◌∷◌}
use ansible_supervisor_servi.Errors.{ok}
use ansible_supervisor_servi.Objects.{Object}
use ansible_supervisor_servi.Time.{second}
use ansible_supervisor_servi.Awx.{Connection}
use ansible_supervisor_servi.Awx.{Client, Requests, template_type_job}
use ansible_supervisor_servi.Run.Model.{RunSpec, RunStatus, RunBody, decoded, Services}

abbrev pub spec : RunSpec
spec = record {
  awx_connection_ref = "awx";
  template = record { name = "site"; type = template_type_job };
  vm_ref = none;
  host_name = "";
  host_variables = [];
  hosts = record { name = "db-1"; address = ""; variables = [] } ∷ [];
  extra_vars = [];
  vars_from = [];
  cleanup_policy = "Delete";
  active_deadline_seconds = 0;
  ttl_seconds_after_finished = none;
}

abbrev pub run_object : RunStatus → Object RunBody
run_object st = record {
  namespace = "ns";
  name = "run";
  uid = "u1";
  resource_version = "5";
  generation = 1;
  finalizers = [];
  deleting = false;
  reconcile_requested = "";
  state = none;
  message = none;
  ready = none;
  body = decoded (some spec) st (some 0);
}

-- The object on the server, and the number of jobs that AWX has made.
pub record World : Type 0 where
  pub run : Object RunBody
  pub jobs : ℕ
  pub clock : ℕ

abbrev pub connection_awx : Connection
connection_awx = record {
  namespace = "ns";
  name = "awx";
  resource_version = "1";
  spec = record {
    url = "https://awx";
    secret_ref = "token";
    insecure_skip_verify = false;
    ca_bundle_secret_ref = none;
    api_base_path = "";
    prefix = "";
  };
  detected_base_path = "/api/v2";
}

abbrev pub client : Client
client = record { base_url = "https://awx"; base_path = "/api/v2" }

abbrev pub requests : Requests World
requests = record {
  resolve_template = λ c r w. (
    ok (record {
      id = 3;
      inventory = some 2;
      ask_limit_on_launch = true;
      ask_variables_on_launch = true;
    }),
    w,
  );
  resolve_template_cached = λ c k r w. (
    ok (record {
      id = 3;
      inventory = some 2;
      ask_limit_on_launch = true;
      ask_variables_on_launch = true;
    }),
    w,
  );
  find_host = λ c i n w. (ok none, w);
  get_host_by_id = λ c i w. (ok none, w);
  patch_host = λ c i v w. (ok tt, w);
  create_host = λ c i n m v w. (ok 9, w);
  delete_host = λ c i w. (ok tt, w);
  launch = λ c wf i l v w. (record { job = 7; error = none }, record w { jobs = w.jobs + 1 });
  job_status = λ c wf j w. (ok "running", w);
  cancel_job = λ c j wf w. (ok tt, w);
  recent_jobs = λ c t wf w. (ok [], w);
  job_url = λ c j wf. "https://awx/#/jobs/playbook/7/output";
  merge_variables = λ s v. ok s;
  encode_variables = λ v. "{}";
}

abbrev pub services : Services World
services = record {
  now = λ w. w.clock;
  tick = λ w. record w { clock = w.clock + second };
  get_run = λ ns n w. (ok w.run, w);
  update_status = λ o st v w.
      (ok "6", record w { run = record w.run { body = decoded (some spec) st (some 0) } });
  apply_status =
      λ o st w. (ok tt, record w { run = record w.run { body = decoded (some spec) st (some 0) } });
  delete_run = λ o w. (ok tt, w);
  connection = λ ns n w. (ok (some (connection_awx)), w);
  client_for = λ c w. (ok client, w);
  fingerprint = λ u b. "0123456789abcdef";
  vm_address = λ ns n w. (ok (some "10.0.0.1"), w);
  vars_from = λ ns src ev w. (ok ([], []), w);
  supervisor_id = "sup";
  awx = requests;
}

abbrev pub world : RunStatus → World
world st = record { run = run_object st; jobs = 0; clock = 1000 }
