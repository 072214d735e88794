-- ===== src/Tests/Run.antt =====
-- Runs at concrete inputs.
use ansible_supervisor_servi.Prelude.{
  arith, ℕ, ◌≡◌, refl, sym, ap, Option, Bool, true, false, any, ◌&&◌, none, some, [], ◌∷◌,
}
use ansible_supervisor_servi.Errors.{Result, ok}
use ansible_supervisor_servi.Time.{at, since, now_rfc3339}
use ansible_supervisor_servi.Awx.{Job, Host}
use ansible_supervisor_servi.Run.Model.{
  RunStatus, RunHostStatus, decoded, AwxContext, Services, Pass,
}
use ansible_supervisor_servi.Run.Hosts.{run_limit, run_host_owner_marker}
use ansible_supervisor_servi.Run.Hosts.Recorded.{
  key, same_key, record_all, run_limit_retry, created_kept, has_key,
}
use ansible_supervisor_servi.Run.Recover.{
  awx_context_for_run, run_connection, poll_job, poll_run, record_outcome, is_terminal_awx_status,
}
use ansible_supervisor_servi.Run.Launch.{write_run_details, apply_details, read_clock}
use ansible_supervisor_servi.Run.Apply.{
  no_status, start_pass, apply_ansible_run, read_run_live, drive, reconcile_run, advance_run,
}
use ansible_supervisor_servi.Run.Core.{core}
use ansible_supervisor_servi.Run.AtMostOnce.{gated, launch_at_most_once}
use ansible_supervisor_servi.Run.Cleanup.{
  hosts_to_delete, cleanup_ansible_run, stop_and_delete, cancel_and_confirm, request_stop, observe,
  note_status, confirm_stop,
}
use ansible_supervisor_servi.Run.Cleanup.Deletes.{deletions, checked, cleanup_deletes_checked}
use ansible_supervisor_servi.Run.Cleanup.Stops.{stop_before_delete}
use ansible_supervisor_servi.Run.Report.{update_ansible_run_status}
use ansible_supervisor_servi.Run.Report.Outcome.{outcome_reported}
use ansible_supervisor_servi.Engine.Patch.{patch_status}
use ansible_supervisor_servi.Run.Recover.{recover_lost_launch, match_jobs}
use ansible_supervisor_servi.Run.Recover.Adopted.{lost_job_adopted}
use ansible_supervisor_servi.Run.Apply.Finished.{allowed, beyond, finished_frozen}
use ansible_supervisor_servi.Run.Hosts.Foreign.{owned_elsewhere, patches, foreign_host_unwritten}
use ansible_supervisor_servi.Run.Launch.{upsert_hosts}
use ansible_supervisor_servi.Run.Model.{RunTarget}
use ansible_supervisor_servi.Prelude.{keep, join, trim_space}
use ansible_supervisor_servi.Tests.RunWorld.{
  spec, run_object, client, connection_awx, services, World, world,
}

launch_at_most_once_example :
    gated no_status "5" (
      core
        (apply_ansible_run services (run_object no_status) (start_pass (world no_status))).1.calls)
    ≡ true
launch_at_most_once_example =
    launch_at_most_once services (run_object no_status) (run_object no_status) (world no_status)
      spec no_status (some 0) refl refl

abbrev host_of : ℕ → RunHostStatus
host_of n = record {
  name = "db-1";
  address = "";
  awx_host_id = n;
  awx_inventory_id = 2;
  awx_host_created = true;
}

abbrev web : RunHostStatus
web = record {
  name = "web-1";
  address = "";
  awx_host_id = 4;
  awx_inventory_id = 2;
  awx_host_created = false;
}

run_limit_retry_example :
    run_limit (record_all (host_of 9 ∷ []) (host_of 9 ∷ web ∷ []))
    ≡ run_limit (host_of 9 ∷ web ∷ [])
unfolding has_key
run_limit_retry_example = run_limit_retry (host_of 9 ∷ []) (host_of 9 ∷ []) (web ∷ []) refl refl

created_kept_example :
    any
      (λ (x : RunHostStatus). same_key (key x) ("db-1", 2) && x.awx_host_created)
      (record_all (host_of 9 ∷ []) (web ∷ []))
    ≡ true
created_kept_example = created_kept (host_of 9 ∷ []) (web ∷ []) "db-1" 2 refl

-- A run with a job that is still to be stopped, and the same one with nothing to stop.
abbrev busy : RunStatus
busy = record no_status {
  job_id = 7;
  job_status = "running";
  cancel_requested_at = at 0;
  hosts = host_of 9 ∷ [];
}

abbrev finished : RunStatus
finished = record busy { job_status = "failed" }

-- AWX holds host 9 under the run's marker.
abbrev owning : Services World
owning = record services {
  awx = record services.awx {
    get_host_by_id = λ c i w. (
      ok (
          some (record {
            id = 9;
            name = "db-1";
            description = "ansible-supervisor:sup:ns/ansibleruns/run";
            variables = "";
          })),
      w,
    );
  };
}

cleanup_deletes_checked_example :
    checked (run_host_owner_marker "sup" "ns" "run") (hosts_to_delete spec finished) (
      deletions
        (cleanup_ansible_run owning (run_object finished) (start_pass (world finished))).1.calls)
    ≡ true
unfolding read_run_live
cleanup_deletes_checked_example =
    cleanup_deletes_checked owning (run_object finished) (run_object finished) spec finished
      (some 0) (world finished) refl refl

abbrev awx : AwxContext
awx = record {
  conn = connection_awx;
  client = client;
  endpoint = "0123456789abcdef";
  is_workflow = false;
}

abbrev pass_at : RunStatus → Pass World
pass_at st = record { world = world st; status = st; version = "5"; calls = [] }

-- The clock stands still.
abbrev still : Services World
still = record services { now = λ w. 1000 }

stop_before_delete_example :
    deletions
      (stop_and_delete still (run_object busy) awx (host_of 9 ∷ []) true (pass_at busy)).1.calls
    ≡ []
unfolding stop_and_delete cancel_and_confirm request_stop observe note_status confirm_stop poll_job
    is_terminal_awx_status write_run_details read_clock since
stop_before_delete_example =
    stop_before_delete still (run_object busy) awx (host_of 9 ∷ []) 0 (pass_at busy) refl
      (λ w. omega arith) refl

outcome_reported_example :
    (update_ansible_run_status
      (record (run_object busy) {
        body =
            decoded
              (some spec)
              (drive services (run_object busy) spec (pass_at busy)).1.status
              none;
      })
      true
      none).state
    ≡ "Running"
unfolding drive reconcile_run awx_context_for_run run_connection advance_run poll_run poll_job
    record_outcome is_terminal_awx_status write_run_details apply_details patch_status
outcome_reported_example =
    outcome_reported services (run_object busy) spec none awx "running" true none (pass_at busy)
      (λ o st w x e. cc) refl refl refl refl refl refl

-- A launch at 1.5 s, whose job AWX made at 2 s, and a job of someone else.
abbrev lost : Job
lost = record { id = 7; limit = "db-1"; status = "running"; created = some 2000000000 }

abbrev other : Job
other = record { id = 8; limit = "web-1"; status = "running"; created = some 3000000000 }

abbrev listing : Services World
listing = record services {
  awx = record services.awx { recent_jobs = λ c t wf w. (ok (other ∷ lost ∷ []), w) };
}

abbrev launching : RunStatus
launching = record no_status { launch_attempted_at = at 1; hosts = host_of 9 ∷ [] }

lost_job_adopted_example :
    (recover_lost_launch listing
      (run_object launching)
      spec
      awx
      (now_rfc3339 1500000000)
      (pass_at launching)).1.status.job_id
    ≡ 7
unfolding match_jobs keep run_limit join
lost_job_adopted_example =
    lost_job_adopted listing (run_object launching) spec awx 1500000000 2000000000
      (record {
        id = 3;
        inventory = some 2;
        ask_limit_on_launch = true;
        ask_variables_on_launch = true;
      })
      (other ∷ []) [] lost (pass_at launching) refl refl (omega arith) refl refl refl refl

abbrev over : RunStatus
over = record finished { finished_at = at 5 }

abbrev foreign : Host
foreign = record { id = 5; name = "db-1"; description = "ansible-supervisor:x:a/b"; variables = "" }

abbrev claimed : Services World
claimed = record services {
  awx = record services.awx { find_host = λ c i n w. (ok (some foreign), w) };
}

finished_frozen_example :
    (allowed none "u1"
        (apply_ansible_run services (run_object over) (start_pass (world over))).1.calls
      ≡ true)
    × ((apply_ansible_run services (run_object over) (start_pass (world over))).1.status ≡ over)
    × (apply_ansible_run services (run_object over) (start_pass (world over))
        ≡ apply_ansible_run (beyond services claimed) (run_object over) (start_pass (world over)))
unfolding read_run_live
finished_frozen_example =
    finished_frozen services claimed (run_object over) (run_object over) spec over (some 0)
      (world over) refl refl refl

abbrev target : RunTarget
target = record {
  name = "db-1";
  address = "10.0.0.1";
  requested_address = "10.0.0.1";
  overrides = [];
}

abbrev elsewhere : Result (Option Host) → Bool
elsewhere (ok (some h)) = owned_elsewhere (run_host_owner_marker "sup" "ns" "run") h
elsewhere _ = false

foreign_host_unwritten_example :
    patches 5
      (upsert_hosts claimed
        (run_object no_status)
        awx
        (some 2)
        (target ∷ [])
        (pass_at no_status)).1.calls
    ≡ []
unfolding trim_space run_host_owner_marker
foreign_host_unwritten_example =
    foreign_host_unwritten claimed 5 (run_object no_status) awx (some 2) (target ∷ [])
      (pass_at no_status) (λ inventory name w h e i. sym (ap elsewhere e))
