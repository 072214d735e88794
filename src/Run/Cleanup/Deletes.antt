-- ===== src/Run/Cleanup/Deletes.antt =====
-- Which hosts cleanup deletes, and when.
use ansible_supervisor_servi.Prelude.{
  ℕ, ◌*◌, String, ◌≡◌, refl, Bool, true, false, not, ◌&&◌, Option, none, some, List, [], ◌∷◌, arith,
  inl, inr, ◌==◌, ◌is◌, any, all, trim_space, Bool-cases, if◌then◌else◌,
}
use ansible_supervisor_servi.Errors.{Error, ok}
use ansible_supervisor_servi.Exec.{Exec, ◌>>=◌}
use ansible_supervisor_servi.Objects.{Object}
use ansible_supervisor_servi.Time.{Stamp, at, second}
use ansible_supervisor_servi.Awx.{Job}
use ansible_supervisor_servi.Engine.Patch.{label}
use ansible_supervisor_servi.Engine.Patch.Keeps.{patch_status_invariant, Result-cases}
use ansible_supervisor_servi.Run.Model.{
  RunSpec, RunStatus, RunHostStatus, RunBody, decoded, RunCall, host_read, host_deleted, AwxContext,
  Services, Pass,
}
use ansible_supervisor_servi.Run.Hosts.{run_host_owner_marker}
use ansible_supervisor_servi.Run.Launch.{apply_details, write_run_details}
use ansible_supervisor_servi.Run.Recover.{
  is_terminal_awx_status, run_connection, match_lost_launch_jobs, poll_job, context_of, post_cancel,
  stamp_cancel,
}
use ansible_supervisor_servi.Run.Apply.{start_pass, read_run_live}
use ansible_supervisor_servi.Run.Cleanup.{
  hosts_to_delete, is_cancelling, is_unresolved, first_error, request_stop, observe, adopt_found,
  note_status, confirm_stop, cancel_and_confirm, adopt_for_cleanup, resolve_lost_job_for_cleanup,
  delete_one, delete_hosts, delete_all, stop_and_delete, cleanup_at, cleanup_with_client,
  cleanup_reaching, cleanup_decoded, cleanup_body, cleanup_ansible_run,
}

-- The reads and deletes of hosts, in their order.
abbrev pub deletions : List RunCall → List RunCall
deletions [] = []
deletions (host_read i r ∷ cs) = host_read i r ∷ deletions cs
deletions (host_deleted i r ∷ cs) = host_deleted i r ∷ deletions cs
deletions (_ ∷ cs) = deletions cs

-- Each delete is of one of `hosts`, and comes right after a read of the same host that found it
-- with the description `marker`, up to surrounding space.
abbrev pub checked : String → List RunHostStatus → List RunCall → Bool
checked marker hosts [] = true
checked marker hosts (host_deleted i d ∷ (host_read j (ok (some host)) ∷ cs)) =
    (i == j)
    && (trim_space host.description is marker)
    && any (λ (h : RunHostStatus). h.awx_host_id == i) hosts
    && checked marker hosts cs
checked marker hosts (host_deleted i d ∷ cs) = false
checked marker hosts (_ ∷ cs) = checked marker hosts cs

abbrev owns : List RunHostStatus → RunHostStatus → Bool
owns hosts h = any (λ (k : RunHostStatus). k.awx_host_id == h.awx_host_id) hosts

owns-more :
    (h : RunHostStatus) (hosts hs : List RunHostStatus)
    → all (owns hosts) hs ≡ true
    → all (owns (h ∷ hosts)) hs ≡ true
owns-more h hosts [] e = refl
owns-more h hosts (k ∷ hs) e = ground (arith, owns-more h hosts hs)

all_own : (hs : List RunHostStatus) → all (owns hs) hs ≡ true
all_own [] = refl
all_own (h ∷ hs) = ground (arith, owns-more h hs hs (all_own hs))

module _ {W : Type 0} (svc : Services W) where
  abbrev pub SameDeletions : {A : Type 0} → Exec (Pass W) A → Pass W → Type 0
  SameDeletions m s = deletions (m s).1.calls ≡ deletions s.calls

  SameDeletions-bind :
      {A B : Type 0} (m : Exec (Pass W) A) (f : A → Exec (Pass W) B) (s : Pass W)
      → SameDeletions m s
      → ((a : A) → SameDeletions (f a) (m s).1)
      → SameDeletions (m >>= f) s
  SameDeletions-bind m f s h k = elim (Result-cases (m s).0) [
    | inl (a, e) ↦ ground (arith, e, h, k a)
    | inr (x, e) ↦ ground (arith, e, h)
  ]

  write-SameDeletions :
      (u : Object RunBody) (s : Pass W) → SameDeletions (write_run_details svc u) s
  unfolding write_run_details
  write-SameDeletions u s =
      patch_status_invariant (λ t. deletions t.calls ≡ deletions s.calls)
        (apply_details svc u s.status) (λ t h. unfold apply_details in h) (label u) s refl

  request_stop-SameDeletions :
      (u : Object RunBody) (awx : AwxContext) (st : RunStatus) (s : Pass W)
      → SameDeletions (request_stop svc u awx st) s
  unfolding request_stop post_cancel stamp_cancel
  request_stop-SameDeletions u awx st s =
      let posted = (post_cancel svc awx st.job_id s).1 in
      ground (arith, write-SameDeletions u (stamp_cancel svc posted).1)

  note_status-SameDeletions :
      (u : Object RunBody) (status : String) (s : Pass W)
      → SameDeletions (note_status svc u status) s
  unfolding note_status
  note_status-SameDeletions u status s =
      ground (
        arith,
        write-SameDeletions u (record s { status = record s.status { job_status = status } }),
      )

  confirm_stop-SameDeletions :
      (status : String) (s : Pass W) → SameDeletions (confirm_stop svc status) s
  unfolding confirm_stop
  confirm_stop-SameDeletions status s = ground arith

  delete_one-checked :
      (awx : AwxContext) (marker : String) (hosts : List RunHostStatus) (h : RunHostStatus)
      (s : Pass W)
      → any (λ (k : RunHostStatus). k.awx_host_id == h.awx_host_id) hosts ≡ true
      → checked marker hosts (deletions s.calls) ≡ true
      → checked marker hosts (deletions (delete_one svc awx marker h s).1.calls) ≡ true
  unfolding delete_one
  delete_one-checked awx marker hosts h s m c = ground arith

  delete_hosts-checked :
      (awx : AwxContext) (marker : String) (hosts hs : List RunHostStatus) (first : Option Error)
      (s : Pass W)
      → all (owns hosts) hs ≡ true
      → checked marker hosts (deletions s.calls) ≡ true
      → checked marker hosts (deletions (delete_hosts svc awx marker hs first s).1.calls) ≡ true
  unfolding delete_hosts
  delete_hosts-checked awx marker hosts [] first s m c = c
  delete_hosts-checked awx marker hosts (h ∷ hs) first s m c =
      elim (Result-cases (delete_one svc awx marker h s).0) [
        | inl (x, e) ↦ ground (
          arith,
          e,
          delete_one-checked awx marker hosts h s,
          delete_hosts-checked awx marker hosts hs (first_error first x)
              (delete_one svc awx marker h s).1,
        )
        | inr (x, e) ↦ ground (arith, e, delete_one-checked awx marker hosts h s)
      ]

  pub cancel_and_confirm-SameDeletions :
      (u : Object RunBody) (awx : AwxContext) (s : Pass W)
      → SameDeletions (cancel_and_confirm svc u awx) s
  unfolding cancel_and_confirm
  cancel_and_confirm-SameDeletions u awx s =
      SameDeletions-bind (request_stop svc u awx s.status) _ s
        (request_stop-SameDeletions u awx s.status s)
        λ _.
          let asked = (request_stop svc u awx s.status s).1 in
          SameDeletions-bind (observe svc awx) _ asked (unfold observe poll_job in ground arith)
            λ status.
              let seen = (observe svc awx asked).1 in
              SameDeletions-bind (note_status svc u status) _ seen
                (note_status-SameDeletions u status seen)
                (λ _. confirm_stop-SameDeletions status (note_status svc u status seen).1)

  adopt-SameDeletions :
      (u : Object RunBody) (awx : AwxContext) (jobs : List Job) (s : Pass W)
      → SameDeletions (adopt_for_cleanup svc u awx jobs) s
  unfolding adopt_for_cleanup adopt_found
  adopt-SameDeletions u awx [] s = refl
  adopt-SameDeletions u awx (job ∷ []) s =
      ground (arith, write-SameDeletions u (adopt_found svc awx job s).1)
  adopt-SameDeletions u awx (job ∷ (other ∷ jobs)) s = refl

  match-SameDeletions :
      (spec : RunSpec) (awx : AwxContext) (a : ℕ) (s : Pass W)
      → SameDeletions (match_lost_launch_jobs svc spec awx a) s
  unfolding match_lost_launch_jobs
  match-SameDeletions spec awx a s = ground arith

  resolve-SameDeletions :
      (u : Object RunBody) (spec : RunSpec) (awx : AwxContext) (sent : Stamp) (s : Pass W)
      → SameDeletions (resolve_lost_job_for_cleanup svc u spec awx sent) s
  unfolding resolve_lost_job_for_cleanup
  resolve-SameDeletions u spec awx (at n) s =
      let found = match_lost_launch_jobs svc spec awx (n * second) s in
      elim (Result-cases found.0) [
        | inl (jobs, e) ↦ ground (
          arith,
          e,
          match-SameDeletions spec awx (n * second) s,
          adopt-SameDeletions u awx jobs found.1,
        )
        | inr (x, e) ↦ ground (arith, e, match-SameDeletions spec awx (n * second) s)
      ]
  resolve-SameDeletions u spec awx _ s = refl

  -- The calls so far are those of a cleanup that checks each host it deletes.
  abbrev Checks : Object RunBody → List RunHostStatus → Pass W → Type 0
  Checks u hosts s =
      checked (run_host_owner_marker svc.supervisor_id u.namespace u.name) hosts (deletions s.calls)
      ≡ true

  delete_all-checked :
      (u : Object RunBody) (awx : AwxContext) (hosts : List RunHostStatus) (s : Pass W)
      → Checks u hosts s
      → Checks u hosts (delete_all svc u awx hosts s).1
  unfolding delete_all
  delete_all-checked u awx hosts s c =
      let marker = run_host_owner_marker svc.supervisor_id u.namespace u.name in
      elim (Result-cases (delete_hosts svc awx marker hosts none s).0) [
        | inl (x, e) ↦
            ground (arith, e, delete_hosts-checked awx marker hosts hosts none s (all_own hosts))
        | inr (x, e) ↦
            ground (arith, e, delete_hosts-checked awx marker hosts hosts none s (all_own hosts))
      ]

  stop_and_delete-checked :
      (u : Object RunBody) (awx : AwxContext) (hosts : List RunHostStatus) (cancelling : Bool)
      (s : Pass W)
      → Checks u hosts s
      → Checks u hosts (stop_and_delete svc u awx hosts cancelling s).1
  unfolding stop_and_delete
  stop_and_delete-checked u awx hosts true s c =
      elim (Result-cases (cancel_and_confirm svc u awx s).0) [
        | inl (r, e) ↦ ground (
          arith,
          e,
          cancel_and_confirm-SameDeletions u awx s,
          delete_all-checked u awx hosts (cancel_and_confirm svc u awx s).1,
        )
        | inr (x, e) ↦ ground (arith, e, cancel_and_confirm-SameDeletions u awx s)
      ]
  stop_and_delete-checked u awx hosts false s c = ground (arith, delete_all-checked u awx hosts s c)

  cleanup_at-checked :
      (u : Object RunBody) (spec : RunSpec) (awx : AwxContext) (st : RunStatus) (s : Pass W)
      → Checks u (hosts_to_delete spec st) s
      → Checks u (hosts_to_delete spec st) (cleanup_at svc u spec awx st s).1
  unfolding cleanup_at
  cleanup_at-checked u spec awx st s c =
      let hosts = hosts_to_delete spec st in
      let looked = resolve_lost_job_for_cleanup svc u spec awx st.launch_attempted_at s in
      elim (Bool-cases (is_unresolved st)) [
        | inl y ↦ elim (Result-cases looked.0) [
          | inl (b, e) ↦ ground (
            arith,
            y,
            e,
            resolve-SameDeletions u spec awx st.launch_attempted_at s,
            stop_and_delete-checked u awx hosts
                (if b
                  then not (is_terminal_awx_status looked.1.status.job_status)
                  else is_cancelling st)
                looked.1,
          )
          | inr (x, e) ↦
              ground (arith, y, e, resolve-SameDeletions u spec awx st.launch_attempted_at s)
        ]
        | inr n ↦ ground (arith, n, stop_and_delete-checked u awx hosts (is_cancelling st) s c)
      ]

  cleanup_with_client-checked :
      (u : Object RunBody) (spec : RunSpec) (st : RunStatus) (awx : AwxContext) (s : Pass W)
      → Checks u (hosts_to_delete spec st) s
      → Checks u (hosts_to_delete spec st) (cleanup_with_client svc u spec st awx s).1
  unfolding cleanup_with_client
  cleanup_with_client-checked u spec st awx s c =
      ground (arith, cleanup_at-checked u spec awx st s c)

  cleanup_reaching-checked :
      (u : Object RunBody) (spec : RunSpec) (st : RunStatus) (s : Pass W)
      → Checks u (hosts_to_delete spec st) s
      → Checks u (hosts_to_delete spec st) (cleanup_reaching svc u spec st s).1
  unfolding cleanup_reaching run_connection
  cleanup_reaching-checked u spec st s c =
      elim (Result-cases (run_connection svc u.namespace spec s).0) [
        | inl (conn, e) ↦
            let seen = (run_connection svc u.namespace spec s).1 in
            let w = (svc.client_for conn seen.world).1 in
            elim (Result-cases (svc.client_for conn seen.world).0) [
              | inl (client, f) ↦ ground (
                arith,
                e,
                f,
                cleanup_with_client-checked u spec st (context_of svc spec conn client)
                    (record seen { world = w }),
              )
              | inr (x, f) ↦ ground (arith, e, f)
            ]
        | inr (x, e) ↦ ground (arith, e)
      ]

  cleanup_decoded-checked :
      (u : Object RunBody) (spec : RunSpec) (st : RunStatus) (s : Pass W)
      → Checks u (hosts_to_delete spec st) s
      → Checks u (hosts_to_delete spec st) (cleanup_decoded svc u spec st s).1
  unfolding cleanup_decoded
  cleanup_decoded-checked u spec st s c = ground (arith, cleanup_reaching-checked u spec st s c)

  -- Cleaning up a run deletes an AWX host only where the run's live status says that this run
  -- created it and the policy is not Retain (`hosts_to_delete`), and only right after AWX answered
  -- that the host with this id carries the run's own marker as its description.
  pub cleanup_deletes_checked :
      (cached u : Object RunBody) (spec : RunSpec) (st : RunStatus) (created : Option ℕ) (w : W)
      → (read_run_live svc cached (start_pass w)).0 ≡ ok (some u)
      → u.body ≡ decoded (some spec) st created
      → checked
          (run_host_owner_marker svc.supervisor_id u.namespace u.name)
          (hosts_to_delete spec st)
          (deletions (cleanup_ansible_run svc cached (start_pass w)).1.calls)
        ≡ true
  unfolding cleanup_ansible_run cleanup_body read_run_live
  cleanup_deletes_checked cached u spec st created w live body =
      let seen = (read_run_live svc cached (start_pass w)).1 in
      ground (
        arith,
        live,
        body,
        cleanup_decoded-checked u spec st
            (record seen { status = st; version = u.resource_version }),
      )
