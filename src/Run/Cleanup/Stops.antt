-- ===== src/Run/Cleanup/Stops.antt =====
-- Cleanup waits for the run's job to stop before it deletes a host.
use ansible_supervisor_servi.Prelude.{
  ℕ, ◌+◌, ◌*◌, ◌≤◌, String, ◌≡◌, refl, Bool, true, false, ◌&&◌, ◌||◌, List, [], ◌∷◌, arith, inl,
  inr, Option, none, ◌==◌,
}
use ansible_supervisor_servi.Errors.{Error, ok}
use ansible_supervisor_servi.Objects.{Object}
use ansible_supervisor_servi.Time.{at, since, second}
use ansible_supervisor_servi.Engine.Patch.{label}
use ansible_supervisor_servi.Engine.Patch.Keeps.{patch_status_invariant, Result-cases}
use ansible_supervisor_servi.Engine.Reconcile.{CleanupResult}
use ansible_supervisor_servi.Run.Model.{
  RunHostStatus, RunBody, RunCall, polled, AwxContext, Services, Pass,
}
use ansible_supervisor_servi.Run.Hosts.{run_host_owner_marker}
use ansible_supervisor_servi.Run.Launch.{apply_details, write_run_details, read_clock}
use ansible_supervisor_servi.Run.Recover.{is_terminal_awx_status, poll_job}
use ansible_supervisor_servi.Run.Cleanup.{
  cancel_confirm_timeout, request_stop, observe, note_status, confirm_stop, cancel_and_confirm,
  delete_one, delete_hosts, delete_all, stop_and_delete, first_error,
}
use ansible_supervisor_servi.Run.Cleanup.Deletes.{deletions, cancel_and_confirm-SameDeletions}

-- AWX answered a poll of this job with a status that is terminal.
abbrev pub stopped : ℕ → List RunCall → Bool
stopped job [] = false
stopped job (polled i (ok status) ∷ cs) =
    (i == job) && is_terminal_awx_status status || stopped job cs
stopped job (_ ∷ cs) = stopped job cs

module _ {W : Type 0} (svc : Services W) where
  -- The status and the polls are those of before, but for the job's status.
  unfoldable SameRequest : ℕ → Pass W → Pass W → Type 0
  SameRequest job s t =
      (stopped job t.calls ≡ stopped job s.calls)
      × (t.status.cancel_requested_at ≡ s.status.cancel_requested_at)

  note_status-SameRequest :
      (job : ℕ) (u : Object RunBody) (status : String) (s : Pass W)
      → SameRequest job s (note_status svc u status s).1
  unfolding note_status write_run_details SameRequest
  note_status-SameRequest job u status s =
      let st = record s.status { job_status = status } in
      let s' = record s { status = st } in
      let kept : SameRequest job s (write_run_details svc u s').1 =
        patch_status_invariant (SameRequest job s) (apply_details svc u st)
          (λ t h. unfold apply_details in h) (label u) s' (unfold SameRequest in (refl, refl)) in
      ground (arith, kept)

  confirm_waits :
      (status : String) (sec : ℕ) (s : Pass W)
      → ((w : W) → svc.now w ≤ sec * second + cancel_confirm_timeout)
      → s.status.cancel_requested_at ≡ at sec
      → is_terminal_awx_status status ≡ false
      → (confirm_stop svc status s).0 ≡ ok (record { is_done = false; requeue_after = 5 * second })
  unfolding confirm_stop since read_clock
  confirm_waits status sec s early r n = ground (arith, r, early s.world, n)

  confirm_stop-calls :
      (status : String) (s : Pass W) → (confirm_stop svc status s).1.calls ≡ s.calls
  unfolding confirm_stop read_clock
  confirm_stop-calls status s = ground arith

  stops_first :
      (u : Object RunBody) (awx : AwxContext) (sec : ℕ) (s : Pass W) (r : CleanupResult)
      → s.status.cancel_requested_at ≡ at sec
      → ((w : W) → svc.now w ≤ sec * second + cancel_confirm_timeout)
      → stopped s.status.job_id (cancel_and_confirm svc u awx s).1.calls ≡ false
      → (cancel_and_confirm svc u awx s).0 ≡ ok r
      → r.is_done ≡ false
  unfolding cancel_and_confirm request_stop observe poll_job SameRequest
  stops_first u awx sec s r at_sec early n done =
      let seen = (observe svc awx s).1 in
      elim (Result-cases (observe svc awx s).0) [
        | inl (status, e) ↦ ground (
          arith,
          at_sec,
          n,
          e,
          done,
          confirm_stop-calls status (note_status svc u status seen).1,
          note_status-SameRequest s.status.job_id u status seen,
          confirm_waits status sec (note_status svc u status seen).1 early,
        )
        | inr (x, e) ↦ ground (arith, at_sec, e, done)
      ]

  delete_hosts-stopped :
      (job : ℕ) (awx : AwxContext) (marker : String) (hs : List RunHostStatus)
      (first : Option Error) (s : Pass W)
      → stopped job (delete_hosts svc awx marker hs first s).1.calls ≡ stopped job s.calls
  unfolding delete_hosts delete_one
  delete_hosts-stopped job awx marker [] first s = refl
  delete_hosts-stopped job awx marker (h ∷ hs) first s =
      elim (Result-cases (delete_one svc awx marker h s).0) [
        | inl (x, e) ↦ ground (
          arith,
          e,
          delete_hosts-stopped job awx marker hs (first_error first x)
              (delete_one svc awx marker h s).1,
        )
        | inr (x, e) ↦ ground (arith, e)
      ]

  delete_all-stopped :
      (job : ℕ) (u : Object RunBody) (awx : AwxContext) (hosts : List RunHostStatus) (s : Pass W)
      → stopped job (delete_all svc u awx hosts s).1.calls ≡ stopped job s.calls
  unfolding delete_all
  delete_all-stopped job u awx hosts s = ground (
    arith,
    delete_hosts-stopped job awx (run_host_owner_marker svc.supervisor_id u.namespace u.name) hosts
        none s,
  )

  -- stop_and_delete with a cancel to confirm, whose request was already made, and while no clock
  -- reading is later than cancel_confirm_timeout after it: if no poll of this pass, or before, has
  -- answered a terminal status for the job in the run's status, no host is read or deleted.
  pub stop_before_delete :
      (u : Object RunBody) (awx : AwxContext) (hosts : List RunHostStatus) (sec : ℕ) (s : Pass W)
      → s.status.cancel_requested_at ≡ at sec
      → ((w : W) → svc.now w ≤ sec * second + cancel_confirm_timeout)
      → stopped s.status.job_id (stop_and_delete svc u awx hosts true s).1.calls ≡ false
      → deletions (stop_and_delete svc u awx hosts true s).1.calls ≡ deletions s.calls
  unfolding stop_and_delete
  stop_before_delete u awx hosts sec s r early n =
      elim (Result-cases (cancel_and_confirm svc u awx s).0) [
        | inl (done, e) ↦ ground (
          arith,
          e,
          n,
          cancel_and_confirm-SameDeletions svc u awx s,
          stops_first u awx sec s done r early,
          delete_all-stopped s.status.job_id u awx hosts (cancel_and_confirm svc u awx s).1,
        )
        | inr (x, e) ↦ ground (arith, e, n, cancel_and_confirm-SameDeletions svc u awx s)
      ]
