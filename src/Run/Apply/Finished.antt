-- ===== src/Run/Apply/Finished.antt =====
-- A run that is over stays as it is.
use ansible_supervisor_servi.Prelude.{
  String, ◌is◌, ◌&&◌, ℕ, ◌≡◌, true, false, Bool, Option, some, none, List, [], ◌∷◌, arith, eq_iff,
  is_empty,
}
use ansible_supervisor_servi.Errors.{ok}
use ansible_supervisor_servi.Objects.{Object}
use ansible_supervisor_servi.Time.{is_set}
use ansible_supervisor_servi.Run.Model.{
  RunSpec, RunStatus, RunBody, decoded, RunCall, run_deleted, Services,
}
use ansible_supervisor_servi.Run.Recover.{collect_finished_run, delete_run}
use ansible_supervisor_servi.Run.Launch.{read_clock}
use ansible_supervisor_servi.Run.Apply.{
  read_run_live, apply_decoded, apply_body, apply_ansible_run, start_pass,
}

-- No call, or one: the delete of the object with this UID.
abbrev pub only_deletes : String → List RunCall → Bool
only_deletes uid [] = true
only_deletes uid (run_deleted v r ∷ cs) = (v is uid) && is_empty cs
only_deletes uid (_ ∷ cs) = false

-- A delete needs a TTL.
abbrev pub allowed : Option ℕ → String → List RunCall → Bool
allowed none uid calls = is_empty calls
allowed (some ttl) uid calls = only_deletes uid calls

module _ {W : Type 0} (svc : Services W) where
  -- The object reads and deletes and the clock are those of `svc`, and everything else is another's:
  -- AWX and the clients for it, the connections, the addresses of VMs, the sources of variables, and
  -- the writes of the status.
  abbrev pub beyond : Services W → Services W
  beyond other = record other {
    now = svc.now;
    tick = svc.tick;
    get_run = svc.get_run;
    delete_run = svc.delete_run;
  }

  -- A pass over a run whose live status says that it is finished records no call, or
  -- one, the delete of the object with the UID that was read, and that only where a TTL is set. The
  -- status it leaves is the one that was read. The whole outcome, the world included, does not depend
  -- on AWX, on the connection or the client for it, on the VMs, on the sources of variables or on the
  -- writes of the status: it is the same with any other in their place.
  pub finished_frozen :
      (other : Services W) (cached u : Object RunBody) (spec : RunSpec) (st : RunStatus)
      (created : Option ℕ) (w : W)
      → (read_run_live svc cached (start_pass w)).0 ≡ ok (some u)
      → u.body ≡ decoded (some spec) st created
      → is_set st.finished_at ≡ true
      → (allowed spec.ttl_seconds_after_finished u.uid
            (apply_ansible_run svc cached (start_pass w)).1.calls
          ≡ true)
        × ((apply_ansible_run svc cached (start_pass w)).1.status ≡ st)
        × (apply_ansible_run svc cached (start_pass w)
            ≡ apply_ansible_run (beyond other) cached (start_pass w))
  unfolding apply_ansible_run apply_body apply_decoded collect_finished_run delete_run read_clock
      read_run_live
  finished_frozen other cached u spec st created w live body f =
      ground (arith, live, body, f, eq_iff u.uid u.uid)
