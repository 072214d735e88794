-- ===== src/Vm/Hook/Outcome.antt =====
-- hooklessOutcome and hookRequeue of controller/ansiblebindingvm.go: a hook that ends, and its waits.
use ansible_supervisor_servi.Prelude.{
  ℕ, ◌+◌, ◌≤◌, ◌≡◌, refl, sym, Bool, true, false, Option, none, some, String, Text, arith,
}
use ansible_supervisor_servi.Time.{second}
use ansible_supervisor_servi.Vm.Model.{DeprovisionStatus}
use ansible_supervisor_servi.Vm.Hook.{
  is_terminal_hook_phase, hook_record, hookless_by, hookless_outcome, never_started, wait_until,
}

abbrev pub job_of_record : Option DeprovisionStatus → ℕ
job_of_record dep = (hook_record dep).job_id

by-final :
    (n t : Bool) (render : Text → String) (d : DeprovisionStatus) (reason : String)
    → (n ≡ true → d.job_id ≡ 0)
    → (t ≡ true → is_terminal_hook_phase d.phase ≡ true)
    → (is_terminal_hook_phase (hookless_by n t render d reason).phase ≡ true)
      × ((hookless_by n t render d reason).job_id ≡ d.job_id)
unfolding hookless_by
by-final true t render d reason h k = (refl, sym (h refl))
by-final false false render d reason h k = (refl, refl)
by-final false true render d reason h k = (k refl, refl)

-- Once AWX is out of reach for good, the hook's record is over whatever it said before, and it keeps
-- the job that the hook had.
pub hookless_outcome-final :
    (render : Text → String) (dep : Option DeprovisionStatus) (reason : String)
    → (is_terminal_hook_phase (hookless_outcome render dep reason).phase ≡ true)
      × ((hookless_outcome render dep reason).job_id ≡ job_of_record dep)
unfolding hookless_outcome
hookless_outcome-final render none reason = (refl, refl)
hookless_outcome-final render (some d) reason =
    by-final (never_started d) (is_terminal_hook_phase d.phase) render d reason (ground arith)
      (λ e. e)

-- The next look at a running hook is never after its deadline but for the second that a wait is at
-- least, and never later than the poll interval with its jitter.
pub wait_until-bounded :
    (interval at now : ℕ)
    → second ≤ interval
    → (second ≤ wait_until interval at now)
      × (wait_until interval at now ≤ interval)
      × (now + second ≤ at → now + wait_until interval at now ≤ at)
unfolding wait_until
wait_until-bounded interval at now h = ground (arith, h)
