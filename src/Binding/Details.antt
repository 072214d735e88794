-- ===== src/Binding/Details.antt =====
-- ansibleBindingDetailsCurrent and conflictWorthAnEvent of controller/ansiblebinding.go.
use ansible_supervisor_servi.Prelude.{
  Bool, true, false, not, ◌&&◌, ◌||◌, Option, none, some, ◌==◌, ◌is◌, if◌then◌else◌,
}
use ansible_supervisor_servi.Vm.Same.{same_list, same_string, same_stamp}
use ansible_supervisor_servi.Binding.Model.{Summary, BindingStatus}

-- reflect.DeepEqual on two summaries.
unfoldable pub same_summary : Summary → Summary → Bool
same_summary a b =
    a.total == b.total
    && a.succeeded == b.succeeded
    && a.running == b.running
    && a.pending == b.pending
    && a.failed == b.failed
    && a.conflicted == b.conflicted
    && same_list same_string a.conflicted_vms b.conflicted_vms
    && same_list same_string a.failed_vms b.failed_vms
    && (a.first_failure is b.first_failure)
    && a.terminating == b.terminating

abbrev is_summary : Option Summary → Summary → Bool
is_summary none s = false
is_summary (some a) s = same_summary a s

-- ansibleBindingDetailsCurrent
unfoldable pub details_current : Option BindingStatus → BindingStatus → Summary → Bool
details_current none next s = false
details_current (some prior) next s =
    prior.observed_generation == next.observed_generation
    && (prior.last_applied_trigger is next.last_applied_trigger)
    && same_stamp prior.last_orphan_scan next.last_orphan_scan
    && is_summary prior.summary s

abbrev news : Option Summary → Summary → Bool
news none s = true
news (some a) s =
    not (a.conflicted == s.conflicted)
    || not (same_list same_string a.conflicted_vms s.conflicted_vms)

abbrev told_of : Option BindingStatus → Option Summary
told_of none = none
told_of (some st) = st.summary

-- conflictWorthAnEvent
unfoldable pub conflict_worth_an_event : Option BindingStatus → Summary → Bool
conflict_worth_an_event prior s = if s.conflicted == 0 then false else news (told_of prior) s
