-- ===== src/Binding/Summary.antt =====
-- summarize of controller/ansiblebinding.go: the children of a binding in counts.
pub mod Answered
use ansible_supervisor_servi.Prelude.{
  ℕ, suc, ◌+◌, ◌-◌, ◌≤◌, ◌≡◌, refl, String, Bool, true, false, not, ◌&&◌, ◌||◌, Option, none, some,
  List, [], ◌∷◌, ◌++◌, map, arith, length, take, any, concat, ◌==◌, ◌is◌, if◌then◌else◌, Bool-cases,
  Option-cases, inl, inr, eq_iff,
}
use ansible_supervisor_servi.Vm.Model.{VmStatus, phase_succeeded, phase_failed, phase_running}
use ansible_supervisor_servi.Binding.Model.{Summary, Child}

abbrev pub summary_name_limit : ℕ
summary_name_limit = 3

abbrev pub has_name : String → List String → Bool
has_name v vs = any (λ (w : String). w is v) vs

-- The VMs that other bindings claim, each with the owner that a message names.
abbrev pub Conflicts : Type 0
Conflicts = List (String × String)

unfoldable pub owner_of : Conflicts → String → String
owner_of [] v = ""
owner_of ((w, o) ∷ cs) v = let rest = owner_of cs v in if w is v then o else rest

abbrev pub is_conflicted : Conflicts → String → Bool
is_conflicted cs v = not (owner_of cs v is "")

abbrev pub conflict_line : String × String → String
conflict_line (v, o) = concat v (concat " (" (concat o ")"))

abbrev text_of : Option String → String
text_of none = ""
text_of (some s) = s

abbrev note_failure : String → String → Summary → Summary
note_failure vm message s = record s {
  failed = s.failed + 1;
  failed_vms = s.failed_vms ++ (vm ∷ []);
  first_failure = if s.first_failure is "" then message else s.first_failure;
}

-- A run that answered an earlier request.
abbrev is_stale : Option VmStatus → ℕ → String → Bool
is_stale none generation trigger = true
is_stale (some st) generation trigger =
    not (st.applied_generation == generation) || not (st.applied_trigger is trigger)

abbrev phase_of_child : Option VmStatus → String
phase_of_child none = ""
phase_of_child (some st) = st.phase

abbrev state_of : Option VmStatus → Option String → String
state_of none state = ""
state_of (some st) state = text_of state

-- The class of a child by what its status says; the child was pending before.
unfoldable pub count_child : Child → String → ℕ → String → Summary → Summary
count_child c vm generation trigger s =
    let message = state_of c.status c.meta.message in
    let phase = phase_of_child c.status in
    if state_of c.status c.meta.state is "Failed"
    then note_failure vm message s
    else if is_stale c.status generation trigger
    then record s { pending = s.pending + 1 }
    else if phase is phase_failed
    then note_failure vm message s
    else if phase is phase_succeeded
    then record s { succeeded = s.succeeded + 1 }
    else if phase is phase_running
    then record s { running = s.running + 1 }
    else record s { pending = s.pending + 1 }

module _ (matched : List String) (conflicts : Conflicts) (generation : ℕ) (trigger : String) where
  -- A child that is counted: its VM is selected, is not claimed elsewhere and was not counted yet.
  abbrev pub is_counted : List String → String → Bool
  is_counted seen vm =
      has_name vm matched && not (has_name vm seen) && not (is_conflicted conflicts vm)

  unfoldable pub count_all : List Child → List String → Summary → Summary
  count_all [] seen s = s
  count_all (c ∷ cs) seen s = elim c.spec [
    | none ↦ count_all cs seen s
    | some spec ↦
        let skipped = count_all cs seen s in
        let terminating = count_all cs seen (record s { terminating = s.terminating + 1 }) in
        let counted =
          count_all cs (spec.vm_name ∷ seen) (
            count_child c spec.vm_name generation trigger (record s { pending = s.pending - 1 })) in
        if c.meta.deleting
        then terminating
        else if is_counted seen spec.vm_name
        then counted
        else skipped
  ]

-- `sort` is sort.Strings. The VMs that wait are never fewer than those still to be counted, so that
-- the count of those does not fall below 0.
unfoldable pub summarize :
    (List String → List String) → List Child → List String → Conflicts → ℕ → String → Summary
summarize sort children matched conflicts generation trigger =
    let s = count_all matched conflicts generation trigger children [] (record {
      total = length matched;
      succeeded = 0;
      running = 0;
      pending = length matched - length conflicts;
      failed = 0;
      conflicted = length conflicts;
      conflicted_vms = take summary_name_limit (sort (map conflict_line conflicts));
      failed_vms = [];
      first_failure = "";
      terminating = 0;
    }) in
    record s { failed_vms = take summary_name_limit s.failed_vms }

-- The VMs still to be counted: selected, not claimed elsewhere and not yet seen.
abbrev pub open_vms : List String → Conflicts → List String → ℕ
open_vms [] conflicts seen = 0
open_vms (v ∷ vs) conflicts seen =
    if not (has_name v seen) && not (is_conflicted conflicts v)
    then suc (open_vms vs conflicts seen)
    else open_vms vs conflicts seen

open-fewer :
    (vs : List String) (conflicts : Conflicts) (vm : String) (seen : List String)
    → open_vms vs conflicts (vm ∷ seen) ≤ open_vms vs conflicts seen
open-fewer [] conflicts vm seen = ground arith
open-fewer (v ∷ vs) conflicts vm seen = ground (arith, open-fewer vs conflicts vm seen)

pub open-one_fewer :
    (vs : List String) (conflicts : Conflicts) (vm : String) (seen : List String)
    → has_name vm vs ≡ true
    → has_name vm seen ≡ false
    → is_conflicted conflicts vm ≡ false
    → suc (open_vms vs conflicts (vm ∷ seen)) ≤ open_vms vs conflicts seen
open-one_fewer [] conflicts vm seen h n c = ground (arith, h)
open-one_fewer (v ∷ vs) conflicts vm seen h n c = elim (Bool-cases (v is vm)) [
  | inl e ↦ same v ((eq_iff v vm).0 e)
  | inr e ↦
      ground
        (arith, h, n, c, e, open-fewer vs conflicts vm seen, open-one_fewer vs conflicts vm seen)
]
  where
    same :
        (w : String)
        → w ≡ vm
        → suc (open_vms (w ∷ vs) conflicts (vm ∷ seen)) ≤ open_vms (w ∷ vs) conflicts seen
    same w e = rw e (ground (arith, n, c, open-fewer vs conflicts vm seen, (eq_iff vm vm).1 refl))

abbrev pub done_and_open : Summary → ℕ
done_and_open s = s.succeeded + s.running + s.failed + s.pending

-- Each counted child leaves the class of those that wait for exactly one class.
pub count_child-moves :
    (c : Child) (vm : String) (generation : ℕ) (trigger : String) (s : Summary)
    → (done_and_open (count_child c vm generation trigger s) ≡ suc (done_and_open s))
      × (s.pending ≤ (count_child c vm generation trigger s).pending)
      × ((count_child c vm generation trigger s).total ≡ s.total)
      × ((count_child c vm generation trigger s).conflicted ≡ s.conflicted)
unfolding count_child
count_child-moves c vm generation trigger s =
    (ground arith, ground arith, ground arith, ground arith)

module _ (matched : List String) (conflicts : Conflicts) (generation : ℕ) (trigger : String) where
  abbrev counted : List Child → List String → Summary → Summary
  counted = count_all matched conflicts generation trigger

  pub count_all-conserves :
      (cs : List Child) (seen : List String) (s : Summary)
      → open_vms matched conflicts seen ≤ s.pending
      → (done_and_open (counted cs seen s) ≡ done_and_open s)
        × ((counted cs seen s).total ≡ s.total)
        × ((counted cs seen s).conflicted ≡ s.conflicted)
  unfolding count_all
  count_all-conserves [] seen s h = (refl, refl, refl)
  count_all-conserves (c ∷ cs) seen s h = elim (Option-cases c.spec) [
    | inl e ↦ ground (arith, e, count_all-conserves cs seen s h)
    | inr (spec, e) ↦
        let less = record s { pending = s.pending - 1 } in
        ground (
          arith,
          e,
          h,
          count_all-conserves cs seen s h,
          count_all-conserves cs seen (record s { terminating = s.terminating + 1 }) h,
          open-one_fewer matched conflicts spec.vm_name seen,
          count_child-moves c spec.vm_name generation trigger less,
          count_all-conserves cs (spec.vm_name ∷ seen)
              (count_child c spec.vm_name generation trigger less),
        )
  ]

-- Where every conflict is about a selected VM, and about each only once, the five classes of a
-- summary add up to the number of VMs that are selected.
pub summarize-conserves :
    (sort : List String → List String) (children : List Child) (matched : List String)
    (conflicts : Conflicts) (generation : ℕ) (trigger : String)
    → length conflicts + open_vms matched conflicts [] ≤ length matched
    → ((summarize sort children matched conflicts generation trigger).succeeded
          + (summarize sort children matched conflicts generation trigger).running
          + (summarize sort children matched conflicts generation trigger).failed
          + (summarize sort children matched conflicts generation trigger).pending
          + (summarize sort children matched conflicts generation trigger).conflicted
        ≡ length matched)
      × ((summarize sort children matched conflicts generation trigger).total ≡ length matched)
unfolding summarize
summarize-conserves sort children matched conflicts generation trigger h = ground (
  arith,
  h,
  count_all-conserves matched conflicts generation trigger children [] (record {
    total = length matched;
    succeeded = 0;
    running = 0;
    pending = length matched - length conflicts;
    failed = 0;
    conflicted = length conflicts;
    conflicted_vms = take summary_name_limit (sort (map conflict_line conflicts));
    failed_vms = [];
    first_failure = "";
    terminating = 0;
  }),
)
