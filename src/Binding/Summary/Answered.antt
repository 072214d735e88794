-- ===== src/Binding/Summary/Answered.antt =====
-- summarize of controller/ansiblebinding.go: when every selected VM has an answer.
use ansible_supervisor_servi.Prelude.{
  ℕ, suc, ◌+◌, ◌-◌, ◌≤◌, ◌≡◌, refl, String, Bool, true, false, not, ◌&&◌, Option, none, some, List,
  [], ◌∷◌, arith, length, take, map, any, inl, inr, ◌==◌, ◌is◌, Option-cases, eq_iff,
}
use ansible_supervisor_servi.Vm.Model.{VmSpec, VmStatus, phase_succeeded}
use ansible_supervisor_servi.Binding.Model.{Summary, Child}
use ansible_supervisor_servi.Binding.Summary.{
  Conflicts, has_name, is_conflicted, open_vms, count_child, count_all, summarize, owner_of,
  open-one_fewer, count_child-moves, count_all-conserves, conflict_line, summary_name_limit,
}

-- A status says that the run for this generation and trigger succeeded.
abbrev pub succeeded_for : ℕ → String → Option VmStatus → Bool
succeeded_for generation trigger none = false
succeeded_for generation trigger (some st) =
    (st.phase is phase_succeeded)
    && st.applied_generation == generation
    && (st.applied_trigger is trigger)

abbrev pub is_of : String → Option VmSpec → Bool
is_of v none = false
is_of v (some spec) = spec.vm_name is v

-- A child that is not being deleted, of this VM, that says so.
abbrev pub answers : ℕ → String → String → Child → Bool
answers generation trigger v c =
    not c.meta.deleting && is_of v c.spec && succeeded_for generation trigger c.status

-- The VMs that have not succeeded.
abbrev pub unsettled : Summary → ℕ
unsettled s = s.pending + s.failed + s.running

count_child-unsettled :
    (c : Child) (vm : String) (generation : ℕ) (trigger : String) (s : Summary)
    → (unsettled s ≤ unsettled (count_child c vm generation trigger s))
      × (succeeded_for generation trigger c.status ≡ false
          → suc (unsettled s) ≤ unsettled (count_child c vm generation trigger s))
unfolding count_child
count_child-unsettled c vm generation trigger s = elim (Option-cases c.status) [
  | inl e ↦ (ground (arith, e), ground (arith, e))
  | inr (st, e) ↦ (ground (arith, e), ground (arith, e))
]

module _ (matched : List String) (conflicts : Conflicts) (generation : ℕ) (trigger : String) where
  abbrev counted : List Child → List String → Summary → Summary
  counted = count_all matched conflicts generation trigger

  abbrev less : Summary → Summary
  less s = record s { pending = s.pending - 1 }

  abbrev gone : Summary → Summary
  gone s = record s { terminating = s.terminating + 1 }

  count_all-unsettled :
      (cs : List Child) (seen : List String) (s : Summary)
      → unsettled s ≤ unsettled (counted cs seen s) + open_vms matched conflicts seen
  unfolding count_all
  count_all-unsettled [] seen s = ground arith
  count_all-unsettled (c ∷ cs) seen s = elim (Option-cases c.spec) [
    | inl e ↦ ground (arith, e, count_all-unsettled cs seen s)
    | inr (spec, e) ↦
        let next = count_child c spec.vm_name generation trigger (less s) in
        ground (
          arith,
          e,
          count_all-unsettled cs seen s,
          count_all-unsettled cs seen (gone s),
          open-one_fewer matched conflicts spec.vm_name seen,
          count_child-unsettled c spec.vm_name generation trigger (less s),
          count_all-unsettled cs (spec.vm_name ∷ seen) next,
        )
  ]

  -- Where nothing is left unsettled, each VM that was still to be counted has its answer.
  count_all-answered :
      (cs : List Child) (seen : List String) (s : Summary) (v : String)
      → open_vms matched conflicts seen ≤ s.pending
      → unsettled (counted cs seen s) ≡ 0
      → has_name v matched ≡ true
      → has_name v seen ≡ false
      → is_conflicted conflicts v ≡ false
      → any (answers generation trigger v) cs ≡ true
  unfolding count_all
  count_all-answered [] seen s v o u m n k =
      ground (arith, o, u, open-one_fewer matched conflicts v seen m n k)
  count_all-answered (c ∷ cs) seen s v o u m n k = elim (Option-cases c.spec) [
    | inl e ↦ ground (arith, e, o, u, m, n, k, count_all-answered cs seen s v)
    | inr (spec, e) ↦
        let next = count_child c spec.vm_name generation trigger (less s) in
        ground (
          arith,
          e,
          o,
          u,
          m,
          n,
          k,
          eq_iff spec.vm_name v,
          count_all-answered cs seen s v,
          count_all-answered cs seen (gone s) v,
          open-one_fewer matched conflicts spec.vm_name seen,
          count_child-moves c spec.vm_name generation trigger (less s),
          count_child-unsettled c spec.vm_name generation trigger (less s),
          count_all-unsettled cs (spec.vm_name ∷ seen) next,
          count_all-answered cs (spec.vm_name ∷ seen) next v,
        )
  ]

-- A summary without conflicts that counts nobody as pending, failed or running: each selected VM has
-- a child that succeeded for this generation and trigger.
pub summarize-answered :
    (sort : List String → List String) (children : List Child) (matched : List String)
    (conflicts : Conflicts) (generation : ℕ) (trigger : String) (v : String)
    → length conflicts + open_vms matched conflicts [] ≤ length matched
    → unsettled (summarize sort children matched conflicts generation trigger) ≡ 0
    → (summarize sort children matched conflicts generation trigger).conflicted ≡ 0
    → has_name v matched ≡ true
    → any (answers generation trigger v) children ≡ true
unfolding summarize owner_of
summarize-answered sort children matched [] generation trigger v h u c m =
    count_all-answered matched [] generation trigger children []
      (record {
        total = length matched;
        succeeded = 0;
        running = 0;
        pending = length matched - 0;
        failed = 0;
        conflicted = 0;
        conflicted_vms = take summary_name_limit (sort []);
        failed_vms = [];
        first_failure = "";
        terminating = 0;
      })
      v (ground (arith, h)) u m refl refl
summarize-answered sort children matched (x ∷ xs) generation trigger v h u c m = ground (
  arith,
  h,
  c,
  count_all-conserves matched (x ∷ xs) generation trigger children [] (record {
    total = length matched;
    succeeded = 0;
    running = 0;
    pending = length matched - length (x ∷ xs);
    failed = 0;
    conflicted = length (x ∷ xs);
    conflicted_vms = take summary_name_limit (sort (map conflict_line (x ∷ xs)));
    failed_vms = [];
    first_failure = "";
    terminating = 0;
  }),
)
