-- ===== src/Vm/Apply/Once.antt =====
-- How often a pass over a VM launches, and for what.
use ansible_supervisor_servi.Prelude.{
  ℕ, ◌≡◌, refl, ◌∙◌, ap, Bool, true, false, not, ◌&&◌, ◌||◌, Option, none, some, List, [], ◌∷◌,
  arith, inl, inr, ◌==◌, Bool-cases, Option-cases, String, eq_iff, is_empty, is_some,
}
use ansible_supervisor_servi.Errors.{Result, ok, err}
use ansible_supervisor_servi.Exec.{Exec}
use ansible_supervisor_servi.Exec.Same.{Same}
use ansible_supervisor_servi.Objects.{Object}
use ansible_supervisor_servi.Time.{due_for}
use ansible_supervisor_servi.Awx.{Connection, Client, Launch}
use ansible_supervisor_servi.Engine.Patch.{label}
use ansible_supervisor_servi.Engine.Patch.Keeps.{patch_status_invariant, Result-cases}
use ansible_supervisor_servi.Vm.Model.{
  VmSpec, VmStatus, VirtualMachine, VmBody, OwnerReference, VmCall, launched, vm_read, VmServices,
  Visit, apply_details, write_vm_details, clock,
}
use ansible_supervisor_servi.Vm.Ready.{vm_ready, needs_run}
use ansible_supervisor_servi.Vm.Poll.{connection_of, poll_recorded_job, poll_job}
use ansible_supervisor_servi.Vm.Apply.{
  Target, recover_previous, drop_previous, retire_previous, record_intent, upsert, keep_host,
  post_launch, record_launch, settle_launch, launch_vm, note_check, host_stage, forget_moved,
  target_of, settle_target, reach_awx, work_on_awx, decide, follow, visit_vm, address_of,
  prior_status, in_flight, starting_status, finish, apply_claim,
}

-- The launches among some calls, the latest first.
abbrev pub launches : List VmCall → List Launch
launches [] = []
launches (launched wf id limit vars l ∷ cs) = l ∷ launches cs
launches (_ ∷ cs) = launches cs

module _ {W : Type 0} (svc : VmServices W) where
  abbrev sent : Visit W → List Launch
  sent s = launches s.calls

  abbrev Quiet : {A : Type 0} → Exec (Visit W) A → Visit W → Type 0
  Quiet m s = Same sent m s

  write-Quiet : (u : Object VmBody) (s : Visit W) → Quiet (write_vm_details svc u) s
  unfolding write_vm_details
  write-Quiet u s =
      patch_status_invariant (λ t. launches t.calls ≡ launches s.calls)
        (apply_details svc u s.status) (λ t h. unfold apply_details in h) (label u) s refl

  retire-Quiet :
      (spec : VmSpec) (t : Target) (i : ℕ) (s : Visit W) → Quiet (retire_previous svc spec t i) s
  unfolding retire_previous recover_previous drop_previous
  retire-Quiet spec t i s = ground arith

  intent-Quiet :
      (u : Object VmBody) (prior : Option VmStatus) (name : String) (i : ℕ) (s : Visit W)
      → Quiet (record_intent svc u prior name i) s
  unfolding record_intent
  intent-Quiet u prior name i s = ground (
    arith,
    write-Quiet u (record s {
      status = record s.status {
        awx_host_name = name;
        awx_inventory_id = i;
        awx_host_created = false;
      };
    }),
  )

  host_stage-Quiet :
      (u : Object VmBody) (spec : VmSpec) (prior : Option VmStatus) (t : Target) (ip : String)
      (s : Visit W)
      → Quiet (host_stage svc u spec prior t ip) s
  unfolding host_stage keep_host note_check upsert clock
  host_stage-Quiet u spec prior t ip s = elim (Option-cases t.template.inventory) [
    | inl e ↦ ground (arith, e)
    | inr (i, e) ↦
        let retired = (retire_previous svc spec t i s).1 in
        ground (arith, e, retire-Quiet spec t i s, intent-Quiet u prior t.host_name i retired)
  ]

  poll-Quiet :
      (ns : String) (spec : VmSpec) (st : VmStatus) (s : Visit W)
      → Quiet (poll_recorded_job svc ns spec st) s
  unfolding poll_recorded_job connection_of poll_job
  poll-Quiet ns spec st s = ground arith

  follow-Quiet :
      (u : Object VmBody) (spec : VmSpec) (st : VmStatus) (s : Visit W)
      → Quiet (follow svc u spec st) s
  unfolding follow clock
  follow-Quiet u spec st s = ground (arith, poll-Quiet u.namespace spec st s)

  target-Quiet :
      (u : Object VmBody) (spec : VmSpec) (wants : Bool) (conn : Connection) (client : Client)
      (s : Visit W)
      → Quiet (target_of svc u spec wants conn client) s
  unfolding target_of
  target-Quiet u spec wants conn client s = ground arith

  connection-Quiet :
      (ns : String) (spec : VmSpec) (s : Visit W) → Quiet (connection_of svc ns spec) s
  unfolding connection_of
  connection-Quiet ns spec s = ground arith

  settle-Quiet :
      (u : Object VmBody) (spec : VmSpec) (prior : Option VmStatus) (ip : String) (wants : Bool)
      (conn : Connection) (client : Client) (s : Visit W)
      → Quiet (settle_target svc u spec prior ip wants conn client) s
  unfolding settle_target
  settle-Quiet u spec prior ip wants conn client s =
      let begun = record s {
        status = forget_moved (svc.base.fingerprint conn.spec.url client.base_path) s.status;
      } in
      elim (Result-cases (target_of svc u spec wants conn client begun).0) [
        | inl (t, e) ↦ ground (
          arith,
          e,
          target-Quiet u spec wants conn client begun,
          host_stage-Quiet u spec prior t ip (target_of svc u spec wants conn client begun).1,
        )
        | inr (x, e) ↦ ground (arith, e, target-Quiet u spec wants conn client begun)
      ]

  reach-Quiet :
      (u : Object VmBody) (spec : VmSpec) (prior : Option VmStatus) (ip : String) (wants : Bool)
      (s : Visit W)
      → Quiet (reach_awx svc u spec prior ip wants) s
  unfolding reach_awx
  reach-Quiet u spec prior ip wants s =
      let found = connection_of svc u.namespace spec s in
      elim (Result-cases found.0) [
        | inr (x, e) ↦ ground (arith, e, connection-Quiet u.namespace spec s)
        | inl (conn, e) ↦
            let made = svc.base.client_for conn found.1.world in
            elim (Result-cases made.0) [
              | inr (x, f) ↦ ground (arith, e, f, connection-Quiet u.namespace spec s)
              | inl (client, f) ↦ ground (
                arith,
                e,
                f,
                connection-Quiet u.namespace spec s,
                settle-Quiet u spec prior ip wants conn client (record found.1 { world = made.1 }),
              )
            ]
      ]

  -- At most one launch, and if it made a job, the status no longer asks for a run.
  abbrev pub answered_once : VmSpec → VmStatus → List Launch → Bool
  answered_once spec st [] = true
  answered_once spec st (l ∷ []) = l.job == 0 || not (needs_run st spec)
  answered_once spec st (l ∷ (k ∷ ls)) = false

  launch-answered :
      (spec : VmSpec) (t : Target) (s : Visit W)
      → sent s ≡ []
      → answered_once spec (launch_vm svc spec t s).1.status (sent (launch_vm svc spec t s).1)
        ≡ true
  unfolding launch_vm post_launch record_launch settle_launch clock needs_run
  launch-answered spec t s e = ground (arith, e, eq_iff spec.binding_trigger spec.binding_trigger)

  -- What a part of a pass over a VM sends: nothing, where no run is wanted.
  abbrev pub sends : VmSpec → Bool → Visit W → Bool
  sends spec true t = answered_once spec t.status (sent t)
  sends spec false t = is_empty (sent t)

  work-sends :
      (u : Object VmBody) (spec : VmSpec) (prior : Option VmStatus) (ip : String) (wants : Bool)
      (s : Visit W)
      → sent s ≡ []
      → sends spec wants (work_on_awx svc u spec prior ip wants s).1 ≡ true
  unfolding work_on_awx
  work-sends u spec prior ip true s e =
      elim (Result-cases (reach_awx svc u spec prior ip true s).0) [
        | inl (t, r) ↦ ground (
          arith,
          e,
          r,
          reach-Quiet u spec prior ip true s,
          launch-answered spec t (reach_awx svc u spec prior ip true s).1,
        )
        | inr (x, r) ↦ ground (arith, e, r, reach-Quiet u spec prior ip true s)
      ]
  work-sends u spec prior ip false s e =
      elim (Result-cases (reach_awx svc u spec prior ip false s).0) [
        | inl (t, r) ↦ ground (arith, e, r, reach-Quiet u spec prior ip false s)
        | inr (x, r) ↦ ground (arith, e, r, reach-Quiet u spec prior ip false s)
      ]

  decide-sends :
      (u : Object VmBody) (spec : VmSpec) (prior : Option VmStatus) (ready : Option String)
      (wants : Bool) (check : Bool × ℕ) (s : Visit W)
      → sent s ≡ []
      → sends spec (is_some ready && wants) (decide svc u spec prior ready wants check s).1 ≡ true
  unfolding decide
  decide-sends u spec prior none wants check s e = ap is_empty e
  decide-sends u spec prior (some ip) true check s e = work-sends u spec prior ip true s e
  decide-sends u spec prior (some ip) false (true, n) s e = work-sends u spec prior ip false s e
  decide-sends u spec prior (some ip) false (false, n) s e = ap is_empty e

  abbrev ended : Result Bool → Bool
  ended (ok b) = b
  ended (err e) = false

  -- The state in which a pass looks at the job that was in flight.
  abbrev pub looked_at : VirtualMachine → Visit W → Visit W
  looked_at vm s =
      (clock svc
        (record s { status = record s.status { observed_ip = address_of (vm_ready vm) } })).1

  -- Whether a pass may launch: the VM has an address, a run is asked for, and no job is still going.
  abbrev pub may_launch : Object VmBody → VmSpec → Option VmStatus → VirtualMachine → Visit W → Bool
  may_launch u spec prior vm s =
      (is_some (vm_ready vm) && needs_run s.status spec)
      && (not (in_flight (prior_status prior))
          || ended (follow svc u spec (prior_status prior) (looked_at vm s)).0)

  -- A visit to a VM that is there, begun before anything was launched, launches at most once, and not
  -- at all where the VM has no address, no run is asked for, or a job that was in flight is still
  -- going or cannot be followed.
  pub visit-sends :
      (u : Object VmBody) (spec : VmSpec) (prior : Option VmStatus) (vm : VirtualMachine)
      (s : Visit W)
      → sent s ≡ []
      → sends spec (may_launch u spec prior vm s) (visit_vm svc u spec prior vm s).1 ≡ true
  unfolding visit_vm clock needs_run
  visit-sends u spec prior vm s e =
      let begun = looked_at vm s in
      let followed = follow svc u spec (prior_status prior) begun in
      let wants = needs_run s.status spec in
      let check = due_for s.status.last_host_check svc.host_check_period (svc.base.now s.world) in
      elim (Bool-cases (in_flight (prior_status prior))) [
        | inr f ↦ ground (arith, f, e, decide-sends u spec prior (vm_ready vm) wants check begun e)
        | inl f ↦ elim (Result-cases followed.0) [
          | inr (x, g) ↦ ground (arith, f, g, e, follow-Quiet u spec (prior_status prior) begun)
          | inl (false, g) ↦ ground (arith, f, g, e, follow-Quiet u spec (prior_status prior) begun)
          | inl (true, g) ↦ ground (
            arith,
            f,
            g,
            decide-sends u spec prior (vm_ready vm) wants check followed.1
                (follow-Quiet u spec (prior_status prior) begun ∙ e),
          )
        ]
      ]

  write-status : (u : Object VmBody) (s : Visit W) → (write_vm_details svc u s).1.status ≡ s.status
  unfolding write_vm_details
  write-status u s =
      patch_status_invariant (λ t. t.status ≡ s.status) (apply_details svc u s.status)
        (λ t h. unfold apply_details in h) (label u) s refl

  finish-sends :
      (u : Object VmBody) (spec : VmSpec) (prior : Option VmStatus) (owners : List OwnerReference)
      (r : Result ℕ) (b : Bool) (s : Visit W)
      → sends spec b s ≡ true
      → sends spec b (finish svc u spec prior owners r s).1 ≡ true
  unfolding finish
  finish-sends u spec prior owners r b s h = ground (arith, h, write-Quiet u s, write-status u s)

  may-wants :
      (spec : VmSpec) (m w : Bool) (t : Visit W)
      → (w ≡ false → m ≡ false)
      → sends spec m t ≡ true
      → sends spec w t ≡ true
  may-wants spec m w t i h = ground (arith, i, h)

  pub claim-sends :
      (u : Object VmBody) (spec : VmSpec) (prior : Option VmStatus) (owners : List OwnerReference)
      (owner : String) (s : Visit W)
      → sent s ≡ []
      → sends spec
          (needs_run (starting_status prior) spec)
          (apply_claim svc u spec prior owners owner s).1
        ≡ true
  unfolding apply_claim
  claim-sends u spec prior owners owner s e =
      let wants = needs_run (starting_status prior) spec in
      let started = record s { status = starting_status prior } in
      let got = svc.get_vm u.namespace spec.vm_name s.world in
      let read = record started { world = got.1; calls = vm_read got.0 ∷ s.calls } in
      elim (Result-cases got.0) [
        | inr (x, f) ↦ ground (arith, f, e)
        | inl (none, f) ↦ ground (arith, f, e)
        | inl (some vm, f) ↦
            let visited = visit_vm svc u spec prior vm read in
            ground (
              arith,
              f,
              e,
              finish-sends u spec prior owners visited.0 wants visited.1 (
                  may-wants spec (may_launch u spec prior vm read) wants visited.1 (ground arith)
                    (visit-sends u spec prior vm read e)),
            )
      ]

  pub none-sends : (spec : VmSpec) (b : Bool) (t : Visit W) → sent t ≡ [] → sends spec b t ≡ true
  none-sends spec b t h = ground (arith, h)
