-- ===== src/Binding/Writes/Order.antt =====
-- issueChildWrites of controller/ansiblebinding.go: which writes a pass issues.
use ansible_supervisor_servi.Prelude.{
  ℕ, zero, suc, ◌+◌, ◌-◌, ◌≤◌, ◌≡◌, refl, false, List, [], ◌∷◌, arith, length, is_some, inl, inr,
}
use ansible_supervisor_servi.Errors.{Result, ok, err}
use ansible_supervisor_servi.Exec.{Exec}
use ansible_supervisor_servi.Engine.Patch.Keeps.{Result-cases}
use ansible_supervisor_servi.Binding.Writes.{
  run_batch, drop, next_batch, issue_from, issue_child_writes, smaller, burst_child_writes,
  issue_complete,
}

abbrev counting : {S : Type 0} → Result (Unit {0}) → ℕ × S → ℕ × S
counting (ok _) p = p
counting (err _) p = (suc p.0, p.1)

suc_add : (n m : ℕ) → suc n + m ≡ suc (n + m)
suc_add n m = omega arith

module _ {S : Type 0} where
  -- The first `n` writes, each once and in their order: how many of them failed, and the state left.
  abbrev pub run_first : ℕ → List (Exec S (Unit {0})) → S → ℕ × S
  run_first zero ws s = (0, s)
  run_first (suc n) [] s = (0, s)
  run_first (suc n) (w ∷ ws) s = counting (w s).0 (run_first n ws (w s).1)

  batch-first :
      (n : ℕ) (ws : List (Exec S (Unit {0}))) (s : S)
      → ((run_batch n ws s).0.failures ≡ (run_first n ws s).0)
        × ((run_batch n ws s).1 ≡ (run_first n ws s).1)
  unfolding run_batch
  batch-first zero ws s = (refl, refl)
  batch-first (suc n) [] s = (refl, refl)
  batch-first (suc n) (w ∷ ws) s = elim (Result-cases (w s).0) [
    | inl (a, e) ↦ ground (arith, e, batch-first n ws (w s).1)
    | inr (x, e) ↦ ground (arith, e, batch-first n ws (w s).1)
  ]

  first-none : (n : ℕ) (s : S) → run_first n [] s ≡ (0, s)
  first-none zero s = refl
  first-none (suc n) s = refl

  -- One stretch after another.
  first-add :
      (n m : ℕ) (ws : List (Exec S (Unit {0}))) (s : S)
      → ((run_first (n + m) ws s).0
          ≡ (run_first n ws s).0 + (run_first m (drop n ws) (run_first n ws s).1).0)
        × ((run_first (n + m) ws s).1 ≡ (run_first m (drop n ws) (run_first n ws s).1).1)
  first-add zero m ws s = (ground arith, ground arith)
  first-add (suc n) m [] s = (
    ground (arith, first-none (suc n + m) s, first-none m s),
    ground (arith, first-none (suc n + m) s, first-none m s),
  )
  first-add (suc n) m (w ∷ ws) s = rw (suc_add n m) elim (Result-cases (w s).0) [
    | inl (a, e) ↦ ground (arith, e, first-add n m ws (w s).1)
    | inr (x, e) ↦ ground (arith, e, first-add n m ws (w s).1)
  ]

  from-first :
      (fuel batch remaining : ℕ) (ws : List (Exec S (Unit {0}))) (s : S)
      → ((issue_from fuel batch remaining ws s).0.failures
          ≡ (run_first (issue_from fuel batch remaining ws s).0.issued ws s).0)
        × ((issue_from fuel batch remaining ws s).1
            ≡ (run_first (issue_from fuel batch remaining ws s).0.issued ws s).1)
  unfolding issue_from
  from-first zero batch remaining ws s = (refl, refl)
  from-first (suc fuel) batch remaining ws s =
      let ran = run_batch batch ws s in
      let rest =
        issue_from fuel (next_batch batch (remaining - batch)) (remaining - batch) (drop batch ws)
          ran.1 in
      ground (
        arith,
        batch-first batch ws s,
        first-add batch rest.0.issued ws s,
        from-first fuel (next_batch batch (remaining - batch)) (remaining - batch) (drop batch ws)
            ran.1,
      )

  -- A pass does what running its first writes one after another does, each once and in their order:
  -- the same state and the same number of failures. Those are at most 500, and all of the first 500
  -- writes unless one of them failed. The writes of a batch, which the source runs at once, are taken
  -- in their order.
  pub issue_child_writes_in_order :
      (ws : List (Exec S (Unit {0}))) (s : S)
      → ((issue_child_writes ws s).1 ≡ (run_first (issue_child_writes ws s).0.issued ws s).1)
        × ((issue_child_writes ws s).0.failures
            ≡ (run_first (issue_child_writes ws s).0.issued ws s).0)
        × ((issue_child_writes ws s).0.issued ≤ smaller (length ws) burst_child_writes)
        × (is_some (issue_child_writes ws s).0.first_error ≡ false
            → (issue_child_writes ws s).0.issued ≡ smaller (length ws) burst_child_writes)
  unfolding issue_child_writes
  issue_child_writes_in_order ws s =
      let remaining = smaller (length ws) burst_child_writes in
      let first = from-first remaining (smaller remaining 1) remaining ws s in
      (first.1, first.0, (issue_complete ws s).0, (issue_complete ws s).1)
