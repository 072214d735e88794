-- ===== src/Binding/Writes/Keeps.antt =====
-- Invariants of the batches of issueChildWrites: what every single write keeps, a pass keeps.
use ansible_supervisor_servi.Prelude.{
  ℕ, zero, suc, ◌-◌, ◌≡◌, Bool, true, List, [], ◌∷◌, ◌++◌, arith, length,
}
use ansible_supervisor_servi.Exec.{Exec}
use ansible_supervisor_servi.Binding.Writes.{
  run_batch, drop, next_batch, issue_from, issue_child_writes, smaller, burst_child_writes,
}

module _ {S : Type 0} (p : S → Bool) where
  -- Every write of a list keeps `p`.
  abbrev pub AllKeep : List (Exec S (Unit {0})) → Type 0
  AllKeep [] = Unit {0}
  AllKeep (w ∷ ws) = ((s : S) → p s ≡ true → p (w s).1 ≡ true) × AllKeep ws

  pub append-AllKeep :
      (ws vs : List (Exec S (Unit {0}))) → AllKeep ws → AllKeep vs → AllKeep (ws ++ vs)
  append-AllKeep [] vs h k = k
  append-AllKeep (w ∷ ws) vs h k = (h.0, append-AllKeep ws vs h.1 k)

  batch-keeps :
      (n : ℕ) (ws : List (Exec S (Unit {0})))
      → AllKeep ws
      → (s : S) → p s ≡ true
      → p (run_batch n ws s).1 ≡ true
  unfolding run_batch
  batch-keeps zero ws k s h = h
  batch-keeps (suc n) [] k s h = h
  batch-keeps (suc n) (w ∷ ws) k s h = batch-keeps n ws k.1 (w s).1 (k.0 s h)

  drop-AllKeep : (n : ℕ) (ws : List (Exec S (Unit {0}))) → AllKeep ws → AllKeep (drop n ws)
  drop-AllKeep zero ws k = k
  drop-AllKeep (suc n) [] k = tt
  drop-AllKeep (suc n) (w ∷ ws) k = drop-AllKeep n ws k.1

  from-keeps :
      (fuel batch remaining : ℕ) (ws : List (Exec S (Unit {0})))
      → AllKeep ws
      → (s : S) → p s ≡ true
      → p (issue_from fuel batch remaining ws s).1 ≡ true
  unfolding issue_from
  from-keeps zero batch remaining ws k s h = h
  from-keeps (suc fuel) batch remaining ws k s h =
      let ran = run_batch batch ws s in
      let kept = batch-keeps batch ws k s h in
      let rest =
        from-keeps fuel (next_batch batch (remaining - batch)) (remaining - batch) (drop batch ws)
          (drop-AllKeep batch ws k) ran.1 kept in
      ground (arith, h, kept, rest)

  pub issue-keeps :
      (ws : List (Exec S (Unit {0})))
      → AllKeep ws
      → (s : S) → p s ≡ true
      → p (issue_child_writes ws s).1 ≡ true
  unfolding issue_child_writes
  issue-keeps ws k s h =
      let remaining = smaller (length ws) burst_child_writes in
      from-keeps remaining (smaller remaining 1) remaining ws k s h
