-- ===== src/Binding/Writes.antt =====
-- issueChildWrites of controller/ansiblebinding.go: the writes of a pass in batches that double.
pub mod Keeps
pub mod Order
use ansible_supervisor_servi.Prelude.{
  ℕ, zero, suc, ◌+◌, ◌-◌, ◌*◌, ◌≤◌, ◌≡◌, refl, Bool, true, false, not, ◌&&◌, ◌||◌, Option, none,
  some, List, [], ◌∷◌, arith, length, is_some, ltb, ◌==◌, if◌then◌else◌, leb,
}
use ansible_supervisor_servi.Errors.{Error, Result, ok, err}
use ansible_supervisor_servi.Exec.{Exec}

abbrev pub burst_child_writes : ℕ
burst_child_writes = 500

abbrev pub max_write_concurrency : ℕ
max_write_concurrency = 32

abbrev pub smaller : ℕ → ℕ → ℕ
smaller a b = if leb a b then a else b

-- What some writes came to: how many were issued, how many failed, and an error of theirs.
pub record Issued : Type 0 where
  pub issued : ℕ
  pub failures : ℕ
  pub first_error : Option Error

abbrev or_else : Option Error → Option Error → Option Error
or_else (some e) o = some e
or_else none o = o

abbrev with_outcome : Result (Unit {0}) → Issued → Issued
with_outcome (ok _) i = i
with_outcome (err e) i = record i { failures = suc i.failures; first_error = some e }

abbrev pub no_writes : Issued
no_writes = record { issued = 0; failures = 0; first_error = none }

-- A batch of more than one of which every write failed stops the burst.
abbrev stops : ℕ → Issued → Bool
stops batch b = ltb 1 batch && b.failures == batch

abbrev pub next_batch : ℕ → ℕ → ℕ
next_batch batch remaining = smaller (2 * batch) (smaller remaining max_write_concurrency)

-- Enough fuel: the loop ends with everything issued, or with an error.
abbrev complete : ℕ → Issued → Bool
complete remaining i = leb i.issued remaining && (is_some i.first_error || i.issued == remaining)

module _ {S : Type 0} where
  abbrev then_batch : Result (Unit {0}) → Issued × S → Issued × S
  then_batch r p = (with_outcome r p.0, p.1)

  -- The first `n` writes, of which there are that many. They run at once in the source; here they run
  -- in one of their orders.
  unfoldable pub run_batch : ℕ → List (Exec S (Unit {0})) → S → Issued × S
  run_batch zero ws s = (no_writes, s)
  run_batch (suc n) [] s = (no_writes, s)
  run_batch (suc n) (w ∷ ws) s = then_batch (w s).0 (run_batch n ws (w s).1)

  abbrev pub drop : ℕ → List (Exec S (Unit {0})) → List (Exec S (Unit {0}))
  drop zero ws = ws
  drop (suc n) [] = []
  drop (suc n) (w ∷ ws) = drop n ws

  abbrev join_issued : ℕ → Issued → Issued × S → Issued × S
  join_issued batch b p = (
    record {
      issued = batch + p.0.issued;
      failures = b.failures + p.0.failures;
      first_error = or_else b.first_error p.0.first_error;
    },
    p.1,
  )

  -- The loop: `remaining` writes may still be issued, `batch` of them at once.
  unfoldable pub issue_from : ℕ → ℕ → ℕ → List (Exec S (Unit {0})) → S → Issued × S
  issue_from zero batch remaining ws s = (no_writes, s)
  issue_from (suc fuel) batch remaining ws s =
      let ran = run_batch batch ws s in
      let rest =
        issue_from fuel (next_batch batch (remaining - batch)) (remaining - batch) (drop batch ws)
          ran.1 in
      if batch == 0
      then (no_writes, s)
      else if stops batch ran.0
      then (record ran.0 { issued = batch }, ran.1)
      else join_issued batch ran.0 rest

  unfoldable pub issue_child_writes : List (Exec S (Unit {0})) → S → Issued × S
  issue_child_writes ws s =
      let remaining = smaller (length ws) burst_child_writes in
      issue_from remaining (smaller remaining 1) remaining ws s

  run-errors :
      (n : ℕ) (ws : List (Exec S (Unit {0}))) (s : S)
      → is_some (run_batch n ws s).0.first_error ≡ not ((run_batch n ws s).0.failures == 0)
  unfolding run_batch
  run-errors zero ws s = refl
  run-errors (suc n) [] s = refl
  run-errors (suc n) (w ∷ ws) s =
      with_result (w s).0 (run_batch n ws (w s).1).0 (run-errors n ws (w s).1)
    where
      with_result :
          (r : Result (Unit {0})) (i : Issued)
          → is_some i.first_error ≡ not (i.failures == 0)
          → is_some (with_outcome r i).first_error ≡ not ((with_outcome r i).failures == 0)
      with_result (ok a) i h = h
      with_result (err e) i h = ground arith

  from-complete :
      (fuel batch remaining : ℕ) (ws : List (Exec S (Unit {0}))) (s : S)
      → remaining ≤ fuel
      → batch ≤ remaining
      → (batch ≡ 0 → remaining ≡ 0)
      → complete remaining (issue_from fuel batch remaining ws s).0 ≡ true
  unfolding issue_from
  from-complete zero batch remaining ws s f b z = ground (arith, f)
  from-complete (suc fuel) batch remaining ws s f b z = ground (
    arith,
    f,
    b,
    z,
    run-errors batch ws s,
    from-complete fuel (next_batch batch (remaining - batch)) (remaining - batch) (drop batch ws)
        (run_batch batch ws s).1,
  )

  pub issue_complete :
      (ws : List (Exec S (Unit {0}))) (s : S)
      → ((issue_child_writes ws s).0.issued ≤ smaller (length ws) burst_child_writes)
        × (is_some (issue_child_writes ws s).0.first_error ≡ false
            → (issue_child_writes ws s).0.issued ≡ smaller (length ws) burst_child_writes)
  unfolding issue_child_writes
  issue_complete ws s =
      let remaining = smaller (length ws) burst_child_writes in
      ground (arith, from-complete remaining (smaller remaining 1) remaining ws s)
