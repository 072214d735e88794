-- ===== src/Tests/Times.antt =====
-- Deadlines and periods at concrete instants.
use ansible_supervisor_servi.Prelude.{◌+◌, ◌*◌, ◌<◌, ◌≤◌, ◌≡◌, ◌↔◌, ◌⊎◌, true, false, some, arith}
use ansible_supervisor_servi.Time.{second, at, due_for, deadline_exceeded, ttl_pending}
use ansible_supervisor_servi.Time.Deadline.{
  deadline_exact, deadline_overflow, ttl_exact, ttl_overflow, due_for_remaining,
}

deadline_exact_example : (deadline_exceeded 60 (some 100) 5000 ≡ true) ↔ (100 + 60 * second < 5000)
deadline_exact_example = deadline_exact 60 100 5000 (omega arith) (omega arith) (omega arith)

deadline_overflow_example : deadline_exceeded 10000000000 (some 100) 100 ≡ true
deadline_overflow_example =
    deadline_overflow 10000000000 100 100 (omega arith) (omega arith) (omega arith)

ttl_exact_example : (ttl_pending 60 100 5000 ≡ true) ↔ (5000 < 100 + 60 * second)
ttl_exact_example = ttl_exact 60 100 5000 (omega arith) (omega arith) (omega arith)

ttl_overflow_example : ttl_pending 9999999999 100 100 ≡ false
ttl_overflow_example = ttl_overflow 9999999999 100 100 (omega arith) (omega arith) (omega arith)

due_for_remaining_example :
    (((due_for (at 1) (10 * second) (2 * second)).0 ≡ true)
      ↔ ((2 * second < 1 * second) ⊎ (1 * second + 10 * second ≤ 2 * second)))
    × (((due_for (at 1) (10 * second) (2 * second)).0 ≡ true)
        ⊎ (((due_for (at 1) (10 * second) (8 * second)).0 ≡ true)
            ↔ (2 * second + (due_for (at 1) (10 * second) (2 * second)).1 ≤ 8 * second)))
due_for_remaining_example =
    due_for_remaining 1 (10 * second) (2 * second) (8 * second) (omega arith)
