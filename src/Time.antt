-- ===== src/Time.antt =====
-- Instants, timestamps and periods: dueFor and nowRFC3339 of controller/util.go, deadlineExceeded and
-- the TTL test of collectFinishedRun of controller/ansiblerun.go.
pub mod Deadline
use ansible_supervisor_servi.Prelude.{
  ℕ, ◌*◌, ◌/◌, ◌-◌, ◌+◌, Bool, true, false, Option, none, some, leb, ltb, ◌==◌, if◌then◌else◌, ℤ,
  pos, negsuc, lt_int, wrap_int64, sub_saturated, not,
}

-- An instant is a number of nanoseconds since an epoch that lies before every instant that occurs.
abbrev pub second : ℕ
second = 1000000000

-- A string field that holds an RFC3339 time, by what the code observes of it: "", a time in whole
-- seconds, or a text that time.Parse refuses.
pub data Stamp : Type 0 where
  unset : Stamp
  at : ℕ → Stamp
  unreadable : Stamp

-- `s != ""`
abbrev pub is_set : Stamp → Bool
is_set unset = false
is_set _ = true

-- time.Parse; the value is an instant.
abbrev pub parse : Stamp → Option ℕ
parse (at s) = some (s * second)
parse _ = none

-- The seconds are cut off, not rounded.
unfoldable pub now_rfc3339 : ℕ → Stamp
now_rfc3339 now = at (now / second)

-- time.Since(t)
unfoldable pub since : ℕ → ℕ → ℤ
since now t = sub_saturated now t

-- time.Duration(n) * time.Second
unfoldable pub seconds : ℕ → ℤ
seconds n = wrap_int64 (n * second)

-- The two results of dueFor. The period is a flag of the controller, far from int64's bounds.
unfoldable pub due_for : Stamp → ℕ → ℕ → Bool × ℕ
due_for ts period now = elim (parse ts) [
  | none ↦ (true, 0)
  | some last ↦
      if ltb now last
      then (true, 0)
      else if leb period (now - last)
      then (true, 0)
      else (false, period - (now - last))
]

-- deadlineExceeded: `limit` is spec.activeDeadlineSeconds, which the CRD keeps from being negative,
-- and `created` is none for a zero creation time.
unfoldable pub deadline_exceeded : ℕ → Option ℕ → ℕ → Bool
unfolding since seconds
deadline_exceeded limit none now = false
deadline_exceeded limit (some created) now =
    if limit == 0 then false else lt_int (seconds limit) (since now created)

-- The test of collectFinishedRun that keeps a finished run: its TTL has not passed.
unfoldable pub ttl_pending : ℕ → ℕ → ℕ → Bool
unfolding since seconds
ttl_pending ttl finished now = lt_int (since now finished) (seconds ttl)
