-- ===== src/Time/Deadline.antt =====
-- When a run's deadline and TTL pass.
use ansible_supervisor_servi.Prelude.{
  ℕ, ◌*◌, ◌+◌, ◌≤◌, ◌<◌, ◌≡◌, ◌↔◌, ◌⊎◌, inl, inr, Bool-cases, true, false, some, two_63, arith,
}
use ansible_supervisor_servi.Time.{second, at, due_for, deadline_exceeded, ttl_pending}

-- The largest number of seconds whose nanoseconds are an int64.
abbrev pub max_seconds : ℕ
max_seconds = 9223372036

-- A deadline of up to 9223372036 seconds passes exactly when that many seconds have gone by since
-- the creation, for a run that is younger than an int64 of nanoseconds.
pub deadline_exact :
    (limit created now : ℕ)
    → 0 < limit
    → limit ≤ max_seconds
    → now < created + two_63
    → (deadline_exceeded limit (some created) now ≡ true) ↔ (created + limit * second < now)
unfolding deadline_exceeded
deadline_exact limit created now pos small young = ground arith

-- Above that bound, up to twice it, the product wraps to a negative duration: such a deadline has
-- passed from the moment of creation on.
pub deadline_overflow :
    (limit created now : ℕ)
    → max_seconds < limit
    → limit ≤ 2 * max_seconds
    → created ≤ now
    → deadline_exceeded limit (some created) now ≡ true
unfolding deadline_exceeded
deadline_overflow limit created now big small later = ground arith

-- A TTL of up to 9223372036 seconds keeps a finished run exactly until that many seconds have gone by
-- since its end, for a clock that is not behind that end and not an int64 of nanoseconds past it.
pub ttl_exact :
    (ttl finished now : ℕ)
    → ttl ≤ max_seconds
    → finished ≤ now
    → now < finished + two_63
    → (ttl_pending ttl finished now ≡ true) ↔ (now < finished + ttl * second)
unfolding ttl_pending
ttl_exact ttl finished now small later young = ground arith

-- A TTL above the bound, up to twice it, is over as soon as the run has finished.
pub ttl_overflow :
    (ttl finished now : ℕ)
    → max_seconds < ttl
    → ttl ≤ 2 * max_seconds
    → finished ≤ now
    → ttl_pending ttl finished now ≡ false
unfolding ttl_pending
ttl_overflow ttl finished now big small later = ground arith

-- Work is due exactly where the clock is behind its timestamp or the period has gone by since. Work
-- that is not due now is due at a later time exactly where the time that dueFor now says is left has
-- gone by then.
pub due_for_remaining :
    (s period now later : ℕ)
    → now ≤ later
    → (((due_for (at s) period now).0 ≡ true) ↔ ((now < s * second) ⊎ (s * second + period ≤ now)))
      × (((due_for (at s) period now).0 ≡ true)
          ⊎ (((due_for (at s) period later).0 ≡ true)
              ↔ (now + (due_for (at s) period now).1 ≤ later)))
unfolding due_for
due_for_remaining s period now later after = (
  ground arith,
  elim (Bool-cases (due_for (at s) period now).0) [
    | inl due ↦ inl due
    | inr fresh ↦ inr (ground (arith, fresh))
  ],
)
