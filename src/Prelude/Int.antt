-- ===== src/Prelude/Int.antt =====
-- Go's int64 as an integer. `negsuc n` is -(n + 1).
use Prim.Native.Nat.{ℕ, ◌-◌, ◌%◌, min}
use mathlib.Core.Bool.{Bool, true, false}
use ansible_supervisor_servi.Prelude.Tests.{ltb, leb, if◌then◌else◌}

pub data ℤ : Type 0 where
  pos : ℕ → ℤ
  negsuc : ℕ → ℤ

-- a < b
abbrev pub lt_int : ℤ → ℤ → Bool
lt_int (pos a) (pos b) = ltb a b
lt_int (pos a) (negsuc b) = false
lt_int (negsuc a) (pos b) = true
lt_int (negsuc a) (negsuc b) = ltb b a

abbrev pub two_63 : ℕ
two_63 = 9223372036854775808

abbrev pub two_64 : ℕ
two_64 = 18446744073709551616

-- The int64 with the bit pattern of n.
abbrev pub wrap_int64 : ℕ → ℤ
wrap_int64 n = let w = n % two_64 in if ltb w two_63 then pos w else negsuc (two_64 - w - 1)

-- a - b of two instants, held within int64 as time.Time.Sub holds it.
abbrev pub sub_saturated : ℕ → ℕ → ℤ
sub_saturated a b =
    if leb b a then pos (min (a - b) (two_63 - 1)) else negsuc (min (b - a - 1) (two_63 - 1))
