-- ===== src/Clock.antt =====
-- Go's package time, as far as the program reads it. A `Time` is the nanoseconds since the zero time
-- (1 January of year 1), so 0 is the zero time; a `Duration` is an int64 count of nanoseconds.
use certel.Prelude.{
  ℕ, ◌+◌, ◌-◌, ◌*◌, ◌/◌, ◌^◌, ◌≤◌, ◌<◌, min, Bool, arith, leb, ◌==◌, if◌then◌else◌,
}
use certel.Prelude.Int.{ℤ, pos, negsuc, ◌≤ℤ◌}

abbrev pub Time : Type 0
Time = ℕ

abbrev pub Duration : Type 0
Duration = ℤ

abbrev pub zero_time : Time
zero_time = 0

abbrev pub is_zero : Time → Bool
is_zero t = t == 0

abbrev pub second : ℕ
second = 10 ^ 9

abbrev pub max_int64 : ℕ
max_int64 = 2 ^ 63 - 1

-- t.Sub(u): the difference, or the nearest duration that an int64 holds.
unfoldable pub sub_time : Time → Time → Duration
sub_time t u = if leb u t then pos (min (t - u) max_int64) else negsuc (min (u - t - 1) max_int64)

-- Seconds from the zero time to 1970.
abbrev pub unix_epoch : ℕ
unix_epoch = 62135596800

-- t.Unix(), of a time that is not before 1970.
unfoldable pub unix : Time → ℕ
unix t = t / second - unix_epoch

-- time.Unix(n, 0).
unfoldable pub from_unix : ℕ → Time
from_unix n = (n + unix_epoch) * second

-- A time read back from its seconds lies at most a second before it.
pub from_unix-unix :
    (t : Time)
    → unix_epoch * second ≤ t
    → (from_unix (unix t) ≤ t) × (t < from_unix (unix t) + second)
unfolding from_unix unix
from_unix-unix t h = (omega arith, omega arith)

-- Time that passes adds to the difference.
pub sub_time-mono : (t t' u : Time) → t ≤ t' → sub_time t u ≤ℤ sub_time t' u
unfolding sub_time
sub_time-mono t t' u h = ground arith
