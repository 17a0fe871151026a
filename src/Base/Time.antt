-- ===== src/Base/Time.antt =====
-- Go's `time.Time` in UTC: the nanoseconds since 2^63 seconds before Go's zero time, the least that
-- the type holds. That origin is a whole second, so `Truncate(time.Second)` is a remainder here.
use Prim.Native.Nat.{min}
use cirewind.Base.{ℕ, ◌-◌, ◌*◌, ◌%◌, ◌^◌, Bool, ◌==◌, ltb}

abbrev pub Time : Type 0
Time = ℕ

abbrev pub second : ℕ
second = 1_000_000_000

unfoldable pub zero_time : Time
zero_time = 2 ^ 63 * second

-- `t.IsZero()`
unfoldable pub is_zero : Time → Bool
unfolding zero_time
is_zero t = t == zero_time

-- `t.Before(u)`
abbrev pub before : Time → Time → Bool
before t u = ltb t u

-- `t.Truncate(time.Second)`
unfoldable pub truncate_second : Time → Time
truncate_second t = t - t % second

-- The longest `time.Duration`.
abbrev pub max_duration : ℕ
max_duration = 2 ^ 63 - 1

-- `t.Sub(u)` saturates at the longest duration. A negative difference is 0 here; every caller only
-- asks whether the result is at most a positive bound.
unfoldable pub sub_time : Time → Time → ℕ
sub_time t u = min (t - u) max_duration
