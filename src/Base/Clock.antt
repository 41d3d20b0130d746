-- ===== src/Base/Clock.antt =====
-- `time.Time` and `time.Duration`. A time is its number of nanoseconds since Go's zero time
-- (1 January of year 1), so `IsZero` is `== 0`; times before it do not occur. A duration is an
-- int64 of nanoseconds.
use Prim.Native.Nat.{ℕ, ◌+◌, ◌-◌, ◌*◌, ◌/◌}
use mathlib.Core.Bool.{Bool}
use amarre.Base.Tests.{ltb, if◌then◌else◌, ◌==◌}
use amarre.Base.Int.{ℤ, pos, negsuc, sub_ℕ}

abbrev pub Time : Type 0
Time = ℕ

abbrev pub Duration : Type 0
Duration = ℤ

abbrev pub second : ℕ
second = 1000000000

abbrev pub minute : ℕ
minute = 60000000000

abbrev pub hour : ℕ
hour = 3600000000000

abbrev pub is_zero : Time → Bool
is_zero t = t == 0

abbrev pub max_duration : ℕ
max_duration = 9223372036854775807

-- `t.Sub(u)`: the difference, held within int64.
abbrev pub sub_time : Time → Time → Duration
sub_time t u =
    if ltb (max_duration + u) t
    then pos max_duration
    else if ltb (t + max_duration + 1) u
    then negsuc max_duration
    else sub_ℕ t u

-- `t.Add(d)`
abbrev pub add_time : Time → Duration → Time
add_time t (pos d) = t + d
add_time t (negsuc d) = t - (d + 1)

-- `t.After(u)` and `t.Before(u)`.
abbrev pub after : Time → Time → Bool
after t u = ltb u t

abbrev pub before : Time → Time → Bool
before t u = ltb t u

-- The Unix epoch as a time.
abbrev pub epoch : Time
epoch = 62135596800000000000

-- `time.Unix(s, 0)` for a count of seconds since 1970 that is not negative.
abbrev pub of_unix : ℕ → Time
of_unix s = epoch + s * second

-- `t.Unix()`, in seconds since 1970; for a time before 1970 it is held at 0.
abbrev pub unix : Time → ℕ
unix t = (t - epoch) / second
