-- ===== src/Prelude/Clock.antt =====
-- `time.Time` as the nanoseconds since Go's zero time (so `IsZero` is `0`), and `time.Duration`.
use Prim.Native.Nat.{ℕ, ◌-◌, ◌/◌, ◌^◌, min}

abbrev pub Time : Type 0
Time = ℕ

abbrev pub max_duration : ℕ
max_duration = 2 ^ 63 - 1

-- `t.Sub(u)` where `u` is not after `t`: the result saturates at the largest duration. Where `u` is
-- after `t` the source gets a negative duration and the model 0.
abbrev pub sub_time : Time → Time → ℕ
sub_time t u = min (t - u) max_duration

abbrev pub millisecond : ℕ
millisecond = 1_000_000

abbrev pub second : ℕ
second = 1_000_000_000

-- `d.Milliseconds()` of a duration that is not negative.
abbrev pub milliseconds : ℕ → ℕ
milliseconds d = d / millisecond
