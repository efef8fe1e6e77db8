-- ===== src/Clock/Unix.antt =====
-- Times as the database keeps them: unix seconds, NULL for the zero time (internal/store/store.go).
use hop_react.Common.{
  ℕ, suc, ◌+◌, ◌-◌, ◌*◌, ◌/◌, ◌≡◌, Option, none, some, arith, ℤ, pos, negsuc, sub_ℕ, if◌then◌else◌,
}
use hop_react.Clock.{Time, zero_time, is_zero}

abbrev pub second : ℕ
second = 1_000_000_000

-- Seconds from Go's zero time to the Unix epoch.
abbrev pub epoch : ℕ
epoch = 62_135_596_800

unfoldable pub unix : Time → ℤ
unix t = sub_ℕ (t / second) epoch

unfoldable pub from_unix : ℤ → Time
from_unix (pos n) = (n + epoch) * second
from_unix (negsuc n) = (epoch - suc n) * second

unfoldable pub null_int : Time → Option ℤ
unfolding unix
null_int t = if is_zero t then none else some (unix t)

unfoldable pub time_from : Option ℤ → Time
unfolding from_unix
time_from none = zero_time
time_from (some s) = from_unix s

unfoldable pub unix_or_zero : Time → ℤ
unfolding unix
unix_or_zero t = if is_zero t then pos 0 else unix t

pub from_unix-unix : (t : Time) → from_unix (unix t) ≡ t / second * second
unfolding from_unix unix
from_unix-unix t = ground arith

-- What a time column gives back is the time cut to whole seconds.
pub time_from-null_int : (t : Time) → time_from (null_int t) ≡ t / second * second
unfolding time_from null_int
time_from-null_int t = ground arith
