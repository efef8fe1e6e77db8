-- ===== src/Clock.antt =====
-- Go's time.Time and time.Duration, as the repository uses them.
--
-- A Time is the number of nanoseconds since Go's zero time (year 1), so 0 is time.Time{}.
-- Times before year 1 do not occur. A Duration is an int64 of nanoseconds.
pub mod Unix
use hop_react.Common.{
  ℕ, ◌+◌, ◌-◌, ◌*◌, ◌^◌, ◌≤◌, ◌<◌, ◌%◌, ◌≡◌, ◌↔◌, Bool, true, not, arith, ℤ, pos, negsuc, sub_ℕ,
  ltb, leb, leb_ℤ, ◌≤ℤ◌, ◌==◌, if◌then◌else◌,
}

abbrev pub Time : Type 0
Time = ℕ

abbrev pub Duration : Type 0
Duration = ℤ

abbrev pub zero_time : Time
zero_time = 0

abbrev pub is_zero : Time → Bool
is_zero t = t == 0

abbrev pub after : Time → Time → Bool
after t u = ltb u t

abbrev pub max_duration : ℕ
max_duration = 0x7fff_ffff_ffff_ffff

-- t.Sub(u) stops at the ends of an int64.
unfoldable pub sub : Time → Time → Duration
sub t u =
    if leb u t
    then (if leb (t - u) max_duration then pos (t - u) else pos max_duration)
    else (if leb (u - t - 1) max_duration then negsuc (u - t - 1) else negsuc max_duration)

abbrev pub hour : ℕ
hour = 3_600_000_000_000

-- time.Duration(n) * time.Hour for n ≥ 0, in an int64, which wraps.
unfoldable pub hours : ℕ → Duration
hours n = let d = n * hour % 2 ^ 64 in if leb d max_duration then pos d else negsuc (2 ^ 64 - d - 1)

-- Up to 292 years the wrap does nothing.
pub hours_exact : (n : ℕ) → n ≤ 2562047 → hours n ≡ pos (n * 3_600_000_000_000)
unfolding hours
hours_exact n h = ground arith

-- now.Sub(at) >= threshold compares the true distance, the clamp notwithstanding, for every
-- threshold that is an int64.
pub sub_reaches :
    (now at d : ℕ) → d ≤ max_duration → (leb_ℤ (pos d) (sub now at) ≡ true) ↔ (at + d ≤ now)
unfolding sub
sub_reaches now at d h = (λ e. ground arith, λ e. ground arith)
