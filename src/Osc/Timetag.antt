-- ===== src/Osc/Timetag.antt =====
-- The time tag of a bundle: `SystemTime` as a `Duration` since 1970, and `OscTime` of the rosc crate,
-- which is a pair of 32-bit numbers.
use daemon_choir.Base.{ℕ, ◌+◌, ◌*◌, ◌/◌, ◌%◌, ◌^◌, ◌≤◌, ◌<◌, ◌≢◌, arith}

pub record Duration : Type 0 where
  pub as_secs : ℕ
  pub subsec_nanos : ℕ

-- `OscTime::from((seconds, fractional))`
pub record OscTime : Type 0 where
  pub seconds : ℕ
  pub fractional : ℕ

-- `as_micros() as u64`
unfoldable pub as_micros : Duration → ℕ
as_micros d = (d.as_secs * 1_000_000 + d.subsec_nanos / 1000) % 2 ^ 64

unfoldable pub osc_timetag : Duration → OscTime
osc_timetag duration =
    let secs = duration.as_secs % 2 ^ 32 in
    let nanos = duration.subsec_nanos in
    let frac = ((nanos * 2 ^ 32) % 2 ^ 64 / 1_000_000_000) % 2 ^ 32 in
    record { seconds = secs; fractional = frac }

-- what the standard library promises of a duration
abbrev pub IsDuration : Duration → Type 0
IsDuration d = d.subsec_nanos < 1_000_000_000

-- The fraction in the time tag of a time with fewer than 10^9 nanoseconds loses nothing to the
-- shift and the casts: it is the largest number of 1/2^32 seconds that does not exceed the
-- nanoseconds, and fits into 32 bits.
pub osc_timetag-fraction :
    (d : Duration)
    → IsDuration d
    → let frac = (osc_timetag d).fractional in
      (frac * 1_000_000_000 ≤ d.subsec_nanos * 2 ^ 32)
      × (d.subsec_nanos * 2 ^ 32 < (frac + 1) * 1_000_000_000)
      × (frac < 2 ^ 32)
unfolding osc_timetag
osc_timetag-fraction d h = omega arith

-- A time tag of OSC counts from 1900, which is this many seconds before 1970.
abbrev pub ntp_offset : ℕ
ntp_offset = 2_208_988_800

-- At no time does the time tag have the seconds that OSC prescribes, those since 1900 modulo
-- 2^32: the code leaves out the offset from 1970.
pub osc_timetag-ne-ntp :
    (d : Duration) → (osc_timetag d).seconds ≢ (d.as_secs + ntp_offset) % 2 ^ 32
unfolding osc_timetag
osc_timetag-ne-ntp d = omega arith
