-- ===== src/Timing/Time/Exact.antt =====
-- The arithmetic of time.hpp against the natural numbers of picoseconds that it stands for.
use vrt_framework.Prelude.{
  ℕ, ◌+◌, ◌-◌, ◌*◌, ◌/◌, ◌%◌, ◌^◌, ◌<◌, ◌≡◌, ltb, leb, if◌then◌else◌, arith,
}
use vrt_framework.Core.Error.{error, overflow, ok, err}
use vrt_framework.Timing.Time.{
  ProtocolTime, Duration, picoseconds_per_second, add, subtract, difference, before, as_picoseconds,
  deadline, from_nanoseconds, from_picoseconds,
}

abbrev pub total : ProtocolTime → ℕ
total t = t.seconds * picoseconds_per_second + t.picoseconds

abbrev pub total_duration : Duration → ℕ
total_duration d = d.seconds * picoseconds_per_second + d.picoseconds

-- The fields hold `std::uint64_t` values, and the fraction is below a second.
pub record IsTime (t : ProtocolTime) : Type 0 where
  pub seconds_fit : t.seconds < 2 ^ 64
  pub fraction : t.picoseconds < picoseconds_per_second

pub record IsDuration (d : Duration) : Type 0 where
  pub seconds_fit : d.seconds < 2 ^ 64
  pub fraction : d.picoseconds < picoseconds_per_second

pub of_total : ℕ → ProtocolTime
of_total n = record {
  seconds = n / picoseconds_per_second;
  picoseconds = n % picoseconds_per_second;
}

-- `add` on times and durations in range gives the exact sum, in normal form, when it is below
-- 2 ^ 64 seconds, and the overflow error otherwise.
pub add_exact :
    (t : ProtocolTime) (d : Duration)
    → IsTime t
    → IsDuration d
    → add t d ≡ (
        if ltb (total t + total_duration d) (2 ^ 64 * picoseconds_per_second)
        then ok (of_total (total t + total_duration d))
        else err (error overflow))
unfolding add of_total
add_exact t d vt vd = ground arith

-- `subtract` gives the exact difference in normal form, or the overflow error when the duration is
-- longer than the time.
pub subtract_exact :
    (t : ProtocolTime) (d : Duration)
    → IsTime t
    → IsDuration d
    → subtract t d ≡ (
        if leb (total_duration d) (total t)
        then ok (of_total (total t - total_duration d))
        else err (error overflow))
unfolding subtract of_total
subtract_exact t d vt vd = ground arith

-- Whatever `add` returns is in range again, and `subtract` takes the same duration off it.
pub subtract-add :
    (t : ProtocolTime) (d : Duration) {u : ProtocolTime}
    → IsTime t
    → IsDuration d
    → add t d ≡ ok u
    → IsTime u × (subtract u d ≡ ok t)
unfolding add subtract
subtract-add t d vt vd h = (ground arith, ground arith)

-- `difference` of two times in range is the exact distance, and fails only in the wrong order.
pub difference_exact :
    (a b : ProtocolTime)
    → IsTime a
    → IsTime b
    → difference a b ≡ (
        if leb (total b) (total a)
        then ok (record {
          seconds = (total a - total b) / picoseconds_per_second;
          picoseconds = (total a - total b) % picoseconds_per_second;
        })
        else err (error overflow))
unfolding difference
difference_exact a b va vb = ground arith

-- `as_picoseconds` gives the exact length when it fits 64 bits, and the overflow error otherwise.
pub as_picoseconds_exact :
    (d : Duration)
    → IsDuration d
    → as_picoseconds d
      ≡ (if ltb (total_duration d) (2 ^ 64) then ok (total_duration d) else err (error overflow))
unfolding as_picoseconds
as_picoseconds_exact d v = ground arith

-- `from_nanoseconds` does not wrap: it is a duration in range of a thousand times as many picoseconds.
pub from_nanoseconds_exact :
    (ns : ℕ)
    → ns < 2 ^ 64
    → IsDuration (from_nanoseconds ns) × (total_duration (from_nanoseconds ns) ≡ ns * 1000)
unfolding from_nanoseconds
from_nanoseconds_exact ns h = (omega arith, omega arith)

pub from_picoseconds_exact :
    (ps : ℕ)
    → ps < 2 ^ 64
    → IsDuration (from_picoseconds ps) × (total_duration (from_picoseconds ps) ≡ ps)
unfolding from_picoseconds
from_picoseconds_exact ps h = (omega arith, omega arith)

pub deadline_exact :
    (now delay : ℕ)
    → now < 2 ^ 64
    → deadline now delay
      ≡ (if ltb (now + delay) (2 ^ 64) then ok (now + delay) else err (error overflow))
unfolding deadline
deadline_exact now delay h = ground arith

-- `add` never returns anything but the exact sum.
pub total-add :
    (t : ProtocolTime) (d : Duration) {u : ProtocolTime}
    → IsTime t
    → IsDuration d
    → add t d ≡ ok u
    → total u ≡ total t + total_duration d
unfolding add
total-add t d vt vd h = ground arith

pub total-subtract :
    (t : ProtocolTime) (d : Duration) {u : ProtocolTime}
    → IsTime t
    → IsDuration d
    → subtract t d ≡ ok u
    → (total u + total_duration d ≡ total t) × IsTime u
unfolding subtract
total-subtract t d vt vd h = (ground arith, ground arith)

pub add-IsTime :
    (t : ProtocolTime) (d : Duration) {u : ProtocolTime}
    → IsTime t
    → IsDuration d
    → add t d ≡ ok u
    → IsTime u
unfolding add
add-IsTime t d vt vd h = ground arith

pub total-difference :
    (a b : ProtocolTime) {d : Duration}
    → IsTime a
    → IsTime b
    → difference a b ≡ ok d
    → (total_duration d + total b ≡ total a) × IsDuration d
unfolding difference
total-difference a b va vb h = (ground arith, ground arith)

-- The order of the two fields is the order of the picoseconds.
pub before_iff : (a b : ProtocolTime) → IsTime a → IsTime b → before a b ≡ ltb (total a) (total b)
before_iff a b va vb = ground arith

pub total-of_total : (n : ℕ) → total (of_total n) ≡ n
unfolding of_total
total-of_total n = omega arith

pub of_total-IsTime : (n : ℕ) → n < 2 ^ 64 * picoseconds_per_second → IsTime (of_total n)
unfolding of_total
of_total-IsTime n h = omega arith
