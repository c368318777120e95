-- ===== src/Timing/Time.antt =====
-- include/vita/runtime/timing/time.hpp: protocol times and durations, checked addition.
pub mod Exact
use vrt_framework.Prelude.{
  ℕ, ◌+◌, ◌-◌, ◌*◌, ◌/◌, ◌%◌, Bool, ◌&&◌, ◌||◌, not, ltb, leb, ◌==◌, if◌then◌else◌, u64_max, add64,
  sub64, mul64,
}
use vrt_framework.Core.Error.{
  error, invalid_argument, overflow, Result, ok, err, ◌>>=◌, ◌>>◌, guard,
}

abbrev pub picoseconds_per_second : ℕ
picoseconds_per_second = 1000000000000

-- `ProtocolTime` and `Duration` have the same two fields; `MonoTime` is its nanoseconds.
pub record ProtocolTime : Type 0 where
  pub seconds : ℕ
  pub picoseconds : ℕ

pub record Duration : Type 0 where
  pub seconds : ℕ
  pub picoseconds : ℕ

-- The defaulted comparison: by seconds, then by picoseconds.
abbrev pub before : ProtocolTime → ProtocolTime → Bool
before a b = ltb a.seconds b.seconds || (a.seconds == b.seconds && ltb a.picoseconds b.picoseconds)

abbrev pub shorter : Duration → Duration → Bool
shorter a b = ltb a.seconds b.seconds || (a.seconds == b.seconds && ltb a.picoseconds b.picoseconds)

abbrev pub same_duration : Duration → Duration → Bool
same_duration a b = a.seconds == b.seconds && a.picoseconds == b.picoseconds

abbrev pub valid : ProtocolTime → Bool
valid t = ltb t.picoseconds picoseconds_per_second

abbrev pub valid_duration : Duration → Bool
valid_duration d = ltb d.picoseconds picoseconds_per_second

unfoldable pub from_picoseconds : ℕ → Duration
from_picoseconds ps = record {
  seconds = ps / picoseconds_per_second;
  picoseconds = ps % picoseconds_per_second;
}

unfoldable pub from_nanoseconds : ℕ → Duration
from_nanoseconds ns = record {
  seconds = ns / 1000000000;
  picoseconds = mul64 (ns % 1000000000) 1000;
}

unfoldable pub add : ProtocolTime → Duration → Result ProtocolTime
add t d =
    let fraction = add64 t.picoseconds d.picoseconds in
    let carry = fraction / picoseconds_per_second in
    if not (valid t) || not (valid_duration d)
    then err (error invalid_argument)
    else if ltb (sub64 u64_max t.seconds) d.seconds
        || ltb (sub64 (sub64 u64_max t.seconds) d.seconds) carry
    then err (error overflow)
    else ok (record {
      seconds = add64 (add64 t.seconds d.seconds) carry;
      picoseconds = fraction % picoseconds_per_second;
    })

unfoldable pub subtract : ProtocolTime → Duration → Result ProtocolTime
subtract t d =
    if not (valid t) || not (valid_duration d)
    then err (error invalid_argument)
    else if before t (record { seconds = d.seconds; picoseconds = d.picoseconds })
    then err (error overflow)
    else if ltb t.picoseconds d.picoseconds
    then ok (record {
      seconds = sub64 (sub64 t.seconds d.seconds) 1;
      picoseconds = sub64 (add64 picoseconds_per_second t.picoseconds) d.picoseconds;
    })
    else ok (record {
      seconds = sub64 t.seconds d.seconds;
      picoseconds = sub64 t.picoseconds d.picoseconds;
    })

unfoldable pub difference : ProtocolTime → ProtocolTime → Result Duration
unfolding subtract
difference later earlier = do
  t ← subtract later (record { seconds = earlier.seconds; picoseconds = earlier.picoseconds })
  ok (record { seconds = t.seconds; picoseconds = t.picoseconds })

unfoldable pub as_picoseconds : Duration → Result ℕ
as_picoseconds d =
    if not (valid_duration d)
    then err (error invalid_argument)
    else if ltb (sub64 u64_max d.picoseconds / picoseconds_per_second) d.seconds
    then err (error overflow)
    else ok (add64 (mul64 d.seconds picoseconds_per_second) d.picoseconds)

unfoldable pub deadline : ℕ → ℕ → Result ℕ
deadline now delay_ns =
    if ltb (sub64 u64_max now) delay_ns then err (error overflow) else ok (add64 now delay_ns)
