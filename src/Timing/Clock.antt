-- ===== src/Timing/Clock.antt =====
-- include/vita/runtime/timing/clock.hpp: the mapping from monotonic to protocol time.
-- A method that changes the clock returns its result beside the new clock.
pub mod States
pub mod Uncertainty
use vrt_framework.Prelude.{
  ℕ, ◌+◌, ◌-◌, ◌*◌, ◌/◌, ◌%◌, Bool, true, false, ◌&&◌, ◌||◌, not, ltb, leb, ◌==◌, if◌then◌else◌,
  u64_max, add64, sub64, mul64, Option, none, some,
}
use vrt_framework.Core.Error.{
  error, invalid_argument, invalid_state, overflow, Result, ok, err, ◌>>=◌, ◌>>◌, guard, done,
}
use vrt_framework.Timing.Time.{ProtocolTime, valid, add, from_nanoseconds}

-- `beyond` stands for the values of the underlying byte above `other`.
pub data Epoch : Type 0 where
  utc gps other beyond : Epoch

abbrev pub above_other : Epoch → Bool
above_other beyond = true
above_other _ = false

pub data ClockState : Type 0 where
  unbound acquiring locked holdover faulted : ClockState

abbrev pub is_unbound : ClockState → Bool
is_unbound unbound = true
is_unbound _ = false

abbrev pub is_locked : ClockState → Bool
is_locked locked = true
is_locked _ = false

abbrev pub is_tracking : ClockState → Bool
is_tracking locked = true
is_tracking holdover = true
is_tracking _ = false

pub record ClockBinding : Type 0 where
  pub epoch : Epoch
  pub epoch_configured : Bool
  pub qualified : Bool
  pub injected : Bool
  pub calibration_uncertainty_ps : ℕ
  pub holdover_drift_ppb : ℕ
  pub holdover_limit_ns : ℕ

pub record ClockSnapshot : Type 0 where
  pub state : ClockState
  pub time : ProtocolTime
  pub uncertainty_ps : ℕ
  pub mapping_generation : ℕ
  pub calibrated : Bool
  pub injected : Bool
  pub epoch : Epoch

pub record ProtocolClock : Type 0 where
  pub binding : ClockBinding
  pub state : ClockState
  pub capture : ℕ
  pub origin : ProtocolTime
  pub generation : ℕ
  pub pulse_uncertainty : ℕ
  pub mapped : Bool

unfoldable pub bind : ProtocolClock → ClockBinding → ProtocolClock × Result (Unit {0})
bind c b =
    if not b.epoch_configured
      || (not b.qualified && not b.injected)
      || b.holdover_limit_ns == 0
      || above_other b.epoch
    then (c, err (error invalid_argument))
    else if c.generation == u64_max
    then (c, err (error overflow))
    else (
      record c {
        binding = b;
        state = acquiring;
        mapped = false;
        generation = add64 c.generation 1;
      },
      done,
    )

-- No time of day: only the state of an unmapped clock changes.
abbrev pub without_time_of_day : ProtocolClock → ProtocolClock
without_time_of_day c = if c.mapped then c else record c { state = acquiring }

unfoldable pub observe_pps :
    ProtocolClock → ℕ → Option ProtocolTime → ℕ → ProtocolClock × Result (Unit {0})
observe_pps c capture none uncertainty =
    if is_unbound c.state
    then (c, err (error invalid_state))
    else (without_time_of_day c, err (error invalid_argument))
observe_pps c capture (some t) uncertainty =
    if is_unbound c.state
    then (c, err (error invalid_state))
    else if not (valid t) || (c.mapped && ltb capture c.capture)
    then (c, err (error invalid_argument))
    else if c.generation == u64_max
        || ltb (sub64 u64_max c.binding.calibration_uncertainty_ps) uncertainty
    then (c, err (error overflow))
    else (
      record c {
        capture = capture;
        origin = t;
        pulse_uncertainty = uncertainty;
        mapped = true;
        generation = add64 c.generation 1;
        state = locked;
      },
      done,
    )

unfoldable pub pps_lost : ProtocolClock → ℕ → ProtocolClock × Result (Unit {0})
pps_lost c now = if not c.mapped || ltb now c.capture then (c, err (error invalid_state)) else (
  record c {
    state = if leb c.binding.holdover_limit_ns (sub64 now c.capture) then faulted else holdover;
  },
  done,
)

-- The state after `elapsed` nanoseconds without a pulse, as `snapshot` updates it.
unfoldable pub aged : ProtocolClock → ℕ → ClockState
aged c elapsed =
    if leb c.binding.holdover_limit_ns elapsed
    then faulted
    else if ltb 1000000000 elapsed && is_locked c.state
    then holdover
    else c.state

-- The test before the two products, by division.
unfoldable pub products_overflow : ℕ → ℕ → ℕ → Bool
products_overflow whole remainder drift =
    (not (whole == 0) && ltb (u64_max / whole) drift)
    || (not (remainder == 0) && ltb (u64_max / remainder) drift)

-- The picoseconds of the product of the remainder, rounded up.
unfoldable pub rounded_up : ℕ → ℕ
rounded_up product = add64 (product / 1000000) (if product % 1000000 == 0 then 0 else 1)

-- The checked sum of the three parts.
unfoldable pub checked_sum : ℕ → ℕ → ℕ → Result ℕ
checked_sum base whole_drift extra =
    if ltb (sub64 u64_max base) whole_drift || ltb (sub64 (sub64 u64_max base) whole_drift) extra
    then err (error overflow)
    else ok (add64 (add64 base whole_drift) extra)

-- The uncertainty in picoseconds after `elapsed` nanoseconds, by checked 64-bit steps.
unfoldable pub uncertainty : ClockBinding → ℕ → ℕ → Result ℕ
uncertainty b pulse elapsed =
    let whole = elapsed / 1000000 in
    let remainder = elapsed % 1000000 in
    let drift = b.holdover_drift_ppb in
    if products_overflow whole remainder drift
    then err (error overflow)
    else checked_sum (add64 b.calibration_uncertainty_ps pulse) (mul64 whole drift)
        (rounded_up (mul64 remainder drift))

-- The snapshot of a clock that already has its aged state.
unfoldable pub take_snapshot : ProtocolClock → ℕ → Result ClockSnapshot
unfolding uncertainty
take_snapshot c elapsed = do
  time ← add c.origin (from_nanoseconds elapsed)
  u ← uncertainty c.binding c.pulse_uncertainty elapsed
  ok (record {
    state = c.state;
    time = time;
    uncertainty_ps = u;
    mapping_generation = c.generation;
    calibrated = is_locked c.state;
    injected = c.binding.injected;
    epoch = c.binding.epoch;
  })

unfoldable pub snapshot : ProtocolClock → ℕ → ProtocolClock × Result ClockSnapshot
unfolding take_snapshot aged
snapshot c now =
    if not c.mapped || ltb now c.capture
    then (c, err (error invalid_state))
    else let elapsed = sub64 now c.capture in
      let c' = record c { state = aged c elapsed } in (c', take_snapshot c' elapsed)

unfoldable pub start_after_snapshot :
    ProtocolClock × Result ClockSnapshot → ProtocolClock × Result Bool
start_after_snapshot (c, r) = (c, r >>= λ s. ok (is_locked s.state))

unfoldable pub continue_after_snapshot :
    ProtocolClock × Result ClockSnapshot → ProtocolClock × Result Bool
continue_after_snapshot (c, r) = (c, r >>= λ s. ok (is_tracking s.state))

unfoldable pub data_start_allowed_at : ProtocolClock → ℕ → ProtocolClock × Result Bool
unfolding snapshot start_after_snapshot
data_start_allowed_at c now = start_after_snapshot (snapshot c now)

unfoldable pub data_continue_allowed_at : ProtocolClock → ℕ → ProtocolClock × Result Bool
unfolding snapshot continue_after_snapshot
data_continue_allowed_at c now = continue_after_snapshot (snapshot c now)

-- The cached accessors.
unfoldable pub data_start_allowed : ProtocolClock → Bool
data_start_allowed c = c.mapped && is_locked c.state

unfoldable pub data_continue_allowed : ProtocolClock → Bool
data_continue_allowed c = c.mapped && is_tracking c.state

unfoldable pub mapping_current : ProtocolClock → ℕ → Bool
mapping_current c generation = c.mapped && generation == c.generation
