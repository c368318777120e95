-- ===== src/Timing/Tests.antt =====
-- include/vita/runtime/timing: the arithmetic, the clock and the scheduler on concrete times.
use vrt_framework.Prelude.{
  ℕ, ◌+◌, ◌-◌, ◌*◌, ◌^◌, ◌≤◌, ◌<◌, ◌≡◌, refl, true, false, ◌&&◌, some, [], ◌∷◌, arith, ltb, leb,
  if◌then◌else◌,
}
use vrt_framework.Core.Error.{error, overflow, ok, err}
use vrt_framework.Timing.Time.{
  ProtocolTime, Duration, picoseconds_per_second, add, subtract, difference, as_picoseconds,
  from_nanoseconds, from_picoseconds,
}
use vrt_framework.Timing.Time.Exact.{
  IsTime, IsDuration, total, total_duration, of_total, add_exact, subtract-add,
  as_picoseconds_exact,
}
use vrt_framework.Timing.Clock.{
  ClockBinding, ClockSnapshot, locked, ProtocolClock, Epoch, snapshot, take_snapshot, uncertainty,
  aged, products_overflow, rounded_up, checked_sum, data_start_allowed_at, data_continue_allowed_at,
  start_after_snapshot, continue_after_snapshot, mapping_current,
}
use vrt_framework.Timing.Clock.Uncertainty.{exact_uncertainty, uncertainty_exact}
use vrt_framework.Timing.Clock.States.{
  binds, pulses, loses, samples, run, IsSound, run-IsSound, snapshot_exact,
}
use vrt_framework.Timing.Scheduling.{
  deterministic, Boundary, execution_window, tolerances, effect_interval_allowed, choose_boundary,
  choose_between, choose_loop, consider, consider_timed, skipped, inside, nearer, distance_to,
  chosen, window_for, untracked,
}
use vrt_framework.Timing.Scheduling.Windows.{
  early_ps, late_ps, IsCapable, execution_window_exact, effect_interval_exact,
}
use vrt_framework.Timing.Scheduling.Step.{IsBoundary}
use vrt_framework.Timing.Scheduling.Nearest.{NearestUsable, choose_boundary_nearest}

abbrev at : ℕ → ProtocolTime
at s = record { seconds = s; picoseconds = 999999999999 }

abbrev span : Duration
span = record { seconds = 2; picoseconds = 3 }

at-IsTime : (s : ℕ) → s < 2 ^ 64 → IsTime (at s)
at-IsTime s h = record { seconds_fit = h; fraction = omega arith }

span-IsDuration : IsDuration span
span-IsDuration = record { seconds_fit = omega arith; fraction = omega arith }

add_exact_example : add (at 5) span ≡ (
    if ltb (total (at 5) + total_duration span) (2 ^ 64 * picoseconds_per_second)
    then ok (of_total (total (at 5) + total_duration span))
    else err (error overflow))
add_exact_example = add_exact (at 5) span (at-IsTime 5 (omega arith)) span-IsDuration

later : ProtocolTime
later = record { seconds = 8; picoseconds = 2 }

later_lem : add (at 5) span ≡ ok later
unfolding add later
later_lem = refl

subtract-add_example : IsTime later × (subtract later span ≡ ok (at 5))
subtract-add_example =
    subtract-add (at 5) span (at-IsTime 5 (omega arith)) span-IsDuration later_lem

as_picoseconds_exact_example : as_picoseconds span ≡ (
    if ltb (total_duration span) (2 ^ 64) then ok (total_duration span) else err (error overflow))
as_picoseconds_exact_example = as_picoseconds_exact span span-IsDuration

-- A clock that is bound, and receives a pulse.
abbrev binding : ClockBinding
binding = record {
  epoch = Epoch.utc;
  epoch_configured = true;
  qualified = true;
  injected = false;
  calibration_uncertainty_ps = 100;
  holdover_drift_ppb = 50;
  holdover_limit_ns = 2000000000;
}

abbrev pulsed : ProtocolClock
pulsed = record {
  binding = binding;
  state = locked;
  capture = 1000;
  origin = at 5;
  generation = 2;
  pulse_uncertainty = 10;
  mapped = true;
}

pulsed-IsSound : IsSound pulsed
pulsed-IsSound = record {
  generation_fits = omega arith;
  calibration_fits = omega arith;
  unmapped_state = λ e. cc;
  mapped_state = λ _. (λ e. cc, λ e. cc);
  capture_fits = λ _. omega arith;
  origin_fits = λ _. at-IsTime 5 (omega arith);
  base_fits = λ _. omega arith;
}

run-IsSound_example :
    IsSound
      (run pulsed (samples 2000 ∷ loses 5000 ∷ pulses 6000 (some (at 6)) 20 ∷ binds binding ∷ []))
run-IsSound_example =
    run-IsSound pulsed
      (samples 2000 ∷ loses 5000 ∷ pulses 6000 (some (at 6)) 20 ∷ binds binding ∷ [])
      (omega arith, (omega arith, ((omega arith, omega arith, omega arith), (omega arith, tt))))
      pulsed-IsSound

computed : uncertainty binding 10 50000 ≡ ok 113
unfolding uncertainty products_overflow rounded_up checked_sum
computed = refl

uncertainty_exact_example : (113 ≡ exact_uncertainty binding 10 50000) × (113 < 2 ^ 64)
uncertainty_exact_example = uncertainty_exact binding 10 50000 (omega arith) computed

abbrev taken : ClockSnapshot
taken = record {
  state = locked;
  time = record { seconds = 6; picoseconds = 49999999 };
  uncertainty_ps = 113;
  mapping_generation = 2;
  calibrated = true;
  injected = false;
  epoch = Epoch.utc;
}

snapshot_lem : (snapshot pulsed 51000).1 ≡ ok taken
unfolding snapshot take_snapshot aged add from_nanoseconds uncertainty products_overflow rounded_up
    checked_sum
snapshot_lem = refl

snapshot_exact_example :
    (total taken.time ≡ total (at 5) + (51000 - 1000) * 1000)
    × (taken.uncertainty_ps ≡ exact_uncertainty binding 10 (51000 - 1000))
    × (mapping_current pulsed 2 ≡ true)
    × (1000 ≤ 51000)
snapshot_exact_example = snapshot_exact pulsed 51000 pulsed-IsSound (omega arith) snapshot_lem

starts : (data_start_allowed_at pulsed 51000).1 ≡ ok true
unfolding data_start_allowed_at start_after_snapshot snapshot take_snapshot aged add
    from_nanoseconds uncertainty products_overflow rounded_up checked_sum
starts = refl

continues : (data_continue_allowed_at pulsed 1500001000).1 ≡ ok true
unfolding data_continue_allowed_at continue_after_snapshot snapshot take_snapshot aged add
    from_nanoseconds uncertainty products_overflow rounded_up checked_sum
continues = refl

-- Windows and boundaries.
deterministic-IsCapable : IsCapable deterministic
deterministic-IsCapable = record {
  device_early_fits = omega arith;
  device_late_fits = omega arith;
  application_early_fits = omega arith;
  application_late_fits = omega arith;
  lead_fits = omega arith;
  horizon_fits = omega arith;
}

abbrev near : Boundary
near = record {
  time = record { seconds = 7; picoseconds = 400 };
  sample_ordinal = 12;
  mapping_generation = 2;
  committed = false;
  backend_ready = true;
  quantization_uncertainty_ps = 5;
}

abbrev far : Boundary
far = record near { time = record { seconds = 7; picoseconds = 800 } }

window_lem :
    execution_window 2 (record { seconds = 7; picoseconds = 0 }) deterministic
    ≡ ok (record {
      earliest = record { seconds = 6; picoseconds = 999999000000 };
      latest = record { seconds = 7; picoseconds = 1001000000 };
    })
unfolding execution_window tolerances subtract add from_picoseconds
window_lem = refl

abbrev seven : ProtocolTime
seven = record { seconds = 7; picoseconds = 0 }

seven-IsTime : IsTime seven
seven-IsTime = record { seconds_fit = omega arith; fraction = omega arith }

near-IsTime : IsTime near.time
near-IsTime = record { seconds_fit = omega arith; fraction = omega arith }

far-IsTime : IsTime far.time
far-IsTime = record { seconds_fit = omega arith; fraction = omega arith }

execution_window_exact_example :
    (total (record { seconds = 6; picoseconds = 999999000000 }) + early_ps 2 deterministic
      ≡ total seven)
    × (total (record { seconds = 7; picoseconds = 1001000000 })
        ≡ total seven + late_ps 2 deterministic)
    × IsTime (record { seconds = 6; picoseconds = 999999000000 })
    × IsTime (record { seconds = 7; picoseconds = 1001000000 })
    × (0 < 2)
    × (2 ≤ 4)
execution_window_exact_example =
    execution_window_exact 2 seven deterministic seven-IsTime deterministic-IsCapable window_lem

allowed : effect_interval_allowed 2 seven near.time far.time deterministic ≡ ok true
unfolding effect_interval_allowed execution_window tolerances subtract add from_picoseconds
allowed = refl

effect_interval_exact_example : true ≡ (
    leb (total seven) (total near.time + early_ps 2 deterministic)
    && leb (total far.time) (total seven + late_ps 2 deterministic))
effect_interval_exact_example =
    effect_interval_exact 2 seven near.time far.time deterministic (omega arith) seven-IsTime
      near-IsTime far-IsTime deterministic-IsCapable allowed

chosen_lem : choose_boundary 1 seven taken (far ∷ near ∷ []) deterministic ≡ ok near
unfolding choose_boundary untracked choose_between window_for choose_loop consider skipped
    consider_timed inside distance_to difference nearer chosen execution_window tolerances subtract
    add from_picoseconds from_nanoseconds
chosen_lem = refl

near-IsBoundary : IsBoundary near
near-IsBoundary = record { time_valid = omega arith; quantization_fits = omega arith }

far-IsBoundary : IsBoundary far
far-IsBoundary = record { time_valid = omega arith; quantization_fits = omega arith }

choose_boundary_nearest_example :
    NearestUsable
      (total taken.time + 1000000 * 1000)
      (total taken.time + 10000000000 * 1000)
      (total seven)
      (early_ps 1 deterministic)
      (late_ps 1 deterministic)
      taken
      (far ∷ near ∷ [])
      near
choose_boundary_nearest_example =
    choose_boundary_nearest 1 seven taken (far ∷ near ∷ []) deterministic (omega arith)
      (omega arith) (omega arith) (omega arith) deterministic-IsCapable
      (far-IsBoundary, (near-IsBoundary, tt)) chosen_lem
