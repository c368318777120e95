-- ===== src/Timing/Scheduling.antt =====
-- include/vita/runtime/timing/scheduling.hpp: execution windows and the choice of a boundary.
pub mod Windows
pub mod Step
pub mod Nearest
use vrt_framework.Prelude.{
  ℕ, zero, suc, ◌+◌, ◌-◌, ◌*◌, ◌/◌, ◌%◌, ◌^◌, ◌≤◌, ◌<◌, min, max, bit_and, bit_or, ◌≡◌, refl, sym,
  ap, ◌∙◌, subst, ◌≢◌, ◌↔◌, ◌⊎◌, inl, inr, Bool, true, false, ◌&&◌, ◌||◌, not, Option, none, some,
  List, [], ◌∷◌, ◌++◌, append-nil, append_assoc, arith, ltb, leb, ◌==◌, if◌then◌else◌, ltb→lt,
  lt→ltb, leb→le, ==_iff, ==_refl, Bool-cases, Option-cases, has_value, eq_option, eq_bool, u64_max,
  add64, sub64, mul64, bit, length, get_elem?, get_or, set, take, drop, replicate, length-append,
  length-set, get_elem?-set_self, get_elem?-set_ne, take-append-drop, length-take, length-drop,
  length-replicate, drop-append, take-append,
}
use vrt_framework.Core.Error.{
  ErrorCode, Error, error, error_at, error_needs, invalid_argument, unsupported_layout,
  unsupported_capability, overflow, short_input, short_output, capacity_exhausted, stale_generation,
  invalid_state, callback_failure, no_cpu_access, resource_limit, identity_conflict, Result, ok,
  err, ◌>>=◌, ◌>>◌, guard, done, is_ok, >>=-eq-ok, Result-cases,
}
use vrt_framework.Timing.Time.{
  ProtocolTime, Duration, valid, before, shorter, same_duration, from_picoseconds, from_nanoseconds,
  add, subtract, difference,
}
use vrt_framework.Timing.Clock.{ClockSnapshot, is_tracking}

pub record TimingCapabilities : Type 0 where
  pub device_early_ps : ℕ
  pub device_late_ps : ℕ
  pub application_early_ps : ℕ
  pub application_late_ps : ℕ
  pub preparation_lead_ns : ℕ
  pub horizon_ns : ℕ
  pub qualified : Bool
  pub injected : Bool

abbrev pub deterministic : TimingCapabilities
deterministic = record {
  device_early_ps = 1000000;
  device_late_ps = 1000000;
  application_early_ps = 1000000000;
  application_late_ps = 1000000000;
  preparation_lead_ns = 1000000;
  horizon_ns = 10000000000;
  qualified = false;
  injected = true;
}

pub record ExecutionWindow : Type 0 where
  pub earliest : ProtocolTime
  pub latest : ProtocolTime

pub record Boundary : Type 0 where
  pub time : ProtocolTime
  pub sample_ordinal : ℕ
  pub mapping_generation : ℕ
  pub committed : Bool
  pub backend_ready : Bool
  pub quantization_uncertainty_ps : ℕ

-- How early and how late an effect may be, in the four timed modes.
unfoldable pub tolerances : ℕ → TimingCapabilities → Result (ℕ × ℕ)
tolerances mode c =
    if mode == 2
    then (if ltb (sub64 u64_max c.device_late_ps) c.application_late_ps
        then err (error overflow)
        else ok (c.device_early_ps, add64 c.device_late_ps c.application_late_ps))
    else if mode == 3
    then (if ltb (sub64 u64_max c.device_early_ps) c.application_early_ps
        then err (error overflow)
        else ok (add64 c.device_early_ps c.application_early_ps, c.device_late_ps))
    else if mode == 4
    then ok (c.application_early_ps, c.application_late_ps)
    else ok (c.device_early_ps, c.device_late_ps)

unfoldable pub execution_window : ℕ → ProtocolTime → TimingCapabilities → Result ExecutionWindow
unfolding tolerances
execution_window mode requested c =
    if ltb mode 1 || ltb 4 mode || not (valid requested) then err (error invalid_argument) else do
      (early, late) ← tolerances mode c
      first ← subtract requested (from_picoseconds early)
      last ← add requested (from_picoseconds late)
      ok (record { earliest = first; latest = last })

unfoldable pub effect_interval_allowed :
    ℕ → ProtocolTime → ProtocolTime → ProtocolTime → TimingCapabilities → Result Bool
effect_interval_allowed mode requested first last c =
    if ltb 4 mode || not (valid first) || not (valid last) || before last first
    then err (error invalid_argument)
    else if mode == 0
    then ok true
    else do
      window ← execution_window mode requested c
      ok (not (before first window.earliest) && not (before window.latest last))

-- What the loop of `choose_boundary` reads and does not change.
pub record Choice : Type 0 where
  pub mode : ℕ
  pub requested : ProtocolTime
  pub clock : ClockSnapshot
  pub ready : ProtocolTime
  pub horizon : ProtocolTime
  pub window : Option ExecutionWindow

-- The test of the loop's `continue`.
unfoldable pub skipped : Choice → Boundary → Bool
skipped c b =
    not (valid b.time)
    || b.committed
    || not b.backend_ready
    || not (b.mapping_generation == c.clock.mapping_generation)
    || before b.time c.ready
    || (not (c.mode == 0) && before c.horizon b.time)

-- The uncertain interval round a boundary lies in the window.
unfoldable pub inside : Option ExecutionWindow → Result ProtocolTime → Result ProtocolTime → Bool
inside (some w) (ok first) (ok last) = not (before first w.earliest) && not (before w.latest last)
inside _ _ _ = false

unfoldable pub nearer :
    Option Boundary → Duration → Boundary → Duration → Option Boundary × Duration
nearer none distance b d = (some b, d)
nearer (some s) distance b d =
    if shorter d distance || (same_duration d distance && before b.time s.time)
    then (some b, d)
    else (some s, distance)

unfoldable pub earlier : Option Boundary → Boundary → Option Boundary
earlier none b = some b
earlier (some s) b = if before b.time s.time then some b else some s

unfoldable pub distance_to : ProtocolTime → ProtocolTime → Result Duration
distance_to requested time =
    if before time requested then difference requested time else difference time requested

-- One boundary, for a timed mode.
unfoldable pub consider_timed :
    Choice → Option Boundary → Duration → Boundary → Result (Option Boundary × Duration)
consider_timed c selected distance b =
    let uncertainty = add64 c.clock.uncertainty_ps b.quantization_uncertainty_ps in
    let first = subtract b.time (from_picoseconds uncertainty) in
    let last = add b.time (from_picoseconds uncertainty) in
    if ltb (sub64 u64_max c.clock.uncertainty_ps) b.quantization_uncertainty_ps
    then err (error overflow)
    else if not (inside c.window first last)
    then ok (selected, distance)
    else do d ← distance_to c.requested b.time; ok (nearer selected distance b d)

unfoldable pub consider :
    Choice → Option Boundary → Duration → Boundary → Result (Option Boundary × Duration)
consider c selected distance b =
    if skipped c b
    then ok (selected, distance)
    else if c.mode == 0
    then ok (earlier selected b, distance)
    else consider_timed c selected distance b

unfoldable pub choose_loop :
    Choice → Option Boundary → Duration → List Boundary → Result (Option Boundary)
choose_loop c selected distance [] = ok selected
choose_loop c selected distance (b ∷ bs) =
    consider c selected distance b >>= λ s. choose_loop c s.0 s.1 bs

unfoldable pub chosen : Option Boundary → Result Boundary
chosen none = err (error invalid_state)
chosen (some b) = ok b

unfoldable pub window_for : ℕ → ProtocolTime → TimingCapabilities → Result (Option ExecutionWindow)
window_for mode requested c =
    if mode == 0 then ok none else (execution_window mode requested c >>= λ w. ok (some w))

-- The rest of `choose_boundary`, once the lead time and the horizon are known.
unfoldable pub choose_between :
    ℕ
    → ProtocolTime
    → ClockSnapshot
    → List Boundary
    → TimingCapabilities
    → ProtocolTime
    → ProtocolTime
    → Result Boundary
unfolding chosen
choose_between mode requested clock boundaries c ready horizon =
    if not (mode == 0) && (not (valid requested) || before horizon requested)
    then err (error invalid_argument)
    else do
      window ← window_for mode requested c
      selected ←
          choose_loop
            (record {
              mode = mode;
              requested = requested;
              clock = clock;
              ready = ready;
              horizon = horizon;
              window = window;
            })
            none (record { seconds = 0; picoseconds = 0 }) boundaries
      chosen selected

unfoldable pub untracked : ℕ → ClockSnapshot → TimingCapabilities → Bool
untracked mode clock c =
    not (mode == 0) && ((not c.qualified && not c.injected) || not (is_tracking clock.state))

unfoldable pub choose_boundary :
    ℕ → ProtocolTime → ClockSnapshot → List Boundary → TimingCapabilities → Result Boundary
unfolding untracked choose_between
choose_boundary mode requested clock boundaries c =
    if ltb 4 mode || not (valid clock.time)
    then err (error invalid_argument)
    else if ltb 128 (length boundaries)
    then err (error resource_limit)
    else if untracked mode clock c
    then err (error invalid_state)
    else do
      ready ← add clock.time (from_nanoseconds (if mode == 0 then 0 else c.preparation_lead_ns))
      horizon ←
          (if mode == 0 then ok clock.time else add clock.time (from_nanoseconds c.horizon_ns))
      choose_between mode requested clock boundaries c ready horizon
