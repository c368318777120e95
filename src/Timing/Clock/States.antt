-- ===== src/Timing/Clock/States.antt =====
-- The states of the clock: an invariant of every history of calls, and what a locked clock promises.
use vrt_framework.Prelude.{
  ℕ, ◌+◌, ◌-◌, ◌*◌, ◌^◌, ◌≤◌, ◌<◌, ◌≡◌, ◌≢◌, ◌⊎◌, inl, inr, true, false, ◌||◌, not, Option, none,
  some, List, [], ◌∷◌, arith, ltb, Bool-cases, sub64,
}
use vrt_framework.Core.Error.{ok, >>=-eq-ok, >>=-eq-ok}
use vrt_framework.Timing.Time.{ProtocolTime, add, from_nanoseconds}
use vrt_framework.Timing.Time.Exact.{IsTime, total, total-add, from_nanoseconds_exact}
use vrt_framework.Timing.Clock.Uncertainty.{exact_uncertainty, uncertainty_exact}
use vrt_framework.Timing.Clock.{
  ClockBinding, ClockSnapshot, unbound, acquiring, locked, holdover, ProtocolClock, bind,
  observe_pps, pps_lost, snapshot, take_snapshot, uncertainty, aged, uncertainty,
  data_start_allowed_at, data_continue_allowed_at, mapping_current,
}

-- A call on the clock, with its arguments.
pub data ClockCall : Type 0 where
  binds : ClockBinding → ClockCall
  pulses : ℕ → Option ProtocolTime → ℕ → ClockCall
  loses samples : ℕ → ClockCall

pub step : ProtocolClock → ClockCall → ProtocolClock
step c (binds b) = (bind c b).0
step c (pulses capture t u) = (observe_pps c capture t u).0
step c (loses now) = (pps_lost c now).0
step c (samples now) = (snapshot c now).0

pub run : ProtocolClock → List ClockCall → ProtocolClock
run c [] = c
run c (e ∷ es) = run (step c e) es

-- The arguments of a call are 64-bit values.
abbrev pub IsCall : ClockCall → Type 0
IsCall (binds b) = b.calibration_uncertainty_ps < 2 ^ 64
IsCall (pulses capture none u) = capture < 2 ^ 64
IsCall (pulses capture (some t) u) = (capture < 2 ^ 64) × (t.seconds < 2 ^ 64) × (u < 2 ^ 64)
IsCall (loses now) = now < 2 ^ 64
IsCall (samples now) = now < 2 ^ 64

abbrev pub AllCalls : List ClockCall → Type 0
AllCalls [] = Unit {0}
AllCalls (e ∷ es) = IsCall e × AllCalls es

-- A clock is tracking, or has faulted, exactly while it has a mapping, and a mapped clock has a time
-- in range and a base uncertainty that does not wrap.
pub record IsSound (c : ProtocolClock) : Type 0 where
  pub generation_fits : c.generation < 2 ^ 64
  pub calibration_fits : c.binding.calibration_uncertainty_ps < 2 ^ 64
  pub unmapped_state : c.mapped ≡ false → (c.state ≡ unbound) ⊎ (c.state ≡ acquiring)
  pub mapped_state : c.mapped ≡ true → (c.state ≢ unbound) × (c.state ≢ acquiring)
  pub capture_fits : c.mapped ≡ true → c.capture < 2 ^ 64
  pub origin_fits : c.mapped ≡ true → IsTime c.origin
  pub base_fits :
      c.mapped ≡ true → c.binding.calibration_uncertainty_ps + c.pulse_uncertainty < 2 ^ 64

step-IsSound : (c : ProtocolClock) (e : ClockCall) → IsCall e → IsSound c → IsSound (step c e)
unfolding step bind observe_pps pps_lost snapshot
step-IsSound c (binds b) h v = grind arith
step-IsSound c (pulses capture none u) h v = grind arith
step-IsSound c (pulses capture (some t) u) h v = grind arith
step-IsSound c (loses now) h v = grind arith
step-IsSound c (samples now) h v = grind arith

-- Every history of calls with 64-bit arguments keeps the invariant: the clock is unbound or acquiring
-- exactly while it has no mapping, and while it has one, its capture and origin are in range, and its
-- calibration and pulse uncertainties add up below 2 ^ 64; the generation stays a 64-bit number.
pub run-IsSound :
    (c : ProtocolClock) (es : List ClockCall) → AllCalls es → IsSound c → IsSound (run c es)
unfolding run
run-IsSound c [] h v = v
run-IsSound c (e ∷ es) h v = run-IsSound (step c e) es h.1 (step-IsSound c e h.0 v)

generation-step :
    (c : ProtocolClock) (e : ClockCall)
    → c.generation < 2 ^ 64
    → (c.generation ≤ (step c e).generation) × ((step c e).generation < 2 ^ 64)
unfolding step bind observe_pps pps_lost snapshot
generation-step c (binds b) h = ground arith
generation-step c (pulses capture none u) h = ground arith
generation-step c (pulses capture (some t) u) h = ground arith
generation-step c (loses now) h = ground arith
generation-step c (samples now) h = ground arith

generation-run :
    (c : ProtocolClock) (es : List ClockCall)
    → c.generation < 2 ^ 64
    → c.generation ≤ (run c es).generation
unfolding run
generation-run c [] h = omega arith
generation-run c (e ∷ es) h =
    let g = generation-step c e h in omega (arith, generation-run (step c e) es g.1)

-- A generation that a clock has left behind is not current after any later history of calls, so
-- work scheduled under it is never taken for current.
pub run_stale :
    (c : ProtocolClock) (es : List ClockCall) (g : ℕ)
    → c.generation < 2 ^ 64
    → g < c.generation
    → mapping_current (run c es) g ≡ false
unfolding mapping_current
run_stale c es g fit old = ground (arith, generation-run c es fit)

-- A pulse that is accepted, and a binding that is accepted, leave behind every generation so far.
pub renewal :
    (c : ProtocolClock) (e : ClockCall) (g : ℕ)
    → c.generation < 2 ^ 64
    → (step c e).generation ≢ c.generation
    → g ≤ c.generation
    → mapping_current (step c e) g ≡ false
unfolding mapping_current
renewal c e g fit new old = ground (arith, generation-step c e fit)

take_snapshot_exact :
    (c : ProtocolClock) (elapsed : ℕ) {s : ClockSnapshot}
    → IsTime c.origin
    → c.binding.calibration_uncertainty_ps + c.pulse_uncertainty < 2 ^ 64
    → elapsed < 2 ^ 64
    → take_snapshot c elapsed ≡ ok s
    → (total s.time ≡ total c.origin + elapsed * 1000)
      × (s.uncertainty_ps ≡ exact_uncertainty c.binding c.pulse_uncertainty elapsed)
      × (s.mapping_generation ≡ c.generation)
unfolding take_snapshot
take_snapshot_exact c elapsed vt fit he h =
    let (t, et, h') = >>=-eq-ok (add c.origin (from_nanoseconds elapsed)) _ h in
    let (u, eu, es) = >>=-eq-ok (uncertainty c.binding c.pulse_uncertainty elapsed) _ h' in
    let (vd, ed) = from_nanoseconds_exact elapsed he in
    ground (
      arith,
      es,
      total-add c.origin (from_nanoseconds elapsed) vt vd et,
      ed,
      uncertainty_exact c.binding c.pulse_uncertainty elapsed fit eu,
    )

refusal :
    (c : ProtocolClock) (now : ℕ)
    → (not c.mapped || ltb now c.capture) ≡ false
    → (c.mapped ≡ true) × (c.capture ≤ now)
refusal c now h = (ground arith, ground arith)

snapshot_ok :
    (c : ProtocolClock) (now : ℕ) {s : ClockSnapshot}
    → (c.mapped ≡ true → c.capture < 2 ^ 64)
    → now < 2 ^ 64
    → (snapshot c now).1 ≡ ok s
    → (c.mapped ≡ true)
      × (c.capture ≤ now)
      × (take_snapshot (record c { state = aged c (now - c.capture) }) (now - c.capture) ≡ ok s)
unfolding snapshot
snapshot_ok c now v fit h = elim (Bool-cases (not c.mapped || ltb now c.capture)) [
  | inl bad ↦ cc (rw bad at h)
  | inr good ↦
      let (m, le) = refusal c now good in
      let e : sub64 now c.capture ≡ now - c.capture = omega (arith, v m) in
      (m, le, rw (← e) (rw good at h))
]

-- A snapshot of a mapped clock gives the origin's time and a thousand picoseconds for each
-- nanosecond since, the exact uncertainty, and the current mapping's generation.
pub snapshot_exact :
    (c : ProtocolClock) (now : ℕ) {s : ClockSnapshot}
    → IsSound c
    → now < 2 ^ 64
    → (snapshot c now).1 ≡ ok s
    → (total s.time ≡ total c.origin + (now - c.capture) * 1000)
      × (s.uncertainty_ps ≡ exact_uncertainty c.binding c.pulse_uncertainty (now - c.capture))
      × (mapping_current c s.mapping_generation ≡ true)
      × (c.capture ≤ now)
unfolding snapshot mapping_current
snapshot_exact c now v fit h =
    let (m, le, e) = snapshot_ok c now v.capture_fits fit h in
    let (t, u, g) =
      take_snapshot_exact (record c { state = aged c (now - c.capture) }) (now - c.capture)
        (v.origin_fits m) (v.base_fits m) (omega arith) e in
    (t, u, ground arith, le)

-- Data may start only on a clock that was locked, within a second of its pulse, and within the
-- holdover limit.
pub start_allowed_recent :
    (c : ProtocolClock) (now : ℕ)
    → IsSound c
    → now < 2 ^ 64
    → (data_start_allowed_at c now).1 ≡ ok true
    → (c.state ≡ locked)
      × (c.capture ≤ now)
      × (now ≤ c.capture + 1000000000)
      × (now < c.capture + c.binding.holdover_limit_ns)
unfolding data_start_allowed_at
start_allowed_recent c now v fit h = grind arith

-- Data may go on only within the holdover limit, and only on a clock that has not faulted.
pub continue_allowed_recent :
    (c : ProtocolClock) (now : ℕ)
    → IsSound c
    → now < 2 ^ 64
    → (data_continue_allowed_at c now).1 ≡ ok true
    → ((c.state ≡ locked) ⊎ (c.state ≡ holdover))
      × (c.capture ≤ now)
      × (now < c.capture + c.binding.holdover_limit_ns)
unfolding data_continue_allowed_at
continue_allowed_recent c now v fit h = grind arith
