-- ===== src/Timing/Scheduling/Windows.antt =====
-- The window of a timed mode, in picoseconds.
use vrt_framework.Prelude.{
  ℕ, ◌+◌, ◌^◌, ◌≤◌, ◌<◌, ◌≡◌, sym, ◌∙◌, Bool, false, ◌&&◌, ◌||◌, not, arith, ltb, leb, ◌==◌,
  if◌then◌else◌,
}
use vrt_framework.Core.Error.{ok, guard-eq-ok, ok-injective, >>=-eq-ok}
use vrt_framework.Timing.Time.{ProtocolTime, valid, before, from_picoseconds, add, subtract}
use vrt_framework.Timing.Time.Exact.{
  IsTime, total, total-add, total-subtract, add-IsTime, before_iff, from_picoseconds_exact,
}
use vrt_framework.Timing.Scheduling.{
  TimingCapabilities, ExecutionWindow, tolerances, execution_window, effect_interval_allowed,
}

-- The tolerances of the modes: 1 device only, 2 late by the application's, 3 early by the
-- application's, 4 the application's alone.
abbrev pub early_ps : ℕ → TimingCapabilities → ℕ
early_ps mode c =
    if mode == 4
    then c.application_early_ps
    else if mode == 3
    then c.device_early_ps + c.application_early_ps
    else c.device_early_ps

abbrev pub late_ps : ℕ → TimingCapabilities → ℕ
late_ps mode c =
    if mode == 4
    then c.application_late_ps
    else if mode == 2
    then c.device_late_ps + c.application_late_ps
    else c.device_late_ps

pub record IsCapable (c : TimingCapabilities) : Type 0 where
  pub device_early_fits : c.device_early_ps < 2 ^ 64
  pub device_late_fits : c.device_late_ps < 2 ^ 64
  pub application_early_fits : c.application_early_ps < 2 ^ 64
  pub application_late_fits : c.application_late_ps < 2 ^ 64
  pub lead_fits : c.preparation_lead_ns < 2 ^ 64
  pub horizon_fits : c.horizon_ns < 2 ^ 64

tolerances_exact :
    (mode : ℕ) (c : TimingCapabilities) {p : ℕ × ℕ}
    → IsCapable c
    → tolerances mode c ≡ ok p
    → (p.0 ≡ early_ps mode c) × (p.1 ≡ late_ps mode c) × (p.0 < 2 ^ 64) × (p.1 < 2 ^ 64)
unfolding tolerances
tolerances_exact mode c v h = (ground arith, ground arith, ground arith, ground arith)

-- A window reaches from the requested time less the mode's early tolerance to the requested time
-- and its late tolerance, exactly, and exists only for the four timed modes.
pub execution_window_exact :
    (mode : ℕ) (requested : ProtocolTime) (c : TimingCapabilities) {w : ExecutionWindow}
    → IsTime requested
    → IsCapable c
    → execution_window mode requested c ≡ ok w
    → (total w.earliest + early_ps mode c ≡ total requested)
      × (total w.latest ≡ total requested + late_ps mode c)
      × IsTime w.earliest
      × IsTime w.latest
      × (0 < mode)
      × (mode ≤ 4)
unfolding execution_window
execution_window_exact mode requested c vt vc h =
    let (pass, h') = guard-eq-ok (ltb mode 1 || ltb 4 mode || not (valid requested)) _ _ h in
    let (p, ep, h2) = >>=-eq-ok (tolerances mode c) _ h' in
    let (first, ef, h3) = >>=-eq-ok (subtract requested (from_picoseconds p.0)) _ h2 in
    let (last, el, h4) = >>=-eq-ok (add requested (from_picoseconds p.1)) _ h3 in
    let (e0, e1, f0, f1) = tolerances_exact mode c vc ep in
    let (d0, t0) = from_picoseconds_exact p.0 f0 in
    let (d1, t1) = from_picoseconds_exact p.1 f1 in
    let (tf, vf) = total-subtract requested _ vt d0 ef in
    let tl = total-add requested _ vt d1 el in
    (
      ground (arith, h4, tf, t0, e0),
      ground (arith, h4, tl, t1, e1),
      ground (arith, h4, vf),
      ground (arith, h4, add-IsTime requested _ vt d1 el),
      ground arith,
      ground arith,
    )

interval_answer :
    (f l we wl q e t : ℕ)
    → we + e ≡ q
    → wl ≡ q + t
    → (not (ltb f we) && not (ltb wl l)) ≡ (leb q (f + e) && leb l (q + t))
interval_answer f l we wl q e t h k = ground arith

-- The answer of `effect_interval_allowed` in a timed mode is whether the interval of the effect lies
-- between the requested time less the early tolerance and the requested time and the late one.
pub effect_interval_exact :
    (mode : ℕ) (requested first last : ProtocolTime) (c : TimingCapabilities) {r : Bool}
    → 0 < mode
    → IsTime requested
    → IsTime first
    → IsTime last
    → IsCapable c
    → effect_interval_allowed mode requested first last c ≡ ok r
    → r ≡ (
        leb (total requested) (total first + early_ps mode c)
        && leb (total last) (total requested + late_ps mode c))
unfolding effect_interval_allowed
effect_interval_exact mode requested first last c pos vr vf vl vc h =
    let (pass, h1) =
      guard-eq-ok (ltb 4 mode || not (valid first) || not (valid last) || before last first) _ _
        h in
    let timed : (mode == 0) ≡ false = ground arith in
    let (w, ew, h2) = >>=-eq-ok (execution_window mode requested c) _ (rw timed at h1) in
    let (we, wl, ve, vl', p, q) = execution_window_exact mode requested c vr vc ew in
    sym (ok-injective h2)
    ∙ rw (before_iff first w.earliest vf ve, before_iff w.latest last vl' vl)
        (interval_answer (total first) (total last) (total w.earliest) (total w.latest)
          (total requested) (early_ps mode c) (late_ps mode c) we wl)
