-- ===== src/Timing/Scheduling/Step.antt =====
-- One round of the loop of `choose_boundary` in a timed mode.
use vrt_framework.Prelude.{
  ℕ, ◌+◌, ◌-◌, ◌*◌, ◌^◌, ◌≤◌, ◌<◌, ◌≡◌, refl, sym, ◌∙◌, subst, ◌⊎◌, inl, inr, Bool, true, false,
  ◌&&◌, ◌||◌, not, Option, none, some, arith, ltb, leb, ◌==◌, if◌then◌else◌, Bool-cases, u64_max,
  add64, sub64,
}
use vrt_framework.Core.Error.{
  error, overflow, ok-injective, ok, err, >>=-eq-ok, ok-injective, guard-eq-ok,
}
use vrt_framework.Timing.Time.{
  ProtocolTime, Duration, picoseconds_per_second, before, shorter, same_duration, from_picoseconds,
  add, subtract,
}
use vrt_framework.Timing.Time.Exact.{
  IsTime, IsDuration, total, total_duration, total-difference, from_picoseconds_exact, before_iff,
  of_total, total-of_total, of_total-IsTime, add_exact, subtract_exact,
}
use vrt_framework.Timing.Clock.{ClockSnapshot}
use vrt_framework.Timing.Scheduling.{
  ExecutionWindow, Boundary, Choice, skipped, inside, nearer, distance_to, consider_timed, consider,
}

-- The distance of two numbers.
abbrev pub gap : ℕ → ℕ → ℕ
gap a b = (a - b) + (b - a)

-- The fields of a boundary hold what the code's types allow.
pub record IsBoundary (b : Boundary) : Type 0 where
  pub time_valid : b.time.seconds < 2 ^ 64
  pub quantization_fits : b.quantization_uncertainty_ps < 2 ^ 64

-- The uncertainty of an effect at the boundary.
abbrev pub spread : ClockSnapshot → Boundary → ℕ
spread clock b = clock.uncertainty_ps + b.quantization_uncertainty_ps

-- A boundary at which an effect may be scheduled: open, of the clock's mapping, after the lead time,
-- before the horizon, and inside the tolerances whatever the uncertainty.
pub record IsUsable (ready horizon requested early late : ℕ) (clock : ClockSnapshot) (b : Boundary)
    : Type 0 where
  pub normal : b.time.picoseconds < picoseconds_per_second
  pub uncommitted : b.committed ≡ false
  pub backend : b.backend_ready ≡ true
  pub mapping : b.mapping_generation ≡ clock.mapping_generation
  pub after_lead : ready ≤ total b.time
  pub before_horizon : total b.time ≤ horizon
  pub starts : spread clock b ≤ total b.time
  pub not_early : requested + spread clock b ≤ total b.time + early
  pub not_late : total b.time + spread clock b ≤ requested + late
  pub representable : total b.time + spread clock b < 2 ^ 64 * picoseconds_per_second

-- The loop's constants, with the meaning of its window.
pub record IsChoice (c : Choice) (w : ExecutionWindow) (early late : ℕ) : Type 0 where
  pub timed : 0 < c.mode
  pub requested_valid : IsTime c.requested
  pub ready_valid : IsTime c.ready
  pub horizon_valid : IsTime c.horizon
  pub clock_fits : c.clock.uncertainty_ps < 2 ^ 64
  pub has_window : c.window ≡ some w
  pub earliest_valid : IsTime w.earliest
  pub latest_valid : IsTime w.latest
  pub earliest : total w.earliest + early ≡ total c.requested
  pub latest : total w.latest ≡ total c.requested + late

total-lt : (t : ProtocolTime) → IsTime t → total t < 2 ^ 64 * picoseconds_per_second
total-lt t v = omega arith

shorter-le :
    (e d : Duration) (x : Bool)
    → IsDuration d
    → IsDuration e
    → (shorter e d || (same_duration e d && x)) ≡ true
    → total_duration e ≤ total_duration d
shorter-le e d x vd ve h = ground arith

not_shorter-le :
    (e d : Duration) (x : Bool)
    → IsDuration d
    → IsDuration e
    → (shorter e d || (same_duration e d && x)) ≡ false
    → total_duration d ≤ total_duration e
not_shorter-le e d x vd ve h = ground arith

interval_test :
    (we wl t u q early late : ℕ)
    → we + early ≡ q
    → wl ≡ q + late
    → u ≤ t
    → (not (ltb (t - u) we) && not (ltb wl (t + u)))
      ≡ (leb (q + u) (t + early) && leb (t + u) (q + late))
interval_test we wl t u q early late he hl h = ground arith

-- The test of the window on an interval that is given by its middle and its half width.
inside_totals :
    (w : ExecutionWindow) (t u q early late : ℕ)
    → IsTime w.earliest
    → IsTime w.latest
    → t < 2 ^ 64 * picoseconds_per_second
    → total w.earliest + early ≡ q
    → total w.latest ≡ q + late
    → inside (some w) (if leb u t then ok (of_total (t - u)) else err (error overflow)) (
        if ltb (t + u) (2 ^ 64 * picoseconds_per_second)
        then ok (of_total (t + u))
        else err (error overflow))
      ≡ (leb u t
          && ltb (t + u) (2 ^ 64 * picoseconds_per_second)
          && leb (q + u) (t + early)
          && leb (t + u) (q + late))
unfolding inside
inside_totals w t u q early late ve vl ht he hl = elim (Bool-cases (leb u t)) [
  | inr f ↦ rw f refl
  | inl t1 ↦ elim (Bool-cases (ltb (t + u) (2 ^ 64 * picoseconds_per_second))) [
    | inr f2 ↦ rw (t1, f2) refl
    | inl t2 ↦
        rw (t1, t2)
          (rw
            (
              before_iff (of_total (t - u)) w.earliest (of_total-IsTime (t - u) (omega arith)) ve,
              before_iff w.latest (of_total (t + u)) vl (of_total-IsTime (t + u) (ground arith)),
              total-of_total (t - u),
              total-of_total (t + u),
            )
            (interval_test (total w.earliest) (total w.latest) t u q early late he hl
              (ground arith)))
  ]
]

add64-exact : (a b : ℕ) → a < 2 ^ 64 → ltb (sub64 u64_max a) b ≡ false → add64 a b ≡ a + b
add64-exact a b ha h = ground arith

module _ (c : Choice) (w : ExecutionWindow) (early late : ℕ) (v : IsChoice c w early late) where
  abbrev pub Usable : Boundary → Type 0
  Usable b = IsUsable (total c.ready) (total c.horizon) (total c.requested) early late c.clock b

  skipped-false :
      (b : Boundary)
      → IsBoundary b
      → skipped c b ≡ false
      → IsTime b.time
        × (b.committed ≡ false)
        × (b.backend_ready ≡ true)
        × (b.mapping_generation ≡ c.clock.mapping_generation)
        × (total c.ready ≤ total b.time)
        × (total b.time ≤ total c.horizon)
  unfolding skipped
  skipped-false b vb h = ground arith

  skipped-true : (b : Boundary) → IsBoundary b → skipped c b ≡ true → ¬ Usable b
  unfolding skipped
  skipped-true b vb h u = ground arith

  -- What one boundary does to the choice so far.
  pub data Considered (s s' : Option Boundary) (d d' : Duration) (b : Boundary) : Type 0 where
    unusable : ¬ Usable b → s' ≡ s → d' ≡ d → Considered s s' d d' b
    taken :
        Usable b
        → s' ≡ some b
        → IsDuration d'
        → total_duration d' ≡ gap (total b.time) (total c.requested)
        → (s ≡ none) ⊎ (total_duration d' ≤ total_duration d)
        → Considered s s' d d' b
    farther :
        {x : Boundary}
        → Usable b
        → s ≡ some x
        → s' ≡ s
        → d' ≡ d
        → total_duration d ≤ gap (total b.time) (total c.requested)
        → Considered s s' d d' b

  inside-true :
      (b : Boundary) (u : ℕ)
      → IsTime b.time
      → u < 2 ^ 64
      → inside c.window (subtract b.time (from_picoseconds u)) (add b.time (from_picoseconds u)) ≡ (
          leb u (total b.time)
          && ltb (total b.time + u) (2 ^ 64 * picoseconds_per_second)
          && leb (total c.requested + u) (total b.time + early)
          && leb (total b.time + u) (total c.requested + late))
  inside-true b u vb fit =
      let (d0, t0) = from_picoseconds_exact u fit in
      rw (v.has_window, subtract_exact b.time _ vb d0, add_exact b.time _ vb d0, t0)
        (inside_totals w (total b.time) u (total c.requested) early late v.earliest_valid
          v.latest_valid (total-lt b.time vb) v.earliest v.latest)

  distance_to_exact :
      (t : ProtocolTime) {d : Duration}
      → IsTime t
      → distance_to c.requested t ≡ ok d
      → IsDuration d × (total_duration d ≡ gap (total t) (total c.requested))
  unfolding distance_to
  distance_to_exact t vt h = elim (Bool-cases (before t c.requested)) [
    | inl yes_before ↦
        let (e, f) = total-difference c.requested t v.requested_valid vt (rw yes_before at h) in
        (f, omega (arith, e))
    | inr not_before ↦
        let (e, f) = total-difference t c.requested vt v.requested_valid (rw not_before at h) in
        (f, omega (arith, e))
  ]

  nearer-Considered :
      (b : Boundary) (s : Option Boundary) (d e : Duration)
      → Usable b
      → IsDuration d
      → IsDuration e
      → total_duration e ≡ gap (total b.time) (total c.requested)
      → Considered s (nearer s d b e).0 d (nearer s d b e).1 b
  unfolding nearer
  nearer-Considered b none d e u vd ve h = taken u refl ve h (inl refl)
  nearer-Considered b (some x) d e u vd ve h =
      let test : Bool = shorter e d || (same_duration e d && before b.time x.time) in
      elim (Bool-cases test) [
        | inl t ↦ rw t (taken u refl ve h (inr (shorter-le e d _ vd ve t)))
        | inr f ↦ rw f (farther u refl refl refl (omega (arith, not_shorter-le e d _ vd ve f, h)))
      ]

  abbrev window_test : Boundary → ℕ → Bool
  window_test b u =
      leb u (total b.time)
      && ltb (total b.time + u) (2 ^ 64 * picoseconds_per_second)
      && leb (total c.requested + u) (total b.time + early)
      && leb (total b.time + u) (total c.requested + late)

  inside-Usable :
      (b : Boundary) (u : ℕ) → u ≡ spread c.clock b → Usable b → window_test b u ≡ false → ⊥
  inside-Usable b u e x h = ground arith

  Usable-inside :
      (b : Boundary) (u : ℕ)
      → u ≡ spread c.clock b
      → IsTime b.time
      → b.committed ≡ false
      → b.backend_ready ≡ true
      → b.mapping_generation ≡ c.clock.mapping_generation
      → total c.ready ≤ total b.time
      → total b.time ≤ total c.horizon
      → window_test b u ≡ true
      → Usable b
  Usable-inside b u e vt f1 f2 f3 f4 f5 h = ground arith

  consider_timed-Considered :
      (b : Boundary) (s : Option Boundary) (d : Duration) {r : Option Boundary × Duration}
      → IsBoundary b
      → IsDuration d
      → skipped c b ≡ false
      → consider_timed c s d b ≡ ok r
      → Considered s r.0 d r.1 b
  unfolding consider_timed
  consider_timed-Considered b s d {r} vb vd pass h =
      let (vt, f1, f2, f3, f4, f5) = skipped-false b vb pass in
      let (fits, h1) =
        guard-eq-ok (ltb (sub64 u64_max c.clock.uncertainty_ps) b.quantization_uncertainty_ps) _ _
          h in
      let u : ℕ = add64 c.clock.uncertainty_ps b.quantization_uncertainty_ps in
      let e : u ≡ spread c.clock b =
        add64-exact c.clock.uncertainty_ps b.quantization_uncertainty_ps v.clock_fits fits in
      let in_window = inside-true b u vt (omega arith) in
      let test : Bool =
        inside c.window (subtract b.time (from_picoseconds u)) (add b.time (from_picoseconds u)) in
      elim (Bool-cases test) [
        | inr out ↦
            let er = rw out at h1 in
            unusable (λ x. inside-Usable b u e x (sym in_window ∙ out)) (ground (arith, er))
              (ground (arith, er))
        | inl in' ↦
            let (x, ex, er) = >>=-eq-ok (distance_to c.requested b.time) _ (rw in' at h1) in
            let (vx, tx) = distance_to_exact b.time vt ex in
            subst (λ r. Considered s r.0 d r.1 b) (ok-injective er)
              (nearer-Considered b s d x
                (Usable-inside b u e vt f1 f2 f3 f4 f5 (sym in_window ∙ in')) vd vx tx)
      ]

  pub consider-Considered :
      (b : Boundary) (s : Option Boundary) (d : Duration) {r : Option Boundary × Duration}
      → IsBoundary b
      → IsDuration d
      → consider c s d b ≡ ok r
      → Considered s r.0 d r.1 b
  unfolding consider
  consider-Considered b s d {r} vb vd h = elim (Bool-cases (skipped c b)) [
    | inl skip ↦
        let e = rw skip at h in
        unusable (skipped-true b vb skip) (ground (arith, e)) (ground (arith, e))
    | inr pass ↦
        let e : (c.mode == 0) ≡ false = ground (arith, v.timed) in
        consider_timed-Considered b s d vb vd pass (rw (pass, e) at h)
  ]
