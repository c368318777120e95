-- ===== src/Timing/Scheduling/Nearest.antt =====
-- The boundary that `choose_boundary` takes in a timed mode: usable, and nearest of those that are.
use vrt_framework.Prelude.{
  ℕ, ◌+◌, ◌*◌, ◌^◌, ◌≤◌, ◌<◌, ◌≡◌, refl, sym, ◌∙◌, subst, ◌⊎◌, inl, inr, false, ◌||◌, not, Option,
  none, some, List, [], ◌∷◌, arith, ltb, ◌==◌, if◌then◌else◌, length,
}
use vrt_framework.Core.Error.{ok, ◌>>=◌, ok-injective, >>=-eq-ok, ok-injective, guard-eq-ok}
use vrt_framework.Timing.Time.{ProtocolTime, Duration, valid, before, from_nanoseconds, add}
use vrt_framework.Timing.Time.Exact.{
  IsTime, IsDuration, total, total_duration, total-add, add-IsTime, from_nanoseconds_exact,
}
use mathlib.Core.Path.{subst₂}
use mathlib.Core.Option.{some-injective}
use vrt_framework.Timing.Clock.{ClockSnapshot}
use vrt_framework.Timing.Scheduling.{
  TimingCapabilities, ExecutionWindow, Boundary, Choice, consider, choose_loop, window_for,
  choose_boundary, choose_between, untracked, chosen, execution_window,
}
use vrt_framework.Timing.Scheduling.Windows.{IsCapable, early_ps, late_ps, execution_window_exact}
use vrt_framework.Timing.Scheduling.Step.{
  gap, IsBoundary, IsUsable, IsChoice, Usable, Considered, unusable, taken, farther,
  consider-Considered,
}

abbrev pub Every {ℓ} : (Boundary → Type ℓ) → List Boundary → Type ℓ
Every P [] = Unit
Every P (b ∷ bs) = P b × Every P bs

abbrev pub Among : Boundary → List Boundary → Type 0
Among b [] = ⊥
Among b (x ∷ bs) = (b ≡ x) ⊎ Among b bs

module _ (c : Choice) (w : ExecutionWindow) (early late : ℕ) (v : IsChoice c w early late) where
  abbrev distance_ps : Boundary → ℕ
  distance_ps b = gap (total b.time) (total c.requested)

  -- A usable boundary has been chosen, at most `n` away.
  abbrev Beats : Option Boundary → ℕ → Type 0
  Beats none n = ⊥
  Beats (some x) n = Usable c w early late v x × (distance_ps x ≤ n)

  -- The distance that the loop keeps beside its choice is the choice's.
  abbrev Measured : Option Boundary → Duration → Type 0
  Measured none d = Unit {0}
  Measured (some x) d = Usable c w early late v x × (total_duration d ≡ distance_ps x)

  Beats-mono : (o : Option Boundary) (m n : ℕ) → m ≤ n → Beats o m → Beats o n
  Beats-mono none m n h b = b
  Beats-mono (some x) m n h b = (b.0, omega arith)

  -- What the loop over `bs` makes of the choice `s` at distance `d`.
  record Chosen (s : Option Boundary) (d : Duration) (bs : List Boundary) (o : Option Boundary)
      : Type 0 where
    nearest : Every (λ b. Usable c w early late v b → Beats o (distance_ps b)) bs
    kept : (x : Boundary) → s ≡ some x → Beats o (total_duration d)
    origin : (o ≡ s) ⊎ ((y : Boundary) × (o ≡ some y) × Among y bs × Usable c w early late v y)

  kept-Beats :
      (s : Option Boundary) (d : Duration) (x : Boundary)
      → Measured s d
      → s ≡ some x
      → Beats (some x) (total_duration d)
  kept-Beats s d x m e = let m' = subst (λ t. Measured t d) e m in (m'.0, omega (arith, m'.1))

  Measured-step :
      {s s' : Option Boundary} {d d' : Duration} {b : Boundary}
      → Considered c w early late v s s' d d' b
      → IsDuration d
      → Measured s d
      → IsDuration d' × Measured s' d'
  Measured-step {s} (unusable _ es ed) vd m = (subst IsDuration (sym ed) vd, rw (es, ed) m)
  Measured-step (taken u es vd' e _) vd m = (vd', rw es (u, e))
  Measured-step (farther _ _ es ed _) vd m = (subst IsDuration (sym ed) vd, rw (es, ed) m)

  Chosen-step :
      {s s' o : Option Boundary} {d d' : Duration} {b : Boundary} (bs : List Boundary)
      → Considered c w early late v s s' d d' b
      → Measured s d
      → Chosen s' d' bs o
      → Chosen s d (b ∷ bs) o
  Chosen-step {s} {s'} {o} {d} {d'} {b} bs (unusable nu es ed) m k = record {
    nearest = ((λ u. absurd (nu u)), k.nearest);
    kept = λ x e. rw (← ed) (k.kept x (es ∙ e));
    origin = elim k.origin [ inl e ↦ inl (e ∙ es) | inr (y, e, a, u) ↦ inr (y, e, inr a, u) ];
  }
  Chosen-step {s} {s'} {o} {d} {d'} {b} bs (taken u es vd' et closer) m k =
      let hit : Beats o (total_duration d') = k.kept b es in
      record {
        nearest = ((λ _. rw (← et) hit), k.nearest);
        kept = λ x e. elim closer [
          | inl en ↦ absurd (cc (sym en ∙ e))
          | inr le ↦ Beats-mono o _ _ le hit
        ];
        origin = elim k.origin [
          | inl e ↦ inr (b, e ∙ es, inl refl, u)
          | inr (y, e, a, u') ↦ inr (y, e, inr a, u')
        ];
      }
  Chosen-step {s} {s'} {o} {d} {d'} {b} bs (farther {x} u e0 es ed far) m k =
      let hit : Beats o (total_duration d') = k.kept x (es ∙ e0) in
      record {
        nearest = ((λ _. Beats-mono o _ _ (rw ed far) hit), k.nearest);
        kept = λ y e. rw (← ed) hit;
        origin = elim k.origin [ inl e ↦ inl (e ∙ es) | inr (y, e, a, u') ↦ inr (y, e, inr a, u') ];
      }

  choose_loop-Chosen :
      (bs : List Boundary) (s : Option Boundary) (d : Duration) {o : Option Boundary}
      → Every IsBoundary bs
      → IsDuration d
      → Measured s d
      → choose_loop c s d bs ≡ ok o
      → Chosen s d bs o
  unfolding choose_loop
  choose_loop-Chosen [] s d vb vd m h = record {
    nearest = tt;
    kept = λ x e.
        subst (λ t. Beats t (total_duration d)) (sym e ∙ ok-injective h) (kept-Beats s d x m e);
    origin = inl (sym (ok-injective h));
  }
  choose_loop-Chosen (b ∷ bs) s d vb vd m h =
      let (r, er, h1) = >>=-eq-ok (consider c s d b) _ h in
      let k = consider-Considered c w early late v b s d vb.0 vd er in
      let (vd', m') = Measured-step k vd m in
      Chosen-step bs k m (choose_loop-Chosen bs r.0 r.1 vb.1 vd' m' h1)

-- What `choose_boundary` promises of the boundary it returns.
abbrev pub NearestUsable :
    (ready horizon requested early late : ℕ) → ClockSnapshot → List Boundary → Boundary → Type 0
NearestUsable ready horizon requested early late clock bs b =
    Among b bs
    × IsUsable ready horizon requested early late clock b
    × Every
        (λ x.
          IsUsable ready horizon requested early late clock x
          → gap (total b.time) requested ≤ gap (total x.time) requested)
        bs

abbrev zero_duration : Duration
zero_duration = record { seconds = 0; picoseconds = 0 }

Every-map :
    {P Q : Boundary → Type 0} (bs : List Boundary)
    → ((b : Boundary) → P b → Q b)
    → Every P bs
    → Every Q bs
Every-map [] f h = tt
Every-map (b ∷ bs) f h = (f b h.0, Every-map bs f h.1)

-- The result of the loop that started with no choice, in the terms of the choice's constants.
loop-NearestUsable :
    (c : Choice) (w : ExecutionWindow) (early late : ℕ)
    → IsChoice c w early late
    → (bs : List Boundary) (o : Option Boundary) {b : Boundary} → Every IsBoundary bs
    → choose_loop c none zero_duration bs ≡ ok o
    → chosen o ≡ ok b
    → NearestUsable (total c.ready) (total c.horizon) (total c.requested) early late c.clock bs b
unfolding chosen
loop-NearestUsable c w early late v bs none vb h e = cc
loop-NearestUsable c w early late v bs (some y) {b} vb h e =
    let k = choose_loop-Chosen c w early late v bs none zero_duration vb (omega arith) tt h in
    elim k.origin [
      | inl none_chosen ↦ cc (sym none_chosen)
      | inr (x, ex, a, u) ↦
          let same : x ≡ b = sym (some-injective y x ex) ∙ ok-injective e in
          (
            subst (λ t. Among t bs) same a,
            subst (Usable c w early late v) same u,
            Every-map bs
                (λ z near p.
                  subst (λ t. distance_ps c w early late v t ≤ distance_ps c w early late v z)
                    (ok-injective e) (near p).1)
                k.nearest,
          )
    ]

choose_between-NearestUsable :
    (mode : ℕ) (requested : ProtocolTime) (clock : ClockSnapshot) (bs : List Boundary)
    (c : TimingCapabilities) (ready horizon : ProtocolTime) {b : Boundary}
    → 0 < mode
    → requested.seconds < 2 ^ 64
    → clock.uncertainty_ps < 2 ^ 64
    → IsCapable c
    → Every IsBoundary bs
    → IsTime ready
    → IsTime horizon
    → choose_between mode requested clock bs c ready horizon ≡ ok b
    → NearestUsable
        (total ready)
        (total horizon)
        (total requested)
        (early_ps mode c)
        (late_ps mode c)
        clock
        bs
        b
unfolding choose_between window_for
choose_between-NearestUsable mode requested clock bs c ready horizon pos fit vu vc vb v1 v2 h =
    let timed : (mode == 0) ≡ false = ground arith in
    let (g, h1) =
      guard-eq-ok (not (valid requested) || before horizon requested) _ _ (rw timed at h) in
    let vr : IsTime requested = ground arith in
    let (x, ex, h2) = >>=-eq-ok (execution_window mode requested c >>= λ w. ok (some w)) _ h1 in
    let (w, ew, e) = >>=-eq-ok (execution_window mode requested c) _ ex in
    let (we, wl, ve, vl, _, _) = execution_window_exact mode requested c vr vc ew in
    let (o, eo, h3) = >>=-eq-ok (choose_loop _ none zero_duration bs) _ h2 in
    loop-NearestUsable _ w (early_ps mode c) (late_ps mode c)
      (record {
        timed = pos;
        requested_valid = vr;
        ready_valid = v1;
        horizon_valid = v2;
        clock_fits = vu;
        has_window = sym (ok-injective e);
        earliest_valid = ve;
        latest_valid = vl;
        earliest = we;
        latest = wl;
      })
      bs o vb eo h3

-- In a timed mode the chosen boundary is one of those offered, is open, lies after the preparation
-- lead and before the horizon, keeps its whole uncertain interval within the tolerances of the mode,
-- and no other such boundary on offer is nearer to the requested time.
pub choose_boundary_nearest :
    (mode : ℕ) (requested : ProtocolTime) (clock : ClockSnapshot) (bs : List Boundary)
    (c : TimingCapabilities) {b : Boundary}
    → 0 < mode
    → requested.seconds < 2 ^ 64
    → clock.time.seconds < 2 ^ 64
    → clock.uncertainty_ps < 2 ^ 64
    → IsCapable c
    → Every IsBoundary bs
    → choose_boundary mode requested clock bs c ≡ ok b
    → NearestUsable
        (total clock.time + c.preparation_lead_ns * 1000)
        (total clock.time + c.horizon_ns * 1000)
        (total requested)
        (early_ps mode c)
        (late_ps mode c)
        clock
        bs
        b
unfolding choose_boundary
choose_boundary_nearest mode requested clock bs c {b} pos fit ft vu vc vb h =
    let timed : (mode == 0) ≡ false = ground arith in
    let (g1, h1) = guard-eq-ok (ltb 4 mode || not (valid clock.time)) _ _ h in
    let vt : IsTime clock.time = ground arith in
    let (g2, h2) = guard-eq-ok (ltb 128 (length bs)) _ _ h1 in
    let (g3, h3) = guard-eq-ok (untracked mode clock c) _ _ h2 in
    let lead : ℕ = if mode == 0 then 0 else c.preparation_lead_ns in
    let (d1, t1) = from_nanoseconds_exact c.preparation_lead_ns vc.lead_fits in
    let (d2, t2) = from_nanoseconds_exact c.horizon_ns vc.horizon_fits in
    let (ready, er, h4) = >>=-eq-ok (add clock.time (from_nanoseconds lead)) _ h3 in
    let (horizon, eh, h5) =
      >>=-eq-ok
        (if mode == 0 then ok clock.time else add clock.time (from_nanoseconds c.horizon_ns)) _
        h4 in
    let er' : add clock.time (from_nanoseconds c.preparation_lead_ns) ≡ ok ready = rw timed at er in
    let eh' : add clock.time (from_nanoseconds c.horizon_ns) ≡ ok horizon = rw timed at eh in
    let tr : total ready ≡ total clock.time + c.preparation_lead_ns * 1000 =
      omega (arith, total-add clock.time _ vt d1 er', t1) in
    let th : total horizon ≡ total clock.time + c.horizon_ns * 1000 =
      omega (arith, total-add clock.time _ vt d2 eh', t2) in
    subst₂
      (λ x y. NearestUsable x y (total requested) (early_ps mode c) (late_ps mode c) clock bs b) tr
      th
      (choose_between-NearestUsable mode requested clock bs c ready horizon pos fit vu vc vb
        (add-IsTime clock.time _ vt d1 er') (add-IsTime clock.time _ vt d2 eh') h5)
