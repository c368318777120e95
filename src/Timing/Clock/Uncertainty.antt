-- ===== src/Timing/Clock/Uncertainty.antt =====
-- The checked decomposition in `ProtocolClock::snapshot` computes the exact holdover uncertainty.
use vrt_framework.Prelude.{
  ℕ, zero, suc, ◌+◌, ◌*◌, ◌/◌, ◌%◌, ◌^◌, ◌≤◌, ◌<◌, ◌≡◌, true, false, Bool-cases, inl, inr, ltb,
  if◌then◌else◌, arith, u64_max, add64,
}
use vrt_framework.Core.Error.{error, overflow, ok, err}
use vrt_framework.Timing.Clock.{
  ClockBinding, uncertainty, products_overflow, rounded_up, checked_sum,
}

-- ceil(elapsed * drift / 10 ^ 6)
abbrev pub drift_ps : ℕ → ℕ → ℕ
drift_ps elapsed drift = (elapsed * drift + 999999) / 1000000

-- The product, split at a million nanoseconds.
split : (w r d e : ℕ) → e ≡ w * 1000000 + r → e * d ≡ w * d * 1000000 + r * d
split w r d e h = rw h (omega arith)

drift-split : (e d : ℕ) → drift_ps e d ≡ e / 1000000 * d + (e % 1000000 * d + 999999) / 1000000
drift-split e d = omega (arith, split (e / 1000000) (e % 1000000) d e (omega arith))

-- A test by division decides the test by multiplication.
div_test : (m w d : ℕ) → 0 < w → m / w < d → m < w * d
div_test m w d h lt = grind arith

div_test' : (m w d : ℕ) → d ≤ m / w → w * d ≤ m
div_test' m w d lt = grind arith

small : (r d : ℕ) → r < 1000000 → r * d ≤ 1000000 * d
small r d h = grind arith

products_fit : (w r d : ℕ) → products_overflow w r d ≡ false → (w * d ≤ u64_max) × (r * d ≤ u64_max)
unfolding products_overflow
products_fit zero zero d h = (omega arith, omega arith)
products_fit zero (suc r) d h = (omega arith, div_test' u64_max (suc r) d (ground arith))
products_fit (suc w) zero d h = (div_test' u64_max (suc w) d (ground arith), omega arith)
products_fit (suc w) (suc r) d h =
    (div_test' u64_max (suc w) d (ground arith), div_test' u64_max (suc r) d (ground arith))

products_grow : (w r d : ℕ) → r * d ≤ u64_max → products_overflow w r d ≡ true → u64_max < w * d
unfolding products_overflow
products_grow zero zero d hr h = absurd (ground arith)
products_grow zero (suc r) d hr h =
    absurd (omega (arith, div_test u64_max (suc r) d (omega arith) (ground arith)))
products_grow (suc w) zero d hr h = div_test u64_max (suc w) d (omega arith) (ground arith)
products_grow (suc w) (suc r) d hr h =
    ground
      (arith, div_test u64_max (suc w) d (omega arith), div_test u64_max (suc r) d (omega arith))

checked_sum_exact :
    (base w x : ℕ)
    → base < 2 ^ 64
    → w < 2 ^ 64
    → x < 2 ^ 64
    → checked_sum base w x
      ≡ (if ltb (base + w + x) (2 ^ 64) then ok (base + w + x) else err (error overflow))
unfolding checked_sum
checked_sum_exact base w x hb hw hx = ground arith

rounded_up_exact : (p : ℕ) → p < 2 ^ 64 → rounded_up p ≡ (p + 999999) / 1000000
unfolding rounded_up
rounded_up_exact p h = ground arith

combined :
    (c p w r t : ℕ)
    → c + p < 2 ^ 64
    → w ≤ u64_max
    → r ≤ u64_max
    → t ≡ c + p + (w + (r + 999999) / 1000000)
    → checked_sum (add64 c p) (w % 2 ^ 64) (rounded_up (r % 2 ^ 64))
      ≡ (if ltb t (2 ^ 64) then ok t else err (error overflow))
combined c p w r t fit hw hr e = ground (
  arith,
  checked_sum_exact (add64 c p) (w % 2 ^ 64) (rounded_up (r % 2 ^ 64)),
  rounded_up_exact (r % 2 ^ 64),
)

module _ (b : ClockBinding) (pulse elapsed : ℕ) where
  abbrev pub exact_uncertainty : ℕ
  exact_uncertainty = b.calibration_uncertainty_ps + pulse + drift_ps elapsed b.holdover_drift_ppb

  -- With both products in range the computation gives the exact sum where that fits.
  uncertainty-fit :
      b.calibration_uncertainty_ps + pulse < 2 ^ 64
      → products_overflow (elapsed / 1000000) (elapsed % 1000000) b.holdover_drift_ppb ≡ false
      → uncertainty b pulse elapsed
        ≡ (if ltb exact_uncertainty (2 ^ 64) then ok exact_uncertainty else err (error overflow))
  unfolding uncertainty
  uncertainty-fit fit pass =
      let (hw, hr) =
        products_fit (elapsed / 1000000) (elapsed % 1000000) b.holdover_drift_ppb pass in
      rw pass (
        combined b.calibration_uncertainty_ps pulse (elapsed / 1000000 * b.holdover_drift_ppb)
          (elapsed % 1000000 * b.holdover_drift_ppb) exact_uncertainty fit hw hr
          (omega (arith, drift-split elapsed b.holdover_drift_ppb)))

uncertainty-refused :
    (b : ClockBinding) (pulse elapsed : ℕ)
    → products_overflow (elapsed / 1000000) (elapsed % 1000000) b.holdover_drift_ppb ≡ true
    → uncertainty b pulse elapsed ≡ err (error overflow)
unfolding uncertainty
uncertainty-refused b pulse elapsed h = rw h

-- A computed uncertainty is the sum of the two fixed parts and the drift over the elapsed time,
-- rounded up, and fits 64 bits: no intermediate product or sum has wrapped.
pub uncertainty_exact :
    (b : ClockBinding) (pulse elapsed : ℕ) {u : ℕ}
    → b.calibration_uncertainty_ps + pulse < 2 ^ 64
    → uncertainty b pulse elapsed ≡ ok u
    → (u ≡ exact_uncertainty b pulse elapsed) × (u < 2 ^ 64)
uncertainty_exact b pulse elapsed fit h =
    elim (Bool-cases
      (products_overflow (elapsed / 1000000) (elapsed % 1000000) b.holdover_drift_ppb)) [
        | inl big ↦ cc (uncertainty-refused b pulse elapsed big)
        | inr small ↦ ground (arith, uncertainty-fit b pulse elapsed fit small)
      ]

-- With a drift below 2 ^ 64 / 10 ^ 6 ppb the computation fails only where the exact uncertainty
-- does not fit 64 bits, and then with the overflow error.
pub uncertainty_complete :
    (b : ClockBinding) (pulse elapsed : ℕ)
    → b.calibration_uncertainty_ps + pulse < 2 ^ 64
    → b.holdover_drift_ppb * 1000000 < 2 ^ 64
    → uncertainty b pulse elapsed ≡ (
        if ltb (exact_uncertainty b pulse elapsed) (2 ^ 64)
        then ok (exact_uncertainty b pulse elapsed)
        else err (error overflow))
uncertainty_complete b pulse elapsed fit hd =
    let w = elapsed / 1000000 in
    let r = elapsed % 1000000 in
    elim (Bool-cases (products_overflow w r b.holdover_drift_ppb)) [
      | inr pass ↦ uncertainty-fit b pulse elapsed fit pass
      | inl big ↦ ground (
        arith,
        uncertainty-refused b pulse elapsed big,
        drift-split elapsed b.holdover_drift_ppb,
        products_grow w r b.holdover_drift_ppb
            (omega (arith, small r b.holdover_drift_ppb (omega arith))) big,
      )
    ]
