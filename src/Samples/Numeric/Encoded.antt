-- ===== src/Samples/Numeric/Encoded.antt =====
-- include/vita/codec/numeric_samples.hpp: the words that encoding gives.
use vrt_framework.Prelude.{
  ℕ, zero, suc, ◌+◌, ◌-◌, ◌*◌, ◌/◌, ◌%◌, ◌^◌, ◌≤◌, ◌<◌, ◌≡◌, refl, sym, ap, ◌∙◌, subst, ◌⊎◌, inl,
  inr, Bool, true, false, ◌&&◌, ◌||◌, not, some, arith, ltb, leb, ◌==◌, if◌then◌else◌, ==_iff,
  Bool-cases, Option-cases, some-injective, if-both, mul64,
}
use vrt_framework.Core.Error.{
  Error, error, invalid_argument, Result, ok, guard, >>=-eq-ok, ok-injective, >>-eq-ok,
}
use vrt_framework.Samples.Numeric.{
  BinaryValue, NumericSpec, ConversionPolicy, EncodedValue, mask, signed_kind, vrt, is_known,
  bad_fields, validate, valid, mantissa_bits, quantum, quantize, refine, max_exponent,
  max_magnitude, mantissa_of, word_of, is_exact, attempt, or_else, encode_loop, errs,
  encode_nonzero, encode_numeric,
}
use vrt_framework.Samples.Numeric.Rounded.{pow-add}
use native.Mathlib.Nat.{one-le-pow, mod-lt, mul-le-mul_right, suc-mul, pow-le-pow_right}

refine_lem :
    (max_mag e m : ℕ)
    → max_mag < 2 ^ 64
    → m ≤ max_mag
    → ((refine max_mag e m).0 ≤ e) × ((refine max_mag e m).1 ≤ max_mag)
refine_lem max_mag zero m b le = (omega arith, le)
refine_lem max_mag (suc e) m b le = elim (Bool-cases (not (m == 0) && leb m (max_mag / 2))) [
  | inl finer ↦
      let small : m ≤ max_mag / 2 = ground (arith, finer) in
      let (p, q) = refine_lem max_mag e (mul64 m 2) b (omega arith) in
      rw finer (omega (arith, p), q)
  | inr stop ↦ rw stop (omega arith, le)
]

mask-lt : (n : ℕ) → mask n < 2 ^ n
mask-lt n = elim (Bool-cases (n == 64)) [
  | inl whole ↦ let e : n ≡ 64 = (==_iff _ _).0 whole in rw e (omega arith)
  | inr part ↦ rw part (omega (arith, one-le-pow n 2 (omega arith)))
]

guard-passed : (b : Bool) (e : Error) {u : Unit {0}} → guard (not b) e ≡ ok u → b ≡ false
guard-passed true e h = cc
guard-passed false e h = refl

-- What a valid specification has been checked for.
abbrev IsValidSpec : NumericSpec → Type 0
IsValidSpec s = (0 < s.bits) × (s.bits ≤ 64) × (bad_fields s ≡ false)

validate-IsValidSpec : (s : NumericSpec) {u : Unit {0}} → validate s ≡ ok u → IsValidSpec s
unfolding validate
validate-IsValidSpec s h =
    let (k, g) =
      >>-eq-ok (is_known s.kind && not (s.bits == 0) && not (ltb 64 s.bits))
        (error invalid_argument) (guard (not (bad_fields s)) (error invalid_argument)) h in
    (ground (arith, k), ground (arith, k), guard-passed (bad_fields s) _ g)

module _ (s : NumericSpec) (v : IsValidSpec s) where
  exponent_below : vrt s.kind ≡ true → (s.exponent_bits < s.bits) × (s.exponent_bits ≤ 6)
  exponent_below h = ground (arith, v.2, h)

  mantissa_bits_bounds : (0 < mantissa_bits s) × (mantissa_bits s ≤ 64)
  mantissa_bits_bounds = elim (Bool-cases (vrt s.kind)) [
    | inl floating ↦
        let b = exponent_below floating in
        rw floating (omega (arith, v.0, v.1, b), omega (arith, v.1))
    | inr fixed ↦ rw fixed (omega (arith, v.0), omega (arith, v.1))
  ]

  max_magnitude-lt_word : (negative : Bool) → max_magnitude s negative < 2 ^ 64
  max_magnitude-lt_word negative =
      let (p, q) = mantissa_bits_bounds in
      let m = mantissa_bits s in
      let wide = pow-le-pow_right {n = 2} (omega arith) q in
      let wide' : 2 ^ (m - 1) ≤ 2 ^ 63 =
        pow-le-pow_right {n = 2} (omega arith) {i = m - 1} {j = 63} (omega (arith, q)) in
      if-both (λ t. t < 2 ^ 64) (signed_kind s.kind)
        (if-both (λ t. t < 2 ^ 64) negative (omega (arith, wide'))
          (omega (arith, wide', mask-lt (m - 1))))
        (omega (arith, wide, mask-lt m))

  max_magnitude-lt_mantissa : max_magnitude s false < 2 ^ mantissa_bits s
  max_magnitude-lt_mantissa =
      let (p, q) = mantissa_bits_bounds in
      let m = mantissa_bits s in
      let less : 2 ^ (m - 1) ≤ 2 ^ m = pow-le-pow_right {n = 2} (omega arith) (omega arith) in
      if-both (λ t. t < 2 ^ m) (signed_kind s.kind) (omega (arith, less, mask-lt (m - 1)))
        (mask-lt m)

  mantissa_of-lt :
      (negative : Bool) (m : ℕ)
      → m ≤ max_magnitude s negative
      → mantissa_of s negative m < 2 ^ mantissa_bits s
  mantissa_of-lt true m fit = mod-lt _ (one-le-pow (mantissa_bits s) 2 (omega arith))
  mantissa_of-lt false m fit = omega (arith, fit, max_magnitude-lt_mantissa)

  floating_word-lt :
      (negative : Bool) (e m : ℕ)
      → vrt s.kind ≡ true
      → e ≤ max_exponent s
      → mantissa_of s negative m < 2 ^ mantissa_bits s
      → (if vrt s.kind
          then mantissa_of s negative m * 2 ^ s.exponent_bits % 2 ^ 64 + e
          else mantissa_of s negative m)
        < 2 ^ s.bits
  floating_word-lt negative e m floating le lt =
      let (below, few) = exponent_below floating in
      let eb = s.exponent_bits in
      let width : mantissa_bits s ≡ s.bits - eb = rw floating refl in
      let top : max_exponent s ≡ mask eb = rw floating refl in
      let whole : 2 ^ (s.bits - eb) * 2 ^ eb ≡ 2 ^ s.bits =
        sym (pow-add (s.bits - eb) eb) ∙ ap (λ n. 2 ^ n) (omega (arith, below)) in
      let lt' = subst (λ n. mantissa_of s negative m < 2 ^ n) width lt in
      let scaled = mul-le-mul_right (2 ^ eb) lt' in
      let small = mask-lt eb in
      let e' : e ≤ mask eb = omega (arith, le, top) in
      rw floating (
        rw floating at (
          let word = mantissa_of s negative m in
          let bound : word * 2 ^ eb % 2 ^ 64 + e < 2 ^ s.bits =
            omega (arith, scaled, suc-mul word (2 ^ eb), whole, small, e') in
          bound))

  -- An encoded word has no bits beyond those of its format.
  word_of-lt :
      (negative : Bool) (quantized e m : ℕ)
      → e ≤ max_exponent s
      → m ≤ max_magnitude s negative
      → word_of s negative quantized (e, m) < 2 ^ s.bits
  word_of-lt negative quantized e m le fit =
      let lt = mantissa_of-lt negative m fit in
      if-both (λ t. t < 2 ^ s.bits) (quantized == 0) (one-le-pow s.bits 2 (omega arith))
        (elim (Bool-cases (vrt s.kind)) [
          | inl floating ↦ floating_word-lt negative e m floating le lt
          | inr fixed ↦
              let same : mantissa_bits s ≡ s.bits = rw fixed (omega arith) in
              rw fixed (rw fixed at (subst (λ n. mantissa_of s negative m < 2 ^ n) same lt))
        ])

-- The word has only the bits of the format, and without a permission to round it is neither rounded nor
-- saturated.
abbrev pub IsEncoded : NumericSpec → ConversionPolicy → EncodedValue → Type 0
IsEncoded spec policy x =
    (x.bits < 2 ^ spec.bits) × ((is_exact policy.precision && (x.rounded || x.saturated)) ≡ false)

attempt-IsEncoded :
    (spec : NumericSpec) (policy : ConversionPolicy) (value : BinaryValue) (saturated : Bool)
    (e : ℕ) {x : EncodedValue}
    → IsValidSpec spec
    → e ≤ max_exponent spec
    → (is_exact policy.precision && saturated) ≡ false
    → attempt spec policy value (max_magnitude spec value.negative) saturated e ≡ some x
    → IsEncoded spec policy x
attempt-IsEncoded spec policy value saturated e {x} v le exact h =
    let r = quantize value (quantum spec e) policy.rounding in
    let max_mag = max_magnitude spec value.negative in
    elim (Bool-cases (r.overflow || ltb max_mag r.magnitude)) [
      | inl over ↦ cc (rw over at h)
      | inr fits ↦ elim (Bool-cases (r.residue && is_exact policy.precision)) [
        | inl inexact ↦ cc (rw (fits, inexact) at h)
        | inr fine ↦
            let le_max : r.magnitude ≤ max_mag = ground (arith, fits) in
            let (p, q) =
              refine_lem max_mag e r.magnitude (max_magnitude-lt_word spec v value.negative)
                le_max in
            let word =
              word_of-lt spec v value.negative r.magnitude (refine max_mag e r.magnitude).0
                (refine max_mag e r.magnitude).1 (omega (arith, p, le)) q in
            subst (IsEncoded spec policy) (some-injective (rw (fits, fine) at h))
              (word, ground (arith, fine, exact))
      ]
    ]

encode_loop-IsEncoded :
    (spec : NumericSpec) (policy : ConversionPolicy) (value : BinaryValue) (saturated : Bool)
    (rounds e : ℕ) {x : EncodedValue}
    → IsValidSpec spec
    → e + rounds ≤ suc (max_exponent spec)
    → (is_exact policy.precision && saturated) ≡ false
    → encode_loop spec policy value (max_magnitude spec value.negative) saturated rounds e ≡ ok x
    → IsEncoded spec policy x
encode_loop-IsEncoded spec policy value saturated zero e v le exact h = cc
encode_loop-IsEncoded spec policy value saturated (suc rounds) e {x} v le exact h =
    elim (Option-cases
      (attempt spec policy value (max_magnitude spec value.negative) saturated e)) [
        | inl more ↦
            encode_loop-IsEncoded spec policy value saturated rounds (suc e) v (omega (arith, le))
              exact
              (sym (
                  ap
                    (λ o. or_else o (
                      encode_loop spec policy value (max_magnitude spec value.negative) saturated
                        rounds (suc e)))
                    more)
                ∙ h)
        | inr (y, found) ↦
            attempt-IsEncoded spec policy value saturated e v (omega (arith, le)) exact (
              found
              ∙ ap some (
                  ok-injective (
                    sym (
                      ap
                        (λ o. or_else o (
                          encode_loop spec policy value (max_magnitude spec value.negative)
                            saturated rounds (suc e)))
                        found)
                    ∙ h)))
      ]

if-eq-ok :
    (b : Bool) (x y : Result EncodedValue) {z : EncodedValue}
    → (if b then x else y) ≡ ok z
    → ((b ≡ true) × (x ≡ ok z)) ⊎ ((b ≡ false) × (y ≡ ok z))
if-eq-ok true x y h = inl (refl, h)
if-eq-ok false x y h = inr (refl, h)

and_false : (b : Bool) → (b && false) ≡ false
and_false true = refl
and_false false = refl

or_false : (a b : Bool) → (a || b) ≡ false → b ≡ false
or_false true b h = cc
or_false false b h = h

encode_nonzero-IsEncoded :
    (spec : NumericSpec) (value : BinaryValue) (policy : ConversionPolicy) {x : EncodedValue}
    → IsValidSpec spec
    → encode_nonzero spec value policy ≡ ok x
    → IsEncoded spec policy x
unfolding encode_nonzero
encode_nonzero-IsEncoded spec value policy v h =
    let below_zero = not (signed_kind spec.kind) && value.negative in
    let rounds = suc (max_exponent spec) in
    elim (if-eq-ok (below_zero || _) _ _ h) [
      | inr (inside, looped) ↦
          encode_loop-IsEncoded spec policy value false rounds 0 v (omega arith)
            (and_false (is_exact policy.precision)) looped
      | inl (outside, rest) ↦
          elim (if-eq-ok (errs policy.overflow || is_exact policy.precision) _ _ rest) [
            | inl (refused, failed) ↦ cc
            | inr (allowed, clipped) ↦
                let rounding : is_exact policy.precision ≡ false =
                  or_false (errs policy.overflow) _ allowed in
                elim (if-eq-ok below_zero _ _ clipped) [
                  | inl (neg, zeroed) ↦
                      subst (IsEncoded spec policy) (ok-injective zeroed)
                        (one-le-pow spec.bits 2 (omega arith), rw rounding refl)
                  | inr (other, looped) ↦
                      encode_loop-IsEncoded spec policy _ true rounds 0 v (omega arith)
                        (rw rounding refl) looped
                ]
          ]
    ]

-- Whatever `encode_numeric` returns fits the bits of the format, for every kind of format and every policy,
-- and is neither rounded nor saturated under a policy that allows only exact conversions.
pub encode_numeric-IsEncoded :
    (spec : NumericSpec) (value : BinaryValue) (policy : ConversionPolicy) (x : EncodedValue)
    → encode_numeric spec value policy ≡ ok x
    → IsEncoded spec policy x
unfolding encode_numeric
encode_numeric-IsEncoded spec value policy x h =
    let (u, valid_spec, h1) = >>=-eq-ok (validate spec) _ h in
    let v = validate-IsValidSpec spec valid_spec in
    let (ok_policy, h2) = >>-eq-ok (valid policy) (error invalid_argument) _ h1 in
    elim (if-eq-ok (value.magnitude == 0) _ _ h2) [
      | inl (empty, e) ↦
          subst (IsEncoded spec policy) (ok-injective e)
            (one-le-pow spec.bits 2 (omega arith), and_false (is_exact policy.precision))
      | inr (other, e) ↦ encode_nonzero-IsEncoded spec value policy v e
    ]
