-- ===== src/Samples/Numeric/Rounded.antt =====
-- include/vita/codec/numeric_samples.hpp: `quantize` rounds as its mode says.
use vrt_framework.Prelude.{
  ℕ, zero, suc, ◌+◌, ◌-◌, ◌*◌, ◌/◌, ◌%◌, ◌^◌, ◌≤◌, ◌<◌, ◌≡◌, refl, sym, ap, ◌∙◌, subst, ◌⊎◌, inl,
  inr, Bool, true, false, ◌&&◌, ◌||◌, not, arith, ltb, leb, ◌==◌, if◌then◌else◌, leb→le, ==_iff,
  Bool-cases, u64_max,
}
use vrt_framework.Prelude.Int.{ℤ, pos, negsuc, ◌-ℤ◌}
use vrt_framework.Samples.Numeric.{
  BinaryValue, Rounding, nearest_ties_even, toward_zero, toward_negative, toward_positive,
  unknown_rounding, bit_width_of, bit_width, Quantized, increments, round_up, shifted, quantize,
}
use native.Mathlib.Nat.{
  pow-suc, mul_assoc, one-le-pow, pow-le-pow_right, mul-lt-mul_of_pos_right, div-add-mod', mod-lt,
  mul-one, add-mul, div-eq_of_lt, mod-eq_of_lt, div-le_self,
}

pub pow-add : (a b : ℕ) → 2 ^ (a + b) ≡ 2 ^ a * 2 ^ b
pow-add a zero = ap (λ t. 2 ^ t) (omega arith) ∙ sym (mul-one (2 ^ a))
pow-add a (suc b) =
    ap (λ t. 2 ^ t) (omega arith)
    ∙ pow-suc 2 (a + b)
    ∙ ap (λ t. t * 2) (pow-add a b)
    ∙ mul_assoc (2 ^ a) (2 ^ b) 2
    ∙ ap (λ t. 2 ^ a * t) (sym (pow-suc 2 b))

lt-bit_width : (n m : ℕ) → m < 2 ^ n → m < 2 ^ bit_width_of n m
lt-bit_width zero m h = h
lt-bit_width (suc n) m h = elim (Bool-cases (m == 0)) [
  | inl z ↦ rw z (ground (arith, z))
  | inr p ↦
      let ih = lt-bit_width n (m / 2) (omega (arith, pow-suc 2 n)) in
      rw p (omega (arith, pow-suc 2 (bit_width_of n (m / 2)), ih))
]

-- `down` is the magnitude rounded down to a multiple of `d`, or `up` the one rounded up.
abbrev Down : ℕ → ℕ → ℕ → Type 0
Down m d r = (r * d ≤ m) × (m < r * d + d)

abbrev Up : ℕ → ℕ → ℕ → Type 0
Up m d r = (m ≤ r * d) × (r * d < m + d)

-- Nearer than half the distance `d`, or as near and even.
abbrev Nearest : ℕ → ℕ → ℕ → Type 0
Nearest m d r =
    ((2 * (r * d) < 2 * m + d) × (2 * m < 2 * (r * d) + d))
    ⊎ ((r % 2 ≡ 0) × (2 * (r * d) ≤ 2 * m + d) × (2 * m ≤ 2 * (r * d) + d))

abbrev pub Rounds : Rounding → Bool → ℕ → ℕ → ℕ → Type 0
Rounds nearest_ties_even negative m d r = Nearest m d r
Rounds toward_zero negative m d r = Down m d r
Rounds toward_negative true m d r = Up m d r
Rounds toward_negative false m d r = Down m d r
Rounds toward_positive true m d r = Down m d r
Rounds toward_positive false m d r = Up m d r
Rounds unknown_rounding negative m d r = Down m d r

-- What a magnitude becomes in units that are 2 ^ shift times smaller, or larger.
abbrev pub Quantizes : Rounding → Bool → ℕ → ℤ → Quantized → Type 0
Quantizes rounding negative m (pos shift) r = (r.magnitude ≡ m * 2 ^ shift) × (r.residue ≡ false)
Quantizes rounding negative m (negsuc n) r =
    Rounds rounding negative m (2 ^ suc n) r.magnitude
    × (r.residue ≡ not (r.magnitude * 2 ^ suc n == m))

-- The quotient and the remainder, also where the shift is wider than the word.
quotient_lem :
    (m right : ℕ)
    → m < 2 ^ 64
    → ((if leb 64 right then 0 else m / 2 ^ right) ≡ m / 2 ^ right)
      × ((if leb 64 right then m else m % 2 ^ right) ≡ m % 2 ^ right)
quotient_lem m right b = elim (Bool-cases (leb 64 right)) [
  | inl wide ↦
      let lt : m < 2 ^ right =
        omega (arith, b, pow-le-pow_right {n = 2} (omega arith) (leb→le 64 right wide)) in
      rw wide (sym (div-eq_of_lt lt), sym (mod-eq_of_lt lt))
  | inr narrow ↦ rw narrow (refl, refl)
]

abbrev chosen : ℕ → Bool → ℕ
chosen q up = if up then q + 1 else q

-- A quotient `q` and a remainder `r` by an even distance, rounded as the code decides.
module _ (q r d half n : ℕ) (below : r < d) (even : d ≡ 2 * half)
    (wide : leb (suc n) 64 ≡ false → 2 * (q * d + r) < d) where
  Rounds-chosen :
      (rounding : Rounding) (negative : Bool)
      → half ≡ 2 ^ (suc n - 1)
      → Rounds rounding negative
          (q * d + r)
          d
          (chosen q (not (r == 0) && increments rounding negative (suc n) q r))
  Rounds-chosen nearest_ties_even negative e = elim (Bool-cases (leb (suc n) 64)) [
    | inl narrow ↦ rw (narrow, sym e) (ground (arith, add-mul q 1 d))
    | inr far ↦ let w = wide far in rw far (ground (arith, add-mul q 1 d, w))
  ]
  Rounds-chosen toward_zero negative e = ground (arith, add-mul q 1 d)
  Rounds-chosen toward_negative true e = ground (arith, add-mul q 1 d)
  Rounds-chosen toward_negative false e = ground (arith, add-mul q 1 d)
  Rounds-chosen toward_positive true e = ground (arith, add-mul q 1 d)
  Rounds-chosen toward_positive false e = ground (arith, add-mul q 1 d)
  Rounds-chosen unknown_rounding negative e = ground (arith, add-mul q 1 d)

  residue-chosen : (up : Bool) → not (r == 0) ≡ not (chosen q (not (r == 0) && up) * d == q * d + r)
  residue-chosen true = ground (arith, add-mul q 1 d)
  residue-chosen false = ground (arith, add-mul q 1 d)

round_up_value :
    (rounding : Rounding) (negative : Bool) (right q r : ℕ)
    → q < 2 ^ 64
    → (round_up rounding negative right q r).overflow ≡ false
    → ((round_up rounding negative right q r).magnitude
        ≡ (if not (r == 0) && increments rounding negative right q r then q + 1 else q))
      × ((round_up rounding negative right q r).residue ≡ not (r == 0))
round_up_value rounding negative right q r b h =
    elim (Bool-cases (not (r == 0) && increments rounding negative right q r)) [
      | inl up ↦ elim (Bool-cases (q == u64_max)) [
        | inl top ↦ absurd (ground (arith, rw (up, top) at h))
        | inr low ↦ rw (up, low) (ground (arith, low), refl)
      ]
      | inr stay ↦ rw stay (omega arith, refl)
    ]

Rounds-zero :
    (rounding : Rounding) (negative : Bool) (d : ℕ) → 0 < d → Rounds rounding negative 0 d 0
Rounds-zero nearest_ties_even negative d h = inl (omega arith, omega arith)
Rounds-zero toward_zero negative d h = omega arith
Rounds-zero toward_negative true d h = omega arith
Rounds-zero toward_negative false d h = omega arith
Rounds-zero toward_positive true d h = omega arith
Rounds-zero toward_positive false d h = omega arith
Rounds-zero unknown_rounding negative d h = omega arith

Quantizes-zero :
    (rounding : Rounding) (negative : Bool) (shift : ℤ)
    → Quantizes rounding negative 0 shift
        (record { magnitude = 0; residue = false; overflow = false })
Quantizes-zero rounding negative (pos s) = (omega arith, refl)
Quantizes-zero rounding negative (negsuc n) =
    (Rounds-zero rounding negative (2 ^ suc n) (one-le-pow (suc n) 2 (omega arith)), ground arith)

far_quantum : (m n : ℕ) {t : ℕ} → m < 2 ^ 64 → t ≡ m → leb (suc n) 64 ≡ false → 2 * t < 2 ^ suc n
far_quantum m n b e far =
    let le : 65 ≤ suc n = ground (arith, far) in
    omega (arith, b, pow-le-pow_right {n = 2} (omega arith) le)

Quantizes-round_up :
    (m n : ℕ) (negative : Bool) (rounding : Rounding)
    → m < 2 ^ 64
    → (round_up rounding negative (suc n) (m / 2 ^ suc n) (m % 2 ^ suc n)).overflow ≡ false
    → Quantizes rounding negative m
        (negsuc n)
        (round_up rounding negative (suc n) (m / 2 ^ suc n) (m % 2 ^ suc n))
Quantizes-round_up m n negative rounding b h =
    let d = 2 ^ suc n in
    let q = m / d in
    let r = m % d in
    let pos_d = one-le-pow (suc n) 2 (omega arith) in
    let below : r < d = mod-lt m pos_d in
    let even : d ≡ 2 * 2 ^ n = omega (arith, pow-suc 2 n) in
    let split : q * d + r ≡ m = div-add-mod' m d in
    let (value, residue) =
      round_up_value rounding negative (suc n) q r (omega (arith, div-le_self m d)) h in
    let wide : leb (suc n) 64 ≡ false → 2 * (q * d + r) < d = far_quantum m n b split in
    let rounds =
      Rounds-chosen q r d (2 ^ n) n below even wide rounding negative
        (ap (λ t. 2 ^ t) (omega arith)) in
    let res =
      residue-chosen q r d (2 ^ n) n below even wide (increments rounding negative (suc n) q r) in
    (
      subst (λ t. Rounds rounding negative t d (round_up rounding negative (suc n) q r).magnitude)
          split (subst (Rounds rounding negative (q * d + r) d) (sym value) rounds),
      residue
          ∙ res
          ∙ ap (λ t. not (t * d == q * d + r)) (sym value)
          ∙ ap (λ t. not ((round_up rounding negative (suc n) q r).magnitude * d == t)) split,
    )

Quantizes-shifted :
    (m : ℕ) (negative : Bool) (shift : ℤ) (rounding : Rounding)
    → m < 2 ^ 64
    → (shifted m negative shift rounding).overflow ≡ false
    → Quantizes rounding negative m shift (shifted m negative shift rounding)
unfolding bit_width
Quantizes-shifted m negative (pos s) rounding b h =
    elim (Bool-cases (leb 64 s || ltb 64 (bit_width_of 64 m + s))) [
      | inl over ↦ absurd (ground (arith, rw over at h))
      | inr fits ↦
          let w = lt-bit_width 64 m b in
          let le : bit_width_of 64 m + s ≤ 64 = ground (arith, fits) in
          let p = pow-le-pow_right {n = 2} (omega arith) le in
          let lt : m * 2 ^ s < 2 ^ 64 = omega (
            arith,
            mul-lt-mul_of_pos_right w (one-le-pow s 2 (omega arith)),
            pow-add (bit_width_of 64 m) s,
            p,
          ) in
          rw fits (omega (arith, lt), refl)
    ]
Quantizes-shifted m negative (negsuc n) rounding b h =
    let (eq, er) = quotient_lem m (suc n) b in
    let e =
      ap (λ q. round_up rounding negative (suc n) q (if leb 64 (suc n) then m else m % 2 ^ suc n))
        eq
      ∙ ap (round_up rounding negative (suc n) (m / 2 ^ suc n)) er in
    subst (Quantizes rounding negative m (negsuc n)) (sym e)
      (Quantizes-round_up m n negative rounding b (ap (λ t. t.overflow) (sym e) ∙ h))

-- If quantizing a value does not overflow, the result in units of the quantum is exact where the quantum
-- is as fine as the value, and otherwise is the value rounded as the mode says: down, up, or to the
-- nearest with ties to even. The residue tells whether the result differs from the value.
pub quantize_lem :
    (value : BinaryValue) (q : ℤ) (rounding : Rounding)
    → value.magnitude < 2 ^ 64
    → (quantize value q rounding).overflow ≡ false
    → Quantizes rounding value.negative value.magnitude
        (value.exponent -ℤ q)
        (quantize value q rounding)
unfolding quantize
quantize_lem value q rounding b h = elim (Bool-cases (value.magnitude == 0)) [
  | inl z ↦
      let e : value.magnitude ≡ 0 = (==_iff _ _).0 z in
      rw z (
        subst
          (λ m.
            Quantizes rounding value.negative m (value.exponent -ℤ q)
              (record { magnitude = 0; residue = false; overflow = false }))
          (sym e) (Quantizes-zero rounding value.negative (value.exponent -ℤ q)))
  | inr p ↦ rw p (
      Quantizes-shifted value.magnitude value.negative (value.exponent -ℤ q) rounding b (rw p at h))
]
