-- ===== src/Samples/Numeric.antt =====
-- include/vita/codec/numeric_samples.hpp: fixed-point and VRT floating-point sample formats, decoded exactly
-- and encoded under a policy for rounding and overflow. A value of an enumeration that is none of its
-- enumerators is the last constructor of its type.
pub mod Rounded
pub mod Encoded
use vrt_framework.Prelude.{
  ℕ, zero, suc, ◌+◌, ◌-◌, ◌*◌, ◌/◌, ◌%◌, ◌^◌, ◌≤◌, ◌<◌, min, max, bit_and, bit_or, ◌≡◌, refl, sym,
  ap, ◌∙◌, subst, ◌≢◌, ◌↔◌, ◌⊎◌, inl, inr, Bool, true, false, ◌&&◌, ◌||◌, not, Option, none, some,
  List, [], ◌∷◌, ◌++◌, append-nil, append_assoc, arith, ltb, leb, ◌==◌, if◌then◌else◌, ltb→lt,
  lt→ltb, leb→le, ==_iff, ==_refl, Bool-cases, Option-cases, some-injective, if-both, has_value,
  eq_option, eq_bool, u64_max, add64, sub64, mul64, bit, length, get_elem?, get_or, set, take, drop,
  replicate, length-append, length-set, get_elem?-set_self, get_elem?-set_ne, take-append-drop,
  length-take, length-drop, length-replicate, drop-append, take-append,
}
use vrt_framework.Core.Error.{
  ErrorCode, Error, error, error_at, error_needs, invalid_argument, unsupported_layout,
  unsupported_capability, short_input, short_output, capacity_exhausted, stale_generation,
  invalid_state, callback_failure, no_cpu_access, resource_limit, identity_conflict, Result, ok,
  err, ◌>>=◌, ◌>>◌, guard, done, is_ok, >>=-eq-ok, Result-cases, ok-injective, guard-eq-ok,
  >>-eq-ok,
}
use vrt_framework.Prelude.Int.{ℤ, pos, negsuc, ◌+ℤ◌, ◌-ℤ◌, negate, ltb_int, int16_of, of_difference}

pub record BinaryValue : Type 0 where
  pub magnitude : ℕ
  pub exponent : ℤ
  pub negative : Bool

pub data Kind : Type 0 where
  unsigned_fixed signed_fixed unsigned_non_normalized signed_non_normalized unsigned_vrt signed_vrt
        unknown_kind :
      Kind

pub record NumericSpec : Type 0 where
  pub kind : Kind
  pub bits : ℕ
  pub fractional_bits : ℕ
  pub exponent_bits : ℕ

pub data Precision : Type 0 where
  exact_only allow_rounding unknown_precision : Precision

pub data Rounding : Type 0 where
  nearest_ties_even toward_zero toward_negative toward_positive unknown_rounding : Rounding

pub data Overflow : Type 0 where
  error_out saturate unknown_overflow : Overflow

pub data VrtEncoding : Type 0 where
  lowest_exponent unknown_encoding : VrtEncoding

pub record ConversionPolicy : Type 0 where
  pub precision : Precision
  pub rounding : Rounding
  pub overflow : Overflow
  pub vrt_encoding : VrtEncoding

pub record EncodedValue : Type 0 where
  pub bits : ℕ
  pub rounded : Bool
  pub saturated : Bool

abbrev pub mask : ℕ → ℕ
mask n = if n == 64 then u64_max else 2 ^ n - 1

abbrev pub signed_kind : Kind → Bool
signed_kind unsigned_fixed = false
signed_kind signed_fixed = true
signed_kind unsigned_non_normalized = false
signed_kind signed_non_normalized = true
signed_kind unsigned_vrt = false
signed_kind signed_vrt = true
signed_kind unknown_kind = false

abbrev pub vrt : Kind → Bool
vrt unsigned_fixed = false
vrt signed_fixed = false
vrt unsigned_non_normalized = false
vrt signed_non_normalized = false
vrt unsigned_vrt = true
vrt signed_vrt = true
vrt unknown_kind = false

abbrev pub non_normalized : Kind → Bool
non_normalized unsigned_fixed = false
non_normalized signed_fixed = false
non_normalized unsigned_non_normalized = true
non_normalized signed_non_normalized = true
non_normalized unsigned_vrt = false
non_normalized signed_vrt = false
non_normalized unknown_kind = false

abbrev pub is_known : Kind → Bool
is_known unknown_kind = false
is_known unsigned_fixed = true
is_known signed_fixed = true
is_known unsigned_non_normalized = true
is_known signed_non_normalized = true
is_known unsigned_vrt = true
is_known signed_vrt = true

abbrev pub bad_fields : NumericSpec → Bool
bad_fields s =
    if vrt s.kind
    then s.exponent_bits == 0
      || ltb 6 s.exponent_bits
      || leb s.bits s.exponent_bits
      || not (s.fractional_bits == 0)
    else not (s.exponent_bits == 0)
      || (if non_normalized s.kind
          then leb s.bits s.fractional_bits || ltb 15 s.fractional_bits
          else not (s.fractional_bits == 0))

unfoldable pub validate : NumericSpec → Result (Unit {0})
validate s =
    guard (is_known s.kind && not (s.bits == 0) && not (ltb 64 s.bits)) (error invalid_argument)
    >> guard (not (bad_fields s)) (error invalid_argument)

abbrev pub known_precision : Precision → Bool
known_precision exact_only = true
known_precision allow_rounding = true
known_precision unknown_precision = false

abbrev pub known_rounding : Rounding → Bool
known_rounding nearest_ties_even = true
known_rounding toward_zero = true
known_rounding toward_negative = true
known_rounding toward_positive = true
known_rounding unknown_rounding = false

abbrev pub known_overflow : Overflow → Bool
known_overflow error_out = true
known_overflow saturate = true
known_overflow unknown_overflow = false

abbrev pub known_encoding : VrtEncoding → Bool
known_encoding lowest_exponent = true
known_encoding unknown_encoding = false

unfoldable pub valid : ConversionPolicy → Bool
valid p =
    known_precision p.precision
    && known_rounding p.rounding
    && known_overflow p.overflow
    && known_encoding p.vrt_encoding

abbrev pub mantissa_bits : NumericSpec → ℕ
mantissa_bits s = s.bits - (if vrt s.kind then s.exponent_bits else 0)

unfoldable pub quantum : NumericSpec → ℕ → ℤ
quantum s e =
    if non_normalized s.kind
    then negate (pos s.fractional_bits)
    else let width = of_difference (mantissa_bits s) (if signed_kind s.kind then 1 else 0) in
      negate width +ℤ (if vrt s.kind then pos e -ℤ pos (mask s.exponent_bits) else pos 0)

-- `std::bit_width` and `std::countr_zero` of a 64-bit number, by at most 64 halvings.
abbrev pub bit_width_of : ℕ → ℕ → ℕ
bit_width_of zero m = 0
bit_width_of (suc n) m = if m == 0 then 0 else suc (bit_width_of n (m / 2))

unfoldable pub bit_width : ℕ → ℕ
bit_width m = bit_width_of 64 m

abbrev pub trailing_zeros : ℕ → ℕ → ℕ
trailing_zeros zero m = 0
trailing_zeros (suc n) m = if m % 2 == 1 then 0 else suc (trailing_zeros n (m / 2))

unfoldable pub countr_zero : ℕ → ℕ
countr_zero m = trailing_zeros 64 m

-- Positive, zero or negative, like the result of the code.
unfoldable pub compare : BinaryValue → BinaryValue → ℤ
unfolding bit_width
compare a b =
    let aw = bit_width a.magnitude in
    let bw = bit_width b.magnitude in
    let atop = a.exponent +ℤ pos aw in
    let btop = b.exponent +ℤ pos bw in
    let am = a.magnitude * 2 ^ (64 - aw) % 2 ^ 64 in
    let bm = b.magnitude * 2 ^ (64 - bw) % 2 ^ 64 in
    if a.magnitude == 0 || b.magnitude == 0
    then (if not (a.magnitude == 0)
        then pos 1
        else if not (b.magnitude == 0)
        then negsuc 0
        else pos 0)
    else if ltb_int atop btop
    then negsuc 0
    else if ltb_int btop atop
    then pos 1
    else if ltb am bm
    then negsuc 0
    else if ltb bm am
    then pos 1
    else pos 0

pub record Quantized : Type 0 where
  pub magnitude : ℕ
  pub residue : Bool
  pub overflow : Bool

-- Whether a remainder other than zero rounds the quotient up.
abbrev pub increments : Rounding → Bool → ℕ → ℕ → ℕ → Bool
increments toward_negative negative right quotient remainder = negative
increments toward_positive negative right quotient remainder = not negative
increments nearest_ties_even negative right quotient remainder =
    leb right 64
    && (ltb (2 ^ (right - 1)) remainder || (remainder == 2 ^ (right - 1) && quotient % 2 == 1))
increments toward_zero negative right quotient remainder = false
increments unknown_rounding negative right quotient remainder = false

-- The end of `quantize`, for the quotient and the remainder by 2 ^ right.
abbrev pub round_up : Rounding → Bool → ℕ → ℕ → ℕ → Quantized
round_up rounding negative right quotient remainder =
    let up = not (remainder == 0) && increments rounding negative right quotient remainder in
    if up && quotient == u64_max
    then record { magnitude = 0; residue = not (remainder == 0); overflow = true }
    else record {
      magnitude = add64 quotient (if up then 1 else 0);
      residue = not (remainder == 0);
      overflow = false;
    }

abbrev pub shifted : ℕ → Bool → ℤ → Rounding → Quantized
shifted m negative (pos shift) rounding =
    if leb 64 shift || ltb 64 (bit_width m + shift)
    then record { magnitude = 0; residue = false; overflow = true }
    else record { magnitude = m * 2 ^ shift % 2 ^ 64; residue = false; overflow = false }
shifted m negative (negsuc n) rounding =
    let right = suc n in
    round_up rounding negative right (if leb 64 right then 0 else m / 2 ^ right)
      (if leb 64 right then m else m % 2 ^ right)

unfoldable pub quantize : BinaryValue → ℤ → Rounding → Quantized
unfolding bit_width
quantize value q rounding =
    if value.magnitude == 0
    then record { magnitude = 0; residue = false; overflow = false }
    else shifted value.magnitude value.negative (value.exponent -ℤ q) rounding

unfoldable pub canonicalize : BinaryValue → Result BinaryValue
unfolding countr_zero
canonicalize value =
    let trailing = countr_zero value.magnitude in
    let exponent = value.exponent +ℤ pos trailing in
    if value.magnitude == 0
    then ok (record { magnitude = 0; exponent = pos 0; negative = false })
    else if ltb_int (pos 32767) exponent
    then err (error ErrorCode.overflow)
    else ok (record {
      magnitude = value.magnitude / 2 ^ trailing;
      exponent = int16_of exponent;
      negative = value.negative;
    })

-- The value of a mantissa: of a negative one, the two's complement.
abbrev pub decoded : NumericSpec → ℕ → ℕ → Result BinaryValue
decoded spec e mantissa =
    let m = mantissa_bits spec in
    let negative = signed_kind spec.kind && mantissa / 2 ^ (m - 1) % 2 == 1 in
    canonicalize (record {
      magnitude = if negative then (2 ^ 64 - mantissa) % 2 ^ 64 % 2 ^ m else mantissa;
      exponent = int16_of (quantum spec e);
      negative = negative;
    })

unfoldable pub decode_exact : NumericSpec → ℕ → Result BinaryValue
unfolding validate quantum canonicalize
decode_exact spec bits =
    validate spec
    >> (guard (not (ltb (mask spec.bits) bits)) (error invalid_argument)
        >> (if vrt spec.kind
            then decoded spec (bits % 2 ^ spec.exponent_bits) (bits / 2 ^ spec.exponent_bits)
            else decoded spec 0 bits))

-- The loop that brings a magnitude back to a finer exponent.
abbrev pub refine : ℕ → ℕ → ℕ → ℕ × ℕ
refine max_mag zero magnitude = (0, magnitude)
refine max_mag (suc e) magnitude =
    let finer = refine max_mag e (mul64 magnitude 2) in
    if not (magnitude == 0) && leb magnitude (max_mag / 2) then finer else (suc e, magnitude)

abbrev pub max_exponent : NumericSpec → ℕ
max_exponent spec = if vrt spec.kind then mask spec.exponent_bits else 0

abbrev pub max_magnitude : NumericSpec → Bool → ℕ
max_magnitude spec negative =
    let m = mantissa_bits spec in
    if signed_kind spec.kind then (if negative then 2 ^ (m - 1) else mask (m - 1)) else mask m

abbrev pub mantissa_of : NumericSpec → Bool → ℕ → ℕ
mantissa_of spec negative magnitude =
    if negative then (2 ^ 64 - magnitude) % 2 ^ 64 % 2 ^ mantissa_bits spec else magnitude

abbrev pub word_of : NumericSpec → Bool → ℕ → ℕ × ℕ → ℕ
word_of spec negative quantized (encoded_e, magnitude) =
    if quantized == 0
    then 0
    else if vrt spec.kind
    then mantissa_of spec negative magnitude * 2 ^ spec.exponent_bits % 2 ^ 64 + encoded_e
    else mantissa_of spec negative magnitude

abbrev pub is_exact : Precision → Bool
is_exact exact_only = true
is_exact allow_rounding = false
is_exact unknown_precision = false

-- One round of the loop over the exponents; none where the loop goes on.
abbrev pub attempt :
    NumericSpec → ConversionPolicy → BinaryValue → ℕ → Bool → ℕ → Option EncodedValue
attempt spec policy value max_mag saturated e =
    let result = quantize value (quantum spec e) policy.rounding in
    if result.overflow || ltb max_mag result.magnitude
    then none
    else if result.residue && is_exact policy.precision
    then none
    else some (record {
      bits = word_of spec value.negative result.magnitude (refine max_mag e result.magnitude);
      rounded = result.residue;
      saturated = saturated;
    })

abbrev pub or_else : Option EncodedValue → Result EncodedValue → Result EncodedValue
or_else none rest = rest
or_else (some v) rest = ok v

-- `rounds` exponents are left, the next one is `e`.
abbrev pub encode_loop :
    NumericSpec → ConversionPolicy → BinaryValue → ℕ → Bool → ℕ → ℕ → Result EncodedValue
encode_loop spec policy value max_mag saturated zero e = err (error invalid_argument)
encode_loop spec policy value max_mag saturated (suc rounds) e =
    or_else (attempt spec policy value max_mag saturated e)
      (encode_loop spec policy value max_mag saturated rounds (suc e))

abbrev pub errs : Overflow → Bool
errs error_out = true
errs saturate = false
errs unknown_overflow = false

unfoldable pub encode_nonzero : NumericSpec → BinaryValue → ConversionPolicy → Result EncodedValue
encode_nonzero spec value policy =
    let max_e = max_exponent spec in
    let max_mag = max_magnitude spec value.negative in
    let bound : BinaryValue = record {
      magnitude = max_mag;
      exponent = int16_of (quantum spec max_e);
      negative = value.negative;
    } in
    let below_zero = not (signed_kind spec.kind) && value.negative in
    if below_zero || ltb_int (pos 0) (compare value bound)
    then (if errs policy.overflow || is_exact policy.precision
        then err (error ErrorCode.overflow)
        else if below_zero
        then ok (record { bits = 0; rounded = false; saturated = true })
        else encode_loop spec policy bound max_mag true (suc max_e) 0)
    else encode_loop spec policy value max_mag false (suc max_e) 0

unfoldable pub encode_numeric : NumericSpec → BinaryValue → ConversionPolicy → Result EncodedValue
unfolding validate valid
encode_numeric spec value policy =
    validate spec
    >> (guard (valid policy) (error invalid_argument)
        >> (if value.magnitude == 0
            then ok (record { bits = 0; rounded = false; saturated = false })
            else encode_nonzero spec value policy))

unfoldable pub convert_numeric :
    NumericSpec → ℕ → NumericSpec → ConversionPolicy → Result EncodedValue
unfolding decode_exact encode_numeric
convert_numeric source bits destination policy =
    decode_exact source bits >>= λ value. encode_numeric destination value policy
