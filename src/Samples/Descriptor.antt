-- ===== src/Samples/Descriptor.antt =====
-- include/vita/codec/sample_descriptors.hpp: what a payload format word says of the samples, and what the
-- size of a payload and the reported padding must be. A value of an enumeration that is none of its
-- enumerators is the last constructor of its type.
use vrt_framework.Prelude.{
  ℕ, ◌+◌, ◌-◌, ◌/◌, ◌%◌, ◌^◌, Bool, true, false, ◌&&◌, ◌||◌, not, Option, none, some, List, ltb,
  leb, ◌==◌, if◌then◌else◌, has_value, add64, sub64, mul64, bit,
}
use vrt_framework.Core.Error.{
  error, invalid_argument, unsupported_layout, Result, ok, err, ◌>>=◌, ◌>>◌, guard,
}
use vrt_framework.Samples.Packing.{
  link, processing, SampleKind, real, cartesian, polar, unknown_kind, RepeatMode, unrepeated,
  component, channel, PackingSpec, Limits, default_limits, Shape, measure, bit_offset,
  PackedSamples, create,
}
use vrt_framework.Samples.Numeric.{
  Kind, unsigned_fixed, signed_fixed, unsigned_non_normalized, signed_non_normalized, unsigned_vrt,
  signed_vrt, NumericSpec, decode_exact,
}

pub data SignalDomain : Type 0 where
  time spectral spectral_log_power unknown_domain : SignalDomain

pub data ComponentUnit : Type 0 where
  dimensionless decibels pi_multiple two_pi_multiple radians unspecified : ComponentUnit

-- include/vita/codec/ieee_samples.hpp
pub data Format : Type 0 where
  binary16 binary32 binary64 : Format

pub data NumberFormat : Type 0 where
  numeric : NumericSpec → NumberFormat
  ieee : Format → NumberFormat

-- `wire` is the 64-bit payload format.
pub record Descriptor : Type 0 where
  pub wire : ℕ
  pub packing : PackingSpec
  pub number : NumberFormat
  pub domain : SignalDomain

abbrev pub known_domain : SignalDomain → Bool
known_domain time = true
known_domain spectral = true
known_domain spectral_log_power = true
known_domain unknown_domain = false

abbrev pub is_time : SignalDomain → Bool
is_time time = true
is_time spectral = false
is_time spectral_log_power = false
is_time unknown_domain = false

abbrev pub is_log_power : SignalDomain → Bool
is_log_power time = false
is_log_power spectral = false
is_log_power spectral_log_power = true
is_log_power unknown_domain = false

abbrev pub kind_of : ℕ → SampleKind
kind_of kind = if kind == 0 then real else if kind == 1 then cartesian else polar

abbrev pub repeating_of : Bool → ℕ → RepeatMode
repeating_of by_component count =
    if by_component then component else if ltb 1 count then channel else unrepeated

-- The packing that the two halves of the word give.
unfoldable pub packing_of : ℕ → ℕ → PackingSpec
packing_of high low = record {
  item_bits = high % 64 + 1;
  packing_bits = high / 2 ^ 6 % 64 + 1;
  channel_tag_bits = high / 2 ^ 16 % 16;
  event_tag_bits = high / 2 ^ 20 % 8;
  packing = if high / 2 ^ 31 == 0 then processing else link;
  kind = kind_of (high / 2 ^ 29 % 4);
  repeating = repeating_of (bit high 23) (low / 2 ^ 16 + 1);
  vector_size = low % 2 ^ 16 + 1;
  repeat_count = low / 2 ^ 16 + 1;
}

abbrev pub ieee_bits : ℕ → ℕ
ieee_bits code = if code == 13 then 16 else if code == 14 then 32 else 64

abbrev pub ieee_format : ℕ → Format
ieee_format code = if code == 13 then binary16 else if code == 14 then binary32 else binary64

abbrev pub spec_of : Kind → ℕ → ℕ → ℕ → NumericSpec
spec_of kind bits fractional exponent = record {
  kind = kind;
  bits = bits;
  fractional_bits = fractional;
  exponent_bits = exponent;
}

-- The numeric format of a code that is not an IEEE one.
unfoldable pub numeric_of : SignalDomain → ℕ → ℕ → ℕ → Result NumericSpec
numeric_of domain code frac bits =
    if code == 0 || code == 16
    then ok (spec_of (if code == 0 then signed_fixed else unsigned_fixed) bits 0 0)
    else if (leb 1 code && leb code 6) || (leb 17 code && leb code 22)
    then ok (spec_of (if ltb code 16 then signed_vrt else unsigned_vrt) bits 0 (code % 16))
    else if code == 7 || code == 23
    then (if is_time domain
        then err (error invalid_argument)
        else ok (
            spec_of (if code == 7 then signed_non_normalized else unsigned_non_normalized) bits frac
              0))
    else err (error unsupported_layout)

unfoldable pub number_of : SignalDomain → ℕ → ℕ → ℕ → Result NumberFormat
unfolding numeric_of
number_of domain code frac bits =
    if code == 13 || code == 14 || code == 15
    then (if not (bits == ieee_bits code) || not (frac == 0)
        then err (error invalid_argument)
        else ok (ieee (ieee_format code)))
    else (numeric_of domain code frac bits >>= λ n.
        guard (not (not (code == 7) && not (code == 23) && not (frac == 0)))
          (error invalid_argument)
        >> (decode_exact n 0 >>= λ _. ok (numeric n)))

abbrev pub is_real : SampleKind → Bool
is_real real = true
is_real cartesian = false
is_real polar = false
is_real unknown_kind = false

unfoldable pub descriptor : ℕ → SignalDomain → Result Descriptor
unfolding packing_of number_of
descriptor wire domain =
    let high = wire / 2 ^ 32 in
    let code = high / 2 ^ 24 % 32 in
    let frac = high / 2 ^ 12 % 16 in
    let p = packing_of high (wire % 2 ^ 32) in
    guard (known_domain domain) (error invalid_argument)
    >> (guard (not (high / 2 ^ 29 % 4 == 3)) (error invalid_argument)
        >> (guard (not (bit high 23 && p.repeat_count == 1)) (error invalid_argument)
            >> (measure p 0 default_limits >>= λ _.
                number_of domain code frac p.item_bits >>= λ number.
                guard
                  (not (
                    is_log_power domain
                    && (not (is_real p.kind)
                        || ltb 16 p.item_bits
                        || (not (code == 0) && not (code == 7) && not (code == 23)))))
                  (error invalid_argument)
                >> ok (record { wire = wire; packing = p; number = number; domain = domain }))))

abbrev pub angle_unit : NumberFormat → ComponentUnit
angle_unit (ieee f) = radians
angle_unit (numeric n) = elim n.kind [
  | Kind.signed_non_normalized ↦ unspecified
  | Kind.unsigned_non_normalized ↦ unspecified
  | Kind.signed_fixed ↦ pi_multiple
  | Kind.signed_vrt ↦ pi_multiple
  | _ ↦ two_pi_multiple
]

abbrev pub is_polar : SampleKind → Bool
is_polar real = false
is_polar cartesian = false
is_polar polar = true
is_polar unknown_kind = false

unfoldable pub component_unit : Descriptor → ℕ → Result ComponentUnit
component_unit d index =
    if leb (if is_real d.packing.kind then 1 else 2) index
    then err (error invalid_argument)
    else if is_log_power d.domain
    then ok decibels
    else if not (is_polar d.packing.kind) || not (index == 1)
    then ok dimensionless
    else ok (angle_unit d.number)

pub data PadReporting : Type 0 where
  omitted_by_class exact allow_zero_when_implied unknown_policy : PadReporting

pub record PaddingEvidence : Type 0 where
  pub policy : PadReporting
  pub class_id_pad_bits : Option ℕ

pub record PayloadBinding : Type 0 where
  pub structures : ℕ
  pub padding : PaddingEvidence

abbrev pub reported_well : Bool → ℕ → ℕ → Option ℕ → Bool
reported_well zero_allowed padding item_bits none = false
reported_well zero_allowed padding item_bits (some pad) =
    not (ltb 31 pad) && (pad == padding || (zero_allowed && pad == 0 && ltb padding item_bits))

abbrev pub evidence_holds : PaddingEvidence → ℕ → ℕ → Bool
evidence_holds e padding item_bits = elim e.policy [
  | omitted_by_class ↦ not (has_value e.class_id_pad_bits)
  | exact ↦ reported_well false padding item_bits e.class_id_pad_bits
  | allow_zero_when_implied ↦ reported_well true padding item_bits e.class_id_pad_bits
  | unknown_policy ↦ false
]

unfoldable pub measure_payload : Descriptor → PayloadBinding → Limits → Result Shape
unfolding bit_offset
measure_payload d binding limits = measure d.packing binding.structures limits >>= λ shape.
    let last =
      (if shape.items == 0
        then 0
        else add64 (bit_offset d.packing (shape.items - 1)) d.packing.packing_bits) in
    guard (evidence_holds binding.padding (sub64 (mul64 shape.bytes 8) last) d.packing.item_bits)
      (error invalid_argument)
    >> ok shape

unfoldable pub contiguous : List ℕ → Descriptor → PayloadBinding → Limits → Result PackedSamples
contiguous bytes d binding limits =
    measure_payload d binding limits >>= λ shape. create bytes d.packing binding.structures limits
