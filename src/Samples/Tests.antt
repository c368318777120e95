-- ===== src/Samples/Tests.antt =====
-- The sample payloads at concrete inputs.
use vrt_framework.Prelude.{
  none, ℕ, ◌+◌, ◌*◌, ◌^◌, ◌≡◌, refl, true, false, none, List, [], ◌∷◌, arith, take, replicate,
}
use vrt_framework.Core.Error.{ok, ◌>>=◌}
use vrt_framework.Samples.Packing.{
  link, processing, cartesian, component, unrepeated, PackingSpec, Item, default_limits,
  PackedSamples, measure, pack, create, item_at, coordinates, index_of,
}
use vrt_framework.Samples.Iq
use vrt_framework.Samples.Iq.{int16, Iq, pack_iq, sample_at}
use vrt_framework.Samples.Iq.RoundTrip.{sample_at-pack_iq}
use vrt_framework.Prelude.Int.{pos, negsuc, ◌-ℤ◌}
use vrt_framework.Samples.Numeric.{
  BinaryValue, NumericSpec, ConversionPolicy, signed_fixed, exact_only, nearest_ties_even, saturate,
  lowest_exponent, quantum, compare, quantize, decode_exact, encode_nonzero, encode_numeric,
}
use vrt_framework.Samples.Numeric.Rounded.{Quantizes, quantize_lem}
use vrt_framework.Samples.Numeric.Encoded.{IsEncoded, encode_numeric-IsEncoded}
use vrt_framework.Samples.Descriptor.{
  SignalDomain, Descriptor, descriptor, numeric, PayloadBinding, omitted_by_class, contiguous,
}
use vrt_framework.Samples.Segmented
use vrt_framework.Samples.Segmented.{Piece}
use vrt_framework.Samples.Segmented.Agreement.{item_at-joined}
use vrt_framework.Samples.Packing.RoundTrip.{item_at-pack}
use vrt_framework.Samples.Packing.Places.{index_of-coordinates}

abbrev tagged : PackingSpec
tagged = record {
  item_bits = 10;
  packing_bits = 14;
  channel_tag_bits = 2;
  event_tag_bits = 1;
  packing = link;
  kind = cartesian;
  repeating = unrepeated;
  vector_size = 1;
  repeat_count = 1;
}

abbrev two_items : List Item
two_items =
    record { data_bits = 600; channel_tag = 3; event_tag = 1 }
    ∷ (record { data_bits = 77; channel_tag = 0; event_tag = 1 } ∷ [])

abbrev room : List ℕ
room = 1 ∷ 2 ∷ 3 ∷ 4 ∷ 5 ∷ []

packed_bytes :
    (pack tagged 1 two_items room 1000 2000 default_limits).0 ≡ 150 ∷ 28 ∷ 77 ∷ 64 ∷ 5 ∷ []
unfolding pack
packed_bytes = refl

item_at-pack_example :
    (create
        (take 4 (pack tagged 1 two_items room 1000 2000 default_limits).0)
        tagged
        1
        default_limits
      >>= λ view. item_at view 1)
    ≡ ok (record { data_bits = 77; channel_tag = 0; event_tag = 1 })
unfolding pack
item_at-pack_example =
    item_at-pack tagged 1 two_items room 1000 2000 default_limits 4 1 _ refl (omega arith) refl

abbrev repeated : PackingSpec
repeated = record {
  item_bits = 8;
  packing_bits = 8;
  channel_tag_bits = 0;
  event_tag_bits = 0;
  packing = processing;
  kind = cartesian;
  repeating = component;
  vector_size = 2;
  repeat_count = 3;
}

abbrev view : PackedSamples
view = record {
  bytes = 1 ∷ 2 ∷ 3 ∷ 4 ∷ 5 ∷ 6 ∷ 7 ∷ 8 ∷ 9 ∷ 10 ∷ 11 ∷ 12 ∷ [];
  spec = repeated;
  shape = record { structures = 1; items_per_structure = 12; items = 12; bytes = 12 };
}

index_of-coordinates_example : (coordinates view 7 >>= index_of view) ≡ ok 7
unfolding create
index_of-coordinates_example =
    index_of-coordinates view.bytes repeated 1 default_limits view 7 refl (omega arith)

abbrev pairs : List Iq
pairs = record { i = 1; q = 65535 } ∷ (record { i = 258; q = 3 } ∷ [])

sample_at-pack_iq_example :
    (Iq.create int16 (take 8 (pack_iq int16 pairs (replicate 10 7) 100 200).0) >>= λ v.
    sample_at int16 v 1)
    ≡ ok (record { i = 258; q = 3 })
unfolding pack_iq
sample_at-pack_iq_example =
    sample_at-pack_iq int16 pairs (replicate 10 7) 100 200 8 1 _ refl (omega arith) refl

abbrev five : BinaryValue
five = record { magnitude = 5; exponent = pos 0; negative = false }

quantize_lem_example :
    Quantizes nearest_ties_even false 5
      (five.exponent -ℤ pos 1)
      (quantize five (pos 1) nearest_ties_even)
unfolding quantize
quantize_lem_example = quantize_lem five (pos 1) nearest_ties_even (omega arith) refl

-- A signed byte holds the multiples of 1/128 from -1 on.
abbrev fixed_byte : NumericSpec
fixed_byte = record { kind = signed_fixed; bits = 8; fractional_bits = 0; exponent_bits = 0 }

decode_minus_one :
    decode_exact fixed_byte 128 ≡ ok (record { magnitude = 1; exponent = pos 0; negative = true })
unfolding decode_exact
decode_minus_one = refl

abbrev exact : ConversionPolicy
exact = record {
  precision = exact_only;
  rounding = nearest_ties_even;
  overflow = saturate;
  vrt_encoding = lowest_exponent;
}

abbrev minus_three_quarters : BinaryValue
minus_three_quarters = record { magnitude = 3; exponent = negsuc 1; negative = true }

encode_numeric-IsEncoded_example :
    IsEncoded fixed_byte exact (record { bits = 160; rounded = false; saturated = false })
unfolding encode_numeric encode_nonzero quantum compare quantize
encode_numeric-IsEncoded_example =
    encode_numeric-IsEncoded fixed_byte minus_three_quarters exact _ refl

-- A cartesian format of 10-bit items with tags, with the code of a signed fixed-point number.
abbrev described : Descriptor
described = record {
  wire = 2 ^ 32 * (2 ^ 31 + 2 ^ 29 + 2 ^ 20 + 2 ^ 17 + 13 * 2 ^ 6 + 9);
  packing = tagged;
  number =
      numeric (record { kind = signed_fixed; bits = 10; fractional_bits = 0; exponent_bits = 0 });
  domain = SignalDomain.time;
}

described_wire : descriptor described.wire SignalDomain.time ≡ ok described
unfolding descriptor measure decode_exact
described_wire = refl

abbrev one_structure : PayloadBinding
one_structure = record {
  structures = 1;
  padding = record { policy = omitted_by_class; class_id_pad_bits = none };
}

abbrev pieces : List Piece
pieces =
    record { address = 100; content = 150 ∷ [] }
    ∷ (record { address = 7; content = [] }
        ∷ (record { address = 300; content = 28 ∷ 77 ∷ 64 ∷ [] } ∷ []))

item_at-joined_example :
    (Segmented.create 8 pieces described one_structure default_limits >>= λ v.
    Segmented.item_at v 1)
    ≡ (contiguous (150 ∷ 28 ∷ 77 ∷ 64 ∷ []) described one_structure default_limits >>= λ w.
        item_at w 1)
item_at-joined_example =
    item_at-joined 8 pieces described one_structure default_limits 1 (omega arith) (omega arith)
      (omega arith)
