-- ===== src/Samples/Segmented.antt =====
-- include/vita/codec/segmented_samples.hpp: samples in a payload whose bytes stand in several pieces. A piece
-- with the address 0 is a null pointer with a size.
pub mod Agreement
use vrt_framework.Prelude.{
  ℕ, zero, suc, ◌+◌, ◌-◌, ◌*◌, ◌/◌, ◌%◌, ◌^◌, ◌≤◌, ◌<◌, min, max, bit_and, bit_or, ◌≡◌, refl, sym,
  ap, ◌∙◌, subst, ◌≢◌, ◌↔◌, ◌⊎◌, inl, inr, Bool, true, false, ◌&&◌, ◌||◌, not, Option, none, some,
  List, [], ◌∷◌, ◌++◌, append-nil, append_assoc, arith, ltb, leb, ◌==◌, if◌then◌else◌, ltb→lt,
  lt→ltb, leb→le, ==_iff, ==_refl, Bool-cases, Option-cases, some-injective, if-both, has_value,
  eq_option, eq_bool, u64_max, add64, sub64, mul64, bit, length, get_elem?, get_or, set, take, drop,
  replicate, length-append, length-set, get_elem?-set_self, get_elem?-set_ne, take-append-drop,
  length-take, length-drop, length-replicate, drop-append, take-append,
}
use vrt_framework.Core.Error.{
  ErrorCode, Error, error, error_at, error_needs, invalid_argument, unsupported_layout,
  unsupported_capability, overflow, short_input, short_output, capacity_exhausted, stale_generation,
  invalid_state, callback_failure, no_cpu_access, resource_limit, identity_conflict, Result, ok,
  err, ◌>>=◌, ◌>>◌, guard, done, is_ok, >>=-eq-ok, Result-cases, ok-injective, guard-eq-ok,
  >>-eq-ok,
}
use vrt_framework.Samples.Packing.{
  PackingSpec, Limits, Shape, Item, bit_offset, channel_tag_at, event_tag_at,
}
use vrt_framework.Samples.Descriptor.{Descriptor, PayloadBinding, measure_payload}

pub record Piece : Type 0 where
  pub address : ℕ
  pub content : List ℕ

-- `end` is where the segment ends in the payload.
pub record Segment : Type 0 where
  pub bytes : List ℕ
  pub last : ℕ

pub record SegmentedSamples : Type 0 where
  pub segments : List Segment
  pub descriptor : Descriptor
  pub shape : Shape

-- The loop of `byte`: the segment begins at `begin`.
abbrev pub byte_from : ℕ → List Segment → ℕ → ℕ
byte_from begin [] offset = 0
byte_from begin (s ∷ ss) offset =
    if ltb offset s.last then get_or s.bytes (offset - begin) 0 else byte_from s.last ss offset

unfoldable pub byte : SegmentedSamples → ℕ → ℕ
byte v offset = byte_from 0 v.segments offset

abbrev pub read_from : SegmentedSamples → ℕ → ℕ → ℕ → ℕ
read_from v k zero value = value
read_from v k (suc n) value =
    read_from v (add64 k 1) n (value * 2 % 2 ^ 64 + byte v (k / 8) / 2 ^ (7 - k % 8) % 2)

unfoldable pub read : SegmentedSamples → ℕ → ℕ → ℕ
unfolding byte
read v offset width = read_from v offset width 0

-- The loop over the pieces: the segments, and the extent of all of them.
abbrev pub collect : ℕ → List Piece → Result (List Segment × ℕ)
collect extent [] = ok ([], extent)
collect extent (p ∷ ps) =
    let skipped = collect extent ps in
    let rest = collect (add64 extent (length p.content)) ps in
    if length p.content == 0
    then skipped
    else if p.address == 0
    then err (error invalid_argument)
    else if ltb (sub64 u64_max extent) (length p.content)
    then err (error overflow)
    else (rest >>= λ r.
        ok (record { bytes = p.content; last = add64 extent (length p.content) } ∷ r.0, r.1))

-- `create`, for a capacity of `max_segments`.
unfoldable pub create :
    ℕ → List Piece → Descriptor → PayloadBinding → Limits → Result SegmentedSamples
create max_segments pieces d binding limits =
    guard (not (ltb max_segments (length pieces))) (error_needs resource_limit 0 (length pieces))
    >> (measure_payload d binding limits >>= λ shape. collect 0 pieces >>= λ r.
        guard (not (ltb r.1 shape.bytes)) (error_needs short_input 0 shape.bytes)
        >> (guard (r.1 == shape.bytes) (error invalid_argument)
            >> ok (record { segments = r.0; descriptor = d; shape = shape })))

abbrev pub read_item : PackingSpec → SegmentedSamples → ℕ → Item
read_item p v offset = record {
  data_bits = read v offset p.item_bits;
  channel_tag = read v (channel_tag_at p offset) p.channel_tag_bits;
  event_tag = read v (event_tag_at p offset) p.event_tag_bits;
}

-- `at`
unfoldable pub item_at : SegmentedSamples → ℕ → Result Item
unfolding bit_offset
item_at v index =
    if leb v.shape.items index
    then err (error_at invalid_argument index)
    else ok (read_item v.descriptor.packing v (bit_offset v.descriptor.packing index))
