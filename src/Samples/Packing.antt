-- ===== src/Samples/Packing.antt =====
-- include/vita/codec/general_samples.hpp: samples as items of a fixed number of bits, with their channel
-- and event tags, packed into 32-bit words. A value of an enumeration that is none of its enumerators is
-- the last constructor of its type. Addresses, which only the test for an overlap reads, are numbers.
pub mod Extents
pub mod RoundTrip
pub mod Places
use vrt_framework.Prelude.{
  ℕ, zero, suc, ◌+◌, ◌-◌, ◌*◌, ◌/◌, ◌%◌, ◌^◌, ◌≤◌, ◌<◌, min, max, bit_and, bit_or, ◌≡◌, refl, sym,
  ap, ◌∙◌, subst, ◌≢◌, ◌↔◌, ◌⊎◌, inl, inr, Bool, true, false, ◌&&◌, ◌||◌, not, Option, none, some,
  List, [], ◌∷◌, ◌++◌, append-nil, append_assoc, arith, ltb, leb, ◌==◌, if◌then◌else◌, ltb→lt,
  lt→ltb, leb→le, ==_iff, ==_refl, Bool-cases, Option-cases, some-injective, if-both, has_value,
  eq_option, eq_bool, u64_max, add64, sub64, mul64, bit, length, get_elem?, get_or, set, take, drop,
  replicate, length-append, length-set, get_elem?-set_self, get_elem?-set_ne, take-append-drop,
  length-take, length-drop, length-replicate, drop-append, take-append,
}
use vrt_framework.Core.Error.{
  ErrorCode, Error, error, error_at, error_needs, invalid_argument, unsupported_layout,
  unsupported_capability, overflow, short_input, short_output, capacity_exhausted, stale_generation,
  invalid_state, callback_failure, no_cpu_access, resource_limit, identity_conflict, Result, ok,
  err, ◌>>=◌, ◌>>◌, guard, done, is_ok, >>=-eq-ok, Result-cases, ok-injective, guard-eq-ok,
  >>-eq-ok,
}
use vrt_framework.Samples.Bits.{read_bits, write_bits}

pub data PackingMode : Type 0 where
  link processing unknown_mode : PackingMode

pub data SampleKind : Type 0 where
  real cartesian polar unknown_kind : SampleKind

pub data RepeatMode : Type 0 where
  unrepeated component channel unknown_repeat : RepeatMode

pub record PackingSpec : Type 0 where
  pub item_bits : ℕ
  pub packing_bits : ℕ
  pub channel_tag_bits : ℕ
  pub event_tag_bits : ℕ
  pub packing : PackingMode
  pub kind : SampleKind
  pub repeating : RepeatMode
  pub vector_size : ℕ
  pub repeat_count : ℕ

pub record Limits : Type 0 where
  pub max_items : ℕ
  pub max_bytes : ℕ

abbrev pub default_limits : Limits
default_limits = record { max_items = 4096; max_bytes = 65535 * 4 }

pub record Shape : Type 0 where
  pub structures : ℕ
  pub items_per_structure : ℕ
  pub items : ℕ
  pub bytes : ℕ

pub record Item : Type 0 where
  pub data_bits : ℕ
  pub channel_tag : ℕ
  pub event_tag : ℕ

pub record Coordinates : Type 0 where
  pub structure : ℕ
  pub time : ℕ
  pub channel : ℕ
  pub component : ℕ

abbrev pub components : SampleKind → ℕ
components real = 1
components cartesian = 2
components polar = 2
components unknown_kind = 2

unfoldable pub multiply : ℕ → ℕ → Result ℕ
multiply a b = if not (a == 0) && ltb (u64_max / a) b then err (error overflow) else ok (mul64 a b)

abbrev pub fits : ℕ → ℕ → Bool
fits v bits = bits == 64 || v / 2 ^ bits == 0

abbrev pub known_mode : PackingMode → Bool
known_mode link = true
known_mode processing = true
known_mode unknown_mode = false

abbrev pub is_known_kind : SampleKind → Bool
is_known_kind real = true
is_known_kind cartesian = true
is_known_kind polar = true
is_known_kind unknown_kind = false

abbrev pub known_repeat : RepeatMode → Bool
known_repeat unrepeated = true
known_repeat component = true
known_repeat channel = true
known_repeat unknown_repeat = false

-- The items need no repetition if there is none, and only pairs of components are repeated apart.
abbrev pub repeats_well : RepeatMode → SampleKind → ℕ → Bool
repeats_well unrepeated kind count = count == 1
repeats_well component real count = false
repeats_well component kind count = true
repeats_well channel kind count = true
repeats_well unknown_repeat kind count = true

abbrev pub wide_processing : PackingMode → ℕ → Bool
wide_processing processing bits = ltb 32 bits
wide_processing link bits = false
wide_processing unknown_mode bits = false

abbrev pub bad_widths : PackingSpec → Bool
bad_widths s =
    s.item_bits == 0
    || ltb 64 s.item_bits
    || s.packing_bits == 0
    || ltb 64 s.packing_bits
    || ltb 15 s.channel_tag_bits
    || ltb 7 s.event_tag_bits
    || ltb s.packing_bits (s.item_bits + s.channel_tag_bits + s.event_tag_bits)
    || s.vector_size == 0
    || ltb 65535 s.vector_size
    || s.repeat_count == 0
    || ltb 65536 s.repeat_count

unfoldable pub validate : PackingSpec → Result (Unit {0})
validate s =
    guard (known_mode s.packing) (error invalid_argument)
    >> (guard (is_known_kind s.kind) (error invalid_argument)
        >> (guard (known_repeat s.repeating) (error invalid_argument)
            >> (guard (not (bad_widths s)) (error invalid_argument)
                >> (guard (repeats_well s.repeating s.kind s.repeat_count) (error invalid_argument)
                    >> guard (not (wide_processing s.packing s.packing_bits))
                        (error unsupported_layout)))))

abbrev pub mode_offset : PackingMode → ℕ → ℕ → ℕ
mode_offset link packing_bits index = mul64 index packing_bits
mode_offset processing packing_bits index =
    let per = 32 / packing_bits in add64 (mul64 (index / per) 32) (mul64 (index % per) packing_bits)
mode_offset unknown_mode packing_bits index =
    let per = 32 / packing_bits in add64 (mul64 (index / per) 32) (mul64 (index % per) packing_bits)

unfoldable pub bit_offset : PackingSpec → ℕ → ℕ
bit_offset s index = mode_offset s.packing s.packing_bits index

unfoldable pub overlap : ℕ → ℕ → ℕ → ℕ → Bool
overlap x an y bn =
    if an == 0 || bn == 0 then false else if leb x y then ltb (y - x) an else ltb (x - y) bn

-- The 32-bit words that the items take.
abbrev pub mode_words : PackingMode → ℕ → ℕ → Result ℕ
mode_words link packing_bits items =
    multiply items packing_bits >>= λ bits. ok (bits / 32 + (if bits % 32 == 0 then 0 else 1))
mode_words processing packing_bits items =
    let per = 32 / packing_bits in ok (items / per + (if items % per == 0 then 0 else 1))
mode_words unknown_mode packing_bits items =
    let per = 32 / packing_bits in ok (items / per + (if items % per == 0 then 0 else 1))

-- `measure` from the number of items on.
unfoldable pub measure_items : PackingSpec → ℕ → ℕ → ℕ → Limits → Result Shape
unfolding multiply
measure_items s structures group items limits =
    guard (not (ltb limits.max_items items)) (error_needs resource_limit 0 items)
    >> (mode_words s.packing s.packing_bits items >>= λ words. multiply words 4 >>= λ bytes.
        multiply bytes 8 >>= λ bits.
        guard (not (ltb limits.max_bytes bytes)) (error_needs resource_limit 0 bytes)
        >> ok (record {
          structures = structures;
          items_per_structure = group;
          items = items;
          bytes = bytes;
        }))

unfoldable pub measure : PackingSpec → ℕ → Limits → Result Shape
unfolding validate measure_items
measure s structures limits =
    validate s
    >> (multiply s.vector_size s.repeat_count >>= λ samples.
        multiply samples (components s.kind) >>= λ group.
        multiply structures group >>= λ items. measure_items s structures group items limits)

pub record PackedSamples : Type 0 where
  pub bytes : List ℕ
  pub spec : PackingSpec
  pub shape : Shape

unfoldable pub create : List ℕ → PackingSpec → ℕ → Limits → Result PackedSamples
unfolding measure
create bytes spec structures limits = measure spec structures limits >>= λ shape.
    guard (not (ltb (length bytes) shape.bytes)) (error_needs short_input 0 shape.bytes)
    >> (guard (length bytes == shape.bytes) (error invalid_argument)
        >> ok (record { bytes = bytes; spec = spec; shape = shape }))

-- Where the tags of an item begin.
abbrev pub channel_tag_at : PackingSpec → ℕ → ℕ
channel_tag_at s bit = sub64 (add64 bit s.packing_bits) s.channel_tag_bits

abbrev pub event_tag_at : PackingSpec → ℕ → ℕ
event_tag_at s bit = sub64 (channel_tag_at s bit) s.event_tag_bits

abbrev pub read_item : PackingSpec → List ℕ → ℕ → Item
read_item s bytes bit = record {
  data_bits = read_bits bytes bit s.item_bits;
  channel_tag = read_bits bytes (channel_tag_at s bit) s.channel_tag_bits;
  event_tag = read_bits bytes (event_tag_at s bit) s.event_tag_bits;
}

-- `at`
unfoldable pub item_at : PackedSamples → ℕ → Result Item
unfolding bit_offset
item_at v index =
    if leb v.shape.items index
    then err (error_at invalid_argument index)
    else ok (read_item v.spec v.bytes (bit_offset v.spec index))

-- The coordinates of an item in its structure: with `c` components, `r` repetitions, vectors of size `v`.
abbrev pub local_coordinates : RepeatMode → ℕ → ℕ → ℕ → ℕ → ℕ → Coordinates
local_coordinates component structure c r v local =
    let linear = local / (c * r) * r + local % r in
    record {
      structure = structure;
      time = linear / v;
      channel = linear % v;
      component = local / r % c;
    }
local_coordinates channel structure c r v local = record {
  structure = structure;
  time = local / c % r;
  channel = local / (c * r);
  component = local % c;
}
local_coordinates unrepeated structure c r v local = record {
  structure = structure;
  time = 0;
  channel = local / c;
  component = local % c;
}
local_coordinates unknown_repeat structure c r v local = record {
  structure = structure;
  time = 0;
  channel = local / c;
  component = local % c;
}

unfoldable pub coordinates : PackedSamples → ℕ → Result Coordinates
coordinates p index =
    if leb p.shape.items index
    then err (error_at invalid_argument index)
    else ok (
        local_coordinates p.spec.repeating (index / p.shape.items_per_structure)
          (components p.spec.kind) p.spec.repeat_count p.spec.vector_size
          (index % p.shape.items_per_structure))

abbrev pub local_index : RepeatMode → ℕ → ℕ → ℕ → Coordinates → ℕ
local_index component c r v x =
    let linear = x.time * v + x.channel in (linear / r * c + x.component) * r + linear % r
local_index channel c r v x = (x.channel * r + x.time) * c + x.component
local_index unrepeated c r v x = x.channel * c + x.component
local_index unknown_repeat c r v x = x.channel * c + x.component

-- `index`
unfoldable pub index_of : PackedSamples → Coordinates → Result ℕ
index_of p x =
    if leb p.shape.structures x.structure
      || leb p.spec.repeat_count x.time
      || leb p.spec.vector_size x.channel
      || leb (components p.spec.kind) x.component
    then err (error invalid_argument)
    else ok (
        add64 (mul64 x.structure p.shape.items_per_structure) (
          local_index p.spec.repeating (components p.spec.kind) p.spec.repeat_count
            p.spec.vector_size x))

abbrev pub item_fits : PackingSpec → Item → Bool
item_fits s item =
    fits item.data_bits s.item_bits
    && fits item.channel_tag s.channel_tag_bits
    && fits item.event_tag s.event_tag_bits

abbrev pub all_fit : PackingSpec → List Item → Bool
all_fit s [] = true
all_fit s (item ∷ items) = item_fits s item && all_fit s items

unfoldable pub write_item : PackingSpec → List ℕ → ℕ → Item → List ℕ
write_item s bytes bit item =
    let data' = write_bits bytes bit s.item_bits item.data_bits in
    let tagged = write_bits data' (channel_tag_at s bit) s.channel_tag_bits item.channel_tag in
    write_bits tagged (event_tag_at s bit) s.event_tag_bits item.event_tag

abbrev pub write_items : PackingSpec → List ℕ → ℕ → List Item → List ℕ
write_items s bytes i [] = bytes
write_items s bytes i (item ∷ items) =
    write_items s (write_item s bytes (bit_offset s i) item) (i + 1) items

-- The output and the result; the output is left as it is where packing fails. An item takes 24 bytes.
abbrev pub packed : PackingSpec → List Item → List ℕ → ℕ → ℕ → Shape → List ℕ × Result ℕ
packed spec items output items_address output_address shape =
    if not (length items == shape.items)
    then (output, err (error invalid_argument))
    else if ltb (length output) shape.bytes
    then (output, err (error_needs short_output 0 shape.bytes))
    else if not (is_ok (multiply (length items) 24))
    then (output, err (error overflow))
    else if overlap items_address (mul64 (length items) 24) output_address shape.bytes
    then (output, err (error invalid_argument))
    else if not (all_fit spec items)
    then (output, err (error invalid_argument))
    else (
      write_items spec (replicate shape.bytes 0) 0 items ++ drop shape.bytes output,
      ok shape.bytes,
    )

abbrev pub with_shape : PackingSpec → List Item → List ℕ → ℕ → ℕ → Result Shape → List ℕ × Result ℕ
with_shape spec items output items_address output_address (err e) = (output, err e)
with_shape spec items output items_address output_address (ok shape) =
    packed spec items output items_address output_address shape

unfoldable pub pack : PackingSpec → ℕ → List Item → List ℕ → ℕ → ℕ → Limits → List ℕ × Result ℕ
unfolding measure multiply overlap write_item write_bits bit_offset
pack spec structures items output items_address output_address limits =
    with_shape spec items output items_address output_address (measure spec structures limits)
