-- ===== src/Codec/Decode.antt =====
-- include/vita/codec/wire.hpp: `decode_envelope`. The lambda `take` reads a word and returns the new
-- offset; a part of the packet is a function from the offset to its value and the offset behind it.
use vrt_framework.Prelude.{
  ℕ, ◌+◌, ◌-◌, ◌*◌, ◌/◌, ◌%◌, ◌^◌, Bool, true, false, ◌||◌, not, Option, none, some, List, ltb,
  ◌==◌, if◌then◌else◌, bit, length, take, drop,
}
use vrt_framework.Core.Error.{
  error, error_at, error_needs, invalid_argument, short_input, Result, ok, err, ◌>>=◌, ◌>>◌, done,
}
use vrt_framework.Codec.Words.{load32}
use vrt_framework.Codec.Envelope.{
  is_data, is_command, ClassId, Identifier, absent_id, Command, Envelope,
}
use vrt_framework.Codec.Measure.{has_sid, measure_envelope}

pub record Flags : Type 0 where
  pub trailer : Bool
  pub nd0 : Bool
  pub spectrum : Bool
  pub tsm : Bool
  pub ack : Bool
  pub cancel : Bool

-- The flag bits of a header word, by the type; bit 25 of a command and bit 26 of a context packet
-- are reserved.
unfoldable pub read_flags : ℕ → ℕ → Result Flags
read_flags type h =
    let b26 = bit h 26 in
    let b25 = bit h 25 in
    let b24 = bit h 24 in
    if is_data type
    then ok (record {
      trailer = b26;
      nd0 = b25;
      spectrum = b24;
      tsm = false;
      ack = false;
      cancel = false;
    })
    else if is_command type
    then (if b25
        then err (error invalid_argument)
        else ok (record {
          trailer = false;
          nd0 = false;
          spectrum = false;
          tsm = false;
          ack = b26;
          cancel = b24;
        }))
    else (if b26
        then err (error invalid_argument)
        else ok (record {
          trailer = false;
          nd0 = b25;
          spectrum = false;
          tsm = b24;
          ack = false;
          cancel = false;
        }))

-- Results of reading: the value and the offset behind it.
abbrev pub Read : Type 0 → Type 0
Read A = Result (A × ℕ)

-- The class identifier of its two words.
unfoldable pub class_of : ℕ → ℕ → ClassId
class_of a b = record {
  oui = a % 2 ^ 24;
  information_class = b / 2 ^ 16 % 2 ^ 16;
  packet_class = b % 2 ^ 16;
  pad_bits = a / 2 ^ 27 % 256;
}

module _ (wire : List ℕ) (size : ℕ) where
  unfoldable pub take_word : ℕ → Read ℕ
  take_word offset =
      if ltb size offset || ltb (size - offset) 4
      then err (error_needs short_input offset (offset + 4))
      else ok (load32 wire offset, offset + 4)

  unfoldable pub read_stream : ℕ → ℕ → Read (Option ℕ)
  read_stream type offset =
      if has_sid type then (take_word offset >>= λ v. ok (some v.0, v.1)) else ok (none, offset)

  unfoldable pub read_class : Bool → ℕ → Read (Option ClassId)
  unfolding class_of
  read_class false offset = ok (none, offset)
  read_class true offset = take_word offset >>= λ a. take_word a.1 >>= λ b.
      if a.0 / 2 ^ 24 % 8 == 0
      then ok (some (class_of a.0 b.0), b.1)
      else err (error_at invalid_argument (b.1 - 8))

  unfoldable pub read_integer : ℕ → ℕ → Read ℕ
  read_integer tsi offset = if tsi == 0 then ok (0, offset) else take_word offset

  unfoldable pub read_fraction : ℕ → ℕ → Read ℕ
  read_fraction tsf offset =
      if tsf == 0
      then ok (0, offset)
      else (take_word offset >>= λ a. take_word a.1 >>= λ b. ok (a.0 * 2 ^ 32 + b.0, b.1))

  unfoldable pub read_uuid : ℕ → Read Identifier
  read_uuid offset = take_word offset >>= λ a. take_word a.1 >>= λ b. take_word b.1 >>= λ c.
      take_word c.1 >>= λ d.
      ok (record { kind = 2; word_0 = a.0; word_1 = b.0; word_2 = c.0; word_3 = d.0 }, d.1)

  unfoldable pub read_short : ℕ → Read Identifier
  read_short offset = take_word offset >>= λ a.
      ok (record { kind = 1; word_0 = a.0; word_1 = 0; word_2 = 0; word_3 = 0 }, a.1)

  -- One of the two identifiers, with its enable and its type bit.
  unfoldable pub read_identifier : Bool → Bool → ℕ → Read Identifier
  unfolding read_uuid read_short
  read_identifier enable is_uuid offset =
      if enable
      then (if is_uuid then read_uuid offset else read_short offset)
      else ok (absent_id, offset)

  unfoldable pub read_command : ℕ → ℕ → Read (Option Command)
  unfolding read_identifier
  read_command type offset =
      if is_command type
      then (take_word offset >>= λ cam. take_word cam.1 >>= λ mid.
          read_identifier (bit cam.0 31) (bit cam.0 30) mid.1 >>= λ ee.
          read_identifier (bit cam.0 29) (bit cam.0 28) ee.1 >>= λ er. ok (
            some (record { cam = cam.0; message_id = mid.0; controllee = ee.0; controller = er.0 }),
            er.1,
          ))
      else ok (none, offset)

pub record EnvelopeView : Type 0 where
  pub envelope : Envelope
  pub payload : List ℕ
  pub trailer : Option ℕ
  pub payload_offset : ℕ
  pub wire : List ℕ

-- The prologue: every part in its order, and the offset behind it.
unfoldable pub read_prologue : List ℕ → ℕ → ℕ → Read Envelope
unfolding read_flags take_word read_stream read_class read_integer read_fraction read_command
read_prologue wire size h =
    let type = h / 2 ^ 28 in
    let tsi = h / 2 ^ 22 % 4 in
    let tsf = h / 2 ^ 20 % 4 in
    read_flags type h >>= λ f. read_stream wire size type 4 >>= λ s.
    read_class wire size (bit h 27) s.1 >>= λ c. read_integer wire size tsi c.1 >>= λ i.
    read_fraction wire size tsf i.1 >>= λ x. read_command wire size type x.1 >>= λ m. ok (
      record {
        type = type;
        packet_count = h / 2 ^ 16 % 16;
        stream_id = s.0;
        class_id = c.0;
        timestamp = record { tsi = tsi; tsf = tsf; integer = i.0; fractional = x.0 };
        trailer = f.trailer;
        nd0 = f.nd0;
        spectrum = f.spectrum;
        tsm = f.tsm;
        ack = f.ack;
        cancel = f.cancel;
        command = m.0;
      },
      m.1,
    )

abbrev pub trailer_size : Bool → ℕ
trailer_size b = if b then 4 else 0

-- The payload and the trailer behind the prologue, and the check of the whole envelope.
unfoldable pub view_of : List ℕ → ℕ → Envelope × ℕ → Result EnvelopeView
view_of wire size (e, offset) =
    if ltb size offset || ltb (size - offset) (trailer_size e.trailer)
    then err (error_needs short_input offset (offset + trailer_size e.trailer))
    else let payload = take (size - offset - trailer_size e.trailer) (drop offset wire) in
      measure_envelope e (length payload) >>= λ _. ok (record {
        envelope = e;
        payload = payload;
        trailer = if e.trailer then some (load32 wire (size - 4)) else none;
        payload_offset = offset;
        wire = wire;
      })

-- The checks of the header word against the extent of the input.
unfoldable pub check_extent : ℕ → ℕ → Result (Unit {0})
check_extent h extent =
    let size = h % 2 ^ 16 * 4 in
    if ltb 7 (h / 2 ^ 28) || size == 0
    then err (error invalid_argument)
    else if ltb extent size
    then err (error_needs short_input extent size)
    else if not (size == extent)
    then err (error_at invalid_argument size)
    else done

unfoldable pub decode_envelope : List ℕ → Result EnvelopeView
unfolding check_extent read_prologue view_of
decode_envelope wire =
    if ltb (length wire) 4
    then err (error_needs short_input 0 4)
    else (check_extent (load32 wire 0) (length wire)
        >> (read_prologue wire (length wire) (load32 wire 0) >>= view_of wire (length wire)))
