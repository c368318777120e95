-- ===== src/Codec/Encode.antt =====
-- include/vita/codec/wire.hpp: `encode_envelope`. The prologue's words are put one after the other
-- from offset 0 on, so that they are one write; the output is returned with the size.
use vrt_framework.Prelude.{
  ℕ, ◌+◌, ◌-◌, ◌*◌, ◌/◌, ◌%◌, ◌^◌, Bool, not, Option, none, some, List, [], ◌∷◌, ◌++◌, leb, ◌==◌,
  if◌then◌else◌, has_value, eq_bool, length,
}
use vrt_framework.Core.Error.{
  error, error_needs, invalid_argument, short_output, Result, ok, err, ◌>>=◌, ◌>>◌, guard,
}
use vrt_framework.Codec.Words.{all_bytes, write_at, store32}
use vrt_framework.Codec.Envelope.{
  is_data, is_command, Timestamp, ClassId, Identifier, Command, Envelope,
}
use vrt_framework.Codec.Measure.{measure_envelope}

abbrev pub flag : Bool → ℕ → ℕ
flag b k = if b then 2 ^ k else 0

-- The flags of the header word, by the kind of the packet.
unfoldable pub flag_bits : Envelope → ℕ
flag_bits e =
    if is_data e.type
    then flag e.trailer 26 + flag e.nd0 25 + flag e.spectrum 24
    else if is_command e.type
    then flag e.ack 26 + flag e.cancel 24
    else flag e.nd0 25 + flag e.tsm 24

-- The header word: the fields are joined by `|`, and as their bits are disjoint, by `+`.
unfoldable pub header_word : Envelope → ℕ → ℕ
unfolding flag_bits
header_word e size =
    e.type * 2 ^ 28
    + flag (has_value e.class_id) 27
    + flag_bits e
    + e.timestamp.tsi * 2 ^ 22
    + e.timestamp.tsf * 2 ^ 20
    + e.packet_count * 2 ^ 16
    + size / 4

abbrev pub stream_words : Option ℕ → List ℕ
stream_words none = []
stream_words (some s) = s ∷ []

abbrev pub class_words : Option ClassId → List ℕ
class_words none = []
class_words (some c) =
    (c.pad_bits * 2 ^ 27 + c.oui) ∷ (c.information_class * 2 ^ 16 + c.packet_class) ∷ []

abbrev pub integer_words : Timestamp → List ℕ
integer_words t = if t.tsi == 0 then [] else t.integer ∷ []

abbrev pub fraction_words : Timestamp → List ℕ
fraction_words t = if t.tsf == 0 then [] else (t.fractional / 2 ^ 32) ∷ (t.fractional % 2 ^ 32) ∷ []

abbrev pub id_words : Identifier → List ℕ
id_words id =
    if id.kind == 0
    then []
    else if id.kind == 1
    then id.word_0 ∷ []
    else id.word_0 ∷ id.word_1 ∷ id.word_2 ∷ id.word_3 ∷ []

abbrev pub command_body : Option Command → List ℕ
command_body none = []
command_body (some c) = c.cam ∷ c.message_id ∷ (id_words c.controllee ++ id_words c.controller)

-- What `put` writes, in order.
unfoldable pub prologue_words : Envelope → ℕ → List ℕ
unfolding header_word
prologue_words e size =
    header_word e size
    ∷ (stream_words e.stream_id
        ++ (class_words e.class_id
            ++ (integer_words e.timestamp
                ++ (fraction_words e.timestamp ++ command_body e.command))))

unfoldable pub put_trailer : Option ℕ → List ℕ → ℕ → ℕ × List ℕ
unfolding store32
put_trailer none output offset = (offset, output)
put_trailer (some t) output offset = (offset + 4, store32 output offset t)

-- The writes: the payload is moved first, then the words are put from offset 0 on; the trailer goes to
-- the offset where the words end plus the size of the payload.
unfoldable pub write_packet : Envelope → List ℕ → Option ℕ → List ℕ → ℕ → ℕ × List ℕ
unfolding prologue_words write_at put_trailer
write_packet e payload trailer output size =
    let payload_offset = size - length payload - (if e.trailer then 4 else 0) in
    let words = prologue_words e size in
    let moved = write_at output payload_offset payload in
    let headed = write_at moved 0 (all_bytes words) in
    put_trailer trailer headed (4 * length words + length payload)

unfoldable pub encode_envelope : Envelope → List ℕ → Option ℕ → List ℕ → Result (ℕ × List ℕ)
unfolding write_packet
encode_envelope e payload trailer output =
    if not (eq_bool e.trailer (has_value trailer)) then err (error invalid_argument) else do
      size ← measure_envelope e (length payload)
      guard (leb size (length output)) (error_needs short_output 0 size)
      ok (write_packet e payload trailer output size)
