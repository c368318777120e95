-- ===== src/Codec/Tests.antt =====
-- include/vita/codec/wire.hpp: a command packet and a data packet, encoded and decoded.
use vrt_framework.Prelude.{
  ℕ, ◌≡◌, refl, true, false, none, some, List, [], ◌∷◌, arith, take, replicate,
}
use vrt_framework.Core.Error.{error, invalid_argument, Result, ok, err}
use vrt_framework.Codec.Words.{load32}
use vrt_framework.Codec.Envelope.{Envelope}
use vrt_framework.Codec.Measure.{measure_envelope}
use vrt_framework.Codec.Encode.{encode_envelope}
use vrt_framework.Codec.Decode.{decode_envelope}
use vrt_framework.Codec.RoundTrip.Packet.{IsEnvelope}
use vrt_framework.Codec.RoundTrip.Decoded.{view, decode_envelope-encode_envelope}

abbrev data_packet : Envelope
data_packet = record {
  type = 1;
  packet_count = 5;
  stream_id = some 0x12345678;
  class_id =
      some (record { oui = 0xabcdef; information_class = 2; packet_class = 3; pad_bits = 4 });
  timestamp = record { tsi = 1; tsf = 2; integer = 1000; fractional = 500000000000 };
  trailer = true;
  nd0 = true;
  spectrum = false;
  tsm = false;
  ack = false;
  cancel = false;
  command = none;
}

data_packet-IsEnvelope : IsEnvelope data_packet
data_packet-IsEnvelope = record {
  stream_fits = (omega arith, tt);
  class_fits = record {
    oui_fits = omega arith;
    information_fits = omega arith;
    packet_fits = omega arith;
    pad_fits = omega arith;
  };
  integer_fits = omega arith;
  integer_unsent = λ e. omega (arith, e);
  fraction_fits = omega arith;
  fraction_unsent = λ e. omega (arith, e);
  command_fits = tt;
}

abbrev sent : Result (ℕ × List ℕ)
sent = encode_envelope data_packet (1 ∷ 2 ∷ 3 ∷ 4 ∷ []) (some 7) (replicate 44 9)

abbrev sent_bytes : List ℕ
sent_bytes =
    0x1e
    ∷ 0x65
    ∷ 0
    ∷ 9
    ∷ 0x12
    ∷ 0x34
    ∷ 0x56
    ∷ 0x78
    ∷ 0x20
    ∷ 0xab
    ∷ 0xcd
    ∷ 0xef
    ∷ 0
    ∷ 2
    ∷ 0
    ∷ 3
    ∷ 0
    ∷ 0
    ∷ 3
    ∷ 0xe8
    ∷ 0
    ∷ 0
    ∷ 0
    ∷ 0x74
    ∷ 0x6a
    ∷ 0x52
    ∷ 0x88
    ∷ 0
    ∷ 1
    ∷ 2
    ∷ 3
    ∷ 4
    ∷ 0
    ∷ 0
    ∷ 0
    ∷ 7
    ∷ replicate 8 9

sent_lem : sent ≡ ok (36, sent_bytes)
unfolding encode_envelope measure_envelope
sent_lem = refl

decode_envelope-encode_envelope_example :
    decode_envelope (take 36 sent_bytes)
    ≡ ok (view data_packet (1 ∷ 2 ∷ 3 ∷ 4 ∷ []) (some 7) (take 36 sent_bytes))
decode_envelope-encode_envelope_example =
    decode_envelope-encode_envelope data_packet (1 ∷ 2 ∷ 3 ∷ 4 ∷ []) (some 7) (replicate 44 9)
      sent_bytes 36 data_packet-IsEnvelope (omega arith) (omega arith) sent_lem

-- A reserved bit of a context packet is refused.
reserved_context : decode_envelope (0x44 ∷ 0 ∷ 0 ∷ 1 ∷ []) ≡ err (error invalid_argument)
unfolding decode_envelope load32
reserved_context = refl
