-- ===== src/Transport/Tests.antt =====
-- include/vita/runtime/transport: a packet in two chunks.
use vrt_framework.Prelude.{
  ℕ, ◌≡◌, refl, inl, inr, true, false, none, some, List, [], ◌∷◌, ◌++◌, arith, ◌==◌, if◌then◌else◌,
  length, take, drop,
}
use vrt_framework.Core.Error.{
  error, error_needs, invalid_argument, short_input, invalid_state, Result, ok, err, done,
}
use vrt_framework.Codec.Words.{load32}
use vrt_framework.Codec.Measure.{measure_envelope}
use vrt_framework.Codec.Decode.{EnvelopeView, decode_envelope}
use vrt_framework.Transport.Framer.{
  StreamFramer, target, reconnect, disconnect, inspect_header, bad_limits, accepted, deliver,
  inspected, absorb, feed_loop, feed,
}
use vrt_framework.Transport.Framer.Bytewise.{IsFramer, bytewise, feed-bytewise}
use vrt_framework.Transport.Framer.Chunks.{counted, feed-append, feed-append_err}
use vrt_framework.Transport.Framer.Delivery.{idle, stream, Packets, feed-Packets}
use vrt_framework.Transport.Framer.Connection.{disconnect_lem}
use vrt_framework.Transport.Framing.{inspect}
use vrt_framework.Transport.Framing.Copies.{readable, joined}
use vrt_framework.Transport.Framing.Inspect.{Agrees, inspect-Agrees}

-- A context packet of stream 7 without a payload.
abbrev packet : List ℕ
packet = 0x40 ∷ 0 ∷ 0 ∷ 2 ∷ 0 ∷ 0 ∷ 0 ∷ 7 ∷ []

abbrev seen : EnvelopeView
seen = record {
  envelope = record {
    type = 4;
    packet_count = 0;
    stream_id = some 7;
    class_id = none;
    timestamp = record { tsi = 0; tsf = 0; integer = 0; fractional = 0 };
    trailer = false;
    nd0 = false;
    spectrum = false;
    tsm = false;
    ack = false;
    cancel = false;
    command = none;
  };
  payload = [];
  trailer = none;
  payload_offset = 8;
  wire = packet;
}

packet_lem : decode_envelope packet ≡ ok seen
unfolding decode_envelope load32 measure_envelope
packet_lem = refl

-- A sink that keeps the packets, the last one first.
abbrev keep : List (List ℕ) → List ℕ → List (List ℕ) × Result (Unit {0})
keep s w = (w ∷ s, done)

limits_lem : bad_limits (idle 64 32) ≡ false
unfolding bad_limits
limits_lem = refl

idle-IsFramer : IsFramer (idle 64 32)
idle-IsFramer = record {
  is_open = refl;
  limits = limits_lem;
  waiting = omega arith;
  sized = inl refl;
}

feed-bytewise_example :
    feed (some keep) (idle 64 32) [] (1 ∷ 2 ∷ [])
    ≡ some (bytewise keep (idle 64 32) [] (1 ∷ 2 ∷ []) 0)
feed-bytewise_example = feed-bytewise keep (idle 64 32) [] (1 ∷ 2 ∷ []) idle-IsFramer

abbrev partial : StreamFramer
partial = record {
  capacity = 64;
  maximum_packet_bytes = 32;
  buffer = take 5 packet;
  expected = 8;
  closed = false;
}

first_lem : feed (some keep) (idle 64 32) [] (take 5 packet) ≡ some (partial, [], ok 0)
unfolding feed bad_limits feed_loop absorb inspected inspect_header load32
first_lem = refl

second_lem : feed (some keep) partial [] (drop 5 packet) ≡ some (idle 64 32, packet ∷ [], ok 1)
unfolding feed bad_limits feed_loop absorb inspected inspect_header load32 deliver accepted
    decode_envelope measure_envelope
second_lem = refl

feed-append_example :
    feed (some keep) (idle 64 32) [] (take 5 packet ++ drop 5 packet)
    ≡ some (counted keep 0 (idle 64 32, packet ∷ [], ok 1))
feed-append_example =
    feed-append keep (idle 64 32) partial [] [] (take 5 packet) (drop 5 packet) 0
      (idle 64 32, packet ∷ [], ok 1) idle-IsFramer first_lem second_lem

abbrev closed_framer : StreamFramer
closed_framer = record (idle 64 32) { closed = true }

bad_lem :
    feed (some keep) (idle 64 32) [] (0xff ∷ 0 ∷ 0 ∷ 1 ∷ [])
    ≡ some (closed_framer, [], err (error invalid_argument))
unfolding feed bad_limits feed_loop absorb inspected inspect_header load32
bad_lem = refl

feed-append_err_example :
    (feed (some keep) (idle 64 32) [] ((0xff ∷ 0 ∷ 0 ∷ 1 ∷ []) ++ packet)
      ≡ some (closed_framer, [], err (error invalid_argument)))
    × (true ≡ true)
    × (closed_framer.buffer ≡ [])
feed-append_err_example =
    feed-append_err keep (idle 64 32) closed_framer [] [] (0xff ∷ 0 ∷ 0 ∷ 1 ∷ []) packet
      (error invalid_argument) idle-IsFramer bad_lem

two-Packets : Packets 32 (packet ∷ packet ∷ [])
two-Packets = (seen, packet_lem, omega arith, (seen, packet_lem, omega arith, tt))

feed-Packets_example :
    feed (some keep) (idle 64 32) [] (stream (packet ∷ packet ∷ []))
    ≡ some (idle 64 32, packet ∷ packet ∷ [], ok 2)
feed-Packets_example =
    feed-Packets keep 64 32 (packet ∷ packet ∷ []) [] (packet ∷ packet ∷ []) limits_lem two-Packets
      refl

partial-IsFramer : IsFramer partial
unfolding bad_limits
partial-IsFramer = record {
  is_open = refl;
  limits = refl;
  waiting = omega arith;
  sized = inr (omega arith);
}

disconnect_lem_example :
    ((disconnect partial).1 ≡ (
      if length partial.buffer == 0
      then done
      else err (error_needs short_input (length partial.buffer) (target partial))))
    × ((disconnect partial).0.buffer ≡ [])
    × (feed (some keep) (disconnect partial).0 [] packet
        ≡ some ((disconnect partial).0, [], err (error invalid_state)))
    × IsFramer (reconnect (disconnect partial).0)
disconnect_lem_example = disconnect_lem (some keep) partial [] packet partial-IsFramer

-- The same packet in three segments, one of them empty.
abbrev segments : List (List ℕ)
segments = take 3 packet ∷ [] ∷ drop 3 packet ∷ []

inspect-Agrees_example :
    Agrees
      (inspect (record { byte_size = 8; parts = readable segments }))
      (decode_envelope (joined segments))
inspect-Agrees_example = inspect-Agrees segments
