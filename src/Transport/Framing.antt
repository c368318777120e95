-- ===== src/Transport/Framing.antt =====
-- include/vita/runtime/transport/framing.hpp: `inspect`, which reads the envelope of a packet whose bytes
-- stand in several segments, and copies no more of them than the prologue needs. The storage is given
-- by what the function reads of it: its size, and its segments, each of which may fail.
pub mod Copies
pub mod Agreement
pub mod Inspect
use vrt_framework.Prelude.{
  ℕ, zero, suc, ◌+◌, ◌-◌, ◌*◌, ◌/◌, ◌%◌, ◌^◌, ◌≤◌, ◌<◌, min, max, bit_and, bit_or, ◌≡◌, refl, sym,
  ap, ◌∙◌, subst, ◌≢◌, ◌↔◌, ◌⊎◌, inl, inr, Bool, true, false, ◌&&◌, ◌||◌, not, Option, none, some,
  List, [], ◌∷◌, ◌++◌, append-nil, append_assoc, arith, ltb, leb, ◌==◌, if◌then◌else◌, ltb→lt,
  lt→ltb, leb→le, ==_iff, ==_refl, Bool-cases, Option-cases, some-injective, if-both, has_value,
  eq_option, eq_bool, u64_max, add64, sub64, mul64, bit, length, get_elem?, get_or, set, take, drop,
  replicate, length-append, length-set, get_elem?-set_self, get_elem?-set_ne, take-append-drop,
  length-take, length-drop, length-replicate, drop-append, take-append,
}
use vrt_framework.Core.Error.{
  ErrorCode, Error, error, error_at, error_needs, invalid_argument, unsupported_layout,
  unsupported_capability, overflow, short_input, short_output, capacity_exhausted, stale_generation,
  invalid_state, callback_failure, no_cpu_access, resource_limit, identity_conflict, Result, ok,
  err, ◌>>=◌, ◌>>◌, guard, done, is_ok, >>=-eq-ok, Result-cases, ok-injective, guard-eq-ok,
  >>-eq-ok,
}
use vrt_framework.Codec.Words.{load32}
use vrt_framework.Codec.Envelope.{
  is_command, Timestamp, ClassId, Identifier, absent_id, Command, Envelope,
}
use vrt_framework.Codec.Measure.{has_sid, measure_envelope}
use vrt_framework.Codec.Decode.{Flags, read_flags, class_of, check_extent, trailer_size}

pub record Storage : Type 0 where
  pub byte_size : ℕ
  pub parts : List (Result (List ℕ))

pub record Framing : Type 0 where
  pub envelope : Envelope
  pub payload_offset : ℕ
  pub payload_bytes : ℕ
  pub packet_bytes : ℕ

-- The loop of `ensure`: `start` is where the segment begins, and `copied` what has been copied before.
unfoldable pub copy_parts : List (Result (List ℕ)) → ℕ → List ℕ → ℕ → Result (List ℕ)
copy_parts [] start copied wanted = ok copied
copy_parts (err e ∷ parts) start copied wanted =
    if ltb (length copied) wanted then err e else ok copied
copy_parts (ok part ∷ parts) start copied wanted =
    let offset = length copied - start in
    let n = min (wanted - length copied) (length part - offset) in
    let skipped = copy_parts parts (start + length part) copied wanted in
    let extended =
      copy_parts parts (start + length part) (copied ++ take n (drop offset part)) wanted in
    if not (ltb (length copied) wanted)
    then ok copied
    else if leb (start + length part) (length copied)
    then skipped
    else extended

abbrev pub all_copied : ℕ → List ℕ → Result (List ℕ)
all_copied wanted copied =
    if length copied == wanted
    then ok copied
    else err (error_needs short_input (length copied) wanted)

unfoldable pub ensure : Storage → List ℕ → ℕ → Result (List ℕ)
unfolding copy_parts
ensure st copied wanted =
    if ltb 68 wanted || ltb st.byte_size wanted
    then err (error_needs short_input (length copied) wanted)
    else (copy_parts st.parts 0 copied wanted >>= all_copied wanted)

-- What has been copied, and the offset of the next word.
pub record Reader : Type 0 where
  pub copied : List ℕ
  pub offset : ℕ

-- The lambda `take`.
unfoldable pub fetch_word : Storage → Reader → Result (ℕ × Reader)
unfolding ensure
fetch_word st r = ensure st r.copied (r.offset + 4) >>= λ p.
    ok (load32 p r.offset, record { copied = p; offset = r.offset + 4 })

-- The parts of the prologue, over any way to read the next word from a state; `at` is the offset.
module _ {S : Type 0} (next : S → Result (ℕ × S)) (at : S → ℕ) where
  unfoldable pub fetch_stream : ℕ → S → Result (Option ℕ × S)
  fetch_stream type s = if has_sid type then (next s >>= λ v. ok (some v.0, v.1)) else ok (none, s)

  unfoldable pub fetch_class : Bool → S → Result (Option ClassId × S)
  fetch_class false s = ok (none, s)
  fetch_class true s = next s >>= λ a. next a.1 >>= λ b.
      if a.0 / 2 ^ 24 % 8 == 0
      then ok (some (class_of a.0 b.0), b.1)
      else err (error_at invalid_argument (at b.1 - 8))

  unfoldable pub fetch_integer : ℕ → S → Result (ℕ × S)
  fetch_integer tsi s = if tsi == 0 then ok (0, s) else next s

  unfoldable pub fetch_fraction : ℕ → S → Result (ℕ × S)
  fetch_fraction tsf s =
      if tsf == 0
      then ok (0, s)
      else (next s >>= λ a. next a.1 >>= λ b. ok (a.0 * 2 ^ 32 + b.0, b.1))

  unfoldable pub fetch_identifier : Bool → Bool → S → Result (Identifier × S)
  fetch_identifier false is_uuid s = ok (absent_id, s)
  fetch_identifier true false s = next s >>= λ a.
      ok (record { kind = 1; word_0 = a.0; word_1 = 0; word_2 = 0; word_3 = 0 }, a.1)
  fetch_identifier true true s = next s >>= λ a. next a.1 >>= λ b. next b.1 >>= λ c.
      next c.1 >>= λ d.
      ok (record { kind = 2; word_0 = a.0; word_1 = b.0; word_2 = c.0; word_3 = d.0 }, d.1)

  unfoldable pub fetch_command : ℕ → S → Result (Option Command × S)
  unfolding fetch_identifier
  fetch_command type s =
      if is_command type
      then (next s >>= λ cam. next cam.1 >>= λ mid.
          fetch_identifier (bit cam.0 31) (bit cam.0 30) mid.1 >>= λ ee.
          fetch_identifier (bit cam.0 29) (bit cam.0 28) ee.1 >>= λ er. ok (
            some (record { cam = cam.0; message_id = mid.0; controllee = ee.0; controller = er.0 }),
            er.1,
          ))
      else ok (none, s)

  unfoldable pub fetch_prologue : ℕ → S → Result (Envelope × S)
  unfolding fetch_stream fetch_class fetch_integer fetch_fraction fetch_command
  fetch_prologue h start =
      let type = h / 2 ^ 28 in
      let tsi = h / 2 ^ 22 % 4 in
      let tsf = h / 2 ^ 20 % 4 in
      read_flags type h >>= λ f. fetch_stream type start >>= λ s.
      fetch_class (bit h 27) s.1 >>= λ c. fetch_integer tsi c.1 >>= λ i.
      fetch_fraction tsf i.1 >>= λ x. fetch_command type x.1 >>= λ m. ok (
        record {
          type = type;
          packet_count = h / 2 ^ 16 % 16;
          stream_id = s.0;
          class_id = c.0;
          timestamp = record { tsi = tsi; tsf = tsf; integer = i.0; fractional = x.0 };
          trailer = f.trailer;
          nd0 = f.nd0;
          spectrum = f.spectrum;
          tsm = f.tsm;
          ack = f.ack;
          cancel = f.cancel;
          command = m.0;
        },
        m.1,
      )

-- The end of `inspect`: the payload is what the prologue and the trailer leave.
unfoldable pub framing_of : ℕ → Envelope × Reader → Result Framing
framing_of size (e, r) =
    if ltb size r.offset || ltb (size - r.offset) (trailer_size e.trailer)
    then err (error_needs short_input r.offset (r.offset + trailer_size e.trailer))
    else (measure_envelope e (size - r.offset - trailer_size e.trailer) >>= λ _. ok (record {
      envelope = e;
      payload_offset = r.offset;
      payload_bytes = size - r.offset - trailer_size e.trailer;
      packet_bytes = size;
    }))

-- After the first word has been copied.
unfoldable pub inspect_prefix : Storage → List ℕ → Result Framing
unfolding fetch_word fetch_prologue framing_of
inspect_prefix st copied =
    let h = load32 copied 0 in
    check_extent h st.byte_size
    >> (fetch_prologue (fetch_word st) (λ r. r.offset) h (record { copied = copied; offset = 4 })
        >>= framing_of st.byte_size)

unfoldable pub inspect : Storage → Result Framing
unfolding inspect_prefix
inspect st = ensure st [] 4 >>= inspect_prefix st
