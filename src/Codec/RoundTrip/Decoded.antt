-- ===== src/Codec/RoundTrip/Decoded.antt =====
-- `decode_envelope` on the bytes that `encode_envelope` wrote.
use vrt_framework.Prelude.{
  ℕ, ◌+◌, ◌-◌, ◌*◌, ◌/◌, ◌%◌, ◌^◌, ◌≤◌, ◌<◌, ◌≡◌, refl, sym, ap, ◌∙◌, subst, Bool, true, false,
  ◌||◌, Option, none, some, List, [], ◌∷◌, ◌++◌, append-nil, append_assoc, arith, ltb,
  if◌then◌else◌, has_value, eq_bool, length, take, drop, length-append, drop-append, take-append,
}
use vrt_framework.Core.Error.{error_needs, short_input, ok, err, ◌>>=◌, ◌>>◌, done}
use vrt_framework.Codec.Words.{load32, bytes_of, all_bytes, load32-at, drop-drop, length-all_bytes}
use vrt_framework.Codec.Envelope.{Envelope}
use vrt_framework.Codec.Measure.{bad_ranges, measure_envelope}
use vrt_framework.Codec.Measure.Inversion.{Measured}
use vrt_framework.Codec.Encode.{header_word, encode_envelope}
use vrt_framework.Codec.Decode.{
  EnvelopeView, trailer_size, read_prologue, view_of, check_extent, decode_envelope,
}
use vrt_framework.Codec.RoundTrip.Header.{HeaderReads, header-HeaderReads}
use vrt_framework.Codec.RoundTrip.Packet.{IsEnvelope, body_words, prologue-Reads}
use vrt_framework.Codec.RoundTrip.Layout.{trailer_bytes, encode_envelope-Encoded}

abbrev pub view : Envelope → List ℕ → Option ℕ → List ℕ → EnvelopeView
view e payload trailer wire = record {
  envelope = e;
  payload = payload;
  trailer = trailer;
  payload_offset = 4 * (1 + length (body_words e));
  wire = wire;
}

-- A trailer that fits its word.
abbrev pub IsTrailer : Option ℕ → Type 0
IsTrailer none = Unit {0}
IsTrailer (some t) = t < 2 ^ 32

in_range :
    (e : Envelope)
    → bad_ranges e ≡ false
    → (e.type < 8) × (e.packet_count < 16) × (e.timestamp.tsi < 4) × (e.timestamp.tsf < 4)
unfolding bad_ranges
in_range e h = (ground arith, ground arith, ground arith, ground arith)

not_short : (n : ℕ) → 4 ≤ n → ltb n 4 ≡ false
not_short n h = ground arith

-- The header word of a measured envelope.
Measured-HeaderReads :
    (e : Envelope) (p size : ℕ) → Measured e p size → HeaderReads e size (header_word e size)
Measured-HeaderReads e p size m =
    let q = m.size_lem in
    let t = m.total in
    let r = in_range e m.ranges in
    header-HeaderReads e size r.0 r.1 r.2 r.3 (omega arith) (omega arith) m.flags

check_extent-passes :
    (h extent : ℕ)
    → h / 2 ^ 28 < 8
    → h % 2 ^ 16 * 4 ≡ extent
    → 0 < extent
    → check_extent h extent ≡ done
unfolding check_extent
check_extent-passes h extent t s p = ground arith

-- The trailer is the last word.
load-trailer :
    (wire : List ℕ) (t : Option ℕ) (b : Bool) (end : ℕ) (payload : List ℕ)
    → IsTrailer t
    → eq_bool b (has_value t) ≡ true
    → drop end wire ≡ payload ++ trailer_bytes t
    → length wire ≡ end + length payload + length (trailer_bytes t)
    → (if b then some (load32 wire (length wire - 4)) else none) ≡ t
load-trailer wire none true end payload f e d l = cc
load-trailer wire none false end payload f e d l = refl
load-trailer wire (some t) false end payload f e d l = cc
load-trailer wire (some t) true end payload f e d l =
    let k : length wire - 4 ≡ end + length payload = omega (arith, l) in
    let at =
      sym (drop-drop end (length payload) wire)
      ∙ ap (drop (length payload)) d
      ∙ drop-append payload (bytes_of t) (length payload) refl in
    ap (λ o. some (load32 wire o)) k
    ∙ ap some (load32-at wire (end + length payload) t [] f (at ∙ sym (append-nil (bytes_of t))))

view_of-lem :
    (wire : List ℕ) (e : Envelope) (payload : List ℕ) (t : Option ℕ) (end size : ℕ)
    → IsTrailer t
    → eq_bool e.trailer (has_value t) ≡ true
    → length (trailer_bytes t) ≡ trailer_size e.trailer
    → drop end wire ≡ payload ++ trailer_bytes t
    → length wire ≡ end + length payload + length (trailer_bytes t)
    → measure_envelope e (length payload) ≡ ok size
    → view_of wire (length wire) (e, end)
      ≡ ok (record {
        envelope = e;
        payload = payload;
        trailer = t;
        payload_offset = end;
        wire = wire;
      })
unfolding view_of
view_of-lem wire e payload t end size f b k d l m =
    let room : (ltb (length wire) end || ltb (length wire - end) (trailer_size e.trailer)) ≡ false =
      let q : end + trailer_size e.trailer ≤ length wire = omega (arith, k, l) in
      room_lem (length wire) end (trailer_size e.trailer) q in
    let n : length wire - end - trailer_size e.trailer ≡ length payload = omega (arith, k, l) in
    let p =
      ap (λ i. take i (drop end wire)) n
      ∙ ap (take (length payload)) d
      ∙ take-append payload (trailer_bytes t) (length payload) refl in
    rw (room, p, m, load-trailer wire t e.trailer end payload f b d l) refl
  where
    room_lem : (s o k : ℕ) → o + k ≤ s → (ltb s o || ltb (s - o) k) ≡ false
    room_lem s o k h = ground arith

decode_steps :
    (wire : List ℕ) (h : ℕ) (v : EnvelopeView)
    → ltb (length wire) 4 ≡ false
    → load32 wire 0 ≡ h
    → check_extent h (length wire) ≡ done
    → (read_prologue wire (length wire) h >>= view_of wire (length wire)) ≡ ok v
    → decode_envelope wire ≡ ok v
unfolding decode_envelope
decode_steps wire h v short word extent r =
    ap
      (λ b.
        if b
        then err (error_needs short_input 0 4)
        else (check_extent (load32 wire 0) (length wire)
            >> (read_prologue wire (length wire) (load32 wire 0) >>= view_of wire (length wire))))
      short
    ∙ ap
        (λ w.
          check_extent w (length wire)
          >> (read_prologue wire (length wire) w >>= view_of wire (length wire)))
        word
    ∙ ap (λ c. c >> (read_prologue wire (length wire) h >>= view_of wire (length wire))) extent
    ∙ r

-- The packet that an encoding wrote, without what stood behind it in the output.
decode_packet :
    (e : Envelope) (payload : List ℕ) (t : Option ℕ) (size : ℕ)
    → IsEnvelope e
    → IsTrailer t
    → eq_bool e.trailer (has_value t) ≡ true
    → length (trailer_bytes t) ≡ trailer_size e.trailer
    → measure_envelope e (length payload) ≡ ok size
    → Measured e (length payload) size
    → size ≡ 4 * (1 + length (body_words e)) + length payload + length (trailer_bytes t)
    → let wire = all_bytes (header_word e size ∷ body_words e) ++ (payload ++ trailer_bytes t) in
      decode_envelope wire ≡ ok (view e payload t wire)
decode_packet e payload t size v f b k me m total =
    let h = header_word e size in
    let wire = all_bytes (h ∷ body_words e) ++ (payload ++ trailer_bytes t) in
    let hr = Measured-HeaderReads e (length payload) size m in
    let long : length wire ≡ size = omega (
      arith,
      total,
      length-append (all_bytes (h ∷ body_words e)) (payload ++ trailer_bytes t),
      length-append payload (trailer_bytes t),
      length-all_bytes (h ∷ body_words e),
    ) in
    let word = load32-at wire 0 h _ hr.fits refl in
    let short : ltb (length wire) 4 ≡ false =
      not_short (length wire) (omega (arith, long, total)) in
    let extent =
      check_extent-passes h (length wire)
        (omega (arith, hr.type_lem, m.size_lem, m.total, (in_range e m.ranges).0))
        (hr.size_lem ∙ sym long) (omega (arith, long, total)) in
    let p =
      prologue-Reads wire e (length payload) size h (payload ++ trailer_bytes t) v m hr refl in
    let end : p.end ≡ 4 * (1 + length (body_words e)) = omega (arith, p.end_lem) in
    let seen =
      view_of-lem wire e payload t (4 * (1 + length (body_words e))) size f b k
        (subst (λ o. drop o wire ≡ payload ++ trailer_bytes t) end p.at) (long ∙ total) me in
    decode_steps wire h (view e payload t wire) short word extent
      (ap (λ r. r >>= view_of wire (length wire)) (p.run ∙ ap (λ o. ok (e, o)) end) ∙ seen)

-- For an envelope whose fields fit the wire, a payload of less than 2^64 bytes and a trailer of 32 bits:
-- when encoding succeeds, decoding the bytes that it reports as written succeeds, and gives the same
-- envelope, payload and trailer.
pub decode_envelope-encode_envelope :
    (e : Envelope) (payload : List ℕ) (trailer : Option ℕ) (output out : List ℕ) (size : ℕ)
    → IsEnvelope e
    → IsTrailer trailer
    → length payload < 2 ^ 64
    → encode_envelope e payload trailer output ≡ ok (size, out)
    → decode_envelope (take size out) ≡ ok (view e payload trailer (take size out))
decode_envelope-encode_envelope e payload trailer output out size v f small h =
    let x = encode_envelope-Encoded e payload trailer output small h in
    let (total, k) = x.sizes in
    let head = all_bytes (header_word e size ∷ body_words e) in
    let wire = head ++ (payload ++ trailer_bytes trailer) in
    let back = drop size output in
    let shape : out ≡ wire ++ back =
      x.out_lem
      ∙ ap (λ r. head ++ r) (sym (append_assoc payload (trailer_bytes trailer) back))
      ∙ sym (append_assoc head (payload ++ trailer_bytes trailer) back) in
    let long : size ≡ length wire = omega (
      arith,
      total,
      length-append head (payload ++ trailer_bytes trailer),
      length-append payload (trailer_bytes trailer),
      length-all_bytes (header_word e size ∷ body_words e),
    ) in
    let cut = ap (take size) shape ∙ take-append wire back size long in
    subst (λ w. decode_envelope w ≡ ok (view e payload trailer w)) (sym cut)
      (decode_packet e payload trailer size v f x.trailer_lem k x.measure_lem x.measured total)
