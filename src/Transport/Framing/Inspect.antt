-- ===== src/Transport/Framing/Inspect.antt =====
-- `inspect` accepts the packets that `decode_envelope` accepts, and reads the same envelope.
use vrt_framework.Prelude.{
  ℕ, ◌-◌, ◌≡◌, refl, sym, ap, ◌∙◌, subst, inl, inr, Bool, true, false, ◌||◌, Option, none, some,
  List, [], arith, ltb, if◌then◌else◌, Bool-cases, length, take, drop, length-take, length-drop,
}
use vrt_framework.Core.Error.{error_needs, short_input, Result, ok, err, ◌>>=◌, ◌>>◌, Result-cases}
use vrt_framework.Codec.Words.{load32}
use vrt_framework.Codec.Envelope.{Envelope}
use vrt_framework.Codec.Measure.{measure_envelope}
use vrt_framework.Codec.Decode.{
  read_prologue, EnvelopeView, view_of, check_extent, decode_envelope, trailer_size,
}
use vrt_framework.Transport.Framing.{
  Storage, Framing, ensure, Reader, fetch_word, fetch_prologue, framing_of, inspect_prefix, inspect,
}
use vrt_framework.Transport.Framing.Copies.{readable, joined, ensure-joined, load32-take}
use vrt_framework.Transport.Framing.Agreement.{Follows, Related, prologue-Related}

-- The same envelope with the same extents, or an error of both.
abbrev pub Agrees : Result Framing → Result EnvelopeView → Type 0
Agrees (ok f) (ok v) =
    (f.envelope ≡ v.envelope)
    × (f.payload_offset ≡ v.payload_offset)
    × (f.payload_bytes ≡ length v.payload)
    × (f.packet_bytes ≡ length v.wire)
Agrees (err e) (err f) = Unit {0}
Agrees _ _ = ⊥

measured-Agrees :
    (e : Envelope) (wire payload : List ℕ) (o n : ℕ) (t : Option ℕ)
    → n ≡ length payload
    → Agrees
        (measure_envelope e n >>= λ _. ok (record {
          envelope = e;
          payload_offset = o;
          payload_bytes = n;
          packet_bytes = length wire;
        }))
        (measure_envelope e (length payload) >>= λ _. ok (record {
          envelope = e;
          payload = payload;
          trailer = t;
          payload_offset = o;
          wire = wire;
        }))
measured-Agrees e wire payload o n t h = elim (Result-cases (measure_envelope e (length payload))) [
  | inl (size, m) ↦ rw (h, m) (refl, refl, refl, refl)
  | inr (bad, m) ↦ rw (h, m) tt
]

module _ (ps : List (List ℕ)) where
  abbrev wire : List ℕ
  wire = joined ps

  view-Agrees :
      (e : Envelope) (o : ℕ) (r : Reader)
      → r.offset ≡ o
      → Agrees (framing_of (length wire) (e, r)) (view_of wire (length wire) (e, o))
  unfolding framing_of view_of
  view-Agrees e o r h =
      elim (Bool-cases (ltb (length wire) o || ltb (length wire - o) (trailer_size e.trailer))) [
        | inl short ↦ rw (h, short) tt
        | inr room ↦
            let n : ℕ = length wire - o - trailer_size e.trailer in
            let l : n ≡ length (take n (drop o wire)) =
              omega (arith, length-take n (drop o wire), length-drop o wire) in
            rw (h, room)
              (measured-Agrees e wire (take n (drop o wire)) o n
                (if e.trailer then some (load32 wire (length wire - 4)) else none) l)
      ]

  prologue-Agrees :
      (x : Result (Envelope × ℕ)) (y : Result (Envelope × Reader))
      → Related ps 0 x y
      → Agrees (y >>= framing_of (length wire)) (x >>= view_of wire (length wire))
  prologue-Agrees (ok (a, o)) (ok (b, r)) (e, f) =
      subst (λ c. Agrees (framing_of (length wire) (c, r)) (view_of wire (length wire) (a, o))) e
        (view-Agrees a o r f.offset_lem)
  prologue-Agrees (err e) (err f) h = tt
  prologue-Agrees (ok a) (err f) h = absurd h
  prologue-Agrees (err e) (ok b) h = absurd h

inspect-ensure :
    (st : Storage) (r : Result (List ℕ))
    → ensure st [] 4 ≡ r
    → inspect st ≡ (r >>= inspect_prefix st)
unfolding inspect
inspect-ensure st r h = ap (λ r. r >>= inspect_prefix st) h

prefix-word :
    (st : Storage) (copied : List ℕ) (h : ℕ)
    → load32 copied 0 ≡ h
    → inspect_prefix st copied ≡ (
        check_extent h st.byte_size
        >> (fetch_prologue
              (fetch_word st)
              (λ r. r.offset)
              h
              (record { copied = copied; offset = 4 })
            >>= framing_of st.byte_size))
unfolding inspect_prefix
prefix-word st copied h e =
    ap
      (λ h.
        check_extent h st.byte_size
        >> (fetch_prologue (fetch_word st) (λ r. r.offset) h
              (record { copied = copied; offset = 4 })
            >>= framing_of st.byte_size))
      e

decode_envelope-lem :
    (w : List ℕ) (b : Bool)
    → ltb (length w) 4 ≡ b
    → decode_envelope w ≡ (
        if b
        then err (error_needs short_input 0 4)
        else (check_extent (load32 w 0) (length w)
            >> (read_prologue w (length w) (load32 w 0) >>= view_of w (length w))))
unfolding decode_envelope
decode_envelope-lem w b h =
    ap
      (λ b.
        if b
        then err (error_needs short_input 0 4)
        else (check_extent (load32 w 0) (length w)
            >> (read_prologue w (length w) (load32 w 0) >>= view_of w (length w))))
      h

checked-Agrees :
    (c : Result (Unit {0})) (x : Result Framing) (y : Result EnvelopeView)
    → Agrees x y
    → Agrees (c >> x) (c >> y)
checked-Agrees (ok u) x y h = h
checked-Agrees (err e) x y h = tt

-- Inspecting a packet whose bytes stand in readable segments gives the envelope, the payload's offset and
-- size and the packet's size that decoding the joined bytes gives, however the bytes are divided into
-- segments, and fails exactly if decoding fails.
pub inspect-Agrees :
    (ps : List (List ℕ))
    → Agrees
        (inspect (record { byte_size = length (joined ps); parts = readable ps }))
        (decode_envelope (joined ps))
inspect-Agrees ps =
    let w : List ℕ = joined ps in
    let st : Storage = record { byte_size = length w; parts = readable ps } in
    let first = ensure-joined ps 0 4 (omega arith) in
    elim (Bool-cases (ltb (length w) 4)) [
      | inl short ↦
          let i = inspect-ensure st _ (
            first
            ∙ ap (λ b. if b then err (error_needs short_input 0 4) else ok (take 4 w)) short) in
          rw (i, decode_envelope-lem w true short) tt
      | inr long ↦
          let i = inspect-ensure st _ (
            first
            ∙ ap (λ b. if b then err (error_needs short_input 0 4) else ok (take 4 w)) long) in
          let p = prefix-word st (take 4 w) (load32 w 0) (load32-take 0 4 w (omega arith)) in
          let f : Follows ps 16 4 (record { copied = take 4 w; offset = 4 }) = record {
            copied_lem = refl;
            offset_lem = refl;
            bound = omega arith;
          } in
          let c =
            checked-Agrees (check_extent (load32 w 0) (length w)) _ _
              (prologue-Agrees ps _ _ (prologue-Related ps (load32 w 0) _ f)) in
          subst (λ x. Agrees x (decode_envelope w)) (sym (i ∙ p))
            (subst (Agrees _) (sym (decode_envelope-lem w false long)) c)
    ]
