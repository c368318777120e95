-- ===== src/Codec/RoundTrip/Layout.antt =====
-- The encoded packet as a concatenation: the prologue's words, the payload, the trailer, and what the
-- output held behind it.
use vrt_framework.Prelude.{
  ℕ, ◌+◌, ◌-◌, ◌*◌, ◌^◌, ◌≤◌, ◌<◌, ◌≡◌, refl, sym, ap, ◌∙◌, subst, Bool, true, false, not, Option,
  none, some, List, [], ◌∷◌, ◌++◌, append_assoc, arith, leb, ◌==◌, if◌then◌else◌, leb→le, has_value,
  eq_bool, length, take, drop, length-append, length-take, drop-append, take-append,
}
use vrt_framework.Core.Error.{ok, >>=-eq-ok, ok-injective, guard-eq-ok, >>-eq-ok}
use vrt_framework.Codec.Words.{bytes_of, all_bytes, write_at, store32, drop-drop, length-all_bytes}
use vrt_framework.Codec.Envelope.{Timestamp, ClassId, Identifier, size_words, Command, Envelope}
use vrt_framework.Codec.Measure.{has_sid, head_words, measure_envelope}
use vrt_framework.Codec.Measure.Inversion.{Measured, CommandChecked, measure_envelope-Measured}
use vrt_framework.Codec.Encode.{
  stream_words, class_words, integer_words, fraction_words, id_words, command_body, header_word,
  prologue_words, put_trailer, write_packet, encode_envelope,
}
use vrt_framework.Codec.RoundTrip.Packet.{body_words}

abbrev pub trailer_bytes : Option ℕ → List ℕ
trailer_bytes none = []
trailer_bytes (some t) = bytes_of t

two-writes :
    (output head payload : List ℕ) (n : ℕ)
    → n ≡ length head
    → n ≤ length output
    → write_at (write_at output n payload) 0 head
      ≡ head ++ (payload ++ drop (n + length payload) output)
unfolding write_at
two-writes output head payload n e h =
    let l : n ≡ length (take n output) = omega (arith, length-take n output) in
    let k : 0 + length head ≡ n = omega arith in
    ap (λ k. head ++ drop k (take n output ++ (payload ++ drop (n + length payload) output))) k
    ∙ ap (λ r. head ++ r)
        (drop-append (take n output) (payload ++ drop (n + length payload) output) n l)

put_trailer-lem :
    (t : Option ℕ) (front back : List ℕ) (n : ℕ)
    → n ≡ length front
    → put_trailer t (front ++ back) n ≡ (
      n + length (trailer_bytes t),
      front ++ (trailer_bytes t ++ drop (length (trailer_bytes t)) back),
    )
unfolding put_trailer store32 write_at
put_trailer-lem none front back n e = ap (λ k. (k, front ++ back)) (omega arith)
put_trailer-lem (some t) front back n e =
    let a = take-append front back n e in
    let b = sym (drop-drop n 4 (front ++ back)) ∙ ap (drop 4) (drop-append front back n e) in
    ap (λ x. (n + 4, x ++ (bytes_of t ++ drop (n + 4) (front ++ back)))) a
    ∙ ap (λ y. (n + 4, front ++ (bytes_of t ++ y))) b

length-id_words : (id : Identifier) → length (id_words id) ≡ size_words id
length-id_words id = ground arith

body-some :
    (s : Option ℕ) (type : ℕ)
    → eq_bool (has_sid type) (has_value s) ≡ true
    → length (stream_words s) ≡ (if has_sid type then 1 else 0)
body-some none type h = ground arith
body-some (some s) type h = ground arith

length-class_words : (c : Option ClassId) → length (class_words c) ≡ (if has_value c then 2 else 0)
length-class_words none = refl
length-class_words (some c) = refl

length-integer_words : (t : Timestamp) → length (integer_words t) ≡ (if t.tsi == 0 then 0 else 1)
length-integer_words t = ground arith

length-fraction_words : (t : Timestamp) → length (fraction_words t) ≡ (if t.tsf == 0 then 0 else 2)
length-fraction_words t = ground arith

length-command_body :
    (c : Option Command) (words : ℕ) → CommandChecked c words → length (command_body c) ≡ words
length-command_body none words h = sym h
length-command_body (some c) words (_, h) =
    let a = length-id_words c.controllee in
    let b = length-id_words c.controller in
    let d = length-append (id_words c.controllee) (id_words c.controller) in
    omega (arith, h, a, b, d)

-- The measure counts the words that are written, and one for a trailer.
pub body-length :
    (e : Envelope) (p size : ℕ) (m : Measured e p size)
    → 1 + length (body_words e) + (if e.trailer then 1 else 0) ≡ head_words e + m.words
unfolding head_words
body-length e p size m =
    let s = stream_words e.stream_id in
    let c = class_words e.class_id in
    let i = integer_words e.timestamp in
    let x = fraction_words e.timestamp in
    let b = command_body e.command in
    let l1 = length-append s (c ++ (i ++ (x ++ b))) in
    let l2 = length-append c (i ++ (x ++ b)) in
    let l3 = length-append i (x ++ b) in
    let l4 = length-append x b in
    let k1 = body-some e.stream_id e.type m.stream in
    let k2 = length-class_words e.class_id in
    let k3 = length-integer_words e.timestamp in
    let k4 = length-fraction_words e.timestamp in
    let k5 = length-command_body e.command m.words m.command in
    omega (arith, l1, l2, l3, l4, k1, k2, k3, k4, k5)

trailer-size :
    (b : Bool) (t : Option ℕ)
    → eq_bool b (has_value t) ≡ true
    → (length (trailer_bytes t) ≡ (if b then 4 else 0))
      × ((if b then 4 else 0) ≡ 4 * (if b then 1 else 0))
trailer-size true none h = absurd (cc)
trailer-size true (some t) h = (refl, refl)
trailer-size false none h = (refl, refl)
trailer-size false (some t) h = absurd (cc)

not-false : {b : Bool} → not b ≡ false → b ≡ true
not-false {b = true} h = refl
not-false {b = false} h = cc

-- The parts of a successful encoding.
pub record Encoded (e : Envelope) (payload : List ℕ) (trailer : Option ℕ) (output : List ℕ)
    (size : ℕ) (out : List ℕ) : Type 0 where
  pub trailer_lem : eq_bool e.trailer (has_value trailer) ≡ true
  pub measure_lem : measure_envelope e (length payload) ≡ ok size
  pub measured : Measured e (length payload) size
  pub sizes :
      (size ≡ 4 * (1 + length (body_words e)) + length payload + length (trailer_bytes trailer))
      × (length (trailer_bytes trailer) ≡ (if e.trailer then 4 else 0))
  pub out_lem :
      out
      ≡ all_bytes (header_word e size ∷ body_words e)
        ++ (payload ++ (trailer_bytes trailer ++ drop size output))

-- The writes of a packet whose parts have these sizes.
write_packet-lem :
    (e : Envelope) (payload : List ℕ) (trailer : Option ℕ) (output : List ℕ) (size : ℕ)
    → size ≡ 4 * (1 + length (body_words e)) + length payload + length (trailer_bytes trailer)
    → length (trailer_bytes trailer) ≡ (if e.trailer then 4 else 0)
    → size ≤ length output
    → write_packet e payload trailer output size ≡ (
      size,
      all_bytes (header_word e size ∷ body_words e)
          ++ (payload ++ (trailer_bytes trailer ++ drop size output)),
    )
unfolding write_packet prologue_words
write_packet-lem e payload trailer output size total tl room =
    let hw = header_word e size ∷ body_words e in
    let lw = length-all_bytes hw in
    let tb = trailer_bytes trailer in
    let at = size - length payload - (if e.trailer then 4 else 0) in
    let start : at ≡ length (all_bytes hw) = omega (arith, total, tl, lw) in
    let end : 4 * length hw + length payload ≡ length (all_bytes hw ++ payload) =
      omega (arith, lw, length-append (all_bytes hw) payload) in
    let moved = two-writes output (all_bytes hw) payload at start (omega arith) in
    let back = drop (at + length payload) output in
    let written =
      put_trailer-lem trailer (all_bytes hw ++ payload) back (4 * length hw + length payload) end in
    let left : at + length payload + length tb ≡ size = omega (arith, total, tl, start, lw) in
    let full : 4 * length hw + length payload + length tb ≡ size = omega (arith, total) in
    ap (λ x. put_trailer trailer x (4 * length hw + length payload))
      (moved ∙ sym (append_assoc (all_bytes hw) payload back))
    ∙ written
    ∙ ap (λ k. (k, (all_bytes hw ++ payload) ++ (tb ++ drop (length tb) back))) full
    ∙ ap (λ x. (size, x))
        (append_assoc (all_bytes hw) payload (tb ++ drop (length tb) back)
          ∙ ap (λ x. all_bytes hw ++ (payload ++ (tb ++ x)))
              (drop-drop (at + length payload) (length tb) output ∙ ap (λ k. drop k output) left))

pub encode_envelope-Encoded :
    (e : Envelope) (payload : List ℕ) (trailer : Option ℕ) (output : List ℕ) {n : ℕ} {out : List ℕ}
    → length payload < 2 ^ 64
    → encode_envelope e payload trailer output ≡ ok (n, out)
    → Encoded e payload trailer output n out
unfolding encode_envelope
encode_envelope-Encoded e payload trailer output {n} {out} small h =
    let (t, h1) = guard-eq-ok _ _ _ h in
    let (size, m, h2) = >>=-eq-ok (measure_envelope e (length payload)) _ h1 in
    let (room, h3) =
      >>-eq-ok (leb size (length output)) _ (ok (write_packet e payload trailer output size)) h2 in
    let t' = not-false t in
    let k = measure_envelope-Measured e (length payload) size small m in
    let b = body-length e (length payload) size k in
    let (tl, tb) = trailer-size e.trailer trailer t' in
    let total : size
        ≡ 4 * (1 + length (body_words e)) + length payload + length (trailer_bytes trailer) =
      omega (arith, k.size_lem, k.aligned, b, tl, tb) in
    let w =
      sym
        (write_packet-lem e payload trailer output size total tl (leb→le size (length output) room))
      ∙ ok-injective h3 in
    let same : size ≡ n = ap (λ p. p.0) w in
    subst (λ s. Encoded e payload trailer output s out) same
      (record {
        trailer_lem = t';
        measure_lem = m;
        measured = k;
        sizes = (total, tl);
        out_lem = sym (ap (λ p. p.1) w);
      })
