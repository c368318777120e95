-- ===== src/Transport/Framer/Delivery.antt =====
-- Whole packets through the framer.
use vrt_framework.Prelude.{
  ℕ, zero, suc, ◌+◌, ◌*◌, ◌/◌, ◌%◌, ◌^◌, ◌≤◌, ◌<◌, ◌≡◌, refl, sym, ap, ◌∙◌, inl, inr, true, false,
  ◌||◌, not, Option, none, some, List, [], ◌∷◌, ◌++◌, append-nil, arith, ltb, ◌==◌, if◌then◌else◌,
  Bool-cases, some-injective, length, take, drop, take-append-drop, length-take, length-drop,
}
use vrt_framework.Core.Error.{Result, ok, err, done, >>=-eq-ok, guard-eq-ok}
use vrt_framework.Codec.Words.{load32}
use vrt_framework.Codec.Decode.{EnvelopeView, check_extent, decode_envelope}
use vrt_framework.Transport.Framer.{
  StreamFramer, target, bad_header, inspect_header, bad_limits, accepted, deliver, inspected,
  absorb, and_then, feed,
}
use vrt_framework.Transport.Framer.Bytewise.{IsFramer, bytewise, bytewise-round, feed-bytewise}
use vrt_framework.Transport.Framer.Chunks.{counted, continue, bytewise-append}

-- A packet has the size that its header announces, and a known type.
decode_envelope-size :
    (w : List ℕ) {v : EnvelopeView}
    → decode_envelope w ≡ ok v
    → (load32 w 0 % 2 ^ 16 * 4 ≡ length w) × (load32 w 0 / 2 ^ 28 < 8) × (4 ≤ length w)
unfolding decode_envelope check_extent
decode_envelope-size w h =
    let (long, h1) = guard-eq-ok (ltb (length w) 4) _ _ h in
    let (_, c, h2) = >>=-eq-ok (check_extent (load32 w 0) (length w)) _ h1 in
    sizes (load32 w 0) (length w) long c
  where
    sizes :
        (h n : ℕ)
        → ltb n 4 ≡ false
        → check_extent h n ≡ ok tt
        → (h % 2 ^ 16 * 4 ≡ n) × (h / 2 ^ 28 < 8) × (4 ≤ n)
    sizes h n l c = (ground arith, ground arith, ground arith)

load32-take : (w : List ℕ) → 4 ≤ length w → load32 (take 4 w) 0 ≡ load32 w 0
unfolding load32
load32-take [] h = absurd (omega arith)
load32-take (a ∷ []) h = absurd (omega arith)
load32-take (a ∷ b ∷ []) h = absurd (omega arith)
load32-take (a ∷ b ∷ c ∷ []) h = absurd (omega arith)
load32-take (a ∷ b ∷ c ∷ d ∷ w) h = refl

abbrev pub idle : ℕ → ℕ → StreamFramer
idle capacity maximum = record {
  capacity = capacity;
  maximum_packet_bytes = maximum;
  buffer = [];
  expected = 0;
  closed = false;
}

-- The framer that waits for the rest of a packet of `n` bytes.
abbrev waiting_for : ℕ → ℕ → ℕ → List ℕ → StreamFramer
waiting_for capacity maximum n head = record (idle capacity maximum) { buffer = head; expected = n }

take-whole : (w : List ℕ) (n : ℕ) → length w ≤ n → take n w ≡ w
take-whole [] zero h = refl
take-whole [] (suc n) h = refl
take-whole (x ∷ w) zero h = absurd (omega arith)
take-whole (x ∷ w) (suc n) h = ap (λ r. x ∷ r) (take-whole w n (omega arith))

no_bytes : (r : List ℕ) → length r ≡ 0 → r ≡ []
no_bytes [] h = refl
no_bytes (x ∷ r) h = absurd (omega (arith, h))

-- The bytes of packets, one after the other.
abbrev pub stream : List (List ℕ) → List ℕ
stream [] = []
stream (w ∷ ws) = w ++ stream ws

-- Each packet is accepted by the decoder and not too long.
abbrev pub Packets : ℕ → List (List ℕ) → Type 0
Packets maximum [] = Unit {0}
Packets maximum (w ∷ ws) =
    (v : EnvelopeView) × (decode_envelope w ≡ ok v) × (length w ≤ maximum) × Packets maximum ws

-- The sink on each packet in order, if it accepts them all.
abbrev pub after_sink : {S : Type 0} → S × Result (Unit {0}) → (S → Option S) → Option S
after_sink (s, ok _) rest = rest s
after_sink (s, err e) rest = none

abbrev pub sinks :
    {S : Type 0} → (S → List ℕ → S × Result (Unit {0})) → S → List (List ℕ) → Option S
sinks sink s [] = some s
sinks sink s (w ∷ ws) = after_sink (sink s w) (λ t. sinks sink t ws)

sinks-some :
    {S : Type 0} (sink : S → List ℕ → S × Result (Unit {0})) (s : S) (w : List ℕ)
    (ws : List (List ℕ)) (s' : S)
    → sinks sink s (w ∷ ws) ≡ some s'
    → (t : S) × (sink s w ≡ (t, ok tt)) × (sinks sink t ws ≡ some s')
sinks-some {S = S} sink s w ws s' h = after (sink s w) refl h
  where
    after :
        (r : S × Result (Unit {0}))
        → sink s w ≡ r
        → after_sink r (λ t. sinks sink t ws) ≡ some s'
        → (t : S) × (sink s w ≡ (t, ok tt)) × (sinks sink t ws ≡ some s')
    after (t, ok u) e h = (t, e, h)
    after (t, err x) e h = cc

module _ {S : Type 0} (sink : S → List ℕ → S × Result (Unit {0})) (capacity maximum : ℕ)
    (limits_lem : bad_limits (idle capacity maximum) ≡ false) where
  idle-IsFramer : IsFramer (idle capacity maximum)
  unfolding bad_limits
  idle-IsFramer = record {
    is_open = refl;
    limits = limits_lem;
    waiting = omega arith;
    sized = inl refl;
  }

  header_good :
      (w : List ℕ)
      → load32 w 0 % 2 ^ 16 * 4 ≡ length w
      → load32 w 0 / 2 ^ 28 < 8
      → 4 ≤ length w
      → length w ≤ maximum
      → inspect_header (record (idle capacity maximum) { buffer = take 4 w })
        ≡ (waiting_for capacity maximum (length w) (take 4 w), done)
  unfolding inspect_header bad_header bad_limits
  header_good w sz ty long fit =
      let l = length-take 4 w in
      let word = load32-take w long in
      let test : (ltb (length (take 4 w)) 4 || not (0 == 0)) ≡ false = ground arith in
      let good : (ltb 7 (load32 w 0 / 2 ^ 28)
            || ltb (length w) 4
            || ltb maximum (length w)
            || ltb capacity (length w))
          ≡ false =
        ground (arith, limits_lem) in
      rw (test, word, sz, good) refl

  -- A packet that is complete.
  delivered :
      (w : List ℕ) (s s' : S) {v : EnvelopeView}
      → 4 ≤ length w
      → decode_envelope w ≡ ok v
      → sink s w ≡ (s', ok tt)
      → inspected sink s (waiting_for capacity maximum (length w) w, done)
        ≡ (idle capacity maximum, s', ok 1)
  unfolding inspected deliver accepted
  delivered w s s' long d a =
      let test : (length w == 0 || not (length w == length w)) ≡ false = ground arith in
      rw (test, d, a) refl

  first_round :
      (w : List ℕ) (s s' : S) {v : EnvelopeView}
      → decode_envelope w ≡ ok v
      → length w ≤ maximum
      → sink s w ≡ (s', ok tt)
      → absorb sink (idle capacity maximum) s (take 4 w) ≡ (
          if length w == 4
          then (idle capacity maximum, s', ok 1)
          else (waiting_for capacity maximum (length w) (take 4 w), s, ok 0))
  unfolding absorb inspected
  first_round w s s' d fit a =
      let (sz, ty, long) = decode_envelope-size w d in
      let l = length-take 4 w in
      ap (inspected sink s) (header_good w sz ty long fit) ∙ elim (Bool-cases (length w == 4)) [
        | inl four ↦
            let whole = take-whole w 4 (ground (arith, four)) in
            ap (λ r. inspected sink s (waiting_for capacity maximum (length w) r, done)) whole
            ∙ delivered w s s' long d a
            ∙ rw four refl
        | inr more ↦
            let test : (length w == 0 || not (length (take 4 w) == length w)) ≡ true =
              ground arith in
            rw (test, more) refl
      ]

  last_round :
      (w : List ℕ) (s s' : S) {v : EnvelopeView}
      → decode_envelope w ≡ ok v
      → sink s w ≡ (s', ok tt)
      → absorb sink (waiting_for capacity maximum (length w) (take 4 w)) s (drop 4 w)
        ≡ (idle capacity maximum, s', ok 1)
  unfolding absorb inspect_header
  last_round w s s' d a =
      let (sz, ty, long) = decode_envelope-size w d in
      let test : (ltb (length (take 4 w ++ drop 4 w)) 4 || not (length w == 0)) ≡ true =
        ground arith in
      rw test (
        ap (λ r. inspected sink s (waiting_for capacity maximum (length w) r, done))
          (take-append-drop 4 w)
        ∙ delivered w s s' long d a)

  rest_packet :
      (rest w : List ℕ) (s s' : S) {v : EnvelopeView}
      → rest ≡ drop 4 w
      → 4 < length w
      → decode_envelope w ≡ ok v
      → sink s w ≡ (s', ok tt)
      → bytewise sink (waiting_for capacity maximum (length w) (take 4 w)) s rest 0
        ≡ (idle capacity maximum, s', ok 1)
  unfolding bytewise
  rest_packet [] w s s' e long d a = absurd (omega (arith, ap length e, length-drop 4 w))
  rest_packet (x ∷ xs) w s s' e long d a =
      let f = waiting_for capacity maximum (length w) (take 4 w) in
      let here : (length w == 0) ≡ false = ground arith in
      let le : length (take 4 w) + suc (length xs) ≤ target f =
        rw here (omega (arith, ap length e, length-drop 4 w, length-take 4 w)) in
      ap (λ r. bytewise sink f s (x ∷ r) 0) (sym (append-nil xs))
      ∙ bytewise-round sink x xs [] f s 0 le
      ∙ ap (λ r. and_then sink (λ o. o) (absorb sink f s r) (λ f' s' k. (f', s', ok (0 + k)))) e
      ∙ rw (last_round w s s' d a) refl

  whole_packet :
      (w : List ℕ) (s s' : S) {v : EnvelopeView}
      → decode_envelope w ≡ ok v
      → length w ≤ maximum
      → sink s w ≡ (s', ok tt)
      → bytewise sink (idle capacity maximum) s w 0 ≡ (idle capacity maximum, s', ok 1)
  unfolding bytewise
  whole_packet [] s s' d fit a =
      absurd (omega (arith, (let (sz, ty, long) = decode_envelope-size [] d in long)))
  whole_packet (x ∷ []) s s' d fit a =
      absurd (omega (arith, (let (sz, ty, long) = decode_envelope-size _ d in long)))
  whole_packet (x ∷ y ∷ []) s s' d fit a =
      absurd (omega (arith, (let (sz, ty, long) = decode_envelope-size _ d in long)))
  whole_packet (x ∷ y ∷ z ∷ []) s s' d fit a =
      absurd (omega (arith, (let (sz, ty, long) = decode_envelope-size _ d in long)))
  whole_packet (x ∷ y ∷ z ∷ t ∷ rest) s s' d fit a =
      let w : List ℕ = x ∷ y ∷ z ∷ t ∷ rest in
      bytewise-round sink x (y ∷ z ∷ t ∷ []) rest (idle capacity maximum) s 0 (omega arith)
      ∙ ap (λ o. and_then sink (λ o. o) o (λ f' s' k. bytewise sink f' s' rest (0 + k)))
          (first_round w s s' d fit a)
      ∙ elim (Bool-cases (length w == 4)) [
        | inl four ↦
            let none_left : rest ≡ [] = no_bytes rest (ground (arith, four)) in
            rw (four, none_left) refl
        | inr more ↦ rw more (rest_packet rest w s s' refl (ground (arith, more)) d a)
      ]

  -- A whole packet, fed to an idle framer.
  bytewise-Packets :
      (ws : List (List ℕ)) (s s' : S)
      → Packets maximum ws
      → sinks sink s ws ≡ some s'
      → bytewise sink (idle capacity maximum) s (stream ws) 0
        ≡ (idle capacity maximum, s', ok (length ws))
  unfolding bytewise
  bytewise-Packets [] s s' p h = ap (λ t. (idle capacity maximum, t, ok 0)) (some-injective h)
  bytewise-Packets (w ∷ ws) s s' (v, d, fit, p) h =
      let (t, a, h') = sinks-some sink s w ws s' h in
      bytewise-append sink w (stream ws) (idle capacity maximum) s 0
      ∙ ap (λ o. continue sink o (stream ws)) (whole_packet w s t d fit a)
      ∙ ap (counted sink 1) (bytewise-Packets ws t s' p h')
      ∙ ap (λ k. (idle capacity maximum, s', ok k)) (omega arith)

-- A stream of whole packets that the envelope decoder accepts, none longer than the framer's maximum,
-- leaves an open framer idle, with every packet handed to the sink in order and counted, provided that
-- the sink accepts each of them.
pub feed-Packets :
    {S : Type 0} (sink : S → List ℕ → S × Result (Unit {0})) (capacity maximum : ℕ)
    (ws : List (List ℕ)) (s s' : S)
    → bad_limits (idle capacity maximum) ≡ false
    → Packets maximum ws
    → sinks sink s ws ≡ some s'
    → feed (some sink) (idle capacity maximum) s (stream ws)
      ≡ some (idle capacity maximum, s', ok (length ws))
feed-Packets sink capacity maximum ws s s' l p h =
    feed-bytewise sink (idle capacity maximum) s (stream ws) (idle-IsFramer sink capacity maximum l)
    ∙ ap some (bytewise-Packets sink capacity maximum l ws s s' p h)
