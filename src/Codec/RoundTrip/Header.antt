-- ===== src/Codec/RoundTrip/Header.antt =====
-- The header word: each field is read back from its bits.
use vrt_framework.Prelude.{
  ℕ, ◌+◌, ◌*◌, ◌/◌, ◌%◌, ◌^◌, ◌<◌, ◌≡◌, Bool, true, false, arith, if◌then◌else◌, has_value, bit,
}
use vrt_framework.Core.Error.{ok}
use vrt_framework.Codec.Envelope.{is_data, is_command, Envelope}
use vrt_framework.Codec.Measure.{foreign_flags}
use vrt_framework.Codec.Encode.{header_word}
use vrt_framework.Codec.Decode.{read_flags}

-- A header word by its fields.
abbrev word : ℕ → ℕ → ℕ → ℕ → ℕ → ℕ → ℕ → ℕ → ℕ → ℕ
word t c f26 f25 f24 i x n s =
    t * 2 ^ 28
    + c * 2 ^ 27
    + f26 * 2 ^ 26
    + f25 * 2 ^ 25
    + f24 * 2 ^ 24
    + i * 2 ^ 22
    + x * 2 ^ 20
    + n * 2 ^ 16
    + s

module _ (t c f26 f25 f24 i x n s : ℕ) (ht : t < 8) (hc : c < 2) (h26 : f26 < 2) (h25 : f25 < 2)
    (h24 : f24 < 2) (hi : i < 4) (hx : x < 4) (hn : n < 16) (hs : s < 2 ^ 16) where
  abbrev w : ℕ
  w = word t c f26 f25 f24 i x n s

  word-fits : w < 2 ^ 32
  word-fits = omega arith

  type-word : w / 2 ^ 28 ≡ t
  type-word = omega arith

  size-word : w % 2 ^ 16 ≡ s
  size-word = omega arith

  count-word : w / 2 ^ 16 % 16 ≡ n
  count-word = omega arith

  tsi-word : w / 2 ^ 22 % 4 ≡ i
  tsi-word = omega arith

  tsf-word : w / 2 ^ 20 % 4 ≡ x
  tsf-word = omega arith

  class-word : w / 2 ^ 27 % 2 ≡ c
  class-word = omega arith

  flags-word : (w / 2 ^ 26 % 2 ≡ f26) × (w / 2 ^ 25 % 2 ≡ f25) × (w / 2 ^ 24 % 2 ≡ f24)
  flags-word = (omega arith, omega arith, omega arith)

abbrev digit : Bool → ℕ
digit b = if b then 1 else 0

-- The three flag bits of a packet.
abbrev flag_26 : Envelope → Bool
flag_26 e = if is_data e.type then e.trailer else if is_command e.type then e.ack else false

abbrev flag_25 : Envelope → Bool
flag_25 e = if is_data e.type then e.nd0 else if is_command e.type then false else e.nd0

abbrev flag_24 : Envelope → Bool
flag_24 e = if is_data e.type then e.spectrum else if is_command e.type then e.cancel else e.tsm

header_word-word :
    (e : Envelope) (size : ℕ)
    → header_word e size
      ≡ word e.type
          (digit (has_value e.class_id))
          (digit (flag_26 e))
          (digit (flag_25 e))
          (digit (flag_24 e))
          e.timestamp.tsi
          e.timestamp.tsf
          e.packet_count
          (size / 4)
unfolding header_word
header_word-word e size = ground arith

-- What a decoder reads from the header word of an envelope in range.
pub record HeaderReads (e : Envelope) (size h : ℕ) : Type 0 where
  pub fits : h < 2 ^ 32
  pub type_lem : h / 2 ^ 28 ≡ e.type
  pub size_lem : h % 2 ^ 16 * 4 ≡ size
  pub count_lem : h / 2 ^ 16 % 16 ≡ e.packet_count
  pub tsi_lem : h / 2 ^ 22 % 4 ≡ e.timestamp.tsi
  pub tsf_lem : h / 2 ^ 20 % 4 ≡ e.timestamp.tsf
  pub class_lem : bit h 27 ≡ has_value e.class_id
  pub flags_lem :
      read_flags e.type h
      ≡ ok (record {
        trailer = e.trailer;
        nd0 = e.nd0;
        spectrum = e.spectrum;
        tsm = e.tsm;
        ack = e.ack;
        cancel = e.cancel;
      })

flags_read :
    (e : Envelope) (h : ℕ)
    → foreign_flags e ≡ false
    → bit h 26 ≡ flag_26 e
    → bit h 25 ≡ flag_25 e
    → bit h 24 ≡ flag_24 e
    → read_flags e.type h
      ≡ ok (record {
        trailer = e.trailer;
        nd0 = e.nd0;
        spectrum = e.spectrum;
        tsm = e.tsm;
        ack = e.ack;
        cancel = e.cancel;
      })
unfolding read_flags foreign_flags
flags_read e h f b26 b25 b24 = ground arith

digit-lt : (b : Bool) → digit b < 2
digit-lt true = omega arith
digit-lt false = omega arith

bit-digit : (h k : ℕ) (b : Bool) → h / 2 ^ k % 2 ≡ digit b → bit h k ≡ b
bit-digit h k true e = ground arith
bit-digit h k false e = ground arith

-- The header word of an envelope in range, whose flags are those of its type.
pub header-HeaderReads :
    (e : Envelope) (size : ℕ)
    → e.type < 8
    → e.packet_count < 16
    → e.timestamp.tsi < 4
    → e.timestamp.tsf < 4
    → size / 4 < 2 ^ 16
    → size % 4 ≡ 0
    → foreign_flags e ≡ false
    → HeaderReads e size (header_word e size)
header-HeaderReads e size ht hn hi hx hs h4 f =
    let c = digit (has_value e.class_id) in
    let a = digit (flag_26 e) in
    let b = digit (flag_25 e) in
    let d = digit (flag_24 e) in
    let i = e.timestamp.tsi in
    let x = e.timestamp.tsf in
    let n = e.packet_count in
    let s = size / 4 in
    let lc = digit-lt (has_value e.class_id) in
    let la = digit-lt (flag_26 e) in
    let lb = digit-lt (flag_25 e) in
    let ld = digit-lt (flag_24 e) in
    let (q26, q25, q24) = flags-word e.type c a b d i x n s ht lc la lb ld hi hx hn hs in
    let qc = class-word e.type c a b d i x n s ht lc la lb ld hi hx hn hs in
    let qs = size-word e.type c a b d i x n s ht lc la lb ld hi hx hn hs in
    rw (header_word-word e size) (record {
      fits = word-fits e.type c a b d i x n s ht lc la lb ld hi hx hn hs;
      type_lem = type-word e.type c a b d i x n s ht lc la lb ld hi hx hn hs;
      size_lem = omega (arith, qs);
      count_lem = count-word e.type c a b d i x n s ht lc la lb ld hi hx hn hs;
      tsi_lem = tsi-word e.type c a b d i x n s ht lc la lb ld hi hx hn hs;
      tsf_lem = tsf-word e.type c a b d i x n s ht lc la lb ld hi hx hn hs;
      class_lem = bit-digit _ 27 _ qc;
      flags_lem =
          flags_read e _ f (bit-digit _ 26 _ q26) (bit-digit _ 25 _ q25) (bit-digit _ 24 _ q24);
    })
