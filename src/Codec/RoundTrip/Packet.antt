-- ===== src/Codec/RoundTrip/Packet.antt =====
-- The whole prologue is read back, as the parts of it are.
use vrt_framework.Prelude.{
  ℕ, ◌+◌, ◌^◌, ◌<◌, ◌≡◌, ◌∙◌, false, Option, none, some, List, ◌++◌, arith, has_value, length, drop,
  length-append,
}
use vrt_framework.Codec.Words.{all_bytes}
use vrt_framework.Codec.Envelope.{is_command, ClassId, Command, Envelope}
use vrt_framework.Codec.Measure.{foreign_flags}
use vrt_framework.Codec.Measure.Inversion.{Measured, CommandChecked}
use vrt_framework.Codec.Encode.{
  stream_words, class_words, integer_words, fraction_words, command_body,
}
use vrt_framework.Codec.Decode.{read_class, read_command, read_prologue}
use vrt_framework.Codec.RoundTrip.Parts.{
  Reads, AllWords, Reads-done, Reads-bind, Reads-count, IsClass, stream-Reads, class-Reads,
  integer-Reads, fraction-Reads,
}
use vrt_framework.Codec.RoundTrip.Commands.{IsCommand, command-Reads, two_parts}
use vrt_framework.Codec.RoundTrip.Header.{HeaderReads}

abbrev IsClassOption : Option ClassId → Type 0
IsClassOption none = Unit {0}
IsClassOption (some c) = IsClass c

abbrev IsCommandOption : Option Command → Type 0
IsCommandOption none = Unit {0}
IsCommandOption (some c) = IsCommand c

-- An envelope whose fields fit their wire fields, and in which a field that is not sent is zero.
pub record IsEnvelope (e : Envelope) : Type 0 where
  pub stream_fits : AllWords (stream_words e.stream_id)
  pub class_fits : IsClassOption e.class_id
  pub integer_fits : e.timestamp.integer < 2 ^ 32
  pub integer_unsent : e.timestamp.tsi ≡ 0 → e.timestamp.integer ≡ 0
  pub fraction_fits : e.timestamp.fractional < 2 ^ 64
  pub fraction_unsent : e.timestamp.tsf ≡ 0 → e.timestamp.fractional ≡ 0
  pub command_fits : IsCommandOption e.command

-- The words behind the header word.
abbrev pub body_words : Envelope → List ℕ
body_words e =
    stream_words e.stream_id
    ++ (class_words e.class_id
        ++ (integer_words e.timestamp ++ (fraction_words e.timestamp ++ command_body e.command)))

command_kind : (e : Envelope) → foreign_flags e ≡ false → is_command e.type ≡ has_value e.command
unfolding foreign_flags
command_kind e h = ground arith

module _ (wire : List ℕ) where
  class_option-Reads :
      (offset : ℕ) (c : Option ClassId) (rest : List ℕ)
      → IsClassOption c
      → drop offset wire ≡ all_bytes (class_words c) ++ rest
      → Reads wire
          (read_class wire (length wire) (has_value c) offset)
          c
          offset
          (length (class_words c))
          rest
  unfolding read_class
  class_option-Reads offset none rest v h = Reads-done wire none offset rest h
  class_option-Reads offset (some c) rest v h = class-Reads wire offset c rest v h

  command_option-Reads :
      (type offset words : ℕ) (c : Option Command) (rest : List ℕ)
      → is_command type ≡ has_value c
      → IsCommandOption c
      → CommandChecked c words
      → drop offset wire ≡ all_bytes (command_body c) ++ rest
      → Reads wire
          (read_command wire (length wire) type offset)
          c
          offset
          (length (command_body c))
          rest
  unfolding read_command
  command_option-Reads type offset words none rest t v k h =
      rw t (Reads-done wire none offset rest h)
  command_option-Reads type offset words (some c) rest t v k h =
      command-Reads wire type offset c rest t v k.0 h

  counts :
      (a b c d e : List ℕ)
      → length a + (length b + (length c + (length d + (length e + 0))))
        ≡ length (a ++ (b ++ (c ++ (d ++ e))))
  counts a b c d e =
      let p = length-append a (b ++ (c ++ (d ++ e))) in
      let q = length-append b (c ++ (d ++ e)) in
      let r = length-append c (d ++ e) in let s = length-append d e in omega (arith, p, q, r, s)

  pub prologue-Reads :
      (e : Envelope) (payload_bytes size h : ℕ) (rest : List ℕ)
      → IsEnvelope e
      → Measured e payload_bytes size
      → HeaderReads e size h
      → drop 4 wire ≡ all_bytes (body_words e) ++ rest
      → Reads wire (read_prologue wire (length wire) h) e 4 (length (body_words e)) rest
  unfolding read_prologue
  prologue-Reads e payload_bytes size h rest v m hr d =
      let s = stream_words e.stream_id in
      let c = class_words e.class_id in
      let i = integer_words e.timestamp in
      let x = fraction_words e.timestamp in
      let b = command_body e.command in
      rw (hr.type_lem, hr.tsi_lem, hr.tsf_lem, hr.count_lem, hr.class_lem, hr.flags_lem)
        (Reads-count wire (counts s c i x b) (
          Reads-bind wire {m = length c + (length i + (length x + (length b + 0)))} _ e
            (stream-Reads wire e.type 4 e.stream_id _ m.stream v.stream_fits
              (d ∙ two_parts s (c ++ (i ++ (x ++ b))) rest))
            λ o1 at1.
              Reads-bind wire {m = length i + (length x + (length b + 0))} _ e
                (class_option-Reads o1 e.class_id _ v.class_fits
                  (at1 ∙ two_parts c (i ++ (x ++ b)) rest))
                λ o2 at2.
                  Reads-bind wire {m = length x + (length b + 0)} _ e
                    (integer-Reads wire o2 e.timestamp _ v.integer_fits v.integer_unsent
                      (at2 ∙ two_parts i (x ++ b) rest))
                    λ o3 at3.
                      Reads-bind wire {m = length b + 0} _ e
                        (fraction-Reads wire o3 e.timestamp _ v.fraction_fits v.fraction_unsent
                          (at3 ∙ two_parts x b rest))
                        λ o4 at4.
                          Reads-bind wire {m = 0} _ e
                            (command_option-Reads e.type o4 m.words e.command rest
                              (command_kind e m.flags) v.command_fits m.command at4)
                            λ o5 at5. Reads-done wire e o5 rest at5))
