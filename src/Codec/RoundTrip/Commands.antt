-- ===== src/Codec/RoundTrip/Commands.antt =====
-- The command's words and its two identifiers are read back where they stand.
use vrt_framework.Prelude.{
  ℕ, zero, suc, ◌+◌, ◌^◌, ◌≤◌, ◌<◌, ◌≡◌, ◌∙◌, Bool, true, false, ◌&&◌, ◌||◌, not, some, List, ◌++◌,
  append_assoc, arith, ◌==◌, eq_bool, bit, length, drop, length-append,
}
use vrt_framework.Codec.Words.{all_bytes}
use vrt_framework.Codec.Envelope.{is_command, Identifier, absent_id, Command}
use vrt_framework.Codec.Measure.{check_id}
use vrt_framework.Codec.Encode.{id_words, command_body}
use vrt_framework.Codec.Decode.{read_identifier, read_command}
use vrt_framework.Codec.RoundTrip.Parts.{
  Reads, all_bytes-append, take_word-Reads, Reads-done, Reads-bind, Reads-count,
}

-- An identifier's words are 32-bit values, and those that its kind does not use are zero.
abbrev pub Canonical : ℕ → ℕ → ℕ → ℕ → ℕ → Type 0
Canonical zero a b c d = (a ≡ 0) × (b ≡ 0) × (c ≡ 0) × (d ≡ 0)
Canonical (suc zero) a b c d = (a < 2 ^ 32) × (b ≡ 0) × (c ≡ 0) × (d ≡ 0)
Canonical (suc (suc k)) a b c d = (a < 2 ^ 32) × (b < 2 ^ 32) × (c < 2 ^ 32) × (d < 2 ^ 32)

abbrev pub IsId : Identifier → Type 0
IsId id = Canonical id.kind id.word_0 id.word_1 id.word_2 id.word_3

pub record IsCommand (c : Command) : Type 0 where
  pub cam_fits : c.cam < 2 ^ 32
  pub message_fits : c.message_id < 2 ^ 32
  pub controllee_canonical : IsId c.controllee
  pub controller_canonical : IsId c.controller

counts : (a b n : ℕ) → n ≡ a + b → 1 + (1 + (a + (b + 0))) ≡ suc (suc n)
counts a b n h = omega arith

-- The words of two parts, one part at a time.
pub two_parts :
    (a b rest : List ℕ) → all_bytes (a ++ b) ++ rest ≡ all_bytes a ++ (all_bytes b ++ rest)
two_parts a b rest = rw (all_bytes-append a b) (append_assoc (all_bytes a) (all_bytes b) rest)

module _ (wire : List ℕ) where
  abbrev the_id : ℕ → ℕ → ℕ → ℕ → ℕ → Identifier
  the_id k a b c d = record { kind = k; word_0 = a; word_1 = b; word_2 = c; word_3 = d }

  id-part :
      (k a b c d : ℕ) (enable is_uuid : Bool) (offset : ℕ) (rest : List ℕ)
      → k ≤ 2
      → eq_bool enable (not (k == 0)) ≡ true
      → (k == 0 || eq_bool is_uuid (k == 2)) ≡ true
      → Canonical k a b c d
      → drop offset wire ≡ all_bytes (id_words (the_id k a b c d)) ++ rest
      → Reads wire
          (read_identifier wire (length wire) enable is_uuid offset)
          (the_id k a b c d)
          offset
          (length (id_words (the_id k a b c d)))
          rest
  unfolding read_identifier
  id-part zero a b c d true u offset rest le e1 e2 z h = cc
  id-part zero a b c d false u offset rest le e1 e2 z h =
      rw (z.0, z.1, z.2, z.3) (Reads-done wire absent_id offset rest h)
  id-part (suc k) a b c d false u offset rest le e1 e2 z h = absurd (ground arith)
  id-part (suc zero) a b c d true true offset rest le e1 e2 z h = cc
  id-part (suc zero) a b c d true false offset rest le e1 e2 z h =
      rw (z.1, z.2, z.3)
        (Reads-bind wire _ (the_id 1 a 0 0 0) (take_word-Reads wire offset a rest z.0 h)
          λ o at. Reads-done wire (the_id 1 a 0 0 0) o rest at)
  id-part (suc (suc zero)) a b c d true false offset rest le e1 e2 z h = cc
  id-part (suc (suc zero)) a b c d true true offset rest le e1 e2 z h =
      Reads-bind wire {m = 3} _ _ (take_word-Reads wire offset a _ z.0 h) λ o1 at1.
        Reads-bind wire {m = 2} _ _ (take_word-Reads wire o1 b _ z.1 at1) λ o2 at2.
          Reads-bind wire {m = 1} _ _ (take_word-Reads wire o2 c _ z.2 at2) λ o3 at3.
            Reads-bind wire {m = 0} _ _ (take_word-Reads wire o3 d rest z.3 at3)
              λ o4 at4. Reads-done wire _ o4 rest at4
  id-part (suc (suc (suc k))) a b c d true u offset rest le e1 e2 z h = absurd (omega arith)

  id-Reads :
      (cam enable uuid : ℕ) (id : Identifier) (offset : ℕ) (rest : List ℕ)
      → check_id cam id enable uuid ≡ true
      → IsId id
      → drop offset wire ≡ all_bytes (id_words id) ++ rest
      → Reads wire
          (read_identifier wire (length wire) (bit cam enable) (bit cam uuid) offset)
          id
          offset
          (length (id_words id))
          rest
  unfolding check_id
  id-Reads cam enable uuid id offset rest ch v h =
      id-part id.kind id.word_0 id.word_1 id.word_2 id.word_3 (bit cam enable) (bit cam uuid) offset
        rest (ground arith) (ground arith) (ground arith) v h

  pub command-Reads :
      (type offset : ℕ) (c : Command) (rest : List ℕ)
      → is_command type ≡ true
      → IsCommand c
      → (check_id c.cam c.controllee 31 30 && check_id c.cam c.controller 29 28) ≡ true
      → drop offset wire ≡ all_bytes (command_body (some c)) ++ rest
      → Reads wire
          (read_command wire (length wire) type offset)
          (some c)
          offset
          (length (command_body (some c)))
          rest
  unfolding read_command
  command-Reads type offset c rest t v ch h = rw t (
      Reads-count wire
        (counts (length (id_words c.controllee)) (length (id_words c.controller)) _
          (length-append (id_words c.controllee) (id_words c.controller)))
        (Reads-bind wire
          {m = 1 + (length (id_words c.controllee) + (length (id_words c.controller) + 0))} _
          (some c) (take_word-Reads wire offset c.cam _ v.cam_fits h)
          λ o1 at1.
            Reads-bind wire
              {m = length (id_words c.controllee) + (length (id_words c.controller) + 0)} _ (some c)
              (take_word-Reads wire o1 c.message_id _ v.message_fits at1)
              λ o2 at2.
                Reads-bind wire {m = length (id_words c.controller) + 0} _ (some c)
                  (id-Reads c.cam 31 30 c.controllee o2 _ (ground arith) v.controllee_canonical
                    (at2 ∙ two_parts (id_words c.controllee) (id_words c.controller) rest))
                  λ o3 at3.
                    Reads-bind wire {m = 0} _ (some c)
                      (id-Reads c.cam 29 28 c.controller o3 rest (ground arith)
                        v.controller_canonical at3)
                      λ o4 at4. Reads-done wire (some c) o4 rest at4))
