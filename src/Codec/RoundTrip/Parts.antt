-- ===== src/Codec/RoundTrip/Parts.antt =====
-- Each part of the prologue is read back where its words stand.
use vrt_framework.Prelude.{
  ℕ, ◌+◌, ◌-◌, ◌*◌, ◌/◌, ◌%◌, ◌^◌, ◌<◌, ◌≡◌, refl, sym, ap, ◌∙◌, Bool, true, false, ◌||◌, Option,
  none, some, List, [], ◌∷◌, ◌++◌, arith, ltb, ◌==◌, if◌then◌else◌, has_value, eq_bool, length,
  drop, length-drop,
}
use vrt_framework.Core.Error.{ok, ◌>>=◌}
use vrt_framework.Codec.Words.{bytes_of, all_bytes, load32-at, drop-drop}
use vrt_framework.Codec.Envelope.{Timestamp, ClassId}
use vrt_framework.Codec.Measure.{has_sid}
use vrt_framework.Codec.Encode.{stream_words, class_words, integer_words, fraction_words}
use vrt_framework.Codec.Decode.{
  Read, take_word, read_stream, class_of, read_class, read_integer, read_fraction,
}

pub all_bytes-append : (a b : List ℕ) → all_bytes (a ++ b) ≡ all_bytes a ++ all_bytes b
all_bytes-append [] b = refl
all_bytes-append (w ∷ a) b = ap (λ r. bytes_of w ++ r) (all_bytes-append a b)

-- The words of a 32-bit field.
abbrev pub AllWords : List ℕ → Type 0
AllWords [] = Unit {0}
AllWords (w ∷ ws) = (w < 2 ^ 32) × AllWords ws

-- The fields of a class identifier hold what their types and the wire allow.
pub record IsClass (c : ClassId) : Type 0 where
  pub oui_fits : c.oui < 2 ^ 24
  pub information_fits : c.information_class < 2 ^ 16
  pub packet_fits : c.packet_class < 2 ^ 16
  pub pad_fits : c.pad_bits < 32

module _ (wire : List ℕ) where
  -- The part gives `a` and leaves the offset `n` words further, before `rest`.
  pub record Reads {A : Type 0} (r : Read A) (a : A) (offset n : ℕ) (rest : List ℕ) : Type 0 where
    pub end : ℕ
    pub end_lem : end ≡ offset + 4 * n
    pub run : r ≡ ok (a, end)
    pub at : drop end wire ≡ rest

  pub take_word-Reads :
      (offset v : ℕ) (rest : List ℕ)
      → v < 2 ^ 32
      → drop offset wire ≡ bytes_of v ++ rest
      → Reads (take_word wire (length wire) offset) v offset 1 rest
  unfolding take_word
  take_word-Reads offset v rest fit h = record {
    end = offset + 4;
    end_lem = omega arith;
    run =
        let room = length-drop offset wire in
        let four : length (drop offset wire) ≡ 4 + length rest = omega (arith, ap length h) in
        let pass : (ltb (length wire) offset || ltb (length wire - offset) 4) ≡ false =
          ground arith in
        rw (pass, load32-at wire offset v rest fit h);
    at = sym (drop-drop offset 4 wire) ∙ ap (drop 4) h;
  }

  pub Reads-done :
      {A : Type 0} (a : A) (offset : ℕ) (rest : List ℕ)
      → drop offset wire ≡ rest
      → Reads (ok (a, offset)) a offset 0 rest
  Reads-done a offset rest h = record { end = offset; end_lem = omega arith; run = refl; at = h }

  pub Reads-bind :
      {A B : Type 0} {r : Read A} {a : A} {offset n m : ℕ} {rest rest' : List ℕ}
      (f : A × ℕ → Read B) (b : B)
      → Reads r a offset n rest
      → ((o : ℕ) → drop o wire ≡ rest → Reads (f (a, o)) b o m rest')
      → Reads (r >>= f) b offset (n + m) rest'
  Reads-bind f b p q =
      let k = q p.end p.at in
      record {
        end = k.end;
        end_lem = omega (arith, p.end_lem, k.end_lem);
        run = rw p.run k.run;
        at = k.at;
      }

  pub Reads-count :
      {A : Type 0} {r : Read A} {a : A} {offset n m : ℕ} {rest : List ℕ}
      → n ≡ m
      → Reads r a offset n rest
      → Reads r a offset m rest
  Reads-count e p = record {
    end = p.end;
    end_lem = omega (arith, p.end_lem);
    run = p.run;
    at = p.at;
  }

  pub stream-Reads :
      (type offset : ℕ) (s : Option ℕ) (rest : List ℕ)
      → eq_bool (has_sid type) (has_value s) ≡ true
      → AllWords (stream_words s)
      → drop offset wire ≡ all_bytes (stream_words s) ++ rest
      → Reads (read_stream wire (length wire) type offset) s offset (length (stream_words s)) rest
  unfolding read_stream
  stream-Reads type offset none rest e f h =
      let n : has_sid type ≡ false = ground arith in rw n (Reads-done none offset rest h)
  stream-Reads type offset (some s) rest e f h =
      let y : has_sid type ≡ true = ground arith in
      rw y (
        Reads-bind (λ v. ok (some v.0, v.1)) (some s) (take_word-Reads offset s rest f.0 h)
          (λ o at. Reads-done (some s) o rest at))

  class_of-words :
      (c : ClassId)
      → IsClass c
      → (class_of (c.pad_bits * 2 ^ 27 + c.oui) (c.information_class * 2 ^ 16 + c.packet_class) ≡ c)
        × (((c.pad_bits * 2 ^ 27 + c.oui) / 2 ^ 24 % 8 == 0) ≡ true)
  unfolding class_of
  class_of-words c v = (ground arith, ground arith)

  pub class-Reads :
      (offset : ℕ) (c : ClassId) (rest : List ℕ)
      → IsClass c
      → drop offset wire ≡ all_bytes (class_words (some c)) ++ rest
      → Reads (read_class wire (length wire) true offset) (some c) offset 2 rest
  unfolding read_class
  class-Reads offset c rest v h =
      let (e, z) = class_of-words c v in
      Reads-bind {m = 1} _ (some c) (take_word-Reads offset _ _ (omega arith) h) λ o1 at1.
        Reads-bind {m = 0} _ (some c) (take_word-Reads o1 _ rest (omega arith) at1)
          λ o2 at2. rw (z, e) (Reads-done (some c) o2 rest at2)

  integer-part :
      (none_sent : Bool) (offset i : ℕ) (rest : List ℕ)
      → i < 2 ^ 32
      → (none_sent ≡ true → i ≡ 0)
      → drop offset wire ≡ all_bytes (if none_sent then [] else i ∷ []) ++ rest
      → Reads
          (if none_sent then ok (0, offset) else take_word wire (length wire) offset)
          i
          offset
          (length (if none_sent then [] else i ∷ []))
          rest
  integer-part true offset i rest fit z h = rw (z refl) (Reads-done 0 offset rest h)
  integer-part false offset i rest fit z h = take_word-Reads offset i rest fit h

  pub integer-Reads :
      (offset : ℕ) (t : Timestamp) (rest : List ℕ)
      → t.integer < 2 ^ 32
      → (t.tsi ≡ 0 → t.integer ≡ 0)
      → drop offset wire ≡ all_bytes (integer_words t) ++ rest
      → Reads
          (read_integer wire (length wire) t.tsi offset)
          t.integer
          offset
          (length (integer_words t))
          rest
  unfolding read_integer
  integer-Reads offset t rest fit z h =
      integer-part (t.tsi == 0) offset t.integer rest fit (λ e. z (ground arith)) h

  fraction-part :
      (none_sent : Bool) (offset x : ℕ) (rest : List ℕ)
      → x < 2 ^ 64
      → (none_sent ≡ true → x ≡ 0)
      → drop offset wire
        ≡ all_bytes (if none_sent then [] else (x / 2 ^ 32) ∷ (x % 2 ^ 32) ∷ []) ++ rest
      → Reads
          (if none_sent
            then ok (0, offset)
            else (take_word wire (length wire) offset >>= λ a.
                take_word wire (length wire) a.1 >>= λ b. ok (a.0 * 2 ^ 32 + b.0, b.1)))
          x
          offset
          (length (if none_sent then [] else (x / 2 ^ 32) ∷ (x % 2 ^ 32) ∷ []))
          rest
  fraction-part true offset x rest fit z h = rw (z refl) (Reads-done 0 offset rest h)
  fraction-part false offset x rest fit z h =
      let e : x / 2 ^ 32 * 2 ^ 32 + x % 2 ^ 32 ≡ x = omega arith in
      Reads-bind {m = 1} _ x (take_word-Reads offset _ _ (omega arith) h) λ o1 at1.
        Reads-bind {m = 0} _ x (take_word-Reads o1 _ rest (omega arith) at1)
          λ o2 at2. rw e (Reads-done x o2 rest at2)

  pub fraction-Reads :
      (offset : ℕ) (t : Timestamp) (rest : List ℕ)
      → t.fractional < 2 ^ 64
      → (t.tsf ≡ 0 → t.fractional ≡ 0)
      → drop offset wire ≡ all_bytes (fraction_words t) ++ rest
      → Reads
          (read_fraction wire (length wire) t.tsf offset)
          t.fractional
          offset
          (length (fraction_words t))
          rest
  unfolding read_fraction
  fraction-Reads offset t rest fit z h =
      fraction-part (t.tsf == 0) offset t.fractional rest fit (λ e. z (ground arith)) h
