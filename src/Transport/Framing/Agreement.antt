-- ===== src/Transport/Framing/Agreement.antt =====
-- Reading a packet from segments agrees with decoding it as a whole.
use vrt_framework.Prelude.{
  ℕ, suc, ◌+◌, ◌-◌, ◌*◌, ◌/◌, ◌%◌, ◌^◌, ◌≤◌, ◌≡◌, refl, ap, ◌∙◌, subst, inl, inr, Bool, true, false,
  ◌||◌, none, List, arith, ltb, ◌==◌, if◌then◌else◌, Bool-cases, bit, length, take,
}
use vrt_framework.Core.Error.{error_needs, short_input, Result, ok, err, ◌>>=◌, Result-cases}
use vrt_framework.Codec.Words.{load32}
use vrt_framework.Codec.Envelope.{is_command, absent_id}
use vrt_framework.Codec.Measure.{has_sid}
use vrt_framework.Codec.Decode.{
  read_flags, take_word, read_stream, read_class, read_integer, read_fraction, read_identifier,
  read_command, read_prologue,
}
use vrt_framework.Transport.Framing.{
  Storage, Reader, fetch_word, fetch_stream, fetch_class, fetch_integer, fetch_fraction,
  fetch_identifier, fetch_command, fetch_prologue,
}
use vrt_framework.Transport.Framing.Copies.{readable, joined, ensure-joined, load32-take}

module _ (ps : List (List ℕ)) where
  abbrev wire : List ℕ
  wire = joined ps

  abbrev storage : Storage
  storage = record { byte_size = length wire; parts = readable ps }

  -- The reader has copied what stands before the offset, and at most `n` words are still read.
  pub record Follows (n offset : ℕ) (r : Reader) : Type 0 where
    pub copied_lem : r.copied ≡ take offset wire
    pub offset_lem : r.offset ≡ offset
    pub bound : offset + 4 * n ≤ 68

  -- Two results that agree: the same value and following readers, or two errors.
  abbrev pub Related : {A : Type 0} → ℕ → Result (A × ℕ) → Result (A × Reader) → Type 0
  Related n (ok (a, o)) (ok (b, r)) = (a ≡ b) × Follows n o r
  Related n (err e) (err f) = Unit {0}
  Related n _ _ = ⊥

  Related-bind :
      {A B : Type 0} (n m : ℕ) (x : Result (A × ℕ)) (y : Result (A × Reader))
      (f : A × ℕ → Result (B × ℕ)) (g : A × Reader → Result (B × Reader))
      → Related n x y
      → ((a : A) (o : ℕ) (r : Reader) → Follows n o r → Related m (f (a, o)) (g (a, r)))
      → Related m (x >>= f) (y >>= g)
  Related-bind n m (ok (a, o)) (ok (b, r)) f g (e, h) k =
      subst (λ c. Related m (f (a, o)) (g (c, r))) e (k a o r h)
  Related-bind n m (err e) (err e') f g h k = tt
  Related-bind n m (ok a) (err e') f g h k = absurd h
  Related-bind n m (err e) (ok b) f g h k = absurd h

  -- A wider budget of words serves for a narrower one.
  Follows-fewer : (n m o : ℕ) (r : Reader) → m ≤ n → Follows n o r → Follows m o r
  Follows-fewer n m o r le h = record {
    copied_lem = h.copied_lem;
    offset_lem = h.offset_lem;
    bound = omega (arith, h.bound);
  }

  fetched :
      (o : ℕ)
      → o + 4 ≤ 68
      → fetch_word storage (record { copied = take o wire; offset = o }) ≡ (
          if ltb (length wire) (o + 4)
          then err (error_needs short_input (length (take o wire)) (o + 4))
          else ok (load32 wire o, record { copied = take (o + 4) wire; offset = o + 4 }))
  unfolding fetch_word
  fetched o b =
      let e = ensure-joined ps o (o + 4) (omega arith) in
      let small : ltb 68 (o + 4) ≡ false = ground (arith, b) in
      elim (Bool-cases (ltb (length wire) (o + 4))) [
        | inl out ↦
            ap (λ x. x >>= (λ p. ok (load32 p o, record { copied = p; offset = o + 4 }))) e
            ∙ rw (small, out) refl
        | inr room ↦
            ap (λ x. x >>= (λ p. ok (load32 p o, record { copied = p; offset = o + 4 }))) e
            ∙ rw (small, room)
                (ap (λ v. ok (v, record { copied = take (o + 4) wire; offset = o + 4 }))
                  (load32-take o (o + 4) wire (omega arith)))
      ]

  word-Related :
      (n o : ℕ) (r : Reader)
      → Follows (suc n) o r
      → Related n (take_word wire (length wire) o) (fetch_word storage r)
  unfolding take_word
  word-Related n o r h =
      let same : r ≡ record { copied = take o wire; offset = o } =
        cc (h.copied_lem, h.offset_lem) in
      let b : o + 4 * suc n ≤ 68 = h.bound in
      let f = fetched o (omega arith) in
      elim (Bool-cases (ltb (length wire) (o + 4))) [
        | inl out ↦
            let t : (ltb (length wire) o || ltb (length wire - o) 4) ≡ true = ground (arith, out) in
            rw (same, f, out, t) tt
        | inr room ↦
            let t : (ltb (length wire) o || ltb (length wire - o) 4) ≡ false =
              ground (arith, room) in
            rw (same, f, room, t)
              (refl, record { copied_lem = refl; offset_lem = refl; bound = omega arith })
      ]

  done-Related :
      {A : Type 0} (n m : ℕ) (a : A) (o : ℕ) (r : Reader)
      → m ≤ n
      → Follows n o r
      → Related m (ok (a, o)) (ok (a, r))
  done-Related n m a o r le h = (refl, Follows-fewer n m o r le h)

  abbrev at : Reader → ℕ
  at r = r.offset

  stream-Related :
      (n type o : ℕ) (r : Reader)
      → Follows (suc n) o r
      → Related n
          (read_stream wire (length wire) type o)
          (fetch_stream (fetch_word storage) at type r)
  unfolding read_stream fetch_stream
  stream-Related n type o r h = elim (Bool-cases (has_sid type)) [
    | inl sid ↦ rw sid (Related-bind n n _ _ _ _ (word-Related n o r h) (λ a o' r' h'. (refl, h')))
    | inr bare ↦ rw bare (done-Related (suc n) n none o r (omega arith) h)
  ]

  class-Related :
      (n o : ℕ) (b : Bool) (r : Reader)
      → Follows (suc (suc n)) o r
      → Related n (read_class wire (length wire) b o) (fetch_class (fetch_word storage) at b r)
  unfolding read_class fetch_class
  class-Related n o false r h = done-Related (suc (suc n)) n none o r (omega arith) h
  class-Related n o true r h =
      Related-bind (suc n) n _ _ _ _ (word-Related (suc n) o r h) λ a o1 r1 h1.
        Related-bind n n _ _ _ _ (word-Related n o1 r1 h1) λ b o2 r2 h2.
          elim (Bool-cases (a / 2 ^ 24 % 8 == 0)) [
            | inl good ↦ rw good (refl, h2)
            | inr bad ↦ rw bad tt
          ]

  integer-Related :
      (n tsi o : ℕ) (r : Reader)
      → Follows (suc n) o r
      → Related n
          (read_integer wire (length wire) tsi o)
          (fetch_integer (fetch_word storage) at tsi r)
  unfolding read_integer fetch_integer
  integer-Related n tsi o r h = elim (Bool-cases (tsi == 0)) [
    | inl unsent ↦ rw unsent (done-Related (suc n) n 0 o r (omega arith) h)
    | inr sent ↦ rw sent (word-Related n o r h)
  ]

  fraction-Related :
      (n tsf o : ℕ) (r : Reader)
      → Follows (suc (suc n)) o r
      → Related n
          (read_fraction wire (length wire) tsf o)
          (fetch_fraction (fetch_word storage) at tsf r)
  unfolding read_fraction fetch_fraction
  fraction-Related n tsf o r h = elim (Bool-cases (tsf == 0)) [
    | inl unsent ↦ rw unsent (done-Related (suc (suc n)) n 0 o r (omega arith) h)
    | inr sent ↦ rw sent (
        Related-bind (suc n) n _ _ _ _ (word-Related (suc n) o r h)
          λ a o1 r1 h1. Related-bind n n _ _ _ _ (word-Related n o1 r1 h1) λ b o2 r2 h2. (refl, h2))
  ]

  identifier-Related :
      (n o : ℕ) (enable is_uuid : Bool) (r : Reader)
      → Follows (suc (suc (suc (suc n)))) o r
      → Related n
          (read_identifier wire (length wire) enable is_uuid o)
          (fetch_identifier (fetch_word storage) at enable is_uuid r)
  unfolding read_identifier fetch_identifier
  identifier-Related n o false u r h =
      done-Related (suc (suc (suc (suc n)))) n absent_id o r (omega arith) h
  identifier-Related n o true false r h =
      Related-bind (suc (suc (suc n))) n _ _ _ _ (word-Related (suc (suc (suc n))) o r h)
        λ a o1 r1 h1. (refl, Follows-fewer (suc (suc (suc n))) n o1 r1 (omega arith) h1)
  identifier-Related n o true true r h =
      Related-bind (suc (suc (suc n))) n _ _ _ _ (word-Related (suc (suc (suc n))) o r h)
        λ a o1 r1 h1.
          Related-bind (suc (suc n)) n _ _ _ _ (word-Related (suc (suc n)) o1 r1 h1) λ b o2 r2 h2.
            Related-bind (suc n) n _ _ _ _ (word-Related (suc n) o2 r2 h2) λ c o3 r3 h3.
              Related-bind n n _ _ _ _ (word-Related n o3 r3 h3) λ d o4 r4 h4. (refl, h4)

  command-Related :
      (type o : ℕ) (r : Reader)
      → Follows 10 o r
      → Related 0
          (read_command wire (length wire) type o)
          (fetch_command (fetch_word storage) at type r)
  unfolding read_command fetch_command
  command-Related type o r h = elim (Bool-cases (is_command type)) [
    | inr other ↦ rw other (done-Related 10 0 none o r (omega arith) h)
    | inl command ↦ rw command (
        Related-bind 9 0 _ _ _ _ (word-Related 9 o r h) λ a o1 r1 h1.
          Related-bind 8 0 _ _ _ _ (word-Related 8 o1 r1 h1) λ b o2 r2 h2.
            Related-bind 4 0 _ _ _ _ (identifier-Related 4 o2 (bit a 31) (bit a 30) r2 h2)
              λ c o3 r3 h3.
                Related-bind 0 0 _ _ _ _ (identifier-Related 0 o3 (bit a 29) (bit a 28) r3 h3)
                  λ d o4 r4 h4. (refl, h4))
  ]

  pub prologue-Related :
      (h : ℕ) (r : Reader)
      → Follows 16 4 r
      → Related 0 (read_prologue wire (length wire) h) (fetch_prologue (fetch_word storage) at h r)
  unfolding read_prologue fetch_prologue
  prologue-Related h r f0 = elim (Result-cases (read_flags (h / 2 ^ 28) h)) [
    | inr (e, bad) ↦ rw bad tt
    | inl (flags, good) ↦ rw good (
        Related-bind 15 0 _ _ _ _ (stream-Related 15 (h / 2 ^ 28) 4 r f0) λ s o1 r1 f1.
          Related-bind 13 0 _ _ _ _ (class-Related 13 o1 (bit h 27) r1 f1) λ c o2 r2 f2.
            Related-bind 12 0 _ _ _ _ (integer-Related 12 (h / 2 ^ 22 % 4) o2 r2 f2) λ i o3 r3 f3.
              Related-bind 10 0 _ _ _ _ (fraction-Related 10 (h / 2 ^ 20 % 4) o3 r3 f3)
                λ x o4 r4 f4.
                  Related-bind 0 0 _ _ _ _ (command-Related (h / 2 ^ 28) o4 r4 f4)
                    λ m o5 r5 f5. (refl, f5))
  ]
