-- ===== src/Samples/Segmented/Agreement.antt =====
-- include/vita/codec/segmented_samples.hpp: the view over pieces agrees with the view over their bytes in a row.
use vrt_framework.Prelude.{
  ℕ, zero, suc, ◌+◌, ◌-◌, ◌/◌, ◌^◌, ◌≤◌, ◌<◌, ◌≡◌, refl, sym, ap, ◌∙◌, inl, inr, true, false, not,
  List, [], ◌∷◌, ◌++◌, arith, ltb, leb, ◌==◌, if◌then◌else◌, ==_iff, Bool-cases, u64_max, add64,
  sub64, length, get_or, length-append,
}
use vrt_framework.Core.Error.{
  error, error_needs, invalid_argument, short_input, Result, ok, ◌>>=◌, ◌>>◌, guard, >>=-eq-ok,
  Result-cases, >>-eq-ok,
}
use vrt_framework.Samples.Bits.{read_loop, read_bits}
use vrt_framework.Samples.Packing
use vrt_framework.Samples.Packing.{
  PackingSpec, Limits, Shape, Item, PackedSamples, measure, bit_offset, channel_tag_at,
  event_tag_at,
}
use vrt_framework.Samples.Descriptor.{
  Descriptor, PayloadBinding, evidence_holds, measure_payload, contiguous,
}
use vrt_framework.Samples.Segmented.{
  Piece, Segment, SegmentedSamples, byte_from, byte, read_from, read, collect, create, read_item,
  item_at,
}

-- The bytes of the pieces in a row.
abbrev pub joined : List Piece → List ℕ
joined [] = []
joined (p ∷ ps) = p.content ++ joined ps

abbrev pub AllReadable : List Piece → Type 0
AllReadable [] = Unit
AllReadable (p ∷ ps) = (0 < p.address) × AllReadable ps

abbrev segments_of : ℕ → List Piece → List Segment
segments_of b [] = []
segments_of b (p ∷ ps) =
    let rest = segments_of (b + length p.content) ps in
    if length p.content == 0
    then segments_of b ps
    else record { bytes = p.content; last = b + length p.content } ∷ rest

empty-nil : (xs : List ℕ) → (length xs == 0) ≡ true → xs ≡ []
empty-nil [] h = refl
empty-nil (x ∷ xs) h = absurd (ground (arith, h))

collect_lem :
    (ps : List Piece) (b : ℕ)
    → AllReadable ps
    → b + length (joined ps) < 2 ^ 64
    → collect b ps ≡ ok (segments_of b ps, b + length (joined ps))
collect_lem [] b r h = ap (λ n. ok ([], n)) (omega arith)
collect_lem (p ∷ ps) b r h =
    let len = length-append p.content (joined ps) in
    elim (Bool-cases (length p.content == 0)) [
      | inl empty ↦
          let z : length p.content ≡ 0 = (==_iff _ _).0 empty in
          rw empty (
            collect_lem ps b r.1 (omega (arith, len))
            ∙ ap (λ n. ok (segments_of b ps, n)) (omega (arith, len, z)))
      | inr full ↦
          let live : (p.address == 0) ≡ false = ground (arith, r.0) in
          let fits : ltb (sub64 u64_max b) (length p.content) ≡ false = ground (arith, len, h) in
          let next : add64 b (length p.content) ≡ b + length p.content = omega (arith, len) in
          let ih = collect_lem ps (b + length p.content) r.1 (omega (arith, len)) in
          rw (full, live, fits, next, ih)
            (ap
              (λ n. ok (
                record { bytes = p.content; last = b + length p.content }
                    ∷ segments_of (b + length p.content) ps,
                n,
              ))
              (omega (arith, len)))
    ]

get_or-append_left :
    (xs ys : List ℕ) (i : ℕ) → i < length xs → get_or (xs ++ ys) i 0 ≡ get_or xs i 0
get_or-append_left [] ys i h = absurd (omega arith)
get_or-append_left (x ∷ xs) ys zero h = refl
get_or-append_left (x ∷ xs) ys (suc i) h = get_or-append_left xs ys i (omega arith)

get_or-append_right : (xs ys : List ℕ) (i : ℕ) → get_or (xs ++ ys) (length xs + i) 0 ≡ get_or ys i 0
get_or-append_right [] ys i = ap (λ k. get_or ys k 0) (omega arith)
get_or-append_right (x ∷ xs) ys i =
    let e : suc (length xs) + i ≡ suc (length xs + i) = omega arith in
    rw e (get_or-append_right xs ys i)

byte_lem :
    (ps : List Piece) (b o : ℕ)
    → b ≤ o
    → byte_from b (segments_of b ps) o ≡ get_or (joined ps) (o - b) 0
byte_lem [] b o le = refl
byte_lem (p ∷ ps) b o le = elim (Bool-cases (length p.content == 0)) [
  | inl empty ↦ rw (empty, empty-nil p.content empty) (byte_lem ps b o le)
  | inr full ↦ rw full (elim (Bool-cases (ltb o (b + length p.content))) [
    | inl here ↦
        rw here (sym (get_or-append_left p.content (joined ps) (o - b) (ground (arith, here))))
    | inr later ↦
        let past : b + length p.content ≤ o = ground (arith, later) in
        let e : o - b ≡ length p.content + (o - (b + length p.content)) = omega arith in
        rw (later, e)
          (byte_lem ps (b + length p.content) o past
            ∙ sym (get_or-append_right p.content (joined ps) (o - (b + length p.content))))
  ])
]

module _ (v : SegmentedSamples) (ps : List Piece) (same : v.segments ≡ segments_of 0 ps) where
  read_from_lem : (n k value : ℕ) → read_from v k n value ≡ read_loop (joined ps) k n value
  unfolding byte
  read_from_lem zero k value = refl
  read_from_lem (suc n) k value =
      let e : byte v (k / 8) ≡ get_or (joined ps) (k / 8) 0 =
        ap (λ ss. byte_from 0 ss (k / 8)) same
        ∙ byte_lem ps 0 (k / 8) (omega arith)
        ∙ ap (λ t. get_or (joined ps) t 0) (omega arith) in
      rw e (read_from_lem n (add64 k 1) _)

  read_lem : (k n : ℕ) → read v k n ≡ read_bits (joined ps) k n
  unfolding read read_bits
  read_lem k n = read_from_lem n k 0

  read_item_lem : (s : PackingSpec) (o : ℕ) → read_item s v o ≡ Packing.read_item s (joined ps) o
  read_item_lem s o = cc (
    read_lem o s.item_bits,
    read_lem (channel_tag_at s o) s.channel_tag_bits,
    read_lem (event_tag_at s o) s.event_tag_bits,
  )

  item_at_lem :
      (i : ℕ)
      → item_at v i
        ≡ Packing.item_at
            (record { bytes = joined ps; spec = v.descriptor.packing; shape = v.shape })
            i
  unfolding item_at Packing.item_at
  item_at_lem i = elim (Bool-cases (leb v.shape.items i)) [
    | inl past ↦ rw past refl
    | inr inside ↦ rw inside (ap ok (read_item_lem v.descriptor.packing _))
  ]

measure_payload-eq-ok :
    (d : Descriptor) (binding : PayloadBinding) (limits : Limits) {shape : Shape}
    → measure_payload d binding limits ≡ ok shape
    → measure d.packing binding.structures limits ≡ ok shape
unfolding measure_payload
measure_payload-eq-ok d binding limits h =
    let (s, m, rest) = >>=-eq-ok (measure d.packing binding.structures limits) _ h in
    let (holds, e) =
      >>-eq-ok (evidence_holds binding.padding _ d.packing.item_bits) (error invalid_argument)
        (ok s) rest in
    m ∙ e

-- The checks of the sizes, which both views make alike.
sized-agree :
    {A B : Type 0} (size bytes : ℕ) (x : A) (y : B) (f : A → Result Item) (g : B → Result Item)
    → f x ≡ g y
    → (guard (not (ltb size bytes)) (error_needs short_input 0 bytes)
        >> (guard (size == bytes) (error invalid_argument) >> ok x)
        >>= f)
      ≡ (guard (not (ltb size bytes)) (error_needs short_input 0 bytes)
          >> (guard (size == bytes) (error invalid_argument) >> ok y)
          >>= g)
sized-agree size bytes x y f g e = elim (Bool-cases (ltb size bytes)) [
  | inl short ↦ rw short refl
  | inr long ↦
      rw long
        (elim (Bool-cases (size == bytes)) [ inl same ↦ rw same e | inr other ↦ rw other refl ])
]

-- For at most as many pieces as there is room for, none of them null, of less than 2^64 bytes: at every
-- index the view over the pieces has the item that the view over their bytes in a row has, and both
-- report the same error where the payload does not fit its description or the index is out of range.
pub item_at-joined :
    (max_segments : ℕ) (ps : List Piece) (d : Descriptor) (binding : PayloadBinding)
    (limits : Limits) (i : ℕ)
    → length ps ≤ max_segments
    → AllReadable ps
    → length (joined ps) < 2 ^ 64
    → (create max_segments ps d binding limits >>= λ v. item_at v i)
      ≡ (contiguous (joined ps) d binding limits >>= λ w. Packing.item_at w i)
unfolding create contiguous Packing.create
item_at-joined max_segments ps d binding limits i few readable small =
    let room : ltb max_segments (length ps) ≡ false = ground (arith, few) in
    let all = collect_lem ps 0 readable (omega (arith, small)) in
    let size : 0 + length (joined ps) ≡ length (joined ps) = omega arith in
    rw room (elim (Result-cases (measure_payload d binding limits)) [
      | inr (e, failed) ↦ rw failed refl
      | inl (shape, measured) ↦
          let m = measure_payload-eq-ok d binding limits measured in
          rw (measured, all, size, m)
            (let v : SegmentedSamples = record {
              segments = segments_of 0 ps;
              descriptor = d;
              shape = shape;
            } in
              sized-agree (length (joined ps)) shape.bytes v
                (record { bytes = joined ps; spec = d.packing; shape = shape }) (λ v. item_at v i)
                (λ w. Packing.item_at w i) (item_at_lem v ps refl i))
    ])
