-- ===== src/Memory/Envelope/Storage.antt =====
-- Segments that are appended to a packet to transmit.
use vrt_framework.Prelude.{
  if◌then◌else◌, ℕ, zero, suc, ◌+◌, ◌-◌, ◌^◌, ◌<◌, ◌≤◌, ◌≡◌, refl, sym, ap, ◌∙◌, inl, inr, ◌⊎◌,
  false, not, ◌||◌, arith, ltb, Bool-cases, add64, sub64, u64_max, Option, some, none, length,
  get_elem?, get_or, take, drop, ◌==◌, List, [], ◌∷◌, ◌++◌, Bool, true, length-append,
}
use vrt_framework.Core.Error.{
  error, invalid_argument, capacity_exhausted, overflow, err, done, ok, ◌>>=◌,
}
use vrt_framework.Memory.Envelope.{
  SegmentRef, Lease, no_lease, bytes, segment_bytes, own_bytes, TxStorage, tx_byte_size, tx_append,
  tx_segment,
}
use vrt_framework.Memory.Envelope.Retain.{get_or-append, get_or-last}

tx_byte_size-append :
    (ss : List SegmentRef) (s : SegmentRef)
    → tx_byte_size (ss ++ (s ∷ [])) ≡ add64 (tx_byte_size ss) s.extent
unfolding tx_byte_size
tx_byte_size-append [] s = omega arith
tx_byte_size-append (x ∷ ss) s = omega (arith, tx_byte_size-append ss s)

tx_byte_size_bound : (ss : List SegmentRef) → tx_byte_size ss < 2 ^ 64
unfolding tx_byte_size
tx_byte_size_bound [] = omega arith
tx_byte_size_bound (x ∷ ss) = omega arith

get_elem?-last :
    (ss : List SegmentRef) (s : SegmentRef) → get_elem? (ss ++ (s ∷ [])) (length ss) ≡ some s
get_elem?-last [] s = refl
get_elem?-last (x ∷ ss) s = get_elem?-last ss s

get_elem?-append :
    (ss : List SegmentRef) (s : SegmentRef) (i : ℕ)
    → (i == length ss) ≡ false
    → get_elem? (ss ++ (s ∷ [])) i ≡ get_elem? ss i
get_elem?-append [] s zero h = absurd (ground (arith, h))
get_elem?-append [] s (suc i) h = refl
get_elem?-append (x ∷ ss) s zero h = refl
get_elem?-append (x ∷ ss) s (suc i) h = get_elem?-append ss s i (ground (arith, h))

get_elem?-past : (ss : List SegmentRef) (i : ℕ) → length ss ≤ i → get_elem? ss i ≡ none
get_elem?-past [] i h = refl
get_elem?-past (x ∷ ss) zero h = absurd (omega (arith, h))
get_elem?-past (x ∷ ss) (suc i) h = get_elem?-past ss i (omega (arith, h))

own_bytes_at :
    (i : ℕ) (o : Option SegmentRef) (xs ys : List Lease)
    → get_or xs i no_lease ≡ get_or ys i no_lease
    → own_bytes xs i o ≡ own_bytes ys i o
unfolding segment_bytes
own_bytes_at i none xs ys h = refl
own_bytes_at i (some s) xs ys h = ap (λ l. bytes l >>= λ b. ok (take s.extent (drop s.offset b))) h

module _ (xs : List Lease) (ss : List SegmentRef) (l : Lease) (s : SegmentRef)
    (n : length xs ≡ length ss) where
  own_bytes-last :
      own_bytes (xs ++ (l ∷ [])) (length ss) (get_elem? (ss ++ (s ∷ [])) (length ss))
      ≡ (bytes l >>= λ b. ok (take s.extent (drop s.offset b)))
  unfolding segment_bytes
  own_bytes-last =
      ap (own_bytes (xs ++ (l ∷ [])) (length ss)) (get_elem?-last ss s)
      ∙ ap (λ l. bytes l >>= λ b. ok (take s.extent (drop s.offset b)))
          (ap (λ i. get_or (xs ++ (l ∷ [])) i no_lease) (sym n) ∙ get_or-last xs l)

  own_bytes-append :
      (i : ℕ)
      → (i == length ss) ≡ false
      → own_bytes (xs ++ (l ∷ [])) i (get_elem? (ss ++ (s ∷ [])) i)
        ≡ own_bytes xs i (get_elem? ss i)
  own_bytes-append i h =
      ap (own_bytes (xs ++ (l ∷ [])) i) (get_elem?-append ss s i h)
      ∙ elim (Bool-cases (ltb i (length ss))) [
        | inl old ↦
            own_bytes_at i (get_elem? ss i) (xs ++ (l ∷ [])) xs
              (get_or-append xs (l ∷ []) i (ground (arith, n, old)))
        | inr past ↦ rw (get_elem?-past ss i (ground (arith, past))) refl
      ]

  own_bytes-either :
      (i : ℕ)
      → own_bytes (xs ++ (l ∷ [])) i (get_elem? (ss ++ (s ∷ [])) i) ≡ (
          if i == length ss
          then (bytes l >>= λ b. ok (take s.extent (drop s.offset b)))
          else own_bytes xs i (get_elem? ss i))
  own_bytes-either i = elim (Bool-cases (i == length ss)) [
    | inl last ↦ rw last (
        ap (λ j. own_bytes (xs ++ (l ∷ [])) j (get_elem? (ss ++ (s ∷ [])) j)) (ground (arith, last))
        ∙ own_bytes-last)
    | inr other ↦ rw other (own_bytes-append i other)
  ]

-- The lease is live and has the `extent` bytes, at least one, from `offset` on.
abbrev pub Lendable : Lease → ℕ → ℕ → Type 0
Lendable l offset extent = (l.live ≡ true) × (offset + extent ≤ l.size) × (0 < extent)

abbrev refused : Lease → ℕ → ℕ → Bool
refused l offset extent =
    not l.live || ltb l.size offset || ltb (l.size - offset) extent || extent == 0

refused-true :
    (l : Lease) (offset extent : ℕ)
    → refused l offset extent ≡ true
    → (l.live ≡ false) ⊎ (l.size < offset + extent) ⊎ (extent ≡ 0)
refused-true l offset extent h = elim (Bool-cases l.live) [
  | inl on ↦ elim (Bool-cases (extent == 0)) [
    | inl nothing ↦ inr (inr (ground (arith, nothing)))
    | inr some_bytes ↦ inr (inl (ground (arith, h, on, some_bytes)))
  ]
  | inr off ↦ inl off
]

refused-false :
    (l : Lease) (offset extent : ℕ) → refused l offset extent ≡ false → Lendable l offset extent
refused-false l offset extent h = (ground (arith, h), ground (arith, h), ground (arith, h))

length-last {ℓ} : {A : Type ℓ} (xs : List A) (x : A) → length (xs ++ (x ∷ [])) ≡ length xs + 1
length-last xs x = length-append xs (x ∷ [])

-- For a storage of as many leases as segments, at most three, the answer of an append is exactly one of
-- these. If the lease is not live, or the bytes from the offset on do not lie in it, or there are none
-- of them: an invalid argument. Otherwise, if there are three segments: exhausted capacity; and if there
-- are fewer, but the size of all would reach 2 ^ 64: an overflow. Each of these changes nothing. In the
-- remaining case the append succeeds, with one more lease and one more segment, the size is the sum of
-- the old one and the new segment's, the segment with the next number is read as the given bytes of the
-- lease are, an error where the lease has an error, and every other number is read as before.
pub tx_append_lem :
    (t : TxStorage) (l : Lease) (offset extent i : ℕ)
    → length t.leases ≡ length t.segments
    → length t.segments ≤ 3
    → (((l.live ≡ false) ⊎ (l.size < offset + extent) ⊎ (extent ≡ 0))
        × (tx_append t l offset extent ≡ (t, err (error invalid_argument))))
      ⊎ (Lendable l offset extent
          × (length t.segments ≡ 3)
          × (tx_append t l offset extent ≡ (t, err (error capacity_exhausted))))
      ⊎ (Lendable l offset extent
          × (length t.segments < 3)
          × (2 ^ 64 ≤ tx_byte_size t.segments + extent)
          × (tx_append t l offset extent ≡ (t, err (error overflow))))
      ⊎ (Lendable l offset extent
          × (length t.segments < 3)
          × (tx_byte_size t.segments + extent < 2 ^ 64)
          × ((tx_append t l offset extent).1 ≡ done)
          × (length (tx_append t l offset extent).0.leases ≡ length t.leases + 1)
          × (length (tx_append t l offset extent).0.segments ≡ length t.segments + 1)
          × (tx_byte_size (tx_append t l offset extent).0.segments
              ≡ tx_byte_size t.segments + extent)
          × (tx_segment (tx_append t l offset extent).0 i ≡ (
              if i == length t.segments
              then (bytes l >>= λ b. ok (take extent (drop offset b)))
              else tx_segment t i)))
unfolding tx_append tx_segment segment_bytes
tx_append_lem t l offset extent i n three = elim (Bool-cases (refused l offset extent)) [
  | inl bad ↦ inl (refused-true l offset extent bad, rw bad refl)
  | inr good ↦
      let lends = refused-false l offset extent good in
      elim (Bool-cases (length t.segments == 3)) [
        | inl full ↦ inr (inl (lends, ground (arith, full), rw (good, full) refl))
        | inr room ↦
            let fewer : length t.segments < 3 = ground (arith, room, three) in
            let bound = tx_byte_size_bound t.segments in
            elim (Bool-cases (ltb (sub64 u64_max (tx_byte_size t.segments)) extent)) [
              | inl over ↦ inr (
                  inr (inl (lends, fewer, ground (arith, bound, over), rw (good, room, over) refl)))
              | inr fits ↦
                  let s : SegmentRef = record {
                    lease = length t.segments;
                    offset = offset;
                    extent = extent;
                  } in
                  let sum : tx_byte_size t.segments + extent < 2 ^ 64 =
                    ground (arith, bound, fits) in
                  inr (
                    inr (
                      inr (
                        lends,
                        fewer,
                        sum,
                        rw (good, room, fits) refl,
                        rw (good, room, fits) (length-last t.leases l),
                        rw (good, room, fits) (length-last t.segments s),
                        rw (good, room, fits)
                            (omega (arith, tx_byte_size-append t.segments s, sum)),
                        rw (good, room, fits) (own_bytes-either t.leases t.segments l s n i),
                      )))
            ]
      ]
]
