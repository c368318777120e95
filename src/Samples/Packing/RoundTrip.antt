-- ===== src/Samples/Packing/RoundTrip.antt =====
-- include/vita/codec/general_samples.hpp: items that are packed are read back.
use vrt_framework.Prelude.{
  &&-cases, ℕ, zero, suc, ◌+◌, ◌-◌, ◌*◌, ◌/◌, ◌%◌, ◌^◌, ◌≤◌, ◌<◌, ◌≡◌, refl, sym, ap, ◌∙◌, ◌⊎◌, inl,
  inr, Bool, true, false, ◌&&◌, not, some, List, [], ◌∷◌, ◌++◌, arith, ltb, ◌==◌, if◌then◌else◌,
  Bool-cases, some-injective, mul64, length, get_elem?, get_or, take, drop, replicate,
  length-replicate, take-append,
}
use vrt_framework.Core.Error.{
  Error, error, error_needs, invalid_argument, short_input, Result, ok, err, ◌>>=◌, ◌>>◌, guard,
  is_ok, ok-injective,
}
use vrt_framework.Samples.Bits.{
  read_bits, write_bits, bit_at, Bytes, write-facts, write-outside, write-inside, read_bits_lem,
  read_bits_same,
}
use vrt_framework.Samples.Packing.{
  PackingMode, PackingSpec, Limits, Shape, Item, fits, item_fits, all_fit, channel_tag_at,
  event_tag_at, read_item, write_item, write_items, mode_offset, bit_offset, link, processing,
  unknown_mode, bad_widths, multiply, overlap, measure, PackedSamples, create, item_at, packed,
  with_shape, pack,
}
use vrt_framework.Samples.Packing.Extents.{
  exact_offset, exact_offset_step, IsMeasured, measure-IsMeasured, positive,
}
use native.Mathlib.Nat.{pow-le-pow_right, div-lt_iff_lt-mul, one-le-pow, zero-div}

abbrev Clear : List ℕ → ℕ → ℕ → Type 0
Clear bs k n = (j : ℕ) → k ≤ j → j < k + n → bit_at bs j ≡ 0

abbrev Apart : ℕ → ℕ → ℕ → ℕ → Type 0
Apart k n k' n' = (k + n ≤ k') ⊎ (k' + n' ≤ k)

fits-lt : (v n : ℕ) → v < 2 ^ 64 → fits v n ≡ true → v < 2 ^ n
fits-lt v n b h = elim (Bool-cases (n == 64)) [
  | inl whole ↦ let e : n ≡ 64 = ground (arith, whole) in rw e b
  | inr part ↦
      let z : v / 2 ^ n ≡ 0 = ground (arith, part, h) in
      let lt =
        (div-lt_iff_lt-mul {x = v} {y = 1} (one-le-pow n 2 (omega arith))).0 (omega (arith, z)) in
      omega (arith, lt)
]

-- Byte sequences of one size.
module _ (size : ℕ) (room : 8 * size < 2 ^ 64) where
  abbrev IsBuffer : List ℕ → Type 0
  IsBuffer bs = Bytes bs × (length bs ≡ size)

  write_bits-IsBuffer :
      (bs : List ℕ) (k n v : ℕ) → IsBuffer bs → k + n ≤ 8 * size → IsBuffer (write_bits bs k n v)
  unfolding write_bits
  write_bits-IsBuffer bs k n v (g, l) fit =
      let (g', l') = write-facts n bs k v g (omega arith) (omega arith) in (g', l' ∙ l)

  write_bits-outside :
      (bs : List ℕ) (k n v j : ℕ)
      → IsBuffer bs
      → k + n ≤ 8 * size
      → (j < k) ⊎ (k + n ≤ j)
      → bit_at (write_bits bs k n v) j ≡ bit_at bs j
  unfolding write_bits
  write_bits-outside bs k n v j (g, l) fit o =
      write-outside n bs k v j g (omega arith) (omega arith) o

  -- A field is read as what was written into clear bits.
  write_bits-read :
      (bs : List ℕ) (k n v : ℕ)
      → IsBuffer bs
      → k + n ≤ 8 * size
      → Clear bs k n
      → v < 2 ^ n
      → n ≤ 64
      → read_bits (write_bits bs k n v) k n ≡ v
  unfolding write_bits
  write_bits-read bs k n v (g, l) fit clear small width =
      let word : v < 2 ^ 64 = omega (arith, pow-le-pow_right {n = 2} (omega arith) width) in
      read_bits_lem n (write_bits bs k n v) k v (omega arith) word small (λ i lt.
        write-inside n bs k v i g (omega arith) (omega arith)
          (λ j jn. clear (k + j) (omega arith) (omega arith)) lt)

  -- A field apart from it is read as before, and stays clear.
  write_bits-keeps :
      (bs : List ℕ) (k n v k' n' : ℕ)
      → IsBuffer bs
      → k + n ≤ 8 * size
      → k' + n' ≤ 8 * size
      → Apart k n k' n'
      → read_bits (write_bits bs k n v) k' n' ≡ read_bits bs k' n'
  write_bits-keeps bs k n v k' n' g fit fit' apart =
      read_bits_same n' (write_bits bs k n v) bs k' (omega arith) (λ j lo hi.
        write_bits-outside bs k n v j g fit
          (elim apart [ inl a ↦ inr (omega arith) | inr b ↦ inl (omega arith) ]))

  write_bits-Clear :
      (bs : List ℕ) (k n v k' n' : ℕ)
      → IsBuffer bs
      → k + n ≤ 8 * size
      → Apart k n k' n'
      → Clear bs k' n'
      → Clear (write_bits bs k n v) k' n'
  write_bits-Clear bs k n v k' n' g fit apart clear j lo hi =
      write_bits-outside bs k n v j g fit
        (elim apart [ inl a ↦ inr (omega arith) | inr b ↦ inl (omega arith) ])
      ∙ clear j lo hi

widths-facts :
    (s : PackingSpec)
    → bad_widths s ≡ false
    → (s.item_bits + s.channel_tag_bits + s.event_tag_bits ≤ s.packing_bits)
      × (s.item_bits ≤ 64)
      × (s.packing_bits ≤ 64)
      × (s.channel_tag_bits ≤ 15)
      × (s.event_tag_bits ≤ 7)
widths-facts s h = ground arith

-- The fields of an item are 64-bit words.
abbrev pub IsWord : Item → Type 0
IsWord x = (x.data_bits < 2 ^ 64) × (x.channel_tag < 2 ^ 64) × (x.event_tag < 2 ^ 64)

abbrev pub AllWords : List Item → Type 0
AllWords [] = Unit
AllWords (x ∷ xs) = IsWord x × AllWords xs

item_fits-lt :
    (s : PackingSpec) (x : Item)
    → IsWord x
    → item_fits s x ≡ true
    → (x.data_bits < 2 ^ s.item_bits)
      × (x.channel_tag < 2 ^ s.channel_tag_bits)
      × (x.event_tag < 2 ^ s.event_tag_bits)
item_fits-lt s x (d, c, e) h =
    let both = fits x.data_bits s.item_bits && fits x.channel_tag s.channel_tag_bits in
    let (p, r) = &&-cases both (fits x.event_tag s.event_tag_bits) h in
    let (q, q') =
      &&-cases (fits x.data_bits s.item_bits) (fits x.channel_tag s.channel_tag_bits) p in
    (
      fits-lt x.data_bits s.item_bits d q,
      fits-lt x.channel_tag s.channel_tag_bits c q',
      fits-lt x.event_tag s.event_tag_bits e r,
    )

mode_offset_exact :
    (m : PackingMode) (p i : ℕ)
    → exact_offset m p i < 2 ^ 64
    → mode_offset m p i ≡ exact_offset m p i
mode_offset_exact link p i h = omega arith
mode_offset_exact processing p i h = omega arith
mode_offset_exact unknown_mode p i h = omega arith

module _ (s : PackingSpec) (shape : Shape) (m : IsMeasured s shape) where
  -- Writing an item into clear bits: what is read there afterwards, and what stays.
  write_item-facts :
      (bs : List ℕ) (o : ℕ) (x : Item)
      → IsBuffer shape.bytes m.room bs
      → o + s.packing_bits ≤ 8 * shape.bytes
      → Clear bs o s.packing_bits
      → IsWord x
      → item_fits s x ≡ true
      → IsBuffer shape.bytes m.room (write_item s bs o x)
        × ((j : ℕ)
            → (j < o) ⊎ (o + s.packing_bits ≤ j)
            → bit_at (write_item s bs o x) j ≡ bit_at bs j)
        × (read_item s (write_item s bs o x) o ≡ x)
  unfolding write_item
  write_item-facts bs o x g fit clear words small =
      let (narrow, a64, p64, c15, e7) = widths-facts s m.widths in
      let (da, ca, ea) = item_fits-lt s x words small in
      let a = s.item_bits in
      let c = s.channel_tag_bits in
      let e = s.event_tag_bits in
      let n = shape.bytes in
      let r = m.room in
      let ck = channel_tag_at s o in
      let ek = event_tag_at s o in
      let ce : channel_tag_at s o ≡ o + s.packing_bits - c = omega (arith, r) in
      let ee : event_tag_at s o ≡ o + s.packing_bits - c - e = omega (arith, r) in
      let b1 = write_bits bs o a x.data_bits in
      let b2 = write_bits b1 ck c x.channel_tag in
      let b3 = write_bits b2 ek e x.event_tag in
      let g1 = write_bits-IsBuffer n r bs o a x.data_bits g (omega arith) in
      let g2 = write_bits-IsBuffer n r b1 ck c x.channel_tag g1 (omega arith) in
      let g3 = write_bits-IsBuffer n r b2 ek e x.event_tag g2 (omega arith) in
      let clear1 : Clear b1 ck c =
        write_bits-Clear n r bs o a x.data_bits ck c g (omega arith) (inl (omega arith))
          (λ j lo hi. clear j (omega arith) (omega arith)) in
      let clear1' : Clear b1 ek e =
        write_bits-Clear n r bs o a x.data_bits ek e g (omega arith) (inl (omega arith))
          (λ j lo hi. clear j (omega arith) (omega arith)) in
      let clear2 : Clear b2 ek e =
        write_bits-Clear n r b1 ck c x.channel_tag ek e g1 (omega arith) (inr (omega arith))
          clear1' in
      let tag : read_bits b3 ck c ≡ x.channel_tag =
        write_bits-keeps n r b2 ek e x.event_tag ck c g2 (omega arith) (omega arith)
          (inl (omega arith))
        ∙ write_bits-read n r b1 ck c x.channel_tag g1 (omega arith) clear1 ca (omega arith) in
      let event : read_bits b3 ek e ≡ x.event_tag =
        write_bits-read n r b2 ek e x.event_tag g2 (omega arith) clear2 ea (omega arith) in
      let value : read_bits b3 o a ≡ x.data_bits =
        write_bits-keeps n r b2 ek e x.event_tag o a g2 (omega arith) (omega arith)
          (inr (omega arith))
        ∙ write_bits-keeps n r b1 ck c x.channel_tag o a g1 (omega arith) (omega arith)
            (inr (omega arith))
        ∙ write_bits-read n r bs o a x.data_bits g (omega arith)
            (λ j lo hi. clear j (omega arith) (omega arith)) da a64 in
      (
        g3,
        λ j out.
            write_bits-outside n r b2 ek e x.event_tag j g2 (omega arith)
              (elim out [ inl l ↦ inl (omega arith) | inr h ↦ inr (omega arith) ])
            ∙ write_bits-outside n r b1 ck c x.channel_tag j g1 (omega arith)
                (elim out [ inl l ↦ inl (omega arith) | inr h ↦ inr (omega arith) ])
            ∙ write_bits-outside n r bs o a x.data_bits j g (omega arith)
                (elim out [ inl l ↦ inl (omega arith) | inr h ↦ inr (omega arith) ]),
        cc (value, tag, event),
      )

  offset : ℕ → ℕ
  offset i = exact_offset s.packing s.packing_bits i

  bit_offset_exact : (i : ℕ) → i < shape.items → bit_offset s i ≡ offset i
  unfolding bit_offset offset
  bit_offset_exact i lt =
      mode_offset_exact s.packing s.packing_bits i (omega (arith, m.cover i lt, m.room))

  offset_fits : (i : ℕ) → i < shape.items → offset i + s.packing_bits ≤ 8 * shape.bytes
  unfolding offset
  offset_fits i lt = m.cover i lt

  offset_step : (i : ℕ) → offset i + s.packing_bits ≤ offset (i + 1)
  unfolding offset
  offset_step i =
      exact_offset_step s.packing s.packing_bits i (positive s m.widths) m.narrow m.known

  -- An item is read from its bits alone.
  read_item_same :
      (bs cs : List ℕ) (o : ℕ)
      → o + s.packing_bits ≤ 8 * shape.bytes
      → ((j : ℕ) → o ≤ j → j < o + s.packing_bits → bit_at bs j ≡ bit_at cs j)
      → read_item s bs o ≡ read_item s cs o
  read_item_same bs cs o fit same =
      let (narrow, a64, p64, c15, e7) = widths-facts s m.widths in
      let r = m.room in
      let ce : channel_tag_at s o ≡ o + s.packing_bits - s.channel_tag_bits = omega (arith, r) in
      let ee : event_tag_at s o ≡ o + s.packing_bits - s.channel_tag_bits - s.event_tag_bits =
        omega (arith, r) in
      cc (
        read_bits_same s.item_bits bs cs o (omega arith)
            (λ j lo hi. same j (omega arith) (omega arith)),
        read_bits_same s.channel_tag_bits bs cs (channel_tag_at s o) (omega arith)
            (λ j lo hi. same j (omega arith) (omega arith)),
        read_bits_same s.event_tag_bits bs cs (event_tag_at s o) (omega arith)
            (λ j lo hi. same j (omega arith) (omega arith)),
      )

  head_and_tail :
      (bs : List ℕ) (i : ℕ) (y : Item) (ys : List Item)
      → read_item s bs (bit_offset s (i + 0)) ≡ y
      → ((k : ℕ) (x : Item)
          → get_elem? ys k ≡ some x
          → read_item s bs (bit_offset s (i + 1 + k)) ≡ x)
      → (k : ℕ) (x : Item) → get_elem? (y ∷ ys) k ≡ some x
      → read_item s bs (bit_offset s (i + k)) ≡ x
  head_and_tail bs i y ys head tail zero x h = head ∙ some-injective h
  head_and_tail bs i y ys head tail (suc k) x h =
      ap (λ t. read_item s bs (bit_offset s t)) (omega arith) ∙ tail k x h

  -- The items of a list are read where they were written, one after the other, into clear bits.
  write_items-facts :
      (xs : List Item) (bs : List ℕ) (i : ℕ)
      → IsBuffer shape.bytes m.room bs
      → i + length xs ≤ shape.items
      → ((j : ℕ) → offset i ≤ j → bit_at bs j ≡ 0)
      → AllWords xs
      → all_fit s xs ≡ true
      → IsBuffer shape.bytes m.room (write_items s bs i xs)
        × ((j : ℕ) → j < offset i → bit_at (write_items s bs i xs) j ≡ bit_at bs j)
        × ((k : ℕ) (x : Item)
            → get_elem? xs k ≡ some x
            → read_item s (write_items s bs i xs) (bit_offset s (i + k)) ≡ x)
  write_items-facts [] bs i g fit clear words small = (g, λ j lt. refl, λ k x h. cc)
  write_items-facts (y ∷ ys) bs i g fit clear words small =
      let (fy, fys) = &&-cases (item_fits s y) (all_fit s ys) small in
      let here : bit_offset s i ≡ offset i = bit_offset_exact i (omega arith) in
      let room = offset_fits i (omega arith) in
      let step = offset_step i in
      let (g', out, value) =
        write_item-facts bs (offset i) y g room (λ j lo hi. clear j lo) words.0 fy in
      let (g2, low, vals) =
        write_items-facts ys (write_item s bs (offset i) y) (i + 1) g' (omega arith)
          (λ j lo. out j (inr (omega arith)) ∙ clear j (omega arith)) words.1 fys in
      let final = write_items s (write_item s bs (offset i) y) (i + 1) ys in
      let first : read_item s final (offset i) ≡ y =
        read_item_same final (write_item s bs (offset i) y) (offset i) room
          (λ j lo hi. low j (omega arith))
        ∙ value in
      rw here (
        g2,
        λ j lt. low j (omega arith) ∙ out j (inl lt),
        head_and_tail final i y ys
            (ap (read_item s final) (ap (bit_offset s) (omega arith) ∙ here) ∙ first) vals,
      )

zeros-Bytes : (n : ℕ) → Bytes (replicate n 0)
zeros-Bytes zero = tt
zeros-Bytes (suc n) = (omega arith, zeros-Bytes n)

zeros_at : (n i : ℕ) → ◌≡◌ {A = ℕ} (get_or (replicate n 0) i 0) 0
zeros_at zero i = refl
zeros_at (suc n) zero = refl
zeros_at (suc n) (suc i) = zeros_at n i

zeros-bit_at : (n j : ℕ) → bit_at (replicate n 0) j ≡ 0
zeros-bit_at n j = rw (zeros_at n (j / 8)) (ap (λ t. t % 2) (zero-div _))

abbrev five_tests :
    (a b c d e : Bool) (o w : List ℕ) (r s t u v : Error) (m : ℕ) → List ℕ × Result ℕ
five_tests a b c d e o w r s t u v m =
    if a
    then (o, err r)
    else if b
    then (o, err s)
    else if c
    then (o, err t)
    else if d
    then (o, err u)
    else if e
    then (o, err v)
    else (w, ok m)

five_checks :
    (a b c d e : Bool) (o w : List ℕ) (r s t u v : Error) (m : ℕ) {n : ℕ}
    → (five_tests a b c d e o w r s t u v m).1 ≡ ok n
    → (a ≡ false) × (e ≡ false) × (five_tests a b c d e o w r s t u v m ≡ (w, ok m))
five_checks a b c d e o w r s t u v m h = ground arith

-- Where packing succeeds, it has passed its checks.
packed-eq-ok :
    (spec : PackingSpec) (items : List Item) (output : List ℕ) (ia oa : ℕ) (shape : Shape) {n : ℕ}
    → (packed spec items output ia oa shape).1 ≡ ok n
    → (length items ≡ shape.items)
      × (all_fit spec items ≡ true)
      × (packed spec items output ia oa shape ≡ (
        write_items spec (replicate shape.bytes 0) 0 items ++ drop shape.bytes output,
        ok shape.bytes,
      ))
packed-eq-ok spec items output ia oa shape h =
    let (few, fit, e) =
      five_checks (not (length items == shape.items)) (ltb (length output) shape.bytes)
        (not (is_ok (multiply (length items) 24)))
        (overlap ia (mul64 (length items) 24) oa shape.bytes) (not (all_fit spec items)) _ _ _ _ _ _
        _ _ h in
    (ground (arith, few), ground (arith, fit), e)

with_shape-eq-ok :
    (spec : PackingSpec) (items : List Item) (output : List ℕ) (ia oa : ℕ) (r : Result Shape)
    {n : ℕ}
    → (with_shape spec items output ia oa r).1 ≡ ok n
    → (shape : Shape) × (r ≡ ok shape)
      × (with_shape spec items output ia oa r ≡ packed spec items output ia oa shape)
with_shape-eq-ok spec items output ia oa (ok shape) h = (shape, refl, refl)
with_shape-eq-ok spec items output ia oa (err e) h = cc

pack-eq-ok :
    (spec : PackingSpec) (structures : ℕ) (items : List Item) (output : List ℕ) (ia oa : ℕ)
    (limits : Limits) {n : ℕ}
    → (pack spec structures items output ia oa limits).1 ≡ ok n
    → (shape : Shape) × (measure spec structures limits ≡ ok shape)
      × (length items ≡ shape.items)
      × (all_fit spec items ≡ true)
      × (pack spec structures items output ia oa limits ≡ (
        write_items spec (replicate shape.bytes 0) 0 items ++ drop shape.bytes output,
        ok shape.bytes,
      ))
unfolding pack
pack-eq-ok spec structures items output ia oa limits {n} h =
    let (shape, m, e) =
      with_shape-eq-ok spec items output ia oa (measure spec structures limits) h in
    let (few, fit, w) =
      packed-eq-ok spec items output ia oa shape {n = n} (sym (ap (λ t. t.1) e) ∙ h) in
    (shape, m, few, fit, e ∙ w)

created :
    (bytes : List ℕ) (spec : PackingSpec) (structures : ℕ) (limits : Limits) (shape : Shape)
    → measure spec structures limits ≡ ok shape
    → length bytes ≡ shape.bytes
    → create bytes spec structures limits
      ≡ ok (record { bytes = bytes; spec = spec; shape = shape })
unfolding create
created bytes spec structures limits shape m l =
    ap
      (λ r. r >>= λ shape.
        guard (not (ltb (length bytes) shape.bytes)) (error_needs short_input 0 shape.bytes)
        >> (guard (length bytes == shape.bytes) (error invalid_argument)
            >> ok (record { bytes = bytes; spec = spec; shape = shape })))
      m
    ∙ ground (arith, l)

item_at_inside :
    (v : PackedSamples) (i : ℕ)
    → i < v.shape.items
    → item_at v i ≡ ok (read_item v.spec v.bytes (bit_offset v.spec i))
unfolding item_at
item_at_inside v i h = ground arith

get_elem?-some-lt : (xs : List Item) (i : ℕ) {x : Item} → get_elem? xs i ≡ some x → i < length xs
get_elem?-some-lt [] i h = absurd (ground (arith, h))
get_elem?-some-lt (x ∷ xs) zero h = omega arith
get_elem?-some-lt (x ∷ xs) (suc i) h = omega (arith, get_elem?-some-lt xs i h)

-- If packing items of 64-bit fields reports that it wrote n bytes, the first n bytes of the output are a
-- view of the packed samples under the same specification and limits, and the item at every index of
-- that view is the item that was packed, with its tags.
pub item_at-pack :
    (spec : PackingSpec) (structures : ℕ) (items : List Item) (output : List ℕ)
    (items_address output_address : ℕ) (limits : Limits) (n i : ℕ) (item : Item)
    → (pack spec structures items output items_address output_address limits).1 ≡ ok n
    → AllWords items
    → get_elem? items i ≡ some item
    → (create
          (take n (pack spec structures items output items_address output_address limits).0)
          spec
          structures
          limits
        >>= λ view. item_at view i)
      ≡ ok item
item_at-pack spec structures items output items_address output_address limits n i item h words at =
    let (shape, m, few, fit, e) =
      pack-eq-ok spec structures items output items_address output_address limits h in
    let ms = (measure-IsMeasured spec structures limits m).0 in
    let zeros : List ℕ = replicate shape.bytes 0 in
    let (g, low, vals) =
      write_items-facts spec shape ms items zeros 0
        (zeros-Bytes shape.bytes, length-replicate shape.bytes 0) (omega (arith, few))
        (λ j lo. zeros-bit_at shape.bytes j) words fit in
    let wire = write_items spec zeros 0 items in
    let count : n ≡ shape.bytes = sym (ok-injective (sym (ap (λ t. t.1) e) ∙ h)) in
    let bytes : take n (pack spec structures items output items_address output_address limits).0
        ≡ wire =
      rw (e, count) (take-append wire (drop shape.bytes output) shape.bytes (sym g.1)) in
    let index = get_elem?-some-lt items i at in
    rw (bytes, created wire spec structures limits shape m g.1)
      (item_at_inside (record { bytes = wire; spec = spec; shape = shape }) i
          (omega (arith, few, index))
        ∙ ap ok (ap (λ t. read_item spec wire (bit_offset spec t)) (omega arith) ∙ vals i item at))
