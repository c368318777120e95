-- ===== src/Samples/Iq/RoundTrip.antt =====
-- include/vita/codec/samples.hpp: packed pairs are read back.
use vrt_framework.Prelude.{
  ℕ, zero, suc, ◌+◌, ◌*◌, ◌/◌, ◌%◌, ◌^◌, ◌≤◌, ◌<◌, ◌≡◌, refl, sym, ap, ◌∙◌, subst, inl, inr, false,
  ◌&&◌, not, some, List, [], ◌∷◌, ◌++◌, append_assoc, arith, ltb, ◌==◌, Bool-cases, some-injective,
  u64_max, add64, mul64, length, get_elem?, take, drop, length-append, drop-append, take-append,
}
use vrt_framework.Core.Error.{error, overflow, Result, ok, err, ◌>>=◌, ok-injective, guard-eq-ok}
use native.Mathlib.Nat.{
  mul-le-mul_right, div-mul-le_self, mul_comm, suc-mul, mul-mod_left, mul-div_cancel,
}
use vrt_framework.Codec.Words.{
  drop-nil, load32, store32, write_at, bytes_of, all_bytes, load32-at, drop-drop, length-all_bytes,
}
use vrt_framework.Samples.Iq.{
  SampleScalar, int16, int32, float32, size_of, Iq, checked_multiply, pack_loop, ranges_overlap,
  packed, pack_iq, create, pair_at, sample_at,
}

-- The words of a pair, and those of all pairs.
abbrev pair_words : SampleScalar → Iq → List ℕ
pair_words int16 p = (p.i * 2 ^ 16 + p.q) ∷ []
pair_words int32 p = p.i ∷ (p.q ∷ [])
pair_words float32 p = p.i ∷ (p.q ∷ [])

abbrev words_of : SampleScalar → List Iq → List ℕ
words_of t [] = []
words_of t (p ∷ ps) = pair_words t p ++ words_of t ps

-- A sample is a bit pattern of its type.
abbrev pub Fits : SampleScalar → Iq → Type 0
Fits t p = (p.i < 2 ^ (8 * size_of t)) × (p.q < 2 ^ (8 * size_of t))

abbrev pub AllFit : SampleScalar → List Iq → Type 0
AllFit t [] = Unit
AllFit t (p ∷ ps) = Fits t p × AllFit t ps

store32-append :
    (pre rest : List ℕ) (o v : ℕ)
    → length pre ≡ o
    → store32 (pre ++ rest) o v ≡ pre ++ (bytes_of v ++ drop 4 rest)
unfolding store32 write_at
store32-append pre rest o v e =
    let d : drop (o + 4) (pre ++ rest) ≡ drop 4 rest =
      sym (drop-drop o 4 (pre ++ rest)) ∙ ap (drop 4) (drop-append pre rest o (sym e)) in
    rw (take-append pre rest o (sym e), d) refl

drop-at : (ws : List ℕ) (k w : ℕ) → get_elem? ws k ≡ some w → drop k ws ≡ w ∷ drop (suc k) ws
drop-at [] k w h = absurd (ground (arith, h))
drop-at (x ∷ ws) zero w h = ap (λ t. t ∷ ws) (some-injective h)
drop-at (x ∷ ws) (suc k) w h = drop-at ws k w h

abbrev store_words : List ℕ → ℕ → List ℕ → List ℕ
store_words output o [] = output
store_words output o (w ∷ ws) = store_words (store32 output o w) (add64 o 4) ws

pack_loop-store_words :
    (t : SampleScalar) (ps : List Iq) (output : List ℕ) (o : ℕ)
    → pack_loop t output o ps ≡ store_words output o (words_of t ps)
pack_loop-store_words int16 [] output o = refl
pack_loop-store_words int32 [] output o = refl
pack_loop-store_words float32 [] output o = refl
pack_loop-store_words int16 (p ∷ ps) output o = pack_loop-store_words int16 ps _ (add64 o 4)
pack_loop-store_words int32 (p ∷ ps) output o =
    let e : add64 o 8 ≡ add64 (add64 o 4) 4 = omega arith in
    rw e (pack_loop-store_words int32 ps _ (add64 (add64 o 4) 4))
pack_loop-store_words float32 (p ∷ ps) output o =
    let e : add64 o 8 ≡ add64 (add64 o 4) 4 = omega arith in
    rw e (pack_loop-store_words float32 ps _ (add64 (add64 o 4) 4))

-- The words are written one after the other.
store_words_lem :
    (ws pre rest : List ℕ) (o : ℕ)
    → length pre ≡ o
    → o + 4 * length ws < 2 ^ 64
    → store_words (pre ++ rest) o ws ≡ pre ++ (all_bytes ws ++ drop (4 * length ws) rest)
store_words_lem [] pre rest o e b = refl
store_words_lem (w ∷ ws) pre rest o e b =
    let len : length (pre ++ bytes_of w) ≡ o + 4 = omega (arith, length-append pre (bytes_of w)) in
    let next : add64 o 4 ≡ o + 4 = omega arith in
    let d : drop (4 * length ws) (drop 4 rest) ≡ drop (4 * suc (length ws)) rest =
      drop-drop 4 (4 * length ws) rest ∙ ap (λ n. drop n rest) (omega arith) in
    rw (store32-append pre rest o w e, next)
      (ap (λ b. store_words b (o + 4) ws) (sym (append_assoc pre (bytes_of w) (drop 4 rest)))
        ∙ store_words_lem ws (pre ++ bytes_of w) (drop 4 rest) (o + 4) len (omega arith)
        ∙ append_assoc pre (bytes_of w) _
        ∙ ap (λ r. pre ++ (bytes_of w ++ (all_bytes ws ++ r))) d)

drop-all_bytes : (ws : List ℕ) (k : ℕ) → drop (4 * k) (all_bytes ws) ≡ all_bytes (drop k ws)
drop-all_bytes ws zero = refl
drop-all_bytes [] (suc k) = drop-nil (4 * suc k)
drop-all_bytes (w ∷ ws) (suc k) =
    let e : 4 * suc k ≡ suc (suc (suc (suc (4 * k)))) = omega arith in rw e (drop-all_bytes ws k)

load32-all_bytes :
    (ws : List ℕ) (k w : ℕ)
    → get_elem? ws k ≡ some w
    → w < 2 ^ 32
    → load32 (all_bytes ws) (4 * k) ≡ w
load32-all_bytes ws k w h b =
    load32-at (all_bytes ws) (4 * k) w (all_bytes (drop (suc k) ws)) b
      (drop-all_bytes ws k ∙ ap all_bytes (drop-at ws k w h))

count_words :
    (t : SampleScalar) (ps : List Iq) → 4 * length (words_of t ps) ≡ length ps * (size_of t * 2)
count_words int16 [] = refl
count_words int32 [] = refl
count_words float32 [] = refl
count_words int16 (p ∷ ps) = omega (arith, count_words int16 ps)
count_words int32 (p ∷ ps) = omega (arith, count_words int32 ps)
count_words float32 (p ∷ ps) = omega (arith, count_words float32 ps)

-- Where the words of a pair stand.
narrow_word :
    (ps : List Iq) (k : ℕ) (p : Iq)
    → get_elem? ps k ≡ some p
    → get_elem? (words_of int16 ps) k ≡ some (p.i * 2 ^ 16 + p.q)
narrow_word [] k p h = absurd (ground (arith, h))
narrow_word (x ∷ ps) zero p h = ap (λ t. some (t.i * 2 ^ 16 + t.q)) (some-injective h)
narrow_word (x ∷ ps) (suc k) p h = narrow_word ps k p h

-- Pairs of 32-bit samples have two words.
abbrev two_words : List Iq → List ℕ
two_words [] = []
two_words (p ∷ ps) = p.i ∷ (p.q ∷ two_words ps)

wide_words :
    (ps : List Iq) (k : ℕ) (p : Iq)
    → get_elem? ps k ≡ some p
    → (get_elem? (two_words ps) (2 * k) ≡ some p.i)
      × (get_elem? (two_words ps) (2 * k + 1) ≡ some p.q)
wide_words [] k p h = absurd (ground (arith, h))
wide_words (x ∷ ps) zero p h =
    (ap (λ t. some t.i) (some-injective h), ap (λ t. some t.q) (some-injective h))
wide_words (x ∷ ps) (suc k) p h =
    let e : 2 * suc k ≡ suc (suc (2 * k)) = omega arith in
    let e' : suc (suc (2 * k)) + 1 ≡ suc (suc (2 * k + 1)) = omega arith in
    rw (e, e') (wide_words ps k p h)

two_words-int32 : (ps : List Iq) → words_of int32 ps ≡ two_words ps
two_words-int32 [] = refl
two_words-int32 (p ∷ ps) = ap (λ r. p.i ∷ (p.q ∷ r)) (two_words-int32 ps)

two_words-float32 : (ps : List Iq) → words_of float32 ps ≡ two_words ps
two_words-float32 [] = refl
two_words-float32 (p ∷ ps) = ap (λ r. p.i ∷ (p.q ∷ r)) (two_words-float32 ps)

AllFit-get_elem? :
    (t : SampleScalar) (ps : List Iq) (k : ℕ) (p : Iq)
    → AllFit t ps
    → get_elem? ps k ≡ some p
    → Fits t p × (k < length ps)
AllFit-get_elem? t [] k p a h = absurd (ground (arith, h))
AllFit-get_elem? t (x ∷ ps) zero p a h = (subst (Fits t) (some-injective h) a.0, omega arith)
AllFit-get_elem? t (x ∷ ps) (suc k) p a h =
    let (f, l) = AllFit-get_elem? t ps k p a.1 h in (f, omega (arith, l))

wide_pair :
    (ps : List Iq) (k : ℕ) (p : Iq) (o : ℕ)
    → get_elem? ps k ≡ some p
    → (p.i < 2 ^ 32) × (p.q < 2 ^ 32)
    → o ≡ 8 * k
    → o + 8 < 2 ^ 64
    → (load32 (all_bytes (two_words ps)) o ≡ p.i)
      × (load32 (all_bytes (two_words ps)) (add64 o 4) ≡ p.q)
wide_pair ps k p o h (bi, bq) e lt =
    let (i, q) = wide_words ps k p h in
    let e0 : o ≡ 4 * (2 * k) = omega arith in
    let e1 : add64 o 4 ≡ 4 * (2 * k + 1) = omega arith in
    (
      ap (load32 (all_bytes (two_words ps))) e0 ∙ load32-all_bytes (two_words ps) (2 * k) p.i i bi,
      ap (load32 (all_bytes (two_words ps))) e1
          ∙ load32-all_bytes (two_words ps) (2 * k + 1) p.q q bq,
    )

pair_at_lem :
    (t : SampleScalar) (ps : List Iq) (k : ℕ) (p : Iq) (o : ℕ)
    → get_elem? ps k ≡ some p
    → Fits t p
    → o ≡ k * (size_of t * 2)
    → o + size_of t * 2 < 2 ^ 64
    → pair_at t (all_bytes (words_of t ps)) o ≡ p
pair_at_lem int16 ps k p o h (bi, bq) e lt =
    let w = load32-all_bytes (words_of int16 ps) k _ (narrow_word ps k p h) (omega arith) in
    let l : load32 (all_bytes (words_of int16 ps)) o ≡ p.i * 2 ^ 16 + p.q =
      ap (load32 (all_bytes (words_of int16 ps))) (omega (arith, e)) ∙ w in
    ground (arith, l)
pair_at_lem int32 ps k p o h b e lt =
    rw (two_words-int32 ps) (let w = wide_pair ps k p o h b (omega (arith, e)) lt in cc (w.0, w.1))
pair_at_lem float32 ps k p o h b e lt =
    rw (two_words-float32 ps)
      (let w = wide_pair ps k p o h b (omega (arith, e)) lt in cc (w.0, w.1))

product_fits : (a b : ℕ) → (not (a == 0) && ltb (u64_max / a) b) ≡ false → a * b < 2 ^ 64
product_fits zero b h = omega arith
product_fits (suc a) b h =
    let le : b ≤ u64_max / suc a = ground (arith, h) in
    omega (arith, mul-le-mul_right (suc a) le, div-mul-le_self u64_max (suc a), mul_comm (suc a) b)

checked_multiply-eq-ok :
    (a b : ℕ) {c : ℕ} → checked_multiply a b ≡ ok c → (c ≡ a * b) × (a * b < 2 ^ 64)
unfolding checked_multiply
checked_multiply-eq-ok a b {c} h =
    let (small, value) = guard-eq-ok (not (a == 0) && ltb (u64_max / a) b) (error overflow) _ h in
    let bound : a * b < 2 ^ 64 = product_fits a b small in
    (omega (arith, ok-injective value, bound), bound)

packed-eq-ok :
    (t : SampleScalar) (ps : List Iq) (output : List ℕ) (source destination : ℕ) (r : Result ℕ)
    {n : ℕ}
    → (packed t ps output source destination r).1 ≡ ok n
    → (r ≡ ok n) × (packed t ps output source destination r ≡ (pack_loop t output 0 ps, ok n))
packed-eq-ok t ps output source destination (err e) h = cc
packed-eq-ok t ps output source destination (ok m) h = elim (Bool-cases (ltb (length output) m)) [
  | inl short ↦ absurd (ground (arith, h, short))
  | inr long ↦ elim (Bool-cases (not (m == 0) && ranges_overlap source destination m)) [
    | inl shared ↦ absurd (ground (arith, rw (long, shared) at h))
    | inr apart ↦
        rw (long, apart) (let e : m ≡ _ = ok-injective (rw (long, apart) at h) in rw e (refl, refl))
  ]
]

pack_iq-eq-ok :
    (t : SampleScalar) (ps : List Iq) (output : List ℕ) (source destination : ℕ) {n : ℕ}
    → (pack_iq t ps output source destination).1 ≡ ok n
    → (checked_multiply (length ps) (size_of t * 2) ≡ ok n)
      × (pack_iq t ps output source destination ≡ (pack_loop t output 0 ps, ok n))
unfolding pack_iq
pack_iq-eq-ok t ps output source destination h = packed-eq-ok t ps output source destination _ h

size_pos : (t : SampleScalar) → 0 < size_of t * 2
size_pos int16 = omega arith
size_pos int32 = omega arith
size_pos float32 = omega arith

offset_lem :
    (t : SampleScalar) (k : ℕ)
    → k * (size_of t * 2) < 2 ^ 64
    → mul64 (mul64 k (size_of t)) 2 ≡ k * (size_of t * 2)
offset_lem int16 k h = omega arith
offset_lem int32 k h = omega arith
offset_lem float32 k h = omega arith

view_lem :
    (t : SampleScalar) (bytes : List ℕ) (count k : ℕ) (p : Iq)
    → length bytes ≡ count * (size_of t * 2)
    → k < count
    → count * (size_of t * 2) < 2 ^ 64
    → ((o : ℕ) → o ≡ k * (size_of t * 2) → pair_at t bytes o ≡ p)
    → (create t bytes >>= λ v. sample_at t v k) ≡ ok p
unfolding create sample_at
view_lem t bytes count k p len lt bound at =
    let w = size_of t * 2 in
    let whole : length bytes % w ≡ 0 = ap (λ l. l % w) len ∙ mul-mod_left count w in
    let full : length bytes / w ≡ count = ap (λ l. l / w) len ∙ mul-div_cancel count (size_pos t) in
    let below : k * w < 2 ^ 64 = omega (arith, mul-le-mul_right w lt, suc-mul k w, bound) in
    let o : mul64 (mul64 k (size_of t)) 2 ≡ k * w = offset_lem t k below in
    rw (whole, full) (ground (arith, lt, at _ o))

-- If packing pairs whose samples are bit patterns of their type reports that it wrote n bytes, the first n
-- bytes of the output are a view of that type, and the pair at every index of the view is the pair that
-- was packed.
pub sample_at-pack_iq :
    (t : SampleScalar) (ps : List Iq) (output : List ℕ) (source destination n k : ℕ) (p : Iq)
    → (pack_iq t ps output source destination).1 ≡ ok n
    → AllFit t ps
    → get_elem? ps k ≡ some p
    → (create t (take n (pack_iq t ps output source destination).0) >>= λ v. sample_at t v k) ≡ ok p
sample_at-pack_iq t ps output source destination n k p h a at =
    let (m, w) = pack_iq-eq-ok t ps output source destination h in
    let (count, bound) = checked_multiply-eq-ok (length ps) (size_of t * 2) m in
    let words = words_of t ps in
    let total = count_words t ps in
    let (fit, lt) = AllFit-get_elem? t ps k p a at in
    let bytes_len : length (all_bytes words) ≡ n = length-all_bytes words ∙ total ∙ sym count in
    let rest = drop (4 * length words) output in
    let written : pack_loop t output 0 ps ≡ all_bytes words ++ rest =
      pack_loop-store_words t ps output 0
      ∙ store_words_lem words [] output 0 refl (omega (arith, total, bound)) in
    let bytes : take n (pack_iq t ps output source destination).0 ≡ all_bytes words =
      ap (λ r. take n r.0) w
      ∙ ap (take n) written
      ∙ take-append (all_bytes words) rest n (sym bytes_len) in
    rw bytes (
      view_lem t (all_bytes words) (length ps) k p (bytes_len ∙ count) lt bound (λ o e.
        pair_at_lem t ps k p o at fit e
          (omega (arith, mul-le-mul_right (size_of t * 2) lt, suc-mul k (size_of t * 2)))))
