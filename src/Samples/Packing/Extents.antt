-- ===== src/Samples/Packing/Extents.antt =====
-- include/vita/codec/general_samples.hpp: what a measured shape promises about the places of the items.
use vrt_framework.Prelude.{
  ℕ, zero, suc, ◌+◌, ◌*◌, ◌/◌, ◌%◌, ◌^◌, ◌≤◌, ◌<◌, ◌≡◌, refl, sym, ap, ◌∙◌, inl, inr, Bool, true,
  false, ◌&&◌, not, arith, ltb, ◌==◌, if◌then◌else◌, Bool-cases, u64_max,
}
use vrt_framework.Core.Error.{
  Error, error, error_needs, overflow, resource_limit, ok, ◌>>◌, guard, >>=-eq-ok, ok-injective,
  guard-eq-ok, >>-eq-ok,
}
use vrt_framework.Samples.Packing.{
  PackingMode, link, processing, unknown_mode, known_mode, is_known_kind, known_repeat,
  repeats_well, wide_processing, bad_widths, PackingSpec, Limits, Shape, components, multiply,
  validate, mode_words, measure_items, measure,
}
use native.Mathlib.Nat.{
  mul-le-mul_right, div-add-mod', mod-lt, div-mul-le_self, div-eq_of_lt-le, mod-eq-sub-div-mul,
  div-lt_iff_lt-mul, mul_comm, le-div_iff_mul-le, add-mul, suc-mul,
}

product_fits : (a b : ℕ) → (not (a == 0) && ltb (u64_max / a) b) ≡ false → a * b < 2 ^ 64
product_fits zero b h = omega arith
product_fits (suc a) b h =
    let le : b ≤ u64_max / suc a = ground (arith, h) in
    omega (arith, mul-le-mul_right (suc a) le, div-mul-le_self u64_max (suc a), mul_comm (suc a) b)

pub multiply-eq-ok : (a b : ℕ) {c : ℕ} → multiply a b ≡ ok c → (c ≡ a * b) × (a * b < 2 ^ 64)
unfolding multiply
multiply-eq-ok a b {c} h =
    let (small, value) = guard-eq-ok (not (a == 0) && ltb (u64_max / a) b) (error overflow) _ h in
    let bound : a * b < 2 ^ 64 = product_fits a b small in
    (omega (arith, ok-injective value, bound), bound)

-- The offset of an item without the wrap-around.
abbrev pub exact_offset : PackingMode → ℕ → ℕ → ℕ
exact_offset link p i = i * p
exact_offset processing p i = i / (32 / p) * 32 + i % (32 / p) * p
exact_offset unknown_mode p i = i / (32 / p) * 32 + i % (32 / p) * p

words_cover :
    (n per : ℕ) (i : ℕ) → 0 < per → i < n → i / per < n / per + (if n % per == 0 then 0 else 1)
words_cover n per i pos lt =
    let split = div-add-mod' n per in
    elim (Bool-cases (n % per == 0)) [
      | inl whole ↦ rw whole (
          omega
            (arith, (div-lt_iff_lt-mul {x = i} {y = n / per} pos).1 (ground (arith, whole, split))))
      | inr more ↦ rw more (
          (div-lt_iff_lt-mul {x = i} {y = n / per + 1} pos).1
            (omega (arith, split, mod-lt n pos, add-mul (n / per) 1 per)))
    ]

per_fits : (p : ℕ) → 0 < p → p ≤ 32 → (0 < 32 / p) × (32 / p * p ≤ 32)
per_fits p pos le = ((le-div_iff_mul-le {x = 1} pos).1 (omega arith), div-mul-le_self 32 p)

-- Within a word of processing-efficient packing.
word_fits : (p r : ℕ) → 0 < p → p ≤ 32 → r < 32 / p → r * p + p ≤ 32
word_fits p r pos le lt = omega (arith, mul-le-mul_right p lt, (per_fits p pos le).1, suc-mul r p)

step_word :
    (per p i : ℕ)
    → 0 < per
    → per * p ≤ 32
    → i / per * 32 + i % per * p + p ≤ (i + 1) / per * 32 + (i + 1) % per * p
step_word per p i pos fit =
    let q = i / per in
    let r = i % per in
    let split = div-add-mod' i per in
    let below = mod-lt i pos in
    let mods = mod-eq-sub-div-mul (i + 1) per in
    elim (Bool-cases (ltb (r + 1) per)) [
      | inl inside ↦
          let d : (i + 1) / per ≡ q =
            div-eq_of_lt-le per (omega (arith, split))
              (ground (arith, split, inside, add-mul q 1 per)) in
          let m : (i + 1) % per ≡ r + 1 = mods ∙ rw d (omega (arith, split)) in
          rw (d, m) (omega (arith, add-mul r 1 p))
      | inr last ↦
          let full : r + 1 ≡ per = ground (arith, last, below) in
          let d : (i + 1) / per ≡ q + 1 =
            div-eq_of_lt-le per (omega (arith, split, full, add-mul q 1 per))
              (omega (arith, split, full, add-mul q 1 per, add-mul (q + 1) 1 per)) in
          let m : r * p + p ≡ per * p = sym (add-mul r 1 p ∙ omega arith) ∙ ap (λ t. t * p) full in
          rw d (omega (arith, m, fit))
    ]

-- The next item begins at or after the end of an item.
pub exact_offset_step :
    (m : PackingMode) (p i : ℕ)
    → 0 < p
    → wide_processing m p ≡ false
    → known_mode m ≡ true
    → exact_offset m p i + p ≤ exact_offset m p (i + 1)
exact_offset_step link p i pos narrow known = omega (arith, add-mul i 1 p)
exact_offset_step processing p i pos narrow known =
    let (per_pos, fit) = per_fits p pos (ground (arith, narrow)) in
    step_word (32 / p) p i per_pos fit
exact_offset_step unknown_mode p i pos narrow known = absurd (ground (arith, known))

pub mode_words_cover :
    (m : PackingMode) (p items i : ℕ) {words : ℕ}
    → 0 < p
    → wide_processing m p ≡ false
    → known_mode m ≡ true
    → mode_words m p items ≡ ok words
    → i < items
    → exact_offset m p i + p ≤ 32 * words
mode_words_cover link p items i {words} pos narrow known h lt =
    let (bits, e, w) = >>=-eq-ok (multiply items p) _ h in
    let exact = multiply-eq-ok items p e in
    ground (arith, ok-injective w, exact, mul-le-mul_right p lt, suc-mul i p)
mode_words_cover processing p items i {words} pos narrow known h lt =
    let le : p ≤ 32 = ground (arith, narrow) in
    let (per_pos, fit) = per_fits p pos le in
    let cover = words_cover items (32 / p) i per_pos lt in
    let word = word_fits p (i % (32 / p)) pos le (mod-lt i per_pos) in
    let w = ok-injective h in omega (arith, w, cover, word)
mode_words_cover unknown_mode p items i {words} pos narrow known h lt =
    absurd (ground (arith, known))

-- What a successful measurement has checked and computed.
pub record IsMeasured (s : PackingSpec) (shape : Shape) : Type 0 where
  pub widths : bad_widths s ≡ false
  pub known : known_mode s.packing ≡ true
  pub narrow : wide_processing s.packing s.packing_bits ≡ false
  pub repeats : repeats_well s.repeating s.kind s.repeat_count ≡ true
  pub known_kind : is_known_kind s.kind ≡ true
  pub repeat_known : known_repeat s.repeating ≡ true
  pub group : shape.items_per_structure ≡ s.vector_size * s.repeat_count * components s.kind
  pub total : shape.items ≡ shape.structures * shape.items_per_structure
  pub few : shape.items < 2 ^ 64
  pub room : 8 * shape.bytes < 2 ^ 64
  pub cover :
      (i : ℕ)
      → i < shape.items
      → exact_offset s.packing s.packing_bits i + s.packing_bits ≤ 8 * shape.bytes

pub positive : (s : PackingSpec) → bad_widths s ≡ false → 0 < s.packing_bits
positive s h = ground (arith, h)

-- Checks in a row.
guards-eq-ok :
    (a b c d e f : Bool) (x y : Error) {u : Unit {0}}
    → (guard a x >> (guard b x >> (guard c x >> (guard d x >> (guard e x >> guard f y))))) ≡ ok u
    → (a ≡ true) × (b ≡ true) × (c ≡ true) × (d ≡ true) × (e ≡ true) × (f ≡ true)
guards-eq-ok a b c d e f x y h = ground arith

validate-eq-ok :
    (s : PackingSpec) {u : Unit {0}}
    → validate s ≡ ok u
    → (known_mode s.packing ≡ true)
      × (is_known_kind s.kind ≡ true)
      × (known_repeat s.repeating ≡ true)
      × (not (bad_widths s) ≡ true)
      × (repeats_well s.repeating s.kind s.repeat_count ≡ true)
      × (not (wide_processing s.packing s.packing_bits) ≡ true)
unfolding validate
validate-eq-ok s h =
    guards-eq-ok (known_mode s.packing) (is_known_kind s.kind) (known_repeat s.repeating)
      (not (bad_widths s)) (repeats_well s.repeating s.kind s.repeat_count)
      (not (wide_processing s.packing s.packing_bits)) _ _ h

not-eq-true : (b : Bool) → not b ≡ true → b ≡ false
not-eq-true true h = absurd (ground (arith, h))
not-eq-true false h = refl

measure_items-eq-ok :
    (s : PackingSpec) (structures group items : ℕ) (limits : Limits) {shape : Shape}
    → measure_items s structures group items limits ≡ ok shape
    → (words : ℕ) × (mode_words s.packing s.packing_bits items ≡ ok words)
      × (shape ≡ record {
        structures = structures;
        items_per_structure = group;
        items = items;
        bytes = words * 4;
      })
      × (words * 4 * 8 < 2 ^ 64)
unfolding measure_items
measure_items-eq-ok s structures group items limits h =
    let (few, h5) =
      >>-eq-ok (not (ltb limits.max_items items)) (error_needs resource_limit 0 items) _ h in
    let (words, m4, h6) = >>=-eq-ok (mode_words s.packing s.packing_bits items) _ h5 in
    let (bytes, m5, h7) = >>=-eq-ok (multiply words 4) _ h6 in
    let (bits, m6, h8) = >>=-eq-ok (multiply bytes 8) _ h7 in
    let (small, h9) =
      >>-eq-ok (not (ltb limits.max_bytes bytes)) (error_needs resource_limit 0 bytes) _ h8 in
    let e5 = multiply-eq-ok words 4 m5 in
    let e6 = multiply-eq-ok bytes 8 m6 in
    (words, m4, sym (ok-injective h9) ∙ ground (arith, e5), omega (arith, e5, e6))

pub measure-IsMeasured :
    (s : PackingSpec) (structures : ℕ) (limits : Limits) {shape : Shape}
    → measure s structures limits ≡ ok shape
    → IsMeasured s shape × (shape.structures ≡ structures)
unfolding measure
measure-IsMeasured s structures limits {shape} h =
    let (u, v, h1) = >>=-eq-ok (validate s) _ h in
    let (known, kind, repeat_known, widths, repeats, narrow) = validate-eq-ok s v in
    let (samples, m1, h2) = >>=-eq-ok (multiply s.vector_size s.repeat_count) _ h1 in
    let (group, m2, h3) = >>=-eq-ok (multiply samples (components s.kind)) _ h2 in
    let (items, m3, h4) = >>=-eq-ok (multiply structures group) _ h3 in
    let (words, w, e, room) = measure_items-eq-ok s structures group items limits h4 in
    let e1 = multiply-eq-ok s.vector_size s.repeat_count m1 in
    let e2 = multiply-eq-ok samples (components s.kind) m2 in
    let e3 = multiply-eq-ok structures group m3 in
    let wide = not-eq-true _ narrow in
    let bad = not-eq-true _ widths in
    (
      record {
        widths = bad;
        known = known;
        narrow = wide;
        repeats = repeats;
        known_kind = kind;
        repeat_known = repeat_known;
        group = ap (λ x. x.items_per_structure) e ∙ e2.0 ∙ ap (λ t. t * components s.kind) e1.0;
        total = rw e (e3.0);
        few = rw e (omega (arith, e3));
        room = rw e (omega (arith, room));
        cover = rw e (λ i lt.
            let c =
              mode_words_cover s.packing s.packing_bits items i (positive s bad) wide known w lt in
            omega (arith, c));
      },
      ap (λ x. x.structures) e,
    )
