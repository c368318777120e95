-- ===== src/Samples/Packing/Places.antt =====
-- include/vita/codec/general_samples.hpp: coordinates and indices of the items of a view are inverse.
use vrt_framework.Prelude.{
  ℕ, ◌+◌, ◌*◌, ◌/◌, ◌%◌, ◌^◌, ◌<◌, ◌≡◌, refl, sym, ap, ◌∙◌, subst, true, false, ◌||◌, not, List,
  arith, ltb, leb, ◌==◌, length,
}
use vrt_framework.Core.Error.{
  error, error_needs, invalid_argument, short_input, ok, ◌>>=◌, >>=-eq-ok, ok-injective, >>-eq-ok,
}
use vrt_framework.Samples.Packing.{
  RepeatMode, SampleKind, real, cartesian, polar, unknown_kind, unrepeated, component, channel,
  unknown_repeat, known_repeat, repeats_well, bad_widths, PackingSpec, Limits, Shape, Coordinates,
  components, measure, PackedSamples, create, local_coordinates, local_index, coordinates, index_of,
}
use vrt_framework.Samples.Packing.Extents.{IsMeasured, measure-IsMeasured}
use native.Mathlib.Nat.{
  div-add-mod', mod-lt, div-lt_iff_lt-mul, div-div-eq-div-mul, mul_comm, mul_assoc,
  mul-add-div_right, mul-add-mod_self_right, div-eq_of_lt, mod-eq_of_lt, mul-le-mul_right, mul-pos,
  suc-mul,
}

-- The coordinates lie in the ranges that `index` checks.
abbrev InRange : ℕ → ℕ → ℕ → Coordinates → Type 0
InRange c r v x = (x.time < r) × (x.channel < v) × (x.component < c)

below : (n k m : ℕ) → 0 < k → n < m * k → n / k < m
below n k m pos lt = (div-lt_iff_lt-mul {x = n} {y = m} pos).1 lt

local_lem :
    (mode : RepeatMode) (kind : SampleKind) (structure c r v local : ℕ)
    → 0 < c
    → 0 < r
    → 0 < v
    → local < v * r * c
    → repeats_well mode kind r ≡ true
    → known_repeat mode ≡ true
    → (local_index mode c r v (local_coordinates mode structure c r v local) ≡ local)
      × InRange c r v (local_coordinates mode structure c r v local)
local_lem unrepeated kind st c r v local pc pr pv lt well known =
    let one : r ≡ 1 = ground (arith, well) in
    let e : v * r * c ≡ v * c = rw one (ap (λ t. t * c) (omega arith)) in
    (
      div-add-mod' local c,
      (omega (arith, one), below local c v pc (omega (arith, e)), mod-lt local pc),
    )
local_lem channel kind st c r v local pc pr pv lt well known =
    let a = local / c in
    let e : local / (c * r) ≡ a / r = sym (div-div-eq-div-mul local c r) in
    let split : (a / r * r + a % r) * c + local % c ≡ local =
      ap (λ t. t * c + local % c) (div-add-mod' a r) ∙ div-add-mod' local c in
    rw e (split, (mod-lt a pr, below a r v pr (below local c (v * r) pc lt), mod-lt local pc))
local_lem component kind st c r v local pc pr pv lt well known =
    let a = local / r in
    let q = a / c in
    let l = q * r + local % r in
    let e : local / (c * r) ≡ q =
      ap (λ t. local / t) (mul_comm c r) ∙ sym (div-div-eq-div-mul local r c) in
    let linear : l / v * v + l % v ≡ l = div-add-mod' l v in
    let m = mod-lt local pr in
    let d : l / r ≡ q = mul-add-div_right pr q (local % r) ∙ rw (div-eq_of_lt m) (omega arith) in
    let md : l % r ≡ local % r = mul-add-mod_self_right q r (local % r) ∙ mod-eq_of_lt m in
    let whole : (q * c + a % c) * r + local % r ≡ local =
      ap (λ t. t * r + local % r) (div-add-mod' a c) ∙ div-add-mod' local r in
    let qv : q < v = below a c v pc (
      below local r (v * c) pr (
        subst (λ t. local < t)
          (mul_assoc v r c ∙ ap (λ t. v * t) (mul_comm r c) ∙ sym (mul_assoc v c r)) lt)) in
    let lv : l < r * v = omega (arith, m, mul-le-mul_right r qv, suc-mul q r, mul_comm r v) in
    rw (e, linear, d, md) (whole, (below l v r pv lv, mod-lt l pv, mod-lt a pc))
local_lem unknown_repeat kind st c r v local pc pr pv lt well known = absurd (ground (arith, known))

local-structure :
    (mode : RepeatMode) (st c r v local : ℕ)
    → (local_coordinates mode st c r v local).structure ≡ st
local-structure unrepeated st c r v local = refl
local-structure channel st c r v local = refl
local-structure component st c r v local = refl
local-structure unknown_repeat st c r v local = refl

components_pos : (kind : SampleKind) → 0 < components kind
components_pos real = omega arith
components_pos cartesian = omega arith
components_pos polar = omega arith
components_pos unknown_kind = omega arith

counts_pos : (s : PackingSpec) → bad_widths s ≡ false → (0 < s.vector_size) × (0 < s.repeat_count)
counts_pos s h = ground (arith, h)

index_of_inside :
    (p : PackedSamples) (x : Coordinates) (i : ℕ)
    → x.structure < p.shape.structures
    → InRange (components p.spec.kind) p.spec.repeat_count p.spec.vector_size x
    → x.structure * p.shape.items_per_structure
        + local_index p.spec.repeating
            (components p.spec.kind)
            p.spec.repeat_count
            p.spec.vector_size
            x
      ≡ i
    → i < 2 ^ 64
    → index_of p x ≡ ok i
unfolding index_of
index_of_inside p x i st (t, ch, co) e b =
    let no : (leb p.shape.structures x.structure
          || leb p.spec.repeat_count x.time
          || leb p.spec.vector_size x.channel
          || leb (components p.spec.kind) x.component)
        ≡ false =
      ground arith in
    rw no (ap ok (omega (arith, e)))

create-eq-ok :
    (bytes : List ℕ) (spec : PackingSpec) (structures : ℕ) (limits : Limits) {p : PackedSamples}
    → create bytes spec structures limits ≡ ok p
    → (shape : Shape) × (measure spec structures limits ≡ ok shape)
      × (p ≡ record { bytes = bytes; spec = spec; shape = shape })
unfolding create
create-eq-ok bytes spec structures limits h =
    let (shape, m, rest) = >>=-eq-ok (measure spec structures limits) _ h in
    let (a, rest1) =
      >>-eq-ok (not (ltb (length bytes) shape.bytes)) (error_needs short_input 0 shape.bytes) _
        rest in
    let (b, rest2) = >>-eq-ok (length bytes == shape.bytes) (error invalid_argument) _ rest1 in
    (shape, m, sym (ok-injective rest2))

coordinates_inside :
    (p : PackedSamples) (i : ℕ)
    → IsMeasured p.spec p.shape
    → i < p.shape.items
    → (coordinates p i >>= index_of p) ≡ ok i
unfolding coordinates
coordinates_inside p i m lt =
    let inside : leb p.shape.items i ≡ false = ground (arith, lt) in
    let (pv, pr) = counts_pos p.spec m.widths in
    let pc = components_pos p.spec.kind in
    let c = components p.spec.kind in
    let r = p.spec.repeat_count in
    let v = p.spec.vector_size in
    let g = p.shape.items_per_structure in
    let pg : 0 < g = subst (λ t. 0 < t) (sym m.group) (mul-pos (mul-pos pv pr) pc) in
    let local : i % g < v * r * c = subst (λ t. i % g < t) m.group (mod-lt i pg) in
    let (e, range) =
      local_lem p.spec.repeating p.spec.kind (i / g) c r v (i % g) pc pr pv local m.repeats
        m.repeat_known in
    let st = local-structure p.spec.repeating (i / g) c r v (i % g) in
    rw inside (
      index_of_inside p (local_coordinates p.spec.repeating (i / g) c r v (i % g)) i
        (rw st (below i g p.shape.structures pg (subst (λ t. i < t) m.total lt))) range
        (rw (st, e) (div-add-mod' i g)) (omega (arith, lt, m.few)))

-- For a view of packed samples, and an index of one of its items, the coordinates of the item lie in the
-- ranges that the inverse function checks, and it gives back the index, in each of the three orders
-- in which components, channels and repetitions can follow one another.
pub index_of-coordinates :
    (bytes : List ℕ) (spec : PackingSpec) (structures : ℕ) (limits : Limits) (p : PackedSamples)
    (i : ℕ)
    → create bytes spec structures limits ≡ ok p
    → i < p.shape.items
    → (coordinates p i >>= index_of p) ≡ ok i
index_of-coordinates bytes spec structures limits p i h lt =
    let (shape, m, e) = create-eq-ok bytes spec structures limits h in
    let ms : IsMeasured p.spec p.shape =
      subst (λ p. IsMeasured p.spec p.shape) (sym e)
        (measure-IsMeasured spec structures limits m).0 in
    coordinates_inside p i ms lt
