-- ===== src/Samples/Bits.antt =====
-- include/vita/codec/general_samples.hpp, namespace detail: fields of any width in a byte sequence, the
-- most significant bit of a byte first.
use vrt_framework.Prelude.{
  &&-cases, ℕ, zero, suc, ◌+◌, ◌-◌, ◌*◌, ◌/◌, ◌%◌, ◌^◌, ◌≤◌, ◌<◌, bit_or, ◌≡◌, refl, sym, ap, ◌∙◌,
  ◌⊎◌, inl, inr, Bool, true, false, ◌&&◌, List, [], ◌∷◌, arith, ltb, ◌==◌, if◌then◌else◌, ltb→lt,
  ==_iff, Bool-cases, add64, length, get_or, set, length-set,
}
use native.Mathlib.Nat.{div-one, pow-suc, div-div-eq-div-mul, div-le_self, div-eq_of_lt}

-- The bit at an index, counted from the most significant bit of the first byte.
abbrev pub bit_at : List ℕ → ℕ → ℕ
bit_at bytes k = get_or bytes (k / 8) 0 / 2 ^ (7 - k % 8) % 2

abbrev pub read_loop : List ℕ → ℕ → ℕ → ℕ → ℕ
read_loop bytes k zero value = value
read_loop bytes k (suc n) value =
    read_loop bytes (add64 k 1) n (value * 2 % 2 ^ 64 + bit_at bytes k)

unfoldable pub read_bits : List ℕ → ℕ → ℕ → ℕ
read_bits bytes offset width = read_loop bytes offset width 0

unfoldable pub set_bit : List ℕ → ℕ → List ℕ
set_bit bytes k = set bytes (k / 8) (bit_or (get_or bytes (k / 8) 0) (2 ^ (7 - k % 8)))

-- `n` bits are left to write, so the next one has the weight 2 ^ (n - 1).
abbrev pub write_loop : List ℕ → ℕ → ℕ → ℕ → List ℕ
write_loop bytes k zero value = bytes
write_loop bytes k (suc n) value =
    write_loop (if value / 2 ^ n % 2 == 1 then set_bit bytes k else bytes) (add64 k 1) n value

unfoldable pub write_bits : List ℕ → ℕ → ℕ → ℕ → List ℕ
unfolding set_bit
write_bits bytes offset width value = write_loop bytes offset width value

-- Whether a test holds of each number under a bound: evaluated over the 256 values of a byte.
sweep : (ℕ → Bool) → ℕ → Bool
sweep test zero = true
sweep test (suc k) = if test k then sweep test k else false

sweep_hits : (test : ℕ → Bool) (k v : ℕ) → sweep test k ≡ true → v < k → test v ≡ true
unfolding sweep
sweep_hits test zero v swept below = absurd (omega arith)
sweep_hits test (suc k) v swept below = ground (arith, sweep_hits test k v)

-- Setting bit `j` of a byte sets that bit and no other, and the byte stays a byte.
bit_or_good : ℕ → ℕ → ℕ → Bool
bit_or_good x j i =
    ltb (bit_or x (2 ^ (7 - j))) 256
    && (bit_or x (2 ^ (7 - j)) / 2 ^ (7 - i) % 2 == (if j == i then 1 else x / 2 ^ (7 - i) % 2))

bit_or_table : sweep (λ x. sweep (λ j. sweep (bit_or_good x j) 8) 8) 256 ≡ true
unfolding sweep bit_or_good
bit_or_table = refl

bit_or_lem :
    (x j i : ℕ)
    → x < 256
    → j < 8
    → i < 8
    → (bit_or x (2 ^ (7 - j)) < 256)
      × (bit_or x (2 ^ (7 - j)) / 2 ^ (7 - i) % 2 ≡ (if j == i then 1 else x / 2 ^ (7 - i) % 2))
unfolding bit_or_good
bit_or_lem x j i hx hj hi =
    let good : bit_or_good x j i ≡ true =
      sweep_hits _ 8 i (sweep_hits _ 8 j (sweep_hits _ 256 x bit_or_table hx) hj) hi in
    let (p, q) = &&-cases _ _ good in (ltb→lt _ _ p, (==_iff _ _).0 q)

abbrev pub Bytes : List ℕ → Type 0
Bytes [] = Unit
Bytes (b ∷ bs) = (b < 256) × Bytes bs

Bytes-get_or : (bs : List ℕ) (i : ℕ) → Bytes bs → get_or bs i 0 < 256
Bytes-get_or [] i h = omega arith
Bytes-get_or (b ∷ bs) zero h = h.0
Bytes-get_or (b ∷ bs) (suc i) h = Bytes-get_or bs i h.1

Bytes-set : (bs : List ℕ) (i v : ℕ) → Bytes bs → v < 256 → Bytes (set bs i v)
Bytes-set [] i v h k = tt
Bytes-set (b ∷ bs) zero v h k = (k, h.1)
Bytes-set (b ∷ bs) (suc i) v h k = (h.0, Bytes-set bs i v h.1 k)

get_or-set :
    (bs : List ℕ) (i j v : ℕ)
    → i < length bs
    → get_or (set bs i v) j 0 ≡ (if i == j then v else get_or bs j 0)
get_or-set [] i j v h = absurd (omega arith)
get_or-set (b ∷ bs) zero zero v h = refl
get_or-set (b ∷ bs) zero (suc j) v h = ground arith
get_or-set (b ∷ bs) (suc i) zero v h = ground arith
get_or-set (b ∷ bs) (suc i) (suc j) v h = ground (arith, get_or-set bs i j v)

set_bit-Bytes : (bs : List ℕ) (k : ℕ) → Bytes bs → Bytes (set_bit bs k)
unfolding set_bit
set_bit-Bytes bs k h =
    Bytes-set bs (k / 8) _ h
      (bit_or_lem (get_or bs (k / 8) 0) (k % 8) 0 (Bytes-get_or bs (k / 8) h) (omega arith)
        (omega arith)).0

bit_at-set_bit :
    (bs : List ℕ) (k j : ℕ)
    → Bytes bs
    → k / 8 < length bs
    → bit_at (set_bit bs k) j ≡ (if k == j then 1 else bit_at bs j)
unfolding set_bit
bit_at-set_bit bs k j h l =
    let old = get_or bs (k / 8) 0 in
    let wrote = get_or-set bs (k / 8) (j / 8) (bit_or old (2 ^ (7 - k % 8))) l in
    let table =
      bit_or_lem old (k % 8) (j % 8) (Bytes-get_or bs (k / 8) h) (omega arith) (omega arith) in
    rw wrote (elim (Bool-cases (k / 8 == j / 8)) [
      | inl here ↦
          let e : k / 8 ≡ j / 8 = (==_iff _ _).0 here in
          rw here (table.1 ∙ rw e (ground (arith, e)))
      | inr there ↦ rw there (ground (arith, there))
    ])

-- The sequence after the next bit of a field.
abbrev next_bytes : List ℕ → ℕ → ℕ → ℕ → List ℕ
next_bytes bs k n v = if v / 2 ^ n % 2 == 1 then set_bit bs k else bs

pub length-set_bit : (bs : List ℕ) (k : ℕ) → length (set_bit bs k) ≡ length bs
unfolding set_bit
length-set_bit bs k = length-set bs (k / 8) _

next-facts :
    (bs : List ℕ) (k n v : ℕ)
    → Bytes bs
    → k < 8 * length bs
    → Bytes (next_bytes bs k n v)
      × (length (next_bytes bs k n v) ≡ length bs)
      × ((j : ℕ)
          → bit_at (next_bytes bs k n v) j
            ≡ (if k == j && v / 2 ^ n % 2 == 1 then 1 else bit_at bs j))
next-facts bs k n v h l = elim (Bool-cases (v / 2 ^ n % 2 == 1)) [
  | inl on ↦ rw on (
    set_bit-Bytes bs k h,
    length-set_bit bs k,
    λ j. rw (bit_at-set_bit bs k j h (omega arith)) (ground arith),
  )
  | inr off ↦ rw off (h, refl, λ j. ground arith)
]

pub write-facts :
    (n : ℕ) (bs : List ℕ) (k v : ℕ)
    → Bytes bs
    → k + n ≤ 8 * length bs
    → 8 * length bs < 2 ^ 64
    → Bytes (write_loop bs k n v) × (length (write_loop bs k n v) ≡ length bs)
write-facts zero bs k v h l b = (h, refl)
write-facts (suc n) bs k v h l b =
    let (h', len, at) = next-facts bs k n v h (omega arith) in
    let e : add64 k 1 ≡ k + 1 = omega arith in
    let (p, q) = write-facts n (next_bytes bs k n v) (k + 1) v h' (omega arith) (omega arith) in
    rw e (p, q ∙ len)

-- Writing a field leaves the bits outside it.
pub write-outside :
    (n : ℕ) (bs : List ℕ) (k v j : ℕ)
    → Bytes bs
    → k + n ≤ 8 * length bs
    → 8 * length bs < 2 ^ 64
    → (j < k) ⊎ (k + n ≤ j)
    → bit_at (write_loop bs k n v) j ≡ bit_at bs j
write-outside zero bs k v j h l b o = refl
write-outside (suc n) bs k v j h l b o =
    let (h', len, at) = next-facts bs k n v h (omega arith) in
    let e : add64 k 1 ≡ k + 1 = omega arith in
    rw e (
      write-outside n (next_bytes bs k n v) (k + 1) v j h' (omega arith) (omega arith)
        (elim o [ inl before ↦ inl (omega arith) | inr after ↦ inr (omega arith) ])
      ∙ at j
      ∙ ground (arith, o))

-- Where the bits of a field were clear, they are those of the value that was written.
pub write-inside :
    (n : ℕ) (bs : List ℕ) (k v i : ℕ)
    → Bytes bs
    → k + n ≤ 8 * length bs
    → 8 * length bs < 2 ^ 64
    → ((j : ℕ) → j < n → bit_at bs (k + j) ≡ 0)
    → i < n
    → bit_at (write_loop bs k n v) (k + (n - 1 - i)) ≡ v / 2 ^ i % 2
write-inside zero bs k v i h l b clear lt = absurd (omega arith)
write-inside (suc n) bs k v i h l b clear lt =
    let (h', len, at) = next-facts bs k n v h (omega arith) in
    let e : add64 k 1 ≡ k + 1 = omega arith in
    elim (Bool-cases (i == n)) [
      | inl first ↦
          let q : k + (suc n - 1 - i) ≡ k = ground (arith, first) in
          let z : bit_at bs k ≡ 0 = ap (bit_at bs) (omega arith) ∙ clear 0 (omega arith) in
          let m : i ≡ n = ground (arith, first) in
          rw (q, e, m)
            (write-outside n (next_bytes bs k n v) (k + 1) v k h' (omega arith) (omega arith)
                (inl (omega arith))
              ∙ at k
              ∙ ground (arith, z))
      | inr later ↦
          let q : k + (suc n - 1 - i) ≡ k + 1 + (n - 1 - i) = ground (arith, later) in
          rw (q, e)
            (write-inside n (next_bytes bs k n v) (k + 1) v i h' (omega arith) (omega arith)
              (λ j jn.
                let c : bit_at bs (k + 1 + j) ≡ 0 =
                  ap (bit_at bs) (omega arith) ∙ clear (j + 1) (omega arith) in
                at (k + 1 + j) ∙ ground (arith, c))
              (ground (arith, later)))
    ]

-- A field whose bits are those of a value is read as that value.
read_loop_lem :
    (n : ℕ) (bs : List ℕ) (k v : ℕ)
    → k + n < 2 ^ 64
    → v < 2 ^ 64
    → ((i : ℕ) → i < n → bit_at bs (k + (n - 1 - i)) ≡ v / 2 ^ i % 2)
    → read_loop bs k n (v / 2 ^ n) ≡ v
read_loop_lem zero bs k v l b same = div-one v
read_loop_lem (suc n) bs k v l b same =
    let e : add64 k 1 ≡ k + 1 = omega arith in
    let half : v / 2 ^ suc n ≡ v / 2 ^ n / 2 =
      ap (λ t. v / t) (pow-suc 2 n) ∙ sym (div-div-eq-div-mul v (2 ^ n) 2) in
    let q : k + (suc n - 1 - n) ≡ k = omega arith in
    let top = ap (bit_at bs) (sym q) ∙ same n (omega arith) in
    let small : v / 2 ^ n ≤ v = div-le_self v (2 ^ n) in
    let value : v / 2 ^ suc n * 2 % 2 ^ 64 + bit_at bs k ≡ v / 2 ^ n =
      omega (arith, half, top, small) in
    rw (e, value)
      (read_loop_lem n bs (k + 1) v (omega arith) b
        (λ i lt. ap (bit_at bs) (omega arith) ∙ same i (omega arith)))

pub read_bits_lem :
    (n : ℕ) (bs : List ℕ) (k v : ℕ)
    → k + n < 2 ^ 64
    → v < 2 ^ 64
    → v < 2 ^ n
    → ((i : ℕ) → i < n → bit_at bs (k + (n - 1 - i)) ≡ v / 2 ^ i % 2)
    → read_bits bs k n ≡ v
unfolding read_bits
read_bits_lem n bs k v l b fit same =
    ap (read_loop bs k n) (sym (div-eq_of_lt fit)) ∙ read_loop_lem n bs k v l b same

-- A field is read from its bits alone.
read_loop_same :
    (n : ℕ) (bs cs : List ℕ) (k value : ℕ)
    → k + n < 2 ^ 64
    → ((j : ℕ) → k ≤ j → j < k + n → bit_at bs j ≡ bit_at cs j)
    → read_loop bs k n value ≡ read_loop cs k n value
read_loop_same zero bs cs k value l same = refl
read_loop_same (suc n) bs cs k value l same =
    let e : add64 k 1 ≡ k + 1 = omega arith in
    rw (e, same k (omega arith) (omega arith))
      (read_loop_same n bs cs (k + 1) _ (omega arith)
        (λ j lo hi. same j (omega arith) (omega arith)))

pub read_bits_same :
    (n : ℕ) (bs cs : List ℕ) (k : ℕ)
    → k + n < 2 ^ 64
    → ((j : ℕ) → k ≤ j → j < k + n → bit_at bs j ≡ bit_at cs j)
    → read_bits bs k n ≡ read_bits cs k n
unfolding read_bits
read_bits_same n bs cs k l same = read_loop_same n bs cs k 0 l same
